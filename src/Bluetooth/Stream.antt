-- ===== src/Bluetooth/Stream.antt =====
-- `RfcommStream` of desktop/bluetooth/src/stream.rs. The socket, its reader and its writer are the
-- platform's: `incoming` holds what the calls of the reader are going to answer, first call first, and
-- the answers of the writer and of the socket are arguments. The texts of the errors are the platform's.
use bit_drive.Prelude.{
  ℕ, min, String, Bool, true, false, List, [], ◌∷◌, ◌++◌, length, take, drop, ltb, if◌then◌else◌,
}
use bit_drive.Errors.{Result, ok, err, panic, io, bluetooth, ◌>>=◌}

-- What `LoadAsync` answers, and `ReadBytes` after it. No bytes are the end of the stream.
pub data Answer : Type 0 where
  arrives : List ℕ → Answer
  load_fails : String → Answer
  read_fails : String → Answer

pub record StreamConfig : Type 0 where
  pub read_timeout_ms : ℕ
  pub write_timeout_ms : ℕ
  pub buffer_size : ℕ

-- `StreamConfig::default()`
abbrev pub default_stream : StreamConfig
default_stream = record { read_timeout_ms = 30000; write_timeout_ms = 30000; buffer_size = 8192 }

pub record StreamStats : Type 0 where
  pub bytes_read : ℕ
  pub bytes_written : ℕ
  pub closed : Bool

pub record RfcommStream : Type 0 where
  pub incoming : List Answer
  pub config : StreamConfig
  pub read_buffer : List ℕ
  pub write_buffer : List ℕ
  pub closed : Bool

unfoldable pub from_socket : List Answer → RfcommStream
from_socket incoming = record {
  incoming = incoming;
  config = default_stream;
  read_buffer = [];
  write_buffer = [];
  closed = false;
}

unfoldable pub is_closed : RfcommStream → Bool
is_closed s = s.closed

unfoldable pub set_read_timeout : RfcommStream → ℕ → RfcommStream
set_read_timeout s ms = record s { config = record s.config { read_timeout_ms = ms } }

unfoldable pub set_write_timeout : RfcommStream → ℕ → RfcommStream
set_write_timeout s ms = record s { config = record s.config { write_timeout_ms = ms } }

unfoldable pub stats : RfcommStream → StreamStats
stats s = record {
  bytes_read = length s.read_buffer;
  bytes_written = length s.write_buffer;
  closed = s.closed;
}

-- `buf[..loaded].copy_from_slice(..)` for a buffer of this size: a longer slice panics. No answer
-- left is a call that never returns; it is read as the end of the stream.
unfoldable pub read_answer : RfcommStream → ℕ → List Answer → RfcommStream × Result (List ℕ)
read_answer s size [] = (record s { closed = true }, ok [])
read_answer s size (arrives [] ∷ rest) = (record s { closed = true; incoming = rest }, ok [])
read_answer s size (arrives (b ∷ bs) ∷ rest) =
    (record s { incoming = rest }, if ltb size (length (b ∷ bs)) then panic else ok (b ∷ bs))
read_answer s size (load_fails e ∷ rest) = (record s { incoming = rest }, err (bluetooth e))
read_answer s size (read_fails e ∷ rest) = (record s { incoming = rest }, err (bluetooth e))

-- The bytes that are copied into the buffer stand in the place of their number.
unfoldable pub read : RfcommStream → (size : ℕ) → RfcommStream × Result (List ℕ)
unfolding read_answer
read s size = if s.closed then (s, err (io "Stream closed")) else read_answer s size s.incoming

-- `stored` is what `WriteBytes` and `StoreAsync` answer.
unfoldable pub write : RfcommStream → (stored : Result ℕ) → Result ℕ
write s stored = if s.closed then err (io "Stream closed") else stored

unfoldable pub flush : RfcommStream → (flushed : Result (Unit {0})) → Result (Unit {0})
flush s flushed = if s.closed then err (io "Stream closed") else flushed

-- `closing` is what `Close` of the socket answers.
unfoldable pub close :
    RfcommStream → (closing : Result (Unit {0})) → RfcommStream × Result (Unit {0})
close s closing = if s.closed then (s, ok tt) else (record s { closed = true }, closing)

-- What does not fit the caller's buffer goes to the internal one.
unfoldable pub deliver : RfcommStream → (remaining : ℕ) → List ℕ → RfcommStream × Result (List ℕ)
deliver s remaining bytes =
    let len = min remaining (length bytes) in
    (
      if ltb len (length bytes)
          then record s { read_buffer = s.read_buffer ++ drop len bytes }
          else s,
      ok (take len bytes),
    )

-- `poll_read` with an empty internal buffer.
unfoldable pub poll_load :
    RfcommStream → (remaining : ℕ) → List Answer → RfcommStream × Result (List ℕ)
unfolding deliver
poll_load s remaining [] = (record s { closed = true }, ok [])
poll_load s remaining (arrives [] ∷ rest) = (record s { closed = true; incoming = rest }, ok [])
poll_load s remaining (arrives (b ∷ bs) ∷ rest) =
    deliver (record s { incoming = rest }) remaining (b ∷ bs)
poll_load s remaining (load_fails e ∷ rest) = (record s { incoming = rest }, err (io e))
poll_load s remaining (read_fails e ∷ rest) = (record s { incoming = rest }, err (io e))

unfoldable pub poll_with :
    RfcommStream → (remaining : ℕ) → (buffered : List ℕ) → RfcommStream × Result (List ℕ)
unfolding poll_load
poll_with s remaining [] = poll_load s remaining s.incoming
poll_with s remaining (b ∷ bs) =
    let len = min remaining (length (b ∷ bs)) in
    (record s { read_buffer = drop len (b ∷ bs) }, ok (take len (b ∷ bs)))

-- The bytes that are put into a buffer with this much room.
unfoldable pub poll_read : RfcommStream → (remaining : ℕ) → RfcommStream × Result (List ℕ)
unfolding poll_with
poll_read s remaining = poll_with s remaining s.read_buffer

unfoldable pub poll_write : RfcommStream → (stored : Result ℕ) → Result ℕ
poll_write s stored = if s.closed then err (io "Stream closed") else stored

unfoldable pub poll_flush : RfcommStream → (flushed : Result (Unit {0})) → Result (Unit {0})
poll_flush s flushed = if s.closed then err (io "Stream closed") else flushed

-- The stream is closed after the writer is flushed and the socket closed.
unfoldable pub shut : RfcommStream → Result (Unit {0}) → RfcommStream × Result (Unit {0})
shut s (ok _) = (record s { closed = true }, ok tt)
shut s (err e) = (s, err e)
shut s panic = (s, panic)

unfoldable pub poll_shutdown :
    RfcommStream → (flushed closing : Result (Unit {0})) → RfcommStream × Result (Unit {0})
unfolding shut
poll_shutdown s flushed closing = if s.closed then (s, ok tt) else shut s (flushed >>= λ _. closing)
