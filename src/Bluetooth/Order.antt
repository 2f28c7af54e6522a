-- ===== src/Bluetooth/Order.antt =====
-- Reading through `poll_read` (desktop/bluetooth/src/stream.rs): no byte is lost or moved.
use bit_drive.Prelude.{
  ◌≡◌, ◌∙◌, sym, ap, refl, ℕ, zero, suc, ◌≤◌, min, List, [], ◌∷◌, ◌++◌, length, take, drop, ltb,
  arith, Bool-cases, inl, inr, append_assoc, take-append-drop, not_ltb→le,
}
use bit_drive.Errors.{Result, ok, err, panic}
use bit_drive.Bluetooth.Stream.{
  Answer, arrives, load_fails, read_fails, RfcommStream, deliver, poll_load, poll_with, poll_read,
}

-- The bytes that the platform is going to hand over.
unfoldable pub bytes_of : List Answer → List ℕ
bytes_of [] = []
bytes_of (arrives bytes ∷ rest) = bytes ++ bytes_of rest
bytes_of (load_fails e ∷ rest) = bytes_of rest
bytes_of (read_fails e ∷ rest) = bytes_of rest

-- What a call put into the caller's buffer.
unfoldable pub received : Result (List ℕ) → List ℕ
received (ok bytes) = bytes
received (err e) = []
received panic = []

-- Calls in a row, with the room that each buffer has: all bytes that they delivered.
unfoldable pub poll_all : RfcommStream → List ℕ → RfcommStream × List ℕ
unfolding poll_read received
poll_all s [] = (s, [])
poll_all s (room ∷ rooms) =
    let one = poll_read s room in
    let rest = poll_all one.0 rooms in (rest.0, received one.1 ++ rest.1)

-- What is still to come: the internal buffer, then the platform.
unfoldable pub ahead : RfcommStream → List ℕ
unfolding bytes_of
ahead s = s.read_buffer ++ bytes_of s.incoming

cut : (n : ℕ) (bytes later : List ℕ) → take n bytes ++ (drop n bytes ++ later) ≡ bytes ++ later
cut n bytes later =
    sym (append_assoc (take n bytes) (drop n bytes) later)
    ∙ ap (λ all. all ++ later) (take-append-drop n bytes)

take_all : (n : ℕ) (bytes : List ℕ) → length bytes ≤ n → take n bytes ≡ bytes
take_all zero [] h = refl
take_all zero (b ∷ bs) h = absurd (omega arith)
take_all (suc n) [] h = refl
take_all (suc n) (b ∷ bs) h = rw (take_all n bs (omega arith))

deliver-ahead :
    (s : RfcommStream) (room : ℕ) (bytes : List ℕ)
    → s.read_buffer ≡ []
    → received (deliver s room bytes).1 ++ ahead (deliver s room bytes).0
      ≡ bytes ++ bytes_of s.incoming
unfolding deliver received ahead
deliver-ahead s room bytes h =
    let len = min room (length bytes) in
    elim (Bool-cases (ltb len (length bytes))) [
      | inl over ↦ rw (over, h) (cut len bytes (bytes_of s.incoming))
      | inr fits ↦ rw (fits, h, take_all len bytes (not_ltb→le len (length bytes) fits)) refl
    ]

poll_load-ahead :
    (s : RfcommStream) (room : ℕ) (answers : List Answer)
    → s.read_buffer ≡ []
    → s.incoming ≡ answers
    → received (poll_load s room answers).1 ++ ahead (poll_load s room answers).0 ≡ bytes_of answers
unfolding poll_load received ahead bytes_of
poll_load-ahead s room [] h k = rw (h, k) refl
poll_load-ahead s room (arrives [] ∷ rest) h k = rw h refl
poll_load-ahead s room (arrives (b ∷ bs) ∷ rest) h k =
    deliver-ahead (record s { incoming = rest }) room (b ∷ bs) h
poll_load-ahead s room (load_fails e ∷ rest) h k = rw h refl
poll_load-ahead s room (read_fails e ∷ rest) h k = rw h refl

poll_with-ahead :
    (s : RfcommStream) (room : ℕ) (buffered : List ℕ)
    → s.read_buffer ≡ buffered
    → received (poll_with s room buffered).1 ++ ahead (poll_with s room buffered).0
      ≡ buffered ++ bytes_of s.incoming
unfolding poll_with received ahead
poll_with-ahead s room [] h = poll_load-ahead s room s.incoming h refl
poll_with-ahead s room (b ∷ bs) h = cut (min room (length (b ∷ bs))) (b ∷ bs) (bytes_of s.incoming)

-- However much room the buffers of successive calls of `poll_read` have and whatever the platform
-- answers, more bytes than were asked for and errors included: the bytes that the calls delivered,
-- followed by those in the internal buffer and those that the platform has yet to hand over, are
-- the bytes that were in the internal buffer and at the platform before, in the same order.
pub poll_all-ahead :
    (s : RfcommStream) (rooms : List ℕ)
    → (poll_all s rooms).1 ++ ahead (poll_all s rooms).0 ≡ ahead s
unfolding poll_all poll_read ahead
poll_all-ahead s [] = refl
poll_all-ahead s (room ∷ rooms) =
    let one = poll_read s room in
    append_assoc (received one.1) (poll_all one.0 rooms).1 (ahead (poll_all one.0 rooms).0)
    ∙ ap (λ bytes. received one.1 ++ bytes) (poll_all-ahead one.0 rooms)
    ∙ poll_with-ahead s room s.read_buffer refl
