-- ===== src/Mux/Window.antt =====
-- The send window of a channel of desktop/protocol/src/mux.rs as an account of credit.
use bit_drive.Prelude.{ℕ, ◌+◌, ◌^◌, ◌≤◌, ◌<◌, ◌≡◌, ◌⊎◌, List, [], ◌∷◌, arith}
use bit_drive.Prelude.Words.{IsU32}
use bit_drive.Errors.{ok, err, channel_window_exhausted}
use bit_drive.Frame.{value_or_zero}
use bit_drive.Mux.{Channel, reserve_window, release_window, update_send_window, record_sent}

-- The window is a `u32`, and no more of it is in use than there is.
pub record IsValid (ch : Channel) : Type 0 where
  pub window : IsU32 ch.send_window
  pub used : ch.send_window_used ≤ ch.send_window

-- What a client does to the window of a channel.
pub data Op : Type 0 where
  reserve release grant sent : ℕ → Op

pub apply : Channel → Op → Channel
apply ch (reserve size) = (reserve_window ch size).0
apply ch (release size) = release_window ch size
apply ch (grant increment) = update_send_window ch increment
apply ch (sent size) = record_sent ch size

pub run : Channel → List Op → Channel
unfolding apply
run ch [] = ch
run ch (op ∷ ops) = run (apply ch op) ops

apply-IsValid : (ch : Channel) (op : Op) → IsValid ch → IsValid (apply ch op)
unfolding apply reserve_window release_window update_send_window record_sent
apply-IsValid ch (reserve size) v = ground arith
apply-IsValid ch (release size) v = ground arith
apply-IsValid ch (grant increment) v = ground arith
apply-IsValid ch (sent size) v = ground arith

-- Whatever is reserved, released, granted and recorded as sent, in any order, the window of a
-- channel fits a `u32` and no more of it is in use than there is: if it starts so, it stays so.
pub run-IsValid : (ch : Channel) (ops : List Op) → IsValid ch → IsValid (run ch ops)
unfolding run
run-IsValid ch [] v = v
run-IsValid ch (op ∷ ops) v = run-IsValid (apply ch op) ops (apply-IsValid ch op v)

-- Where the sum fits a `u32`, a reservation succeeds exactly when the window has room, and then
-- takes the size off it; where it fails it changes nothing and names the channel.
pub reserve_window_lem :
    (ch : Channel) (size : ℕ)
    → ch.send_window_used + size < 2 ^ 32
    → ((ch.send_window_used + size ≤ ch.send_window)
        × (reserve_window ch size
            ≡ (record ch { send_window_used = ch.send_window_used + size }, ok tt)))
      ⊎ ((ch.send_window < ch.send_window_used + size)
          × (reserve_window ch size
              ≡ (ch, err (channel_window_exhausted (value_or_zero ch.config.channel_id)))))
unfolding reserve_window
reserve_window_lem ch size h = ground arith

-- A reservation that fits the window, and whose sum fits a `u32`, is undone by its release.
pub release_window-reserve_window :
    (ch : Channel) (size : ℕ)
    → ch.send_window_used + size < 2 ^ 32
    → ch.send_window_used + size ≤ ch.send_window
    → release_window (reserve_window ch size).0 size ≡ ch
unfolding release_window reserve_window
release_window-reserve_window ch size h k = ground arith

-- Past the range of a `u32` the test passes for what the window has no room for: where the channel
-- is well formed, the size fits a `u32` and the sum does not, the reservation succeeds, takes the
-- sum less 2 ^ 32, and leaves less of the window in use than before.
pub reserve_window_wraps :
    (ch : Channel) (size : ℕ)
    → IsValid ch
    → IsU32 size
    → 2 ^ 32 ≤ ch.send_window_used + size
    → ((reserve_window ch size).1 ≡ ok tt)
      × ((reserve_window ch size).0.send_window_used + 2 ^ 32 ≡ ch.send_window_used + size)
      × ((reserve_window ch size).0.send_window_used < ch.send_window_used)
unfolding reserve_window
reserve_window_wraps ch size v h k = ground arith
