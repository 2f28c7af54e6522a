-- ===== src/Tests/Channels.antt =====
-- Examples of desktop/protocol/src/mux.rs.
use bit_drive.Prelude.{
  ℕ, ◌-◌, ◌+◌, ◌^◌, ◌≤◌, ◌<◌, ◌≡◌, ◌≢◌, ◌⊎◌, refl, false, some, none, List, [], ◌∷◌, length,
  get_elem?, min, arith,
}
use bit_drive.Prelude.Map.{lookup, insert, remove}
use bit_drive.Errors.{ok, err, invalid_argument}
use bit_drive.Pb.Channel.{ChannelConfig}
use bit_drive.Mux.{Channel, new, can_send, reserve_window}
use bit_drive.Mux.Window.{IsValid, reserve, release, grant, run, run-IsValid, reserve_window_wraps}
use bit_drive.Mux.Manager.{
  exists_text, ChannelManager, empty, open_channel, get_channel, close_channel,
}
use bit_drive.Mux.Manager.Invariant.{
  Request, open_it, close_it, flow_it, serve_all, serve_all-empty, serve_all-can_send,
}
use bit_drive.Mux.Manager.Invariant
use bit_drive.Mux.Manager.Numbers.{is_automatic, open_channel_lem, serve_all-spent}

abbrev plain : ChannelConfig
plain = record {
  channel_id = some 0;
  type = 1;
  priority = 1;
  send_window = 100;
  receive_window = 100;
  max_frame_size = 16384;
  service_id = "bpl.sync";
  metadata = [];
}

-- 60 of 100 bytes in use.
abbrev busy : Channel
busy = record (new plain) { send_window = 100; send_window_used = 60 }

busy-IsValid : IsValid busy
busy-IsValid = record { window = omega arith; used = omega arith }

run-IsValid_example : IsValid (run busy (reserve 30 ∷ release 5 ∷ grant 7 ∷ []))
run-IsValid_example = run-IsValid busy (reserve 30 ∷ release 5 ∷ grant 7 ∷ []) busy-IsValid

reserve_window_wraps_example :
    ((reserve_window busy (2 ^ 32 - 1)).1 ≡ ok tt)
    × ((reserve_window busy (2 ^ 32 - 1)).0.send_window_used + 2 ^ 32 ≡ 60 + (2 ^ 32 - 1))
    × ((reserve_window busy (2 ^ 32 - 1)).0.send_window_used < 60)
reserve_window_wraps_example =
    reserve_window_wraps busy (2 ^ 32 - 1) busy-IsValid (omega arith) (omega arith)

abbrev requests : List Request
requests = open_it plain ∷ open_it plain ∷ close_it 1 ∷ []

serve_all-empty_example : Invariant.IsValid (serve_all empty requests)
serve_all-empty_example = serve_all-empty requests

-- The second channel.
abbrev second : Channel
second = new (record plain { channel_id = some 2 })

serve_all-can_send_example : can_send second 0 ≡ false
unfolding serve_all open_channel get_channel empty lookup close_channel insert remove
serve_all-can_send_example = serve_all-can_send requests 2 1 second 0 refl refl

open_channel_lem_example :
    let after = (open_channel empty plain).0 in
    ((16 ≤ 1)
      × (open_channel empty plain ≡ (empty, err (invalid_argument "Maximum channels reached"))))
    ⊎ ((h : ℕ) × (get_channel empty 1 ≡ some h)
        × (open_channel empty plain ≡ (empty, err (invalid_argument (exists_text 1)))))
    ⊎ ((1 < 16)
        × (get_channel empty 1 ≡ none)
        × ((open_channel empty plain).1 ≡ ok 0)
        × (get_channel after 1 ≡ some 0)
        × (get_elem? after.heap 0 ≡ some (new (record plain { channel_id = some 1 })))
        × ((j : ℕ) → j ≢ 1 → get_channel after j ≡ get_channel empty j)
        × (after.next_channel_id ≡ min (1 + 1) 16))
unfolding empty
open_channel_lem_example = open_channel_lem empty plain

-- No channel is left, and no number either.
abbrev spent : ChannelManager
spent = record { channels = []; next_channel_id = 16; event_tx = none; heap = [] }

serve_all-spent_example :
    ((serve_all spent requests).next_channel_id ≡ 16) × (length (serve_all spent requests).heap ≡ 0)
unfolding is_automatic
serve_all-spent_example = serve_all-spent spent requests refl (refl, (refl, (refl, tt)))
