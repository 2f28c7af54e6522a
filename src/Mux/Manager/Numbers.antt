-- ===== src/Mux/Manager/Numbers.antt =====
-- The numbers that `ChannelManager` of desktop/protocol/src/mux.rs gives out.
use bit_drive.Prelude.{
  ℕ, ◌+◌, ◌≤◌, ◌<◌, ◌≡◌, refl, ap, Bool, true, false, Bool-cases, Option, none, some, List, [], ◌∷◌,
  length, get_elem?, leb, ◌==◌, get_elem?-append_new, All, ◌∙◌, Option-cases, inl, inr, min,
  not_leb→lt, length-set, ◌≢◌, ◌⊎◌, leb→le,
}
use bit_drive.Prelude.Eq.{nat_eq}
use bit_drive.Prelude.Map.{lookup, lookup-insert_ne, lookup-insert_self}
use bit_drive.Errors.{ok, err, invalid_argument}
use bit_drive.Pb.Channel.{ChannelConfig}
use bit_drive.Frame.{value_or_zero}
use bit_drive.Mux.{Channel, new}
use bit_drive.Mux.Manager.{
  exists_text, ChannelManager, open_channel, insert_channel, insert_free, close_channel,
  close_found, widen_found, handle_flow_control, update_at, write_found, get_channel, wanted,
}
use bit_drive.Mux.Manager.Invariant.{Request, open_it, close_it, flow_it, serve, serve_all}

open_channel-full :
    (m : ChannelManager) (config : ChannelConfig)
    → leb 16 (wanted m config) ≡ true
    → open_channel m config ≡ (m, err (invalid_argument "Maximum channels reached"))
unfolding open_channel
open_channel-full m config full = rw full refl

open_channel-room :
    (m : ChannelManager) (config : ChannelConfig) (found : Option ℕ)
    → leb 16 (wanted m config) ≡ false
    → lookup (wanted m config) m.channels ≡ found
    → open_channel m config ≡ insert_free m config (wanted m config) found
unfolding open_channel
open_channel-room m config found room e = rw room (ap (insert_free m config (wanted m config)) e)

-- Opening a channel has exactly three outcomes. Where the number that it tries is 16 or more, or is
-- taken, it fails and leaves the manager as it was. Otherwise the number leads to a new channel that
-- carries it and has the windows of its configuration, every other number leads where it led, and
-- the next automatic number is the one after it, at most 16.
pub open_channel_lem :
    (m : ChannelManager) (config : ChannelConfig)
    → let k = wanted m config in
      let after = (open_channel m config).0 in
      ((16 ≤ k) × (open_channel m config ≡ (m, err (invalid_argument "Maximum channels reached"))))
      ⊎ ((h : ℕ) × (get_channel m k ≡ some h)
          × (open_channel m config ≡ (m, err (invalid_argument (exists_text k)))))
      ⊎ ((k < 16)
          × (get_channel m k ≡ none)
          × ((open_channel m config).1 ≡ ok (length m.heap))
          × (get_channel after k ≡ some (length m.heap))
          × (get_elem? after.heap (length m.heap)
              ≡ some (new (record config { channel_id = some k })))
          × ((j : ℕ) → j ≢ k → get_channel after j ≡ get_channel m j)
          × (after.next_channel_id ≡ min (k + 1) 16))
unfolding get_channel insert_free insert_channel
open_channel_lem m config =
    let k = wanted m config in
    elim (Bool-cases (leb 16 k)) [
      | inl full ↦ inl (leb→le 16 k full, open_channel-full m config full)
      | inr room ↦ elim (Option-cases (lookup k m.channels)) [
        | inr (h, e) ↦ inr (inl (h, e, open_channel-room m config (some h) room e))
        | inl e ↦
            let free = open_channel-room m config none room e in
            inr (
              inr (
                not_leb→lt 16 k room,
                e,
                ap (λ r. r.1) free,
                rw free (lookup-insert_self k (length m.heap) m.channels),
                rw free (get_elem?-append_new m.heap _),
                λ j ne. rw free (lookup-insert_ne k j (length m.heap) m.channels ne),
                ap (λ r. r.0.next_channel_id) free,
              ))
      ]
    ]

-- The request names no channel number of its own.
unfoldable pub is_automatic : Request → Bool
is_automatic (open_it config) = value_or_zero config.channel_id == 0
is_automatic (close_it id) = true
is_automatic (flow_it update) = true

length-update_at :
    (h : ℕ) (f : Channel → Channel) (heap : List Channel)
    → length (update_at h f heap) ≡ length heap
unfolding update_at write_found
length-update_at h f heap = elim (Option-cases (get_elem? heap h)) [
  | inl e ↦ rw e refl
  | inr (ch, e) ↦ rw e (length-set heap h (f ch))
]

-- What a request leaves as it was once the numbers are used up.
IsSpent : ChannelManager → ChannelManager → Type 0
IsSpent m after = (after.next_channel_id ≡ 16) × (length after.heap ≡ length m.heap)

close_found-IsSpent :
    (m : ChannelManager) (id : ℕ) (found : Option ℕ)
    → m.next_channel_id ≡ 16
    → IsSpent m (close_found m id found).0
unfolding IsSpent close_found
close_found-IsSpent m id none h = (h, refl)
close_found-IsSpent m id (some handle) h = (h, length-update_at handle _ m.heap)

widen_found-IsSpent :
    (m : ChannelManager) (id increment : ℕ) (found : Option ℕ)
    → m.next_channel_id ≡ 16
    → IsSpent m (widen_found m id increment found).0
unfolding IsSpent widen_found
widen_found-IsSpent m id increment none h = (h, refl)
widen_found-IsSpent m id increment (some handle) h = (h, length-update_at handle _ m.heap)

serve-IsSpent :
    (m : ChannelManager) (r : Request)
    → m.next_channel_id ≡ 16
    → is_automatic r ≡ true
    → IsSpent m (serve m r)
unfolding serve is_automatic close_channel handle_flow_control IsSpent
serve-IsSpent m (open_it config) h auto =
    let full = open_channel-full m config (rw auto (rw h refl)) in
    (ap (λ r. r.0.next_channel_id) full ∙ h, ap (λ r. length r.0.heap) full)
serve-IsSpent m (close_it id) h auto = close_found-IsSpent m id (lookup id m.channels) h
serve-IsSpent m (flow_it update) h auto =
    widen_found-IsSpent m (value_or_zero update.channel_id) update.window_increment
      (get_channel m (value_or_zero update.channel_id)) h

-- Numbers do not come back. Once the next automatic number is 16, no sequence of automatic openings,
-- closings and window updates makes a channel again, even where the closings have emptied the table.
pub serve_all-spent :
    (m : ChannelManager) (rs : List Request)
    → m.next_channel_id ≡ 16
    → All (λ r. is_automatic r ≡ true) rs
    → ((serve_all m rs).next_channel_id ≡ 16) × (length (serve_all m rs).heap ≡ length m.heap)
unfolding serve_all IsSpent
serve_all-spent m [] h autos = (h, refl)
serve_all-spent m (r ∷ rs) h (auto, autos) =
    let (h1, l1) = serve-IsSpent m r h auto in
    let (h2, l2) = serve_all-spent (serve m r) rs h1 autos in (h2, l2 ∙ l1)
