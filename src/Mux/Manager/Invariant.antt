-- ===== src/Mux/Manager/Invariant.antt =====
-- The table of `ChannelManager` of desktop/protocol/src/mux.rs and the channels it names, over any
-- sequence of calls.
use bit_drive.Prelude.{
  ℕ, ◌≤◌, ◌<◌, ◌≡◌, refl, ap, false, Bool-cases, Option, none, some, List, [], ◌∷◌, ◌++◌, length,
  get_elem?, leb, ◌==◌, arith, get_elem?-append_new, get_elem?-append_old, get_elem?-set_self,
  get_elem?-set_ne, sym, ◌∙◌, ==_iff, not_==, not_leb→lt, some-injective, none≢some, Option-cases,
  ◌⊎◌, inl, inr,
}
use bit_drive.Prelude.Eq.{nat_eq, eqb}
use bit_drive.Prelude.Map.{lookup, remove, lookup-insert, lookup-remove}
use bit_drive.Pb.Channel.{ChannelConfig, FlowControlUpdate}
use bit_drive.Frame.{value_or_zero}
use bit_drive.Mux.{Channel, new, closed, can_send, update_send_window}
use bit_drive.Mux.Manager.{
  ChannelManager, empty, open_channel, insert_channel, close_channel, handle_flow_control,
  update_at, write_found, insert_free, close_found, widen_found, close, widen, wanted, get_channel,
  max_channels,
}

pub data Request : Type 0 where
  open_it : ChannelConfig → Request
  close_it : ℕ → Request
  flow_it : FlowControlUpdate → Request

unfoldable pub serve : ChannelManager → Request → ChannelManager
serve m (open_it config) = (open_channel m config).0
serve m (close_it channel_id) = (close_channel m channel_id).0
serve m (flow_it update) = (handle_flow_control m update).0

unfoldable pub serve_all : ChannelManager → List Request → ChannelManager
unfolding serve
serve_all m [] = m
serve_all m (r ∷ rs) = serve_all (serve m r) rs

-- The handle names a channel that carries this number and has not been opened.
pub IsNamed : List Channel → ℕ → ℕ → Type 0
IsNamed heap k handle =
    (k < 16)
    × (ch : Channel) × (get_elem? heap handle ≡ some ch)
    × (ch.config.channel_id ≡ some k)
    × (ch.state ≡ closed)

pub record IsValid (m : ChannelManager) : Type 0 where
  pub named : (k handle : ℕ) → lookup k m.channels ≡ some handle → IsNamed m.heap k handle
  pub next_bound : (1 ≤ m.next_channel_id) × (m.next_channel_id ≤ 16)

empty-IsValid : IsValid empty
unfolding empty lookup
empty-IsValid = record {
  named = λ k handle h. absurd (cc);
  next_bound = (omega arith, omega arith);
}

append-IsNamed :
    (heap more : List Channel) (k handle : ℕ)
    → IsNamed heap k handle
    → IsNamed (heap ++ more) k handle
unfolding IsNamed
append-IsNamed heap more k handle (lt, ch, e, id, st) =
    (lt, ch, get_elem?-append_old heap more handle e, id, st)

-- A write through one handle, read through another.
update_at-cases :
    (f : Channel → Channel) (heap : List Channel) (at handle : ℕ) (ch : Channel)
    → get_elem? heap handle ≡ some ch
    → (get_elem? (update_at at f heap) handle ≡ some ch)
      ⊎ (get_elem? (update_at at f heap) handle ≡ some (f ch))
unfolding update_at write_found
update_at-cases f heap at handle ch e = elim (Option-cases (get_elem? heap at)) [
  | inl none_at ↦ inl (rw none_at e)
  | inr (c, some_at) ↦ elim (Bool-cases (at == handle)) [
    | inl same ↦
        let at_eq : at ≡ handle = (==_iff at handle).0 same in
        let here : get_elem? heap at ≡ some ch = cc in
        inr (rw here (rw (← at_eq) (get_elem?-set_self heap at (f ch) here)))
    | inr other ↦
        inl (rw some_at (get_elem?-set_ne heap at handle (f c) (not_== at handle other) ∙ e))
  ]
]

-- A change of channels that keeps their numbers and the state `Closed` keeps the names of all.
update_at-IsNamed :
    (f : Channel → Channel) (heap : List Channel) (k handle at : ℕ)
    → ((ch : Channel) → ((f ch).config ≡ ch.config) × (ch.state ≡ closed → (f ch).state ≡ closed))
    → IsNamed heap k handle
    → IsNamed (update_at at f heap) k handle
unfolding IsNamed
update_at-IsNamed f heap k handle at keeps (lt, ch, e, id, st) =
    elim (update_at-cases f heap at handle ch e) [
      | inl same ↦ (lt, ch, same, id, st)
      | inr new_one ↦ (lt, f ch, new_one, rw ((keeps ch).0) id, (keeps ch).1 st)
    ]

new-IsNamed :
    (heap : List Channel) (config : ChannelConfig) (k : ℕ)
    → k < 16
    → IsNamed (heap ++ new (record config { channel_id = some k }) ∷ []) k (length heap)
unfolding IsNamed new
new-IsNamed heap config k lt =
    (lt, new (record config { channel_id = some k }), get_elem?-append_new heap _, refl, refl)

insert_channel-IsValid :
    (m : ChannelManager) (config : ChannelConfig) (k : ℕ)
    → k < 16
    → IsValid m
    → IsValid (insert_channel m config k).0
unfolding insert_channel
insert_channel-IsValid m config k lt v = record {
  named = λ j handle h.
      let found = sym (lookup-insert k j (length m.heap) m.channels) ∙ h in
      elim (Bool-cases (eqb k j)) [
        | inl same ↦
            let k_eq : k ≡ j = (nat_eq.beq_iff k j).0 same in
            let at_eq : some (length m.heap) ≡ some handle = rw same at found in
            rw (← k_eq) (rw (← some-injective at_eq) (new-IsNamed m.heap config k lt))
        | inr other ↦
            append-IsNamed m.heap (new (record config { channel_id = some k }) ∷ []) j handle
              (v.named j handle (rw other at found))
      ];
  next_bound = (omega arith, omega arith);
}

remove-IsNamed :
    (m : ChannelManager) (id j handle : ℕ)
    → IsValid m
    → lookup j (remove id m.channels) ≡ some handle
    → IsNamed m.heap j handle
remove-IsNamed m id j handle v h =
    let found = sym (lookup-remove id j m.channels) ∙ h in
    elim (Bool-cases (eqb id j)) [
      | inl same ↦ absurd (none≢some (rw same at found))
      | inr other ↦ v.named j handle (rw other at found)
    ]

insert_free-IsValid :
    (m : ChannelManager) (config : ChannelConfig) (k : ℕ) (found : Option ℕ)
    → k < 16
    → IsValid m
    → IsValid (insert_free m config k found).0
unfolding insert_free
insert_free-IsValid m config k none lt v = insert_channel-IsValid m config k lt v
insert_free-IsValid m config k (some handle) lt v = v

open_channel-IsValid :
    (m : ChannelManager) (config : ChannelConfig) → IsValid m → IsValid (open_channel m config).0
unfolding open_channel
open_channel-IsValid m config v = elim (Bool-cases (leb max_channels (wanted m config))) [
  | inl full ↦ rw full v
  | inr room ↦ rw room (
      insert_free-IsValid m config (wanted m config) (lookup (wanted m config) m.channels)
        (not_leb→lt max_channels (wanted m config) room) v)
]

close_found-IsValid :
    (m : ChannelManager) (id : ℕ) (found : Option ℕ)
    → IsValid m
    → IsValid (close_found m id found).0
unfolding close_found
close_found-IsValid m id none v = v
close_found-IsValid m id (some handle) v = record {
  named = λ j other h.
      update_at-IsNamed close m.heap j other handle (λ ch. (refl, λ st. refl))
        (remove-IsNamed m id j other v h);
  next_bound = v.next_bound;
}

widen_found-IsValid :
    (m : ChannelManager) (id increment : ℕ) (found : Option ℕ)
    → IsValid m
    → IsValid (widen_found m id increment found).0
unfolding widen_found update_send_window
widen_found-IsValid m id increment none v = v
widen_found-IsValid m id increment (some handle) v = record {
  named = λ j other h.
      update_at-IsNamed (widen increment) m.heap j other handle (λ ch. (refl, λ st. st))
        (v.named j other h);
  next_bound = v.next_bound;
}

serve-IsValid : (m : ChannelManager) (r : Request) → IsValid m → IsValid (serve m r)
unfolding serve close_channel handle_flow_control
serve-IsValid m (open_it config) v = open_channel-IsValid m config v
serve-IsValid m (close_it id) v = close_found-IsValid m id (lookup id m.channels) v
serve-IsValid m (flow_it update) v =
    widen_found-IsValid m (value_or_zero update.channel_id) update.window_increment
      (get_channel m (value_or_zero update.channel_id)) v

serve_all-IsValid : (m : ChannelManager) (rs : List Request) → IsValid m → IsValid (serve_all m rs)
unfolding serve_all
serve_all-IsValid m [] v = v
serve_all-IsValid m (r ∷ rs) v = serve_all-IsValid (serve m r) rs (serve-IsValid m r v)

-- A manager that starts empty keeps, through any sequence of openings, closings and window
-- updates, whatever their outcome, this shape: each number in its table is below 16 and has a
-- channel that carries that number, in the state `Closed`, and the next number lies between 1 and
-- 16.
pub serve_all-empty : (rs : List Request) → IsValid (serve_all empty rs)
serve_all-empty rs = serve_all-IsValid empty rs empty-IsValid

closed_channel : (ch : Channel) (size : ℕ) → ch.state ≡ closed → can_send ch size ≡ false
unfolding can_send
closed_channel ch size st = rw st refl

-- The manager never opens a channel for sending: after any sequence of its calls, each channel in
-- the table refuses a frame of any size.
pub serve_all-can_send :
    (rs : List Request) (k handle : ℕ) (ch : Channel) (size : ℕ)
    → get_channel (serve_all empty rs) k ≡ some handle
    → get_elem? (serve_all empty rs).heap handle ≡ some ch
    → can_send ch size ≡ false
unfolding get_channel IsNamed
serve_all-can_send rs k handle ch size named at =
    let (lt, c, e, id, st) = (serve_all-IsValid empty rs empty-IsValid).named k handle named in
    closed_channel ch size (ap (λ x. x.state) (some-injective (sym at ∙ e)) ∙ st)
