-- ===== src/Mux/Manager/Sections.antt =====
-- `open_channel` of desktop/protocol/src/mux.rs in the sections that its locks make: it reads the next
-- number, tests the table, writes the table, and writes the next number, each under a lock of its own,
-- and another call may come between.
use bit_drive.Prelude.{
  ℕ, ◌+◌, ◌≡◌, refl, Bool, true, false, Option, none, some, List, [], ◌∷◌, ◌++◌, length,
  length-append, if◌then◌else◌, leb, min, Bool-cases, Option-cases, inl, inr,
}
use bit_drive.Prelude.Eq.{nat_eq}
use bit_drive.Prelude.Map.{lookup, insert, lookup-insert_self}
use bit_drive.Errors.{Result, ok, err, invalid_argument}
use bit_drive.Pb.Channel.{ChannelConfig}
use bit_drive.Mux.{new}
use bit_drive.Mux.Manager.{
  ChannelManager, opened, wanted, exists_text, insert_channel, insert_free, open_channel, send_to,
  max_channels,
}

-- How far a call has come.
pub data Opening : Type 0 where
  begun : ChannelConfig → Opening
  numbered : ChannelConfig → ℕ → Opening
  free : ChannelConfig → ℕ → Opening
  written : ℕ → (handle : ℕ) → Opening
  finished : Result ℕ → Opening

unfoldable pub tested : ChannelConfig → ℕ → Option ℕ → Opening
tested config channel_id (some handle) = finished (err (invalid_argument (exists_text channel_id)))
tested config channel_id none = free config channel_id

-- One section.
unfoldable pub section_step : ChannelManager → Opening → ChannelManager × Opening
unfolding tested new send_to
section_step m (begun config) = (m, numbered config (wanted m config))
section_step m (numbered config channel_id) = (
  m,
  if leb max_channels channel_id
      then finished (err (invalid_argument "Maximum channels reached"))
      else tested config channel_id (lookup channel_id m.channels),
)
section_step m (free config channel_id) = (
  record m {
    channels = insert channel_id (length m.heap) m.channels;
    event_tx = send_to (opened channel_id) m.event_tx;
    heap = m.heap ++ new (record config { channel_id = some channel_id }) ∷ [];
  },
  written channel_id (length m.heap),
)
section_step m (written channel_id handle) =
    (record m { next_channel_id = min (channel_id + 1) max_channels }, finished (ok handle))
section_step m (finished r) = (m, finished r)

-- Two calls in turn: `true` lets the first go on, `false` the second.
unfoldable pub interleave :
    ChannelManager → Opening → Opening → List Bool → ChannelManager × Opening × Opening
unfolding section_step
interleave m a b [] = (m, a, b)
interleave m a b (true ∷ turns) = let s = section_step m a in interleave s.0 s.1 b turns
interleave m a b (false ∷ turns) = let s = section_step m b in interleave s.0 a s.1 turns

abbrev alone : List Bool
alone = true ∷ true ∷ true ∷ true ∷ []

-- With no other call between its sections, the call is `open_channel`.
pub interleave-alone :
    (m : ChannelManager) (config : ChannelConfig) (b : Opening)
    → interleave m (begun config) b alone
      ≡ ((open_channel m config).0, finished (open_channel m config).1, b)
unfolding interleave section_step tested open_channel insert_free insert_channel
interleave-alone m config b = elim (Bool-cases (leb max_channels (wanted m config))) [
  | inl past ↦ rw past refl
  | inr low ↦ elim (Option-cases (lookup (wanted m config) m.channels)) [
    | inl absent ↦ rw (low, absent) refl
    | inr (h, there) ↦ rw (low, there) refl
  ]
]

-- Two calls that ask for the same free number, each section of the first followed by the same of the
-- second: both succeed, with different channels, and the table holds the second one alone.
pub interleave-race :
    (m : ChannelManager) (config other : ChannelConfig)
    → wanted m other ≡ wanted m config
    → leb max_channels (wanted m config) ≡ false
    → lookup (wanted m config) m.channels ≡ none
    → let run =
        interleave m
          (begun config)
          (begun other)
          (true ∷ false ∷ true ∷ false ∷ true ∷ false ∷ true ∷ false ∷ []) in
      (run.1 ≡ finished (ok (length m.heap)))
      × (run.2 ≡ finished (ok (length m.heap + 1)))
      × (lookup (wanted m config) run.0.channels ≡ some (length m.heap + 1))
unfolding interleave section_step tested
interleave-race m config other same low absent =
    rw (same, low, absent, length-append m.heap _)
      (
        refl,
        refl,
        lookup-insert_self (wanted m config) (length m.heap + 1)
            (insert (wanted m config) (length m.heap) m.channels),
      )
