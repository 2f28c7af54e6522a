-- ===== src/Core/Config/Trusted.antt =====
-- The list of trusted devices (desktop/core/src/config.rs), as the closures of `retain`, `find` and
-- `iter_mut().find` walk it.
use bit_drive.Prelude.{
  ◌≡◌, ◌∙◌, refl, String, false, Option, none, some, List, [], ◌∷◌, ◌++◌, if◌then◌else◌, arith,
  Bool-cases, inl, inr,
}
use mathlib.Core.Option.{map as option_map}
use bit_drive.Prelude.Eq.{eqb, string_eq}
use bit_drive.Prelude.Keys.{elem, IsUnique}
use bit_drive.Core.Settings.{TrustedDevice}

-- `retain(|d| d.device_id != device_id)`
unfoldable pub without : String → List TrustedDevice → List TrustedDevice
without id [] = []
without id (d ∷ ds) = let rest = without id ds in if eqb d.device_id id then rest else d ∷ rest

unfoldable pub find_device : String → List TrustedDevice → Option TrustedDevice
find_device id [] = none
find_device id (d ∷ ds) =
    let rest = find_device id ds in if eqb d.device_id id then some d else rest

-- The first device with this identifier is marked.
unfoldable pub mark_seen : String → String → List TrustedDevice → List TrustedDevice
mark_seen now id [] = []
mark_seen now id (d ∷ ds) =
    let rest = mark_seen now id ds in
    if eqb d.device_id id then record d { last_seen = now } ∷ ds else d ∷ rest

-- The identifiers in the list.
unfoldable pub ids : List TrustedDevice → List String
ids [] = []
ids (d ∷ ds) = d.device_id ∷ ids ds

pub find_device-without :
    (id j : String) (ds : List TrustedDevice)
    → find_device j (without id ds) ≡ (if eqb id j then none else find_device j ds)
unfolding find_device without
find_device-without id j [] = ground arith
find_device-without id j (d ∷ ds) = ground (
  arith,
  string_eq.beq_iff id j,
  string_eq.beq_iff d.device_id id,
  string_eq.beq_iff d.device_id j,
  find_device-without id j ds,
)

pub find_device-append :
    (j : String) (d : TrustedDevice) (ds : List TrustedDevice)
    → find_device j ds ≡ none
    → find_device j (ds ++ d ∷ []) ≡ (if eqb d.device_id j then some d else none)
unfolding find_device
find_device-append j d [] h = refl
find_device-append j d (c ∷ ds) h = ground (arith, find_device-append j d ds)

pub find_device-append_ne :
    (j : String) (d : TrustedDevice) (ds : List TrustedDevice)
    → eqb d.device_id j ≡ false
    → find_device j (ds ++ d ∷ []) ≡ find_device j ds
unfolding find_device
find_device-append_ne j d [] h = ground arith
find_device-append_ne j d (c ∷ ds) h = ground (arith, find_device-append_ne j d ds)

abbrev pub seen_at : String → TrustedDevice → TrustedDevice
seen_at now d = record d { last_seen = now }

pub find_device-mark_seen :
    (now id j : String) (ds : List TrustedDevice)
    → find_device j (mark_seen now id ds)
      ≡ (if eqb id j then option_map (seen_at now) (find_device j ds) else find_device j ds)
unfolding find_device mark_seen
find_device-mark_seen now id j [] = ground arith
find_device-mark_seen now id j (d ∷ ds) = ground (
  arith,
  string_eq.beq_iff id j,
  string_eq.beq_iff d.device_id id,
  string_eq.beq_iff d.device_id j,
  find_device-mark_seen now id j ds,
)

pub elem-without :
    (id j : String) (ds : List TrustedDevice)
    → elem j (ids (without id ds)) ≡ (if eqb id j then false else elem j (ids ds))
unfolding ids without
elem-without id j [] = ground arith
elem-without id j (d ∷ ds) = ground (
  arith,
  string_eq.beq_iff id j,
  string_eq.beq_iff d.device_id id,
  string_eq.beq_iff d.device_id j,
  elem-without id j ds,
)

elem-append :
    (j : String) (d : TrustedDevice) (ds : List TrustedDevice)
    → elem j (ids ds) ≡ false
    → eqb d.device_id j ≡ false
    → elem j (ids (ds ++ d ∷ [])) ≡ false
unfolding ids
elem-append j d [] h ne = ground arith
elem-append j d (c ∷ ds) h ne = ground (arith, elem-append j d ds)

pub without-IsUnique :
    (id : String) (ds : List TrustedDevice) → IsUnique (ids ds) → IsUnique (ids (without id ds))
unfolding ids without IsUnique
without-IsUnique id [] u = tt
without-IsUnique id (d ∷ ds) u = elim (Bool-cases (eqb d.device_id id)) [
  | inl same ↦ rw same (without-IsUnique id ds u.1)
  | inr other ↦
      let away : eqb id d.device_id ≡ false =
        ground (arith, string_eq.beq_iff d.device_id id, string_eq.beq_iff id d.device_id) in
      let gone = elem-without id d.device_id ds in
      rw other ((rw away at gone) ∙ u.0, without-IsUnique id ds u.1)
]

pub append-IsUnique :
    (d : TrustedDevice) (ds : List TrustedDevice)
    → IsUnique (ids ds)
    → elem d.device_id (ids ds) ≡ false
    → IsUnique (ids (ds ++ d ∷ []))
unfolding ids IsUnique
append-IsUnique d [] u h = (refl, tt)
append-IsUnique d (c ∷ ds) u h =
    let apart : (eqb d.device_id c.device_id ≡ false) × (elem d.device_id (ids ds) ≡ false) =
      ground (
        arith,
        string_eq.beq_iff d.device_id c.device_id,
        string_eq.beq_iff c.device_id d.device_id,
      ) in
    (elem-append c.device_id d ds u.0 apart.0, append-IsUnique d ds u.1 apart.1)

pub mark_seen-ids : (now id : String) (ds : List TrustedDevice) → ids (mark_seen now id ds) ≡ ids ds
unfolding ids mark_seen
mark_seen-ids now id [] = refl
mark_seen-ids now id (d ∷ ds) = ground (arith, mark_seen-ids now id ds)
