-- ===== src/Core/Database/Devices.antt =====
-- The table of devices (desktop/core/src/database.rs).
use bit_drive.Prelude.{
  ◌≡◌, refl, ℕ, String, Bool, true, false, Option, none, some, List, [], ◌∷◌, arith, Bool-cases,
  inl, inr,
}
use bit_drive.Prelude.Eq.{eqb, string_eq, bytes_eq}
use bit_drive.Prelude.Keys.{elem, IsUnique}
use bit_drive.Errors.{err, ProtocolError, database}
use bit_drive.Core.Database.Records.{DeviceRecord}
use bit_drive.Core.Database.Table.{key_column, upsert_row, upsert_row-IsUnique}
use bit_drive.Core.Database.State.{Engine, Database, device_key, execute, constrained}
use bit_drive.Core.Database.{is_address_taken, set_device, upsert_device}

unfoldable pub addresses : List DeviceRecord → List String
addresses [] = []
addresses (r ∷ rs) = r.address ∷ addresses rs

-- No two devices share an identifier, and no two an address.
unfoldable pub IsDirectory : List DeviceRecord → Type 0
IsDirectory rs = IsUnique (key_column device_key rs) × IsUnique (addresses rs)

set_device-key : (row r : DeviceRecord) → (set_device row r).id ≡ r.id
unfolding set_device
set_device-key row r = refl

elem-addresses :
    (id : List ℕ) (a : String) (rs : List DeviceRecord)
    → elem id (key_column device_key rs) ≡ false
    → is_address_taken id a rs ≡ false
    → elem a (addresses rs) ≡ false
unfolding key_column is_address_taken addresses
elem-addresses id a [] h free = refl
elem-addresses id a (r ∷ rs) h free = ground (arith, elem-addresses id a rs)

elem-addresses_after :
    (row : DeviceRecord) (a : String) (rs : List DeviceRecord)
    → elem a (addresses rs) ≡ false
    → eqb row.address a ≡ false
    → elem a (addresses (upsert_row device_key row.id (set_device row) row rs)) ≡ false
unfolding addresses upsert_row set_device
elem-addresses_after row a [] h ne = rw ne refl
elem-addresses_after row a (r ∷ rs) h ne = elim (Bool-cases (eqb r.id row.id)) [
  | inl hit ↦ rw hit (ground (arith, ne, h))
  | inr other ↦ rw other (ground (arith, elem-addresses_after row a rs))
]

addresses-IsUnique :
    (row : DeviceRecord) (rs : List DeviceRecord)
    → IsUnique (key_column device_key rs)
    → IsUnique (addresses rs)
    → is_address_taken row.id row.address rs ≡ false
    → IsUnique (addresses (upsert_row device_key row.id (set_device row) row rs))
unfolding addresses upsert_row set_device IsUnique key_column is_address_taken
addresses-IsUnique row [] u v free = (refl, tt)
addresses-IsUnique row (r ∷ rs) u v free = elim (Bool-cases (eqb r.id row.id)) [
  | inl hit ↦
      let alone : elem row.id (key_column device_key rs) ≡ false =
        rw (← (bytes_eq.beq_iff r.id row.id).0 hit) u.0 in
      let later : is_address_taken row.id row.address rs ≡ false = ground arith in
      rw hit (elem-addresses row.id row.address rs alone later, v.1)
  | inr other ↦
      let apart : (eqb r.address row.address ≡ false)
          × (is_address_taken row.id row.address rs ≡ false) =
        ground arith in
      let apart_back : eqb row.address r.address ≡ false =
        ground (
          arith,
          string_eq.beq_iff row.address r.address,
          string_eq.beq_iff r.address row.address,
        ) in
      rw other (
        elem-addresses_after row r.address rs v.0 apart_back,
        addresses-IsUnique row rs u.1 v.1 apart.1,
      )
]

-- On a table in which no two devices share an identifier or an address, `upsert_device` leaves such a
-- table, whatever fault the call meets; for an address that another identifier has, a call without
-- a fault is answered with the error of the constraint and changes nothing.
pub upsert_device-IsDirectory :
    (engine : Engine) (fault : Option ProtocolError) (now : ℕ) (db : Database) (id : List ℕ)
    (name : Option String) (address : String) (paired trusted : Bool) (psk : Option (List ℕ))
    → IsDirectory db.devices
    → IsDirectory (upsert_device engine fault now db id name address paired trusted psk).0.devices
      × (is_address_taken id address db.devices ≡ true
          → upsert_device engine none now db id name address paired trusted psk
            ≡ (db, err (database (engine.unique_text "devices.address"))))
unfolding upsert_device execute constrained IsDirectory
upsert_device-IsDirectory engine (some e) now db id name address paired trusted psk h =
    (h, λ taken. rw taken refl)
upsert_device-IsDirectory engine none now db id name address paired trusted psk h =
    let row : DeviceRecord = record {
      id = id;
      name = name;
      address = address;
      paired = paired;
      trusted = trusted;
      psk = psk;
      last_seen = some now;
      created_at = now;
      metadata = "{}";
    } in
    (
      elim (Bool-cases (is_address_taken id address db.devices)) [
        | inl taken ↦ rw taken h
        | inr free ↦ rw free (
          upsert_row-IsUnique device_key id (set_device row) row db.devices (set_device-key row)
              refl h.0,
          addresses-IsUnique row db.devices h.0 h.1 free,
        )
      ],
      λ taken. rw taken refl,
    )
