-- ===== src/Core/Config/Slots.antt =====
-- The settings of the services by name: `get_service_settings` and `update_service_settings` of
-- desktop/core/src/config.rs name the same ten fields.
use bit_drive.Prelude.{
  ◌≡◌, ◌≢◌, refl, String, Option, none, some, List, [], ◌∷◌, if◌then◌else◌, Bool-cases, inl, inr,
  some-injective, none≢some, arith,
}
use bit_drive.Prelude.Eq.{eqb, string_eq}
use bit_drive.Core.Settings.{ServiceSettings, ServicesConfig}

-- A field of `ServicesConfig`.
pub data Slot : Type 0 where
  slot_filesystem slot_sync slot_photo_backup slot_shell slot_media_control slot_phone_fs
        slot_proximity slot_file_stream slot_app_launcher slot_config :
      Slot

unfoldable pub label : Slot → String
label slot_filesystem = "filesystem"
label slot_sync = "sync"
label slot_photo_backup = "photo_backup"
label slot_shell = "shell"
label slot_media_control = "media_control"
label slot_phone_fs = "phone_fs"
label slot_proximity = "proximity"
label slot_file_stream = "file_stream"
label slot_app_launcher = "app_launcher"
label slot_config = "config"

abbrev pub slots : List Slot
slots =
    slot_filesystem ∷ slot_sync ∷ slot_photo_backup ∷ slot_shell ∷ slot_media_control
    ∷ slot_phone_fs ∷ slot_proximity ∷ slot_file_stream ∷ slot_app_launcher ∷ slot_config ∷ []

unfoldable pub find_slot : String → List Slot → Option Slot
unfolding label
find_slot service [] = none
find_slot service (x ∷ xs) =
    let rest = find_slot service xs in if eqb (label x) service then some x else rest

module _ {Json : Type 0} where
  unfoldable pub read_slot : Slot → ServicesConfig Json → ServiceSettings Json
  read_slot slot_filesystem c = c.filesystem
  read_slot slot_sync c = c.sync
  read_slot slot_photo_backup c = c.photo_backup
  read_slot slot_shell c = c.shell
  read_slot slot_media_control c = c.media_control
  read_slot slot_phone_fs c = c.phone_fs
  read_slot slot_proximity c = c.proximity
  read_slot slot_file_stream c = c.file_stream
  read_slot slot_app_launcher c = c.app_launcher
  read_slot slot_config c = c.config

  unfoldable pub write_slot :
      Slot → ServiceSettings Json → ServicesConfig Json → ServicesConfig Json
  write_slot slot_filesystem v c = record c { filesystem = v }
  write_slot slot_sync v c = record c { sync = v }
  write_slot slot_photo_backup v c = record c { photo_backup = v }
  write_slot slot_shell v c = record c { shell = v }
  write_slot slot_media_control v c = record c { media_control = v }
  write_slot slot_phone_fs v c = record c { phone_fs = v }
  write_slot slot_proximity v c = record c { proximity = v }
  write_slot slot_file_stream v c = record c { file_stream = v }
  write_slot slot_app_launcher v c = record c { app_launcher = v }
  write_slot slot_config v c = record c { config = v }

  pub read_slot-write_slot :
      (x : Slot) (v : ServiceSettings Json) (c : ServicesConfig Json)
      → read_slot x (write_slot x v c) ≡ v
  unfolding read_slot write_slot
  read_slot-write_slot slot_filesystem v c = refl
  read_slot-write_slot slot_sync v c = refl
  read_slot-write_slot slot_photo_backup v c = refl
  read_slot-write_slot slot_shell v c = refl
  read_slot-write_slot slot_media_control v c = refl
  read_slot-write_slot slot_phone_fs v c = refl
  read_slot-write_slot slot_proximity v c = refl
  read_slot-write_slot slot_file_stream v c = refl
  read_slot-write_slot slot_app_launcher v c = refl
  read_slot-write_slot slot_config v c = refl

  pub read_slot-write_slot_ne :
      (x y : Slot) (v : ServiceSettings Json) (c : ServicesConfig Json)
      → x ≢ y
      → read_slot y (write_slot x v c) ≡ read_slot y c
  unfolding read_slot write_slot
  read_slot-write_slot_ne x y v c h = ground arith

pub label-find_slot :
    (service : String) (xs : List Slot) (x : Slot)
    → find_slot service xs ≡ some x
    → label x ≡ service
unfolding find_slot
label-find_slot service [] x h = absurd (none≢some h)
label-find_slot service (y ∷ ys) x h = elim (Bool-cases (eqb (label y) service)) [
  | inl same ↦
      let found : some y ≡ some x = rw same at h in
      rw (← some-injective found) ((string_eq.beq_iff (label y) service).0 same)
  | inr other ↦ label-find_slot service ys x (rw other at h)
]
