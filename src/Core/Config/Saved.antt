-- ===== src/Core/Config/Saved.antt =====
-- Writing the file never changes the configuration in memory (desktop/core/src/config.rs); what the
-- settings of the services and the key read back.
use bit_drive.Prelude.{
  ◌≡◌, ◌≢◌, ◌∙◌, sym, ap, refl, ℕ, String, join, Option, none, some, List, inl, inr, ◌⊎◌,
}
use bit_drive.Prelude.Eq.{string_eq}
use bit_drive.Errors.{err, config}
use bit_drive.Core.Settings.{ServiceSettings}
use bit_drive.Core.Config.Slots.{
  Slot, slots, find_slot, read_slot, write_slot, read_slot-write_slot, read_slot-write_slot_ne,
  label-find_slot, label,
}
use bit_drive.Core.Config.{
  Formats, Write, written, refused, ConfigManager, write_to, save_text, save, settings_at,
  get_service_settings, update_at, update_service_settings, get_psk, set_psk, psk_of, decoded,
}

module _ {Json : Type 0} (io : Formats Json) where
  write_to-config :
      (m : ConfigManager Json) (text : String) (w : Write) → (write_to m text w).0.config ≡ m.config
  unfolding write_to
  write_to-config m text written = refl
  write_to-config m text (refused e left) = refl

  save_text-config :
      (m : ConfigManager Json) (w : Write) (t : String ⊎ String)
      → (save_text m w t).0.config ≡ m.config
  unfolding save_text
  save_text-config m w (inl e) = refl
  save_text-config m w (inr text) = write_to-config m text w

  pub save-config : (m : ConfigManager Json) (w : Write) → (save io m w).0.config ≡ m.config
  unfolding save
  save-config m w = save_text-config m w (io.to_string_pretty m.config)

  update_at-found :
      (m : ConfigManager Json) (service : String) (settings : ServiceSettings Json) (w : Write)
      (x : Slot) (other : Option Slot)
      → settings_at (update_at io m service settings w (some x)).0 other
        ≡ settings_at
            (record m {
              config = record m.config { services = write_slot x settings m.config.services };
            })
            other
  unfolding update_at settings_at
  update_at-found m service settings w x none = refl
  update_at-found m service settings w x (some y) =
      ap (λ c. some (read_slot y c.services))
        (save-config
          (record m {
            config = record m.config { services = write_slot x settings m.config.services };
          })
          w)

  settings_at-kept :
      (m : ConfigManager Json) (x : Slot) (settings : ServiceSettings Json) (other : Option Slot)
      → ((y : Slot) → other ≡ some y → x ≢ y)
      → settings_at
          (record m {
            config = record m.config { services = write_slot x settings m.config.services };
          })
          other
        ≡ settings_at m other
  unfolding settings_at
  settings_at-kept m x settings none h = refl
  settings_at-kept m x settings (some y) h =
      ap some (read_slot-write_slot_ne x y settings m.config.services (h y refl))

  -- The settings that are written for a service that the configuration names are read back, and those
  -- of another service stay, also when the file could not be written. For another name the call
  -- fails and changes nothing.
  pub get_service_settings-update_service_settings :
      (m : ConfigManager Json) (service : String) (settings : ServiceSettings Json) (w : Write)
      → let run = update_service_settings io m service settings w in
        ((x : Slot)
          → find_slot service slots ≡ some x
          → (get_service_settings run.0 service ≡ some settings)
            × ((other : String)
                → other ≢ service
                → get_service_settings run.0 other ≡ get_service_settings m other))
        × (find_slot service slots ≡ none
            → (run.0 ≡ m) × (run.1 ≡ err (config (join "Unknown service: " service))))
  unfolding update_service_settings get_service_settings
  get_service_settings-update_service_settings m service settings w = (
    λ x. λ found. (
      rw found (
          update_at-found m service settings w x (some x)
          ∙ ap some (read_slot-write_slot x settings m.config.services)),
      λ other. λ ne. rw found (
          update_at-found m service settings w x (find_slot other slots)
          ∙ settings_at-kept m x settings (find_slot other slots) (λ y. λ there. λ same. ne (
              sym (label-find_slot other slots y there)
              ∙ ap label (sym same)
              ∙ label-find_slot service slots x found))),
    ),
    λ missing. (rw missing refl, rw missing refl),
  )

  -- A key that is set is read back, also when the file could not be written, provided that base64
  -- decodes what it encoded.
  pub get_psk-set_psk :
      (m : ConfigManager Json) (psk : List ℕ) (w : Write)
      → io.decode (io.encode psk) ≡ inr psk
      → get_psk io (set_psk io m psk w).0 ≡ some psk
  unfolding get_psk set_psk psk_of decoded
  get_psk-set_psk m psk w law =
      let sets = record m {
        config = record m.config {
          security = record m.config.security { psk = some (io.encode psk) };
        };
      } in
      ap (λ c. psk_of io c.security.psk) (save-config sets w) ∙ rw law refl
