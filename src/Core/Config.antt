-- ===== src/Core/Config.antt =====
-- `ConfigManager` of desktop/core/src/config.rs. The clones share one configuration, so that the
-- manager is one state; `file` is what stands at `config_path`. What the operating system answers, the
-- random bytes and the clock are arguments; base64 and TOML are the record `Formats`.
pub mod Slots
pub mod Trusted
pub mod Saved
pub mod Devices
pub mod Identity
use bit_drive.Prelude.{
  ℕ, String, join, Bool, true, false, not, Option, none, some, List, [], ◌∷◌, ◌++◌, ◌==◌, length,
  if◌then◌else◌, ◌⊎◌, inl, inr,
}
use bit_drive.Prelude.Eq.{eqb, string_eq}
use bit_drive.Errors.{Result, ok, err, config, ◌>>=◌}
use bit_drive.Core.Settings.{AppConfig, ServiceSettings, TrustedDevice}
use bit_drive.Core.Config.Trusted.{without, find_device, mark_seen}
use bit_drive.Core.Config.Slots.{Slot, slots, find_slot, read_slot, write_slot}

-- Third-party conversions, each with the text of its error on the left.
pub record Formats (Json : Type 0) : Type 0 where
  -- base64 `STANDARD`
  pub encode : List ℕ → String
  pub decode : String → String ⊎ List ℕ
  -- `toml::to_string_pretty`
  pub to_string_pretty : AppConfig Json → String ⊎ String
  -- `Config::builder()` over the file, if there is one, and the environment, then `try_deserialize`
  pub build : Option String → String ⊎ AppConfig Json

-- What becomes of `fs::write`: the text is in the file, or an error with what the file holds then.
pub data Write : Type 0 where
  written : Write
  refused : String → Option String → Write

pub record ConfigManager (Json : Type 0) : Type 0 where
  pub config : AppConfig Json
  pub config_path : String
  pub file : Option String

unfoldable pub decoded : String ⊎ List ℕ → Option (List ℕ)
decoded (inl e) = none
decoded (inr bytes) = some bytes

module _ {Json : Type 0} where
  unfoldable pub get : ConfigManager Json → AppConfig Json
  get m = m.config

  unfoldable pub update :
      ConfigManager Json → (AppConfig Json → AppConfig Json) → ConfigManager Json
  update m f = record m { config = f m.config }

  unfoldable pub write_to :
      ConfigManager Json → String → Write → ConfigManager Json × Result (Unit {0})
  write_to m text written = (record m { file = some text }, ok tt)
  write_to m text (refused e left) = (record m { file = left }, err (config e))

  unfoldable pub save_text :
      ConfigManager Json → Write → String ⊎ String → ConfigManager Json × Result (Unit {0})
  unfolding write_to
  save_text m w (inl e) = (m, err (config e))
  save_text m w (inr text) = write_to m text w

  unfoldable pub get_trusted_devices : ConfigManager Json → List TrustedDevice
  get_trusted_devices m = m.config.device.trusted_devices

  unfoldable pub get_trusted_device : ConfigManager Json → String → Option TrustedDevice
  unfolding find_device
  get_trusted_device m id = find_device id m.config.device.trusted_devices

  unfoldable pub with_devices : ConfigManager Json → List TrustedDevice → ConfigManager Json
  with_devices m ds = record m {
    config = record m.config { device = record m.config.device { trusted_devices = ds } };
  }

  unfoldable pub settings_at : ConfigManager Json → Option Slot → Option (ServiceSettings Json)
  unfolding read_slot
  settings_at m none = none
  settings_at m (some x) = some (read_slot x m.config.services)

  unfoldable pub get_service_settings : ConfigManager Json → String → Option (ServiceSettings Json)
  unfolding settings_at
  get_service_settings m service = settings_at m (find_slot service slots)

  -- `self.save().await?; Ok(device_id)`
  unfoldable pub answer_id :
      List ℕ → ConfigManager Json × Result (Unit {0}) → ConfigManager Json × Result (List ℕ)
  answer_id id (m, r) = (m, r >>= λ _. ok id)

module _ {Json : Type 0} (io : Formats Json) where
  unfoldable pub save : ConfigManager Json → Write → ConfigManager Json × Result (Unit {0})
  unfolding save_text
  save m w = save_text m w (io.to_string_pretty m.config)

  unfoldable pub add_trusted_device :
      ConfigManager Json → TrustedDevice → Write → ConfigManager Json × Result (Unit {0})
  unfolding save with_devices without
  add_trusted_device m device w =
      save
        (with_devices m (without device.device_id m.config.device.trusted_devices ++ device ∷ [])) w

  unfoldable pub remove_trusted_device :
      ConfigManager Json → String → Write → ConfigManager Json × Result (Unit {0})
  unfolding save with_devices without
  remove_trusted_device m id w =
      save (with_devices m (without id m.config.device.trusted_devices)) w

  unfoldable pub update_device_last_seen :
      ConfigManager Json → String → (now : String) → Write → ConfigManager Json × Result (Unit {0})
  unfolding save with_devices mark_seen
  update_device_last_seen m id now w =
      save (with_devices m (mark_seen now id m.config.device.trusted_devices)) w

  unfoldable pub psk_of : Option String → Option (List ℕ)
  unfolding decoded
  psk_of none = none
  psk_of (some s) = decoded (io.decode s)

  unfoldable pub get_psk : ConfigManager Json → Option (List ℕ)
  unfolding psk_of
  get_psk m = psk_of m.config.security.psk

  unfoldable pub set_psk :
      ConfigManager Json → List ℕ → Write → ConfigManager Json × Result (Unit {0})
  unfolding save
  set_psk m psk w =
      save
        (record m {
          config = record m.config {
            security = record m.config.security { psk = some (io.encode psk) };
          };
        })
        w

  -- A new identifier of the random bytes.
  unfoldable pub create_id :
      ConfigManager Json → List ℕ → Write → ConfigManager Json × Result (List ℕ)
  unfolding save answer_id
  create_id m bytes w = answer_id bytes (
      save
        (record m {
          config = record m.config {
            device = record m.config.device { device_id = some (io.encode bytes) };
          };
        })
        w)

  unfoldable pub use_id :
      ConfigManager Json → List ℕ → Write → String ⊎ List ℕ → ConfigManager Json × Result (List ℕ)
  unfolding create_id
  use_id m fresh w (inl e) = (m, err (config (join "Invalid device ID: " e)))
  use_id m fresh w (inr bytes) = if length bytes == 16 then (m, ok bytes) else create_id m fresh w

  unfoldable pub id_found :
      ConfigManager Json → List ℕ → Write → Option String → ConfigManager Json × Result (List ℕ)
  unfolding use_id
  id_found m fresh w none = create_id m fresh w
  id_found m fresh w (some text) = use_id m fresh w (io.decode text)

  unfoldable pub get_or_create_device_id :
      ConfigManager Json → (fresh : List ℕ) → Write → ConfigManager Json × Result (List ℕ)
  unfolding id_found
  get_or_create_device_id m fresh w = id_found m fresh w m.config.device.device_id

  unfoldable pub update_at :
      ConfigManager Json
      → String
      → ServiceSettings Json
      → Write
      → Option Slot
      → ConfigManager Json × Result (Unit {0})
  unfolding save write_slot
  update_at m service settings w none = (m, err (config (join "Unknown service: " service)))
  update_at m service settings w (some x) =
      save
        (record m {
          config = record m.config { services = write_slot x settings m.config.services };
        })
        w

  unfoldable pub update_service_settings :
      ConfigManager Json
      → String
      → ServiceSettings Json
      → Write
      → ConfigManager Json × Result (Unit {0})
  unfolding update_at
  update_service_settings m service settings w =
      update_at m service settings w (find_slot service slots)

  -- The end of `load_from_path`, where a configuration is written that no file held.
  unfoldable pub save_new :
      ConfigManager Json → Write → Option String → ConfigManager Json × Result (Unit {0})
  unfolding save
  save_new m w (some text) = (m, ok tt)
  save_new m w none = save m w

  unfoldable pub loaded : ConfigManager Json × Result (Unit {0}) → Result (ConfigManager Json)
  loaded (m, r) = r >>= λ _. ok m

  unfoldable pub load_built :
      String → Option String → Write → String ⊎ AppConfig Json → Result (ConfigManager Json)
  unfolding save_new loaded
  load_built path file w (inl e) = err (config e)
  load_built path file w (inr app) =
      loaded (save_new (record { config = app; config_path = path; file = file }) w file)

  -- `created` is what `create_dir_all` answers for the parent, if the path has one.
  unfoldable pub load_from_path :
      (path : String) (created : String ⊎ Unit {0}) (file : Option String)
      → Write
      → Result (ConfigManager Json)
  unfolding load_built
  load_from_path path (inl e) file w = err (config e)
  load_from_path path (inr _) file w = load_built path file w (io.build file)

  -- `dirs` is what `dirs::config_dir()` answers, with the name of the file joined to it.
  unfoldable pub load :
      (dirs : Option String) (created : String ⊎ Unit {0}) (file : Option String)
      → Write
      → Result (ConfigManager Json)
  unfolding load_from_path
  load none created file w = err (config "Could not determine config directory")
  load (some path) created file w = load_from_path path created file w
