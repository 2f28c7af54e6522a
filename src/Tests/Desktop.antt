-- ===== src/Tests/Desktop.antt =====
-- Examples of desktop/core/src/config.rs, desktop/core/src/events.rs and desktop/daemon/src/main.rs.
use bit_drive.Prelude.{
  ℕ, ◌≤◌, ◌≡◌, ◌≢◌, refl, String, join, true, false, List, [], ◌∷◌, ◌++◌, none, some, inr, arith,
  length, if◌then◌else◌,
}
use bit_drive.Prelude.Eq.{eqb, string_eq}
use bit_drive.Errors.{ok, err, config}
use bit_drive.Core.Events.{service_started, service_stopped, shutdown_requested}
use bit_drive.Core.EventBus.{
  EventBus, publish_all, history, history_size, latest, history-publish_all,
}
use bit_drive.Core.Settings.{ServiceSettings, default_app}
use bit_drive.Core.Config.{
  Formats, Write, written, refused, ConfigManager, load, get_trusted_device, get_service_settings,
  update_service_settings, get_or_create_device_id,
}
use bit_drive.Core.Config.Slots.{Slot, find_slot, slots}
use bit_drive.Core.Config.Saved.{get_service_settings-update_service_settings}
use bit_drive.Core.Config.Devices.{
  Command, add, forget, see, act_all, serve_all, get_trusted_device-serve_all,
}
use bit_drive.Core.Config.Identity.{IsUnusable, get_or_create_device_id_again}
use bit_drive.Core.App.{Startup, Core, new}
use bit_drive.Daemon.{done, fails, new_daemon, initialize, initialize_fails}
use bit_drive.Tests.Managers.{Counter, counter, display_error}

abbrev small_bus : EventBus
small_bus = record { sent = []; event_history = shutdown_requested ∷ []; max_history = 2 }

history-publish_all_example :
    let events = service_started "a" ∷ service_stopped "a" ∷ service_started "b" ∷ [] in
    (history (publish_all small_bus events) ≡ latest 2 (history small_bus ++ events))
    × (history_size (publish_all small_bus events) ≤ 2)
    × ((publish_all small_bus events).sent ≡ [] ++ events)
unfolding history_size
history-publish_all_example =
    history-publish_all small_bus
      (service_started "a" ∷ service_stopped "a" ∷ service_started "b" ∷ []) (omega arith)

abbrev zeros : List ℕ
zeros = 0 ∷ 0 ∷ 0 ∷ 0 ∷ 0 ∷ 0 ∷ 0 ∷ 0 ∷ 0 ∷ 0 ∷ 0 ∷ 0 ∷ 0 ∷ 0 ∷ 0 ∷ 0 ∷ []

-- Formats that know two identifiers.
abbrev formats : Formats String
formats = record {
  encode = λ bytes. "AAAAAAAAAAAAAAAAAAAAAA==";
  decode = λ text. if eqb text "AQI=" then inr (1 ∷ 2 ∷ []) else inr zeros;
  to_string_pretty = λ app. inr "[device]";
  build = λ file. inr (default_app "{}");
}

abbrev manager : ConfigManager String
manager = record { config = default_app "{}"; config_path = "config.toml"; file = none }

abbrev off : ServiceSettings String
off = record { enabled = false; settings = "{}" }

get_service_settings-update_service_settings_example :
    let run = update_service_settings formats manager "shell" off (refused "disk full" none) in
    ((x : Slot)
      → find_slot "shell" slots ≡ some x
      → (get_service_settings run.0 "shell" ≡ some off)
        × ((other : String)
            → other ≢ "shell"
            → get_service_settings run.0 other ≡ get_service_settings manager other))
    × (find_slot "shell" slots ≡ none
        → (run.0 ≡ manager) × (run.1 ≡ err (config (join "Unknown service: " "shell"))))
get_service_settings-update_service_settings_example =
    get_service_settings-update_service_settings formats manager "shell" off
      (refused "disk full" none)

abbrev commands : List (Command × Write)
commands =
    (
      add (record {
        device_id = "phone";
        name = "Phone";
        paired_at = "1";
        last_seen = "1";
        trusted = true;
        psk = none;
      }),
      written,
    )
    ∷ (see "phone" "2", refused "disk full" none)
    ∷ (forget "tablet", written)
    ∷ []

get_trusted_device-serve_all_example :
    get_trusted_device (serve_all formats manager commands) "phone"
    ≡ act_all (get_trusted_device manager) commands "phone"
get_trusted_device-serve_all_example = get_trusted_device-serve_all formats manager commands "phone"

-- A manager with an identifier that is too short.
abbrev short_manager : ConfigManager String
short_manager = record manager {
  config = record manager.config {
    device = record manager.config.device { device_id = some "AQI=" };
  };
}

two_short : length {A = ℕ} (1 ∷ 2 ∷ []) ≢ 16
two_short h = omega arith

get_or_create_device_id_again_example :
    let after =
      (get_or_create_device_id formats short_manager zeros (refused "disk full" none)).0 in
    get_or_create_device_id formats after (1 ∷ []) written ≡ (after, ok zeros)
unfolding IsUnusable
get_or_create_device_id_again_example =
    get_or_create_device_id_again formats short_manager zeros (refused "disk full" none) (1 ∷ [])
      written (1 ∷ 2 ∷ [], refl, two_short) refl refl

abbrev first_start : Startup
first_start = record {
  dirs = some "config.toml";
  created = inr tt;
  file = none;
  first_write = written;
  open_database = λ path. ok 1;
  fresh = zeros;
  second_write = written;
}

initialize_fails_example :
    ((initialize formats counter display_error new_daemon first_start first_start).0 ≡ new_daemon)
    × ((initialize formats counter display_error new_daemon first_start first_start).1 ≢ done)
    × ((m : ConfigManager String) (c : Core Counter String)
        → load formats (some "config.toml") (inr tt) none written ≡ ok m
        → new formats first_start ≡ ok c
        → (initialize formats counter display_error new_daemon first_start first_start).1
          ≡ fails "Failed to initialize services" (config "Service context not set"))
initialize_fails_example =
    initialize_fails formats counter display_error new_daemon first_start first_start
