-- ===== src/Core/App.antt =====
-- `Core` of desktop/core/src/lib.rs: the configuration, the services and the event bus of one process.
-- What the file system, the database and the random generator answer while it is made is `Startup`.
use bit_drive.Prelude.{ℕ, String, Option, List, ◌⊎◌}
use bit_drive.Errors.{Result, ok, ProtocolError, ◌>>=◌}
use bit_drive.Service.{Service, Handle}
use bit_drive.Core.Context.{ServiceContext, ServiceRequest, ServiceResponse, ServiceEvent}
use bit_drive.Core.EventBus.{EventBus}
use bit_drive.Core.EventBus.{new as new_bus}
use bit_drive.Core.Config.{Formats, Write, ConfigManager, load, get, get_or_create_device_id}
use bit_drive.Core.Services.{Ending, ServiceManager, new_manager, init_all, start_all, stop_all}

pub record Startup : Type 0 where
  pub dirs : Option String
  pub created : String ⊎ Unit {0}
  pub file : Option String
  pub first_write : Write
  pub open_database : String → Result Handle
  pub fresh : List ℕ
  pub second_write : Write

pub record Core (S Json : Type 0) : Type 0 where
  pub config : ConfigManager Json
  pub database : Handle
  pub services : ServiceManager S
  pub events : EventBus
  pub device_id : List ℕ

-- The place of the event bus among the shared objects.
abbrev pub bus_handle : Handle
bus_handle = 0

module _ {S Json : Type 0} (io : Formats Json) where
  unfoldable pub assemble : Handle → ConfigManager Json × Result (List ℕ) → Result (Core S Json)
  unfolding new_manager new_bus
  assemble database (config, id) = id >>= λ device_id. ok record {
    config = config;
    database = database;
    services = new_manager bus_handle;
    events = new_bus;
    device_id = device_id;
  }

  unfoldable pub new : Startup → Result (Core S Json)
  unfolding assemble load get get_or_create_device_id
  new s = load io s.dirs s.created s.file s.first_write >>= λ config.
      s.open_database (get config).database.path >>= λ database.
      assemble database (get_or_create_device_id io config s.fresh s.second_write)

module _ {S Json : Type 0}
    (impl : Service S ServiceContext ServiceRequest ServiceResponse ServiceEvent)
    (display : ProtocolError → String) where
  unfoldable pub init : Core S Json → Core S Json × Ending
  unfolding init_all
  init c = let run = init_all impl display c.services in (record c { services = run.0 }, run.1)

  unfoldable pub start : Core S Json → Core S Json × Ending
  unfolding start_all
  start c = let run = start_all impl display c.services in (record c { services = run.0 }, run.1)

  unfoldable pub stop : Core S Json → Core S Json × Result (Unit {0})
  unfolding stop_all
  stop c = let run = stop_all impl display c.services in (record c { services = run.0 }, run.1)
