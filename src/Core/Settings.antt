-- ===== src/Core/Settings.antt =====
-- The configuration and its defaults of desktop/core/src/config.rs. `Json` is `serde_json::Value`.
use bit_drive.Prelude.{ℕ, String, Bool, true, false, Option, none, List, []}

pub record BluetoothConfig : Type 0 where
  pub adapter_id : Option String
  pub service_uuid : String
  pub device_name : String
  pub auto_connect : Bool
  pub reconnect_interval_sec : ℕ
  pub max_reconnect_attempts : ℕ

pub record DatabaseConfig : Type 0 where
  pub path : String
  pub max_connections : ℕ
  pub backup_enabled : Bool
  pub backup_interval_hours : ℕ
  pub backup_dir : Option String

pub record LoggingConfig : Type 0 where
  pub level : String
  pub format : String
  pub output : String
  pub file_path : Option String
  pub max_file_size_mb : ℕ
  pub max_files : ℕ

pub record SecurityConfig : Type 0 where
  pub psk : Option String
  pub require_authentication : Bool
  pub session_timeout_sec : ℕ
  pub max_failed_attempts : ℕ
  pub lockout_duration_sec : ℕ

pub record ServiceSettings (Json : Type 0) : Type 0 where
  pub enabled : Bool
  pub settings : Json

pub record ServicesConfig (Json : Type 0) : Type 0 where
  pub filesystem : ServiceSettings Json
  pub sync : ServiceSettings Json
  pub photo_backup : ServiceSettings Json
  pub shell : ServiceSettings Json
  pub media_control : ServiceSettings Json
  pub phone_fs : ServiceSettings Json
  pub proximity : ServiceSettings Json
  pub file_stream : ServiceSettings Json
  pub app_launcher : ServiceSettings Json
  pub config : ServiceSettings Json

pub record TrustedDevice : Type 0 where
  pub device_id : String
  pub name : String
  pub paired_at : String
  pub last_seen : String
  pub trusted : Bool
  pub psk : Option String

pub record DeviceConfig : Type 0 where
  pub device_id : Option String
  pub trusted_devices : List TrustedDevice

pub record AppConfig (Json : Type 0) : Type 0 where
  pub bluetooth : BluetoothConfig
  pub database : DatabaseConfig
  pub logging : LoggingConfig
  pub security : SecurityConfig
  pub services : ServicesConfig Json
  pub device : DeviceConfig

abbrev pub default_bluetooth : BluetoothConfig
default_bluetooth = record {
  adapter_id = none;
  service_uuid = "B7E5E0F0-1A2B-4C3D-8E9F-A0B1C2D3E4F5";
  device_name = "BPL Desktop";
  auto_connect = true;
  reconnect_interval_sec = 30;
  max_reconnect_attempts = 10;
}

abbrev pub default_database : DatabaseConfig
default_database = record {
  path = "bpl.db";
  max_connections = 5;
  backup_enabled = true;
  backup_interval_hours = 24;
  backup_dir = none;
}

abbrev pub default_logging : LoggingConfig
default_logging = record {
  level = "info";
  format = "json";
  output = "stdout";
  file_path = none;
  max_file_size_mb = 100;
  max_files = 10;
}

abbrev pub default_security : SecurityConfig
default_security = record {
  psk = none;
  require_authentication = true;
  session_timeout_sec = 3600;
  max_failed_attempts = 5;
  lockout_duration_sec = 300;
}

abbrev pub default_device : DeviceConfig
default_device = record { device_id = none; trusted_devices = [] }

-- `empty` is the empty object.
unfoldable pub default_services : {Json : Type 0} → Json → ServicesConfig Json
default_services empty = record {
  filesystem = record { enabled = true; settings = empty };
  sync = record { enabled = true; settings = empty };
  photo_backup = record { enabled = false; settings = empty };
  shell = record { enabled = true; settings = empty };
  media_control = record { enabled = true; settings = empty };
  phone_fs = record { enabled = true; settings = empty };
  proximity = record { enabled = true; settings = empty };
  file_stream = record { enabled = true; settings = empty };
  app_launcher = record { enabled = true; settings = empty };
  config = record { enabled = true; settings = empty };
}

unfoldable pub default_app : {Json : Type 0} → Json → AppConfig Json
unfolding default_services
default_app empty = record {
  bluetooth = default_bluetooth;
  database = default_database;
  logging = default_logging;
  security = default_security;
  services = default_services empty;
  device = default_device;
}
