-- ===== src/Config/Types.antt =====
-- The structs of include/veloxdb/config/config.h with their default values.
use velox_db.Prelude.{ℕ, ◌*◌, Bytes, codes, Bool, true, false}

pub record ServerConfig : Type 0 where
  pub host : Bytes
  pub port : ℕ
  pub workers : ℕ
  pub max_clients : ℕ

pub record StorageConfig : Type 0 where
  pub shards : ℕ
  pub max_memory_bytes : ℕ

pub record PersistenceConfig : Type 0 where
  pub aof_enabled : Bool
  pub aof_path : Bytes
  pub fsync_policy : Bytes
  pub snapshot_path : Bytes
  pub manifest_path : Bytes

pub record ExpirationConfig : Type 0 where
  pub active_enabled : Bool
  pub interval_ms : ℕ
  pub sample_per_shard : ℕ

pub record ProtocolConfig : Type 0 where
  pub max_request_bytes : ℕ
  pub max_array_elements : ℕ
  pub max_key_size : ℕ
  pub max_value_size : ℕ
  pub max_output_buffer_bytes : ℕ

-- The structs of one field (`LoggingConfig`, `MetricsConfig`, `AdminConfig`) are that field.
pub record Config : Type 0 where
  pub server : ServerConfig
  pub storage : StorageConfig
  pub persistence : PersistenceConfig
  pub expiration : ExpirationConfig
  pub logging_level : Bytes
  pub metrics_enabled : Bool
  pub shutdown_enabled : Bool
  pub protocol : ProtocolConfig

abbrev mebibyte : ℕ
mebibyte = 1024 * 1024

abbrev pub default_protocol : ProtocolConfig
default_protocol = record {
  max_request_bytes = 64 * mebibyte;
  max_array_elements = 1024;
  max_key_size = 512 * 1024;
  max_value_size = 64 * mebibyte;
  max_output_buffer_bytes = 64 * mebibyte;
}

abbrev pub default_config : Config
default_config = record {
  server = record { host = codes "0.0.0.0"; port = 7379; workers = 4; max_clients = 10000 };
  storage = record { shards = 64; max_memory_bytes = 1024 * mebibyte };
  persistence = record {
    aof_enabled = true;
    aof_path = codes "./data/veloxdb.aof";
    fsync_policy = codes "everysec";
    snapshot_path = codes "./data/veloxdb.snapshot";
    manifest_path = codes "./data/veloxdb.manifest";
  };
  expiration = record { active_enabled = true; interval_ms = 100; sample_per_shard = 20 };
  logging_level = codes "info";
  metrics_enabled = true;
  shutdown_enabled = false;
  protocol = default_protocol;
}
