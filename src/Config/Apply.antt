-- ===== src/Config/Apply.antt =====
-- `ConfigLoader::apply_kv` of src/config/config.cpp: one key with its value, from any of the three
-- sources.
pub mod Valid
use velox_db.Prelude.{
  ℕ, Bool, not, ◌&&◌, Option, none, some, Bytes, codes, ◌++◌, if◌then◌else◌, bytes_eq,
}
use velox_db.Util.Status.{ok_status}
use velox_db.Util.Text.{to_lower_ascii}
use velox_db.Util.Parse.{parse_u64}
use velox_db.Config.Types.{
  ServerConfig, StorageConfig, PersistenceConfig, ExpirationConfig, ProtocolConfig, Config,
}
use velox_db.Config.Values.{Outcome, invalid, strip_quotes, set_u16, set_size, set_bool, set_bytes}

-- The configuration around a field that a setter was called on.
abbrev pub put : {A : Type 0} → (A → Config) → Outcome A → Outcome Config
put around (status, value) = (status, around value)

abbrev with_server : Config → ServerConfig → Config
with_server c s = record c { server = s }

abbrev with_storage : Config → StorageConfig → Config
with_storage c s = record c { storage = s }

abbrev with_persistence : Config → PersistenceConfig → Config
with_persistence c s = record c { persistence = s }

abbrev with_expiration : Config → ExpirationConfig → Config
with_expiration c s = record c { expiration = s }

abbrev with_protocol : Config → ProtocolConfig → Config
with_protocol c s = record c { protocol = s }

unfoldable pub is_policy : Bytes → Bool
unfolding bytes_eq
is_policy policy = not (
    not (bytes_eq policy (codes "always"))
    && not (bytes_eq policy (codes "everysec"))
    && not (bytes_eq policy (codes "no")))

set_policy : Config → Bytes → Outcome Config
unfolding is_policy
set_policy c policy =
    if is_policy policy
    then (ok_status, with_persistence c (record c.persistence { fsync_policy = policy }))
    else (invalid (codes "fsync policy must be always, everysec, or no"), c)

set_interval : Config → Option ℕ → Outcome Config
set_interval c none = (invalid (codes "invalid interval"), c)
set_interval c (some n) = (ok_status, with_expiration c (record c.expiration { interval_ms = n }))

-- The chain of tests on the key, the value without its quotes: from `expiration.active_enabled` on.
apply_later : Config → Bytes → Bytes → Outcome Config
unfolding bytes_eq set_interval to_lower_ascii parse_u64 set_size set_bool set_bytes
apply_later c key v =
    if bytes_eq key (codes "expiration.active_enabled")
    then put (λ b. with_expiration c (record c.expiration { active_enabled = b }))
        (set_bool c.expiration.active_enabled v key)
    else if bytes_eq key (codes "expiration.interval_ms")
    then set_interval c (parse_u64 v)
    else if bytes_eq key (codes "expiration.sample_per_shard")
    then put (λ n. with_expiration c (record c.expiration { sample_per_shard = n }))
        (set_size c.expiration.sample_per_shard v key)
    else if bytes_eq key (codes "logging.level")
    then (ok_status, record c { logging_level = to_lower_ascii v })
    else if bytes_eq key (codes "metrics.enabled")
    then put (λ b. record c { metrics_enabled = b }) (set_bool c.metrics_enabled v key)
    else if bytes_eq key (codes "admin.shutdown_enabled")
    then put (λ b. record c { shutdown_enabled = b }) (set_bool c.shutdown_enabled v key)
    else if bytes_eq key (codes "protocol.max_request_bytes")
    then put (λ n. with_protocol c (record c.protocol { max_request_bytes = n }))
        (set_bytes c.protocol.max_request_bytes v key)
    else if bytes_eq key (codes "protocol.max_array_elements")
    then put (λ n. with_protocol c (record c.protocol { max_array_elements = n }))
        (set_size c.protocol.max_array_elements v key)
    else if bytes_eq key (codes "protocol.max_key_size")
    then put (λ n. with_protocol c (record c.protocol { max_key_size = n }))
        (set_bytes c.protocol.max_key_size v key)
    else if bytes_eq key (codes "protocol.max_value_size")
    then put (λ n. with_protocol c (record c.protocol { max_value_size = n }))
        (set_bytes c.protocol.max_value_size v key)
    else if bytes_eq key (codes "protocol.max_output_buffer_bytes")
    then put (λ n. with_protocol c (record c.protocol { max_output_buffer_bytes = n }))
        (set_bytes c.protocol.max_output_buffer_bytes v key)
    else (invalid (codes "unknown config key: " ++ key), c)

-- The chain from its start.
apply_clean : Config → Bytes → Bytes → Outcome Config
unfolding bytes_eq set_policy apply_later to_lower_ascii set_u16 set_size set_bool set_bytes
apply_clean c key v =
    if bytes_eq key (codes "server.host")
    then (ok_status, with_server c (record c.server { host = v }))
    else if bytes_eq key (codes "server.port")
    then put (λ n. with_server c (record c.server { port = n })) (set_u16 c.server.port v key)
    else if bytes_eq key (codes "server.workers")
    then put (λ n. with_server c (record c.server { workers = n }))
        (set_size c.server.workers v key)
    else if bytes_eq key (codes "server.max_clients")
    then put (λ n. with_server c (record c.server { max_clients = n }))
        (set_size c.server.max_clients v key)
    else if bytes_eq key (codes "storage.shards")
    then put (λ n. with_storage c (record c.storage { shards = n }))
        (set_size c.storage.shards v key)
    else if bytes_eq key (codes "storage.max_memory")
    then put (λ n. with_storage c (record c.storage { max_memory_bytes = n }))
        (set_bytes c.storage.max_memory_bytes v key)
    else if bytes_eq key (codes "storage.max_memory_bytes")
    then put (λ n. with_storage c (record c.storage { max_memory_bytes = n }))
        (set_size c.storage.max_memory_bytes v key)
    else if bytes_eq key (codes "persistence.aof_enabled")
    then put (λ b. with_persistence c (record c.persistence { aof_enabled = b }))
        (set_bool c.persistence.aof_enabled v key)
    else if bytes_eq key (codes "persistence.aof_path")
    then (ok_status, with_persistence c (record c.persistence { aof_path = v }))
    else if bytes_eq key (codes "persistence.fsync_policy")
    then set_policy c (to_lower_ascii v)
    else if bytes_eq key (codes "persistence.snapshot_path")
    then (ok_status, with_persistence c (record c.persistence { snapshot_path = v }))
    else if bytes_eq key (codes "persistence.manifest_path")
    then (ok_status, with_persistence c (record c.persistence { manifest_path = v }))
    else apply_later c key v

unfoldable pub apply_kv : Config → Bytes → Bytes → Outcome Config
unfolding apply_clean strip_quotes
apply_kv c key value = apply_clean c key (strip_quotes value)
