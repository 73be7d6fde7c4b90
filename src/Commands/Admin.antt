-- ===== src/Commands/Admin.antt =====
-- The handlers of src/commands/commands.cpp on the server itself: INFO, CONFIG, SAVE, BGSAVE,
-- BGREWRITEAOF and SHUTDOWN.
use velox_db.Prelude.{
  ℕ, Bytes, codes, List, [], ◌∷◌, ◌++◌, Option, none, some, Bool, true, ◌||◌, if◌then◌else◌, length,
  ltb, bytes_eq, map,
}
use velox_db.Util.Status.{Status, is_ok}
use velox_db.Util.Decimal.{to_string}
use velox_db.Util.Text.{to_lower_ascii, to_upper_ascii}
use velox_db.Util.Parse.{parse_bool}
use velox_db.Util.LogLevel.{parse_log_level, log_level_name}
use velox_db.Metrics.{set_enabled, uptime_seconds, aof_write_failed, aof_write_succeeded}
use velox_db.Resp.Encode.{simple, bulk, array_of_bulk}
use velox_db.Storage.Types.{StorageEngine}
use velox_db.Storage.Engine as Engine
use velox_db.Persistence.Aof.{Aof, enabled}
use velox_db.Commands.Context.{
  CommandContext, CommandResult, Call, Handler, reply, ok, err, wrong_args, name_of,
}

abbrev version : Bytes
version = codes "0.1.0"

abbrev yes_no : Bool → Bytes
yes_no b = if b then codes "yes" else codes "no"

field : Bytes → Bytes → Bytes
field name value = name ++ (value ++ codes "\r\n")

aof_info : Option Aof → Bytes
unfolding field to_string
aof_info none =
    field (codes "aof_enabled:") (codes "0")
    ++ (field (codes "aof_current_size:") (codes "0")
        ++ field (codes "aof_last_write_status:") (codes "ok"))
aof_info (some aof) =
    field (codes "aof_enabled:") (if enabled aof then codes "1" else codes "0")
    ++ (field (codes "aof_current_size:") (to_string aof.current_size)
        ++ field (codes "aof_last_write_status:")
            (if aof.last_write_ok then codes "ok" else codes "err"))

-- The text of INFO, with the two numbers that the sweeps give.
info_text : Call → CommandContext → (keys expires : ℕ) → Bytes
unfolding field to_string uptime_seconds aof_info
info_text call ctx keys expires =
    codes "# Server\r\n"
    ++ (field (codes "veloxdb_version:") version
        ++ (field (codes "uptime_seconds:") (to_string (uptime_seconds ctx.metrics call.steady))
            ++ (field (codes "tcp_port:") (to_string ctx.config.server.port)
                ++ (field (codes "connected_clients:") (to_string ctx.metrics.connected_clients)
                    ++ (codes "\r\n# Memory\r\n"
                        ++ (field (codes "used_memory_estimate:")
                              (to_string ctx.storage.used_memory)
                            ++ (codes "\r\n# Stats\r\n"
                                ++ (field (codes "total_commands_processed:")
                                      (to_string ctx.metrics.total_commands_processed)
                                    ++ (field (codes "total_connections_received:")
                                          (to_string ctx.metrics.total_connections_received)
                                        ++ (field (codes "expired_keys:")
                                              (to_string ctx.storage.expired_keys)
                                            ++ (field (codes "evicted_keys:")
                                                  (to_string ctx.metrics.evicted_keys)
                                                ++ (codes "\r\n# Keyspace\r\ndb0:keys="
                                                    ++ (to_string keys
                                                        ++ (field (codes ",expires=")
                                                            (to_string expires)
                                                            ++ (codes "\r\n# Persistence\r\n"
                                                            ++ aof_info ctx.aof)))))))))))))))

unfoldable pub info : Handler
unfolding info_text Engine.dbsize Engine.expires_count wrong_args bulk
info call ctx args =
    if ltb 2 (length args)
    then (wrong_args (name_of args), ctx)
    else (let (keys, st) = Engine.dbsize ctx.storage (call.clock 0) in
        let (expires, st') = Engine.expires_count st (call.clock 1) in
        (reply (bulk (info_text call ctx keys expires)), record ctx { storage = st' }))

pub config_values : CommandContext → List (Bytes × Bytes)
unfolding to_string log_level_name
config_values ctx =
    (codes "server.host", ctx.config.server.host)
    ∷ (codes "server.port", to_string ctx.config.server.port)
    ∷ (codes "server.workers", to_string ctx.config.server.workers)
    ∷ (codes "server.max_clients", to_string ctx.config.server.max_clients)
    ∷ (codes "storage.shards", to_string ctx.config.storage.shards)
    ∷ (codes "storage.max_memory", to_string ctx.config.storage.max_memory_bytes)
    ∷ (codes "persistence.aof_enabled", yes_no ctx.config.persistence.aof_enabled)
    ∷ (codes "persistence.aof_path", ctx.config.persistence.aof_path)
    ∷ (codes "persistence.fsync_policy", ctx.config.persistence.fsync_policy)
    ∷ (codes "persistence.snapshot_path", ctx.config.persistence.snapshot_path)
    ∷ (codes "persistence.manifest_path", ctx.config.persistence.manifest_path)
    ∷ (codes "expiration.active_enabled", yes_no ctx.config.expiration.active_enabled)
    ∷ (codes "expiration.interval_ms", to_string ctx.config.expiration.interval_ms)
    ∷ (codes "logging.level", log_level_name ctx.log_level)
    ∷ (codes "metrics.enabled", yes_no ctx.metrics.enabled)
    ∷ (codes "admin.shutdown_enabled", yes_no ctx.config.shutdown_enabled)
    ∷ (codes "protocol.max_request_bytes", to_string ctx.config.protocol.max_request_bytes)
    ∷ (codes "protocol.max_key_size", to_string ctx.config.protocol.max_key_size)
    ∷ (codes "protocol.max_value_size", to_string ctx.config.protocol.max_value_size)
    ∷ []

-- The pairs that the pattern of CONFIG GET takes, in the form that `bulk_pairs` gives them.
matched : Bytes → List (Bytes × Bytes) → List (Option Bytes)
unfolding bytes_eq to_lower_ascii
matched pattern [] = []
matched pattern ((key, value) ∷ pairs) =
    let rest = matched pattern pairs in
    if bytes_eq pattern (codes "*") || bytes_eq pattern (to_lower_ascii key)
    then some key ∷ some value ∷ rest
    else rest

unfoldable pub config_set_metrics : CommandContext → Option Bool → CommandResult × CommandContext
unfolding err ok
config_set_metrics ctx none = (err (codes "invalid bool value"), ctx)
config_set_metrics ctx (some b) = (ok, record ctx { metrics = set_enabled b ctx.metrics })

unfoldable pub config_set : CommandContext → Bytes → Bytes → CommandResult × CommandContext
unfolding bytes_eq config_set_metrics parse_log_level parse_bool
config_set ctx key value =
    if bytes_eq key (codes "logging.level")
    then (ok, record ctx { log_level = parse_log_level value })
    else if bytes_eq key (codes "metrics.enabled")
    then config_set_metrics ctx (parse_bool value)
    else (
      err (codes "CONFIG SET only supports safe runtime values: logging.level, metrics.enabled"),
      ctx,
    )

unfoldable pub config_get_args : CommandContext → List Bytes → CommandResult × CommandContext
unfolding matched config_values wrong_args array_of_bulk to_lower_ascii
config_get_args ctx (name ∷ sub ∷ pattern ∷ []) =
    (reply (array_of_bulk (matched (to_lower_ascii pattern) (config_values ctx))), ctx)
config_get_args ctx args = (wrong_args (name_of args), ctx)

unfoldable pub config_set_args : CommandContext → List Bytes → CommandResult × CommandContext
unfolding config_set wrong_args to_lower_ascii
config_set_args ctx (name ∷ sub ∷ key ∷ value ∷ []) = config_set ctx (to_lower_ascii key) value
config_set_args ctx args = (wrong_args (name_of args), ctx)

unfoldable pub config_cmd : Handler
unfolding config_get_args config_set_args wrong_args err bytes_eq to_upper_ascii
config_cmd call ctx (name ∷ sub ∷ args) =
    if bytes_eq (to_upper_ascii sub) (codes "GET")
    then config_get_args ctx (name ∷ sub ∷ args)
    else if bytes_eq (to_upper_ascii sub) (codes "SET")
    then config_set_args ctx (name ∷ sub ∷ args)
    else (err (codes "unsupported CONFIG subcommand"), ctx)
config_cmd call ctx args = (wrong_args (name_of args), ctx)

-- What SAVE and BGREWRITEAOF call of the persistence layer: `SnapshotStore::save` and `Aof::rewrite`.
pub record Checkpoints : Type 0 where
  pub save : Call → StorageEngine → Option Aof → Status × StorageEngine
  pub rewrite : Call → StorageEngine → Aof → Status × (StorageEngine × Aof)

module _ (points : Checkpoints) where
  unfoldable pub save : Handler
  unfolding ok err wrong_args
  save call ctx (name ∷ []) =
      if ctx.has_snapshot
      then (let (status, st) = points.save call ctx.storage ctx.aof in
          (if is_ok status then ok else err status.message, record ctx { storage = st }))
      else (err (codes "snapshot store is not configured"), ctx)
  save call ctx args = (wrong_args (name_of args), ctx)

  unfoldable pub rewritten : CommandContext → Status → CommandResult × CommandContext
  unfolding ok err
  rewritten ctx status =
      if is_ok status then (ok, record ctx { metrics = aof_write_succeeded ctx.metrics }) else (
        err (codes "AOF rewrite failed: " ++ status.message),
        record ctx { metrics = aof_write_failed ctx.metrics },
      )

  unfoldable pub rewrite_in : Call → CommandContext → Option Aof → CommandResult × CommandContext
  unfolding rewritten err
  rewrite_in call ctx none = (err (codes "AOF is disabled"), ctx)
  rewrite_in call ctx (some aof) =
      if enabled aof
      then (let (status, (st, aof')) = points.rewrite call ctx.storage aof in
          rewritten (record ctx { storage = st; aof = some aof' }) status)
      else (err (codes "AOF is disabled"), ctx)

  unfoldable pub bgrewriteaof : Handler
  unfolding rewrite_in wrong_args
  bgrewriteaof call ctx (name ∷ []) = rewrite_in call ctx ctx.aof
  bgrewriteaof call ctx args = (wrong_args (name_of args), ctx)

unfoldable pub bgsave : Handler
unfolding err wrong_args
bgsave call ctx (name ∷ []) =
    (err (codes "BGSAVE is planned; use SAVE for the MVP snapshot path"), ctx)
bgsave call ctx args = (wrong_args (name_of args), ctx)

-- The `fsync` of the append-only file has no effect on what it holds.
unfoldable pub shutdown : Handler
unfolding err wrong_args simple
shutdown call ctx args =
    if ltb 2 (length args)
    then (wrong_args (name_of args), ctx)
    else if ctx.config.shutdown_enabled
    then (
      record { response = simple (codes "OK"); close_after_write = true },
      record ctx { shutdown_requested = ctx.shutdown_requested || ctx.can_request_shutdown },
    )
    else (err (codes "SHUTDOWN is disabled by configuration"), ctx)

unfoldable pub command_cmd : (names : List Bytes) → Handler
unfolding wrong_args array_of_bulk
command_cmd names call ctx (name ∷ []) = (reply (array_of_bulk (map some names)), ctx)
command_cmd names call ctx args = (wrong_args (name_of args), ctx)
