-- ===== src/Startup.antt =====
-- `main` of src/main.cpp up to the start of the server: the configuration, and what is restored from
-- the snapshot and the append-only file.
pub mod Recovered
use velox_db.Prelude.{
  ℕ, suc, Bytes, codes, List, Option, none, some, Bool, true, false, length, take, if◌then◌else◌,
  bytes_eq,
}
use velox_db.Util.Status.{Code, Status, ok_status, fail_with, is_ok}
use velox_db.Config.Types.{Config}
use velox_db.Storage.Types.{StorageEngine, Tick}
use velox_db.Commands.Context.{CommandContext, CommandResult, Call, tick}
use velox_db.Commands.Registry.{CommandRegistry, execute}
use velox_db.Persistence.Files.{Files}
use velox_db.Persistence.Replay.{ReplayStats, replay_file}
use velox_db.Persistence.Store.{SnapshotStore, new_store}
use velox_db.Persistence.Recovery.{RecoveryLoadResult, load, load_for_recovery}

-- `response.rfind("-ERR", 0) == 0`.
unfoldable pub is_error : Bytes → Bool
unfolding bytes_eq
is_error response = bytes_eq (take 4 response) (codes "-ERR")

-- The context of the replay, with the number of commands run.
pub record Replayed : Type 0 where
  pub ctx : CommandContext
  pub count : ℕ

-- The context of the replay: no append-only file, and nothing that `request_shutdown` calls.
abbrev pub replay_context : CommandContext → CommandContext
replay_context ctx = record ctx {
  aof = none;
  has_snapshot = true;
  can_request_shutdown = false;
  replay = true;
}

-- What the start meets: which files open, whether the size of a file can be read, the clock and the
-- allocator at each command of the snapshot, and the surroundings of each command of the log.
pub record StartCalls : Type 0 where
  pub opens : Bytes → Bool
  pub has_size : Bytes → Bool
  pub ticks : ℕ → Tick
  pub replays : ℕ → Call

-- The exit code, where the start fails, and the context.
abbrev pub Restored : Type 0
Restored = Option ℕ × CommandContext

abbrev pub readable : (Bytes → Bool) → Files → Files
readable opens files path = if opens path then files path else none

module _ (registry : CommandRegistry) (replays : ℕ → Call) where
  -- The callback of the replay.
  unfoldable pub replay_command : Replayed → List Bytes → Status × Replayed
  unfolding is_error execute
  replay_command s args =
      let (result, ctx) = execute registry (replays s.count) s.ctx args in
      (
        (if is_error result.response
            then fail_with Code.protocol_error (codes "AOF command failed during replay")
            else ok_status),
        record { ctx = ctx; count = suc s.count },
      )

  pub replayed : Option (ReplayStats × Replayed) → Option Restored
  replayed none = none
  replayed (some (stats, s)) = some ((if is_ok stats.status then none else some 3), s.ctx)

  -- The replay from an offset.
  unfoldable pub replay_log : (opens : Bytes → Bool) → Files → CommandContext → ℕ → Option Restored
  unfolding replayed replay_command replay_file
  replay_log opens files ctx offset = replayed (
      replay_file replay_command (readable opens files) ctx.config.persistence.aof_path
        ctx.config.protocol offset (record { ctx = replay_context ctx; count = 0 }))

abbrev pub store_of : Config → SnapshotStore
store_of config =
    new_store config.persistence.snapshot_path config.protocol config.persistence.manifest_path

size_of : Bool → Option Bytes → ℕ
size_of known none = 0
size_of known (some content) = if known then length content else 0

unfoldable pub aof_size : StartCalls → Files → Bytes → ℕ
unfolding size_of
aof_size calls files path = size_of (calls.has_size path) (files path)

module _ (hash : Bytes → ℕ) (normalize : Bytes → Bytes) (registry : CommandRegistry) where
  snapshot_only : CommandContext → Option (Status × StorageEngine) → Option Restored
  snapshot_only ctx none = none
  snapshot_only ctx (some (status, st)) = some (none, record ctx { storage = st })

  behind_snapshot :
      StartCalls
      → Files
      → CommandContext
      → Option (RecoveryLoadResult × StorageEngine)
      → Option Restored
  unfolding replay_log
  behind_snapshot calls files ctx none = none
  behind_snapshot calls files ctx (some (r, st)) =
      let ctx' = record ctx { storage = st } in
      let offset = if r.loaded_snapshot then r.aof_replay_offset else 0 in
      let log = replay_log registry calls.replays calls.opens files ctx' offset in
      if is_ok r.status then log else some (some 3, ctx')

  -- Between the configuration and the opening of the append-only file.
  unfoldable pub restore : StartCalls → Files → CommandContext → Option Restored
  unfolding snapshot_only behind_snapshot load load_for_recovery aof_size new_store
  restore calls files ctx =
      let path = ctx.config.persistence.aof_path in
      if ctx.config.persistence.aof_enabled
      then behind_snapshot calls files ctx (
          load_for_recovery hash calls.opens normalize (store_of ctx.config) calls.ticks ctx.storage
            path (aof_size calls files path) files)
      else snapshot_only ctx
          (load hash calls.opens (store_of ctx.config) calls.ticks ctx.storage files)
