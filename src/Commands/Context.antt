-- ===== src/Commands/Context.antt =====
-- What the handlers of src/commands/commands.cpp share: the context, the replies, and the append of
-- a command to the append-only file.
use velox_db.Prelude.{
  ℕ, Bytes, codes, List, [], ◌++◌, Option, none, some, Bool, true, false, get_or, if◌then◌else◌, ℤ,
}
use velox_db.Util.Status.{Status, ok_status, is_ok}
use velox_db.Util.Text.{to_lower_ascii}
use velox_db.Util.LogLevel.{LogLevel}
use velox_db.Config.Types.{Config}
use velox_db.Metrics.{Metrics, aof_write_failed, aof_write_succeeded}
use velox_db.Resp.Encode.{simple, error}
use velox_db.Storage.Types.{TimePoint, StorageEngine, Tick}
use velox_db.Persistence.Aof.{Aof, Io, enabled}
use velox_db.Persistence.Aof as Aof

-- `CommandContext`, with the level of the logger, which is global, and whether `request_shutdown`
-- is set and has been called. A pointer that may be null is an `Option`, or for the snapshot store
-- whether it is there.
pub record CommandContext : Type 0 where
  pub storage : StorageEngine
  pub metrics : Metrics
  pub config : Config
  pub aof : Option Aof
  pub has_snapshot : Bool
  pub can_request_shutdown : Bool
  pub replay : Bool
  pub log_level : LogLevel
  pub shutdown_requested : Bool

pub record CommandResult : Type 0 where
  pub response : Bytes
  pub close_after_write : Bool

-- What one command meets of its surroundings: the readings of the two clocks and the outcomes of
-- allocation, in the order in which the handler comes to them, and the answers to its writes.
pub record Call : Type 0 where
  pub clock : ℕ → TimePoint
  pub alloc : ℕ → Bool
  pub steady : ℤ
  pub io : Io

abbrev pub tick : Call → ℕ → Tick
tick call i = record { now = call.clock i; alloc = call.alloc i }

abbrev pub Handler : Type 0
Handler = Call → CommandContext → List Bytes → CommandResult × CommandContext

-- A reply that leaves the connection open.
abbrev pub reply : Bytes → CommandResult
reply r = record { response = r; close_after_write = false }

unfoldable pub ok : CommandResult
unfolding simple
ok = reply (simple (codes "OK"))

unfoldable pub err : Bytes → CommandResult
unfolding error
err message = reply (error message)

unfoldable pub wrong_args : Bytes → CommandResult
unfolding err to_lower_ascii
wrong_args command =
    err (codes "wrong number of arguments for '" ++ (to_lower_ascii command ++ codes "' command"))

-- `args[0]`
abbrev pub name_of : List Bytes → Bytes
name_of args = get_or args 0 []

-- The append under the three tests of `persist`.
unfoldable pub persist_in : Io → Option Aof → List Bytes → Status × Option Aof
unfolding Aof.append
persist_in io none args = (ok_status, none)
persist_in io (some aof) args =
    if enabled aof
    then (let (status, aof') = Aof.append io aof args in (status, some aof'))
    else (ok_status, some aof)

unfoldable pub persist : Call → CommandContext → List Bytes → Status × CommandContext
unfolding persist_in
persist call ctx args =
    if ctx.replay
    then (ok_status, ctx)
    else (let (status, aof') = persist_in call.io ctx.aof args in
        (status, record ctx { aof = aof' }))

unfoldable pub append_failed : Status → CommandResult
unfolding err
append_failed status = err (codes "persistence append failed: " ++ status.message)

unfoldable pub persist_or_ok :
    Call → CommandContext → List Bytes → CommandResult → CommandResult × CommandContext
unfolding persist append_failed
persist_or_ok call ctx args result =
    let (status, ctx') = persist call ctx args in
    if is_ok status
    then (result, record ctx' { metrics = aof_write_succeeded ctx'.metrics })
    else (append_failed status, record ctx' { metrics = aof_write_failed ctx'.metrics })

-- The tail of the handlers that persist only where they changed something, and leave the metrics
-- alone on success.
unfoldable pub persist_changed :
    Bool → Call → CommandContext → List Bytes → CommandResult → CommandResult × CommandContext
unfolding persist append_failed
persist_changed false call ctx args result = (result, ctx)
persist_changed true call ctx args result =
    let (status, ctx') = persist call ctx args in
    if is_ok status
    then (result, ctx')
    else (append_failed status, record ctx' { metrics = aof_write_failed ctx'.metrics })
