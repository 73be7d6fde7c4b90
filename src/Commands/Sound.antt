-- ===== src/Commands/Sound.antt =====
-- Every command of the registry keeps the invariant of the storage engine.
pub mod Data
pub mod Admin
pub mod Persisted
use velox_db.Prelude.{
  Option-cases, ℕ, zero, suc, Bytes, codes, List, [], ◌∷◌, Option, none, some, Bool, true, false,
  not, ◌==◌, if◌then◌else◌, Bool-cases, inl, inr, All, bytes_eq, ◌≡◌, refl, ℤ, pos, negsuc, length,
  drop, ltb, ◌%◌, ◌||◌,
}
use velox_db.Util.Status.{Status, is_ok}
use velox_db.Util.Parse.{parse_i64, parse_bool}
use velox_db.Util.Text.{to_upper_ascii, to_lower_ascii}
use velox_db.Storage.Types.{TimePoint, StorageEngine, WriteCode, always, Tick}
use velox_db.Storage.Time.{timepoint_from_unix_ms}
use velox_db.Storage.Engine as Engine
use velox_db.Storage.Engine.Shards.{IsSound}
use velox_db.Storage.Engine.Passes.{flushdb-IsSound}
use velox_db.Storage.Engine.Contract.{set-Written, get-value, del-Updated}
use velox_db.Storage.Engine.Updates.{
  incr_by-Written, append-Written, expire_at-Updated, expire-IsSound, ttl-seen, persist-Updated,
}
use velox_db.Storage.Engine.Reach.{dbsize-Unchanged, expires_count-Unchanged}
use velox_db.Persistence.Aof.{Aof, enabled}
use velox_db.Commands.Context.{
  CommandContext, CommandResult, Call, Handler, tick, ok, persist, persist_or_ok, persist_changed,
  wrong_args,
}
use velox_db.Commands.Options.{Checked, accepted, rejected, SetOptions, set_options, parse_ttl_ms}
use velox_db.Commands.Strings.{
  ping, echo, get, set_with, set_checked, set, del, exists, mget, mset_loop, mset_after, mset,
  strlen_cmd, incr_decr, append, written, set_reply, ttl_from, persisted_set,
}
use velox_db.Commands.Keys.{
  expire_checked, pexpireat_checked, expire_impl, pexpireat, ttl_impl, persist_cmd, dbsize, flushdb,
}
use velox_db.Commands.Admin.{
  info, config_cmd, Checkpoints, save, rewritten, rewrite_in, config_set, config_set_metrics,
  config_get_args, config_set_args, bgsave, bgrewriteaof, shutdown, command_cmd,
}
use velox_db.Commands.Registry.{
  CommandRegistry, put_command, register_command, run_found, find_command, execute, register_all,
  other_commands, default_commands,
}
use velox_db.Commands.Registry.Each.{Each, default_commands-Each}
use velox_db.Commands.Keeps.{
  SoundContext, persist-storage, persist_or_ok-storage, persist_changed-storage, written-storage,
  set_reply-storage, del_keys-IsSound, mget-IsSound, exists-IsSound, mset_after-IsSound,
  mset_loop-IsSound, set_checked-IsSound, expire_checked-IsSound, pexpireat_checked-IsSound,
}
use velox_db.Commands.Sound.Data.{
  get-SoundContext, set-SoundContext, del-SoundContext, exists-SoundContext, mget-SoundContext,
  mset-SoundContext, strlen_cmd-SoundContext, incr_decr-SoundContext, append-SoundContext,
  expire_impl-SoundContext, pexpireat-SoundContext, ttl_impl-SoundContext, persist_cmd-SoundContext,
}
use velox_db.Commands.Sound.Admin.{
  dbsize-SoundContext, flushdb-SoundContext, info-SoundContext, config_cmd-SoundContext,
  shutdown-SoundContext, ping-SoundContext, echo-SoundContext, bgsave-SoundContext,
  command_cmd-SoundContext, IsCheckpoints, save-SoundContext, bgrewriteaof-SoundContext,
}

-- A handler keeps the invariant.
pub record IsSoundHandler (command : Handler) : Type 0 where
  pub keeps :
      (call : Call) (ctx : CommandContext) (args : List Bytes)
      → SoundContext ctx
      → SoundContext (command call ctx args).1

abbrev handler :
    (c : Handler)
    → ((call : Call) (ctx : CommandContext)
        → SoundContext ctx
        → (args : List Bytes) → SoundContext (c call ctx args).1)
    → IsSoundHandler c
handler c h = record { keeps = λ call ctx args w. h call ctx w args }

run_found-IsSound :
    (name upper : Bytes) (reg : CommandRegistry) (call : Call) (ctx : CommandContext)
    (args : List Bytes)
    → All (λ e. IsSoundHandler e.1) reg
    → SoundContext ctx
    → SoundContext (run_found name (find_command upper reg) call ctx args).1
unfolding run_found find_command
run_found-IsSound name upper [] call ctx args a w = w
run_found-IsSound name upper ((n, c) ∷ reg) call ctx args a w =
    elim (Bool-cases (bytes_eq upper n)) [
      | inl e ↦ rw e (a.0.keeps call ctx args w)
      | inr e ↦ rw e (run_found-IsSound name upper reg call ctx args a.1 w)
    ]

execute-SoundContext :
    (reg : CommandRegistry) (call : Call) (ctx : CommandContext) (args : List Bytes)
    → All (λ e. IsSoundHandler e.1) reg
    → SoundContext ctx
    → SoundContext (execute reg call ctx args).1
unfolding execute
execute-SoundContext reg call ctx [] a w = w
execute-SoundContext reg call ctx (name ∷ args) a w =
    run_found-IsSound name (to_upper_ascii name) reg call ctx (name ∷ args) a w

module _ (hash : Bytes → ℕ) (points : Checkpoints) (laws : IsCheckpoints points) where
  other_commands-All : All (λ e. IsSoundHandler e.1) (other_commands hash points)
  other_commands-All = (
    handler ping (ping-SoundContext hash),
    (
      handler echo (echo-SoundContext hash),
      (
        handler (get hash) (get-SoundContext hash),
        (
          handler (set hash) (set-SoundContext hash),
          (
            handler (del hash) (del-SoundContext hash),
            (
              handler (exists hash) (exists-SoundContext hash),
              (
                handler (mget hash) (mget-SoundContext hash),
                (
                  handler (mset hash) (mset-SoundContext hash),
                  (
                    handler (incr_decr hash (pos 1))
                        (λ c x w. incr_decr-SoundContext hash c x w (pos 1)),
                    (
                      handler (incr_decr hash (negsuc 0))
                          (λ c x w. incr_decr-SoundContext hash c x w (negsuc 0)),
                      (
                        handler (append hash) (append-SoundContext hash),
                        (
                          handler (strlen_cmd hash) (strlen_cmd-SoundContext hash),
                          (
                            handler (expire_impl hash 1000 (codes "EXPIRE")) (λ c x w.
                                expire_impl-SoundContext hash c x w 1000 (codes "EXPIRE")),
                            (
                              handler (expire_impl hash 1 (codes "PEXPIRE")) (λ c x w.
                                  expire_impl-SoundContext hash c x w 1 (codes "PEXPIRE")),
                              (
                                handler (pexpireat hash) (pexpireat-SoundContext hash),
                                (
                                  handler (ttl_impl hash false)
                                      (λ c x w. ttl_impl-SoundContext hash c x w false),
                                  (
                                    handler (ttl_impl hash true)
                                        (λ c x w. ttl_impl-SoundContext hash c x w true),
                                    (
                                      handler (persist_cmd hash) (persist_cmd-SoundContext hash),
                                      (
                                        handler dbsize (dbsize-SoundContext hash),
                                        (
                                          handler flushdb (flushdb-SoundContext hash),
                                          (
                                            handler info (info-SoundContext hash),
                                            (
                                              handler config_cmd (config_cmd-SoundContext hash),
                                              (
                                                handler (save points)
                                                    (save-SoundContext points laws),
                                                (
                                                  handler bgsave (bgsave-SoundContext hash),
                                                  (
                                                    handler (bgrewriteaof points)
                                                        (bgrewriteaof-SoundContext points laws),
                                                    (
                                                      handler shutdown (shutdown-SoundContext hash),
                                                      tt,
                                                    ),
                                                  ),
                                                ),
                                              ),
                                            ),
                                          ),
                                        ),
                                      ),
                                    ),
                                  ),
                                ),
                              ),
                            ),
                          ),
                        ),
                      ),
                    ),
                  ),
                ),
              ),
            ),
          ),
        ),
      ),
    ),
  )

  default_commands-All : Each IsSoundHandler (default_commands hash points)
  default_commands-All =
      default_commands-Each IsSoundHandler hash points other_commands-All
        (λ names. handler (command_cmd names) (λ c x w. command_cmd-SoundContext hash c x w names))

  -- Every request that the default registry executes, of a known command or not and with any
  -- arguments, keeps the invariant of the storage engine (unique keys in each shard, the byte
  -- counter of each shard, the memory counter and its limit), where the checkpoints of the
  -- persistence layer keep it.
  pub execute-IsSound :
      (call : Call) (ctx : CommandContext) (args : List Bytes)
      → IsSound ctx.storage
      → IsSound (execute (default_commands hash points) call ctx args).1.storage
  execute-IsSound call ctx args w =
      execute-SoundContext (default_commands hash points) call ctx args default_commands-All w
