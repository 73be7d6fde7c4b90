-- ===== src/Commands/Sound/Admin.antt =====
-- The commands on the server itself keep the invariant of the storage engine.
use velox_db.Prelude.{
  Option-cases, ℕ, Bytes, codes, List, [], ◌∷◌, Option, none, some, Bool-cases, inl, inr, bytes_eq,
  length, ltb,
}
use velox_db.Util.Status.{is_ok}
use velox_db.Util.Parse.{parse_bool}
use velox_db.Util.Text.{to_upper_ascii, to_lower_ascii}
use velox_db.Storage.Types.{StorageEngine}
use velox_db.Storage.Engine.Shards.{IsSound}
use velox_db.Storage.Engine.Passes.{flushdb-IsSound}
use velox_db.Storage.Engine.Reach.{dbsize-Unchanged, expires_count-Unchanged}
use velox_db.Persistence.Aof.{Aof, enabled}
use velox_db.Commands.Context.{CommandContext, Call}
use velox_db.Commands.Strings.{ping, echo}
use velox_db.Commands.Keys.{dbsize, flushdb}
use velox_db.Commands.Admin.{
  info, config_cmd, Checkpoints, save, rewritten, rewrite_in, config_set, config_set_metrics,
  config_get_args, config_set_args, bgsave, bgrewriteaof, shutdown, command_cmd,
}
use velox_db.Commands.Keeps.{SoundContext, persist_or_ok-storage}

module _ (hash : Bytes → ℕ) (call : Call) (ctx : CommandContext) (w : SoundContext ctx) where
  pub dbsize-SoundContext : (args : List Bytes) → SoundContext (dbsize call ctx args).1
  unfolding dbsize
  dbsize-SoundContext [] = w
  dbsize-SoundContext (name ∷ []) = (dbsize-Unchanged hash ctx.storage w (call.clock 0)).0
  dbsize-SoundContext (name ∷ x ∷ xs) = w

  pub flushdb-SoundContext : (args : List Bytes) → SoundContext (flushdb call ctx args).1
  unfolding flushdb
  flushdb-SoundContext [] = w
  flushdb-SoundContext (name ∷ []) = rw persist_or_ok-storage (flushdb-IsSound ctx.storage w)
  flushdb-SoundContext (name ∷ x ∷ xs) = w

  pub info-SoundContext : (args : List Bytes) → SoundContext (info call ctx args).1
  unfolding info
  info-SoundContext args = elim (Bool-cases (ltb 2 (length args))) [
    | inl e ↦ rw e w
    | inr e ↦
        rw e
          (expires_count-Unchanged hash _ (dbsize-Unchanged hash ctx.storage w (call.clock 0)).0
            (call.clock 1)).0
  ]

  pub config_set-SoundContext : (key value : Bytes) → SoundContext (config_set ctx key value).1
  unfolding config_set config_set_metrics
  config_set-SoundContext key value = elim (Bool-cases (bytes_eq key (codes "logging.level"))) [
    | inl e ↦ rw e w
    | inr e ↦ rw e (elim (Bool-cases (bytes_eq key (codes "metrics.enabled"))) [
      | inl f ↦
          rw f (elim (Option-cases (parse_bool value)) [ inl g ↦ rw g w | inr (b, g) ↦ rw g w ])
      | inr f ↦ rw f w
    ])
  ]

  pub config_set_args-SoundContext : (args : List Bytes) → SoundContext (config_set_args ctx args).1
  unfolding config_set_args
  config_set_args-SoundContext (name ∷ sub ∷ key ∷ value ∷ []) =
      config_set-SoundContext (to_lower_ascii key) value
  config_set_args-SoundContext [] = w
  config_set_args-SoundContext (name ∷ []) = w
  config_set_args-SoundContext (name ∷ sub ∷ []) = w
  config_set_args-SoundContext (name ∷ sub ∷ key ∷ []) = w
  config_set_args-SoundContext (name ∷ sub ∷ key ∷ value ∷ x ∷ xs) = w

  pub config_get_args-SoundContext : (args : List Bytes) → SoundContext (config_get_args ctx args).1
  unfolding config_get_args
  config_get_args-SoundContext [] = w
  config_get_args-SoundContext (name ∷ []) = w
  config_get_args-SoundContext (name ∷ sub ∷ []) = w
  config_get_args-SoundContext (name ∷ sub ∷ key ∷ []) = w
  config_get_args-SoundContext (name ∷ sub ∷ key ∷ x ∷ xs) = w

  pub config_cmd-SoundContext : (args : List Bytes) → SoundContext (config_cmd call ctx args).1
  unfolding config_cmd
  config_cmd-SoundContext [] = w
  config_cmd-SoundContext (name ∷ []) = w
  config_cmd-SoundContext (name ∷ sub ∷ args) =
      elim (Bool-cases (bytes_eq (to_upper_ascii sub) (codes "GET"))) [
        | inl e ↦ rw e (config_get_args-SoundContext (name ∷ sub ∷ args))
        | inr e ↦ rw e (elim (Bool-cases (bytes_eq (to_upper_ascii sub) (codes "SET"))) [
          | inl f ↦ rw f (config_set_args-SoundContext (name ∷ sub ∷ args))
          | inr f ↦ rw f w
        ])
      ]

  pub shutdown-SoundContext : (args : List Bytes) → SoundContext (shutdown call ctx args).1
  unfolding shutdown
  shutdown-SoundContext args = elim (Bool-cases (ltb 2 (length args))) [
    | inl e ↦ rw e w
    | inr e ↦
        rw e (elim (Bool-cases ctx.config.shutdown_enabled) [ inl f ↦ rw f w | inr f ↦ rw f w ])
  ]

  -- The handlers that never touch the context.
  pub ping-SoundContext : (args : List Bytes) → SoundContext (ping call ctx args).1
  unfolding ping
  ping-SoundContext [] = w
  ping-SoundContext (name ∷ []) = w
  ping-SoundContext (name ∷ x ∷ []) = w
  ping-SoundContext (name ∷ x ∷ y ∷ ys) = w

  pub echo-SoundContext : (args : List Bytes) → SoundContext (echo call ctx args).1
  unfolding echo
  echo-SoundContext [] = w
  echo-SoundContext (name ∷ []) = w
  echo-SoundContext (name ∷ x ∷ []) = w
  echo-SoundContext (name ∷ x ∷ y ∷ ys) = w

  pub bgsave-SoundContext : (args : List Bytes) → SoundContext (bgsave call ctx args).1
  unfolding bgsave
  bgsave-SoundContext [] = w
  bgsave-SoundContext (name ∷ []) = w
  bgsave-SoundContext (name ∷ x ∷ xs) = w

  pub command_cmd-SoundContext :
      (names args : List Bytes) → SoundContext (command_cmd names call ctx args).1
  unfolding command_cmd
  command_cmd-SoundContext names [] = w
  command_cmd-SoundContext names (name ∷ []) = w
  command_cmd-SoundContext names (name ∷ x ∷ xs) = w

-- What the commands ask of the persistence layer: a checkpoint keeps the invariant of the engine.
pub record IsCheckpoints (points : Checkpoints) : Type 0 where
  pub saved :
      (call : Call) (st : StorageEngine) (aof : Option Aof)
      → IsSound st
      → IsSound (points.save call st aof).1
  pub rewrote :
      (call : Call) (st : StorageEngine) (aof : Aof)
      → IsSound st
      → IsSound (points.rewrite call st aof).1.0

module _ (points : Checkpoints) (laws : IsCheckpoints points) (call : Call) (ctx : CommandContext)
    (w : SoundContext ctx) where
  pub save-SoundContext : (args : List Bytes) → SoundContext (save points call ctx args).1
  unfolding save
  save-SoundContext [] = w
  save-SoundContext (name ∷ []) = elim (Bool-cases ctx.has_snapshot) [
    | inl e ↦ rw e (laws.saved call ctx.storage ctx.aof w)
    | inr e ↦ rw e w
  ]
  save-SoundContext (name ∷ x ∷ xs) = w

  pub rewrite_in-SoundContext : (aof : Option Aof) → SoundContext (rewrite_in points call ctx aof).1
  unfolding rewrite_in rewritten
  rewrite_in-SoundContext none = w
  rewrite_in-SoundContext (some aof) = elim (Bool-cases (enabled aof)) [
    | inl e ↦ rw e (elim (Bool-cases (is_ok (points.rewrite call ctx.storage aof).0)) [
      | inl f ↦ rw f (laws.rewrote call ctx.storage aof w)
      | inr f ↦ rw f (laws.rewrote call ctx.storage aof w)
    ])
    | inr e ↦ rw e w
  ]

  pub bgrewriteaof-SoundContext :
      (args : List Bytes) → SoundContext (bgrewriteaof points call ctx args).1
  unfolding bgrewriteaof
  bgrewriteaof-SoundContext [] = w
  bgrewriteaof-SoundContext (name ∷ []) = rewrite_in-SoundContext ctx.aof
  bgrewriteaof-SoundContext (name ∷ x ∷ xs) = w
