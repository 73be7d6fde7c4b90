-- ===== src/Commands/Clients.antt =====
-- No command of src/commands/commands.cpp counts a connection: `connected_clients` is left to the
-- workers.
pub mod Registered
use velox_db.Prelude.{
  ℕ, suc, Bytes, codes, List, [], ◌∷◌, Option, none, some, Bool, true, false, not, ◌==◌, ◌||◌, ◌%◌,
  if◌then◌else◌, Bool-cases, inl, inr, All, bytes_eq, ltb, length, drop, ℤ, pos, negsuc, ◌≡◌, refl,
  ◌∙◌, arith,
}
use velox_db.Util.Status.{is_ok, Status}
use velox_db.Util.Parse.{parse_i64, parse_bool}
use velox_db.Util.Text.{to_upper_ascii, to_lower_ascii}
use velox_db.Storage.Types.{WriteCode}
use velox_db.Persistence.Aof.{Aof, enabled}
use velox_db.Commands.Context.{
  CommandContext, CommandResult, Call, Handler, persist, persist_or_ok, persist_changed, ok,
}
use velox_db.Commands.Options.{Checked, accepted, rejected, SetOptions, set_options, parse_ttl_ms}
use velox_db.Commands.Strings.{
  ping, echo, get, set_with, set_checked, set, del, exists, mget, mset_loop, mset, strlen_cmd,
  incr_decr, append, written, set_reply,
}
use velox_db.Commands.Keys.{
  expire_checked, pexpireat_checked, expire_impl, pexpireat, ttl_impl, persist_cmd, dbsize, flushdb,
}
use velox_db.Commands.Admin.{
  info, config_cmd, Checkpoints, save, rewritten, rewrite_in, config_set, config_set_metrics,
  config_get_args, config_set_args, bgsave, bgrewriteaof, shutdown, command_cmd,
}
use velox_db.Commands.Registry.{run_found, find_command, execute, other_commands, default_commands}
use velox_db.Commands.Registry.Each.{Each, Found, find_command-Found, default_commands-Each}

abbrev pub connected : CommandContext → ℕ
connected ctx = ctx.metrics.connected_clients

-- A command counts no connection.
pub record KeepsClients (command : Handler) : Type 0 where
  pub keeps :
      (call : Call) (ctx : CommandContext) (args : List Bytes)
      → connected (command call ctx args).1 ≡ connected ctx

persist-connected :
    (call : Call) (ctx : CommandContext) (args : List Bytes)
    → connected (persist call ctx args).1 ≡ connected ctx
unfolding persist
persist-connected call ctx args = ground arith

pub persist_or_ok-connected :
    (call : Call) (ctx : CommandContext) (args : List Bytes) (r : CommandResult)
    → connected (persist_or_ok call ctx args r).1 ≡ connected ctx
unfolding persist_or_ok
persist_or_ok-connected call ctx args r = ground (arith, persist-connected call ctx args)

persist_changed-connected :
    (changed : Bool) (call : Call) (ctx : CommandContext) (args : List Bytes) (r : CommandResult)
    → connected (persist_changed changed call ctx args r).1 ≡ connected ctx
unfolding persist_changed
persist_changed-connected true call ctx args r = ground (arith, persist-connected call ctx args)
persist_changed-connected false call ctx args r = refl

written-connected :
    (call : Call) (ctx : CommandContext) (code : WriteCode) (args : List Bytes) (r : CommandResult)
    → connected (written call ctx code args r).1 ≡ connected ctx
unfolding written
written-connected call ctx code args r = ground (arith, persist_or_ok-connected call ctx args r)

set_reply-connected :
    (call : Call) (ctx : CommandContext) (code : WriteCode) (args : List Bytes)
    → connected (set_reply call ctx code args).1 ≡ connected ctx
unfolding set_reply
set_reply-connected call ctx code args = ground (arith, written-connected call ctx code args ok)

module _ (hash : Bytes → ℕ) where
  pub get-connected :
      (call : Call) (ctx : CommandContext) (args : List Bytes)
      → connected (get hash call ctx args).1 ≡ connected ctx
  unfolding get
  get-connected call ctx args = ground arith

  set_checked-connected :
      (call : Call) (ctx : CommandContext) (key value : Bytes) (o : Checked SetOptions)
      → connected (set_checked hash call ctx key value o).1 ≡ connected ctx
  unfolding set_checked set_with
  set_checked-connected call ctx key value (rejected m) = refl
  set_checked-connected call ctx key value (accepted o) = set_reply-connected call _ _ _

  pub set-connected :
      (call : Call) (ctx : CommandContext) (args : List Bytes)
      → connected (set hash call ctx args).1 ≡ connected ctx
  unfolding set
  set-connected call ctx [] = refl
  set-connected call ctx (name ∷ []) = refl
  set-connected call ctx (name ∷ key ∷ []) = refl
  set-connected call ctx (name ∷ key ∷ value ∷ args) =
      set_checked-connected call ctx key value (set_options args)

  pub del-connected :
      (call : Call) (ctx : CommandContext) (args : List Bytes)
      → connected (del hash call ctx args).1 ≡ connected ctx
  unfolding del
  del-connected call ctx [] = refl
  del-connected call ctx (name ∷ []) = refl
  del-connected call ctx (name ∷ key ∷ keys) = persist_changed-connected _ call _ _ _

  pub exists-connected :
      (call : Call) (ctx : CommandContext) (args : List Bytes)
      → connected (exists hash call ctx args).1 ≡ connected ctx
  unfolding exists
  exists-connected call ctx args = ground arith

  pub mget-connected :
      (call : Call) (ctx : CommandContext) (args : List Bytes)
      → connected (mget hash call ctx args).1 ≡ connected ctx
  unfolding mget
  mget-connected call ctx args = ground arith

  pub strlen_cmd-connected :
      (call : Call) (ctx : CommandContext) (args : List Bytes)
      → connected (strlen_cmd hash call ctx args).1 ≡ connected ctx
  unfolding strlen_cmd
  strlen_cmd-connected call ctx args = ground arith

  pub mset-connected :
      (call : Call) (ctx : CommandContext) (args : List Bytes)
      → connected (mset hash call ctx args).1 ≡ connected ctx
  unfolding mset
  mset-connected call ctx args = elim (Bool-cases (ltb (length args) 3 || length args % 2 == 0)) [
    | inl e ↦ rw e refl
    | inr e ↦ rw e (written-connected call _ _ args ok)
  ]

  pub incr_decr-connected :
      (delta : ℤ) (call : Call) (ctx : CommandContext) (args : List Bytes)
      → connected (incr_decr hash delta call ctx args).1 ≡ connected ctx
  unfolding incr_decr
  incr_decr-connected delta call ctx [] = refl
  incr_decr-connected delta call ctx (name ∷ []) = refl
  incr_decr-connected delta call ctx (name ∷ key ∷ []) = written-connected call _ _ _ _
  incr_decr-connected delta call ctx (name ∷ key ∷ x ∷ xs) = refl

  pub append-connected :
      (call : Call) (ctx : CommandContext) (args : List Bytes)
      → connected (append hash call ctx args).1 ≡ connected ctx
  unfolding append
  append-connected call ctx [] = refl
  append-connected call ctx (name ∷ []) = refl
  append-connected call ctx (name ∷ key ∷ []) = refl
  append-connected call ctx (name ∷ key ∷ suffix ∷ []) = written-connected call _ _ _ _
  append-connected call ctx (name ∷ key ∷ suffix ∷ x ∷ xs) = refl

  expire_checked-connected :
      (name : Bytes) (call : Call) (ctx : CommandContext) (key : Bytes) (ms : Option ℤ)
      → connected (expire_checked hash name call ctx key ms).1 ≡ connected ctx
  unfolding expire_checked
  expire_checked-connected name call ctx key none = refl
  expire_checked-connected name call ctx key (some ms) = persist_changed-connected _ call _ _ _

  pub expire_impl-connected :
      (multiplier : ℕ) (name : Bytes) (call : Call) (ctx : CommandContext) (args : List Bytes)
      → connected (expire_impl hash multiplier name call ctx args).1 ≡ connected ctx
  unfolding expire_impl
  expire_impl-connected multiplier name call ctx [] = refl
  expire_impl-connected multiplier name call ctx (n ∷ []) = refl
  expire_impl-connected multiplier name call ctx (n ∷ key ∷ []) = refl
  expire_impl-connected multiplier name call ctx (n ∷ key ∷ value ∷ []) =
      expire_checked-connected name call ctx key (parse_ttl_ms value multiplier)
  expire_impl-connected multiplier name call ctx (n ∷ key ∷ value ∷ x ∷ xs) = refl

  pexpireat_checked-connected :
      (call : Call) (ctx : CommandContext) (args : List Bytes) (key : Bytes) (ms : Option ℤ)
      → connected (pexpireat_checked hash call ctx args key ms).1 ≡ connected ctx
  unfolding pexpireat_checked
  pexpireat_checked-connected call ctx args key none = refl
  pexpireat_checked-connected call ctx args key (some ms) = persist_changed-connected _ call _ _ _

  pub pexpireat-connected :
      (call : Call) (ctx : CommandContext) (args : List Bytes)
      → connected (pexpireat hash call ctx args).1 ≡ connected ctx
  unfolding pexpireat
  pexpireat-connected call ctx [] = refl
  pexpireat-connected call ctx (name ∷ []) = refl
  pexpireat-connected call ctx (name ∷ key ∷ []) = refl
  pexpireat-connected call ctx (name ∷ key ∷ value ∷ []) =
      pexpireat_checked-connected call ctx (name ∷ key ∷ value ∷ []) key (parse_i64 value)
  pexpireat-connected call ctx (name ∷ key ∷ value ∷ x ∷ xs) = refl

  pub ttl_impl-connected :
      (millis : Bool) (call : Call) (ctx : CommandContext) (args : List Bytes)
      → connected (ttl_impl hash millis call ctx args).1 ≡ connected ctx
  unfolding ttl_impl
  ttl_impl-connected millis call ctx args = ground arith

  pub persist_cmd-connected :
      (call : Call) (ctx : CommandContext) (args : List Bytes)
      → connected (persist_cmd hash call ctx args).1 ≡ connected ctx
  unfolding persist_cmd
  persist_cmd-connected call ctx [] = refl
  persist_cmd-connected call ctx (name ∷ []) = refl
  persist_cmd-connected call ctx (name ∷ key ∷ []) = persist_changed-connected _ call _ _ _
  persist_cmd-connected call ctx (name ∷ key ∷ x ∷ xs) = refl
