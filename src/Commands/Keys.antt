-- ===== src/Commands/Keys.antt =====
-- The handlers of src/commands/commands.cpp that work on keys and their times.
use velox_db.Prelude.{
  ℕ, Bytes, codes, List, [], ◌∷◌, ◌++◌, Option, none, some, Bool, if◌then◌else◌, ℤ, pos, negsuc,
  ◌+ℤ◌, quotient,
}
use velox_db.Util.Parse.{parse_i64}
use velox_db.Resp.Encode.{integer}
use velox_db.Storage.Types.{TtlResult, missing, no_expiry, has_expiry}
use velox_db.Storage.Time.{timepoint_from_unix_ms}
use velox_db.Storage.Engine as Engine
use velox_db.Commands.Context.{
  CommandContext, CommandResult, Call, Handler, reply, ok, err, wrong_args, name_of, persist_or_ok,
  persist_changed,
}
use velox_db.Commands.Options.{parse_ttl_ms, pxat_arg_from_ttl}

abbrev pub as_integer : Bool → ℤ
as_integer changed = pos (if changed then 1 else 0)

-- The reply to TTL: seconds are rounded up.
unfoldable pub ttl_integer : (millis : Bool) → TtlResult → ℤ
unfolding quotient ◌+ℤ◌
ttl_integer millis missing = negsuc 1
ttl_integer millis no_expiry = negsuc 0
ttl_integer millis (has_expiry ms) = if millis then ms else quotient (ms +ℤ pos 999) 1000

module _ (hash : Bytes → ℕ) where
  unfoldable pub expire_checked :
      Bytes → Call → CommandContext → Bytes → Option ℤ → CommandResult × CommandContext
  unfolding Engine.expire persist_changed pxat_arg_from_ttl err integer
  expire_checked name call ctx key none = (err (codes "invalid expire time in " ++ name), ctx)
  expire_checked name call ctx key (some ms) =
      let (changed, st) = Engine.expire hash ctx.storage (call.clock 0) (call.clock 1) key ms in
      persist_changed changed call (record ctx { storage = st })
        (codes "PEXPIREAT" ∷ key ∷ pxat_arg_from_ttl (call.clock 2) ms ∷ [])
        (reply (integer (as_integer changed)))

  unfoldable pub expire_impl : (multiplier : ℕ) (command_name : Bytes) → Handler
  unfolding expire_checked parse_ttl_ms wrong_args
  expire_impl multiplier command_name call ctx (name ∷ key ∷ value ∷ []) =
      expire_checked command_name call ctx key (parse_ttl_ms value multiplier)
  expire_impl multiplier command_name call ctx args = (wrong_args (name_of args), ctx)

  unfoldable pub pexpireat_checked :
      Call → CommandContext → List Bytes → Bytes → Option ℤ → CommandResult × CommandContext
  unfolding Engine.expire_at persist_changed timepoint_from_unix_ms err integer
  pexpireat_checked call ctx args key none = (err (codes "invalid expire time in PEXPIREAT"), ctx)
  pexpireat_checked call ctx args key (some when) =
      let (changed, st) =
        Engine.expire_at hash ctx.storage (call.clock 0) key (timepoint_from_unix_ms when) in
      persist_changed changed call (record ctx { storage = st }) args
        (reply (integer (as_integer changed)))

  unfoldable pub pexpireat : Handler
  unfolding pexpireat_checked parse_i64 wrong_args
  pexpireat call ctx (name ∷ key ∷ value ∷ []) =
      pexpireat_checked call ctx (name ∷ key ∷ value ∷ []) key (parse_i64 value)
  pexpireat call ctx args = (wrong_args (name_of args), ctx)

  unfoldable pub ttl_impl : (millis : Bool) → Handler
  unfolding Engine.ttl ttl_integer wrong_args integer
  ttl_impl millis call ctx (name ∷ key ∷ []) =
      let (left, st) = Engine.ttl hash ctx.storage (call.clock 0) key in
      (reply (integer (ttl_integer millis left)), record ctx { storage = st })
  ttl_impl millis call ctx args = (wrong_args (name_of args), ctx)

  unfoldable pub persist_cmd : Handler
  unfolding Engine.persist persist_changed wrong_args integer
  persist_cmd call ctx (name ∷ key ∷ []) =
      let (changed, st) = Engine.persist hash ctx.storage (call.clock 0) key in
      persist_changed changed call (record ctx { storage = st }) (name ∷ key ∷ [])
        (reply (integer (as_integer changed)))
  persist_cmd call ctx args = (wrong_args (name_of args), ctx)

unfoldable pub dbsize : Handler
unfolding Engine.dbsize wrong_args integer
dbsize call ctx (name ∷ []) =
    let (n, st) = Engine.dbsize ctx.storage (call.clock 0) in
    (reply (integer (pos n)), record ctx { storage = st })
dbsize call ctx args = (wrong_args (name_of args), ctx)

unfoldable pub flushdb : Handler
unfolding Engine.flushdb persist_or_ok ok wrong_args
flushdb call ctx (name ∷ []) =
    persist_or_ok call (record ctx { storage = Engine.flushdb ctx.storage }) (codes "FLUSHDB" ∷ [])
      ok
flushdb call ctx args = (wrong_args (name_of args), ctx)
