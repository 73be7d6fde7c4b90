-- ===== src/Commands/Strings.antt =====
-- The handlers of src/commands/commands.cpp that read and write values.
use velox_db.Prelude.{
  ℕ, suc, ◌%◌, Bytes, codes, List, [], ◌∷◌, Option, none, some, if◌then◌else◌, length, drop, ltb,
  ◌==◌, ◌||◌, not, ℤ, pos, ◌-ℤ◌, quotient,
}
use velox_db.Util.Decimal.{to_string_i64}
use velox_db.Resp.Encode.{simple, bulk, null_bulk, integer, array_of_bulk}
use velox_db.Storage.Types.{TimePoint, WriteCode, always, StorageEngine}
use velox_db.Storage.Time.{timepoint_from_unix_ms, ticks_per_ms}
use velox_db.Storage.Messages.{storage_write_error}
use velox_db.Storage.Engine as Engine
use velox_db.Commands.Context.{
  CommandContext, CommandResult, Call, Handler, tick, reply, ok, err, wrong_args, name_of,
  persist_or_ok, persist_changed,
}
use velox_db.Commands.Options.{
  SetOptions, Checked, accepted, rejected, set_options, pxat_arg_from_ttl,
}

unfoldable pub ping : Handler
unfolding wrong_args simple bulk
ping call ctx (name ∷ []) = (reply (simple (codes "PONG")), ctx)
ping call ctx (name ∷ message ∷ []) = (reply (bulk message), ctx)
ping call ctx args = (wrong_args (name_of args), ctx)

unfoldable pub echo : Handler
unfolding wrong_args bulk
echo call ctx (name ∷ message ∷ []) = (reply (bulk message), ctx)
echo call ctx args = (wrong_args (name_of args), ctx)

-- The duration from now to a time in milliseconds, in whole milliseconds.
ms_until : TimePoint → ℤ → ℤ
unfolding quotient ◌-ℤ◌ timepoint_from_unix_ms
ms_until now pxat = quotient (timepoint_from_unix_ms pxat -ℤ now) ticks_per_ms

unfoldable pub ttl_from : TimePoint → (ttl pxat : Option ℤ) → Option ℤ
unfolding ms_until
ttl_from now ttl none = ttl
ttl_from now ttl (some p) = some (ms_until now p)

-- The command that stands for a SET in the append-only file.
unfoldable pub persisted_set : TimePoint → Bytes → Bytes → Option ℤ → Option ℤ → List Bytes
unfolding pxat_arg_from_ttl
persisted_set now k v none pxat = codes "SET" ∷ k ∷ v ∷ []
persisted_set now k v (some ms) none =
    codes "SET" ∷ k ∷ v ∷ codes "PXAT" ∷ pxat_arg_from_ttl now ms ∷ []
persisted_set now k v (some ms) (some p) = codes "SET" ∷ k ∷ v ∷ codes "PXAT" ∷ to_string_i64 p ∷ []

-- What follows a write with its code: the reply on success comes with the commands to log.
unfoldable pub written :
    Call → CommandContext → WriteCode → List Bytes → CommandResult → CommandResult × CommandContext
unfolding persist_or_ok storage_write_error err
written call ctx WriteCode.ok logged result = persist_or_ok call ctx logged result
written call ctx code logged result = (err (storage_write_error code), ctx)

unfoldable pub mset_after :
    WriteCode → StorageEngine → WriteCode × StorageEngine → WriteCode × StorageEngine
mset_after WriteCode.ok st rest = rest
mset_after code st rest = (code, st)

unfoldable pub set_reply :
    Call → CommandContext → WriteCode → List Bytes → CommandResult × CommandContext
unfolding written ok
set_reply call ctx WriteCode.not_set logged = (reply null_bulk, ctx)
set_reply call ctx code logged = written call ctx code logged ok

module _ (hash : Bytes → ℕ) where
  unfoldable pub get : Handler
  unfolding wrong_args array_of_bulk bulk Engine.get
  get call ctx (name ∷ key ∷ []) =
      let (value, st) = Engine.get hash ctx.storage (call.clock 0) key in
      (reply (bulk_or value), record ctx { storage = st })
    where
      bulk_or : Option Bytes → Bytes
      bulk_or none = null_bulk
      bulk_or (some v) = bulk v
  get call ctx args = (wrong_args (name_of args), ctx)

  -- SET behind its options. The clock is read for PXAT, under the lock, and for the log.
  unfoldable pub set_with :
      Call → CommandContext → Bytes → Bytes → SetOptions → CommandResult × CommandContext
  unfolding Engine.set ttl_from persisted_set set_reply
  set_with call ctx key value o =
      let ms = ttl_from (call.clock 0) o.ttl o.pxat in
      let (result, st) = Engine.set hash ctx.storage (tick call 1) key value ms o.condition in
      set_reply call (record ctx { storage = st }) result.code
        (persisted_set (call.clock 2) key value ms o.pxat)

  unfoldable pub set_checked :
      Call → CommandContext → Bytes → Bytes → Checked SetOptions → CommandResult × CommandContext
  unfolding set_with err
  set_checked call ctx key value (rejected m) = (err m, ctx)
  set_checked call ctx key value (accepted o) = set_with call ctx key value o

  unfoldable pub set : Handler
  unfolding set_checked set_options wrong_args
  set call ctx (name ∷ key ∷ value ∷ args) = set_checked call ctx key value (set_options args)
  set call ctx args = (wrong_args (name_of args), ctx)

  unfoldable pub del : Handler
  unfolding Engine.del_keys persist_changed wrong_args integer
  del call ctx (name ∷ key ∷ keys) =
      let (deleted, st) = Engine.del_keys hash ctx.storage call.clock (key ∷ keys) in
      persist_changed (not (deleted == 0)) call (record ctx { storage = st }) (name ∷ key ∷ keys)
        (reply (integer (pos deleted)))
  del call ctx args = (wrong_args (name_of args), ctx)

  unfoldable pub exists : Handler
  unfolding Engine.exists wrong_args integer
  exists call ctx (name ∷ key ∷ keys) =
      let (n, st) = Engine.exists hash ctx.storage call.clock (key ∷ keys) in
      (reply (integer (pos n)), record ctx { storage = st })
  exists call ctx args = (wrong_args (name_of args), ctx)

  unfoldable pub mget : Handler
  unfolding Engine.mget wrong_args array_of_bulk
  mget call ctx (name ∷ key ∷ keys) =
      let (values, st) = Engine.mget hash ctx.storage call.clock (key ∷ keys) in
      (reply (array_of_bulk values), record ctx { storage = st })
  mget call ctx args = (wrong_args (name_of args), ctx)

  -- The loop of MSET from the pair `i` on: it stops at the first write that fails.
  unfoldable pub mset_loop : Call → ℕ → StorageEngine → List Bytes → WriteCode × StorageEngine
  unfolding Engine.set mset_after
  mset_loop call i st [] = (WriteCode.ok, st)
  mset_loop call i st (key ∷ []) = (WriteCode.ok, st)
  mset_loop call i st (key ∷ value ∷ args) =
      let (result, st') = Engine.set hash st (tick call i) key value none always in
      mset_after result.code st' (mset_loop call (suc i) st' args)

  unfoldable pub mset : Handler
  unfolding mset_loop Engine.set wrong_args written ok
  mset call ctx args =
      if ltb (length args) 3 || length args % 2 == 0
      then (wrong_args (name_of args), ctx)
      else (let (code, st) = mset_loop call 0 ctx.storage (drop 1 args) in
          written call (record ctx { storage = st }) code args ok)

  unfoldable pub strlen_cmd : Handler
  unfolding Engine.strlen wrong_args integer
  strlen_cmd call ctx (name ∷ key ∷ []) =
      let (n, st) = Engine.strlen hash ctx.storage (call.clock 0) key in
      (reply (integer (pos n)), record ctx { storage = st })
  strlen_cmd call ctx args = (wrong_args (name_of args), ctx)

  unfoldable pub incr_decr : ℤ → Handler
  unfolding Engine.incr_by written wrong_args integer
  incr_decr delta call ctx (name ∷ key ∷ []) =
      let (result, st) = Engine.incr_by hash ctx.storage (tick call 0) key delta in
      written call (record ctx { storage = st }) result.code (name ∷ key ∷ [])
        (reply (integer result.integer))
  incr_decr delta call ctx args = (wrong_args (name_of args), ctx)

  unfoldable pub append : Handler
  unfolding Engine.append written wrong_args integer
  append call ctx (name ∷ key ∷ suffix ∷ []) =
      let (result, st) = Engine.append hash ctx.storage (tick call 0) key suffix in
      written call (record ctx { storage = st }) result.code (name ∷ key ∷ suffix ∷ [])
        (reply (integer result.integer))
  append call ctx args = (wrong_args (name_of args), ctx)
