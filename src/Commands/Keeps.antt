-- ===== src/Commands/Keeps.antt =====
-- What the pieces of the handlers do to the storage engine: the append to the file leaves it alone, and
-- the loops keep its invariant.
use velox_db.Prelude.{
  ℕ, suc, Bytes, List, [], ◌∷◌, Option, none, some, Bool, true, false, Bool-cases, inl, inr, ◌≡◌,
  refl, ℤ,
}
use velox_db.Util.Status.{is_ok}
use velox_db.Storage.Types.{TimePoint, StorageEngine, WriteCode, always}
use velox_db.Storage.Time.{timepoint_from_unix_ms}
use velox_db.Storage.Engine as Engine
use velox_db.Storage.Engine.Shards.{IsSound}
use velox_db.Storage.Engine.Contract.{set-Written, get-value, del-Updated}
use velox_db.Storage.Engine.Updates.{expire_at-Updated, expire-IsSound}
use velox_db.Commands.Context.{
  CommandContext, CommandResult, Call, tick, ok, persist, persist_or_ok, persist_changed,
}
use velox_db.Commands.Options.{Checked, accepted, rejected, SetOptions}
use velox_db.Commands.Strings.{
  set_with, set_checked, mset_loop, mset_after, written, set_reply, ttl_from,
}
use velox_db.Commands.Keys.{expire_checked, pexpireat_checked}

abbrev pub SoundContext : CommandContext → Type 0
SoundContext ctx = IsSound ctx.storage

-- The append to the file leaves the storage alone.
pub persist-storage :
    (call : Call) (ctx : CommandContext) (args : List Bytes)
    → (persist call ctx args).1.storage ≡ ctx.storage
unfolding persist
persist-storage call ctx args = elim (Bool-cases ctx.replay) [
  | inl e ↦ rw e refl
  | inr e ↦ rw e refl
]

pub persist_or_ok-storage :
    (call : Call) (ctx : CommandContext) (args : List Bytes) (r : CommandResult)
    → (persist_or_ok call ctx args r).1.storage ≡ ctx.storage
unfolding persist_or_ok
persist_or_ok-storage call ctx args r = elim (Bool-cases (is_ok (persist call ctx args).0)) [
  | inl e ↦ rw e (persist-storage call ctx args)
  | inr e ↦ rw e (persist-storage call ctx args)
]

pub persist_changed-storage :
    (changed : Bool) (call : Call) (ctx : CommandContext) (args : List Bytes) (r : CommandResult)
    → (persist_changed changed call ctx args r).1.storage ≡ ctx.storage
unfolding persist_changed
persist_changed-storage false call ctx args r = refl
persist_changed-storage true call ctx args r = elim (Bool-cases (is_ok (persist call ctx args).0)) [
  | inl e ↦ rw e (persist-storage call ctx args)
  | inr e ↦ rw e (persist-storage call ctx args)
]

pub written-storage :
    (call : Call) (ctx : CommandContext) (c : WriteCode) (logged : List Bytes) (r : CommandResult)
    → (written call ctx c logged r).1.storage ≡ ctx.storage
unfolding written
written-storage call ctx WriteCode.ok logged r = persist_or_ok-storage call ctx logged r
written-storage call ctx _ logged r = refl

pub set_reply-storage :
    (call : Call) (ctx : CommandContext) (c : WriteCode) (logged : List Bytes)
    → (set_reply call ctx c logged).1.storage ≡ ctx.storage
unfolding set_reply written
set_reply-storage call ctx WriteCode.not_set logged = refl
set_reply-storage call ctx WriteCode.ok logged = persist_or_ok-storage call ctx logged ok
set_reply-storage call ctx _ logged = refl

module _ (hash : Bytes → ℕ) where
  pub del_keys-IsSound :
      (keys : List Bytes) (st : StorageEngine) (clock : ℕ → TimePoint)
      → IsSound st
      → IsSound (Engine.del_keys hash st clock keys).1
  unfolding Engine.del_keys
  del_keys-IsSound [] st clock w = w
  del_keys-IsSound (key ∷ keys) st clock w =
      del_keys-IsSound keys _ (λ i. clock (suc i)) (del-Updated hash st w key (clock 0)).1.0

  pub mget-IsSound :
      (keys : List Bytes) (st : StorageEngine) (clock : ℕ → TimePoint)
      → IsSound st
      → IsSound (Engine.mget hash st clock keys).1
  unfolding Engine.mget
  mget-IsSound [] st clock w = w
  mget-IsSound (key ∷ keys) st clock w =
      mget-IsSound keys _ (λ i. clock (suc i)) (get-value hash st w key (clock 0)).1.0

  pub exists-IsSound :
      (keys : List Bytes) (st : StorageEngine) (clock : ℕ → TimePoint)
      → IsSound st
      → IsSound (Engine.exists hash st clock keys).1
  unfolding Engine.exists
  exists-IsSound [] st clock w = w
  exists-IsSound (key ∷ keys) st clock w =
      exists-IsSound keys _ (λ i. clock (suc i)) (get-value hash st w key (clock 0)).1.0

  pub mset_after-IsSound :
      (c : WriteCode) (st : StorageEngine) (rest : WriteCode × StorageEngine)
      → IsSound st
      → IsSound rest.1
      → IsSound (mset_after c st rest).1
  unfolding mset_after
  mset_after-IsSound WriteCode.ok st rest w r = r
  mset_after-IsSound _ st rest w r = w

  pub mset_loop-IsSound :
      (args : List Bytes) (call : Call) (i : ℕ) (st : StorageEngine)
      → IsSound st
      → IsSound (mset_loop hash call i st args).1
  unfolding mset_loop
  mset_loop-IsSound [] call i st w = w
  mset_loop-IsSound (key ∷ []) call i st w = w
  mset_loop-IsSound (key ∷ value ∷ args) call i st w =
      let w' = (set-Written hash st w key (tick call i) value none always).sound in
      mset_after-IsSound _ _ _ w' (mset_loop-IsSound args call (suc i) _ w')

  pub set_checked-IsSound :
      (call : Call) (ctx : CommandContext) (key value : Bytes) (o : Checked SetOptions)
      → SoundContext ctx
      → SoundContext (set_checked hash call ctx key value o).1
  unfolding set_checked set_with
  set_checked-IsSound call ctx key value (rejected m) w = w
  set_checked-IsSound call ctx key value (accepted o) w =
      rw set_reply-storage
        (set-Written hash ctx.storage w key (tick call 1) value
          (ttl_from (call.clock 0) o.ttl o.pxat) o.condition).sound

  pub expire_checked-IsSound :
      (name : Bytes) (call : Call) (ctx : CommandContext) (key : Bytes) (ms : Option ℤ)
      → SoundContext ctx
      → SoundContext (expire_checked hash name call ctx key ms).1
  unfolding expire_checked
  expire_checked-IsSound name call ctx key none w = w
  expire_checked-IsSound name call ctx key (some ms) w =
      rw persist_changed-storage
        (expire-IsSound hash ctx.storage w key (call.clock 0) (call.clock 1) ms)

  pub pexpireat_checked-IsSound :
      (call : Call) (ctx : CommandContext) (args : List Bytes) (key : Bytes) (ms : Option ℤ)
      → SoundContext ctx
      → SoundContext (pexpireat_checked hash call ctx args key ms).1
  unfolding pexpireat_checked
  pexpireat_checked-IsSound call ctx args key none w = w
  pexpireat_checked-IsSound call ctx args key (some when) w =
      rw persist_changed-storage
        (expire_at-Updated hash ctx.storage w key (call.clock 0) (timepoint_from_unix_ms when)).1.0
