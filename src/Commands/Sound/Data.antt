-- ===== src/Commands/Sound/Data.antt =====
-- The commands on values and keys keep the invariant of the storage engine.
use velox_db.Prelude.{
  ℕ, Bytes, List, [], ◌∷◌, Bool, ◌==◌, Bool-cases, inl, inr, ℤ, length, drop, ltb, ◌%◌, ◌||◌,
}
use velox_db.Util.Parse.{parse_i64}
use velox_db.Storage.Engine as Engine
use velox_db.Storage.Engine.Contract.{get-value}
use velox_db.Storage.Engine.Updates.{incr_by-Written, append-Written, ttl-seen, persist-Updated}
use velox_db.Commands.Context.{CommandContext, Call, tick}
use velox_db.Commands.Options.{set_options, parse_ttl_ms}
use velox_db.Commands.Strings.{get, set, del, exists, mget, mset, strlen_cmd, incr_decr, append}
use velox_db.Commands.Keys.{expire_impl, pexpireat, ttl_impl, persist_cmd}
use velox_db.Commands.Keeps.{
  SoundContext, persist_changed-storage, written-storage, del_keys-IsSound, mget-IsSound,
  exists-IsSound, mset_loop-IsSound, set_checked-IsSound, expire_checked-IsSound,
  pexpireat_checked-IsSound,
}

module _ (hash : Bytes → ℕ) where
  module _ (call : Call) (ctx : CommandContext) (w : SoundContext ctx) where
    pub get-SoundContext : (args : List Bytes) → SoundContext (get hash call ctx args).1
    unfolding get
    get-SoundContext [] = w
    get-SoundContext (name ∷ []) = w
    get-SoundContext (name ∷ key ∷ []) = (get-value hash ctx.storage w key (call.clock 0)).1.0
    get-SoundContext (name ∷ key ∷ x ∷ xs) = w

    pub set-SoundContext : (args : List Bytes) → SoundContext (set hash call ctx args).1
    unfolding set
    set-SoundContext [] = w
    set-SoundContext (name ∷ []) = w
    set-SoundContext (name ∷ key ∷ []) = w
    set-SoundContext (name ∷ key ∷ value ∷ args) =
        set_checked-IsSound hash call ctx key value (set_options args) w

    pub del-SoundContext : (args : List Bytes) → SoundContext (del hash call ctx args).1
    unfolding del
    del-SoundContext [] = w
    del-SoundContext (name ∷ []) = w
    del-SoundContext (name ∷ key ∷ keys) =
        rw persist_changed-storage (del_keys-IsSound hash (key ∷ keys) ctx.storage call.clock w)

    pub exists-SoundContext : (args : List Bytes) → SoundContext (exists hash call ctx args).1
    unfolding exists
    exists-SoundContext [] = w
    exists-SoundContext (name ∷ []) = w
    exists-SoundContext (name ∷ key ∷ keys) =
        exists-IsSound hash (key ∷ keys) ctx.storage call.clock w

    pub mget-SoundContext : (args : List Bytes) → SoundContext (mget hash call ctx args).1
    unfolding mget
    mget-SoundContext [] = w
    mget-SoundContext (name ∷ []) = w
    mget-SoundContext (name ∷ key ∷ keys) = mget-IsSound hash (key ∷ keys) ctx.storage call.clock w

    pub mset-SoundContext : (args : List Bytes) → SoundContext (mset hash call ctx args).1
    unfolding mset
    mset-SoundContext args = elim (Bool-cases (ltb (length args) 3 || length args % 2 == 0)) [
      | inl e ↦ rw e w
      | inr e ↦ rw (e, written-storage) (mset_loop-IsSound hash (drop 1 args) call 0 ctx.storage w)
    ]

    pub strlen_cmd-SoundContext :
        (args : List Bytes) → SoundContext (strlen_cmd hash call ctx args).1
    unfolding strlen_cmd Engine.strlen
    strlen_cmd-SoundContext [] = w
    strlen_cmd-SoundContext (name ∷ []) = w
    strlen_cmd-SoundContext (name ∷ key ∷ []) =
        (get-value hash ctx.storage w key (call.clock 0)).1.0
    strlen_cmd-SoundContext (name ∷ key ∷ x ∷ xs) = w

    pub incr_decr-SoundContext :
        (delta : ℤ) (args : List Bytes) → SoundContext (incr_decr hash delta call ctx args).1
    unfolding incr_decr
    incr_decr-SoundContext delta [] = w
    incr_decr-SoundContext delta (name ∷ []) = w
    incr_decr-SoundContext delta (name ∷ key ∷ []) =
        rw written-storage (incr_by-Written hash ctx.storage w key (tick call 0) delta).sound
    incr_decr-SoundContext delta (name ∷ key ∷ x ∷ xs) = w

    pub append-SoundContext : (args : List Bytes) → SoundContext (append hash call ctx args).1
    unfolding append
    append-SoundContext [] = w
    append-SoundContext (name ∷ []) = w
    append-SoundContext (name ∷ key ∷ []) = w
    append-SoundContext (name ∷ key ∷ suffix ∷ []) =
        rw written-storage (append-Written hash ctx.storage w key (tick call 0) suffix).sound
    append-SoundContext (name ∷ key ∷ suffix ∷ x ∷ xs) = w

    pub expire_impl-SoundContext :
        (multiplier : ℕ) (n : Bytes) (args : List Bytes)
        → SoundContext (expire_impl hash multiplier n call ctx args).1
    unfolding expire_impl
    expire_impl-SoundContext multiplier n [] = w
    expire_impl-SoundContext multiplier n (name ∷ []) = w
    expire_impl-SoundContext multiplier n (name ∷ key ∷ []) = w
    expire_impl-SoundContext multiplier n (name ∷ key ∷ value ∷ []) =
        expire_checked-IsSound hash n call ctx key (parse_ttl_ms value multiplier) w
    expire_impl-SoundContext multiplier n (name ∷ key ∷ value ∷ x ∷ xs) = w

    pub pexpireat-SoundContext : (args : List Bytes) → SoundContext (pexpireat hash call ctx args).1
    unfolding pexpireat
    pexpireat-SoundContext [] = w
    pexpireat-SoundContext (name ∷ []) = w
    pexpireat-SoundContext (name ∷ key ∷ []) = w
    pexpireat-SoundContext (name ∷ key ∷ value ∷ []) =
        pexpireat_checked-IsSound hash call ctx (name ∷ key ∷ value ∷ []) key (parse_i64 value) w
    pexpireat-SoundContext (name ∷ key ∷ value ∷ x ∷ xs) = w

    pub ttl_impl-SoundContext :
        (millis : Bool) (args : List Bytes) → SoundContext (ttl_impl hash millis call ctx args).1
    unfolding ttl_impl
    ttl_impl-SoundContext millis [] = w
    ttl_impl-SoundContext millis (name ∷ []) = w
    ttl_impl-SoundContext millis (name ∷ key ∷ []) =
        (ttl-seen hash ctx.storage w key (call.clock 0)).1.0
    ttl_impl-SoundContext millis (name ∷ key ∷ x ∷ xs) = w

    pub persist_cmd-SoundContext :
        (args : List Bytes) → SoundContext (persist_cmd hash call ctx args).1
    unfolding persist_cmd
    persist_cmd-SoundContext [] = w
    persist_cmd-SoundContext (name ∷ []) = w
    persist_cmd-SoundContext (name ∷ key ∷ []) =
        rw persist_changed-storage (persist-Updated hash ctx.storage w key (call.clock 0)).1.0
    persist_cmd-SoundContext (name ∷ key ∷ x ∷ xs) = w
