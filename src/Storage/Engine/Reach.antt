-- ===== src/Storage/Engine/Reach.antt =====
-- The runs of `StorageEngine`: every sequence of public operations, at whatever times.
use velox_db.Prelude.{
  ℕ, zero, suc, ◌<◌, ◌^◌, Bytes, Option, ◌≡◌, refl, ap, ◌∙◌, Bool-cases, inl, inr, leb_ℤ, pos, ℤ,
  length, replicate, arith, All,
}
use velox_db.Config.Types.{StorageConfig, ProtocolConfig}
use velox_db.Storage.Types.{TimePoint, StorageEngine, Tick, SetCondition}
use velox_db.Storage.Held.{key_valid, value_valid}
use velox_db.Storage.Table.{map_memory}
use velox_db.Storage.Held.Accounting.{Accounted}
use velox_db.Storage.Engine.{
  create, empty_shard, set, get, del, incr_by, append, expire_at, expire, ttl, persist, dbsize,
  expires_count, snapshot, active_expire, flushdb, locked, shard, shard_for_key,
}
use velox_db.Storage.Sweep.{count_with_expiry}
use velox_db.Storage.Engine.Shards.{IsSound, IsShard, total_memory, view, Unchanged}
use velox_db.Storage.Engine.Passes.{
  sweep_and-IsQuiet, active_expire-IsQuiet, after_pass-IsSound, after_pass-Unchanged,
  flushdb-IsSound,
}
use velox_db.Storage.Engine.Contract.{set-Written, get-value, del-Updated}
use velox_db.Storage.Engine.Updates.{
  incr_by-Written, append-Written, expire_at-Updated, expire-IsSound, ttl-seen, persist-Updated,
}

length-replicate : (n : ℕ) → length (replicate n empty_shard) ≡ n
length-replicate zero = refl
length-replicate (suc n) = ap suc (length-replicate n)

fresh-IsShard : (n : ℕ) → All IsShard (replicate n empty_shard)
unfolding map_memory
fresh-IsShard zero = tt
fresh-IsShard (suc n) = (record { unique = tt; bytes = refl }, fresh-IsShard n)

fresh-total : (n : ℕ) → total_memory (replicate n empty_shard) ≡ 0
unfolding total_memory map_memory
fresh-total zero = refl
fresh-total (suc n) = omega (arith, fresh-total n)

fresh-Accounted : (max : ℕ) → Accounted max 0 0
fresh-Accounted zero = refl
fresh-Accounted (suc m) = omega arith

pub create-IsSound :
    (c : StorageConfig) (l : ProtocolConfig) → c.max_memory_bytes < 2 ^ 64 → IsSound (create c l)
unfolding create
create-IsSound c l h = record {
  sharded = rw length-replicate (ground arith);
  word = h;
  each = fresh-IsShard _;
  used = rw fresh-total (fresh-Accounted c.max_memory_bytes);
}

module _ (hash : Bytes → ℕ) where
  -- One public operation, with what it meets of the clock and the allocator.
  pub data Step : StorageEngine → StorageEngine → Type 0 where
    by_set :
        (st : StorageEngine) (t : Tick) (k v : Bytes) (ms : Option ℤ) (c : SetCondition)
        → Step st (set hash st t k v ms c).1
    by_get : (st : StorageEngine) (now : TimePoint) (k : Bytes) → Step st (get hash st now k).1
    by_del : (st : StorageEngine) (now : TimePoint) (k : Bytes) → Step st (del hash st now k).1
    by_incr_by :
        (st : StorageEngine) (t : Tick) (k : Bytes) (delta : ℤ)
        → Step st (incr_by hash st t k delta).1
    by_append :
        (st : StorageEngine) (t : Tick) (k suffix : Bytes) → Step st (append hash st t k suffix).1
    by_expire_at :
        (st : StorageEngine) (now : TimePoint) (k : Bytes) (at : TimePoint)
        → Step st (expire_at hash st now k at).1
    by_expire :
        (st : StorageEngine) (first second : TimePoint) (k : Bytes) (ms : ℤ)
        → Step st (expire hash st first second k ms).1
    by_ttl : (st : StorageEngine) (now : TimePoint) (k : Bytes) → Step st (ttl hash st now k).1
    by_persist :
        (st : StorageEngine) (now : TimePoint) (k : Bytes) → Step st (persist hash st now k).1
    by_dbsize : (st : StorageEngine) (now : TimePoint) → Step st (dbsize st now).1
    by_expires_count : (st : StorageEngine) (now : TimePoint) → Step st (expires_count st now).1
    by_snapshot : (st : StorageEngine) (now : TimePoint) → Step st (snapshot st now).1
    by_active_expire :
        (st : StorageEngine) (now : TimePoint) (sample : ℕ)
        → Step st (active_expire st now sample).1
    by_flushdb : (st : StorageEngine) → Step st (flushdb st)

  pub data Reach : StorageEngine → StorageEngine → Type 0 where
    start : (st : StorageEngine) → Reach st st
    next : (st st' st'' : StorageEngine) → Reach st st' → Step st' st'' → Reach st st''

  module _ (st : StorageEngine) (w : IsSound st) where
    pub dbsize-Unchanged :
        (now : TimePoint) → IsSound (dbsize st now).1 × Unchanged hash now st (dbsize st now).1
    unfolding dbsize
    dbsize-Unchanged now =
        let q = sweep_and-IsQuiet st.config.max_memory_bytes now length in
        (after_pass-IsSound hash st now _ q w, after_pass-Unchanged hash st now _ q w)

    pub expires_count-Unchanged :
        (now : TimePoint)
        → IsSound (expires_count st now).1 × Unchanged hash now st (expires_count st now).1
    unfolding expires_count
    expires_count-Unchanged now =
        let q = sweep_and-IsQuiet st.config.max_memory_bytes now count_with_expiry in
        (after_pass-IsSound hash st now _ q w, after_pass-Unchanged hash st now _ q w)

    -- Taking a snapshot of a sound engine keeps the invariant and changes nothing that a client
    -- sees from then on.
    pub snapshot-Unchanged :
        (now : TimePoint) → IsSound (snapshot st now).1 × Unchanged hash now st (snapshot st now).1
    unfolding snapshot
    snapshot-Unchanged now =
        let q = sweep_and-IsQuiet st.config.max_memory_bytes now length in
        (after_pass-IsSound hash st now _ q w, after_pass-Unchanged hash st now _ q w)

    -- Active expiration of a sound engine, with any sample size, keeps the invariant and changes
    -- nothing that a client sees from then on.
    pub active_expire-Unchanged :
        (now : TimePoint) (sample : ℕ)
        → let st' = (active_expire st now sample).1 in IsSound st' × Unchanged hash now st st'
    unfolding active_expire view shard shard_for_key
    active_expire-Unchanged now sample =
        let q = active_expire-IsQuiet st.config.max_memory_bytes now sample in
        let s = after_pass-IsSound hash st now _ q w in
        let u = after_pass-Unchanged hash st now _ q w in
        (
          record { sharded = s.sharded; word = s.word; each = s.each; used = s.used },
          record { at = λ t j later. u.at t j later },
        )

  -- Every public operation keeps the invariant.
  Step-IsSound : (st st' : StorageEngine) → Step st st' → IsSound st → IsSound st'
  Step-IsSound _ _ (by_set st t k v ms c) w = (set-Written hash st w k t v ms c).sound
  Step-IsSound _ _ (by_get st now k) w = (get-value hash st w k now).1.0
  Step-IsSound _ _ (by_del st now k) w = (del-Updated hash st w k now).1.0
  Step-IsSound _ _ (by_incr_by st t k delta) w = (incr_by-Written hash st w k t delta).sound
  Step-IsSound _ _ (by_append st t k suffix) w = (append-Written hash st w k t suffix).sound
  Step-IsSound _ _ (by_expire_at st now k at) w = (expire_at-Updated hash st w k now at).1.0
  Step-IsSound _ _ (by_expire st first second k ms) w = expire-IsSound hash st w k first second ms
  Step-IsSound _ _ (by_ttl st now k) w = (ttl-seen hash st w k now).1.0
  Step-IsSound _ _ (by_persist st now k) w = (persist-Updated hash st w k now).1.0
  Step-IsSound _ _ (by_dbsize st now) w = (dbsize-Unchanged st w now).0
  Step-IsSound _ _ (by_expires_count st now) w = (expires_count-Unchanged st w now).0
  Step-IsSound _ _ (by_snapshot st now) w = (snapshot-Unchanged st w now).0
  Step-IsSound _ _ (by_active_expire st now sample) w = (active_expire-Unchanged st w now sample).0
  Step-IsSound _ _ (by_flushdb st) w = flushdb-IsSound st w

  pub Reach-IsSound : (st st' : StorageEngine) → Reach st st' → IsSound st → IsSound st'
  Reach-IsSound _ _ (start st) w = w
  Reach-IsSound _ _ (next st st1 st2 r s) w = Step-IsSound st1 st2 s (Reach-IsSound st st1 r w)

  -- The limit on memory is the one that the engine was made with.
  Step-limit :
      (st st' : StorageEngine)
      → Step st st'
      → st'.config.max_memory_bytes ≡ st.config.max_memory_bytes
  unfolding set get del incr_by append expire_at expire ttl persist dbsize expires_count snapshot
      active_expire flushdb locked
  Step-limit _ _ (by_set st t k v ms c) = elim (Bool-cases (key_valid st.limits k)) [
    | inl e ↦
        rw e (elim (Bool-cases (value_valid st.limits v)) [
          | inl e' ↦ rw e' refl
          | inr e' ↦ rw e' refl
        ])
    | inr e ↦ rw e refl
  ]
  Step-limit _ _ (by_get st now k) = refl
  Step-limit _ _ (by_del st now k) = refl
  Step-limit _ _ (by_incr_by st t k delta) = elim (Bool-cases (key_valid st.limits k)) [
    | inl e ↦ rw e refl
    | inr e ↦ rw e refl
  ]
  Step-limit _ _ (by_append st t k suffix) = elim (Bool-cases (key_valid st.limits k)) [
    | inl e ↦ rw e refl
    | inr e ↦ rw e refl
  ]
  Step-limit _ _ (by_expire_at st now k at) = refl
  Step-limit _ _ (by_expire st first second k ms) = elim (Bool-cases (leb_ℤ ms (pos 0))) [
    | inl e ↦ rw e refl
    | inr e ↦ rw e refl
  ]
  Step-limit _ _ (by_ttl st now k) = refl
  Step-limit _ _ (by_persist st now k) = refl
  Step-limit _ _ (by_dbsize st now) = refl
  Step-limit _ _ (by_expires_count st now) = refl
  Step-limit _ _ (by_snapshot st now) = refl
  Step-limit _ _ (by_active_expire st now sample) = refl
  Step-limit _ _ (by_flushdb st) = refl

  Reach-limit :
      (st st' : StorageEngine)
      → Reach st st'
      → st'.config.max_memory_bytes ≡ st.config.max_memory_bytes
  Reach-limit _ _ (start st) = refl
  Reach-limit _ _ (next st st1 st2 r s) = Step-limit st1 st2 s ∙ Reach-limit st st1 r

  -- For every sequence of public operations on a new engine whose limit is a size_t, whatever the
  -- hash, the times and the failures of allocation: with a limit on memory, the memory counter
  -- equals the memory of all stored entries and is at most the limit; without a limit the counter
  -- stays at 0.
  pub Reach-used_memory :
      (c : StorageConfig) (l : ProtocolConfig) (st : StorageEngine)
      → c.max_memory_bytes < 2 ^ 64
      → Reach (create c l) st
      → Accounted c.max_memory_bytes st.used_memory (total_memory st.shards)
  Reach-used_memory c l st h r =
      let e : st.config.max_memory_bytes ≡ c.max_memory_bytes =
        unfold create in Reach-limit (create c l) st r in
      rw e at (Reach-IsSound (create c l) st r (create-IsSound c l h)).used
