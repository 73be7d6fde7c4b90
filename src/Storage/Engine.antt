-- ===== src/Storage/Engine.antt =====
-- The public methods of `StorageEngine` in src/storage/storage_engine.cpp: the choice of the shard, the
-- checks before its lock is taken, and the passes over all shards. `std::hash` is the parameter `hash`.
pub mod Shards
pub mod Passes
pub mod Contract
pub mod Updates
pub mod Reach
pub mod Session
use velox_db.Prelude.{
  ℕ, zero, suc, ◌+◌, ◌%◌, Bytes, [], ◌∷◌, ◌++◌, List, Option, none, some, Bool, true, false, length,
  ltb, leb, ◌==◌, if◌then◌else◌, is_some, get_or, set_elem, replicate, ℤ, pos, leb_ℤ,
}
use velox_db.Config.Types.{StorageConfig, ProtocolConfig}
use velox_db.Storage.Types.{
  TimePoint, Entry, Table, Shard, StorageEngine, Tick, SetCondition, WriteResult, key_too_large,
  value_too_large, TtlResult, SnapshotEntry,
}
use velox_db.Storage.Time.{after_ms, add_size, sub_size}
use velox_db.Storage.Table.{find, entry_memory, entry_weight, expired_by}
use velox_db.Storage.Held.{
  Held, reserve_memory, release_memory, reserved, unreserved, released, key_valid, value_valid,
  refused, set_locked, get_locked, del_locked, incr_by_locked, append_locked, expire_at_locked,
  ttl_locked, persist_locked,
}
use velox_db.Storage.Sweep.{sweep_locked, count_with_expiry, snapshot_of, active_expire_locked}

abbrev pub empty_shard : Shard
empty_shard = record { map = []; memory_bytes = 0; expire_cursor = 0 }

-- The constructor.
unfoldable pub create : StorageConfig → ProtocolConfig → StorageEngine
create config limits =
    let n = if config.shards == 0 then 1 else config.shards in
    record {
      config = record config { shards = n };
      limits = limits;
      shards = replicate n empty_shard;
      used_memory = 0;
      expired_keys = 0;
    }

-- Taking the lock of a shard, and putting the shard back.
abbrev pub hold : Shard → (used_memory expired_keys : ℕ) → Held
hold s used count = record {
  map = s.map;
  memory_bytes = s.memory_bytes;
  expire_cursor = s.expire_cursor;
  used_memory = used;
  expired_keys = count;
}

abbrev pub shard_of : Held → Shard
shard_of h = record { map = h.map; memory_bytes = h.memory_bytes; expire_cursor = h.expire_cursor }

abbrev pub shard_count : StorageEngine → ℕ
shard_count st = length st.shards

module _ (hash : Bytes → ℕ) where
  unfoldable pub shard_for_key : StorageEngine → Bytes → ℕ
  shard_for_key st key = hash key % shard_count st

  unfoldable pub shard : StorageEngine → Bytes → Shard
  unfolding shard_for_key
  shard st key = get_or st.shards (shard_for_key st key) empty_shard

  -- An operation under the lock of the shard of its key.
  unfoldable pub locked {ℓ} :
      {A : Type ℓ} → StorageEngine → Bytes → (Held → A × Held) → A × StorageEngine
  unfolding shard
  locked st key op =
      let (a, h) = op (hold (shard st key) st.used_memory st.expired_keys) in
      (
        a,
        record st {
          shards = set_elem st.shards (shard_for_key st key) (shard_of h);
          used_memory = h.used_memory;
          expired_keys = h.expired_keys;
        },
      )

  unfoldable pub set :
      StorageEngine → Tick → Bytes → Bytes → Option ℤ → SetCondition → WriteResult × StorageEngine
  unfolding key_valid value_valid locked set_locked
  set st t key value ttl condition =
      if key_valid st.limits key
      then if value_valid st.limits value
        then locked st key (set_locked st.config.max_memory_bytes t key value ttl condition)
        else (refused value_too_large, st)
      else (refused key_too_large, st)

  unfoldable pub get : StorageEngine → TimePoint → Bytes → Option Bytes × StorageEngine
  unfolding locked get_locked
  get st now key = locked st key (get_locked key now)

  unfoldable pub del : StorageEngine → TimePoint → Bytes → ℕ × StorageEngine
  unfolding locked del_locked
  del st now key = locked st key (del_locked key now)

  -- The loop of `del` over many keys; the clock is read anew for each of them.
  unfoldable pub del_keys : StorageEngine → (ℕ → TimePoint) → List Bytes → ℕ × StorageEngine
  unfolding del
  del_keys st clock [] = (0, st)
  del_keys st clock (key ∷ keys) =
      let (n, st') = del st (clock 0) key in
      let (more, st'') = del_keys st' (λ i. clock (suc i)) keys in (n + more, st'')

  unfoldable pub mget :
      StorageEngine → (ℕ → TimePoint) → List Bytes → List (Option Bytes) × StorageEngine
  unfolding get
  mget st clock [] = ([], st)
  mget st clock (key ∷ keys) =
      let (v, st') = get st (clock 0) key in
      let (vs, st'') = mget st' (λ i. clock (suc i)) keys in (v ∷ vs, st'')

  unfoldable pub exists : StorageEngine → (ℕ → TimePoint) → List Bytes → ℕ × StorageEngine
  unfolding get
  exists st clock [] = (0, st)
  exists st clock (key ∷ keys) =
      let (v, st') = get st (clock 0) key in
      let (more, st'') = exists st' (λ i. clock (suc i)) keys in
      ((if is_some v then 1 else 0) + more, st'')

  unfoldable pub incr_by : StorageEngine → Tick → Bytes → ℤ → WriteResult × StorageEngine
  unfolding key_valid locked incr_by_locked
  incr_by st t key delta =
      if key_valid st.limits key
      then locked st key (incr_by_locked st.config.max_memory_bytes st.limits t key delta)
      else (refused key_too_large, st)

  unfoldable pub append : StorageEngine → Tick → Bytes → Bytes → WriteResult × StorageEngine
  unfolding key_valid locked append_locked
  append st t key suffix =
      if key_valid st.limits key
      then locked st key (append_locked st.config.max_memory_bytes st.limits t key suffix)
      else (refused key_too_large, st)

  length_of : Option Bytes → ℕ
  length_of none = 0
  length_of (some v) = length v

  unfoldable pub strlen : StorageEngine → TimePoint → Bytes → ℕ × StorageEngine
  unfolding get length_of
  strlen st now key = let (v, st') = get st now key in (length_of v, st')

  unfoldable pub expire_at : StorageEngine → TimePoint → Bytes → TimePoint → Bool × StorageEngine
  unfolding locked expire_at_locked
  expire_at st now key at = locked st key (expire_at_locked key at now)

  -- The clock is read for the expiry, and again under the lock.
  unfoldable pub expire :
      StorageEngine → (first second : TimePoint) → Bytes → ℤ → Bool × StorageEngine
  unfolding del expire_at after_ms
  expire st first second key ttl =
      if leb_ℤ ttl (pos 0)
      then (let (n, st') = del st first key in (n == 1, st'))
      else expire_at st second key (after_ms first ttl)

  unfoldable pub ttl : StorageEngine → TimePoint → Bytes → TtlResult × StorageEngine
  unfolding locked ttl_locked
  ttl st now key = locked st key (ttl_locked key now)

  unfoldable pub persist : StorageEngine → TimePoint → Bytes → Bool × StorageEngine
  unfolding locked persist_locked
  persist st now key = locked st key (persist_locked key now)

-- The counters of the engine, as a pass hands them from shard to shard.
pub record Pass : Type 0 where
  pub shards : List Shard
  pub used_memory : ℕ
  pub expired_keys : ℕ
  pub total : ℕ

-- One operation on each shard in turn, with the sum of its results.
unfoldable pub each_shard : (Held → Held × ℕ) → List Shard → (used_memory expired_keys : ℕ) → Pass
each_shard op [] used count = record {
  shards = [];
  used_memory = used;
  expired_keys = count;
  total = 0;
}
each_shard op (s ∷ ss) used count =
    let (h, n) = op (hold s used count) in
    let p = each_shard op ss h.used_memory h.expired_keys in
    record p { shards = shard_of h ∷ p.shards; total = n + p.total }

abbrev pub after_pass : StorageEngine → Pass → StorageEngine
after_pass st p = record st {
  shards = p.shards;
  used_memory = p.used_memory;
  expired_keys = p.expired_keys;
}

-- A sweep of a shard with a number that is read off the entries that stay.
abbrev pub sweep_and : TimePoint → (Table → ℕ) → Held → Held × ℕ
sweep_and now count h = let h' = sweep_locked now h in (h', count h'.map)

unfoldable pub dbsize : StorageEngine → TimePoint → ℕ × StorageEngine
unfolding each_shard sweep_locked
dbsize st now =
    let p = each_shard (sweep_and now length) st.shards st.used_memory st.expired_keys in
    (p.total, after_pass st p)

unfoldable pub expires_count : StorageEngine → TimePoint → ℕ × StorageEngine
unfolding each_shard sweep_locked count_with_expiry
expires_count st now =
    let p = each_shard (sweep_and now count_with_expiry) st.shards st.used_memory st.expired_keys in
    (p.total, after_pass st p)

unfoldable pub entries_of : List Shard → List SnapshotEntry
unfolding snapshot_of
entries_of [] = []
entries_of (s ∷ ss) = snapshot_of s.map ++ entries_of ss

-- The pass of `snapshot` sweeps each shard and copies the entries that stay.
unfoldable pub snapshot : StorageEngine → TimePoint → List SnapshotEntry × StorageEngine
unfolding each_shard sweep_locked entries_of
snapshot st now =
    let p = each_shard (sweep_and now length) st.shards st.used_memory st.expired_keys in
    (entries_of p.shards, after_pass st p)

unfoldable pub active_expire : StorageEngine → TimePoint → ℕ → ℕ × StorageEngine
unfolding each_shard active_expire_locked add_size
active_expire st now sample =
    let p = each_shard (active_expire_locked sample now) st.shards st.used_memory st.expired_keys in
    let count = if p.total == 0 then p.expired_keys else add_size p.expired_keys p.total in
    (p.total, record (after_pass st p) { expired_keys = count })

unfoldable pub cleared : List Shard → List Shard
cleared [] = []
cleared (s ∷ ss) = record s { map = []; memory_bytes = 0 } ∷ cleared ss

unfoldable pub memory_of : ℕ → List Shard → ℕ
unfolding add_size
memory_of acc [] = acc
memory_of acc (s ∷ ss) = memory_of (add_size acc s.memory_bytes) ss

unfoldable pub flushdb : StorageEngine → StorageEngine
unfolding cleared memory_of release_memory
flushdb st = record st {
  shards = cleared st.shards;
  used_memory = release_memory st.used_memory (memory_of 0 st.shards);
}
