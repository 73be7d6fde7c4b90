-- ===== src/Storage/Sweep.antt =====
-- The passes of src/storage/storage_engine.cpp over whole shards: `dbsize`, `expires_count`,
-- `snapshot`, `flushdb` and `active_expire`, on one shard while its lock is held.
pub mod Laws
pub mod Sampling
use velox_db.Prelude.{
  ℤ, ℕ, zero, suc, ◌+◌, ◌%◌, ◌<◌, Bytes, [], ◌∷◌, List, Option, none, some, Bool, true, false,
  length, ltb, leb, ◌==◌, if◌then◌else◌, is_some,
}
use velox_db.Storage.Types.{TimePoint, Entry, Table, SnapshotEntry}
use velox_db.Storage.Time.{unix_ms}
use velox_db.Storage.Table.{expired}
use velox_db.Storage.Held.{Held, forget_memory, count_expired}

-- The counters behind the erasure of an entry that has expired.
unfoldable pub drop_expired : Bytes → Entry → Held → Held
unfolding forget_memory count_expired
drop_expired k e h = count_expired (forget_memory h k e.value)

-- The loop over the map: what stays in it.
unfoldable pub swept : TimePoint → Table → Table
swept now [] = []
swept now ((k, e) ∷ m) = let rest = swept now m in if expired e now then rest else (k, e) ∷ rest

-- The same loop: what it does to the counters.
unfoldable pub sweep_counters : TimePoint → Table → Held → Held
unfolding drop_expired
sweep_counters now [] h = h
sweep_counters now ((k, e) ∷ m) h =
    sweep_counters now m (if expired e now then drop_expired k e h else h)

unfoldable pub sweep_locked : TimePoint → Held → Held
unfolding swept sweep_counters
sweep_locked now h = record (sweep_counters now h.map h) { map = swept now h.map }

-- `++total` for each entry that stays, in `dbsize` and, with an expiry, in `expires_count`.
unfoldable pub count_with_expiry : Table → ℕ
count_with_expiry [] = 0
count_with_expiry ((k, e) ∷ m) =
    let rest = count_with_expiry m in if is_some e.expiry then suc rest else rest

unix_ms_of : Option TimePoint → Option ℤ
unix_ms_of none = none
unix_ms_of (some t) = some (unix_ms t)

-- `entries.push_back` for each entry that stays, in `snapshot`.
unfoldable pub snapshot_of : Table → List SnapshotEntry
unfolding unix_ms_of unix_ms
snapshot_of [] = []
snapshot_of ((k, e) ∷ m) =
    record { key = k; value = e.value; expire_at_unix_ms = unix_ms_of e.expiry } ∷ snapshot_of m

-- An iterator into the map is the number of entries before it.
entry_at : ℕ → Table → Option (Bytes × Entry)
entry_at i [] = none
entry_at zero (x ∷ m) = some x
entry_at (suc i) (x ∷ m) = entry_at i m

remove_at : ℕ → Table → Table
remove_at i [] = []
remove_at zero (x ∷ m) = m
remove_at (suc i) (x ∷ m) = x ∷ remove_at i m

-- What a sampling loop carries: the held shard, the iterator, `sampled` and the erasures so far.
pub record Sample : Type 0 where
  pub held : Held
  pub index : ℕ
  pub sampled : ℕ
  pub erased : ℕ

-- `if (it == end()) it = begin()`
wrapped : ℕ → Table → ℕ
wrapped i m = if i == length m then 0 else i

step_at : TimePoint → Sample → Option (Bytes × Entry) → Sample
unfolding forget_memory remove_at wrapped
step_at now s none = s
step_at now s (some (k, e)) =
    let m = remove_at s.index s.held.map in
    let erased = record s {
      held = record (forget_memory s.held k e.value) { map = m };
      index = wrapped s.index m;
      sampled = s.sampled + 1;
      erased = s.erased + 1;
    } in
    let passed = record s { index = wrapped (s.index + 1) s.held.map; sampled = s.sampled + 1 } in
    if expired e now then erased else passed

-- The loop of `active_expire` over one shard, with the rounds that are left; it ends early on an empty map.
sample_loop : ℕ → TimePoint → Sample → Sample
unfolding step_at entry_at
sample_loop zero now s = s
sample_loop (suc n) now s =
    let rest = sample_loop n now (step_at now s (entry_at s.index s.held.map)) in
    if length s.held.map == 0 then s else rest

sample_from : ℕ → TimePoint → Held → Held × ℕ
unfolding sample_loop
sample_from sample now h =
    let start = h.expire_cursor % length h.map in
    let target = if leb sample (length h.map) then sample else length h.map in
    let s = sample_loop target now (record { held = h; index = start; sampled = 0; erased = 0 }) in
    let size = length s.held.map in
    (
      record s.held { expire_cursor = if size == 0 then 0 else (start + s.sampled) % size },
      s.erased,
    )

-- The pass of `active_expire` over a shard, and the entries that it erased.
unfoldable pub active_expire_locked : ℕ → TimePoint → Held → Held × ℕ
unfolding sample_from
active_expire_locked sample now h =
    if length h.map == 0 then (record h { expire_cursor = 0 }, 0) else sample_from sample now h
