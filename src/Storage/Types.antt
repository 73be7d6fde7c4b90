-- ===== src/Storage/Types.antt =====
-- The types of include/veloxdb/storage/storage_engine.h. A mutex has no counterpart: each operation
-- runs while it holds the lock of its shard.
use velox_db.Prelude.{ℕ, Bytes, ℤ, List, Option, Bool}
use velox_db.Config.Types.{StorageConfig, ProtocolConfig}

-- Ticks of `std::chrono::system_clock` since the epoch.
abbrev pub TimePoint : Type 0
TimePoint = ℤ

pub data SetCondition : Type 0 where
  always nx xx : SetCondition

pub data WriteCode : Type 0 where
  ok not_set no_memory key_too_large value_too_large invalid_integer overflow : WriteCode

pub record WriteResult : Type 0 where
  pub code : WriteCode
  pub integer : ℤ

-- `TtlState` with the milliseconds where they count.
pub data TtlResult : Type 0 where
  missing no_expiry : TtlResult
  has_expiry : ℤ → TtlResult

pub record SnapshotEntry : Type 0 where
  pub key : Bytes
  pub value : Bytes
  pub expire_at_unix_ms : Option ℤ

pub record Entry : Type 0 where
  pub value : Bytes
  pub expiry : Option TimePoint
  pub version : ℕ
  pub last_access : TimePoint

-- `std::unordered_map<std::string, Entry>`: the list is in the order of iteration.
abbrev pub Table : Type 0
Table = List (Bytes × Entry)

pub record Shard : Type 0 where
  pub map : Table
  pub memory_bytes : ℕ
  pub expire_cursor : ℕ

pub record StorageEngine : Type 0 where
  pub config : StorageConfig
  pub limits : ProtocolConfig
  pub shards : List Shard
  pub used_memory : ℕ
  pub expired_keys : ℕ

-- What an operation meets of its surroundings: the time that the clock shows, and whether the
-- allocations that it makes under `try` succeed.
pub record Tick : Type 0 where
  pub now : TimePoint
  pub alloc : Bool
