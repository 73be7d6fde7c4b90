-- ===== src/Examples/Data.antt =====
-- The data of the examples: a small engine of two shards, its clients' keys and times, and a file.
use velox_db.Prelude.{ℕ, Bytes, codes, none, some, true, length, pos, arith, ◌≡◌, refl}
use velox_db.Config.Types.{StorageConfig, default_protocol}
use velox_db.Storage.Types.{TimePoint, StorageEngine, Tick, always, ok}
use velox_db.Storage.Held.{reserved, reserve_memory, key_valid}
use velox_db.Storage.Table.{entry_weight, entry_memory, find}
use velox_db.Storage.Engine.{create, set}
use velox_db.Storage.Engine.Shards.{IsSound, view}
use velox_db.Storage.Engine.Contract.{set-Written}
use velox_db.Storage.Engine.Reach.{create-IsSound}

abbrev pub hash_length : Bytes → ℕ
hash_length = length

abbrev pub two_shards : StorageConfig
two_shards = record { shards = 2; max_memory_bytes = 4096 }

abbrev pub fresh : StorageEngine
fresh = create two_shards default_protocol

abbrev pub key : Bytes
key = codes "k"

abbrev pub other : Bytes
other = codes "other"

abbrev pub at_five : Tick
at_five = record { now = pos 5; alloc = true }

abbrev pub seven : TimePoint
seven = pos 7

-- The engine after SET k 41.
abbrev pub with_number : StorageEngine
with_number = (set hash_length fresh at_five key (codes "41") none always).1

-- The engine after SET k 9223372036854775807.
abbrev pub with_maximum : StorageEngine
with_maximum = (set hash_length fresh at_five key (codes "9223372036854775807") none always).1

pub fresh-IsSound : IsSound fresh
fresh-IsSound = create-IsSound two_shards default_protocol (omega arith)

pub with_number-IsSound : IsSound with_number
with_number-IsSound =
    (set-Written hash_length fresh fresh-IsSound key at_five (codes "41") none always).sound

pub with_maximum-IsSound : IsSound with_maximum
with_maximum-IsSound =
    (set-Written hash_length fresh fresh-IsSound key at_five (codes "9223372036854775807") none
      always).sound

pub number_written : (set hash_length fresh at_five key (codes "41") none always).0.code ≡ ok
unfolding create set reserved reserve_memory entry_weight entry_memory
number_written = refl

pub number_seen : view hash_length with_number (pos 5) key ≡ some (codes "41", none)
unfolding create set view reserved reserve_memory entry_weight entry_memory find
number_seen = refl

pub maximum_seen :
    view hash_length with_maximum (pos 5) key ≡ some (codes "9223372036854775807", none)
unfolding create set view reserved reserve_memory entry_weight entry_memory find
maximum_seen = refl

pub key_fits : (st : StorageEngine) → st.limits ≡ default_protocol → key_valid st.limits key ≡ true
unfolding key_valid
key_fits st e = rw e refl

pub limits_kept : (with_number.limits ≡ default_protocol) × (with_maximum.limits ≡ default_protocol)
unfolding create set
limits_kept = (refl, refl)
