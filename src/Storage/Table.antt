-- ===== src/Storage/Table.antt =====
-- The map of a shard, as src/storage/storage_engine.cpp uses it, and what its entries weigh.
pub mod Laws
use velox_db.Prelude.{
  ℕ, ◌+◌, ◌%◌, ◌^◌, Bytes, List, [], ◌∷◌, Option, none, some, Bool, true, false, ◌&&◌, length,
  if◌then◌else◌, bytes_eq, leb_ℤ, ◌≡◌,
}
use velox_db.Storage.Types.{TimePoint, Entry, Table}
use velox_db.Storage.Time.{size_mod}

unfoldable pub find : Bytes → Table → Option Entry
unfolding bytes_eq
find k [] = none
find k ((j, e) ∷ m) = if bytes_eq k j then some e else find k m

-- `map.erase(it)` at the entry that `find` shows.
unfoldable pub erase : Bytes → Table → Table
unfolding bytes_eq
erase k [] = []
erase k ((j, e) ∷ m) = if bytes_eq k j then m else (j, e) ∷ erase k m

-- `it->second = entry` where the key is there, `map.emplace(key, entry)` where it is not.
unfoldable pub put : Bytes → Entry → Table → Table
unfolding bytes_eq
put k e [] = (k, e) ∷ []
put k e ((j, d) ∷ m) = if bytes_eq k j then (j, e) ∷ m else (j, d) ∷ put k e m

-- `expired`
unfoldable pub expired_by : Option TimePoint → TimePoint → Bool
expired_by none now = false
expired_by (some t) now = leb_ℤ t now

abbrev pub expired : Entry → TimePoint → Bool
expired e now = expired_by e.expiry now

-- `kEntryOverhead`
abbrev pub entry_overhead : ℕ
entry_overhead = 96

unfoldable pub entry_memory : Bytes → Bytes → ℕ
entry_memory key value = (entry_overhead + length key + length value) % size_mod

-- The memory of all entries together, with no wrap-around.
unfoldable pub map_memory : Table → ℕ
map_memory [] = 0
map_memory ((k, e) ∷ m) = entry_memory k e.value + map_memory m

-- No key stands twice.
abbrev pub Unique : Table → Type 0
Unique [] = Unit
Unique ((k, e) ∷ m) = (find k m ≡ none) × Unique m

unfoldable pub entry_weight : Bytes → Option Entry → ℕ
entry_weight k none = 0
entry_weight k (some e) = entry_memory k e.value
