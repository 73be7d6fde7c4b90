-- ===== src/Storage/Table/Laws.antt =====
-- Laws of `find`, `erase` and `put`, and of the memory that the entries take.
use velox_db.Prelude.{
  ◌+◌, ◌^◌, ◌<◌, Bytes, [], ◌∷◌, none, some, if◌then◌else◌, bytes_eq, bytes_eq_iff, ◌≡◌, refl,
  arith,
}
use velox_db.Storage.Types.{Entry, Table}
use velox_db.Storage.Table.{find, erase, put, entry_memory, map_memory, Unique, entry_weight}

pub find-put :
    (k j : Bytes) (e : Entry) (m : Table)
    → find j (put k e m) ≡ (if bytes_eq k j then some e else find j m)
unfolding find put
find-put k j e [] = ground (arith, bytes_eq_iff k j, bytes_eq_iff j k)
find-put k j e ((i, d) ∷ m) = ground (
  arith,
  find-put k j e m,
  bytes_eq_iff k j,
  bytes_eq_iff j k,
  bytes_eq_iff k i,
  bytes_eq_iff j i,
)

pub find-erase :
    (k j : Bytes) (m : Table)
    → Unique m
    → find j (erase k m) ≡ (if bytes_eq k j then none else find j m)
unfolding find erase
find-erase k j [] u = ground (arith, bytes_eq_iff k j, bytes_eq_iff j k)
find-erase k j ((i, d) ∷ m) u = ground (
  arith,
  find-erase k j m u.1,
  bytes_eq_iff k j,
  bytes_eq_iff j k,
  bytes_eq_iff k i,
  bytes_eq_iff j i,
)

pub put-Unique : (k : Bytes) (e : Entry) (m : Table) → Unique m → Unique (put k e m)
unfolding put find
put-Unique k e [] u = (refl, tt)
put-Unique k e ((i, d) ∷ m) u = ground (arith, put-Unique k e m, find-put k i e m, bytes_eq_iff k i)

pub erase-Unique : (k : Bytes) (m : Table) → Unique m → Unique (erase k m)
unfolding erase find
erase-Unique k [] u = tt
erase-Unique k ((i, d) ∷ m) u = ground (arith, erase-Unique k m, find-erase k i m, bytes_eq_iff k i)

pub map_memory-put :
    (k : Bytes) (e : Entry) (m : Table)
    → map_memory (put k e m) + entry_weight k (find k m) ≡ map_memory m + entry_memory k e.value
unfolding map_memory put find entry_weight
map_memory-put k e [] = omega arith
map_memory-put k e ((i, d) ∷ m) = ground (arith, map_memory-put k e m, bytes_eq_iff k i)

pub map_memory-erase :
    (k : Bytes) (m : Table) → map_memory (erase k m) + entry_weight k (find k m) ≡ map_memory m
unfolding map_memory erase find entry_weight
map_memory-erase k [] = omega arith
map_memory-erase k ((i, d) ∷ m) = ground (arith, map_memory-erase k m, bytes_eq_iff k i)

pub entry_memory-lt : (k v : Bytes) → entry_memory k v < 2 ^ 64
unfolding entry_memory
entry_memory-lt k v = omega arith

pub map_memory-erase-some :
    (k : Bytes) (e : Entry) (m : Table)
    → find k m ≡ some e
    → map_memory (erase k m) + entry_memory k e.value ≡ map_memory m
unfolding entry_weight
map_memory-erase-some k e m h = rw h at (map_memory-erase k m)
