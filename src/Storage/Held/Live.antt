-- ===== src/Storage/Held/Live.antt =====
-- What `find_live` returns and leaves: the entry that has not expired.
use velox_db.Prelude.{
  Bytes, Option, none, some, if◌then◌else◌, ◌≡◌, refl, arith, bytes_eq, bytes_eq_iff, Bool-cases,
  inl, inr,
}
use velox_db.Storage.Types.{TimePoint, Entry}
use velox_db.Storage.Table.{find, expired, Unique}
use velox_db.Storage.Table.Laws.{find-erase, erase-Unique}
use velox_db.Storage.Held.{
  Held, erase_entry_locked, forget_memory, count_expired, evict_if, find_live,
}

-- An entry counts while it has not expired.
abbrev pub live_at : TimePoint → Option Entry → Option Entry
live_at now none = none
live_at now (some e) = if expired e now then none else some e

evict_if-live_at :
    (k : Bytes) (now : TimePoint) (o : Option Entry) (h : Held)
    → (evict_if k now o h).0 ≡ live_at now o
unfolding evict_if
evict_if-live_at k now none h = refl
evict_if-live_at k now (some e) h = ground arith

pub find_live-live_at :
    (k : Bytes) (now : TimePoint) (h : Held) → (find_live k now h).0 ≡ live_at now (find k h.map)
unfolding find_live
find_live-live_at k now h = evict_if-live_at k now (find k h.map) h

find-evict_if :
    (k j : Bytes) (now : TimePoint) (o : Option Entry) (h : Held)
    → Unique h.map
    → find k h.map ≡ o
    → find j (evict_if k now o h).1.map
      ≡ (if bytes_eq k j then live_at now (find k h.map) else find j h.map)
unfolding evict_if erase_entry_locked forget_memory count_expired
find-evict_if k j now none h u f = ground (arith, bytes_eq_iff k j)
find-evict_if k j now (some e) h u f = ground (arith, bytes_eq_iff k j, find-erase k j h.map u)

-- Only the entry of the key itself may go, and only if it has expired.
pub find-find_live :
    (k j : Bytes) (now : TimePoint) (h : Held)
    → Unique h.map
    → find j (find_live k now h).1.map
      ≡ (if bytes_eq k j then live_at now (find k h.map) else find j h.map)
unfolding find_live
find-find_live k j now h u = find-evict_if k j now (find k h.map) h u refl

pub found-find_live :
    (k : Bytes) (now : TimePoint) (h : Held)
    → Unique h.map
    → find k (find_live k now h).1.map ≡ (find_live k now h).0
found-find_live k now h u =
    ground (arith, find-find_live k k now h u, find_live-live_at k now h, bytes_eq_iff k k)

evict_if-Unique :
    (k : Bytes) (now : TimePoint) (o : Option Entry) (h : Held)
    → Unique h.map
    → Unique (evict_if k now o h).1.map
unfolding evict_if erase_entry_locked count_expired forget_memory
evict_if-Unique k now none h u = u
evict_if-Unique k now (some e) h u = elim (Bool-cases (expired e now)) [
  | inl x ↦ rw x (erase-Unique k h.map u)
  | inr x ↦ rw x u
]

pub find_live-Unique :
    (k : Bytes) (now : TimePoint) (h : Held) → Unique h.map → Unique (find_live k now h).1.map
unfolding find_live
find_live-Unique k now h u = evict_if-Unique k now (find k h.map) h u
