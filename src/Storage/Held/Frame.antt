-- ===== src/Storage/Held/Frame.antt =====
-- What the operations on one key do to what a client can see, at the time of the operation and later.
use velox_db.Prelude.{
  Bytes, Option, none, some, true, if◌then◌else◌, ◌≡◌, refl, ap, ◌∙◌, arith, bytes_eq, bytes_eq_iff,
  ◌≤ℤ◌,
}
use velox_db.Storage.Types.{TimePoint, Entry, Table}
use velox_db.Storage.Table.{find, erase, put, expired, expired_by, Unique}
use velox_db.Storage.Table.Laws.{find-erase, find-put}
use velox_db.Storage.Held.{Held, find_live}
use velox_db.Storage.Held.Live.{live_at, find_live-live_at, find-find_live}

-- A value and its expiry.
abbrev pub Item : Type 0
Item = Bytes × Option TimePoint

abbrev pub content : Option Entry → Option Item
content none = none
content (some e) = some (e.value, e.expiry)

-- What of a stored item a client sees at a time.
abbrev pub visible : TimePoint → Option Item → Option Item
visible t none = none
visible t (some (v, x)) = if expired_by x t then none else some (v, x)

abbrev pub sees : TimePoint → Bytes → Table → Option Item
sees t j m = visible t (content (find j m))

-- From `now` on a client sees the same in both tables.
pub record Keeps (now : TimePoint) (m m' : Table) : Type 0 where
  pub at : (t : TimePoint) (j : Bytes) → now ≤ℤ t → sees t j m' ≡ sees t j m

-- From `now` on a client sees `x` at the key `k`, and the same as before at every other.
pub record Writes (now : TimePoint) (k : Bytes) (x : Option Item) (m m' : Table) : Type 0 where
  pub at :
      (t : TimePoint) (j : Bytes)
      → now ≤ℤ t
      → sees t j m' ≡ (if bytes_eq k j then visible t x else sees t j m)

pub visible-live_at :
    (now t : TimePoint) (o : Option Entry)
    → now ≤ℤ t
    → visible t (content (live_at now o)) ≡ visible t (content o)
unfolding expired_by
visible-live_at now t none h = refl
visible-live_at now t (some e) h = ground arith

content-live_at :
    (now : TimePoint) (o : Option Entry) → content (live_at now o) ≡ visible now (content o)
content-live_at now none = refl
content-live_at now (some e) = ground arith

pub find_live-Keeps :
    (k : Bytes) (now : TimePoint) (h : Held)
    → Unique h.map
    → Keeps now h.map (find_live k now h).1.map
find_live-Keeps k now h u = record {
  at = λ t j later. ground (
    arith,
    find-find_live k j now h u,
    visible-live_at now t (find k h.map) later,
    bytes_eq_iff k j,
  );
}

-- The entry that an operation finds is the one that a client sees.
pub content-find_live :
    (k : Bytes) (now : TimePoint) (h : Held) → content (find_live k now h).0 ≡ sees now k h.map
content-find_live k now h =
    ap content (find_live-live_at k now h) ∙ content-live_at now (find k h.map)

pub Keeps-refl : (now : TimePoint) (m : Table) → Keeps now m m
Keeps-refl now m = record { at = λ t j later. refl }

pub Keeps-Writes :
    {now : TimePoint} {k : Bytes} {x : Option Item} {m m' m'' : Table}
    → Keeps now m m'
    → Writes now k x m' m''
    → Writes now k x m m''
Keeps-Writes kept w = record { at = λ t j later. ground (arith, kept.at t j later, w.at t j later) }

pub Keeps-trans :
    {now : TimePoint} {m m' m'' : Table} → Keeps now m m' → Keeps now m' m'' → Keeps now m m''
Keeps-trans kept w = record { at = λ t j later. w.at t j later ∙ kept.at t j later }

pub put-Writes :
    (now : TimePoint) (k : Bytes) (e : Entry) (m : Table)
    → Writes now k (some (e.value, e.expiry)) m (put k e m)
put-Writes now k e m = record { at = λ t j later. ground (arith, find-put k j e m) }

pub erase-Writes :
    (now : TimePoint) (k : Bytes) (m : Table) → Unique m → Writes now k none m (erase k m)
erase-Writes now k m u = record { at = λ t j later. ground (arith, find-erase k j m u) }

-- Writing what is there already changes nothing.
pub Writes-same :
    {now : TimePoint} {k : Bytes} {m m' : Table}
    → Writes now k (content (find k m)) m m'
    → Keeps now m m'
Writes-same {now} {k} {m} {m'} w = record {
  at = λ t j later. ground (arith, w.at t j later, bytes_eq_iff k j);
}

-- An entry that has expired is seen no more.
pub expired-visible :
    (now t : TimePoint) (e : Entry)
    → expired e now ≡ true
    → now ≤ℤ t
    → visible t (content (some e)) ≡ none
unfolding expired_by
expired-visible now t e x later = ground arith
