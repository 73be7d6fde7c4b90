-- ===== src/Storage/Held/Effect.antt =====
-- The result of each operation on one key, and what a client sees behind it, on every branch.
use velox_db.Prelude.{
  ℕ, Bytes, Option, none, some, Bool, true, false, ◌≡◌, ◌≢◌, refl, ap, ◌∙◌, arith, bytes_eq_iff,
  Bool-cases, inl, inr, ℤ, pos, is_some,
}
use velox_db.Storage.Types.{
  TimePoint, Entry, Table, Tick, SetCondition, WriteCode, ok, not_set, no_memory,
}
use velox_db.Storage.Table.{find, Unique, entry_weight, entry_memory}
use velox_db.Storage.Held.{
  Held, find_live, forget_memory, erase_entry_locked, touch, get_locked, remove_found, del_locked,
  write_reserved, write_if, reserved, write_entry, with_integer, set_found, set_locked,
  erase_if_expired_locked, refuses, expiry_after, new_entry,
}
use velox_db.Storage.Held.Live.{found-find_live, find_live-Unique}
use velox_db.Storage.Held.Frame.{
  Item, content, sees, Keeps, Writes, find_live-Keeps, content-find_live, Keeps-refl, Keeps-Writes,
  Keeps-trans, put-Writes, erase-Writes, Writes-same,
}

abbrev pub value_seen : Option Item → Option Bytes
value_seen none = none
value_seen (some (v, x)) = some v

-- A write takes effect with the code `ok`, and with any other a client sees what it saw before.
pub record Effect (c : WriteCode) (now : TimePoint) (k : Bytes) (x : Option Item) (m m' : Table)
    : Type 0 where
  pub wrote : c ≡ ok → Writes now k x m m'
  pub kept : c ≢ ok → Keeps now m m'

pub Effect-ok :
    {now : TimePoint} {k : Bytes} {x : Option Item} {m m' : Table}
    → Writes now k x m m'
    → Effect ok now k x m m'
Effect-ok w = record { wrote = λ e. w; kept = λ ne. absurd (ne refl) }

pub Effect-refused :
    (c : WriteCode) {now : TimePoint} {k : Bytes} (x : Option Item) {m m' : Table}
    → c ≢ ok
    → Keeps now m m'
    → Effect c now k x m m'
Effect-refused c x ne kept = record { wrote = λ e. absurd (ne e); kept = λ _. kept }

pub Keeps-Effect :
    {c : WriteCode} {now : TimePoint} {k : Bytes} {x : Option Item} {m m' m'' : Table}
    → Keeps now m m'
    → Effect c now k x m' m''
    → Effect c now k x m m''
Keeps-Effect kept w = record {
  wrote = λ e. Keeps-Writes kept (w.wrote e);
  kept = λ ne. Keeps-trans kept (w.kept ne);
}

-- GET

touch-value :
    (k : Bytes) (now : TimePoint) (o : Option Entry) (h : Held)
    → (touch k now (o, h)).0 ≡ value_seen (content o)
unfolding touch
touch-value k now none h = refl
touch-value k now (some e) h = refl

touch-Keeps :
    (k : Bytes) (now : TimePoint) (o : Option Entry) (h : Held)
    → find k h.map ≡ o
    → Keeps now h.map (touch k now (o, h)).1.map
unfolding touch
touch-Keeps k now none h f = Keeps-refl now h.map
touch-Keeps k now (some e) h f =
    Writes-same {k = k} (rw f (put-Writes now k (record e { last_access = now }) h.map))

pub get_locked-value :
    (k : Bytes) (now : TimePoint) (h : Held)
    → (get_locked k now h).0 ≡ value_seen (sees now k h.map)
unfolding get_locked
get_locked-value k now h =
    touch-value k now (find_live k now h).0 (find_live k now h).1
    ∙ ap value_seen (content-find_live k now h)

pub get_locked-Keeps :
    (k : Bytes) (now : TimePoint) (h : Held)
    → Unique h.map
    → Keeps now h.map (get_locked k now h).1.map
unfolding get_locked
get_locked-Keeps k now h u =
    Keeps-trans (find_live-Keeps k now h u)
      (touch-Keeps k now (find_live k now h).0 (find_live k now h).1 (found-find_live k now h u))

-- DEL

abbrev pub counts : Option Item → ℕ
counts none = 0
counts (some x) = 1

remove_found-count :
    (k : Bytes) (o : Option Entry) (h : Held) → (remove_found k (o, h)).0 ≡ counts (content o)
unfolding remove_found
remove_found-count k none h = refl
remove_found-count k (some e) h = refl

remove_found-Writes :
    (k : Bytes) (now : TimePoint) (o : Option Entry) (h : Held)
    → Unique h.map
    → find k h.map ≡ o
    → Writes now k none h.map (remove_found k (o, h)).1.map
unfolding remove_found erase_entry_locked forget_memory
remove_found-Writes k now none h u f = record { at = λ t j later. ground (arith, bytes_eq_iff k j) }
remove_found-Writes k now (some e) h u f = erase-Writes now k h.map u

pub del_locked-count :
    (k : Bytes) (now : TimePoint) (h : Held) → (del_locked k now h).0 ≡ counts (sees now k h.map)
unfolding del_locked
del_locked-count k now h =
    remove_found-count k (find_live k now h).0 (find_live k now h).1
    ∙ ap counts (content-find_live k now h)

pub del_locked-Writes :
    (k : Bytes) (now : TimePoint) (h : Held)
    → Unique h.map
    → Writes now k none h.map (del_locked k now h).1.map
unfolding del_locked
del_locked-Writes k now h u = Keeps-Writes (find_live-Keeps k now h u) (
    remove_found-Writes k now (find_live k now h).0 (find_live k now h).1
      (find_live-Unique k now h u) (found-find_live k now h u))

-- The shared end of the writes

write_if-Effect :
    (now : TimePoint) (k : Bytes) (e : Entry) (old new : ℕ) (alloc : Bool) (h : Held) (r : Option ℕ)
    → let (c, h') = write_if k e old new alloc h r in
      Effect c now k (some (e.value, e.expiry)) h.map h'.map
unfolding write_if write_reserved
write_if-Effect now k e old new alloc h none =
    Effect-refused no_memory (some (e.value, e.expiry)) (cc) (Keeps-refl now h.map)
write_if-Effect now k e old new false h (some used) =
    Effect-refused no_memory (some (e.value, e.expiry)) (cc) (Keeps-refl now h.map)
write_if-Effect now k e old new true h (some used) = Effect-ok (put-Writes now k e h.map)

pub write_entry-Effect :
    (max : ℕ) (t : Tick) (k : Bytes) (old : Option Entry) (v : Bytes) (x : Option TimePoint)
    (h : Held)
    → let (c, h') = write_entry max t k old v x h in Effect c t.now k (some (v, x)) h.map h'.map
unfolding write_entry
write_entry-Effect max t k old v x h =
    write_if-Effect t.now k (new_entry t.now old v x) (entry_weight k old) (entry_memory k v)
      t.alloc h (reserved max (entry_weight k old) (entry_memory k v) h.used_memory)

with_integer-code : (n : ℤ) (r : WriteCode × Held) → (with_integer n r).0.code ≡ r.0
unfolding with_integer
with_integer-code n (ok, h) = refl
with_integer-code n (_, h) = refl

with_integer-held : (n : ℤ) (r : WriteCode × Held) → (with_integer n r).1 ≡ r.1
unfolding with_integer
with_integer-held n (ok, h) = refl
with_integer-held n (_, h) = refl

pub with_integer-Effect :
    (n : ℤ) {now : TimePoint} {k : Bytes} {x : Option Item} {m : Table} (r : WriteCode × Held)
    → Effect r.0 now k x m r.1.map
    → Effect (with_integer n r).0.code now k x m (with_integer n r).1.map
with_integer-Effect n r w = rw (with_integer-code n r, with_integer-held n r) w

-- SET: the condition is judged on what a client sees.

pub is_some-content : (o : Option Entry) → is_some o ≡ is_some (content o)
is_some-content none = refl
is_some-content (some e) = refl

pub set_locked-Effect :
    (max : ℕ) (t : Tick) (k v : Bytes) (ttl : Option ℤ) (c : SetCondition) (h : Held)
    → Unique h.map
    → let (r, h') = set_locked max t k v ttl c h in
      Effect r.code t.now k (some (v, expiry_after t.now ttl)) h.map h'.map
unfolding set_locked set_found erase_if_expired_locked
set_locked-Effect max t k v ttl c h u =
    let h' = (find_live k t.now h).1 in
    let kept = find_live-Keeps k t.now h u in
    elim (Bool-cases (refuses c (is_some (find k h'.map)))) [
      | inl e ↦ rw e (Effect-refused not_set (some (v, expiry_after t.now ttl)) (cc) kept)
      | inr e ↦ rw e (
          Keeps-Effect kept (
            with_integer-Effect (pos 0) _
              (write_entry-Effect max t k (find k h'.map) v (expiry_after t.now ttl) h')))
    ]

pub set_locked-not_set :
    (max : ℕ) (t : Tick) (k v : Bytes) (ttl : Option ℤ) (c : SetCondition) (h : Held)
    → Unique h.map
    → refuses c (is_some (sees t.now k h.map)) ≡ true
    → (set_locked max t k v ttl c h).0.code ≡ not_set
unfolding set_locked set_found erase_if_expired_locked
set_locked-not_set max t k v ttl c h u e =
    let same = found-find_live k t.now h u in
    let seen = is_some-content (find_live k t.now h).0 ∙ ap is_some (content-find_live k t.now h) in
    rw (same, seen, e)
