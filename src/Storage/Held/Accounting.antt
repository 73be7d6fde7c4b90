-- ===== src/Storage/Held/Accounting.antt =====
-- The counters agree with the table under every operation on one key.
use velox_db.Prelude.{
  ℕ, zero, suc, ◌+◌, ◌-◌, ◌%◌, ◌^◌, ◌≤◌, ◌<◌, Bytes, Option, none, some, Bool, true, false, ◌≡◌,
  refl, ap, arith, ℤ, Bool-cases, inl, inr,
}
use velox_db.Storage.Types.{TimePoint, Entry, Tick, WriteCode, ok}
use velox_db.Storage.Time.{add_size, sub_size}
use velox_db.Storage.Table.{
  find, erase, put, expired, entry_memory, entry_weight, map_memory, Unique,
}
use velox_db.Storage.Table.Laws.{
  put-Unique, erase-Unique, map_memory-put, map_memory-erase-some, entry_memory-lt,
}
use velox_db.Storage.Held.{
  Held, reserve_memory, release_memory, count_expired, forget_memory, erase_entry_locked, evict_if,
  find_live, write_reserved, reserved, unreserved, released, write_if, write_entry, with_integer,
  new_entry,
}

-- The memory that `max` limits; `others` is what the entries of the other shards take. With no
-- limit nothing is reserved, and the counter stays at 0.
abbrev pub Accounted : (max used total : ℕ) → Type 0
Accounted zero used total = used ≡ 0
Accounted (suc m) used total = (used ≡ total) × (used ≤ suc m)

pub record IsAccounted (max others : ℕ) (h : Held) : Type 0 where
  pub unique : Unique h.map
  pub bytes : h.memory_bytes ≡ map_memory h.map % 2 ^ 64
  pub used : Accounted max h.used_memory (map_memory h.map + others)

pub sub_size-mod : (a b c : ℕ) → b < 2 ^ 64 → c + b ≡ a → sub_size (a % 2 ^ 64) b ≡ c % 2 ^ 64
unfolding sub_size
sub_size-mod a b c h e = omega arith

add_size-mod : (a b c : ℕ) → a + b ≡ c → add_size (a % 2 ^ 64) b ≡ c % 2 ^ 64
unfolding add_size
add_size-mod a b c e = omega arith

-- Releasing what an entry took keeps the counter at the total.
pub release-Accounted :
    (max used total total' b : ℕ)
    → total' + b ≡ total
    → Accounted max used total
    → Accounted max (release_memory used b) total'
unfolding release_memory
release-Accounted zero used total total' b e h = ground arith
release-Accounted (suc m) used total total' b e h = ground arith

replace-mod :
    (a c old new : ℕ) → c + old ≡ a + new → add_size (sub_size (a % 2 ^ 64) old) new ≡ c % 2 ^ 64
unfolding add_size sub_size
replace-mod a c old new e = omega arith

weight_some : (k : Bytes) (e : Entry) → entry_weight k (some e) ≡ entry_memory k e.value
unfolding entry_weight
weight_some k e = refl

released_lem : (old new u : ℕ) → released old new u ≡ u - (old - new)
unfolding released release_memory
released_lem old new u = ground arith

reserved_zero : (old new used u : ℕ) → reserved 0 old new used ≡ some u → u ≡ used
unfolding reserved reserve_memory
reserved_zero old new used u r = ground arith

reserved-suc :
    (m old new used u : ℕ)
    → used ≤ suc m
    → reserved (suc m) old new used ≡ some u
    → (u ≡ used + (new - old)) × (u ≤ suc m)
unfolding reserved reserve_memory
reserved-suc m old new used u h r = ground arith

-- The counter behind a write is the total with the new entry in place of the old.
released-Accounted :
    (max used u total total' old new : ℕ)
    → total' + old ≡ total + new
    → Accounted max used total
    → reserved max old new used ≡ some u
    → Accounted max (released old new u) total'
released-Accounted zero used u total total' old new e h r =
    omega (arith, released_lem old new u, reserved_zero old new used u r)
released-Accounted (suc m) used u total total' old new e h r =
    omega (arith, released_lem old new u, reserved-suc m old new used u h.1 r)

-- The handler of a failed allocation undoes the reservation.
unreserved_lem :
    (max used u total old new : ℕ)
    → Accounted max used total
    → reserved max old new used ≡ some u
    → unreserved old new u ≡ used
unfolding unreserved reserved reserve_memory release_memory
unreserved_lem zero used u total old new h r = ground arith
unreserved_lem (suc m) used u total old new h r = ground arith

module _ (max others : ℕ) where
  pub forget-memory :
      (h : Held) (k : Bytes) (e : Entry)
      → find k h.map ≡ some e
      → IsAccounted max others h
      → IsAccounted max others (erase_entry_locked h k e)
  unfolding erase_entry_locked forget_memory
  forget-memory h k e f w = record {
    unique = erase-Unique k h.map w.unique;
    bytes = rw w.bytes (
        sub_size-mod (map_memory h.map) (entry_memory k e.value) (map_memory (erase k h.map))
          (entry_memory-lt k e.value) less);
    used =
        release-Accounted max h.used_memory (map_memory h.map + others)
          (map_memory (erase k h.map) + others) (entry_memory k e.value) (omega (arith, less))
          w.used;
  }
    where
      less : map_memory (erase k h.map) + entry_memory k e.value ≡ map_memory h.map
      less = map_memory-erase-some k e h.map f

  pub count_expired-IsAccounted :
      (h : Held) → IsAccounted max others h → IsAccounted max others (count_expired h)
  unfolding count_expired
  count_expired-IsAccounted h w = record { unique = w.unique; bytes = w.bytes; used = w.used }

  evict_if-IsAccounted :
      (k : Bytes) (now : TimePoint) (o : Option Entry) (h : Held)
      → find k h.map ≡ o
      → IsAccounted max others h
      → IsAccounted max others (evict_if k now o h).1
  unfolding evict_if
  evict_if-IsAccounted k now none h f w = w
  evict_if-IsAccounted k now (some e) h f w = elim (Bool-cases (expired e now)) [
    | inl x ↦ rw x (count_expired-IsAccounted _ (forget-memory h k e f w))
    | inr x ↦ rw x w
  ]

  pub find_live-IsAccounted :
      (k : Bytes) (now : TimePoint) (h : Held)
      → IsAccounted max others h
      → IsAccounted max others (find_live k now h).1
  unfolding find_live
  find_live-IsAccounted k now h w = evict_if-IsAccounted k now (find k h.map) h refl w

  -- An entry that is written over one of the same value weighs the same.
  pub rewrite-IsAccounted :
      (h : Held) (k : Bytes) (d e : Entry)
      → find k h.map ≡ some d
      → e.value ≡ d.value
      → IsAccounted max others h
      → IsAccounted max others (record h { map = put k e h.map })
  rewrite-IsAccounted h k d e f v w = record {
    unique = put-Unique k e h.map w.unique;
    bytes = rw same w.bytes;
    used = rw same w.used;
  }
    where
      same : map_memory (put k e h.map) ≡ map_memory h.map
      same = omega (
        arith,
        map_memory-put k e h.map,
        ap (entry_weight k) f,
        ap (entry_memory k) v,
        weight_some k d,
      )

  write_reserved-IsAccounted :
      (k : Bytes) (e : Entry) (used : ℕ) (alloc : Bool) (h : Held)
      → IsAccounted max others h
      → reserved max (entry_weight k (find k h.map)) (entry_memory k e.value) h.used_memory
        ≡ some used
      → IsAccounted max others
          (write_reserved k e
            (entry_weight k (find k h.map))
            (entry_memory k e.value)
            used
            alloc
            h).1
  unfolding write_reserved
  write_reserved-IsAccounted k e used false h w r = record {
    unique = w.unique;
    bytes = w.bytes;
    used =
        rw
          (unreserved_lem max h.used_memory used (map_memory h.map + others)
            (entry_weight k (find k h.map)) (entry_memory k e.value) w.used r)
          w.used;
  }
  write_reserved-IsAccounted k e used true h w r = record {
    unique = put-Unique k e h.map w.unique;
    bytes = rw w.bytes (
        replace-mod (map_memory h.map) (map_memory (put k e h.map)) (entry_weight k (find k h.map))
          (entry_memory k e.value) (map_memory-put k e h.map));
    used =
        released-Accounted max h.used_memory used (map_memory h.map + others)
          (map_memory (put k e h.map) + others) (entry_weight k (find k h.map))
          (entry_memory k e.value) (omega (arith, map_memory-put k e h.map)) w.used r;
  }

  write_if-IsAccounted :
      (k : Bytes) (e : Entry) (alloc : Bool) (h : Held) (r : Option ℕ)
      → IsAccounted max others h
      → reserved max (entry_weight k (find k h.map)) (entry_memory k e.value) h.used_memory ≡ r
      → IsAccounted max others
          (write_if k e (entry_weight k (find k h.map)) (entry_memory k e.value) alloc h r).1
  unfolding write_if
  write_if-IsAccounted k e alloc h none w r = w
  write_if-IsAccounted k e alloc h (some used) w r = write_reserved-IsAccounted k e used alloc h w r

  pub write_entry-IsAccounted :
      (t : Tick) (k : Bytes) (old : Option Entry) (v : Bytes) (x : Option TimePoint) (h : Held)
      → find k h.map ≡ old
      → IsAccounted max others h
      → IsAccounted max others (write_entry max t k old v x h).1
  unfolding write_entry
  write_entry-IsAccounted t k old v x h f w =
      rw (← f) (write_if-IsAccounted k (new_entry t.now (find k h.map) v x) t.alloc h _ w refl)

  pub with_integer-IsAccounted :
      (n : ℤ) (r : WriteCode × Held)
      → IsAccounted max others r.1
      → IsAccounted max others (with_integer n r).1
  unfolding with_integer
  with_integer-IsAccounted n (ok, h) w = w
  with_integer-IsAccounted n (_, h) w = w
