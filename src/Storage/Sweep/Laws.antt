-- ===== src/Storage/Sweep/Laws.antt =====
-- A pass over a shard erases what has expired, and nothing that a client sees.
use velox_db.Prelude.{
  ℕ, ◌+◌, ◌%◌, ◌^◌, Bytes, [], ◌∷◌, ◌≡◌, refl, ap, arith, bytes_eq_iff, Bool-cases, inl, inr,
}
use native.Mathlib.Nat.{add_assoc, add-zero, zero-add}
use velox_db.Storage.Types.{TimePoint, Entry, Table}
use velox_db.Storage.Table.{find, expired, Unique, map_memory, entry_memory}
use velox_db.Storage.Table.Laws.{entry_memory-lt}
use velox_db.Storage.Held.{Held, forget_memory, count_expired}
use velox_db.Storage.Held.Live.{live_at}
use velox_db.Storage.Held.Frame.{Keeps, visible-live_at}
use velox_db.Storage.Held.Accounting.{Accounted, IsAccounted, sub_size-mod, release-Accounted}
use velox_db.Storage.Sweep.{drop_expired, swept, sweep_counters, sweep_locked}

pub find-swept :
    (now : TimePoint) (j : Bytes) (m : Table)
    → Unique m
    → find j (swept now m) ≡ live_at now (find j m)
unfolding find swept
find-swept now j [] u = refl
find-swept now j ((k, e) ∷ m) u = ground (arith, find-swept now j m u.1, bytes_eq_iff j k)

swept-Unique : (now : TimePoint) (m : Table) → Unique m → Unique (swept now m)
unfolding swept
swept-Unique now [] u = tt
swept-Unique now ((k, e) ∷ m) u = ground (arith, swept-Unique now m u.1, find-swept now k m u.1)

pub sweep_locked-Keeps :
    (now : TimePoint) (h : Held) → Unique h.map → Keeps now h.map (sweep_locked now h).map
unfolding sweep_locked
sweep_locked-Keeps now h u = record {
  at = λ t j later. rw (find-swept now j h.map u) (visible-live_at now t (find j h.map) later);
}

-- The counters over the entries `m` that are still to be passed and `kept` for those behind.
record IsPassing (max others kept : ℕ) (m : Table) (h : Held) : Type 0 where
  bytes : h.memory_bytes ≡ (kept + map_memory m) % 2 ^ 64
  used : Accounted max h.used_memory (kept + map_memory m + others)

module _ (max others : ℕ) (now : TimePoint) where
  drop_expired-IsPassing :
      (kept : ℕ) (k : Bytes) (e : Entry) (m : Table) (h : Held)
      → IsPassing max others kept ((k, e) ∷ m) h
      → IsPassing max others kept m (drop_expired k e h)
  unfolding drop_expired forget_memory count_expired map_memory
  drop_expired-IsPassing kept k e m h p = record {
    bytes = rw p.bytes (
        sub_size-mod (kept + (entry_memory k e.value + map_memory m)) (entry_memory k e.value)
          (kept + map_memory m) (entry_memory-lt k e.value) (omega arith));
    used =
        release-Accounted max h.used_memory
          (kept + (entry_memory k e.value + map_memory m) + others) (kept + map_memory m + others)
          (entry_memory k e.value) (omega arith) p.used;
  }

  pass-IsPassing :
      (kept : ℕ) (k : Bytes) (e : Entry) (m : Table) (h : Held)
      → IsPassing max others kept ((k, e) ∷ m) h
      → IsPassing max others (kept + entry_memory k e.value) m h
  unfolding map_memory
  pass-IsPassing kept k e m h p = record {
    bytes = rw p.bytes (omega arith);
    used =
        let e' : kept + (entry_memory k e.value + map_memory m) + others
            ≡ kept + entry_memory k e.value + map_memory m + others =
          omega arith in
        rw (← e') p.used;
  }

  sweep_counters-IsPassing :
      (m : Table) (kept : ℕ) (h : Held)
      → IsPassing max others kept m h
      → IsPassing max others (kept + map_memory (swept now m)) [] (sweep_counters now m h)
  unfolding sweep_counters swept map_memory
  sweep_counters-IsPassing [] kept h p = rw add-zero p
  sweep_counters-IsPassing ((k, e) ∷ m) kept h p = elim (Bool-cases (expired e now)) [
    | inl x ↦ rw x (
        sweep_counters-IsPassing m kept (drop_expired k e h)
          (drop_expired-IsPassing kept k e m h p))
    | inr x ↦
        rw (x, ← add_assoc kept (entry_memory k e.value) (map_memory (swept now m)))
          (sweep_counters-IsPassing m (kept + entry_memory k e.value) h
            (pass-IsPassing kept k e m h p))
  ]

  pub sweep_locked-IsAccounted :
      (h : Held) → IsAccounted max others h → IsAccounted max others (sweep_locked now h)
  unfolding sweep_locked
  sweep_locked-IsAccounted h w = record {
    unique = swept-Unique now h.map w.unique;
    bytes = rw done.bytes (unfold map_memory in ap (λ n. n % 2 ^ 64) (omega arith));
    used = used_of done.used;
  }
    where
      done : IsPassing max others (0 + map_memory (swept now h.map)) [] (sweep_counters now h.map h)
      done =
          sweep_counters-IsPassing h.map 0 h
            (record { bytes = rw zero-add w.bytes; used = rw zero-add w.used })

      used_of :
          Accounted max
            (sweep_counters now h.map h).used_memory
            (0 + map_memory (swept now h.map) + map_memory [] + others)
          → Accounted max
              (sweep_counters now h.map h).used_memory
              (map_memory (swept now h.map) + others)
      used_of u =
          unfold map_memory in
          let e : 0 + map_memory (swept now h.map) + 0 + others
              ≡ map_memory (swept now h.map) + others =
            omega arith in
          rw (← e) u
