-- ===== src/Storage/Sweep/Sampling.antt =====
-- The sampling of active expiration: what it erases had expired, and its work is bounded.
use velox_db.Prelude.{
  ℕ, zero, suc, ◌+◌, ◌%◌, ◌≤◌, Bytes, [], ◌∷◌, Option, none, some, true, length, leb, ◌==◌,
  if◌then◌else◌, ◌≡◌, refl, arith, bytes_eq_iff, Bool-cases, inl, inr,
}
use velox_db.Storage.Types.{TimePoint, Entry, Table}
use velox_db.Storage.Table.{find, erase, expired, Unique}
use velox_db.Storage.Table.Laws.{find-erase}
use velox_db.Storage.Held.{Held, erase_entry_locked}
use velox_db.Storage.Held.Frame.{Keeps, Keeps-refl, Keeps-trans, expired-visible}
use velox_db.Storage.Held.Accounting.{IsAccounted, forget-memory}
use velox_db.Storage.Sweep.{
  entry_at, remove_at, Sample, step_at, sample_loop, sample_from, active_expire_locked,
}

find_at :
    (i : ℕ) (k : Bytes) (e : Entry) (m : Table)
    → Unique m
    → entry_at i m ≡ some (k, e)
    → find k m ≡ some e
unfolding entry_at find
find_at i k e [] u f = cc
find_at zero k e ((j, d) ∷ m) u f = ground (arith, bytes_eq_iff k j)
find_at (suc i) k e ((j, d) ∷ m) u f = ground (arith, find_at i k e m u.1 f, bytes_eq_iff k j)

remove_at-erase :
    (i : ℕ) (k : Bytes) (e : Entry) (m : Table)
    → Unique m
    → entry_at i m ≡ some (k, e)
    → remove_at i m ≡ erase k m
unfolding entry_at remove_at erase
remove_at-erase i k e [] u f = cc
remove_at-erase zero k e ((j, d) ∷ m) u f = ground (arith, bytes_eq_iff k j)
remove_at-erase (suc i) k e ((j, d) ∷ m) u f =
    ground (arith, remove_at-erase i k e m u.1 f, find_at i k e m u.1 f, bytes_eq_iff k j)

-- Erasing an entry that has expired changes nothing that a client sees.
erase-Keeps :
    (now : TimePoint) (k : Bytes) (e : Entry) (m : Table)
    → Unique m
    → find k m ≡ some e
    → expired e now ≡ true
    → Keeps now m (erase k m)
erase-Keeps now k e m u f x = record {
  at = λ t j later.
      ground (arith, find-erase k j m u, bytes_eq_iff k j, expired-visible now t e x later);
}

module _ (max others : ℕ) (now : TimePoint) where
  -- One round keeps the counters in step with the table, and what a client sees.
  record IsSampled (m : Table) (s : Sample) : Type 0 where
    accounted : IsAccounted max others s.held
    kept : Keeps now m s.held.map

  step_at-IsSampled :
      (m : Table) (s : Sample) (o : Option (Bytes × Entry))
      → entry_at s.index s.held.map ≡ o
      → IsSampled m s
      → IsSampled m (step_at now s o)
  unfolding step_at
  step_at-IsSampled m s none f p = p
  step_at-IsSampled m s (some (k, e)) f p =
      let u = p.accounted.unique in
      let found = find_at s.index k e s.held.map u f in
      elim (Bool-cases (expired e now)) [
        | inl x ↦
            rw (x, remove_at-erase s.index k e s.held.map u f)
              (record {
                accounted =
                    unfold erase_entry_locked in
                    forget-memory max others s.held k e found p.accounted;
                kept = Keeps-trans p.kept (erase-Keeps now k e s.held.map u found x);
              })
        | inr x ↦ rw x (record { accounted = p.accounted; kept = p.kept })
      ]

  sample_loop-IsSampled :
      (n : ℕ) (m : Table) (s : Sample) → IsSampled m s → IsSampled m (sample_loop n now s)
  unfolding sample_loop
  sample_loop-IsSampled zero m s p = p
  sample_loop-IsSampled (suc n) m s p = elim (Bool-cases (length s.held.map == 0)) [
    | inl x ↦ rw x p
    | inr x ↦
        rw x
          (sample_loop-IsSampled n m _ (step_at-IsSampled m s (entry_at s.index s.held.map) refl p))
  ]

  sampled_held :
      (m : Table) (s : Sample) (cursor : ℕ)
      → IsSampled m s
      → IsAccounted max others (record s.held { expire_cursor = cursor }) × Keeps now m s.held.map
  sampled_held m s cursor p = (
    record { unique = p.accounted.unique; bytes = p.accounted.bytes; used = p.accounted.used },
    p.kept,
  )

  pub active_expire_locked-IsAccounted :
      (sample : ℕ) (h : Held)
      → IsAccounted max others h
      → IsAccounted max others (active_expire_locked sample now h).0
        × Keeps now h.map (active_expire_locked sample now h).0.map
  unfolding active_expire_locked sample_from
  active_expire_locked-IsAccounted sample h w = elim (Bool-cases (length h.map == 0)) [
    | inl x ↦
        rw x (record { unique = w.unique; bytes = w.bytes; used = w.used }, Keeps-refl now h.map)
    | inr x ↦ rw x (
        sampled_held h.map _ _ (
          sample_loop-IsSampled (if leb sample (length h.map) then sample else length h.map) h.map
            (record { held = h; index = h.expire_cursor % length h.map; sampled = 0; erased = 0 })
            (record { accounted = w; kept = Keeps-refl now h.map })))
  ]

length-remove_at :
    (i : ℕ) (x : Bytes × Entry) (m : Table)
    → entry_at i m ≡ some x
    → length (remove_at i m) + 1 ≡ length m
unfolding entry_at remove_at
length-remove_at i x [] f = cc
length-remove_at zero x (y ∷ m) f = omega arith
length-remove_at (suc i) x (y ∷ m) f = omega (arith, length-remove_at i x m f)

module _ (now : TimePoint) where
  -- Every erasure is counted, and there is at most one in a round.
  record IsCounted (rounds total : ℕ) (s : Sample) : Type 0 where
    count : length s.held.map + s.erased ≡ total
    bound : s.erased ≤ rounds

  step_at-IsCounted :
      (rounds total : ℕ) (s : Sample) (o : Option (Bytes × Entry))
      → entry_at s.index s.held.map ≡ o
      → IsCounted rounds total s
      → IsCounted (suc rounds) total (step_at now s o)
  unfolding step_at
  step_at-IsCounted rounds total s none f p = record {
    count = p.count;
    bound = omega (arith, p.bound);
  }
  step_at-IsCounted rounds total s (some (k, e)) f p = elim (Bool-cases (expired e now)) [
    | inl x ↦ rw x (record {
      count = omega (arith, p.count, length-remove_at s.index (k, e) s.held.map f);
      bound = omega (arith, p.bound);
    })
    | inr x ↦ rw x (record { count = p.count; bound = omega (arith, p.bound) })
  ]

  sample_loop-IsCounted :
      (n rounds total : ℕ) (s : Sample)
      → IsCounted rounds total s
      → IsCounted (rounds + n) total (sample_loop n now s)
  unfolding sample_loop
  sample_loop-IsCounted zero rounds total s p = record {
    count = p.count;
    bound = omega (arith, p.bound);
  }
  sample_loop-IsCounted (suc n) rounds total s p = elim (Bool-cases (length s.held.map == 0)) [
    | inl x ↦ rw x (record { count = p.count; bound = omega (arith, p.bound) })
    | inr x ↦ rw x (
        widened (
          sample_loop-IsCounted n (suc rounds) total _
            (step_at-IsCounted rounds total s (entry_at s.index s.held.map) refl p)))
  ]
    where
      widened :
          {s' : Sample} → IsCounted (suc rounds + n) total s' → IsCounted (rounds + suc n) total s'
      widened q = record { count = q.count; bound = omega (arith, q.bound) }

  -- The result is the number of entries that went, at most one for each sample.
  pub active_expire_locked-count :
      (sample : ℕ) (h : Held)
      → let (h', n) = active_expire_locked sample now h in
        (length h'.map + n ≡ length h.map) × (n ≤ sample)
  unfolding active_expire_locked sample_from
  active_expire_locked-count sample h = elim (Bool-cases (length h.map == 0)) [
    | inl x ↦ rw x (omega arith)
    | inr x ↦
        let target : ℕ = if leb sample (length h.map) then sample else length h.map in
        let counted =
          sample_loop-IsCounted target 0 (length h.map)
            (record { held = h; index = h.expire_cursor % length h.map; sampled = 0; erased = 0 })
            (record { count = omega arith; bound = omega arith }) in
        let within : target ≤ sample = ground arith in
        rw x (counted.count, omega (arith, counted.bound, within))
  ]
