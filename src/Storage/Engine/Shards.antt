-- ===== src/Storage/Engine/Shards.antt =====
-- What an operation under the lock of one shard does to the engine: the other shards stay.
use native.Mathlib.Nat.{mod-lt}
use velox_db.Prelude.{
  ℕ, zero, suc, ◌+◌, ◌-◌, ◌%◌, ◌^◌, ◌≤◌, ◌<◌, Bytes, [], ◌∷◌, List, Option, false, length, ◌==◌,
  ==_iff, if◌then◌else◌, get_or, set_elem, length-set_elem, get_or-set_elem_self,
  get_or-set_elem_ne, ◌≡◌, ◌≢◌, sym, ap, ◌∙◌, arith, bytes_eq, bytes_eq_iff, Bool-cases, inl, inr,
  ◌≤ℤ◌, All,
}
use velox_db.Storage.Types.{TimePoint, Shard, StorageEngine}
use velox_db.Storage.Table.{Unique, map_memory}
use velox_db.Storage.Held.{Held}
use velox_db.Storage.Held.Frame.{Item, visible, sees, Keeps, Writes}
use velox_db.Storage.Held.Accounting.{Accounted, IsAccounted}
use velox_db.Storage.Engine.{empty_shard, hold, shard_of, shard_count, shard_for_key, shard, locked}

-- The memory of the entries of all shards.
unfoldable pub total_memory : List Shard → ℕ
total_memory [] = 0
total_memory (s ∷ ss) = map_memory s.map + total_memory ss

pub record IsShard (s : Shard) : Type 0 where
  pub unique : Unique s.map
  pub bytes : s.memory_bytes ≡ map_memory s.map % 2 ^ 64

-- The invariant of the engine. The limit on memory is a `size_t`.
pub record IsSound (st : StorageEngine) : Type 0 where
  pub sharded : 0 < shard_count st
  pub word : st.config.max_memory_bytes < 2 ^ 64
  pub each : All IsShard st.shards
  pub used : Accounted st.config.max_memory_bytes st.used_memory (total_memory st.shards)

total-set_elem :
    (ss : List Shard) (i : ℕ) (s : Shard)
    → i < length ss
    → total_memory (set_elem ss i s) + map_memory (get_or ss i empty_shard).map
      ≡ total_memory ss + map_memory s.map
unfolding total_memory
total-set_elem [] i s h = elim h [ ]
total-set_elem (x ∷ ss) zero s h = omega arith
total-set_elem (x ∷ ss) (suc i) s h = omega (arith, total-set_elem ss i s (omega arith))

get_or-IsShard :
    (ss : List Shard) (i : ℕ) → i < length ss → All IsShard ss → IsShard (get_or ss i empty_shard)
get_or-IsShard [] i h a = elim h [ ]
get_or-IsShard (x ∷ ss) zero h a = a.0
get_or-IsShard (x ∷ ss) (suc i) h a = get_or-IsShard ss i (omega arith) a.1

get_or-le-total :
    (ss : List Shard) (i : ℕ)
    → i < length ss
    → map_memory (get_or ss i empty_shard).map ≤ total_memory ss
unfolding total_memory
get_or-le-total [] i h = elim h [ ]
get_or-le-total (x ∷ ss) zero h = omega arith
get_or-le-total (x ∷ ss) (suc i) h = omega (arith, get_or-le-total ss i (omega arith))

set_elem-IsShard :
    (ss : List Shard) (i : ℕ) (s : Shard)
    → All IsShard ss
    → IsShard s
    → All IsShard (set_elem ss i s)
set_elem-IsShard [] i s a w = tt
set_elem-IsShard (x ∷ ss) zero s a w = (w, a.1)
set_elem-IsShard (x ∷ ss) (suc i) s a w = (a.0, set_elem-IsShard ss i s a.1 w)

module _ (hash : Bytes → ℕ) where
  pub shard_for_key-lt :
      (st : StorageEngine) (k : Bytes)
      → 0 < shard_count st
      → shard_for_key hash st k < shard_count st
  unfolding shard_for_key
  shard_for_key-lt st k h = mod-lt (hash k) h

  -- What a client sees at a key.
  unfoldable pub view : StorageEngine → TimePoint → Bytes → Option Item
  view st t k = sees t k (shard hash st k).map

  -- From `now` on a client of the engine sees the same.
  pub record Unchanged (now : TimePoint) (st st' : StorageEngine) : Type 0 where
    pub at : (t : TimePoint) (j : Bytes) → now ≤ℤ t → view st' t j ≡ view st t j

  -- From `now` on a client of the engine sees `x` at `k`, and the same as before elsewhere.
  pub record Updated (now : TimePoint) (k : Bytes) (x : Option Item) (st st' : StorageEngine)
      : Type 0 where
    pub at :
        (t : TimePoint) (j : Bytes)
        → now ≤ℤ t
        → view st' t j ≡ (if bytes_eq k j then visible t x else view st t j)

  module _ {ℓ} {A : Type ℓ} (st : StorageEngine) (k : Bytes) (op : Held → A × Held) where
    held : Held
    held = hold (shard hash st k) st.used_memory st.expired_keys

    index : Bytes → ℕ
    index j = shard_for_key hash st j

    locked-index : (j : Bytes) → shard_for_key hash (locked hash st k op).1 j ≡ index j
    unfolding index locked shard_for_key
    locked-index j = ap (λ n. hash j % n) (length-set_elem st.shards (hash k % shard_count st) _)

    locked-shard_self :
        (j : Bytes)
        → 0 < shard_count st
        → index k ≡ index j
        → shard hash (locked hash st k op).1 j ≡ shard_of (op held).1
    unfolding shard
    locked-shard_self j pos_ e =
        ap (λ i. get_or (locked hash st k op).1.shards i empty_shard) (locked-index j ∙ sym e)
        ∙ (unfold locked held index in
            get_or-set_elem_self st.shards (index k) (shard_of (op held).1) empty_shard
              (shard_for_key-lt st k pos_))

    locked-shard_other :
        (j : Bytes) → index k ≢ index j → shard hash (locked hash st k op).1 j ≡ shard hash st j
    unfolding shard
    locked-shard_other j ne =
        ap (λ i. get_or (locked hash st k op).1.shards i empty_shard) (locked-index j)
        ∙ (unfold locked held index in
            get_or-set_elem_ne st.shards (index k) (index j) (shard_of (op held).1) empty_shard ne)

    same_key : (j : Bytes) → index k ≢ index j → bytes_eq k j ≡ false
    same_key j ne = elim (Bool-cases (bytes_eq k j)) [
      | inl e ↦ absurd (ne (ap index ((bytes_eq_iff k j).0 e)))
      | inr e ↦ e
    ]

    -- What the operation writes in its shard it writes in the engine.
    pub locked-Updated :
        (now : TimePoint) (x : Option Item)
        → 0 < shard_count st
        → Writes now k x
            (shard hash st k).map
            (op (hold (shard hash st k) st.used_memory st.expired_keys)).1.map
        → Updated now k x st (locked hash st k op).1
    unfolding view
    locked-Updated now x h w = record {
      at = λ t j later. elim (Bool-cases (index k == index j)) [
        | inl e ↦
            let same = (==_iff (index k) (index j)).0 e in
            let moved : shard hash st k ≡ shard hash st j =
              unfold shard index in ap (λ i. get_or st.shards i empty_shard) same in
            rw (locked-shard_self j h same, ← moved) (unfold held in w.at t j later)
        | inr e ↦
            let apart : index k ≢ index j = λ same. cc (e, (==_iff (index k) (index j)).1 same) in
            rw (locked-shard_other j apart, same_key j apart)
      ];
    }

    pub locked-Unchanged :
        (now : TimePoint)
        → 0 < shard_count st
        → Keeps now
            (shard hash st k).map
            (op (hold (shard hash st k) st.used_memory st.expired_keys)).1.map
        → Unchanged now st (locked hash st k op).1
    unfolding view
    locked-Unchanged now h w = record {
      at = λ t j later. elim (Bool-cases (index k == index j)) [
        | inl e ↦
            let same = (==_iff (index k) (index j)).0 e in
            let moved : shard hash st k ≡ shard hash st j =
              unfold shard index in ap (λ i. get_or st.shards i empty_shard) same in
            rw (locked-shard_self j h same, ← moved) (unfold held in w.at t j later)
        | inr e ↦
            let apart : index k ≢ index j = λ same. cc (e, (==_iff (index k) (index j)).1 same) in
            rw (locked-shard_other j apart)
      ];
    }

    others : ℕ
    others = total_memory st.shards - map_memory (shard hash st k).map

    -- The shard of a sound engine, while it is held.
    pub held-IsAccounted :
        IsSound st
        → IsAccounted st.config.max_memory_bytes
            (total_memory st.shards - map_memory (shard hash st k).map)
            (hold (shard hash st k) st.used_memory st.expired_keys)
    unfolding shard
    held-IsAccounted w =
        let i = shard_for_key-lt st k w.sharded in
        let s = get_or-IsShard st.shards (shard_for_key hash st k) i w.each in
        let e : map_memory (shard hash st k).map + others ≡ total_memory st.shards =
          unfold others shard in
          omega (arith, get_or-le-total st.shards (shard_for_key hash st k) i) in
        record { unique = s.unique; bytes = s.bytes; used = unfold others in rw e w.used }

    pub locked-IsSound :
        IsSound st
        → IsAccounted st.config.max_memory_bytes
            (total_memory st.shards - map_memory (shard hash st k).map)
            (op (hold (shard hash st k) st.used_memory st.expired_keys)).1
        → IsSound (locked hash st k op).1
    unfolding locked
    locked-IsSound w a =
        let i = shard_for_key-lt st k w.sharded in
        let h = (op (hold (shard hash st k) st.used_memory st.expired_keys)).1 in
        record {
          sharded = rw length-set_elem w.sharded;
          word = w.word;
          each =
              set_elem-IsShard st.shards (shard_for_key hash st k) (shard_of h) w.each
                (record { unique = a.unique; bytes = a.bytes });
          used =
              let e : map_memory h.map + (total_memory st.shards - map_memory (shard hash st k).map)
                  ≡ total_memory (set_elem st.shards (shard_for_key hash st k) (shard_of h)) =
                unfold shard in
                omega (
                  arith,
                  total-set_elem st.shards (shard_for_key hash st k) (shard_of h) i,
                  get_or-le-total st.shards (shard_for_key hash st k) i,
                ) in
              rw (← e) a.used;
        }
