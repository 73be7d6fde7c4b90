-- ===== src/Storage/Engine/Passes.antt =====
-- The passes over all shards: sweeps and active expiration change nothing that a client sees.
use native.Mathlib.Nat.{zero-add}
use velox_db.Prelude.{
  ℕ, zero, suc, ◌+◌, ◌%◌, ◌^◌, ◌<◌, Bytes, [], ◌∷◌, List, none, length, get_or, ◌≡◌, refl, ap,
  arith, All,
}
use velox_db.Storage.Types.{TimePoint, Table, Shard, StorageEngine}
use velox_db.Storage.Time.{add_size}
use velox_db.Storage.Table.{map_memory, find}
use velox_db.Storage.Held.{Held, release_memory}
use velox_db.Storage.Held.Frame.{Keeps, Keeps-refl}
use velox_db.Storage.Held.Accounting.{Accounted, IsAccounted}
use velox_db.Storage.Sweep.{active_expire_locked}
use velox_db.Storage.Sweep.Laws.{sweep_locked-IsAccounted, sweep_locked-Keeps}
use velox_db.Storage.Sweep.Sampling.{active_expire_locked-IsAccounted}
use velox_db.Storage.Engine.{
  empty_shard, hold, shard_of, shard_for_key, shard, Pass, each_shard, after_pass, sweep_and,
  cleared, memory_of, flushdb,
}
use velox_db.Storage.Engine.Shards.{total_memory, IsShard, IsSound, view, Unchanged}

-- What an operation of a pass keeps of each shard.
pub record IsQuiet (max : ℕ) (now : TimePoint) (op : Held → Held × ℕ) : Type 0 where
  pub accounted :
      (others : ℕ) (h : Held) → IsAccounted max others h → IsAccounted max others (op h).0
  pub kept : (others : ℕ) (h : Held) → IsAccounted max others h → Keeps now h.map (op h).0.map

-- The state of a pass: `done` is the memory of the shards behind it.
record IsPassed (max : ℕ) (now : TimePoint) (done : ℕ) (ss : List Shard) (p : Pass) : Type 0 where
  each : All IsShard p.shards
  used : Accounted max p.used_memory (done + total_memory p.shards)
  size : length p.shards ≡ length ss
  kept : (i : ℕ) → Keeps now (get_or ss i empty_shard).map (get_or p.shards i empty_shard).map

module _ (max : ℕ) (now : TimePoint) (op : Held → Held × ℕ) (q : IsQuiet max now op) where
  module _ (s : Shard) (ss : List Shard) (done used count : ℕ) where
    head : Held
    head = (op (hold s used count)).0

    head-start :
        IsShard s
        → Accounted max used (done + total_memory (s ∷ ss))
        → IsAccounted max (done + total_memory ss) (hold s used count)
    unfolding total_memory
    head-start a u = record {
      unique = a.unique;
      bytes = a.bytes;
      used =
          let e : done + (map_memory s.map + total_memory ss)
              ≡ map_memory s.map + (done + total_memory ss) =
            omega arith in
          rw e at u;
    }

    head-IsAccounted :
        IsShard s
        → Accounted max used (done + total_memory (s ∷ ss))
        → IsAccounted max (done + total_memory ss) head
    unfolding head
    head-IsAccounted a u = q.accounted (done + total_memory ss) (hold s used count) (head-start a u)

    head-used :
        IsAccounted max (done + total_memory ss) head
        → Accounted max head.used_memory (done + map_memory head.map + total_memory ss)
    head-used w =
        let e : map_memory head.map + (done + total_memory ss)
            ≡ done + map_memory head.map + total_memory ss =
          omega arith in
        rw e at w.used

    cons-IsPassed :
        IsShard s
        → Accounted max used (done + total_memory (s ∷ ss))
        → IsPassed max now
            (done + map_memory head.map)
            ss
            (each_shard op ss head.used_memory head.expired_keys)
        → IsPassed max now done (s ∷ ss) (each_shard op (s ∷ ss) used count)
    unfolding head each_shard total_memory
    cons-IsPassed a u rest = record {
      each = (record { unique = w.unique; bytes = w.bytes }, rest.each);
      used = rw same rest.used;
      size = ap suc rest.size;
      kept = kept_at;
    }
      where
        w : IsAccounted max (done + total_memory ss) head
        w = head-IsAccounted a u

        p : Pass
        p = each_shard op ss head.used_memory head.expired_keys

        same :
            done + (map_memory head.map + total_memory p.shards)
            ≡ done + map_memory head.map + total_memory p.shards
        same = omega arith

        kept_at :
            (i : ℕ)
            → Keeps now
                (get_or (s ∷ ss) i empty_shard).map
                (get_or (shard_of head ∷ p.shards) i empty_shard).map
        kept_at zero = q.kept (done + total_memory ss) (hold s used count) (head-start a u)
        kept_at (suc i) = rest.kept i

  each_shard-IsPassed :
      (ss : List Shard) (done used count : ℕ)
      → All IsShard ss
      → Accounted max used (done + total_memory ss)
      → IsPassed max now done ss (each_shard op ss used count)
  unfolding each_shard total_memory head
  each_shard-IsPassed [] done used count a u = record {
    each = tt;
    used = u;
    size = refl;
    kept = λ i. Keeps-refl now _;
  }
  each_shard-IsPassed (s ∷ ss) done used count a u =
      let h = (op (hold s used count)).0 in
      cons-IsPassed s ss done used count a.0 u (
        each_shard-IsPassed ss (done + map_memory h.map) h.used_memory h.expired_keys a.1
          (head-used s ss done used count (head-IsAccounted s ss done used count a.0 u)))

pub sweep_and-IsQuiet :
    (max : ℕ) (now : TimePoint) (count : Table → ℕ) → IsQuiet max now (sweep_and now count)
sweep_and-IsQuiet max now count = record {
  accounted = λ others h w. sweep_locked-IsAccounted max others now h w;
  kept = λ others h w. sweep_locked-Keeps now h w.unique;
}

pub active_expire-IsQuiet :
    (max : ℕ) (now : TimePoint) (sample : ℕ) → IsQuiet max now (active_expire_locked sample now)
active_expire-IsQuiet max now sample = record {
  accounted = λ others h w. (active_expire_locked-IsAccounted max others now sample h w).0;
  kept = λ others h w. (active_expire_locked-IsAccounted max others now sample h w).1;
}

module _ (hash : Bytes → ℕ) (st : StorageEngine) (now : TimePoint) (op : Held → Held × ℕ)
    (q : IsQuiet st.config.max_memory_bytes now op) (w : IsSound st) where
  passed :
      IsPassed st.config.max_memory_bytes now 0 st.shards
        (each_shard op st.shards st.used_memory st.expired_keys)
  passed =
      each_shard-IsPassed st.config.max_memory_bytes now op q st.shards 0 st.used_memory
        st.expired_keys w.each (rw zero-add w.used)

  pub after_pass-IsSound :
      IsSound (after_pass st (each_shard op st.shards st.used_memory st.expired_keys))
  after_pass-IsSound = record {
    sharded = rw passed.size w.sharded;
    word = w.word;
    each = passed.each;
    used = rw zero-add at passed.used;
  }

  pub after_pass-Unchanged :
      Unchanged hash now st (after_pass st (each_shard op st.shards st.used_memory st.expired_keys))
  unfolding view shard shard_for_key
  after_pass-Unchanged = record {
    at = λ t j later. rw passed.size ((passed.kept (hash j % length st.shards)).at t j later);
  }

-- FLUSHDB

cleared-IsShard : (ss : List Shard) → All IsShard (cleared ss)
unfolding cleared map_memory
cleared-IsShard [] = tt
cleared-IsShard (s ∷ ss) = (record { unique = tt; bytes = refl }, cleared-IsShard ss)

cleared-total : (ss : List Shard) → total_memory (cleared ss) ≡ 0
unfolding cleared total_memory map_memory
cleared-total [] = refl
cleared-total (s ∷ ss) = omega (arith, cleared-total ss)

length-cleared : (ss : List Shard) → length (cleared ss) ≡ length ss
unfolding cleared
length-cleared [] = refl
length-cleared (s ∷ ss) = ap suc (length-cleared ss)

cleared-map : (ss : List Shard) (i : ℕ) → (get_or (cleared ss) i empty_shard).map ≡ []
unfolding cleared
cleared-map [] i = refl
cleared-map (s ∷ ss) zero = refl
cleared-map (s ∷ ss) (suc i) = cleared-map ss i

-- The memory that is given back is the whole of it, in a machine word.
memory_of-total :
    (ss : List Shard) (acc : ℕ)
    → acc < 2 ^ 64
    → All IsShard ss
    → memory_of acc ss ≡ (acc + total_memory ss) % 2 ^ 64
unfolding memory_of add_size total_memory
memory_of-total [] acc h a = omega arith
memory_of-total (s ∷ ss) acc h a =
    let b = a.0.bytes in
    omega (arith, memory_of-total ss ((acc + s.memory_bytes) % 2 ^ 64) (omega arith) a.1)

release-cleared :
    (max used total : ℕ)
    → max < 2 ^ 64
    → Accounted max used total
    → release_memory used (total % 2 ^ 64) ≡ 0
unfolding release_memory
release-cleared zero used total h a = ground arith
release-cleared (suc m) used total h a = ground arith

Accounted-zero : (max : ℕ) → Accounted max 0 0
Accounted-zero zero = refl
Accounted-zero (suc m) = omega arith

module _ (st : StorageEngine) (w : IsSound st) where
  -- FLUSHDB of a sound engine brings the memory counter to 0.
  pub used_memory-flushdb : (flushdb st).used_memory ≡ 0
  unfolding flushdb
  used_memory-flushdb =
      rw (memory_of-total st.shards 0 (omega arith) w.each, zero-add)
        (release-cleared st.config.max_memory_bytes st.used_memory (total_memory st.shards) w.word
          w.used)

  pub flushdb-IsSound : IsSound (flushdb st)
  flushdb-IsSound = record {
    sharded = unfold flushdb in rw length-cleared w.sharded;
    word = unfold flushdb in w.word;
    each = unfold flushdb in cleared-IsShard st.shards;
    used =
        rw used_memory-flushdb
          (unfold flushdb in rw cleared-total (Accounted-zero st.config.max_memory_bytes));
  }

-- After FLUSHDB a client sees nothing at any key at any time.
pub view-flushdb :
    (hash : Bytes → ℕ) (st : StorageEngine) (t : TimePoint) (k : Bytes)
    → view hash (flushdb st) t k ≡ none
unfolding view shard flushdb
view-flushdb hash st t k =
    rw (cleared-map st.shards (shard_for_key hash (flushdb st) k)) (unfold find in refl)
