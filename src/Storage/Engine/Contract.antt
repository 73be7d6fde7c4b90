-- ===== src/Storage/Engine/Contract.antt =====
-- The contract of `StorageEngine`: what each operation on a key answers and what a client sees
-- behind it, whatever the hash, the number of shards and the clock.
use velox_db.Prelude.{
  ℕ, ◌-◌, Bytes, Option, none, some, true, ◌≡◌, ◌≢◌, refl, Bool-cases, inl, inr, ℤ, pos, is_some,
}
use velox_db.Storage.Types.{
  TimePoint, StorageEngine, Tick, SetCondition, WriteCode, WriteResult, ok, not_set, key_too_large,
  value_too_large,
}
use velox_db.Storage.Table.{map_memory}
use velox_db.Storage.Held.{
  Held, key_valid, value_valid, expiry_after, refuses, set_locked, get_locked, del_locked,
}
use velox_db.Storage.Held.Frame.{Item, Keeps, Writes}
use velox_db.Storage.Held.Accounting.{IsAccounted}
use velox_db.Storage.Held.Balance.{
  set_locked-IsAccounted, get_locked-IsAccounted, del_locked-IsAccounted,
}
use velox_db.Storage.Held.Effect.{
  Effect, value_seen, counts, set_locked-Effect, set_locked-not_set, get_locked-value,
  get_locked-Keeps, del_locked-count, del_locked-Writes,
}
use velox_db.Storage.Engine.{hold, shard, locked, set, get, del, ttl}
use velox_db.Storage.Engine.Shards.{
  total_memory, IsSound, view, Unchanged, Updated, locked-Updated, locked-Unchanged,
  held-IsAccounted, locked-IsSound,
}

-- The engine keeps its invariant, and a write is seen exactly where its code is `ok`.
pub record Written (hash : Bytes → ℕ) (c : WriteCode) (now : TimePoint) (k : Bytes)
    (x : Option Item) (st st' : StorageEngine) : Type 0 where
  pub sound : IsSound st'
  pub wrote : c ≡ ok → Updated hash now k x st st'
  pub kept : c ≢ ok → Unchanged hash now st st'

module _ (hash : Bytes → ℕ) (st : StorageEngine) (w : IsSound st) where
  Unchanged-refl : (now : TimePoint) → Unchanged hash now st st
  Unchanged-refl now = record { at = λ t j later. refl }

  pub refused-Written :
      (c : WriteCode) (now : TimePoint) (k : Bytes) (x : Option Item)
      → c ≢ ok
      → Written hash c now k x st st
  refused-Written c now k x ne = record {
    sound = w;
    wrote = λ e. absurd (ne e);
    kept = λ _. Unchanged-refl now;
  }

  module _ (k : Bytes) where
    pub locked-Written :
        (now : TimePoint) (x : Option Item) (op : Held → WriteResult × Held)
        → ((others : ℕ) (h : Held)
            → IsAccounted st.config.max_memory_bytes others h
            → IsAccounted st.config.max_memory_bytes others (op h).1)
        → (let h = hold (shard hash st k) st.used_memory st.expired_keys in
            Effect (op h).0.code now k x h.map (op h).1.map)
        → let (r, st') = locked hash st k op in Written hash r.code now k x st st'
    locked-Written now x op each effect = record {
      sound = locked-IsSound hash st k op w (each _ _ (held-IsAccounted hash st k op w));
      wrote = λ e. locked-Updated hash st k op now x w.sharded (effect.wrote (unfold locked in e));
      kept = λ ne.
          locked-Unchanged hash st k op now w.sharded (effect.kept (λ e. ne (unfold locked in e)));
    }

    -- What an operation that answers without a code does: it keeps the invariant and writes `x`.
    pub locked-Replaced :
        {A : Type 0} (now : TimePoint) (x : Option Item) (op : Held → A × Held)
        → ((others : ℕ) (h : Held)
            → IsAccounted st.config.max_memory_bytes others h
            → IsAccounted st.config.max_memory_bytes others (op h).1)
        → Writes now k x
            (shard hash st k).map
            (op (hold (shard hash st k) st.used_memory st.expired_keys)).1.map
        → let (r, st') = locked hash st k op in IsSound st' × Updated hash now k x st st'
    locked-Replaced now x op each writes = (
      locked-IsSound hash st k op w (each _ _ (held-IsAccounted hash st k op w)),
      locked-Updated hash st k op now x w.sharded writes,
    )

    pub locked-Read :
        {A : Type 0} (now : TimePoint) (op : Held → A × Held)
        → ((others : ℕ) (h : Held)
            → IsAccounted st.config.max_memory_bytes others h
            → IsAccounted st.config.max_memory_bytes others (op h).1)
        → Keeps now
            (shard hash st k).map
            (op (hold (shard hash st k) st.used_memory st.expired_keys)).1.map
        → let (r, st') = locked hash st k op in IsSound st' × Unchanged hash now st st'
    locked-Read now op each keeps = (
      locked-IsSound hash st k op w (each _ _ (held-IsAccounted hash st k op w)),
      locked-Unchanged hash st k op now w.sharded keeps,
    )

    pub held_sound :
        IsAccounted st.config.max_memory_bytes
          (total_memory st.shards - map_memory (shard hash st k).map)
          (hold (shard hash st k) st.used_memory st.expired_keys)
    held_sound = held-IsAccounted hash st k (get_locked k (pos 0)) w

    -- SET on a sound engine keeps the invariant; with the code ok, from that time on a client sees
    -- the value with its expiry at the key and everything else as before; with any other code a
    -- client sees what it saw before.
    pub set-Written :
        (t : Tick) (v : Bytes) (ttl : Option ℤ) (c : SetCondition)
        → let (r, st') = set hash st t k v ttl c in
          Written hash r.code t.now k (some (v, expiry_after t.now ttl)) st st'
    unfolding set
    set-Written t v ttl c = elim (Bool-cases (key_valid st.limits k)) [
      | inl e ↦ rw e (elim (Bool-cases (value_valid st.limits v)) [
        | inl e' ↦ rw e' (
            locked-Written t.now (some (v, expiry_after t.now ttl))
              (set_locked st.config.max_memory_bytes t k v ttl c)
              (λ others h a.
                set_locked-IsAccounted st.config.max_memory_bytes others t k v ttl c h a)
              (set_locked-Effect st.config.max_memory_bytes t k v ttl c _ held_sound.unique))
        | inr e' ↦
            rw e' (refused-Written value_too_large t.now k (some (v, expiry_after t.now ttl)) (cc))
      ])
      | inr e ↦ rw e (refused-Written key_too_large t.now k (some (v, expiry_after t.now ttl)) (cc))
    ]

    -- SET with a key and a value of valid size answers not_set when its condition refuses what a
    -- client sees at the key at that time, an expired entry counting as none.
    pub set-not_set :
        (t : Tick) (v : Bytes) (ttl : Option ℤ) (c : SetCondition)
        → key_valid st.limits k ≡ true
        → value_valid st.limits v ≡ true
        → refuses c (is_some (view hash st t.now k)) ≡ true
        → (set hash st t k v ttl c).0.code ≡ not_set
    unfolding set view locked
    set-not_set t v ttl c e e' seen =
        rw (e, e')
          (set_locked-not_set st.config.max_memory_bytes t k v ttl c _ held_sound.unique seen)

    -- GET on a sound engine answers the value that is visible at the key, keeps the invariant, and
    -- changes nothing that a client sees from then on.
    pub get-value :
        (now : TimePoint)
        → let (v, st') = get hash st now k in
          (v ≡ value_seen (view hash st now k)) × (IsSound st' × Unchanged hash now st st')
    unfolding get
    get-value now = (
      (unfold view locked in get_locked-value k now _),
      locked-Read now (get_locked k now)
          (λ others h a. get_locked-IsAccounted st.config.max_memory_bytes others k now h a)
          (get_locked-Keeps k now _ held_sound.unique),
    )

    -- DEL of a key on a sound engine answers how many visible entries it removed, keeps the
    -- invariant, and from then on a client sees nothing at the key and everything else as before.
    pub del-Updated :
        (now : TimePoint)
        → let (n, st') = del hash st now k in
          (n ≡ counts (view hash st now k)) × (IsSound st' × Updated hash now k none st st')
    unfolding del
    del-Updated now = (
      (unfold view locked in del_locked-count k now _),
      locked-Replaced now none (del_locked k now)
          (λ others h a. del_locked-IsAccounted st.config.max_memory_bytes others k now h a)
          (del_locked-Writes k now _ held_sound.unique),
    )
