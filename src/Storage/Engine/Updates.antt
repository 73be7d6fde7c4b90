-- ===== src/Storage/Engine/Updates.antt =====
-- The contract of the operations of `StorageEngine` that start from the value or expiry that is there.
use velox_db.Prelude.{
  ℕ, ◌==◌, Bytes, ◌++◌, Option, none, some, true, false, ◌≡◌, refl, Bool-cases, inl, inr, ℤ, pos,
  ◌+ℤ◌, is_some, leb_ℤ,
}
use velox_db.Util.Decimal.{to_string_i64}
use velox_db.Storage.Types.{
  TimePoint, StorageEngine, Tick, key_too_large, invalid_integer, overflow,
}
use velox_db.Storage.Time.{after_ms}
use velox_db.Storage.Held.{
  Held, key_valid, overflows, incr_by_locked, append_locked, expire_at_locked, ttl_locked,
  persist_locked,
}
use velox_db.Storage.Table.{Unique}
use velox_db.Storage.Held.Frame.{Item, sees}
use velox_db.Storage.Held.Balance.{
  incr_by_locked-IsAccounted, append_locked-IsAccounted, expire_at_locked-IsAccounted,
  ttl_locked-IsAccounted, persist_locked-IsAccounted,
}
use velox_db.Storage.Held.Effect.{Effect, Effect-refused, counts}
use velox_db.Storage.Held.Counter.{
  seen_integer, text_seen, incr_by_locked-Effect, incr_by_locked-overflow, incr_by_locked-invalid,
  append_locked-Effect,
}
use velox_db.Storage.Held.Expiry.{
  item_until, ttl_seen, has_ttl, expire_at_locked-Writes, expire_at_locked-found, ttl_locked-Keeps,
  persist_locked-Writes,
}
use velox_db.Storage.Engine.{hold, shard, locked, incr_by, append, expire_at, expire, ttl, persist}
use velox_db.Storage.Engine.Shards.{IsSound, view, Unchanged, Updated}
use velox_db.Storage.Engine.Contract.{
  Written, refused-Written, locked-Written, locked-Replaced, locked-Read, held_sound, del-Updated,
}

-- The item that an increment writes, when a client sees a number.
abbrev pub next_item : ℤ → Option ℤ → Option Item
next_item delta none = none
next_item delta (some n) = some (to_string_i64 (n +ℤ delta), none)

module _ (hash : Bytes → ℕ) (st : StorageEngine) (w : IsSound st) (k : Bytes) where
  incr_by_locked-seen :
      (t : Tick) (delta : ℤ) (h : Held) (n : Option ℤ)
      → Unique h.map
      → seen_integer (sees t.now k h.map) ≡ n
      → let (r, h') = incr_by_locked st.config.max_memory_bytes st.limits t k delta h in
        Effect r.code t.now k (next_item delta n) h.map h'.map
  incr_by_locked-seen t delta h none u e =
      let (c, keeps) =
        incr_by_locked-invalid st.config.max_memory_bytes st.limits t k delta h u e in
      rw c (Effect-refused invalid_integer none (cc) keeps)
  incr_by_locked-seen t delta h (some n) u e =
      incr_by_locked-Effect st.config.max_memory_bytes st.limits t k delta h n u e

  -- An increment on a sound engine keeps the invariant; with the code ok, from then on a client
  -- sees at the key the decimal print of the visible number (0 where there is none) plus the delta,
  -- without an expiry, and everything else as before; with any other code a client sees what it saw
  -- before.
  pub incr_by-Written :
      (t : Tick) (delta : ℤ)
      → let (r, st') = incr_by hash st t k delta in
        Written hash r.code t.now k (next_item delta (seen_integer (view hash st t.now k))) st st'
  unfolding incr_by
  incr_by-Written t delta = elim (Bool-cases (key_valid st.limits k)) [
    | inl e ↦ rw e (
        locked-Written hash st w k t.now (next_item delta (seen_integer (view hash st t.now k)))
          (incr_by_locked st.config.max_memory_bytes st.limits t k delta)
          (λ others h a.
            incr_by_locked-IsAccounted st.config.max_memory_bytes others st.limits t k delta h a)
          (unfold view in incr_by_locked-seen t delta _ _ (held_sound hash st w k).unique refl))
    | inr e ↦ rw e (
        refused-Written hash st w key_too_large t.now k
          (next_item delta (seen_integer (view hash st t.now k))) (cc))
  ]

  -- An increment of a visible number by a delta that the guard refuses answers with the code
  -- overflow, on a sound engine and a key of valid size.
  pub incr_by-overflow :
      (t : Tick) (delta n : ℤ)
      → key_valid st.limits k ≡ true
      → seen_integer (view hash st t.now k) ≡ some n
      → overflows n delta ≡ true
      → (incr_by hash st t k delta).0.code ≡ overflow
  unfolding incr_by view locked
  incr_by-overflow t delta n e seen over =
      rw e (incr_by_locked-overflow st.config.max_memory_bytes st.limits t k delta _ n seen over)

  pub incr_by-invalid :
      (t : Tick) (delta : ℤ)
      → key_valid st.limits k ≡ true
      → seen_integer (view hash st t.now k) ≡ none
      → (incr_by hash st t k delta).0.code ≡ invalid_integer
  unfolding incr_by view locked
  incr_by-invalid t delta e seen =
      rw e
        (incr_by_locked-invalid st.config.max_memory_bytes st.limits t k delta _
          (held_sound hash st w k).unique seen).0

  -- APPEND on a sound engine keeps the invariant; with the code ok, from then on a client sees at
  -- the key the visible value (empty where there is none) with the suffix behind it and without an
  -- expiry, and everything else as before; with any other code a client sees what it saw before.
  pub append-Written :
      (t : Tick) (suffix : Bytes)
      → let (r, st') = append hash st t k suffix in
        Written hash r.code t.now k (some (text_seen (view hash st t.now k) ++ suffix, none)) st st'
  unfolding append
  append-Written t suffix = elim (Bool-cases (key_valid st.limits k)) [
    | inl e ↦ rw e (
        locked-Written hash st w k t.now (some (text_seen (view hash st t.now k) ++ suffix, none))
          (append_locked st.config.max_memory_bytes st.limits t k suffix)
          (λ others h a.
            append_locked-IsAccounted st.config.max_memory_bytes others st.limits t k suffix h a)
          (unfold view in
            append_locked-Effect st.config.max_memory_bytes st.limits t k suffix _
              (held_sound hash st w k).unique))
    | inr e ↦ rw e (
        refused-Written hash st w key_too_large t.now k
          (some (text_seen (view hash st t.now k) ++ suffix, none)) (cc))
  ]

  -- Setting an expiry time on a sound engine answers whether the key is visible, keeps the
  -- invariant, and from then on a client sees the item at the key until that time and everything
  -- else as before, a time that is already past included.
  pub expire_at-Updated :
      (now at : TimePoint)
      → let (b, st') = expire_at hash st now k at in
        (b ≡ is_some (view hash st now k))
        × (IsSound st' × Updated hash now k (item_until (some at) (view hash st now k)) st st')
  unfolding expire_at
  expire_at-Updated now at = (
    (unfold view locked in expire_at_locked-found k at now _),
    locked-Replaced hash st w k now (item_until (some at) (view hash st now k))
        (expire_at_locked k at now)
        (λ others h a. expire_at_locked-IsAccounted st.config.max_memory_bytes others k at now h a)
        (unfold view in expire_at_locked-Writes k at now _ (held_sound hash st w k).unique),
  )

  -- TTL on a sound engine answers by what a client sees at the key, missing, without an expiry, or
  -- with the milliseconds that are left; it keeps the invariant and changes nothing that a client
  -- sees.
  pub ttl-seen :
      (now : TimePoint)
      → let (r, st') = ttl hash st now k in
        (r ≡ ttl_seen now (view hash st now k)) × (IsSound st' × Unchanged hash now st st')
  unfolding ttl
  ttl-seen now =
      let seen =
        ttl_locked-Keeps k now (hold (shard hash st k) st.used_memory st.expired_keys)
          (held_sound hash st w k).unique in
      (
        (unfold view locked in seen.0),
        locked-Read hash st w k now (ttl_locked k now)
            (λ others h a. ttl_locked-IsAccounted st.config.max_memory_bytes others k now h a)
            seen.1,
      )

  -- PERSIST on a sound engine answers whether the visible item had an expiry, keeps the invariant,
  -- and from then on a client sees the item without an expiry and everything else as before.
  pub persist-Updated :
      (now : TimePoint)
      → let (b, st') = persist hash st now k in
        (b ≡ has_ttl (view hash st now k))
        × (IsSound st' × Updated hash now k (item_until none (view hash st now k)) st st')
  unfolding persist
  persist-Updated now =
      let seen =
        persist_locked-Writes k now (hold (shard hash st k) st.used_memory st.expired_keys)
          (held_sound hash st w k).unique in
      (
        (unfold view locked in seen.0),
        locked-Replaced hash st w k now (item_until none (view hash st now k))
            (persist_locked k now)
            (λ others h a. persist_locked-IsAccounted st.config.max_memory_bytes others k now h a)
            (unfold view in seen.1),
      )

  one_counts : (x : Option Item) → (counts x == 1) ≡ is_some x
  one_counts none = refl
  one_counts (some i) = refl

  -- EXPIRE with a duration of at most 0 on a sound engine answers whether the key is visible, keeps
  -- the invariant, and removes the key and nothing else from what a client sees.
  pub expire-deletes :
      (first second : TimePoint) (ms : ℤ)
      → leb_ℤ ms (pos 0) ≡ true
      → let (b, st') = expire hash st first second k ms in
        (b ≡ is_some (view hash st first k)) × (IsSound st' × Updated hash first k none st st')
  unfolding expire
  expire-deletes first second ms e =
      let (n, kept) = del-Updated hash st w k first in
      rw e (rw n (one_counts (view hash st first k)), kept)

  -- EXPIRE with a positive duration on a sound engine answers whether the key is visible when its
  -- lock is held, keeps the invariant, and gives the item the expiry counted from the first reading
  -- of the clock; everything else stays as before.
  pub expire-Updated :
      (first second : TimePoint) (ms : ℤ)
      → leb_ℤ ms (pos 0) ≡ false
      → let (b, st') = expire hash st first second k ms in
        (b ≡ is_some (view hash st second k))
        × (IsSound st'
            × Updated hash second k
                (item_until (some (after_ms first ms)) (view hash st second k))
                st
                st')
  unfolding expire
  expire-Updated first second ms e = rw e (expire_at-Updated second (after_ms first ms))

  pub expire-IsSound :
      (first second : TimePoint) (ms : ℤ) → IsSound (expire hash st first second k ms).1
  expire-IsSound first second ms = elim (Bool-cases (leb_ℤ ms (pos 0))) [
    | inl e ↦ (expire-deletes first second ms e).1.0
    | inr e ↦ (expire-Updated first second ms e).1.0
  ]
