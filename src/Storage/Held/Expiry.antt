-- ===== src/Storage/Held/Expiry.antt =====
-- EXPIREAT, TTL and PERSIST on one key.
use velox_db.Prelude.{
  Bytes, Option, none, some, Bool, true, false, ◌≡◌, refl, ap, ◌∙◌, arith, bytes_eq_iff, Bool-cases,
  inl, inr, ◌≤ℤ◌, leb_ℤ, is_some,
}
use velox_db.Storage.Types.{TimePoint, Entry, TtlResult, missing}
use velox_db.Storage.Table.{find, expired_by, Unique}
use velox_db.Storage.Held.{
  Held, find_live, forget_memory, erase_entry_locked, count_expired, with_expiry, expire_at_locked,
  remaining_of, ttl_of, ttl_locked, without_expiry, persist_found, persist_locked,
}
use velox_db.Storage.Held.Live.{found-find_live, find_live-Unique}
use velox_db.Storage.Held.Frame.{
  Item, content, visible, sees, Keeps, Writes, find_live-Keeps, content-find_live, Keeps-Writes,
  put-Writes, erase-Writes,
}
use velox_db.Storage.Held.Effect.{is_some-content}

-- The item with another expiry, where there is one.
abbrev pub item_until : Option TimePoint → Option Item → Option Item
item_until at none = none
item_until at (some (v, x)) = some (v, at)

expired-visible :
    (now at t : TimePoint) (v : Bytes)
    → leb_ℤ at now ≡ true
    → now ≤ℤ t
    → visible t (some (v, some at)) ≡ none
unfolding expired_by
expired-visible now at t v h later = ground arith

with_expiry-Writes :
    (k : Bytes) (now at : TimePoint) (o : Option Entry) (h : Held)
    → Unique h.map
    → find k h.map ≡ o
    → Writes now k (item_until (some at) (content o)) h.map (with_expiry k now at (o, h)).1.map
unfolding with_expiry
with_expiry-Writes k now at none h u f = record {
  at = λ t j later. ground (arith, bytes_eq_iff k j);
}
with_expiry-Writes k now at (some e) h u f = elim (Bool-cases (leb_ℤ at now)) [
  | inl x ↦ rw x (
      unfold erase_entry_locked forget_memory count_expired in
      record {
        at = λ t j later. ground (
          arith,
          (erase-Writes now k h.map u).at t j later,
          expired-visible now at t e.value x later,
        );
      })
  | inr x ↦ rw x (put-Writes now k _ h.map)
]

with_expiry-found :
    (k : Bytes) (now at : TimePoint) (o : Option Entry) (h : Held)
    → (with_expiry k now at (o, h)).0 ≡ is_some o
unfolding with_expiry
with_expiry-found k now at none h = refl
with_expiry-found k now at (some e) h = ground arith

pub expire_at_locked-Writes :
    (k : Bytes) (at now : TimePoint) (h : Held)
    → Unique h.map
    → Writes now k
        (item_until (some at) (sees now k h.map))
        h.map
        (expire_at_locked k at now h).1.map
unfolding expire_at_locked
expire_at_locked-Writes k at now h u = rw (← content-find_live k now h) (
    Keeps-Writes (find_live-Keeps k now h u) (
      with_expiry-Writes k now at (find_live k now h).0 (find_live k now h).1
        (find_live-Unique k now h u) (found-find_live k now h u)))

pub expire_at_locked-found :
    (k : Bytes) (at now : TimePoint) (h : Held)
    → (expire_at_locked k at now h).0 ≡ is_some (sees now k h.map)
unfolding expire_at_locked
expire_at_locked-found k at now h =
    with_expiry-found k now at (find_live k now h).0 (find_live k now h).1
    ∙ is_some-content (find_live k now h).0
    ∙ ap is_some (content-find_live k now h)

-- The answer of TTL, by what a client sees.
unfoldable pub ttl_seen : TimePoint → Option Item → TtlResult
ttl_seen now none = missing
ttl_seen now (some (v, x)) = remaining_of now x

ttl_of-content : (now : TimePoint) (o : Option Entry) → ttl_of now o ≡ ttl_seen now (content o)
unfolding ttl_of ttl_seen
ttl_of-content now none = refl
ttl_of-content now (some e) = refl

pub ttl_locked-Keeps :
    (k : Bytes) (now : TimePoint) (h : Held)
    → Unique h.map
    → ((ttl_locked k now h).0 ≡ ttl_seen now (sees now k h.map))
      × Keeps now h.map (ttl_locked k now h).1.map
unfolding ttl_locked
ttl_locked-Keeps k now h u = (
  ttl_of-content now (find_live k now h).0 ∙ ap (ttl_seen now) (content-find_live k now h),
  find_live-Keeps k now h u,
)

abbrev pub has_ttl : Option Item → Bool
has_ttl none = false
has_ttl (some (v, x)) = is_some x

without_expiry-Writes :
    (k : Bytes) (now : TimePoint) (x : Option TimePoint) (e : Entry) (h : Held)
    → find k h.map ≡ some e
    → e.expiry ≡ x
    → Writes now k (some (e.value, none)) h.map (without_expiry k x e h).1.map
unfolding without_expiry
without_expiry-Writes k now none e h f y = record {
  at = λ t j later. ground (arith, bytes_eq_iff k j);
}
without_expiry-Writes k now (some at) e h f y = put-Writes now k _ h.map

without_expiry-changed :
    (k : Bytes) (x : Option TimePoint) (e : Entry) (h : Held)
    → (without_expiry k x e h).0 ≡ is_some x
unfolding without_expiry
without_expiry-changed k none e h = refl
without_expiry-changed k (some at) e h = refl

persist_found-Writes :
    (k : Bytes) (now : TimePoint) (o : Option Entry) (h : Held)
    → find k h.map ≡ o
    → Writes now k (item_until none (content o)) h.map (persist_found k (o, h)).1.map
unfolding persist_found
persist_found-Writes k now none h f = record { at = λ t j later. ground (arith, bytes_eq_iff k j) }
persist_found-Writes k now (some e) h f = without_expiry-Writes k now e.expiry e h f refl

persist_found-changed :
    (k : Bytes) (o : Option Entry) (h : Held) → (persist_found k (o, h)).0 ≡ has_ttl (content o)
unfolding persist_found
persist_found-changed k none h = refl
persist_found-changed k (some e) h = without_expiry-changed k e.expiry e h

pub persist_locked-Writes :
    (k : Bytes) (now : TimePoint) (h : Held)
    → Unique h.map
    → ((persist_locked k now h).0 ≡ has_ttl (sees now k h.map))
      × Writes now k (item_until none (sees now k h.map)) h.map (persist_locked k now h).1.map
unfolding persist_locked
persist_locked-Writes k now h u = rw (← content-find_live k now h) (
  persist_found-changed k (find_live k now h).0 (find_live k now h).1,
  Keeps-Writes (find_live-Keeps k now h u) (
      persist_found-Writes k now (find_live k now h).0 (find_live k now h).1
        (found-find_live k now h u)),
)
