-- ===== src/Storage/Held/Balance.antt =====
-- Every operation on one key keeps the counters in agreement with the table.
use velox_db.Prelude.{
  ℕ, Bytes, Option, none, some, ◌≡◌, refl, ℤ, ◌+ℤ◌, is_some, leb_ℤ, pos, Bool-cases, inl, inr,
}
use velox_db.Util.Decimal.{to_string_i64}
use velox_db.Config.Types.{ProtocolConfig}
use velox_db.Storage.Types.{TimePoint, Entry, Tick, SetCondition}
use velox_db.Storage.Table.{find}
use velox_db.Storage.Held.Live.{found-find_live}
use velox_db.Storage.Held.{
  Held, find_live, erase_if_expired_locked, expiry_after, refuses, set_found, set_locked, touch,
  get_locked, remove_found, del_locked, overflows, incr_from, incr_by_locked, append_to,
  append_locked, with_expiry, expire_at_locked, ttl_locked, without_expiry, persist_found,
  persist_locked, value_valid,
}
use velox_db.Storage.Held.Accounting.{
  IsAccounted, forget-memory, count_expired-IsAccounted, find_live-IsAccounted, rewrite-IsAccounted,
  write_entry-IsAccounted, with_integer-IsAccounted,
}

module _ (max others : ℕ) where
  pub set_locked-IsAccounted :
      (t : Tick) (k v : Bytes) (ttl : Option ℤ) (c : SetCondition) (h : Held)
      → IsAccounted max others h
      → IsAccounted max others (set_locked max t k v ttl c h).1
  unfolding set_locked set_found erase_if_expired_locked
  set_locked-IsAccounted t k v ttl c h w =
      let h' = (find_live k t.now h).1 in
      let w' : IsAccounted max others h' = find_live-IsAccounted max others k t.now h w in
      elim (Bool-cases (refuses c (is_some (find k h'.map)))) [
        | inl e ↦ rw e w'
        | inr e ↦ rw e (
            with_integer-IsAccounted max others (pos 0) _ (
              write_entry-IsAccounted max others t k (find k h'.map) v (expiry_after t.now ttl) h'
                refl w'))
      ]

  touch-IsAccounted :
      (k : Bytes) (now : TimePoint) (o : Option Entry) (h : Held)
      → find k h.map ≡ o
      → IsAccounted max others h
      → IsAccounted max others (touch k now (o, h)).1
  unfolding touch
  touch-IsAccounted k now none h f w = w
  touch-IsAccounted k now (some e) h f w = rewrite-IsAccounted max others h k e _ f refl w

  pub get_locked-IsAccounted :
      (k : Bytes) (now : TimePoint) (h : Held)
      → IsAccounted max others h
      → IsAccounted max others (get_locked k now h).1
  unfolding get_locked
  get_locked-IsAccounted k now h w =
      touch-IsAccounted k now (find_live k now h).0 (find_live k now h).1
        (found-find_live k now h w.unique) (find_live-IsAccounted max others k now h w)

  remove_found-IsAccounted :
      (k : Bytes) (o : Option Entry) (h : Held)
      → find k h.map ≡ o
      → IsAccounted max others h
      → IsAccounted max others (remove_found k (o, h)).1
  unfolding remove_found
  remove_found-IsAccounted k none h f w = w
  remove_found-IsAccounted k (some e) h f w = forget-memory max others h k e f w

  pub del_locked-IsAccounted :
      (k : Bytes) (now : TimePoint) (h : Held)
      → IsAccounted max others h
      → IsAccounted max others (del_locked k now h).1
  unfolding del_locked
  del_locked-IsAccounted k now h w =
      remove_found-IsAccounted k (find_live k now h).0 (find_live k now h).1
        (found-find_live k now h w.unique) (find_live-IsAccounted max others k now h w)

  incr_from-IsAccounted :
      (l : ProtocolConfig) (t : Tick) (k : Bytes) (delta : ℤ) (old : Option Entry) (h : Held)
      (current : Option ℤ)
      → find k h.map ≡ old
      → IsAccounted max others h
      → IsAccounted max others (incr_from max l t k delta old h current).1
  unfolding incr_from
  incr_from-IsAccounted l t k delta old h none f w = w
  incr_from-IsAccounted l t k delta old h (some current) f w =
      let next = current +ℤ delta in
      elim (Bool-cases (overflows current delta)) [
        | inl e ↦ rw e w
        | inr e ↦ rw e (elim (Bool-cases (value_valid l (to_string_i64 next))) [
          | inl x ↦ rw x (
              with_integer-IsAccounted max others next _
                (write_entry-IsAccounted max others t k old (to_string_i64 next) none h f w))
          | inr x ↦ rw x w
        ])
      ]

  pub incr_by_locked-IsAccounted :
      (l : ProtocolConfig) (t : Tick) (k : Bytes) (delta : ℤ) (h : Held)
      → IsAccounted max others h
      → IsAccounted max others (incr_by_locked max l t k delta h).1
  unfolding incr_by_locked
  incr_by_locked-IsAccounted l t k delta h w =
      incr_from-IsAccounted l t k delta (find_live k t.now h).0 (find_live k t.now h).1 _
        (found-find_live k t.now h w.unique) (find_live-IsAccounted max others k t.now h w)

  append_to-IsAccounted :
      (l : ProtocolConfig) (t : Tick) (k v : Bytes) (old : Option Entry) (h : Held)
      → find k h.map ≡ old
      → IsAccounted max others h
      → IsAccounted max others (append_to max l t k v old h).1
  unfolding append_to
  append_to-IsAccounted l t k v old h f w = elim (Bool-cases (value_valid l v)) [
    | inl x ↦ rw x (
        with_integer-IsAccounted max others _ _
          (write_entry-IsAccounted max others t k old v none h f w))
    | inr x ↦ rw x w
  ]

  pub append_locked-IsAccounted :
      (l : ProtocolConfig) (t : Tick) (k s : Bytes) (h : Held)
      → IsAccounted max others h
      → IsAccounted max others (append_locked max l t k s h).1
  unfolding append_locked
  append_locked-IsAccounted l t k s h w =
      append_to-IsAccounted l t k _ (find_live k t.now h).0 (find_live k t.now h).1
        (found-find_live k t.now h w.unique) (find_live-IsAccounted max others k t.now h w)

  with_expiry-IsAccounted :
      (k : Bytes) (now at : TimePoint) (o : Option Entry) (h : Held)
      → find k h.map ≡ o
      → IsAccounted max others h
      → IsAccounted max others (with_expiry k now at (o, h)).1
  unfolding with_expiry
  with_expiry-IsAccounted k now at none h f w = w
  with_expiry-IsAccounted k now at (some e) h f w = elim (Bool-cases (leb_ℤ at now)) [
    | inl x ↦ rw x (count_expired-IsAccounted max others _ (forget-memory max others h k e f w))
    | inr x ↦ rw x (rewrite-IsAccounted max others h k e _ f refl w)
  ]

  pub expire_at_locked-IsAccounted :
      (k : Bytes) (at now : TimePoint) (h : Held)
      → IsAccounted max others h
      → IsAccounted max others (expire_at_locked k at now h).1
  unfolding expire_at_locked
  expire_at_locked-IsAccounted k at now h w =
      with_expiry-IsAccounted k now at (find_live k now h).0 (find_live k now h).1
        (found-find_live k now h w.unique) (find_live-IsAccounted max others k now h w)

  pub ttl_locked-IsAccounted :
      (k : Bytes) (now : TimePoint) (h : Held)
      → IsAccounted max others h
      → IsAccounted max others (ttl_locked k now h).1
  unfolding ttl_locked
  ttl_locked-IsAccounted k now h w = find_live-IsAccounted max others k now h w

  persist_found-IsAccounted :
      (k : Bytes) (o : Option Entry) (h : Held)
      → find k h.map ≡ o
      → IsAccounted max others h
      → IsAccounted max others (persist_found k (o, h)).1
  unfolding persist_found
  persist_found-IsAccounted k none h f w = w
  persist_found-IsAccounted k (some e) h f w = go e.expiry
    where
      go : (x : Option TimePoint) → IsAccounted max others (without_expiry k x e h).1
      go none = unfold without_expiry in w
      go (some at) = unfold without_expiry in rewrite-IsAccounted max others h k e _ f refl w

  pub persist_locked-IsAccounted :
      (k : Bytes) (now : TimePoint) (h : Held)
      → IsAccounted max others h
      → IsAccounted max others (persist_locked k now h).1
  unfolding persist_locked
  persist_locked-IsAccounted k now h w =
      persist_found-IsAccounted k (find_live k now h).0 (find_live k now h).1
        (found-find_live k now h w.unique) (find_live-IsAccounted max others k now h w)
