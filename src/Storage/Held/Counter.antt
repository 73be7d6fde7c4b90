-- ===== src/Storage/Held/Counter.antt =====
-- INCR, DECR and APPEND on one key: what they write, and when they refuse.
use velox_db.Prelude.{
  ℕ, Bytes, ◌++◌, [], Option, none, some, true, false, ◌≡◌, refl, ap, ◌∙◌, arith, Bool-cases, inl,
  inr, ℤ, pos, negsuc, ◌+ℤ◌, ◌-ℤ◌, length, IsI64, ◌↔◌,
}
use velox_db.Util.Decimal.{to_string_i64, from_chars_i64}
use velox_db.Config.Types.{ProtocolConfig}
use velox_db.Storage.Types.{Entry, Tick, value_too_large, invalid_integer, overflow}
use velox_db.Storage.Table.{Unique}
use velox_db.Storage.Held.{
  Held, find_live, value_of, value_valid, overflows, current_of, incr_from, incr_by_locked,
  append_to, append_locked,
}
use velox_db.Storage.Held.Frame.{
  Item, content, sees, Keeps, find_live-Keeps, content-find_live, Keeps-refl,
}
use velox_db.Storage.Held.Effect.{
  Effect, Effect-refused, Keeps-Effect, write_entry-Effect, with_integer-Effect,
}

-- The number that a counter starts from, as a client sees it.
unfoldable pub seen_integer : Option Item → Option ℤ
seen_integer none = some (pos 0)
seen_integer (some (v, x)) = from_chars_i64 v

current_of-content : (o : Option Entry) → current_of o ≡ seen_integer (content o)
unfolding current_of seen_integer
current_of-content none = refl
current_of-content (some e) = refl

-- The outcome of an increment of a visible number: refused, or written with its TTL dropped.
incr_from-Effect :
    (max : ℕ) (l : ProtocolConfig) (t : Tick) (k : Bytes) (delta : ℤ) (old : Option Entry)
    (h : Held) (n : ℤ)
    → let (r, h') = incr_from max l t k delta old h (some n) in
      Effect r.code t.now k (some (to_string_i64 (n +ℤ delta), none)) h.map h'.map
unfolding incr_from
incr_from-Effect max l t k delta old h n = elim (Bool-cases (overflows n delta)) [
  | inl e ↦ rw e (Effect-refused overflow next (cc) (Keeps-refl t.now h.map))
  | inr e ↦ rw e (elim (Bool-cases (value_valid l (to_string_i64 (n +ℤ delta)))) [
    | inl x ↦ rw x (
        with_integer-Effect (n +ℤ delta) _
          (write_entry-Effect max t k old (to_string_i64 (n +ℤ delta)) none h))
    | inr x ↦ rw x (Effect-refused value_too_large next (cc) (Keeps-refl t.now h.map))
  ])
]
  where
    next : Option Item
    next = some (to_string_i64 (n +ℤ delta), none)

module _ (max : ℕ) (l : ProtocolConfig) (t : Tick) (k : Bytes) (delta : ℤ) (h : Held) where
  seen-current :
      (n : Option ℤ)
      → seen_integer (sees t.now k h.map) ≡ n
      → current_of (find_live k t.now h).0 ≡ n
  seen-current n e =
      current_of-content (find_live k t.now h).0 ∙ ap seen_integer (content-find_live k t.now h) ∙ e

  pub incr_by_locked-Effect :
      (n : ℤ)
      → Unique h.map
      → seen_integer (sees t.now k h.map) ≡ some n
      → let (r, h') = incr_by_locked max l t k delta h in
        Effect r.code t.now k (some (to_string_i64 (n +ℤ delta), none)) h.map h'.map
  unfolding incr_by_locked
  incr_by_locked-Effect n u e = rw (seen-current (some n) e) (
      Keeps-Effect (find_live-Keeps k t.now h u)
        (incr_from-Effect max l t k delta (find_live k t.now h).0 (find_live k t.now h).1 n))

  pub incr_by_locked-overflow :
      (n : ℤ)
      → seen_integer (sees t.now k h.map) ≡ some n
      → overflows n delta ≡ true
      → (incr_by_locked max l t k delta h).0.code ≡ overflow
  unfolding incr_by_locked incr_from
  incr_by_locked-overflow n e o = rw (seen-current (some n) e, o)

  pub incr_by_locked-invalid :
      Unique h.map
      → seen_integer (sees t.now k h.map) ≡ none
      → let (r, h') = incr_by_locked max l t k delta h in
        (r.code ≡ invalid_integer) × Keeps t.now h.map h'.map
  unfolding incr_by_locked incr_from
  incr_by_locked-invalid u e = rw (seen-current none e) (refl, find_live-Keeps k t.now h u)

-- APPEND

abbrev pub text_seen : Option Item → Bytes
text_seen none = []
text_seen (some (v, x)) = v

value_of-content : (o : Option Entry) → value_of o ≡ text_seen (content o)
value_of-content none = refl
value_of-content (some e) = refl

append_to-Effect :
    (max : ℕ) (l : ProtocolConfig) (t : Tick) (k v : Bytes) (old : Option Entry) (h : Held)
    → let (r, h') = append_to max l t k v old h in
      Effect r.code t.now k (some (v, none)) h.map h'.map
unfolding append_to
append_to-Effect max l t k v old h = elim (Bool-cases (value_valid l v)) [
  | inl x ↦ rw x (with_integer-Effect (pos (length v)) _ (write_entry-Effect max t k old v none h))
  | inr x ↦ rw x (Effect-refused value_too_large (some (v, none)) (cc) (Keeps-refl t.now h.map))
]

pub append_locked-Effect :
    (max : ℕ) (l : ProtocolConfig) (t : Tick) (k suffix : Bytes) (h : Held)
    → Unique h.map
    → let (r, h') = append_locked max l t k suffix h in
      Effect r.code t.now k (some (text_seen (sees t.now k h.map) ++ suffix, none)) h.map h'.map
unfolding append_locked
append_locked-Effect max l t k suffix h u =
    let seen =
      value_of-content (find_live k t.now h).0 ∙ ap text_seen (content-find_live k t.now h) in
    rw (← seen) (
      Keeps-Effect (find_live-Keeps k t.now h u) (
        append_to-Effect max l t k (value_of (find_live k t.now h).0 ++ suffix)
          (find_live k t.now h).0 (find_live k t.now h).1))

-- For two numbers of int64_t, the overflow guard of incr_by lets pass exactly the pairs whose sum
-- is a number of int64_t.
pub overflows_lem :
    (n delta : ℤ) → IsI64 n → IsI64 delta → (overflows n delta ≡ false) ↔ IsI64 (n +ℤ delta)
unfolding overflows ◌+ℤ◌ ◌-ℤ◌
overflows_lem (pos a) (pos b) h i = (λ o. ground arith, λ s. ground arith)
overflows_lem (pos a) (negsuc b) h i = (λ o. ground arith, λ s. ground arith)
overflows_lem (negsuc a) (pos b) h i = (λ o. ground arith, λ s. ground arith)
overflows_lem (negsuc a) (negsuc b) h i = (λ o. ground arith, λ s. ground arith)
