-- ===== src/Commands/Options/Valid.antt =====
-- What the options of SET can come to.
use velox_db.Prelude.{
  ℕ, Bytes, List, [], ◌∷◌, Option, none, some, Option-cases, Bool, true, false, ◌&&◌, ◌||◌, is_some,
  Bool-cases, inl, inr, ℤ, ◌≡◌, refl, arith,
}
use velox_db.Storage.Types.{SetCondition}
use velox_db.Commands.Options.{
  parse_ttl_ms, SetOptions, TimeOption, ex, px, exat, pxat, OptionWord, condition, time, unknown,
  Checked, accepted, rejected, no_options, clashes, with_condition, with_pxat, not_positive,
  positive_only, with_time, Reading, ready, awaiting, returned, reading, read_option, read_word,
  finished, set_loop, set_options,
}

-- A time is positive where there is one, and there is at most one.
pub record IsValid (o : SetOptions) : Type 0 where
  pub ttl : not_positive o.ttl ≡ false
  pub pxat : not_positive o.pxat ≡ false
  pub one : is_some o.ttl && is_some o.pxat ≡ false

abbrev ValidReading : Reading → Type 0
ValidReading (ready o) = IsValid o
ValidReading (awaiting u o) = (o.ttl ≡ none) × (o.pxat ≡ none)
ValidReading (returned m) = Unit

abbrev ValidChecked : Checked SetOptions → Type 0
ValidChecked (accepted o) = IsValid o
ValidChecked (rejected m) = Unit

reading-ValidReading : (c : Checked SetOptions) → ValidChecked c → ValidReading (reading c)
unfolding reading
reading-ValidReading (accepted o) w = w
reading-ValidReading (rejected m) w = tt

with_condition-ValidChecked :
    (o : SetOptions) (c : SetCondition) → IsValid o → ValidChecked (with_condition o c)
unfolding with_condition
with_condition-ValidChecked o c w = elim (Bool-cases (clashes o.condition c)) [
  | inl e ↦ rw e tt
  | inr e ↦ rw e (record { ttl = w.ttl; pxat = w.pxat; one = w.one })
]

positive_only-ValidChecked :
    (o : SetOptions)
    → is_some o.ttl && is_some o.pxat ≡ false
    → ValidChecked (positive_only (accepted o))
unfolding positive_only
positive_only-ValidChecked o one = elim (Bool-cases (not_positive o.ttl || not_positive o.pxat)) [
  | inl e ↦ rw e tt
  | inr e ↦ rw e (record { ttl = ground arith; pxat = ground arith; one = one })
]

with_pxat-ValidChecked :
    (multiplier : ℕ) (o : SetOptions) (n : Option ℤ)
    → o.ttl ≡ none
    → ValidChecked (positive_only (with_pxat multiplier o n))
unfolding with_pxat
with_pxat-ValidChecked multiplier o none e = unfold positive_only in tt
with_pxat-ValidChecked multiplier o (some n) e = positive_only-ValidChecked _ (rw e refl)

and_none : (a : Bool) (x : Option ℤ) → x ≡ none → a && is_some x ≡ false
and_none true x e = rw e refl
and_none false x e = refl

with_time-ValidChecked :
    (u : TimeOption) (o : SetOptions) (value : Bytes)
    → o.ttl ≡ none
    → o.pxat ≡ none
    → ValidChecked (with_time u o value)
unfolding with_time
with_time-ValidChecked ex o value e f =
    positive_only-ValidChecked (record o { ttl = parse_ttl_ms value 1000 })
      (and_none (is_some (parse_ttl_ms value 1000)) o.pxat f)
with_time-ValidChecked px o value e f =
    positive_only-ValidChecked (record o { ttl = parse_ttl_ms value 1 })
      (and_none (is_some (parse_ttl_ms value 1)) o.pxat f)
with_time-ValidChecked exat o value e f = with_pxat-ValidChecked 1000 o _ e
with_time-ValidChecked pxat o value e f = with_pxat-ValidChecked 1 o _ e

read_option-ValidReading :
    (o : SetOptions) (w : OptionWord) → IsValid o → ValidReading (read_option o w)
unfolding read_option
read_option-ValidReading o (condition c) v =
    reading-ValidReading (with_condition o c) (with_condition-ValidChecked o c v)
read_option-ValidReading o (time u) v = elim (Option-cases o.ttl) [
  | inl e ↦ elim (Option-cases o.pxat) [
    | inl f ↦ rw (e, f) (refl, refl)
    | inr (n, f) ↦ rw (e, f) tt
  ]
  | inr (n, e) ↦ rw e tt
]
read_option-ValidReading o unknown v = tt

read_word-ValidReading : (r : Reading) (a : Bytes) → ValidReading r → ValidReading (read_word r a)
unfolding read_word
read_word-ValidReading (ready o) a v = read_option-ValidReading o _ v
read_word-ValidReading (awaiting u o) a v =
    reading-ValidReading (with_time u o a) (with_time-ValidChecked u o a v.0 v.1)
read_word-ValidReading (returned m) a v = tt

set_loop-ValidChecked :
    (r : Reading) (args : List Bytes) → ValidReading r → ValidChecked (set_loop r args)
unfolding set_loop finished
set_loop-ValidChecked (ready o) [] v = v
set_loop-ValidChecked (awaiting u o) [] v = tt
set_loop-ValidChecked (returned m) [] v = tt
set_loop-ValidChecked r (a ∷ args) v =
    set_loop-ValidChecked (read_word r a) args (read_word-ValidReading r a v)

-- The options that SET accepts hold a time to live or a time of expiry but never both, and neither
-- is zero or negative.
pub set_options-IsValid :
    (args : List Bytes) (o : SetOptions) → set_options args ≡ accepted o → IsValid o
set_options-IsValid args o e =
    let w : ValidChecked (set_options args) =
      unfold set_options in
      set_loop-ValidChecked (ready no_options) args
        (record { ttl = refl; pxat = refl; one = refl }) in
    rw e at w
