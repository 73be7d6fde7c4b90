-- ===== src/Commands/Options.antt =====
-- The options of SET, and the times that commands take, in src/commands/commands.cpp.
pub mod Valid
use velox_db.Prelude.{
  ℕ, ◌/◌, Bytes, codes, List, [], ◌∷◌, Option, none, some, Bool, true, false, ◌&&◌, ◌||◌,
  if◌then◌else◌, is_some, bytes_eq, ℤ, pos, scale, leb_ℤ, ltb_ℤ, max_i64, ◌≡◌, refl,
}
use velox_db.Util.Text.{to_upper_ascii}
use velox_db.Util.Decimal.{to_string_i64}
use velox_db.Util.Parse.{parse_i64}
use velox_db.Storage.Types.{TimePoint, SetCondition, always, nx, xx}
use velox_db.Storage.Time.{unix_ms, after_ms}

-- The product of a negative number can leave `int64_t`, which is undefined in the program; here it is
-- taken in the integers.
ttl_of : ℕ → Option ℤ → Option ℤ
unfolding scale
ttl_of multiplier none = none
ttl_of multiplier (some parsed) =
    if ltb_ℤ (pos 0) parsed && ltb_ℤ (pos (max_i64 / multiplier)) parsed
    then none
    else some (scale parsed multiplier)

unfoldable pub parse_ttl_ms : Bytes → ℕ → Option ℤ
unfolding ttl_of parse_i64
parse_ttl_ms value multiplier = ttl_of multiplier (parse_i64 value)

unfoldable pub pxat_arg_from_ttl : TimePoint → ℤ → Bytes
unfolding unix_ms after_ms to_string_i64
pxat_arg_from_ttl now ttl = to_string_i64 (unix_ms (after_ms now ttl))

-- The local variables of `set`.
pub record SetOptions : Type 0 where
  pub condition : SetCondition
  pub ttl : Option ℤ
  pub pxat : Option ℤ

abbrev pub no_options : SetOptions
no_options = record { condition = always; ttl = none; pxat = none }

pub data TimeOption : Type 0 where
  ex px exat pxat : TimeOption

pub data OptionWord : Type 0 where
  condition : SetCondition → OptionWord
  time : TimeOption → OptionWord
  unknown : OptionWord

word_of : Bytes → OptionWord
unfolding bytes_eq
word_of word =
    if bytes_eq word (codes "NX")
    then condition nx
    else if bytes_eq word (codes "XX")
    then condition xx
    else if bytes_eq word (codes "EX")
    then time ex
    else if bytes_eq word (codes "PX")
    then time px
    else if bytes_eq word (codes "EXAT")
    then time exat
    else if bytes_eq word (codes "PXAT")
    then time pxat
    else unknown

pub data Checked {ℓ} (A : Type ℓ) : Type ℓ where
  accepted : A → Checked A
  rejected : Bytes → Checked A

abbrev syntax_error : Checked SetOptions
syntax_error = rejected (codes "syntax error")

abbrev invalid_time : Checked SetOptions
invalid_time = rejected (codes "invalid expire time in SET")

-- Whether an earlier option stands against the condition.
clashes : (old new : SetCondition) → Bool
clashes xx nx = true
clashes nx xx = true
clashes _ _ = false

with_condition : SetOptions → SetCondition → Checked SetOptions
unfolding clashes
with_condition o c =
    if clashes o.condition c then syntax_error else accepted (record o { condition = c })

with_pxat : ℕ → SetOptions → Option ℤ → Checked SetOptions
unfolding scale
with_pxat multiplier o none = invalid_time
with_pxat multiplier o (some parsed) = accepted (record o { pxat = some (scale parsed multiplier) })

unfoldable pub not_positive : Option ℤ → Bool
not_positive none = false
not_positive (some n) = leb_ℤ n (pos 0)

positive_only : Checked SetOptions → Checked SetOptions
unfolding not_positive
positive_only (rejected m) = rejected m
positive_only (accepted o) =
    if not_positive o.ttl || not_positive o.pxat then invalid_time else accepted o

with_time : TimeOption → SetOptions → Bytes → Checked SetOptions
unfolding with_pxat positive_only parse_ttl_ms parse_i64
with_time ex o value = positive_only (accepted (record o { ttl = parse_ttl_ms value 1000 }))
with_time px o value = positive_only (accepted (record o { ttl = parse_ttl_ms value 1 }))
with_time exat o value = positive_only (with_pxat 1000 o (parse_i64 value))
with_time pxat o value = positive_only (with_pxat 1 o (parse_i64 value))

-- Where the loop over the arguments is: before an option, before the value of one, or returned.
pub data Reading : Type 0 where
  ready : SetOptions → Reading
  awaiting : TimeOption → SetOptions → Reading
  returned : Bytes → Reading

reading : Checked SetOptions → Reading
reading (accepted o) = ready o
reading (rejected m) = returned m

read_option : SetOptions → OptionWord → Reading
unfolding reading with_condition
read_option o (condition c) = reading (with_condition o c)
read_option o (time u) =
    if is_some o.ttl || is_some o.pxat then returned (codes "syntax error") else awaiting u o
read_option o unknown = returned (codes "syntax error")

pub read_word : Reading → Bytes → Reading
unfolding read_option word_of to_upper_ascii with_time reading
read_word (ready o) a = read_option o (word_of (to_upper_ascii a))
read_word (awaiting u o) a = reading (with_time u o a)
read_word (returned m) a = returned m

finished : Reading → Checked SetOptions
finished (ready o) = accepted o
finished (awaiting u o) = syntax_error
finished (returned m) = rejected m

set_loop : Reading → List Bytes → Checked SetOptions
unfolding read_word finished
set_loop r [] = finished r
set_loop r (a ∷ args) = set_loop (read_word r a) args

unfoldable pub set_options : List Bytes → Checked SetOptions
unfolding set_loop
set_options args = set_loop (ready no_options) args

options :
    (set_options (codes "px" ∷ codes "10" ∷ codes "NX" ∷ [])
      ≡ accepted (record { condition = nx; ttl = some (pos 10); pxat = none }))
    × (set_options (codes "NX" ∷ codes "XX" ∷ []) ≡ rejected (codes "syntax error"))
    × (set_options (codes "EX" ∷ codes "0" ∷ []) ≡ rejected (codes "invalid expire time in SET"))
    × (set_options (codes "EX" ∷ codes "abc" ∷ []) ≡ accepted no_options)
    × (set_options (codes "EX" ∷ []) ≡ rejected (codes "syntax error"))
unfolding set_options
options = (refl, refl, refl, refl, refl)
