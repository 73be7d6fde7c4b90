-- ===== src/Util/Parse.antt =====
-- The value parsers of src/util/string.cpp: integers, booleans and sizes with a unit.
pub mod Bounds
pub mod Prints
use velox_db.Prelude.{
  ℕ, ◌-◌, ◌*◌, ◌/◌, ◌%◌, ◌^◌, Bool, true, false, ◌||◌, Option, none, some, [], ◌∷◌, Bytes, codes,
  length, drop, take, ltb, leb, ◌==◌, if◌then◌else◌, bytes_eq, ℤ, ◌≡◌, refl,
}
use velox_db.Util.Decimal.{from_chars_i64, from_chars_u64, max_u64}
use velox_db.Util.Text.{trim, to_lower_ascii}

unfoldable pub parse_i64 : Bytes → Option ℤ
unfolding from_chars_i64 trim
parse_i64 input = from_chars_i64 (trim input)

starts_with_minus : Bytes → Bool
starts_with_minus [] = false
starts_with_minus (c ∷ s) = c == b'-'

unfoldable pub parse_u64 : Bytes → Option ℕ
unfolding from_chars_u64 trim starts_with_minus
parse_u64 input = if starts_with_minus (trim input) then none else from_chars_u64 (trim input)

bool_of : Bytes → Option Bool
unfolding bytes_eq
bool_of value =
    if bytes_eq value (codes "1")
      || bytes_eq value (codes "true")
      || bytes_eq value (codes "yes")
      || bytes_eq value (codes "on")
    then some true
    else if bytes_eq value (codes "0")
        || bytes_eq value (codes "false")
        || bytes_eq value (codes "no")
        || bytes_eq value (codes "off")
    then some false
    else none

unfoldable pub parse_bool : Bytes → Option Bool
unfolding bool_of trim to_lower_ascii
parse_bool input = bool_of (to_lower_ascii (trim input))

-- `strip_suffix`: whether the text ends in `suffix`, and the text without it.
has_suffix : Bytes → Bytes → Bool
unfolding bytes_eq
has_suffix value suffix =
    if leb (length suffix) (length value)
    then bytes_eq (drop (length value - length suffix) value) suffix
    else false

without : Bytes → Bytes → Bytes
without value suffix = take (length value - length suffix) value

-- The chain of `||`: the first suffix that fits is taken off, and its factor counts.
unit_of : Bytes → ℕ × Bytes
unfolding has_suffix without
unit_of v =
    if has_suffix v (codes "kb")
    then (1024, without v (codes "kb"))
    else if has_suffix v (codes "k")
    then (1024, without v (codes "k"))
    else if has_suffix v (codes "mb")
    then (1024 * 1024, without v (codes "mb"))
    else if has_suffix v (codes "m")
    then (1024 * 1024, without v (codes "m"))
    else if has_suffix v (codes "gb")
    then (1024 * 1024 * 1024, without v (codes "gb"))
    else if has_suffix v (codes "g")
    then (1024 * 1024 * 1024, without v (codes "g"))
    else (1, v)

-- The product is guarded, so that it is computed without wrap-around.
multiplied : ℕ → Option ℕ → Option ℕ
multiplied multiplier none = none
multiplied multiplier (some n) =
    if ltb (max_u64 / multiplier) n then none else some ((n * multiplier) % 2 ^ 64)

sized : Bytes → Option ℕ
unfolding unit_of multiplied parse_u64
sized [] = none
sized (c ∷ s) =
    let (multiplier, digits) = unit_of (c ∷ s) in multiplied multiplier (parse_u64 digits)

unfoldable pub parse_byte_size : Bytes → Option ℕ
unfolding sized trim to_lower_ascii
parse_byte_size input = sized (to_lower_ascii (trim input))

sizes :
    (parse_byte_size (codes " 64MB ") ≡ some 67108864)
    × (parse_byte_size (codes "1g") ≡ some 1073741824)
    × (parse_byte_size (codes "kb") ≡ none)
    × (parse_byte_size (codes "18446744073709551615k") ≡ none)
unfolding parse_byte_size
sizes = (refl, refl, refl, refl)
