-- ===== src/Util/Decimal.antt =====
-- What the program uses of the standard library on decimal numbers: `std::to_string` and
-- `std::from_chars` in base ten over a whole text. `parse_number_line` of src/protocol/resp.cpp and
-- `parse_integer_value` of src/storage/storage_engine.cpp are both `from_chars_i64`.
pub mod RoundTrip
pub mod Bounds
use velox_db.Prelude.{
  ℕ, zero, suc, ◌+◌, ◌-◌, ◌*◌, ◌/◌, ◌%◌, ◌^◌, Bool, ◌&&◌, Option, none, some, [], ◌∷◌, Bytes, ltb,
  leb, ◌==◌, if◌then◌else◌, ℤ, pos, negsuc, sub_ℕ, max_i64, ◌≡◌, refl, codes,
}

abbrev pub is_digit : ℕ → Bool
is_digit c = leb b'0' c && leb c b'9'

-- One digit for each round, the last digit first. A round for each unit of `n` is more than enough.
print_digits : ℕ → ℕ → Bytes → Bytes
print_digits zero n out = out
print_digits (suc f) n out =
    let rest = print_digits f (n / 10) ((b'0' + n % 10) ∷ out) in
    if ltb n 10 then (b'0' + n % 10) ∷ out else rest

-- `std::to_string` of an unsigned number.
unfoldable pub to_string : ℕ → Bytes
unfolding print_digits
to_string n = print_digits (suc n) n []

-- `std::to_string` of an `int64_t`.
unfoldable pub to_string_i64 : ℤ → Bytes
unfolding to_string
to_string_i64 (pos n) = to_string n
to_string_i64 (negsuc n) = b'-' ∷ to_string (suc n)

-- The number that the digits spell behind `n`; `none` at a byte that is no digit.
read_digits : Bytes → ℕ → Option ℕ
read_digits [] n = some n
read_digits (c ∷ s) n =
    let rest = read_digits s (n * 10 + (c - b'0')) in if is_digit c then rest else none

at_most : ℕ → Option ℕ → Option ℕ
at_most bound none = none
at_most bound (some n) = if leb n bound then some n else none

-- `std::from_chars` into an unsigned type up to `bound`, with `ptr == last` required.
from_chars_unsigned : ℕ → Bytes → Option ℕ
unfolding read_digits at_most
from_chars_unsigned bound [] = none
from_chars_unsigned bound (c ∷ s) = at_most bound (read_digits (c ∷ s) 0)

abbrev pub max_u64 : ℕ
max_u64 = 2 ^ 64 - 1

unfoldable pub from_chars_u64 : Bytes → Option ℕ
unfolding from_chars_unsigned
from_chars_u64 = from_chars_unsigned max_u64

to_ℤ : Option ℕ → Option ℤ
to_ℤ none = none
to_ℤ (some n) = some (pos n)

negated : Option ℕ → Option ℤ
negated none = none
negated (some n) = some (sub_ℕ 0 n)

-- `std::from_chars` into `int64_t`: an optional minus sign, no plus sign, no spaces.
unfoldable pub from_chars_i64 : Bytes → Option ℤ
unfolding from_chars_unsigned to_ℤ negated
from_chars_i64 [] = none
from_chars_i64 (c ∷ s) =
    if c == b'-'
    then negated (from_chars_unsigned (2 ^ 63) s)
    else to_ℤ (from_chars_unsigned max_i64 (c ∷ s))

to_string_largest : to_string 18446744073709551615 ≡ codes "18446744073709551615"
unfolding to_string
to_string_largest = refl

from_chars_edges :
    (from_chars_i64 (codes "-9223372036854775808") ≡ some (negsuc 9223372036854775807))
    × (from_chars_i64 (codes "9223372036854775808") ≡ none)
    × (from_chars_i64 (codes "+1") ≡ none)
    × (from_chars_i64 (codes "-0") ≡ some (pos 0))
unfolding from_chars_i64
from_chars_edges = (refl, refl, refl, refl)
