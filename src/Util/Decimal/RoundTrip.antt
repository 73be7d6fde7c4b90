-- ===== src/Util/Decimal/RoundTrip.antt =====
-- Reading a printed number gives the number back, and what bytes a print holds.
use velox_db.Prelude.{
  ℕ, zero, suc, ◌+◌, ◌/◌, ◌%◌, ◌^◌, ◌≤◌, ◌<◌, some, [], ◌∷◌, Bytes, ℤ, pos, negsuc, max_i64, ◌≡◌,
  refl, arith, All, IsI64, length,
}
use velox_db.Util.Decimal.{
  print_digits, to_string, to_string_i64, read_digits, at_most, from_chars_unsigned, from_chars_u64,
  from_chars_i64, max_u64, to_ℤ, negated,
}

abbrev pub IsDigit : ℕ → Type 0
IsDigit c = (b'0' ≤ c) × (c ≤ b'9')

read-print :
    (f n : ℕ) (out : Bytes) → n < f → read_digits (print_digits f n out) 0 ≡ read_digits out n
unfolding print_digits read_digits
read-print zero n out h = elim h [ ]
read-print (suc f) n out h = ground (arith, read-print f (n / 10) ((b'0' + n % 10) ∷ out))

print-All : (f n : ℕ) (out : Bytes) → All IsDigit out → All IsDigit (print_digits f n out)
unfolding print_digits
print-All zero n out h = h
print-All (suc f) n out h = ground (arith, print-All f (n / 10) ((b'0' + n % 10) ∷ out))

lt-length-print : (f n : ℕ) (out : Bytes) → length out < length (print_digits (suc f) n out)
unfolding print_digits
lt-length-print zero n out = ground arith
lt-length-print (suc f) n out = ground (arith, lt-length-print f (n / 10) ((b'0' + n % 10) ∷ out))

pub lt-length-to_string : (n : ℕ) → 0 < length (to_string n)
unfolding to_string
lt-length-to_string n = lt-length-print n n []

-- A print of an unsigned number holds digits only.
pub to_string-All : (n : ℕ) → All IsDigit (to_string n)
unfolding to_string
to_string-All n = print-All (suc n) n [] tt

read-to_string : (n : ℕ) → read_digits (to_string n) 0 ≡ some n
unfolding to_string read_digits
read-to_string n = read-print (suc n) n [] (omega arith)

unsigned_of_digits :
    (bound : ℕ) (s : Bytes)
    → 0 < length s
    → from_chars_unsigned bound s ≡ at_most bound (read_digits s 0)
unfolding from_chars_unsigned
unsigned_of_digits bound [] h = absurd (omega arith)
unsigned_of_digits bound (c ∷ s) h = refl

i64_of_digits :
    (s : Bytes)
    → All IsDigit s
    → 0 < length s
    → from_chars_i64 s ≡ to_ℤ (at_most max_i64 (read_digits s 0))
unfolding from_chars_i64
i64_of_digits [] d h = absurd (omega arith)
i64_of_digits (c ∷ s) d h = ground arith

unsigned-to_string : (bound n : ℕ) → n ≤ bound → from_chars_unsigned bound (to_string n) ≡ some n
unfolding at_most
unsigned-to_string bound n h =
    rw (unsigned_of_digits bound (to_string n) (lt-length-to_string n), read-to_string n)
      (ground arith)

-- Every `uint64_t` is read back from its print.
pub from_chars_u64-to_string : (n : ℕ) → n ≤ max_u64 → from_chars_u64 (to_string n) ≡ some n
unfolding from_chars_u64
from_chars_u64-to_string n h = unsigned-to_string max_u64 n h

pub from_chars_i64-to_string : (n : ℕ) → n ≤ max_i64 → from_chars_i64 (to_string n) ≡ some (pos n)
unfolding at_most to_ℤ
from_chars_i64-to_string n h =
    rw (i64_of_digits (to_string n) (to_string-All n) (lt-length-to_string n), read-to_string n)
      (ground arith)

-- Every number of int64_t is read back from its decimal print, both signs included.
pub from_chars_i64-to_string_i64 : (a : ℤ) → IsI64 a → from_chars_i64 (to_string_i64 a) ≡ some a
unfolding to_string_i64
from_chars_i64-to_string_i64 (pos n) h = from_chars_i64-to_string n h.0
from_chars_i64-to_string_i64 (negsuc n) h =
    unfold from_chars_i64 negated in rw (unsigned-to_string (2 ^ 63) (suc n) h.1) (ground arith)
