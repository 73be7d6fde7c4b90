-- ===== src/Util/Parse/Prints.antt =====
-- The prints of numbers, read back by the helpers of src/util/string.cpp.
use velox_db.Prelude.{
  ℕ, suc, ◌<◌, ◌≤◌, ℤ, pos, negsuc, IsI64, Bytes, [], ◌∷◌, none, some, false, length, if◌then◌else◌,
  All, All-imp, ◌≡◌, refl, ap, ◌∙◌, arith,
}
use velox_db.Util.Text.{is_space, trim}
use velox_db.Util.Text.Trim.{IsWord, trim-IsWord}
use velox_db.Util.Decimal.{max_u64, to_string, to_string_i64, from_chars_u64, from_chars_i64}
use velox_db.Util.Decimal.RoundTrip.{
  IsDigit, lt-length-to_string, to_string-All, from_chars_u64-to_string,
  from_chars_i64-to_string_i64,
}
use velox_db.Util.Parse.{parse_u64, parse_i64, starts_with_minus}

Digit-space : (c : ℕ) → IsDigit c → is_space c ≡ false
unfolding is_space
Digit-space c (l, u) = ground arith

pub to_string-IsWord : (n : ℕ) → IsWord (to_string n)
to_string-IsWord n = All-imp Digit-space (to_string n) (to_string-All n)

pub to_string_i64-IsWord : (a : ℤ) → IsWord (to_string_i64 a)
unfolding to_string_i64
to_string_i64-IsWord (pos n) = to_string-IsWord n
to_string_i64-IsWord (negsuc n) = ((unfold is_space in refl), to_string-IsWord (suc n))

pub lt-length-to_string_i64 : (a : ℤ) → 0 < length (to_string_i64 a)
unfolding to_string_i64
lt-length-to_string_i64 (pos n) = lt-length-to_string n
lt-length-to_string_i64 (negsuc n) = omega arith

starts_with_minus-All : (s : Bytes) → All IsDigit s → starts_with_minus s ≡ false
unfolding starts_with_minus
starts_with_minus-All [] h = refl
starts_with_minus-All (c ∷ s) ((l, u), hs) = ground arith

trimmed_u64 :
    (s : Bytes)
    → trim s ≡ s
    → parse_u64 s ≡ (if starts_with_minus s then none else from_chars_u64 s)
unfolding parse_u64
trimmed_u64 s e = ap (λ t. if starts_with_minus t then none else from_chars_u64 t) e

pub parse_u64-to_string : (n : ℕ) → n ≤ max_u64 → parse_u64 (to_string n) ≡ some n
parse_u64-to_string n h =
    trimmed_u64 (to_string n)
      (trim-IsWord (to_string n) (lt-length-to_string n) (to_string-IsWord n))
    ∙ ap (λ b. if b then none else from_chars_u64 (to_string n))
        (starts_with_minus-All (to_string n) (to_string-All n))
    ∙ from_chars_u64-to_string n h

pub parse_i64-to_string_i64 : (a : ℤ) → IsI64 a → parse_i64 (to_string_i64 a) ≡ some a
unfolding parse_i64
parse_i64-to_string_i64 a h =
    ap from_chars_i64
      (trim-IsWord (to_string_i64 a) (lt-length-to_string_i64 a) (to_string_i64-IsWord a))
    ∙ from_chars_i64-to_string_i64 a h
