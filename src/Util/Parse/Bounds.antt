-- ===== src/Util/Parse/Bounds.antt =====
-- The range of the numbers that src/util/string.cpp parses.
use velox_db.Prelude.{ℕ, ◌≤◌, Option, none, some, [], ◌∷◌, Bytes, ◌≡◌, arith}
use velox_db.Util.Decimal.{max_u64}
use velox_db.Util.Decimal.Bounds.{from_chars_u64-le}
use velox_db.Util.Text.{trim, to_lower_ascii}
use velox_db.Util.Parse.{parse_u64, multiplied, unit_of, sized, parse_byte_size}

pub parse_u64-le : (a : ℕ) (s : Bytes) → parse_u64 s ≡ some a → a ≤ max_u64
unfolding parse_u64
parse_u64-le a s h = ground (arith, from_chars_u64-le a (trim s))

multiplied-le : (k a : ℕ) (n : Option ℕ) → multiplied k n ≡ some a → a ≤ max_u64
unfolding multiplied
multiplied-le k a none h = cc
multiplied-le k a (some n) h = ground arith

sized-le : (a : ℕ) (s : Bytes) → sized s ≡ some a → a ≤ max_u64
unfolding sized
sized-le a [] h = cc
sized-le a (c ∷ s) h = multiplied-le (unit_of (c ∷ s)).0 a _ h

pub parse_byte_size-le : (s : Bytes) (a : ℕ) → parse_byte_size s ≡ some a → a ≤ max_u64
unfolding parse_byte_size
parse_byte_size-le s a h = sized-le a (to_lower_ascii (trim s)) h
