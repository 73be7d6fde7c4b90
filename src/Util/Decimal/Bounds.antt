-- ===== src/Util/Decimal/Bounds.antt =====
-- The range of what `std::from_chars` reads.
use velox_db.Prelude.{ℕ, ◌≤◌, Option, none, some, [], ◌∷◌, Bytes, ◌≡◌, arith}
use velox_db.Util.Decimal.{at_most, from_chars_unsigned, from_chars_u64, max_u64}

at_most-le : (bound a : ℕ) (n : Option ℕ) → at_most bound n ≡ some a → a ≤ bound
unfolding at_most
at_most-le bound a none h = cc
at_most-le bound a (some n) h = ground arith

from_chars_unsigned-le :
    (bound a : ℕ) (s : Bytes) → from_chars_unsigned bound s ≡ some a → a ≤ bound
unfolding from_chars_unsigned
from_chars_unsigned-le bound a [] h = cc
from_chars_unsigned-le bound a (c ∷ s) h = at_most-le bound a _ h

pub from_chars_u64-le : (a : ℕ) (s : Bytes) → from_chars_u64 s ≡ some a → a ≤ max_u64
unfolding from_chars_u64
from_chars_u64-le a s h = from_chars_unsigned-le max_u64 a s h
