-- ===== src/Util/Text.antt =====
-- The ASCII text helpers of src/util/string.cpp. `std::isspace`, `std::toupper` and `std::tolower`
-- are those of the "C" locale.
pub mod Trim
use velox_db.Prelude.{
  ℕ, zero, suc, ◌+◌, ◌-◌, Bool, true, false, ◌&&◌, ◌||◌, List, [], ◌∷◌, ◌++◌, reverse, map, Bytes,
  codes, length, leb, ◌==◌, if◌then◌else◌, bytes_eq, bytes_eq_iff, ==_iff, Bool-cases, inl, inr,
  ◌≡◌, ◌≢◌, refl, sym, ap, ◌∙◌, arith,
}

unfoldable pub is_space : ℕ → Bool
is_space c = c == 32 || (leb 9 c && leb c 13)

unfoldable pub to_upper : ℕ → ℕ
to_upper c = if leb b'a' c && leb c b'z' then c - 32 else c

unfoldable pub to_lower : ℕ → ℕ
to_lower c = if leb b'A' c && leb c b'Z' then c + 32 else c

pub skip_spaces : Bytes → Bytes
skip_spaces [] = []
skip_spaces (c ∷ s) = let rest = skip_spaces s in if is_space c then rest else c ∷ s

-- The first loop moves `begin` forwards, the second moves `end` backwards.
unfoldable pub trim : Bytes → Bytes
unfolding skip_spaces is_space
trim s = reverse (skip_spaces (reverse (skip_spaces s)))

unfoldable pub to_upper_ascii : Bytes → Bytes
unfolding to_upper
to_upper_ascii = map to_upper

unfoldable pub to_lower_ascii : Bytes → Bytes
unfolding to_lower
to_lower_ascii = map to_lower

pub same_lower : Bytes → Bytes → Bool
unfolding to_lower
same_lower [] t = true
same_lower (c ∷ s) [] = true
same_lower (c ∷ s) (d ∷ t) = (to_lower c == to_lower d) && same_lower s t

unfoldable pub iequals : Bytes → Bytes → Bool
unfolding same_lower
iequals lhs rhs = if length lhs == length rhs then same_lower lhs rhs else false

-- The word at the front, and what stands behind it.
pub word_at : Bytes → Bytes
word_at [] = []
word_at (c ∷ s) = let rest = c ∷ word_at s in if is_space c then [] else rest

pub after_word : Bytes → Bytes
after_word [] = []
after_word (c ∷ s) = let rest = after_word s in if is_space c then c ∷ s else rest

abbrev pub emplace_word : Bytes → List Bytes → List Bytes
emplace_word [] ws = ws
emplace_word (c ∷ w) ws = (c ∷ w) ∷ ws

-- The outer loop of `split_words`; each round but the last takes a byte at least.
pub split_loop : ℕ → Bytes → List Bytes
split_loop zero s = []
split_loop (suc f) [] = []
split_loop (suc f) (c ∷ s) =
    let t = skip_spaces (c ∷ s) in emplace_word (word_at t) (split_loop f (after_word t))

unfoldable pub split_words : Bytes → List Bytes
unfolding split_loop skip_spaces word_at after_word is_space
split_words line = split_loop (length line) line

quoted : Bytes → Bytes
quoted [] = b'\'' ∷ []
quoted (ch ∷ s) = let rest = quoted s in if ch == b'\'' then codes "'\\''" ++ rest else ch ∷ rest

unfoldable pub shell_quote : Bytes → Bytes
unfolding quoted
shell_quote s = b'\'' ∷ quoted s

same_lower-bytes_eq :
    (s t : Bytes)
    → length s ≡ length t
    → same_lower s t ≡ bytes_eq (to_lower_ascii s) (to_lower_ascii t)
unfolding same_lower bytes_eq to_lower_ascii
same_lower-bytes_eq [] [] h = refl
same_lower-bytes_eq [] (d ∷ t) h = absurd (omega (arith, h))
same_lower-bytes_eq (c ∷ s) [] h = absurd (omega (arith, h))
same_lower-bytes_eq (c ∷ s) (d ∷ t) h =
    ap (λ b. (to_lower c == to_lower d) && b) (same_lower-bytes_eq s t (omega arith))

length-to_lower_ascii : (s : Bytes) → length (to_lower_ascii s) ≡ length s
unfolding to_lower_ascii
length-to_lower_ascii [] = refl
length-to_lower_ascii (c ∷ s) = ap suc (length-to_lower_ascii s)

bytes_eq-length : (s t : Bytes) → length s ≢ length t → bytes_eq s t ≡ false
bytes_eq-length s t ne = elim (Bool-cases (bytes_eq s t)) [
  | inl e ↦ absurd (ne (ap length ((bytes_eq_iff s t).0 e)))
  | inr e ↦ e
]

-- The comparison that ignores case agrees with the comparison of the two texts in lower case.
pub iequals-to_lower_ascii :
    (lhs rhs : Bytes) → iequals lhs rhs ≡ bytes_eq (to_lower_ascii lhs) (to_lower_ascii rhs)
unfolding iequals
iequals-to_lower_ascii lhs rhs = elim (Bool-cases (length lhs == length rhs)) [
  | inl e ↦ rw e (same_lower-bytes_eq lhs rhs ((==_iff _ _).0 e))
  | inr e ↦ rw e (
      sym (
        bytes_eq-length _ _ (λ same.
          let l : length lhs ≡ length rhs =
            sym (length-to_lower_ascii lhs) ∙ same ∙ length-to_lower_ascii rhs in
          absurd (cc (e, (==_iff (length lhs) (length rhs)).1 l)))))
]

three_words : split_words (codes "  set a\t b ") ≡ codes "set" ∷ codes "a" ∷ codes "b" ∷ []
unfolding split_words
three_words = refl

trimmed : trim (codes " \t a b\r\n") ≡ codes "a b"
unfolding trim
trimmed = refl

escaped_quote : shell_quote (codes "a'b") ≡ codes "'a'\\''b'"
unfolding shell_quote
escaped_quote = refl
