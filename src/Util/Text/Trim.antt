-- ===== src/Util/Text/Trim.antt =====
-- What `trim` of src/util/string.cpp leaves.
use mathlib.Core.List.{reverse-append, reverse-reverse, reverse-cons}
use velox_db.Prelude.{
  ℕ, ◌<◌, true, false, [], ◌∷◌, ◌++◌, length, reverse, Bytes, All, ◌≡◌, refl, sym, ap, ◌∙◌,
  append-nil, arith,
}
use velox_db.Util.Text.{is_space, skip_spaces, trim}

abbrev pub IsWord : Bytes → Type 0
IsWord = All (λ c. is_space c ≡ false)

-- A text whose first and last byte are no spaces.
skip_spaces-visible : (c : ℕ) (s : Bytes) → is_space c ≡ false → skip_spaces (c ∷ s) ≡ c ∷ s
unfolding skip_spaces
skip_spaces-visible c s h = rw h refl

skip_spaces-space : (c : ℕ) (s : Bytes) → is_space c ≡ true → skip_spaces (c ∷ s) ≡ skip_spaces s
unfolding skip_spaces
skip_spaces-space c s h = rw h refl

-- Between spaces on the left and on the right.
abbrev pub AllSpace : Bytes → Type 0
AllSpace = All (λ c. is_space c ≡ true)

skip_spaces-append : (s t : Bytes) → AllSpace s → skip_spaces (s ++ t) ≡ skip_spaces t
skip_spaces-append [] t h = refl
skip_spaces-append (c ∷ s) t (h, hs) = skip_spaces-space c (s ++ t) h ∙ skip_spaces-append s t hs

-- A text that begins and ends visibly, with spaces around it.
pub trim-around :
    (left t right : Bytes)
    → AllSpace left
    → AllSpace (reverse right)
    → skip_spaces (t ++ right) ≡ t ++ right
    → skip_spaces (reverse t) ≡ reverse t
    → trim (left ++ (t ++ right)) ≡ t
unfolding trim
trim-around left t right hl hr front back =
    ap (λ u. reverse (skip_spaces (reverse u))) (skip_spaces-append left (t ++ right) hl ∙ front)
    ∙ ap (λ u. reverse (skip_spaces u)) (reverse-append t right)
    ∙ ap reverse (skip_spaces-append (reverse right) (reverse t) hr ∙ back)
    ∙ reverse-reverse t

pub trim-ends :
    (a b : ℕ) (s left : Bytes)
    → is_space a ≡ false
    → is_space b ≡ false
    → AllSpace left
    → trim (left ++ a ∷ (s ++ b ∷ [])) ≡ a ∷ (s ++ b ∷ [])
trim-ends a b s left ha hb hl =
    ap (λ u. trim (left ++ u)) (sym (append-nil (a ∷ (s ++ b ∷ []))))
    ∙ trim-around left (a ∷ (s ++ b ∷ [])) [] hl tt (skip_spaces-visible a ((s ++ b ∷ []) ++ []) ha)
        (ap skip_spaces (reverse-append (a ∷ s) (b ∷ []))
          ∙ skip_spaces-visible b (reverse (a ∷ s)) hb
          ∙ sym (reverse-append (a ∷ s) (b ∷ [])))

skip_spaces-word : (w : Bytes) → IsWord w → skip_spaces w ≡ w
skip_spaces-word [] h = unfold skip_spaces in refl
skip_spaces-word (c ∷ w) h = skip_spaces-visible c w h.0

All-append_last : (P : ℕ → Type 0) (xs : Bytes) (y : ℕ) → All P xs → P y → All P (xs ++ y ∷ [])
All-append_last P [] y h p = (p, tt)
All-append_last P (x ∷ xs) y (h, hs) p = (h, All-append_last P xs y hs p)

All-reverse : (P : ℕ → Type 0) (xs : Bytes) → All P xs → All P (reverse xs)
All-reverse P [] h = tt
All-reverse P (x ∷ xs) (h, hs) =
    rw (reverse-cons x xs) (All-append_last P (reverse xs) x (All-reverse P xs hs) h)

-- A word, with spaces around it.
pub trim-word :
    (left : Bytes) (c : ℕ) (w right : Bytes)
    → AllSpace left
    → AllSpace (reverse right)
    → IsWord (c ∷ w)
    → trim (left ++ ((c ∷ w) ++ right)) ≡ c ∷ w
trim-word left c w right hl hr h =
    trim-around left (c ∷ w) right hl hr (skip_spaces-visible c (w ++ right) h.0)
      (skip_spaces-word (reverse (c ∷ w)) (All-reverse (λ b. is_space b ≡ false) (c ∷ w) h))

pub trim-IsWord : (w : Bytes) → 0 < length w → IsWord w → trim w ≡ w
trim-IsWord [] l h = absurd (omega arith)
trim-IsWord (c ∷ w) l h = ap (λ t. trim (c ∷ t)) (sym (append-nil w)) ∙ trim-word [] c w [] tt tt h
