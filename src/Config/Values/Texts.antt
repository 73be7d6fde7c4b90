-- ===== src/Config/Values/Texts.antt =====
-- The text helpers of src/config/config.cpp on texts of a known shape.
use velox_db.Prelude.{
  ℕ, suc, ◌-◌, ◌==◌, leb, true, false, some, [], ◌∷◌, ◌++◌, Bytes, codes, All, length, get_or, take,
  drop, length-append, take-append, ◌≡◌, refl, ap, ◌∙◌, arith,
}
use velox_db.Util.Text.{is_space}
use velox_db.Util.Text.Trim.{trim-ends}
use velox_db.Config.Values.{
  front, back, find_byte, strip_quotes, unquoted, remove_comment, comment_loop,
}

-- The first `=` stands behind the bytes that are none.
pub find_byte-append :
    (wanted : ℕ) (s t : Bytes)
    → All (λ c. (c == wanted) ≡ false) s
    → find_byte wanted (s ++ wanted ∷ t) ≡ some (length s)
unfolding find_byte
find_byte-append wanted [] t h = ground arith
find_byte-append wanted (c ∷ s) t (h, hs) = rw (h, find_byte-append wanted s t hs) refl

abbrev pub IsOpen : ℕ → Type 0
IsOpen c = ((c == b'"') ≡ false) × ((c == b'#') ≡ false)

comment_loop-open :
    (s t : Bytes) → All IsOpen s → comment_loop false (s ++ t) ≡ s ++ comment_loop false t
unfolding comment_loop
comment_loop-open [] t h = refl
comment_loop-open (c ∷ s) t ((q, n), hs) = rw (q, n) (ap (λ r. c ∷ r) (comment_loop-open s t hs))

comment_loop-quoted :
    (s t : Bytes)
    → All (λ c. (c == b'"') ≡ false) s
    → comment_loop true (s ++ t) ≡ s ++ comment_loop true t
unfolding comment_loop
comment_loop-quoted [] t h = refl
comment_loop-quoted (c ∷ s) t (q, hs) = rw q (ap (λ r. c ∷ r) (comment_loop-quoted s t hs))

pub remove_comment-open :
    (s : Bytes) → All IsOpen s → remove_comment (s ++ codes "]") ≡ s ++ codes "]"
unfolding remove_comment
remove_comment-open s h = comment_loop-open s (codes "]") h ∙ (unfold comment_loop in refl)

-- A `#` between quotes starts no comment.
pub remove_comment-quoted :
    (s v : Bytes)
    → All IsOpen s
    → All (λ c. (c == b'"') ≡ false) v
    → remove_comment (s ++ b'"' ∷ (v ++ codes "\"")) ≡ s ++ b'"' ∷ (v ++ codes "\"")
unfolding remove_comment
remove_comment-quoted s v hs hv =
    comment_loop-open s (b'"' ∷ (v ++ codes "\"")) hs
    ∙ ap (λ r. s ++ r)
        (unfold comment_loop in ap (λ r. b'"' ∷ r) (comment_loop-quoted v (codes "\"") hv))

get_or-append : (s : Bytes) (b : ℕ) → get_or (s ++ b ∷ []) (length s) 0 ≡ b
get_or-append [] b = refl
get_or-append (c ∷ s) b = get_or-append s b

back-append : (a : ℕ) (s : Bytes) (b : ℕ) → back (a ∷ (s ++ b ∷ [])) ≡ b
back-append a s b =
    ap (λ n. get_or (a ∷ (s ++ b ∷ [])) n 0) {y = suc (length s)}
      (omega (arith, length-append s (b ∷ [])))
    ∙ get_or-append s b

pub front-back :
    (a : ℕ) (s : Bytes) (b : ℕ) → (front (a ∷ (s ++ b ∷ [])) ≡ a) × (back (a ∷ (s ++ b ∷ [])) ≡ b)
front-back a s b = (refl, back-append a s b)

-- What stands between the first and the last byte.
pub between-ends :
    (a : ℕ) (s : Bytes) (b : ℕ)
    → take (length (a ∷ (s ++ b ∷ [])) - 2) (drop 1 (a ∷ (s ++ b ∷ []))) ≡ s
between-ends a s b =
    take-append s (b ∷ []) (length (a ∷ (s ++ b ∷ [])) - 2)
      (omega (arith, length-append s (b ∷ [])))

pub strip_quotes-quoted : (v : Bytes) → strip_quotes (b' ' ∷ b'"' ∷ (v ++ codes "\"")) ≡ v
unfolding strip_quotes
strip_quotes-quoted v =
    ap unquoted (
      trim-ends b'"' b'"' v (codes " ") (unfold is_space in refl) (unfold is_space in refl)
        ((unfold is_space in refl), tt))
    ∙ (unfold unquoted in rw (long, (front-back b'"' v b'"').1) (between-ends b'"' v b'"'))
  where
    long : leb 2 (length (b'"' ∷ (v ++ codes "\""))) ≡ true
    long = ground (arith, length-append v (codes "\""))
