-- ===== src/Config/Loader/Lines.antt =====
-- The two lines that set a value in a configuration file, read by the loop of `load_file` of
-- src/config/config.cpp.
use velox_db.Prelude.{
  ℕ, ◌+◌, ◌<◌, ◌==◌, true, false, ◌&&◌, some, [], ◌∷◌, ◌++◌, Bytes, codes, All, length, take, drop,
  length-append, take-append, drop-append, All-imp, All-append, append_assoc, append-nil, ◌≡◌, refl,
  sym, ap, ◌∙◌, arith,
}
use velox_db.Util.Status.{ok_status}
use velox_db.Util.Text.{is_space, trim}
use velox_db.Util.Text.Trim.{trim-word, trim-ends}
use velox_db.Config.Types.{Config}
use velox_db.Config.Values.{Outcome, back, find_byte, strip_quotes, remove_comment}
use velox_db.Config.Values.Texts.{
  IsOpen, find_byte-append, remove_comment-open, remove_comment-quoted, front-back, between-ends,
  strip_quotes-quoted,
}
use velox_db.Config.Apply.{apply_kv}
use velox_db.Config.Loader.{
  explain, qualified, numbered, pair_line, is_section, Reading, read_clean, read_line,
}

-- A byte of a section's name or of a key.
abbrev pub IsNameByte : ℕ → Type 0
IsNameByte c =
    (is_space c ≡ false) × ((c == b'"') ≡ false) × ((c == b'#') ≡ false) × ((c == b'=') ≡ false)

abbrev pub IsName : Bytes → Type 0
IsName name = (0 < length name) × All IsNameByte name

-- A byte between quotes.
abbrev pub IsTextByte : ℕ → Type 0
IsTextByte c = ((c == b'"') ≡ false) × ((c == b'\n') ≡ false)

abbrev pub section_line : Bytes → Bytes
section_line section = b'[' ∷ (section ++ codes "]")

abbrev pub value_line : Bytes → Bytes → Bytes
value_line key value = key ++ (codes " = \"" ++ (value ++ codes "\""))

pub NameByte-newline : (c : ℕ) → IsNameByte c → (c == b'\n') ≡ false
NameByte-newline c (h, q, n, e) = unfold is_space in ground arith

NameByte-space : (c : ℕ) → IsNameByte c → is_space c ≡ false
NameByte-space c h = h.0

NameByte-bracket : (c : ℕ) → IsNameByte c → IsOpen c
NameByte-bracket c h = (h.1, h.2)

NameByte-eq : (c : ℕ) → IsNameByte c → (c == b'=') ≡ false
NameByte-eq c h = h.3

trim-name : (a : ℕ) (w : Bytes) → All IsNameByte (a ∷ w) → trim (a ∷ w) ≡ a ∷ w
trim-name a w h =
    ap (λ t. trim (a ∷ t)) (sym (append-nil w))
    ∙ trim-word [] a w [] tt tt (All-imp NameByte-space (a ∷ w) h)

abbrev pub reading : Bytes → ℕ → Outcome Config → Reading
reading section n o = record { section = section; line_no = n; outcome = o }

section_line-clean :
    (s : Bytes) → All IsNameByte s → trim (remove_comment (section_line s)) ≡ section_line s
section_line-clean s h =
    ap trim (remove_comment-open (b'[' ∷ s) ((refl, refl), All-imp NameByte-bracket s h))
    ∙ trim-ends b'[' b']' s [] (unfold is_space in refl) (unfold is_space in refl) tt

pub read_line-section :
    (before : Bytes) (n : ℕ) (c : Config) (s : Bytes)
    → IsName s
    → read_line (reading before n (ok_status, c)) (section_line s)
      ≡ reading s (n + 1) (ok_status, c)
unfolding read_line
read_line-section before n c [] h = absurd (omega arith)
read_line-section before n c (a ∷ w) (_, h) = rw (section_line-clean (a ∷ w) h) (
    unfold read_clean is_section in
    rw ((front-back b'[' (a ∷ w) b']').1, between-ends b'[' (a ∷ w) b']', trim-name a w h) refl)

module _ (a : ℕ) (w v : Bytes) where
  value_line-at_quote : value_line (a ∷ w) v ≡ ((a ∷ w) ++ codes " = ") ++ b'"' ∷ (v ++ codes "\"")
  value_line-at_quote = sym (append_assoc (a ∷ w) (codes " = ") (b'"' ∷ (v ++ codes "\"")))

  value_line-ends : value_line (a ∷ w) v ≡ a ∷ ((w ++ (codes " = \"" ++ v)) ++ codes "\"")
  value_line-ends = ap (λ t. a ∷ t) (sym (append_assoc w (codes " = \"" ++ v) (codes "\"")))

  value_line-at_eq :
      value_line (a ∷ w) v ≡ ((a ∷ w) ++ codes " ") ++ b'=' ∷ (codes " \"" ++ (v ++ codes "\""))
  value_line-at_eq =
      sym (append_assoc (a ∷ w) (codes " ") (b'=' ∷ (codes " \"" ++ (v ++ codes "\""))))

  value_line-clean :
      All IsNameByte (a ∷ w)
      → All IsTextByte v
      → trim (remove_comment (value_line (a ∷ w) v)) ≡ value_line (a ∷ w) v
  value_line-clean h hv =
      ap (λ t. trim (remove_comment t)) value_line-at_quote
      ∙ ap trim (
          remove_comment-quoted ((a ∷ w) ++ codes " = ") v
            (All-append IsOpen (a ∷ w) (codes " = ") (All-imp NameByte-bracket (a ∷ w) h)
              ((refl, refl), ((refl, refl), ((refl, refl), tt))))
            (All-imp (λ c t. t.0) v hv)
          ∙ sym value_line-at_quote
          ∙ value_line-ends)
      ∙ trim-ends a b'"' (w ++ (codes " = \"" ++ v)) [] h.0.0 (unfold is_space in refl) tt
      ∙ sym value_line-ends

  find-value_line :
      All IsNameByte (a ∷ w)
      → find_byte b'=' (value_line (a ∷ w) v) ≡ some (length ((a ∷ w) ++ codes " "))
  find-value_line h =
      ap (find_byte b'=') value_line-at_eq
      ∙ find_byte-append b'=' ((a ∷ w) ++ codes " ") (codes " \"" ++ (v ++ codes "\"")) (
          All-append (λ c. (c == b'=') ≡ false) (a ∷ w) (codes " ") (All-imp NameByte-eq (a ∷ w) h)
            (refl, tt))

  key-value_line :
      All IsNameByte (a ∷ w)
      → trim (take (length ((a ∷ w) ++ codes " ")) (value_line (a ∷ w) v)) ≡ a ∷ w
  key-value_line h =
      ap (λ t. trim (take (length ((a ∷ w) ++ codes " ")) t)) value_line-at_eq
      ∙ ap trim
          (take-append ((a ∷ w) ++ codes " ") (b'=' ∷ (codes " \"" ++ (v ++ codes "\""))) _ refl)
      ∙ trim-word [] a w (codes " ") tt ((unfold is_space in refl), tt)
          (All-imp NameByte-space (a ∷ w) h)

  value-value_line :
      strip_quotes (drop (length ((a ∷ w) ++ codes " ") + 1) (value_line (a ∷ w) v)) ≡ v
  value-value_line =
      ap (λ t. strip_quotes (drop (length ((a ∷ w) ++ codes " ") + 1) t))
        (value_line-at_eq
          ∙ sym
              (append_assoc ((a ∷ w) ++ codes " ") (codes "=") (codes " \"" ++ (v ++ codes "\""))))
      ∙ ap strip_quotes (
          drop-append (((a ∷ w) ++ codes " ") ++ codes "=") (codes " \"" ++ (v ++ codes "\""))
            (length ((a ∷ w) ++ codes " ") + 1)
            (omega (arith, length-append ((a ∷ w) ++ codes " ") (codes "="))))
      ∙ strip_quotes-quoted v

value_line-no_section : (a : ℕ) (w v : Bytes) → is_section (value_line (a ∷ w) v) ≡ false
unfolding is_section
value_line-no_section a w v =
    let last : back (value_line (a ∷ w) v) ≡ b'"' =
      ap back (value_line-ends a w v) ∙ (front-back a (w ++ (codes " = \"" ++ v)) b'"').1 in
    rw last (elim (a == b'[') as (λ b. (b && false) ≡ false) [ true ↦ refl | false ↦ refl ])

pub read_line-value :
    (section : Bytes) (n : ℕ) (c : Config) (key v : Bytes)
    → IsName key
    → All IsTextByte v
    → read_line (reading section n (ok_status, c)) (value_line key v)
      ≡ reading section (n + 1) (explain (numbered (n + 1)) (apply_kv c (qualified section key) v))
unfolding read_line
read_line-value section n c [] v h hv = absurd (omega arith)
read_line-value section n c (a ∷ w) v (_, h) hv = rw (value_line-clean a w v h hv) (
    unfold read_clean in
    rw (value_line-no_section a w v, find-value_line a w v h)
      (unfold pair_line in rw (key-value_line a w v h, value-value_line a w v) refl))
