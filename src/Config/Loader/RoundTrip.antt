-- ===== src/Config/Loader/RoundTrip.antt =====
-- A configuration file that is written section by section, read back by `load_file` of
-- src/config/config.cpp.
use velox_db.Prelude.{
  ℕ, ◌+◌, ◌==◌, true, false, Option, some, List, [], ◌∷◌, ◌++◌, Bytes, codes, All, All-imp,
  All-append, Bool-cases, inl, inr, ◌≡◌, refl, ap, ◌∙◌, arith,
}
use velox_db.Util.Status.{is_ok, ok_status}
use velox_db.Config.Types.{Config}
use velox_db.Config.Values.{Outcome}
use velox_db.Config.Loader.Lines.{
  IsName, IsNameByte, IsTextByte, NameByte-newline, section_line, value_line, reading,
  read_line-section, read_line-value,
}
use velox_db.Config.Apply.{apply_kv}
use velox_db.Config.Loader.{
  lines, onto_line, and_then, explain, qualified, numbered, Reading, read_line, read_lines, opened,
  load_file,
}

pub record Setting : Type 0 where
  pub section : Bytes
  pub key : Bytes
  pub value : Bytes

abbrev pub IsWritable : Setting → Type 0
IsWritable e = IsName e.section × IsName e.key × All IsTextByte e.value

-- Two lines for each setting: its section, and the value in quotes.
abbrev pub file_of : List Setting → Bytes
file_of [] = []
file_of (e ∷ es) =
    section_line e.section ++ b'\n' ∷ (value_line e.key e.value ++ b'\n' ∷ file_of es)

-- The settings in their order, up to the first that is refused; `n` lines stand above them.
abbrev pub apply_settings : ℕ → List Setting → Config → Outcome Config
apply_settings n [] c = (ok_status, c)
apply_settings n (e ∷ es) c =
    and_then (explain (numbered (n + 2)) (apply_kv c (qualified e.section e.key) e.value))
      (apply_settings (n + 2) es)

pub lines-line :
    (line rest : Bytes)
    → All (λ c. (c == b'\n') ≡ false) line
    → lines (line ++ b'\n' ∷ rest) ≡ line ∷ lines rest
unfolding lines
lines-line [] rest h = refl
lines-line (c ∷ line) rest (h, hs) = rw (h, lines-line line rest hs) (unfold onto_line in refl)

TextByte-newline : (c : ℕ) → IsTextByte c → (c == b'\n') ≡ false
TextByte-newline c h = h.1

abbrev HasNoNewline : Bytes → Type 0
HasNoNewline = All (λ c. (c == b'\n') ≡ false)

section_line-HasNoNewline : (s : Bytes) → All IsNameByte s → HasNoNewline (section_line s)
section_line-HasNoNewline s h = (
  refl,
  All-append (λ c. (c == b'\n') ≡ false) s (codes "]") (All-imp NameByte-newline s h) (refl, tt),
)

value_line-HasNoNewline :
    (k v : Bytes) → All IsNameByte k → All IsTextByte v → HasNoNewline (value_line k v)
value_line-HasNoNewline k v hk hv =
    let end =
      All-append (λ c. (c == b'\n') ≡ false) v (codes "\"") (All-imp TextByte-newline v hv)
        (refl, tt) in
    All-append (λ c. (c == b'\n') ≡ false) k (codes " = \"" ++ (v ++ codes "\""))
      (All-imp NameByte-newline k hk) (refl, (refl, (refl, (refl, end))))

lines-file_of :
    (e : Setting) (es : List Setting)
    → IsWritable e
    → lines (file_of (e ∷ es))
      ≡ section_line e.section ∷ value_line e.key e.value ∷ lines (file_of es)
lines-file_of e es (hs, hk, hv) =
    lines-line (section_line e.section) (value_line e.key e.value ++ b'\n' ∷ file_of es)
      (section_line-HasNoNewline e.section hs.1)
    ∙ ap (λ ls. section_line e.section ∷ ls)
        (lines-line (value_line e.key e.value) (file_of es)
          (value_line-HasNoNewline e.key e.value hk.1 hv))

read_lines-stopped :
    (ls : List Bytes) (r : Reading) → is_ok r.outcome.0 ≡ false → read_lines r ls ≡ r
unfolding read_lines read_line
read_lines-stopped [] r h = refl
read_lines-stopped (l ∷ ls) r h = rw h (read_lines-stopped ls r h)

explain-ok :
    (place : Bytes) (o : Outcome Config)
    → is_ok (explain place o).0 ≡ true
    → explain place o ≡ (ok_status, (explain place o).1)
explain-ok place o h = elim (Bool-cases (is_ok o.0)) [ inl e ↦ rw e refl | inr e ↦ absurd (cc) ]

-- The lines behind a value, which are read if it was accepted.
settle :
    (es : List Setting) (section : Bytes) (n : ℕ) (o : Outcome Config)
    → (is_ok o.0 ≡ true → o ≡ (ok_status, o.1))
    → ((c : Config)
        → (read_lines (reading section (n + 2) (ok_status, c)) (lines (file_of es))).outcome
          ≡ apply_settings (n + 2) es c)
    → (read_lines (reading section (n + 2) o) (lines (file_of es))).outcome
      ≡ and_then o (apply_settings (n + 2) es)
settle es section n o ok rest = elim (Bool-cases (is_ok o.0)) [
  | inl good ↦ rw good (
      ap (λ p. (read_lines (reading section (n + 2) p) (lines (file_of es))).outcome) (ok good)
      ∙ rest o.1)
  | inr bad ↦ rw bad (
      ap (λ r. r.outcome) (read_lines-stopped (lines (file_of es)) (reading section (n + 2) o) bad))
]

read_lines-two :
    (r : Reading) (a b : Bytes) (ls : List Bytes)
    → read_lines r (a ∷ b ∷ ls) ≡ read_lines (read_line (read_line r a) b) ls
unfolding read_lines
read_lines-two r a b ls = refl

read_lines-file_of :
    (es : List Setting) (section : Bytes) (n : ℕ) (c : Config)
    → All IsWritable es
    → (read_lines (reading section n (ok_status, c)) (lines (file_of es))).outcome
      ≡ apply_settings n es c
read_lines-file_of [] section n c h = unfold lines read_lines in refl
read_lines-file_of (e ∷ es) section n c (h, hs) =
    let two : n + 1 + 1 ≡ n + 2 = omega arith in
    let o = explain (numbered (n + 2)) (apply_kv c (qualified e.section e.key) e.value) in
    rw
      (
        lines-file_of e es h,
        read_lines-two (reading section n (ok_status, c)),
        read_line-section section n c e.section h.0,
        read_line-value e.section (n + 1) c e.key e.value h.1 h.2,
        two,
      )
      (settle es e.section n o
        (explain-ok (numbered (n + 2)) (apply_kv c (qualified e.section e.key) e.value))
        (λ c'. read_lines-file_of es e.section (n + 2) c' hs))

-- A configuration file that was written from a list of settings, each as a line for its section and
-- a line for its key with its value in quotes, names and values being such that they can be written
-- so, loads as the settings applied in order up to the first that is refused, whose message names
-- its line.
pub load_file-file_of :
    (files : Bytes → Option Bytes) (path : Bytes) (es : List Setting) (c : Config)
    → All IsWritable es
    → files path ≡ some (file_of es)
    → load_file files c path ≡ apply_settings 0 es c
unfolding load_file
load_file-file_of files path es c h e = rw e (unfold opened in read_lines-file_of es [] 0 c h)
