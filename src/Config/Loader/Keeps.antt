-- ===== src/Config/Loader/Keeps.antt =====
-- A predicate on configurations that `apply_kv` keeps is kept by the file and by the environment
-- (`load_file` and `apply_env` of src/config/config.cpp), also where they fail half way.
use velox_db.Prelude.{
  ℕ, Option, none, some, List, [], ◌∷◌, Bytes, Bool-cases, inl, inr, take, drop, ◌+◌,
}
use velox_db.Util.Status.{is_ok}
use velox_db.Util.Text.{trim}
use velox_db.Config.Types.{Config}
use velox_db.Config.Values.{Outcome, find_byte, strip_quotes, remove_comment}
use velox_db.Config.Apply.{apply_kv}
use velox_db.Config.Loader.{
  lines, and_then, explain, pair_line, read_clean, is_section, Reading, read_line, read_lines,
  at_top, opened, load_file, env_entries, apply_value, apply_entries, apply_env, qualified,
  numbered,
}

module _ (P : Config → Type 0) where
  pub and_then-keeps :
      (o : Outcome Config) (next : Config → Outcome Config)
      → P o.1
      → ((c : Config) → P c → P (next c).1)
      → P (and_then o next).1
  and_then-keeps o next h k = elim (Bool-cases (is_ok o.0)) [
    | inl e ↦ rw e (k o.1 h)
    | inr e ↦ rw e h
  ]

  explain-keeps : (place : Bytes) (o : Outcome Config) → P o.1 → P (explain place o).1
  explain-keeps place o h = elim (Bool-cases (is_ok o.0)) [ inl e ↦ rw e h | inr e ↦ rw e h ]

  module _ (keep : (c : Config) (key value : Bytes) → P c → P (apply_kv c key value).1) where
    pair_line-keeps :
        (section : Bytes) (n : ℕ) (line : Bytes) (c : Config) (eq : Option ℕ)
        → P c
        → P (pair_line section n line c eq).1
    unfolding pair_line
    pair_line-keeps section n line c none h = h
    pair_line-keeps section n line c (some eq) h =
        let key : Bytes = qualified section (trim (take eq line)) in
        let value : Bytes = strip_quotes (drop (eq + 1) line) in
        explain-keeps (numbered n) (apply_kv c key value) (keep c key value h)

    read_clean-keeps :
        (section : Bytes) (n : ℕ) (line : Bytes) (c : Config)
        → P c
        → P (read_clean section n line c).outcome.1
    unfolding read_clean
    read_clean-keeps section n [] c h = h
    read_clean-keeps section n (a ∷ line) c h = elim (Bool-cases (is_section (a ∷ line))) [
      | inl e ↦ rw e h
      | inr e ↦ rw e (pair_line-keeps section n (a ∷ line) c (find_byte b'=' (a ∷ line)) h)
    ]

    read_line-keeps : (r : Reading) (line : Bytes) → P r.outcome.1 → P (read_line r line).outcome.1
    unfolding read_line
    read_line-keeps r line h = elim (Bool-cases (is_ok r.outcome.0)) [
      | inl e ↦
          rw e
            (read_clean-keeps r.section (r.line_no + 1) (trim (remove_comment line)) r.outcome.1 h)
      | inr e ↦ rw e h
    ]

    read_lines-keeps :
        (r : Reading) (ls : List Bytes) → P r.outcome.1 → P (read_lines r ls).outcome.1
    unfolding read_lines
    read_lines-keeps r [] h = h
    read_lines-keeps r (l ∷ ls) h = read_lines-keeps (read_line r l) ls (read_line-keeps r l h)

    pub load_file-keeps :
        (files : Bytes → Option Bytes) (c : Config) (path : Bytes)
        → P c
        → P (load_file files c path).1
    unfolding load_file
    load_file-keeps files c path h = elim (files path) as (λ content. P (opened c path content).1) [
      | none ↦ unfold opened in h
      | some content ↦ unfold opened in read_lines-keeps (at_top c) (lines content) h
    ]

    apply_entries-keeps :
        (env : Bytes → Option Bytes) (es : List (Bytes × Bytes)) (c : Config)
        → P c
        → P (apply_entries env es c).1
    unfolding apply_entries
    apply_entries-keeps env [] c h = h
    apply_entries-keeps env ((name, key) ∷ es) c h =
        and_then-keeps (apply_value name key c (env name)) (apply_entries env es)
          (elim (env name) as (λ value. P (apply_value name key c value).1) [
            | none ↦ unfold apply_value in h
            | some value ↦
                unfold apply_value in explain-keeps name (apply_kv c key value) (keep c key value h)
          ])
          (apply_entries-keeps env es)

    pub apply_env-keeps : (env : Bytes → Option Bytes) (c : Config) → P c → P (apply_env env c).1
    unfolding apply_env
    apply_env-keeps env = apply_entries-keeps env env_entries
