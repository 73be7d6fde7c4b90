-- ===== src/Persistence/Manifest/RoundTrip.antt =====
-- A manifest that was written, read back by the parser of src/persistence/snapshot.cpp.
use velox_db.Prelude.{
  ℕ, ◌+◌, ◌<◌, ◌≤◌, ◌==◌, ℤ, IsI64, Bytes, codes, List, [], ◌∷◌, ◌++◌, some, Bool, not, ◌&&◌, true,
  false, take, drop, length, length-append, take-append, drop-append, bytes_eq, All, All-imp,
  All-append, append_assoc, ◌≡◌, refl, sym, ap, ◌∙◌, arith,
}
use velox_db.Util.Text.{is_space, trim}
use velox_db.Util.Text.Trim.{IsWord, trim-IsWord}
use velox_db.Util.Decimal.{max_u64, to_string, to_string_i64}
use velox_db.Util.Decimal.RoundTrip.{lt-length-to_string}
use velox_db.Util.Parse.{parse_u64, parse_i64}
use velox_db.Util.Parse.Prints.{
  to_string-IsWord, to_string_i64-IsWord, lt-length-to_string_i64, parse_u64-to_string,
  parse_i64-to_string_i64,
}
use velox_db.Config.Values.Texts.{find_byte-append}
use velox_db.Config.Loader.{lines}
use velox_db.Config.Loader.RoundTrip.{lines-line}
use velox_db.Persistence.Manifest.{
  Manifest, manifest_values, value_line, manifest_lines, manifest_text, valued, clean_line,
  values_of, parse_manifest_lines, find_value, numbers_of, manifest_of,
}

-- A byte of a name, which is no space, no `#` and no `=`.
abbrev IsNameByte : ℕ → Type 0
IsNameByte c = (is_space c ≡ false) × ((c == b'#') ≡ false) × ((c == b'=') ≡ false)

abbrev IsLine : Bytes × Bytes → Type 0
IsLine (name, value) = (0 < length name) × All IsNameByte name × (0 < length value) × IsWord value

space-newline : (c : ℕ) → is_space c ≡ false → (c == b'\n') ≡ false
unfolding is_space
space-newline c h = ground arith

NameByte-space : (c : ℕ) → IsNameByte c → is_space c ≡ false
NameByte-space c h = h.0

NameByte-eq : (c : ℕ) → IsNameByte c → (c == b'=') ≡ false
NameByte-eq c h = h.2

value_line-IsWord :
    (name value : Bytes) → All IsNameByte name → IsWord value → IsWord (value_line name value)
value_line-IsWord name value hn hv =
    All-append (λ c. is_space c ≡ false) name (b'=' ∷ value) (All-imp NameByte-space name hn)
      ((unfold is_space in refl), hv)

valued-some :
    (line : Bytes) (eq : ℕ) (rest : List (Bytes × Bytes))
    → valued line (some eq) rest ≡ (trim (take eq line), trim (drop (eq + 1) line)) ∷ rest
unfolding valued
valued-some line eq rest = refl

clean_line-value_line :
    (a : ℕ) (name value : Bytes) (rest : List (Bytes × Bytes))
    → All IsNameByte (a ∷ name)
    → 0 < length value
    → IsWord value
    → clean_line (value_line (a ∷ name) value) rest ≡ (a ∷ name, value) ∷ rest
unfolding clean_line
clean_line-value_line a name value rest h l hv =
    let at_eq = find_byte-append b'=' (a ∷ name) value (All-imp NameByte-eq (a ∷ name) h) in
    let split = append_assoc (a ∷ name) (codes "=") value in
    let behind : drop (length (a ∷ name) + 1) (value_line (a ∷ name) value) ≡ value =
      ap (drop (length (a ∷ name) + 1)) (sym split)
      ∙ drop-append ((a ∷ name) ++ codes "=") value (length (a ∷ name) + 1)
          (omega (arith, length-append (a ∷ name) (codes "="))) in
    let front = take-append (a ∷ name) (b'=' ∷ value) (length (a ∷ name)) refl in
    rw (h.0.1, at_eq)
      (valued-some (value_line (a ∷ name) value) (length (a ∷ name)) rest
        ∙ ap
            (λ t.
              (trim t, trim (drop (length (a ∷ name) + 1) (value_line (a ∷ name) value))) ∷ rest)
            front
        ∙ ap (λ t. (trim (a ∷ name), trim t) ∷ rest) behind
        ∙ ap (λ t. (t, trim value) ∷ rest)
            (trim-IsWord (a ∷ name) (omega arith) (All-imp NameByte-space (a ∷ name) h))
        ∙ ap (λ t. (a ∷ name, t) ∷ rest) (trim-IsWord value l hv))

parse_manifest_lines-manifest_lines :
    (vs : List (Bytes × Bytes)) → All IsLine vs → parse_manifest_lines (manifest_lines vs) ≡ vs
unfolding parse_manifest_lines manifest_lines
parse_manifest_lines-manifest_lines [] h = unfold lines values_of in refl
parse_manifest_lines-manifest_lines (([], value) ∷ vs) (h, hs) = absurd (let l = h.0 in omega arith)
parse_manifest_lines-manifest_lines ((a ∷ name, value) ∷ vs) (h, hs) =
    let word = value_line-IsWord (a ∷ name) value h.1 h.3 in
    ap values_of (
      lines-line (value_line (a ∷ name) value) (manifest_lines vs)
        (All-imp space-newline (value_line (a ∷ name) value) word))
    ∙ (unfold values_of in
        ap (λ t. clean_line t (values_of (lines (manifest_lines vs))))
          (trim-IsWord (value_line (a ∷ name) value) (omega arith) word)
        ∙ clean_line-value_line a name value (values_of (lines (manifest_lines vs))) h.1 h.2 h.3
        ∙ ap (λ r. (a ∷ name, value) ∷ r) (parse_manifest_lines-manifest_lines vs hs))

all_names : Bytes → Bool
all_names [] = true
all_names (c ∷ s) = not (is_space c) && not (c == b'#') && not (c == b'=') && all_names s

all_names-All : (s : Bytes) → all_names s ≡ true → All IsNameByte s
unfolding all_names
all_names-All [] h = tt
all_names-All (c ∷ s) h =
    let first : (is_space c ≡ false)
        × ((c == b'#') ≡ false)
        × ((c == b'=') ≡ false)
        × (all_names s ≡ true) =
      ground arith in
    ((first.0, first.1, first.2), all_names-All s first.3)

-- The paths of a manifest as they are written down.
abbrev pub normalized : (normalize : Bytes → Bytes) → Manifest → Manifest
normalized normalize m = record m {
  snapshot_path = normalize m.snapshot_path;
  aof_path = normalize m.aof_path;
}

abbrev pub IsPath : Bytes → Type 0
IsPath path = (0 < length path) × IsWord path

numbers_of-some :
    (snapshot_path aof_path : Bytes) (offset : ℕ) (created : ℤ)
    → numbers_of snapshot_path aof_path (some offset) (some created)
      ≡ some (record {
        snapshot_path = snapshot_path;
        aof_path = aof_path;
        aof_offset = offset;
        created_unix_ms = created;
      })
unfolding numbers_of
numbers_of-some snapshot_path aof_path offset created = refl

module _ (normalize : Bytes → Bytes) (m : Manifest) where
  manifest_of-manifest_values :
      manifest_of (manifest_values normalize m)
      ≡ numbers_of
          (normalize m.snapshot_path)
          (normalize m.aof_path)
          (parse_u64 (to_string m.aof_offset))
          (parse_i64 (to_string_i64 m.created_unix_ms))
  unfolding manifest_of find_value bytes_eq
  manifest_of-manifest_values = refl

  -- A manifest that was written is read back with its paths normalized, its offset and its time,
  -- where the normalized paths are not empty and hold no white space, and the numbers are of size_t
  -- and int64_t.
  pub manifest_of-manifest_text :
      IsPath (normalize m.snapshot_path)
      → IsPath (normalize m.aof_path)
      → m.aof_offset ≤ max_u64
      → IsI64 m.created_unix_ms
      → manifest_of (parse_manifest_lines (manifest_text normalize m))
        ≡ some (normalized normalize m)
  manifest_of-manifest_text hs ha ho hc =
      let read : parse_manifest_lines (manifest_text normalize m) ≡ manifest_values normalize m =
        parse_manifest_lines-manifest_lines (manifest_values normalize m) (
          unfold all_names is_space in
          (
            (
              omega arith,
              all_names-All (codes "format_version") refl,
              omega arith,
              ((unfold is_space in refl), tt),
            ),
            (
              (omega arith, all_names-All (codes "snapshot_path") refl, hs.0, hs.1),
              (
                (omega arith, all_names-All (codes "aof_path") refl, ha.0, ha.1),
                (
                  (
                    omega arith,
                    all_names-All (codes "aof_offset") refl,
                    lt-length-to_string m.aof_offset,
                    to_string-IsWord m.aof_offset,
                  ),
                  (
                    (
                      omega arith,
                      all_names-All (codes "created_unix_ms") refl,
                      lt-length-to_string_i64 m.created_unix_ms,
                      to_string_i64-IsWord m.created_unix_ms,
                    ),
                    tt,
                  ),
                ),
              ),
            ),
          )) in
      ap manifest_of read
      ∙ manifest_of-manifest_values
      ∙ ap
          (λ o.
            numbers_of (normalize m.snapshot_path) (normalize m.aof_path) o
              (parse_i64 (to_string_i64 m.created_unix_ms)))
          (parse_u64-to_string m.aof_offset ho)
      ∙ ap (numbers_of (normalize m.snapshot_path) (normalize m.aof_path) (some m.aof_offset))
          (parse_i64-to_string_i64 m.created_unix_ms hc)
      ∙ numbers_of-some (normalize m.snapshot_path) (normalize m.aof_path) m.aof_offset
          m.created_unix_ms
