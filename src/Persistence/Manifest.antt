-- ===== src/Persistence/Manifest.antt =====
-- The manifest of a snapshot in src/persistence/snapshot.cpp: the text that `write_manifest` puts
-- together and what `read_manifest` makes of a text.
pub mod RoundTrip
use velox_db.Prelude.{
  ℕ, ◌+◌, ℤ, Bytes, codes, List, [], ◌∷◌, ◌++◌, Option, none, some, take, drop, length, ◌==◌,
  if◌then◌else◌, bytes_eq,
}
use velox_db.Util.Text.{trim}
use velox_db.Util.Parse.{parse_u64, parse_i64}
use velox_db.Util.Decimal.{to_string, to_string_i64}
use velox_db.Config.Values.{find_byte}
use velox_db.Config.Loader.{lines}

pub record Manifest : Type 0 where
  pub snapshot_path : Bytes
  pub aof_path : Bytes
  pub aof_offset : ℕ
  pub created_unix_ms : ℤ

-- The names and values of a manifest. `normalize` is `lexically_normal` of `std::filesystem`.
abbrev pub manifest_values : (normalize : Bytes → Bytes) → Manifest → List (Bytes × Bytes)
manifest_values normalize m =
    (codes "format_version", codes "1")
    ∷ (codes "snapshot_path", normalize m.snapshot_path)
    ∷ (codes "aof_path", normalize m.aof_path)
    ∷ (codes "aof_offset", to_string m.aof_offset)
    ∷ (codes "created_unix_ms", to_string_i64 m.created_unix_ms)
    ∷ []

abbrev pub value_line : Bytes → Bytes → Bytes
value_line name value = name ++ b'=' ∷ value

unfoldable pub manifest_lines : List (Bytes × Bytes) → Bytes
manifest_lines [] = []
manifest_lines ((name, value) ∷ vs) = value_line name value ++ b'\n' ∷ manifest_lines vs

abbrev pub manifest_text : (normalize : Bytes → Bytes) → Manifest → Bytes
manifest_text normalize m = manifest_lines (manifest_values normalize m)

-- The value of a line with `=`, in front of those of the lines behind it.
valued : Bytes → Option ℕ → List (Bytes × Bytes) → List (Bytes × Bytes)
unfolding trim
valued line none rest = rest
valued line (some eq) rest = (trim (take eq line), trim (drop (eq + 1) line)) ∷ rest

clean_line : Bytes → List (Bytes × Bytes) → List (Bytes × Bytes)
unfolding valued find_byte
clean_line [] rest = rest
clean_line (c ∷ line) rest =
    if c == b'#' then rest else valued (c ∷ line) (find_byte b'=' (c ∷ line)) rest

unfoldable pub values_of : List Bytes → List (Bytes × Bytes)
unfolding clean_line trim
values_of [] = []
values_of (line ∷ ls) = clean_line (trim line) (values_of ls)

-- `emplace` keeps the first value of a name, which is the one that `find_value` finds.
unfoldable pub parse_manifest_lines : Bytes → List (Bytes × Bytes)
unfolding values_of lines
parse_manifest_lines content = values_of (lines content)

unfoldable pub find_value : Bytes → List (Bytes × Bytes) → Option Bytes
find_value name [] = none
find_value name ((n, value) ∷ vs) = if bytes_eq n name then some value else find_value name vs

abbrev pub present : {A : Type 0} → Option Bytes → (Bytes → Option A) → Option A
present none next = none
present (some v) next = next v

numbers_of : Bytes → Bytes → Option ℕ → Option ℤ → Option Manifest
numbers_of snapshot_path aof_path (some offset) (some created) = some (record {
  snapshot_path = snapshot_path;
  aof_path = aof_path;
  aof_offset = offset;
  created_unix_ms = created;
})
numbers_of snapshot_path aof_path none created = none
numbers_of snapshot_path aof_path (some offset) none = none

unfoldable pub manifest_of : List (Bytes × Bytes) → Option Manifest
unfolding find_value numbers_of parse_u64 parse_i64
manifest_of vs = present (find_value (codes "format_version") vs) λ version.
    if bytes_eq version (codes "1")
    then present (find_value (codes "snapshot_path") vs) (λ snapshot_path.
      present (find_value (codes "aof_path") vs) (λ aof_path.
        present (find_value (codes "aof_offset") vs) (λ offset.
          present (find_value (codes "created_unix_ms") vs)
            (λ created. numbers_of snapshot_path aof_path (parse_u64 offset) (parse_i64 created)))))
    else none
