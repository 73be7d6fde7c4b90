-- ===== src/Config/Loader.antt =====
-- The loader of src/config/config.cpp: the file, the environment, the command line, in this order,
-- and the repairs at the end. The file system is a function from a path to a text, the environment
-- one from a name to a value; `none` is a file that does not open or a variable that is not set.
pub mod Keeps
pub mod Lines
pub mod RoundTrip
use velox_db.Prelude.{
  ℕ, zero, suc, ◌+◌, ◌-◌, Bool, true, false, not, ◌&&◌, ◌||◌, Option, none, some, List, [], ◌∷◌,
  ◌++◌, Bytes, codes, length, take, drop, ◌==◌, if◌then◌else◌, bytes_eq, ◌≡◌, refl,
}
use velox_db.Util.Status.{Code, Status, ok_status, fail_with, is_ok}
use velox_db.Util.Text.{trim}
use velox_db.Util.Decimal.{to_string}
use velox_db.Config.Types.{Config, default_config}
use velox_db.Config.Values.{Outcome, invalid, front, back, find_byte, strip_quotes, remove_comment}
use velox_db.Config.Apply.{apply_kv}

onto_line : ℕ → List Bytes → List Bytes
onto_line c [] = (c ∷ []) ∷ []
onto_line c (l ∷ ls) = (c ∷ l) ∷ ls

-- `std::getline` until it fails: a last line without a newline counts if it is not empty.
unfoldable pub lines : Bytes → List Bytes
unfolding onto_line
lines [] = []
lines (c ∷ s) = let rest = lines s in if c == b'\n' then [] ∷ rest else onto_line c rest

-- The next step runs where the status is ok.
abbrev pub and_then : {A : Type 0} → Outcome A → (A → Outcome A) → Outcome A
and_then (status, a) next = if is_ok status then next a else (status, a)

abbrev pub explain : {A : Type 0} → Bytes → Outcome A → Outcome A
explain place (status, a) =
    if is_ok status then (ok_status, a) else (invalid (place ++ codes ": " ++ status.message), a)

-- `section` and what the key says, as the key of `apply_kv`.
unfoldable pub qualified : Bytes → Bytes → Bytes
qualified [] key = key
qualified (c ∷ section) key = (c ∷ section) ++ codes "." ++ key

unfoldable pub numbered : ℕ → Bytes
numbered line_no = codes "config line " ++ to_string line_no

-- One line that is no comment, and the section that it leaves.
pair_line : Bytes → ℕ → Bytes → Config → Option ℕ → Outcome Config
unfolding qualified strip_quotes numbered apply_kv
pair_line section line_no line c none =
    (invalid (codes "invalid config line " ++ to_string line_no), c)
pair_line section line_no line c (some eq) =
    explain (numbered line_no)
      (apply_kv c (qualified section (trim (take eq line))) (strip_quotes (drop (eq + 1) line)))

is_section : Bytes → Bool
is_section line = front line == b'[' && back line == b']'

-- The state of the loop: the section, the number of lines read, the outcome so far.
pub record Reading : Type 0 where
  pub section : Bytes
  pub line_no : ℕ
  pub outcome : Outcome Config

read_clean : Bytes → ℕ → Bytes → Config → Reading
unfolding is_section pair_line trim
read_clean section line_no [] c = record {
  section = section;
  line_no = line_no;
  outcome = (ok_status, c);
}
read_clean section line_no (a ∷ line) c =
    if is_section (a ∷ line)
    then record {
      section = trim (take (length (a ∷ line) - 2) (drop 1 (a ∷ line)));
      line_no = line_no;
      outcome = (ok_status, c);
    }
    else record {
      section = section;
      line_no = line_no;
      outcome = pair_line section line_no (a ∷ line) c (find_byte b'=' (a ∷ line));
    }

-- A failed line returns, so the lines behind it are not looked at.
unfoldable pub read_line : Reading → Bytes → Reading
unfolding read_clean remove_comment trim
read_line r line =
    if is_ok r.outcome.0
    then read_clean r.section (r.line_no + 1) (trim (remove_comment line)) r.outcome.1
    else r

unfoldable pub read_lines : Reading → List Bytes → Reading
read_lines r [] = r
read_lines r (line ∷ ls) = read_lines (read_line r line) ls

abbrev pub at_top : Config → Reading
at_top c = record { section = []; line_no = 0; outcome = (ok_status, c) }

opened : Config → Bytes → Option Bytes → Outcome Config
unfolding read_lines lines
opened c path none = (fail_with Code.io_error (codes "failed to open config file: " ++ path), c)
opened c path (some content) = (read_lines (at_top c) (lines content)).outcome

unfoldable pub load_file : (Bytes → Option Bytes) → Config → Bytes → Outcome Config
unfolding opened
load_file files c path = opened c path (files path)

abbrev pub env_entries : List (Bytes × Bytes)
env_entries =
    (codes "VELOXDB_HOST", codes "server.host")
    ∷ (codes "VELOXDB_PORT", codes "server.port")
    ∷ (codes "VELOXDB_WORKERS", codes "server.workers")
    ∷ (codes "VELOXDB_MAX_CLIENTS", codes "server.max_clients")
    ∷ (codes "VELOXDB_STORAGE_SHARDS", codes "storage.shards")
    ∷ (codes "VELOXDB_MAX_MEMORY", codes "storage.max_memory")
    ∷ (codes "VELOXDB_AOF_ENABLED", codes "persistence.aof_enabled")
    ∷ (codes "VELOXDB_AOF_PATH", codes "persistence.aof_path")
    ∷ (codes "VELOXDB_FSYNC_POLICY", codes "persistence.fsync_policy")
    ∷ (codes "VELOXDB_SNAPSHOT_PATH", codes "persistence.snapshot_path")
    ∷ (codes "VELOXDB_MANIFEST_PATH", codes "persistence.manifest_path")
    ∷ (codes "VELOXDB_LOG_LEVEL", codes "logging.level")
    ∷ (codes "VELOXDB_SHUTDOWN_ENABLED", codes "admin.shutdown_enabled")
    ∷ (codes "VELOXDB_EXPIRATION_ACTIVE", codes "expiration.active_enabled")
    ∷ (codes "VELOXDB_EXPIRATION_INTERVAL_MS", codes "expiration.interval_ms")
    ∷ []

apply_value : Bytes → Bytes → Config → Option Bytes → Outcome Config
unfolding apply_kv
apply_value name key c none = (ok_status, c)
apply_value name key c (some value) = explain name (apply_kv c key value)

unfoldable pub apply_entries :
    (Bytes → Option Bytes) → List (Bytes × Bytes) → Config → Outcome Config
unfolding apply_value
apply_entries env [] c = (ok_status, c)
apply_entries env ((name, key) ∷ es) c =
    and_then (apply_value name key c (env name)) (apply_entries env es)

unfoldable pub apply_env : (Bytes → Option Bytes) → Config → Outcome Config
unfolding apply_entries
apply_env env c = apply_entries env env_entries c
