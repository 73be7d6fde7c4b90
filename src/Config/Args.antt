-- ===== src/Config/Args.antt =====
-- The command line of src/config/config.cpp and `ConfigLoader::load`, which puts the sources
-- together. The arguments are those behind the program's name.
pub mod Valid
pub mod Options
use velox_db.Prelude.{
  ℕ, zero, suc, ◌+◌, ◌-◌, Bool, true, false, not, ◌&&◌, ◌||◌, Option, none, some, List, [], ◌∷◌,
  ◌++◌, Bytes, codes, length, take, drop, leb, ◌==◌, if◌then◌else◌, bytes_eq, ◌≡◌, refl,
}
use velox_db.Util.Status.{Code, Status, ok_status, fail_with, is_ok}
use velox_db.Config.Types.{Config, default_config}
use velox_db.Config.Values.{Outcome, invalid, find_byte}
use velox_db.Config.Apply.{apply_kv}
use velox_db.Config.Loader.{and_then, load_file, apply_env}

abbrev pub aliases : List (Bytes × Bytes)
aliases =
    (codes "host", codes "server.host")
    ∷ (codes "port", codes "server.port")
    ∷ (codes "workers", codes "server.workers")
    ∷ (codes "max-clients", codes "server.max_clients")
    ∷ (codes "storage-shards", codes "storage.shards")
    ∷ (codes "max-memory", codes "storage.max_memory")
    ∷ (codes "aof-enabled", codes "persistence.aof_enabled")
    ∷ (codes "aof-path", codes "persistence.aof_path")
    ∷ (codes "fsync-policy", codes "persistence.fsync_policy")
    ∷ (codes "snapshot-path", codes "persistence.snapshot_path")
    ∷ (codes "manifest-path", codes "persistence.manifest_path")
    ∷ (codes "log-level", codes "logging.level")
    ∷ (codes "shutdown-enabled", codes "admin.shutdown_enabled")
    ∷ (codes "max-request-bytes", codes "protocol.max_request_bytes")
    ∷ (codes "max-key-size", codes "protocol.max_key_size")
    ∷ (codes "max-value-size", codes "protocol.max_value_size")
    ∷ (codes "max-output-buffer-bytes", codes "protocol.max_output_buffer_bytes")
    ∷ (codes "expiration-interval-ms", codes "expiration.interval_ms")
    ∷ (codes "expiration-active", codes "expiration.active_enabled")
    ∷ []

unfoldable pub find_alias : Bytes → List (Bytes × Bytes) → Option Bytes
unfolding bytes_eq
find_alias name [] = none
find_alias name ((short, key) ∷ es) = if bytes_eq name short then some key else find_alias name es

apply_alias : Config → Bytes → Bytes → Option Bytes → Outcome Config
unfolding apply_kv
apply_alias c name value none = (invalid (codes "unknown option --" ++ name), c)
apply_alias c name value (some key) = apply_kv c key value

unfoldable pub apply_cli_pair : Config → Bytes → Bytes → Outcome Config
unfolding find_alias apply_alias
apply_cli_pair c name value = apply_alias c name value (find_alias name aliases)

-- `arg.rfind(prefix, 0) == 0`.
unfoldable pub starts_with : Bytes → Bytes → Bool
unfolding bytes_eq
starts_with prefix arg = bytes_eq (take (length prefix) arg) prefix

-- What the first pass over the arguments finds.
pub data Scan : Type 0 where
  help : Scan
  path_missing : Scan
  config_path : Bytes → Scan

unfoldable pub is_help : Bytes → Bool
unfolding bytes_eq
is_help arg = bytes_eq arg (codes "--help") || bytes_eq arg (codes "-h")

config_value : Bytes → Bytes → Bytes
unfolding starts_with
config_value path arg = if starts_with (codes "--config=") arg then drop 9 arg else path

unfoldable pub scan : Bytes → List Bytes → Scan
unfolding is_help config_value bytes_eq
scan path [] = config_path path
scan path (arg ∷ []) =
    if is_help arg
    then help
    else if bytes_eq arg (codes "--config")
    then path_missing
    else config_path (config_value path arg)
scan path (arg ∷ next ∷ rest) =
    let with_path = scan next rest in
    let without = scan (config_value path arg) (next ∷ rest) in
    if is_help arg then help else if bytes_eq arg (codes "--config") then with_path else without

-- What the second pass does with an argument: its text tells whether the next one is its value.
pub data Shape : Type 0 where
  config_pair config_inline positional : Shape
  inline_pair : Bytes → Bytes → Shape
  wants_value : Bytes → Shape

option_shape : Bytes → Option ℕ → Shape
option_shape arg none = wants_value (drop 2 arg)
option_shape arg (some eq) = inline_pair (take (eq - 2) (drop 2 arg)) (drop (eq + 1) arg)

unfoldable pub shape : Bytes → Shape
unfolding option_shape starts_with bytes_eq find_byte
shape arg =
    if bytes_eq arg (codes "--config")
    then config_pair
    else if starts_with (codes "--config=") arg
    then config_inline
    else if not (starts_with (codes "--") arg)
    then positional
    else option_shape arg (find_byte b'=' arg)

unexpected : Bytes → Status
unexpected arg = invalid (codes "unexpected positional argument: " ++ arg)

value_missing : Bytes → Status
value_missing name = invalid (codes "--" ++ name ++ codes " requires a value")

-- The last argument, which has no value behind it.
apply_last : Config → Bytes → Shape → Outcome Config
unfolding unexpected value_missing apply_cli_pair
apply_last c arg config_pair = (ok_status, c)
apply_last c arg config_inline = (ok_status, c)
apply_last c arg positional = (unexpected arg, c)
apply_last c arg (inline_pair name value) = apply_cli_pair c name value
apply_last c arg (wants_value name) = (value_missing name, c)

-- An argument with another behind it: the loop goes on with the next one, or behind it.
apply_arg :
    Bytes
    → Shape
    → Bytes
    → (Config → Outcome Config)
    → (Config → Outcome Config)
    → Config
    → Outcome Config
unfolding unexpected apply_cli_pair
apply_arg arg config_pair next with_next behind c = behind c
apply_arg arg config_inline next with_next behind c = with_next c
apply_arg arg positional next with_next behind c = (unexpected arg, c)
apply_arg arg (inline_pair name value) next with_next behind c =
    and_then (apply_cli_pair c name value) with_next
apply_arg arg (wants_value name) next with_next behind c =
    and_then (apply_cli_pair c name next) behind

unfoldable pub apply_args : List Bytes → Config → Outcome Config
unfolding shape apply_last apply_arg
apply_args [] c = (ok_status, c)
apply_args (arg ∷ []) c = apply_last c arg (shape arg)
apply_args (arg ∷ next ∷ rest) c =
    apply_arg arg (shape arg) next (apply_args (next ∷ rest)) (apply_args rest) c

pub at_least_one : ℕ → ℕ
at_least_one n = if n == 0 then 1 else n

unfoldable pub repair : Config → Config
unfolding at_least_one
repair c = record c {
  server = record c.server { workers = at_least_one c.server.workers };
  storage = record c.storage { shards = at_least_one c.storage.shards };
  expiration = record c.expiration { interval_ms = at_least_one c.expiration.interval_ms };
}

pub record ConfigLoadResult : Type 0 where
  pub config : Config
  pub status : Status
  pub show_help : Bool

abbrev pub result_of : Outcome Config → ConfigLoadResult
result_of (status, c) = record { config = c; status = status; show_help = false }

from_file : (Bytes → Option Bytes) → Bytes → Config → Outcome Config
unfolding load_file
from_file files [] c = (ok_status, c)
from_file files (b ∷ path) c = load_file files c (b ∷ path)

-- The three sources in their order, each applied to what the one before it left.
unfoldable pub sources :
    (Bytes → Option Bytes) → (Bytes → Option Bytes) → List Bytes → Bytes → Outcome Config
unfolding from_file apply_env apply_args
sources files env args path =
    and_then (from_file files path default_config) λ c. and_then (apply_env env c) (apply_args args)

pub repaired : Outcome Config → Outcome Config
unfolding repair
repaired o = and_then o (λ c. (ok_status, repair c))

scanned : (Bytes → Option Bytes) → (Bytes → Option Bytes) → List Bytes → Scan → ConfigLoadResult
unfolding sources repaired
scanned files env args help = record {
  config = default_config;
  status = ok_status;
  show_help = true;
}
scanned files env args path_missing =
    result_of (invalid (codes "--config requires a path"), default_config)
scanned files env args (config_path path) = result_of (repaired (sources files env args path))

-- `ConfigLoader::load`. Its help text is a constant of the source.
unfoldable pub load :
    (Bytes → Option Bytes) → (Bytes → Option Bytes) → List Bytes → ConfigLoadResult
unfolding scanned scan
load files env args = scanned files env args (scan [] args)
