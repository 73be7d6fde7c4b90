-- ===== src/Examples/Configs.antt =====
-- The theorems on the configuration loader at concrete inputs.
use velox_db.Prelude.{
  ◌++◌, Bytes, codes, List, [], ◌∷◌, Option, none, some, if◌then◌else◌, bytes_eq, ◌≡◌, refl, arith,
}
use velox_db.Util.Text.{is_space}
use velox_db.Config.Types.{default_config}
use velox_db.Config.Values.{find_byte, invalid}
use velox_db.Config.Apply.{apply_kv}
use velox_db.Config.Apply.Valid.{Applies, apply_kv-Applies}
use velox_db.Config.Loader.{load_file, apply_env, and_then}
use velox_db.Config.Loader.RoundTrip.{Setting, file_of, apply_settings, load_file-file_of}
use velox_db.Config.Args.{load, repaired, result_of, is_help, starts_with}
use velox_db.Config.Args.Valid.{default-IsTyped, IsLoaded, load-IsLoaded}
use velox_db.Config.Args.Options.{cli_of, apply_pairs, load-cli_of}

abbrev one_file : Bytes → Bytes → Bytes → Option Bytes
one_file path content p = if bytes_eq p path then some content else none

abbrev env_port : Bytes → Option Bytes
env_port name = if bytes_eq name (codes "VELOXDB_PORT") then some (codes "80") else none

abbrev nothing : Bytes → Option Bytes
nothing name = none

abbrev zero_workers : List Bytes
zero_workers = codes "--port=80" ∷ codes "--workers" ∷ codes "0" ∷ []

load-IsLoaded_example : IsLoaded (load nothing env_port zero_workers)
load-IsLoaded_example = load-IsLoaded nothing env_port zero_workers

abbrev two_settings : List Setting
two_settings =
    record { section = codes "server"; key = codes "host"; value = codes "a#b" }
    ∷ record { section = codes "expiration"; key = codes "interval_ms"; value = codes "5" }
    ∷ []

load_file-file_of_example :
    load_file (one_file (codes "v.toml") (file_of two_settings)) default_config (codes "v.toml")
    ≡ apply_settings 0 two_settings default_config
load_file-file_of_example =
    load_file-file_of (one_file (codes "v.toml") (file_of two_settings)) (codes "v.toml")
      two_settings default_config (unfold is_space in ground arith) (unfold bytes_eq in refl)

abbrev host_and_workers : List (Bytes × Bytes)
host_and_workers = (codes "host", codes "h") ∷ (codes "workers", codes "0") ∷ []

load-cli_of_example :
    load nothing env_port (cli_of host_and_workers)
    ≡ result_of
        (repaired (and_then (apply_env env_port default_config) (apply_pairs host_and_workers)))
load-cli_of_example =
    load-cli_of nothing env_port host_and_workers
      (unfold find_byte is_help bytes_eq starts_with in ground arith)

apply_kv-Applies_example :
    Applies default_config
      (codes "server.prot")
      (apply_kv default_config (codes "server.prot") (codes "65536"))
apply_kv-Applies_example =
    apply_kv-Applies default_config (codes "server.prot") (codes "65536") default-IsTyped
