-- ===== src/Config/Args/Valid.antt =====
-- What `ConfigLoader::load` of src/config/config.cpp hands to the program.
use velox_db.Prelude.{
  ◌≤◌, true, Option, none, some, List, [], ◌∷◌, Bytes, Bool-cases, inl, inr, ◌≡◌, refl, arith,
}
use velox_db.Util.Status.{is_ok, ok_status}
use velox_db.Config.Types.{Config, default_config}
use velox_db.Config.Values.{Outcome}
use velox_db.Config.Apply.{apply_kv, is_policy}
use velox_db.Config.Apply.Valid.{IsTyped, apply_kv-Assigns}
use velox_db.Config.Loader.{and_then, apply_env}
use velox_db.Config.Loader.Keeps.{and_then-keeps, load_file-keeps, apply_env-keeps}
use velox_db.Config.Args.{
  aliases, find_alias, apply_alias, apply_cli_pair, Scan, help, path_missing, config_path, scan,
  Shape, config_pair, config_inline, positional, inline_pair, wants_value, shape, apply_last,
  apply_arg, apply_args, at_least_one, repair, ConfigLoadResult, from_file, sources, repaired,
  scanned, load,
}

module _ (P : Config → Type 0)
    (keep : (c : Config) (key value : Bytes) → P c → P (apply_kv c key value).1) where
  apply_cli_pair-keeps : (c : Config) (name value : Bytes) → P c → P (apply_cli_pair c name value).1
  unfolding apply_cli_pair
  apply_cli_pair-keeps c name value h =
      elim (find_alias name aliases) as (λ key. P (apply_alias c name value key).1) [
        | none ↦ unfold apply_alias in h
        | some key ↦ unfold apply_alias in keep c key value h
      ]

  apply_arg-keeps :
      (arg : Bytes) (s : Shape) (next : Bytes) (with_next behind : Config → Outcome Config)
      → ((c : Config) → P c → P (with_next c).1)
      → ((c : Config) → P c → P (behind c).1)
      → (c : Config) → P c
      → P (apply_arg arg s next with_next behind c).1
  unfolding apply_arg
  apply_arg-keeps arg config_pair next f g kf kg c h = kg c h
  apply_arg-keeps arg config_inline next f g kf kg c h = kf c h
  apply_arg-keeps arg positional next f g kf kg c h = h
  apply_arg-keeps arg (inline_pair name value) next f g kf kg c h =
      and_then-keeps P (apply_cli_pair c name value) f (apply_cli_pair-keeps c name value h) kf
  apply_arg-keeps arg (wants_value name) next f g kf kg c h =
      and_then-keeps P (apply_cli_pair c name next) g (apply_cli_pair-keeps c name next h) kg

  apply_args-keeps : (args : List Bytes) (c : Config) → P c → P (apply_args args c).1
  unfolding apply_args
  apply_args-keeps [] c h = h
  apply_args-keeps (arg ∷ []) c h = elim (shape arg) as (λ s. P (apply_last c arg s).1) [
    | config_pair ↦ unfold apply_last in h
    | config_inline ↦ unfold apply_last in h
    | positional ↦ unfold apply_last in h
    | inline_pair name value ↦ unfold apply_last in apply_cli_pair-keeps c name value h
    | wants_value name ↦ unfold apply_last in h
  ]
  apply_args-keeps (arg ∷ next ∷ rest) c h =
      apply_arg-keeps arg (shape arg) next (apply_args (next ∷ rest)) (apply_args rest)
        (apply_args-keeps (next ∷ rest)) (apply_args-keeps rest) c h

  from_file-keeps :
      (files : Bytes → Option Bytes) (path : Bytes) (c : Config)
      → P c
      → P (from_file files path c).1
  unfolding from_file
  from_file-keeps files [] c h = h
  from_file-keeps files (b ∷ path) c h = load_file-keeps P keep files c (b ∷ path) h

  sources-keeps :
      (files env : Bytes → Option Bytes) (args : List Bytes) (path : Bytes)
      → P default_config
      → P (sources files env args path).1
  unfolding sources
  sources-keeps files env args path h =
      and_then-keeps P (from_file files path default_config)
        (λ c. and_then (apply_env env c) (apply_args args))
        (from_file-keeps files path default_config h)
        λ c hc.
          and_then-keeps P (apply_env env c) (apply_args args) (apply_env-keeps P keep env c hc)
            (apply_args-keeps args)

abbrev pub IsUsable : Config → Type 0
IsUsable c = (1 ≤ c.server.workers) × (1 ≤ c.storage.shards) × (1 ≤ c.expiration.interval_ms)

repair-IsUsable : (c : Config) → IsUsable (repair c)
unfolding repair at_least_one
repair-IsUsable c = ground arith

repair-IsTyped : (c : Config) → IsTyped c → IsTyped (repair c)
unfolding repair at_least_one
repair-IsTyped c h = ground arith

repaired-IsTyped : (o : Outcome Config) → IsTyped o.1 → IsTyped (repaired o).1
unfolding repaired
repaired-IsTyped o h = and_then-keeps IsTyped o (λ c. (ok_status, repair c)) h repair-IsTyped

repaired-IsUsable : (o : Outcome Config) → is_ok (repaired o).0 ≡ true → IsUsable (repaired o).1
unfolding repaired
repaired-IsUsable o h = elim (Bool-cases (is_ok o.0)) [
  | inl e ↦ rw e (repair-IsUsable o.1)
  | inr e ↦ absurd (cc)
]

-- What the program starts with.
abbrev pub IsLoaded : ConfigLoadResult → Type 0
IsLoaded r = IsTyped r.config × (is_ok r.status ≡ true → IsUsable r.config)

pub default-IsTyped : IsTyped default_config
unfolding is_policy
default-IsTyped = (
  omega arith,
  omega arith,
  omega arith,
  omega arith,
  omega arith,
  refl,
  omega arith,
  omega arith,
  omega arith,
  omega arith,
  omega arith,
  omega arith,
  omega arith,
)

scanned-IsLoaded :
    (files env : Bytes → Option Bytes) (args : List Bytes) (s : Scan)
    → IsLoaded (scanned files env args s)
unfolding scanned
scanned-IsLoaded files env args help =
    (default-IsTyped, λ _. (omega arith, omega arith, omega arith))
scanned-IsLoaded files env args path_missing = (default-IsTyped, λ e. cc)
scanned-IsLoaded files env args (config_path path) = (
  repaired-IsTyped (sources files env args path) (
      sources-keeps IsTyped (λ c key value. (apply_kv-Assigns c key value).typed) files env args
        path default-IsTyped),
  repaired-IsUsable (sources files env args path),
)

-- Whatever the files, the environment and the arguments: the configuration that load returns has
-- every number within the type of its field, and when the status is ok it has at least one worker
-- and one shard, and an expiration interval of at least 1.
pub load-IsLoaded :
    (files env : Bytes → Option Bytes) (args : List Bytes) → IsLoaded (load files env args)
unfolding load
load-IsLoaded files env args = scanned-IsLoaded files env args (scan [] args)
