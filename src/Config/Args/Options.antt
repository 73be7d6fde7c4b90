-- ===== src/Config/Args/Options.antt =====
-- The command line of src/config/config.cpp as a list of options, each a name and a value.
use velox_db.Prelude.{
  ℕ, ◌≤◌, true, false, Option, none, some, List, [], ◌∷◌, ◌++◌, Bytes, codes, All, if◌then◌else◌,
  bytes_eq, le→ltb, Bool-cases, inl, inr, ◌≡◌, refl, ap, ◌∙◌,
}
use velox_db.Util.Status.{is_ok, ok_status}
use velox_db.Util.Parse.{parse_u64}
use velox_db.Config.Types.{Config, default_config}
use velox_db.Config.Values.{Outcome, find_byte, strip_quotes, set_u16, max_u16}
use velox_db.Config.Loader.{and_then, apply_env}
use velox_db.Config.Apply.{apply_kv}
use velox_db.Config.Args.{
  apply_cli_pair, find_alias, help, config_path, is_help, config_value, scan, starts_with,
  wants_value, shape, option_shape, apply_arg, apply_args, repair, result_of, from_file, sources,
  repaired, scanned, load,
}

-- The arguments `--name value` of each option.
abbrev pub cli_of : List (Bytes × Bytes) → List Bytes
cli_of [] = []
cli_of ((name, value) ∷ ps) = (codes "--" ++ name) ∷ value ∷ cli_of ps

-- The options in their order, up to the first that is refused.
abbrev pub apply_pairs : List (Bytes × Bytes) → Config → Outcome Config
apply_pairs [] c = (ok_status, c)
apply_pairs ((name, value) ∷ ps) c = and_then (apply_cli_pair c name value) (apply_pairs ps)

-- Neither of the two arguments that the first pass looks for.
abbrev pub IsPlain : Bytes → Type 0
IsPlain arg =
    (is_help arg ≡ false)
    × (bytes_eq arg (codes "--config") ≡ false)
    × (starts_with (codes "--config=") arg ≡ false)

abbrev pub IsOption : Bytes × Bytes → Type 0
IsOption (name, value) = (find_byte b'=' name ≡ none) × IsPlain (codes "--" ++ name) × IsPlain value

scan-step :
    (path arg : Bytes) (rest : List Bytes)
    → bytes_eq arg (codes "--config") ≡ false
    → scan path (arg ∷ rest) ≡ (if is_help arg then help else scan (config_value path arg) rest)
unfolding scan
scan-step path arg [] e = rw e refl
scan-step path arg (next ∷ rest) e = rw e refl

scan-plain :
    (path arg : Bytes) (rest : List Bytes) → IsPlain arg → scan path (arg ∷ rest) ≡ scan path rest
scan-plain path arg rest (h, p, q) =
    scan-step path arg rest p ∙ rw h (ap (λ s. scan s rest) (unfold config_value in rw q refl))

scan-cli_of : (ps : List (Bytes × Bytes)) → All IsOption ps → scan [] (cli_of ps) ≡ config_path []
scan-cli_of [] h = unfold scan in refl
scan-cli_of ((name, value) ∷ ps) (h, hs) =
    scan-plain [] (codes "--" ++ name) (value ∷ cli_of ps) h.1
    ∙ scan-plain [] value (cli_of ps) h.2
    ∙ scan-cli_of ps hs

shape-name :
    (name : Bytes)
    → find_byte b'=' name ≡ none
    → IsPlain (codes "--" ++ name)
    → shape (codes "--" ++ name) ≡ wants_value name
unfolding shape
shape-name name e (h, p, q) =
    rw (p, q) (unfold find_byte starts_with bytes_eq option_shape in rw e refl)

and_then-ext :
    (o : Outcome Config) (f g : Config → Outcome Config)
    → ((c : Config) → f c ≡ g c)
    → and_then o f ≡ and_then o g
and_then-ext o f g h = elim (Bool-cases (is_ok o.0)) [ inl e ↦ rw e (h o.1) | inr e ↦ rw e refl ]

apply_args-cli_of :
    (ps : List (Bytes × Bytes))
    → All IsOption ps
    → (c : Config) → apply_args (cli_of ps) c ≡ apply_pairs ps c
unfolding apply_args
apply_args-cli_of [] h c = refl
apply_args-cli_of ((name, value) ∷ ps) (h, hs) c = rw (shape-name name h.0 h.1) (
    unfold apply_arg in
    and_then-ext (apply_cli_pair c name value) (apply_args (cli_of ps)) (apply_pairs ps)
      (apply_args-cli_of ps hs))

-- Arguments that are options with values, none of them for help or a file: load applies the
-- environment to the defaults, then the options in order up to the first that is refused, and
-- repairs the result.
pub load-cli_of :
    (files env : Bytes → Option Bytes) (ps : List (Bytes × Bytes))
    → All IsOption ps
    → load files env (cli_of ps)
      ≡ result_of (repaired (and_then (apply_env env default_config) (apply_pairs ps)))
unfolding load
load-cli_of files env ps h = rw (scan-cli_of ps h) (
    unfold scanned sources from_file in
    ap (λ o. result_of (repaired o))
      (and_then-ext (apply_env env default_config) (apply_args (cli_of ps)) (apply_pairs ps)
        (apply_args-cli_of ps h)))

scan-help :
    (path : Bytes) (before after : List Bytes)
    → All (λ arg. bytes_eq arg (codes "--config") ≡ false) before
    → scan path (before ++ codes "--help" ∷ after) ≡ help
scan-help path [] after h =
    scan-step path (codes "--help") after (unfold bytes_eq in refl) ∙ (unfold is_help in refl)
scan-help path (arg ∷ before) after (h, hs) =
    scan-step path arg (before ++ codes "--help" ∷ after) h ∙ elim (Bool-cases (is_help arg)) [
      | inl e ↦ rw e refl
      | inr e ↦ rw e (scan-help (config_value path arg) before after hs)
    ]

-- The argument --help, even where it stands as the value of another option, gives the help and the
-- default configuration, if no argument before it is --config.
pub load-help :
    (files env : Bytes → Option Bytes) (before after : List Bytes)
    → All (λ arg. bytes_eq arg (codes "--config") ≡ false) before
    → load files env (before ++ codes "--help" ∷ after)
      ≡ record { config = default_config; status = ok_status; show_help = true }
unfolding load
load-help files env before after h = rw (scan-help [] before after h) (unfold scanned in refl)

and_then-ok :
    (o : Outcome Config) (f : Config → Outcome Config)
    → is_ok (and_then o f).0 ≡ true
    → (is_ok (f o.1).0 ≡ true) × (and_then o f ≡ f o.1)
and_then-ok o f h = elim (Bool-cases (is_ok o.0)) [ inl e ↦ (cc, rw e refl) | inr e ↦ absurd (cc) ]

repaired-ok :
    (o : Outcome Config)
    → is_ok (repaired o).0 ≡ true
    → (is_ok o.0 ≡ true) × ((repaired o).1.server.port ≡ o.1.server.port)
unfolding repaired repair
repaired-ok o h = elim (Bool-cases (is_ok o.0)) [ inl e ↦ (e, rw e refl) | inr e ↦ absurd (cc) ]

abbrev pub port_option : Bytes → Bytes × Bytes
port_option value = (codes "port", value)

apply_cli_pair-port :
    (c : Config) (value : Bytes) (n : ℕ)
    → parse_u64 (strip_quotes value) ≡ some n
    → n ≤ max_u16
    → (apply_cli_pair c (codes "port") value).1.server.port ≡ n
unfolding apply_cli_pair apply_kv find_alias bytes_eq set_u16
apply_cli_pair-port c value n e h = rw (e, le→ltb max_u16 n h) refl

apply_pairs-port :
    (ps : List (Bytes × Bytes)) (value : Bytes) (n : ℕ)
    → parse_u64 (strip_quotes value) ≡ some n
    → n ≤ max_u16
    → (c : Config) → is_ok (apply_pairs (ps ++ port_option value ∷ []) c).0 ≡ true
    → (apply_pairs (ps ++ port_option value ∷ []) c).1.server.port ≡ n
apply_pairs-port [] value n e h c ok =
    elim (Bool-cases (is_ok (apply_cli_pair c (codes "port") value).0)) [
      | inl good ↦ rw good (apply_cli_pair-port c value n e h)
      | inr bad ↦ rw bad (apply_cli_pair-port c value n e h)
    ]
apply_pairs-port ((name, v) ∷ ps) value n e h c ok =
    let done =
      and_then-ok (apply_cli_pair c name v) (apply_pairs (ps ++ port_option value ∷ [])) ok in
    rw done.1 (apply_pairs-port ps value n e h (apply_cli_pair c name v).1 done.0)

-- When load succeeds on options with values, the last of which is for the port and reads as a
-- number of 16 bits, the port is that number, whatever the files, the environment and the options
-- before it.
pub load-port :
    (files env : Bytes → Option Bytes) (ps : List (Bytes × Bytes)) (value : Bytes) (n : ℕ)
    → All IsOption (ps ++ port_option value ∷ [])
    → parse_u64 (strip_quotes value) ≡ some n
    → n ≤ max_u16
    → let r = load files env (cli_of (ps ++ port_option value ∷ [])) in
      is_ok r.status ≡ true → r.config.server.port ≡ n
load-port files env ps value n hs e h =
    rw (load-cli_of files env (ps ++ port_option value ∷ []) hs) λ good.
      let last = apply_pairs (ps ++ port_option value ∷ []) in
      let done = repaired-ok (and_then (apply_env env default_config) last) good in
      let args = and_then-ok (apply_env env default_config) last done.0 in
      rw (done.1, args.1) (apply_pairs-port ps value n e h (apply_env env default_config).1 args.0)
