-- ===== src/Config/Apply/Valid.antt =====
-- What `apply_kv` of src/config/config.cpp keeps: the ranges of the fields, and everything where it
-- fails.
use velox_db.Prelude.{
  List, [], ◌∷◌, All, ℕ, ◌≤◌, Bool, true, false, Option, none, some, Bytes, ◌++◌, codes,
  if◌then◌else◌, bytes_eq, ◌||◌, Bool-cases, ◌⊎◌, inl, inr, ◌≡◌, refl, ap, ◌∙◌, arith,
}
use velox_db.Util.Status.{Status, ok_status, is_ok}
use velox_db.Util.Parse.{parse_u64}
use velox_db.Util.Parse.Bounds.{parse_u64-le}
use velox_db.Util.Text.{to_lower_ascii}
use velox_db.Config.Types.{Config}
use velox_db.Config.Values.{Outcome, invalid, max_u16, strip_quotes}
use velox_db.Config.Values.Bounds.{
  Fails, max_size, Sets, set_u16-Sets, set_size-Sets, set_bytes-Sets, set_bool-unchanged,
}
use velox_db.Config.Apply.{
  apply_kv, apply_clean, apply_later, with_persistence, set_policy, set_interval, put, is_policy,
  with_server, with_storage, with_expiration, with_protocol,
}

-- The ranges of the C++ types, and one of the three policies.
abbrev pub IsTyped : Config → Type 0
IsTyped c =
    (c.server.port ≤ max_u16)
    × (c.server.workers ≤ max_size)
    × (c.server.max_clients ≤ max_size)
    × (c.storage.shards ≤ max_size)
    × (c.storage.max_memory_bytes ≤ max_size)
    × (is_policy c.persistence.fsync_policy ≡ true)
    × (c.expiration.interval_ms ≤ max_size)
    × (c.expiration.sample_per_shard ≤ max_size)
    × (c.protocol.max_request_bytes ≤ max_size)
    × (c.protocol.max_array_elements ≤ max_size)
    × (c.protocol.max_key_size ≤ max_size)
    × (c.protocol.max_value_size ≤ max_size)
    × (c.protocol.max_output_buffer_bytes ≤ max_size)

-- What a call on `c` has done.
pub record Assigns (c : Config) (o : Outcome Config) : Type 0 where
  pub unchanged : Fails o → o.1 ≡ c
  pub typed : IsTyped c → IsTyped o.1

key-Assigns :
    {c : Config} {x y : Outcome Config} (key name : Bytes)
    → Assigns c x
    → Assigns c y
    → Assigns c (if bytes_eq key name then x else y)
key-Assigns {c} {x} {y} key name hx hy =
    elim (bytes_eq key name) as (λ b. Assigns c (if b then x else y)) [ true ↦ hx | false ↦ hy ]

fail-Assigns : (c : Config) (m : Bytes) → Assigns c (invalid m, c)
fail-Assigns c m = record { unchanged = λ _. refl; typed = λ h. h }

set_policy-Assigns : (c : Config) (v : Bytes) → Assigns c (set_policy c v)
unfolding set_policy
set_policy-Assigns c v = record { unchanged = ground arith; typed = ground arith }

set_interval-Assigns :
    (c : Config) (n : Option ℕ)
    → ((a : ℕ) → n ≡ some a → a ≤ max_size)
    → Assigns c (set_interval c n)
unfolding set_interval
set_interval-Assigns c none h = fail-Assigns c (codes "invalid interval")
set_interval-Assigns c (some n) h =
    let p : n ≤ max_size = h n refl in record { unchanged = λ e. cc; typed = ground arith }

put-Assigns :
    {c : Config} {bound old : ℕ} {o : Outcome ℕ} (around : ℕ → Config)
    → Sets bound old o
    → around old ≡ c
    → (IsTyped c → old ≤ bound)
    → (IsTyped c → (n : ℕ) → n ≤ bound → IsTyped (around n))
    → Assigns c (put around o)
put-Assigns around h e hold new = record {
  unchanged = λ f. ap around (h.0 f) ∙ e;
  typed = λ t. new t _ (h.1 (hold t));
}

put_bool-Assigns :
    {c : Config} {old : Bool} {o : Outcome Bool} (around : Bool → Config)
    → (Fails o → o.1 ≡ old)
    → around old ≡ c
    → (IsTyped c → (b : Bool) → IsTyped (around b))
    → Assigns c (put around o)
put_bool-Assigns around h e new = record {
  unchanged = λ f. ap around (h f) ∙ e;
  typed = λ t. new t _;
}

keeps-Assigns :
    {c d : Config} (s : Status) → is_ok s ≡ true → (IsTyped c → IsTyped d) → Assigns c (s, d)
keeps-Assigns s ok typed = record { unchanged = λ e. cc; typed = typed }

apply_later-Assigns : (c : Config) (key v : Bytes) → Assigns c (apply_later c key v)
unfolding apply_later
apply_later-Assigns c key v =
    key-Assigns key (codes "expiration.active_enabled")
      (put_bool-Assigns (λ b. with_expiration c (record c.expiration { active_enabled = b }))
        (set_bool-unchanged c.expiration.active_enabled v key) refl (λ h b. h))
      (key-Assigns key (codes "expiration.interval_ms")
        (set_interval-Assigns c (parse_u64 v) (λ a. parse_u64-le a v))
        (key-Assigns key (codes "expiration.sample_per_shard")
          (put-Assigns (λ n. with_expiration c (record c.expiration { sample_per_shard = n }))
            (set_size-Sets c.expiration.sample_per_shard v key) refl (λ h. h.7) (ground arith))
          (key-Assigns key (codes "logging.level")
            (keeps-Assigns {d = record c { logging_level = to_lower_ascii v }} ok_status refl
              (λ h. h))
            (key-Assigns key (codes "metrics.enabled")
              (put_bool-Assigns (λ b. record c { metrics_enabled = b })
                (set_bool-unchanged c.metrics_enabled v key) refl (λ h b. h))
              (key-Assigns key (codes "admin.shutdown_enabled")
                (put_bool-Assigns (λ b. record c { shutdown_enabled = b })
                  (set_bool-unchanged c.shutdown_enabled v key) refl (λ h b. h))
                (key-Assigns key (codes "protocol.max_request_bytes")
                  (put-Assigns (λ n. with_protocol c (record c.protocol { max_request_bytes = n }))
                    (set_bytes-Sets c.protocol.max_request_bytes v key) refl (λ h. h.8)
                    (ground arith))
                  (key-Assigns key (codes "protocol.max_array_elements")
                    (put-Assigns
                      (λ n. with_protocol c (record c.protocol { max_array_elements = n }))
                      (set_size-Sets c.protocol.max_array_elements v key) refl (λ h. h.9)
                      (ground arith))
                    (key-Assigns key (codes "protocol.max_key_size")
                      (put-Assigns (λ n. with_protocol c (record c.protocol { max_key_size = n }))
                        (set_bytes-Sets c.protocol.max_key_size v key) refl (λ h. h.10)
                        (ground arith))
                      (key-Assigns key (codes "protocol.max_value_size")
                        (put-Assigns
                          (λ n. with_protocol c (record c.protocol { max_value_size = n }))
                          (set_bytes-Sets c.protocol.max_value_size v key) refl (λ h. h.11)
                          (ground arith))
                        (key-Assigns key (codes "protocol.max_output_buffer_bytes")
                          (put-Assigns
                            (λ n.
                              with_protocol c (record c.protocol { max_output_buffer_bytes = n }))
                            (set_bytes-Sets c.protocol.max_output_buffer_bytes v key) refl
                            (λ h. h.12) (ground arith))
                          (fail-Assigns c (codes "unknown config key: " ++ key))))))))))))

apply_clean-Assigns : (c : Config) (key v : Bytes) → Assigns c (apply_clean c key v)
unfolding apply_clean
apply_clean-Assigns c key v =
    key-Assigns key (codes "server.host")
      (keeps-Assigns {d = with_server c (record c.server { host = v })} ok_status refl (λ h. h))
      (key-Assigns key (codes "server.port")
        (put-Assigns (λ n. with_server c (record c.server { port = n }))
          (set_u16-Sets c.server.port v key) refl (λ h. h.0) (ground arith))
        (key-Assigns key (codes "server.workers")
          (put-Assigns (λ n. with_server c (record c.server { workers = n }))
            (set_size-Sets c.server.workers v key) refl (λ h. h.1) (ground arith))
          (key-Assigns key (codes "server.max_clients")
            (put-Assigns (λ n. with_server c (record c.server { max_clients = n }))
              (set_size-Sets c.server.max_clients v key) refl (λ h. h.2) (ground arith))
            (key-Assigns key (codes "storage.shards")
              (put-Assigns (λ n. with_storage c (record c.storage { shards = n }))
                (set_size-Sets c.storage.shards v key) refl (λ h. h.3) (ground arith))
              (key-Assigns key (codes "storage.max_memory")
                (put-Assigns (λ n. with_storage c (record c.storage { max_memory_bytes = n }))
                  (set_bytes-Sets c.storage.max_memory_bytes v key) refl (λ h. h.4) (ground arith))
                (key-Assigns key (codes "storage.max_memory_bytes")
                  (put-Assigns (λ n. with_storage c (record c.storage { max_memory_bytes = n }))
                    (set_size-Sets c.storage.max_memory_bytes v key) refl (λ h. h.4) (ground arith))
                  (key-Assigns key (codes "persistence.aof_enabled")
                    (put_bool-Assigns
                      (λ b. with_persistence c (record c.persistence { aof_enabled = b }))
                      (set_bool-unchanged c.persistence.aof_enabled v key) refl (λ h b. h))
                    (key-Assigns key (codes "persistence.aof_path")
                      (keeps-Assigns
                        {d = with_persistence c (record c.persistence { aof_path = v })} ok_status
                        refl (λ h. h))
                      (key-Assigns key (codes "persistence.fsync_policy")
                        (set_policy-Assigns c (to_lower_ascii v))
                        (key-Assigns key (codes "persistence.snapshot_path")
                          (keeps-Assigns
                            {d = with_persistence c (record c.persistence { snapshot_path = v })}
                            ok_status refl (λ h. h))
                          (key-Assigns key (codes "persistence.manifest_path")
                            (keeps-Assigns
                              {d = with_persistence c (record c.persistence { manifest_path = v })}
                              ok_status refl (λ h. h))
                            (apply_later-Assigns c key v))))))))))))

-- The keys of a configuration.
abbrev config_keys : List Bytes
config_keys =
    codes "server.host"
    ∷ codes "server.port"
    ∷ codes "server.workers"
    ∷ codes "server.max_clients"
    ∷ codes "storage.shards"
    ∷ codes "storage.max_memory"
    ∷ codes "storage.max_memory_bytes"
    ∷ codes "persistence.aof_enabled"
    ∷ codes "persistence.aof_path"
    ∷ codes "persistence.fsync_policy"
    ∷ codes "persistence.snapshot_path"
    ∷ codes "persistence.manifest_path"
    ∷ codes "expiration.active_enabled"
    ∷ codes "expiration.interval_ms"
    ∷ codes "expiration.sample_per_shard"
    ∷ codes "logging.level"
    ∷ codes "metrics.enabled"
    ∷ codes "admin.shutdown_enabled"
    ∷ codes "protocol.max_request_bytes"
    ∷ codes "protocol.max_array_elements"
    ∷ codes "protocol.max_key_size"
    ∷ codes "protocol.max_value_size"
    ∷ codes "protocol.max_output_buffer_bytes"
    ∷ []

abbrev IsUnknown : Bytes → Type 0
IsUnknown key = All (λ name. bytes_eq key name ≡ false) config_keys

abbrev later_keys : List Bytes
later_keys =
    codes "expiration.active_enabled"
    ∷ codes "expiration.interval_ms"
    ∷ codes "expiration.sample_per_shard"
    ∷ codes "logging.level"
    ∷ codes "metrics.enabled"
    ∷ codes "admin.shutdown_enabled"
    ∷ codes "protocol.max_request_bytes"
    ∷ codes "protocol.max_array_elements"
    ∷ codes "protocol.max_key_size"
    ∷ codes "protocol.max_value_size"
    ∷ codes "protocol.max_output_buffer_bytes"
    ∷ []

apply_later-unknown :
    (c : Config) (key v : Bytes)
    → All (λ name. bytes_eq key name ≡ false) later_keys
    → apply_later c key v ≡ (invalid (codes "unknown config key: " ++ key), c)
unfolding apply_later
apply_later-unknown c key v (h0, (h1, (h2, (h3, (h4, (h5, (h6, (h7, (h8, (h9, (h10, _))))))))))) =
    rw (h0, h1, h2, h3, h4, h5, h6, h7, h8, h9, h10) refl

apply_kv-unknown :
    (c : Config) (key value : Bytes)
    → IsUnknown key
    → apply_kv c key value ≡ (invalid (codes "unknown config key: " ++ key), c)
unfolding apply_kv apply_clean
apply_kv-unknown c key value
      (h0, (h1, (h2, (h3, (h4, (h5, (h6, (h7, (h8, (h9, (h10, (h11, later)))))))))))) =
    rw (h0, h1, h2, h3, h4, h5, h6, h7, h8, h9, h10, h11)
      (apply_later-unknown c key (strip_quotes value) later)

pub apply_kv-Assigns : (c : Config) (key value : Bytes) → Assigns c (apply_kv c key value)
unfolding apply_kv
apply_kv-Assigns c key value = apply_clean-Assigns c key (strip_quotes value)

abbrev is_one_of : Bytes → List Bytes → Bool
is_one_of key [] = false
is_one_of key (name ∷ names) = bytes_eq key name || is_one_of key names

is_one_of-unknown :
    (key : Bytes) (names : List Bytes)
    → is_one_of key names ≡ false
    → All (λ name. bytes_eq key name ≡ false) names
is_one_of-unknown key [] h = tt
is_one_of-unknown key (name ∷ names) h = elim (Bool-cases (bytes_eq key name)) [
  | inl e ↦ absurd (true_false (rw e at h))
  | inr e ↦ (e, is_one_of-unknown key names (rw e at h))
]
  where
    true_false : true ≡ false → ⊥
    true_false e = cc

abbrev pub is_config_key : Bytes → Bool
is_config_key key = is_one_of key config_keys

-- The outcome of a setting on `c`: a configuration within the types of its fields; on a failure the
-- old one; and for a key that is none of the list the error that names it.
pub record Applies (c : Config) (key : Bytes) (o : Outcome Config) : Type 0 where
  pub typed : IsTyped o.1
  pub unchanged : (is_ok o.0 ≡ true) ⊎ (o.1 ≡ c)
  pub known :
      (is_config_key key ≡ true) ⊎ (o ≡ (invalid (codes "unknown config key: " ++ key), c))

-- x
pub apply_kv-Applies :
    (c : Config) (key value : Bytes) → IsTyped c → Applies c key (apply_kv c key value)
apply_kv-Applies c key value h =
    let a = apply_kv-Assigns c key value in
    record {
      typed = a.typed h;
      unchanged = elim (Bool-cases (is_ok (apply_kv c key value).0)) [
        | inl e ↦ inl e
        | inr e ↦ inr (a.unchanged e)
      ];
      known = elim (Bool-cases (is_config_key key)) [
        | inl e ↦ inl e
        | inr e ↦ inr (apply_kv-unknown c key value (is_one_of-unknown key config_keys e))
      ];
    }
