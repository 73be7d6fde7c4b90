-- ===== src/Commands/Clients/Registered.antt =====
-- Whatever the default registry of src/commands/command_registry.cpp executes, no connection is
-- counted.
use velox_db.Prelude.{
  ℕ, Bytes, codes, List, [], ◌∷◌, Option, none, some, true, false, Bool-cases, inl, inr, bytes_eq,
  ltb, length, pos, negsuc, ◌≡◌, refl, arith,
}
use velox_db.Util.Text.{to_upper_ascii, to_lower_ascii}
use velox_db.Persistence.Aof.{Aof}
use velox_db.Commands.Context.{CommandContext, Call, Handler, ok}
use velox_db.Commands.Strings.{ping, echo}
use velox_db.Commands.Keys.{dbsize, flushdb}
use velox_db.Commands.Admin.{
  info, config_cmd, Checkpoints, save, rewritten, rewrite_in, config_set, config_set_metrics,
  config_get_args, config_set_args, bgsave, bgrewriteaof, shutdown, command_cmd,
}
use velox_db.Commands.Clients.{
  connected, KeepsClients, persist_or_ok-connected, get-connected, set-connected, del-connected,
  exists-connected, mget-connected, strlen_cmd-connected, mset-connected, incr_decr-connected,
  append-connected, expire_impl-connected, pexpireat-connected, ttl_impl-connected,
  persist_cmd-connected,
}
use velox_db.Commands.Registry.{run_found, find_command, execute, other_commands, default_commands}
use velox_db.Commands.Registry.Each.{Each, Found, find_command-Found, default_commands-Each}

ping-connected :
    (call : Call) (ctx : CommandContext) (args : List Bytes)
    → connected (ping call ctx args).1 ≡ connected ctx
unfolding ping
ping-connected call ctx args = ground arith

echo-connected :
    (call : Call) (ctx : CommandContext) (args : List Bytes)
    → connected (echo call ctx args).1 ≡ connected ctx
unfolding echo
echo-connected call ctx args = ground arith

dbsize-connected :
    (call : Call) (ctx : CommandContext) (args : List Bytes)
    → connected (dbsize call ctx args).1 ≡ connected ctx
unfolding dbsize
dbsize-connected call ctx args = ground arith

info-connected :
    (call : Call) (ctx : CommandContext) (args : List Bytes)
    → connected (info call ctx args).1 ≡ connected ctx
unfolding info
info-connected call ctx args = elim (Bool-cases (ltb 2 (length args))) [
  | inl e ↦ rw e refl
  | inr e ↦ rw e refl
]

bgsave-connected :
    (call : Call) (ctx : CommandContext) (args : List Bytes)
    → connected (bgsave call ctx args).1 ≡ connected ctx
unfolding bgsave
bgsave-connected call ctx args = ground arith

shutdown-connected :
    (call : Call) (ctx : CommandContext) (args : List Bytes)
    → connected (shutdown call ctx args).1 ≡ connected ctx
unfolding shutdown
shutdown-connected call ctx args = ground arith

flushdb-connected :
    (call : Call) (ctx : CommandContext) (args : List Bytes)
    → connected (flushdb call ctx args).1 ≡ connected ctx
unfolding flushdb
flushdb-connected call ctx [] = refl
flushdb-connected call ctx (name ∷ []) = persist_or_ok-connected call _ _ ok
flushdb-connected call ctx (name ∷ x ∷ xs) = refl

config_set-connected :
    (ctx : CommandContext) (key value : Bytes)
    → connected (config_set ctx key value).1 ≡ connected ctx
unfolding config_set config_set_metrics
config_set-connected ctx key value = ground arith

config_set_args-connected :
    (ctx : CommandContext) (args : List Bytes)
    → connected (config_set_args ctx args).1 ≡ connected ctx
unfolding config_set_args
config_set_args-connected ctx [] = refl
config_set_args-connected ctx (a ∷ []) = refl
config_set_args-connected ctx (a ∷ b ∷ []) = refl
config_set_args-connected ctx (a ∷ b ∷ key ∷ []) = refl
config_set_args-connected ctx (a ∷ b ∷ key ∷ value ∷ []) =
    config_set-connected ctx (to_lower_ascii key) value
config_set_args-connected ctx (a ∷ b ∷ key ∷ value ∷ x ∷ xs) = refl

config_get_args-connected :
    (ctx : CommandContext) (args : List Bytes)
    → connected (config_get_args ctx args).1 ≡ connected ctx
unfolding config_get_args
config_get_args-connected ctx args = ground arith

config_cmd-connected :
    (call : Call) (ctx : CommandContext) (args : List Bytes)
    → connected (config_cmd call ctx args).1 ≡ connected ctx
unfolding config_cmd
config_cmd-connected call ctx [] = refl
config_cmd-connected call ctx (name ∷ []) = refl
config_cmd-connected call ctx (name ∷ sub ∷ args) =
    elim (Bool-cases (bytes_eq (to_upper_ascii sub) (codes "GET"))) [
      | inl e ↦ rw e (config_get_args-connected ctx (name ∷ sub ∷ args))
      | inr e ↦ elim (Bool-cases (bytes_eq (to_upper_ascii sub) (codes "SET"))) [
        | inl f ↦ rw (e, f) (config_set_args-connected ctx (name ∷ sub ∷ args))
        | inr f ↦ rw (e, f) refl
      ]
    ]

command_cmd-connected :
    (names : List Bytes) (call : Call) (ctx : CommandContext) (args : List Bytes)
    → connected (command_cmd names call ctx args).1 ≡ connected ctx
unfolding command_cmd
command_cmd-connected names call ctx args = ground arith

module _ (points : Checkpoints) where
  save-connected :
      (call : Call) (ctx : CommandContext) (args : List Bytes)
      → connected (save points call ctx args).1 ≡ connected ctx
  unfolding save
  save-connected call ctx args = ground arith

  rewrite_in-connected :
      (call : Call) (ctx : CommandContext) (aof : Option Aof)
      → connected (rewrite_in points call ctx aof).1 ≡ connected ctx
  unfolding rewrite_in rewritten
  rewrite_in-connected call ctx aof = ground arith

  bgrewriteaof-connected :
      (call : Call) (ctx : CommandContext) (args : List Bytes)
      → connected (bgrewriteaof points call ctx args).1 ≡ connected ctx
  unfolding bgrewriteaof
  bgrewriteaof-connected call ctx [] = refl
  bgrewriteaof-connected call ctx (name ∷ []) = rewrite_in-connected call ctx ctx.aof
  bgrewriteaof-connected call ctx (name ∷ x ∷ xs) = refl

module _ (hash : Bytes → ℕ) (points : Checkpoints) where
  other_commands-Each : Each KeepsClients (other_commands hash points)
  other_commands-Each = (
    record { keeps = ping-connected },
    (
      record { keeps = echo-connected },
      (
        record { keeps = get-connected hash },
        (
          record { keeps = set-connected hash },
          (
            record { keeps = del-connected hash },
            (
              record { keeps = exists-connected hash },
              (
                record { keeps = mget-connected hash },
                (
                  record { keeps = mset-connected hash },
                  (
                    record { keeps = incr_decr-connected hash (pos 1) },
                    (
                      record { keeps = incr_decr-connected hash (negsuc 0) },
                      (
                        record { keeps = append-connected hash },
                        (
                          record { keeps = strlen_cmd-connected hash },
                          (
                            record { keeps = expire_impl-connected hash 1000 (codes "EXPIRE") },
                            (
                              record { keeps = expire_impl-connected hash 1 (codes "PEXPIRE") },
                              (
                                record { keeps = pexpireat-connected hash },
                                (
                                  record { keeps = ttl_impl-connected hash false },
                                  (
                                    record { keeps = ttl_impl-connected hash true },
                                    (
                                      record { keeps = persist_cmd-connected hash },
                                      (
                                        record { keeps = dbsize-connected },
                                        (
                                          record { keeps = flushdb-connected },
                                          (
                                            record { keeps = info-connected },
                                            (
                                              record { keeps = config_cmd-connected },
                                              (
                                                record { keeps = save-connected points },
                                                (
                                                  record { keeps = bgsave-connected },
                                                  (
                                                    record {
                                                      keeps = bgrewriteaof-connected points;
                                                    },
                                                    (record { keeps = shutdown-connected }, tt),
                                                  ),
                                                ),
                                              ),
                                            ),
                                          ),
                                        ),
                                      ),
                                    ),
                                  ),
                                ),
                              ),
                            ),
                          ),
                        ),
                      ),
                    ),
                  ),
                ),
              ),
            ),
          ),
        ),
      ),
    ),
  )

  default_commands-KeepsClients : Each KeepsClients (default_commands hash points)
  default_commands-KeepsClients =
      default_commands-Each KeepsClients hash points other_commands-Each
        (λ names. record { keeps = command_cmd-connected names })

  run_found-connected :
      (name : Bytes) (command : Option Handler)
      → Found KeepsClients command
      → (call : Call) (ctx : CommandContext) (args : List Bytes)
      → connected (run_found name command call ctx args).1 ≡ connected ctx
  unfolding run_found
  run_found-connected name none h call ctx args = refl
  run_found-connected name (some c) h call ctx args = h.keeps call ctx args

  -- Every request that the default registry executes keeps the counter of connected clients.
  pub execute-KeepsClients : KeepsClients (execute (default_commands hash points))
  unfolding execute
  execute-KeepsClients = record {
    keeps = λ call ctx args.
        elim args
          as (λ a.
            connected (execute (default_commands hash points) call ctx a).1 ≡ connected ctx) [
              | [] ↦ refl
              | name ∷ rest ↦
                  run_found-connected name
                    (find_command (to_upper_ascii name) (default_commands hash points))
                    (find_command-Found KeepsClients (to_upper_ascii name)
                      (default_commands hash points) default_commands-KeepsClients)
                    call ctx (name ∷ rest)
            ];
  }
