-- ===== src/Commands/Registry.antt =====
-- src/commands/command_registry.cpp and `register_default_commands` of src/commands/commands.cpp.
pub mod Each
use velox_db.Prelude.{
  ℕ, Bytes, codes, List, [], ◌∷◌, ◌++◌, Option, none, some, Bool, true, false, ◌||◌, ◌&&◌,
  if◌then◌else◌, bytes_eq, ltb, ◌==◌, pos, negsuc,
}
use velox_db.Util.Text.{to_upper_ascii}
use velox_db.Resp.Encode.{error}
use velox_db.Commands.Context.{Handler, reply}
use velox_db.Commands.Strings.{
  ping, echo, get, set, del, exists, mget, mset, incr_decr, append, strlen_cmd,
}
use velox_db.Commands.Keys.{expire_impl, pexpireat, ttl_impl, persist_cmd, dbsize, flushdb}
use velox_db.Commands.Admin.{
  info, config_cmd, Checkpoints, save, bgsave, bgrewriteaof, shutdown, command_cmd,
}

-- `commands_`: the list stands for a map, so its order is not seen.
abbrev pub CommandRegistry : Type 0
CommandRegistry = List (Bytes × Handler)

unfoldable pub put_command : Bytes → Handler → CommandRegistry → CommandRegistry
unfolding bytes_eq
put_command name command [] = (name, command) ∷ []
put_command name command ((n, c) ∷ reg) =
    let rest = put_command name command reg in
    if bytes_eq name n then (n, command) ∷ reg else (n, c) ∷ rest

unfoldable pub register_command : Bytes → Handler → CommandRegistry → CommandRegistry
unfolding put_command to_upper_ascii
register_command name command reg = put_command (to_upper_ascii name) command reg

unfoldable pub find_command : Bytes → CommandRegistry → Option Handler
unfolding bytes_eq
find_command name [] = none
find_command name ((n, c) ∷ reg) =
    let rest = find_command name reg in if bytes_eq name n then some c else rest

unfoldable pub run_found : Bytes → Option Handler → Handler
unfolding error
run_found name none call ctx args =
    (reply (error (codes "unknown command '" ++ (name ++ codes "'"))), ctx)
run_found name (some command) call ctx args = command call ctx args

unfoldable pub execute : CommandRegistry → Handler
unfolding run_found find_command to_upper_ascii error
execute reg call ctx [] = (reply (error (codes "empty command")), ctx)
execute reg call ctx (name ∷ args) =
    run_found name (find_command (to_upper_ascii name) reg) call ctx (name ∷ args)

-- `operator<` on strings.
text_lt : Bytes → Bytes → Bool
text_lt s [] = false
text_lt [] (d ∷ t) = true
text_lt (c ∷ s) (d ∷ t) = ltb c d || ((c == d) && text_lt s t)

insert_name : Bytes → List Bytes → List Bytes
unfolding text_lt
insert_name a [] = a ∷ []
insert_name a (b ∷ bs) = let rest = insert_name a bs in if text_lt b a then b ∷ rest else a ∷ b ∷ bs

-- The names in order, as `std::sort` leaves them.
unfoldable pub command_names : CommandRegistry → List Bytes
unfolding insert_name
command_names [] = []
command_names ((n, c) ∷ reg) = insert_name n (command_names reg)

-- Registrations in turn.
unfoldable pub register_all : List (Bytes × Handler) → CommandRegistry → CommandRegistry
unfolding register_command
register_all [] reg = reg
register_all ((name, command) ∷ cs) reg = register_all cs (register_command name command reg)

module _ (hash : Bytes → ℕ) (points : Checkpoints) where
  -- The registrations of `register_default_commands` up to that of COMMAND.
  abbrev pub other_commands : List (Bytes × Handler)
  other_commands =
      (codes "PING", ping)
      ∷ (codes "ECHO", echo)
      ∷ (codes "GET", get hash)
      ∷ (codes "SET", set hash)
      ∷ (codes "DEL", del hash)
      ∷ (codes "EXISTS", exists hash)
      ∷ (codes "MGET", mget hash)
      ∷ (codes "MSET", mset hash)
      ∷ (codes "INCR", incr_decr hash (pos 1))
      ∷ (codes "DECR", incr_decr hash (negsuc 0))
      ∷ (codes "APPEND", append hash)
      ∷ (codes "STRLEN", strlen_cmd hash)
      ∷ (codes "EXPIRE", expire_impl hash 1000 (codes "EXPIRE"))
      ∷ (codes "PEXPIRE", expire_impl hash 1 (codes "PEXPIRE"))
      ∷ (codes "PEXPIREAT", pexpireat hash)
      ∷ (codes "TTL", ttl_impl hash false)
      ∷ (codes "PTTL", ttl_impl hash true)
      ∷ (codes "PERSIST", persist_cmd hash)
      ∷ (codes "DBSIZE", dbsize)
      ∷ (codes "FLUSHDB", flushdb)
      ∷ (codes "INFO", info)
      ∷ (codes "CONFIG", config_cmd)
      ∷ (codes "SAVE", save points)
      ∷ (codes "BGSAVE", bgsave)
      ∷ (codes "BGREWRITEAOF", bgrewriteaof points)
      ∷ (codes "SHUTDOWN", shutdown)
      ∷ []

  -- COMMAND reads the registry that it stands in: its names are those of the others and its own.
  unfoldable pub default_commands : CommandRegistry
  unfolding register_all register_command command_names insert_name
  default_commands =
      let others = register_all other_commands [] in
      register_command (codes "COMMAND")
        (command_cmd (insert_name (codes "COMMAND") (command_names others))) others
