-- ===== src/Commands/Registry/Each.antt =====
-- A predicate that holds of each registered command holds of the command that is found.
use velox_db.Prelude.{
  ℕ, Bytes, codes, List, [], ◌∷◌, Option, none, some, Bool-cases, inl, inr, All, bytes_eq,
}
use velox_db.Util.Text.{to_upper_ascii}
use velox_db.Commands.Context.{Handler}
use velox_db.Commands.Admin.{Checkpoints, command_cmd}
use velox_db.Commands.Registry.{
  CommandRegistry, put_command, register_command, find_command, register_all, other_commands,
  default_commands,
}

module _ (P : Handler → Type 0) where
  abbrev pub Each : CommandRegistry → Type 0
  Each reg = All (λ e. P e.1) reg

  put_command-Each :
      (name : Bytes) (c : Handler) (reg : CommandRegistry)
      → P c
      → Each reg
      → Each (put_command name c reg)
  unfolding put_command
  put_command-Each name c [] h a = (h, tt)
  put_command-Each name c ((n, d) ∷ reg) h a = elim (Bool-cases (bytes_eq name n)) [
    | inl e ↦ rw e (h, a.1)
    | inr e ↦ rw e (a.0, put_command-Each name c reg h a.1)
  ]

  register_all-Each : (cs reg : CommandRegistry) → Each cs → Each reg → Each (register_all cs reg)
  unfolding register_all register_command
  register_all-Each [] reg a b = b
  register_all-Each ((name, c) ∷ cs) reg a b =
      register_all-Each cs (register_command name c reg) a.1
        (put_command-Each (to_upper_ascii name) c reg a.0 b)

  -- Of the command, if there is one.
  abbrev pub Found : Option Handler → Type 0
  Found none = Unit
  Found (some c) = P c

  pub find_command-Found :
      (name : Bytes) (reg : CommandRegistry) → Each reg → Found (find_command name reg)
  unfolding find_command
  find_command-Found name [] a = tt
  find_command-Found name ((n, c) ∷ reg) a = elim (Bool-cases (bytes_eq name n)) [
    | inl e ↦ rw e a.0
    | inr e ↦ rw e (find_command-Found name reg a.1)
  ]

  pub default_commands-Each :
      (hash : Bytes → ℕ) (points : Checkpoints)
      → Each (other_commands hash points)
      → ((names : List Bytes) → P (command_cmd names))
      → Each (default_commands hash points)
  unfolding default_commands register_command
  default_commands-Each hash points others command =
      put_command-Each (to_upper_ascii (codes "COMMAND")) (command_cmd _)
        (register_all (other_commands hash points) []) (command _)
        (register_all-Each (other_commands hash points) [] others tt)
