-- ===== src/Net/Connection/Pipeline.antt =====
-- `drain_commands` of src/net/tcp_server.cpp on encoded commands, against the plain sequence of
-- requests.
use velox_db.Prelude.{
  ℕ, Bytes, List, [], ◌∷◌, ◌++◌, true, false, All, append_assoc, ◌≡◌, refl, ap, ◌∙◌,
}
use velox_db.Resp.Encode.{encode_command}
use velox_db.Resp.Types.{ParserOptions, need_more}
use velox_db.Resp.Parser.State.{next_command}
use velox_db.Resp.Parser.RoundTrip.{Fits, next_command-encode_command}
use velox_db.Persistence.Replay.Torn.{log_of}
use velox_db.Commands.Context.{Call}
use velox_db.Commands.Registry.{CommandRegistry}
use velox_db.Net.Connection.{
  Served, with_conn, execution, request, exceeds_limit, settled, drain_round, drain_commands,
}
use velox_db.Net.Connection.Drain.{drain_commands-drain_round}

abbrev pub with_buffer : Bytes → Served → Served
with_buffer b s = with_conn s (record s.conn { parser = record s.conn.parser { buffer = b } })

-- A buffer that holds no whole command, and may still become one.
abbrev pub Waits : ParserOptions → Bytes → Type 0
Waits o tail =
    next_command (record { options = o; buffer = tail })
    ≡ (need_more, record { options = o; buffer = tail })

module _ (registry : CommandRegistry) (calls : ℕ → Call) where
  -- The reference: the commands run in turn.
  abbrev pub requests : List (List Bytes) → Served → Served
  requests [] s = s
  requests (c ∷ cs) s = requests cs (request registry calls s c)

  -- None of the commands closes the connection or fills the output beyond its limit.
  abbrev pub Flows : List (List Bytes) → Served → Type 0
  Flows [] s = Unit
  Flows (c ∷ cs) s =
      ((execution registry calls s c).0.close_after_write ≡ false)
      × (exceeds_limit registry calls (request registry calls s c) ≡ false)
      × Flows cs (request registry calls s c)

  drain_commands-step :
      (s : Served) (c : List Bytes) (rest : Bytes)
      → Fits s.conn.parser.options c
      → (execution registry calls s c).0.close_after_write ≡ false
      → exceeds_limit registry calls (request registry calls s c) ≡ false
      → drain_commands registry calls (with_buffer (encode_command c ++ rest) s)
        ≡ drain_commands registry calls (with_buffer rest (request registry calls s c))
  drain_commands-step s c rest fits stays within =
      drain_commands-drain_round registry calls (with_buffer (encode_command c ++ rest) s)
      ∙ ap
          (drain_round registry calls (drain_commands registry calls)
            (with_buffer (encode_command c ++ rest) s))
          (next_command-encode_command s.conn.parser.options c rest fits)
      ∙ (unfold drain_round settled in rw (stays, within) refl)

  pub drain_commands-log_of :
      (cs : List (List Bytes)) (s : Served) (tail : Bytes)
      → All (Fits s.conn.parser.options) cs
      → Waits s.conn.parser.options tail
      → Flows cs s
      → drain_commands registry calls (with_buffer (log_of cs ++ tail) s)
        ≡ (true, with_buffer tail (requests cs s))
  unfolding log_of
  drain_commands-log_of [] s tail fits waits flows =
      drain_commands-drain_round registry calls (with_buffer tail s)
      ∙ ap (drain_round registry calls (drain_commands registry calls) (with_buffer tail s)) waits
      ∙ (unfold drain_round in refl)
  drain_commands-log_of (c ∷ cs) s tail fits waits flows =
      ap (λ b. drain_commands registry calls (with_buffer b s))
        (append_assoc (encode_command c) (log_of cs) tail)
      ∙ drain_commands-step s c (log_of cs ++ tail) fits.0 flows.0 flows.1
      ∙ drain_commands-log_of cs (request registry calls s c) tail fits.1 waits flows.2
