-- ===== src/Net/Connection.antt =====
-- One connection of a worker in src/net/tcp_server.cpp: what arrives is parsed and executed, the
-- replies wait in the write buffer, and the socket takes them. The answers of `::read` and `::write`
-- are lists, one for each call; where a list ends the socket would block.
pub mod Drain
pub mod Pipeline
pub mod Cut
pub mod Reads
pub mod Writes
pub mod Frame
use velox_db.Prelude.{
  ℕ, zero, suc, Bytes, codes, List, [], ◌∷◌, ◌++◌, Bool, true, false, not, ◌&&◌, ◌||◌, length, take,
  drop, ltb, ◌==◌, if◌then◌else◌, ◌≡◌, refl,
}
use velox_db.Util.Status.{Status, is_ok}
use velox_db.Config.Types.{ProtocolConfig}
use velox_db.Metrics.{command_processed}
use velox_db.Resp.Encode.{error}
use velox_db.Resp.Types.{Command, ParseResult, ok, need_more, failed, Parser}
use velox_db.Resp.Parser.State.{append, next_command, parser_options_from_config}
use velox_db.Commands.Context.{CommandContext, CommandResult, Call}
use velox_db.Commands.Registry.{CommandRegistry, execute}

pub record Connection : Type 0 where
  pub fd : ℕ
  pub peer : Bytes
  pub parser : Parser
  pub write_buffer : Bytes
  pub close_after_write : Bool

abbrev pub new_connection : ℕ → Bytes → ProtocolConfig → Connection
new_connection fd peer protocol = record {
  fd = fd;
  peer = peer;
  parser = record { options = parser_options_from_config protocol; buffer = [] };
  write_buffer = [];
  close_after_write = false;
}

-- A connection with what its worker shares with it: the context of its commands and how many
-- commands were run, which tells the surroundings of the next. `delivered` is what the socket took.
pub record Served : Type 0 where
  pub conn : Connection
  pub ctx : CommandContext
  pub count : ℕ
  pub delivered : Bytes

abbrev pub with_conn : Served → Connection → Served
with_conn s c = record s { conn = c }

-- `conn.write_buffer += ...; conn.close_after_write = true`.
abbrev pub refuse : Bytes → Connection → Connection
refuse message c = record c {
  write_buffer = c.write_buffer ++ error message;
  close_after_write = true;
}

abbrev pub over_limit : Connection → Connection
over_limit c = record c {
  write_buffer = error (codes "output buffer limit exceeded");
  close_after_write = true;
}

module _ (registry : CommandRegistry) (calls : ℕ → Call) where
  -- The command runs in a context that is made for it, not in that of a replay.
  abbrev pub execution : Served → List Bytes → CommandResult × CommandContext
  execution s args =
      let metrics = command_processed s.ctx.metrics in
      execute registry (calls s.count) (record s.ctx { replay = false; metrics = metrics }) args

  -- The reply behind those that wait.
  abbrev pub answered : Served → CommandResult × CommandContext → Served
  answered s (result, ctx) = record s {
    conn = record s.conn {
      write_buffer = s.conn.write_buffer ++ result.response;
      close_after_write = s.conn.close_after_write || result.close_after_write;
    };
    ctx = ctx;
    count = suc s.count;
  }

  abbrev pub request : Served → List Bytes → Served
  request s args = answered s (execution s args)

  abbrev pub exceeds_limit : Served → Bool
  exceeds_limit s = ltb s.ctx.config.protocol.max_output_buffer_bytes (length s.conn.write_buffer)

  -- The tests behind the execution of a command.
  settled : (Served → Bool × Served) → Bool → Served → Bool × Served
  settled next true s = (true, s)
  settled next false s =
      if exceeds_limit s then (false, with_conn s (over_limit s.conn)) else next s

  unfoldable pub drain_round :
      (Served → Bool × Served) → Served → ParseResult Command × Parser → Bool × Served
  unfolding settled
  drain_round next s (need_more, p) = (true, with_conn s (record s.conn { parser = p }))
  drain_round next s (failed message, p) = (
    false,
    with_conn s (refuse (codes "protocol error: " ++ message) (record s.conn { parser = p })),
  )
  drain_round next s (ok command, p) =
      let t = with_conn s (record s.conn { parser = p }) in
      settled next (execution t command.args).0.close_after_write (request t command.args)

  -- The loop on fuel.
  pub drain_loop : ℕ → Served → Bool × Served
  unfolding drain_round
  drain_loop zero s = (true, s)
  drain_loop (suc f) s = drain_round (drain_loop f) s (next_command s.conn.parser)

  -- A round for each byte of the buffer, and one more that finds it empty.
  unfoldable pub drain_commands : Served → Bool × Served
  unfolding drain_loop
  drain_commands s = drain_loop (suc (length s.conn.parser.buffer)) s

-- What `::read` returns: at least one byte, the end of the stream, or an error.
pub data ReadOutcome : Type 0 where
  arrived : ℕ → Bytes → ReadOutcome
  end_of_stream would_block interrupted read_failed : ReadOutcome

module _ (registry : CommandRegistry) (calls : ℕ → Call) where
  appended : (Served → Bool × Served) → Served → Status × Parser → Bool × Served
  unfolding drain_commands
  appended next s (status, p) =
      let t = with_conn s (record s.conn { parser = p }) in
      let (drained, u) = drain_commands registry calls t in
      if is_ok status
      then (if drained then next u else (true, u))
      else (true, with_conn t (refuse (codes "protocol error: " ++ status.message) t.conn))

  unfoldable pub read_from : List ReadOutcome → Served → Bool × Served
  unfolding appended append
  read_from [] s = (true, s)
  read_from (arrived c bytes ∷ rs) s = appended (read_from rs) s (append s.conn.parser (c ∷ bytes))
  read_from (end_of_stream ∷ rs) s = (false, s)
  read_from (would_block ∷ rs) s = (true, s)
  read_from (interrupted ∷ rs) s = read_from rs s
  read_from (read_failed ∷ rs) s = (false, s)

-- What `::write` returns: how many bytes it took, or an error.
pub data WriteOutcome : Type 0 where
  sent : ℕ → WriteOutcome
  full write_interrupted write_failed : WriteOutcome

-- `erase(0, n)`, the bytes being on their way.
abbrev pub took : ℕ → Served → Served
took n s = record s {
  conn = record s.conn { write_buffer = drop n s.conn.write_buffer };
  delivered = s.delivered ++ take n s.conn.write_buffer;
}

abbrev pub is_empty : Bytes → Bool
is_empty s = length s == 0

write_round : (Served → Bool × Served) → Served → WriteOutcome → Bool × Served
write_round next s (sent zero) = (false, s)
write_round next s (sent (suc n)) = next (took (suc n) s)
write_round next s full = (true, s)
write_round next s write_interrupted = next s
write_round next s write_failed = (false, s)

-- Behind the loop the connection stays open unless it was to be closed.
abbrev pub flushed : Served → Bool × Served
flushed s = (not s.conn.close_after_write, s)

unfoldable pub write_to : List WriteOutcome → Served → Bool × Served
unfolding write_round
write_to [] s = if is_empty s.conn.write_buffer then flushed s else (true, s)
write_to (w ∷ ws) s =
    if is_empty s.conn.write_buffer then flushed s else write_round (write_to ws) s w
