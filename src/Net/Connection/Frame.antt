-- ===== src/Net/Connection/Frame.antt =====
-- What the reads and writes of a connection in src/net/tcp_server.cpp leave alone: its descriptor,
-- and what the commands keep of their context.
use velox_db.Prelude.{
  ℕ, zero, suc, Bytes, List, [], ◌∷◌, Bool, true, false, length, Bool-cases, inl, inr, ◌≡◌, refl,
  ◌∙◌, ap,
}
use velox_db.Util.Status.{Status, is_ok}
use velox_db.Metrics.{Metrics, command_processed}
use velox_db.Resp.Types.{Command, ParseResult, ok, need_more, failed, Parser}
use velox_db.Resp.Parser.State.{append, next_command}
use velox_db.Commands.Context.{CommandContext, Call}
use velox_db.Commands.Clients.{connected, KeepsClients}
use velox_db.Commands.Registry.{CommandRegistry, execute}
use velox_db.Net.Connection.{
  Served, with_conn, execution, request, exceeds_limit, settled, drain_round, drain_loop,
  drain_commands, ReadOutcome, arrived, end_of_stream, would_block, interrupted, read_failed,
  appended, read_from, WriteOutcome, write_to,
}
use velox_db.Net.Connection.Writes.{write_to-Writes}

-- What holds of the context before a command holds behind it.
abbrev pub Keeps : (CommandContext → Type 0) → CommandRegistry → Type 0
Keeps P registry =
    (call : Call) (ctx : CommandContext) (args : List Bytes)
    → P ctx
    → P
        (execute registry call
          (record ctx { replay = false; metrics = command_processed ctx.metrics }) args).1

module _ (P : CommandContext → Type 0) where
  abbrev pub Framed : Served → Bool × Served → Type 0
  Framed s r = (r.1.conn.fd ≡ s.conn.fd) × (P s.ctx → P r.1.ctx)

  pub Framed-refl : (b : Bool) (s : Served) → Framed s (b, s)
  Framed-refl b s = (refl, λ h. h)

  module _ (registry : CommandRegistry) (calls : ℕ → Call) (keeps : Keeps P registry) where
    settled-Framed :
        (next : Served → Bool × Served) (stop : Bool) (s : Served)
        → Framed s (next s)
        → Framed s (settled registry calls next stop s)
    unfolding settled
    settled-Framed next true s h = (refl, λ p. p)
    settled-Framed next false s h = elim (Bool-cases (exceeds_limit registry calls s)) [
      | inl e ↦ rw e (refl, λ p. p)
      | inr e ↦ rw e h
    ]

    drain_round-Framed :
        (next : Served → Bool × Served) (s : Served) (r : ParseResult Command × Parser)
        → ((t : Served) → Framed t (next t))
        → Framed s (drain_round registry calls next s r)
    unfolding drain_round
    drain_round-Framed next s (need_more, p) h = (refl, λ q. q)
    drain_round-Framed next s (failed m, p) h = (refl, λ q. q)
    drain_round-Framed next s (ok c, p) h =
        let t = with_conn s (record s.conn { parser = p }) in
        let u = request registry calls t c.args in
        let stop = (execution registry calls t c.args).0.close_after_write in
        let rest = settled-Framed next stop u (h u) in
        (rest.0, λ q. rest.1 (keeps (calls s.count) s.ctx c.args q))

    drain_loop-Framed : (f : ℕ) (s : Served) → Framed s (drain_loop registry calls f s)
    unfolding drain_loop
    drain_loop-Framed zero s = (refl, λ q. q)
    drain_loop-Framed (suc f) s =
        drain_round-Framed (drain_loop registry calls f) s (next_command s.conn.parser)
          (drain_loop-Framed f)

    appended-Framed :
        (next : Served → Bool × Served) (s : Served) (r : Status × Parser)
        → ((t : Served) → Framed t (next t))
        → Framed s (appended registry calls next s r)
    unfolding appended drain_commands
    appended-Framed next s (status, p) h =
        let t = with_conn s (record s.conn { parser = p }) in
        let d = drain_loop registry calls (suc (length p.buffer)) t in
        let u = drain_loop-Framed (suc (length p.buffer)) t in
        elim (Bool-cases (is_ok status)) [
          | inr bad ↦ rw bad (refl, λ q. q)
          | inl good ↦ elim (Bool-cases d.0) [
            | inl more ↦ rw (good, more) (((h d.1).0 ∙ u.0), λ q. (h d.1).1 (u.1 q))
            | inr stop ↦ rw (good, stop) u
          ]
        ]

    pub read_from-Framed :
        (rs : List ReadOutcome) (s : Served) → Framed s (read_from registry calls rs s)
    unfolding read_from
    read_from-Framed [] s = (refl, λ q. q)
    read_from-Framed (arrived c bytes ∷ rs) s =
        appended-Framed (read_from registry calls rs) s (append s.conn.parser (c ∷ bytes))
          (read_from-Framed rs)
    read_from-Framed (end_of_stream ∷ rs) s = (refl, λ q. q)
    read_from-Framed (would_block ∷ rs) s = (refl, λ q. q)
    read_from-Framed (interrupted ∷ rs) s = read_from-Framed rs s
    read_from-Framed (read_failed ∷ rs) s = (refl, λ q. q)

  pub write_to-Framed : (ws : List WriteOutcome) (s : Served) → Framed s (write_to ws s)
  write_to-Framed ws s =
      let e = (write_to-Writes ws s).framed in (ap (λ t. t.conn.fd) e, λ q. rw e q)

command_processed-connected :
    (m : Metrics) → (command_processed m).connected_clients ≡ m.connected_clients
unfolding command_processed
command_processed-connected m = elim (Bool-cases m.enabled) [
  | inl e ↦ rw e refl
  | inr e ↦ rw e refl
]

-- A registry whose commands count no connection keeps the count that it finds.
pub KeepsClients-Keeps :
    (registry : CommandRegistry) (n : ℕ)
    → KeepsClients (execute registry)
    → Keeps (λ ctx. connected ctx ≡ n) registry
KeepsClients-Keeps registry n h call ctx args e =
    h.keeps call (record ctx { replay = false; metrics = command_processed ctx.metrics }) args
    ∙ command_processed-connected ctx.metrics
    ∙ e
