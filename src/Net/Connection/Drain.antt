-- ===== src/Net/Connection/Drain.antt =====
-- The loop of `drain_commands` in src/net/tcp_server.cpp: it ends, and what it does with the
-- commands that a client sends in one go.
use velox_db.Prelude.{
  ℕ, zero, suc, ◌<◌, Bool, true, false, length, Bool-cases, inl, inr, ◌≡◌, refl, arith,
}
use velox_db.Resp.Types.{Command, ParseResult, ok, need_more, failed, Parser}
use velox_db.Resp.Parser.State.{next_command}
use velox_db.Resp.Parser.Progress.{Shrinks, next_command-Shrinks}
use velox_db.Commands.Context.{Call}
use velox_db.Commands.Registry.{CommandRegistry}
use velox_db.Net.Connection.{
  Served, with_conn, request, exceeds_limit, settled, drain_round, drain_loop, drain_commands,
}

module _ (registry : CommandRegistry) (calls : ℕ → Call) where
  abbrev waiting : Served → ℕ
  waiting s = length s.conn.parser.buffer

  settled-ext :
      (next next' : Served → Bool × Served) (stop : Bool) (s : Served)
      → next s ≡ next' s
      → settled registry calls next stop s ≡ settled registry calls next' stop s
  unfolding settled
  settled-ext next next' true s h = refl
  settled-ext next next' false s h = elim (Bool-cases (exceeds_limit registry calls s)) [
    | inl e ↦ rw e refl
    | inr e ↦ rw e h
  ]

  drain_round-ext :
      (next next' : Served → Bool × Served) (s : Served) (r : ParseResult Command × Parser)
      → Shrinks s.conn.parser r
      → ((t : Served) → waiting t < waiting s → next t ≡ next' t)
      → drain_round registry calls next s r ≡ drain_round registry calls next' s r
  unfolding drain_round
  drain_round-ext next next' s (need_more, p) h k = refl
  drain_round-ext next next' s (failed m, p) h k = refl
  drain_round-ext next next' s (ok c, p) h k =
      let t = with_conn s (record s.conn { parser = p }) in
      settled-ext next next' _ (request registry calls t c.args)
        (k (request registry calls t c.args) h)

  drain_loop-fuel :
      (f g : ℕ) (s : Served)
      → waiting s < f
      → waiting s < g
      → drain_loop registry calls f s ≡ drain_loop registry calls g s
  unfolding drain_loop
  drain_loop-fuel zero g s hf hg = absurd (omega arith)
  drain_loop-fuel (suc f) zero s hf hg = absurd (omega arith)
  drain_loop-fuel (suc f) (suc g) s hf hg =
      drain_round-ext (drain_loop registry calls f) (drain_loop registry calls g) s
        (next_command s.conn.parser) (next_command-Shrinks s.conn.parser)
        (λ t less. drain_loop-fuel f g t (omega arith) (omega arith))

  -- The loop over the commands of the buffer ends, within the rounds that the model allows: it
  -- satisfies the equation of the loop of the program, which has no bound.
  pub drain_commands-drain_round :
      (s : Served)
      → drain_commands registry calls s
        ≡ drain_round registry calls (drain_commands registry calls) s (next_command s.conn.parser)
  unfolding drain_commands drain_loop
  drain_commands-drain_round s =
      drain_round-ext (drain_loop registry calls (waiting s)) (drain_commands registry calls) s
        (next_command s.conn.parser) (next_command-Shrinks s.conn.parser)
        (λ t less. drain_loop-fuel (waiting s) (suc (waiting t)) t (omega arith) (omega arith))
