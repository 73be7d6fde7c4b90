-- ===== src/Net/Connection/Reads.antt =====
-- A client that sends commands, in whatever pieces they arrive: `read_from` of
-- src/net/tcp_server.cpp against the plain sequence of requests.
use velox_db.Prelude.{
  ℕ, ◌+◌, ◌-◌, ◌≤◌, Bytes, List, [], ◌∷◌, ◌++◌, Bool, true, false, length, length-append, le→ltb,
  All, append_assoc, append-nil, ◌≡◌, refl, sym, ap, ◌∙◌, arith,
}
use velox_db.Util.Status.{ok_status}
use velox_db.Resp.Encode.{encode_command}
use velox_db.Resp.Types.{Parser}
use velox_db.Resp.Parser.State.{append}
use velox_db.Resp.Parser.RoundTrip.{Fits, next_command-encode_command}
use velox_db.Persistence.Replay.Torn.{log_of}
use velox_db.Commands.Context.{Call}
use velox_db.Commands.Registry.{CommandRegistry}
use velox_db.Net.Connection.{
  Served, request, drain_commands, ReadOutcome, arrived, end_of_stream, would_block, interrupted,
  read_failed, appended, read_from,
}
use velox_db.Net.Connection.Pipeline.{Waits, with_buffer, requests, Flows, drain_commands-log_of}
use velox_db.Net.Connection.Cut.{cut, All-append_left}

-- What the reads bring, up to the first that would block.
abbrev pub input : List ReadOutcome → Bytes
input [] = []
input (arrived b bytes ∷ rs) = (b ∷ bytes) ++ input rs
input (interrupted ∷ rs) = input rs
input (_ ∷ rs) = []

-- Whether the reads stop because a read would block, not at the end of the stream or an error.
abbrev pub stays_open : List ReadOutcome → Bool
stays_open [] = true
stays_open (arrived b bytes ∷ rs) = stays_open rs
stays_open (end_of_stream ∷ rs) = false
stays_open (would_block ∷ rs) = true
stays_open (interrupted ∷ rs) = stays_open rs
stays_open (read_failed ∷ rs) = false

module _ (registry : CommandRegistry) (calls : ℕ → Call) where
  requests-append :
      (done todo : List (List Bytes)) (s : Served)
      → Flows registry calls (done ++ todo) s
      → Flows registry calls done s
        × Flows registry calls todo (requests registry calls done s)
        × (requests registry calls (done ++ todo) s
            ≡ requests registry calls todo (requests registry calls done s))
  requests-append [] todo s h = (tt, h, refl)
  requests-append (c ∷ done) todo s (a, b, h) =
      let rest = requests-append done todo (request registry calls s c) h in
      ((a, b, rest.0), rest.1, rest.2)

  requests-options :
      (cs : List (List Bytes)) (s : Served)
      → (requests registry calls cs s).conn.parser.options ≡ s.conn.parser.options
  requests-options [] s = refl
  requests-options (c ∷ cs) s = requests-options cs (request registry calls s c)

  -- Bytes that arrive within the limit go behind those that wait.
  append-within :
      (p : Parser) (b : ℕ) (bytes : Bytes)
      → length (p.buffer ++ b ∷ bytes) ≤ p.options.max_request_bytes
      → append p (b ∷ bytes) ≡ (ok_status, record p { buffer = p.buffer ++ b ∷ bytes })
  unfolding append
  append-within p b bytes h =
      let n : length p.buffer + length (b ∷ bytes) ≤ p.options.max_request_bytes =
        omega (arith, h, length-append p.buffer (b ∷ bytes)) in
      rw
        (
          le→ltb p.options.max_request_bytes (length (b ∷ bytes)) (omega arith),
          le→ltb (p.options.max_request_bytes - length (b ∷ bytes)) (length p.buffer) (omega arith),
        )
        refl

  idle :
      (cs : List (List Bytes)) (p : Bytes) (s : Served)
      → All (Fits s.conn.parser.options) cs
      → Waits s.conn.parser.options p
      → p ++ [] ≡ log_of cs
      → with_buffer p s ≡ with_buffer [] (requests registry calls cs s)
  idle [] p s fits waits h =
      ap (λ b. with_buffer b s) (sym (append-nil p) ∙ h ∙ (unfold log_of in refl))
  idle (c ∷ cs) p s fits waits h =
      let whole : p ≡ encode_command c ++ log_of cs =
        sym (append-nil p) ∙ h ∙ (unfold log_of in refl) in
      let read = next_command-encode_command s.conn.parser.options c (log_of cs) fits.0 in
      let none_yet : Waits s.conn.parser.options (encode_command c ++ log_of cs) =
        rw (← whole) waits in
      absurd (cc (ap (λ r. r.0) read, ap (λ r. r.0) none_yet))

  arrive :
      (next : Served → Bool × Served) (s u : Served) (p : Bytes) (b : ℕ) (bytes : Bytes)
      → length (p ++ b ∷ bytes) ≤ s.conn.parser.options.max_request_bytes
      → drain_commands registry calls (with_buffer (p ++ b ∷ bytes) s) ≡ (true, u)
      → appended registry calls next
          (with_buffer p s)
          (append (record s.conn.parser { buffer = p }) (b ∷ bytes))
        ≡ next u
  arrive next s u p b bytes within drained =
      ap (appended registry calls next (with_buffer p s))
        (append-within (record s.conn.parser { buffer = p }) b bytes within)
      ∙ (unfold appended in rw drained refl)

  -- What is left to be read is no longer than all that was sent.
  rest-le :
      (y z tail : Bytes) (cs done todo : List (List Bytes))
      → y ++ z ≡ log_of cs
      → y ≡ log_of done ++ tail
      → tail ++ z ≡ log_of todo
      → (length y ≤ length (log_of cs)) × (length (log_of todo) ≤ length (log_of cs))
  rest-le y z tail cs done todo h before behind =
      let all = ap length h in
      let head = ap length before in
      let rest = ap length behind in
      let a = length-append y z in
      let b = length-append (log_of done) tail in
      let c = length-append tail z in (omega arith, omega arith)

  -- However the bytes of commands within the limits are cut into reads, with interruptions between
  -- them, and with a first part of them already in the parser: reading runs exactly these commands
  -- in order, each against the state that the one before it left, and leaves the parser empty and
  -- the connection open unless the stream ended. No command closes the connection or exceeds the
  -- limit on the write buffer, and all the bytes together are at most the limit on a request.
  pub read_from-log_of :
      (rs : List ReadOutcome) (cs : List (List Bytes)) (p : Bytes) (s : Served)
      → All (Fits s.conn.parser.options) cs
      → Flows registry calls cs s
      → Waits s.conn.parser.options p
      → p ++ input rs ≡ log_of cs
      → length (log_of cs) ≤ s.conn.parser.options.max_request_bytes
      → read_from registry calls rs (with_buffer p s)
        ≡ (stays_open rs, with_buffer [] (requests registry calls cs s))
  unfolding read_from
  read_from-log_of [] cs p s fits flows waits h limit =
      ap (λ t. (true, t)) (idle cs p s fits waits h)
  read_from-log_of (end_of_stream ∷ rs) cs p s fits flows waits h limit =
      ap (λ t. (false, t)) (idle cs p s fits waits h)
  read_from-log_of (read_failed ∷ rs) cs p s fits flows waits h limit =
      ap (λ t. (false, t)) (idle cs p s fits waits h)
  read_from-log_of (would_block ∷ rs) cs p s fits flows waits h limit =
      ap (λ t. (true, t)) (idle cs p s fits waits h)
  read_from-log_of (interrupted ∷ rs) cs p s fits flows waits h limit =
      read_from-log_of rs cs p s fits flows waits h limit
  read_from-log_of (arrived b bytes ∷ rs) cs p s fits flows waits h limit =
      let o = s.conn.parser.options in
      let whole : (p ++ b ∷ bytes) ++ input rs ≡ log_of cs =
        append_assoc p (b ∷ bytes) (input rs) ∙ h in
      let k = cut o cs (p ++ b ∷ bytes) (input rs) fits whole in
      let u = requests registry calls k.done s in
      let parts = All-append_left (Fits o) k.done k.todo (rw (← k.all) fits) in
      let run = requests-append k.done k.todo s (rw (← k.all) flows) in
      let size =
        rest-le (p ++ b ∷ bytes) (input rs) k.tail cs k.done k.todo whole k.before_eq k.behind_eq in
      arrive (read_from registry calls rs) s (with_buffer k.tail u) p b bytes (omega arith) (
        ap (λ t. drain_commands registry calls (with_buffer t s)) k.before_eq
        ∙ drain_commands-log_of registry calls k.done s k.tail parts.0 k.waits run.0)
      ∙ read_from-log_of rs k.todo k.tail u (rw (requests-options k.done s) parts.1) run.1
          (rw (requests-options k.done s) k.waits) k.behind_eq
          (rw (requests-options k.done s) (omega arith))
      ∙ ap (λ t. (stays_open rs, with_buffer [] t))
          (sym run.2 ∙ ap (λ t. requests registry calls t s) (sym k.all))
