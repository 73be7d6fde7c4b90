-- ===== src/Net/Worker/Answers.antt =====
-- One event of a connection of src/net/tcp_server.cpp, from the bytes that arrive to the bytes that
-- the socket takes.
use velox_db.Prelude.{
  ℕ, ◌≤◌, Bytes, List, [], ◌∷◌, ◌++◌, Bool, true, false, not, ◌&&◌, ◌||◌, length, if◌then◌else◌,
  All, append_assoc, append-nil, ◌≡◌, refl, sym, ap, ◌∙◌,
}
use velox_db.Commands.Context.{Call}
use velox_db.Commands.Registry.{CommandRegistry}
use velox_db.Resp.Parser.RoundTrip.{Fits}
use velox_db.Persistence.Replay.Torn.{log_of}
use velox_db.Net.Connection.{Served, execution, request, write_to, is_empty}
use velox_db.Net.Connection.Pipeline.{Waits, with_buffer, requests, Flows}
use velox_db.Net.Connection.Reads.{input, stays_open, read_from-log_of}
use velox_db.Net.Connection.Writes.{stream, IsMoving, capacity, write_to-delivered}
use velox_db.Net.Worker.{ClientEvent, hanging, after_write, after_read, handle_event}

module _ (registry : CommandRegistry) (calls : ℕ → Call) where
  -- The replies of the commands, one behind the other.
  abbrev pub replies : List (List Bytes) → Served → Bytes
  replies [] s = []
  replies (c ∷ cs) s =
      (execution registry calls s c).0.response ++ replies cs (request registry calls s c)

  requests-stream :
      (cs : List (List Bytes)) (s : Served)
      → stream (requests registry calls cs s) ≡ stream s ++ replies cs s
  requests-stream [] s = sym (append-nil (stream s))
  requests-stream (c ∷ cs) s =
      requests-stream cs (request registry calls s c)
      ∙ ap (λ t. t ++ replies cs (request registry calls s c))
          (sym (
            append_assoc s.delivered s.conn.write_buffer (execution registry calls s c).0.response))
      ∙ append_assoc (stream s) (execution registry calls s c).0.response
          (replies cs (request registry calls s c))

  requests-delivered :
      (cs : List (List Bytes)) (s : Served) → (requests registry calls cs s).delivered ≡ s.delivered
  requests-delivered [] s = refl
  requests-delivered (c ∷ cs) s = requests-delivered cs (request registry calls s c)

  requests-open :
      (cs : List (List Bytes)) (s : Served)
      → Flows registry calls cs s
      → (requests registry calls cs s).conn.close_after_write ≡ s.conn.close_after_write
  requests-open [] s h = refl
  requests-open (c ∷ cs) s (open_still, within, h) =
      requests-open cs (request registry calls s c) h
      ∙ ap (λ b. s.conn.close_after_write || b) open_still
      ∙ or_false s.conn.close_after_write
    where
      or_false : (b : Bool) → (b || false) ≡ b
      or_false true = refl
      or_false false = refl

  module _ (e : ClientEvent) (cs : List (List Bytes)) (p : Bytes) (s : Served)
      (no_error : e.error ≡ false) (readable : e.readable ≡ true)
      (fits : All (Fits s.conn.parser.options) cs) (flows : Flows registry calls cs s)
      (waits : Waits s.conn.parser.options p) (sent_all : p ++ input e.reads ≡ log_of cs)
      (limit : length (log_of cs) ≤ s.conn.parser.options.max_request_bytes) where
    after_reading :
        handle_event registry calls e (with_buffer p s)
        ≡ after_read registry calls e
            (stays_open e.reads, with_buffer [] (requests registry calls cs s))
    unfolding handle_event
    after_reading =
        rw (no_error, readable)
          (ap (after_read registry calls e)
            (read_from-log_of registry calls e.reads cs p s fits flows waits sent_all limit))

    after_write-open :
        (r : Bool × Served)
        → r.0 ≡ true
        → after_write registry calls e r ≡ (e.hung_up && is_empty r.1.conn.write_buffer, r.1)
    unfolding after_write hanging
    after_write-open (true, t) h = refl
    after_write-open (false, t) h = absurd (cc)

    after_read-open :
        (u : Served)
        → e.writable ≡ true
        → (write_to e.writes u).0 ≡ true
        → after_read registry calls e (true, u) ≡ (
          e.hung_up && is_empty (write_to e.writes u).1.conn.write_buffer,
          (write_to e.writes u).1,
        )
    unfolding after_read
    after_read-open u writable h =
        ap (λ b. after_write registry calls e (if b then write_to e.writes u else (true, u)))
          writable
        ∙ after_write-open (write_to e.writes u) h

    -- An event that can be read and written, without an error, on a connection that is not to be
    -- closed, whose parser holds bytes that are no complete command: where the bytes that arrive
    -- complete commands within the limits of the parser and of the write buffer, none of which
    -- closes the connection, the stream stays open, and the socket takes at least as many bytes as
    -- then wait, the peer has received what waited before and the replies to all the commands in
    -- order, the write buffer is empty, and the connection is closed only if it hung up.
    pub handle_event-delivered :
        stays_open e.reads ≡ true
        → e.writable ≡ true
        → s.conn.close_after_write ≡ false
        → IsMoving e.writes
        → length (requests registry calls cs s).conn.write_buffer ≤ capacity e.writes
        → let r = handle_event registry calls e (with_buffer p s) in
          (r.1.delivered ≡ stream s ++ replies cs s)
          × (r.1.conn.write_buffer ≡ [])
          × (r.0 ≡ e.hung_up)
    handle_event-delivered live writable kept moving enough =
        let u = with_buffer [] (requests registry calls cs s) in
        let done = write_to-delivered e.writes u moving enough in
        let open_still : (write_to e.writes u).0 ≡ true =
          done.2 ∙ ap not (requests-open cs s flows ∙ kept) in
        let all : handle_event registry calls e (with_buffer p s) ≡ (
          e.hung_up && is_empty (write_to e.writes u).1.conn.write_buffer,
          (write_to e.writes u).1,
        ) =
          after_reading
          ∙ ap (λ b. after_read registry calls e (b, u)) live
          ∙ after_read-open u writable open_still in
        (
          ap (λ r. r.1.delivered) all ∙ done.0 ∙ requests-stream cs s,
          ap (λ r. r.1.conn.write_buffer) all ∙ done.1,
          ap (λ r. r.0) all ∙ ap (λ b. e.hung_up && is_empty b) done.1 ∙ and_true e.hung_up,
        )
      where
        and_true : (b : Bool) → (b && true) ≡ b
        and_true true = refl
        and_true false = refl

    -- An event that can be read and whose reads meet the end of the stream behind complete commands
    -- within the limits, none of which closes the connection: the commands are all executed, but
    -- the connection is to be closed at once and the peer receives none of their replies.
    pub handle_event-half_closed :
        stays_open e.reads ≡ false
        → (handle_event registry calls e (with_buffer p s)
            ≡ (true, with_buffer [] (requests registry calls cs s)))
          × ((handle_event registry calls e (with_buffer p s)).1.delivered ≡ s.delivered)
    handle_event-half_closed ended =
        let all : handle_event registry calls e (with_buffer p s)
            ≡ (true, with_buffer [] (requests registry calls cs s)) =
          after_reading ∙ (rw ended (unfold after_read in refl)) in
        (all, ap (λ r. r.1.delivered) all ∙ requests-delivered cs s)
