-- ===== src/Examples/Network.antt =====
-- The theorems on the connections, the workers and the acceptor at concrete inputs.
use velox_db.Prelude.{
  none, some, ℕ, zero, suc, get_or, ◌+◌, ◌<◌, ◌≤◌, Bytes, codes, List, [], ◌∷◌, ◌++◌, true, false,
  ltb, if◌then◌else◌, length, ◌≡◌, refl, arith,
}
use velox_db.Config.Types.{default_protocol}
use velox_db.Util.Decimal.{to_string}
use velox_db.Storage.Engine.Shards.{IsSound}
use velox_db.Resp.Encode.{encode_command, array_header, bulk, bulks, simple}
use velox_db.Resp.Parser.State.{next_command}
use velox_db.Resp.Parser.RoundTrip.{Fits}
use velox_db.Persistence.Replay.Torn.{log_of}
use velox_db.Commands.Context.{Call}
use velox_db.Commands.Strings.{ping}
use velox_db.Commands.Registry.{CommandRegistry, execute, default_commands}
use velox_db.Commands.Clients.Registered.{execute-KeepsClients}
use velox_db.Net.Connection.{
  new_connection, Served, drain_commands, drain_round, ReadOutcome, arrived, end_of_stream,
  would_block, interrupted, read_from, sent, full, write_to,
}
use velox_db.Net.Connection.Drain.{drain_commands-drain_round}
use velox_db.Net.Connection.Pipeline.{with_buffer, requests, Flows}
use velox_db.Net.Connection.Cut.{Waits-nil}
use velox_db.Net.Connection.Reads.{read_from-log_of}
use velox_db.Net.Connection.Writes.{Writes, write_to-Writes, stream}
use velox_db.Net.Worker.{
  Worker, ClientEvent, Event, wakeup, client, handle_event, event_round, add_connection,
  close_all_connections, loop_epoll,
}
use velox_db.Net.Worker.Poll.{PollRound, loop_poll, loop_epoll-loop_poll}
use velox_db.Net.Worker.Threads.{
  Seat, Shared, worker_at, with_worker, handles, stops, enqueue, turn, here, next, IsConsistent,
  ServerReach-IsConsistent,
}
use velox_db.Net.Worker.Storage.{loop_epoll-IsSound}
use velox_db.Net.Worker.Answers.{replies, handle_event-delivered, handle_event-half_closed}
use velox_db.Net.Accept.{Acceptor, AcceptOutcome, accepted, nothing_waits, accept_ready}
use velox_db.Net.Accept.Queues.{queued, admissible, accept_ready-queued}
use velox_db.Examples.Data.{hash_length, with_number-IsSound}
use velox_db.Examples.Protocol.{limits}
use velox_db.Examples.Server.{context, call, no_checkpoints, no_checkpoints-IsCheckpoints}

abbrev greeting : CommandRegistry
greeting = (codes "PING", ping) ∷ []

abbrev calls : ℕ → Call
calls n = call

abbrev ping_args : List Bytes
ping_args = codes "PING" ∷ []

ping_args-Fits : Fits limits ping_args
ping_args-Fits = record {
  arguments = ((omega arith, omega arith), tt);
  count = omega arith;
  countable = omega arith;
  request = unfold encode_command array_header bulk bulks to_string in omega arith;
}

abbrev served : Served
served = record {
  conn = new_connection 7 (codes "peer") default_protocol;
  ctx = context;
  count = 0;
  delivered = [];
}

drain_commands-drain_round_example :
    drain_commands greeting calls served
    ≡ drain_round greeting calls
        (drain_commands greeting calls)
        served
        (next_command served.conn.parser)
drain_commands-drain_round_example = drain_commands-drain_round greeting calls served

-- One PING in two pieces, with an interruption between them.
abbrev pieces : List ReadOutcome
pieces =
    arrived b'*' (codes "1\r\n$4\r\nPI")
    ∷ interrupted
    ∷ arrived b'N' (codes "G\r\n")
    ∷ would_block
    ∷ []

ping-Flows : Flows greeting calls (ping_args ∷ []) served
ping-Flows = (unfold execute ping in refl, unfold execute ping simple in refl, tt)

ping_log :
    [] ++ (b'*' ∷ codes "1\r\n$4\r\nPI" ++ (b'N' ∷ codes "G\r\n" ++ [])) ≡ log_of (ping_args ∷ [])
ping_log = unfold log_of encode_command array_header bulk bulks to_string in refl

ping_log_short : length (log_of (ping_args ∷ [])) ≤ limits.max_request_bytes
ping_log_short = unfold log_of encode_command array_header bulk bulks to_string in omega arith

read_from-log_of_example :
    read_from greeting calls pieces (with_buffer [] served)
    ≡ (true, with_buffer [] (requests greeting calls (ping_args ∷ []) served))
read_from-log_of_example =
    read_from-log_of greeting calls pieces (ping_args ∷ []) [] served (ping_args-Fits, tt)
      ping-Flows (Waits-nil limits) ping_log ping_log_short

-- A connection that has two replies to write.
abbrev answering : Served
answering = record served {
  conn = record served.conn { write_buffer = codes "+OK\r\n+PONG\r\n"; close_after_write = true };
}

write_to-Writes_example : Writes answering (write_to (sent 3 ∷ full ∷ []) answering)
write_to-Writes_example = write_to-Writes (sent 3 ∷ full ∷ []) answering

abbrev ping_event : ClientEvent
ping_event = record {
  fd = 7;
  error = false;
  readable = true;
  writable = true;
  hung_up = false;
  reads = pieces;
  writes = sent 3 ∷ sent 10 ∷ [];
}

handle_event-delivered_example :
    let r = handle_event greeting calls ping_event (with_buffer [] served) in
    (r.1.delivered ≡ stream served ++ replies greeting calls (ping_args ∷ []) served)
    × (r.1.conn.write_buffer ≡ [])
    × (r.0 ≡ false)
handle_event-delivered_example =
    handle_event-delivered greeting calls ping_event (ping_args ∷ []) [] served refl refl
      (ping_args-Fits, tt) ping-Flows (Waits-nil limits) ping_log ping_log_short refl refl refl tt
      (unfold execute ping simple in omega arith)

-- The same client shuts down its side behind the request.
abbrev half_closed : ClientEvent
half_closed = record ping_event {
  reads = arrived b'*' (codes "1\r\n$4\r\nPI") ∷ arrived b'N' (codes "G\r\n") ∷ end_of_stream ∷ [];
}

handle_event-half_closed_example :
    (handle_event greeting calls half_closed (with_buffer [] served)
      ≡ (true, with_buffer [] (requests greeting calls (ping_args ∷ []) served)))
    × ((handle_event greeting calls half_closed (with_buffer [] served)).1.delivered ≡ [])
handle_event-half_closed_example =
    handle_event-half_closed greeting calls half_closed (ping_args ∷ []) [] served refl refl
      (ping_args-Fits, tt) ping-Flows (Waits-nil limits) ping_log ping_log_short refl

-- A worker whose queue holds one connection.
abbrev worker : Worker
worker = record {
  connections = [];
  pending = record { fd = 7; peer = codes "peer" } ∷ [];
  ctx = context;
  count = 0;
}

abbrev rounds : List (List Event)
rounds = (wakeup (λ fd. true) ∷ []) ∷ (client half_closed ∷ []) ∷ []

loop_epoll-IsSound_example :
    IsSound
      (loop_epoll (default_commands hash_length no_checkpoints) calls rounds worker).ctx.storage
loop_epoll-IsSound_example =
    loop_epoll-IsSound hash_length no_checkpoints calls rounds worker no_checkpoints-IsCheckpoints
      with_number-IsSound

abbrev polled_rounds : List PollRound
polled_rounds =
    record { woken = some (λ fd. true); events = [] }
    ∷ record { woken = none; events = half_closed ∷ [] }
    ∷ []

loop_epoll-loop_poll_example :
    loop_epoll (default_commands hash_length no_checkpoints) calls rounds worker
    ≡ loop_poll (default_commands hash_length no_checkpoints) calls polled_rounds worker
loop_epoll-loop_poll_example =
    loop_epoll-loop_poll (default_commands hash_length no_checkpoints) calls polled_rounds worker

-- Two workers, the second of which gets a connection, installs it and stops.
abbrev vacant : Seat
vacant = record { connections = []; pending = [] }

abbrev shared : Shared
shared = record { seats = vacant ∷ vacant ∷ []; ctx = context; count = 0 }

shared-IsConsistent : IsConsistent shared
shared-IsConsistent = record { counted = refl; unique = (tt, (tt, tt)); room = omega arith }

abbrev queued_worker : Worker
queued_worker = add_connection 7 (codes "peer") (worker_at shared vacant)

abbrev installed_worker : Worker
installed_worker =
    (event_round (default_commands hash_length no_checkpoints) calls (wakeup (λ fd. true))
      queued_worker).1

ServerReach-IsConsistent_example :
    IsConsistent (with_worker (vacant ∷ []) (close_all_connections installed_worker) [])
ServerReach-IsConsistent_example =
    ServerReach-IsConsistent (default_commands hash_length no_checkpoints) calls
      (execute-KeepsClients hash_length no_checkpoints) {s = shared} shared-IsConsistent
      (next
        (next (next here (enqueue (vacant ∷ []) [] vacant 7 (codes "peer") refl (omega arith))) (
          turn (vacant ∷ []) []
            (record { connections = queued_worker.connections; pending = queued_worker.pending })
            installed_worker refl (handles (wakeup (λ fd. true)))))
        (turn (vacant ∷ []) []
          (record {
            connections = installed_worker.connections;
            pending = installed_worker.pending;
          })
          (close_all_connections installed_worker) refl stops))

abbrev two_accepts : List AcceptOutcome
two_accepts =
    accepted (record { fd = 7; peer = codes "a"; nonblocking = true; connected_clients = 0 })
    ∷ accepted (record { fd = 8; peer = codes "b"; nonblocking = true; connected_clients = 0 })
    ∷ nothing_waits
    ∷ []

abbrev two_queues : Acceptor
two_queues = record { queues = [] ∷ [] ∷ []; next_worker = 0 }

accept_ready-queued_example :
    queued (accept_ready 1 two_accepts two_queues).queues ≡ 0 + admissible 1 two_accepts two_queues
accept_ready-queued_example = accept_ready-queued 1 two_accepts two_queues

two_queues-even :
    (i : ℕ) → i < 2 → length (get_or two_queues.queues i []) ≡ 0 + (if ltb i 0 then 1 else 0)
two_queues-even zero h = refl
two_queues-even (suc zero) h = ground arith
two_queues-even (suc (suc i)) h = absurd (omega arith)
