-- ===== src/Net/Worker.antt =====
-- A worker of src/net/tcp_server.cpp: its table of connections, the connections that the acceptor
-- queued for it, and what its event loop does with each event of `epoll_wait`.
pub mod Table
pub mod Clients
pub mod Events
pub mod Threads
pub mod Storage
pub mod Answers
pub mod Poll
use velox_db.Prelude.{
  ℕ, suc, Bytes, codes, List, [], ◌∷◌, ◌++◌, Option, none, some, Bool, true, false, not, ◌&&◌, ◌||◌,
  ◌==◌, if◌then◌else◌,
}
use velox_db.Metrics.{connection_opened, connection_closed}
use velox_db.Commands.Context.{CommandContext, Call}
use velox_db.Commands.Registry.{CommandRegistry}
use velox_db.Net.Connection.{
  Connection, new_connection, Served, ReadOutcome, read_from, WriteOutcome, write_to, is_empty,
}

pub record PendingConnection : Type 0 where
  pub fd : ℕ
  pub peer : Bytes

-- A connection with the bytes that its socket took.
pub record Client : Type 0 where
  pub conn : Connection
  pub delivered : Bytes

-- `connections_` is a map from the descriptor: the list holds each descriptor once. The context is
-- what the worker shares with the rest of the server; `count` is the number of commands run.
pub record Worker : Type 0 where
  pub connections : List Client
  pub pending : List PendingConnection
  pub ctx : CommandContext
  pub count : ℕ

-- The queue is emptied by the worker when the wake-up byte arrives.
abbrev pub add_connection : ℕ → Bytes → Worker → Worker
add_connection fd peer w = record w { pending = w.pending ++ record { fd = fd; peer = peer } ∷ [] }

unfoldable pub find_client : ℕ → List Client → Option Client
find_client fd [] = none
find_client fd (c ∷ cs) = if c.conn.fd == fd then some c else find_client fd cs

unfoldable pub erase_client : ℕ → List Client → List Client
erase_client fd [] = []
erase_client fd (c ∷ cs) = let rest = erase_client fd cs in if c.conn.fd == fd then cs else c ∷ rest

unfoldable pub replace_client : Client → List Client → List Client
replace_client d [] = []
replace_client d (c ∷ cs) =
    let rest = replace_client d cs in if c.conn.fd == d.conn.fd then d ∷ cs else c ∷ rest

-- One queued connection: a descriptor that is in the table is closed and not installed, and so is
-- one that cannot be registered with epoll.
installed : Bool → PendingConnection → Worker → Option Client → Worker
unfolding connection_opened
installed registers p w (some _) = w
installed registers p w none =
    if registers
    then record w {
      connections =
          w.connections
          ++ record { conn = new_connection p.fd p.peer w.ctx.config.protocol; delivered = [] }
            ∷ [];
      ctx = record w.ctx { metrics = connection_opened w.ctx.metrics };
    }
    else w

-- `registers` tells which descriptors `epoll_ctl` accepts.
unfoldable pub install_all : (ℕ → Bool) → List PendingConnection → Worker → Worker
unfolding installed find_client
install_all registers [] w = w
install_all registers (p ∷ ps) w =
    install_all registers ps (installed (registers p.fd) p w (find_client p.fd w.connections))

unfoldable pub install_pending : (ℕ → Bool) → Worker → Worker
unfolding install_all
install_pending registers w = install_all registers w.pending (record w { pending = [] })

closed_client : ℕ → Worker → Option Client → Worker
unfolding connection_closed erase_client
closed_client fd w none = w
closed_client fd w (some _) = record w {
  connections = erase_client fd w.connections;
  ctx = record w.ctx { metrics = connection_closed w.ctx.metrics };
}

unfoldable pub close_connection : ℕ → Worker → Worker
unfolding closed_client find_client
close_connection fd w = closed_client fd w (find_client fd w.connections)

close_each : List Client → CommandContext → CommandContext
unfolding connection_closed
close_each [] ctx = ctx
close_each (c ∷ cs) ctx = close_each cs (record ctx { metrics = connection_closed ctx.metrics })

unfoldable pub close_all_connections : Worker → Worker
unfolding close_each
close_all_connections w = record w { connections = []; ctx = close_each w.connections w.ctx }

-- The events of one descriptor, with the answers to the reads and writes that they lead to: an error
-- is EPOLLERR, a hang-up is EPOLLHUP or EPOLLRDHUP. The update of the events that epoll watches, which
-- changes no state of the worker, is left out.
pub record ClientEvent : Type 0 where
  pub fd : ℕ
  pub error : Bool
  pub readable : Bool
  pub writable : Bool
  pub hung_up : Bool
  pub reads : List ReadOutcome
  pub writes : List WriteOutcome

pub data Event : Type 0 where
  wakeup : (ℕ → Bool) → Event
  client : ClientEvent → Event

module _ (registry : CommandRegistry) (calls : ℕ → Call) where
  abbrev pub reading : ClientEvent → Served → Bool × Served
  reading e s = if e.readable then read_from registry calls e.reads s else (true, s)

  abbrev pub writing : ClientEvent → Served → Bool × Served
  writing e s = if e.writable then write_to e.writes s else (true, s)

  hanging : ClientEvent → Served → Bool × Served
  hanging e s = (e.hung_up && is_empty s.conn.write_buffer, s)

  after_write : ClientEvent → Bool × Served → Bool × Served
  unfolding hanging
  after_write e (true, s) = hanging e s
  after_write e (false, s) = (true, s)

  after_read : ClientEvent → Bool × Served → Bool × Served
  unfolding after_write write_to
  after_read e (true, s) = after_write e (writing e s)
  after_read e (false, s) = (true, s)

  -- Whether the connection is to be closed, and what the event left.
  unfoldable pub handle_event : ClientEvent → Served → Bool × Served
  unfolding after_read read_from
  handle_event e s = if e.error then (true, s) else after_read e (reading e s)

  abbrev pub served_by : Worker → Client → Served
  served_by w c = record { conn = c.conn; ctx = w.ctx; count = w.count; delivered = c.delivered }

  abbrev pub keep : Worker → Served → Worker
  keep w s = record w {
    connections = replace_client (record { conn = s.conn; delivered = s.delivered }) w.connections;
    ctx = s.ctx;
    count = s.count;
  }

  handled : ClientEvent → Worker → Option Client → List ℕ × Worker
  unfolding handle_event replace_client
  handled e w none = ([], w)
  handled e w (some c) =
      let (should_close, s) = handle_event e (served_by w c) in
      (if should_close then e.fd ∷ [] else [], keep w s)

  -- The descriptors to close, and the worker behind the event.
  unfoldable pub event_round : Event → Worker → List ℕ × Worker
  unfolding handled install_pending find_client
  event_round (wakeup registers) w = ([], install_pending registers w)
  event_round (client e) w = handled e w (find_client e.fd w.connections)

  unfoldable pub event_rounds : List Event → Worker → List ℕ × Worker
  unfolding event_round
  event_rounds [] w = ([], w)
  event_rounds (e ∷ es) w =
      let (now, w') = event_round e w in
      let (later, w'') = event_rounds es w' in (now ++ later, w'')

  unfoldable pub close_list : List ℕ → Worker → Worker
  unfolding close_connection
  close_list [] w = w
  close_list (fd ∷ fds) w = close_list fds (close_connection fd w)

  -- One round of `loop_epoll`: the events of one wait, then the connections to close.
  unfoldable pub loop_round : List Event → Worker → Worker
  unfolding event_rounds close_list
  loop_round es w = let (fds, w') = event_rounds es w in close_list fds w'

  -- The loop until `stopping_` is seen, with the events of each wait.
  unfoldable pub loop_epoll : List (List Event) → Worker → Worker
  unfolding loop_round close_all_connections
  loop_epoll [] w = close_all_connections w
  loop_epoll (es ∷ rest) w = loop_epoll rest (loop_round es w)
