-- ===== src/Net/Worker/Storage.antt =====
-- Whatever arrives at the sockets of a worker of src/net/tcp_server.cpp, the storage engine stays in
-- order.
use velox_db.Prelude.{ℕ, Bytes, List, [], ◌∷◌, Option, none, some, Bool, true, false}
use velox_db.Metrics.{Metrics, command_processed, connection_opened, connection_closed}
use velox_db.Storage.Engine.Shards.{IsSound}
use velox_db.Commands.Admin.{Checkpoints}
use velox_db.Commands.Sound.{execute-IsSound}
use velox_db.Commands.Sound.Admin.{IsCheckpoints}
use velox_db.Net.Worker.Events.{handle_event-Framed}
use velox_db.Commands.Context.{CommandContext, Call}
use velox_db.Commands.Registry.{CommandRegistry, default_commands}
use velox_db.Net.Connection.Frame.{Keeps}
use velox_db.Net.Worker.{
  PendingConnection, installed, install_all, closed_client, close_each, Client, Worker, ClientEvent,
  Event, wakeup, client, find_client, served_by, handled, event_round, event_rounds, close_list,
  loop_round, loop_epoll, close_connection, install_pending, close_all_connections,
}

-- A predicate that the metrics do not enter.
abbrev Unmetered : (CommandContext → Type 0) → Type 0
Unmetered P = (ctx : CommandContext) (m : Metrics) → P ctx → P (record ctx { metrics = m })

module _ (P : CommandContext → Type 0) (unmetered : Unmetered P) where
  installed-keeps :
      (registers : Bool) (p : PendingConnection) (w : Worker) (c : Option Client)
      → P w.ctx
      → P (installed registers p w c).ctx
  unfolding installed
  installed-keeps registers p w (some c) h = h
  installed-keeps true p w none h = unmetered w.ctx (connection_opened w.ctx.metrics) h
  installed-keeps false p w none h = h

  install_all-keeps :
      (registers : ℕ → Bool) (ps : List PendingConnection) (w : Worker)
      → P w.ctx
      → P (install_all registers ps w).ctx
  unfolding install_all
  install_all-keeps registers [] w h = h
  install_all-keeps registers (p ∷ ps) w h =
      let c = find_client p.fd w.connections in
      install_all-keeps registers ps (installed (registers p.fd) p w c)
        (installed-keeps (registers p.fd) p w c h)

  closed_client-keeps :
      (fd : ℕ) (w : Worker) (c : Option Client) → P w.ctx → P (closed_client fd w c).ctx
  unfolding closed_client
  closed_client-keeps fd w none h = h
  closed_client-keeps fd w (some c) h = unmetered w.ctx (connection_closed w.ctx.metrics) h

  close_each-keeps : (cs : List Client) (ctx : CommandContext) → P ctx → P (close_each cs ctx)
  unfolding close_each
  close_each-keeps [] ctx h = h
  close_each-keeps (c ∷ cs) ctx h =
      close_each-keeps cs (record ctx { metrics = connection_closed ctx.metrics })
        (unmetered ctx (connection_closed ctx.metrics) h)

  module _ (registry : CommandRegistry) (calls : ℕ → Call) (keeps : Keeps P registry) where
    handled-keeps :
        (e : ClientEvent) (w : Worker) (c : Option Client)
        → P w.ctx
        → P (handled registry calls e w c).1.ctx
    unfolding handled
    handled-keeps e w none h = h
    handled-keeps e w (some c) h =
        (handle_event-Framed P registry calls keeps e (served_by registry calls w c)).1 h

    event_round-keeps :
        (e : Event) (w : Worker) → P w.ctx → P (event_round registry calls e w).1.ctx
    unfolding event_round
    event_round-keeps (wakeup registers) w h =
        unfold install_pending in
        install_all-keeps registers w.pending (record w { pending = [] }) h
    event_round-keeps (client e) w h = handled-keeps e w (find_client e.fd w.connections) h

    event_rounds-keeps :
        (es : List Event) (w : Worker) → P w.ctx → P (event_rounds registry calls es w).1.ctx
    unfolding event_rounds
    event_rounds-keeps [] w h = h
    event_rounds-keeps (e ∷ es) w h =
        event_rounds-keeps es (event_round registry calls e w).1 (event_round-keeps e w h)

    close_list-keeps :
        (fds : List ℕ) (w : Worker) → P w.ctx → P (close_list registry calls fds w).ctx
    unfolding close_list
    close_list-keeps [] w h = h
    close_list-keeps (fd ∷ fds) w h =
        close_list-keeps fds (close_connection fd w)
          (unfold close_connection in closed_client-keeps fd w (find_client fd w.connections) h)

    loop_epoll-keeps :
        (rounds : List (List Event)) (w : Worker)
        → P w.ctx
        → P (loop_epoll registry calls rounds w).ctx
    unfolding loop_epoll loop_round close_all_connections
    loop_epoll-keeps [] w h = close_each-keeps w.connections w.ctx h
    loop_epoll-keeps (es ∷ rounds) w h =
        let r = event_rounds registry calls es w in
        loop_epoll-keeps rounds (close_list registry calls r.0 r.1)
          (close_list-keeps r.0 r.1 (event_rounds-keeps es w h))

-- A worker that serves its connections with the default registry, over any rounds of events,
-- whatever arrives and whatever the reads and writes answer, keeps the invariant of the storage
-- engine, where the checkpoints of the persistence layer keep it.
pub loop_epoll-IsSound :
    (hash : Bytes → ℕ) (points : Checkpoints) (calls : ℕ → Call) (rounds : List (List Event))
    (w : Worker)
    → IsCheckpoints points
    → IsSound w.ctx.storage
    → IsSound (loop_epoll (default_commands hash points) calls rounds w).ctx.storage
loop_epoll-IsSound hash points calls rounds w laws h =
    loop_epoll-keeps (λ ctx. IsSound ctx.storage) (λ ctx m s. s) (default_commands hash points)
      calls
      (λ call ctx args s.
        execute-IsSound hash points laws call
          (record ctx { replay = false; metrics = command_processed ctx.metrics }) args s)
      rounds w h
