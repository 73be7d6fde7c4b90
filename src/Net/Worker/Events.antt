-- ===== src/Net/Worker/Events.antt =====
-- The event loop of a worker of src/net/tcp_server.cpp, among the other threads of the server.
use velox_db.Prelude.{
  ℕ, List, [], ◌∷◌, Option, none, some, Bool, true, false, if◌then◌else◌, ◌≡◌, refl, ◌∙◌, arith,
}
use velox_db.Commands.Context.{CommandContext, Call}
use velox_db.Commands.Registry.{CommandRegistry, execute}
use velox_db.Net.Connection.{Served, read_from, write_to}
use velox_db.Commands.Clients.{connected, KeepsClients}
use velox_db.Net.Connection.Frame.{
  Keeps, Framed, Framed-refl, KeepsClients-Keeps, read_from-Framed, write_to-Framed,
}
use velox_db.Net.Worker.{
  Client, Worker, ClientEvent, Event, wakeup, client, find_client, reading, writing, hanging,
  after_write, after_read, handle_event, served_by, keep, handled, event_round, event_rounds,
  close_list, loop_round, loop_epoll, close_connection,
}
use velox_db.Net.Worker.Table.{replace_client-IsUnique, length-replace_client}
use velox_db.Net.Worker.Clients.{
  IsCounted, install_pending-IsCounted, close_connection-IsCounted, close_all_connections-connected,
}

module _ (P : CommandContext → Type 0) (registry : CommandRegistry) (calls : ℕ → Call)
    (keeps : Keeps P registry) where
  if-Framed :
      (s : Served) (b : Bool) (x y : Bool × Served)
      → Framed P s x
      → Framed P s y
      → Framed P s (if b then x else y)
  if-Framed s true x y hx hy = hx
  if-Framed s false x y hx hy = hy

  after_write-Framed :
      (e : ClientEvent) (s : Served) (r : Bool × Served)
      → Framed P s r
      → Framed P s (after_write registry calls e r)
  unfolding after_write hanging
  after_write-Framed e s (true, t) h = h
  after_write-Framed e s (false, t) h = h

  after_read-Framed :
      (e : ClientEvent) (s : Served) (r : Bool × Served)
      → Framed P s r
      → Framed P s (after_read registry calls e r)
  unfolding after_read
  after_read-Framed e s (false, t) h = h
  after_read-Framed e s (true, t) h =
      let w =
        if-Framed t e.writable (write_to e.writes t) (true, t) (write_to-Framed P e.writes t)
          (Framed-refl P true t) in
      after_write-Framed e s (writing registry calls e t) (w.0 ∙ h.0, λ q. w.1 (h.1 q))

  -- One event of a connection.
  pub handle_event-Framed :
      (e : ClientEvent) (s : Served) → Framed P s (handle_event registry calls e s)
  unfolding handle_event
  handle_event-Framed e s =
      if-Framed s e.error (true, s) (after_read registry calls e (reading registry calls e s))
        (Framed-refl P true s)
        (after_read-Framed e s (reading registry calls e s) (
          if-Framed s e.readable (read_from registry calls e.reads s) (true, s)
            (read_from-Framed P registry calls keeps e.reads s) (Framed-refl P true s)))

module _ (registry : CommandRegistry) (calls : ℕ → Call)
    (keeps : KeepsClients (execute registry)) where
  module _ (others reserved : ℕ) where
    keep-IsCounted :
        (w : Worker) (s : Served)
        → connected s.ctx ≡ connected w.ctx
        → IsCounted others reserved w
        → IsCounted others reserved (keep registry calls w s)
    keep-IsCounted w s e h =
        let d : Client = record { conn = s.conn; delivered = s.delivered } in
        let n = length-replace_client d w.connections in
        let r = h.room in
        let c = h.counted in
        record {
          counted = e ∙ omega arith;
          unique = replace_client-IsUnique d w.connections h.unique;
          room = omega arith;
        }

    handled-IsCounted :
        (e : ClientEvent) (w : Worker) (c : Option Client)
        → IsCounted others reserved w
        → IsCounted others reserved (handled registry calls e w c).1
    unfolding handled
    handled-IsCounted e w none h = h
    handled-IsCounted e w (some c) h =
        let s = served_by registry calls w c in
        let same = KeepsClients-Keeps registry (connected w.ctx) keeps in
        keep-IsCounted w (handle_event registry calls e s).1
          ((handle_event-Framed (λ ctx. connected ctx ≡ connected w.ctx) registry calls same e s).1
            refl)
          h

    pub event_round-IsCounted :
        (e : Event) (w : Worker)
        → IsCounted others reserved w
        → IsCounted others reserved (event_round registry calls e w).1
    unfolding event_round
    event_round-IsCounted (wakeup registers) w h =
        install_pending-IsCounted others reserved registers w h
    event_round-IsCounted (client e) w h = handled-IsCounted e w (find_client e.fd w.connections) h

    event_rounds-IsCounted :
        (es : List Event) (w : Worker)
        → IsCounted others reserved w
        → IsCounted others reserved (event_rounds registry calls es w).1
    unfolding event_rounds
    event_rounds-IsCounted [] w h = h
    event_rounds-IsCounted (e ∷ es) w h =
        event_rounds-IsCounted es (event_round registry calls e w).1 (event_round-IsCounted e w h)

    close_list-IsCounted :
        (fds : List ℕ) (w : Worker)
        → IsCounted others reserved w
        → IsCounted others reserved (close_list registry calls fds w)
    unfolding close_list
    close_list-IsCounted [] w h = h
    close_list-IsCounted (fd ∷ fds) w h =
        close_list-IsCounted fds (close_connection fd w)
          (close_connection-IsCounted others reserved fd w h)

    pub loop_round-IsCounted :
        (es : List Event) (w : Worker)
        → IsCounted others reserved w
        → IsCounted others reserved (loop_round registry calls es w)
    unfolding loop_round
    loop_round-IsCounted es w h =
        let r = event_rounds registry calls es w in
        close_list-IsCounted r.0 r.1 (event_rounds-IsCounted es w h)

    -- A worker that runs over any rounds of events and then stops leaves the counter of connected
    -- clients at the number of the connections of the other workers.
    pub loop_epoll-connected :
        (rounds : List (List Event)) (w : Worker)
        → IsCounted others reserved w
        → connected (loop_epoll registry calls rounds w).ctx ≡ others
    unfolding loop_epoll
    loop_epoll-connected [] w h = close_all_connections-connected others reserved w h
    loop_epoll-connected (es ∷ rounds) w h =
        loop_epoll-connected rounds (loop_round registry calls es w) (loop_round-IsCounted es w h)
