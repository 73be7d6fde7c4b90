-- ===== src/Net/Worker/Threads.antt =====
-- The workers of src/net/tcp_server.cpp and its acceptor as a step relation: what the threads do in
-- turn to the tables and queues of all workers and to the state that the workers share.
use velox_db.Prelude.{
  ℕ, ◌+◌, ◌<◌, ◌^◌, Bytes, List, [], ◌∷◌, ◌++◌, All, length, length-append, ◌≡◌, ap, ◌∙◌, arith,
}
use velox_db.Commands.Context.{CommandContext, Call}
use velox_db.Commands.Registry.{CommandRegistry, execute}
use velox_db.Commands.Clients.{connected, KeepsClients}
use velox_db.Net.Worker.{
  PendingConnection, Client, Worker, Event, event_round, close_connection, close_all_connections,
  add_connection,
}
use velox_db.Net.Worker.Table.{IsUnique}
use velox_db.Net.Worker.Events.{event_round-IsCounted}
use velox_db.Net.Worker.Clients.{
  IsCounted, close_connection-IsCounted, close_all_connections-connected,
}

-- What a worker has to itself: its table of connections and its queue.
pub record Seat : Type 0 where
  pub connections : List Client
  pub pending : List PendingConnection

-- All workers, with the context that they share and the number of commands run.
pub record Shared : Type 0 where
  pub seats : List Seat
  pub ctx : CommandContext
  pub count : ℕ

abbrev pub worker_at : Shared → Seat → Worker
worker_at s v = record {
  connections = v.connections;
  pending = v.pending;
  ctx = s.ctx;
  count = s.count;
}

-- The server with a worker between those before it and those behind it.
abbrev pub with_worker : List Seat → Worker → List Seat → Shared
with_worker before w after = record {
  seats = before ++ record { connections = w.connections; pending = w.pending } ∷ after;
  ctx = w.ctx;
  count = w.count;
}

abbrev pub connections_in : List Seat → ℕ
connections_in [] = 0
connections_in (v ∷ vs) = length v.connections + connections_in vs

abbrev pub queued_in : List Seat → ℕ
queued_in [] = 0
queued_in (v ∷ vs) = length v.pending + queued_in vs

-- What the thread of a worker does at a time: it handles one event, which may be the wake-up that
-- installs its queue, closes a connection, or closes all of them when it stops.
pub data WorkerStep (registry : CommandRegistry) (calls : ℕ → Call) (w : Worker)
    : Worker → Type 0 where
  handles : (e : Event) → WorkerStep registry calls w (event_round registry calls e w).1
  closes : (fd : ℕ) → WorkerStep registry calls w (close_connection fd w)
  stops : WorkerStep registry calls w (close_all_connections w)

-- A step of any worker, or of the acceptor, which queues a connection for one, the descriptors being
-- fewer than 2 ^ 64.
pub data ServerStep (registry : CommandRegistry) (calls : ℕ → Call) (s : Shared)
    : Shared → Type 0 where
  enqueue :
      (before after : List Seat) (v : Seat) (fd : ℕ) (peer : Bytes)
      → s.seats ≡ before ++ v ∷ after
      → connections_in s.seats + queued_in s.seats + 1 < 2 ^ 64
      → ServerStep registry calls s
          (with_worker before (add_connection fd peer (worker_at s v)) after)
  turn :
      (before after : List Seat) (v : Seat) (w : Worker)
      → s.seats ≡ before ++ v ∷ after
      → WorkerStep registry calls (worker_at s v) w
      → ServerStep registry calls s (with_worker before w after)

pub data ServerReach (registry : CommandRegistry) (calls : ℕ → Call) (s : Shared)
    : Shared → Type 0 where
  here : ServerReach registry calls s s
  next :
      {t u : Shared}
      → ServerReach registry calls s t
      → ServerStep registry calls t u
      → ServerReach registry calls s u

-- The counter is the number of all connections, each worker has a descriptor once, and the counter
-- has room for those that are queued.
pub record IsConsistent (s : Shared) : Type 0 where
  pub counted : connected s.ctx ≡ connections_in s.seats
  pub unique : All (λ v. IsUnique v.connections) s.seats
  pub room : connections_in s.seats + queued_in s.seats < 2 ^ 64

connections_in-middle :
    (before after : List Seat) (v : Seat)
    → connections_in (before ++ v ∷ after) ≡ connections_in (before ++ after) + length v.connections
connections_in-middle [] after v = omega arith
connections_in-middle (u ∷ before) after v =
    let rest = connections_in-middle before after v in omega arith

queued_in-middle :
    (before after : List Seat) (v : Seat)
    → queued_in (before ++ v ∷ after) ≡ queued_in (before ++ after) + length v.pending
queued_in-middle [] after v = omega arith
queued_in-middle (u ∷ before) after v = let rest = queued_in-middle before after v in omega arith

abbrev AllUnique : List Seat → Type 0
AllUnique = All (λ v. IsUnique v.connections)

AllUnique-middle :
    (before after : List Seat) (v : Seat)
    → AllUnique (before ++ v ∷ after)
    → IsUnique v.connections × AllUnique (before ++ after)
AllUnique-middle [] after v (h, hs) = (h, hs)
AllUnique-middle (u ∷ before) after v (h, hs) =
    let rest = AllUnique-middle before after v hs in (rest.0, (h, rest.1))

AllUnique-put :
    (before after : List Seat) (v : Seat)
    → IsUnique v.connections
    → AllUnique (before ++ after)
    → AllUnique (before ++ v ∷ after)
AllUnique-put [] after v h hs = (h, hs)
AllUnique-put (u ∷ before) after v h (k, hs) = (k, AllUnique-put before after v h hs)

-- One worker, seen among the others.
module _ (before after : List Seat) where
  abbrev Among : Worker → Type 0
  Among w = IsCounted (connections_in (before ++ after)) (queued_in (before ++ after)) w

  IsConsistent-Among :
      (s : Shared) (v : Seat)
      → s.seats ≡ before ++ v ∷ after
      → IsConsistent s
      → Among (worker_at s v) × AllUnique (before ++ after)
  IsConsistent-Among s v e h =
      let c = connections_in-middle before after v in
      let q = queued_in-middle before after v in
      let n = ap connections_in e in
      let p = ap queued_in e in
      let counted = h.counted in
      let room = h.room in
      let u = AllUnique-middle before after v (rw e at h.unique) in
      (record { counted = omega arith; unique = u.0; room = omega arith }, u.1)

  Among-IsConsistent :
      (w : Worker)
      → Among w
      → AllUnique (before ++ after)
      → IsConsistent (with_worker before w after)
  Among-IsConsistent w h u =
      let v : Seat = record { connections = w.connections; pending = w.pending } in
      let c = connections_in-middle before after v in
      let q = queued_in-middle before after v in
      let counted = h.counted in
      let room = h.room in
      record {
        counted = omega arith;
        unique = AllUnique-put before after v h.unique u;
        room = omega arith;
      }

module _ (registry : CommandRegistry) (calls : ℕ → Call)
    (keeps : KeepsClients (execute registry)) where
  WorkerStep-IsCounted :
      (others reserved : ℕ) (w t : Worker)
      → WorkerStep registry calls w t
      → IsCounted others reserved w
      → IsCounted others reserved t
  WorkerStep-IsCounted others reserved w _ (handles e) h =
      event_round-IsCounted registry calls keeps others reserved e w h
  WorkerStep-IsCounted others reserved w _ (closes fd) h =
      close_connection-IsCounted others reserved fd w h
  WorkerStep-IsCounted others reserved w _ stops h =
      let none_left = close_all_connections-connected others reserved w h in
      let room = h.room in
      unfold close_all_connections in
      record { counted = none_left ∙ omega arith; unique = tt; room = omega arith }

  ServerStep-IsConsistent :
      (s t : Shared) → ServerStep registry calls s t → IsConsistent s → IsConsistent t
  ServerStep-IsConsistent s _ (enqueue before after v fd peer e more) h =
      let i = IsConsistent-Among before after s v e h in
      let c = connections_in-middle before after v in
      let q = queued_in-middle before after v in
      let n = ap connections_in e in
      let p = ap queued_in e in
      let longer = length-append v.pending (record { fd = fd; peer = peer } ∷ []) in
      let j = i.0 in
      Among-IsConsistent before after (add_connection fd peer (worker_at s v))
        (record { counted = j.counted; unique = j.unique; room = omega arith }) i.1
  ServerStep-IsConsistent s _ (turn before after v w e step) h =
      let i = IsConsistent-Among before after s v e h in
      Among-IsConsistent before after w
        (WorkerStep-IsCounted (connections_in (before ++ after)) (queued_in (before ++ after))
          (worker_at s v) w step i.0)
        i.1

  -- The threads of any number of workers handle events, close connections and stop, and the
  -- acceptor queues connections for any of them, in any order: the counter of connected clients
  -- stays the number of connections in the tables of all workers, and no worker has two connections
  -- with one descriptor. The commands keep the counter, and the installed and queued connections
  -- stay fewer than 2 ^ 64.
  pub ServerReach-IsConsistent :
      {s t : Shared} → IsConsistent s → ServerReach registry calls s t → IsConsistent t
  ServerReach-IsConsistent h here = h
  ServerReach-IsConsistent {s} h (next {t} {u} r st) =
      ServerStep-IsConsistent t u st (ServerReach-IsConsistent h r)
