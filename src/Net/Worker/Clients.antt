-- ===== src/Net/Worker/Clients.antt =====
-- The count of connected clients, which the workers of src/net/tcp_server.cpp share, against the
-- tables of connections.
use velox_db.Prelude.{
  ℕ, suc, ◌+◌, ◌^◌, ◌<◌, List, [], ◌∷◌, ◌++◌, Option, none, some, Option-cases, Bool, true, false,
  length, length-append, if◌then◌else◌, inl, inr, ◌≡◌, refl, ◌∙◌, arith,
}
use velox_db.Metrics.{Metrics, connection_opened, connection_closed}
use velox_db.Commands.Context.{CommandContext}
use velox_db.Net.Connection.{new_connection}
use velox_db.Commands.Clients.{connected}
use velox_db.Net.Worker.{
  PendingConnection, Client, Worker, find_client, erase_client, installed, install_all,
  install_pending, closed_client, close_connection, close_each, close_all_connections,
}
use velox_db.Net.Worker.Table.{
  IsUnique, append_last-IsUnique, erase_client-IsUnique, length-erase_client,
}

pub connection_opened-room :
    (m : Metrics) (n : ℕ)
    → m.connected_clients ≡ n
    → n + 1 < 2 ^ 64
    → (connection_opened m).connected_clients ≡ n + 1
unfolding connection_opened
connection_opened-room m n e h = omega arith

pub connection_closed-positive :
    (m : Metrics) (n : ℕ)
    → m.connected_clients ≡ n + 1
    → (connection_closed m).connected_clients ≡ n
unfolding connection_closed
connection_closed-positive m n e = ground arith

abbrev with_client : Worker → Client → Worker
with_client w d = record w {
  connections = w.connections ++ d ∷ [];
  ctx = record w.ctx { metrics = connection_opened w.ctx.metrics };
}

abbrev client_of : PendingConnection → Worker → Client
client_of p w = record { conn = new_connection p.fd p.peer w.ctx.config.protocol; delivered = [] }

module _ (others reserved : ℕ) where
  -- The counter holds the connections of this worker and those of the others, and it has room for
  -- those that are queued here, and for others that are reserved.
  pub record Counts (queued : ℕ) (w : Worker) : Type 0 where
    pub counted : connected w.ctx ≡ others + length w.connections
    pub unique : IsUnique w.connections
    pub room : others + reserved + length w.connections + queued < 2 ^ 64

  abbrev pub IsCounted : Worker → Type 0
  IsCounted w = Counts (length w.pending) w

  opened-Counts :
      (d : Client) (n : ℕ) (w : Worker)
      → find_client d.conn.fd w.connections ≡ none
      → Counts (suc n) w
      → Counts n (with_client w d)
  opened-Counts d n w e h =
      let r = h.room in
      let c = h.counted in
      let one = length-append w.connections (d ∷ []) in
      record {
        counted =
            connection_opened-room w.ctx.metrics (others + length w.connections) c (omega arith)
            ∙ omega arith;
        unique = append_last-IsUnique w.connections d h.unique e;
        room = omega arith;
      }

  fewer-Counts : (n : ℕ) (w : Worker) → Counts (suc n) w → Counts n w
  fewer-Counts n w h =
      let r = h.room in record { counted = h.counted; unique = h.unique; room = omega arith }

  installed-Counts :
      (registers : Bool) (p : PendingConnection) (n : ℕ) (w : Worker)
      → Counts (suc n) w
      → Counts n (installed registers p w (find_client p.fd w.connections))
  unfolding installed
  installed-Counts registers p n w h = elim (Option-cases (find_client p.fd w.connections)) [
    | inl e ↦
        rw e (elim registers as (λ b. Counts n (if b then with_client w (client_of p w) else w)) [
          | true ↦ opened-Counts (client_of p w) n w e h
          | false ↦ fewer-Counts n w h
        ])
    | inr (c, e) ↦ rw e (fewer-Counts n w h)
  ]

  install_all-Counts :
      (registers : ℕ → Bool) (ps : List PendingConnection) (w : Worker)
      → Counts (length ps) w
      → Counts 0 (install_all registers ps w)
  unfolding install_all
  install_all-Counts registers [] w h = h
  install_all-Counts registers (p ∷ ps) w h =
      install_all-Counts registers ps
        (installed (registers p.fd) p w (find_client p.fd w.connections))
        (installed-Counts (registers p.fd) p (length ps) w h)

  closed-Counts :
      (fd : ℕ) (c : Client) (n : ℕ) (w : Worker)
      → find_client fd w.connections ≡ some c
      → Counts n w
      → Counts n (record w {
        connections = erase_client fd w.connections;
        ctx = record w.ctx { metrics = connection_closed w.ctx.metrics };
      })
  closed-Counts fd c n w e h =
      let r = h.room in
      let one = length-erase_client fd c w.connections e in
      let before = h.counted in
      record {
        counted =
            connection_closed-positive w.ctx.metrics
              (others + length (erase_client fd w.connections)) (omega arith);
        unique = erase_client-IsUnique fd w.connections h.unique;
        room = omega arith;
      }

  pub close_connection-Counts :
      (fd n : ℕ) (w : Worker) → Counts n w → Counts n (close_connection fd w)
  unfolding close_connection closed_client
  close_connection-Counts fd n w h = elim (Option-cases (find_client fd w.connections)) [
    | inl e ↦ rw e h
    | inr (c, e) ↦ rw e (closed-Counts fd c n w e h)
  ]

  close_each-connected :
      (cs : List Client) (ctx : CommandContext)
      → connected ctx ≡ others + length cs
      → connected (close_each cs ctx) ≡ others
  unfolding close_each
  close_each-connected [] ctx h = omega arith
  close_each-connected (c ∷ cs) ctx h =
      close_each-connected cs (record ctx { metrics = connection_closed ctx.metrics })
        (connection_closed-positive ctx.metrics (others + length cs) (omega arith))

  installed-pending :
      (registers : Bool) (p : PendingConnection) (w : Worker) (c : Option Client)
      → (installed registers p w c).pending ≡ w.pending
  unfolding installed
  installed-pending registers p w (some c) = refl
  installed-pending true p w none = refl
  installed-pending false p w none = refl

  install_all-pending :
      (registers : ℕ → Bool) (ps : List PendingConnection) (w : Worker)
      → (install_all registers ps w).pending ≡ w.pending
  unfolding install_all
  install_all-pending registers [] w = refl
  install_all-pending registers (p ∷ ps) w =
      install_all-pending registers ps
        (installed (registers p.fd) p w (find_client p.fd w.connections))
      ∙ installed-pending (registers p.fd) p w (find_client p.fd w.connections)

  pub install_pending-IsCounted :
      (registers : ℕ → Bool) (w : Worker) → IsCounted w → IsCounted (install_pending registers w)
  unfolding install_pending
  install_pending-IsCounted registers w h =
      let v = record w { pending = [] } in
      let h' : Counts (length w.pending) v = record {
        counted = h.counted;
        unique = h.unique;
        room = h.room;
      } in
      rw (install_all-pending registers w.pending v) (install_all-Counts registers w.pending v h')

  pub close_connection-IsCounted :
      (fd : ℕ) (w : Worker) → IsCounted w → IsCounted (close_connection fd w)
  unfolding close_connection
  close_connection-IsCounted fd w h =
      rw (close_connection-pending fd w) (close_connection-Counts fd (length w.pending) w h)
    where
      close_connection-pending : (fd : ℕ) (w : Worker) → (close_connection fd w).pending ≡ w.pending
      close_connection-pending fd w =
          unfold close_connection closed_client in
          elim (find_client fd w.connections) as (λ c. (closed_client fd w c).pending ≡ w.pending) [
            | none ↦ refl
            | some c ↦ refl
          ]

  -- When the worker stops, the counter is that of the other workers.
  pub close_all_connections-connected :
      (w : Worker) → IsCounted w → connected (close_all_connections w).ctx ≡ others
  unfolding close_all_connections
  close_all_connections-connected w h = close_each-connected w.connections w.ctx h.counted
