-- ===== src/Net/Worker/Poll.antt =====
-- The loop of a worker of src/net/tcp_server.cpp on systems without epoll, and what it has in common
-- with the one on epoll. Its events are those of `poll`: an error is POLLERR or POLLNVAL, a
-- hang-up is POLLHUP alone.
use velox_db.Prelude.{
  ℕ, List, [], ◌∷◌, ◌++◌, map, Option, none, some, Bool, true, false, not, ◌&&◌, if◌then◌else◌,
  Bool-cases, inl, inr, ◌≡◌, refl, ap, ◌∙◌,
}
use velox_db.Commands.Context.{Call}
use velox_db.Commands.Registry.{CommandRegistry}
use velox_db.Net.Connection.{Served, is_empty}
use velox_db.Net.Worker.{
  Client, Worker, ClientEvent, Event, wakeup, client, reading, writing, hanging, after_write,
  after_read, handle_event, served_by, keep, handled, event_round, event_rounds, close_list,
  loop_round, loop_epoll, find_client, install_pending, close_all_connections,
}

-- What one call of `poll` reports: whether the wake-up pipe can be read, with the descriptors that
-- can be installed then, and the events of the connections.
pub record PollRound : Type 0 where
  pub woken : Option (ℕ → Bool)
  pub events : List ClientEvent

module _ (registry : CommandRegistry) (calls : ℕ → Call) where
  -- The tests of the loop in turn, each of which may end it for this connection.
  unfoldable pub handle_poll : ClientEvent → Served → Bool × Served
  handle_poll e s =
      let (readable, t) = reading registry calls e s in
      let (writable, u) = writing registry calls e t in
      if e.error
      then (true, s)
      else if not readable
      then (true, t)
      else if not writable
      then (true, u)
      else (e.hung_up && is_empty u.conn.write_buffer, u)

  polled : ClientEvent → Worker → Option Client → List ℕ × Worker
  unfolding handle_poll
  polled e w none = ([], w)
  polled e w (some c) =
      let (should_close, s) = handle_poll e (served_by registry calls w c) in
      (if should_close then e.fd ∷ [] else [], keep registry calls w s)

  unfoldable pub poll_events : List ClientEvent → Worker → List ℕ × Worker
  unfolding polled find_client
  poll_events [] w = ([], w)
  poll_events (e ∷ es) w =
      let (now, w') = polled e w (find_client e.fd w.connections) in
      let (later, w'') = poll_events es w' in (now ++ later, w'')

  woken_worker : Option (ℕ → Bool) → Worker → Worker
  unfolding install_pending
  woken_worker none w = w
  woken_worker (some registers) w = install_pending registers w

  unfoldable pub poll_round : PollRound → Worker → Worker
  unfolding poll_events woken_worker close_list
  poll_round r w =
      let (fds, w') = poll_events r.events (woken_worker r.woken w) in
      close_list registry calls fds w'

  unfoldable pub loop_poll : List PollRound → Worker → Worker
  unfolding poll_round close_all_connections
  loop_poll [] w = close_all_connections w
  loop_poll (r ∷ rs) w = loop_poll rs (poll_round r w)

  -- The same events as epoll reports them.
  abbrev pub woken_event : Option (ℕ → Bool) → List Event
  woken_event none = []
  woken_event (some registers) = wakeup registers ∷ []

  abbrev pub as_epoll : PollRound → List Event
  as_epoll r = woken_event r.woken ++ map client r.events

  handle_event-handle_poll :
      (e : ClientEvent) (s : Served) → handle_event registry calls e s ≡ handle_poll e s
  unfolding handle_event handle_poll after_read after_write hanging
  handle_event-handle_poll e s = elim (Bool-cases e.error) [
    | inl h ↦ rw h refl
    | inr h ↦ rw h (read_cases (reading registry calls e s))
  ]
    where
      write_cases :
          (r : Bool × Served)
          → after_write registry calls e r
            ≡ (if not r.0 then (true, r.1) else (e.hung_up && is_empty r.1.conn.write_buffer, r.1))
      write_cases (true, t) = refl
      write_cases (false, t) = refl

      read_cases :
          (r : Bool × Served)
          → after_read registry calls e r ≡ (
              let w = writing registry calls e r.1 in
              if not r.0
              then (true, r.1)
              else if not w.0
              then (true, w.1)
              else (e.hung_up && is_empty w.1.conn.write_buffer, w.1))
      read_cases (true, t) = write_cases (writing registry calls e t)
      read_cases (false, t) = refl

  handled-polled :
      (e : ClientEvent) (w : Worker) (c : Option Client)
      → handled registry calls e w c ≡ polled e w c
  unfolding handled polled
  handled-polled e w none = refl
  handled-polled e w (some c) =
      ap (λ r. ((if r.0 then e.fd ∷ [] else []), keep registry calls w r.1))
        (handle_event-handle_poll e (served_by registry calls w c))

  event_rounds-poll_events :
      (es : List ClientEvent) (w : Worker)
      → event_rounds registry calls (map client es) w ≡ poll_events es w
  unfolding event_rounds event_round poll_events
  event_rounds-poll_events [] w = refl
  event_rounds-poll_events (e ∷ es) w =
      ap (λ r. let q = event_rounds registry calls (map client es) r.1 in (r.0 ++ q.0, q.1))
        (handled-polled e w (find_client e.fd w.connections))
      ∙ (let p = polled e w (find_client e.fd w.connections) in
          ap (λ q. (p.0 ++ q.0, q.1)) (event_rounds-poll_events es p.1))

  loop_round-poll_round :
      (r : PollRound) (w : Worker) → loop_round registry calls (as_epoll r) w ≡ poll_round r w
  unfolding loop_round poll_round
  loop_round-poll_round r w = ap (λ q. close_list registry calls q.0 q.1) (woken_cases r.woken)
    where
      woken_cases :
          (k : Option (ℕ → Bool))
          → event_rounds registry calls (woken_event k ++ map client r.events) w
            ≡ poll_events r.events (woken_worker k w)
      woken_cases none = event_rounds-poll_events r.events w
      woken_cases (some registers) = event_rounds-poll_events r.events (install_pending registers w)

  -- The loop on poll and the loop on epoll, from the same worker and over the same answers to their
  -- tests of a connection (error, readable, writable, hung up), the wake-up first in each round,
  -- leave the same worker: its connections with what was delivered to them, its queue and its
  -- context.
  pub loop_epoll-loop_poll :
      (rs : List PollRound) (w : Worker)
      → loop_epoll registry calls (map as_epoll rs) w ≡ loop_poll rs w
  unfolding loop_epoll loop_poll
  loop_epoll-loop_poll [] w = refl
  loop_epoll-loop_poll (r ∷ rs) w =
      ap (loop_epoll registry calls (map as_epoll rs)) (loop_round-poll_round r w)
      ∙ loop_epoll-loop_poll rs (poll_round r w)
