-- ===== src/Metrics.antt =====
-- src/metrics/metrics.cpp: the counters of the server. An atomic counter is a number of 64 bits, and
-- the loop of `compare_exchange_weak` is one atomic step.
use velox_db.Prelude.{
  ℕ, suc, ◌+◌, ◌-◌, ◌%◌, ◌^◌, ◌<◌, ◌≤◌, Bool, true, false, if◌then◌else◌, ◌==◌, Bool-cases, inl,
  inr, ◌≡◌, refl, arith, List, [], ◌∷◌, ℤ, ◌-ℤ◌, quotient, pos_part,
}

pub record Metrics : Type 0 where
  pub start : ℤ
  pub enabled : Bool
  pub connected_clients : ℕ
  pub total_connections_received : ℕ
  pub total_commands_processed : ℕ
  pub evicted_keys : ℕ
  pub aof_last_write_ok : Bool

-- The constructor, at a time of the steady clock.
abbrev pub new_metrics : ℤ → Metrics
new_metrics now = record {
  start = now;
  enabled = true;
  connected_clients = 0;
  total_connections_received = 0;
  total_commands_processed = 0;
  evicted_keys = 0;
  aof_last_write_ok = true;
}

abbrev pub set_enabled : Bool → Metrics → Metrics
set_enabled enabled m = record m { enabled = enabled }

-- `fetch_add(1)`
pub fetch_add_one : ℕ → ℕ
fetch_add_one n = suc n % 2 ^ 64

unfoldable pub connection_opened : Metrics → Metrics
unfolding fetch_add_one
connection_opened m = record m {
  connected_clients = fetch_add_one m.connected_clients;
  total_connections_received = fetch_add_one m.total_connections_received;
}

unfoldable pub connection_closed : Metrics → Metrics
connection_closed m =
    if m.connected_clients == 0 then m else record m { connected_clients = m.connected_clients - 1 }

unfoldable pub command_processed : Metrics → Metrics
unfolding fetch_add_one
command_processed m =
    if m.enabled
    then record m { total_commands_processed = fetch_add_one m.total_commands_processed }
    else m

abbrev pub aof_write_failed : Metrics → Metrics
aof_write_failed m = record m { aof_last_write_ok = false }

abbrev pub aof_write_succeeded : Metrics → Metrics
aof_write_succeeded m = record m { aof_last_write_ok = true }

-- Ticks of the steady clock are nanoseconds, and it never runs backwards.
unfoldable pub uptime_seconds : Metrics → (now : ℤ) → ℕ
unfolding quotient ◌-ℤ◌
uptime_seconds m now = pos_part (quotient (now -ℤ m.start) 1000000000)

-- The clients that come and go.
pub data ConnectionEvent : Type 0 where
  opened closed : ConnectionEvent

unfoldable pub connections : List ConnectionEvent → Metrics → Metrics
unfolding connection_opened connection_closed
connections [] m = m
connections (opened ∷ es) m = connections es (connection_opened m)
connections (closed ∷ es) m = connections es (connection_closed m)

-- How many events there are of each kind.
abbrev pub openings : List ConnectionEvent → ℕ
openings [] = 0
openings (opened ∷ es) = suc (openings es)
openings (closed ∷ es) = openings es

connection_closed-le :
    (m : Metrics)
    → ((connection_closed m).total_connections_received ≡ m.total_connections_received)
      × ((connection_closed m).connected_clients ≤ m.connected_clients)
unfolding connection_closed
connection_closed-le m = elim (Bool-cases (m.connected_clients == 0)) [
  | inl e ↦ rw e (refl, omega arith)
  | inr e ↦ rw e (refl, omega arith)
]

-- For every sequence of connections that open and close, from counters with no more clients than
-- connections received: as long as the total does not wrap around, it has grown by the connections
-- that were opened, and there are never more clients than that total.
pub connections-total :
    (es : List ConnectionEvent) (m : Metrics)
    → m.connected_clients ≤ m.total_connections_received
    → m.total_connections_received + openings es < 2 ^ 64
    → let m' = connections es m in
      (m'.total_connections_received ≡ m.total_connections_received + openings es)
      × (m'.connected_clients ≤ m'.total_connections_received)
unfolding connections connection_opened fetch_add_one
connections-total [] m h f = (omega arith, h)
connections-total (opened ∷ es) m h f =
    let r = connections-total es (connection_opened m) (omega arith) (omega arith) in
    (omega (arith, r.0), r.1)
connections-total (closed ∷ es) m h f =
    let (same, less) = connection_closed-le m in
    let r =
      connections-total es (connection_closed m) (omega (arith, same, less))
        (omega (arith, same)) in
    (omega (arith, same, r.0), r.1)
