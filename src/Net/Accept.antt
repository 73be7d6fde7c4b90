-- ===== src/Net/Accept.antt =====
-- The acceptor of src/net/tcp_server.cpp: the set-up of the listener, and the connections that it
-- hands to the workers. What the system calls answer is an argument.
pub mod Queues
pub mod Balance
use velox_db.Prelude.{
  ℕ, suc, ◌+◌, ◌%◌, ◌^◌, Bytes, codes, List, [], ◌∷◌, ◌++◌, Bool, true, false, not, ◌||◌, ◌==◌, leb,
  length, get_or, set_elem, if◌then◌else◌,
}
use velox_db.Util.Status.{Code, Status, ok_status, fail_with, is_ok}
use velox_db.Net.Worker.{PendingConnection}

-- What `::accept` returns: a descriptor with its peer, whether it could be made non-blocking, and
-- the number of connected clients at that time.
pub record Accepted : Type 0 where
  pub fd : ℕ
  pub peer : Bytes
  pub nonblocking : Bool
  pub connected_clients : ℕ

pub data AcceptOutcome : Type 0 where
  accepted : Accepted → AcceptOutcome
  nothing_waits accept_failed : AcceptOutcome

-- The queues of the workers, and the number of connections handed out.
pub record Acceptor : Type 0 where
  pub queues : List (List PendingConnection)
  pub next_worker : ℕ

abbrev pub queue_on :
    ℕ → PendingConnection → List (List PendingConnection) → List (List PendingConnection)
queue_on i p queues = set_elem queues i (get_or queues i [] ++ p ∷ [])

-- `workers_[next_worker % workers_.size()]->add_connection(...)`, `++next_worker`.
abbrev pub hand_over : Accepted → Acceptor → Acceptor
hand_over a s = record {
  queues =
      queue_on (s.next_worker % length s.queues) (record { fd = a.fd; peer = a.peer }) s.queues;
  next_worker = suc s.next_worker % 2 ^ 64;
}

abbrev pub is_refused : ℕ → Accepted → Acceptor → Bool
is_refused max_clients a s =
    not a.nonblocking || (leb max_clients a.connected_clients || length s.queues == 0)

-- A connection that is refused is closed, and the loop goes on.
admitted : ℕ → Accepted → Acceptor → Acceptor
admitted max_clients a s = if is_refused max_clients a s then s else hand_over a s

unfoldable pub accept_ready : ℕ → List AcceptOutcome → Acceptor → Acceptor
unfolding admitted
accept_ready max_clients [] s = s
accept_ready max_clients (nothing_waits ∷ os) s = s
accept_ready max_clients (accept_failed ∷ os) s = s
accept_ready max_clients (accepted a ∷ os) s =
    accept_ready max_clients os (admitted max_clients a s)

-- What the calls of `setup_listener` answer, up to the first that fails.
pub record ListenerCalls : Type 0 where
  pub socket : Bool
  pub nonblocking : Bool
  pub is_ipv4 : Bool
  pub bind : Bool
  pub listen : Bool
  pub error_text : Bytes

abbrev io_failure : Bytes → ListenerCalls → Status
io_failure call a = fail_with Code.io_error (call ++ a.error_text)

-- The status, and whether the descriptor of the listener is open.
unfoldable pub setup_listener : ListenerCalls → Status × Bool
setup_listener a =
    if not a.socket
    then (io_failure (codes "socket: ") a, false)
    else if not a.nonblocking
    then (io_failure (codes "fcntl: ") a, true)
    else if not a.is_ipv4
    then (
      fail_with Code.invalid_argument (codes "server.host must be an IPv4 address for the MVP"),
      false,
    )
    else if not a.bind
    then (io_failure (codes "bind: ") a, false)
    else if not a.listen
    then (io_failure (codes "listen: ") a, false)
    else (ok_status, true)
