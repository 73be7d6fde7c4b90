-- ===== src/Net/Accept/Queues.antt =====
-- No connection that the acceptor of src/net/tcp_server.cpp takes is lost or handed out twice.
use velox_db.Prelude.{
  ℕ, zero, suc, ◌+◌, ◌%◌, ◌<◌, List, [], ◌∷◌, false, not, ◌||◌, ◌==◌, leb, length, length-append,
  length-set_elem, if◌then◌else◌, Bool-cases, inl, inr, ◌≡◌, refl, arith,
}
use velox_db.Net.Worker.{PendingConnection}
use velox_db.Net.Accept.{
  Accepted, AcceptOutcome, accepted, nothing_waits, accept_failed, Acceptor, queue_on, hand_over,
  is_refused, admitted, accept_ready,
}

-- The connections that wait in all queues.
abbrev pub queued : List (List PendingConnection) → ℕ
queued [] = 0
queued (q ∷ qs) = length q + queued qs

queued-queue_on :
    (i : ℕ) (p : PendingConnection) (qs : List (List PendingConnection))
    → i < length qs
    → queued (queue_on i p qs) ≡ queued qs + 1
queued-queue_on i p [] h = absurd (omega arith)
queued-queue_on zero p (q ∷ qs) h = omega (arith, length-append q (p ∷ []))
queued-queue_on (suc i) p (q ∷ qs) h = omega (arith, queued-queue_on i p qs (omega arith))

-- How many of the connections are not refused; the accepts end at the first that has none.
abbrev pub admissible : ℕ → List AcceptOutcome → Acceptor → ℕ
admissible max [] s = 0
admissible max (nothing_waits ∷ os) s = 0
admissible max (accept_failed ∷ os) s = 0
admissible max (accepted a ∷ os) s =
    (if not a.nonblocking || (leb max a.connected_clients || length s.queues == 0) then 0 else 1)
    + admissible max os s

hand_over-queued :
    (a : Accepted) (s : Acceptor)
    → (length s.queues == 0) ≡ false
    → queued (hand_over a s).queues ≡ queued s.queues + 1
hand_over-queued a s h =
    queued-queue_on (s.next_worker % length s.queues) (record { fd = a.fd; peer = a.peer }) s.queues
      (grind arith)

pub hand_over-length :
    (a : Accepted) (s : Acceptor) → length (hand_over a s).queues ≡ length s.queues
hand_over-length a s = length-set_elem s.queues _ _

admissible-hand_over :
    (max : ℕ) (os : List AcceptOutcome) (s t : Acceptor)
    → length t.queues ≡ length s.queues
    → admissible max os t ≡ admissible max os s
admissible-hand_over max [] s t e = refl
admissible-hand_over max (nothing_waits ∷ os) s t e = refl
admissible-hand_over max (accept_failed ∷ os) s t e = refl
admissible-hand_over max (accepted a ∷ os) s t e = rw (e, admissible-hand_over max os s t e) refl

admitted-queued :
    (max : ℕ) (a : Accepted) (s : Acceptor)
    → queued (admitted max a s).queues ≡ queued s.queues + (if is_refused max a s then 0 else 1)
unfolding admitted
admitted-queued max a s = elim (Bool-cases (is_refused max a s)) [
  | inl e ↦ rw e (omega arith)
  | inr e ↦ rw e (hand_over-queued a s (ground arith))
]

admitted-length :
    (max : ℕ) (a : Accepted) (s : Acceptor) → length (admitted max a s).queues ≡ length s.queues
unfolding admitted
admitted-length max a s = elim (Bool-cases (is_refused max a s)) [
  | inl e ↦ rw e refl
  | inr e ↦ rw e (hand_over-length a s)
]

-- A round of accepts queues, in all, as many connections as it may: those that arrive before the
-- first failure, can be made non-blocking and meet fewer connected clients than the limit, and none
-- where there are no workers.
pub accept_ready-queued :
    (max : ℕ) (os : List AcceptOutcome) (s : Acceptor)
    → queued (accept_ready max os s).queues ≡ queued s.queues + admissible max os s
unfolding accept_ready
accept_ready-queued max [] s = omega arith
accept_ready-queued max (nothing_waits ∷ os) s = omega arith
accept_ready-queued max (accept_failed ∷ os) s = omega arith
accept_ready-queued max (accepted a ∷ os) s =
    let t = admitted max a s in
    let rest = accept_ready-queued max os t in
    let first = admitted-queued max a s in
    let same = admissible-hand_over max os s t (admitted-length max a s) in omega arith
