-- ===== src/Net/Accept/Balance.antt =====
-- How the acceptor of src/net/tcp_server.cpp spreads the connections over the workers.
use velox_db.Prelude.{
  ℕ, zero, suc, ◌+◌, ◌*◌, ◌%◌, ◌^◌, ◌<◌, ◌≤◌, List, [], ◌∷◌, ◌==◌, ltb, length, length-append,
  get_or, if◌then◌else◌, ltb→lt, ltb→le, Bool-cases, inl, inr, ◌≡◌, sym, ap, ◌∙◌, arith,
}
use velox_db.Net.Worker.{PendingConnection}
use velox_db.Net.Accept.{
  Accepted, AcceptOutcome, accepted, nothing_waits, accept_failed, Acceptor, queue_on, hand_over,
  is_refused, admitted, accept_ready,
}
use velox_db.Net.Accept.Queues.{hand_over-length}

-- The connections went round the workers: each has had `rounds` of them, and the first `extra` one
-- more.
pub record IsBalanced (s : Acceptor) : Type 0 where
  pub rounds : ℕ
  pub extra : ℕ
  pub handed : s.next_worker ≡ rounds * length s.queues + extra
  pub partial : extra < length s.queues
  pub even :
      (i : ℕ)
      → i < length s.queues
      → length (get_or s.queues i []) ≡ rounds + (if ltb i extra then 1 else 0)

mod_of : (n w q r : ℕ) → n ≡ q * w + r → r < w → n % w ≡ r
mod_of n w q r e h = grind arith

length-queue_on :
    (j i : ℕ) (p : PendingConnection) (qs : List (List PendingConnection))
    → j < length qs
    → length (get_or (queue_on j p qs) i []) ≡ length (get_or qs i []) + (if i == j then 1 else 0)
length-queue_on j i p [] h = absurd (omega arith)
length-queue_on zero zero p (q ∷ qs) h = length-append q (p ∷ [])
length-queue_on zero (suc i) p (q ∷ qs) h = ground arith
length-queue_on (suc j) zero p (q ∷ qs) h = ground arith
length-queue_on (suc j) (suc i) p (q ∷ qs) h = ground (arith, length-queue_on j i p qs)

share_more :
    (r e i : ℕ)
    → r + (if ltb i e then 1 else 0) + (if i == e then 1 else 0)
      ≡ r + (if ltb i (e + 1) then 1 else 0)
share_more r e i = ground arith

share_wrap :
    (r e i w : ℕ)
    → i < w
    → w ≤ e + 1
    → r + (if ltb i e then 1 else 0) + (if i == e then 1 else 0)
      ≡ r + 1 + (if ltb i 0 then 1 else 0)
share_wrap r e i w l m = ground arith

module _ (a : Accepted) (s : Acceptor) (room : s.next_worker + 1 < 2 ^ 64) (h : IsBalanced s) where
  abbrev width : ℕ
  width = length s.queues

  at_worker :
      (i : ℕ)
      → i < width
      → length (get_or (hand_over a s).queues i [])
        ≡ h.rounds + (if ltb i h.extra then 1 else 0) + (if i == h.extra then 1 else 0)
  at_worker i l =
      let here = mod_of s.next_worker width h.rounds h.extra h.handed h.partial in
      ap (λ j. length (get_or (queue_on j (record { fd = a.fd; peer = a.peer }) s.queues) i []))
        here
      ∙ length-queue_on h.extra i (record { fd = a.fd; peer = a.peer }) s.queues h.partial
      ∙ ap (λ n. n + (if i == h.extra then 1 else 0)) (h.even i l)

  next_handed : (hand_over a s).next_worker ≡ h.rounds * width + (h.extra + 1)
  next_handed = let e = h.handed in omega arith

  hand_over-more : h.extra + 1 < width → IsBalanced (hand_over a s)
  hand_over-more more =
      let size = hand_over-length a s in
      record {
        rounds = h.rounds;
        extra = h.extra + 1;
        handed = next_handed ∙ ap (λ n. h.rounds * n + (h.extra + 1)) (sym size);
        partial = omega arith;
        even = λ i l. at_worker i (omega arith) ∙ share_more h.rounds h.extra i;
      }

  hand_over-wrap : width ≤ h.extra + 1 → IsBalanced (hand_over a s)
  hand_over-wrap wrap =
      let size = hand_over-length a s in
      let full : h.extra + 1 ≡ width = let p = h.partial in omega arith in
      record {
        rounds = h.rounds + 1;
        extra = 0;
        handed =
            next_handed
            ∙ ap (λ n. h.rounds * width + n) full
            ∙ (grind arith)
            ∙ ap (λ n. (h.rounds + 1) * n + 0) (sym size);
        partial = let p = h.partial in omega arith;
        even = λ i l.
            at_worker i (omega arith) ∙ share_wrap h.rounds h.extra i width (omega arith) wrap;
      }

hand_over-IsBalanced :
    (a : Accepted) (s : Acceptor)
    → s.next_worker + 1 < 2 ^ 64
    → IsBalanced s
    → IsBalanced (hand_over a s)
hand_over-IsBalanced a s room h = elim (Bool-cases (ltb (h.extra + 1) (length s.queues))) [
  | inl more ↦ hand_over-more a s room h (ltb→lt _ _ more)
  | inr wrap ↦ hand_over-wrap a s room h (ltb→le _ _ wrap)
]

admitted-IsBalanced :
    (max : ℕ) (a : Accepted) (s : Acceptor)
    → s.next_worker + 1 < 2 ^ 64
    → IsBalanced s
    → IsBalanced (admitted max a s)
unfolding admitted
admitted-IsBalanced max a s room h = elim (Bool-cases (is_refused max a s)) [
  | inl e ↦ rw e h
  | inr e ↦ rw e (hand_over-IsBalanced a s room h)
]

admitted-next :
    (max : ℕ) (a : Accepted) (s : Acceptor)
    → s.next_worker + 1 < 2 ^ 64
    → (admitted max a s).next_worker ≤ s.next_worker + 1
unfolding admitted
admitted-next max a s room = ground arith

-- Accepted connections go to the workers in turn: as long as their number does not wrap around, a
-- round of accepts keeps it that the connections handed out are a number of full rounds, with one
-- more for the first workers.
pub accept_ready-IsBalanced :
    (max : ℕ) (os : List AcceptOutcome) (s : Acceptor)
    → s.next_worker + length os < 2 ^ 64
    → IsBalanced s
    → IsBalanced (accept_ready max os s)
unfolding accept_ready
accept_ready-IsBalanced max [] s room h = h
accept_ready-IsBalanced max (nothing_waits ∷ os) s room h = h
accept_ready-IsBalanced max (accept_failed ∷ os) s room h = h
accept_ready-IsBalanced max (accepted a ∷ os) s room h =
    accept_ready-IsBalanced max os (admitted max a s)
      (let n = admitted-next max a s (omega arith) in omega arith)
      (admitted-IsBalanced max a s (omega arith) h)
