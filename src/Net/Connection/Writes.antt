-- ===== src/Net/Connection/Writes.antt =====
-- The loop of `write_to` in src/net/tcp_server.cpp: nothing is lost, repeated or reordered.
use velox_db.Prelude.{
  ℕ, zero, suc, ◌+◌, ◌≤◌, Bytes, List, [], ◌∷◌, ◌++◌, Bool, false, not, ◌&&◌, length, take, drop,
  take-append-drop, length-drop, Bool-cases, inl, inr, append_assoc, append-nil, ◌≡◌, refl, sym, ap,
  ◌∙◌, arith,
}
use velox_db.Net.Connection.{
  Served, WriteOutcome, sent, full, write_interrupted, write_failed, took, is_empty, write_round,
  write_to,
}

-- The socket reports no error.
abbrev pub IsWritable : List WriteOutcome → Type 0
IsWritable [] = Unit
IsWritable (sent zero ∷ ws) = ⊥
IsWritable (sent (suc n) ∷ ws) = IsWritable ws
IsWritable (full ∷ ws) = IsWritable ws
IsWritable (write_interrupted ∷ ws) = IsWritable ws
IsWritable (write_failed ∷ ws) = ⊥

-- What the client gets, sooner or later.
abbrev pub stream : Served → Bytes
stream s = s.delivered ++ s.conn.write_buffer

-- What a call on `s` has done.
pub record Writes (s : Served) (r : Bool × Served) : Type 0 where
  pub kept : stream r.1 ≡ stream s
  pub framed : r.1 ≡ record s {
    conn = record s.conn { write_buffer = r.1.conn.write_buffer };
    delivered = r.1.delivered;
  }

Writes-took : (s : Served) (n : ℕ) (r : Bool × Served) → Writes (took n s) r → Writes s r
Writes-took s n r w = record {
  kept =
      w.kept
      ∙ append_assoc s.delivered (take n s.conn.write_buffer) (drop n s.conn.write_buffer)
      ∙ ap (λ t. s.delivered ++ t) (take-append-drop n s.conn.write_buffer);
  framed = w.framed;
}

write_round-Writes :
    (next : Served → Bool × Served) (s : Served) (w : WriteOutcome)
    → ((t : Served) → Writes t (next t))
    → Writes s (write_round next s w)
unfolding write_round
write_round-Writes next s (sent zero) h = record { kept = refl; framed = refl }
write_round-Writes next s (sent (suc n)) h =
    Writes-took s (suc n) (next (took (suc n) s)) (h (took (suc n) s))
write_round-Writes next s full h = record { kept = refl; framed = refl }
write_round-Writes next s write_interrupted h = h s
write_round-Writes next s write_failed h = record { kept = refl; framed = refl }

-- Writing, whatever the socket answers, neither loses, repeats nor reorders bytes: what the socket
-- took and what still waits are together what they were; and it changes nothing else of the
-- connection or its context.
pub write_to-Writes : (ws : List WriteOutcome) (s : Served) → Writes s (write_to ws s)
unfolding write_to
write_to-Writes [] s = elim (Bool-cases (is_empty s.conn.write_buffer)) [
  | inl e ↦ rw e (record { kept = refl; framed = refl })
  | inr e ↦ rw e (record { kept = refl; framed = refl })
]
write_to-Writes (w ∷ ws) s = elim (Bool-cases (is_empty s.conn.write_buffer)) [
  | inl e ↦ rw e (record { kept = refl; framed = refl })
  | inr e ↦ rw e (write_round-Writes (write_to ws) s w (write_to-Writes ws))
]

-- Whether the connection stays, told from what it holds.
abbrev pub stays : Served → Bool
stays s = not (is_empty s.conn.write_buffer && s.conn.close_after_write)

write_round-stays :
    (next : Served → Bool × Served) (s : Served) (w : WriteOutcome) (ws : List WriteOutcome)
    → is_empty s.conn.write_buffer ≡ false
    → IsWritable (w ∷ ws)
    → (IsWritable ws → (t : Served) → (next t).0 ≡ stays (next t).1)
    → (write_round next s w).0 ≡ stays (write_round next s w).1
unfolding write_round
write_round-stays next s (sent zero) ws e h k = absurd h
write_round-stays next s (sent (suc n)) ws e h k = k h (took (suc n) s)
write_round-stays next s full ws e h k = rw e refl
write_round-stays next s write_interrupted ws e h k = k h s
write_round-stays next s write_failed ws e h k = absurd h

-- Where the socket reports no error, writing asks to close exactly when nothing waits and the
-- connection was to be closed.
pub write_to-stays :
    (ws : List WriteOutcome) (s : Served)
    → IsWritable ws
    → (write_to ws s).0 ≡ stays (write_to ws s).1
unfolding write_to
write_to-stays [] s h = elim (Bool-cases (is_empty s.conn.write_buffer)) [
  | inl e ↦ rw (e, e) refl
  | inr e ↦ rw (e, e) refl
]
write_to-stays (w ∷ ws) s h = elim (Bool-cases (is_empty s.conn.write_buffer)) [
  | inl e ↦ rw (e, e) refl
  | inr e ↦ rw e (write_round-stays (write_to ws) s w ws e h (λ k t. write_to-stays ws t k))
]

-- A socket that takes what it is given, if only in pieces.
abbrev pub IsMoving : List WriteOutcome → Type 0
IsMoving [] = Unit
IsMoving (sent zero ∷ ws) = ⊥
IsMoving (sent (suc n) ∷ ws) = IsMoving ws
IsMoving (full ∷ ws) = ⊥
IsMoving (write_interrupted ∷ ws) = IsMoving ws
IsMoving (write_failed ∷ ws) = ⊥

abbrev pub capacity : List WriteOutcome → ℕ
capacity [] = 0
capacity (sent n ∷ ws) = n + capacity ws
capacity (_ ∷ ws) = capacity ws

abbrev Flushes : Served → Bool × Served → Type 0
Flushes s r = (r.1.conn.write_buffer ≡ []) × (r.0 ≡ not s.conn.close_after_write)

empty-nil : (b : Bytes) → length b ≤ 0 → b ≡ []
empty-nil [] h = refl
empty-nil (c ∷ b) h = absurd (omega arith)

write_round-Flushes :
    (next : Served → Bool × Served) (s : Served) (w : WriteOutcome) (ws : List WriteOutcome)
    → IsMoving (w ∷ ws)
    → length s.conn.write_buffer ≤ capacity (w ∷ ws)
    → (IsMoving ws → (t : Served) → length t.conn.write_buffer ≤ capacity ws → Flushes t (next t))
    → Flushes s (write_round next s w)
unfolding write_round
write_round-Flushes next s (sent zero) ws h le k = absurd h
write_round-Flushes next s (sent (suc n)) ws h le k =
    k h (took (suc n) s) (omega (arith, length-drop (suc n) s.conn.write_buffer))
write_round-Flushes next s full ws h le k = absurd h
write_round-Flushes next s write_interrupted ws h le k = k h s le
write_round-Flushes next s write_failed ws h le k = absurd h

write_to-Flushes :
    (ws : List WriteOutcome) (s : Served)
    → IsMoving ws
    → length s.conn.write_buffer ≤ capacity ws
    → Flushes s (write_to ws s)
unfolding write_to
write_to-Flushes [] s h le = rw (empty-nil s.conn.write_buffer le) (refl, refl)
write_to-Flushes (w ∷ ws) s h le = elim (Bool-cases (is_empty s.conn.write_buffer)) [
  | inl e ↦ rw e (empty-nil s.conn.write_buffer (ground arith), refl)
  | inr e ↦ rw e (write_round-Flushes (write_to ws) s w ws h le (λ k t. write_to-Flushes ws t k))
]

-- A socket that takes as many bytes as wait has then received all of them, in order, and the
-- connection stays open unless it was to be closed.
pub write_to-delivered :
    (ws : List WriteOutcome) (s : Served)
    → IsMoving ws
    → length s.conn.write_buffer ≤ capacity ws
    → ((write_to ws s).1.delivered ≡ stream s)
      × ((write_to ws s).1.conn.write_buffer ≡ [])
      × ((write_to ws s).0 ≡ not s.conn.close_after_write)
write_to-delivered ws s h le =
    let done = write_to-Flushes ws s h le in
    (
      sym (append-nil (write_to ws s).1.delivered)
          ∙ ap (λ b. (write_to ws s).1.delivered ++ b) (sym done.0)
          ∙ (write_to-Writes ws s).kept,
      done.0,
      done.1,
    )
