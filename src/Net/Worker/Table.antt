-- ===== src/Net/Worker/Table.antt =====
-- The table of connections of a worker in src/net/tcp_server.cpp, as a map from the descriptor.
use velox_db.Prelude.{
  ℕ, ◌+◌, List, [], ◌∷◌, ◌++◌, none, some, false, ◌==◌, ==_iff, length, Bool-cases, inl, inr, ◌≡◌,
  refl, ◌∙◌, arith,
}
use velox_db.Net.Worker.{Client, find_client, erase_client, replace_client}

-- No descriptor stands twice in the table.
abbrev pub IsUnique : List Client → Type 0
IsUnique [] = Unit
IsUnique (c ∷ cs) = (find_client c.conn.fd cs ≡ none) × IsUnique cs

find_client-append_last :
    (fd : ℕ) (cs : List Client) (d : Client)
    → find_client fd cs ≡ none
    → (d.conn.fd == fd) ≡ false
    → find_client fd (cs ++ d ∷ []) ≡ none
unfolding find_client
find_client-append_last fd [] d h n = rw n refl
find_client-append_last fd (c ∷ cs) d h n = ground (arith, find_client-append_last fd cs d)

find_client-ne :
    (fd : ℕ) (c : Client) (cs : List Client)
    → find_client fd (c ∷ cs) ≡ none
    → ((c.conn.fd == fd) ≡ false) × (find_client fd cs ≡ none)
unfolding find_client
find_client-ne fd c cs h = ground arith

find_client-skip :
    (fd : ℕ) (c : Client) (cs : List Client)
    → (c.conn.fd == fd) ≡ false
    → find_client fd (c ∷ cs) ≡ find_client fd cs
unfolding find_client
find_client-skip fd c cs h = rw h refl

==_sym : (a b : ℕ) → (a == b) ≡ false → (b == a) ≡ false
==_sym a b h = ground arith

-- A new descriptor behind the others.
pub append_last-IsUnique :
    (cs : List Client) (d : Client)
    → IsUnique cs
    → find_client d.conn.fd cs ≡ none
    → IsUnique (cs ++ d ∷ [])
append_last-IsUnique [] d u h = (unfold find_client in refl, tt)
append_last-IsUnique (c ∷ cs) d (n, u) h =
    let p = find_client-ne d.conn.fd c cs h in
    (
      find_client-append_last c.conn.fd cs d n (==_sym c.conn.fd d.conn.fd p.0),
      append_last-IsUnique cs d u p.1,
    )

find_client-erase_client :
    (fd other : ℕ) (cs : List Client)
    → find_client other cs ≡ none
    → find_client other (erase_client fd cs) ≡ none
unfolding find_client erase_client
find_client-erase_client fd other [] h = refl
find_client-erase_client fd other (c ∷ cs) h = ground (arith, find_client-erase_client fd other cs)

pub erase_client-IsUnique :
    (fd : ℕ) (cs : List Client) → IsUnique cs → IsUnique (erase_client fd cs)
unfolding erase_client
erase_client-IsUnique fd [] u = tt
erase_client-IsUnique fd (c ∷ cs) u = elim (Bool-cases (c.conn.fd == fd)) [
  | inl e ↦ rw e u.1
  | inr e ↦ rw e (find_client-erase_client fd c.conn.fd cs u.0, erase_client-IsUnique fd cs u.1)
]

pub length-erase_client :
    (fd : ℕ) (c : Client) (cs : List Client)
    → find_client fd cs ≡ some c
    → length (erase_client fd cs) + 1 ≡ length cs
unfolding find_client erase_client
length-erase_client fd c [] h = cc
length-erase_client fd c (d ∷ cs) h = ground (arith, length-erase_client fd c cs)

-- A descriptor that was erased is gone.
pub find_client-erase_client_self :
    (fd : ℕ) (cs : List Client) → IsUnique cs → find_client fd (erase_client fd cs) ≡ none
unfolding erase_client
find_client-erase_client_self fd [] u = unfold find_client in refl
find_client-erase_client_self fd (c ∷ cs) u = elim (Bool-cases (c.conn.fd == fd)) [
  | inl e ↦ rw (e, ← (==_iff c.conn.fd fd).0 e) u.0
  | inr e ↦
      rw e (find_client-skip fd c (erase_client fd cs) e ∙ find_client-erase_client_self fd cs u.1)
]

find_client-replace_client :
    (d : Client) (other : ℕ) (cs : List Client)
    → find_client other cs ≡ none
    → find_client other (replace_client d cs) ≡ none
unfolding find_client replace_client
find_client-replace_client d other [] h = refl
find_client-replace_client d other (c ∷ cs) h =
    ground (arith, find_client-replace_client d other cs)

pub replace_client-IsUnique :
    (d : Client) (cs : List Client) → IsUnique cs → IsUnique (replace_client d cs)
unfolding replace_client
replace_client-IsUnique d [] u = tt
replace_client-IsUnique d (c ∷ cs) u = elim (Bool-cases (c.conn.fd == d.conn.fd)) [
  | inl e ↦ rw e (rw (← (==_iff c.conn.fd d.conn.fd).0 e) u.0, u.1)
  | inr e ↦ rw e (find_client-replace_client d c.conn.fd cs u.0, replace_client-IsUnique d cs u.1)
]

pub length-replace_client :
    (d : Client) (cs : List Client) → length (replace_client d cs) ≡ length cs
unfolding replace_client
length-replace_client d [] = refl
length-replace_client d (c ∷ cs) = ground (arith, length-replace_client d cs)
