-- ===== src/Config/Values/Bounds.antt =====
-- The setters of src/config/config.cpp: what they leave in the field.
use velox_db.Prelude.{ℕ, ◌^◌, ◌-◌, ◌≤◌, Bool, false, Option, none, some, Bytes, ◌≡◌, refl, arith}
use velox_db.Util.Status.{is_ok}
use velox_db.Util.Parse.{parse_u64, parse_byte_size}
use velox_db.Util.Parse.Bounds.{parse_byte_size-le}
use velox_db.Config.Values.{
  Outcome, max_u16, assign, within, set_u16, set_size, set_bool, set_bytes,
}

abbrev pub Fails : {A : Type 0} → Outcome A → Type 0
Fails o = is_ok o.0 ≡ false

abbrev pub max_size : ℕ
max_size = 2 ^ 64 - 1

-- A setter fails and leaves the field alone, or puts a value within the bound in it.
abbrev pub Sets : ℕ → ℕ → Outcome ℕ → Type 0
Sets bound old o = (Fails o → o.1 ≡ old) × (old ≤ bound → o.1 ≤ bound)

assign-within-Sets :
    (bound out : ℕ) (n : Option ℕ) (m : Bytes) → Sets bound out (assign (within bound n) m out)
unfolding assign within
assign-within-Sets bound out none m = (λ _. refl, λ h. h)
assign-within-Sets bound out (some n) m = ground arith

pub set_u16-Sets : (out : ℕ) (v name : Bytes) → Sets max_u16 out (set_u16 out v name)
unfolding set_u16
set_u16-Sets out v name = assign-within-Sets max_u16 out (parse_u64 v) _

pub set_size-Sets : (out : ℕ) (v name : Bytes) → Sets max_size out (set_size out v name)
unfolding set_size
set_size-Sets out v name = assign-within-Sets max_size out (parse_u64 v) _

assign-Sets :
    (bound out : ℕ) (n : Option ℕ) (m : Bytes)
    → ((a : ℕ) → n ≡ some a → a ≤ bound)
    → Sets bound out (assign n m out)
unfolding assign
assign-Sets bound out none m h = (λ _. refl, λ p. p)
assign-Sets bound out (some n) m h = (λ e. cc, λ p. h n refl)

pub set_bytes-Sets : (out : ℕ) (v name : Bytes) → Sets max_size out (set_bytes out v name)
unfolding set_bytes
set_bytes-Sets out v name = assign-Sets max_size out (parse_byte_size v) _ (parse_byte_size-le v)

assign-unchanged :
    {A : Type 0} (o : Option A) (m : Bytes) (out : A)
    → Fails (assign o m out)
    → (assign o m out).1 ≡ out
unfolding assign
assign-unchanged none m out h = refl
assign-unchanged (some a) m out h = cc

pub set_bool-unchanged :
    (out : Bool) (v name : Bytes) → Fails (set_bool out v name) → (set_bool out v name).1 ≡ out
unfolding set_bool
set_bool-unchanged out v name = assign-unchanged _ _ out
