-- ===== src/Storage/Engine/Session.antt =====
-- Two operations of the engine in a row, as a client sees them.
use velox_db.Prelude.{
  ℕ, Bytes, Option, none, some, true, false, ◌≡◌, ◌≢◌, ◌⊎◌, refl, sym, ap, ◌∙◌, ◌≤ℤ◌, ℤ, bytes_eq,
  bytes_eq_iff, Bool-cases, inl, inr,
}
use velox_db.Storage.Types.{
  TimePoint, StorageEngine, Tick, SetCondition, WriteCode, ok, not_set, no_memory, key_too_large,
  value_too_large, invalid_integer, overflow,
}
use velox_db.Storage.Table.{expired_by}
use velox_db.Storage.Held.{expiry_after}
use velox_db.Storage.Held.Effect.{value_seen}
use velox_db.Storage.Engine.{set, get, del}
use velox_db.Storage.Engine.Shards.{IsSound, view}
use velox_db.Storage.Engine.Contract.{set-Written, get-value, del-Updated}

ok-cases : (c : WriteCode) → (c ≡ ok) ⊎ (c ≢ ok)
ok-cases ok = inl refl
ok-cases not_set = inr (cc)
ok-cases no_memory = inr (cc)
ok-cases key_too_large = inr (cc)
ok-cases value_too_large = inr (cc)
ok-cases invalid_integer = inr (cc)
ok-cases overflow = inr (cc)

module _ (hash : Bytes → ℕ) (st : StorageEngine) (w : IsSound st) (k : Bytes) where
  same_key : bytes_eq k k ≡ true
  same_key = (bytes_eq_iff k k).1 refl

  other_key : (j : Bytes) → k ≢ j → bytes_eq k j ≡ false
  other_key j ne = elim (Bool-cases (bytes_eq k j)) [
    | inl e ↦ absurd (ne ((bytes_eq_iff k j).0 e))
    | inr e ↦ e
  ]

  -- On a sound engine, after a SET that answered with success, a GET of the key at any later time
  -- before the expiry of the value gives the value.
  pub get-set_self :
      (t : Tick) (v : Bytes) (ms : Option ℤ) (c : SetCondition) (later : TimePoint)
      → (set hash st t k v ms c).0.code ≡ ok
      → t.now ≤ℤ later
      → expired_by (expiry_after t.now ms) later ≡ false
      → (get hash (set hash st t k v ms c).1 later k).0 ≡ some v
  get-set_self t v ms c later e h fresh =
      let written = set-Written hash st w k t v ms c in
      (get-value hash (set hash st t k v ms c).1 written.sound k later).0
      ∙ ap value_seen ((written.wrote e).at later k h)
      ∙ (rw (same_key, fresh) refl)

  -- On a sound engine, a SET with any outcome changes no other key: a later GET of it gives what it
  -- would have given without the SET.
  pub get-set_other :
      (t : Tick) (v : Bytes) (ms : Option ℤ) (c : SetCondition) (later : TimePoint) (j : Bytes)
      → k ≢ j
      → t.now ≤ℤ later
      → (get hash (set hash st t k v ms c).1 later j).0 ≡ (get hash st later j).0
  get-set_other t v ms c later j ne h =
      let written = set-Written hash st w k t v ms c in
      let seen : view hash (set hash st t k v ms c).1 later j ≡ view hash st later j =
        elim (ok-cases (set hash st t k v ms c).0.code) [
          | inl e ↦ (written.wrote e).at later j h ∙ (rw (other_key j ne) refl)
          | inr ne_ok ↦ (written.kept ne_ok).at later j h
        ] in
      (get-value hash (set hash st t k v ms c).1 written.sound j later).0
      ∙ ap value_seen seen
      ∙ sym (get-value hash st w j later).0

  -- On a sound engine, after a DEL of a key a GET of it finds nothing at any later time.
  pub get-del :
      (now later : TimePoint) → now ≤ℤ later → (get hash (del hash st now k).1 later k).0 ≡ none
  get-del now later h =
      let (n, (sound, gone)) = del-Updated hash st w k now in
      (get-value hash (del hash st now k).1 sound k later).0
      ∙ ap value_seen (gone.at later k h)
      ∙ (rw same_key refl)
