-- ===== src/Commands/Logged.antt =====
-- A write that is acknowledged stands in the append-only file.
use velox_db.Prelude.{
  quotient, scale, ◌+ℤ◌, ℕ, length, ltb, ◌%◌, ◌||◌, Bytes, codes, List, [], ◌∷◌, ◌++◌, Option, none,
  some, Bool, true, false, not, ◌==◌, if◌then◌else◌, Bool-cases, inl, inr, get_or, ◌≡◌, refl, sym,
  ap, ◌∙◌, ℤ, arith, append-nil,
}
use velox_db.Util.Decimal.{to_string_i64}
use velox_db.Storage.Time.{unix_ms, after_ms}
use velox_db.Util.Text.{to_lower_ascii}
use velox_db.Commands.Keys.{expire_impl, expire_checked}
use velox_db.Util.Status.{Status, is_ok}
use velox_db.Resp.Encode.{encode_command, error, simple}
use velox_db.Storage.Types.{StorageEngine, TimePoint, WriteCode}
use velox_db.Storage.Engine as Engine
use velox_db.Persistence.Aof.{Aof, enabled, append}
use velox_db.Persistence.Aof.Append.{append-file}
use velox_db.Commands.Context.{
  CommandContext, CommandResult, Call, ok, err, append_failed, persist_in, persist, persist_or_ok,
  persist_changed, wrong_args, name_of,
}
use velox_db.Commands.Options.{SetOptions, accepted, set_options, parse_ttl_ms, pxat_arg_from_ttl}
use velox_db.Commands.Strings as Strings
use velox_db.Commands.Strings.{
  written, set_reply, set_with, set_checked, ttl_from, persisted_set, del, incr_decr, mset,
}

-- The content of the append-only file of a context.
abbrev pub logged : CommandContext → Bytes
logged ctx = file_in ctx.aof
  where
    file_in : Option Aof → Bytes
    file_in none = []
    file_in (some aof) = aof.file

-- The context of a client's command while an open file logs it.
pub record IsLogging (ctx : CommandContext) (aof : Aof) : Type 0 where
  pub live : ctx.replay ≡ false
  pub present : ctx.aof ≡ some aof
  pub open_ : enabled aof ≡ true

-- An error reply begins with `-`.
abbrev pub is_error : CommandResult → Bool
is_error r = get_or r.response 0 0 == b'-'

err-is_error : (m : Bytes) → is_error (err m) ≡ true
unfolding err error
err-is_error m = refl

wrong_args-is_error : (name : Bytes) → is_error (wrong_args name) ≡ true
unfolding wrong_args
wrong_args-is_error name =
    err-is_error
      (codes "wrong number of arguments for '" ++ (to_lower_ascii name ++ codes "' command"))

append_failed-is_error : (s : Status) → is_error (append_failed s) ≡ true
unfolding append_failed
append_failed-is_error s = err-is_error (codes "persistence append failed: " ++ s.message)

if_true : (b : Bool) (x y : Status × Option Aof) → b ≡ true → (if b then x else y) ≡ x
if_true b x y e = rw e refl

module _ (call : Call) (ctx : CommandContext) (aof : Aof) (w : IsLogging ctx aof) where
  persist_in-open :
      (args : List Bytes)
      → persist_in call.io (some aof) args
        ≡ ((append call.io aof args).0, some (append call.io aof args).1)
  unfolding persist_in
  persist_in-open args = if_true (enabled aof) _ _ w.open_

  persist-open :
      (args : List Bytes)
      → persist call ctx args
        ≡ ((append call.io aof args).0, record ctx { aof = some (append call.io aof args).1 })
  unfolding persist
  persist-open args = rw (w.live, w.present, persist_in-open args) refl

  persist-logged :
      (args : List Bytes)
      → is_ok (persist call ctx args).0 ≡ true
      → logged (persist call ctx args).1 ≡ logged ctx ++ encode_command args
  persist-logged args h =
      let saved : is_ok (append call.io aof args).0 ≡ true =
        sym (ap (λ r. is_ok r.0) (persist-open args)) ∙ h in
      ap (λ r. logged r.1) (persist-open args)
      ∙ (rw w.present (append-file call.io aof args w.open_ saved))

  persist_or_ok-logged :
      (args : List Bytes) (r : CommandResult)
      → is_error (persist_or_ok call ctx args r).0 ≡ false
      → logged (persist_or_ok call ctx args r).1 ≡ logged ctx ++ encode_command args
  unfolding persist_or_ok
  persist_or_ok-logged args r h = elim (Bool-cases (is_ok (persist call ctx args).0)) [
    | inl e ↦ rw e (persist-logged args e)
    | inr e ↦
        let failed : is_error (append_failed (persist call ctx args).0) ≡ false = rw e at h in
        absurd (cc (failed, append_failed-is_error (persist call ctx args).0))
  ]

  persist_changed-logged :
      (changed : Bool) (args : List Bytes) (r : CommandResult)
      → is_error (persist_changed changed call ctx args r).0 ≡ false
      → logged (persist_changed changed call ctx args r).1
        ≡ logged ctx ++ (if changed then encode_command args else [])
  unfolding persist_changed
  persist_changed-logged false args r h = sym (append-nil (logged ctx))
  persist_changed-logged true args r h = elim (Bool-cases (is_ok (persist call ctx args).0)) [
    | inl e ↦ rw e (persist-logged args e)
    | inr e ↦
        let failed : is_error (append_failed (persist call ctx args).0) ≡ false = rw e at h in
        absurd (cc (failed, append_failed-is_error (persist call ctx args).0))
  ]

  written-logged :
      (c : WriteCode) (args : List Bytes) (r : CommandResult)
      → is_error (written call ctx c args r).0 ≡ false
      → logged (written call ctx c args r).1 ≡ logged ctx ++ encode_command args
  unfolding written
  written-logged WriteCode.ok args r h = persist_or_ok-logged args r h
  written-logged WriteCode.not_set args r h = absurd (cc (h, err-is_error _))
  written-logged WriteCode.no_memory args r h = absurd (cc (h, err-is_error _))
  written-logged WriteCode.key_too_large args r h = absurd (cc (h, err-is_error _))
  written-logged WriteCode.value_too_large args r h = absurd (cc (h, err-is_error _))
  written-logged WriteCode.invalid_integer args r h = absurd (cc (h, err-is_error _))
  written-logged WriteCode.overflow args r h = absurd (cc (h, err-is_error _))

  set_reply-logged :
      (c : WriteCode) (args : List Bytes)
      → (set_reply call ctx c args).0 ≡ ok
      → logged (set_reply call ctx c args).1 ≡ logged ctx ++ encode_command args
  unfolding set_reply ok simple
  set_reply-logged WriteCode.not_set args h =
      absurd (let e : 36 ≡ 43 = ap (λ r. get_or r.response 0 0) h in omega (arith, e))
  set_reply-logged WriteCode.ok args h = written-logged WriteCode.ok args ok (ap is_error h)
  set_reply-logged WriteCode.no_memory args h =
      written-logged WriteCode.no_memory args ok (ap is_error h)
  set_reply-logged WriteCode.key_too_large args h =
      written-logged WriteCode.key_too_large args ok (ap is_error h)
  set_reply-logged WriteCode.value_too_large args h =
      written-logged WriteCode.value_too_large args ok (ap is_error h)
  set_reply-logged WriteCode.invalid_integer args h =
      written-logged WriteCode.invalid_integer args ok (ap is_error h)
  set_reply-logged WriteCode.overflow args h =
      written-logged WriteCode.overflow args ok (ap is_error h)

-- The decimal print of the time in milliseconds that lies `ms` behind `now`; the clock counts
-- nanoseconds.
abbrev pub print_expiry : TimePoint → ℤ → Bytes
print_expiry now ms = to_string_i64 (quotient (now +ℤ scale ms 1000000) 1000000)

-- The words of a logged SET behind its value, for the duration and the time of its options.
abbrev pub expiry_words : TimePoint → Option ℤ → Option ℤ → List Bytes
expiry_words now ttl (some p) = codes "PXAT" ∷ to_string_i64 p ∷ []
expiry_words now (some ms) none = codes "PXAT" ∷ print_expiry now ms ∷ []
expiry_words now none none = []

persisted_set-expiry_words :
    (start now : TimePoint) (key value : Bytes) (ttl pxat : Option ℤ)
    → persisted_set now key value (ttl_from start ttl pxat) pxat
      ≡ codes "SET" ∷ key ∷ value ∷ expiry_words now ttl pxat
unfolding persisted_set ttl_from pxat_arg_from_ttl unix_ms after_ms
persisted_set-expiry_words start now key value none none = refl
persisted_set-expiry_words start now key value (some ms) none = refl
persisted_set-expiry_words start now key value none (some p) = refl
persisted_set-expiry_words start now key value (some ms) (some p) = refl

module _ (hash : Bytes → ℕ) (call : Call) (ctx : CommandContext) (aof : Aof)
    (w : IsLogging ctx aof) where
  after_storage : (st : StorageEngine) → IsLogging (record ctx { storage = st }) aof
  after_storage st = record { live = w.live; present = w.present; open_ = w.open_ }

  -- When SET with valid options answers OK to a client while the append-only file is open, the file
  -- has grown by exactly an encoded SET of the key and the value, followed by PXAT and a time in
  -- milliseconds where an expiry was given: the time of the option, or the clock's reading after
  -- the write with the duration of the option added. It never carries the condition.
  pub set-logged :
      (name key value : Bytes) (args : List Bytes) (o : SetOptions)
      → set_options args ≡ accepted o
      → (Strings.set hash call ctx (name ∷ key ∷ value ∷ args)).0 ≡ ok
      → logged (Strings.set hash call ctx (name ∷ key ∷ value ∷ args)).1
        ≡ logged ctx
          ++ encode_command (codes "SET" ∷ key ∷ value ∷ expiry_words (call.clock 2) o.ttl o.pxat)
  unfolding Strings.set set_checked set_with
  set-logged name key value args o e h =
      let h' = rw e at h in
      rw e (set_reply-logged call _ aof (after_storage _) _ _ h')
      ∙ ap (λ c. logged ctx ++ encode_command c)
          (persisted_set-expiry_words (call.clock 0) (call.clock 2) key value o.ttl o.pxat)

  -- When INCR or DECR answers without an error while the append-only file is open, the file has
  -- grown by exactly the encoded request.
  pub incr_decr-logged :
      (delta : ℤ) (name key : Bytes)
      → is_error (incr_decr hash delta call ctx (name ∷ key ∷ [])).0 ≡ false
      → logged (incr_decr hash delta call ctx (name ∷ key ∷ [])).1
        ≡ logged ctx ++ encode_command (name ∷ key ∷ [])
  unfolding incr_decr
  incr_decr-logged delta name key h = written-logged call _ aof (after_storage _) _ _ _ h

  -- When DEL answers without an error while the append-only file is open, the file has grown by
  -- exactly the encoded request if some key was deleted, and not at all otherwise.
  pub del-logged :
      (name key : Bytes) (keys : List Bytes)
      → is_error (del hash call ctx (name ∷ key ∷ keys)).0 ≡ false
      → logged (del hash call ctx (name ∷ key ∷ keys)).1
        ≡ logged ctx
          ++ (if not ((Engine.del_keys hash ctx.storage call.clock (key ∷ keys)).0 == 0)
              then encode_command (name ∷ key ∷ keys)
              else [])
  unfolding del
  del-logged name key keys h =
      persist_changed-logged call _ aof (after_storage _)
        (not ((Engine.del_keys hash ctx.storage call.clock (key ∷ keys)).0 == 0))
        (name ∷ key ∷ keys) _ h

  -- When MSET answers without an error while the append-only file is open, the file has grown by
  -- exactly the encoded request.
  pub mset-logged :
      (args : List Bytes)
      → is_error (mset hash call ctx args).0 ≡ false
      → logged (mset hash call ctx args).1 ≡ logged ctx ++ encode_command args
  unfolding mset
  mset-logged args h = elim (Bool-cases (ltb (length args) 3 || length args % 2 == 0)) [
    | inl e ↦
        let refused : is_error (wrong_args (name_of args)) ≡ false = rw e at h in
        absurd (cc (refused, wrong_args-is_error (name_of args)))
    | inr e ↦ let h' = rw e at h in rw e (written-logged call _ aof (after_storage _) _ args ok h')
  ]

  -- When EXPIRE or PEXPIRE, with a duration that is read, answers without an error while the
  -- append-only file is open, the file has grown by exactly an encoded PEXPIREAT with the decimal
  -- print of the clock's reading after the change and the duration together, in milliseconds, if
  -- the engine answered that the key was there, and not at all otherwise.
  pub expire_impl-logged :
      (multiplier : ℕ) (command name key value : Bytes) (ms : ℤ)
      → parse_ttl_ms value multiplier ≡ some ms
      → is_error (expire_impl hash multiplier command call ctx (name ∷ key ∷ value ∷ [])).0 ≡ false
      → logged (expire_impl hash multiplier command call ctx (name ∷ key ∷ value ∷ [])).1
        ≡ logged ctx
          ++ (if (Engine.expire hash ctx.storage (call.clock 0) (call.clock 1) key ms).0
              then encode_command (codes "PEXPIREAT" ∷ key ∷ print_expiry (call.clock 2) ms ∷ [])
              else [])
  unfolding expire_impl expire_checked pxat_arg_from_ttl unix_ms after_ms
  expire_impl-logged multiplier command name key value ms e h =
      let h' = rw e at h in
      rw e (
        persist_changed-logged call _ aof (after_storage _)
          (Engine.expire hash ctx.storage (call.clock 0) (call.clock 1) key ms).0
          (codes "PEXPIREAT" ∷ key ∷ pxat_arg_from_ttl (call.clock 2) ms ∷ []) _ h')
