-- ===== src/Persistence/Snapshot/Entries.antt =====
-- What the content of a snapshot of src/persistence/snapshot.cpp means, entry by entry.
use velox_db.Prelude.{
  ℕ, suc, ◌≤◌, ℤ, IsI64, scale, Bytes, codes, List, [], ◌∷◌, ◌++◌, Option, none, some, Bool, true,
  false, length, if◌then◌else◌, bytes_eq, Bool-cases, inl, inr, All, ◌≡◌, refl, ap, ◌∙◌,
}
use velox_db.Util.Status.{Code, Status, ok_status, fail_with, is_ok}
use velox_db.Util.Decimal.{to_string_i64}
use velox_db.Util.Parse.Prints.{parse_i64-to_string_i64}
use velox_db.Config.Types.{ProtocolConfig}
use velox_db.Resp.Encode.{encode_command}
use velox_db.Resp.Parser.State.{parser_options_from_config}
use velox_db.Resp.Parser.RoundTrip.{Fits}
use velox_db.Storage.Types.{StorageEngine, Tick, SnapshotEntry, WriteCode, WriteResult, always}
use velox_db.Storage.Time.{timepoint_from_unix_ms}
use velox_db.Storage.Messages.{storage_write_error}
use velox_db.Storage.Engine as Engine
use velox_db.Persistence.Replay.Torn.{log_of}
use velox_db.Persistence.Snapshot.{
  expiry_commands, encoded, snapshot_content, load_written, load_expiry, load_command, load_content,
}
use velox_db.Persistence.Snapshot.Load.{
  snapshot_commands, snapshot_content-encoded, load_commands, load_content-snapshot_commands,
}

-- The requests of a client that would make the entries: a SET for each, and a PEXPIREAT with the
-- decimal print of its expiry where it has one.
abbrev pub expiry_log : Bytes → Option ℤ → List (List Bytes)
expiry_log key none = []
expiry_log key (some ms) = (codes "PEXPIREAT" ∷ key ∷ to_string_i64 ms ∷ []) ∷ []

abbrev pub entry_log : List SnapshotEntry → List (List Bytes)
entry_log [] = []
entry_log (e ∷ es) =
    (codes "SET" ∷ e.key ∷ e.value ∷ []) ∷ (expiry_log e.key e.expire_at_unix_ms ++ entry_log es)

pub expiry_commands-expiry_log :
    (key : Bytes) (expiry : Option ℤ) → expiry_commands key expiry ≡ expiry_log key expiry
unfolding expiry_commands
expiry_commands-expiry_log key none = refl
expiry_commands-expiry_log key (some ms) = refl

pub snapshot_commands-entry_log : (es : List SnapshotEntry) → snapshot_commands es ≡ entry_log es
unfolding snapshot_commands
snapshot_commands-entry_log [] = refl
snapshot_commands-entry_log (e ∷ es) =
    ap (λ cs. (codes "SET" ∷ e.key ∷ e.value ∷ []) ∷ (cs ++ snapshot_commands es))
      (expiry_commands-expiry_log e.key e.expire_at_unix_ms)
    ∙ ap (λ cs. (codes "SET" ∷ e.key ∷ e.value ∷ []) ∷ (expiry_log e.key e.expire_at_unix_ms ++ cs))
        (snapshot_commands-entry_log es)

encoded-log_of : (cs : List (List Bytes)) → encoded cs [] ≡ log_of cs
unfolding encoded log_of
encoded-log_of [] = refl
encoded-log_of (c ∷ cs) = ap (λ s. encode_command c ++ s) (encoded-log_of cs)

pub snapshot_content-log_of :
    (es : List SnapshotEntry) → snapshot_content es ≡ log_of (entry_log es)
snapshot_content-log_of es =
    snapshot_content-encoded es
    ∙ encoded-log_of (snapshot_commands es)
    ∙ ap log_of (snapshot_commands-entry_log es)

-- The expiry of an entry is a number of int64_t.
abbrev HasI64 : Option ℤ → Type 0
HasI64 none = Unit
HasI64 (some ms) = IsI64 ms

abbrev pub IsTimed : SnapshotEntry → Type 0
IsTimed e = HasI64 e.expire_at_unix_ms

abbrev pub is_stored : WriteCode → Bool
is_stored WriteCode.ok = true
is_stored _ = false

load_written-cases :
    (r : WriteResult) (st : StorageEngine)
    → load_written (r, st) ≡ (
        if is_stored r.code
        then (ok_status, st)
        else (fail_with Code.internal_error (storage_write_error r.code), st))
unfolding load_written
load_written-cases r st = written_cases r.code r refl
  where
    written_cases :
        (c : WriteCode) (r : WriteResult)
        → r.code ≡ c
        → load_written (r, st) ≡ (
            if is_stored r.code
            then (ok_status, st)
            else (fail_with Code.internal_error (storage_write_error r.code), st))
    written_cases WriteCode.ok r e = rw e refl
    written_cases WriteCode.not_set r e = rw e refl
    written_cases WriteCode.no_memory r e = rw e refl
    written_cases WriteCode.key_too_large r e = rw e refl
    written_cases WriteCode.value_too_large r e = rw e refl
    written_cases WriteCode.invalid_integer r e = rw e refl
    written_cases WriteCode.overflow r e = rw e refl

module _ (hash : Bytes → ℕ) (ticks : ℕ → Tick) where
  -- The reference: each entry is set without a condition, and then given its expiry, of which a
  -- millisecond is 1000000 ticks of the clock. A step of the engine takes one of the ticks.
  abbrev expired_at : StorageEngine → ℕ → Bytes → Option ℤ → StorageEngine
  expired_at st n key none = st
  expired_at st n key (some ms) = (Engine.expire_at hash st (ticks n).now key (scale ms 1000000)).1

  abbrev behind : ℕ → Option ℤ → ℕ
  behind n none = n
  behind n (some ms) = suc n

  abbrev pub restore_entries : StorageEngine → ℕ → List SnapshotEntry → Status × StorageEngine
  restore_entries st n [] = (ok_status, st)
  restore_entries st n (e ∷ es) =
      let (r, st') = Engine.set hash st (ticks n) e.key e.value none always in
      let rest =
        restore_entries (expired_at st' (suc n) e.key e.expire_at_unix_ms)
          (behind (suc n) e.expire_at_unix_ms) es in
      if is_stored r.code
      then rest
      else (fail_with Code.internal_error (storage_write_error r.code), st')

  load_expired :
      (st : StorageEngine) (n : ℕ) (key : Bytes) (expiry : Option ℤ) (cs : List (List Bytes))
      → HasI64 expiry
      → load_commands hash ticks st n (expiry_log key expiry ++ cs)
        ≡ load_commands hash ticks (expired_at st n key expiry) (behind n expiry) cs
  unfolding load_commands load_command load_expiry bytes_eq timepoint_from_unix_ms
  load_expired st n key none cs h = refl
  load_expired st n key (some ms) cs h = rw (parse_i64-to_string_i64 ms h) refl

  load_set :
      (st : StorageEngine) (n : ℕ) (key value : Bytes) (cs : List (List Bytes))
      → let r = Engine.set hash st (ticks n) key value none always in
        load_commands hash ticks st n ((codes "SET" ∷ key ∷ value ∷ []) ∷ cs) ≡ (
          if is_stored r.0.code
          then load_commands hash ticks r.1 (suc n) cs
          else (fail_with Code.internal_error (storage_write_error r.0.code), r.1))
  unfolding load_commands load_command bytes_eq
  load_set st n key value cs =
      let r = Engine.set hash st (ticks n) key value none always in
      ap (λ q. if is_ok q.0 then load_commands hash ticks q.1 (suc n) cs else q)
        (load_written-cases r.0 r.1)
      ∙ (elim (Bool-cases (is_stored r.0.code)) [ inl e ↦ rw e refl | inr e ↦ rw e refl ])

  load_commands-entry_log :
      (st : StorageEngine) (n : ℕ) (es : List SnapshotEntry)
      → All IsTimed es
      → load_commands hash ticks st n (entry_log es) ≡ restore_entries st n es
  load_commands-entry_log st n [] h = unfold load_commands in refl
  load_commands-entry_log st n (e ∷ es) (h, hs) =
      let r = Engine.set hash st (ticks n) e.key e.value none always in
      let st' = expired_at r.1 (suc n) e.key e.expire_at_unix_ms in
      let m = behind (suc n) e.expire_at_unix_ms in
      load_set st n e.key e.value (expiry_log e.key e.expire_at_unix_ms ++ entry_log es)
      ∙ ap
          (λ q.
            if is_stored r.0.code
            then q
            else (fail_with Code.internal_error (storage_write_error r.0.code), r.1))
          (load_expired r.1 (suc n) e.key e.expire_at_unix_ms (entry_log es) h
            ∙ load_commands-entry_log st' m es hs)

  -- Loading the content that was saved for a list of entries does this to the engine: each entry in
  -- turn is set without a condition or an expiry, and then given its expiry where it has one, up to
  -- the first entry that the engine refuses, whose error is the result. The expiries are numbers of
  -- int64_t, the SET and PEXPIREAT requests of the entries are within the limits of the parser, and
  -- together they are at most the limit on a request.
  pub load_content-snapshot_content :
      (protocol : ProtocolConfig) (st : StorageEngine) (es : List SnapshotEntry)
      → All IsTimed es
      → All (Fits (parser_options_from_config protocol)) (entry_log es)
      → length (log_of (entry_log es)) ≤ protocol.max_request_bytes
      → load_content hash protocol ticks st (snapshot_content es) ≡ some (restore_entries st 0 es)
  load_content-snapshot_content protocol st es h a l =
      let same = snapshot_commands-entry_log es in
      load_content-snapshot_commands hash ticks protocol st es (rw same a)
        (rw (snapshot_content-log_of es) l)
      ∙ ap some (ap (load_commands hash ticks st 0) same ∙ load_commands-entry_log st 0 es h)
