-- ===== src/Persistence/Snapshot.antt =====
-- The content of a snapshot in src/persistence/snapshot.cpp: what `save_snapshot_file` writes, and the
-- loop of `load` over it.
pub mod Load
pub mod Entries
use velox_db.Prelude.{
  ℕ, zero, suc, Bytes, codes, List, [], ◌∷◌, ◌++◌, Option, none, some, Bool, true, false, length,
  ◌==◌, if◌then◌else◌, bytes_eq, ℤ,
}
use velox_db.Util.Status.{Code, Status, ok_status, fail_with, is_ok}
use velox_db.Util.Decimal.{to_string_i64}
use velox_db.Util.Parse.{parse_i64}
use velox_db.Config.Types.{ProtocolConfig}
use velox_db.Resp.Types.{Command, ParseResult, ok, need_more, failed, Parser}
use velox_db.Resp.Encode.{encode_command}
use velox_db.Resp.Parser.State.{append, buffered_bytes, next_command, parser_options_from_config}
use velox_db.Storage.Types.{StorageEngine, Tick, SnapshotEntry, WriteCode, WriteResult, always}
use velox_db.Storage.Time.{timepoint_from_unix_ms}
use velox_db.Storage.Messages.{storage_write_error}
use velox_db.Storage.Engine as Engine

-- The commands of one entry.
unfoldable pub expiry_commands : Bytes → Option ℤ → List (List Bytes)
expiry_commands key none = []
expiry_commands key (some ms) = (codes "PEXPIREAT" ∷ key ∷ to_string_i64 ms ∷ []) ∷ []

abbrev pub entry_commands : SnapshotEntry → List (List Bytes)
entry_commands e = (codes "SET" ∷ e.key ∷ e.value ∷ []) ∷ expiry_commands e.key e.expire_at_unix_ms

pub encoded : List (List Bytes) → Bytes → Bytes
unfolding encode_command
encoded [] rest = rest
encoded (c ∷ cs) rest = encode_command c ++ encoded cs rest

-- The loop over the entries of `storage.snapshot()`.
unfoldable pub snapshot_content : List SnapshotEntry → Bytes
unfolding encoded expiry_commands
snapshot_content [] = []
snapshot_content (e ∷ es) = encoded (entry_commands e) (snapshot_content es)

load_written : WriteResult × StorageEngine → Status × StorageEngine
unfolding storage_write_error
load_written (r, st) = (written_status r.code, st)
  where
    written_status : WriteCode → Status
    written_status WriteCode.ok = ok_status
    written_status code = fail_with Code.internal_error (storage_write_error code)

module _ (hash : Bytes → ℕ) where
  load_expiry : Tick → StorageEngine → Bytes → Option ℤ → Status × StorageEngine
  unfolding Engine.expire_at timepoint_from_unix_ms
  load_expiry t st key none =
      (fail_with Code.protocol_error (codes "invalid PEXPIREAT in snapshot"), st)
  load_expiry t st key (some when) =
      (ok_status, (Engine.expire_at hash st t.now key (timepoint_from_unix_ms when)).1)

  unfoldable pub load_command : Tick → StorageEngine → List Bytes → Status × StorageEngine
  unfolding Engine.set load_written load_expiry parse_i64 bytes_eq
  load_command t st (name ∷ key ∷ value ∷ []) =
      if bytes_eq name (codes "SET")
      then load_written (Engine.set hash st t key value none always)
      else if bytes_eq name (codes "PEXPIREAT")
      then load_expiry t st key (parse_i64 value)
      else (fail_with Code.protocol_error (codes "unknown snapshot command"), st)
  load_command t st args = (fail_with Code.protocol_error (codes "unknown snapshot command"), st)

  -- One round; the tick is that of the command, the clock being read anew for each.
  pub load_round :
      (StorageEngine → ℕ → Parser → Option (Status × StorageEngine))
      → (ℕ → Tick)
      → StorageEngine
      → ℕ
      → ParseResult Command × Parser
      → Option (Status × StorageEngine)
  unfolding load_command
  load_round next ticks st n (need_more, p) = some (
    (if buffered_bytes p == 0
        then ok_status
        else fail_with Code.protocol_error (codes "partial snapshot command")),
    st,
  )
  load_round next ticks st n (failed m, p) = some (fail_with Code.protocol_error m, st)
  load_round next ticks st n (ok c, p) =
      let (status, st') = load_command (ticks n) st c.args in
      let rest = next st' (suc n) p in if is_ok status then rest else some (status, st')

  pub load_loop :
      (fuel : ℕ) → (ℕ → Tick) → StorageEngine → ℕ → Parser → Option (Status × StorageEngine)
  unfolding load_round next_command
  load_loop zero ticks st n p = none
  load_loop (suc f) ticks st n p = load_round (load_loop f ticks) ticks st n (next_command p)

  load_appended : (ℕ → Tick) → StorageEngine → Status × Parser → Option (Status × StorageEngine)
  unfolding load_loop
  load_appended ticks st (status, p) =
      if is_ok status then load_loop (suc (length p.buffer)) ticks st 0 p else some (status, st)

  -- `load`, of the content of the file.
  unfoldable pub load_content :
      ProtocolConfig → (ℕ → Tick) → StorageEngine → Bytes → Option (Status × StorageEngine)
  unfolding load_appended append
  load_content protocol ticks st content =
      if length content == 0
      then some (ok_status, st)
      else load_appended ticks st
          (append (record { options = parser_options_from_config protocol; buffer = [] }) content)
