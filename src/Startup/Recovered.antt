-- ===== src/Startup/Recovered.antt =====
-- What a start of src/main.cpp restores from a checkpoint and the log behind it.
use velox_db.Prelude.{ℕ, ◌≤◌, ◌<◌, IsI64, Bytes, List, ◌++◌, some, true, length, take, All, ◌≡◌}
use velox_db.Util.Decimal.{max_u64}
use velox_db.Util.Status.{Status}
use velox_db.Config.Types.{Config}
use velox_db.Storage.Types.{StorageEngine, SnapshotEntry}
use velox_db.Resp.Encode.{encode_command}
use velox_db.Resp.Parser.State.{parser_options_from_config}
use velox_db.Resp.Parser.RoundTrip.{Fits}
use velox_db.Commands.Context.{CommandContext}
use velox_db.Commands.Registry.{CommandRegistry}
use velox_db.Persistence.Files.{Files}
use velox_db.Persistence.Replay.{path_is_safe}
use velox_db.Persistence.Replay.Torn.{log_of}
use velox_db.Persistence.Manifest.{Manifest}
use velox_db.Persistence.Manifest.RoundTrip.{IsPath}
use velox_db.Persistence.Snapshot.{snapshot_content}
use velox_db.Persistence.Snapshot.Load.{snapshot_commands, load_commands}
use velox_db.Persistence.Store.Checkpointed.{IsCheckpoint}
use velox_db.Startup.{StartCalls, store_of}

-- The files of a checkpoint `m` of the entries `es`, with an append-only file that holds `before` at
-- the time of the checkpoint, and behind it the commands `cs` and `k` bytes of one more.
pub record IsLog (normalize : Bytes → Bytes) (config : Config) (m : Manifest)
    (es : List SnapshotEntry) (before : Bytes) (cs : List (List Bytes)) (torn : List Bytes) (k : ℕ)
    (files : Files) : Type 0 where
  pub point : IsCheckpoint normalize (store_of config) m es files
  pub snapshot_path : m.snapshot_path ≡ (store_of config).path
  pub aof_path : m.aof_path ≡ config.persistence.aof_path
  pub normal_snapshot_path : IsPath (normalize m.snapshot_path)
  pub normal_aof_path : IsPath (normalize m.aof_path)
  pub offset : m.aof_offset ≡ length before
  pub offset_bound : m.aof_offset ≤ max_u64
  pub created : IsI64 m.created_unix_ms
  pub entries_fit : All (Fits (parser_options_from_config config.protocol)) (snapshot_commands es)
  pub entries_limit : length (snapshot_content es) ≤ config.protocol.max_request_bytes
  pub aof_safe : path_is_safe config.persistence.aof_path ≡ true
  pub log :
      files config.persistence.aof_path
      ≡ some (before ++ (log_of cs ++ take k (encode_command torn)))
  pub log_fits : All (Fits (parser_options_from_config config.protocol)) cs
  pub torn_fits : Fits (parser_options_from_config config.protocol) torn
  pub torn_short : k < length (encode_command torn)
  pub log_limit :
      length (log_of cs ++ take k (encode_command torn)) ≤ config.protocol.max_request_bytes

module _ (hash : Bytes → ℕ) (normalize : Bytes → Bytes) (registry : CommandRegistry)
    (calls : StartCalls) (opened : (p : Bytes) → calls.opens p ≡ true)
    (sized : (p : Bytes) → calls.has_size p ≡ true) (ctx : CommandContext) (m : Manifest)
    (es : List SnapshotEntry) (before : Bytes) (cs : List (List Bytes)) (torn : List Bytes) (k : ℕ)
    (files : Files) (h : IsLog normalize ctx.config m es before cs torn k files) where
  -- The snapshot, loaded into the engine of the start.
  abbrev pub from_snapshot : Status × StorageEngine
  from_snapshot = load_commands hash calls.ticks ctx.storage 0 (snapshot_commands es)
