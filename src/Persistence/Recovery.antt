-- ===== src/Persistence/Recovery.antt =====
-- What a start restores: reading the manifest, `load` and `load_for_recovery` of
-- src/persistence/snapshot.cpp over the files.
pub mod RoundTrip
use velox_db.Prelude.{
  leb, ◌&&◌, bytes_eq, ℕ, Bytes, codes, Option, none, some, Bool, true, false, if◌then◌else◌,
  is_some,
}
use velox_db.Util.Status.{Code, Status, ok_status, fail_with, is_ok}
use velox_db.Storage.Types.{StorageEngine, Tick}
use velox_db.Persistence.Replay.{path_is_safe}
use velox_db.Persistence.Files.{Files}
use velox_db.Persistence.Manifest.{Manifest, parse_manifest_lines, manifest_of}
use velox_db.Persistence.Snapshot.{load_content}
use velox_db.Persistence.Store.{SnapshotStore}

-- `opens` tells which of the files that exist can be opened.
read_from : (opens : Bool) → Option Bytes → Option Manifest
unfolding manifest_of parse_manifest_lines
read_from opens none = none
read_from opens (some content) = if opens then manifest_of (parse_manifest_lines content) else none

unfoldable pub read_manifest : (Bytes → Bool) → SnapshotStore → Files → Option Manifest
unfolding read_from path_is_safe
read_manifest opens s files =
    if path_is_safe s.manifest_path
    then read_from (opens s.manifest_path) (files s.manifest_path)
    else none

module _ (normalize : Bytes → Bytes) where
  unfoldable pub manifest_matches : SnapshotStore → Manifest → Bytes → ℕ → Files → Bool
  unfolding bytes_eq
  manifest_matches s m aof_path aof_size files =
      bytes_eq m.snapshot_path (normalize s.path)
      && bytes_eq m.aof_path (normalize aof_path)
      && leb m.aof_offset aof_size
      && is_some (files s.path)

pub record RecoveryLoadResult : Type 0 where
  pub status : Status
  pub loaded_snapshot : Bool
  pub found_manifest : Bool
  pub aof_replay_offset : ℕ

abbrev pub nothing_loaded : (found_manifest : Bool) → RecoveryLoadResult
nothing_loaded found_manifest = record {
  status = ok_status;
  loaded_snapshot = false;
  found_manifest = found_manifest;
  aof_replay_offset = 0;
}

module _ (hash : Bytes → ℕ) (opens : Bytes → Bool) where
  load_from :
      SnapshotStore → (ℕ → Tick) → StorageEngine → Option Bytes → Option (Status × StorageEngine)
  unfolding load_content
  load_from s ticks st none = some (ok_status, st)
  load_from s ticks st (some content) =
      if opens s.path
      then load_content hash s.protocol ticks st content
      else some (fail_with Code.io_error (codes "failed to open snapshot"), st)

  unfoldable pub load :
      SnapshotStore → (ℕ → Tick) → StorageEngine → Files → Option (Status × StorageEngine)
  unfolding load_from path_is_safe
  load s ticks st files =
      if path_is_safe s.path then load_from s ticks st (files s.path) else some (ok_status, st)

  unfoldable pub loaded : ℕ → Status × StorageEngine → RecoveryLoadResult × StorageEngine
  loaded offset (status, st) = (
    record {
      status = status;
      loaded_snapshot = is_ok status;
      found_manifest = true;
      aof_replay_offset = if is_ok status then offset else 0;
    },
    st,
  )

  loaded_if_ended :
      ℕ → Option (Status × StorageEngine) → Option (RecoveryLoadResult × StorageEngine)
  unfolding loaded
  loaded_if_ended offset none = none
  loaded_if_ended offset (some r) = some (loaded offset r)

  module _ (normalize : Bytes → Bytes) where
    load_matching :
        SnapshotStore
        → (ℕ → Tick)
        → StorageEngine
        → Bytes
        → ℕ
        → Files
        → Option Manifest
        → Option (RecoveryLoadResult × StorageEngine)
    unfolding manifest_matches load loaded_if_ended
    load_matching s ticks st aof_path aof_size files none = some (nothing_loaded false, st)
    load_matching s ticks st aof_path aof_size files (some m) =
        if manifest_matches normalize s m aof_path aof_size files
        then loaded_if_ended m.aof_offset (load s ticks st files)
        else some (nothing_loaded true, st)

    unfoldable pub load_for_recovery :
        SnapshotStore
        → (ℕ → Tick)
        → StorageEngine
        → (aof_path : Bytes) (aof_size : ℕ) → Files
        → Option (RecoveryLoadResult × StorageEngine)
    unfolding load_matching read_manifest
    load_for_recovery s ticks st aof_path aof_size files =
        load_matching s ticks st aof_path aof_size files (read_manifest opens s files)
