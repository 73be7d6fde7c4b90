-- ===== src/Persistence/Store.antt =====
-- `SnapshotStore` of src/persistence/snapshot.cpp over the files: saving, with the manifest.
-- `normalize` is `lexically_normal` of `std::filesystem`.
pub mod Saved
pub mod Checkpointed
pub mod Sound
use velox_db.Prelude.{
  ℕ, Bytes, codes, List, [], ◌∷◌, ◌++◌, Option, none, some, Bool, true, false, not, ◌&&◌, length,
  take, leb, ◌==◌, if◌then◌else◌, bytes_eq, is_some,
}
use velox_db.Util.Status.{Code, Status, ok_status, fail_with, is_ok}
use velox_db.Config.Types.{ProtocolConfig}
use velox_db.Storage.Types.{StorageEngine, Tick, TimePoint, SnapshotEntry}
use velox_db.Storage.Time.{unix_ms}
use velox_db.Storage.Engine as Engine
use velox_db.Persistence.Aof.{Aof, enabled}
use velox_db.Persistence.Replay.{path_is_safe}
use velox_db.Persistence.Files.{
  Files, put_file, remove_file, install_file, StreamOutcome, stored, not_opened, write_failed,
  close_failed, Replacing,
}
use velox_db.Persistence.Manifest.{Manifest, manifest_text, parse_manifest_lines, manifest_of}
use velox_db.Persistence.Snapshot.{snapshot_content, load_content}

pub record SnapshotStore : Type 0 where
  pub path : Bytes
  pub manifest_path : Bytes
  pub protocol : ProtocolConfig

abbrev pub default_manifest_path : Bytes → Bytes
default_manifest_path snapshot_path = snapshot_path ++ codes ".manifest"

abbrev pub tmp_path : Bytes → Bytes
tmp_path path = path ++ codes ".tmp"

-- The constructor.
unfoldable pub new_store : Bytes → ProtocolConfig → Bytes → SnapshotStore
new_store path protocol manifest_path = record {
  path = path;
  manifest_path = if length manifest_path == 0 then default_manifest_path path else manifest_path;
  protocol = protocol;
}

io_error : Bytes → Status
io_error message = fail_with Code.io_error message

-- The stream of the entries: a failure is seen behind an entry, or at the end.
snapshot_stream : Replacing → Bytes → List SnapshotEntry → Files → StreamOutcome → Status × Files
unfolding snapshot_content put_file install_file io_error
snapshot_stream io path es files stored =
    install_file (codes "failed to install snapshot: ") io.rename_error (tmp_path path) path
      (put_file (tmp_path path) (some (snapshot_content es)) files)
snapshot_stream io path es files not_opened =
    (io_error (codes "failed to open snapshot temp file"), files)
snapshot_stream io path [] files (write_failed n) =
    (io_error (codes "failed closing snapshot"), put_file (tmp_path path) (some []) files)
snapshot_stream io path (e ∷ es) files (write_failed n) = (
  io_error (codes "failed writing snapshot"),
  put_file (tmp_path path) (some (take n (snapshot_content (e ∷ es)))) files,
)
snapshot_stream io path es files (close_failed n) = (
  io_error (codes "failed closing snapshot"),
  put_file (tmp_path path) (some (take n (snapshot_content es))) files,
)

opens_stream : StreamOutcome → Bool
opens_stream not_opened = false
opens_stream _ = true

-- The entries are taken from the engine once the temporary file is open.
stream_of : Replacing → Bytes → TimePoint → StorageEngine → Files → Status × (StorageEngine × Files)
unfolding snapshot_stream opens_stream Engine.snapshot
stream_of io path now st files =
    let (es, swept) = Engine.snapshot st now in
    let (status, files') = snapshot_stream io path es files io.stream in
    (status, ((if opens_stream io.stream then swept else st), files'))

in_directory :
    Replacing
    → Bytes
    → TimePoint
    → StorageEngine
    → Files
    → Option Bytes
    → Status × (StorageEngine × Files)
unfolding stream_of io_error
in_directory io path now st files none = stream_of io path now st files
in_directory io path now st files (some m) =
    (io_error (codes "failed to create snapshot directory: " ++ m), (st, files))

unfoldable pub save_snapshot_file :
    Replacing → SnapshotStore → TimePoint → StorageEngine → Files → Status × (StorageEngine × Files)
unfolding in_directory path_is_safe
save_snapshot_file io s now st files =
    if path_is_safe s.path
    then in_directory io s.path now st files io.directory_error
    else (fail_with Code.invalid_argument (codes "invalid snapshot path"), (st, files))

manifest_stream : Replacing → Bytes → Bytes → Files → StreamOutcome → Status × Files
unfolding put_file install_file io_error
manifest_stream io path text files stored =
    install_file (codes "failed to install snapshot manifest: ") io.rename_error (tmp_path path)
      path (put_file (tmp_path path) (some text) files)
manifest_stream io path text files not_opened =
    (io_error (codes "failed to open snapshot manifest temp file"), files)
manifest_stream io path text files (write_failed n) = (
  io_error (codes "failed writing snapshot manifest"),
  put_file (tmp_path path) (some (take n text)) files,
)
manifest_stream io path text files (close_failed n) = (
  io_error (codes "failed writing snapshot manifest"),
  put_file (tmp_path path) (some (take n text)) files,
)

manifest_in_directory : Replacing → Bytes → Bytes → Files → Option Bytes → Status × Files
unfolding manifest_stream io_error
manifest_in_directory io path text files none = manifest_stream io path text files io.stream
manifest_in_directory io path text files (some m) =
    (io_error (codes "failed to create snapshot directory: " ++ m), files)

-- What the calls of one `save` meet: the times, the answer of `fsync`, the two replacements, and
-- whether a manifest can be removed.
pub record SaveCalls : Type 0 where
  pub now : TimePoint
  pub created : TimePoint
  pub sync_error : Option Bytes
  pub snapshot : Replacing
  pub manifest : Replacing
  pub removes : Bool

module _ (normalize : Bytes → Bytes) where
  unfoldable pub write_manifest : Replacing → SnapshotStore → Manifest → Files → Status × Files
  unfolding manifest_in_directory path_is_safe
  write_manifest io s m files =
      if path_is_safe s.manifest_path
      then manifest_in_directory io s.manifest_path (manifest_text normalize m) files
          io.directory_error
      else (fail_with Code.invalid_argument (codes "invalid snapshot manifest path"), files)

  unfoldable pub remove_manifest : Bool → SnapshotStore → Files → Files
  unfolding path_is_safe put_file
  remove_manifest removes s files =
      if removes && path_is_safe s.manifest_path then remove_file s.manifest_path files else files

  -- The manifest of a snapshot that goes with an append-only file.
  abbrev pub checkpoint : SaveCalls → SnapshotStore → Aof → Manifest
  checkpoint calls s aof = record {
    snapshot_path = s.path;
    aof_path = aof.config.aof_path;
    aof_offset = aof.current_size;
    created_unix_ms = unix_ms calls.created;
  }

  marked :
      SaveCalls
      → SnapshotStore
      → Aof
      → Status × (StorageEngine × Files)
      → Status × (StorageEngine × Files)
  unfolding write_manifest unix_ms
  marked calls s aof (status, (st, files)) =
      if is_ok status
      then (let (status', files') =
            write_manifest calls.manifest s (checkpoint calls s aof) files in
          (status', (st, files')))
      else (status, (st, files))

  unmarked :
      SaveCalls
      → SnapshotStore
      → Status × (StorageEngine × Files)
      → Status × (StorageEngine × Files)
  unfolding remove_manifest
  unmarked calls s (status, (st, files)) =
      (status, (st, (if is_ok status then remove_manifest calls.removes s files else files)))

  saved_alone : SaveCalls → SnapshotStore → StorageEngine → Files → Status × (StorageEngine × Files)
  unfolding unmarked save_snapshot_file
  saved_alone calls s st files =
      unmarked calls s (save_snapshot_file calls.snapshot s calls.now st files)

  saved_with :
      SaveCalls
      → SnapshotStore
      → StorageEngine
      → Aof
      → Files
      → Option Bytes
      → Status × (StorageEngine × Files)
  unfolding marked save_snapshot_file io_error
  saved_with calls s st aof files none =
      marked calls s aof (save_snapshot_file calls.snapshot s calls.now st files)
  saved_with calls s st aof files (some m) = (
    io_error (codes "fsync failed for " ++ (aof.config.aof_path ++ (codes ": " ++ m))),
    (st, files),
  )

  unfoldable pub save :
      SaveCalls
      → SnapshotStore
      → StorageEngine
      → Option Aof
      → Files
      → Status × (StorageEngine × Files)
  unfolding saved_alone saved_with
  save calls s st none files = saved_alone calls s st files
  save calls s st (some aof) files =
      if enabled aof
      then saved_with calls s st aof files calls.sync_error
      else saved_alone calls s st files
