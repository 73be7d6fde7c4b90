-- ===== src/Persistence/Store/Saved.antt =====
-- What a save of src/persistence/snapshot.cpp leaves in the files.
use velox_db.Prelude.{
  ap, ◌∙◌, Bytes, codes, List, [], ◌∷◌, Option, none, some, true, false, length-append, bytes_eq,
  bytes_eq_refl, Bool-cases, inl, inr, ◌≡◌, refl, arith,
}
use velox_db.Util.Status.{Code, Status, fail_with, is_ok}
use velox_db.Storage.Types.{StorageEngine, TimePoint, SnapshotEntry}
use velox_db.Storage.Engine as Engine
use velox_db.Persistence.Replay.{path_is_safe}
use velox_db.Persistence.Files.{
  Files, bytes_eq-length, put_file, rename_file, install_file, StreamOutcome, stored, not_opened,
  write_failed, close_failed, Replacing,
}
use velox_db.Persistence.Manifest.{Manifest, manifest_text}
use velox_db.Persistence.Replay.Torn.{log_of}
use velox_db.Persistence.Snapshot.{snapshot_content}
use velox_db.Persistence.Snapshot.Entries.{entry_log, snapshot_content-log_of}
use velox_db.Persistence.Store.{
  SnapshotStore, tmp_path, io_error, snapshot_stream, stream_of, in_directory, save_snapshot_file,
  manifest_stream, manifest_in_directory, write_manifest,
}

-- What replacing the file at a path has done, whatever it met: all other files but the temporary one
-- are as before, and the file is the new one or, where it failed, the old one.
pub record Replaced (path content : Bytes) (files : Files) (r : Status × Files) : Type 0 where
  pub done : is_ok r.0 ≡ true → r.1 path ≡ some content
  pub kept : is_ok r.0 ≡ false → r.1 path ≡ files path
  pub others :
      (p : Bytes) → bytes_eq p path ≡ false → bytes_eq p (tmp_path path) ≡ false → r.1 p ≡ files p

pub bytes_eq-tmp_path : (path : Bytes) → bytes_eq path (tmp_path path) ≡ false
bytes_eq-tmp_path path =
    bytes_eq-length path (tmp_path path) (omega (arith, length-append path (codes ".tmp")))

put_tmp-Replaced :
    (path content : Bytes) (part : Option Bytes) (files : Files) (c : Code) (m : Bytes)
    → is_ok (fail_with c m) ≡ false
    → Replaced path content files (fail_with c m, put_file (tmp_path path) part files)
unfolding put_file
put_tmp-Replaced path content part files c m bad = record {
  done = λ e. cc;
  kept = λ e. rw (bytes_eq-tmp_path path) refl;
  others = λ p h k. rw k refl;
}

same-Replaced :
    (path content : Bytes) (files : Files) (c : Code) (m : Bytes)
    → is_ok (fail_with c m) ≡ false
    → Replaced path content files (fail_with c m, files)
same-Replaced path content files c m bad = record {
  done = λ e. cc;
  kept = λ e. refl;
  others = λ p h k. refl;
}

install_file-Replaced :
    (message : Bytes) (error : Option Bytes) (path content : Bytes) (files : Files)
    → Replaced path content files (
        install_file message error
          (tmp_path path)
          path
          (put_file (tmp_path path) (some content) files))
unfolding install_file rename_file put_file
install_file-Replaced message none path content files = record {
  done = λ e. rw (bytes_eq_refl path, bytes_eq_refl (tmp_path path)) refl;
  kept = λ e. cc;
  others = λ p h k. rw (h, k) refl;
}
install_file-Replaced message (some m) path content files = record {
  done = λ e. cc;
  kept = λ e. rw (bytes_eq-tmp_path path) refl;
  others = λ p h k. rw k refl;
}

snapshot_stream-Replaced :
    (io : Replacing) (path : Bytes) (es : List SnapshotEntry) (files : Files) (o : StreamOutcome)
    → Replaced path (snapshot_content es) files (snapshot_stream io path es files o)
unfolding snapshot_stream io_error
snapshot_stream-Replaced io path es files stored =
    install_file-Replaced (codes "failed to install snapshot: ") io.rename_error path
      (snapshot_content es) files
snapshot_stream-Replaced io path es files not_opened =
    same-Replaced path (snapshot_content es) files Code.io_error _ refl
snapshot_stream-Replaced io path [] files (write_failed n) =
    put_tmp-Replaced path (snapshot_content []) (some []) files Code.io_error _ refl
snapshot_stream-Replaced io path (e ∷ es) files (write_failed n) =
    put_tmp-Replaced path (snapshot_content (e ∷ es)) _ files Code.io_error _ refl
snapshot_stream-Replaced io path es files (close_failed n) =
    put_tmp-Replaced path (snapshot_content es) _ files Code.io_error _ refl

manifest_stream-Replaced :
    (io : Replacing) (path text : Bytes) (files : Files) (o : StreamOutcome)
    → Replaced path text files (manifest_stream io path text files o)
unfolding manifest_stream io_error
manifest_stream-Replaced io path text files stored =
    install_file-Replaced (codes "failed to install snapshot manifest: ") io.rename_error path text
      files
manifest_stream-Replaced io path text files not_opened =
    same-Replaced path text files Code.io_error _ refl
manifest_stream-Replaced io path text files (write_failed n) =
    put_tmp-Replaced path text _ files Code.io_error _ refl
manifest_stream-Replaced io path text files (close_failed n) =
    put_tmp-Replaced path text _ files Code.io_error _ refl

-- The status with the files.
abbrev pub files_after : Status × (StorageEngine × Files) → Status × Files
files_after (status, (st, files)) = (status, files)

in_directory-Replaced :
    (io : Replacing) (path : Bytes) (now : TimePoint) (st : StorageEngine) (files : Files)
    (error : Option Bytes)
    → Replaced path
        (snapshot_content (Engine.snapshot st now).0)
        files
        (files_after (in_directory io path now st files error))
unfolding in_directory stream_of io_error
in_directory-Replaced io path now st files none =
    snapshot_stream-Replaced io path (Engine.snapshot st now).0 files io.stream
in_directory-Replaced io path now st files (some m) =
    same-Replaced path (snapshot_content (Engine.snapshot st now).0) files Code.io_error _ refl

saved_content-Replaced :
    (io : Replacing) (s : SnapshotStore) (now : TimePoint) (st : StorageEngine) (files : Files)
    → Replaced s.path
        (snapshot_content (Engine.snapshot st now).0)
        files
        (files_after (save_snapshot_file io s now st files))
unfolding save_snapshot_file
saved_content-Replaced io s now st files = elim (Bool-cases (path_is_safe s.path)) [
  | inl e ↦ rw e (in_directory-Replaced io s.path now st files io.directory_error)
  | inr e ↦ rw e (
      same-Replaced s.path (snapshot_content (Engine.snapshot st now).0) files Code.invalid_argument
        _ refl)
]

Replaced-content :
    (path c d : Bytes) (files : Files) (r : Status × Files)
    → c ≡ d
    → Replaced path c files r
    → Replaced path d files r
Replaced-content path c d files r e h = record {
  done = λ k. h.done k ∙ ap some e;
  kept = h.kept;
  others = h.others;
}

-- Saving a snapshot, whatever the system answers: on success the file holds the encoded SET of each
-- entry of the engine, followed by its PEXPIREAT where it has an expiry, on failure it holds what
-- it held, and no other file but the temporary one has changed.
pub save_snapshot_file-Replaced :
    (io : Replacing) (s : SnapshotStore) (now : TimePoint) (st : StorageEngine) (files : Files)
    → Replaced s.path
        (log_of (entry_log (Engine.snapshot st now).0))
        files
        (files_after (save_snapshot_file io s now st files))
save_snapshot_file-Replaced io s now st files =
    Replaced-content s.path (snapshot_content (Engine.snapshot st now).0)
      (log_of (entry_log (Engine.snapshot st now).0)) files
      (files_after (save_snapshot_file io s now st files))
      (snapshot_content-log_of (Engine.snapshot st now).0)
      (saved_content-Replaced io s now st files)

manifest_in_directory-Replaced :
    (io : Replacing) (path text : Bytes) (files : Files) (error : Option Bytes)
    → Replaced path text files (manifest_in_directory io path text files error)
unfolding manifest_in_directory io_error
manifest_in_directory-Replaced io path text files none =
    manifest_stream-Replaced io path text files io.stream
manifest_in_directory-Replaced io path text files (some m) =
    same-Replaced path text files Code.io_error _ refl

pub write_manifest-Replaced :
    (normalize : Bytes → Bytes) (io : Replacing) (s : SnapshotStore) (m : Manifest) (files : Files)
    → Replaced s.manifest_path
        (manifest_text normalize m)
        files
        (write_manifest normalize io s m files)
unfolding write_manifest
write_manifest-Replaced normalize io s m files = elim (Bool-cases (path_is_safe s.manifest_path)) [
  | inl e ↦ rw e (
      manifest_in_directory-Replaced io s.manifest_path (manifest_text normalize m) files
        io.directory_error)
  | inr e ↦
      rw e (
        same-Replaced s.manifest_path (manifest_text normalize m) files Code.invalid_argument _
          refl)
]
