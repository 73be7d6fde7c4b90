-- ===== src/Persistence/Store/Checkpointed.antt =====
-- The checkpoint that a save of src/persistence/snapshot.cpp leaves: a snapshot and its manifest.
use velox_db.Prelude.{
  Bytes, codes, ◌++◌, length, quotient, List, Option, none, some, true, false, bytes_eq, Bool-cases,
  inl, inr, ◌≡◌, refl, sym, ap, ◌∙◌,
}
use velox_db.Util.Status.{Status, is_ok}
use velox_db.Storage.Types.{StorageEngine, TimePoint, SnapshotEntry}
use velox_db.Storage.Time.{unix_ms}
use velox_db.Util.Decimal.{to_string, to_string_i64}
use velox_db.Storage.Engine as Engine
use velox_db.Persistence.Aof.{Aof, enabled}
use velox_db.Persistence.Replay.{path_is_safe}
use velox_db.Persistence.Files.{Files, Replacing}
use velox_db.Persistence.Manifest.{Manifest, manifest_text, manifest_lines}
use velox_db.Persistence.Replay.Torn.{log_of}
use velox_db.Persistence.Snapshot.Entries.{entry_log}
use velox_db.Persistence.Store.{
  SnapshotStore, tmp_path, io_error, save_snapshot_file, SaveCalls, write_manifest, checkpoint,
  marked, saved_with, save,
}
use velox_db.Persistence.Store.Saved.{write_manifest-Replaced, save_snapshot_file-Replaced}

-- The lines of a manifest.
abbrev pub manifest_content : (normalize : Bytes → Bytes) → Manifest → Bytes
manifest_content normalize m =
    codes "format_version=1\nsnapshot_path="
    ++ (normalize m.snapshot_path
        ++ (codes "\naof_path="
            ++ (normalize m.aof_path
                ++ (codes "\naof_offset="
                    ++ (to_string m.aof_offset
                        ++ (codes "\ncreated_unix_ms="
                            ++ (to_string_i64 m.created_unix_ms ++ codes "\n")))))))

pub manifest_text-manifest_content :
    (normalize : Bytes → Bytes) (m : Manifest)
    → manifest_text normalize m ≡ manifest_content normalize m
unfolding manifest_lines
manifest_text-manifest_content normalize m = refl

-- The files of a save that succeeded with an append-only file: the snapshot and its manifest.
pub record IsCheckpoint (normalize : Bytes → Bytes) (s : SnapshotStore) (m : Manifest)
    (es : List SnapshotEntry) (files : Files) : Type 0 where
  pub safe : path_is_safe s.path ≡ true
  pub manifest_safe : path_is_safe s.manifest_path ≡ true
  pub snapshot : files s.path ≡ some (log_of (entry_log es))
  pub manifest : files s.manifest_path ≡ some (manifest_content normalize m)

save_snapshot_file-safe :
    (io : Replacing) (s : SnapshotStore) (now : TimePoint) (st : StorageEngine) (files : Files)
    → is_ok (save_snapshot_file io s now st files).0 ≡ true
    → path_is_safe s.path ≡ true
unfolding save_snapshot_file
save_snapshot_file-safe io s now st files h = elim (Bool-cases (path_is_safe s.path)) [
  | inl e ↦ e
  | inr e ↦ absurd (true_false (rw e at h))
]
  where
    true_false : false ≡ true → ⊥
    true_false e = cc

write_manifest-safe :
    (normalize : Bytes → Bytes) (io : Replacing) (s : SnapshotStore) (m : Manifest) (files : Files)
    → is_ok (write_manifest normalize io s m files).0 ≡ true
    → path_is_safe s.manifest_path ≡ true
unfolding write_manifest
write_manifest-safe normalize io s m files h = elim (Bool-cases (path_is_safe s.manifest_path)) [
  | inl e ↦ e
  | inr e ↦ absurd (true_false (rw e at h))
]
  where
    true_false : false ≡ true → ⊥
    true_false e = cc

module _ (normalize : Bytes → Bytes) (calls : SaveCalls) (s : SnapshotStore) (aof : Aof) where
  marked-ok :
      (r : Status × (StorageEngine × Files))
      → is_ok (marked normalize calls s aof r).0 ≡ true
      → let w =
          write_manifest normalize calls.manifest s (checkpoint normalize calls s aof) r.1.1 in
        (is_ok r.0 ≡ true) × (is_ok w.0 ≡ true) × ((marked normalize calls s aof r).1.1 ≡ w.1)
  unfolding marked
  marked-ok (status, (st, files)) h = elim (Bool-cases (is_ok status)) [
    | inl e ↦ (e, (rw e at h), rw e refl)
    | inr e ↦ absurd (cc)
  ]

  save-saved_with :
      (st : StorageEngine) (files : Files)
      → enabled aof ≡ true
      → save normalize calls s st (some aof) files
        ≡ saved_with normalize calls s st aof files calls.sync_error
  unfolding save
  save-saved_with st files h = rw h refl

  saved_with-marked :
      (st : StorageEngine) (files : Files) (error : Option Bytes)
      → is_ok (saved_with normalize calls s st aof files error).0 ≡ true
      → saved_with normalize calls s st aof files error
        ≡ marked normalize calls s aof (save_snapshot_file calls.snapshot s calls.now st files)
  unfolding saved_with io_error
  saved_with-marked st files none h = refl
  saved_with-marked st files (some m) h = absurd (cc)

  -- A save that succeeds while the append-only file is open leaves at the path of the snapshot, for
  -- each entry of the engine at that time, an encoded SET and, where it has an expiry, an encoded
  -- PEXPIREAT; and at the path of the manifest the lines of a manifest with the path of the
  -- snapshot, the path of the append-only file, the length of that file as the offset, and the time
  -- in milliseconds. The program's counter of the size is the length of the file, and the manifest
  -- and its temporary file have other paths than the snapshot.
  pub save-IsCheckpoint :
      (st : StorageEngine) (files : Files)
      → enabled aof ≡ true
      → aof.current_size ≡ length aof.file
      → bytes_eq s.path s.manifest_path ≡ false
      → bytes_eq s.path (tmp_path s.manifest_path) ≡ false
      → is_ok (save normalize calls s st (some aof) files).0 ≡ true
      → IsCheckpoint normalize s
          (record {
            snapshot_path = s.path;
            aof_path = aof.config.aof_path;
            aof_offset = length aof.file;
            created_unix_ms = quotient calls.created 1000000;
          })
          (Engine.snapshot st calls.now).0
          (save normalize calls s st (some aof) files).1.1
  unfolding unix_ms
  save-IsCheckpoint st files open_file sized apart apart_tmp h =
      let r = save_snapshot_file calls.snapshot s calls.now st files in
      let m = checkpoint normalize calls s aof in
      let first = save-saved_with st files open_file in
      let good : is_ok (saved_with normalize calls s st aof files calls.sync_error).0 ≡ true =
        ap (λ x. is_ok x.0) (sym first) ∙ h in
      let same = first ∙ saved_with-marked st files calls.sync_error good in
      let w = marked-ok r (ap (λ x. is_ok x.0) (sym same) ∙ h) in
      let after = ap (λ x. x.1.1) same ∙ w.2 in
      let manifest_done = write_manifest-Replaced normalize calls.manifest s m r.1.1 in
      let snapshot_done = save_snapshot_file-Replaced calls.snapshot s calls.now st files in
      record {
        safe = save_snapshot_file-safe calls.snapshot s calls.now st files w.0;
        manifest_safe = write_manifest-safe normalize calls.manifest s m r.1.1 w.1;
        snapshot =
            ap (λ f. f s.path) after
            ∙ manifest_done.others s.path apart apart_tmp
            ∙ snapshot_done.done w.0;
        manifest =
            ap (λ f. f s.manifest_path) after
            ∙ manifest_done.done w.1
            ∙ ap some (manifest_text-manifest_content normalize m)
            ∙ ap
                (λ n. some (
                  manifest_content normalize (record {
                    snapshot_path = s.path;
                    aof_path = aof.config.aof_path;
                    aof_offset = n;
                    created_unix_ms = quotient calls.created 1000000;
                  })))
                sized;
      }
