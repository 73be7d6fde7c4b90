-- ===== src/Persistence/Store/Sound.antt =====
-- What a save of src/persistence/snapshot.cpp does to the engine: it sweeps out what has expired.
use velox_db.Prelude.{
  ℕ, Bytes, Option, none, some, Bool, true, false, if◌then◌else◌, Bool-cases, inl, inr, ◌≡◌, refl,
}
use velox_db.Util.Status.{Status, is_ok}
use velox_db.Storage.Types.{StorageEngine, TimePoint}
use velox_db.Storage.Engine.Shards.{IsSound}
use velox_db.Storage.Engine.Reach.{snapshot-Unchanged}
use velox_db.Persistence.Aof.{Aof, enabled}
use velox_db.Persistence.Replay.{path_is_safe}
use velox_db.Persistence.Files.{Files, Replacing}
use velox_db.Persistence.Store.{
  SnapshotStore, opens_stream, stream_of, in_directory, save_snapshot_file, SaveCalls, marked,
  unmarked, saved_alone, saved_with, save,
}

module _ (hash : Bytes → ℕ) (st : StorageEngine) (w : IsSound st) where
  if-IsSound :
      (b : Bool) (x y : StorageEngine) → IsSound x → IsSound y → IsSound (if b then x else y)
  if-IsSound true x y hx hy = hx
  if-IsSound false x y hx hy = hy

  in_directory-IsSound :
      (io : Replacing) (path : Bytes) (now : TimePoint) (files : Files) (error : Option Bytes)
      → IsSound (in_directory io path now st files error).1.0
  unfolding in_directory stream_of
  in_directory-IsSound io path now files none =
      if-IsSound (opens_stream io.stream) _ _ (snapshot-Unchanged hash st w now).0 w
  in_directory-IsSound io path now files (some m) = w

  save_snapshot_file-IsSound :
      (io : Replacing) (s : SnapshotStore) (now : TimePoint) (files : Files)
      → IsSound (save_snapshot_file io s now st files).1.0
  unfolding save_snapshot_file
  save_snapshot_file-IsSound io s now files = elim (Bool-cases (path_is_safe s.path)) [
    | inl e ↦ rw e (in_directory-IsSound io s.path now files io.directory_error)
    | inr e ↦ rw e w
  ]

  module _ (normalize : Bytes → Bytes) (calls : SaveCalls) (s : SnapshotStore) where
    marked-engine :
        (aof : Aof) (r : Status × (StorageEngine × Files))
        → (marked normalize calls s aof r).1.0 ≡ r.1.0
    unfolding marked
    marked-engine aof (status, (e, files)) = elim (Bool-cases (is_ok status)) [
      | inl h ↦ rw h refl
      | inr h ↦ rw h refl
    ]

    saved_alone-IsSound : (files : Files) → IsSound (saved_alone normalize calls s st files).1.0
    unfolding saved_alone unmarked
    saved_alone-IsSound files = save_snapshot_file-IsSound calls.snapshot s calls.now files

    saved_with-IsSound :
        (aof : Aof) (files : Files) (error : Option Bytes)
        → IsSound (saved_with normalize calls s st aof files error).1.0
    unfolding saved_with
    saved_with-IsSound aof files none =
        let r = save_snapshot_file calls.snapshot s calls.now st files in
        rw (marked-engine aof r) (save_snapshot_file-IsSound calls.snapshot s calls.now files)
    saved_with-IsSound aof files (some m) = w

    pub save-IsSound :
        (aof : Option Aof) (files : Files) → IsSound (save normalize calls s st aof files).1.0
    unfolding save
    save-IsSound none files = saved_alone-IsSound files
    save-IsSound (some aof) files = elim (Bool-cases (enabled aof)) [
      | inl e ↦ rw e (saved_with-IsSound aof files calls.sync_error)
      | inr e ↦ rw e (saved_alone-IsSound files)
    ]
