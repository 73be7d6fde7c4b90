-- ===== src/Persistence/Recovery/RoundTrip.antt =====
-- Recovery from a checkpoint of src/persistence/snapshot.cpp.
use velox_db.Prelude.{
  sym, ap, ◌∙◌, some, ℕ, ◌≤◌, IsI64, Bytes, List, Bool, true, length, if◌then◌else◌, All,
  bytes_eq_refl, ◌≡◌, arith,
}
use velox_db.Util.Decimal.{max_u64}
use velox_db.Util.Status.{Status}
use velox_db.Storage.Types.{StorageEngine, Tick, SnapshotEntry}
use velox_db.Resp.Parser.State.{parser_options_from_config}
use velox_db.Resp.Parser.RoundTrip.{Fits}
use velox_db.Persistence.Files.{Files}
use velox_db.Persistence.Manifest.{Manifest, manifest_of, parse_manifest_lines}
use velox_db.Persistence.Manifest.RoundTrip.{IsPath, normalized, manifest_of-manifest_text}
use velox_db.Persistence.Snapshot.{snapshot_content}
use velox_db.Persistence.Snapshot.Load.{
  snapshot_commands, load_commands, load_content-snapshot_commands,
}
use velox_db.Persistence.Store.{SnapshotStore}
use velox_db.Persistence.Store.Checkpointed.{IsCheckpoint, manifest_text-manifest_content}
use velox_db.Persistence.Snapshot.Entries.{snapshot_content-log_of}
use velox_db.Persistence.Recovery.{
  read_from, read_manifest, manifest_matches, nothing_loaded, load_from, load, loaded,
  loaded_if_ended, load_matching, load_for_recovery,
}

module _ (normalize : Bytes → Bytes) (s : SnapshotStore) (m : Manifest) (es : List SnapshotEntry)
    (files : Files) (point : IsCheckpoint normalize s m es files) (opens : Bytes → Bool)
    (opened : (p : Bytes) → opens p ≡ true) where
  read_manifest-checkpoint :
      IsPath (normalize m.snapshot_path)
      → IsPath (normalize m.aof_path)
      → m.aof_offset ≤ max_u64
      → IsI64 m.created_unix_ms
      → read_manifest opens s files ≡ some (normalized normalize m)
  unfolding read_manifest read_from
  read_manifest-checkpoint hs ha ho hc =
      rw (point.manifest_safe, point.manifest, opened s.manifest_path)
        (ap (λ t. manifest_of (parse_manifest_lines t))
            (sym (manifest_text-manifest_content normalize m))
          ∙ manifest_of-manifest_text normalize m hs ha ho hc)

  manifest_matches-checkpoint :
      (size : ℕ)
      → m.snapshot_path ≡ s.path
      → m.aof_offset ≤ size
      → manifest_matches normalize s (normalized normalize m) m.aof_path size files ≡ true
  unfolding manifest_matches
  manifest_matches-checkpoint size same le =
      rw
        (
          same,
          bytes_eq_refl (normalize s.path),
          bytes_eq_refl (normalize m.aof_path),
          point.snapshot,
        )
        (ground arith)

  module _ (hash : Bytes → ℕ) (ticks : ℕ → Tick) (st : StorageEngine)
      (fits : All (Fits (parser_options_from_config s.protocol)) (snapshot_commands es))
      (limit : length (snapshot_content es) ≤ s.protocol.max_request_bytes) where
    load-checkpoint :
        load hash opens s ticks st files
        ≡ some (load_commands hash ticks st 0 (snapshot_commands es))
    unfolding load load_from
    load-checkpoint =
        rw (point.safe, point.snapshot ∙ ap some (sym (snapshot_content-log_of es)), opened s.path)
          (load_content-snapshot_commands hash ticks s.protocol st es fits limit)

    load_matching-some :
        (k : Manifest) (path : Bytes) (size : ℕ) (r : Status × StorageEngine)
        → manifest_matches normalize s k path size files ≡ true
        → load hash opens s ticks st files ≡ some r
        → load_matching hash opens normalize s ticks st path size files (some k)
          ≡ some (loaded hash opens k.aof_offset r)
    unfolding load_matching loaded_if_ended
    load_matching-some k path size r e h =
        ap
          (λ b.
            if b
            then loaded_if_ended hash opens k.aof_offset (load hash opens s ticks st files)
            else some (nothing_loaded true, st))
          e
        ∙ ap (loaded_if_ended hash opens k.aof_offset) h

    -- Recovery from a checkpoint, where every file opens and the append-only file is at least as long
    -- as then, loads its entries and gives its offset.
    pub load_for_recovery-checkpoint :
        (size : ℕ)
        → m.snapshot_path ≡ s.path
        → IsPath (normalize m.snapshot_path)
        → IsPath (normalize m.aof_path)
        → m.aof_offset ≤ max_u64
        → IsI64 m.created_unix_ms
        → m.aof_offset ≤ size
        → load_for_recovery hash opens normalize s ticks st m.aof_path size files
          ≡ some (
              loaded hash opens m.aof_offset (load_commands hash ticks st 0 (snapshot_commands es)))
    unfolding load_for_recovery
    load_for_recovery-checkpoint size same hs ha ho hc le =
        ap (load_matching hash opens normalize s ticks st m.aof_path size files)
          (read_manifest-checkpoint hs ha ho hc)
        ∙ load_matching-some (normalized normalize m) m.aof_path size _
            (manifest_matches-checkpoint size same le) load-checkpoint
