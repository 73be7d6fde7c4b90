-- ===== src/Examples/Recovery.antt =====
-- The theorems on checkpoints and recovery at concrete inputs.
use velox_db.Prelude.{
  Bytes, codes, List, [], ◌∷◌, ◌++◌, none, some, true, bytes_eq, take, length, quotient, ◌≡◌, refl,
  pos, arith,
}
use velox_db.Util.Status.{is_ok}
use velox_db.Util.Text.{is_space}
use velox_db.Util.Decimal.{to_string}
use velox_db.Config.Types.{Config, default_protocol, default_config}
use velox_db.Storage.Types.{SnapshotEntry}
use velox_db.Storage.Engine as Engine
use velox_db.Resp.Encode.{encode_command, array_header, bulk, bulks}
use velox_db.Commands.Context.{CommandContext}
use velox_db.Commands.Sound.Admin.{IsCheckpoints}
use velox_db.Commands.Sound.Persisted.{persisted_checkpoints, persisted_checkpoints-IsCheckpoints}
use velox_db.Persistence.Aof.{Aof, new_aof, wrote}
use velox_db.Persistence.Files.{
  Files, put_file, install_file, Replacing, replacing_works, write_failed,
}
use velox_db.Persistence.Replay.{path_is_safe}
use velox_db.Persistence.Replay.Torn.{log_of}
use velox_db.Persistence.Manifest.{Manifest, manifest_text, parse_manifest_lines, manifest_of}
use velox_db.Persistence.Manifest.RoundTrip.{IsPath, manifest_of-manifest_text}
use velox_db.Persistence.Snapshot.Entries.{entry_log}
use velox_db.Persistence.Store.{
  SnapshotStore, new_store, save_snapshot_file, write_manifest, SaveCalls, save,
}
use velox_db.Persistence.Store.Saved.{Replaced, files_after, save_snapshot_file-Replaced}
use velox_db.Persistence.Store.Checkpointed.{IsCheckpoint, save-IsCheckpoint}
use velox_db.Persistence.Rewrite.{RewriteCalls, rewrite}
use velox_db.Persistence.Rewrite.Outcome.{Rewrites, rewrite-Rewrites}
use velox_db.Startup.{StartCalls, store_of}
use velox_db.Examples.Data.{hash_length, key, at_five, fresh, with_number}
use velox_db.Examples.Protocol.{get_k, set_k}
use velox_db.Examples.Server.{context, call}

-- Paths are already normal here.
abbrev as_it_is : Bytes → Bytes
as_it_is path = path

abbrev small : Config
small = record default_config {
  persistence = record default_config.persistence {
    snapshot_path = codes "s";
    manifest_path = codes "m";
    aof_path = codes "a";
  };
}

abbrev store : SnapshotStore
store = store_of small

abbrev mark : Manifest
mark = record {
  snapshot_path = codes "s";
  aof_path = codes "a";
  aof_offset = 28;
  created_unix_ms = pos 5;
}

s-IsPath : IsPath (codes "s")
s-IsPath = (omega arith, ((unfold is_space in refl), tt))

a-IsPath : IsPath (codes "a")
a-IsPath = (omega arith, ((unfold is_space in refl), tt))

manifest_of-manifest_text_example :
    manifest_of (parse_manifest_lines (manifest_text as_it_is mark)) ≡ some mark
manifest_of-manifest_text_example =
    manifest_of-manifest_text as_it_is mark s-IsPath a-IsPath (omega arith)
      (omega arith, omega arith)

-- A disk that is full.
abbrev full_disk : Replacing
full_disk = record replacing_works { stream = write_failed 4 }

abbrev no_files : Files
no_files path = none

save_snapshot_file-Replaced_example :
    Replaced store.path
      (log_of (entry_log (Engine.snapshot with_number (pos 5)).0))
      no_files
      (files_after (save_snapshot_file full_disk store (pos 5) with_number no_files))
save_snapshot_file-Replaced_example =
    save_snapshot_file-Replaced full_disk store (pos 5) with_number no_files

-- The append-only file with one command in it.
abbrev aof : Aof
aof = record (new_aof small.persistence default_protocol (encode_command set_k)) {
  is_open = true;
  current_size = 28;
}

abbrev saving : SaveCalls
saving = record {
  now = pos 5;
  created = pos 5000000;
  sync_error = none;
  snapshot = replacing_works;
  manifest = replacing_works;
  removes = true;
}

saved_well : is_ok (save as_it_is saving store with_number (some aof) no_files).0 ≡ true
unfolding save save_snapshot_file write_manifest path_is_safe install_file new_store new_aof
saved_well = refl

aof_sized : aof.current_size ≡ length aof.file
unfolding new_aof encode_command array_header bulk bulks to_string
aof_sized = refl

save-IsCheckpoint_example :
    IsCheckpoint as_it_is store
      (record {
        snapshot_path = store.path;
        aof_path = aof.config.aof_path;
        aof_offset = length aof.file;
        created_unix_ms = quotient (pos 5000000) 1000000;
      })
      (Engine.snapshot with_number (pos 5)).0
      (save as_it_is saving store with_number (some aof) no_files).1.1
save-IsCheckpoint_example =
    save-IsCheckpoint as_it_is saving store aof with_number no_files (unfold new_aof in refl)
      aof_sized (unfold new_store bytes_eq in refl) (unfold new_store bytes_eq in refl) saved_well

abbrev entries : List SnapshotEntry
entries = record { key = key; value = codes "41"; expire_at_unix_ms = none } ∷ []

-- The append-only file went on behind the checkpoint, up to a torn command.
abbrev log : Bytes
log = encode_command set_k ++ (log_of (get_k ∷ []) ++ take 9 (encode_command get_k))

abbrev left_files : Files
left_files =
    put_file (codes "a") (some log) (save as_it_is saving store with_number (some aof) no_files).1.1

abbrev starting : StartCalls
starting = record {
  opens = λ p. true;
  has_size = λ p. true;
  ticks = λ i. at_five;
  replays = λ i. call;
}

abbrev at_start : CommandContext
at_start = record context { storage = fresh; config = small }

abbrev rewriting : RewriteCalls
rewriting = record {
  now = pos 5;
  pid = 7;
  directory_error = none;
  open_error = none;
  writes = λ n. wrote 3 ∷ [];
  sync_error = none;
  close_error = none;
  renames = true;
  removal_message = [];
  removes_manifest = true;
  reopen_error = none;
  size_known = true;
}

rewrite-Rewrites_example :
    Rewrites rewriting with_number aof left_files (rewrite rewriting with_number aof left_files)
rewrite-Rewrites_example =
    rewrite-Rewrites rewriting with_number aof left_files (unfold new_aof bytes_eq in refl)

persisted_checkpoints-IsCheckpoints_example :
    IsCheckpoints
      (persisted_checkpoints as_it_is store (λ c. left_files) (λ c. saving) (λ c. rewriting))
persisted_checkpoints-IsCheckpoints_example =
    persisted_checkpoints-IsCheckpoints as_it_is store (λ c. left_files) (λ c. saving)
      (λ c. rewriting) hash_length
