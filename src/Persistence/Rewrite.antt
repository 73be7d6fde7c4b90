-- ===== src/Persistence/Rewrite.antt =====
-- Opening, closing, syncing and rewriting the append-only file in src/persistence/aof.cpp. The field
-- `file` of an `Aof` is what its descriptor refers to; the files are what the paths refer to, which
-- is another file once a rename has replaced it.
pub mod Outcome
pub mod Sound
use velox_db.Prelude.{
  ℕ, suc, Bytes, codes, List, [], ◌∷◌, ◌++◌, Option, none, some, Bool, true, false, not, ◌&&◌,
  length, if◌then◌else◌,
}
use velox_db.Util.Status.{Code, Status, ok_status, fail_with, is_ok}
use velox_db.Util.Decimal.{to_string}
use velox_db.Storage.Types.{StorageEngine, TimePoint, SnapshotEntry}
use velox_db.Storage.Engine as Engine
use velox_db.Resp.Encode.{encode_command}
use velox_db.Persistence.Files.{Files, put_file, remove_file, rename_file}
use velox_db.Persistence.Replay.{path_is_safe}
use velox_db.Persistence.Snapshot.{entry_commands, expiry_commands}
use velox_db.Persistence.Aof.{Aof, WriteOutcome, write_all, enabled}

-- The status of a call, from its error message.
call_status : Bytes → Option Bytes → Status
call_status message none = ok_status
call_status message (some m) = fail_with Code.io_error (message ++ m)

abbrev pub path_of : Aof → Bytes
path_of aof = aof.config.aof_path

content_of : Option Bytes → Bytes
content_of none = []
content_of (some content) = content

-- `sync`, which changes nothing that the program reads.
unfoldable pub sync : Option Bytes → Aof → Status
unfolding call_status
sync error aof =
    if aof.is_open
    then call_status (codes "fsync failed for " ++ (path_of aof ++ codes ": ")) error
    else ok_status

-- `sync_loop` at one of its rounds.
unfoldable pub sync_round : Option Bytes → Aof → Aof
unfolding sync
sync_round error aof =
    let status = sync error aof in
    if is_ok status then aof else record aof { last_write_ok = false; last_error = status.message }

-- What the calls of `reopen_locked` meet: an error, and whether the size can be read. The file is
-- created where there is none.
unfoldable pub reopen_locked : Option Bytes → Bool → Aof → Files → Status × (Aof × Files)
unfolding put_file content_of
reopen_locked (some m) size_known aof files = (
  fail_with Code.io_error (codes "failed to open AOF " ++ (path_of aof ++ (codes ": " ++ m))),
  (aof, files),
)
reopen_locked none size_known aof files =
    let content = content_of (files (path_of aof)) in
    (
      ok_status,
      (
        record aof {
          is_open = true;
          file = content;
          current_size = if size_known then length content else 0;
        },
        put_file (path_of aof) (some content) files,
      ),
    )

directory_status : Option Bytes → Status
unfolding call_status
directory_status error = call_status (codes "failed to create directory ") error

unfoldable pub open_file :
    (directory_error open_error : Option Bytes) → Bool → Aof → Files → Status × (Aof × Files)
unfolding path_is_safe directory_status reopen_locked
open_file directory_error open_error size_known aof files =
    let status = directory_status directory_error in
    if not aof.config.aof_enabled
    then (ok_status, (aof, files))
    else if not (path_is_safe (path_of aof))
    then (fail_with Code.invalid_argument (codes "invalid AOF path"), (aof, files))
    else if is_ok status
    then reopen_locked open_error size_known aof files
    else (status, (aof, files))

abbrev pub close_file : Aof → Aof
close_file aof = record aof { is_open = false }

-- The entries are written one command after the other, up to the first failure.
unfoldable pub write_commands : (ℕ → List WriteOutcome) → ℕ → List (List Bytes) → Status × Bytes
unfolding write_all encode_command
write_commands ws n [] = (ok_status, [])
write_commands ws n (c ∷ cs) =
    let (status, done) = write_all (ws n) (encode_command c) in
    let (later, rest) = write_commands ws (suc n) cs in
    if is_ok status then (later, done ++ rest) else (status, done)

unfoldable pub commands_of : List SnapshotEntry → List (List Bytes)
unfolding expiry_commands
commands_of [] = []
commands_of (e ∷ es) = entry_commands e ++ commands_of es

-- What the calls of one `rewrite` meet. The message of the directory begins with its name.
-- `removal_message` is what the removal of the temporary file leaves in the error code, which is the
-- one that a failed rename reports.
pub record RewriteCalls : Type 0 where
  pub now : TimePoint
  pub pid : ℕ
  pub directory_error : Option Bytes
  pub open_error : Option Bytes
  pub writes : ℕ → List WriteOutcome
  pub sync_error : Option Bytes
  pub close_error : Option Bytes
  pub renames : Bool
  pub removal_message : Bytes
  pub removes_manifest : Bool
  pub reopen_error : Option Bytes
  pub size_known : Bool

unfoldable pub rewrite_tmp_path : ℕ → Bytes → Bytes
unfolding to_string
rewrite_tmp_path pid path = path ++ (codes ".rewrite." ++ (to_string pid ++ codes ".tmp"))

-- The engine, the append-only file and the files behind a rewrite.
abbrev pub Rewritten : Type 0
Rewritten = Status × (StorageEngine × (Aof × Files))

-- `last_write_ok_` and `last_error_` at a failure.
abbrev pub blame : Status → Aof → Aof
blame status aof = record aof { last_write_ok = false; last_error = status.message }

module _ (calls : RewriteCalls) where
  abbrev pub tmp_of : Aof → Bytes
  tmp_of aof = rewrite_tmp_path calls.pid (path_of aof)

  given_up : Status → StorageEngine → Aof → Files → Rewritten
  given_up status st aof files = (status, (st, (blame status aof, files)))

  -- The descriptor is opened again; `last_error_` is cleared where that succeeds.
  reopened : StorageEngine → Status × (Aof × Files) → Rewritten
  reopened st (status, (aof, files)) =
      if is_ok status
      then (ok_status, (st, (record aof { last_write_ok = true; last_error = [] }, files)))
      else (status, (st, (blame status aof, files)))

  forgotten : Aof → Files → Files
  unfolding path_is_safe put_file
  forgotten aof files =
      if calls.removes_manifest && path_is_safe aof.config.manifest_path
      then remove_file aof.config.manifest_path files
      else files

  -- The rename, the removal of the manifest, and the new descriptor.
  installed : StorageEngine → Aof → Files → Rewritten
  unfolding rename_file put_file given_up reopened forgotten reopen_locked rewrite_tmp_path
  installed st aof files =
      if calls.renames
      then reopened st (
          reopen_locked calls.reopen_error calls.size_known aof
            (forgotten aof (rename_file (tmp_of aof) (path_of aof) files)))
      else given_up
          (fail_with Code.io_error
            (codes "failed to install rewritten AOF: " ++ calls.removal_message))
          st aof (remove_file (tmp_of aof) files)

  -- `sync_fd` and then `close_fd` on the temporary file, of which the first failure counts.
  finished : Bytes → Status
  unfolding call_status
  finished tmp =
      let status =
        call_status (codes "fsync failed for " ++ (tmp ++ codes ": ")) calls.sync_error in
      let closed =
        call_status (codes "failed to close " ++ (tmp ++ codes ": ")) calls.close_error in
      if is_ok status then closed else status

  written : StorageEngine → Aof → Files → Status × Bytes → Rewritten
  unfolding installed given_up put_file finished rewrite_tmp_path
  written st aof files (status, content) =
      let all = if is_ok status then finished (tmp_of aof) else status in
      if is_ok all
      then installed st aof (put_file (tmp_of aof) (some content) files)
      else given_up all st aof (remove_file (tmp_of aof) files)

  -- The entries are taken from the engine once the temporary file is open.
  rewrite_in : StorageEngine → Aof → Files → Rewritten
  unfolding Engine.snapshot written given_up call_status directory_status write_commands commands_of
  rewrite_in st aof files =
      let dir = directory_status calls.directory_error in
      let opened = call_status (codes "failed to open AOF rewrite temp file: ") calls.open_error in
      let (es, swept) = Engine.snapshot st calls.now in
      if not (is_ok dir)
      then given_up dir st aof files
      else if not (is_ok opened)
      then given_up opened st aof files
      else written swept aof files (write_commands calls.writes 0 (commands_of es))

  unfoldable pub rewrite : StorageEngine → Aof → Files → Rewritten
  unfolding rewrite_in path_is_safe
  rewrite st aof files =
      if not aof.config.aof_enabled
      then (fail_with Code.invalid_argument (codes "AOF is disabled"), (st, (aof, files)))
      else if not (path_is_safe (path_of aof))
      then (fail_with Code.invalid_argument (codes "invalid AOF path"), (st, (aof, files)))
      else rewrite_in st aof files
