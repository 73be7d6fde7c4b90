-- ===== src/Persistence/Rewrite/Sound.antt =====
-- What a rewrite of src/persistence/aof.cpp does to the engine: it sweeps out what has expired.
use velox_db.Prelude.{ℕ, Bytes, codes, some, not, Bool, true, false, if◌then◌else◌}
use velox_db.Util.Status.{Status, is_ok}
use velox_db.Storage.Types.{StorageEngine}
use velox_db.Storage.Engine as Engine
use velox_db.Storage.Engine.Shards.{IsSound}
use velox_db.Storage.Engine.Reach.{snapshot-Unchanged}
use velox_db.Persistence.Aof.{Aof}
use velox_db.Persistence.Files.{Files, put_file, rename_file}
use velox_db.Persistence.Replay.{path_is_safe}
use velox_db.Persistence.Rewrite.{
  call_status, path_of, reopen_locked, directory_status, write_commands, commands_of, RewriteCalls,
  Rewritten, tmp_of, given_up, reopened, forgotten, installed, finished, written, rewrite_in,
  rewrite,
}

module _ (hash : Bytes → ℕ) (calls : RewriteCalls) (st : StorageEngine) (w : IsSound st) (aof : Aof)
    (files : Files) where
  pub record KeepsSound (r : Rewritten) : Type 0 where
    pub sound : IsSound r.1.0

  if-KeepsSound :
      (b : Bool) {x y : Rewritten} → KeepsSound x → KeepsSound y → KeepsSound (if b then x else y)
  if-KeepsSound true hx hy = hx
  if-KeepsSound false hx hy = hy

  swept-IsSound : IsSound (Engine.snapshot st calls.now).1
  swept-IsSound = (snapshot-Unchanged hash st w calls.now).0

  given_up-KeepsSound :
      (status : Status) (st' : StorageEngine) (files' : Files)
      → IsSound st'
      → KeepsSound (given_up calls status st' aof files')
  unfolding given_up
  given_up-KeepsSound status st' files' h = record { sound = h }

  reopened-KeepsSound :
      (r : Status × (Aof × Files)) → KeepsSound (reopened calls (Engine.snapshot st calls.now).1 r)
  unfolding reopened
  reopened-KeepsSound (status, (aof', files')) =
      if-KeepsSound (is_ok status) (record { sound = swept-IsSound })
        (record { sound = swept-IsSound })

  installed-KeepsSound :
      (files' : Files) → KeepsSound (installed calls (Engine.snapshot st calls.now).1 aof files')
  unfolding installed
  installed-KeepsSound files' =
      if-KeepsSound calls.renames
        (reopened-KeepsSound (
          reopen_locked calls.reopen_error calls.size_known aof
            (forgotten calls aof (rename_file (tmp_of calls aof) (path_of aof) files'))))
        (given_up-KeepsSound _ _ _ swept-IsSound)

  written-KeepsSound :
      (r : Status × Bytes) → KeepsSound (written calls (Engine.snapshot st calls.now).1 aof files r)
  unfolding written
  written-KeepsSound (status, content) =
      if-KeepsSound (is_ok (if is_ok status then finished calls (tmp_of calls aof) else status))
        (installed-KeepsSound (put_file (tmp_of calls aof) (some content) files))
        (given_up-KeepsSound _ _ _ swept-IsSound)

  rewrite_in-KeepsSound : KeepsSound (rewrite_in calls st aof files)
  unfolding rewrite_in
  rewrite_in-KeepsSound =
      if-KeepsSound (not (is_ok (directory_status calls.directory_error)))
        (given_up-KeepsSound _ _ _ w)
        (if-KeepsSound
          (not
            (is_ok (call_status (codes "failed to open AOF rewrite temp file: ") calls.open_error)))
          (given_up-KeepsSound _ _ _ w)
          (written-KeepsSound
            (write_commands calls.writes 0 (commands_of (Engine.snapshot st calls.now).0))))

  pub rewrite-KeepsSound : KeepsSound (rewrite calls st aof files)
  unfolding rewrite
  rewrite-KeepsSound =
      if-KeepsSound (not aof.config.aof_enabled) (record { sound = w })
        (if-KeepsSound (not (path_is_safe (path_of aof))) (record { sound = w })
          rewrite_in-KeepsSound)
