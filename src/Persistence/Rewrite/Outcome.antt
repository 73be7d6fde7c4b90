-- ===== src/Persistence/Rewrite/Outcome.antt =====
-- What a rewrite of src/persistence/aof.cpp leaves.
use velox_db.Prelude.{
  ℕ, suc, Bytes, codes, List, [], ◌∷◌, ◌++◌, Option, none, some, Bool, true, false, not, ◌&&◌,
  length-append, if◌then◌else◌, bytes_eq, bytes_eq_refl, Bool-cases, inl, inr, ◌⊎◌, ◌≡◌, refl, ap,
  ◌∙◌, arith,
}
use velox_db.Util.Status.{Code, Status, fail_with, is_ok}
use velox_db.Util.Decimal.{to_string}
use velox_db.Storage.Types.{StorageEngine, SnapshotEntry}
use velox_db.Storage.Engine as Engine
use velox_db.Resp.Encode.{encode_command}
use velox_db.Persistence.Files.{Files, bytes_eq-length, put_file, remove_file, rename_file}
use velox_db.Persistence.Replay.{path_is_safe}
use velox_db.Persistence.Replay.Torn.{log_of}
use velox_db.Persistence.Snapshot.Entries.{expiry_log, entry_log, expiry_commands-expiry_log}
use velox_db.Persistence.Aof.{Aof, WriteOutcome, write_all}
use velox_db.Persistence.Aof.Append.{write_all-whole}
use velox_db.Persistence.Rewrite.{
  call_status, path_of, content_of, reopen_locked, directory_status, write_commands, commands_of,
  RewriteCalls, rewrite_tmp_path, Rewritten, tmp_of, given_up, reopened, forgotten, installed,
  finished, written, rewrite_in, rewrite,
}

write_commands-log_of :
    (ws : ℕ → List WriteOutcome) (n : ℕ) (cs : List (List Bytes))
    → is_ok (write_commands ws n cs).0 ≡ true
    → (write_commands ws n cs).1 ≡ log_of cs
unfolding write_commands log_of
write_commands-log_of ws n [] h = refl
write_commands-log_of ws n (c ∷ cs) h =
    elim (Bool-cases (is_ok (write_all (ws n) (encode_command c)).0)) [
      | inl e ↦ rw e (
          ap (λ t. t ++ (write_commands ws (suc n) cs).1)
            (write_all-whole (ws n) (encode_command c) e)
          ∙ ap (λ t. encode_command c ++ t) (write_commands-log_of ws (suc n) cs (rw e at h)))
      | inr e ↦ absurd (failed (rw e at h) e)
    ]
  where
    failed : {b : Bool} → b ≡ true → b ≡ false → ⊥
    failed h e = cc

commands_of-entry_log : (es : List SnapshotEntry) → commands_of es ≡ entry_log es
unfolding commands_of
commands_of-entry_log [] = refl
commands_of-entry_log (e ∷ es) =
    ap (λ cs. (codes "SET" ∷ e.key ∷ e.value ∷ []) ∷ (cs ++ commands_of es))
      (expiry_commands-expiry_log e.key e.expire_at_unix_ms)
    ∙ ap (λ cs. (codes "SET" ∷ e.key ∷ e.value ∷ []) ∷ (expiry_log e.key e.expire_at_unix_ms ++ cs))
        (commands_of-entry_log es)

-- The first of two calls did not fail, where neither did.
first-ok :
    (first second : Status)
    → is_ok (if is_ok first then second else first) ≡ true
    → is_ok first ≡ true
first-ok first second h = chosen (is_ok first) refl
  where
    chosen : (b : Bool) → is_ok first ≡ b → is_ok first ≡ true
    chosen true e = e
    chosen false e = absurd (cc)

module _ (calls : RewriteCalls) (st : StorageEngine) (aof : Aof) (files : Files) where
  abbrev pub rewritten_log : Bytes
  rewritten_log = log_of (entry_log (Engine.snapshot st calls.now).0)

  -- A rewrite that succeeds has replaced the file by the entries, at the path and behind the
  -- descriptor; one that fails leaves the descriptor at the old file, and the path too unless it is
  -- the descriptor that could not be opened again.
  pub record Rewrites (r : Rewritten) : Type 0 where
    pub descriptor : is_ok r.0 ≡ true → r.1.1.0.file ≡ rewritten_log
    pub path : is_ok r.0 ≡ true → r.1.1.1 (path_of aof) ≡ some rewritten_log
    pub kept_descriptor : is_ok r.0 ≡ false → r.1.1.0.file ≡ aof.file
    pub kept_path :
        is_ok r.0 ≡ false → calls.reopen_error ≡ none → r.1.1.1 (path_of aof) ≡ files (path_of aof)
    pub engine : (r.1.0 ≡ st) ⊎ (r.1.0 ≡ (Engine.snapshot st calls.now).1)

  bytes_eq-tmp_of : bytes_eq (path_of aof) (tmp_of calls aof) ≡ false
  unfolding rewrite_tmp_path
  bytes_eq-tmp_of = bytes_eq-length (path_of aof) (tmp_of calls aof) (
      omega (
        arith,
        length-append (path_of aof) (codes ".rewrite." ++ (to_string calls.pid ++ codes ".tmp")),
      ))

  if-Rewrites :
      (b : Bool) {x y : Rewritten}
      → (b ≡ true → Rewrites x)
      → (b ≡ false → Rewrites y)
      → Rewrites (if b then x else y)
  if-Rewrites true hx hy = hx refl
  if-Rewrites false hx hy = hy refl

  given_up-Rewrites :
      (status : Status) (st' : StorageEngine) (files' : Files)
      → is_ok status ≡ false
      → files' (path_of aof) ≡ files (path_of aof)
      → (st' ≡ st) ⊎ (st' ≡ (Engine.snapshot st calls.now).1)
      → Rewrites (given_up calls status st' aof files')
  unfolding given_up
  given_up-Rewrites status st' files' bad same engine = record {
    descriptor = λ e. absurd (cc);
    path = λ e. absurd (cc);
    kept_descriptor = λ e. refl;
    kept_path = λ e h. same;
    engine = engine;
  }

  reopened-Rewrites :
      (files' : Files) (error : Option Bytes)
      → calls.reopen_error ≡ error
      → files' (path_of aof) ≡ some rewritten_log
      → Rewrites (
          reopened calls
            (Engine.snapshot st calls.now).1
            (reopen_locked error calls.size_known aof files'))
  unfolding reopened reopen_locked content_of put_file
  reopened-Rewrites files' (some m) e here = record {
    descriptor = λ h. cc;
    path = λ h. cc;
    kept_descriptor = λ h. refl;
    kept_path = λ h k. absurd (cc);
    engine = inr refl;
  }
  reopened-Rewrites files' none e here = record {
    descriptor = λ h. rw here refl;
    path = λ h. rw (here, bytes_eq_refl (path_of aof)) refl;
    kept_descriptor = λ h. cc;
    kept_path = λ h k. cc;
    engine = inr refl;
  }

  module _ (apart : bytes_eq (path_of aof) aof.config.manifest_path ≡ false) where
    forgotten-path :
        (files' : Files) → forgotten calls aof files' (path_of aof) ≡ files' (path_of aof)
    unfolding forgotten put_file
    forgotten-path files' =
        elim (Bool-cases (calls.removes_manifest && path_is_safe aof.config.manifest_path)) [
          | inl e ↦ rw (e, apart) refl
          | inr e ↦ rw e refl
        ]

    removed-path :
        (files' : Files)
        → remove_file (tmp_of calls aof) files' (path_of aof) ≡ files' (path_of aof)
    unfolding put_file
    removed-path files' = rw bytes_eq-tmp_of refl

    renamed-path :
        rename_file
          (tmp_of calls aof)
          (path_of aof)
          (put_file (tmp_of calls aof) (some rewritten_log) files)
          (path_of aof)
        ≡ some rewritten_log
    unfolding rename_file put_file
    renamed-path = rw (bytes_eq_refl (path_of aof), bytes_eq_refl (tmp_of calls aof)) refl

    put-path :
        remove_file
          (tmp_of calls aof)
          (put_file (tmp_of calls aof) (some rewritten_log) files)
          (path_of aof)
        ≡ files (path_of aof)
    unfolding put_file
    put-path = rw bytes_eq-tmp_of refl

    installed-Rewrites : Rewrites (
        installed calls
          (Engine.snapshot st calls.now).1
          aof
          (put_file (tmp_of calls aof) (some rewritten_log) files))
    unfolding installed
    installed-Rewrites =
        if-Rewrites calls.renames
          (λ e. reopened-Rewrites _ calls.reopen_error refl (forgotten-path _ ∙ renamed-path))
          (λ e. given_up-Rewrites _ _ _ refl put-path (inr refl))

    written-Rewrites :
        (w : Status × Bytes)
        → (is_ok w.0 ≡ true → w.1 ≡ rewritten_log)
        → Rewrites (written calls (Engine.snapshot st calls.now).1 aof files w)
    unfolding written
    written-Rewrites (status, content) whole =
        if-Rewrites (is_ok (if is_ok status then finished calls (tmp_of calls aof) else status))
          (λ e. ap_content (whole (first-ok status _ e)))
          (λ e. given_up-Rewrites _ _ _ e (removed-path files) (inr refl))
      where
        ap_content :
            content ≡ rewritten_log
            → Rewrites (
                installed calls
                  (Engine.snapshot st calls.now).1
                  aof
                  (put_file (tmp_of calls aof) (some content) files))
        ap_content e = rw e installed-Rewrites

    refused-Rewrites :
        (c : Code) (m : Bytes)
        → is_ok (fail_with c m) ≡ false
        → Rewrites (fail_with c m, (st, (aof, files)))
    refused-Rewrites c m bad = record {
      descriptor = λ e. absurd (cc);
      path = λ e. absurd (cc);
      kept_descriptor = λ e. refl;
      kept_path = λ e h. refl;
      engine = inl refl;
    }

    rewrite_in-Rewrites : Rewrites (rewrite_in calls st aof files)
    unfolding rewrite_in
    rewrite_in-Rewrites =
        if-Rewrites (not (is_ok (directory_status calls.directory_error)))
          (λ e. given_up-Rewrites _ _ _ (not_true _ e) refl (inl refl))
          (λ _.
            if-Rewrites
              (not (
                is_ok
                  (call_status (codes "failed to open AOF rewrite temp file: ") calls.open_error)))
              (λ e. given_up-Rewrites _ _ _ (not_true _ e) refl (inl refl))
              (λ _.
                written-Rewrites
                  (write_commands calls.writes 0 (commands_of (Engine.snapshot st calls.now).0))
                  (λ e.
                    write_commands-log_of calls.writes 0
                      (commands_of (Engine.snapshot st calls.now).0) e
                    ∙ ap log_of (commands_of-entry_log (Engine.snapshot st calls.now).0))))
      where
        not_true : (b : Bool) → not b ≡ true → b ≡ false
        not_true true h = absurd (cc)
        not_true false h = refl

    -- A rewrite of the append-only file that succeeds has put into it exactly the encoded SET of
    -- each entry of the engine, followed by its PEXPIREAT where it has an expiry, at its path and
    -- behind the descriptor; one that fails, whatever the system answers, leaves the descriptor at
    -- the old file, and the old file at the path unless the new one could not be opened. It does no
    -- more to the engine than taking a snapshot does. The manifest has another path than the file.
    pub rewrite-Rewrites : Rewrites (rewrite calls st aof files)
    unfolding rewrite
    rewrite-Rewrites =
        if-Rewrites (not aof.config.aof_enabled) (λ _. refused-Rewrites _ _ refl)
          (λ _.
            if-Rewrites (not (path_is_safe (path_of aof))) (λ _. refused-Rewrites _ _ refl)
              (λ _. rewrite_in-Rewrites))
