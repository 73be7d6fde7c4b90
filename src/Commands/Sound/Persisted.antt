-- ===== src/Commands/Sound/Persisted.antt =====
-- The checkpoints of src/persistence as the commands SAVE and BGREWRITEAOF call them.
use velox_db.Prelude.{ℕ, Bytes}
use velox_db.Persistence.Files.{Files}
use velox_db.Persistence.Store.{SnapshotStore, SaveCalls, save}
use velox_db.Persistence.Store.Sound.{save-IsSound}
use velox_db.Persistence.Rewrite.{RewriteCalls, rewrite}
use velox_db.Persistence.Rewrite.Sound.{rewrite-KeepsSound}
use velox_db.Commands.Context.{Call}
use velox_db.Commands.Admin.{Checkpoints}
use velox_db.Commands.Sound.Admin.{IsCheckpoints}

module _ (normalize : Bytes → Bytes) (store : SnapshotStore) (files : Call → Files)
    (saves : Call → SaveCalls) (rewrites : Call → RewriteCalls) where
  -- The snapshot store and the rewrite, on the files that each command finds.
  unfoldable pub persisted_checkpoints : Checkpoints
  unfolding save rewrite
  persisted_checkpoints = record {
    save = λ call st aof.
        let r = save normalize (saves call) store st aof (files call) in (r.0, r.1.0);
    rewrite = λ call st aof.
        let r = rewrite (rewrites call) st aof (files call) in (r.0, (r.1.0, r.1.1.0));
  }

  -- The snapshot store and the rewrite of the append-only file, as SAVE and BGREWRITEAOF call them,
  -- keep the invariant of the storage engine, on any files and whatever the system answers.
  pub persisted_checkpoints-IsCheckpoints : (hash : Bytes → ℕ) → IsCheckpoints persisted_checkpoints
  unfolding persisted_checkpoints
  persisted_checkpoints-IsCheckpoints hash = record {
    saved = λ call st aof w. save-IsSound hash st w normalize (saves call) store aof (files call);
    rewrote =
        λ call st aof w. (rewrite-KeepsSound hash (rewrites call) st w aof (files call)).sound;
  }
