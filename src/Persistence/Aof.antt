-- ===== src/Persistence/Aof.antt =====
-- The append-only file of src/persistence/aof.cpp: opening it, appending commands, and the policy on
-- `fsync`. The answers of the operating system come as `Io`, and the bytes that the file holds are
-- part of the state.
pub mod Append
use velox_db.Prelude.{
  ℕ, zero, suc, ◌+◌, ◌-◌, ◌%◌, ◌^◌, Bytes, codes, List, [], ◌∷◌, ◌++◌, Option, none, some, Bool,
  true, false, ◌&&◌, length, take, drop, leb, ◌==◌, if◌then◌else◌, bytes_eq, ◌≡◌, refl,
}
use velox_db.Util.Status.{Code, Status, ok_status, fail_with, is_ok}
use velox_db.Util.Text.{to_lower_ascii}
use velox_db.Storage.Time.{add_size}
use velox_db.Config.Types.{PersistenceConfig, ProtocolConfig}
use velox_db.Resp.Encode.{encode_command}

pub data FsyncPolicy : Type 0 where
  always every_sec no : FsyncPolicy

policy_of : Bytes → FsyncPolicy
unfolding bytes_eq
policy_of lower =
    if bytes_eq lower (codes "always")
    then always
    else if bytes_eq lower (codes "no")
    then no
    else every_sec

unfoldable pub parse_policy : Bytes → FsyncPolicy
unfolding policy_of to_lower_ascii
parse_policy policy = policy_of (to_lower_ascii policy)

-- One call of `write`: how many bytes it took, an interruption, or an error with its message.
pub data WriteOutcome : Type 0 where
  wrote : ℕ → WriteOutcome
  interrupted : WriteOutcome
  write_error : Bytes → WriteOutcome

-- The answers to the calls of one append: those of `write` in turn, where a call behind the list
-- takes all that is left, and that of `fsync`, an error message or none.
pub record Io : Type 0 where
  pub writes : List WriteOutcome
  pub fsync_error : Option Bytes

abbrev pub untroubled : Io
untroubled = record { writes = []; fsync_error = none }

-- The loop of `write_all`: its status, and the bytes that reached the file.
unfoldable pub write_all : List WriteOutcome → Bytes → Status × Bytes
write_all ws [] = (ok_status, [])
write_all [] (b ∷ bs) = (ok_status, b ∷ bs)
write_all (interrupted ∷ ws) (b ∷ bs) = write_all ws (b ∷ bs)
write_all (write_error m ∷ ws) (b ∷ bs) = (fail_with Code.io_error m, [])
write_all (wrote zero ∷ ws) (b ∷ bs) =
    (fail_with Code.io_error (codes "write returned zero bytes"), [])
write_all (wrote (suc n) ∷ ws) (b ∷ bs) =
    let (s, done) = write_all ws (drop n bs) in (s, b ∷ (take n bs ++ done))

pub record Aof : Type 0 where
  pub config : PersistenceConfig
  pub protocol : ProtocolConfig
  pub policy : FsyncPolicy
  pub is_open : Bool
  pub file : Bytes
  pub current_size : ℕ
  pub last_write_ok : Bool
  pub last_error : Bytes

-- The constructor; `file` is what the path holds.
unfoldable pub new_aof : PersistenceConfig → ProtocolConfig → (file : Bytes) → Aof
unfolding parse_policy
new_aof config protocol file = record {
  config = config;
  protocol = protocol;
  policy = parse_policy config.fsync_policy;
  is_open = false;
  file = file;
  current_size = 0;
  last_write_ok = true;
  last_error = [];
}

abbrev pub enabled : Aof → Bool
enabled aof = aof.config.aof_enabled && aof.is_open

pub write_bytes_locked : List WriteOutcome → Aof → Bytes → Status × Aof
unfolding write_all add_size
write_bytes_locked ws aof bytes =
    if aof.is_open
    then (let (status, done) = write_all ws bytes in
        (
          status,
          record aof {
            file = aof.file ++ done;
            current_size =
                if is_ok status then add_size aof.current_size (length bytes) else aof.current_size;
          },
        ))
    else (fail_with Code.io_error (codes "AOF is not open"), aof)

is_always : FsyncPolicy → Bool
is_always always = true
is_always _ = false

sync_status : Option Bytes → Status
sync_status none = ok_status
sync_status (some m) = fail_with Code.io_error (codes "fsync failed: " ++ m)

abbrev after_sync : FsyncPolicy → Option Bytes → Status → Status
after_sync policy fsync_error status =
    if is_ok status && is_always policy then sync_status fsync_error else status

abbrev recorded : Status → Aof → Status × Aof
recorded status aof =
    if is_ok status
    then (ok_status, record aof { last_write_ok = true })
    else (status, record aof { last_write_ok = false; last_error = status.message })

unfoldable pub append : Io → Aof → List Bytes → Status × Aof
unfolding write_bytes_locked is_always sync_status encode_command
append io aof args =
    if enabled aof
    then (let (status, aof') = write_bytes_locked io.writes aof (encode_command args) in
        recorded (after_sync aof.policy io.fsync_error status) aof')
    else (ok_status, aof)
