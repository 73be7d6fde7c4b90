-- ===== src/Examples/Server.antt =====
-- The theorems on the commands and the append-only file at concrete inputs.
use velox_db.Prelude.{
  ℕ, ◌+◌, Bytes, codes, List, [], ◌∷◌, ◌++◌, Option, none, some, is_some, true, false, not, ◌==◌,
  if◌then◌else◌, take, length, ◌≡◌, refl, pos, arith,
}
use velox_db.Util.Status.{Code, Status, ok_status, fail_with, is_ok}
use velox_db.Util.Decimal.{to_string, to_string_i64}
use velox_db.Resp.Parser.RoundTrip.{Fits}
use velox_db.Util.LogLevel.{info}
use velox_db.Config.Types.{ProtocolConfig, default_protocol, default_config}
use velox_db.Metrics.{new_metrics}
use velox_db.Storage.Held.{reserved, reserve_memory}
use velox_db.Storage.Table.{entry_weight, entry_memory}
use velox_db.Storage.Engine as Engine
use velox_db.Storage.Engine.{create}
use velox_db.Storage.Engine.Shards.{IsSound}
use velox_db.Resp.Encode.{encode_command, array_header, bulk, bulks}
use velox_db.Persistence.Aof.{Aof, Io, new_aof, wrote, interrupted, write_error, append, enabled}
use velox_db.Persistence.Aof.Append.{append-Front, append-file}
use velox_db.Persistence.Replay.{stats, replay_file, path_is_safe}
use velox_db.Persistence.Replay.Ends.{replay_file-ends}
use velox_db.Persistence.Replay.Torn.{
  log_of, run_commands, replay_file-log_of, replay_file-too_large,
}
use velox_db.Storage.Types.{SnapshotEntry}
use velox_db.Examples.Data.{at_five, fresh}
use velox_db.Persistence.Snapshot.{snapshot_content, load_content}
use velox_db.Persistence.Snapshot.Entries.{
  entry_log, restore_entries, load_content-snapshot_content,
}
use velox_db.Commands.Context.{
  CommandContext, Call, ok, persist_or_ok, persist, persist_in, persist_changed,
}
use velox_db.Commands.Options.{parse_ttl_ms, no_options, set_options}
use velox_db.Commands.Keys.{expire_impl, expire_checked}
use velox_db.Commands.Strings as Strings
use velox_db.Commands.Strings.{persisted_set, ttl_from, set_checked, set_with, set_reply, written}
use velox_db.Commands.Admin.{Checkpoints}
use velox_db.Commands.Registry.{execute, default_commands}
use velox_db.Commands.Sound.{execute-IsSound}
use velox_db.Commands.Sound.Admin.{IsCheckpoints}
use velox_db.Commands.Logged.{
  logged, print_expiry, IsLogging, is_error, set-logged, del-logged, expire_impl-logged,
}
use velox_db.Examples.Data.{hash_length, with_number, key, with_number-IsSound}
use velox_db.Examples.Protocol.{limits, get_k, set_k, get_k-Fits, set_k-Fits, get_k_short}

-- An open file with one command in it.
abbrev open_aof : Aof
open_aof = record (new_aof default_config.persistence default_protocol (encode_command set_k)) {
  is_open = true;
}

-- Two short writes with an interruption between them, then the rest.
abbrev bumpy : Io
bumpy = record { writes = wrote 3 ∷ interrupted ∷ wrote 4 ∷ []; fsync_error = none }

abbrev broken : Io
broken = record { writes = wrote 3 ∷ write_error (codes "disk full") ∷ []; fsync_error = none }

opened : enabled open_aof ≡ true
unfolding new_aof
opened = refl

bumpy_write : is_ok (append bumpy open_aof get_k).0 ≡ true
unfolding append new_aof encode_command array_header bulk bulks to_string
bumpy_write = refl

append-file_example : (append bumpy open_aof get_k).1.file ≡ open_aof.file ++ encode_command get_k
append-file_example = append-file bumpy open_aof get_k opened bumpy_write

append-Front_example :
    (n : ℕ) × ((append broken open_aof get_k).1.file
      ≡ open_aof.file ++ take n (encode_command get_k))
append-Front_example = append-Front broken open_aof get_k opened

-- The file system with one file: a log with a torn last command.
abbrev torn_log : Bytes
torn_log = log_of (set_k ∷ get_k ∷ []) ++ take 9 (encode_command get_k)

abbrev one_file : Bytes → Option Bytes
one_file path = some torn_log

-- A callback that takes every command and collects it.
abbrev collect : List (List Bytes) → List Bytes → Status × List (List Bytes)
collect seen args = (ok_status, args ∷ seen)

length-torn_log : length torn_log ≡ 57
unfolding log_of encode_command array_header bulk bulks to_string
length-torn_log = refl

replay_file-log_of_example :
    replay_file collect one_file (codes "a") default_protocol 0 []
    ≡ some (run_commands collect [] (set_k ∷ get_k ∷ []) 0 (not (9 == 0)))
replay_file-log_of_example =
    replay_file-log_of collect one_file (codes "a") default_protocol [] (set_k ∷ get_k ∷ []) get_k 9
      [] (unfold path_is_safe in refl) refl (set_k-Fits, (get_k-Fits, tt)) get_k-Fits get_k_short
      (omega (arith, length-torn_log))

replay_file-ends_example :
    is_some (replay_file collect one_file (codes "a") default_protocol 3 []) ≡ true
replay_file-ends_example = replay_file-ends collect one_file (codes "a") default_protocol 3 []

abbrev tiny : ProtocolConfig
tiny = record default_protocol { max_request_bytes = 4 }

replay_file-too_large_example :
    replay_file collect one_file (codes "a") tiny 0 []
    ≡ some (
      stats 0 false (fail_with Code.resource_exhausted (codes "request buffer exceeded limit")),
      [],
    )
replay_file-too_large_example =
    replay_file-too_large collect one_file (codes "a") tiny torn_log []
      (unfold path_is_safe in refl) refl (omega (arith, length-torn_log))

abbrev pub context : CommandContext
context = record {
  storage = with_number;
  metrics = new_metrics (pos 0);
  config = default_config;
  aof = some open_aof;
  has_snapshot = true;
  can_request_shutdown = true;
  replay = false;
  log_level = info;
  shutdown_requested = false;
}

abbrev pub call : Call
call = record { clock = λ i. pos (7 + i); alloc = λ i. true; steady = pos 9; io = bumpy }

context-IsLogging : IsLogging context open_aof
context-IsLogging = record { live = refl; present = refl; open_ = opened }

abbrev pub no_checkpoints : Checkpoints
no_checkpoints = record {
  save = λ c st aof. (ok_status, st);
  rewrite = λ c st aof. (ok_status, (st, aof));
}

pub no_checkpoints-IsCheckpoints : IsCheckpoints no_checkpoints
no_checkpoints-IsCheckpoints = record { saved = λ c st aof w. w; rewrote = λ c st aof w. w }

execute-IsSound_example :
    IsSound
      (execute
        (default_commands hash_length no_checkpoints)
        call
        context
        (codes "incr" ∷ key ∷ [])).1.storage
execute-IsSound_example =
    execute-IsSound hash_length no_checkpoints no_checkpoints-IsCheckpoints call context
      (codes "incr" ∷ key ∷ []) with_number-IsSound

-- SET k v PX 9000, at the time 7 and logged at the time 9.
abbrev px_words : List Bytes
px_words = codes "PX" ∷ codes "9000" ∷ []

answered : (Strings.set hash_length call context (codes "SET" ∷ key ∷ codes "v" ∷ px_words)).0 ≡ ok
unfolding Strings.set set_options set_checked set_with set_reply written persist_or_ok persist
    persist_in append new_aof encode_command array_header bulk bulks to_string create reserved
    reserve_memory entry_weight entry_memory
answered = refl

deleted : is_error (Strings.del hash_length call context (codes "DEL" ∷ key ∷ [])).0 ≡ false
unfolding Strings.del persist_changed persist persist_in append new_aof encode_command array_header
    bulk bulks to_string create reserved reserve_memory entry_weight entry_memory Engine.set
deleted = refl

set-logged_example :
    logged (Strings.set hash_length call context (codes "SET" ∷ key ∷ codes "v" ∷ px_words)).1
    ≡ logged context
      ++ encode_command
          (codes "SET" ∷ key ∷ codes "v" ∷ codes "PXAT" ∷ print_expiry (pos 9) (pos 9000) ∷ [])
set-logged_example =
    set-logged hash_length call context open_aof context-IsLogging (codes "SET") key (codes "v")
      px_words (record no_options { ttl = some (pos 9000) }) (unfold set_options in refl) answered

del-logged_example :
    logged (Strings.del hash_length call context (codes "DEL" ∷ key ∷ [])).1
    ≡ logged context
      ++ (if not ((Engine.del_keys hash_length with_number call.clock (key ∷ [])).0 == 0)
          then encode_command (codes "DEL" ∷ key ∷ [])
          else [])
del-logged_example =
    del-logged hash_length call context open_aof context-IsLogging (codes "DEL") key [] deleted

limited :
    is_error
      (expire_impl hash_length 1000
        (codes "EXPIRE")
        call
        context
        (codes "EXPIRE" ∷ key ∷ codes "9" ∷ [])).0
    ≡ false
unfolding expire_impl expire_checked persist_changed persist persist_in append new_aof
    encode_command array_header bulk bulks to_string create reserved reserve_memory entry_weight
    entry_memory Engine.set
limited = refl

expire_impl-logged_example :
    logged
      (expire_impl hash_length 1000
        (codes "EXPIRE")
        call
        context
        (codes "EXPIRE" ∷ key ∷ codes "9" ∷ [])).1
    ≡ logged context
      ++ (if (Engine.expire hash_length with_number (pos 7) (pos 8) key (pos 9000)).0
          then encode_command (codes "PEXPIREAT" ∷ key ∷ print_expiry (pos 9) (pos 9000) ∷ [])
          else [])
expire_impl-logged_example =
    expire_impl-logged hash_length call context open_aof context-IsLogging 1000 (codes "EXPIRE")
      (codes "EXPIRE") key (codes "9") (pos 9000) (unfold parse_ttl_ms in refl) limited

abbrev saved : List SnapshotEntry
saved =
    record { key = key; value = codes "41"; expire_at_unix_ms = some (pos 9000) }
    ∷ record { key = codes "l"; value = codes "42"; expire_at_unix_ms = none }
    ∷ []

length-saved : length (log_of (entry_log saved)) ≡ 92
unfolding log_of encode_command array_header bulk bulks to_string to_string_i64
length-saved = refl

abbrev expiry_of_k : List Bytes
expiry_of_k = codes "PEXPIREAT" ∷ key ∷ to_string_i64 (pos 9000) ∷ []

abbrev set_l : List Bytes
set_l = codes "SET" ∷ codes "l" ∷ codes "42" ∷ []

expiry_of_k-Fits : Fits limits expiry_of_k
unfolding to_string_i64 to_string
expiry_of_k-Fits = record {
  arguments =
      ((omega arith, omega arith), ((omega arith, omega arith), ((omega arith, omega arith), tt)));
  count = omega arith;
  countable = omega arith;
  request = unfold encode_command array_header bulk bulks to_string in omega arith;
}

set_l-Fits : Fits limits set_l
set_l-Fits = record {
  arguments =
      ((omega arith, omega arith), ((omega arith, omega arith), ((omega arith, omega arith), tt)));
  count = omega arith;
  countable = omega arith;
  request = unfold encode_command array_header bulk bulks to_string in omega arith;
}

load_content-snapshot_content_example :
    load_content hash_length default_protocol (λ i. at_five) fresh (snapshot_content saved)
    ≡ some (restore_entries hash_length (λ i. at_five) fresh 0 saved)
load_content-snapshot_content_example =
    load_content-snapshot_content hash_length (λ i. at_five) default_protocol fresh saved
      ((omega arith, omega arith), (tt, tt)) (set_k-Fits, (expiry_of_k-Fits, (set_l-Fits, tt)))
      (omega (arith, length-saved))
