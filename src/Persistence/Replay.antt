-- ===== src/Persistence/Replay.antt =====
-- `Aof::replay_file` of src/persistence/aof.cpp: the commands of a file are handed to a callback,
-- here a step on a state of the caller's.
use velox_db.Prelude.{
  ℕ, zero, suc, ◌+◌, ◌-◌, ◌≤◌, ◌<◌, Bytes, codes, List, [], ◌∷◌, ◌++◌, Option, none, some, Bool,
  true, false, ◌&&◌, ◌||◌, not, length, take, drop, ltb, leb, ◌==◌, if◌then◌else◌, ◌≡◌, ◌≢◌, refl,
}
use velox_db.Util.Status.{Code, Status, ok_status, fail_with, is_ok}
use velox_db.Config.Types.{ProtocolConfig}
use velox_db.Resp.Types.{Command, ParseResult, ok, need_more, failed, Parser}
use velox_db.Resp.Parser.State.{append, buffered_bytes, next_command, parser_options_from_config}
pub mod Ends
pub mod Torn

pub record ReplayStats : Type 0 where
  pub commands : ℕ
  pub ignored_partial_tail : Bool
  pub status : Status

abbrev pub stats : ℕ → Bool → Status → ReplayStats
stats n tail status = record { commands = n; ignored_partial_tail = tail; status = status }

abbrev no_commands : ReplayStats
no_commands = stats 0 false ok_status

has_nul : Bytes → Bool
has_nul [] = false
has_nul (c ∷ s) = c == 0 || has_nul s

unfoldable pub path_is_safe : Bytes → Bool
unfolding has_nul
path_is_safe path = not (length path == 0) && not (has_nul path)

module _ {S : Type 0} (callback : S → List Bytes → Status × S) where
  -- One round, with the rest of the loop for the commands that the callback takes.
  pub replay_round :
      (S → ℕ → Parser → Option (ReplayStats × S))
      → S
      → ℕ
      → ParseResult Command × Parser
      → Option (ReplayStats × S)
  replay_round next s n (need_more, p) = some (stats n (not (buffered_bytes p == 0)) ok_status, s)
  replay_round next s n (failed m, p) =
      some (stats n false (fail_with Code.protocol_error (codes "AOF replay failed: " ++ m)), s)
  replay_round next s n (ok c, p) =
      let (status, s') = callback s c.args in
      let rest = next s' (suc n) p in if is_ok status then rest else some (stats n false status, s')

  -- The loop, for a number of rounds; `none` is a loop that has not ended by then.
  pub replay_loop : (fuel : ℕ) → S → ℕ → Parser → Option (ReplayStats × S)
  unfolding replay_round next_command
  replay_loop zero s n p = none
  replay_loop (suc f) s n p = replay_round (replay_loop f) s n (next_command p)

  -- The buffer holds fewer commands than bytes, so that its length and one more rounds are enough.
  pub replay_appended : S → Status × Parser → Option (ReplayStats × S)
  unfolding replay_loop
  replay_appended s (status, p) =
      if is_ok status
      then replay_loop (suc (length p.buffer)) s 0 p
      else some (stats 0 false status, s)

  pub replay_content : ProtocolConfig → (start_offset : ℕ) → S → Bytes → Option (ReplayStats × S)
  unfolding replay_appended append
  replay_content protocol start_offset s content =
      if length content == 0
      then some (no_commands, s)
      else if ltb (length content) start_offset
      then some (
        stats 0 false
            (fail_with Code.protocol_error (codes "AOF replay offset is beyond end of file")),
        s,
      )
      else if start_offset == length content
      then some (no_commands, s)
      else replay_appended s (
          append (record { options = parser_options_from_config protocol; buffer = [] })
            (drop start_offset content))

  replay_opened : ProtocolConfig → ℕ → S → Option Bytes → Option (ReplayStats × S)
  unfolding replay_content
  replay_opened protocol start_offset s none = some (no_commands, s)
  replay_opened protocol start_offset s (some content) =
      replay_content protocol start_offset s content

  -- `files` gives the content of each file that exists and can be read, or nothing of one that
  -- cannot be read.
  unfoldable pub replay_file :
      (files : Bytes → Option Bytes) (path : Bytes)
      → ProtocolConfig
      → ℕ
      → S
      → Option (ReplayStats × S)
  unfolding replay_opened path_is_safe
  replay_file files path protocol start_offset s =
      replay_opened protocol start_offset s (if path_is_safe path then files path else none)
