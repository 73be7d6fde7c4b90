-- ===== src/Persistence/Replay/Ends.antt =====
-- The loop of `replay_file` ends: its bound on the rounds is never met.
use velox_db.Prelude.{
  ℕ, zero, suc, ◌<◌, Bytes, drop, List, [], Option, none, some, is_some, true, length,
  if◌then◌else◌, Bool-cases, inl, inr, ◌≡◌, refl, arith,
}
use velox_db.Util.Status.{Status, is_ok}
use velox_db.Config.Types.{ProtocolConfig}
use velox_db.Resp.Types.{Command, ParseResult, ok, need_more, failed, Parser}
use velox_db.Resp.Parser.State.{append, next_command, parser_options_from_config}
use velox_db.Resp.Parser.Progress.{Shrinks, next_command-Shrinks}
use velox_db.Persistence.Replay.{
  ReplayStats, replay_round, replay_loop, replay_appended, replay_content, replay_opened,
  replay_file, path_is_safe,
}

module _ {S : Type 0} (callback : S → List Bytes → Status × S) where
  replay_round-ends :
      (next : S → ℕ → Parser → Option (ReplayStats × S)) (s : S) (n : ℕ) (p : Parser)
      (r : ParseResult Command × Parser)
      → ((s' : S) (n' : ℕ) (p' : Parser)
          → length p'.buffer < length p.buffer
          → is_some (next s' n' p') ≡ true)
      → Shrinks p r
      → is_some (replay_round callback next s n r) ≡ true
  unfolding replay_round
  replay_round-ends next s n p (need_more, p') rest h = refl
  replay_round-ends next s n p (failed m, p') rest h = refl
  replay_round-ends next s n p (ok c, p') rest h = elim (Bool-cases (is_ok (callback s c.args).0)) [
    | inl e ↦ rw e (rest (callback s c.args).1 (suc n) p' h)
    | inr e ↦ rw e refl
  ]

  replay_loop-ends :
      (f : ℕ) (s : S) (n : ℕ) (p : Parser)
      → length p.buffer < f
      → is_some (replay_loop callback f s n p) ≡ true
  unfolding replay_loop
  replay_loop-ends zero s n p h = elim h [ ]
  replay_loop-ends (suc f) s n p h =
      replay_round-ends (replay_loop callback f) s n p (next_command p)
        (λ s' n' p' l. replay_loop-ends f s' n' p' (omega arith)) (next_command-Shrinks p)

  replay_appended-ends :
      (s : S) (r : Status × Parser) → is_some (replay_appended callback s r) ≡ true
  unfolding replay_appended
  replay_appended-ends s (status, p) = elim (Bool-cases (is_ok status)) [
    | inl e ↦ rw e (replay_loop-ends (suc (length p.buffer)) s 0 p (omega arith))
    | inr e ↦ rw e refl
  ]

  replay_content-ends :
      (protocol : ProtocolConfig) (start : ℕ) (s : S) (content : Bytes)
      → is_some (replay_content callback protocol start s content) ≡ true
  unfolding replay_content
  replay_content-ends protocol start s content = ground (
    arith,
    replay_appended-ends s (
        append (record { options = parser_options_from_config protocol; buffer = [] })
          (drop start content)),
  )

  replay_opened-ends :
      (protocol : ProtocolConfig) (start : ℕ) (s : S) (content : Option Bytes)
      → is_some (replay_opened callback protocol start s content) ≡ true
  unfolding replay_opened
  replay_opened-ends protocol start s none = refl
  replay_opened-ends protocol start s (some content) = replay_content-ends protocol start s content

  -- Replaying ends, within the rounds that the model allows, for every file content, offset, limit
  -- and callback.
  pub replay_file-ends :
      (files : Bytes → Option Bytes) (path : Bytes) (protocol : ProtocolConfig) (start : ℕ) (s : S)
      → is_some (replay_file callback files path protocol start s) ≡ true
  unfolding replay_file
  replay_file-ends files path protocol start s =
      replay_opened-ends protocol start s (if path_is_safe path then files path else none)
