-- ===== src/Persistence/Replay/Torn.antt =====
-- What replaying does with a file of encoded commands, and with one whose last command is torn.
use velox_db.Prelude.{
  ℕ, zero, suc, ◌-◌, ◌<◌, ◌≤◌, Bytes, List, [], ◌∷◌, ◌++◌, append_assoc, Option, some, Bool, true,
  false, not, length, length-append, take, drop-append, ◌==◌, ==_iff, le→ltb, lt→ltb, codes,
  if◌then◌else◌, Bool-cases, inl, inr, All, ◌≡◌, refl, sym, ap, ◌∙◌, arith,
}
use velox_db.Util.Status.{Code, Status, ok_status, fail_with, is_ok}
use velox_db.Config.Types.{ProtocolConfig}
use velox_db.Resp.Types.{ParserOptions, need_more, Parser}
use velox_db.Resp.Encode.{encode_command, array_header}
use velox_db.Resp.Parser.State.{append, next_command, parser_options_from_config}
use velox_db.Resp.Parser.RoundTrip.{Fits, next_command-encode_command}
use velox_db.Resp.Parser.Prefix.{next_command-take}
use velox_db.Persistence.Replay.{
  ReplayStats, stats, replay_round, replay_loop, replay_appended, replay_content, replay_opened,
  replay_file, path_is_safe,
}

-- The content of a file to which the commands were appended in turn.
unfoldable pub log_of : List (List Bytes) → Bytes
log_of [] = []
log_of (c ∷ cs) = encode_command c ++ log_of cs

take_empty : (k : ℕ) (s : Bytes) → k < length s → (length (take k s) == 0) ≡ (k == 0)
take_empty zero s h = refl
take_empty (suc k) [] h = elim h [ ]
take_empty (suc k) (c ∷ s) h = ground arith

encode_command-nonempty : (c : List Bytes) → 0 < length (encode_command c)
unfolding encode_command array_header
encode_command-nonempty c = omega arith

length-log_of : (cs : List (List Bytes)) → length cs ≤ length (log_of cs)
unfolding log_of
length-log_of [] = omega arith
length-log_of (c ∷ cs) = omega (
  arith,
  length-append (encode_command c) (log_of cs),
  encode_command-nonempty c,
  length-log_of cs,
)

module _ {S : Type 0} (callback : S → List Bytes → Status × S) where
  -- The reference: the callback runs on the commands in turn, up to the first that it refuses.
  unfoldable pub run_commands : S → List (List Bytes) → (done : ℕ) (tail : Bool) → ReplayStats × S
  run_commands s [] n tail = (stats n tail ok_status, s)
  run_commands s (c ∷ cs) n tail =
      let (status, s') = callback s c in
      let rest = run_commands s' cs (suc n) tail in
      if is_ok status then rest else (stats n false status, s')

  module _ (o : ParserOptions) (torn : List Bytes) (k : ℕ) (fits : Fits o torn)
      (short : k < length (encode_command torn)) where
    abbrev tail : Bytes
    tail = take k (encode_command torn)

    last_round :
        (next : S → ℕ → Parser → Option (ReplayStats × S)) (s : S) (n : ℕ)
        → replay_round callback next s n (need_more, record { options = o; buffer = tail })
          ≡ some (stats n (not (k == 0)) ok_status, s)
    unfolding replay_round
    last_round next s n = rw (take_empty k (encode_command torn) short) refl

    replay_loop-log_of :
        (f : ℕ) (s : S) (n : ℕ) (cs : List (List Bytes))
        → All (Fits o) cs
        → length cs < f
        → replay_loop callback f s n (record { options = o; buffer = log_of cs ++ tail })
          ≡ some (run_commands s cs n (not (k == 0)))
    unfolding replay_loop log_of run_commands
    replay_loop-log_of zero s n cs a h = elim h [ ]
    replay_loop-log_of (suc f) s n [] a h =
        ap (replay_round callback (replay_loop callback f) s n)
          (next_command-take o k torn fits short)
        ∙ last_round (replay_loop callback f) s n
    replay_loop-log_of (suc f) s n (c ∷ cs) a h =
        ap
          (λ b.
            replay_round callback (replay_loop callback f) s n
              (next_command (record { options = o; buffer = b })))
          (append_assoc (encode_command c) (log_of cs) tail)
        ∙ ap (replay_round callback (replay_loop callback f) s n)
            (next_command-encode_command o c (log_of cs ++ tail) a.0)
        ∙ (elim (Bool-cases (is_ok (callback s c).0)) [
          | inl e ↦
              unfold replay_round in
              rw e (replay_loop-log_of f (callback s c).1 (suc n) cs a.1 (omega arith))
          | inr e ↦ unfold replay_round in rw e refl
        ])

    replay_appended-log_of :
        (s : S) (cs : List (List Bytes))
        → All (Fits o) cs
        → length (log_of cs ++ tail) ≤ o.max_request_bytes
        → replay_appended callback s
            (append (record { options = o; buffer = [] }) (log_of cs ++ tail))
          ≡ some (run_commands s cs 0 (not (k == 0)))
    unfolding replay_appended append
    replay_appended-log_of s cs a h =
        rw
          (
            le→ltb o.max_request_bytes (length (log_of cs ++ tail)) h,
            le→ltb (o.max_request_bytes - length (log_of cs ++ tail)) 0 (omega arith),
          )
          (replay_loop-log_of (suc (length (log_of cs ++ tail))) s 0 cs a
            (omega (arith, length-append (log_of cs) tail, length-log_of cs)))

    nothing_left :
        (s : S) (cs : List (List Bytes))
        → length (log_of cs ++ tail) ≡ 0
        → run_commands s cs 0 (not (k == 0)) ≡ (stats 0 false ok_status, s)
    unfolding log_of run_commands
    nothing_left s [] e = rw (← take_empty k (encode_command torn) short, e) refl
    nothing_left s (c ∷ cs) e = absurd (
        omega (
          arith,
          e,
          length-append (encode_command c ++ log_of cs) tail,
          length-append (encode_command c) (log_of cs),
          encode_command-nonempty c,
        ))

  replay_content-drop :
      (protocol : ProtocolConfig) (before rest : Bytes) (s : S)
      → replay_content callback protocol (length before) s (before ++ rest) ≡ (
          if length rest == 0
          then some (stats 0 false ok_status, s)
          else replay_appended callback s
              (append (record { options = parser_options_from_config protocol; buffer = [] }) rest))
  unfolding replay_content
  replay_content-drop protocol before rest s =
      rw (length-append before rest, drop-append before rest (length before) refl) (ground arith)

  -- Recovery from an append-only file, from an offset on: where the path is safe, the bytes behind
  -- the offset are encoded commands and a strict prefix of one more, all within the limits of the
  -- parser, and together at most the limit on a request, exactly those commands are run in order,
  -- up to the first that the callback refuses; the prefix runs nothing, and it is reported unless
  -- it is empty.
  pub replay_file-log_of :
      (files : Bytes → Option Bytes) (path : Bytes) (protocol : ProtocolConfig) (before : Bytes)
      (cs : List (List Bytes)) (torn : List Bytes) (k : ℕ) (s : S)
      → path_is_safe path ≡ true
      → files path ≡ some (before ++ (log_of cs ++ take k (encode_command torn)))
      → All (Fits (parser_options_from_config protocol)) cs
      → Fits (parser_options_from_config protocol) torn
      → k < length (encode_command torn)
      → length (log_of cs ++ take k (encode_command torn)) ≤ protocol.max_request_bytes
      → replay_file callback files path protocol (length before) s
        ≡ some (run_commands s cs 0 (not (k == 0)))
  unfolding replay_file replay_opened replay_content
  replay_file-log_of files path protocol before cs torn k s safe here a fits short limit =
      rw
        (
          safe,
          here,
          replay_content-drop protocol before (log_of cs ++ take k (encode_command torn)) s,
        )
        (elim (Bool-cases (length (log_of cs ++ take k (encode_command torn)) == 0)) [
          | inl e ↦ rw e (ap some (sym (nothing_left o torn k fits short s cs ((==_iff _ 0).0 e))))
          | inr e ↦ rw e (replay_appended-log_of o torn k fits short s cs a limit)
        ])
    where
      o : ParserOptions
      o = parser_options_from_config protocol

  -- A readable file at a safe path with more bytes than the limit on a request cannot be replayed
  -- from its start: the result is an error, and no command is run, whatever the file holds.
  pub replay_file-too_large :
      (files : Bytes → Option Bytes) (path : Bytes) (protocol : ProtocolConfig) (content : Bytes)
      (s : S)
      → path_is_safe path ≡ true
      → files path ≡ some content
      → protocol.max_request_bytes < length content
      → replay_file callback files path protocol 0 s
        ≡ some (
          stats 0 false (fail_with Code.resource_exhausted (codes "request buffer exceeded limit")),
          s,
        )
  unfolding replay_file replay_opened
  replay_file-too_large files path protocol content s safe here long =
      rw (safe, here)
        (replay_content-drop protocol [] content s
          ∙ (unfold replay_appended append in
              rw (lt→ltb protocol.max_request_bytes (length content) long, nonempty) refl))
    where
      nonempty : (length content == 0) ≡ false
      nonempty = ground arith
