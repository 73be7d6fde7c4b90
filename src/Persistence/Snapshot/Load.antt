-- ===== src/Persistence/Snapshot/Load.antt =====
-- Loading what was saved.
use velox_db.Prelude.{
  ℕ, zero, suc, ◌-◌, ◌<◌, ◌≤◌, Bytes, List, [], ◌∷◌, ◌++◌, some, false, length, length-append,
  le→ltb, ◌==◌, if◌then◌else◌, Bool-cases, inl, inr, All, ◌≡◌, refl, ap, ◌∙◌, arith,
}
use velox_db.Util.Status.{Status, ok_status, is_ok}
use velox_db.Config.Types.{ProtocolConfig}
use velox_db.Resp.Types.{ParserOptions, need_more}
use velox_db.Resp.Encode.{encode_command, array_header}
use velox_db.Resp.Parser.State.{
  append, next_command, next_value, parse_front, taken, command_of, parser_options_from_config,
}
use velox_db.Resp.Parser.RoundTrip.{Fits, next_command-encode_command}
use velox_db.Storage.Types.{StorageEngine, Tick, SnapshotEntry}
use velox_db.Persistence.Snapshot.{
  entry_commands, encoded, snapshot_content, load_command, load_round, load_loop, load_appended,
  load_content,
}

-- The commands of a snapshot, in order.
unfoldable pub snapshot_commands : List SnapshotEntry → List (List Bytes)
snapshot_commands [] = []
snapshot_commands (e ∷ es) = entry_commands e ++ snapshot_commands es

encoded-append :
    (cs ds : List (List Bytes)) (rest : Bytes)
    → encoded cs (encoded ds rest) ≡ encoded (cs ++ ds) rest
unfolding encoded
encoded-append [] ds rest = refl
encoded-append (c ∷ cs) ds rest = ap (λ s. encode_command c ++ s) (encoded-append cs ds rest)

pub snapshot_content-encoded :
    (es : List SnapshotEntry) → snapshot_content es ≡ encoded (snapshot_commands es) []
unfolding snapshot_content snapshot_commands encoded
snapshot_content-encoded [] = refl
snapshot_content-encoded (e ∷ es) =
    ap (encoded (entry_commands e)) (snapshot_content-encoded es)
    ∙ encoded-append (entry_commands e) (snapshot_commands es) []

length-encoded : (cs : List (List Bytes)) → length cs ≤ length (encoded cs [])
unfolding encoded encode_command array_header
length-encoded [] = omega arith
length-encoded (c ∷ cs) =
    omega (arith, length-append (encode_command c) (encoded cs []), length-encoded cs)

module _ (hash : Bytes → ℕ) (ticks : ℕ → Tick) where
  -- The reference: the commands in turn, up to the first that fails.
  unfoldable pub load_commands : StorageEngine → ℕ → List (List Bytes) → Status × StorageEngine
  load_commands st n [] = (ok_status, st)
  load_commands st n (c ∷ cs) =
      let (status, st') = load_command hash (ticks n) st c in
      let rest = load_commands st' (suc n) cs in if is_ok status then rest else (status, st')

  module _ (o : ParserOptions) where
    nothing_more :
        next_command (record { options = o; buffer = [] })
        ≡ (need_more, record { options = o; buffer = [] })
    nothing_more = unfold next_command next_value parse_front taken command_of in refl

    load_loop-encoded :
        (f : ℕ) (st : StorageEngine) (n : ℕ) (cs : List (List Bytes))
        → All (Fits o) cs
        → length cs < f
        → load_loop hash f ticks st n (record { options = o; buffer = encoded cs [] })
          ≡ some (load_commands st n cs)
    unfolding load_loop encoded load_commands
    load_loop-encoded zero st n cs a h = elim h [ ]
    load_loop-encoded (suc f) st n [] a h =
        ap (load_round hash (load_loop hash f ticks) ticks st n) nothing_more
        ∙ (unfold load_round in refl)
    load_loop-encoded (suc f) st n (c ∷ cs) a h =
        ap (load_round hash (load_loop hash f ticks) ticks st n)
          (next_command-encode_command o c (encoded cs []) a.0)
        ∙ (elim (Bool-cases (is_ok (load_command hash (ticks n) st c).0)) [
          | inl e ↦
              unfold load_round in
              rw e (
                load_loop-encoded f (load_command hash (ticks n) st c).1 (suc n) cs a.1
                  (omega arith))
          | inr e ↦ unfold load_round in rw e refl
        ])

  load_content-encoded :
      (protocol : ProtocolConfig) (st : StorageEngine) (cs : List (List Bytes))
      → All (Fits (parser_options_from_config protocol)) cs
      → length (encoded cs []) ≤ protocol.max_request_bytes
      → load_content hash protocol ticks st (encoded cs []) ≡ some (load_commands st 0 cs)
  unfolding load_content load_appended append
  load_content-encoded protocol st [] a h = unfold encoded load_commands in refl
  load_content-encoded protocol st (c ∷ cs) a h =
      let filled : (length (encoded (c ∷ cs) []) == 0) ≡ false =
        ground (arith, length-encoded (c ∷ cs)) in
      rw
        (
          filled,
          le→ltb protocol.max_request_bytes (length (encoded (c ∷ cs) [])) h,
          le→ltb (protocol.max_request_bytes - length (encoded (c ∷ cs) [])) 0 (omega arith),
        )
        (load_loop-encoded (parser_options_from_config protocol)
          (suc (length (encoded (c ∷ cs) []))) st 0 (c ∷ cs) a
          (omega (arith, length-encoded (c ∷ cs))))

  -- Loading the content of a snapshot runs its commands in turn, up to the first that fails.
  pub load_content-snapshot_commands :
      (protocol : ProtocolConfig) (st : StorageEngine) (es : List SnapshotEntry)
      → All (Fits (parser_options_from_config protocol)) (snapshot_commands es)
      → length (snapshot_content es) ≤ protocol.max_request_bytes
      → load_content hash protocol ticks st (snapshot_content es)
        ≡ some (load_commands st 0 (snapshot_commands es))
  load_content-snapshot_commands protocol st es a h =
      let same = snapshot_content-encoded es in
      ap (load_content hash protocol ticks st) same
      ∙ load_content-encoded protocol st (snapshot_commands es) a (rw same at h)
