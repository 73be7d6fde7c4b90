-- ===== src/Resp/Parser/RoundTrip.antt =====
-- A command that was encoded is parsed back, whatever stands behind it in the buffer.
use velox_db.Prelude.{
  ℕ, suc, ◌+◌, ◌-◌, ◌≤◌, Bytes, [], ◌∷◌, ◌++◌, List, length, length-append, ◌≡◌, refl, sym, ap,
  append-nil, ◌∙◌, arith, some, All, append_assoc, take-append, drop-append, max_i64, le→ltb,
}
use velox_db.Util.Decimal.{to_string, from_chars_i64}
use velox_db.Util.Decimal.RoundTrip.{IsDigit, to_string-All, from_chars_i64-to_string}
use velox_db.Resp.Types.{Values, nil, cons, ParserOptions, ok, bulk_string, array}
use velox_db.Resp.Encode.{cr, lf, crlf, bulk, array_header, bulks, encode_command}
use velox_db.Resp.Parser.{
  parsed, after_child, bulk_body, bulk_line, cons_parsed, items, to_array, array_line, typed,
  at_line, parse_at, find_crlf, push_front, starts_with_crlf, max_levels,
}
use velox_db.Resp.Parser.State.{
  discard, parse_front, taken, next_value, next_command, command_of, with_raw, args_of, push_arg,
}

-- The first line ends at the first line end behind text without a carriage return.
pub find_crlf_line :
    (line rest : Bytes)
    → All IsDigit line
    → find_crlf (line ++ (cr ∷ lf ∷ rest)) ≡ some (line, rest)
unfolding find_crlf push_front
find_crlf_line [] rest h = refl
find_crlf_line (c ∷ []) rest h = ground arith
find_crlf_line (c ∷ d ∷ line) rest h = ground (arith, find_crlf_line (d ∷ line) rest)

module _ (o : ParserOptions) where
  -- A bulk string at `start`, with its two line ends.
  bulk_body_lem :
      (start after_line : ℕ) (arg rest : Bytes)
      → length arg ≤ o.max_bulk_bytes
      → after_line + length arg ≤ o.max_request_bytes
      → bulk_body o start after_line (length arg) (arg ++ (crlf ++ rest))
        ≡ parsed (bulk_string arg) (after_line + length arg + 2 - start)
  unfolding bulk_body starts_with_crlf
  bulk_body_lem start after_line arg rest h k =
      rw
        (
          drop-append arg (crlf ++ rest) (length arg) refl,
          take-append arg (crlf ++ rest) (length arg) refl,
        )
        (ground (arith, length-append arg (crlf ++ rest)))

  bulk_line_lem :
      (start after_line : ℕ) (arg rest : Bytes)
      → length arg ≤ o.max_bulk_bytes
      → length arg ≤ max_i64
      → after_line + length arg ≤ o.max_request_bytes
      → bulk_line o start after_line
          (from_chars_i64 (to_string (length arg)))
          (arg ++ (crlf ++ rest))
        ≡ parsed (bulk_string arg) (after_line + length arg + 2 - start)
  unfolding bulk_line
  bulk_line_lem start after_line arg rest h i k =
      rw (from_chars_i64-to_string (length arg) i) (bulk_body_lem start after_line arg rest h k)

  pub length-bulk :
      (arg : Bytes) → length (bulk arg) ≡ length (to_string (length arg)) + length arg + 5
  unfolding bulk
  length-bulk arg = omega (
    arith,
    length-append (to_string (length arg)) (crlf ++ (arg ++ crlf)),
    length-append arg crlf,
  )

  pub bulk-append :
      (arg rest : Bytes)
      → bulk arg ++ rest ≡ b'$' ∷ (to_string (length arg) ++ (cr ∷ lf ∷ (arg ++ (crlf ++ rest))))
  unfolding bulk
  bulk-append arg rest = simp append_assoc

  -- `parse_at` on an encoded argument.
  pub parse_at-bulk :
      (levels start : ℕ) (arg rest : Bytes)
      → length arg ≤ o.max_bulk_bytes
      → length arg ≤ max_i64
      → start + length (bulk arg) ≤ o.max_request_bytes
      → parse_at o (suc levels) start (bulk arg ++ rest)
        ≡ parsed (bulk_string arg) (length (bulk arg))
  unfolding parse_at at_line typed
  parse_at-bulk levels start arg rest h i k =
      let n = length (to_string (length arg)) in
      rw
        (
          bulk-append arg rest,
          find_crlf_line (to_string (length arg)) (arg ++ (crlf ++ rest))
              (to_string-All (length arg)),
        )
        (bulk_line_lem start (start + 1 + n + 2) arg rest h i (omega (arith, length-bulk arg))
          ∙ ap (parsed (bulk_string arg)) (omega (arith, length-bulk arg)))

-- The elements that a list of arguments becomes.
pub bulk_strings : List Bytes → Values
bulk_strings [] = nil
bulk_strings (arg ∷ args) = cons (bulk_string arg) (bulk_strings args)

-- Every argument is within the parser's limit on a bulk string.
abbrev pub FitBulk : ParserOptions → List Bytes → Type 0
FitBulk o = All (λ arg. (length arg ≤ o.max_bulk_bytes) × (length arg ≤ max_i64))

-- What the limits of the parser allow as one command.
pub record Fits (o : ParserOptions) (args : List Bytes) : Type 0 where
  pub arguments : FitBulk o args
  pub count : length args ≤ o.max_array_elements
  pub countable : length args ≤ max_i64
  pub request : length (encode_command args) ≤ o.max_request_bytes

module _ (o : ParserOptions) where
  items-bulks :
      (levels cursor : ℕ) (args : List Bytes) (rest : Bytes)
      → FitBulk o args
      → cursor + length (bulks args) ≤ o.max_request_bytes
      → items o (parse_at o (suc levels)) (length args) 0 cursor (bulks args ++ rest)
        ≡ parsed (bulk_strings args) (cursor + length (bulks args))
  unfolding items bulks bulk_strings
  items-bulks levels cursor [] rest f k = ap (parsed nil) (omega arith)
  items-bulks levels cursor (arg ∷ args) rest (f, fs) k =
      let total = length-append (bulk arg) (bulks args) in
      let n = length (bulk arg) in
      rw
        (
          append_assoc (bulk arg) (bulks args) rest,
          parse_at-bulk o levels cursor arg (bulks args ++ rest) f.0 f.1 (omega arith),
        )
        (unfold after_child cons_parsed in
          rw
            (
              drop-append (bulk arg) (bulks args ++ rest) n refl,
              items-bulks levels (cursor + n) args rest fs (omega arith),
              le→ltb o.max_request_bytes (cursor + n - 0) (omega arith),
            )
            (ap (parsed (bulk_strings (arg ∷ args))) (omega arith)))

  pub header-append :
      (args : List Bytes) (rest : Bytes)
      → encode_command args ++ rest
        ≡ b'*' ∷ (to_string (length args) ++ (cr ∷ lf ∷ (bulks args ++ rest)))
  unfolding encode_command array_header
  header-append args rest = simp append_assoc

  pub length-encode_command :
      (args : List Bytes)
      → length (encode_command args) ≡ length (to_string (length args)) + 3 + length (bulks args)
  unfolding encode_command array_header
  length-encode_command args = omega (
    arith,
    length-append (b'*' ∷ (to_string (length args) ++ crlf)) (bulks args),
    length-append (to_string (length args)) crlf,
  )

  parse_at-encode_command :
      (levels : ℕ) (args : List Bytes) (rest : Bytes)
      → Fits o args
      → parse_at o (suc (suc levels)) 0 (encode_command args ++ rest)
        ≡ parsed (array (bulk_strings args)) (length (encode_command args))
  unfolding parse_at at_line typed array_line to_array
  parse_at-encode_command levels args rest h =
      let size = length-encode_command args in
      let n = length (to_string (length args)) in
      let bound = h.request in
      rw
        (
          header-append args rest,
          find_crlf_line (to_string (length args)) (bulks args ++ rest)
              (to_string-All (length args)),
          from_chars_i64-to_string (length args) h.countable,
          le→ltb o.max_array_elements (length args) h.count,
          items-bulks levels (0 + 1 + n + 2) args rest h.arguments (omega arith),
        )
        (ap (parsed (array (bulk_strings args))) (omega arith))

args_of-bulk_strings : (args : List Bytes) → args_of (bulk_strings args) ≡ ok args
unfolding args_of bulk_strings push_arg
args_of-bulk_strings [] = refl
args_of-bulk_strings (arg ∷ args) = rw (args_of-bulk_strings args)

module _ (o : ParserOptions) where
  discard-append :
      (s rest : Bytes)
      → discard (record { options = o; buffer = s ++ rest }) (length s)
        ≡ record { options = o; buffer = rest }
  unfolding discard
  discard-append s [] = rw append-nil (ground arith)
  discard-append s (c ∷ rest) =
      rw (drop-append s (c ∷ rest) (length s) refl) (ground (arith, length-append s (c ∷ rest)))

  pub parse_front_star : (t : Bytes) → parse_front o (b'*' ∷ t) ≡ parse_at o max_levels 0 (b'*' ∷ t)
  unfolding parse_front
  parse_front_star t = refl

  parse_front-encode_command :
      (args : List Bytes) (rest : Bytes)
      → Fits o args
      → parse_front o (encode_command args ++ rest)
        ≡ parsed (array (bulk_strings args)) (length (encode_command args))
  parse_front-encode_command args rest h =
      ap (parse_front o) (header-append o args rest)
      ∙ parse_front_star _
      ∙ ap (parse_at o max_levels 0) (sym (header-append o args rest))
      ∙ parse_at-encode_command o 7 args rest h

  taken-encode_command :
      (args : List Bytes) (rest : Bytes)
      → Fits o args
      → taken
          (record { options = o; buffer = encode_command args ++ rest })
          (parsed (array (bulk_strings args)) (length (encode_command args)))
        ≡ (
          ok (array (bulk_strings args), encode_command args),
          record { options = o; buffer = rest },
        )
  unfolding taken
  taken-encode_command args rest h = rw (
    le→ltb o.max_request_bytes (length (encode_command args)) h.request,
    take-append (encode_command args) rest (length (encode_command args)) refl,
    discard-append (encode_command args) rest,
  )

-- A buffer that begins with an encoded command within the limits of the parser yields that command
-- and its bytes, and keeps what stands behind it.
pub next_command-encode_command :
    (o : ParserOptions) (args : List Bytes) (rest : Bytes)
    → Fits o args
    → next_command (record { options = o; buffer = encode_command args ++ rest }) ≡ (
      ok (record { args = args; raw = encode_command args }),
      record { options = o; buffer = rest },
    )
next_command-encode_command o args rest h =
    unfold next_command next_value in
    rw (parse_front-encode_command o args rest h, taken-encode_command o args rest h)
      (unfold command_of with_raw in rw (args_of-bulk_strings args))
