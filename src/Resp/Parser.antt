-- ===== src/Resp/Parser.antt =====
-- The incremental parser of src/protocol/resp.cpp. A position in the buffer is kept as a number and
-- the bytes of the buffer from it on.
pub mod State
pub mod Progress
pub mod RoundTrip
pub mod Prefix
use velox_db.Prelude.{
  ℕ, zero, suc, ◌+◌, ◌-◌, Bytes, codes, ℤ, pos, negsuc, List, [], ◌∷◌, ◌++◌, Bool, true, false,
  ◌||◌, ◌&&◌, Option, none, some, length, take, drop, ltb, leb, ◌==◌, if◌then◌else◌, ◌≡◌, refl,
}
use velox_db.Util.Decimal.{from_chars_i64, to_string_i64}
use velox_db.Util.Status.{Status, ok_status, fail_with, resource_exhausted}
use velox_db.Util.Text.{split_words}
use velox_db.Resp.Types.{
  Value, simple_string, integer, bulk_string, null_bulk_string, array, null_array, Values, nil,
  cons, Command, ParseResult, ok, need_more, failed, ParserOptions, Parser,
}
use velox_db.Resp.Encode.{cr, lf}

-- `kMaxDepth` is 8: depths 0 to 8 are parsed. A depth is kept as the number of levels left.
abbrev pub max_levels : ℕ
max_levels = 9

abbrev pub is_resp_prefix : ℕ → Bool
is_resp_prefix ch = ch == b'+' || ch == b'-' || ch == b':' || ch == b'$' || ch == b'*'

-- `InternalResult`: a value and the bytes consumed.
pub data Internal {ℓ} (A : Type ℓ) : Type ℓ where
  parsed : A → ℕ → Internal A
  short : Internal A
  bad : Bytes → Internal A

pub push_front : ℕ → Option (Bytes × Bytes) → Option (Bytes × Bytes)
push_front c none = none
push_front c (some (line, rest)) = some (c ∷ line, rest)

-- `find_crlf`: the line before the first "\r\n" and what stands behind it.
pub find_crlf : Bytes → Option (Bytes × Bytes)
unfolding push_front
find_crlf [] = none
find_crlf (c ∷ []) = none
find_crlf (c ∷ d ∷ s) =
    let later = push_front c (find_crlf (d ∷ s)) in
    if (c == cr) && (d == lf) then some ([], s) else later

pub starts_with_crlf : Bytes → Bool
starts_with_crlf (c ∷ d ∷ s) = (c == cr) && (d == lf)
starts_with_crlf s = false

module _ (o : ParserOptions) where
  -- The body of a bulk string of `len` bytes; `header` is what its line took, `after_line` where it begins.
  pub bulk_body : (start after_line len : ℕ) → Bytes → Internal Value
  unfolding starts_with_crlf
  bulk_body start after_line len rest =
      if ltb o.max_bulk_bytes len
      then bad (codes "bulk string exceeded maximum size")
      else if ltb o.max_request_bytes after_line || ltb (o.max_request_bytes - after_line) len
      then bad (codes "bulk string exceeded maximum request size")
      else if ltb (length rest) (len + 2)
      then short
      else if starts_with_crlf (drop len rest)
      then parsed (bulk_string (take len rest)) (after_line + len + 2 - start)
      else bad (codes "malformed bulk string CRLF")

  pub bulk_line : (start after_line : ℕ) → Option ℤ → Bytes → Internal Value
  unfolding bulk_body
  bulk_line start after_line none rest = bad (codes "invalid bulk string length")
  bulk_line start after_line (some (negsuc zero)) rest =
      parsed null_bulk_string (after_line - start)
  bulk_line start after_line (some (negsuc (suc n))) rest = bad (codes "invalid bulk string length")
  bulk_line start after_line (some (pos len)) rest = bulk_body start after_line len rest

  pub cons_parsed : Value → Internal Values → Internal Values
  cons_parsed v (parsed vs n) = parsed (cons v vs) n
  cons_parsed v short = short
  cons_parsed v (bad m) = bad m

  -- One round of the loop: what the child gave, and the rounds behind it.
  pub after_child : Internal Value → (start cursor : ℕ) → (ℕ → Internal Values) → Internal Values
  unfolding cons_parsed
  after_child (parsed v k) start cursor next =
      let rest = cons_parsed v (next k) in
      if ltb o.max_request_bytes (cursor + k - start)
      then bad (codes "request exceeded maximum size")
      else rest
  after_child short start cursor next = short
  after_child (bad m) start cursor next = bad m

  -- The loop over the elements; `child` parses one of them, and `n` are left.
  pub items : (ℕ → Bytes → Internal Value) → ℕ → (start cursor : ℕ) → Bytes → Internal Values
  unfolding after_child
  items child zero start cursor s = parsed nil (cursor - start)
  items child (suc n) start cursor s =
      after_child (child cursor s) start cursor (λ k. items child n start (cursor + k) (drop k s))

  pub to_array : Internal Values → Internal Value
  to_array (parsed vs n) = parsed (array vs) n
  to_array short = short
  to_array (bad m) = bad m

  pub array_line :
      (ℕ → Bytes → Internal Value) → (start after_line : ℕ) → Option ℤ → Bytes → Internal Value
  unfolding items to_array
  array_line child start after_line none rest = bad (codes "invalid array length")
  array_line child start after_line (some (negsuc zero)) rest =
      parsed null_array (after_line - start)
  array_line child start after_line (some (negsuc (suc n))) rest =
      bad (codes "invalid array length")
  array_line child start after_line (some (pos count)) rest =
      if ltb o.max_array_elements count
      then bad (codes "array exceeded maximum element count")
      else to_array (items child count start after_line rest)

  pub integer_line : ℕ → Option ℤ → Internal Value
  integer_line consumed none = bad (codes "invalid integer")
  integer_line consumed (some n) = parsed (integer n) consumed

  -- The switch on the prefix, once the line is there.
  pub typed :
      (ℕ → Bytes → Internal Value)
      → (prefix start after_line : ℕ) → (line rest : Bytes) → Internal Value
  unfolding bulk_line array_line integer_line
  typed child prefix start after_line line rest =
      if prefix == b'+'
      then parsed (simple_string line) (after_line - start)
      else if prefix == b'-'
      then parsed (Value.error line) (after_line - start)
      else if prefix == b':'
      then integer_line (after_line - start) (from_chars_i64 line)
      else if prefix == b'$'
      then bulk_line start after_line (from_chars_i64 line) rest
      else if prefix == b'*'
      then array_line child start after_line (from_chars_i64 line) rest
      else bad (codes "unknown RESP type")

  -- What follows the search for the end of the line at `start + 1`.
  pub at_line :
      (ℕ → Bytes → Internal Value)
      → (prefix start : ℕ) → Bytes
      → Option (Bytes × Bytes)
      → Internal Value
  unfolding typed
  at_line child prefix start t none =
      if ltb o.max_request_bytes (suc (length t))
      then bad (codes "line exceeded maximum request size")
      else short
  at_line child prefix start t (some (line, rest)) =
      typed child prefix start (start + 1 + length line + 2) line rest

  -- `parse_at`, at the position `start`.
  unfoldable pub parse_at : (levels start : ℕ) → Bytes → Internal Value
  unfolding at_line find_crlf
  parse_at zero start s = bad (codes "RESP nesting depth exceeded")
  parse_at (suc levels) start [] = short
  parse_at (suc levels) start (prefix ∷ t) = at_line (parse_at levels) prefix start t (find_crlf t)

  pub words : List Bytes → Internal Values
  unfolding cons_parsed
  words [] = parsed nil 0
  words (w ∷ ws) =
      let rest = cons_parsed (bulk_string w) (words ws) in
      if ltb o.max_bulk_bytes (length w)
      then bad (codes "inline argument exceeded maximum size")
      else rest

  pub consuming : ℕ → Internal Values → Internal Value
  consuming n (parsed vs _) = parsed (array vs) n
  consuming n short = short
  consuming n (bad m) = bad m

  pub inline_line : Bytes → Option (Bytes × Bytes) → Internal Value
  unfolding words consuming split_words
  inline_line s none =
      if ltb o.max_request_bytes (length s)
      then bad (codes "inline command exceeded maximum size")
      else short
  inline_line s (some (line, rest)) = consuming (length line + 2) (words (split_words line))

  -- `parse_inline(0)`
  unfoldable pub parse_inline : Bytes → Internal Value
  unfolding inline_line find_crlf
  parse_inline s = inline_line s (find_crlf s)
