-- ===== src/Resp/Parser/Prefix.antt =====
-- A command that has not arrived whole: the parser waits for more, and keeps what it has.
use velox_db.Prelude.{
  ℕ, zero, suc, ◌+◌, ◌-◌, ◌≤◌, ◌<◌, Bytes, [], ◌∷◌, ◌++◌, List, length, length-append, ◌≡◌, refl,
  sym, ap, ◌∙◌, arith, none, All, take, take-append_ge, length-take-le, drop-append, max_i64,
  le→ltb, append-nil, ltb, inl, inr, Bool-cases, ltb→lt, ltb→le,
}
use velox_db.Util.Decimal.{to_string, from_chars_i64}
use velox_db.Util.Decimal.RoundTrip.{IsDigit, to_string-All, from_chars_i64-to_string}
use velox_db.Resp.Types.{Value, ParserOptions, need_more}
use velox_db.Resp.Encode.{cr, lf, crlf, bulk, bulks, encode_command}
use velox_db.Resp.Parser.{
  Internal, short, after_child, bulk_body, bulk_line, cons_parsed, items, to_array, array_line,
  typed, at_line, parse_at, find_crlf, push_front, max_levels,
}
use velox_db.Resp.Parser.State.{parse_front, taken, next_value, next_command, command_of}
use velox_db.Resp.Parser.RoundTrip.{
  Fits, FitBulk, find_crlf_line, length-bulk, bulk-append, parse_at-bulk, header-append,
  length-encode_command, parse_front_star,
}

-- A line that is cut before its end has no line end.
find_crlf_cut :
    (k : ℕ) (line rest : Bytes)
    → All IsDigit line
    → k < length line + 2
    → find_crlf (take k (line ++ (cr ∷ lf ∷ rest))) ≡ none
unfolding find_crlf push_front
find_crlf_cut zero line rest d h = refl
find_crlf_cut (suc zero) [] rest d h = refl
find_crlf_cut (suc (suc k)) [] rest d h = absurd (omega arith)
find_crlf_cut (suc zero) (c ∷ line) rest d h = refl
find_crlf_cut (suc (suc zero)) (c ∷ []) rest d h = ground arith
find_crlf_cut (suc (suc (suc k))) (c ∷ []) rest d h = absurd (omega arith)
find_crlf_cut (suc (suc k)) (c ∷ d ∷ line) rest h i =
    ground (arith, find_crlf_cut (suc k) (d ∷ line) rest)

-- A cut behind the line end leaves the line whole.
take_line :
    (k : ℕ) (line rest : Bytes)
    → length line + 2 ≤ k
    → take k (line ++ (cr ∷ lf ∷ rest)) ≡ line ++ (cr ∷ lf ∷ take (k - (length line + 2)) rest)
take_line k line rest h =
    take-append_ge line (cr ∷ lf ∷ rest) k (omega arith)
    ∙ ap (λ j. line ++ take j (cr ∷ lf ∷ rest)) two_more
  where
    two_more : k - length line ≡ suc (suc (k - (length line + 2)))
    two_more = omega arith

module _ (o : ParserOptions) where
  bulk_body_short :
      (start after_line len : ℕ) (rest : Bytes)
      → len ≤ o.max_bulk_bytes
      → after_line + len ≤ o.max_request_bytes
      → length rest < len + 2
      → bulk_body o start after_line len rest ≡ short
  unfolding bulk_body
  bulk_body_short start after_line len rest h k l = ground arith

  bulk_line_short :
      (start after_line : ℕ) (arg rest : Bytes)
      → length arg ≤ o.max_bulk_bytes
      → length arg ≤ max_i64
      → after_line + length arg ≤ o.max_request_bytes
      → length rest < length arg + 2
      → bulk_line o start after_line (from_chars_i64 (to_string (length arg))) rest ≡ short
  unfolding bulk_line
  bulk_line_short start after_line arg rest h i k l =
      rw (from_chars_i64-to_string (length arg) i)
        (bulk_body_short start after_line (length arg) rest h k l)

  -- A line that has not arrived is within the limit on a request.
  at_line_short :
      (child : ℕ → Bytes → Internal Value) (prefix start : ℕ) (t : Bytes)
      → suc (length t) ≤ o.max_request_bytes
      → find_crlf t ≡ none
      → at_line o child prefix start t (find_crlf t) ≡ short
  unfolding at_line
  at_line_short child prefix start t h e = rw e (rw (le→ltb o.max_request_bytes (suc (length t)) h))

  parse_at-bulk_short :
      (levels start k : ℕ) (arg rest : Bytes)
      → length arg ≤ o.max_bulk_bytes
      → length arg ≤ max_i64
      → start + length (bulk arg) ≤ o.max_request_bytes
      → k < length (bulk arg)
      → parse_at o (suc levels) start (take k (bulk arg ++ rest)) ≡ short
  unfolding parse_at
  parse_at-bulk_short levels start zero arg rest h i m l = refl
  parse_at-bulk_short levels start (suc k) arg rest h i m l =
      rw (bulk-append o arg rest) (elim (Bool-cases (ltb k (n + 2))) [
        | inl e ↦
            at_line_short (parse_at o levels) b'$' start (take k text)
              (omega (arith, length-take-le k text, length-bulk o arg))
              (find_crlf_cut k digits more all_digits (ltb→lt k (n + 2) e))
        | inr e ↦
            rw
              (
                take_line k digits more (ltb→le k (n + 2) e),
                find_crlf_line digits (take (k - (n + 2)) more) all_digits,
              )
              (unfold at_line typed in
                bulk_line_short start (start + 1 + n + 2) arg (take (k - (n + 2)) more) h i
                  (omega (arith, length-bulk o arg))
                  (omega (arith, length-bulk o arg, length-take-le (k - (n + 2)) more)))
      ])
    where
      digits : Bytes
      digits = to_string (length arg)

      n : ℕ
      n = length digits

      all_digits : All IsDigit digits
      all_digits = to_string-All (length arg)

      more : Bytes
      more = arg ++ (crlf ++ rest)

      text : Bytes
      text = digits ++ (cr ∷ lf ∷ more)

  items_short :
      (levels cursor k : ℕ) (args : List Bytes)
      → FitBulk o args
      → cursor + length (bulks args) ≤ o.max_request_bytes
      → k < length (bulks args)
      → items o (parse_at o (suc levels)) (length args) 0 cursor (take k (bulks args)) ≡ short
  unfolding items bulks
  items_short levels cursor k [] f m l = elim l [ ]
  items_short levels cursor k (arg ∷ args) (f, fs) m l =
      let n = length (bulk arg) in
      let total = length-append (bulk arg) (bulks args) in
      elim (Bool-cases (ltb k n)) [
        | inl e ↦
            rw
              (parse_at-bulk_short levels cursor k arg (bulks args) f.0 f.1 (omega arith)
                (ltb→lt k n e))
              (unfold after_child in refl)
        | inr e ↦
            rw
              (
                take-append_ge (bulk arg) (bulks args) k (ltb→le k n e),
                parse_at-bulk o levels cursor arg (take (k - n) (bulks args)) f.0 f.1 (omega arith),
              )
              (unfold after_child cons_parsed in
                rw (
                  drop-append (bulk arg) (take (k - n) (bulks args)) n refl,
                  items_short levels (cursor + n) (k - n) args fs (omega arith)
                      (omega (arith, ltb→le k n e)),
                  le→ltb o.max_request_bytes (cursor + n - 0) (omega arith),
                ))
      ]

  parse_at_short :
      (levels k : ℕ) (args : List Bytes)
      → Fits o args
      → suc k < length (encode_command args)
      → parse_at o (suc (suc levels)) 0 (take (suc k) (encode_command args ++ [])) ≡ short
  unfolding parse_at
  parse_at_short levels k args h l =
      let size = length-encode_command o args in
      let bound = h.request in
      rw (header-append o args []) (elim (Bool-cases (ltb k (n + 2))) [
        | inl e ↦
            at_line_short (parse_at o (suc levels)) b'*' 0 (take k text)
              (omega (arith, length-take-le k text))
              (find_crlf_cut k digits (bulks args ++ []) all_digits (ltb→lt k (n + 2) e))
        | inr e ↦
            rw
              (
                take_line k digits (bulks args ++ []) (ltb→le k (n + 2) e),
                find_crlf_line digits (take (k - (n + 2)) (bulks args ++ [])) all_digits,
                from_chars_i64-to_string (length args) h.countable,
              )
              (unfold at_line typed array_line to_array in
                rw (
                  le→ltb o.max_array_elements (length args) h.count,
                  append-nil (bulks args),
                  items_short levels (0 + 1 + n + 2) (k - (n + 2)) args h.arguments (omega arith)
                      (omega (arith, ltb→le k (n + 2) e)),
                ))
      ])
    where
      digits : Bytes
      digits = to_string (length args)

      n : ℕ
      n = length digits

      all_digits : All IsDigit digits
      all_digits = to_string-All (length args)

      text : Bytes
      text = digits ++ (cr ∷ lf ∷ (bulks args ++ []))

  parse_front_short :
      (k : ℕ) (args : List Bytes)
      → Fits o args
      → k < length (encode_command args)
      → parse_front o (take k (encode_command args)) ≡ short
  parse_front_short zero args h l = unfold parse_front in refl
  parse_front_short (suc k) args h l =
      ap (λ s. parse_front o (take (suc k) s)) (sym (append-nil (encode_command args)))
      ∙ ap (λ s. parse_front o (take (suc k) s)) (header-append o args [])
      ∙ parse_front_star o _
      ∙ ap (λ s. parse_at o max_levels 0 (take (suc k) s)) (sym (header-append o args []))
      ∙ parse_at_short 7 k args h l

-- A buffer that holds a strict prefix of an encoded command within the limits of the parser yields
-- nothing but the wish for more input, and is kept as it is.
pub next_command-take :
    (o : ParserOptions) (k : ℕ) (args : List Bytes)
    → Fits o args
    → k < length (encode_command args)
    → next_command (record { options = o; buffer = take k (encode_command args) })
      ≡ (need_more, record { options = o; buffer = take k (encode_command args) })
next_command-take o k args h l =
    unfold next_command next_value in
    rw (parse_front_short o k args h l) (unfold taken command_of in refl)
