-- ===== src/Resp/Parser/Progress.antt =====
-- Every value that is parsed consumes input, so that a loop of `next_command` ends.
use velox_db.Prelude.{
  refl, drop, Bool-cases, inl, inr, ltb, ℕ, zero, suc, ◌+◌, ◌-◌, ◌<◌, Bytes, [], ◌∷◌, length, ◌≡◌,
  arith, length-drop, Option, none, some, ℤ, pos, negsuc,
}
use velox_db.Util.Text.{split_words}
use velox_db.Util.Decimal.{from_chars_i64}
use velox_db.Resp.Types.{
  Value, Values, ParserOptions, Parser, ParseResult, ok, need_more, failed, array,
}
use velox_db.Resp.Parser.{
  max_levels, Internal, parsed, short, bad, after_child, bulk_line, cons_parsed, items, to_array,
  array_line, integer_line, typed, parse_at, parse_inline, find_crlf, at_line, inline_line,
  consuming, words,
}
use velox_db.Resp.Parser.State.{
  discard, parse_front, taken, next_value, next_command, command_of, with_raw,
}

-- The result consumes at least one byte.
abbrev Consumes {ℓ} : {A : Type ℓ} → Internal A → Type 0
Consumes (parsed v k) = 0 < k
Consumes short = Unit
Consumes (bad m) = Unit

module _ (o : ParserOptions) where
  bulk_line-Consumes :
      (start line : ℕ) (n : Option ℤ) (rest : Bytes)
      → Consumes (bulk_line o start (start + 1 + line + 2) n rest)
  unfolding bulk_line
  bulk_line-Consumes start line none rest = tt
  bulk_line-Consumes start line (some (negsuc zero)) rest = omega arith
  bulk_line-Consumes start line (some (negsuc (suc n))) rest = tt
  bulk_line-Consumes start line (some (pos len)) rest = ground arith

  cons_parsed-Consumes :
      (v : Value) (r : Internal Values) → Consumes r → Consumes (cons_parsed o v r)
  unfolding cons_parsed
  cons_parsed-Consumes v (parsed vs k) h = h
  cons_parsed-Consumes v short h = tt
  cons_parsed-Consumes v (bad m) h = tt

  after_child-Consumes :
      (r : Internal Value) (start cursor : ℕ) (next : ℕ → Internal Values)
      → ((k : ℕ) → Consumes (next k))
      → Consumes (after_child o r start cursor next)
  unfolding after_child
  after_child-Consumes (parsed v k) start cursor next h =
      ground (arith, cons_parsed-Consumes v (next k) (h k))
  after_child-Consumes short start cursor next h = tt
  after_child-Consumes (bad m) start cursor next h = tt

  items-Consumes :
      (child : ℕ → Bytes → Internal Value) (n start cursor : ℕ) (s : Bytes)
      → start < cursor
      → Consumes (items o child n start cursor s)
  unfolding items
  items-Consumes child zero start cursor s h = omega arith
  items-Consumes child (suc n) start cursor s h =
      after_child-Consumes (child cursor s) start cursor _
        (λ k. items-Consumes child n start (cursor + k) (drop k s) (omega arith))

  to_array-Consumes : (r : Internal Values) → Consumes r → Consumes (to_array o r)
  unfolding to_array
  to_array-Consumes (parsed vs k) h = h
  to_array-Consumes short h = tt
  to_array-Consumes (bad m) h = tt

  array_line-Consumes :
      (child : ℕ → Bytes → Internal Value) (start line : ℕ) (n : Option ℤ) (rest : Bytes)
      → Consumes (array_line o child start (start + 1 + line + 2) n rest)
  unfolding array_line
  array_line-Consumes child start line none rest = tt
  array_line-Consumes child start line (some (negsuc zero)) rest = omega arith
  array_line-Consumes child start line (some (negsuc (suc n))) rest = tt
  array_line-Consumes child start line (some (pos count)) rest =
      elim (Bool-cases (ltb o.max_array_elements count)) [
        | inl e ↦ rw e tt
        | inr e ↦ rw e (
            to_array-Consumes (items o child count start (start + 1 + line + 2) rest)
              (items-Consumes child count start _ rest (omega arith)))
      ]

  integer_line-Consumes : (k : ℕ) (n : Option ℤ) → 0 < k → Consumes (integer_line o k n)
  unfolding integer_line
  integer_line-Consumes k none h = tt
  integer_line-Consumes k (some n) h = h

  typed-Consumes :
      (child : ℕ → Bytes → Internal Value) (prefix start : ℕ) (line rest : Bytes)
      → Consumes (typed o child prefix start (start + 1 + length line + 2) line rest)
  unfolding typed
  typed-Consumes child prefix start line rest = ground (
    arith,
    integer_line-Consumes (start + 1 + length line + 2 - start) (from_chars_i64 line) (omega arith),
    bulk_line-Consumes start (length line) (from_chars_i64 line) rest,
    array_line-Consumes child start (length line) (from_chars_i64 line) rest,
  )

  at_line-Consumes :
      (child : ℕ → Bytes → Internal Value) (prefix start : ℕ) (t : Bytes)
      (found : Option (Bytes × Bytes))
      → Consumes (at_line o child prefix start t found)
  unfolding at_line
  at_line-Consumes child prefix start t none = ground arith
  at_line-Consumes child prefix start t (some (line, rest)) =
      typed-Consumes child prefix start line rest

  parse_at-Consumes : (levels start : ℕ) (s : Bytes) → Consumes (parse_at o levels start s)
  unfolding parse_at
  parse_at-Consumes zero start s = tt
  parse_at-Consumes (suc levels) start [] = tt
  parse_at-Consumes (suc levels) start (prefix ∷ t) =
      at_line-Consumes (parse_at o levels) prefix start t (find_crlf t)

  consuming-Consumes : (k : ℕ) (r : Internal Values) → 0 < k → Consumes (consuming o k r)
  unfolding consuming
  consuming-Consumes k (parsed vs _) h = h
  consuming-Consumes k short h = tt
  consuming-Consumes k (bad m) h = tt

  inline_line-Consumes :
      (s : Bytes) (found : Option (Bytes × Bytes)) → Consumes (inline_line o s found)
  unfolding inline_line
  inline_line-Consumes s none = ground arith
  inline_line-Consumes s (some (line, rest)) =
      consuming-Consumes (length line + 2) (words o (split_words line)) (omega arith)

  parse_front-Consumes : (s : Bytes) → Consumes (parse_front o s)
  unfolding parse_front parse_inline
  parse_front-Consumes [] = tt
  parse_front-Consumes (c ∷ s) = ground (
    arith,
    parse_at-Consumes max_levels 0 (c ∷ s),
    inline_line-Consumes (c ∷ s) (find_crlf (c ∷ s)),
  )

-- A request that was taken leaves fewer bytes in the buffer.
abbrev pub Shrinks {ℓ} : {A : Type ℓ} → Parser → ParseResult A × Parser → Type 0
Shrinks p (ok a, p') = length p'.buffer < length p.buffer
Shrinks p (need_more, p') = Unit
Shrinks p (failed m, p') = Unit

discard-lt :
    (p : Parser) (k : ℕ)
    → 0 < k
    → 0 < length p.buffer
    → length (discard p k).buffer < length p.buffer
unfolding discard
discard-lt p k h b = ground (arith, length-drop k p.buffer)

taken-Shrinks :
    (p : Parser) (r : Internal Value) → Consumes r → 0 < length p.buffer → Shrinks p (taken p r)
unfolding taken
taken-Shrinks p short h b = tt
taken-Shrinks p (bad m) h b = tt
taken-Shrinks p (parsed v k) h b = ground (arith, discard-lt p k h b)

next_value-Shrinks : (p : Parser) → Shrinks p (next_value p)
unfolding next_value
next_value-Shrinks p = go p.buffer refl
  where
    go : (s : Bytes) → p.buffer ≡ s → Shrinks p (taken p (parse_front p.options p.buffer))
    go [] e = unfold parse_front taken in rw e tt
    go (c ∷ s) e = taken-Shrinks p _ (parse_front-Consumes p.options p.buffer) (rw e (omega arith))

command_of-Shrinks :
    (p : Parser) (r : ParseResult (Value × Bytes)) (p' : Parser)
    → Shrinks p (r, p')
    → Shrinks p (command_of r, p')
unfolding command_of with_raw
command_of-Shrinks p need_more p' h = tt
command_of-Shrinks p (failed m) p' h = tt
command_of-Shrinks p (ok (array vs, raw)) p' h = ground arith
command_of-Shrinks p (ok (v, raw)) p' h = tt

-- A command that next_command yields leaves strictly fewer bytes in the buffer, whatever the buffer
-- and the limits.
pub next_command-Shrinks : (p : Parser) → Shrinks p (next_command p)
unfolding next_command
next_command-Shrinks p =
    command_of-Shrinks p (next_value p).0 (next_value p).1 (next_value-Shrinks p)
