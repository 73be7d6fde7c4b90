-- ===== src/Resp/Parser/State.antt =====
-- The public methods of `Parser` in src/protocol/resp.cpp, over its buffer.
use velox_db.Prelude.{
  ℕ, ◌-◌, Bytes, codes, List, [], ◌∷◌, ◌||◌, ◌++◌, length, take, drop, ltb, leb, if◌then◌else◌, ◌≡◌,
  refl,
}
use velox_db.Util.Decimal.{to_string_i64, from_chars_i64}
use velox_db.Util.Status.{Status, ok_status, fail_with, resource_exhausted}
use velox_db.Config.Types.{ProtocolConfig}
use velox_db.Resp.Types.{
  Value, simple_string, integer, bulk_string, null_bulk_string, array, null_array, Values, nil,
  cons, Command, ParseResult, ok, need_more, failed, ParserOptions, Parser,
}
use velox_db.Resp.Parser.{
  max_levels, is_resp_prefix, Internal, parsed, short, bad, parse_at, parse_inline,
}

abbrev pub parser_options_from_config : ProtocolConfig → ParserOptions
parser_options_from_config config = record {
  max_request_bytes = config.max_request_bytes;
  max_array_elements = config.max_array_elements;
  max_bulk_bytes = config.max_value_size;
}

unfoldable pub append : Parser → Bytes → Status × Parser
append p bytes =
    if ltb p.options.max_request_bytes (length bytes)
      || ltb (p.options.max_request_bytes - length bytes) (length p.buffer)
    then (fail_with resource_exhausted (codes "request buffer exceeded limit"), p)
    else (ok_status, record p { buffer = p.buffer ++ bytes })

abbrev pub buffered_bytes : Parser → ℕ
buffered_bytes p = length p.buffer

unfoldable pub reset : Parser → Parser
reset p = record p { buffer = [] }

unfoldable pub discard : Parser → ℕ → Parser
discard p bytes =
    if leb (length p.buffer) bytes
    then record p { buffer = [] }
    else record p { buffer = drop bytes p.buffer }

-- The parse that `next_value` starts, by the first byte of the buffer.
unfoldable pub parse_front : ParserOptions → Bytes → Internal Value
unfolding parse_at parse_inline
parse_front o [] = short
parse_front o (c ∷ s) =
    if is_resp_prefix c then parse_at o max_levels 0 (c ∷ s) else parse_inline o (c ∷ s)

unfoldable pub taken : Parser → Internal Value → ParseResult (Value × Bytes) × Parser
unfolding discard
taken p short = (need_more, p)
taken p (bad m) = (failed m, p)
taken p (parsed v consumed) =
    if ltb p.options.max_request_bytes consumed
    then (failed (codes "request exceeded maximum size"), p)
    else (ok (v, take consumed p.buffer), discard p consumed)

-- The value and its raw bytes.
unfoldable pub next_value : Parser → ParseResult (Value × Bytes) × Parser
unfolding parse_front taken
next_value p = taken p (parse_front p.options p.buffer)

unfoldable pub push_arg : Bytes → ParseResult (List Bytes) → ParseResult (List Bytes)
push_arg a (ok rest) = ok (a ∷ rest)
push_arg a need_more = need_more
push_arg a (failed m) = failed m

-- The loop over the elements of the array.
unfoldable pub args_of : Values → ParseResult (List Bytes)
unfolding push_arg
args_of nil = ok []
args_of (cons (simple_string t) vs) = push_arg t (args_of vs)
args_of (cons (Value.error t) vs) = push_arg t (args_of vs)
args_of (cons (integer n) vs) = push_arg (to_string_i64 n) (args_of vs)
args_of (cons (bulk_string t) vs) = push_arg t (args_of vs)
args_of (cons null_bulk_string vs) = failed (codes "command arguments cannot be null")
args_of (cons (array ws) vs) = failed (codes "nested arrays are not valid command arguments")
args_of (cons null_array vs) = failed (codes "command arguments cannot be null")

unfoldable pub with_raw : Bytes → ParseResult (List Bytes) → ParseResult Command
with_raw raw (ok args) = ok (record { args = args; raw = raw })
with_raw raw need_more = need_more
with_raw raw (failed m) = failed m

unfoldable pub command_of : ParseResult (Value × Bytes) → ParseResult Command
unfolding args_of with_raw
command_of need_more = need_more
command_of (failed m) = failed m
command_of (ok (array vs, raw)) = with_raw raw (args_of vs)
command_of (ok (v, raw)) = failed (codes "expected RESP array command")

unfoldable pub next_command : Parser → ParseResult Command × Parser
unfolding next_value command_of to_string_i64 from_chars_i64
next_command p = let (r, p') = next_value p in (command_of r, p')

abbrev small : ParserOptions
small = record { max_request_bytes = 64; max_array_elements = 4; max_bulk_bytes = 16 }

-- A request in two reads, an inline request, and a request over a limit.
reads :
    ((next_command (record { options = small; buffer = codes "*1\r\n$4\r\nPI" })).0 ≡ need_more)
    × ((next_command (record { options = small; buffer = codes "*1\r\n$4\r\nPING\r\n+x" })).1.buffer
        ≡ codes "+x")
    × ((next_command (record { options = small; buffer = codes "get  k\r\n" })).0
        ≡ ok (record { args = codes "get" ∷ codes "k" ∷ []; raw = codes "get  k\r\n" }))
    × ((next_command (record { options = small; buffer = codes "*5\r\n" })).0
        ≡ failed (codes "array exceeded maximum element count"))
unfolding next_command
reads = (refl, refl, refl, refl)
