-- ===== src/Resp/Encode.antt =====
-- The encoders at the end of src/protocol/resp.cpp.
use velox_db.Prelude.{
  ℕ, Bytes, codes, ℤ, List, [], ◌∷◌, ◌++◌, Option, none, some, length, ◌≡◌, refl,
}
use velox_db.Util.Decimal.{to_string, to_string_i64}

abbrev pub cr : ℕ
cr = 13

abbrev pub lf : ℕ
lf = 10

abbrev pub crlf : Bytes
crlf = cr ∷ lf ∷ []

unfoldable pub simple : Bytes → Bytes
simple value = b'+' ∷ (value ++ crlf)

unfoldable pub error : Bytes → Bytes
error value = codes "-ERR " ++ (value ++ crlf)

unfoldable pub integer : ℤ → Bytes
integer value = b':' ∷ (to_string_i64 value ++ crlf)

-- `bulk_string_fragment`
unfoldable pub bulk : Bytes → Bytes
bulk value = b'$' ∷ (to_string (length value) ++ (crlf ++ (value ++ crlf)))

abbrev pub null_bulk : Bytes
null_bulk = codes "$-1\r\n"

unfoldable pub array_header : ℕ → Bytes
array_header count = b'*' ∷ (to_string count ++ crlf)

bulk_or_null : Option Bytes → Bytes
bulk_or_null none = null_bulk
bulk_or_null (some value) = bulk value

-- The loop over the values, each appended in its turn.
fragments : List (Option Bytes) → Bytes
unfolding bulk_or_null
fragments [] = []
fragments (v ∷ vs) = bulk_or_null v ++ fragments vs

unfoldable pub array_of_bulk : List (Option Bytes) → Bytes
unfolding fragments
array_of_bulk values = array_header (length values) ++ fragments values

unfoldable pub bulks : List Bytes → Bytes
bulks [] = []
bulks (arg ∷ args) = bulk arg ++ bulks args

unfoldable pub encode_command : List Bytes → Bytes
unfolding bulks
encode_command args = array_header (length args) ++ bulks args

get_request : encode_command (codes "GET" ∷ codes "k" ∷ []) ≡ codes "*2\r\n$3\r\nGET\r\n$1\r\nk\r\n"
unfolding encode_command array_header bulk to_string
get_request = refl
