-- ===== src/Util/Status.antt =====
-- include/veloxdb/util/status.h and src/util/status.cpp: the outcome of a fallible operation.
use velox_db.Prelude.{Bytes, codes, Bool, true, false, ◌++◌}

pub data Code : Type 0 where
  ok invalid_argument not_found resource_exhausted io_error protocol_error internal_error : Code

pub record Status : Type 0 where
  pub code : Code
  pub message : Bytes

abbrev pub ok_status : Status
ok_status = record { code = Code.ok; message = codes "" }

abbrev pub fail_with : Code → Bytes → Status
fail_with c m = record { code = c; message = m }

abbrev is_ok_code : Code → Bool
is_ok_code Code.ok = true
is_ok_code _ = false

-- `ok_status()` and the conversion to `bool`.
abbrev pub is_ok : Status → Bool
is_ok s = is_ok_code s.code

unfoldable pub code_name : Code → Bytes
code_name Code.ok = codes "ok"
code_name Code.invalid_argument = codes "invalid argument"
code_name Code.not_found = codes "not found"
code_name Code.resource_exhausted = codes "resource exhausted"
code_name Code.io_error = codes "io error"
code_name Code.protocol_error = codes "protocol error"
code_name Code.internal_error = codes "internal error"

pub to_string_of : Code → Bytes → Bytes
to_string_of Code.ok m = codes "OK"
to_string_of c m = code_name c ++ codes ": " ++ m

unfoldable pub to_string : Status → Bytes
unfolding to_string_of
to_string s = to_string_of s.code s.message
