-- ===== src/Resp/Types.antt =====
-- The data of include/veloxdb/protocol/resp.h.
use velox_db.Prelude.{ℕ, Bytes, ℤ, List}

-- `Value`: the tag of `Type` is the constructor, and a null string or array has one of its own.
mutual
  pub data Value : Type 0 where
    simple_string : Bytes → Value
    error : Bytes → Value
    integer : ℤ → Value
    bulk_string : Bytes → Value
    null_bulk_string : Value
    array : Values → Value
    null_array : Value

  -- `std::vector<Value>`
  pub data Values : Type 0 where
    nil : Values
    cons : Value → Values → Values

pub record Command : Type 0 where
  pub args : List Bytes
  pub raw : Bytes

-- `ValueParseResult` and `CommandParseResult`: the fields beside the status are those that it uses.
pub data ParseResult {ℓ} (A : Type ℓ) : Type ℓ where
  ok : A → ParseResult A
  need_more : ParseResult A
  failed : Bytes → ParseResult A

pub record ParserOptions : Type 0 where
  pub max_request_bytes : ℕ
  pub max_array_elements : ℕ
  pub max_bulk_bytes : ℕ

pub record Parser : Type 0 where
  pub options : ParserOptions
  pub buffer : Bytes
