-- ===== src/Storage/Messages.antt =====
-- `storage_write_error` of src/storage/storage_engine.cpp.
use velox_db.Prelude.{Bytes, codes}
use velox_db.Storage.Types.{
  WriteCode, ok, not_set, no_memory, key_too_large, value_too_large, invalid_integer, overflow,
}

unfoldable pub storage_write_error : WriteCode → Bytes
storage_write_error ok = codes "OK"
storage_write_error not_set = codes "condition not met"
storage_write_error no_memory = codes "OOM command not allowed when used_memory exceeds maxmemory"
storage_write_error key_too_large = codes "key exceeds configured maximum size"
storage_write_error value_too_large = codes "value exceeds configured maximum size"
storage_write_error invalid_integer = codes "value is not an integer or out of range"
storage_write_error overflow = codes "increment or decrement would overflow"
