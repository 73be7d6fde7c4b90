-- ===== src/Storage/Held.antt =====
-- The operations of src/storage/storage_engine.cpp on one key, as they run while the lock of the
-- key's shard is held: on the shard and the two counters of the engine.
pub mod Live
pub mod Accounting
pub mod Balance
pub mod Frame
pub mod Effect
pub mod Counter
pub mod Expiry
use velox_db.Prelude.{
  ℕ, suc, ◌+◌, ◌-◌, ◌%◌, ◌^◌, Bytes, codes, [], ◌∷◌, ◌++◌, Option, none, some, Bool, true, false,
  ◌&&◌, ◌||◌, not, length, ltb, leb, ◌==◌, if◌then◌else◌, is_some, ℤ, pos, negsuc, pos_part,
  neg_part, ◌+ℤ◌, ◌-ℤ◌, leb_ℤ, ltb_ℤ, max_i64, scale, quotient,
}
use velox_db.Util.Decimal.{from_chars_i64, to_string_i64}
use velox_db.Config.Types.{ProtocolConfig}
use velox_db.Storage.Types.{
  TimePoint, Entry, Table, Tick, SetCondition, always, nx, xx, WriteCode, WriteResult, ok, not_set,
  no_memory, key_too_large, value_too_large, invalid_integer, overflow, TtlResult, missing,
  no_expiry, has_expiry,
}
use velox_db.Storage.Time.{ticks_per_ms, after_ms, add_size, sub_size, size_mod}
use velox_db.Storage.Table.{find, erase, put, expired, expired_by, entry_memory, entry_weight}

-- The fields of the shard, and `used_memory_` and `expired_keys_` of the engine.
pub record Held : Type 0 where
  pub map : Table
  pub memory_bytes : ℕ
  pub expire_cursor : ℕ
  pub used_memory : ℕ
  pub expired_keys : ℕ

-- The compare-and-exchange loop of `reserve_memory`, as one atomic step; `none` is its `false`.
unfoldable pub reserve_memory : (max used bytes : ℕ) → Option ℕ
reserve_memory max used bytes =
    if bytes == 0 || max == 0
    then some used
    else if ltb max used || ltb (max - used) bytes
    then none
    else some (used + bytes)

unfoldable pub release_memory : (used bytes : ℕ) → ℕ
release_memory used bytes =
    if bytes == 0
    then used
    else if used == 0
    then used
    else if ltb used bytes
    then 0
    else used - bytes

unfoldable pub count_expired : Held → Held
count_expired h = record h { expired_keys = add_size h.expired_keys 1 }

-- The counters without an entry of that key and value.
unfoldable pub forget_memory : Held → Bytes → Bytes → Held
forget_memory h k v = record h {
  used_memory = release_memory h.used_memory (entry_memory k v);
  memory_bytes = sub_size h.memory_bytes (entry_memory k v);
}

unfoldable pub erase_entry_locked : Held → Bytes → Entry → Held
unfolding forget_memory erase
erase_entry_locked h k e = record (forget_memory h k e.value) { map = erase k h.map }

-- The entry of a key by `find` and `expired`: one that has expired is erased and counted.
evict_if : Bytes → TimePoint → Option Entry → Held → Option Entry × Held
unfolding erase_entry_locked count_expired expired_by
evict_if k now none h = (none, h)
evict_if k now (some e) h =
    if expired e now then (none, count_expired (erase_entry_locked h k e)) else (some e, h)

unfoldable pub find_live : Bytes → TimePoint → Held → Option Entry × Held
unfolding evict_if find
find_live k now h = evict_if k now (find k h.map) h

-- `erase_if_expired_locked`; the result is not used by its caller.
unfoldable pub erase_if_expired_locked : Bytes → TimePoint → Held → Held
unfolding find_live
erase_if_expired_locked k now h = (find_live k now h).1

unfoldable pub key_valid : ProtocolConfig → Bytes → Bool
key_valid limits key = leb (length key) limits.max_key_size

unfoldable pub value_valid : ProtocolConfig → Bytes → Bool
value_valid limits value = leb (length value) limits.max_value_size

-- ++version
abbrev pub next_version : Option Entry → ℕ
next_version none = 1
next_version (some e) = (e.version + 1) % size_mod

-- Reserving the difference where the new entry is larger; `none` where that is refused.
unfoldable pub reserved : (max old new used : ℕ) → Option ℕ
reserved max old new used = if ltb old new then reserve_memory max used (new - old) else some used

-- Giving back what was reserved, in the handler of an allocation that threw.
unfoldable pub unreserved : (old new used : ℕ) → ℕ
unreserved old new used = if ltb old new then release_memory used (new - old) else used

-- Releasing the difference where the new entry is smaller.
unfoldable pub released : (old new used : ℕ) → ℕ
released old new used = if ltb new old then release_memory used (old - new) else used

-- The body of `try` and the release behind it, or the handler.
unfoldable pub write_reserved : Bytes → Entry → (old new used : ℕ) → Bool → Held → WriteCode × Held
unfolding put
write_reserved k e old new used false h =
    (no_memory, record h { used_memory = unreserved old new used })
write_reserved k e old new used true h = (
  ok,
  record h {
    map = put k e h.map;
    memory_bytes = add_size (sub_size h.memory_bytes old) new;
    used_memory = released old new used;
  },
)

unfoldable pub write_if : Bytes → Entry → (old new : ℕ) → Bool → Held → Option ℕ → WriteCode × Held
unfolding write_reserved
write_if k e old new alloc h none = (no_memory, h)
write_if k e old new alloc h (some used) = write_reserved k e old new used alloc h

abbrev pub new_entry : TimePoint → Option Entry → Bytes → Option TimePoint → Entry
new_entry now old value expiry = record {
  value = value;
  expiry = expiry;
  version = next_version old;
  last_access = now;
}

-- The end that `set`, `incr_by` and `append` share: accounting, and the write under `try`.
unfoldable pub write_entry :
    ℕ → Tick → Bytes → Option Entry → Bytes → Option TimePoint → Held → WriteCode × Held
unfolding write_if
write_entry max t k old value expiry h =
    write_if k (new_entry t.now old value expiry) (entry_weight k old) (entry_memory k value)
      t.alloc h (reserved max (entry_weight k old) (entry_memory k value) h.used_memory)

abbrev pub expiry_after : TimePoint → Option ℤ → Option TimePoint
expiry_after now none = none
expiry_after now (some ttl) = some (after_ms now ttl)

-- Whether the condition of SET refuses the write.
unfoldable pub refuses : SetCondition → Bool → Bool
refuses always exists = false
refuses nx exists = exists
refuses xx exists = not exists

pub with_integer : ℤ → WriteCode × Held → WriteResult × Held
with_integer n (ok, h) = (record { code = ok; integer = n }, h)
with_integer n (code, h) = (record { code = code; integer = pos 0 }, h)

abbrev pub refused : WriteCode → WriteResult
refused code = record { code = code; integer = pos 0 }

set_found :
    ℕ → Tick → Bytes → Bytes → Option ℤ → SetCondition → Option Entry → Held → WriteResult × Held
unfolding write_entry refuses with_integer after_ms
set_found max t key value ttl condition old h =
    if refuses condition (is_some old)
    then (refused not_set, h)
    else with_integer (pos 0) (write_entry max t key old value (expiry_after t.now ttl) h)

-- `set` behind the checks of the sizes.
unfoldable pub set_locked :
    ℕ → Tick → Bytes → Bytes → Option ℤ → SetCondition → Held → WriteResult × Held
unfolding set_found erase_if_expired_locked find
set_locked max t key value ttl condition h =
    let h' = erase_if_expired_locked key t.now h in
    set_found max t key value ttl condition (find key h'.map) h'

touch : Bytes → TimePoint → Option Entry × Held → Option Bytes × Held
unfolding put
touch k now (none, h) = (none, h)
touch k now (some e, h) =
    (some e.value, record h { map = put k (record e { last_access = now }) h.map })

unfoldable pub get_locked : Bytes → TimePoint → Held → Option Bytes × Held
unfolding touch find_live
get_locked k now h = touch k now (find_live k now h)

remove_found : Bytes → Option Entry × Held → ℕ × Held
unfolding erase_entry_locked
remove_found k (none, h) = (0, h)
remove_found k (some e, h) = (1, erase_entry_locked h k e)

unfoldable pub del_locked : Bytes → TimePoint → Held → ℕ × Held
unfolding remove_found find_live
del_locked k now h = remove_found k (find_live k now h)

-- The value that a counter starts from: 0 for a missing key, `none` for a text that is no integer.
unfoldable pub current_of : Option Entry → Option ℤ
unfolding from_chars_i64
current_of none = some (pos 0)
current_of (some e) = from_chars_i64 e.value

-- The guard of `incr_by`: `max() - delta` and `min() - delta` do not overflow on their branches.
unfoldable pub overflows : (current delta : ℤ) → Bool
unfolding ◌-ℤ◌
overflows current delta =
    (ltb_ℤ (pos 0) delta && ltb_ℤ (pos max_i64 -ℤ delta) current)
    || (ltb_ℤ delta (pos 0) && ltb_ℤ current (negsuc max_i64 -ℤ delta))

incr_from :
    ℕ → ProtocolConfig → Tick → Bytes → ℤ → Option Entry → Held → Option ℤ → WriteResult × Held
unfolding overflows ◌+ℤ◌ to_string_i64 value_valid write_entry with_integer
incr_from max limits t key delta old h none = (refused invalid_integer, h)
incr_from max limits t key delta old h (some current) =
    if overflows current delta
    then (refused overflow, h)
    else if value_valid limits (to_string_i64 (current +ℤ delta))
    then with_integer (current +ℤ delta)
        (write_entry max t key old (to_string_i64 (current +ℤ delta)) none h)
    else (refused value_too_large, h)

unfoldable pub incr_by_locked : ℕ → ProtocolConfig → Tick → Bytes → ℤ → Held → WriteResult × Held
unfolding incr_from current_of find_live
incr_by_locked max limits t key delta h =
    let (old, h') = find_live key t.now h in
    incr_from max limits t key delta old h' (current_of old)

abbrev pub value_of : Option Entry → Bytes
value_of none = []
value_of (some e) = e.value

append_to : ℕ → ProtocolConfig → Tick → Bytes → Bytes → Option Entry → Held → WriteResult × Held
unfolding value_valid write_entry with_integer
append_to max limits t key next_value old h =
    if value_valid limits next_value
    then with_integer (pos (length next_value)) (write_entry max t key old next_value none h)
    else (refused value_too_large, h)

unfoldable pub append_locked : ℕ → ProtocolConfig → Tick → Bytes → Bytes → Held → WriteResult × Held
unfolding append_to find_live
append_locked max limits t key suffix h =
    let (old, h') = find_live key t.now h in
    append_to max limits t key (value_of old ++ suffix) old h'

with_expiry : Bytes → TimePoint → TimePoint → Option Entry × Held → Bool × Held
unfolding erase_entry_locked count_expired put
with_expiry k now at (none, h) = (false, h)
with_expiry k now at (some e, h) =
    if leb_ℤ at now then (true, count_expired (erase_entry_locked h k e)) else (
      true,
      record h {
        map = put k (record e { expiry = some at; version = next_version (some e) }) h.map;
      },
    )

unfoldable pub expire_at_locked : Bytes → TimePoint → TimePoint → Held → Bool × Held
unfolding with_expiry find_live
expire_at_locked k at now h = with_expiry k now at (find_live k now h)

pub remaining_of : TimePoint → Option TimePoint → TtlResult
unfolding quotient ◌-ℤ◌
remaining_of now none = no_expiry
remaining_of now (some at) =
    let remaining = quotient (at -ℤ now) ticks_per_ms in
    has_expiry (if ltb_ℤ (pos 0) remaining then remaining else pos 0)

ttl_of : TimePoint → Option Entry → TtlResult
unfolding remaining_of
ttl_of now none = missing
ttl_of now (some e) = remaining_of now e.expiry

unfoldable pub ttl_locked : Bytes → TimePoint → Held → TtlResult × Held
unfolding ttl_of find_live
ttl_locked k now h = let (found, h') = find_live k now h in (ttl_of now found, h')

without_expiry : Bytes → Option TimePoint → Entry → Held → Bool × Held
unfolding put
without_expiry k none e h = (false, h)
without_expiry k (some at) e h = (
  true,
  record h { map = put k (record e { expiry = none; version = next_version (some e) }) h.map },
)

persist_found : Bytes → Option Entry × Held → Bool × Held
unfolding without_expiry
persist_found k (none, h) = (false, h)
persist_found k (some e, h) = without_expiry k e.expiry e h

unfoldable pub persist_locked : Bytes → TimePoint → Held → Bool × Held
unfolding persist_found find_live
persist_locked k now h = persist_found k (find_live k now h)
