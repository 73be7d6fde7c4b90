-- ===== src/Util/LogLevel.antt =====
-- The levels of src/util/logger.cpp: their names, and which messages a level lets through.
use velox_db.Prelude.{
  ℕ, Bytes, codes, Bool, true, false, ◌&&◌, ◌||◌, not, leb, bytes_eq, if◌then◌else◌, ◌≡◌, refl,
}
use velox_db.Util.Text.{to_lower_ascii}

pub data LogLevel : Type 0 where
  trace debug info warn error off : LogLevel

-- `static_cast<int>`
abbrev pub rank : LogLevel → ℕ
rank trace = 0
rank debug = 1
rank info = 2
rank warn = 3
rank error = 4
rank off = 5

is_off : LogLevel → Bool
is_off off = true
is_off _ = false

-- `Logger::enabled`, of the level that is set and the level of a message.
unfoldable pub enabled : (set_ message : LogLevel) → Bool
unfolding is_off
enabled set_ message = leb (rank set_) (rank message) && not (is_off message)

level_of : Bytes → LogLevel
unfolding bytes_eq
level_of lower =
    if bytes_eq lower (codes "trace")
    then trace
    else if bytes_eq lower (codes "debug")
    then debug
    else if bytes_eq lower (codes "warn") || bytes_eq lower (codes "warning")
    then warn
    else if bytes_eq lower (codes "error")
    then error
    else if bytes_eq lower (codes "off")
    then off
    else info

unfoldable pub parse_log_level : Bytes → LogLevel
unfolding level_of to_lower_ascii
parse_log_level value = level_of (to_lower_ascii value)

unfoldable pub log_level_name : LogLevel → Bytes
log_level_name trace = codes "trace"
log_level_name debug = codes "debug"
log_level_name info = codes "info"
log_level_name warn = codes "warn"
log_level_name error = codes "error"
log_level_name off = codes "off"

-- Reading the name of a level gives the level back.
pub parse_log_level-log_level_name : (l : LogLevel) → parse_log_level (log_level_name l) ≡ l
unfolding parse_log_level log_level_name
parse_log_level-log_level_name trace = refl
parse_log_level-log_level_name debug = refl
parse_log_level-log_level_name info = refl
parse_log_level-log_level_name warn = refl
parse_log_level-log_level_name error = refl
parse_log_level-log_level_name off = refl
