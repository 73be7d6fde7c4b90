-- ===== src/Config/Values.antt =====
-- The text helpers at the top of src/config/config.cpp and the setters, which parse a value into a
-- field or leave the field alone and say what is wrong.
pub mod Bounds
pub mod Texts
use velox_db.Prelude.{
  ℕ, zero, suc, ◌+◌, ◌-◌, ◌^◌, ◌≤◌, Bool, true, false, not, ◌&&◌, Option, none, some, [], ◌∷◌, ◌++◌,
  Bytes, codes, length, get_or, take, drop, ltb, leb, ◌==◌, if◌then◌else◌, ◌≡◌, refl, arith,
}
use velox_db.Util.Status.{Code, Status, ok_status, fail_with}
use velox_db.Util.Text.{trim}
use velox_db.Util.Parse.{parse_u64, parse_bool, parse_byte_size}
use velox_db.Config.Types.{Config}

-- `front()` and `back()` of a text that is not empty.
abbrev pub front : Bytes → ℕ
front value = get_or value 0 0

abbrev pub back : Bytes → ℕ
back value = get_or value (length value - 1) 0

-- `find` of one byte.
unfoldable pub find_byte : ℕ → Bytes → Option ℕ
find_byte wanted [] = none
find_byte wanted (c ∷ s) =
    if c == wanted
    then some 0
    else elim (find_byte wanted s) [ none ↦ none | some i ↦ some (suc i) ]

unquoted : Bytes → Bytes
unquoted value =
    if leb 2 (length value) && front value == b'"' && back value == b'"'
    then take (length value - 2) (drop 1 value)
    else value

unfoldable pub strip_quotes : Bytes → Bytes
unfolding unquoted trim
strip_quotes value = unquoted (trim value)

-- The loop of `remove_comment`, `in_string` before the first byte.
comment_loop : Bool → Bytes → Bytes
comment_loop in_string [] = []
comment_loop in_string (c ∷ s) =
    let quoted = if c == b'"' then not in_string else in_string in
    let rest = c ∷ comment_loop quoted s in if not quoted && c == b'#' then [] else rest

unfoldable pub remove_comment : Bytes → Bytes
unfolding comment_loop
remove_comment line = comment_loop false line

-- What a failing call says, and the state that it leaves.
abbrev pub Outcome : Type 0 → Type 0
Outcome A = Status × A

abbrev pub invalid : Bytes → Status
invalid message = fail_with Code.invalid_argument message

abbrev pub max_u16 : ℕ
max_u16 = 2 ^ 16 - 1

-- The parsed value where there is one within the bound of the field's type.
assign : {A : Type 0} → Option A → Bytes → A → Outcome A
assign none message out = (invalid message, out)
assign (some value) message out = (ok_status, value)

within : ℕ → Option ℕ → Option ℕ
within bound none = none
within bound (some n) = if ltb bound n then none else some n

unfoldable pub set_u16 : ℕ → Bytes → Bytes → Outcome ℕ
unfolding assign within parse_u64
set_u16 out value name =
    assign (within max_u16 (parse_u64 value)) (codes "invalid uint16 value for " ++ name) out

-- A `size_t` has 64 bits.
unfoldable pub set_size : ℕ → Bytes → Bytes → Outcome ℕ
unfolding assign within parse_u64
set_size out value name =
    assign (within (2 ^ 64 - 1) (parse_u64 value)) (codes "invalid size value for " ++ name) out

unfoldable pub set_bool : Bool → Bytes → Bytes → Outcome Bool
unfolding assign parse_bool
set_bool out value name = assign (parse_bool value) (codes "invalid bool value for " ++ name) out

unfoldable pub set_bytes : ℕ → Bytes → Bytes → Outcome ℕ
unfolding assign parse_byte_size
set_bytes out value name =
    assign (parse_byte_size value) (codes "invalid byte size for " ++ name) out

quotes :
    (strip_quotes (codes " \"a b\" ") ≡ codes "a b")
    × (strip_quotes (codes "\"") ≡ codes "\"")
    × (remove_comment (codes "a=\"#\" # b") ≡ codes "a=\"#\" ")
unfolding strip_quotes remove_comment
quotes = (refl, refl, refl)
