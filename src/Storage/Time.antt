-- ===== src/Storage/Time.antt =====
-- Time points, milliseconds and machine words in src/storage/storage_engine.cpp. A tick of the clock
-- is a nanosecond. Sums of times are taken in the integers: where `int64_t` would overflow, the
-- behaviour of the program is undefined.
use velox_db.Prelude.{ℕ, ◌+◌, ◌-◌, ◌%◌, ◌^◌, ℤ, scale, quotient, ◌+ℤ◌}
use velox_db.Storage.Types.{TimePoint}

abbrev pub ticks_per_ms : ℕ
ticks_per_ms = 1000000

unfoldable pub unix_ms : TimePoint → ℤ
unfolding quotient
unix_ms tp = quotient tp ticks_per_ms

unfoldable pub timepoint_from_unix_ms : ℤ → TimePoint
unfolding scale
timepoint_from_unix_ms milliseconds = scale milliseconds ticks_per_ms

-- A time point some milliseconds later.
unfoldable pub after_ms : TimePoint → ℤ → TimePoint
unfolding scale ◌+ℤ◌
after_ms now ms = now +ℤ scale ms ticks_per_ms

abbrev pub size_mod : ℕ
size_mod = 2 ^ 64

-- `size_t` sums and differences.
unfoldable pub add_size : ℕ → ℕ → ℕ
add_size a b = (a + b) % size_mod

unfoldable pub sub_size : ℕ → ℕ → ℕ
sub_size a b = (a + (size_mod - b % size_mod)) % size_mod
