-- ===== src/CqlTypes.antt =====
-- `CqlDate` and `CqlTime` of src/cql_types.rs: a date as days around the epoch at 2^31, and a time of
-- day in nanoseconds. Machine integers are mathematical ones with the wrap-around written out.
pub mod Dates
pub mod Times
pub mod Tests
use python_rs_driver.Common.{
  ℕ, zero, suc, Bool, true, false, ◌+◌, ◌-◌, ◌*◌, ◌/◌, ◌%◌, ◌^◌, ltb, if◌then◌else◌,
}
use python_rs_driver.Common.Python.{PyErr, PyResult, ok, err, value_error}

-- A signed integer: `negsuc n` is -(n + 1).
pub data ℤ : Type 0 where
  pos negsuc : ℕ → ℤ

-- `as u32` of an `i32`, and `as i32` of a `u32`.
unfoldable pub as_u32 : ℤ → ℕ
as_u32 (pos n) = n % 2 ^ 32
as_u32 (negsuc n) = 2 ^ 32 - 1 - n % 2 ^ 32

unfoldable pub as_i32 : ℕ → ℤ
as_i32 u = if ltb u (2 ^ 31) then pos u else negsuc (2 ^ 32 - 1 - u)

-- `CQL_DATE_EPOCH`.
abbrev pub cql_date_epoch : ℕ
cql_date_epoch = 2 ^ 31

unfoldable pub wrapping_add : ℕ → ℕ → ℕ
wrapping_add a b = (a + b) % 2 ^ 32

unfoldable pub wrapping_sub : ℕ → ℕ → ℕ
wrapping_sub a b = (a + (2 ^ 32 - b)) % 2 ^ 32

-- `From<CqlDate>` and its inverse: the days of a date on the wire.
unfoldable pub days_of : ℕ → ℤ
unfolding as_i32 wrapping_sub
days_of date = as_i32 (wrapping_sub date cql_date_epoch)

unfoldable pub date_of : ℤ → ℕ
unfolding as_u32 wrapping_add
date_of days = wrapping_add (as_u32 days) cql_date_epoch

abbrev pub nanos_per_second : ℕ
nanos_per_second = 1000000000

abbrev pub nanos_per_day : ℕ
nanos_per_day = 24 * 60 * 60 * nanos_per_second

-- Division of an `i64` by a positive number truncates, and the remainder has the dividend's sign.
abbrev pub negated : ℕ → ℤ
negated zero = pos 0
negated (suc n) = negsuc n

unfoldable pub div : ℤ → ℕ → ℤ
div (pos n) k = pos (n / k)
div (negsuc n) k = negated (suc n / k)

unfoldable pub rem : ℤ → ℕ → ℤ
rem (pos n) k = pos (n % k)
rem (negsuc n) k = negated (suc n % k)

-- `PyCqlTime::new`, with the nanoseconds that it keeps.
unfoldable pub new_time : ℤ → PyResult ℤ
new_time (pos n) = if ltb n nanos_per_day then ok (pos n) else err value_error
new_time (negsuc n) = err value_error

unfoldable pub hour : ℤ → ℤ
unfolding div
hour t = div t (60 * 60 * nanos_per_second)

unfoldable pub minute : ℤ → ℤ
unfolding div rem
minute t = rem (div t (60 * nanos_per_second)) 60

unfoldable pub second : ℤ → ℤ
unfolding div rem
second t = rem (div t nanos_per_second) 60

unfoldable pub nanosecond : ℤ → ℤ
unfolding rem
nanosecond t = rem t nanos_per_second
