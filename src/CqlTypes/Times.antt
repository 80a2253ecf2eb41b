-- ===== src/CqlTypes/Times.antt =====
-- What a `CqlTime` accepts, and its fields.
use python_rs_driver.Common.{ℕ, ◌+◌, ◌*◌, ◌/◌, ◌%◌, ◌<◌, ◌≡◌, refl, arith}
use python_rs_driver.Common.Python.{ok}
use python_rs_driver.CqlTypes.{
  ℤ, pos, new_time, div, rem, hour, minute, second, nanosecond, nanos_per_day, nanos_per_second,
}

-- The fields of a time and what they add up to.
pub record IsClock (t : ℤ) (n : ℕ) : Type 0 where
  pub h : ℕ
  pub m : ℕ
  pub s : ℕ
  pub ns : ℕ
  pub hour_eq : hour t ≡ pos h
  pub minute_eq : minute t ≡ pos m
  pub second_eq : second t ≡ pos s
  pub nanosecond_eq : nanosecond t ≡ pos ns
  pub in_range : (h < 24) × (m < 60) × (s < 60) × (ns < nanos_per_second)
  pub sum : ((h * 60 + m) * 60 + s) * nanos_per_second + ns ≡ n

-- A time of fewer nanoseconds than a day is accepted, and its hour, minute, second and nanosecond
-- are in their ranges and add up to it.
pub new_time-IsClock :
    (n : ℕ) → n < nanos_per_day → (new_time (pos n) ≡ ok (pos n)) × IsClock (pos n) n
unfolding new_time hour minute second nanosecond div rem
new_time-IsClock n h = (
  ground arith,
  record {
    h = n / (60 * 60 * nanos_per_second);
    m = n / (60 * nanos_per_second) % 60;
    s = n / nanos_per_second % 60;
    ns = n % nanos_per_second;
    hour_eq = refl;
    minute_eq = refl;
    second_eq = refl;
    nanosecond_eq = refl;
    in_range = (omega arith, omega arith, omega arith, omega arith);
    sum = omega arith;
  },
)
