-- ===== src/CqlTypes/Tests.antt =====
-- Dates and times at concrete values.
use python_rs_driver.Common.{◌^◌, ◌<◌, ◌≡◌, arith}
use python_rs_driver.Common.Python.{ok}
use python_rs_driver.CqlTypes.{pos, negsuc, days_of, date_of, new_time}
use python_rs_driver.CqlTypes.Dates.{IsI32, days_of-date_of, date_of-days_of}
use python_rs_driver.CqlTypes.Times.{IsClock, new_time-IsClock}

-- The day before the epoch.
days_of-date_of_example : (days_of (date_of (negsuc 0)) ≡ negsuc 0) × (date_of (negsuc 0) < 2 ^ 32)
days_of-date_of_example = days_of-date_of (negsuc 0) (omega arith)

date_of-days_of_example : IsI32 (days_of 7) × (date_of (days_of 7) ≡ 7)
date_of-days_of_example = date_of-days_of 7 (omega arith)

-- 23:59:59.000000001.
new_time-IsClock_example :
    (new_time (pos 86399000000001) ≡ ok (pos 86399000000001))
    × IsClock (pos 86399000000001) 86399000000001
new_time-IsClock_example = new_time-IsClock 86399000000001 (omega arith)
