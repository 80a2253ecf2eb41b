-- ===== src/Statements/Options.antt =====
-- src/statement.rs: the operations of `StatementOptions`.
use python_rs_driver.Common.{
  ℕ, suc, Bool, true, false, Option, none, some, ◌==◌, ◌^◌, ltb, if◌then◌else◌,
}
use python_rs_driver.Common.Python.{Obj}
use python_rs_driver.CqlTypes.{ℤ, pos, negsuc}
use python_rs_driver.Statements.{
  MaybeUnset, unset, set_to, Consistency, SerialConsistency, Duration, max_duration, F64,
  RowFactory, WithOriginalPyObject, PyExecutionProfile, Configurable, Seconds, PyStatementSettings,
  extracted_of, StatementOptions,
}

abbrev pub new_options : {S : Type 0} → S → Bool → PyStatementSettings → StatementOptions S
new_options inner is_serial_consistency_set settings = record {
  inner = inner;
  is_serial_consistency_set = is_serial_consistency_set;
  is_page_size_set = false;
  settings = settings;
}

abbrev pub handle_of : Option PyExecutionProfile → Option Obj
handle_of none = none
handle_of (some p) = some p.inner

abbrev pub original_of : Option (WithOriginalPyObject Obj) → Option Obj
original_of none = none
original_of (some p) = some p.original

-- The `i32` that PyO3 takes from a Python number; `none` is its `OverflowError`, before the call.
abbrev pub extract_i32 : ℤ → Option ℤ
extract_i32 (pos n) = if ltb n (2 ^ 31) then some (pos n) else none
extract_i32 (negsuc n) = if ltb n (2 ^ 31) then some (negsuc n) else none

-- Of an `i32`.
abbrev pub check_page_size : ℤ → Option ℕ
check_page_size (pos (suc n)) = some (suc n)
check_page_size _ = none

abbrev check_extracted : Option ℤ → Option ℕ
check_extracted none = none
check_extracted (some n) = check_page_size n

-- What a page size given as a Python number is set to, if it is not refused.
abbrev pub page_size_argument : ℤ → Option ℕ
page_size_argument n = check_extracted (extract_i32 n)

module _ {S : Type 0} (c : Configurable S) where
  -- A setter returns, beside the options, the object that it replaced.
  unfoldable pub set_execution_profile :
      Option PyExecutionProfile
      → StatementOptions S
      → StatementOptions S × Option PyExecutionProfile
  set_execution_profile profile o = (
    record o {
      inner = c.set_execution_profile_handle (handle_of profile) o.inner;
      settings = record o.settings { execution_profile = profile };
    },
    o.settings.execution_profile,
  )

  unfoldable pub set_load_balancing_policy :
      Option (WithOriginalPyObject Obj) → StatementOptions S → StatementOptions S × Option Obj
  set_load_balancing_policy policy o = (
    record o {
      inner = c.set_load_balancing_policy (extracted_of policy) o.inner;
      settings = record o.settings { load_balancing_policy = original_of policy };
    },
    o.settings.load_balancing_policy,
  )

  unfoldable pub set_retry_policy :
      Option (WithOriginalPyObject Obj) → StatementOptions S → StatementOptions S × Option Obj
  set_retry_policy policy o = (
    record o {
      inner = c.set_retry_policy (extracted_of policy) o.inner;
      settings = record o.settings { retry_policy = original_of policy };
    },
    o.settings.retry_policy,
  )

  unfoldable pub set_row_factory :
      Option (WithOriginalPyObject RowFactory)
      → StatementOptions S
      → StatementOptions S × Option (WithOriginalPyObject RowFactory)
  set_row_factory factory o =
      (record o { settings = record o.settings { row_factory = factory } }, o.settings.row_factory)

  abbrev maybe_of : Option Consistency → MaybeUnset Consistency
  maybe_of (some v) = set_to v
  maybe_of none = unset

  unfoldable pub consistency : StatementOptions S → MaybeUnset Consistency
  consistency o = maybe_of (c.config o.inner).consistency

  unfoldable pub set_consistency : MaybeUnset Consistency → StatementOptions S → StatementOptions S
  set_consistency (set_to v) o = record o { inner = c.set_consistency v o.inner }
  set_consistency unset o = record o { inner = c.unset_consistency o.inner }

  unfoldable pub serial_consistency : StatementOptions S → MaybeUnset (Option SerialConsistency)
  serial_consistency o =
      if o.is_serial_consistency_set then set_to (c.config o.inner).serial_consistency else unset

  unfoldable pub set_serial_consistency :
      MaybeUnset (Option SerialConsistency) → StatementOptions S → StatementOptions S
  set_serial_consistency (set_to sc) o = record o {
    inner = c.set_serial_consistency sc o.inner;
    is_serial_consistency_set = true;
  }
  set_serial_consistency unset o = record o {
    inner = c.unset_serial_consistency o.inner;
    is_serial_consistency_set = false;
  }

  module _ (secs : Seconds) where
    abbrev timeout_shown : Option Duration → MaybeUnset (Option F64)
    timeout_shown none = unset
    timeout_shown (some t) = set_to (if t == max_duration then none else some (secs.as_secs_f64 t))

    unfoldable pub request_timeout : StatementOptions S → MaybeUnset (Option F64)
    request_timeout o = timeout_shown (c.config o.inner).request_timeout

    abbrev pub converted : Option Duration → Option (Option Duration)
    converted none = none
    converted (some d) = some (some d)

    abbrev pub timeout_to_set : MaybeUnset (Option F64) → Option (Option Duration)
    timeout_to_set unset = some none
    timeout_to_set (set_to none) = some (some max_duration)
    timeout_to_set (set_to (some s)) = converted (secs.try_from_secs_f64 s)

    abbrev pub with_timeout :
        StatementOptions S → Option (Option Duration) → Option (StatementOptions S)
    with_timeout o none = none
    with_timeout o (some t) = some (record o { inner = c.set_request_timeout t o.inner })

    -- `none` is the error of an invalid number of seconds.
    unfoldable pub set_request_timeout :
        MaybeUnset (Option F64) → StatementOptions S → Option (StatementOptions S)
    set_request_timeout timeout o = with_timeout o (timeout_to_set timeout)

  unfoldable pub set_is_idempotent : Bool → StatementOptions S → StatementOptions S
  set_is_idempotent v o = record o { inner = c.set_is_idempotent v o.inner }

  unfoldable pub set_tracing : Bool → StatementOptions S → StatementOptions S
  set_tracing v o = record o { inner = c.set_tracing v o.inner }

  abbrev pub with_page_size : StatementOptions S → Option ℕ → Option (StatementOptions S)
  with_page_size o none = none
  with_page_size o (some n) =
      some (record o { inner = c.set_page_size n o.inner; is_page_size_set = true })

  -- The setter of `page_size`; `none` is the error of a size that is not a positive `i32`.
  unfoldable pub set_page_size : ℤ → StatementOptions S → Option (StatementOptions S)
  set_page_size n o = with_page_size o (page_size_argument n)
