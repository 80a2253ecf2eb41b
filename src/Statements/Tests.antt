-- ===== src/Statements/Tests.antt =====
-- Statements whose configuration is all there is to them.
use python_rs_driver.Common.{
  ℕ, false, Option, none, some, List, [], ◌∷◌, ◌≡◌, refl, arith, ◌<◌, ltb, if◌then◌else◌,
}
use python_rs_driver.CqlTypes.{pos}
use python_rs_driver.Statements.{
  unset, set_to, quorum, Duration, max_duration, Config, Configurable, IsConfigurable, Seconds,
  StatementOptions, PyStatementSettings,
}
use python_rs_driver.Statements.Options.{new_options}
use python_rs_driver.Statements.Spec.{
  to_consistency, to_serial_consistency, to_request_timeout, to_page_size, Change, shown,
  change_all, all_shown_after, change_all-shown,
}

abbrev pub configs : Configurable Config
configs = record {
  config = λ c. c;
  set_consistency = λ v c. record c { consistency = some v };
  unset_consistency = λ c. record c { consistency = none };
  set_serial_consistency = λ v c. record c { serial_consistency = v };
  unset_serial_consistency = λ c. record c { serial_consistency = none };
  set_request_timeout = λ v c. record c { request_timeout = v };
  set_is_idempotent = λ v c. record c { is_idempotent = v };
  set_tracing = λ v c. record c { tracing = v };
  set_retry_policy = λ v c. record c { retry_policy = v };
  set_load_balancing_policy = λ v c. record c { load_balancing_policy = v };
  set_execution_profile_handle = λ v c. record c { execution_profile_handle = v };
  set_page_size = λ v c. record c { page_size = v };
}

pub configs-IsConfigurable : IsConfigurable configs
configs-IsConfigurable = record {
  consistency_set = λ v s. refl;
  consistency_unset = λ s. refl;
  serial_set = λ v s. refl;
  serial_unset = λ s. refl;
  timeout_set = λ v s. refl;
  idempotent_set = λ v s. refl;
  tracing_set = λ v s. refl;
  retry_set = λ v s. refl;
  load_balancing_set = λ v s. refl;
  profile_set = λ v s. refl;
  page_size_set = λ v s. refl;
}

abbrev pub fresh : Config
fresh = record {
  consistency = none;
  serial_consistency = none;
  request_timeout = none;
  is_idempotent = false;
  tracing = false;
  retry_policy = none;
  load_balancing_policy = none;
  execution_profile_handle = none;
  page_size = 5000;
}

abbrev from_secs : ℕ → Option Duration
from_secs s = if ltb s max_duration then some s else none

pub from_secs-below : (s : ℕ) (d : Duration) → from_secs s ≡ some d → d < max_duration
from_secs-below s d h = ground arith

-- Floats that count nanoseconds.
abbrev pub seconds : Seconds
seconds = record {
  try_from_secs_f64 = from_secs;
  as_secs_f64 = λ d. d;
  below_max = from_secs-below;
}

abbrev pub no_py_settings : PyStatementSettings
no_py_settings = record {
  execution_profile = none;
  load_balancing_policy = none;
  retry_policy = none;
  row_factory = none;
}

abbrev options : StatementOptions Config
options = new_options fresh false no_py_settings

abbrev changes : List Change
changes =
    to_serial_consistency (set_to none)
    ∷ to_request_timeout (set_to none)
    ∷ to_consistency (set_to quorum)
    ∷ to_page_size (pos 0)
    ∷ to_consistency unset
    ∷ []

change_all-shown_example :
    shown seconds configs (change_all seconds configs changes options)
    ≡ all_shown_after seconds changes (shown seconds configs options)
change_all-shown_example = change_all-shown seconds configs configs-IsConfigurable changes options
