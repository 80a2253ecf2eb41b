-- ===== src/LegacySession/Settings.antt =====
-- src/legacy/session.rs: the operations on the session's settings, its shutdown, and the blocking
-- requests beside `execute_async`.
use python_rs_driver.Common.{ℕ, Bool, true, false, Option, none, some}
use python_rs_driver.Common.Python.{Obj}
use python_rs_driver.CqlTypes.{ℤ}
use python_rs_driver.Statements.{
  MaybeUnset, unset, set_to, Consistency, SerialConsistency, Duration, F64, RowFactory,
  WithOriginalPyObject,
}
use python_rs_driver.Statements.Options.{original_of, page_size_argument, extract_i32}
use python_rs_driver.LegacySession.{
  RequestTimeout, default, never, after, FetchSize, driver, unpaged, rows, LegacyDefaults,
  ConfigMode, uncommitted, profiles, legacy,
}
use python_rs_driver.LegacySession.Session.{
  Outcome, accepted, refused, library_failed, defaults_with_profiles, Refusal,
  fetch_size_not_positive, argument_out_of_range, ◌>>◌, Env, PyLegacySession, error_if_present,
  reject_if_shutdown,
}

-- `LegacyDefaults::default`.
abbrev pub no_defaults : LegacyDefaults
no_defaults = record {
  row_factory = none;
  timeout = default;
  consistency = none;
  serial_consistency = none;
}

-- `legacy_defaults_mut`, and the assignment through what it returns.
unfoldable pub set_legacy_defaults :
    (LegacyDefaults → LegacyDefaults) → ConfigMode → ConfigMode × Outcome (Unit {0})
set_legacy_defaults f (legacy d) = (legacy (f d), accepted tt)
set_legacy_defaults f uncommitted = (legacy (f no_defaults), accepted tt)
set_legacy_defaults f profiles = (profiles, refused defaults_with_profiles)

abbrev set_default :
    (LegacyDefaults → LegacyDefaults) → PyLegacySession → PyLegacySession × Outcome (Unit {0})
set_default f s =
    let set = set_legacy_defaults f s.settings.mode in
    (record s { settings = record s.settings { mode = set.0 } }, set.1)

unfoldable pub set_row_factory :
    Option (WithOriginalPyObject RowFactory)
    → PyLegacySession
    → PyLegacySession × Outcome (Unit {0})
unfolding set_legacy_defaults
set_row_factory factory s = set_default (λ d. record d { row_factory = factory }) s

unfoldable pub set_default_timeout :
    RequestTimeout → PyLegacySession → PyLegacySession × Outcome (Unit {0})
unfolding set_legacy_defaults
set_default_timeout timeout s = set_default (λ d. record d { timeout = timeout }) s

abbrev pub option_of {ℓ} : {A : Type ℓ} → MaybeUnset A → Option A
option_of unset = none
option_of (set_to a) = some a

unfoldable pub set_default_consistency_level :
    MaybeUnset Consistency → PyLegacySession → PyLegacySession × Outcome (Unit {0})
unfolding set_legacy_defaults
set_default_consistency_level c s = set_default (λ d. record d { consistency = option_of c }) s

unfoldable pub set_default_serial_consistency_level :
    MaybeUnset (Option SerialConsistency) → PyLegacySession → PyLegacySession × Outcome (Unit {0})
unfolding set_legacy_defaults
set_default_serial_consistency_level c s =
    set_default (λ d. record d { serial_consistency = option_of c }) s

abbrev pub with_fetch_size :
    PyLegacySession → Refusal → Option FetchSize → PyLegacySession × Outcome (Unit {0})
with_fetch_size s refusal none = (s, refused refusal)
with_fetch_size s refusal (some f) =
    (record s { settings = record s.settings { fetch_size = f } }, accepted tt)

abbrev rows_if : Option ℕ → Option FetchSize
rows_if none = none
rows_if (some n) = some (rows n)

-- The sizes that are accepted: `None` and the positive ones.
abbrev pub fetch_size_of : Option ℤ → Option FetchSize
fetch_size_of none = some unpaged
fetch_size_of (some n) = rows_if (page_size_argument n)

-- Why a size is refused: by PyO3 before the call, if it is no `i32`.
abbrev refusal_of_extracted : Option ℤ → Refusal
refusal_of_extracted none = argument_out_of_range
refusal_of_extracted (some n) = fetch_size_not_positive

abbrev pub size_refusal : Option ℤ → Refusal
size_refusal none = fetch_size_not_positive
size_refusal (some n) = refusal_of_extracted (extract_i32 n)

unfoldable pub set_default_fetch_size :
    Option ℤ → PyLegacySession → PyLegacySession × Outcome (Unit {0})
set_default_fetch_size n s = with_fetch_size s (size_refusal n) (fetch_size_of n)

unfoldable pub shutdown : PyLegacySession → PyLegacySession
shutdown s = record s { is_shutdown = true }

-- `legacy_default`: what is read of the defaults, in the legacy mode only.
abbrev legacy_default {ℓ} : {A : Type ℓ} → (LegacyDefaults → A) → ConfigMode → Option A
legacy_default read (legacy d) = some (read d)
legacy_default read mode = none

abbrev flatten {ℓ} : {A : Type ℓ} → Option (Option A) → Option A
flatten none = none
flatten (some a) = a

abbrev unwrap_or {ℓ} : {A : Type ℓ} → Option A → A → A
unwrap_or none b = b
unwrap_or (some a) b = a

unfoldable pub get_row_factory : PyLegacySession → Option Obj
get_row_factory s = flatten (legacy_default (λ d. original_of d.row_factory) s.settings.mode)

module _ {P : Type 0} (env : Env P) where
  abbrev pub shown_fetch_size : FetchSize → Option ℕ
  shown_fetch_size driver = some env.driver_page_size
  shown_fetch_size (rows n) = some n
  shown_fetch_size unpaged = none

  unfoldable pub get_default_fetch_size : PyLegacySession → Option ℕ
  get_default_fetch_size s = shown_fetch_size s.settings.fetch_size

  abbrev timeout_of : RequestTimeout → Option Duration
  timeout_of default = env.profile_request_timeout env.default_profile
  timeout_of never = none
  timeout_of (after d) = some d

  abbrev as_seconds : Option Duration → Option F64
  as_seconds none = none
  as_seconds (some d) = some (env.seconds.as_secs_f64 d)

  abbrev pub shown_timeout : RequestTimeout → Option F64
  shown_timeout t = as_seconds (timeout_of t)

  unfoldable pub get_default_timeout : PyLegacySession → Option F64
  get_default_timeout s =
      shown_timeout (unwrap_or (legacy_default (λ d. d.timeout) s.settings.mode) default)

  unfoldable pub get_default_consistency_level : PyLegacySession → Consistency
  get_default_consistency_level s =
      unwrap_or (flatten (legacy_default (λ d. d.consistency) s.settings.mode))
        (env.profile_consistency env.default_profile)

  unfoldable pub get_default_serial_consistency_level : PyLegacySession → Option SerialConsistency
  get_default_serial_consistency_level s =
      unwrap_or (flatten (legacy_default (λ d. d.serial_consistency) s.settings.mode))
        (env.profile_serial_consistency env.default_profile)

-- `prepare` and `set_keyspace`, with what the Rust driver would answer.
unfoldable pub prepare {ℓ} :
    {A : Type ℓ} → PyLegacySession → Option Obj → Option Obj → Outcome A → Outcome A
prepare s custom_payload keyspace answer =
    error_if_present custom_payload
    >> (error_if_present keyspace >> (reject_if_shutdown s >> answer))

unfoldable pub set_keyspace {ℓ} : {A : Type ℓ} → PyLegacySession → Outcome A → Outcome A
set_keyspace s answer = reject_if_shutdown s >> answer

-- How waiting for the schema agreement ends.
pub data Agreement : Type 0 where
  agreed timed_out failed : Agreement

abbrev agreement_of : Agreement → Outcome Bool
agreement_of agreed = accepted true
agreement_of timed_out = accepted false
agreement_of failed = refused library_failed

unfoldable pub wait_for_schema_agreement : Option Obj → Option Obj → Agreement → Outcome Bool
wait_for_schema_agreement wait_time scope agreement =
    error_if_present wait_time >> (error_if_present scope >> agreement_of agreement)
