-- ===== src/LegacySession/Requests.antt =====
-- src/legacy/session.rs: `execute_async`, and what it configures on the way.
use python_rs_driver.Common.{Bool, true, Option, none, some, ◌==◌, if◌then◌else◌}
use python_rs_driver.Values.Rows.{empty}
use python_rs_driver.Statements.{
  Consistency, SerialConsistency, Duration, max_duration, F64, RowFactory, WithOriginalPyObject,
  PyExecutionProfile, or_of, extracted_of, row_factory,
}
use python_rs_driver.Statements.Options.{original_of}
use python_rs_driver.Statements.Executable.{Library}
use python_rs_driver.LegacySession.{
  LegacyQuery, batch, statement, duration, FetchSize, driver, unpaged, rows, LegacyDefaults,
  ConfigMode, legacy, SessionSettings, set_request_timeout, set_tracing,
  set_execution_profile_handle, set_target, set_consistency, set_serial_consistency,
  is_page_size_set, is_serial_consistency_set, apply_default_page_size, request_timeout,
  consistency, execution_profile_handle,
}
use python_rs_driver.LegacySession.Session.{
  accepted, refused, ◌>>=◌, ◌>>◌, batch_request, error_if_present, reject_if_shutdown, with_some,
  unless_some, unwrap_or, choose_row_factory, core_execute, batch_checked, Outcome, Env,
  PyLegacySession, Arguments, Request, Spawned, profile_with_legacy_parameters,
}

module _ {P S B : Type 0} (lib : Library P S B) where
  abbrev pub default_timeout : Option Duration → LegacyQuery P S B → LegacyQuery P S B
  default_timeout d q =
      with_some (λ v. unless_some (request_timeout lib q) (set_request_timeout lib v)) d q

  abbrev pub default_consistency : Option Consistency → LegacyQuery P S B → LegacyQuery P S B
  default_consistency c q =
      with_some (λ v. unless_some (consistency lib q) (set_consistency lib v)) c q

  abbrev pub default_serial_consistency :
      Option (Option SerialConsistency) → LegacyQuery P S B → LegacyQuery P S B
  default_serial_consistency c q =
      with_some
        (λ v q. if is_serial_consistency_set lib q then q else set_serial_consistency lib v q) c q

  unfoldable pub apply_defaults : LegacyDefaults → LegacyQuery P S B → LegacyQuery P S B
  unfolding duration
  apply_defaults d q =
      default_serial_consistency d.serial_consistency
        (default_consistency d.consistency (default_timeout (duration d.timeout) q))

  -- The query with the session's mode applied, and the row factory.
  unfoldable pub configure_mode :
      ConfigMode
      → Option PyExecutionProfile
      → LegacyQuery P S B
      → Outcome (LegacyQuery P S B × Option (WithOriginalPyObject RowFactory))
  unfolding apply_defaults
  configure_mode (legacy d) (some p) q = refused profile_with_legacy_parameters
  configure_mode (legacy d) none q = accepted (apply_defaults d q, d.row_factory)
  configure_mode mode (some p) q =
      accepted (set_execution_profile_handle lib p.inner q, p.row_factory)
  configure_mode mode none q = accepted (q, none)

  -- The query with the page size applied, and whether it pages.
  unfoldable pub configure_paging : FetchSize → LegacyQuery P S B → LegacyQuery P S B × Bool
  configure_paging driver q = (q, true)
  configure_paging (rows n) q = (apply_default_page_size lib n q, true)
  configure_paging unpaged q = (q, is_page_size_set lib q)

  unfoldable pub configure_request :
      SessionSettings
      → Option PyExecutionProfile
      → LegacyQuery P S B
      → Outcome (LegacyQuery P S B × Option (WithOriginalPyObject RowFactory) × Bool)
  unfolding configure_mode configure_paging
  configure_request s profile q = configure_mode s.mode profile q >>= λ (q', factory).
      let paging = configure_paging s.fetch_size q' in accepted (paging.0, factory, paging.1)

  -- The part of `execute_async` that makes the query that is sent, on a copy of the one given.
  unfoldable pub configured :
      PyLegacySession
      → Arguments
      → LegacyQuery P S B
      → Outcome (LegacyQuery P S B × Option (WithOriginalPyObject RowFactory) × Bool)
  unfolding configure_request duration
  configured s args q =
      configure_request s.settings args.execution_profile
        (with_some (set_request_timeout lib) (duration args.timeout) q)
      >>= λ (q', factory, paged). accepted (
        with_some (set_target lib) args.host (with_some (set_tracing lib) args.trace q'),
        factory,
        paged,
      )

  abbrev unless_max : Option Duration → Option Duration
  unless_max none = none
  unless_max (some d) = if d == max_duration then none else some d

  unfoldable pub effective_timeout : Env P → LegacyQuery P S B → Option Duration
  effective_timeout env q = unless_max (
      or_of (request_timeout lib q) (
        env.profile_request_timeout
          (unwrap_or (execution_profile_handle lib q) env.default_profile)))

  unfoldable pub request_of :
      Env P
      → PyLegacySession
      → Arguments
      → LegacyQuery P S B
      → Option RowFactory
      → Bool
      → Outcome (Request P S B)
  unfolding row_factory core_execute
  request_of env s args (batch b) explicit paged =
      batch_checked args
        (batch_request b (choose_row_factory env s explicit (row_factory b.options.settings)))
  request_of env s args (statement e) explicit paged =
      core_execute env s e (unwrap_or args.parameters empty) explicit args.paging_state paged

  abbrev secs_of : Env P → Option Duration → Option F64
  secs_of env none = none
  secs_of env (some d) = some (env.seconds.as_secs_f64 d)

  -- `execute_async`, up to spawning the future.
  unfoldable pub execute_async :
      Env P → PyLegacySession → Arguments → LegacyQuery P S B → Outcome (Spawned P S B)
  unfolding configured request_of effective_timeout
  execute_async env s args q =
      error_if_present args.custom_payload
      >> (error_if_present args.execute_as
          >> (reject_if_shutdown s
              >> (configured s args q >>= λ (q', factory, paged).
                  request_of env s args q' (extracted_of factory) paged >>= λ request.
                  accepted (record {
                    request = request;
                    query = q;
                    timeout_secs = secs_of env (effective_timeout env q');
                    row_factory = original_of factory;
                  }))))
