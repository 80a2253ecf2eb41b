-- ===== src/LegacySession/Winning.antt =====
-- src/legacy/session.rs: which setting wins.
use python_rs_driver.Common.{Bool, Option, none, some, ◌≡◌, refl, ap, ◌∙◌}
use python_rs_driver.Common.Python.{Obj}
use python_rs_driver.Statements.{
  Duration, RowFactory, WithOriginalPyObject, PyExecutionProfile, or_of,
}
use python_rs_driver.Statements.Executable.{Library, IsLibrary}
use python_rs_driver.LegacySession.{
  LegacyQuery, duration, FetchSize, driver, unpaged, rows, ConfigMode, uncommitted, profiles,
  legacy, set_request_timeout, set_tracing, set_target, is_page_size_set,
}
use python_rs_driver.LegacySession.Queries.{
  seen, set_request_timeout-seen, set_tracing-seen, set_execution_profile_handle-seen,
  set_target-seen, apply_default_page_size-seen,
}
use python_rs_driver.LegacySession.Session.{
  Outcome, accepted, refused, PyLegacySession, Arguments, with_some, profile_with_legacy_parameters,
  ◌>>=◌,
}
use python_rs_driver.LegacySession.Requests.{
  configure_mode, configure_paging, configure_request, configured,
}
use python_rs_driver.LegacySession.Defaults.{or_else, apply_defaults-seen}
use python_rs_driver.LegacySession.Precedence.{
  defaults_applied, fetch_size_applied, profile_applied, timeout_applied, call_applied, pages,
  factory_of, IsConfigured, steps-config-of, defaults-page_size_is_set,
}

module _ {P S B : Type 0} (lib : Library P S B) (laws : IsLibrary lib) where
  timeout-seen :
      (d : Option Duration) (q : LegacyQuery P S B)
      → seen lib (with_some (set_request_timeout lib) d q) ≡ record (seen lib q) {
        config = record (seen lib q).config {
          request_timeout = or_of d (seen lib q).config.request_timeout;
        };
      }
  timeout-seen none q = refl
  timeout-seen (some d) q = set_request_timeout-seen lib laws d q

  trace-seen :
      (t : Option Bool) (q : LegacyQuery P S B)
      → seen lib (with_some (set_tracing lib) t q) ≡ record (seen lib q) {
        config = record (seen lib q).config { tracing = or_else t (seen lib q).config.tracing };
      }
  trace-seen none q = refl
  trace-seen (some t) q = set_tracing-seen lib laws t q

  host-seen :
      (h : Option Obj) (q : LegacyQuery P S B)
      → seen lib (with_some (set_target lib) h q) ≡ record (seen lib q) {
        config = record (seen lib q).config {
          load_balancing_policy = or_of h (seen lib q).config.load_balancing_policy;
        };
      }
  host-seen none q = refl
  host-seen (some h) q = set_target-seen lib laws h q

  call-seen :
      (args : Arguments) (q : LegacyQuery P S B)
      → seen lib (with_some (set_target lib) args.host (with_some (set_tracing lib) args.trace q))
        ≡ call_applied args (seen lib q)
  call-seen args q =
      rw (host-seen args.host (with_some (set_tracing lib) args.trace q))
        (rw (trace-seen args.trace q) refl)

  paging-seen :
      (fetch : FetchSize) (q : LegacyQuery P S B)
      → seen lib (configure_paging lib fetch q).0 ≡ fetch_size_applied fetch (seen lib q)
  unfolding configure_paging
  paging-seen driver q = refl
  paging-seen unpaged q = refl
  paging-seen (rows n) q = apply_default_page_size-seen lib laws n q

  ModeApplied :
      ConfigMode
      → Option PyExecutionProfile
      → LegacyQuery P S B
      → Outcome (LegacyQuery P S B × Option (WithOriginalPyObject RowFactory))
      → Type 0
  ModeApplied mode profile q (accepted (q', factory)) =
      (seen lib q' ≡ profile_applied profile (defaults_applied mode (seen lib q)))
      × (factory_of mode profile ≡ some factory)
  ModeApplied mode profile q (refused e) =
      (e ≡ profile_with_legacy_parameters) × (factory_of mode profile ≡ none)

  mode-ModeApplied :
      (mode : ConfigMode) (profile : Option PyExecutionProfile) (q : LegacyQuery P S B)
      → ModeApplied mode profile q (configure_mode lib mode profile q)
  unfolding ModeApplied configure_mode
  mode-ModeApplied (legacy d) (some p) q = (refl, refl)
  mode-ModeApplied (legacy d) none q = (apply_defaults-seen lib laws d q, refl)
  mode-ModeApplied uncommitted (some p) q =
      (set_execution_profile_handle-seen lib laws p.inner q, refl)
  mode-ModeApplied profiles (some p) q =
      (set_execution_profile_handle-seen lib laws p.inner q, refl)
  mode-ModeApplied uncommitted none q = (refl, refl)
  mode-ModeApplied profiles none q = (refl, refl)

  -- The flag for paging is read after the mode is applied, which leaves it as it was.
  paged_lem :
      (fetch : FetchSize) (q q' : LegacyQuery P S B)
      → (seen lib q').page_size_is_set ≡ is_page_size_set lib q
      → (configure_paging lib fetch q').1 ≡ pages fetch (is_page_size_set lib q)
  unfolding configure_paging seen
  paged_lem driver q q' h = refl
  paged_lem (rows n) q q' h = refl
  paged_lem unpaged q q' h = h

  after_mode :
      (s : PyLegacySession) (args : Arguments) (q q1 : LegacyQuery P S B)
      → seen lib q1 ≡ timeout_applied args.timeout (seen lib q)
      → (o : Outcome (LegacyQuery P S B × Option (WithOriginalPyObject RowFactory)))
      → ModeApplied s.settings.mode args.execution_profile q1 o
      → IsConfigured lib s args q (
          o
          >>= (λ (q', factory).
              let paging = configure_paging lib s.settings.fetch_size q' in
              accepted (paging.0, factory, paging.1))
          >>= λ (q', factory, paged). accepted (
            with_some (set_target lib) args.host (with_some (set_tracing lib) args.trace q'),
            factory,
            paged,
          ))
  unfolding ModeApplied seen
  after_mode s args q q1 h (refused e) m = m
  after_mode s args q q1 h (accepted (q', factory)) m =
      let mode = s.settings.mode in
      let fetch = s.settings.fetch_size in
      let e : seen lib q'
          ≡ profile_applied args.execution_profile
              (defaults_applied mode (timeout_applied args.timeout (seen lib q))) =
        m.0 ∙ ap (λ u. profile_applied args.execution_profile (defaults_applied mode u)) h in
      (
        ap (λ u. u.config)
              (call-seen args (configure_paging lib fetch q').0
                ∙ ap (call_applied args) (paging-seen fetch q' ∙ ap (fetch_size_applied fetch) e))
            ∙ steps-config-of mode fetch args (seen lib q),
        m.1,
        paged_lem fetch q q' (
            ap (λ u. u.page_size_is_set) e
            ∙ defaults-page_size_is_set mode args.timeout (seen lib q)),
      )

  -- If each setter of the Rust driver's statements sets what it is named for and nothing else,
  -- then a request is refused just when the session is in the legacy mode and an execution profile
  -- is given. Otherwise it is sent with a configuration in which the call's argument wins over
  -- what the statement sets itself, and that over the session's default, with the row factory of
  -- the mode or of the profile; it pages unless the session's fetch size is `None` and the
  -- statement sets none.
  pub configured-IsConfigured :
      (s : PyLegacySession) (args : Arguments) (q : LegacyQuery P S B)
      → IsConfigured lib s args q (configured lib s args q)
  unfolding configured configure_request
  configured-IsConfigured s args q =
      let q1 = with_some (set_request_timeout lib) (duration args.timeout) q in
      after_mode s args q q1 (timeout-seen (duration args.timeout) q)
        (configure_mode lib s.settings.mode args.execution_profile q1)
        (mode-ModeApplied s.settings.mode args.execution_profile q1)
