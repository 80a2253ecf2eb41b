-- ===== src/LegacySession/Precedence.antt =====
-- src/legacy/session.rs: which setting wins.
use python_rs_driver.Common.{
  ℕ, Bool, true, false, Option, none, some, ◌≡◌, refl, if◌then◌else◌, ◌||◌,
}
use python_rs_driver.Common.Python.{Obj}
use python_rs_driver.Statements.{
  RowFactory, WithOriginalPyObject, PyExecutionProfile, Config, or_of,
}
use python_rs_driver.Statements.Executable.{Library}
use python_rs_driver.LegacySession.{
  LegacyQuery, RequestTimeout, duration, FetchSize, driver, unpaged, rows, LegacyDefaults,
  ConfigMode, uncommitted, profiles, legacy, SessionSettings, is_page_size_set, query_config,
}
use python_rs_driver.LegacySession.Queries.{Seen, seen, paged_config}
use python_rs_driver.LegacySession.Session.{
  Outcome, accepted, refused, PyLegacySession, Arguments, profile_with_legacy_parameters,
}
use python_rs_driver.LegacySession.Defaults.{with_defaults, or_else}

abbrev pub defaults_applied : ConfigMode → Seen → Seen
defaults_applied (legacy d) s = with_defaults d s
defaults_applied mode s = s

abbrev pub fetch_size_applied : FetchSize → Seen → Seen
fetch_size_applied (rows n) s = paged_config n s
fetch_size_applied fetch s = s

abbrev inner_of : Option PyExecutionProfile → Option Obj
inner_of none = none
inner_of (some p) = some p.inner

abbrev pub profile_applied : Option PyExecutionProfile → Seen → Seen
profile_applied p s = record s {
  config = record s.config {
    execution_profile_handle = or_of (inner_of p) s.config.execution_profile_handle;
  };
}

abbrev pub timeout_applied : RequestTimeout → Seen → Seen
timeout_applied t s = record s {
  config = record s.config { request_timeout = or_of (duration t) s.config.request_timeout };
}

abbrev pub call_applied : Arguments → Seen → Seen
call_applied args s = record s {
  config = record s.config {
    tracing = or_else args.trace s.config.tracing;
    load_balancing_policy = or_of args.host s.config.load_balancing_policy;
  };
}

abbrev steps : PyLegacySession → Arguments → Seen → Seen
steps s args v = call_applied args (
    fetch_size_applied s.settings.fetch_size (
      profile_applied args.execution_profile
        (defaults_applied s.settings.mode (timeout_applied args.timeout v))))

abbrev pub pages : FetchSize → Bool → Bool
pages unpaged page_size_is_set = page_size_is_set
pages fetch page_size_is_set = true

-- In the legacy mode no profile may be given.
abbrev pub factory_of :
    ConfigMode → Option PyExecutionProfile → Option (Option (WithOriginalPyObject RowFactory))
factory_of (legacy d) (some p) = none
factory_of (legacy d) none = some d.row_factory
factory_of mode (some p) = some p.row_factory
factory_of mode none = some none

-- The session's defaults: none but in the legacy mode.
abbrev defaults_of {ℓ} : {A : Type ℓ} → (LegacyDefaults → Option A) → ConfigMode → Option A
defaults_of read (legacy d) = read d
defaults_of read mode = none

abbrev rows_of : FetchSize → Option ℕ
rows_of (rows n) = some n
rows_of fetch = none

-- The configuration that a request is sent with: the argument of the call wins over what the
-- statement sets itself, and that over the session's default; an execution profile given wins over
-- the statement's.
unfoldable pub sent_config : SessionSettings → Arguments → Seen → Config
sent_config s args v = record v.config {
  request_timeout =
      or_of (duration args.timeout)
        (or_of v.config.request_timeout (defaults_of (λ d. duration d.timeout) s.mode));
  consistency = or_of v.config.consistency (defaults_of (λ d. d.consistency) s.mode);
  serial_consistency =
      if v.serial_is_set
      then v.config.serial_consistency
      else or_else (defaults_of (λ d. d.serial_consistency) s.mode) v.config.serial_consistency;
  execution_profile_handle =
      or_of (inner_of args.execution_profile) v.config.execution_profile_handle;
  page_size =
      if v.is_batch || v.page_size_is_set
      then v.config.page_size
      else or_else (rows_of s.fetch_size) v.config.page_size;
  tracing = or_else args.trace v.config.tracing;
  load_balancing_policy = or_of args.host v.config.load_balancing_policy;
}

or_assoc {ℓ} : {A : Type ℓ} (x y z : Option A) → or_of (or_of x y) z ≡ or_of x (or_of y z)
or_assoc none y z = refl
or_assoc (some a) y z = refl

or_none {ℓ} : {A : Type ℓ} (x : Option A) → or_of x none ≡ x
or_none none = refl
or_none (some a) = refl

same_branch {ℓ} : {A : Type ℓ} (b : Bool) (x : A) → (if b then x else x) ≡ x
same_branch true x = refl
same_branch false x = refl

-- What `configured` gives, in every case.
abbrev pub IsConfigured :
    {P S B : Type 0}
    → Library P S B
    → PyLegacySession
    → Arguments
    → LegacyQuery P S B
    → Outcome (LegacyQuery P S B × Option (WithOriginalPyObject RowFactory) × Bool)
    → Type 0
IsConfigured lib s args q (accepted (q', factory, paged)) =
    (query_config lib q' ≡ sent_config s.settings args (seen lib q))
    × (factory_of s.settings.mode args.execution_profile ≡ some factory)
    × (paged ≡ pages s.settings.fetch_size (is_page_size_set lib q))
IsConfigured lib s args q (refused e) =
    (e ≡ profile_with_legacy_parameters)
    × (factory_of s.settings.mode args.execution_profile ≡ none)

page-config-flag :
    (n : ℕ) (u : Seen) (b : Bool)
    → (if b then u else record u { config = record u.config { page_size = n } }).config
      ≡ record u.config { page_size = if b then u.config.page_size else n }
page-config-flag n u true = refl
page-config-flag n u false = refl

page-config :
    (fetch : FetchSize) (u : Seen)
    → (fetch_size_applied fetch u).config ≡ record u.config {
      page_size =
          if u.is_batch || u.page_size_is_set
          then u.config.page_size
          else or_else (rows_of fetch) u.config.page_size;
    }
page-config driver u = rw (same_branch (u.is_batch || u.page_size_is_set) u.config.page_size) refl
page-config unpaged u = rw (same_branch (u.is_batch || u.page_size_is_set) u.config.page_size) refl
page-config (rows n) u = page-config-flag n u (u.is_batch || u.page_size_is_set)

no_defaults-config :
    (v : Seen)
    → record v.config {
      consistency = or_of v.config.consistency none;
      request_timeout = or_of v.config.request_timeout none;
      serial_consistency =
          if v.serial_is_set then v.config.serial_consistency else v.config.serial_consistency;
    }
      ≡ v.config
no_defaults-config v = rw (or_none v.config.consistency) (
    rw (or_none v.config.request_timeout)
      (rw (same_branch v.serial_is_set v.config.serial_consistency) refl))

pub steps-config-of :
    (mode : ConfigMode) (fetch : FetchSize) (args : Arguments) (v : Seen)
    → (call_applied args (
        fetch_size_applied fetch (
          profile_applied args.execution_profile
            (defaults_applied mode (timeout_applied args.timeout v))))).config
      ≡ sent_config (record { fetch_size = fetch; mode = mode }) args v
unfolding sent_config
steps-config-of (legacy d) fetch args v =
    rw
      (page-config fetch
        (profile_applied args.execution_profile (with_defaults d (timeout_applied args.timeout v))))
      (rw (or_assoc (duration args.timeout) v.config.request_timeout (duration d.timeout)) refl)
steps-config-of uncommitted fetch args v =
    rw (page-config fetch (profile_applied args.execution_profile (timeout_applied args.timeout v)))
      (rw
        (
          or_none v.config.consistency,
          or_none v.config.request_timeout,
          same_branch v.serial_is_set v.config.serial_consistency,
        )
        refl)
steps-config-of profiles fetch args v =
    rw (page-config fetch (profile_applied args.execution_profile (timeout_applied args.timeout v)))
      (rw
        (
          or_none v.config.consistency,
          or_none v.config.request_timeout,
          same_branch v.serial_is_set v.config.serial_consistency,
        )
        refl)

pub defaults-page_size_is_set :
    (mode : ConfigMode) (t : RequestTimeout) (v : Seen)
    → (defaults_applied mode (timeout_applied t v)).page_size_is_set ≡ v.page_size_is_set
defaults-page_size_is_set (legacy d) t v = refl
defaults-page_size_is_set uncommitted t v = refl
defaults-page_size_is_set profiles t v = refl
