-- ===== src/LegacySession/Session.antt =====
-- src/legacy/session.rs: how a request is configured and sent, and the session's operations. With
-- `execute`, `batch` and `choose_row_factory` of src/core/session.rs, up to the request that the Rust
-- driver is asked for.
use python_rs_driver.Common.{ℕ, Bool, true, false, Option, none, some, if◌then◌else◌}
use python_rs_driver.Common.Python.{Obj}
use python_rs_driver.Values.Rows.{PyValueList}
use python_rs_driver.Statements.{
  Consistency, SerialConsistency, Duration, F64, RowFactory, PyExecutionProfile, or_of, Seconds,
}
use python_rs_driver.Statements.Executable.{
  StatementKind, prepared, unprepared, ExecutableStatement, BatchState,
}
use python_rs_driver.LegacySession.{
  LegacyQuery, RequestTimeout, driver, ConfigMode, uncommitted, profiles, SessionSettings,
}

pub data Refusal : Type 0 where
  not_supported shut_down profile_with_legacy_parameters defaults_with_profiles : Refusal
  fetch_size_not_positive argument_out_of_range parameters_with_batch paging_state_with_batch :
      Refusal
  serialization_failed paging_state_for_unpaged library_failed : Refusal

pub data Outcome {ℓ} (A : Type ℓ) : Type ℓ where
  accepted : A → Outcome A
  refused : Refusal → Outcome A

infixl 5 ◌>>=◌
abbrev pub ◌>>=◌ {ℓ κ} : {A : Type ℓ} {B : Type κ} → Outcome A → (A → Outcome B) → Outcome B
accepted a >>= f = f a
refused e >>= f = refused e

infixl 5 ◌>>◌
abbrev pub ◌>>◌ {ℓ} : {B : Type ℓ} → Outcome (Unit {0}) → Outcome B → Outcome B
m >> k = m >>= λ _. k

-- What the Rust driver answers: the settings of the profile of a handle, the session's default
-- profile, the page size of a fresh statement, and a prepared statement's serialized values.
pub record Env (P : Type 0) : Type 0 where
  pub seconds : Seconds
  pub profile_request_timeout : Obj → Option Duration
  pub profile_consistency : Obj → Consistency
  pub profile_serial_consistency : Obj → Option SerialConsistency
  pub default_profile : Obj
  pub driver_page_size : ℕ
  pub serialize_values : P → PyValueList → Option Obj
  pub paging_start : Obj
  pub named_tuple : RowFactory

pub record PyLegacySession : Type 0 where
  pub default_row_factory : Option RowFactory
  pub settings : SessionSettings
  pub is_shutdown : Bool

abbrev mode_at_start : Bool → ConfigMode
mode_at_start uses_profiles = if uses_profiles then profiles else uncommitted

-- `PyLegacySession::new`.
unfoldable pub new : Option RowFactory → Bool → PyLegacySession
new factory uses_profiles = record {
  default_row_factory = factory;
  settings = record { fetch_size = driver; mode = mode_at_start uses_profiles };
  is_shutdown = false;
}

-- The keyword arguments of `execute_async`.
pub record Arguments : Type 0 where
  pub parameters : Option PyValueList
  pub trace : Option Bool
  pub custom_payload : Option Obj
  pub timeout : RequestTimeout
  pub execution_profile : Option PyExecutionProfile
  pub paging_state : Option Obj
  pub host : Option Obj
  pub execute_as : Option Obj

pub data BoundStatement (P S : Type 0) : Type 0 where
  bound_prepared : P → Obj → BoundStatement P S
  bound_unprepared : S → PyValueList → BoundStatement P S

-- What is asked of the Rust driver.
pub data Request (P S B : Type 0) : Type 0 where
  batch_request : BatchState B → RowFactory → Request P S B
  paged_request : BoundStatement P S → (paging_state : Obj) → RowFactory → Request P S B
  unpaged_request : BoundStatement P S → RowFactory → Request P S B

-- What `PyResponseFuture::spawn` gets.
pub record Spawned (P S B : Type 0) : Type 0 where
  pub request : Request P S B
  pub query : LegacyQuery P S B
  pub timeout_secs : Option F64
  pub row_factory : Option Obj

abbrev pub error_if_present : Option Obj → Outcome (Unit {0})
error_if_present none = accepted tt
error_if_present (some x) = refused not_supported

abbrev pub reject_if_shutdown : PyLegacySession → Outcome (Unit {0})
reject_if_shutdown s = if s.is_shutdown then refused shut_down else accepted tt

abbrev is_some {ℓ} : {A : Type ℓ} → Option A → Bool
is_some none = false
is_some (some a) = true

abbrev pub with_some {ℓ κ} : {A : Type ℓ} {B : Type κ} → (A → B → B) → Option A → B → B
with_some f none b = b
with_some f (some a) b = f a b

-- `f` only where nothing is set.
abbrev pub unless_some {ℓ κ} : {A : Type ℓ} {B : Type κ} → Option A → (B → B) → B → B
unless_some none f b = f b
unless_some (some a) f b = b

abbrev pub unwrap_or {ℓ} : {A : Type ℓ} → Option A → A → A
unwrap_or none b = b
unwrap_or (some a) b = a

abbrev pub choose_row_factory :
    {P : Type 0} → Env P → PyLegacySession → Option RowFactory → Option RowFactory → RowFactory
choose_row_factory env s explicit of_statement =
    unwrap_or (or_of explicit (or_of of_statement s.default_row_factory)) env.named_tuple

abbrev serialized : {P S : Type 0} → P → Option Obj → Outcome (BoundStatement P S)
serialized p (some values) = accepted (bound_prepared p values)
serialized p none = refused serialization_failed

-- `BoundStatement::new`.
unfoldable pub bind :
    {P S : Type 0} → Env P → StatementKind P S → PyValueList → Outcome (BoundStatement P S)
bind env (prepared p) values = serialized p (env.serialize_values p values)
bind env (unprepared s) values = accepted (bound_unprepared s values)

abbrev execute_unpaged :
    {P S B : Type 0}
    → Env P
    → StatementKind P S
    → PyValueList
    → RowFactory
    → Option Obj
    → Outcome (Request P S B)
execute_unpaged env kind values factory (some state) = refused paging_state_for_unpaged
execute_unpaged env kind values factory none =
    bind env kind values >>= λ b. accepted (unpaged_request b factory)

-- `SessionCore::execute`, up to its future.
unfoldable pub core_execute :
    {P S B : Type 0}
    → Env P
    → PyLegacySession
    → ExecutableStatement P S
    → PyValueList
    → Option RowFactory
    → Option Obj
    → Bool
    → Outcome (Request P S B)
unfolding bind
core_execute env s e values explicit paging_state paged =
    let factory = choose_row_factory env s explicit e.row_factory in
    if paged
    then (bind env e.kind values >>= λ b.
        accepted (paged_request b (unwrap_or paging_state env.paging_start) factory))
    else execute_unpaged env e.kind values factory paging_state

abbrev pub batch_checked : {P S B : Type 0} → Arguments → Request P S B → Outcome (Request P S B)
batch_checked args request =
    if is_some args.parameters
    then refused parameters_with_batch
    else if is_some args.paging_state
    then refused paging_state_with_batch
    else accepted request
