-- ===== src/Statements.antt =====
-- src/statement.rs: the options that statements, prepared statements and batches share. The Rust
-- driver's three kinds of statement are reached through one interface, `Configurable`, which is the
-- trait `ConfigurableStatement` with what its getters promise.
pub mod Options
pub mod Executable
pub mod Spec
pub mod Tests
use python_rs_driver.Common.{ℕ, Bool, Option, none, some, ◌≡◌, ◌^◌, ◌*◌, ◌-◌, ◌<◌}
use python_rs_driver.Common.Python.{Obj}

-- `src/types.rs`: an argument that may be `UNSET`.
pub data MaybeUnset {ℓ} (A : Type ℓ) : Type ℓ where
  unset : MaybeUnset A
  set_to : A → MaybeUnset A

pub data Consistency : Type 0 where
  any one two three quorum all local_quorum each_quorum local_one serial local_serial : Consistency

pub data SerialConsistency : Type 0 where
  at_serial at_local_serial : SerialConsistency

-- Nanoseconds; the greatest duration is a second less one nanosecond past `u64::MAX` seconds.
abbrev pub Duration : Type 0
Duration = ℕ

unfoldable pub max_duration : Duration
max_duration = 2 ^ 64 * 1000000000 - 1

-- A float is known by its bits, and a row factory by its identity.
abbrev pub F64 : Type 0
F64 = ℕ

abbrev pub RowFactory : Type 0
RowFactory = Obj

-- An argument as Python passed it, and what was extracted from it.
pub record WithOriginalPyObject (A : Type 0) : Type 0 where
  pub original : Obj
  pub extracted : A

pub record PyExecutionProfile : Type 0 where
  -- The Rust driver's handle of the profile.
  pub inner : Obj
  pub row_factory : Option (WithOriginalPyObject RowFactory)

-- What a statement of the Rust driver is configured with. A batch has no page size: its is neither
-- set nor read.
pub record Config : Type 0 where
  pub consistency : Option Consistency
  pub serial_consistency : Option SerialConsistency
  pub request_timeout : Option Duration
  pub is_idempotent : Bool
  pub tracing : Bool
  pub retry_policy : Option Obj
  pub load_balancing_policy : Option Obj
  pub execution_profile_handle : Option Obj
  pub page_size : ℕ

-- The statements of the Rust driver: `config` gives what their getters return.
pub record Configurable (S : Type 0) : Type 0 where
  pub config : S → Config
  pub set_consistency : Consistency → S → S
  pub unset_consistency : S → S
  pub set_serial_consistency : Option SerialConsistency → S → S
  pub unset_serial_consistency : S → S
  pub set_request_timeout : Option Duration → S → S
  pub set_is_idempotent : Bool → S → S
  pub set_tracing : Bool → S → S
  pub set_retry_policy : Option Obj → S → S
  pub set_load_balancing_policy : Option Obj → S → S
  pub set_execution_profile_handle : Option Obj → S → S
  pub set_page_size : ℕ → S → S

-- Each setter sets what it is named for and nothing else.
pub record IsConfigurable {S : Type 0} (c : Configurable S) : Type 0 where
  pub consistency_set :
      (v : Consistency) (s : S)
      → c.config (c.set_consistency v s) ≡ record (c.config s) { consistency = some v }
  pub consistency_unset :
      (s : S) → c.config (c.unset_consistency s) ≡ record (c.config s) { consistency = none }
  pub serial_set :
      (v : Option SerialConsistency) (s : S)
      → c.config (c.set_serial_consistency v s) ≡ record (c.config s) { serial_consistency = v }
  pub serial_unset :
      (s : S)
      → c.config (c.unset_serial_consistency s) ≡ record (c.config s) { serial_consistency = none }
  pub timeout_set :
      (v : Option Duration) (s : S)
      → c.config (c.set_request_timeout v s) ≡ record (c.config s) { request_timeout = v }
  pub idempotent_set :
      (v : Bool) (s : S)
      → c.config (c.set_is_idempotent v s) ≡ record (c.config s) { is_idempotent = v }
  pub tracing_set :
      (v : Bool) (s : S) → c.config (c.set_tracing v s) ≡ record (c.config s) { tracing = v }
  pub retry_set :
      (v : Option Obj) (s : S)
      → c.config (c.set_retry_policy v s) ≡ record (c.config s) { retry_policy = v }
  pub load_balancing_set :
      (v : Option Obj) (s : S)
      → c.config (c.set_load_balancing_policy v s)
        ≡ record (c.config s) { load_balancing_policy = v }
  pub profile_set :
      (v : Option Obj) (s : S)
      → c.config (c.set_execution_profile_handle v s)
        ≡ record (c.config s) { execution_profile_handle = v }
  pub page_size_set :
      (v : ℕ) (s : S) → c.config (c.set_page_size v s) ≡ record (c.config s) { page_size = v }

-- The standard library's conversions of durations; a float is never the greatest duration.
pub record Seconds : Type 0 where
  pub try_from_secs_f64 : F64 → Option Duration
  pub as_secs_f64 : Duration → F64
  pub below_max : (secs : F64) (d : Duration) → try_from_secs_f64 secs ≡ some d → d < max_duration

pub record PyStatementSettings : Type 0 where
  pub execution_profile : Option PyExecutionProfile
  pub load_balancing_policy : Option Obj
  pub retry_policy : Option Obj
  pub row_factory : Option (WithOriginalPyObject RowFactory)

abbrev profile_factory : Option PyExecutionProfile → Option (WithOriginalPyObject RowFactory)
profile_factory none = none
profile_factory (some p) = p.row_factory

abbrev pub extracted_of : {A : Type 0} → Option (WithOriginalPyObject A) → Option A
extracted_of none = none
extracted_of (some f) = some f.extracted

abbrev pub or_of {ℓ} : {A : Type ℓ} → Option A → Option A → Option A
or_of none b = b
or_of (some a) b = some a

-- `PyStatementSettings::row_factory`.
unfoldable pub row_factory : PyStatementSettings → Option RowFactory
row_factory s = extracted_of (or_of s.row_factory (profile_factory s.execution_profile))

pub record StatementOptions (S : Type 0) : Type 0 where
  pub inner : S
  pub is_serial_consistency_set : Bool
  pub is_page_size_set : Bool
  pub settings : PyStatementSettings
