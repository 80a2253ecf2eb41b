-- ===== src/LegacySession.antt =====
-- src/legacy/session.rs: what `execute_async` accepts and the session's settings. `Session` has the
-- session itself.
pub mod Session
pub mod Requests
pub mod Queries
pub mod Defaults
pub mod Precedence
pub mod Winning
pub mod Settings
pub mod History
pub mod Remembered
pub mod Tests
use python_rs_driver.Common.{ℕ, Bool, true, false, Option, none, some, if◌then◌else◌, not, ◌==◌}
use python_rs_driver.Common.Python.{Obj}
use python_rs_driver.Statements.{
  Consistency, SerialConsistency, Duration, max_duration, RowFactory, WithOriginalPyObject,
  PyExecutionProfile, Config, or_of,
}
use python_rs_driver.Statements.Executable.{
  Library, ExecutableStatement, BatchState, statement_config,
}
use python_rs_driver.Statements.Executable

pub data LegacyQuery (P S B : Type 0) : Type 0 where
  batch : BatchState B → LegacyQuery P S B
  statement : ExecutableStatement P S → LegacyQuery P S B

module _ {P S B : Type 0} (lib : Library P S B) where
  -- What the getters of the query's statement return.
  unfoldable pub query_config : LegacyQuery P S B → Config
  query_config (batch b) = lib.batch.config b.options.inner
  query_config (statement e) = statement_config lib e

  abbrev on_batch : (B → B) → BatchState B → LegacyQuery P S B
  on_batch f b = batch (record b { options = record b.options { inner = f b.options.inner } })

  unfoldable pub set_request_timeout : Duration → LegacyQuery P S B → LegacyQuery P S B
  unfolding Executable.set_request_timeout
  set_request_timeout d (batch b) = on_batch (lib.batch.set_request_timeout (some d)) b
  set_request_timeout d (statement e) = statement (Executable.set_request_timeout lib d e)

  unfoldable pub set_tracing : Bool → LegacyQuery P S B → LegacyQuery P S B
  unfolding Executable.set_tracing
  set_tracing v (batch b) = on_batch (lib.batch.set_tracing v) b
  set_tracing v (statement e) = statement (Executable.set_tracing lib v e)

  unfoldable pub set_execution_profile_handle : Obj → LegacyQuery P S B → LegacyQuery P S B
  unfolding Executable.set_execution_profile_handle
  set_execution_profile_handle h (batch b) =
      on_batch (lib.batch.set_execution_profile_handle (some h)) b
  set_execution_profile_handle h (statement e) =
      statement (Executable.set_execution_profile_handle lib h e)

  unfoldable pub set_target : Obj → LegacyQuery P S B → LegacyQuery P S B
  unfolding Executable.set_target
  set_target policy (batch b) = on_batch (lib.batch.set_load_balancing_policy (some policy)) b
  set_target policy (statement e) = statement (Executable.set_target lib policy e)

  unfoldable pub set_consistency : Consistency → LegacyQuery P S B → LegacyQuery P S B
  unfolding Executable.set_consistency
  set_consistency v (batch b) = on_batch (lib.batch.set_consistency v) b
  set_consistency v (statement e) = statement (Executable.set_consistency lib v e)

  unfoldable pub set_serial_consistency :
      Option SerialConsistency → LegacyQuery P S B → LegacyQuery P S B
  unfolding Executable.set_serial_consistency
  set_serial_consistency v (batch b) = batch (record b {
    options = record b.options {
      inner = lib.batch.set_serial_consistency v b.options.inner;
      is_serial_consistency_set = true;
    };
  })
  set_serial_consistency v (statement e) = statement (Executable.set_serial_consistency lib v e)

  -- Whether the statement asks for a page size itself. A batch never pages.
  unfoldable pub is_page_size_set : LegacyQuery P S B → Bool
  is_page_size_set (batch b) = false
  is_page_size_set (statement e) = e.is_page_size_set

  unfoldable pub is_serial_consistency_set : LegacyQuery P S B → Bool
  is_serial_consistency_set (batch b) = b.options.is_serial_consistency_set
  is_serial_consistency_set (statement e) = e.is_serial_consistency_set

  unfoldable pub apply_default_page_size : ℕ → LegacyQuery P S B → LegacyQuery P S B
  unfolding Executable.set_page_size
  apply_default_page_size n (batch b) = batch b
  apply_default_page_size n (statement e) =
      if e.is_page_size_set then statement e else statement (Executable.set_page_size lib n e)

  abbrev pub request_timeout : LegacyQuery P S B → Option Duration
  request_timeout q = (query_config q).request_timeout

  abbrev pub consistency : LegacyQuery P S B → Option Consistency
  consistency q = (query_config q).consistency

  abbrev pub execution_profile_handle : LegacyQuery P S B → Option Obj
  execution_profile_handle q = (query_config q).execution_profile_handle

-- The timeout argument: `UNSET`, `None`, or a duration.
pub data RequestTimeout : Type 0 where
  default never : RequestTimeout
  after : Duration → RequestTimeout

unfoldable pub duration : RequestTimeout → Option Duration
duration default = none
duration never = some max_duration
duration (after d) = some d

-- `Rows` holds a positive size.
pub data FetchSize : Type 0 where
  driver unpaged : FetchSize
  rows : ℕ → FetchSize

pub record LegacyDefaults : Type 0 where
  pub row_factory : Option (WithOriginalPyObject RowFactory)
  pub timeout : RequestTimeout
  pub consistency : Option Consistency
  pub serial_consistency : Option (Option SerialConsistency)

pub data ConfigMode : Type 0 where
  uncommitted profiles : ConfigMode
  legacy : LegacyDefaults → ConfigMode

pub record SessionSettings : Type 0 where
  pub fetch_size : FetchSize
  pub mode : ConfigMode
