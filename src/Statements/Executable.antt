-- ===== src/Statements/Executable.antt =====
-- src/core/session.rs: a statement ready to run, with the overrides of one execution; and `BatchState`
-- of src/batch.rs. `P`, `S` and `B` are the Rust driver's prepared statements, statements and batches.
use python_rs_driver.Common.{ℕ, Bool, true, false, Option, none, some, List, [], ◌∷◌, ◌++◌}
use python_rs_driver.Common.Python.{Obj}
use python_rs_driver.Values.Rows.{PyValueList, empty}
use python_rs_driver.Statements.{
  Consistency, SerialConsistency, Duration, RowFactory, Config, Configurable, IsConfigurable,
  PyStatementSettings, row_factory, StatementOptions,
}
use python_rs_driver.Statements.Options.{new_options}

pub record Library (P S B : Type 0) : Type 0 where
  pub prepared : Configurable P
  pub statement : Configurable S
  pub batch : Configurable B

pub record IsLibrary {P S B : Type 0} (lib : Library P S B) : Type 0 where
  pub prepared_laws : IsConfigurable lib.prepared
  pub statement_laws : IsConfigurable lib.statement
  pub batch_laws : IsConfigurable lib.batch

pub data StatementKind (P S : Type 0) : Type 0 where
  prepared : P → StatementKind P S
  unprepared : S → StatementKind P S

pub record ExecutableStatement (P S : Type 0) : Type 0 where
  pub kind : StatementKind P S
  pub row_factory : Option RowFactory
  pub is_page_size_set : Bool
  pub is_serial_consistency_set : Bool

-- A Python object given as a statement: a `str` may fail to convert.
pub data StatementArgument (P S : Type 0) : Type 0 where
  a_prepared : StatementOptions P → StatementArgument P S
  a_string : Option S → StatementArgument P S
  a_statement : StatementOptions S → StatementArgument P S
  other_object : StatementArgument P S

pub data ConversionError : Type 0 where
  statement_string_conversion_failed invalid_statement_type cannot_prepare_prepared_statement :
      ConversionError

pub data Converted (A : Type 0) : Type 0 where
  converted : A → Converted A
  not_converted : ConversionError → Converted A

abbrev of_options :
    {P S X : Type 0} → (X → StatementKind P S) → StatementOptions X → ExecutableStatement P S
of_options kind o = record {
  kind = kind o.inner;
  row_factory = row_factory o.settings;
  is_page_size_set = o.is_page_size_set;
  is_serial_consistency_set = o.is_serial_consistency_set;
}

-- `ExecutableStatement::extract`.
unfoldable pub extract :
    {P S : Type 0} → StatementArgument P S → Converted (ExecutableStatement P S)
extract (a_prepared o) = converted (of_options prepared o)
extract (a_string none) = not_converted statement_string_conversion_failed
extract (a_string (some text)) = converted (record {
  kind = unprepared text;
  row_factory = none;
  is_page_size_set = false;
  is_serial_consistency_set = false;
})
extract (a_statement o) = converted (of_options unprepared o)
extract other_object = not_converted invalid_statement_type

abbrev no_settings : PyStatementSettings
no_settings = record {
  execution_profile = none;
  load_balancing_policy = none;
  retry_policy = none;
  row_factory = none;
}

-- `PreparableStatement::extract`.
unfoldable pub extract_preparable :
    {P S : Type 0} → StatementArgument P S → Converted (StatementOptions S)
extract_preparable (a_prepared o) = not_converted cannot_prepare_prepared_statement
extract_preparable (a_string none) = not_converted statement_string_conversion_failed
extract_preparable (a_string (some text)) = converted (new_options text false no_settings)
extract_preparable (a_statement o) = converted o
extract_preparable other_object = not_converted invalid_statement_type

pub record BatchState (B : Type 0) : Type 0 where
  pub options : StatementOptions B
  pub values : List PyValueList

abbrev or_empty : Option PyValueList → PyValueList
or_empty none = empty
or_empty (some vs) = vs

-- `add` of a batch; `append_statement` is the Rust driver's.
unfoldable pub add :
    {B T : Type 0} → (T → B → B) → T → Option PyValueList → BatchState B → BatchState B
add append_statement s vs b = record b {
  options = record b.options { inner = append_statement s b.options.inner };
  values = b.values ++ (or_empty vs ∷ []);
}

unfoldable pub add_all :
    {B T : Type 0} → (T → B → B) → List (T × Option PyValueList) → BatchState B → BatchState B
unfolding add
add_all append_statement [] b = b
add_all append_statement ((s, vs) ∷ items) b =
    add_all append_statement items (add append_statement s vs b)

module _ {P S B : Type 0} (lib : Library P S B) where
  -- What the statement's getters return.
  unfoldable pub kind_config : StatementKind P S → Config
  kind_config (prepared p) = lib.prepared.config p
  kind_config (unprepared s) = lib.statement.config s

  abbrev pub on_kind : (P → P) → (S → S) → StatementKind P S → StatementKind P S
  on_kind f g (prepared p) = prepared (f p)
  on_kind f g (unprepared s) = unprepared (g s)

  abbrev on_statement : (P → P) → (S → S) → ExecutableStatement P S → ExecutableStatement P S
  on_statement f g e = record e { kind = on_kind f g e.kind }

  abbrev pub statement_config : ExecutableStatement P S → Config
  statement_config e = kind_config e.kind

  unfoldable pub set_target : Obj → ExecutableStatement P S → ExecutableStatement P S
  set_target policy =
      on_statement (lib.prepared.set_load_balancing_policy (some policy))
        (lib.statement.set_load_balancing_policy (some policy))

  unfoldable pub set_tracing : Bool → ExecutableStatement P S → ExecutableStatement P S
  set_tracing v = on_statement (lib.prepared.set_tracing v) (lib.statement.set_tracing v)

  unfoldable pub set_request_timeout : Duration → ExecutableStatement P S → ExecutableStatement P S
  set_request_timeout d =
      on_statement (lib.prepared.set_request_timeout (some d))
        (lib.statement.set_request_timeout (some d))

  unfoldable pub set_page_size : ℕ → ExecutableStatement P S → ExecutableStatement P S
  set_page_size n = on_statement (lib.prepared.set_page_size n) (lib.statement.set_page_size n)

  unfoldable pub set_execution_profile_handle :
      Obj → ExecutableStatement P S → ExecutableStatement P S
  set_execution_profile_handle h =
      on_statement (lib.prepared.set_execution_profile_handle (some h))
        (lib.statement.set_execution_profile_handle (some h))

  unfoldable pub set_consistency : Consistency → ExecutableStatement P S → ExecutableStatement P S
  set_consistency v =
      on_statement (lib.prepared.set_consistency v) (lib.statement.set_consistency v)

  unfoldable pub set_serial_consistency :
      Option SerialConsistency → ExecutableStatement P S → ExecutableStatement P S
  set_serial_consistency v e =
      record (on_statement (lib.prepared.set_serial_consistency v)
        (lib.statement.set_serial_consistency v) e) { is_serial_consistency_set = true }
