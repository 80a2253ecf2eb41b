-- ===== src/LegacySession/History.antt =====
-- src/legacy/session.rs: what any sequence of settings and a shutdown leave.
use python_rs_driver.Common.{ℕ, Bool, true, false, Option, none, some, List, [], ◌∷◌}
use python_rs_driver.Common.Python.{Obj}
use python_rs_driver.CqlTypes.{ℤ}
use python_rs_driver.Statements.{
  MaybeUnset, Consistency, SerialConsistency, F64, RowFactory, WithOriginalPyObject,
}
use python_rs_driver.Statements.Options.{original_of}
use python_rs_driver.LegacySession.{RequestTimeout, FetchSize, driver, LegacyDefaults}
use python_rs_driver.LegacySession.Session.{
  Outcome, accepted, refused, defaults_with_profiles, Refusal, Env, PyLegacySession,
}
use python_rs_driver.LegacySession.Settings.{
  no_defaults, set_row_factory, set_default_timeout, set_default_consistency_level,
  set_default_serial_consistency_level, set_default_fetch_size, fetch_size_of, size_refusal,
  option_of, shutdown, get_row_factory, get_default_fetch_size, get_default_timeout,
  get_default_consistency_level, get_default_serial_consistency_level, shown_fetch_size,
  shown_timeout,
}

pub data Operation : Type 0 where
  sets_row_factory : Option (WithOriginalPyObject RowFactory) → Operation
  sets_timeout : RequestTimeout → Operation
  sets_consistency : MaybeUnset Consistency → Operation
  sets_serial_consistency : MaybeUnset (Option SerialConsistency) → Operation
  sets_fetch_size : Option ℤ → Operation
  shuts_down : Operation

unfoldable pub step : Operation → PyLegacySession → PyLegacySession × Outcome (Unit {0})
unfolding set_row_factory set_default_timeout set_default_consistency_level
    set_default_serial_consistency_level set_default_fetch_size shutdown
step (sets_row_factory f) s = set_row_factory f s
step (sets_timeout t) s = set_default_timeout t s
step (sets_consistency c) s = set_default_consistency_level c s
step (sets_serial_consistency c) s = set_default_serial_consistency_level c s
step (sets_fetch_size n) s = set_default_fetch_size n s
step shuts_down s = (shutdown s, accepted tt)

unfoldable pub run : List Operation → PyLegacySession → PyLegacySession
run [] s = s
run (x ∷ xs) s = run xs (step x s).0

-- What the operations answer.
unfoldable pub outcomes : List Operation → PyLegacySession → List (Outcome (Unit {0}))
outcomes [] s = []
outcomes (x ∷ xs) s = (step x s).1 ∷ outcomes xs (step x s).0

abbrev outcome_of_fetch_size : Refusal → Option FetchSize → Outcome (Unit {0})
outcome_of_fetch_size refusal none = refused refusal
outcome_of_fetch_size refusal (some f) = accepted tt

-- What an operation is to answer: with profiles every default but the fetch size is refused, and
-- the fetch size is refused where it is not a positive `i32`.
unfoldable pub outcome_of : Bool → Operation → Outcome (Unit {0})
outcome_of uses_profiles (sets_fetch_size n) =
    outcome_of_fetch_size (size_refusal n) (fetch_size_of n)
outcome_of uses_profiles shuts_down = accepted tt
outcome_of true x = refused defaults_with_profiles
outcome_of false x = accepted tt

-- What was last asked for, by the operations that were accepted.
pub record Asked : Type 0 where
  pub defaults : LegacyDefaults
  pub fetch_size : FetchSize

abbrev pub or_kept : Option FetchSize → FetchSize → FetchSize
or_kept none f = f
or_kept (some f) f' = f

unfoldable pub asked : Bool → Operation → Asked → Asked
asked true (sets_row_factory f) a = a
asked true (sets_timeout t) a = a
asked true (sets_consistency c) a = a
asked true (sets_serial_consistency c) a = a
asked false (sets_row_factory f) a = record a { defaults = record a.defaults { row_factory = f } }
asked false (sets_timeout t) a = record a { defaults = record a.defaults { timeout = t } }
asked false (sets_consistency c) a = record a {
  defaults = record a.defaults { consistency = option_of c };
}
asked false (sets_serial_consistency c) a = record a {
  defaults = record a.defaults { serial_consistency = option_of c };
}
asked uses_profiles (sets_fetch_size n) a = record a {
  fetch_size = or_kept (fetch_size_of n) a.fetch_size;
}
asked uses_profiles shuts_down a = a

unfoldable pub all_asked : Bool → List Operation → Asked → Asked
all_asked uses_profiles [] a = a
all_asked uses_profiles (x ∷ xs) a = all_asked uses_profiles xs (asked uses_profiles x a)

abbrev pub nothing_asked : Asked
nothing_asked = record { defaults = no_defaults; fetch_size = driver }

-- What the getters show.
pub record Shown : Type 0 where
  pub row_factory : Option Obj
  pub fetch_size : Option ℕ
  pub timeout : Option F64
  pub consistency : Consistency
  pub serial_consistency : Option SerialConsistency

abbrev or_else {ℓ} : {A : Type ℓ} → Option A → A → A
or_else none b = b
or_else (some a) b = a

module _ {P : Type 0} (env : Env P) where
  unfoldable pub shown : PyLegacySession → Shown
  unfolding get_row_factory get_default_fetch_size get_default_timeout get_default_consistency_level
      get_default_serial_consistency_level
  shown s = record {
    row_factory = get_row_factory s;
    fetch_size = get_default_fetch_size env s;
    timeout = get_default_timeout env s;
    consistency = get_default_consistency_level env s;
    serial_consistency = get_default_serial_consistency_level env s;
  }

  -- What was asked for, and the default profile's settings where nothing was.
  unfoldable pub shown_of : Asked → Shown
  shown_of a = record {
    row_factory = original_of a.defaults.row_factory;
    fetch_size = shown_fetch_size env a.fetch_size;
    timeout = shown_timeout env a.defaults.timeout;
    consistency = or_else a.defaults.consistency (env.profile_consistency env.default_profile);
    serial_consistency =
        or_else a.defaults.serial_consistency (env.profile_serial_consistency env.default_profile);
  }
