-- ===== src/LegacySession/Tests.antt =====
-- A session in the legacy mode and its requests.
use python_rs_driver.Common.{true, false, none, some, List, [], ◌∷◌, ◌++◌, ◌≡◌}
use python_rs_driver.Common.Python.{Obj}
use python_rs_driver.CqlTypes.{pos}
use python_rs_driver.Statements.{Config, set_to, quorum, one, at_serial}
use python_rs_driver.Statements.Tests.{configs, configs-IsConfigurable, fresh, seconds}
use python_rs_driver.Statements.Executable.{Library, IsLibrary, unprepared}
use python_rs_driver.LegacySession.{LegacyQuery, statement, never, after}
use python_rs_driver.LegacySession.Session.{
  Outcome, refused, shut_down, Env, PyLegacySession, new, Arguments,
}
use python_rs_driver.LegacySession.Requests.{configured, execute_async}
use python_rs_driver.LegacySession.Settings.{prepare, set_keyspace}
use python_rs_driver.LegacySession.Precedence.{IsConfigured}
use python_rs_driver.LegacySession.Winning.{configured-IsConfigured}
use python_rs_driver.LegacySession.History.{
  Operation, sets_timeout, sets_consistency, sets_serial_consistency, sets_fetch_size, shuts_down,
  run,
}
use python_rs_driver.LegacySession.Remembered.{refusal_of, run-refused}

abbrev library : Library Config Config Config
library = record { prepared = configs; statement = configs; batch = configs }

library-IsLibrary : IsLibrary library
library-IsLibrary = record {
  prepared_laws = configs-IsConfigurable;
  statement_laws = configs-IsConfigurable;
  batch_laws = configs-IsConfigurable;
}

abbrev env : Env Config
env = record {
  seconds = seconds;
  profile_request_timeout = λ h. some 30;
  profile_consistency = λ h. one;
  profile_serial_consistency = λ h. some at_serial;
  default_profile = 1;
  driver_page_size = 5000;
  serialize_values = λ p vs. none;
  paging_start = 0;
  named_tuple = 2;
}

-- A statement with a consistency of its own.
abbrev query : LegacyQuery Config Config Config
query = statement (record {
  kind = unprepared (record fresh { consistency = some quorum });
  row_factory = none;
  is_page_size_set = false;
  is_serial_consistency_set = false;
})

abbrev arguments : Arguments
arguments = record {
  parameters = none;
  trace = some true;
  custom_payload = none;
  timeout = after 7;
  execution_profile = none;
  paging_state = none;
  host = none;
  execute_as = none;
}

abbrev operations : List Operation
operations =
    sets_timeout never
    ∷ sets_consistency (set_to one)
    ∷ sets_fetch_size (some (pos 10))
    ∷ sets_fetch_size (some (pos 0))
    ∷ sets_serial_consistency (set_to none)
    ∷ []

abbrev session : PyLegacySession
session = run operations (new none false)

configured-IsConfigured_example :
    IsConfigured library session arguments query (configured library session arguments query)
configured-IsConfigured_example =
    configured-IsConfigured library library-IsLibrary session arguments query

abbrev no_answer : Outcome Obj
no_answer = refused shut_down

run-refused_example :
    let closed = run (operations ++ (shuts_down ∷ operations)) (new none true) in
    (execute_async library env closed arguments query ≡ refused (refusal_of none none))
    × (prepare closed none (some 3) no_answer ≡ refused (refusal_of none (some 3)))
    × (set_keyspace closed no_answer ≡ refused shut_down)
run-refused_example =
    run-refused library env operations operations (new none true) arguments query none (some 3)
      no_answer
