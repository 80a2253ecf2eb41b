-- ===== src/LegacySession/Remembered.antt =====
-- src/legacy/session.rs: the session's getters after any sequence of settings, and its requests after
-- a shutdown.
use python_rs_driver.Common.{Bool, true, false, Option, none, some, List, [], ◌∷◌, ◌++◌, ◌≡◌, refl}
use python_rs_driver.Common.Python.{Obj}
use python_rs_driver.Statements.Executable.{Library}
use python_rs_driver.LegacySession.{
  LegacyQuery, FetchSize, LegacyDefaults, ConfigMode, uncommitted, profiles, legacy,
}
use python_rs_driver.LegacySession.Session.{
  Outcome, refused, Refusal, shut_down, not_supported, Env, PyLegacySession, Arguments,
}
use python_rs_driver.LegacySession.Requests.{execute_async}
use python_rs_driver.LegacySession.Settings.{
  no_defaults, with_fetch_size, size_refusal, fetch_size_of, shutdown, prepare, set_keyspace,
}
use python_rs_driver.LegacySession.History.{
  Operation, sets_row_factory, sets_timeout, sets_consistency, sets_serial_consistency,
  sets_fetch_size, shuts_down, step, run, Asked,
}

-- A session with profiles has no defaults, and another one those that were asked for.
abbrev Remembers : Bool → ConfigMode → LegacyDefaults → Type 0
Remembers true profiles d = no_defaults ≡ d
Remembers false uncommitted d = no_defaults ≡ d
Remembers false (legacy d') d = d' ≡ d
Remembers _ _ _ = ⊥

abbrev Holds : Bool → PyLegacySession → Asked → Type 0
Holds b s a = Remembers b s.settings.mode a.defaults × (s.settings.fetch_size ≡ a.fetch_size)

abbrev pub is_profiles : ConfigMode → Bool
is_profiles profiles = true
is_profiles mode = false

shut-fetch :
    (s : PyLegacySession) (refusal : Refusal) (f : Option FetchSize)
    → s.is_shutdown ≡ true
    → (with_fetch_size s refusal f).0.is_shutdown ≡ true
shut-fetch s refusal none h = h
shut-fetch s refusal (some f) h = h

shut-step :
    (x : Operation) (s : PyLegacySession) → s.is_shutdown ≡ true → (step x s).0.is_shutdown ≡ true
unfolding step
shut-step (sets_row_factory f) s h = h
shut-step (sets_timeout t) s h = h
shut-step (sets_consistency c) s h = h
shut-step (sets_serial_consistency c) s h = h
shut-step (sets_fetch_size n) s h = shut-fetch s (size_refusal n) (fetch_size_of n) h
shut-step shuts_down s h = refl

shut-run :
    (xs : List Operation) (s : PyLegacySession)
    → s.is_shutdown ≡ true
    → (run xs s).is_shutdown ≡ true
unfolding run
shut-run [] s h = h
shut-run (x ∷ xs) s h = shut-run xs (step x s).0 (shut-step x s h)

run-shuts_down :
    (before later : List Operation) (s : PyLegacySession)
    → (run (before ++ (shuts_down ∷ later)) s).is_shutdown ≡ true
unfolding run step shutdown
run-shuts_down [] later s = shut-run later (record s { is_shutdown = true }) refl
run-shuts_down (x ∷ before) later s = run-shuts_down before later (step x s).0

-- The arguments that are refused whatever the session does.
abbrev pub refusal_of : Option Obj → Option Obj → Refusal
refusal_of none none = shut_down
refusal_of x y = not_supported

refused_lem :
    {P S B : Type 0} (lib : Library P S B) (env : Env P) (s : PyLegacySession) (args : Arguments)
    (q : LegacyQuery P S B) (payload execute_as : Option Obj)
    → args.custom_payload ≡ payload
    → args.execute_as ≡ execute_as
    → s.is_shutdown ≡ true
    → execute_async lib env s args q ≡ refused (refusal_of payload execute_as)
unfolding execute_async
refused_lem lib env s args q none none e f h = rw e (rw f (rw h refl))
refused_lem lib env s args q none (some x) e f h = rw e (rw f refl)
refused_lem lib env s args q (some x) y e f h = rw e refl

prepare_lem :
    (s : PyLegacySession) (payload keyspace : Option Obj) (answer : Outcome Obj)
    → s.is_shutdown ≡ true
    → prepare s payload keyspace answer ≡ refused (refusal_of payload keyspace)
unfolding prepare
prepare_lem s none none answer h = rw h refl
prepare_lem s none (some x) answer h = refl
prepare_lem s (some x) y answer h = refl

-- Once the session was shut down, whatever settings come before and after, every `execute_async`,
-- `prepare` and `set_keyspace` is refused, for the shutdown unless an argument is not supported.
pub run-refused :
    {P S B : Type 0} (lib : Library P S B) (env : Env P) (before later : List Operation)
    (s : PyLegacySession) (args : Arguments) (q : LegacyQuery P S B)
    (custom_payload keyspace : Option Obj) (answer : Outcome Obj)
    → let closed = run (before ++ (shuts_down ∷ later)) s in
      (execute_async lib env closed args q
        ≡ refused (refusal_of args.custom_payload args.execute_as))
      × (prepare closed custom_payload keyspace answer
          ≡ refused (refusal_of custom_payload keyspace))
      × (set_keyspace closed answer ≡ refused shut_down)
unfolding set_keyspace
run-refused lib env before later s args q custom_payload keyspace answer =
    let closed = run (before ++ (shuts_down ∷ later)) s in
    let h = run-shuts_down before later s in
    (
      refused_lem lib env closed args q args.custom_payload args.execute_as refl refl h,
      prepare_lem closed custom_payload keyspace answer h,
      rw h refl,
    )
