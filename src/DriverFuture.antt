-- ===== src/DriverFuture.antt =====
-- src/future/boxed_future.rs, src/future/panics.rs, `Coroutine` of src/future/asyncio/mod.rs and the
-- state of src/future/mod.rs: a driver future, what it resolves to, and the coroutine around it.
-- `DriverFuture.Entry` has the entry points, `DriverFuture.History` sequences of them.
pub mod Entry
pub mod History
pub mod Outcome
pub mod Poison
pub mod Sound
pub mod Balance
pub mod Conservation
pub mod Tests
use python_rs_driver.Common.{ℕ, Bool, true, false, Option, none, some, List, [], ◌∷◌, ◌⊎◌, inl, inr}
use python_rs_driver.Common.Python.{Obj, PyErr, PyResult, ok, err, panicked_err, stop_iteration}
use python_rs_driver.Callbacks.{CallbackKind}
use python_rs_driver.Waker.{Yielded, returns}
use python_rs_driver.Waker

-- `Result<T, E>` of a driver future, before its conversion to Python.
abbrev pub Output : Type 0
Output = PyResult ℕ

-- `StashingFuture`: the slot of a boxed driver future.
pub record StashingFuture : Type 0 where
  pub output : Option Output

-- What polling the inner future answers; a panic carries the error made of its payload.
pub data InnerPoll : Type 0 where
  pending : InnerPoll
  resolved : Output → InnerPoll
  panicked : PyErr → InnerPoll

-- `Poll<Result<(), PyErr>>`.
pub data Poll : Type 0 where
  not_ready : Poll
  ready : PyResult (Unit {0}) → Poll

-- `poll_stash` under `poll_catch_panics`: fused once the output is stashed.
unfoldable pub poll_catch_panics : StashingFuture → InnerPoll → StashingFuture × Poll
poll_catch_panics (f) inner = elim f.output [
  | some o ↦ (f, ready (ok tt))
  | none ↦ elim inner [
    | pending ↦ (f, not_ready)
    | resolved o ↦ (record { output = some o }, ready (ok tt))
    | panicked e ↦ (f, ready (err e))
  ]
]

-- What `IntoPyObject` answers for a value, a panic with the error made of its payload.
pub data Conversion : Type 0 where
  converts : PyResult Obj → Conversion
  conversion_panics : PyErr → Conversion

abbrev pub Convert : Type 0
Convert = ℕ → Conversion

pub data ResolvedResult : Type 0 where
  stashed : StashingFuture → ResolvedResult
  failed : PyErr → ResolvedResult

unfoldable pub into_py_result_of : Convert → Option Output → Conversion
into_py_result_of convert none = converts (err panicked_err)
into_py_result_of convert (some (err e)) = converts (err e)
into_py_result_of convert (some (ok v)) = convert v

unfoldable pub into_py_result : Convert → ResolvedResult → Conversion
unfolding into_py_result_of
into_py_result convert (stashed f) = into_py_result_of convert f.output
into_py_result convert (failed e) = converts (err e)

abbrev pub caught : Conversion → PyResult Obj
caught (converts r) = r
caught (conversion_panics e) = err e

unfoldable pub resolve_catch_panics : Convert → ResolvedResult → PyResult Obj
unfolding into_py_result
resolve_catch_panics convert r = caught (into_py_result convert r)

-- `catch_panics` of the future on tokio: `polls` is how the polls of the inner future end.
unfoldable pub catch_panics : StashingFuture → Output ⊎ PyErr → ResolvedResult
catch_panics f (inl o) = stashed (record { output = some o })
catch_panics f (inr e) = failed e

-- `ReadyResult`.
pub data ReadyResult : Type 0 where
  unconverted : ResolvedResult → ReadyResult
  converted : PyResult Obj → ReadyResult

unfoldable pub get_or_convert : Convert → ReadyResult → ReadyResult × PyResult Obj
unfolding resolve_catch_panics
get_or_convert convert (unconverted r) =
    let result = resolve_catch_panics convert r in (converted result, result)
get_or_convert convert (converted result) = (converted result, result)

-- A waker is known by its identity; what it does is `Waker`'s.
pub record Coroutine : Type 0 where
  pub future : StashingFuture
  pub waker : Option ℕ

pub data PollResult : Type 0 where
  still_pending : Coroutine → PyResult Obj → PollResult
  finished : PyResult Obj → PollResult
  poll_panics : PollResult

abbrev pub waker_or : ℕ → Option ℕ → ℕ
waker_or fresh none = fresh
waker_or fresh (some w) = w

-- What the waker yields to the event loop: a panic unwinds out of the poll.
abbrev pub park : Coroutine → Yielded → PollResult
park c (returns value) = still_pending c value
park c Waker.panics = poll_panics

abbrev pub polled : Convert → ℕ → StashingFuture → Poll → Yielded → PollResult
unfolding resolve_catch_panics
polled convert waker f (ready (ok _)) yielded = finished (resolve_catch_panics convert (stashed f))
polled convert waker f (ready (err e)) yielded = finished (err e)
polled convert waker f not_ready yielded = park (record { future = f; waker = some waker }) yielded

-- `Coroutine::poll`: `fresh` is the waker that it creates if it has none.
unfoldable pub coroutine_poll :
    Convert → Coroutine → Option PyErr → ℕ → InnerPoll → Yielded → PollResult
unfolding poll_catch_panics resolve_catch_panics
coroutine_poll convert c (some exc) fresh inner yielded = finished (err exc)
coroutine_poll convert c none fresh inner yielded =
    let (f, poll) = poll_catch_panics c.future inner in
    polled convert (waker_or fresh c.waker) f poll yielded

unfoldable pub into_waker : Coroutine → Option ℕ
into_waker c = c.waker

unfoldable pub into_future_and_waker : Coroutine → ℕ → StashingFuture × ℕ
into_future_and_waker c fresh = (c.future, waker_or fresh c.waker)

pub data FutureState : Type 0 where
  pending_asyncio : Coroutine → FutureState
  pending_tokio : List CallbackKind → (waker : ℕ) → FutureState
  settled : ReadyResult → FutureState
  panicked_state : FutureState

unfoldable pub is_terminal : FutureState → Bool
is_terminal (settled r) = true
is_terminal panicked_state = true
is_terminal _ = false

unfoldable pub raise_stop_iteration : PyResult Obj → PyErr
raise_stop_iteration (ok v) = stop_iteration v
raise_stop_iteration (err e) = e

-- `StateLock`: the state, the threads blocked on it, and whether a panic while the mutex was held
-- has poisoned it.
pub record StateLock : Type 0 where
  pub state : FutureState
  pub waiters : ℕ
  pub poisoned : Bool
