-- ===== src/DriverFuture/Tests.antt =====
-- Runs of a driver future, and the theorems about it at them.
use python_rs_driver.Common.{none, some, List, [], ◌∷◌, ◌≡◌, refl, ◌+◌}
use python_rs_driver.Common.Python.{Obj, PyResult, ok, closed_err}
use python_rs_driver.Callbacks.{success, error, done}
use python_rs_driver.Waker
use python_rs_driver.DriverFuture
use python_rs_driver.DriverFuture.Poison.{pending_world, enter-poisoned}
use python_rs_driver.DriverFuture.{
  Coroutine, coroutine_poll, poll_panics, panicked_state, Convert, converts, stashed,
  pending_asyncio, StashingFuture,
}
use python_rs_driver.DriverFuture.Entry.{
  quiet, panics, register_callback, resolve_on_tokio, fire_ready, close_future,
}
use python_rs_driver.DriverFuture.History.{
  Entry, polls, enter, section, Event, enters, fires, registers, resolves, closes, World, run,
  new_world, outcome,
}
use python_rs_driver.DriverFuture.Sound.{Sound, run-Sound}
use python_rs_driver.DriverFuture.Balance.{Weight, total, invoked_callbacks, outstanding}
use python_rs_driver.DriverFuture.Conservation.{accepted, run-conserves}
use python_rs_driver.DriverFuture.Outcome.{AllFired, run-Settles}

abbrev plus_ten : Convert
plus_ten v = converts (ok (v + 10))

abbrev fresh_future : World
fresh_future =
    new_world (pending_asyncio (record { future = record { output = none }; waker = none }))

fresh_future-Sound : Sound fresh_future
unfolding new_world
fresh_future-Sound = (refl, λ h. cc)

abbrev stashed_seven : StashingFuture
stashed_seven = record { output = some (ok 7) }

-- A callback before the future resolves, one between that and the blocking job, one after it.
abbrev three_callbacks : List Event
three_callbacks =
    enters (registers 1 (success 2))
    ∷ enters (resolves (some (stashed stashed_seven)))
    ∷ enters (registers 1 (done 3 4))
    ∷ fires
    ∷ enters (closes closed_err)
    ∷ enters (registers 1 (error 5))
    ∷ []

abbrev by_callable : Weight
by_callable (success f) = f
by_callable (error f) = f
by_callable (done f future) = f

three_callbacks-fired :
    (run plus_ten fresh_future three_callbacks).1
    ≡ (done 3 4, ok 17) ∷ (success 2, ok 17) ∷ (error 5, ok 17) ∷ []
unfolding run new_world section register_callback resolve_on_tokio fire_ready close_future
three_callbacks-fired = refl

run-Settles_example :
    let (w', fired) = run plus_ten fresh_future three_callbacks in
    ((r : PyResult Obj)
      → outcome plus_ten fresh_future.lock.state ≡ some r
      → outcome plus_ten w'.lock.state ≡ some r)
    × AllFired (outcome plus_ten w'.lock.state) fired
run-Settles_example = run-Settles plus_ten fresh_future three_callbacks

run-conserves_example :
    let (w', fired) = run plus_ten fresh_future three_callbacks in
    total by_callable (accepted plus_ten fresh_future three_callbacks)
      + total by_callable (outstanding fresh_future)
    ≡ total by_callable (invoked_callbacks fired) + total by_callable (outstanding w')
run-conserves_example =
    run-conserves by_callable plus_ten fresh_future three_callbacks fresh_future-Sound

run-Sound_example : Sound (run plus_ten fresh_future three_callbacks).0
run-Sound_example = run-Sound plus_ten fresh_future three_callbacks fresh_future-Sound

abbrev idle_coroutine : Coroutine
idle_coroutine = record { future = record { output = none }; waker = none }

waker-panics :
    coroutine_poll plus_ten idle_coroutine none 1 DriverFuture.pending Waker.panics ≡ poll_panics
unfolding coroutine_poll
waker-panics = refl

enter-poisoned_example :
    let w =
      (enter plus_ten
        (polls 1 DriverFuture.pending Waker.panics)
        (pending_world idle_coroutine 0)).0 in
    (w.lock.state ≡ panicked_state) × ((e : Entry) → enter plus_ten e w ≡ (w, quiet panics))
enter-poisoned_example =
    enter-poisoned plus_ten idle_coroutine 0 1 DriverFuture.pending Waker.panics waker-panics
