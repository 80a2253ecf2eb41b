-- ===== src/Batcher/Tests.antt =====
-- Two pushes that share a batch, a drain, and a push that the loop does not live to see: tests, and
-- the theorems applied to them.
use python_rs_driver.Common.{
  if◌then◌else◌, ◌==◌, ℕ, ◌+◌, ◌<◌, ◌≡◌, ◌≢◌, refl, true, false, none, some, List, [], ◌∷◌, ◌++◌,
  arith,
}
use python_rs_driver.Common.Python.{Obj, ok, value_error}
use python_rs_driver.Batcher.{
  FutureCalls, drain, release_all, release_waiter, pipe, interrupted, written, write_failed,
  loop_dead, accepted, enqueue, discard, take_ready, notify, new,
}
use python_rs_driver.Batcher.Drain.{IsIn, IsCallable, drain_lem}
use python_rs_driver.Batcher.History.{
  start, Event, pushes, notifies, loop_calls, takes, step, run, PossibleRun,
}
use python_rs_driver.Batcher.Conservation.{all_pushed, all_removed, all_removed-run, run-attended}
use python_rs_driver.Batcher.Registry.{
  Registry, batcher_for, batcher_for-race, batcher, asks, evicts, run-keeps,
}
use python_rs_driver.Batcher.Registry

abbrev history : List Event
history =
    pushes 10
    ∷ pushes 11
    ∷ notifies (interrupted ∷ written ∷ []) accepted
    ∷ loop_calls
    ∷ takes
    ∷ pushes 12
    ∷ notifies (write_failed ∷ []) loop_dead
    ∷ []

computing : Unit {0}
unfolding start new enqueue step notify discard take_ready run all_removed drain release_all
    release_waiter
computing = tt

history-PossibleRun : PossibleRun pipe start history
unfolding computing
history-PossibleRun = omega arith

history-removed : all_removed pipe start history ≡ 10 ∷ 11 ∷ []
unfolding computing
history-removed = refl

all_removed-run_example :
    start.state.queue ++ all_pushed history
    ≡ all_removed pipe start history ++ (run pipe start history).state.queue
all_removed-run_example = all_removed-run pipe start history

run-attended_example :
    let w = run pipe start history in 0 < w.notifying + w.discarding + w.due + w.draining
unfolding computing
run-attended_example = run-attended pipe history history-PossibleRun (λ e. cc)

-- Calls on future 11 raise.
abbrev calls : FutureCalls
calls = record {
  done_error = λ f. if f == 11 then some value_error else none;
  set_error = λ _. none;
}

drain_lem_example :
    let (s', done', first_err) =
      drain calls (record { queue = 10 ∷ 11 ∷ []; armed = true }) (λ _. false) in
    (s'.queue ≡ [])
    × (s'.armed ≡ false)
    × ((g : Obj) → IsIn g (10 ∷ 11 ∷ []) → IsCallable calls g → done' g ≡ true)
    × ((g : Obj) → ¬ IsIn g (10 ∷ 11 ∷ []) → done' g ≡ false)
drain_lem_example = drain_lem calls (record { queue = 10 ∷ 11 ∷ []; armed = true }) (λ _. false)

abbrev empty : Registry
empty = λ _. none

batcher_for-race_example :
    let (m1, r) = batcher_for empty empty 5 (record { weak_error = none; new_batcher = ok 1 }) in
    let (m2, r') = batcher_for empty m1 5 (record { weak_error = none; new_batcher = ok 2 }) in
    (r' ≡ r) × ((c : ℕ) × (r ≡ batcher c) × (m2 5 ≡ some c)) × ((k : ℕ) → k ≢ 5 → m2 k ≡ none)
batcher_for-race_example = batcher_for-race empty empty 5 1 2 refl

run-keeps_example :
    Registry.run
      (λ _. some 4)
      (asks empty 5 (record { weak_error = none; new_batcher = ok 1 }) ∷ evicts 6 ∷ [])
      5
    ≡ some 4
run-keeps_example =
    run-keeps (λ _. some 4)
      (asks empty 5 (record { weak_error = none; new_batcher = ok 1 }) ∷ evicts 6 ∷ []) 5 4
      (omega arith, tt) refl
