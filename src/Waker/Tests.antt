-- ===== src/Waker/Tests.antt =====
-- A loop with future 20 and batcher 3: tests, and the theorems applied to it.
use python_rs_driver.Common.{◌≡◌, refl, true, false, none, some, List, [], ◌∷◌, ◌++◌}
use python_rs_driver.Common.Python.{ok}
use python_rs_driver.Batcher.{FutureCalls, enqueue, drain, new}
use python_rs_driver.Batcher.Registry.{batcher}
use python_rs_driver.Waker.{
  idle, parked, Parked, EventLoop, yields_next, yield_asyncio_future, take_parked,
}
use python_rs_driver.Waker.Laws.{Call, yields, wakes, resets, delivered, take_parked-drain}

abbrev event_loop : EventLoop
event_loop = record {
  running_loop = ok 1;
  create_future = λ _. ok 20;
  iterator_next = λ f. yields_next (ok f);
  batcher_for = λ _. batcher 3;
  none_object = 0;
}

abbrev calls : List Call
calls = wakes ∷ wakes ∷ yields event_loop ∷ yields event_loop ∷ wakes ∷ wakes ∷ resets ∷ wakes ∷ []

calls-delivered : delivered idle calls ≡ record { future = 20; batcher = 3 } ∷ []
unfolding delivered yield_asyncio_future take_parked
calls-delivered = refl

abbrev quiet : FutureCalls
quiet = record { done_error = λ _. none; set_error = λ _. none }

take_parked-drain_example :
    let p : Parked = record { future = 20; batcher = 3 } in
    let (slot, delivered_to) = take_parked (parked p) in
    let queued = (enqueue new 20).0 in
    let (s', done', _) =
      drain quiet (record queued { queue = queued.queue ++ 21 ∷ [] }) (λ _. false) in
    (slot ≡ idle) × (delivered_to ≡ some p) × (done' 20 ≡ true) × (s'.queue ≡ [])
take_parked-drain_example =
    take_parked-drain (record { future = 20; batcher = 3 }) new (21 ∷ []) quiet (λ _. false)
      (record { done_ok = refl; set_ok = refl })
