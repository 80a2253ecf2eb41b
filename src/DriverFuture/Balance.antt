-- ===== src/DriverFuture/Balance.antt =====
-- What each entry point of a driver future does with the callbacks, counted.
use python_rs_driver.Common.{ℕ, none, List, [], ◌∷◌, ◌++◌, ◌≡◌, refl, ◌+◌, map, append-nil, arith}
use python_rs_driver.Common.Python.{Obj, PyResult, err}
use python_rs_driver.Callbacks.{CallbackKind}
use python_rs_driver.DriverFuture.{
  Convert, FutureState, pending_asyncio, pending_tokio, settled, panicked_state, Coroutine,
  PollResult, still_pending, finished, poll_panics, coroutine_poll, into_future_and_waker,
}
use python_rs_driver.DriverFuture.Entry.{
  Fired, Job, Section, start, poll_coroutine, close_future, throw_into, register_callback,
  block_until_ready, wait_for_ready, inspect, resolve_on_tokio, after_poll, fire_all,
  ensure_started, transition_to_tokio,
}
use python_rs_driver.DriverFuture.History.{
  section, Entry, starts, polls, closes, throws, registers, reads, rereads, inspects, resolves,
  World,
}

-- A weighting of the callbacks: two lists with the same total under every weighting have the same
-- callbacks, each as often.
abbrev pub Weight : Type 0
Weight = CallbackKind → ℕ

unfoldable pub total : Weight → List CallbackKind → ℕ
total f [] = 0
total f (cb ∷ cbs) = f cb + total f cbs

unfoldable pub invoked_callbacks : List Fired → List CallbackKind
invoked_callbacks fired = map (λ (x : Fired). x.0) fired

-- The callbacks that wait for the outcome, in the state and in the jobs.
abbrev pub waiting : FutureState → List CallbackKind
waiting (pending_tokio cbs w) = cbs
waiting _ = []

unfoldable pub owed : List Job → List CallbackKind
owed [] = []
owed (j ∷ js) = j.callbacks ++ owed js

unfoldable pub outstanding : World → List CallbackKind
unfolding owed
outstanding w = waiting w.lock.state ++ owed w.jobs

-- The callback that an entry hands over.
abbrev pub asked : Entry → List CallbackKind
asked (registers fresh cb) = cb ∷ []
asked _ = []

pub total-append :
    (f : Weight) (xs ys : List CallbackKind) → total f (xs ++ ys) ≡ total f xs + total f ys
unfolding total
total-append f [] ys = omega arith
total-append f (x ∷ xs) ys = rw (total-append f xs ys) (omega arith)

pub total-fire_all :
    (f : Weight) (cbs : List CallbackKind) (r : PyResult Obj)
    → total f (invoked_callbacks (fire_all cbs r)) ≡ total f cbs
unfolding total fire_all invoked_callbacks
total-fire_all f [] r = refl
total-fire_all f (cb ∷ cbs) r = rw (total-fire_all f cbs r) refl

-- What an entry is given and what waited before it are what it fires and what waits after it.
abbrev pub Balance : Weight → List CallbackKind → FutureState → Section → Type 0
Balance f given s x =
    total f given + total f (waiting s)
    ≡ total f (invoked_callbacks x.1.fired) + (total f (waiting x.0) + total f (owed x.2))

after_poll-Balance :
    (f : Weight) (c : Coroutine) (p : PollResult) → Balance f [] (pending_asyncio c) (after_poll p)
unfolding after_poll total owed invoked_callbacks
after_poll-Balance f c (still_pending c' value) = refl
after_poll-Balance f c (finished r) = refl
after_poll-Balance f c poll_panics = refl

pub section-Balance :
    (f : Weight) (convert : Convert) (n : ℕ) (e : Entry) (s : FutureState)
    → Balance f (asked e) s (section convert n e s)
unfolding section start ensure_started poll_coroutine close_future throw_into register_callback
    block_until_ready wait_for_ready inspect resolve_on_tokio transition_to_tokio
    into_future_and_waker total owed invoked_callbacks
section-Balance f convert n (starts fresh) (pending_asyncio c) = omega arith
section-Balance f convert n (starts fresh) (pending_tokio cbs w) = omega arith
section-Balance f convert n (starts fresh) (settled r) = omega arith
section-Balance f convert n (starts fresh) panicked_state = omega arith
section-Balance f convert n (polls fresh inner yielded) (pending_asyncio c) =
    after_poll-Balance f c (coroutine_poll convert c none fresh inner yielded)
section-Balance f convert n (polls fresh inner yielded) (pending_tokio cbs w) = omega arith
section-Balance f convert n (polls fresh inner yielded) (settled r) = omega arith
section-Balance f convert n (polls fresh inner yielded) panicked_state = omega arith
section-Balance f convert n (closes exc) (pending_asyncio c) = omega arith
section-Balance f convert n (closes exc) (pending_tokio cbs w) =
    rw (total-fire_all f cbs (err exc)) (omega arith)
section-Balance f convert n (closes exc) (settled r) = omega arith
section-Balance f convert n (closes exc) panicked_state = omega arith
section-Balance f convert n (throws exc) (pending_asyncio c) = omega arith
section-Balance f convert n (throws exc) (pending_tokio cbs w) =
    rw (total-fire_all f cbs (err exc)) (omega arith)
section-Balance f convert n (throws exc) (settled r) = omega arith
section-Balance f convert n (throws exc) panicked_state = omega arith
section-Balance f convert n (registers fresh cb) (pending_asyncio c) = omega arith
section-Balance f convert n (registers fresh cb) (pending_tokio cbs w) =
    rw (total-append f cbs (cb ∷ [])) (omega arith)
section-Balance f convert n (registers fresh cb) (settled r) = omega arith
section-Balance f convert n (registers fresh cb) panicked_state = omega arith
section-Balance f convert n (reads fresh) (pending_asyncio c) = omega arith
section-Balance f convert n (reads fresh) (pending_tokio cbs w) = omega arith
section-Balance f convert n (reads fresh) (settled r) = omega arith
section-Balance f convert n (reads fresh) panicked_state = omega arith
section-Balance f convert n rereads (pending_asyncio c) = omega arith
section-Balance f convert n rereads (pending_tokio cbs w) = omega arith
section-Balance f convert n rereads (settled r) = omega arith
section-Balance f convert n rereads panicked_state = omega arith
section-Balance f convert n inspects (pending_asyncio c) = omega arith
section-Balance f convert n inspects (pending_tokio cbs w) = omega arith
section-Balance f convert n inspects (settled r) = omega arith
section-Balance f convert n inspects panicked_state = omega arith
section-Balance f convert n (resolves o) (pending_asyncio c) = omega arith
section-Balance f convert n (resolves o) (pending_tokio cbs w) = rw (append-nil cbs) (omega arith)
section-Balance f convert n (resolves o) (settled r) = omega arith
section-Balance f convert n (resolves o) panicked_state = omega arith
