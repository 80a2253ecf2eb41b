-- ===== src/DriverFuture/Entry.antt =====
-- src/future/mod.rs: what each entry point of a driver future does under the state lock, and what
-- it hands on. An entry is the section that holds the guard; the spawned task is a parameter.
use python_rs_driver.Common.{ℕ, Option, none, some, List, [], ◌∷◌, ◌++◌, map, to_list}
use python_rs_driver.Common.Python.{Obj, PyErr, PyResult, err, panicked_err, dropped_err}
use python_rs_driver.Callbacks.{CallbackKind}
use python_rs_driver.DriverFuture.{
  Convert, InnerPoll, ResolvedResult, ReadyResult, unconverted, converted, get_or_convert,
  PollResult, still_pending, finished, poll_panics, coroutine_poll, into_waker,
  into_future_and_waker, FutureState, pending_asyncio, pending_tokio, settled, panicked_state,
  raise_stop_iteration,
}
use python_rs_driver.DriverFuture
use python_rs_driver.Waker.{Yielded, returns}
use python_rs_driver.Waker

-- What a call returns: nothing, an object or an exception, a wait for the condvar, or a panic, which
-- unwinds with or without the guard.
pub data Answer : Type 0 where
  done_with waits panics panics_locked : Answer
  answers : PyResult Obj → Answer

-- A callback that is invoked, and the outcome that it is invoked for.
abbrev pub Fired : Type 0
Fired = CallbackKind × PyResult Obj

-- What a call does besides changing the state: the callbacks fired, the waker woken, and how many
-- blocked threads the notification is for.
pub record Reply : Type 0 where
  pub answer : Answer
  pub fired : List Fired
  pub woken : List ℕ
  pub notified : ℕ

abbrev pub quiet : Answer → Reply
quiet a = record { answer = a; fired = []; woken = []; notified = 0 }

-- What `resolve_on_tokio` leaves to `fire_and_notify`, at once or on a blocking thread.
pub record Job : Type 0 where
  pub callbacks : List CallbackKind
  pub waker : ℕ
  pub waiters : ℕ

abbrev pub Section : Type 0
Section = FutureState × Reply × List Job

-- `CallbackKind::fire_all`, as the list of what it invokes.
unfoldable pub fire_all : List CallbackKind → PyResult Obj → List Fired
fire_all cbs result = map (λ cb. (cb, result)) cbs

unfoldable pub transition_to_tokio : ℕ → FutureState
transition_to_tokio waker = pending_tokio [] waker

unfoldable pub ensure_started : ℕ → FutureState → FutureState
unfolding transition_to_tokio into_future_and_waker
ensure_started fresh (pending_asyncio c) = transition_to_tokio (into_future_and_waker c fresh).1
ensure_started fresh other = other

unfoldable pub start : ℕ → FutureState → Section
unfolding ensure_started
start fresh s = (ensure_started fresh s, quiet done_with, [])

-- The end of `poll_coroutine` and `throw_into` after a poll of the coroutine.
unfoldable pub after_poll : PollResult → Section
unfolding raise_stop_iteration
after_poll (still_pending c value) = (pending_asyncio c, quiet (answers value), [])
after_poll (finished r) =
    (settled (converted r), quiet (answers (err (raise_stop_iteration r))), [])
after_poll poll_panics = (panicked_state, quiet panics_locked, [])

abbrev pub answer_of : Yielded → Answer
answer_of (returns value) = answers value
answer_of Waker.panics = panics

-- `inner` and `yielded` are what the driver future and the waker answer, `fresh` a new waker.
unfoldable pub poll_coroutine : Convert → ℕ → InnerPoll → Yielded → FutureState → Section
unfolding get_or_convert raise_stop_iteration coroutine_poll after_poll
poll_coroutine convert fresh inner yielded (settled r) =
    let (r', result) = get_or_convert convert r in
    (settled r', quiet (answers (err (raise_stop_iteration result))), [])
poll_coroutine convert fresh inner yielded (pending_tokio cbs w) =
    (pending_tokio cbs w, quiet (answer_of yielded), [])
poll_coroutine convert fresh inner yielded (pending_asyncio c) =
    after_poll (coroutine_poll convert c none fresh inner yielded)
poll_coroutine convert fresh inner yielded panicked_state =
    (panicked_state, quiet (answers (err panicked_err)), [])

unfoldable pub close_future : PyErr → (waiters : ℕ) → FutureState → Section
unfolding fire_all into_waker
close_future exc n (pending_tokio cbs w) = (
  settled (converted (err exc)),
  record { answer = done_with; fired = fire_all cbs (err exc); woken = w ∷ []; notified = n },
  [],
)
close_future exc n (pending_asyncio c) = (
  settled (converted (err exc)),
  record { answer = done_with; fired = []; woken = to_list (into_waker c); notified = 0 },
  [],
)
close_future exc n terminal = (terminal, quiet done_with, [])

unfoldable pub throw_into : Convert → PyErr → (waiters : ℕ) → FutureState → Section
unfolding fire_all coroutine_poll after_poll
throw_into convert exc n (pending_asyncio c) =
    after_poll (coroutine_poll convert c (some exc) 0 DriverFuture.pending Waker.panics)
throw_into convert exc n (pending_tokio cbs w) = (
  settled (converted (err exc)),
  record {
    answer = answers (err exc);
    fired = fire_all cbs (err exc);
    woken = w ∷ [];
    notified = n;
  },
  [],
)
throw_into convert exc n terminal = (terminal, quiet (answers (err exc)), [])

abbrev pub push_callback : CallbackKind → FutureState → Section
push_callback cb (pending_tokio cbs w) = (pending_tokio (cbs ++ cb ∷ []) w, quiet done_with, [])
push_callback cb s = (s, quiet panics_locked, [])

abbrev pub invoked : CallbackKind → PyResult Obj → Reply
invoked cb result = record {
  answer = done_with;
  fired = (cb, result) ∷ [];
  woken = [];
  notified = 0;
}

unfoldable pub register_callback : Convert → ℕ → CallbackKind → FutureState → Section
unfolding get_or_convert ensure_started
register_callback convert fresh cb (settled r) =
    let (r', result) = get_or_convert convert r in (settled r', invoked cb result, [])
register_callback convert fresh cb (pending_tokio cbs w) = push_callback cb (pending_tokio cbs w)
register_callback convert fresh cb (pending_asyncio c) =
    push_callback cb (ensure_started fresh (pending_asyncio c))
register_callback convert fresh cb panicked_state =
    (panicked_state, invoked cb (err panicked_err), [])

-- `block_until_ready` up to the wait.
unfoldable pub block_until_ready : Convert → ℕ → FutureState → Section
unfolding get_or_convert ensure_started
block_until_ready convert fresh (settled r) =
    let (r', result) = get_or_convert convert r in (settled r', quiet (answers result), [])
block_until_ready convert fresh panicked_state =
    (panicked_state, quiet (answers (err panicked_err)), [])
block_until_ready convert fresh s = (ensure_started fresh s, quiet waits, [])

-- The end of `wait_for_ready`, after a wait that did not time out.
unfoldable pub wait_for_ready : Convert → FutureState → Section
unfolding get_or_convert
wait_for_ready convert (settled r) =
    let (r', result) = get_or_convert convert r in (settled r', quiet (answers result), [])
wait_for_ready convert s = (s, quiet (answers (err panicked_err)), [])

-- `cancelled` and `__repr__` convert the result to look at it.
unfoldable pub inspect : Convert → FutureState → Section
unfolding get_or_convert
inspect convert (settled r) = (settled (get_or_convert convert r).0, quiet done_with, [])
inspect convert s = (s, quiet done_with, [])

-- `resolve_on_tokio`: `outcome` is `none` for a task dropped before it completed.
abbrev pub ready_result : Option ResolvedResult → ReadyResult
ready_result (some r) = unconverted r
ready_result none = converted (err dropped_err)

unfoldable pub resolve_on_tokio : Option ResolvedResult → (waiters : ℕ) → FutureState → Section
resolve_on_tokio outcome n (pending_tokio cbs w) = (
  settled (ready_result outcome),
  quiet done_with,
  record { callbacks = cbs; waker = w; waiters = n } ∷ [],
)
resolve_on_tokio outcome n other = (other, quiet done_with, [])

abbrev pub notifying : Job → List Fired → Reply
notifying j fired = record {
  answer = done_with;
  fired = fired;
  woken = j.waker ∷ [];
  notified = j.waiters;
}

-- The section of `fire_and_notify`, for a job with callbacks.
unfoldable pub fire_ready : Convert → Job → FutureState → Section
unfolding get_or_convert fire_all
fire_ready convert j (settled r) =
    let (r', result) = get_or_convert convert r in
    (settled r', notifying j (fire_all j.callbacks result), [])
fire_ready convert j s = (s, quiet panics_locked, [])
