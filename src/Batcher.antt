-- ===== src/Batcher.antt =====
-- src/future/asyncio/batcher.rs: the completion queue of one event loop, and how the first push of
-- a batch gets a drain onto the loop thread. `Batcher.Drain` proves the drain, `Batcher.History`
-- and `Batcher.Conservation` interleavings of pushes, notifications, discards and drains.
pub mod Drain
pub mod History
pub mod Conservation
pub mod Registry
pub mod Tests
use python_rs_driver.Common.{
  ℕ, zero, suc, Bool, true, false, not, Option, none, some, List, [], ◌∷◌, ◌++◌, ◌==◌,
  if◌then◌else◌,
}
use python_rs_driver.Common.Python.{Obj, PyErr, PyResult, ok, err}

-- `State`: the parked `asyncio.Future`s, and whether a drain is on its way.
pub record State : Type 0 where
  pub queue : List Obj
  pub armed : Bool

unfoldable pub new : State
new = record { queue = []; armed = false }

-- The section of `push` under the lock, and whether the push is the first of its batch.
unfoldable pub enqueue : State → Obj → State × Bool
enqueue s future = (record { queue = s.queue ++ future ∷ []; armed = true }, not s.armed)

-- The sections of `discard` and of `drain` under the lock, and the futures taken.
unfoldable pub discard : State → State × List Obj
discard s = (record { queue = []; armed = false }, s.queue)

unfoldable pub take_ready : State → State × List Obj
take_ready s = (record { queue = []; armed = false }, s.queue)

pub data NotifierKind : Type 0 where
  call_soon pipe : NotifierKind

-- What a one-byte `write(2)` on the non-blocking write end may answer.
pub data WriteOutcome : Type 0 where
  written would_block interrupted write_failed : WriteOutcome

-- What `call_soon_threadsafe` meets: the weak reference of the loop is dead, the call is accepted,
-- or it raises; `is_closed` is what the loop then says of itself, an error for a failed call.
pub data CallSoon : Type 0 where
  loop_dead accepted : CallSoon
  refused : PyErr → (is_closed : PyResult Bool) → CallSoon

-- How a notification ends: with a drain scheduled by this call, with one that was due already, or
-- with a loop that is gone; and the errors that it logs.
pub data Notified : Type 0 where
  scheduled already_readable loop_gone : Notified

abbrev unwrap_or_true : PyResult Bool → Bool
unwrap_or_true (ok b) = b
unwrap_or_true (err e) = true

unfoldable pub schedule_drain_call_soon : CallSoon → Notified × List PyErr
schedule_drain_call_soon loop_dead = (loop_gone, [])
schedule_drain_call_soon accepted = (scheduled, [])
schedule_drain_call_soon (refused e is_closed) =
    (loop_gone, if unwrap_or_true is_closed then [] else e ∷ [])

-- The loop of `notify` over the answers of the writes; `none` while each of them was interrupted.
unfoldable pub notify_pipe : List WriteOutcome → CallSoon → Option (Notified × List PyErr)
unfolding schedule_drain_call_soon
notify_pipe [] fallback = none
notify_pipe (written ∷ later) fallback = some (scheduled, [])
notify_pipe (would_block ∷ later) fallback = some (already_readable, [])
notify_pipe (interrupted ∷ later) fallback = notify_pipe later fallback
notify_pipe (write_failed ∷ later) fallback = some (schedule_drain_call_soon fallback)

unfoldable pub notify : NotifierKind → List WriteOutcome → CallSoon → Option (Notified × List PyErr)
unfolding notify_pipe
notify pipe writes fallback = notify_pipe writes fallback
notify call_soon writes fallback = some (schedule_drain_call_soon fallback)

-- What `future.done()`, the extraction of its answer and `future.set_result(None)` raise, if they do.
pub record FutureCalls : Type 0 where
  pub done_error : Obj → Option PyErr
  pub set_error : Obj → Option PyErr

-- Which futures are done.
abbrev pub Done : Type 0
Done = Obj → Bool

abbrev pub set_done : Done → Obj → Done
set_done done f = λ g. if g == f then true else done g

abbrev pub finish : FutureCalls → Done → Obj → Done × Option PyErr
finish calls done f = elim (calls.set_error f) [
  | some e ↦ (done, some e)
  | none ↦ (set_done done f, none)
]

-- `release_waiter`, with the error that it returns.
unfoldable pub release_waiter : FutureCalls → Done → Obj → Done × Option PyErr
release_waiter calls done f = elim (calls.done_error f) [
  | some e ↦ (done, some e)
  | none ↦ elim (done f) [ true ↦ (done, none) | false ↦ finish calls done f ]
]

-- `first_err.get_or_insert(err)`.
abbrev pub get_or_insert : Option PyErr → Option PyErr → Option PyErr
get_or_insert (some e) later = some e
get_or_insert none later = later

-- The loop of `drain` over the futures taken.
unfoldable pub release_all : FutureCalls → List Obj → Done → Option PyErr → Done × Option PyErr
release_all calls [] done first_err = (done, first_err)
release_all calls (f ∷ fs) done first_err =
    let (done', e) = release_waiter calls done f in
    release_all calls fs done' (get_or_insert first_err e)

unfoldable pub drain : FutureCalls → State → Done → State × Done × Option PyErr
unfolding take_ready release_all
drain calls s done =
    let (s', ready) = take_ready s in
    let (done', first_err) = release_all calls ready done none in (s', done', first_err)
