-- ===== src/Batcher/History.antt =====
-- Pushes from any threads, notifications, discards and the loop's drains, in any order. A push is
-- not atomic: its notification and a discard come after its section under the lock, and a drain
-- acknowledges the pipe before it takes the queue.
use python_rs_driver.Common.{
  ℕ, ◌+◌, ◌-◌, ◌<◌, ◌≡◌, refl, true, false, ◌⊎◌, inl, inr, Option, none, some, List, [], ◌∷◌, arith,
  if◌then◌else◌,
}
use python_rs_driver.Common.Python.{Obj, PyErr}
use python_rs_driver.Batcher.{
  State, new, enqueue, discard, take_ready, NotifierKind, call_soon, pipe, WriteOutcome, CallSoon,
  Notified, scheduled, already_readable, loop_gone, notify,
}

-- The batcher with the threads between two of their sections and the drains that the loop owes:
-- callbacks scheduled by `call_soon_threadsafe`, or bytes in the pipe.
pub record World : Type 0 where
  pub state : State
  pub notifying : ℕ
  pub discarding : ℕ
  pub due : ℕ
  pub draining : ℕ

unfoldable pub start : World
unfolding new
start = record { state = new; notifying = 0; discarding = 0; due = 0; draining = 0 }

pub data Event : Type 0 where
  pushes : Obj → Event
  notifies : List WriteOutcome → CallSoon → Event
  discards : Event
  loop_calls : Event
  takes : Event

abbrev pub after_notify : Notified → World → World
after_notify scheduled w = record w { notifying = w.notifying - 1; due = w.due + 1 }
after_notify already_readable w = record w { notifying = w.notifying - 1 }
after_notify loop_gone w = record w { notifying = w.notifying - 1; discarding = w.discarding + 1 }

-- `acknowledge` empties the pipe; a callback of `call_soon` is used up by its call.
abbrev pub acknowledge : NotifierKind → ℕ → ℕ
acknowledge pipe due = 0
acknowledge call_soon due = due - 1

abbrev pub notified : Option (Notified × List PyErr) → World → World
notified none w = w
notified (some (n, _)) w = after_notify n w

-- The world after a section, and the futures that it takes off the queue.
unfoldable pub step : NotifierKind → World → Event → World × List Obj
unfolding enqueue discard take_ready
step kind w (pushes f) =
    let (s, first_of_batch) = enqueue w.state f in
    (
      record w { state = s; notifying = if first_of_batch then w.notifying + 1 else w.notifying },
      [],
    )
step kind w (notifies writes fallback) = (notified (notify kind writes fallback) w, [])
step kind w discards =
    let (s, dead) = discard w.state in (record w { state = s; discarding = w.discarding - 1 }, dead)
step kind w loop_calls = (record w { due = acknowledge kind w.due; draining = w.draining + 1 }, [])
step kind w takes =
    let (s, ready) = take_ready w.state in
    (record w { state = s; draining = w.draining - 1 }, ready)

-- A full socket buffer holds bytes that the loop has not read.
abbrev Readable : Option (Notified × List PyErr) → World → Type 0
Readable (some (already_readable, _)) w = 0 < w.due
Readable _ w = Unit {0}

abbrev pub Possible : NotifierKind → World → Event → Type 0
Possible kind w (pushes f) = Unit {0}
Possible kind w (notifies writes fallback) =
    (0 < w.notifying) × Readable (notify kind writes fallback) w
Possible kind w discards = 0 < w.discarding
Possible kind w loop_calls = 0 < w.due
Possible kind w takes = 0 < w.draining

-- Someone is on the way to empty the queue.
abbrev pub IsAttended : World → Type 0
IsAttended w =
    ((w.state.queue ≡ []) ⊎ (w.state.armed ≡ true))
    × ((w.state.armed ≡ false) ⊎ (0 < w.notifying + w.discarding + w.due + w.draining))

notified-IsAttended :
    (r : Option (Notified × List PyErr)) (w : World)
    → 0 < w.notifying
    → Readable r w
    → IsAttended w
    → IsAttended (notified r w)
notified-IsAttended none w p q v = v
notified-IsAttended (some (scheduled, l)) w p q v = (v.0, inr (omega arith))
notified-IsAttended (some (already_readable, l)) w p q v = (v.0, inr (omega arith))
notified-IsAttended (some (loop_gone, l)) w p q v = (v.0, inr (omega arith))

step-IsAttended :
    (kind : NotifierKind) (w : World) (e : Event)
    → Possible kind w e
    → IsAttended w
    → IsAttended (step kind w e).0
unfolding step
step-IsAttended kind w (pushes f) p v = (inr refl, inr (ground arith))
step-IsAttended kind w (notifies writes fallback) p v =
    notified-IsAttended (notify kind writes fallback) w p.0 p.1 v
step-IsAttended kind w discards p v = (inl refl, inl refl)
step-IsAttended kind w loop_calls p v = (v.0, inr (omega arith))
step-IsAttended kind w takes p v = (inl refl, inl refl)

unfoldable pub run : NotifierKind → World → List Event → World
unfolding step
run kind w [] = w
run kind w (e ∷ es) = run kind (step kind w e).0 es

abbrev pub PossibleRun : NotifierKind → World → List Event → Type 0
unfolding step
PossibleRun kind w [] = Unit {0}
PossibleRun kind w (e ∷ es) = Possible kind w e × PossibleRun kind (step kind w e).0 es

pub run-IsAttended :
    (kind : NotifierKind) (w : World) (es : List Event)
    → PossibleRun kind w es
    → IsAttended w
    → IsAttended (run kind w es)
unfolding run
run-IsAttended kind w [] p v = v
run-IsAttended kind w (e ∷ es) p v =
    run-IsAttended kind (step kind w e).0 es p.1 (step-IsAttended kind w e p.0 v)
