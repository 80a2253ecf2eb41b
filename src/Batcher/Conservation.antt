-- ===== src/Batcher/Conservation.antt =====
-- Over any history: nothing pushed is lost or reordered, and a queue that is not empty is attended.
use python_rs_driver.Common.{
  ◌+◌, ◌<◌, ◌≡◌, ◌≢◌, refl, sym, ap, ◌∙◌, inl, List, [], ◌∷◌, ◌++◌, arith, append-nil, append_assoc,
}
use python_rs_driver.Common.Python.{Obj}
use python_rs_driver.Batcher.{
  State, NotifierKind, Notified, scheduled, already_readable, loop_gone, notify,
}
use python_rs_driver.Batcher.History.{
  World, start, Event, pushes, notifies, discards, loop_calls, takes, notified, step, IsAttended,
  run, PossibleRun, run-IsAttended,
}
use python_rs_driver.Common.{Option, none, some}
use python_rs_driver.Common.Python.{PyErr}

abbrev pub pushed : Event → List Obj
pushed (pushes f) = f ∷ []
pushed _ = []

unfoldable pub all_pushed : List Event → List Obj
all_pushed [] = []
all_pushed (e ∷ es) = pushed e ++ all_pushed es

-- What drains and discards took off the queue, in order.
unfoldable pub all_removed : NotifierKind → World → List Event → List Obj
unfolding step
all_removed kind w [] = []
all_removed kind w (e ∷ es) = (step kind w e).1 ++ all_removed kind (step kind w e).0 es

notified-state : (r : Option (Notified × List PyErr)) (w : World) → (notified r w).state ≡ w.state
notified-state none w = refl
notified-state (some (scheduled, l)) w = refl
notified-state (some (already_readable, l)) w = refl
notified-state (some (loop_gone, l)) w = refl

step-queue :
    (kind : NotifierKind) (w : World) (e : Event)
    → w.state.queue ++ pushed e ≡ (step kind w e).1 ++ (step kind w e).0.state.queue
unfolding step
step-queue kind w (pushes f) = refl
step-queue kind w (notifies writes fallback) =
    append-nil w.state.queue
    ∙ ap (λ (s : State). s.queue) (sym (notified-state (notify kind writes fallback) w))
step-queue kind w discards = refl
step-queue kind w loop_calls = append-nil w.state.queue
step-queue kind w takes = refl

-- Every future that was queued or is pushed is, in order, taken off once or still queued at the
-- end: pushes that race with notifications, drains and discards lose none and double none.
pub all_removed-run :
    (kind : NotifierKind) (w : World) (es : List Event)
    → w.state.queue ++ all_pushed es ≡ all_removed kind w es ++ (run kind w es).state.queue
unfolding all_pushed all_removed run
all_removed-run kind w [] = append-nil w.state.queue
all_removed-run kind w (e ∷ es) =
    let (w', removed) = step kind w e in
    sym (append_assoc w.state.queue (pushed e) (all_pushed es))
    ∙ ap (λ (l : List Obj). l ++ all_pushed es) (step-queue kind w e)
    ∙ append_assoc removed w'.state.queue (all_pushed es)
    ∙ ap (λ (l : List Obj). removed ++ l) (all_removed-run kind w' es)
    ∙ sym (append_assoc removed (all_removed kind w' es) (run kind w' es).state.queue)

-- After any possible history of a new batcher, a queue that is not empty is attended: a thread is
-- about to notify the loop or to discard, or the loop owes a drain or is in one.
pub run-attended :
    (kind : NotifierKind) (es : List Event)
    → PossibleRun kind start es
    → let w = run kind start es in
      w.state.queue ≢ [] → 0 < w.notifying + w.discarding + w.due + w.draining
unfolding start
run-attended kind es p busy =
    attended (run kind start es) (run-IsAttended kind start es p (inl refl, inl refl)) busy
  where
    attended :
        (w : World)
        → IsAttended w
        → w.state.queue ≢ []
        → 0 < w.notifying + w.discarding + w.due + w.draining
    attended w v b = ground arith
