-- ===== src/Response/Release.antt =====
-- Registered callbacks are dropped once no page can follow, so that a callback which holds the
-- future does not keep it alive.
use python_rs_driver.Common.{
  ◌≡◌, refl, sym, ◌∙◌, Bool, true, false, not, ◌&&◌, inl, inr, Bool-cases, Option, none, some,
  arith, is_some, List, [], ◌∷◌, ◌++◌,
}
use python_rs_driver.Common.Python.{PyResult}
use python_rs_driver.Callbacks.{Callbacks, LegacyCallback, Delivery, default, push, for_outcome}
use python_rs_driver.Paging.{has_more_pages}
use python_rs_driver.Response.{
  SharedResult, Rows, PendingResponsePage, RequestState, pending, received, failed, Undelivered,
  is_pending, last_page, settle, take_unfired, set_unfired, store_rows, unfired_of,
}
use python_rs_driver.Response.Inner.{
  Shared, outcome_delivery, trace_of, complete, complete_dropped, register, clear_callbacks,
  start_fetching_next_page, drain_next, store_built, is_terminal, page_has_more, clear_if_terminal,
  wake_if, join, next_request, page_past, next_of, new_shared,
}
use python_rs_driver.Response.History.{
  Event, completes, drops, registers, clears, pages, drains, stores, step, run,
}

-- Nothing is kept once nothing can fire again.
abbrev pub IsReleased : Shared → Type 0
IsReleased s = is_terminal s ≡ true → s.registered ≡ default

-- Whether a request settled with no page to follow.
abbrev pub ended : RequestState → Bool
unfolding is_pending last_page
ended r = not (is_pending r) && not (page_has_more (last_page r))

ended-set_unfired : (r : RequestState) (c : Callbacks) → ended (set_unfired r c) ≡ ended r
unfolding is_pending last_page set_unfired
ended-set_unfired (pending l) c = refl
ended-set_unfired (received page rs none) c = refl
ended-set_unfired (received page rs (some u)) c = refl
ended-set_unfired (failed e l none) c = refl
ended-set_unfired (failed e l (some u)) c = refl

ended-take_unfired : (r : RequestState) → ended (take_unfired r).0 ≡ ended r
unfolding is_pending last_page take_unfired
ended-take_unfired (pending l) = refl
ended-take_unfired (received page rs u) = refl
ended-take_unfired (failed e l u) = refl

ended-store_rows :
    (r : RequestState) (q : SharedResult) (rs : Rows) → ended (store_rows r q rs).0 ≡ ended r
unfolding is_pending last_page store_rows
ended-store_rows r q rs = ground arith

clear_if_terminal-IsReleased : (s : Shared) → IsReleased (clear_if_terminal s)
unfolding clear_if_terminal
clear_if_terminal-IsReleased s = elim (Bool-cases (is_terminal s)) [
  | inl e ↦ rw e (λ _. refl)
  | inr e ↦ rw e (λ t. cc)
]

wake_if-IsReleased : (b : Bool) (s : Shared) → IsReleased s → IsReleased (wake_if b s)
unfolding wake_if is_terminal
wake_if-IsReleased true s v = v
wake_if-IsReleased false s v = v

complete-IsReleased :
    (s : Shared) (outcome : PyResult PendingResponsePage) → IsReleased (complete s outcome)
unfolding complete
complete-IsReleased s outcome =
    wake_if-IsReleased (is_some unfired) (clear_if_terminal t) (clear_if_terminal-IsReleased t)
  where
    unfired : Option Callbacks
    unfired = for_outcome s.registered (outcome_delivery outcome)

    t : Shared
    t = record s {
      request = settle s.request outcome unfired;
      tracing_ids = s.tracing_ids ++ trace_of outcome;
    }

complete_dropped-IsReleased : (s : Shared) → IsReleased s → IsReleased (complete_dropped s).0
unfolding complete_dropped
complete_dropped-IsReleased s v = elim (Bool-cases (is_pending s.request)) [
  | inl e ↦ rw e (λ _. refl)
  | inr e ↦ rw e v
]

next_of-ended : (ps : List Undelivered) (r : RequestState) → ended (next_of ps r).1 ≡ ended r
unfolding next_of is_pending last_page
next_of-ended [] r = ended-take_unfired r
next_of-ended (u ∷ us) r = refl

drain_next-IsReleased : (s : Shared) → IsReleased s → IsReleased (drain_next s).0
unfolding drain_next is_terminal
drain_next-IsReleased s v t = v (sym (next_of-ended s.drainer.unfired_pages s.request) ∙ t)

store_built-IsReleased :
    (s : Shared) (q : SharedResult) (rs : Rows) → IsReleased s → IsReleased (store_built s q rs).0
unfolding store_built is_terminal
store_built-IsReleased s q rs v t = v (sym (ended-store_rows s.request q rs) ∙ t)

join-IsReleased :
    (unfired : Option Callbacks) (delivery : Delivery) (cb : LegacyCallback) (s : Shared)
    → IsReleased s
    → IsReleased (join unfired delivery cb s).0
unfolding is_terminal
join-IsReleased none delivery cb s v t = v t
join-IsReleased (some u) delivery cb s v t =
    v (sym (ended-set_unfired s.request (push u delivery cb)) ∙ t)

register-IsReleased :
    (s : Shared) (delivery : Delivery) (cb : LegacyCallback)
    → IsReleased s
    → IsReleased (register s delivery cb).0
unfolding register
register-IsReleased s delivery cb v = elim (Bool-cases (is_terminal s)) [
  | inl e ↦ rw e (join-IsReleased (unfired_of s.request) delivery cb s v)
  | inr e ↦ rw e (
      join-IsReleased (unfired_of s.request) delivery cb
        (record s { registered = push s.registered delivery cb }) (unfold is_terminal in λ t. cc))
]

next_request-IsReleased :
    (l : Option PendingResponsePage) (s : Shared) → IsReleased s → IsReleased (next_request l s).0
unfolding page_past is_terminal
next_request-IsReleased none s v = v
next_request-IsReleased (some page) s v = elim (Bool-cases (has_more_pages page.query_pager)) [
  | inl e ↦ rw e (λ t. cc)
  | inr e ↦ rw e v
]

start_fetching_next_page-IsReleased :
    (s : Shared) → IsReleased s → IsReleased (start_fetching_next_page s).0
unfolding start_fetching_next_page
start_fetching_next_page-IsReleased s v = elim (Bool-cases (is_pending s.request)) [
  | inl e ↦ rw e v
  | inr e ↦ rw e (next_request-IsReleased (last_page s.request) s v)
]

step-IsReleased : (s : Shared) (e : Event) → IsReleased s → IsReleased (step s e).0
unfolding step clear_callbacks
step-IsReleased s (completes outcome) v = complete-IsReleased s outcome
step-IsReleased s drops v = complete_dropped-IsReleased s v
step-IsReleased s (registers delivery cb) v = register-IsReleased s delivery cb v
step-IsReleased s clears v = λ t. refl
step-IsReleased s pages v = start_fetching_next_page-IsReleased s v
step-IsReleased s drains v = drain_next-IsReleased s v
step-IsReleased s (stores q rs) v = store_built-IsReleased s q rs v

run-IsReleased : (s : Shared) (es : List Event) → IsReleased s → IsReleased (run s es)
unfolding run
run-IsReleased s [] v = v
run-IsReleased s (e ∷ es) v = run-IsReleased (step s e).0 es (step-IsReleased s e v)

-- After any sequence of sections on a new future, no callback is registered once the request
-- settled with no page to follow.
pub run-new_shared-IsReleased : (es : List Event) → IsReleased (run new_shared es)
unfolding new_shared
run-new_shared-IsReleased es = run-IsReleased new_shared es (λ t. refl)
