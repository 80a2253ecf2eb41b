-- ===== src/Response/History.antt =====
-- Sequences of sections under the lock of a `ResponseFuture`: completions on runtime workers, calls
-- from Python threads, rounds of the drainer, and readers that store rows, in any order.
use python_rs_driver.Common.{ℕ, ◌≡◌, true, false, Option, none, some, List, [], ◌∷◌, ◌++◌, to_list}
use python_rs_driver.Common.Python.{PyResult, ok, err}
use python_rs_driver.Callbacks.{Callbacks, LegacyCallback, Delivery, for_outcome}
use python_rs_driver.Response.{
  SharedResult, Rows, PageRows, built, to_build, PendingResponsePage, Undelivered, is_pending,
  take_unfired,
}
use python_rs_driver.Response.Inner.{
  Shared, outcome_delivery, complete, complete_dropped, register, clear_callbacks,
  start_fetching_next_page, drain_next, store_built,
}

pub data Event : Type 0 where
  completes : PyResult PendingResponsePage → Event
  drops : Event
  registers : Delivery → LegacyCallback → Event
  clears : Event
  pages : Event
  drains : Event
  stores : SharedResult → Rows → Event

-- The state after a section, and the page that a round of the drainer took to deliver.
unfoldable pub step : Shared → Event → Shared × Option Undelivered
step s (completes outcome) = (complete s outcome, none)
step s drops = ((complete_dropped s).0, none)
step s (registers delivery cb) = ((register s delivery cb).0, none)
step s clears = (clear_callbacks s, none)
step s pages = ((start_fetching_next_page s).0, none)
step s drains = drain_next s
step s (stores q r) = ((store_built s q r).0, none)

-- A request completes while it is in flight; a drainer runs while it owns the token.
abbrev pub Possible : Shared → Event → Type 0
Possible s (completes outcome) = is_pending s.request ≡ true
Possible s drains = s.drainer.permit ≡ false
Possible s _ = Unit {0}

abbrev pub fresh_rows : PyResult PendingResponsePage → PageRows
fresh_rows (ok page) = to_build page.query_result page.factory
fresh_rows (err e) = built (err e)

-- The delivery that a completion asks for: the page that arrived, with the callbacks registered
-- then.
abbrev pub scheduled_for : PageRows → Option Callbacks → List Undelivered
scheduled_for r none = []
scheduled_for r (some c) = record { rows = r; unfired = c } ∷ []

unfoldable pub scheduled : Shared → Event → List Undelivered
scheduled s (completes outcome) =
    scheduled_for (fresh_rows outcome) (for_outcome s.registered (outcome_delivery outcome))
scheduled s _ = []

-- The deliveries that are still due, oldest first.
unfoldable pub waiting : Shared → List Undelivered
waiting s = s.drainer.unfired_pages ++ to_list (take_unfired s.request).1

unfoldable pub run : Shared → List Event → Shared
unfolding step
run s [] = s
run s (e ∷ es) = run (step s e).0 es

abbrev pub PossibleRun : Shared → List Event → Type 0
unfolding step
PossibleRun s [] = Unit {0}
PossibleRun s (e ∷ es) = Possible s e × PossibleRun (step s e).0 es

-- All that the drainer took, in order.
unfoldable pub all_taken : Shared → List Event → List Undelivered
unfolding step
all_taken s [] = []
all_taken s (e ∷ es) = to_list (step s e).1 ++ all_taken (step s e).0 es

-- `v` is the delivery `u` later: callbacks may have joined it, behind those that it had, and its
-- rows may have been built.
pub data RowsOf : PageRows → PageRows → Type 0 where
  same : {r : PageRows} → RowsOf r r
  now_built : {q : SharedResult} {f : ℕ} {r : Rows} → RowsOf (to_build q f) (built r)

pub record Grows (u v : Undelivered) : Type 0 where
  pub rows_of : RowsOf u.rows v.rows
  pub more_callbacks : List LegacyCallback
  pub more_errbacks : List LegacyCallback
  pub callbacks_kept : v.unfired.callback_list ≡ u.unfired.callback_list ++ more_callbacks
  pub errbacks_kept : v.unfired.errback_list ≡ u.unfired.errback_list ++ more_errbacks
