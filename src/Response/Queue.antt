-- ===== src/Response/Queue.antt =====
-- Each section under the lock, seen on the queue of the deliveries that are due: those that leave
-- its entries as they are.
use python_rs_driver.Common.{
  ◌≡◌, refl, sym, true, false, inl, inr, Bool-cases, Option, none, some, List, [], ◌∷◌, ◌++◌,
  to_list, arith, append-nil, is_some,
}
use python_rs_driver.Common.Python.{PyResult, ok, err, dropped_err}
use python_rs_driver.Paging.{has_more_pages}
use python_rs_driver.Callbacks.{Callbacks, for_outcome}
use python_rs_driver.Response.{
  PendingResponsePage, RequestState, pending, received, failed, Undelivered, is_pending,
  take_unfired, settle, last_page, switch_to_pending,
}
use python_rs_driver.Response.Inner.{
  Shared, Drainer, outcome_delivery, complete, complete_dropped, start_fetching_next_page,
  drain_next, next_request, queue_page, park_if_none, page_past, queue, next_of,
}
use python_rs_driver.Response.History.{completes, scheduled_for, scheduled, fresh_rows, waiting}

-- The delivery due for the current page.
abbrev pub current : RequestState → List Undelivered
unfolding take_unfired
current s = to_list (take_unfired s).1

current-pending : (s : RequestState) → is_pending s ≡ true → current s ≡ []
unfolding is_pending take_unfired
current-pending (pending l) e = refl
current-pending (received p r u) e = cc
current-pending (failed x l u) e = cc

current-settle :
    (s : RequestState) (outcome : PyResult PendingResponsePage) (unfired : Option Callbacks)
    → current (settle s outcome unfired) ≡ scheduled_for (fresh_rows outcome) unfired
unfolding settle take_unfired
current-settle s (ok page) none = refl
current-settle s (ok page) (some c) = refl
current-settle s (err e) none = refl
current-settle s (err e) (some c) = refl

pub complete-request :
    (s : Shared) (outcome : PyResult PendingResponsePage)
    → (complete s outcome).request
      ≡ settle s.request outcome (for_outcome s.registered (outcome_delivery outcome))
unfolding complete
complete-request s outcome = ground arith

pub complete-pages :
    (s : Shared) (outcome : PyResult PendingResponsePage)
    → (complete s outcome).drainer.unfired_pages ≡ s.drainer.unfired_pages
unfolding complete
complete-pages s outcome = ground arith

pub complete-permit :
    (s : Shared) (outcome : PyResult PendingResponsePage)
    → is_some (for_outcome s.registered (outcome_delivery outcome)) ≡ true
    → (complete s outcome).drainer.permit ≡ false
unfolding complete
complete-permit s outcome e = ground arith

pub waiting-complete :
    (s : Shared) (outcome : PyResult PendingResponsePage)
    → is_pending s.request ≡ true
    → waiting (complete s outcome) ≡ waiting s ++ scheduled s (completes outcome)
unfolding waiting scheduled take_unfired for_outcome
waiting-complete s outcome e = rw (
  complete-pages s outcome,
  complete-request s outcome,
  current-settle s.request outcome (for_outcome s.registered (outcome_delivery outcome)),
  current-pending s.request e,
  append-nil s.drainer.unfired_pages,
)

pub waiting-complete_dropped : (s : Shared) → waiting (complete_dropped s).0 ≡ waiting s
unfolding waiting complete_dropped take_unfired
waiting-complete_dropped s = elim (Bool-cases (is_pending s.request)) [
  | inl e ↦ rw (e, current-settle s.request (err dropped_err) none, current-pending s.request e)
  | inr e ↦ rw e
]

switch_to_pending-queue :
    (d : Drainer) (r : RequestState)
    → (queue_page (switch_to_pending r).1 d).unfired_pages ++ current (switch_to_pending r).0
      ≡ d.unfired_pages ++ current r
unfolding switch_to_pending take_unfired queue
switch_to_pending-queue d (pending l) = refl
switch_to_pending-queue d (received page none none) = refl
switch_to_pending-queue d (received page none (some c)) = append-nil _
switch_to_pending-queue d (received page (some r) none) = refl
switch_to_pending-queue d (received page (some r) (some c)) = append-nil _
switch_to_pending-queue d (failed e l none) = refl
switch_to_pending-queue d (failed e l (some c)) = append-nil _

waiting-page_past : (s : Shared) → waiting (page_past s) ≡ waiting s
unfolding waiting page_past take_unfired
waiting-page_past s = switch_to_pending-queue s.drainer s.request

waiting-next_request :
    (l : Option PendingResponsePage) (s : Shared) → waiting (next_request l s).0 ≡ waiting s
waiting-next_request none s = refl
waiting-next_request (some page) s = elim (Bool-cases (has_more_pages page.query_pager)) [
  | inl e ↦ rw e (waiting-page_past s)
  | inr e ↦ rw e
]

pub waiting-start_fetching_next_page :
    (s : Shared) → waiting (start_fetching_next_page s).0 ≡ waiting s
unfolding start_fetching_next_page
waiting-start_fetching_next_page s = elim (Bool-cases (is_pending s.request)) [
  | inl e ↦ rw e
  | inr e ↦ rw e (waiting-next_request (last_page s.request) s)
]

current-take_unfired : (r : RequestState) → current (take_unfired r).0 ≡ []
unfolding take_unfired
current-take_unfired (pending l) = refl
current-take_unfired (received page none u) = refl
current-take_unfired (received page (some r) u) = refl
current-take_unfired (failed e l u) = refl

next_of-queue :
    (ps : List Undelivered) (r : RequestState)
    → ps ++ current r ≡ to_list (next_of ps r).2 ++ ((next_of ps r).0 ++ current (next_of ps r).1)
unfolding next_of take_unfired
next_of-queue (u ∷ us) r = refl
next_of-queue [] r = rw (current-take_unfired r) (sym (append-nil _))

park_if_none-pages :
    (u : Option Undelivered) (d : Drainer) → (park_if_none u d).unfired_pages ≡ d.unfired_pages
park_if_none-pages none d = refl
park_if_none-pages (some u) d = refl

pub waiting-drain_next :
    (s : Shared) → waiting s ≡ to_list (drain_next s).1 ++ waiting (drain_next s).0
unfolding waiting drain_next take_unfired
waiting-drain_next s =
    let (ps, r, u) = next_of s.drainer.unfired_pages s.request in
    rw (park_if_none-pages u (record s.drainer { unfired_pages = ps }))
      (next_of-queue s.drainer.unfired_pages s.request)
