-- ===== src/Response/Inner.antt =====
-- src/future/response_future/mod.rs and `Drainer` of `drainer.rs`: what the one lock guards, and
-- each section under the lock as a function on it.
use python_rs_driver.Common.{
  Bool, true, false, not, ◌&&◌, Option, none, some, List, [], ◌∷◌, ◌++◌, is_some, to_list,
  if◌then◌else◌,
}
use python_rs_driver.Common.Python.{
  Obj, PyResult, ok, err, dropped_err, query_exhausted, request_in_flight,
}
use python_rs_driver.Callbacks.{
  Callbacks, LegacyCallback, Delivery, errbacks, default, push, for_outcome,
}
use python_rs_driver.Paging.{Pager, Uuid, has_more_pages}
use python_rs_driver.Response.{
  SharedResult, Rows, PageRows, PendingResponsePage, RequestState, pending, Undelivered, is_pending,
  last_page, settle, rows, store_rows, take_unfired, switch_to_pending, unfired_of, set_unfired,
}

-- The drain token is parked while `permit` is true, else the running drainer owns it.
pub record Drainer : Type 0 where
  pub unfired_pages : List Undelivered
  pub permit : Bool

pub record Shared : Type 0 where
  pub request : RequestState
  pub registered : Callbacks
  pub drainer : Drainer
  pub tracing_ids : List Uuid

unfoldable pub new_drainer : Drainer
new_drainer = record { unfired_pages = []; permit = true }

unfoldable pub queue : Drainer → Undelivered → Drainer
queue d page = record d { unfired_pages = d.unfired_pages ++ page ∷ [] }

-- Whether `wake` starts a drainer, which takes the token.
unfoldable pub wake : Drainer → Drainer × Bool
wake d = (record d { permit = false }, d.permit)

-- `Drainer::next`: the oldest page paged past, else the current one.
unfoldable pub next_of :
    List Undelivered → RequestState → List Undelivered × RequestState × Option Undelivered
next_of (u ∷ us) s = (us, s, some u)
next_of [] s = let (s', u) = take_unfired s in ([], s', u)

unfoldable pub new_shared : Shared
unfolding default new_drainer
new_shared = record {
  request = pending none;
  registered = default;
  drainer = new_drainer;
  tracing_ids = [];
}

abbrev pub page_has_more : Option PendingResponsePage → Bool
page_has_more none = false
page_has_more (some page) = has_more_pages page.query_pager

unfoldable pub shared_has_more_pages : Shared → Bool
unfolding last_page
shared_has_more_pages s = page_has_more (last_page s.request)

unfoldable pub is_terminal : Shared → Bool
unfolding shared_has_more_pages is_pending
is_terminal s = not (is_pending s.request) && not (shared_has_more_pages s)

abbrev pub trace_of : PyResult PendingResponsePage → List Uuid
trace_of (ok page) = to_list page.query_result.result.tracing_id
trace_of (err e) = []

-- `outcome.as_ref().err().map(|_| Delivery::Errbacks)`
abbrev pub outcome_delivery : PyResult PendingResponsePage → Option Delivery
outcome_delivery (ok page) = none
outcome_delivery (err e) = some errbacks

unfoldable pub clear_if_terminal : Shared → Shared
unfolding is_terminal default
clear_if_terminal s = if is_terminal s then record s { registered = default } else s

unfoldable pub wake_if : Bool → Shared → Shared
unfolding wake
wake_if true s = record s { drainer = (wake s.drainer).0 }
wake_if false s = s

-- `ResponseInner::complete`, up to the release of the lock.
unfoldable pub complete : Shared → PyResult PendingResponsePage → Shared
unfolding settle for_outcome clear_if_terminal wake_if
complete s outcome =
    let unfired = for_outcome s.registered (outcome_delivery outcome) in
    wake_if (is_some unfired) (
      clear_if_terminal (record s {
        request = settle s.request outcome unfired;
        tracing_ids = s.tracing_ids ++ trace_of outcome;
      }))

-- `complete_dropped`, with the callbacks that it takes to fire.
unfoldable pub complete_dropped : Shared → Shared × Callbacks
unfolding settle is_pending default
complete_dropped s =
    if is_pending s.request
    then (
      record s { request = settle s.request (err dropped_err) none; registered = default },
      s.registered,
    )
    else (s, default)

abbrev pub join : Option Callbacks → Delivery → LegacyCallback → Shared → Shared × Option PageRows
join (some unfired) delivery cb s =
    (record s { request = set_unfired s.request (push unfired delivery cb) }, none)
join none delivery cb s = (s, rows s.request)

-- `register`, up to the release of the lock: the rows are those of a settled page whose callbacks
-- do not wait for the drainer.
unfoldable pub register : Shared → Delivery → LegacyCallback → Shared × Option PageRows
unfolding is_terminal push set_unfired rows unfired_of
register s delivery cb =
    join (unfired_of s.request) delivery cb
      (if is_terminal s then s else record s { registered = push s.registered delivery cb })

unfoldable pub clear_callbacks : Shared → Shared
unfolding default
clear_callbacks s = record s { registered = default }

abbrev pub queue_page : Option Undelivered → Drainer → Drainer
queue_page none d = d
queue_page (some u) d = queue d u

-- `start_fetching_next_page`, up to the release of the lock: the pager and factory of the request
-- to spawn.
unfoldable pub page_past : Shared → Shared
unfolding switch_to_pending queue
page_past s =
    let (request, undelivered) = switch_to_pending s.request in
    record s { request = request; drainer = queue_page undelivered s.drainer }

abbrev pub next_request : Option PendingResponsePage → Shared → Shared × PyResult (Pager × Obj)
next_request none s = (s, err query_exhausted)
next_request (some page) s =
    if has_more_pages page.query_pager
    then (page_past s, ok (page.query_pager, page.factory))
    else (s, err query_exhausted)

unfoldable pub start_fetching_next_page : Shared → Shared × PyResult (Pager × Obj)
unfolding page_past is_pending last_page
start_fetching_next_page s =
    if is_pending s.request
    then (s, err request_in_flight)
    else next_request (last_page s.request) s

abbrev pub park_if_none : Option Undelivered → Drainer → Drainer
park_if_none none d = record d { permit = true }
park_if_none (some u) d = d

-- One round of the drainer under the lock: the page to deliver, or the token parked.
unfoldable pub drain_next : Shared → Shared × Option Undelivered
unfolding next_of
drain_next s =
    let (pages, request, u) = next_of s.drainer.unfired_pages s.request in
    (
      record s {
        request = request;
        drainer = park_if_none u (record s.drainer { unfired_pages = pages });
      },
      u,
    )

-- The store at the end of `build_rows`.
unfoldable pub store_built : Shared → SharedResult → Rows → Shared × Rows
unfolding store_rows
store_built s q r =
    let (request, stored) = store_rows s.request q r in (record s { request = request }, stored)
