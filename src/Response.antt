-- ===== src/Response.antt =====
-- src/future/response_future/: `rows.rs`, `state.rs`, `drainer.rs` and `ResponseInner` of `mod.rs`,
-- the callback-driven future of the legacy driver. This file has the state and its transitions;
-- `Response.Inner` the operations on what the lock guards, `Response.History` sequences of them.
-- `Response.Queue` and `Response.History` prove what becomes of the pages whose callbacks wait.
pub mod Inner
pub mod History
pub mod Queue
pub mod Deliveries
pub mod Delivery
pub mod Progress
pub mod Release
pub mod Reader
pub mod Tests
use python_rs_driver.Common.{
  ℕ, Bool, true, false, not, Option, none, some, List, [], ◌∷◌, ◌++◌, ◌==◌, if◌then◌else◌,
}
use python_rs_driver.Common.Python.{Obj, PyErr, PyResult, ok, err, panicked_err}
use python_rs_driver.Callbacks.{Callbacks}
use python_rs_driver.Paging.{QueryResult, Pager}

-- `Arc<QueryResult>`: `Arc::ptr_eq` compares the address.
pub record SharedResult : Type 0 where
  pub address : ℕ
  pub result : QueryResult

-- A list of rows, `None` for a result without rows, or the error.
abbrev pub Rows : Type 0
Rows = PyResult (Option Obj)

pub data PageRows : Type 0 where
  built : Rows → PageRows
  to_build : SharedResult → Obj → PageRows

pub record PendingResponsePage : Type 0 where
  pub query_result : SharedResult
  pub query_pager : Pager
  pub factory : Obj

pub data RequestState : Type 0 where
  pending : (last_page : Option PendingResponsePage) → RequestState
  received :
      (page : PendingResponsePage) (rows : Option Rows) (unfired : Option Callbacks) → RequestState
  failed :
      (error : PyErr) (last_page : Option PendingResponsePage) (unfired : Option Callbacks)
      → RequestState

pub record Undelivered : Type 0 where
  pub rows : PageRows
  pub unfired : Callbacks

unfoldable pub is_pending : RequestState → Bool
is_pending (pending _) = true
is_pending (received _ _ _) = false
is_pending (failed _ _ _) = false

unfoldable pub last_page : RequestState → Option PendingResponsePage
last_page (pending l) = l
last_page (received page _ _) = some page
last_page (failed _ l _) = l

-- `State::into_last_page`, which consumes the state.
unfoldable pub into_last_page : RequestState → Option PendingResponsePage
into_last_page (pending l) = l
into_last_page (received page _ _) = some page
into_last_page (failed _ l _) = l

-- `take` leaves this behind while a transition runs.
unfoldable pub taken : RequestState
taken = failed panicked_err none none

unfoldable pub take : RequestState → RequestState × RequestState
unfolding taken
take s = (s, taken)

unfoldable pub settle :
    RequestState → PyResult PendingResponsePage → Option Callbacks → RequestState
unfolding take into_last_page
settle s (ok page) unfired = received page none unfired
settle s (err e) unfired = failed e (into_last_page (take s).0) unfired

unfoldable pub rows : RequestState → Option PageRows
rows (pending _) = none
rows (received page (some r) _) = some (built r)
rows (received page none _) = some (to_build page.query_result page.factory)
rows (failed e _ _) = some (built (err e))

unfoldable pub store_rows : RequestState → SharedResult → Rows → RequestState × Rows
store_rows (received page none unfired) q r =
    if page.query_result.address == q.address
    then (received page (some r) unfired, r)
    else (received page none unfired, r)
store_rows (received page (some r') unfired) q r =
    (received page (some r') unfired, if page.query_result.address == q.address then r' else r)
store_rows (pending l) q r = (pending l, r)
store_rows (failed e l unfired) q r = (failed e l unfired, r)

unfoldable pub error : RequestState → Option PyErr
error (failed e _ _) = some e
error (received _ (some (err e)) _) = some e
error _ = none

-- `unfired.take()?` and `self.rows(py)?` of `take_unfired`, on the state that is left.
unfoldable pub undelivered_of : RequestState → Option Callbacks → Option Undelivered
unfolding rows
undelivered_of s none = none
undelivered_of s (some c) = elim (rows s) [
  | none ↦ none
  | some r ↦ some (record { rows = r; unfired = c })
]

unfoldable pub take_unfired : RequestState → RequestState × Option Undelivered
unfolding undelivered_of
take_unfired (pending l) = (pending l, none)
take_unfired (received page r unfired) =
    (received page r none, undelivered_of (received page r none) unfired)
take_unfired (failed e l unfired) = (failed e l none, undelivered_of (failed e l none) unfired)

unfoldable pub switch_to_pending : RequestState → RequestState × Option Undelivered
unfolding take_unfired take into_last_page
switch_to_pending s =
    let (s', undelivered) = take_unfired s in (pending (into_last_page (take s').0), undelivered)

unfoldable pub unfired_of : RequestState → Option Callbacks
unfired_of (pending _) = none
unfired_of (received _ _ unfired) = unfired
unfired_of (failed _ _ unfired) = unfired

-- A write through `unfired_mut`.
unfoldable pub set_unfired : RequestState → Callbacks → RequestState
set_unfired (received page r (some _)) c = received page r (some c)
set_unfired (failed e l (some _)) c = failed e l (some c)
set_unfired s c = s
