-- ===== src/Response/Reader.antt =====
-- Readers of a `ResponseFuture`: `build_rows`, `callback_value` of `rows.rs`, and the parts of
-- `ResponseInner` and `Drainer` that run without the lock.
use python_rs_driver.Common.{
  Bool, true, false, Option, none, some, List, [], ◌≡◌, refl, ◌==◌, if◌then◌else◌,
}
use python_rs_driver.Common.Python.{Obj, PyErr, PyResult, ok, err}
use python_rs_driver.Callbacks.{
  Callbacks, Interpreter, Effect, LegacyCallback, Delivery, callbacks, errbacks, delivery_of,
  invoke_legacy, fire,
}
use python_rs_driver.Paging.{Env, ResolvedPage, resolve_page}
use python_rs_driver.Paging.Loops.{rows_of_page}
use python_rs_driver.Response.{
  SharedResult, Rows, PageRows, built, to_build, PendingResponsePage, received, Undelivered, rows,
  store_rows,
}
use python_rs_driver.Response.Inner.{Shared, store_built}

-- What Python answers: row factories, calls, a new list for rows, `None`, and the exception
-- instance of an error. `row_factory_failed` wraps an error of resolving the row factory.
pub record Python : Type 0 where
  pub env : Env
  pub interpreter : Interpreter
  pub new_list : List Obj → Obj
  pub none_object : Obj
  pub exception : PyErr → Obj
  pub row_factory_failed : PyErr → PyErr

unfoldable pub page_list : Python → Option (List Obj) → Option Obj
page_list py none = none
page_list py (some l) = some (py.new_list l)

unfoldable pub rows_of_resolved : Python → PyResult ResolvedPage → Rows
unfolding page_list rows_of_page
rows_of_resolved py (err e) = err (py.row_factory_failed e)
rows_of_resolved py (ok page) = elim (rows_of_page py.env page) [
  | ok l ↦ ok (page_list py l)
  | err e ↦ err e
]

unfoldable pub build_rows : Python → SharedResult → Obj → Rows
unfolding rows_of_resolved resolve_page
build_rows py q factory = rows_of_resolved py (resolve_page py.env factory q.result.content)

unfoldable pub callback_value : Python → Rows → Obj
callback_value py (ok (some list)) = list
callback_value py (ok none) = py.none_object
callback_value py (err e) = py.exception e

-- `ResponseInner::build_rows`.
unfoldable pub read_rows : Python → Shared → PageRows → Shared × Rows
unfolding store_built build_rows
read_rows py s (built r) = (s, r)
read_rows py s (to_build q factory) = store_built s q (build_rows py q factory)

-- What the drainer does with a page outside the lock.
unfoldable pub deliver : Python → Shared → Undelivered → Shared × List Effect
unfolding read_rows fire callback_value delivery_of
deliver py s u =
    let (s', r) = read_rows py s u.rows in
    (s', fire py.interpreter u.unfired (delivery_of r) (callback_value py r))

unfoldable pub same_delivery : Delivery → Delivery → Bool
same_delivery callbacks callbacks = true
same_delivery errbacks errbacks = true
same_delivery _ _ = false

-- The rest of `register`, once the lock is released.
unfoldable pub invoke_now :
    Python → Shared → Option PageRows → Delivery → LegacyCallback → Shared × List Effect
unfolding read_rows same_delivery delivery_of callback_value invoke_legacy
invoke_now py s none delivery cb = (s, [])
invoke_now py s (some p) delivery cb =
    let (s', r) = read_rows py s p in
    (
      s',
      if same_delivery (delivery_of r) delivery
          then invoke_legacy py.interpreter cb (callback_value py r)
          else [],
    )

-- One turn of the loop of `wait_rows`: the rows, or none while a request is in flight.
unfoldable pub try_rows : Python → Shared → Shared × Option Rows
unfolding rows read_rows
try_rows py s = elim (rows s.request) [
  | none ↦ (s, none)
  | some p ↦ let (s', r) = read_rows py s p in (s', some r)
]

store_rows-agree :
    (page : PendingResponsePage) (rs : Option Rows) (unfired : Option Callbacks)
    (q q' : SharedResult) (x x' : Rows)
    → (page.query_result.address == q.address) ≡ true
    → (page.query_result.address == q'.address) ≡ true
    → let (r1, y1) = store_rows (received page rs unfired) q x in
      let (r2, y2) = store_rows r1 q' x' in
      (y2 ≡ y1) × (rows r1 ≡ some (built y1)) × (rows r2 ≡ some (built y1))
unfolding store_rows rows
store_rows-agree page none unfired q q' x x' e e' = rw e (rw e' (refl, refl, refl))
store_rows-agree page (some r) unfired q q' x x' e e' = rw (e, e') (refl, refl, refl)

-- Readers of the current page get the same rows, whatever the row factory answers each of them:
-- the first to store wins, and what it stored are the rows of the page from then on.
pub read_rows-agree :
    (py py' : Python) (s : Shared) (page : PendingResponsePage) (rs : Option Rows)
    (unfired : Option Callbacks) (q q' : SharedResult) (factory factory' : Obj)
    → s.request ≡ received page rs unfired
    → (page.query_result.address == q.address) ≡ true
    → (page.query_result.address == q'.address) ≡ true
    → let (s1, r1) = read_rows py s (to_build q factory) in
      let (s2, r2) = read_rows py' s1 (to_build q' factory') in
      (r2 ≡ r1) × (rows s1.request ≡ some (built r1)) × (rows s2.request ≡ some (built r1))
unfolding read_rows store_built
read_rows-agree py py' s page rs unfired q q' factory factory' e a a' = rw e (
    store_rows-agree page rs unfired q q' (build_rows py q factory) (build_rows py' q' factory') a
      a')
