-- ===== src/ResultSet.antt =====
-- src/legacy/result_set.rs: the rows of a legacy response, iterated across pages or made a list.
-- The response future is an interface: its state and the calls that the result set makes of it.

pub mod Iteration
pub mod Tests
use python_rs_driver.Common.{
  ℕ, zero, suc, Bool, true, false, Option, none, some, List, [], ◌∷◌, ◌++◌, ◌+◌, get_elem?,
  is_empty, if◌then◌else◌,
}
use python_rs_driver.Common.Python.{Obj, PyErr, PyResult, ok, err, type_error, runtime_error}

pub data Mode : Type 0 where
  not_started list_mode : Mode
  iterating : ℕ → Mode

pub record IterState : Type 0 where
  pub current_rows : List Obj
  pub mode : Mode

-- What the result set calls of `PyResponseFuture`. `fetch` is `start_fetching_next_page` and then
-- `wait_rows`, whose rows are `none` for a page that holds none.
pub record ResponseFuture {ℓ} (S : Type ℓ) : Type ℓ where
  pub has_more_pages : S → Bool
  pub fetch : S → S × PyResult (Option (List Obj))

unfoldable pub rows_or_empty : Option (List Obj) → List Obj
rows_or_empty (some rows) = rows
rows_or_empty none = []

unfoldable pub new : Option (List Obj) → IterState
unfolding rows_or_empty
new rows = record { current_rows = rows_or_empty rows; mode = not_started }

unfoldable pub start_page : List Obj → IterState
start_page rows = record { current_rows = rows; mode = iterating 0 }

pub data Step : Type 0 where
  row : Obj → Step
  end fetch_page_step : Step

-- The lists of rows are taken not to be changed by their other holders.
module _ {ℓ} {S : Type ℓ} (future : ResponseFuture S) where
  -- `step` from a position: the row there, if any, decides.
  abbrev pub step_past : Bool → IterState → IterState × PyResult Step
  step_past true s = (s, ok fetch_page_step)
  step_past false s = (start_page [], ok end)

  abbrev pub step_row : Option Obj → IterState → ℕ → Bool → IterState × PyResult Step
  step_row (some r) s position more = (record s { mode = iterating (position + 1) }, ok (row r))
  step_row none s position more = step_past more (record s { mode = iterating position })

  abbrev pub step_at : Mode → S → List Obj → IterState × PyResult Step
  step_at (iterating position) w rows =
      step_row (get_elem? rows position) (record { current_rows = rows; mode = iterating position })
        position (future.has_more_pages w)
  step_at not_started w rows =
      step_row (get_elem? rows 0) (record { current_rows = rows; mode = iterating 0 }) 0
        (future.has_more_pages w)
  step_at list_mode w rows = (record { current_rows = rows; mode = list_mode }, err type_error)

  unfoldable pub step : S → IterState → IterState × PyResult Step
  unfolding start_page
  step w s = step_at s.mode w s.current_rows

  abbrev pub fetched_rows : S × PyResult (Option (List Obj)) → S × PyResult (List Obj)
  fetched_rows (w, ok rows) = (w, ok (rows_or_empty rows))
  fetched_rows (w, err e) = (w, err e)

  unfoldable pub fetch_page : S → S × PyResult (List Obj)
  fetch_page w = fetched_rows (future.fetch w)

  -- The world of one result set.
  abbrev pub World : Type ℓ
  World = S × IterState

  -- A call's result, `none` while a loop runs out of fuel.
  abbrev pub Ran : Type 0 → Type ℓ
  Ran A = World × Option (PyResult A)

  abbrev pub page_started :
      (World → Ran (Option Obj)) → IterState → S × PyResult (List Obj) → Ran (Option Obj)
  page_started next s (w, ok rows) = next (w, start_page rows)
  page_started next s (w, err e) = ((w, s), some (err e))

  abbrev pub advance : (World → Ran (Option Obj)) → S → IterState × PyResult Step → Ran (Option Obj)
  advance next w (s, ok (row r)) = ((w, s), some (ok (some r)))
  advance next w (s, ok end) = ((w, s), some (ok none))
  advance next w (s, ok fetch_page_step) = page_started next s (fetch_page w)
  advance next w (s, err e) = ((w, s), some (err e))

  -- Each page that is fetched takes one of the fuel.
  unfoldable pub next_row : ℕ → World → Ran (Option Obj)
  next_row zero world = (world, none)
  next_row (suc fuel) (w, s) = advance (next_row fuel) w (step w s)

  abbrev pub appended :
      (List Obj → World → Ran (List Obj)) → List Obj → Ran (Option Obj) → Ran (List Obj)
  appended loop all (world, some (ok (some r))) = loop (all ++ r ∷ []) world
  appended loop all (world, some (ok none)) = (world, some (ok all))
  appended loop all (world, some (err e)) = (world, some (err e))
  appended loop all (world, none) = (world, none)

  -- The loop of `drain_from_start`: each row takes one of the first fuel.
  unfoldable pub drain_rows : ℕ → ℕ → List Obj → World → Ran (List Obj)
  drain_rows zero pages all world = (world, none)
  drain_rows (suc n) pages all world = appended (drain_rows n pages) all (next_row pages world)

  abbrev pub drain_mode : Mode → ℕ → ℕ → World → Ran (List Obj)
  drain_mode list_mode n pages (w, s) = ((w, s), some (ok s.current_rows))
  drain_mode _ n pages (w, s) = drain_rows n pages [] (w, record s { mode = iterating 0 })

  unfoldable pub drain_from_start : ℕ → ℕ → World → Ran (List Obj)
  unfolding drain_rows
  drain_from_start n pages (w, s) = drain_mode s.mode n pages (w, s)

  abbrev pub listed : Ran (List Obj) → Ran (Unit {0})
  listed ((w, s), some (ok all)) =
      ((w, record { current_rows = all; mode = list_mode }), some (ok tt))
  listed (world, some (err e)) = (world, some (err e))
  listed (world, none) = (world, none)

  abbrev pub list_from : Mode → ℕ → ℕ → World → Ran (Unit {0})
  list_from list_mode n pages world = (world, some (ok tt))
  list_from (iterating p) n pages world = (world, some (err runtime_error))
  list_from not_started n pages world = listed (drain_from_start n pages world)

  unfoldable pub enter_list_mode : ℕ → ℕ → World → Ran (Unit {0})
  unfolding drain_from_start
  enter_list_mode n pages (w, s) = list_from s.mode n pages (w, s)

  unfoldable pub one : World → Option Obj
  one (w, s) = get_elem? s.current_rows 0

  -- `__iter__`: a list iterates over its rows, else the result set is its own iterator.
  abbrev iter_from : Mode → World → World × Option (List Obj)
  iter_from list_mode (w, s) = ((w, s), some s.current_rows)
  iter_from _ (w, s) = ((w, record s { mode = iterating 0 }), none)

  unfoldable pub iter : World → World × Option (List Obj)
  iter (w, s) = iter_from s.mode (w, s)

  abbrev pub restarted : Mode → Mode
  restarted (iterating p) = iterating 0
  restarted mode = mode

  abbrev next_page_set : IterState → S × PyResult (List Obj) → World × PyResult (Unit {0})
  next_page_set s (w, ok rows) =
      ((w, record { current_rows = rows; mode = restarted s.mode }), ok tt)
  next_page_set s (w, err e) = ((w, s), err e)

  abbrev next_page_from : Bool → World → World × PyResult (Unit {0})
  next_page_from true (w, s) = next_page_set s (fetch_page w)
  next_page_from false (w, s) = next_page_set s (w, ok [])

  unfoldable pub fetch_next_page : World → World × PyResult (Unit {0})
  fetch_next_page (w, s) = next_page_from (future.has_more_pages w) (w, s)
