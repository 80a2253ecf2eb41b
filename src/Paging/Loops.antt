-- ===== src/Paging/Loops.antt =====
-- The loops of src/core/results.rs over the rows of a result. A loop takes fuel, one unit for each
-- page; `none` means that it ran out.
use python_rs_driver.Common.{ℕ, zero, suc, Option, none, some, List, [], ◌∷◌, ◌++◌}
use python_rs_driver.Common.Python.{Obj, PyResult, ok, err, ◌>>=◌}
use python_rs_driver.Paging.{
  Env, QueryResult, RowsIteratorKind, rows, non_rows, ResolvedPage, page_rows, page_non_rows, Paged,
  spawn_on_runtime, fetch_next_page, new_iterator, update, next,
}

-- What `next_row_with_paging` reads and changes.
pub record Reader : Type 0 where
  pub iterator : RowsIteratorKind
  pub paged : Paged
  pub factory : Obj

abbrev read_next : Env → Reader → Reader × Option (PyResult Obj)
read_next env r =
    let (iterator, row) = next env r.iterator in (record r { iterator = iterator }, row)

-- The part under the GIL: switch to the fetched page, if there is one, and read a row.
unfoldable pub read_row : Env → Option QueryResult → Reader → Reader × Option (PyResult Obj)
unfolding next update
read_row env none r = read_next env r
read_row env (some q) r = elim (update env r.factory q) [
  | ok iterator ↦ read_next env (record r { iterator = iterator })
  | err e ↦ (r, some (err e))
]

unfoldable pub paging_loop :
    Env → ℕ → Option QueryResult → Reader → Option (Reader × Option (PyResult Obj))
paging_loop env zero next_page r = none
paging_loop env (suc fuel) next_page r =
    let (r', row) = read_row env next_page r in
    let (p, fetched) = fetch_next_page env spawn_on_runtime r'.paged in
    elim row [
      | some x ↦ some (r', some x)
      | none ↦ elim fetched [
        | none ↦ some (record r' { paged = p }, none)
        | some (err e) ↦ some (record r' { paged = p }, some (err e))
        | some (ok q) ↦ paging_loop env fuel (some q) (record r' { paged = p })
      ]
    ]

unfoldable pub next_row_with_paging : Env → ℕ → Reader → Option (Reader × Option (PyResult Obj))
unfolding paging_loop
next_row_with_paging env fuel r = paging_loop env fuel none r

-- `drain_page` appends the rows left on the page to `list`, up to the first error.
unfoldable pub drain_rows : Env → Obj → List (PyResult ℕ) → List Obj → PyResult (List Obj)
drain_rows env builder [] list = ok list
drain_rows env builder (raw ∷ rest) list = (raw >>= λ columns. env.build builder columns) >>= λ row.
    drain_rows env builder rest (list ++ row ∷ [])

unfoldable pub drain_page : Env → RowsIteratorKind → List Obj → PyResult (List Obj)
unfolding drain_rows
drain_page env non_rows list = ok list
drain_page env (rows raw builder) list = drain_rows env builder raw list

-- `page_rows`: the rows of one page, `None` for a result without rows.
unfoldable pub rows_of_page : Env → ResolvedPage → PyResult (Option (List Obj))
unfolding drain_page new_iterator
rows_of_page env page_non_rows = ok none
rows_of_page env (page_rows raw builder) =
    drain_page env (new_iterator (page_rows raw builder)) [] >>= λ list. ok (some list)

-- `first_row`, with the pager it leaves behind dropped as in the source.
unfoldable pub first_row : Env → ℕ → Reader → Option (PyResult (Option Obj))
unfolding next_row_with_paging
first_row env fuel r = elim (next_row_with_paging env fuel r) [
  | none ↦ none
  | some (r', none) ↦ some (ok none)
  | some (r', some (ok row)) ↦ some (ok (some row))
  | some (r', some (err e)) ↦ some (err e)
]

-- The section of `all` under the GIL: the iterator of the fetched page, if there is one.
unfoldable pub switch_page :
    Env → Obj → Option QueryResult → RowsIteratorKind → PyResult RowsIteratorKind
unfolding update
switch_page env factory none iterator = ok iterator
switch_page env factory (some q) iterator = update env factory q

unfoldable pub all_loop :
    Env
    → ℕ
    → Obj
    → Option QueryResult
    → RowsIteratorKind
    → Paged
    → List Obj
    → Option (PyResult (List Obj))
all_loop env zero factory next_page iterator p list = none
all_loop env (suc fuel) factory next_page iterator p list =
    let drained = switch_page env factory next_page iterator >>= λ it. drain_page env it list in
    let (p', fetched) = fetch_next_page env spawn_on_runtime p in
    elim drained [
      | err e ↦ some (err e)
      | ok list' ↦ elim fetched [
        | none ↦ some (ok list')
        | some (err e) ↦ some (err e)
        | some (ok q) ↦ all_loop env fuel factory (some q) non_rows p' list'
      ]
    ]

unfoldable pub all : Env → ℕ → Reader → Option (PyResult (List Obj))
unfolding all_loop
all env fuel r = all_loop env fuel r.factory none r.iterator r.paged []
