-- ===== src/Paging/Async.antt =====
-- src/results/iterators.rs: the asynchronous iterators over the rows and the pages of a result.
use python_rs_driver.Common.{
  ℕ, suc, Bool, true, false, Option, none, some, List, [], ◌∷◌, ◌≡◌, refl, arith, ap, sym, ◌∙◌, ◌≤◌,
}
use python_rs_driver.Common.Python.{Obj, PyResult, ok, err, stop_async_iteration}
use python_rs_driver.Paging.{Env, RowsIteratorKind, rows, non_rows, exhaust, next}
use python_rs_driver.Paging.Loops.{Reader, paging_loop, read_row, next_row_with_paging}
use python_rs_driver.Paging.Reading.{Left, next_row_with_paging-TakesFirst}

-- `AsyncIteratorState::finish`.
unfoldable pub finish : Reader → Reader
unfolding exhaust
finish r = record r {
  iterator = non_rows;
  paged = record r.paged { pager = exhaust r.paged.pager };
}

abbrev pub finish_on_error : Reader → PyResult Obj → Reader × PyResult Obj
finish_on_error r (ok row) = (r, ok row)
finish_on_error r (err e) = (finish r, err e)

abbrev pub row_or_stop : Reader → Option (PyResult Obj) → Reader × PyResult Obj
row_or_stop r (some row) = finish_on_error r row
row_or_stop r none = (r, err stop_async_iteration)

abbrev pub read_or_stop : Option (Reader × Option (PyResult Obj)) → Option (Reader × PyResult Obj)
read_or_stop none = none
read_or_stop (some (r, row)) = some (row_or_stop r row)

-- The future of `__anext__`, once it has the lock; `none` if the fuel runs out.
unfoldable pub anext_future : Env → ℕ → Reader → Option (Reader × PyResult Obj)
unfolding next_row_with_paging finish
anext_future env fuel r = read_or_stop (next_row_with_paging env fuel r)

abbrev pub unless_row :
    Env → ℕ → Reader → RowsIteratorKind × Option (PyResult Obj) → Option (Reader × PyResult Obj)
unless_row env fuel r (it, some row) = some (finish_on_error (record r { iterator = it }) row)
unless_row env fuel r (it, none) = anext_future env fuel (record r { iterator = it })

-- `AsyncRowsIterator::__anext__`: a row left on the page needs no future, if `try_lock` succeeds.
unfoldable pub anext : Env → ℕ → (try_lock : Bool) → Reader → Option (Reader × PyResult Obj)
unfolding next finish anext_future
anext env fuel true r = unless_row env fuel r (next env r.iterator)
anext env fuel false r = anext_future env fuel r

abbrev and_then :
    Option (Reader × PyResult Obj)
    → (Reader → Option (List (PyResult Obj)))
    → Option (List (PyResult Obj))
and_then none calls = none
and_then (some (r, row)) calls = elim (calls r) [ none ↦ none | some xs ↦ some (row ∷ xs) ]

-- One call after the other, each with its own answer of `try_lock`.
unfoldable pub calls : Env → ℕ → List Bool → Reader → Option (List (PyResult Obj))
unfolding anext
calls env fuel [] r = some []
calls env fuel (lock ∷ locks) r = and_then (anext env fuel lock r) (calls env fuel locks)

-- The rows in order, and then the end at every call.
abbrev pub answers : List Bool → List Obj → List (PyResult Obj)
answers [] xs = []
answers (lock ∷ locks) [] = err stop_async_iteration ∷ answers locks []
answers (lock ∷ locks) (x ∷ xs) = ok x ∷ answers locks xs

-- Reading at the end of a page's rows leaves the iterator as it is.
next-again : (env : Env) (it : RowsIteratorKind) → (next env it).1 ≡ none → (next env it).0 ≡ it
unfolding next
next-again env non_rows h = refl
next-again env (rows [] builder) h = refl
next-again env (rows (raw ∷ rest) builder) h = absurd cc

unless_row-anext_future :
    (env : Env) (fuel : ℕ) (r : Reader) (it : RowsIteratorKind) (row : Option (PyResult Obj))
    → next env r.iterator ≡ (it, row)
    → unless_row env (suc fuel) r (it, row) ≡ anext_future env (suc fuel) r
unfolding anext_future next_row_with_paging paging_loop read_row
unless_row-anext_future env fuel r it (some row) h = rw (h, paging_loop) (rw (h, read_row) refl)
unless_row-anext_future env fuel r it none h =
    ap (λ i. anext_future env (suc fuel) (record r { iterator = i }))
      (sym (ap (λ p. p.0) h) ∙ next-again env r.iterator (ap (λ p. p.1) h))

-- Taking a row without a future gives the row and leaves the state that the future would.
anext-anext_future :
    (env : Env) (fuel : ℕ) (lock : Bool) (r : Reader)
    → anext env (suc fuel) lock r ≡ anext_future env (suc fuel) r
unfolding anext
anext-anext_future env fuel false r = refl
anext-anext_future env fuel true r =
    unless_row-anext_future env fuel r (next env r.iterator).0 (next env r.iterator).1 refl

-- `async for` over a result gives its rows in order and then the end at every further call, whatever
-- calls find the state locked, if the server answers every page and every row decodes; each call
-- needs no more rounds than there are pages left, and one.
pub calls-answers :
    (env : Env) (factory : Obj) (fuel n : ℕ) (locks : List Bool) (flat : List Obj) (r : Reader)
    → Left env factory n flat r
    → n ≤ fuel
    → calls env (suc fuel) locks r ≡ some (answers locks flat)
unfolding calls
calls-answers env factory fuel n [] flat r left le = refl
calls-answers env factory fuel n (lock ∷ locks) [] r left le =
    let (r', e, left') =
      next_row_with_paging-TakesFirst env factory (suc fuel) n [] r left (omega arith) in
    rw (anext-anext_future env fuel lock r)
      (rw (e, anext_future) (rw (calls-answers env factory fuel n locks [] r' left' le) refl))
calls-answers env factory fuel n (lock ∷ locks) (x ∷ flat) r left le =
    let (r', e, left') =
      next_row_with_paging-TakesFirst env factory (suc fuel) n (x ∷ flat) r left (omega arith) in
    rw (anext-anext_future env fuel lock r)
      (rw (e, anext_future) (rw (calls-answers env factory fuel n locks flat r' left' le) refl))
