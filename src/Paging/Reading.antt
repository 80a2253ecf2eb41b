-- ===== src/Paging/Reading.antt =====
-- `next_row_with_paging` against the list of rows that the server holds.
use python_rs_driver.Common.{
  ℕ, zero, suc, ◌≤◌, ◌<◌, ◌≡◌, refl, ap, ◌∙◌, Option, none, some, List, [], ◌∷◌, ◌++◌, arith,
  length,
}
use python_rs_driver.Common.Python.{Obj, PyResult, ok}
use python_rs_driver.Paging.{
  Env, QueryResult, RawRows, RowsIteratorKind, rows, non_rows, PagerState, Paged, fetch_next_page,
  fetch_next_page_of, spawn_on_runtime, resolve_page, update, next,
}
use python_rs_driver.Paging.Script.{
  Built, none_left, one_more, Yields, from_rows, from_non_rows, Holds, no_rows, some_rows, finished,
  page, Follows, not_paged, from_response, concat,
}
use python_rs_driver.Paging.Loops.{Reader, read_row, paging_loop, next_row_with_paging}

-- Reading from the iterator alone: its first row, or nothing at its end.
abbrev Reads : Env → List Obj → RowsIteratorKind × Option (PyResult Obj) → Type 0
Reads env [] (it, row) = (row ≡ none) × Yields env it []
Reads env (x ∷ xs) (it, row) = (row ≡ some (ok x)) × Yields env it xs

next-Reads-rows :
    (env : Env) (builder : Obj) {raw : List (PyResult ℕ)} {xs : List Obj}
    → Built env builder raw xs
    → Reads env xs (next env (rows raw builder))
unfolding next
next-Reads-rows env builder none_left = (refl, from_rows none_left)
next-Reads-rows env builder (one_more e b) = (ap some e, from_rows b)

next-Reads :
    (env : Env) {it : RowsIteratorKind} {xs : List Obj}
    → Yields env it xs
    → Reads env xs (next env it)
unfolding next
next-Reads env (from_rows {builder = builder} b) = next-Reads-rows env builder b
next-Reads env from_non_rows = (refl, from_non_rows)

pub update-Yields :
    (env : Env) (factory : Obj) (q : QueryResult) {content : Option RawRows} {xs : List Obj}
    → q.content ≡ content
    → Holds env factory content xs
    → (it : RowsIteratorKind) × (update env factory q ≡ ok it) × Yields env it xs
unfolding update
update-Yields env factory q e no_rows = (non_rows, rw e refl, from_non_rows)
update-Yields env factory q e (some_rows {raw = raw} {builder = builder} r b) =
    (rows raw.raw_rows builder, rw e (rw (r, resolve_page) refl), from_rows b)

-- Fetching follows the script: the next page, or nothing at its end.
abbrev Fetches : Env → Obj → List (List Obj) → Paged × Option (PyResult QueryResult) → Type 0
Fetches env factory [] (p, fetched) = (fetched ≡ none) × Follows env factory p.pager.state []
Fetches env factory (xs ∷ xss) (p, fetched) =
    (q : QueryResult) × (fetched ≡ some (ok q))
    × Holds env factory q.content xs
    × Follows env factory p.pager.state xss

fetch_next_page_of-Fetches :
    (env : Env) (factory : Obj) (p : Paged) {state : PagerState} {xss : List (List Obj)}
    → p.pager.state ≡ state
    → Follows env factory state xss
    → Fetches env factory xss (fetch_next_page_of env spawn_on_runtime state p)
unfolding fetch_next_page_of
fetch_next_page_of-Fetches env factory p e not_paged = (refl, rw e not_paged)
fetch_next_page_of-Fetches env factory p e (from_response finished) =
    (refl, rw e (from_response finished))
fetch_next_page_of-Fetches env factory p e (from_response (page {q = q} f h s)) =
    rw f (q, refl, h, from_response s)

pub fetch_next_page-Fetches :
    (env : Env) (factory : Obj) (p : Paged) {xss : List (List Obj)}
    → Follows env factory p.pager.state xss
    → Fetches env factory xss (fetch_next_page env spawn_on_runtime p)
unfolding fetch_next_page
fetch_next_page-Fetches env factory p f = fetch_next_page_of-Fetches env factory p refl f

-- What is left to read: the rows of the current page and those of the pages that follow, `n` of
-- them at most.
abbrev pub Left : Env → Obj → ℕ → List Obj → Reader → Type 0
Left env factory n flat r =
    (xs : List Obj) × (xss : List (List Obj)) × Yields env r.iterator xs
    × Follows env factory r.paged.pager.state xss
    × (r.factory ≡ factory)
    × (length xss ≤ n)
    × (flat ≡ xs ++ concat xss)

-- One call took the first row off what was left, or found that nothing is.
abbrev pub TakesFirst : Env → Obj → ℕ → List Obj → Option (Reader × Option (PyResult Obj)) → Type 0
TakesFirst env factory n [] result =
    (r : Reader) × (result ≡ some (r, none)) × Left env factory n [] r
TakesFirst env factory n (x ∷ flat) result =
    (r : Reader) × (result ≡ some (r, some (ok x))) × Left env factory n flat r

abbrev Ready : Env → Reader → Option QueryResult → List Obj → Type 0
Ready env r none xs = Yields env r.iterator xs
Ready env r (some q) xs = Holds env r.factory q.content xs

abbrev ReadsFrom : Env → Reader → List Obj → Reader × Option (PyResult Obj) → Type 0
ReadsFrom env r xs (r', row) =
    Reads env xs (r'.iterator, row) × (r'.paged ≡ r.paged) × (r'.factory ≡ r.factory)

read_row-ReadsFrom :
    (env : Env) (r : Reader) (next_page : Option QueryResult) (xs : List Obj)
    → Ready env r next_page xs
    → ReadsFrom env r xs (read_row env next_page r)
unfolding read_row
read_row-ReadsFrom env r none xs y = (next-Reads env y, refl, refl)
read_row-ReadsFrom env r (some q) xs h =
    let (it, e, y) = update-Yields env r.factory q refl h in
    rw (e, read_row) (next-Reads env y, refl, refl)

paging_loop-TakesFirst :
    (env : Env) (factory : Obj) (fuel n : ℕ) (next_page : Option QueryResult) (r : Reader)
    (xs : List Obj) (xss : List (List Obj))
    → Ready env r next_page xs
    → Follows env factory r.paged.pager.state xss
    → r.factory ≡ factory
    → length xss < fuel
    → length xss ≤ n
    → TakesFirst env factory n (xs ++ concat xss) (paging_loop env fuel next_page r)
unfolding paging_loop
paging_loop-TakesFirst env factory zero n np r xs xss ready follows same lt le = elim lt [ ]
paging_loop-TakesFirst env factory (suc fuel) n np r (x ∷ xs) xss ready follows same lt le =
    let ((e, y), kept, factory_kept) = read_row-ReadsFrom env r np (x ∷ xs) ready in
    rw (e, paging_loop)
      ((read_row env np r).0, refl, (xs, xss, y, rw kept follows, factory_kept ∙ same, le, refl))
paging_loop-TakesFirst env factory (suc fuel) n np r [] [] ready follows same lt le =
    let (r', row) = read_row env np r in
    let ((e, y), kept, factory_kept) = read_row-ReadsFrom env r np [] ready in
    let (none_left', ended) =
      fetch_next_page-Fetches env factory r'.paged {xss = []} (rw kept follows) in
    rw (e, paging_loop)
      (rw none_left' (
        record r' { paged = (fetch_next_page env spawn_on_runtime r'.paged).0 },
        refl,
        ([], [], y, ended, factory_kept ∙ same, omega arith, refl),
      ))
paging_loop-TakesFirst env factory (suc fuel) n np r [] (ys ∷ yss) ready follows same lt le =
    let (r', row) = read_row env np r in
    let ((e, y), kept, factory_kept) = read_row-ReadsFrom env r np [] ready in
    let (q, got, holds, rest) =
      fetch_next_page-Fetches env factory r'.paged {xss = ys ∷ yss} (rw kept follows) in
    rw (e, paging_loop)
      (rw got (
        paging_loop-TakesFirst env factory fuel n (some q)
          (record r' { paged = (fetch_next_page env spawn_on_runtime r'.paged).0 }) ys yss
          (rw (factory_kept ∙ same) holds) rest (factory_kept ∙ same) (omega arith) (omega arith)))

-- While rows are left on this page or the following ones, a call takes the first of them, and
-- leaves the others to the next call; once none is left it reports the end. It needs one round
-- for each page that follows, and one more.
pub next_row_with_paging-TakesFirst :
    (env : Env) (factory : Obj) (fuel n : ℕ) (flat : List Obj) (r : Reader)
    → Left env factory n flat r
    → n < fuel
    → TakesFirst env factory n flat (next_row_with_paging env fuel r)
unfolding next_row_with_paging
next_row_with_paging-TakesFirst env factory fuel n flat r (xs, xss, y, follows, same, le, e) lt =
    rw e (paging_loop-TakesFirst env factory fuel n none r xs xss y follows same (omega arith) le)
