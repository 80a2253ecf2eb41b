-- ===== src/Paging/All.antt =====
-- `all` against the list of rows that the server holds, and against repeated single reads.
use python_rs_driver.Common.{
  ℕ, zero, suc, ◌<◌, ◌≡◌, refl, sym, ap, ◌∙◌, Option, none, some, List, [], ◌∷◌, ◌++◌, arith,
  length, append-nil, append_assoc,
}
use python_rs_driver.Common.Python.{Obj, PyResult, ok}
use python_rs_driver.Paging.{
  Env, QueryResult, RowsIteratorKind, non_rows, Paged, fetch_next_page, spawn_on_runtime,
}
use python_rs_driver.Paging.Script.{
  Built, none_left, one_more, Yields, from_rows, from_non_rows, Holds, Follows, concat,
}
use python_rs_driver.Paging.Loops.{Reader, drain_rows, drain_page, switch_page, all_loop, all}
use python_rs_driver.Paging.Reading.{update-Yields, fetch_next_page-Fetches, Left}

drain_rows-Built :
    (env : Env) (builder : Obj) {raw : List (PyResult ℕ)} {xs : List Obj} (list : List Obj)
    → Built env builder raw xs
    → drain_rows env builder raw list ≡ ok (list ++ xs)
unfolding drain_rows
drain_rows-Built env builder list none_left = ap ok (sym (append-nil list))
drain_rows-Built env builder list (one_more {row = row} {xs = xs} e b) =
    rw e
      (drain_rows-Built env builder (list ++ row ∷ []) b ∙ ap ok (append_assoc list (row ∷ []) xs))

drain_page-Yields :
    (env : Env) {it : RowsIteratorKind} {xs : List Obj} (list : List Obj)
    → Yields env it xs
    → drain_page env it list ≡ ok (list ++ xs)
unfolding drain_page
drain_page-Yields env list (from_rows {builder = builder} b) = drain_rows-Built env builder list b
drain_page-Yields env list from_non_rows = ap ok (sym (append-nil list))

abbrev Switches : Env → Obj → Option QueryResult → RowsIteratorKind → List Obj → Type 0
Switches env factory none it xs = Yields env it xs
Switches env factory (some q) it xs = Holds env factory q.content xs

switch_page-Yields :
    (env : Env) (factory : Obj) (next_page : Option QueryResult) (it : RowsIteratorKind)
    (xs : List Obj)
    → Switches env factory next_page it xs
    → (it' : RowsIteratorKind) × (switch_page env factory next_page it ≡ ok it') × Yields env it' xs
unfolding switch_page
switch_page-Yields env factory none it xs y = (it, refl, y)
switch_page-Yields env factory (some q) it xs h = update-Yields env factory q refl h

all_loop_lem :
    (env : Env) (factory : Obj) (fuel : ℕ) (next_page : Option QueryResult) (it : RowsIteratorKind)
    (p : Paged) (xs : List Obj) (xss : List (List Obj)) (list : List Obj)
    → Switches env factory next_page it xs
    → Follows env factory p.pager.state xss
    → length xss < fuel
    → all_loop env fuel factory next_page it p list ≡ some (ok (list ++ (xs ++ concat xss)))
unfolding all_loop
all_loop_lem env factory zero np it p xs xss list sw f lt = elim lt [ ]
all_loop_lem env factory (suc fuel) np it p xs [] list sw f lt =
    let (it', e, y) = switch_page-Yields env factory np it xs sw in
    let (ended, rest) = fetch_next_page-Fetches env factory p {xss = []} f in
    rw (e, all_loop)
      (rw (drain_page-Yields env list y)
        (rw ended (ap (λ (l : List Obj). some (ok (list ++ l))) (sym (append-nil xs)))))
all_loop_lem env factory (suc fuel) np it p xs (ys ∷ yss) list sw f lt =
    let (it', e, y) = switch_page-Yields env factory np it xs sw in
    let (q, got, holds, rest) = fetch_next_page-Fetches env factory p {xss = ys ∷ yss} f in
    rw (e, all_loop)
      (rw (drain_page-Yields env list y) (
        rw got (
          all_loop_lem env factory fuel (some q) non_rows (fetch_next_page env spawn_on_runtime p).0
            ys yss (list ++ xs) holds rest (omega arith)
          ∙ ap (λ (l : List Obj). some (ok l)) (append_assoc list xs (ys ++ concat yss)))))

-- With a round for each page that follows and one more, `all` returns every row left on this page
-- and on the following ones, in order.
pub all_lem :
    (env : Env) (factory : Obj) (fuel n : ℕ) (flat : List Obj) (r : Reader)
    → Left env factory n flat r
    → n < fuel
    → all env fuel r ≡ some (ok flat)
unfolding all
all_lem env factory fuel n flat r (xs, xss, y, follows, same, le, e) lt =
    rw (e, same)
      (all_loop_lem env factory fuel none r.iterator r.paged xs xss [] y follows (omega arith))
