-- ===== src/ResultSet/Tests.antt =====
-- A result set over a future that serves a list of pages, and the theorems about it.
use python_rs_driver.Common.{true, false, Bool, Option, none, some, List, [], ◌∷◌, ◌≡◌, refl, arith}
use python_rs_driver.Common.Python.{Obj, PyResult, ok, err, query_exhausted, type_error}
use python_rs_driver.ResultSet.{
  iterating, ResponseFuture, new, start_page, rows_or_empty, drain_from_start, enter_list_mode,
  next_row,
}
use python_rs_driver.ResultSet.Iteration.{
  Serves, last, more, exhausted, as_list, concat, drain_from_start_lem, enter_list_mode_lem,
}

abbrev has_pages : List (Option (List Obj)) → Bool
has_pages [] = false
has_pages (page ∷ pages) = true

abbrev fetch_first :
    List (Option (List Obj)) → List (Option (List Obj)) × PyResult (Option (List Obj))
fetch_first [] = ([], err query_exhausted)
fetch_first (page ∷ pages) = (pages, ok page)

abbrev paged : ResponseFuture (List (Option (List Obj)))
paged = record { has_more_pages = has_pages; fetch = fetch_first }

abbrev two_pages : List (Option (List Obj))
two_pages = some (3 ∷ []) ∷ none ∷ []

two_pages-Serves : Serves paged two_pages ((3 ∷ []) ∷ [] ∷ [])
unfolding rows_or_empty
two_pages-Serves = more {rows = some (3 ∷ [])} refl refl (more {rows = none} refl refl (last refl))

drain_from_start_lem_example :
    drain_from_start paged 10 5
      (two_pages, record { current_rows = 1 ∷ 2 ∷ []; mode = iterating 1 })
    ≡ ((exhausted paged two_pages-Serves, start_page []), some (ok (1 ∷ 2 ∷ 3 ∷ [])))
unfolding concat
drain_from_start_lem_example =
    drain_from_start_lem paged two_pages-Serves 10 5 (1 ∷ 2 ∷ []) (iterating 1) (λ e. cc)
      (omega arith) (omega arith)

enter_list_mode_lem_example :
    (enter_list_mode paged 10 5 (two_pages, new (some (1 ∷ 2 ∷ [])))
      ≡ (as_list paged (exhausted paged two_pages-Serves) (1 ∷ 2 ∷ 3 ∷ []), some (ok tt)))
    × (enter_list_mode paged 10 5
          (as_list paged (exhausted paged two_pages-Serves) (1 ∷ 2 ∷ 3 ∷ []))
        ≡ (as_list paged (exhausted paged two_pages-Serves) (1 ∷ 2 ∷ 3 ∷ []), some (ok tt)))
    × (drain_from_start paged 10 5
          (as_list paged (exhausted paged two_pages-Serves) (1 ∷ 2 ∷ 3 ∷ []))
        ≡ (
          as_list paged (exhausted paged two_pages-Serves) (1 ∷ 2 ∷ 3 ∷ []),
          some (ok (1 ∷ 2 ∷ 3 ∷ [])),
        ))
    × (next_row paged 6 (as_list paged (exhausted paged two_pages-Serves) (1 ∷ 2 ∷ 3 ∷ [])) ≡ (
      as_list paged (exhausted paged two_pages-Serves) (1 ∷ 2 ∷ 3 ∷ []),
      some (err type_error),
    ))
unfolding concat rows_or_empty
enter_list_mode_lem_example =
    enter_list_mode_lem paged two_pages-Serves 10 5 (some (1 ∷ 2 ∷ [])) (omega arith) (omega arith)
