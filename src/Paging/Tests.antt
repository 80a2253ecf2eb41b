-- ===== src/Paging/Tests.antt =====
-- A result of three pages, the second one empty: tests, and the theorems applied to it.
use python_rs_driver.Common.{
  ℕ, ◌≡◌, refl, true, false, none, some, List, [], ◌∷◌, ◌==◌, if◌then◌else◌, arith,
}
use python_rs_driver.Common.Python.{PyResult, ok, err, value_error}
use python_rs_driver.Paging.{
  Env, QueryResult, rows, Fetched, has_more, no_more, prepared, paged, traced, fetch_page,
  fetch_next_page, update, next, record_id,
}
use python_rs_driver.Paging.Script.{
  none_left, one_more, from_rows, some_rows, Script, finished, page, from_response,
}
use python_rs_driver.Paging.Loops.{
  Reader, next_row_with_paging, all, drain_page, paging_loop, read_row, all_loop, switch_page,
}
use python_rs_driver.Paging.Reading.{Left, TakesFirst, next_row_with_paging-TakesFirst}
use python_rs_driver.Paging.Async.{calls, answers, calls-answers}
use python_rs_driver.Paging.All.{all_lem}

abbrev with_rows : List (PyResult ℕ) → QueryResult
with_rows raw = record {
  tracing_id = some 4;
  warnings = [];
  content = some (record { col_specs = []; raw_rows = raw });
}

-- State 1 is the empty page, state 2 the last one.
abbrev answer : ℕ → Fetched
answer s =
    if s == 1
    then ok (with_rows [], has_more 2)
    else if s == 2
    then ok (with_rows (ok 30 ∷ []), no_more)
    else err value_error

-- The builder makes the raw row itself the object.
abbrev env : Env
env = record {
  execute_unstable = λ _ _ _ s. answer s;
  query_single_page = λ _ _ s. answer s;
  join_error = none;
  resolve = λ factory _. ok factory;
  build = λ _ raw. ok raw;
}

abbrev reader : Reader
reader = record {
  iterator = rows (ok 10 ∷ ok 20 ∷ []) 7;
  paged = record {
    pager = record { traces = traced 0; state = paged (has_more 1) (prepared 5 6) };
    store = λ _. [];
  };
  factory = 7;
}

reader-Script : Script env 7 (prepared 5 6) (has_more 1) ([] ∷ (30 ∷ []) ∷ [])
unfolding fetch_page
reader-Script =
    page refl (some_rows {builder = 7} refl none_left)
      (page refl (some_rows {builder = 7} refl (one_more refl none_left)) finished)

reader-Left : Left env 7 2 (10 ∷ 20 ∷ 30 ∷ []) reader
reader-Left = (
  10 ∷ 20 ∷ [],
  [] ∷ (30 ∷ []) ∷ [],
  from_rows (one_more refl (one_more refl none_left)),
  from_response reader-Script,
  refl,
  omega arith,
  refl,
)

computing : Unit {0}
unfolding all all_loop switch_page drain_page fetch_next_page fetch_page update next paging_loop
    read_row next_row_with_paging record_id
computing = tt

all-reader : all env 3 reader ≡ some (ok (10 ∷ 20 ∷ 30 ∷ []))
unfolding computing
all-reader = refl

next_row_with_paging-TakesFirst_example :
    TakesFirst env 7 2 (10 ∷ 20 ∷ 30 ∷ []) (next_row_with_paging env 3 reader)
next_row_with_paging-TakesFirst_example =
    next_row_with_paging-TakesFirst env 7 3 2 (10 ∷ 20 ∷ 30 ∷ []) reader reader-Left (omega arith)

all_lem_example : all env 3 reader ≡ some (ok (10 ∷ 20 ∷ 30 ∷ []))
all_lem_example = all_lem env 7 3 2 (10 ∷ 20 ∷ 30 ∷ []) reader reader-Left (omega arith)

calls-answers_example :
    calls env 3 (true ∷ false ∷ true ∷ true ∷ false ∷ []) reader
    ≡ some (answers (true ∷ false ∷ true ∷ true ∷ false ∷ []) (10 ∷ 20 ∷ 30 ∷ []))
calls-answers_example =
    calls-answers env 7 2 2 (true ∷ false ∷ true ∷ true ∷ false ∷ []) (10 ∷ 20 ∷ 30 ∷ []) reader
      reader-Left (omega arith)
