-- ===== src/Paging/Script.antt =====
-- What a server that answers every request holds for a query: the pages that follow a paging
-- state, each with the rows that the row factory makes of it.
use python_rs_driver.Common.{ℕ, ◌≡◌, Option, none, some, List, [], ◌∷◌, ◌++◌}
use python_rs_driver.Common.Python.{Obj, PyResult, ok}
use python_rs_driver.Paging.{
  Env, QueryResult, RawRows, RowsIteratorKind, rows, non_rows, PagingStateResponse, has_more,
  no_more, BoundStatement, PagerState, unpaged, paged, fetch_page, spawn_on_runtime,
}

-- Raw rows that all decode, and of which the builder makes the given objects.
pub data Built (env : Env) (builder : Obj) : List (PyResult ℕ) → List Obj → Type 0 where
  none_left : Built env builder [] []
  one_more :
      {columns : ℕ} {raw : List (PyResult ℕ)} {row : Obj} {xs : List Obj}
      → env.build builder columns ≡ ok row
      → Built env builder raw xs
      → Built env builder (ok columns ∷ raw) (row ∷ xs)

-- The rows that an iterator still yields.
pub data Yields (env : Env) : RowsIteratorKind → List Obj → Type 0 where
  from_rows :
      {raw : List (PyResult ℕ)} {builder : Obj} {xs : List Obj}
      → Built env builder raw xs
      → Yields env (rows raw builder) xs
  from_non_rows : Yields env non_rows []

-- The rows of a response under a row factory.
pub data Holds (env : Env) (factory : Obj) : Option RawRows → List Obj → Type 0 where
  no_rows : Holds env factory none []
  some_rows :
      {raw : RawRows} {builder : Obj} {xs : List Obj}
      → env.resolve factory raw.col_specs ≡ ok builder
      → Built env builder raw.raw_rows xs
      → Holds env factory (some raw) xs

-- The pages after a paging state, one list of rows for each.
pub data Script (env : Env) (factory : Obj) (stmt : BoundStatement)
    : PagingStateResponse → List (List Obj) → Type 0 where
  finished : Script env factory stmt no_more []
  page :
      {state : ℕ} {q : QueryResult} {response : PagingStateResponse} {xs : List Obj}
      {xss : List (List Obj)}
      → fetch_page env state stmt spawn_on_runtime ≡ ok (q, response)
      → Holds env factory q.content xs
      → Script env factory stmt response xss
      → Script env factory stmt (has_more state) (xs ∷ xss)

-- The same of a pager, which may have no pages to fetch at all.
pub data Follows (env : Env) (factory : Obj) : PagerState → List (List Obj) → Type 0 where
  not_paged : Follows env factory unpaged []
  from_response :
      {stmt : BoundStatement} {response : PagingStateResponse} {xss : List (List Obj)}
      → Script env factory stmt response xss
      → Follows env factory (paged response stmt) xss

abbrev pub concat : List (List Obj) → List Obj
concat [] = []
concat (xs ∷ xss) = xs ++ concat xss
