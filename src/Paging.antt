-- ===== src/Paging.antt =====
-- src/core/results.rs, src/core/traces.rs, src/deserialize/rows.rs and `fetch_page` of
-- src/core/session.rs: the pager, the row iterator of a page, and the loops that read a result
-- across its pages. `Paging.Loops` has the loops, `Paging.Script` describes what a server answers.
pub mod Loops
pub mod Script
pub mod Reading
pub mod All
pub mod Async
pub mod Pages
pub mod Tests
use python_rs_driver.Common.{
  ℕ, zero, suc, Bool, true, false, Option, none, some, List, [], ◌∷◌, ◌++◌, ◌==◌, if◌then◌else◌,
}
use python_rs_driver.Common.Python.{Obj, PyErr, PyResult, ok, err, ◌>>=◌}

abbrev pub PagingState : Type 0
PagingState = ℕ

abbrev pub Uuid : Type 0
Uuid = ℕ

-- `scylla`'s answer to a request for a page: where to go on, if anywhere.
pub data PagingStateResponse : Type 0 where
  has_more : PagingState → PagingStateResponse
  no_more : PagingStateResponse

-- The rows part of a response: column specifications, and raw rows or the error of decoding one.
pub record RawRows : Type 0 where
  pub col_specs : List ℕ
  pub raw_rows : List (PyResult ℕ)

pub record QueryResult : Type 0 where
  pub tracing_id : Option Uuid
  pub warnings : List ℕ
  pub content : Option RawRows

pub data BoundStatement : Type 0 where
  prepared : (statement values : ℕ) → BoundStatement
  unprepared : (statement values : ℕ) → BoundStatement

pub data TaskExecutionMode : Type 0 where
  spawn_on_runtime inline : TaskExecutionMode

abbrev pub Fetched : Type 0
Fetched = PyResult (QueryResult × PagingStateResponse)

-- The Rust driver's session, the tokio runtime and the row factories: what they answer in one run.
-- `join_error` is the error of a spawned task that the runtime tears down.
pub record Env : Type 0 where
  pub execute_unstable : ℕ → ℕ → Bool → PagingState → Fetched
  pub query_single_page : ℕ → ℕ → PagingState → Fetched
  pub join_error : Option PyErr
  pub resolve : Obj → List ℕ → PyResult Obj
  pub build : Obj → ℕ → PyResult Obj

unfoldable pub request_page : Env → PagingState → BoundStatement → Fetched
request_page env state (prepared p values) = env.execute_unstable p values true state
request_page env state (unprepared q values) = env.query_single_page q values state

unfoldable pub fetch_page : Env → PagingState → BoundStatement → TaskExecutionMode → Fetched
unfolding request_page
fetch_page env state stmt spawn_on_runtime = elim env.join_error [
  | none ↦ request_page env state stmt
  | some e ↦ err e
]
fetch_page env state stmt inline = request_page env state stmt

-- `Arc<Mutex<Vec<Uuid>>>`: the handle of a list in the store.
pub data TraceLog : Type 0 where
  untraced : TraceLog
  traced : (ids : ℕ) → TraceLog

abbrev pub TraceStore : Type 0
TraceStore = ℕ → List Uuid

unfoldable pub record_id : TraceStore → TraceLog → Option Uuid → TraceStore
record_id store (traced r) (some id) = λ k. if k == r then store k ++ id ∷ [] else store k
record_id store _ _ = store

unfoldable pub ids : TraceStore → TraceLog → List Uuid
ids store untraced = []
ids store (traced r) = store r

-- `TraceLog::new`; `fresh` is the handle of the new list.
unfoldable pub new_trace_log : ℕ → TraceStore → Option Uuid → TraceLog × TraceStore
new_trace_log fresh store (some id) = (traced fresh, λ k. if k == fresh then id ∷ [] else store k)
new_trace_log fresh store none = (untraced, store)

pub data PagerState : Type 0 where
  unpaged : PagerState
  paged : PagingStateResponse → BoundStatement → PagerState

pub record Pager : Type 0 where
  pub traces : TraceLog
  pub state : PagerState

unfoldable pub exhaust : Pager → Pager
exhaust p = record p { state = unpaged }

unfoldable pub has_more_pages_of : PagerState → Bool
has_more_pages_of (paged (has_more s) stmt) = true
has_more_pages_of _ = false

unfoldable pub has_more_pages : Pager → Bool
unfolding has_more_pages_of
has_more_pages p = has_more_pages_of p.state

unfoldable pub paging_state_of : PagerState → Option PagingState
paging_state_of (paged (has_more s) stmt) = some s
paging_state_of (paged no_more stmt) = none
paging_state_of unpaged = none

unfoldable pub paging_state : Pager → Option PagingState
unfolding paging_state_of
paging_state p = paging_state_of p.state

-- A pager with the trace lists that it shares.
pub record Paged : Type 0 where
  pub pager : Pager
  pub store : TraceStore

-- A page arrived: move on, and record its tracing id.
unfoldable pub advance_to : BoundStatement → QueryResult → PagingStateResponse → Paged → Paged
unfolding record_id
advance_to stmt q response p = record {
  pager = record { traces = p.pager.traces; state = paged response stmt };
  store = record_id p.store p.pager.traces q.tracing_id;
}

unfoldable pub receive_page :
    BoundStatement → Paged → Fetched → Paged × Option (PyResult QueryResult)
unfolding advance_to
receive_page stmt p (ok (q, response)) = (advance_to stmt q response p, some (ok q))
receive_page stmt p (err e) = (p, some (err e))

unfoldable pub fetch_next_page_of :
    Env → TaskExecutionMode → PagerState → Paged → Paged × Option (PyResult QueryResult)
unfolding receive_page
fetch_next_page_of env mode unpaged p = (p, none)
fetch_next_page_of env mode (paged no_more stmt) p = (p, none)
fetch_next_page_of env mode (paged (has_more s) stmt) p =
    receive_page stmt p (fetch_page env s stmt mode)

unfoldable pub fetch_next_page :
    Env → TaskExecutionMode → Paged → Paged × Option (PyResult QueryResult)
unfolding fetch_next_page_of
fetch_next_page env mode p = fetch_next_page_of env mode p.pager.state p

-- `RowsIteratorKind`: the rows not read yet and their builder.
pub data RowsIteratorKind : Type 0 where
  rows : List (PyResult ℕ) → Obj → RowsIteratorKind
  non_rows : RowsIteratorKind

pub data ResolvedPage : Type 0 where
  page_rows : RawRows → Obj → ResolvedPage
  page_non_rows : ResolvedPage

unfoldable pub resolve_page : Env → Obj → Option RawRows → PyResult ResolvedPage
resolve_page env factory none = ok page_non_rows
resolve_page env factory (some raw) =
    env.resolve factory raw.col_specs >>= λ builder. ok (page_rows raw builder)

unfoldable pub new_iterator : ResolvedPage → RowsIteratorKind
new_iterator (page_rows raw builder) = rows raw.raw_rows builder
new_iterator page_non_rows = non_rows

-- Resolving fails before the iterator is replaced.
unfoldable pub update : Env → Obj → QueryResult → PyResult RowsIteratorKind
unfolding resolve_page new_iterator
update env factory q = resolve_page env factory q.content >>= λ page. ok (new_iterator page)

unfoldable pub next : Env → RowsIteratorKind → RowsIteratorKind × Option (PyResult Obj)
next env non_rows = (non_rows, none)
next env (rows [] builder) = (rows [] builder, none)
next env (rows (raw ∷ rest) builder) =
    (rows rest builder, some (raw >>= λ columns. env.build builder columns))
