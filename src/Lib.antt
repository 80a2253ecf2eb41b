-- ===== src/Lib.antt =====
-- The futures, requests, values and caches of the Python driver, modelled from its Rust sources.
--
-- The driver runs requests of the `scylla` crate on a tokio runtime and shows them to Python. A
-- request becomes a driver future, which either the asyncio event loop polls or a task on the
-- runtime completes. A coroutine that waits is parked on an `asyncio.Future`; a wake takes it to
-- the completion batcher of its loop, whose drain sets the future's result on the loop's thread.
-- The legacy interface has a future of its own, which delivers page after page to its callbacks.
--
-- Files, and the code that each is about:
--   Common         Python objects, exceptions and results as values, and lemmas on lists.
--   Callbacks      src/future/callbacks.rs and `Prepended` of src/utils.rs.
--   Paging         src/core/results.rs (`Pager`, `PageCore`), `RowsIteratorKind` of
--                  src/deserialize/rows.rs, `fetch_page` of src/core/session.rs and
--                  src/core/traces.rs; Async and Pages have the iterators of
--                  src/results/iterators.rs. Script describes the pages that a server has left; Reading
--                  and All compare the loops with it.
--   Response       src/future/response_future/: the request state and its undelivered pages
--                  (Response), the shared state with completion, registration, paging and drain
--                  rounds (Inner), and histories of these (History). Queue, Delivery, Deliveries,
--                  Progress, Release and Reader prove what histories keep.
--   Batcher        src/future/asyncio/batcher.rs: the queue and its drain, the notification of
--                  the loop, and the registry of batchers by loop (Registry).
--   Waker          src/future/asyncio/waker.rs: where a coroutine is parked.
--   DriverFuture   src/future/boxed_future.rs, src/future/panics.rs, `Coroutine` of
--                  src/future/asyncio/mod.rs (DriverFuture), and the entry points of
--                  src/future/mod.rs (Entry), with histories of them (History, Outcome, Sound,
--                  Balance, Conservation) and what a panic in a poll leaves (Poison).
--   Cache          src/cache.rs; Shown has the mapping of a frozen cache, Settled the calls
--                  after it.
--   ResultSet      src/legacy/result_set.rs.
--   CqlTypes       `CqlDate` and `CqlTime` of src/cql_types.rs.
--   Values         Python values against column types: src/serialize/value.rs (Scalars, Serialize),
--                  src/deserialize/value.rs (Deserialize) and src/serialize/value_list.rs (Rows).
--                  Typing says which values a type takes, and what the layouts of the writer and
--                  the reader have in common; RoundTrip, Binding and Nulls compare the two
--                  directions, on the cells that the one writes and the other reads.
--   Statements     src/statement.rs: the options of statements (Options) over an interface of the Rust
--                  driver's statements; Executable has the statements ready to run of
--                  src/core/session.rs and the batches of src/batch.rs, Spec what setters amount to.
--   LegacySession  src/legacy/session.rs: queries and settings (LegacySession), the session and
--                  `execute` of src/core/session.rs (Session), `execute_async` (Requests) and the
--                  operations on settings (Settings). Queries, Defaults, Precedence and Winning
--                  settle which setting wins; History and Remembered what operations leave.
--   LoadBalancing  src/policies/load_balancing.rs: a policy written in Python and its plan (Plan),
--                  what it is told of a request and the default policy's preference (Routing).
--   RowFactory     src/deserialize/row_factory.rs: the field names of namedtuples (Distinct,
--                  Fields).
--
-- State is passed explicitly. What a mutex protects is a record, each section under the mutex is
-- one function on it, and a concurrent history is a list of such sections in any order. A section
-- reads, beside the state, the answers of the code it calls: these stand as arguments or in a
-- record of answers, and cover errors and panics.
--
-- Bounds and fuel: a page loop recurs on fuel, one for each page that is still to come and one
-- more, a plan's loop on one for each answer of the policy's iterator and one more, and the search
-- for a field name on one for each name seen and one more; the theorems show that this is enough.
-- Counts of threads and positions are natural numbers, since the code bounds them by what fits in
-- memory.
--
-- Not modelled: the `scylla` crate, tokio, PyO3 and the Python runtime, of which only the answers
-- appear (the bytes of a scalar included); row builders; the building and closing of the batcher's
-- pipe; the time that a wait takes; routing, cluster metadata, the asyncio session and the session
-- builders; policies other than load balancing.
pub mod Common
pub mod Callbacks
pub mod Paging
pub mod Response
pub mod Batcher
pub mod Waker
pub mod DriverFuture
pub mod Cache
pub mod ResultSet
pub mod CqlTypes
pub mod Values
pub mod Statements
pub mod LegacySession
pub mod LoadBalancing
pub mod RowFactory
