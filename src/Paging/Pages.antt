-- ===== src/Paging/Pages.antt =====
-- src/results/iterators.rs: `AsyncPagesIterator`. A page that was fetched is resolved only when it is
-- handed to Python, which other calls may come before.
use python_rs_driver.Common.{
  Bool, true, false, Option, none, some, List, [], ◌∷◌, ◌≡◌, refl, ap, ◌∙◌, if◌then◌else◌,
}
use python_rs_driver.Common.Python.{Obj, PyErr, PyResult, ok, err, stop_async_iteration}
use python_rs_driver.Paging.{
  Env, QueryResult, ResolvedPage, resolve_page, Paged, inline, fetch_next_page,
}

pub record PagesState : Type 0 where
  pub first_page : Option ResolvedPage
  pub paged : Paged
  pub factory : Obj
  -- The flag that the iterator shares with the pages in flight.
  pub finished : Bool

abbrev pub new_pages : ResolvedPage → Paged → Obj → PagesState
new_pages first_page paged factory = record {
  first_page = some first_page;
  paged = paged;
  factory = factory;
  finished = false;
}

-- What `__anext__` gives: the first page, a page to be resolved, or an exception.
pub data Anext : Type 0 where
  at_hand : ResolvedPage → Anext
  iterated : QueryResult → Anext
  raises : PyErr → Anext

abbrev pub fetched_page : PagesState → Paged × Option (PyResult QueryResult) → PagesState × Anext
fetched_page s (p, some (ok q)) = (record s { paged = p }, iterated q)
fetched_page s (p, some (err e)) = (record s { paged = p; finished = true }, raises e)
fetched_page s (p, none) = (record s { paged = p }, raises stop_async_iteration)

-- The future of `__anext__`, once it has the lock.
unfoldable pub fetch_page_future : Env → PagesState → PagesState × Anext
unfolding fetch_next_page
fetch_page_future env s =
    if s.finished
    then (s, raises stop_async_iteration)
    else fetched_page s (fetch_next_page env inline s.paged)

abbrev pub unless_first : Env → PagesState → Option ResolvedPage → PagesState × Anext
unless_first env s (some page) = (record s { first_page = none }, at_hand page)
unless_first env s none = fetch_page_future env s

unfoldable pub anext_page : Env → (try_lock : Bool) → PagesState → PagesState × Anext
unfolding fetch_page_future
anext_page env true s = unless_first env s s.first_page
anext_page env false s = fetch_page_future env s

abbrev pub handed : PagesState → PyResult ResolvedPage → PagesState × PyResult ResolvedPage
handed s (ok page) = (s, ok page)
handed s (err e) = (record s { finished = true }, err e)

-- `IteratedPage::into_pyobject`.
unfoldable pub into_pyobject : Env → QueryResult → PagesState → PagesState × PyResult ResolvedPage
unfolding resolve_page
into_pyobject env q s = handed s (resolve_page env s.factory q.content)

pub data Event : Type 0 where
  calls : (try_lock : Bool) → Event
  hands : QueryResult → Event

-- What the calls among the events give.
unfoldable pub run : Env → List Event → PagesState → List Anext
unfolding anext_page into_pyobject
run env [] s = []
run env (calls lock ∷ events) s = let call = anext_page env lock s in call.1 ∷ run env events call.0
run env (hands q ∷ events) s = run env events (into_pyobject env q s).0

abbrev pub stops : List Event → List Anext
stops [] = []
stops (calls lock ∷ events) = raises stop_async_iteration ∷ stops events
stops (hands q ∷ events) = stops events

abbrev Ended : PagesState → Type 0
Ended s = (s.first_page ≡ none) × (s.finished ≡ true)

if-true {ℓ} : {A : Type ℓ} (b : Bool) (x y : A) → b ≡ true → (if b then x else y) ≡ x
if-true true x y h = refl
if-true false x y h = absurd cc

handed-Ended : (s : PagesState) (page : PyResult ResolvedPage) → Ended s → Ended (handed s page).0
handed-Ended s (ok page) h = h
handed-Ended s (err e) h = (h.0, refl)

future-Ended :
    (env : Env) (s : PagesState)
    → Ended s
    → fetch_page_future env s ≡ (s, raises stop_async_iteration)
unfolding fetch_page_future
future-Ended env s h = if-true s.finished _ _ h.1

unless_first-Ended :
    (env : Env) (s : PagesState) (first : Option ResolvedPage)
    → first ≡ none
    → unless_first env s first ≡ fetch_page_future env s
unless_first-Ended env s none h = refl
unless_first-Ended env s (some page) h = absurd cc

anext_page-Ended :
    (env : Env) (lock : Bool) (s : PagesState)
    → Ended s
    → anext_page env lock s ≡ (s, raises stop_async_iteration)
unfolding anext_page
anext_page-Ended env true s h = unless_first-Ended env s s.first_page h.0 ∙ future-Ended env s h
anext_page-Ended env false s h = future-Ended env s h

run-Ended :
    (env : Env) (events : List Event) (s : PagesState) → Ended s → run env events s ≡ stops events
unfolding run
run-Ended env [] s h = refl
run-Ended env (calls lock ∷ events) s h =
    rw (anext_page-Ended env lock s h)
      (ap (λ xs. raises stop_async_iteration ∷ xs) (run-Ended env events s h))
run-Ended env (hands q ∷ events) s h =
    run-Ended env events (into_pyobject env q s).0
      (handed-Ended s (resolve_page env s.factory q.content) h)

-- Once the first page is out, a page that cannot be resolved ends the iteration: whatever calls and
-- other pages in flight follow, every call gives the end.
pub into_pyobject-stops :
    (env : Env) (q : QueryResult) (s : PagesState) (e : PyErr) (events : List Event)
    → s.first_page ≡ none
    → resolve_page env s.factory q.content ≡ err e
    → run env events (into_pyobject env q s).0 ≡ stops events
unfolding into_pyobject
into_pyobject-stops env q s e events first h =
    rw h (run-Ended env events (record s { finished = true }) (first, refl))

-- So does a page that cannot be fetched.
pub fetch_page_future-stops :
    (env : Env) (s : PagesState) (p : Paged) (e : PyErr) (events : List Event)
    → s.first_page ≡ none
    → s.finished ≡ false
    → fetch_next_page env inline s.paged ≡ (p, some (err e))
    → run env events (fetch_page_future env s).0 ≡ stops events
unfolding fetch_page_future
fetch_page_future-stops env s p e events first going h =
    rw going (rw h (run-Ended env events (record s { paged = p; finished = true }) (first, refl)))
