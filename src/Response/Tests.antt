-- ===== src/Response/Tests.antt =====
-- A request of two pages, paged past before the drainer ran: tests, and the theorems applied to it.
use python_rs_driver.Common.{ℕ, ◌≡◌, refl, true, inl, none, some, List, [], ◌∷◌, ◌++◌}
use python_rs_driver.Common.Python.{ok, err, value_error}
use python_rs_driver.Callbacks.{Callbacks, LegacyCallback, callbacks}
use python_rs_driver.Paging.{
  QueryResult, paged, has_more, no_more, prepared, untraced, has_more_pages,
}
use python_rs_driver.Response.{
  SharedResult, PendingResponsePage, received, Undelivered, take_unfired, is_pending, rows,
  to_build, built,
}
use python_rs_driver.Response.Inner.{
  Shared, new_shared, complete, start_fetching_next_page, register, drain_next,
}
use python_rs_driver.Response.History.{
  Event, completes, registers, pages, step, PossibleRun, run, waiting, all_taken,
}
use python_rs_driver.Response.Deliveries.{all_due, AreDeliveries, run-AreDeliveries}
use python_rs_driver.Response.Progress.{IsServed, run-IsServed, all_taken-rounds, rounds}
use python_rs_driver.Response.Release.{IsReleased, run-new_shared-IsReleased}
use python_rs_driver.Response.Reader.{Python, read_rows, read_rows-agree}

abbrev first_result : QueryResult
first_result = record { tracing_id = some 70; warnings = []; content = none }

abbrev shared_at : ℕ → SharedResult
shared_at a = record { address = a; result = first_result }

abbrev first_page : PendingResponsePage
first_page = record {
  query_result = shared_at 1;
  query_pager = record { traces = untraced; state = paged (has_more 5) (prepared 9 8) };
  factory = 3;
}

abbrev last_one : PendingResponsePage
last_one = record {
  query_result = shared_at 2;
  query_pager = record { traces = untraced; state = paged no_more (prepared 9 8) };
  factory = 3;
}

abbrev on_rows : LegacyCallback
on_rows = record { callable = 100; args = []; kwargs = none }

abbrev late : LegacyCallback
late = record { callable = 101; args = 7 ∷ []; kwargs = none }

-- The first page is paged past; a callback joins the second page before the drainer runs.
abbrev history : List Event
history =
    registers callbacks on_rows
    ∷ completes (ok first_page)
    ∷ pages
    ∷ completes (ok last_one)
    ∷ registers callbacks late
    ∷ []

abbrev both : Callbacks
both = record { callback_list = on_rows ∷ late ∷ []; errback_list = [] }

abbrev one : Callbacks
one = record { callback_list = on_rows ∷ []; errback_list = [] }

abbrev due : List Undelivered
due =
    record { rows = to_build (shared_at 1) 3; unfired = one }
    ∷ record { rows = to_build (shared_at 2) 3; unfired = both }
    ∷ []

-- Opens all that a run computes with.
computing : Unit {0}
unfolding step run waiting new_shared has_more_pages is_pending register start_fetching_next_page
    complete take_unfired drain_next all_taken read_rows rows
computing = tt

history-waiting : waiting (run new_shared history) ≡ due
unfolding computing
history-waiting = refl

history-traces : (run new_shared history).tracing_ids ≡ 70 ∷ 70 ∷ []
unfolding computing
history-traces = refl

history-PossibleRun : PossibleRun new_shared history
unfolding computing
history-PossibleRun = (tt, (refl, (tt, (refl, (tt, tt)))))

run-AreDeliveries_example :
    AreDeliveries
      (all_due new_shared history (waiting new_shared))
      (all_taken new_shared history ++ waiting (run new_shared history))
run-AreDeliveries_example = run-AreDeliveries new_shared history history-PossibleRun

run-IsServed_example : IsServed (run new_shared history)
unfolding computing
run-IsServed_example = run-IsServed new_shared history history-PossibleRun (inl refl)

run-new_shared-IsReleased_example : IsReleased (run new_shared history)
run-new_shared-IsReleased_example = run-new_shared-IsReleased history

-- Two rounds take the two pages, in page order, and the third parks the token.
all_taken-rounds_example :
    (all_taken (run new_shared history) (rounds 3) ≡ waiting (run new_shared history))
    × (waiting (run (run new_shared history) (rounds 3)) ≡ [])
    × ((run (run new_shared history) (rounds 3)).drainer.permit ≡ true)
unfolding computing
all_taken-rounds_example = all_taken-rounds (run new_shared history) 2 refl refl

-- A Python whose row factories return `r`.
abbrev python : ℕ → Python
python r = record {
  env = record {
    execute_unstable = λ _ _ _ _. err value_error;
    query_single_page = λ _ _ _. err value_error;
    join_error = none;
    resolve = λ _ _. ok r;
    build = λ _ _. ok r;
  };
  interpreter = record { new_tuple = λ l. ok l; call = λ _ _ _. ok 0 };
  new_list = λ _. r;
  none_object = 0;
  exception = λ _. 1;
  row_factory_failed = λ e. e;
}

abbrev settled : Shared
settled = record new_shared { request = received first_page none none }

read_rows-agree_example :
    let (s1, r1) = read_rows (python 4) settled (to_build (shared_at 1) 3) in
    let (s2, r2) = read_rows (python 6) s1 (to_build (shared_at 1) 3) in
    (r2 ≡ r1) × (rows s1.request ≡ some (built r1)) × (rows s2.request ≡ some (built r1))
read_rows-agree_example =
    read_rows-agree (python 4) (python 6) settled first_page none none (shared_at 1) (shared_at 1) 3
      3 refl refl refl
