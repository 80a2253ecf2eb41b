-- ===== src/Response/Delivery.antt =====
-- What one section does to the pages whose callbacks wait.
use python_rs_driver.Common.{
  ◌==◌, ◌≡◌, refl, sym, subst, ◌∙◌, inl, inr, Bool-cases, none, some, List, [], ◌∷◌, ◌++◌, to_list,
  AllPairs, AllPairs-refl, AllPairs-append, append-nil,
}
use python_rs_driver.Common.Python.{err}
use python_rs_driver.Callbacks.{Callbacks, LegacyCallback, Delivery, callbacks, errbacks, push}
use python_rs_driver.Response.{
  SharedResult, Rows, PageRows, built, to_build, RequestState, pending, received, failed,
  Undelivered, take_unfired, unfired_of, set_unfired, store_rows,
}
use python_rs_driver.Response.Inner.{
  Shared, register, clear_callbacks, store_built, join, is_terminal,
}
use python_rs_driver.Response.History.{
  Event, completes, drops, registers, clears, pages, drains, stores, step, Possible, scheduled,
  waiting, RowsOf, same, now_built, Grows,
}
use python_rs_driver.Response.Queue.{
  current, waiting-complete, waiting-complete_dropped, waiting-start_fetching_next_page,
  waiting-drain_next,
}

pub Grows-refl : (u : Undelivered) → Grows u u
Grows-refl u = record {
  rows_of = same;
  more_callbacks = [];
  more_errbacks = [];
  callbacks_kept = sym (append-nil u.unfired.callback_list);
  errbacks_kept = sym (append-nil u.unfired.errback_list);
}

pub RowsOf-trans : {a b c : PageRows} → RowsOf a b → RowsOf b c → RowsOf a c
RowsOf-trans same q = q
RowsOf-trans now_built same = now_built

GrowsAll-of_eq : {xs ys : List Undelivered} → xs ≡ ys → AllPairs Grows xs ys
GrowsAll-of_eq {xs} e = subst (AllPairs Grows xs) e (AllPairs-refl Grows Grows-refl xs)

push-Grows :
    (r : PageRows) (c : Callbacks) (delivery : Delivery) (cb : LegacyCallback)
    → Grows (record { rows = r; unfired = c }) (record { rows = r; unfired = push c delivery cb })
unfolding push
push-Grows r c callbacks cb = record {
  rows_of = same;
  more_callbacks = cb ∷ [];
  more_errbacks = [];
  callbacks_kept = refl;
  errbacks_kept = sym (append-nil c.errback_list);
}
push-Grows r c errbacks cb = record {
  rows_of = same;
  more_callbacks = [];
  more_errbacks = cb ∷ [];
  callbacks_kept = sym (append-nil c.callback_list);
  errbacks_kept = refl;
}

join-Grows :
    (s : Shared) (r : RequestState) (delivery : Delivery) (cb : LegacyCallback)
    → s.request ≡ r
    → AllPairs Grows (waiting s) (waiting (join (unfired_of r) delivery cb s).0)
unfolding waiting unfired_of set_unfired take_unfired
join-Grows s (pending l) delivery cb e = AllPairs-refl Grows Grows-refl _
join-Grows s (received page rs none) delivery cb e = AllPairs-refl Grows Grows-refl _
join-Grows s (received page none (some c)) delivery cb e = rw e (
    AllPairs-append Grows _ _ _ _ (AllPairs-refl Grows Grows-refl s.drainer.unfired_pages)
      (push-Grows (to_build page.query_result page.factory) c delivery cb, tt))
join-Grows s (received page (some rs) (some c)) delivery cb e = rw e (
    AllPairs-append Grows _ _ _ _ (AllPairs-refl Grows Grows-refl s.drainer.unfired_pages)
      (push-Grows (built rs) c delivery cb, tt))
join-Grows s (failed x l none) delivery cb e = AllPairs-refl Grows Grows-refl _
join-Grows s (failed x l (some c)) delivery cb e = rw e (
    AllPairs-append Grows _ _ _ _ (AllPairs-refl Grows Grows-refl s.drainer.unfired_pages)
      (push-Grows (built (err x)) c delivery cb, tt))

register-Grows :
    (s : Shared) (delivery : Delivery) (cb : LegacyCallback)
    → AllPairs Grows (waiting s) (waiting (register s delivery cb).0)
unfolding register
register-Grows s delivery cb = elim (Bool-cases (is_terminal s)) [
  | inl e ↦ rw e (join-Grows s s.request delivery cb refl)
  | inr e ↦ rw e (
      unfold waiting in
      join-Grows (record s { registered = push s.registered delivery cb }) s.request delivery cb
        refl)
]

store_rows-Grows :
    (r : RequestState) (q : SharedResult) (rs : Rows)
    → AllPairs Grows (current r) (current (store_rows r q rs).0)
unfolding store_rows take_unfired
store_rows-Grows (pending l) q rs = tt
store_rows-Grows (failed x l none) q rs = tt
store_rows-Grows (failed x l (some c)) q rs = (Grows-refl _, tt)
store_rows-Grows (received page (some r') none) q rs = tt
store_rows-Grows (received page (some r') (some c)) q rs = (Grows-refl _, tt)
store_rows-Grows (received page none none) q rs =
    elim (Bool-cases (page.query_result.address == q.address)) [ inl e ↦ rw e tt | inr e ↦ rw e tt ]
store_rows-Grows (received page none (some c)) q rs =
    elim (Bool-cases (page.query_result.address == q.address)) [
      | inl e ↦ rw e (
        record {
          rows_of = now_built;
          more_callbacks = [];
          more_errbacks = [];
          callbacks_kept = sym (append-nil c.callback_list);
          errbacks_kept = sym (append-nil c.errback_list);
        },
        tt,
      )
      | inr e ↦ rw e (Grows-refl _, tt)
    ]

store_built-Grows :
    (s : Shared) (q : SharedResult) (rs : Rows)
    → AllPairs Grows (waiting s) (waiting (store_built s q rs).0)
unfolding store_built waiting take_unfired
store_built-Grows s q rs =
    AllPairs-append Grows _ _ _ _ (AllPairs-refl Grows Grows-refl s.drainer.unfired_pages)
      (store_rows-Grows s.request q rs)

pub waiting-clear_callbacks : (s : Shared) → waiting s ≡ waiting (clear_callbacks s)
unfolding waiting clear_callbacks
waiting-clear_callbacks s = refl

-- Whatever happens under the lock, what was due before it and what it asks for are, in order,
-- what the drainer takes in it and what is due after it.
pub step-Grows :
    (s : Shared) (e : Event)
    → Possible s e
    → AllPairs Grows (waiting s ++ scheduled s e) (to_list (step s e).1 ++ waiting (step s e).0)
unfolding step scheduled
step-Grows s (completes outcome) p = GrowsAll-of_eq (sym (waiting-complete s outcome p))
step-Grows s drops p = GrowsAll-of_eq (append-nil _ ∙ sym (waiting-complete_dropped s))
step-Grows s (registers delivery cb) p = rw (append-nil (waiting s)) (register-Grows s delivery cb)
step-Grows s clears p = GrowsAll-of_eq (append-nil _ ∙ waiting-clear_callbacks s)
step-Grows s pages p = GrowsAll-of_eq (append-nil _ ∙ sym (waiting-start_fetching_next_page s))
step-Grows s drains p = GrowsAll-of_eq (append-nil _ ∙ waiting-drain_next s)
step-Grows s (stores q rs) p = rw (append-nil (waiting s)) (store_built-Grows s q rs)
