-- ===== src/Response/Deliveries.antt =====
-- What becomes of the pages whose callbacks wait, against the list of deliveries that the sections
-- ask for.
use python_rs_driver.Common.{
  ◌==◌, ◌≡◌, refl, sym, ap, subst, ◌∙◌, true, false, inl, inr, Bool-cases, Option, none, some, List,
  [], ◌∷◌, ◌++◌, to_list, AllPairs, AllPairs-refl, AllPairs-append, AllPairs-trans, append-nil,
  append_assoc, is_some,
}
use python_rs_driver.Common.Python.{err}
use python_rs_driver.Callbacks.{Callbacks, LegacyCallback, Delivery, callbacks, errbacks, push}
use python_rs_driver.Response.{
  SharedResult, Rows, PageRows, built, to_build, RequestState, pending, received, failed,
  Undelivered, take_unfired, unfired_of, set_unfired, store_rows,
}
use python_rs_driver.Response.Inner.{Shared, register, store_built, join, is_terminal}
use python_rs_driver.Response.History.{
  Event, completes, drops, registers, clears, pages, drains, stores, step, Possible, PossibleRun,
  run, scheduled, waiting, all_taken, RowsOf, same, now_built,
}
use python_rs_driver.Response.Queue.{
  current, waiting-complete, waiting-complete_dropped, waiting-start_fetching_next_page,
  waiting-drain_next,
}
use python_rs_driver.Response.Delivery.{RowsOf-trans, waiting-clear_callbacks}

-- A callback that joins those of a delivery comes behind the others of its kind.
unfoldable pub joined : Delivery → LegacyCallback → Callbacks → Callbacks
joined callbacks cb c = record c { callback_list = c.callback_list ++ cb ∷ [] }
joined errbacks cb c = record c { errback_list = c.errback_list ++ cb ∷ [] }

-- It joins the last delivery that was asked for.
unfoldable pub join_last : Delivery → LegacyCallback → List Undelivered → List Undelivered
unfolding joined
join_last d cb [] = []
join_last d cb (u ∷ []) = record u { unfired = joined d cb u.unfired } ∷ []
join_last d cb (u ∷ v ∷ us) = u ∷ join_last d cb (v ∷ us)

-- The deliveries asked for so far, after a section: a completion asks for one more, and a callback
-- that is registered while those of the current page wait joins that page's.
unfoldable pub due_after : Shared → Event → List Undelivered → List Undelivered
unfolding join_last scheduled
due_after s (registers d cb) due = elim (is_some (unfired_of s.request)) [
  | true ↦ join_last d cb due
  | false ↦ due
]
due_after s e due = due ++ scheduled s e

unfoldable pub all_due : Shared → List Event → List Undelivered → List Undelivered
unfolding due_after step
all_due s [] due = due
all_due s (e ∷ es) due = all_due (step s e).0 es (due_after s e due)

-- `v` is the delivery `u`, its rows perhaps built since.
pub record IsDelivery (u v : Undelivered) : Type 0 where
  pub rows_of : RowsOf u.rows v.rows
  pub same_callbacks : v.unfired ≡ u.unfired

IsDelivery-refl : (u : Undelivered) → IsDelivery u u
IsDelivery-refl u = record { rows_of = same; same_callbacks = refl }

IsDelivery-trans : (u v w : Undelivered) → IsDelivery u v → IsDelivery v w → IsDelivery u w
IsDelivery-trans u v w g h = record {
  rows_of = RowsOf-trans g.rows_of h.rows_of;
  same_callbacks = h.same_callbacks ∙ g.same_callbacks;
}

-- Delivery by delivery.
abbrev pub AreDeliveries : List Undelivered → List Undelivered → Type 0
AreDeliveries us vs = AllPairs IsDelivery us vs

of_eq : {xs ys : List Undelivered} → xs ≡ ys → AreDeliveries xs ys
of_eq {xs} e = subst (AllPairs IsDelivery xs) e (AllPairs-refl IsDelivery IsDelivery-refl xs)

join_last-AreDeliveries :
    (d : Delivery) (cb : LegacyCallback) (us vs : List Undelivered)
    → AreDeliveries us vs
    → AreDeliveries (join_last d cb us) (join_last d cb vs)
unfolding join_last
join_last-AreDeliveries d cb [] [] h = tt
join_last-AreDeliveries d cb (u ∷ []) (v ∷ []) (h, _) =
    (record { rows_of = h.rows_of; same_callbacks = ap (joined d cb) h.same_callbacks }, tt)
join_last-AreDeliveries d cb (u ∷ u' ∷ us) (v ∷ v' ∷ vs) (h, hs) =
    (h, join_last-AreDeliveries d cb (u' ∷ us) (v' ∷ vs) hs)
join_last-AreDeliveries d cb [] (v ∷ vs) h = absurd h
join_last-AreDeliveries d cb (u ∷ us) [] h = absurd h
join_last-AreDeliveries d cb (u ∷ []) (v ∷ v' ∷ vs) h = absurd h.1
join_last-AreDeliveries d cb (u ∷ u' ∷ us) (v ∷ []) h = absurd h.1

join_last-append :
    (d : Delivery) (cb : LegacyCallback) (us : List Undelivered) (u : Undelivered)
    → join_last d cb (us ++ u ∷ []) ≡ us ++ record u { unfired = joined d cb u.unfired } ∷ []
unfolding join_last
join_last-append d cb [] u = refl
join_last-append d cb (v ∷ []) u = refl
join_last-append d cb (v ∷ v' ∷ us) u = ap (λ xs. v ∷ xs) (join_last-append d cb (v' ∷ us) u)

push-joined : (d : Delivery) (cb : LegacyCallback) (c : Callbacks) → push c d cb ≡ joined d cb c
unfolding push joined
push-joined callbacks cb c = refl
push-joined errbacks cb c = refl

some_inj : (a b : Callbacks) → some a ≡ some b → a ≡ b
some_inj a b e = cc

abbrev delivery_with : PageRows → Callbacks → List Undelivered
delivery_with r c = record { rows = r; unfired = c } ∷ []

-- The current page's delivery, and the same with one more callback.
current-joined :
    (r : RequestState) (c : Callbacks)
    → unfired_of r ≡ some c
    → (rows : PageRows) × (current r ≡ delivery_with rows c)
      × ((c' : Callbacks) → current (set_unfired r c') ≡ delivery_with rows c')
unfolding unfired_of set_unfired take_unfired
current-joined (pending l) c e = absurd cc
current-joined (received page none none) c e = absurd cc
current-joined (received page (some rs) none) c e = absurd cc
current-joined (failed x l none) c e = absurd cc
current-joined (received page none (some c0)) c e = (
  to_build page.query_result page.factory,
  ap (delivery_with (to_build page.query_result page.factory)) (some_inj c0 c e),
  λ c'. refl,
)
current-joined (received page (some rs) (some c0)) c e =
    (built rs, ap (delivery_with (built rs)) (some_inj c0 c e), λ c'. refl)
current-joined (failed x l (some c0)) c e =
    (built (err x), ap (delivery_with (built (err x))) (some_inj c0 c e), λ c'. refl)

join-due :
    (s : Shared) (d : Delivery) (cb : LegacyCallback) (taken due : List Undelivered)
    (unfired : Option Callbacks)
    → unfired_of s.request ≡ unfired
    → AreDeliveries due (taken ++ waiting s)
    → AreDeliveries
        (elim (is_some unfired) [ true ↦ join_last d cb due | false ↦ due ])
        (taken ++ waiting (join unfired d cb s).0)
unfolding waiting take_unfired
join-due s d cb taken due none e h = h
join-due s d cb taken due (some c) e h =
    let (rows, now, after) = current-joined s.request c e in
    let before = s.drainer.unfired_pages in
    rw (push-joined d cb c) (
      rw (after (joined d cb c)) (
        subst (AllPairs IsDelivery (join_last d cb due))
          (ap (join_last d cb)
              (ap (λ xs. taken ++ (before ++ xs)) now ∙ sym (append_assoc taken before _))
            ∙ join_last-append d cb (taken ++ before) (record { rows = rows; unfired = c })
            ∙ append_assoc taken before _)
          (join_last-AreDeliveries d cb due (taken ++ waiting s) h)))

register-due :
    (s : Shared) (d : Delivery) (cb : LegacyCallback) (taken due : List Undelivered)
    → AreDeliveries due (taken ++ waiting s)
    → AreDeliveries (due_after s (registers d cb) due) (taken ++ waiting (register s d cb).0)
unfolding register due_after
register-due s d cb taken due h = elim (Bool-cases (is_terminal s)) [
  | inl e ↦ rw e (join-due s d cb taken due (unfired_of s.request) refl h)
  | inr e ↦ rw e (
      unfold waiting in
      join-due (record s { registered = push s.registered d cb }) d cb taken due
        (unfired_of s.request) refl h)
]

store_rows-AreDeliveries :
    (r : RequestState) (q : SharedResult) (rs : Rows)
    → AreDeliveries (current r) (current (store_rows r q rs).0)
unfolding store_rows take_unfired
store_rows-AreDeliveries (pending l) q rs = tt
store_rows-AreDeliveries (failed x l none) q rs = tt
store_rows-AreDeliveries (failed x l (some c)) q rs = (IsDelivery-refl _, tt)
store_rows-AreDeliveries (received page (some r') none) q rs = tt
store_rows-AreDeliveries (received page (some r') (some c)) q rs = (IsDelivery-refl _, tt)
store_rows-AreDeliveries (received page none none) q rs =
    elim (Bool-cases (page.query_result.address == q.address)) [ inl e ↦ rw e tt | inr e ↦ rw e tt ]
store_rows-AreDeliveries (received page none (some c)) q rs =
    elim (Bool-cases (page.query_result.address == q.address)) [
      | inl e ↦ rw e (record { rows_of = now_built; same_callbacks = refl }, tt)
      | inr e ↦ rw e (IsDelivery-refl _, tt)
    ]

stored-due :
    (s : Shared) (q : SharedResult) (rs : Rows)
    → AreDeliveries (waiting s) (waiting (store_built s q rs).0)
unfolding store_built waiting take_unfired
stored-due s q rs =
    AllPairs-append IsDelivery _ _ _ _
      (AllPairs-refl IsDelivery IsDelivery-refl s.drainer.unfired_pages)
      (store_rows-AreDeliveries s.request q rs)

-- A section that takes what it takes from the front, and leaves the rest and what it asks for.
queued-due :
    (s s' : Shared) (asked now taken due : List Undelivered)
    → AreDeliveries (waiting s ++ asked) (now ++ waiting s')
    → AreDeliveries due (taken ++ waiting s)
    → AreDeliveries (due ++ asked) ((taken ++ now) ++ waiting s')
queued-due s s' asked now taken due step h =
    AllPairs-trans IsDelivery IsDelivery-trans _ _ _
      (AllPairs-append IsDelivery _ _ _ _ h (AllPairs-refl IsDelivery IsDelivery-refl asked))
      (rw (append_assoc taken (waiting s) asked, append_assoc taken now (waiting s'))
        (AllPairs-append IsDelivery _ _ _ _ (AllPairs-refl IsDelivery IsDelivery-refl taken) step))

step-due :
    (s : Shared) (e : Event) (taken due : List Undelivered)
    → Possible s e
    → AreDeliveries due (taken ++ waiting s)
    → AreDeliveries (due_after s e due) ((taken ++ to_list (step s e).1) ++ waiting (step s e).0)
unfolding step due_after scheduled
step-due s (completes outcome) taken due p h =
    queued-due s _ _ [] taken due (of_eq (sym (waiting-complete s outcome p))) h
step-due s drops taken due p h =
    queued-due s _ [] [] taken due (of_eq (append-nil _ ∙ sym (waiting-complete_dropped s))) h
step-due s (registers d cb) taken due p h = rw (append-nil taken) (register-due s d cb taken due h)
step-due s clears taken due p h =
    queued-due s _ [] [] taken due (of_eq (append-nil _ ∙ waiting-clear_callbacks s)) h
step-due s pages taken due p h =
    queued-due s _ [] [] taken due (of_eq (append-nil _ ∙ sym (waiting-start_fetching_next_page s)))
      h
step-due s drains taken due p h =
    queued-due s _ [] _ taken due (of_eq (append-nil _ ∙ waiting-drain_next s)) h
step-due s (stores q rs) taken due p h =
    queued-due s _ [] [] taken due (rw (append-nil (waiting s)) (stored-due s q rs)) h

run-due :
    (s : Shared) (es : List Event) (taken due : List Undelivered)
    → PossibleRun s es
    → AreDeliveries due (taken ++ waiting s)
    → AreDeliveries (all_due s es due) ((taken ++ all_taken s es) ++ waiting (run s es))
unfolding run all_due all_taken
run-due s [] taken due p h = rw (append-nil taken) h
run-due s (e ∷ es) taken due p h =
    let now = to_list (step s e).1 in
    rw (← append_assoc taken now (all_taken (step s e).0 es)) (
      run-due (step s e).0 es (taken ++ now) (due_after s e due) p.1 (step-due s e taken due p.0 h))

-- Over any possible sequence of sections, the deliveries that were due and those that completions ask
-- for, each with just the callbacks that it has and those that were registered while it was the
-- current page's and waiting, in the order of their registration, are one for one and in page order
-- those that the drainer takes, once each, and those still due at the end; all that changes of a
-- delivery is that its rows may be built.
pub run-AreDeliveries :
    (s : Shared) (es : List Event)
    → PossibleRun s es
    → AreDeliveries (all_due s es (waiting s)) (all_taken s es ++ waiting (run s es))
run-AreDeliveries s es p =
    run-due s es [] (waiting s) p (AllPairs-refl IsDelivery IsDelivery-refl (waiting s))
