-- ===== src/Response/Progress.antt =====
-- The drain token: while a delivery is due, a drainer runs, and it delivers all that is due.
use python_rs_driver.Common.{
  ℕ, zero, suc, ◌≡◌, refl, sym, ap, ◌∙◌, true, false, ◌⊎◌, inl, inr, Bool-cases, Option-cases,
  Option, none, some, List, [], ◌∷◌, ◌++◌, to_list, length, arith, append-nil,
}
use python_rs_driver.Common.Python.{PyResult}
use python_rs_driver.Callbacks.{LegacyCallback, Delivery, for_outcome}
use python_rs_driver.Response.{
  PendingResponsePage, RequestState, Undelivered, is_pending, take_unfired,
}
use python_rs_driver.Response.Inner.{
  clear_callbacks, store_built, Shared, Drainer, outcome_delivery, complete, complete_dropped,
  register, start_fetching_next_page, drain_next, next_of,
}
use python_rs_driver.Response.History.{
  Event, completes, drops, registers, clears, pages, drains, stores, step, Possible, PossibleRun,
  run, all_taken, waiting, scheduled, Grows,
}
use python_rs_driver.Response.Queue.{waiting-complete, waiting-drain_next, complete-permit}
use python_rs_driver.Response.Delivery.{step-Grows}
use python_rs_driver.Common.{AllPairs}

-- While a delivery is due the token is out: a drainer runs.
abbrev pub IsServed : Shared → Type 0
IsServed s = (waiting s ≡ []) ⊎ (s.drainer.permit ≡ false)

complete-permit_kept :
    (s : Shared) (outcome : PyResult PendingResponsePage)
    → s.drainer.permit ≡ false
    → (complete s outcome).drainer.permit ≡ false
unfolding complete
complete-permit_kept s outcome e = ground arith

complete_dropped-drainer : (s : Shared) → (complete_dropped s).0.drainer ≡ s.drainer
unfolding complete_dropped
complete_dropped-drainer s = elim (Bool-cases (is_pending s.request)) [
  | inl e ↦ rw e
  | inr e ↦ rw e
]

start_fetching_next_page-permit :
    (s : Shared) → (start_fetching_next_page s).0.drainer.permit ≡ s.drainer.permit
unfolding start_fetching_next_page
start_fetching_next_page-permit s = ground arith

register-drainer :
    (s : Shared) (delivery : Delivery) (cb : LegacyCallback)
    → (register s delivery cb).0.drainer ≡ s.drainer
unfolding register
register-drainer s delivery cb = ground arith

next_of-none :
    (ps : List Undelivered) (r : RequestState)
    → (next_of ps r).2 ≡ none
    → ps ++ to_list (take_unfired r).1 ≡ []
unfolding next_of
next_of-none [] r e = ap to_list e
next_of-none (u ∷ us) r e = cc

-- One round of the drainer: it parks the token when nothing is due, and takes the oldest delivery
-- otherwise.
abbrev DrainsOne : Shared → Shared × Option Undelivered → Type 0
DrainsOne s (s', u) =
    ((u ≡ none) × (s'.drainer.permit ≡ true) × (waiting s ≡ []))
    ⊎ ((v : Undelivered) × (u ≡ some v)
        × (s'.drainer.permit ≡ s.drainer.permit)
        × (waiting s ≡ v ∷ waiting s'))

drain_next-DrainsOne : (s : Shared) → DrainsOne s (drain_next s)
unfolding drain_next waiting
drain_next-DrainsOne s = elim (Option-cases (next_of s.drainer.unfired_pages s.request).2) [
  | inl e ↦ inl (e, rw e, next_of-none s.drainer.unfired_pages s.request e)
  | inr (u, e) ↦ inr (
    u,
    e,
    rw e,
    waiting-drain_next s ∙ ap (λ (o : Option Undelivered). to_list o ++ waiting (drain_next s).0) e,
  )
]

nil_of_Grows : (xs ys : List Undelivered) → AllPairs Grows xs ys → xs ≡ [] → ys ≡ []
nil_of_Grows xs [] g e = refl
nil_of_Grows [] (y ∷ ys) g e = absurd g
nil_of_Grows (x ∷ xs) (y ∷ ys) g e = cc

IsServed-kept :
    (s s' : Shared)
    → AllPairs Grows (waiting s) (waiting s')
    → s'.drainer.permit ≡ s.drainer.permit
    → IsServed s
    → IsServed s'
IsServed-kept s s' g e (inl idle) = inl (nil_of_Grows (waiting s) (waiting s') g idle)
IsServed-kept s s' g e (inr out) = inr (e ∙ out)

-- `step-Grows` for a section that asks for no delivery and takes none.
waiting-Grows :
    (s s' : Shared)
    → AllPairs Grows (waiting s ++ []) (waiting s')
    → AllPairs Grows (waiting s) (waiting s')
waiting-Grows s s' g = rw (append-nil (waiting s)) at g

scheduled-none :
    (s : Shared) (outcome : PyResult PendingResponsePage)
    → for_outcome s.registered (outcome_delivery outcome) ≡ none
    → scheduled s (completes outcome) ≡ []
unfolding scheduled
scheduled-none s outcome e = rw e

complete-IsServed :
    (s : Shared) (outcome : PyResult PendingResponsePage)
    → is_pending s.request ≡ true
    → IsServed s
    → IsServed (complete s outcome)
complete-IsServed s outcome p v =
    elim (Option-cases (for_outcome s.registered (outcome_delivery outcome))) [
      | inl e ↦ quiet v e
      | inr (c, e) ↦ inr (complete-permit s outcome (rw e))
    ]
  where
    quiet :
        IsServed s
        → for_outcome s.registered (outcome_delivery outcome) ≡ none
        → IsServed (complete s outcome)
    quiet (inr out) e = inr (complete-permit_kept s outcome out)
    quiet (inl idle) e = inl (waiting-complete s outcome p ∙ rw idle (scheduled-none s outcome e))

drain_next-IsServed :
    (s : Shared) → s.drainer.permit ≡ false → DrainsOne s (drain_next s) → IsServed (drain_next s).0
drain_next-IsServed s p (inl (e, parked, idle)) = inl (sym kept ∙ idle)
  where
    kept : waiting s ≡ waiting (drain_next s).0
    kept =
        waiting-drain_next s
        ∙ ap (λ (o : Option Undelivered). to_list o ++ waiting (drain_next s).0) e
drain_next-IsServed s p (inr (u, e, same, w)) = inr (same ∙ p)

-- Every possible section keeps a drainer running while a delivery is due.
pub step-IsServed : (s : Shared) (e : Event) → Possible s e → IsServed s → IsServed (step s e).0
unfolding step scheduled clear_callbacks store_built
step-IsServed s (completes outcome) p v = complete-IsServed s outcome p v
step-IsServed s drops p v =
    IsServed-kept s (step s drops).0 (waiting-Grows s (step s drops).0 (step-Grows s drops tt))
      (ap (λ (d : Drainer). d.permit) (complete_dropped-drainer s)) v
step-IsServed s (registers delivery cb) p v =
    IsServed-kept s (step s (registers delivery cb)).0
      (waiting-Grows s (step s (registers delivery cb)).0 (step-Grows s (registers delivery cb) tt))
      (ap (λ (d : Drainer). d.permit) (register-drainer s delivery cb)) v
step-IsServed s clears p v =
    IsServed-kept s (step s clears).0 (waiting-Grows s (step s clears).0 (step-Grows s clears tt))
      refl v
step-IsServed s pages p v =
    IsServed-kept s (step s pages).0 (waiting-Grows s (step s pages).0 (step-Grows s pages tt))
      (start_fetching_next_page-permit s) v
step-IsServed s drains p v = drain_next-IsServed s p (drain_next-DrainsOne s)
step-IsServed s (stores q rs) p v =
    IsServed-kept s (step s (stores q rs)).0
      (waiting-Grows s (step s (stores q rs)).0 (step-Grows s (stores q rs) tt)) refl v

pub run-IsServed :
    (s : Shared) (es : List Event) → PossibleRun s es → IsServed s → IsServed (run s es)
unfolding run
run-IsServed s [] p v = v
run-IsServed s (e ∷ es) p v = run-IsServed (step s e).0 es p.1 (step-IsServed s e p.0 v)

abbrev pub rounds : ℕ → List Event
rounds zero = []
rounds (suc n) = drains ∷ rounds n

-- With the token out, as many rounds as deliveries are due take all of them, oldest first, and
-- one more round parks the token.
pub all_taken-rounds :
    (s : Shared) (n : ℕ)
    → s.drainer.permit ≡ false
    → length (waiting s) ≡ n
    → (all_taken s (rounds (suc n)) ≡ waiting s)
      × (waiting (run s (rounds (suc n))) ≡ [])
      × ((run s (rounds (suc n))).drainer.permit ≡ true)
unfolding all_taken run step
all_taken-rounds s zero p e = elim (drain_next-DrainsOne s) [
  | inl (none_due, parked, idle) ↦ rw (none_due, idle) (refl, nothing_left none_due idle, parked)
  | inr (u, taken, same, w) ↦ absurd (omega (arith, ap length w))
]
  where
    nothing_left : (drain_next s).1 ≡ none → waiting s ≡ [] → waiting (drain_next s).0 ≡ []
    nothing_left none_due idle =
        sym (
          waiting-drain_next s
          ∙ ap (λ (o : Option Undelivered). to_list o ++ waiting (drain_next s).0) none_due)
        ∙ idle
all_taken-rounds s (suc n) p e = elim (drain_next-DrainsOne s) [
  | inl (none_due, parked, idle) ↦ absurd (omega (arith, ap length idle))
  | inr (u, taken, same, w) ↦
      let (later, empty, parked) =
        all_taken-rounds (drain_next s).0 n (same ∙ p) (omega (arith, ap length w)) in
      (rw (taken, w) (ap (λ (l : List Undelivered). u ∷ l) later), empty, parked)
]
