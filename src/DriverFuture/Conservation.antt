-- ===== src/DriverFuture/Conservation.antt =====
-- No callback of a driver future is lost or fires twice.
use python_rs_driver.Common.{Bool, true, false, List, [], ◌∷◌, ◌++◌, ◌≡◌, refl, ◌+◌, arith}
use python_rs_driver.Callbacks.{CallbackKind}
use python_rs_driver.DriverFuture.Entry.{Fired, Reply, Job, Section, fire_ready}
use python_rs_driver.DriverFuture.{
  Convert, get_or_convert, FutureState, pending_asyncio, pending_tokio, settled, panicked_state,
}
use python_rs_driver.DriverFuture.Sound.{Due, Sound, step-Sound}
use python_rs_driver.DriverFuture.History.{
  section, Entry, World, locked, fire_job, Event, enters, fires, step, run, enter, fire_and_notify,
}
use python_rs_driver.DriverFuture.Balance.{
  Weight, total, invoked_callbacks, waiting, owed, outstanding, asked, total-append, total-fire_all,
  Balance, section-Balance,
}

-- What an event hands over: nothing to a poisoned lock, where the call panics.
abbrev pub accepted_by : Bool → Event → List CallbackKind
accepted_by poisoned (enters e) = elim poisoned [ true ↦ [] | false ↦ asked e ]
accepted_by poisoned fires = []

owed-append :
    (f : Weight) (js ks : List Job)
    → total f (owed (js ++ ks)) ≡ total f (owed js) + total f (owed ks)
unfolding owed total
owed-append f [] ks = omega arith
owed-append f (j ∷ js) ks =
    rw (total-append f j.callbacks (owed (js ++ ks)))
      (rw (total-append f j.callbacks (owed js)) (rw (owed-append f js ks) (omega arith)))

-- One transition of the world: what it is given and what was outstanding are what it fires and what
-- is outstanding then.
abbrev Kept : Weight → List CallbackKind → World → World × Reply → Type 0
Kept f given w x =
    total f given + total f (outstanding w)
    ≡ total f (invoked_callbacks x.1.fired) + total f (outstanding x.0)

released-Kept :
    (f : Weight) (given : List CallbackKind) (x : Section) (w : World)
    → Balance f given w.lock.state x
    → Kept f given w (locked false x w)
unfolding outstanding
released-Kept f given x w h = rw (total-append f (waiting w.lock.state) (owed w.jobs)) (
    rw (total-append f (waiting x.0) (owed (w.jobs ++ x.2)))
      (rw (owed-append f w.jobs x.2) (omega arith)))

enters-Kept :
    (f : Weight) (convert : Convert) (poisoned : Bool) (w : World) (e : Entry)
    → Kept f
        (accepted_by poisoned (enters e))
        w
        (locked poisoned (section convert w.lock.waiters e w.lock.state) w)
unfolding total outstanding invoked_callbacks
enters-Kept f convert true w e = omega arith
enters-Kept f convert false w e =
    released-Kept f (asked e) (section convert w.lock.waiters e w.lock.state) w
      (section-Balance f convert w.lock.waiters e w.lock.state)

fire_ready-Balance :
    (f : Weight) (convert : Convert) (j : Job) (js : List Job) (s : FutureState)
    → Due s (j ∷ js)
    → Balance f j.callbacks s (fire_ready convert j s)
unfolding fire_ready owed total
fire_ready-Balance f convert j js (settled r) d =
    rw (total-fire_all f j.callbacks (get_or_convert convert r).1) (omega arith)
fire_ready-Balance f convert j js (pending_asyncio c) d = cc
fire_ready-Balance f convert j js (pending_tokio cbs w) d = cc
fire_ready-Balance f convert j js panicked_state d = cc

panicked-idle :
    {A : Type 0} (s : FutureState) (j : Job) (js : List Job)
    → Due s (j ∷ js)
    → s ≡ panicked_state
    → A
panicked-idle (settled r) j js d e = cc
panicked-idle (pending_asyncio c) j js d e = cc
panicked-idle (pending_tokio cbs w) j js d e = cc
panicked-idle panicked_state j js d e = cc

locked_ready-Kept :
    (f : Weight) (convert : Convert) (poisoned : Bool) (w : World) (j : Job)
    → Due w.lock.state (j ∷ w.jobs)
    → (poisoned ≡ true → w.lock.state ≡ panicked_state)
    → Kept f j.callbacks w (locked poisoned (fire_ready convert j w.lock.state) w)
locked_ready-Kept f convert true w j d p = panicked-idle w.lock.state j w.jobs d (p refl)
locked_ready-Kept f convert false w j d p =
    released-Kept f j.callbacks (fire_ready convert j w.lock.state) w
      (fire_ready-Balance f convert j w.jobs w.lock.state d)

fire_job-Kept :
    (f : Weight) (convert : Convert) (w : World) (j : Job) (cbs : List CallbackKind)
    → j.callbacks ≡ cbs
    → Due w.lock.state (j ∷ w.jobs)
    → (w.lock.poisoned ≡ true → w.lock.state ≡ panicked_state)
    → Kept f j.callbacks w (fire_job convert w j cbs)
unfolding total invoked_callbacks
fire_job-Kept f convert w j [] e d p = rw e refl
fire_job-Kept f convert w j (cb ∷ cbs) e d p = locked_ready-Kept f convert w.lock.poisoned w j d p

outstanding-job :
    (f : Weight) (cbs : List CallbackKind) (j : Job) (js : List Job)
    → total f (cbs ++ owed (j ∷ js)) ≡ total f j.callbacks + total f (cbs ++ owed js)
unfolding owed
outstanding-job f cbs j js =
    rw (total-append f cbs (j.callbacks ++ owed js))
      (rw (total-append f cbs (owed js)) (rw (total-append f j.callbacks (owed js)) (omega arith)))

outstanding-first :
    (f : Weight) (w : World) (j : Job) (js : List Job)
    → w.jobs ≡ j ∷ js
    → total f (outstanding w) ≡ total f j.callbacks + total f (outstanding (record w { jobs = js }))
unfolding outstanding
outstanding-first f w j js e = rw e (outstanding-job f (waiting w.lock.state) j js)

fire_and_notify-Kept :
    (f : Weight) (convert : Convert) (w : World) (js : List Job)
    → w.jobs ≡ js
    → Due w.lock.state js
    → (w.lock.poisoned ≡ true → w.lock.state ≡ panicked_state)
    → Kept f [] w (fire_and_notify convert w js)
unfolding fire_and_notify total invoked_callbacks
fire_and_notify-Kept f convert w [] e d p = refl
fire_and_notify-Kept f convert w (j ∷ js) e d p =
    let kept = fire_job-Kept f convert (record w { jobs = js }) j j.callbacks refl d p in
    let more = outstanding-first f w j js e in omega arith

step-Kept :
    (f : Weight) (convert : Convert) (w : World) (e : Event)
    → Sound w
    → Kept f (accepted_by w.lock.poisoned e) w (step convert w e)
unfolding step enter
step-Kept f convert w (enters e) h = enters-Kept f convert w.lock.poisoned w e
step-Kept f convert w fires h = fire_and_notify-Kept f convert w w.jobs refl h.0 h.1

unfoldable pub accepted : Convert → World → List Event → List CallbackKind
accepted convert w [] = []
accepted convert w (e ∷ es) =
    accepted_by w.lock.poisoned e ++ accepted convert (step convert w e).0 es

invoked-append :
    (f : Weight) (xs ys : List Fired)
    → total f (invoked_callbacks (xs ++ ys))
      ≡ total f (invoked_callbacks xs) + total f (invoked_callbacks ys)
unfolding total invoked_callbacks
invoked-append f [] ys = omega arith
invoked-append f (x ∷ xs) ys = rw (invoked-append f xs ys) (omega arith)

-- Through any calls of any threads on a driver future, the callbacks that were outstanding and those
-- that the calls registered are the callbacks invoked and those outstanding at the end, each as
-- often: their totals are equal under every weighting.
pub run-conserves :
    (f : Weight) (convert : Convert) (w : World) (es : List Event)
    → Sound w
    → let (w', fired) = run convert w es in
      total f (accepted convert w es) + total f (outstanding w)
      ≡ total f (invoked_callbacks fired) + total f (outstanding w')
unfolding run accepted invoked_callbacks
run-conserves f convert w [] h = refl
run-conserves f convert w (e ∷ es) h =
    let now = step-Kept f convert w e h in
    let later = run-conserves f convert (step convert w e).0 es (step-Sound convert w e h) in
    rw (total-append f (accepted_by w.lock.poisoned e) (accepted convert (step convert w e).0 es)) (
      rw (invoked-append f (step convert w e).1.fired (run convert (step convert w e).0 es).1)
        (omega arith))
