-- ===== src/DriverFuture/Outcome.antt =====
-- A driver future settles once: whoever learns the outcome learns the same one.
use python_rs_driver.Common.{
  ℕ, Bool, true, false, Option, some, List, [], ◌∷◌, ◌++◌, ◌≡◌, refl, ◌∙◌,
}
use python_rs_driver.Common.Python.{Obj, PyResult}
use python_rs_driver.Callbacks.{CallbackKind}
use python_rs_driver.DriverFuture.{
  Convert, ReadyResult, unconverted, converted, get_or_convert, FutureState, pending_asyncio,
  pending_tokio, settled, panicked_state, Coroutine, PollResult, still_pending, finished,
  poll_panics,
}
use python_rs_driver.DriverFuture.Entry.{
  Fired, Job, Section, start, poll_coroutine, close_future, throw_into, register_callback,
  block_until_ready, wait_for_ready, inspect, resolve_on_tokio, fire_ready, after_poll, fire_all,
  ensure_started,
}
use python_rs_driver.DriverFuture.History.{
  locked, fire_job, section, Entry, starts, polls, closes, throws, registers, reads, rereads,
  inspects, resolves, section, World, Event, enters, fires, step, run, outcome, enter,
  fire_and_notify,
}

-- Every callback of the list is invoked for the outcome.
abbrev pub AllFired : Option (PyResult Obj) → List Fired → Type 0
AllFired o [] = Unit {0}
AllFired o (f ∷ fs) = (o ≡ some f.1) × AllFired o fs

-- A transition from one state keeps a settled outcome, and fires for the outcome of the next one.
abbrev pub Settles : Convert → FutureState → FutureState → List Fired → Type 0
Settles convert s s' fired =
    ((r : PyResult Obj) → outcome convert s ≡ some r → outcome convert s' ≡ some r)
    × AllFired (outcome convert s') fired

AllFired-fire_all :
    (o : Option (PyResult Obj)) (cbs : List CallbackKind) (r : PyResult Obj)
    → o ≡ some r
    → AllFired o (fire_all cbs r)
unfolding fire_all
AllFired-fire_all o [] r h = tt
AllFired-fire_all o (cb ∷ cbs) r h = (h, AllFired-fire_all o cbs r h)

get_or_convert-twice :
    (convert : Convert) (r : ReadyResult)
    → (get_or_convert convert (get_or_convert convert r).0).1 ≡ (get_or_convert convert r).1
unfolding get_or_convert
get_or_convert-twice convert (unconverted r) = refl
get_or_convert-twice convert (converted r) = refl

outcome-convert :
    (convert : Convert) (r : ReadyResult)
    → outcome convert (settled (get_or_convert convert r).0) ≡ some (get_or_convert convert r).1
unfolding outcome
outcome-convert convert r = rw (get_or_convert-twice convert r) refl

settled-Settles :
    (convert : Convert) (r : ReadyResult) (cbs : List CallbackKind)
    → Settles convert
        (settled r)
        (settled (get_or_convert convert r).0)
        (fire_all cbs (get_or_convert convert r).1)
unfolding outcome
settled-Settles convert r cbs =
    (λ x h. outcome-convert convert r ∙ h, AllFired-fire_all _ cbs _ (outcome-convert convert r))

after_poll-Settles :
    (convert : Convert) (c : Coroutine) (p : PollResult)
    → Settles convert (pending_asyncio c) (after_poll p).0 (after_poll p).1.fired
unfolding outcome after_poll
after_poll-Settles convert c (still_pending c' value) = (λ r h. cc, tt)
after_poll-Settles convert c (finished r) = (λ r h. cc, tt)
after_poll-Settles convert c poll_panics = (λ r h. cc, tt)

closing-Settles :
    (convert : Convert) (cbs : List CallbackKind) (w : ℕ) (r : PyResult Obj)
    → Settles convert (pending_tokio cbs w) (settled (converted r)) (fire_all cbs r)
unfolding outcome get_or_convert
closing-Settles convert cbs w r = (λ x h. cc, AllFired-fire_all (some r) cbs r refl)

section-Settles :
    (convert : Convert) (n : ℕ) (e : Entry) (s : FutureState)
    → Settles convert s (section convert n e s).0 (section convert n e s).1.fired
unfolding section start ensure_started poll_coroutine close_future throw_into register_callback
    block_until_ready wait_for_ready inspect resolve_on_tokio outcome
section-Settles convert n (starts fresh) (pending_asyncio c) = (λ r h. cc, tt)
section-Settles convert n (starts fresh) (pending_tokio cbs w) = (λ r h. h, tt)
section-Settles convert n (starts fresh) (settled r) = (λ r h. h, tt)
section-Settles convert n (starts fresh) panicked_state = (λ r h. h, tt)
section-Settles convert n (polls fresh inner yielded) (pending_asyncio c) =
    after_poll-Settles convert c _
section-Settles convert n (polls fresh inner yielded) (pending_tokio cbs w) = (λ r h. h, tt)
section-Settles convert n (polls fresh inner yielded) (settled r) =
    ((settled-Settles convert r []).0, tt)
section-Settles convert n (polls fresh inner yielded) panicked_state = (λ r h. h, tt)
section-Settles convert n (closes exc) (pending_asyncio c) = (λ r h. cc, tt)
section-Settles convert n (closes exc) (pending_tokio cbs w) = closing-Settles convert cbs w _
section-Settles convert n (closes exc) (settled r) = (λ r h. h, tt)
section-Settles convert n (closes exc) panicked_state = (λ r h. h, tt)
section-Settles convert n (throws exc) (pending_asyncio c) = (λ r h. cc, tt)
section-Settles convert n (throws exc) (pending_tokio cbs w) = closing-Settles convert cbs w _
section-Settles convert n (throws exc) (settled r) = (λ r h. h, tt)
section-Settles convert n (throws exc) panicked_state = (λ r h. h, tt)
section-Settles convert n (registers fresh cb) (pending_asyncio c) = (λ r h. cc, tt)
section-Settles convert n (registers fresh cb) (pending_tokio cbs w) = (λ r h. cc, tt)
section-Settles convert n (registers fresh cb) (settled r) =
    ((settled-Settles convert r []).0, (outcome-convert convert r, tt))
section-Settles convert n (registers fresh cb) panicked_state = (λ r h. h, (refl, tt))
section-Settles convert n (reads fresh) (pending_asyncio c) = (λ r h. cc, tt)
section-Settles convert n (reads fresh) (pending_tokio cbs w) = (λ r h. h, tt)
section-Settles convert n (reads fresh) (settled r) = ((settled-Settles convert r []).0, tt)
section-Settles convert n (reads fresh) panicked_state = (λ r h. h, tt)
section-Settles convert n rereads (settled r) = ((settled-Settles convert r []).0, tt)
section-Settles convert n rereads (pending_asyncio c) = (λ r h. h, tt)
section-Settles convert n rereads (pending_tokio cbs w) = (λ r h. h, tt)
section-Settles convert n rereads panicked_state = (λ r h. h, tt)
section-Settles convert n inspects (settled r) = ((settled-Settles convert r []).0, tt)
section-Settles convert n inspects (pending_asyncio c) = (λ r h. h, tt)
section-Settles convert n inspects (pending_tokio cbs w) = (λ r h. h, tt)
section-Settles convert n inspects panicked_state = (λ r h. h, tt)
section-Settles convert n (resolves o) (pending_tokio cbs w) = (λ r h. cc, tt)
section-Settles convert n (resolves o) (pending_asyncio c) = (λ r h. h, tt)
section-Settles convert n (resolves o) (settled r) = (λ r h. h, tt)
section-Settles convert n (resolves o) panicked_state = (λ r h. h, tt)

fire_ready-Settles :
    (convert : Convert) (j : Job) (s : FutureState)
    → Settles convert s (fire_ready convert j s).0 (fire_ready convert j s).1.fired
unfolding fire_ready
fire_ready-Settles convert j (settled r) = settled-Settles convert r j.callbacks
fire_ready-Settles convert j (pending_asyncio c) = (λ r h. h, tt)
fire_ready-Settles convert j (pending_tokio cbs w) = (λ r h. h, tt)
fire_ready-Settles convert j panicked_state = (λ r h. h, tt)

locked-Settles :
    (convert : Convert) (poisoned : Bool) (x : Section) (w : World)
    → Settles convert w.lock.state x.0 x.1.fired
    → let (w', r) = locked poisoned x w in Settles convert w.lock.state w'.lock.state r.fired
locked-Settles convert true x w h = (λ r h. h, tt)
locked-Settles convert false x w h = h

fire_job-Settles :
    (convert : Convert) (w : World) (j : Job) (cbs : List CallbackKind)
    → let (w', r) = fire_job convert w j cbs in Settles convert w.lock.state w'.lock.state r.fired
fire_job-Settles convert w j [] = (λ r h. h, tt)
fire_job-Settles convert w j (cb ∷ cbs) =
    locked-Settles convert w.lock.poisoned (fire_ready convert j w.lock.state) w
      (fire_ready-Settles convert j w.lock.state)

fire_and_notify-Settles :
    (convert : Convert) (w : World) (js : List Job)
    → let (w', r) = fire_and_notify convert w js in
      Settles convert w.lock.state w'.lock.state r.fired
unfolding fire_and_notify
fire_and_notify-Settles convert w [] = (λ r h. h, tt)
fire_and_notify-Settles convert w (j ∷ js) =
    fire_job-Settles convert (record w { jobs = js }) j j.callbacks

step-Settles :
    (convert : Convert) (w : World) (e : Event)
    → let (w', r) = step convert w e in Settles convert w.lock.state w'.lock.state r.fired
unfolding step enter
step-Settles convert w (enters e) =
    locked-Settles convert w.lock.poisoned (section convert w.lock.waiters e w.lock.state) w
      (section-Settles convert w.lock.waiters e w.lock.state)
step-Settles convert w fires = fire_and_notify-Settles convert w w.jobs

AllFired-keeps :
    (o o' : Option (PyResult Obj)) (fs : List Fired)
    → ((r : PyResult Obj) → o ≡ some r → o' ≡ some r)
    → AllFired o fs
    → AllFired o' fs
AllFired-keeps o o' [] k a = tt
AllFired-keeps o o' (f ∷ fs) k a = (k f.1 a.0, AllFired-keeps o o' fs k a.1)

AllFired-append :
    (o : Option (PyResult Obj)) (fs gs : List Fired)
    → AllFired o fs
    → AllFired o gs
    → AllFired o (fs ++ gs)
AllFired-append o [] gs a b = b
AllFired-append o (f ∷ fs) gs a b = (a.0, AllFired-append o fs gs a.1 b)

-- Through any calls of any threads, a future that has settled keeps its outcome, and every callback
-- that is invoked is invoked for the one outcome that the future ends with.
pub run-Settles :
    (convert : Convert) (w : World) (es : List Event)
    → let (w', fired) = run convert w es in
      ((r : PyResult Obj)
        → outcome convert w.lock.state ≡ some r
        → outcome convert w'.lock.state ≡ some r)
      × AllFired (outcome convert w'.lock.state) fired
unfolding run
run-Settles convert w [] = (λ r h. h, tt)
run-Settles convert w (e ∷ es) =
    let (kept, now) = step-Settles convert w e in
    let (kept', later) = run-Settles convert (step convert w e).0 es in
    (λ r h. kept' r (kept r h), AllFired-append _ _ _ (AllFired-keeps _ _ _ kept' now) later)
