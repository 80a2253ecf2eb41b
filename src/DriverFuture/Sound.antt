-- ===== src/DriverFuture/Sound.antt =====
-- When a job is left and when the lock is poisoned: what every call on a driver future keeps.
use python_rs_driver.Common.{
  ℕ, Bool, true, false, none, List, [], ◌∷◌, ◌++◌, ◌≡◌, refl, ◌∙◌, append-nil,
}
use python_rs_driver.Callbacks.{CallbackKind}
use python_rs_driver.Waker.{Yielded, returns}
use python_rs_driver.Waker
use python_rs_driver.DriverFuture.{
  Convert, FutureState, pending_asyncio, pending_tokio, settled, panicked_state, PollResult,
  still_pending, finished, poll_panics, coroutine_poll, into_future_and_waker,
}
use python_rs_driver.DriverFuture.Entry.{
  Job, Section, start, poll_coroutine, answer_of, close_future, throw_into, register_callback,
  block_until_ready, wait_for_ready, inspect, resolve_on_tokio, fire_ready, after_poll,
  ensure_started, transition_to_tokio,
}
use python_rs_driver.DriverFuture.History.{
  section, Entry, starts, polls, closes, throws, registers, reads, rereads, inspects, resolves,
  World, poisons, locked, fire_job, Event, enters, fires, step, run, enter, fire_and_notify,
}

-- Only a settled future has jobs left.
abbrev pub Due : FutureState → List Job → Type 0
Due (settled r) js = Unit {0}
Due _ js = js ≡ []

-- Only a future that panicked has a poisoned lock.
abbrev pub SoundAt : Bool → FutureState → List Job → Type 0
SoundAt poisoned s js = Due s js × (poisoned ≡ true → s ≡ panicked_state)

abbrev pub Sound : World → Type 0
Sound w = SoundAt w.lock.poisoned w.lock.state w.jobs

unsettled : (js : List Job) → js ≡ [] → js ++ [] ≡ []
unsettled js d = append-nil js ∙ d

answer_of-quiet : (y : Yielded) {A : Type 0} → poisons (answer_of y) ≡ true → A
answer_of-quiet (returns value) h = cc
answer_of-quiet Waker.panics h = cc

after_poll-Sound :
    (js : List Job)
    → js ≡ []
    → (p : PollResult)
    → let (s', r, made) = after_poll p in SoundAt (poisons r.answer) s' (js ++ made)
unfolding after_poll
after_poll-Sound js d (still_pending c' value) = (unsettled js d, λ h. cc)
after_poll-Sound js d (finished r) = (tt, λ h. cc)
after_poll-Sound js d poll_panics = (unsettled js d, λ h. refl)

section-Sound :
    (convert : Convert) (n : ℕ) (e : Entry) (s : FutureState) (js : List Job)
    → Due s js
    → let (s', r, made) = section convert n e s in SoundAt (poisons r.answer) s' (js ++ made)
unfolding section start ensure_started poll_coroutine close_future throw_into register_callback
    block_until_ready wait_for_ready inspect resolve_on_tokio transition_to_tokio
    into_future_and_waker
section-Sound convert n (starts fresh) (pending_asyncio c) js d = (unsettled js d, λ h. cc)
section-Sound convert n (starts fresh) (pending_tokio cbs w) js d = (unsettled js d, λ h. cc)
section-Sound convert n (starts fresh) (settled r) js d = (tt, λ h. cc)
section-Sound convert n (starts fresh) panicked_state js d = (unsettled js d, λ h. cc)
section-Sound convert n (polls fresh inner yielded) (pending_asyncio c) js d =
    after_poll-Sound js d (coroutine_poll convert c none fresh inner yielded)
section-Sound convert n (polls fresh inner yielded) (pending_tokio cbs w) js d =
    (unsettled js d, λ h. answer_of-quiet yielded h)
section-Sound convert n (polls fresh inner yielded) (settled r) js d = (tt, λ h. cc)
section-Sound convert n (polls fresh inner yielded) panicked_state js d = (unsettled js d, λ h. cc)
section-Sound convert n (closes exc) (pending_asyncio c) js d = (tt, λ h. cc)
section-Sound convert n (closes exc) (pending_tokio cbs w) js d = (tt, λ h. cc)
section-Sound convert n (closes exc) (settled r) js d = (tt, λ h. cc)
section-Sound convert n (closes exc) panicked_state js d = (unsettled js d, λ h. cc)
section-Sound convert n (throws exc) (pending_asyncio c) js d = (tt, λ h. cc)
section-Sound convert n (throws exc) (pending_tokio cbs w) js d = (tt, λ h. cc)
section-Sound convert n (throws exc) (settled r) js d = (tt, λ h. cc)
section-Sound convert n (throws exc) panicked_state js d = (unsettled js d, λ h. cc)
section-Sound convert n (registers fresh cb) (pending_asyncio c) js d = (unsettled js d, λ h. cc)
section-Sound convert n (registers fresh cb) (pending_tokio cbs w) js d = (unsettled js d, λ h. cc)
section-Sound convert n (registers fresh cb) (settled r) js d = (tt, λ h. cc)
section-Sound convert n (registers fresh cb) panicked_state js d = (unsettled js d, λ h. cc)
section-Sound convert n (reads fresh) (pending_asyncio c) js d = (unsettled js d, λ h. cc)
section-Sound convert n (reads fresh) (pending_tokio cbs w) js d = (unsettled js d, λ h. cc)
section-Sound convert n (reads fresh) (settled r) js d = (tt, λ h. cc)
section-Sound convert n (reads fresh) panicked_state js d = (unsettled js d, λ h. cc)
section-Sound convert n rereads (pending_asyncio c) js d = (unsettled js d, λ h. cc)
section-Sound convert n rereads (pending_tokio cbs w) js d = (unsettled js d, λ h. cc)
section-Sound convert n rereads (settled r) js d = (tt, λ h. cc)
section-Sound convert n rereads panicked_state js d = (unsettled js d, λ h. cc)
section-Sound convert n inspects (pending_asyncio c) js d = (unsettled js d, λ h. cc)
section-Sound convert n inspects (pending_tokio cbs w) js d = (unsettled js d, λ h. cc)
section-Sound convert n inspects (settled r) js d = (tt, λ h. cc)
section-Sound convert n inspects panicked_state js d = (unsettled js d, λ h. cc)
section-Sound convert n (resolves o) (pending_asyncio c) js d = (unsettled js d, λ h. cc)
section-Sound convert n (resolves o) (pending_tokio cbs w) js d = (tt, λ h. cc)
section-Sound convert n (resolves o) (settled r) js d = (tt, λ h. cc)
section-Sound convert n (resolves o) panicked_state js d = (unsettled js d, λ h. cc)

locked-Sound :
    (poisoned : Bool) (x : Section) (w : World)
    → SoundAt (poisons x.1.answer) x.0 (w.jobs ++ x.2)
    → Sound w
    → Sound (locked poisoned x w).0
locked-Sound true x w new old = old
locked-Sound false x w new old = new

fire_ready-Sound :
    (convert : Convert) (j : Job) (js : List Job) (s : FutureState)
    → Due s (j ∷ js)
    → let (s', r, made) = fire_ready convert j s in SoundAt (poisons r.answer) s' (js ++ made)
unfolding fire_ready
fire_ready-Sound convert j js (settled r) d = (tt, λ h. cc)
fire_ready-Sound convert j js (pending_asyncio c) d = cc
fire_ready-Sound convert j js (pending_tokio cbs w) d = cc
fire_ready-Sound convert j js panicked_state d = cc

Due-rest : (s : FutureState) (j : Job) (js : List Job) → Due s (j ∷ js) → Due s js
Due-rest (settled r) j js d = tt
Due-rest (pending_asyncio c) j js d = cc
Due-rest (pending_tokio cbs w) j js d = cc
Due-rest panicked_state j js d = cc

fire_job-Sound :
    (convert : Convert) (w : World) (j : Job) (cbs : List CallbackKind)
    → SoundAt w.lock.poisoned w.lock.state (j ∷ w.jobs)
    → Sound (fire_job convert w j cbs).0
fire_job-Sound convert w j [] h = (Due-rest w.lock.state j w.jobs h.0, h.1)
fire_job-Sound convert w j (cb ∷ cbs) h =
    locked-Sound w.lock.poisoned (fire_ready convert j w.lock.state) w
      (fire_ready-Sound convert j w.jobs w.lock.state h.0) (Due-rest w.lock.state j w.jobs h.0, h.1)

fire_and_notify-Sound :
    (convert : Convert) (w : World) (js : List Job)
    → Sound w
    → Sound (record w { jobs = js })
    → Sound (fire_and_notify convert w js).0
unfolding fire_and_notify
fire_and_notify-Sound convert w [] h h' = h
fire_and_notify-Sound convert w (j ∷ js) h h' =
    fire_job-Sound convert (record w { jobs = js }) j j.callbacks h'

pub step-Sound : (convert : Convert) (w : World) (e : Event) → Sound w → Sound (step convert w e).0
unfolding step enter
step-Sound convert w (enters e) h =
    locked-Sound w.lock.poisoned (section convert w.lock.waiters e w.lock.state) w
      (section-Sound convert w.lock.waiters e w.lock.state w.jobs h.0) h
step-Sound convert w fires h = fire_and_notify-Sound convert w w.jobs h h

-- Through any calls of any threads, callbacks are left to fire only on a future that has settled,
-- and the lock is poisoned only on one that panicked.
pub run-Sound :
    (convert : Convert) (w : World) (es : List Event) → Sound w → Sound (run convert w es).0
unfolding run
run-Sound convert w [] h = h
run-Sound convert w (e ∷ es) h =
    run-Sound convert (step convert w e).0 es (step-Sound convert w e h)
