-- ===== src/DriverFuture/History.antt =====
-- Calls of any threads on one driver future, as a sequence of sections under its state lock.
use python_rs_driver.Common.{ℕ, Bool, true, false, Option, none, some, List, [], ◌∷◌, ◌++◌}
use python_rs_driver.Common.Python.{Obj, PyErr, PyResult, err, panicked_err}
use python_rs_driver.Callbacks.{CallbackKind}
use python_rs_driver.Waker.{Yielded}
use python_rs_driver.DriverFuture.{
  Convert, InnerPoll, ResolvedResult, get_or_convert, FutureState, settled, panicked_state,
  StateLock,
}
use python_rs_driver.DriverFuture.Entry.{
  Answer, panics, panics_locked, done_with, Fired, Reply, quiet, Job, Section, start,
  poll_coroutine, close_future, throw_into, register_callback, block_until_ready, wait_for_ready,
  inspect, resolve_on_tokio, fire_ready, notifying,
}

pub data Entry : Type 0 where
  starts : (fresh : ℕ) → Entry
  polls : (fresh : ℕ) → InnerPoll → Yielded → Entry
  closes throws : PyErr → Entry
  registers : (fresh : ℕ) → CallbackKind → Entry
  reads : (fresh : ℕ) → Entry
  rereads inspects : Entry
  resolves : Option ResolvedResult → Entry

unfoldable pub section : Convert → ℕ → Entry → FutureState → Section
section convert n (starts fresh) s = start fresh s
section convert n (polls fresh inner yielded) s = poll_coroutine convert fresh inner yielded s
section convert n (closes exc) s = close_future exc n s
section convert n (throws exc) s = throw_into convert exc n s
section convert n (registers fresh cb) s = register_callback convert fresh cb s
section convert n (reads fresh) s = block_until_ready convert fresh s
section convert n rereads s = wait_for_ready convert s
section convert n inspects s = inspect convert s
section convert n (resolves outcome) s = resolve_on_tokio outcome n s

-- The future and the jobs that `resolve_on_tokio` left.
pub record World : Type 0 where
  pub lock : StateLock
  pub jobs : List Job

-- A panic that unwinds through the guard poisons the mutex.
abbrev pub poisons : Answer → Bool
poisons panics_locked = true
poisons _ = false

abbrev pub released : ℕ → List Job → Section → World × Reply
released n jobs (s, r, made) = (
  record {
    lock = record { state = s; waiters = n; poisoned = poisons r.answer };
    jobs = jobs ++ made;
  },
  r,
)

abbrev pub blocked : World → World × Reply
blocked w = (w, quiet panics)

-- `lock().unwrap()` panics on a poisoned mutex.
abbrev pub locked : Bool → Section → World → World × Reply
locked true entered w = blocked w
locked false entered w = released w.lock.waiters w.jobs entered

unfoldable pub enter : Convert → Entry → World → World × Reply
enter convert e w = locked w.lock.poisoned (section convert w.lock.waiters e w.lock.state) w

-- `fire_and_notify` takes the lock only if there are callbacks; the job is consumed either way.
abbrev pub fire_job : Convert → World → Job → List CallbackKind → World × Reply
fire_job convert w j [] = (w, notifying j [])
fire_job convert w j (cb ∷ cbs) = locked w.lock.poisoned (fire_ready convert j w.lock.state) w

unfoldable pub fire_and_notify : Convert → World → List Job → World × Reply
fire_and_notify convert w [] = (w, quiet done_with)
fire_and_notify convert w (j ∷ js) = fire_job convert (record w { jobs = js }) j j.callbacks

pub data Event : Type 0 where
  enters : Entry → Event
  fires : Event

unfoldable pub step : Convert → World → Event → World × Reply
unfolding enter fire_and_notify
step convert w (enters e) = enter convert e w
step convert w fires = fire_and_notify convert w w.jobs

unfoldable pub run : Convert → World → List Event → World × List Fired
unfolding step
run convert w [] = (w, [])
run convert w (e ∷ es) =
    let (w1, r) = step convert w e in let (w2, fs) = run convert w1 es in (w2, r.fired ++ fs)

unfoldable pub new_world : FutureState → World
new_world s = record { lock = record { state = s; waiters = 0; poisoned = false }; jobs = [] }

-- What a state has settled on.
unfoldable pub outcome : Convert → FutureState → Option (PyResult Obj)
unfolding get_or_convert
outcome convert (settled r) = some (get_or_convert convert r).1
outcome convert panicked_state = some (err panicked_err)
outcome convert _ = none
