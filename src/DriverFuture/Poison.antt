-- ===== src/DriverFuture/Poison.antt =====
-- What a panic inside a poll of the coroutine leaves behind: a poisoned lock.
use python_rs_driver.Common.{ℕ, false, none, ◌≡◌, refl, ap, []}
use python_rs_driver.Waker.{Yielded}
use python_rs_driver.DriverFuture.{
  Convert, InnerPoll, Coroutine, pending_asyncio, panicked_state, poll_panics, coroutine_poll,
}
use python_rs_driver.DriverFuture.Entry.{poll_coroutine, after_poll, panics, panics_locked, quiet}
use python_rs_driver.DriverFuture.History.{World, Entry, polls, enter, section}

unfoldable pub pending_world : Coroutine → ℕ → World
pending_world c waiters = record {
  lock = record { state = pending_asyncio c; waiters = waiters; poisoned = false };
  jobs = [];
}

poll-panics :
    (convert : Convert) (c : Coroutine) (waiters fresh : ℕ) (inner : InnerPoll) (yielded : Yielded)
    → coroutine_poll convert c none fresh inner yielded ≡ poll_panics
    → section convert waiters (polls fresh inner yielded) (pending_asyncio c)
      ≡ (panicked_state, quiet panics_locked, [])
unfolding section poll_coroutine after_poll
poll-panics convert c waiters fresh inner yielded h = ap after_poll h

-- If the poll of a pending future's coroutine panics, then the state is `Panicked`, but every later
-- entry point panics on the poisoned lock, without looking at the state and without changing it.
pub enter-poisoned :
    (convert : Convert) (c : Coroutine) (waiters fresh : ℕ) (inner : InnerPoll) (yielded : Yielded)
    → coroutine_poll convert c none fresh inner yielded ≡ poll_panics
    → let w = (enter convert (polls fresh inner yielded) (pending_world c waiters)).0 in
      (w.lock.state ≡ panicked_state) × ((e : Entry) → enter convert e w ≡ (w, quiet panics))
unfolding enter pending_world
enter-poisoned convert c waiters fresh inner yielded h =
    rw (poll-panics convert c waiters fresh inner yielded h) (refl, λ e. refl)
