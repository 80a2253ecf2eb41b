-- ===== src/Waker.antt =====
-- src/future/asyncio/waker.rs: where a coroutine is parked, and how a wake reaches it.
-- `Waker.Laws` follows a wake through the slot and the batcher.
pub mod Laws
pub mod Tests
use python_rs_driver.Common.{ℕ, Bool, true, false, Option, none, some, List, [], ◌∷◌}
use python_rs_driver.Batcher.Registry.{BatcherFor, batcher, failed}
use python_rs_driver.Common.Python.{Obj, PyErr, PyResult, ok, err}

pub record Parked : Type 0 where
  pub future : Obj
  pub batcher : ℕ

pub data WakerSlot : Type 0 where
  idle woken : WakerSlot
  parked : Parked → WakerSlot

-- What the iterator of an object yields next, if the object has one.
pub data IteratorNext : Type 0 where
  not_iterable exhausted : IteratorNext
  yields_next : PyResult Obj → IteratorNext

-- What a call from `yield_asyncio_future` meets: the running loop, the future that it creates, what
-- the iterator of a future yields next, and the batcher of the loop.
pub record EventLoop : Type 0 where
  pub running_loop : PyResult Obj
  pub create_future : Obj → PyResult Obj
  pub iterator_next : Obj → IteratorNext
  pub batcher_for : Obj → BatcherFor
  pub none_object : Obj

-- What `yield_future` returns: `Option<Result>` to `Result<Option>`, or the panic of its `expect`.
pub data YieldedNext : Type 0 where
  next_of : PyResult (Option Obj) → YieldedNext
  no_iterator : YieldedNext

abbrev pub transpose : IteratorNext → YieldedNext
transpose not_iterable = no_iterator
transpose exhausted = next_of (ok none)
transpose (yields_next (ok y)) = next_of (ok (some y))
transpose (yields_next (err e)) = next_of (err e)

unfoldable pub yield_future : EventLoop → Obj → YieldedNext
yield_future env future = transpose (env.iterator_next future)

-- A value to yield to the event loop, an exception, or a panic.
pub data Yielded : Type 0 where
  returns : PyResult Obj → Yielded
  panics : Yielded

abbrev pub park_on : WakerSlot → Obj → Obj → BatcherFor → WakerSlot × Yielded
park_on slot future yielded (batcher b) =
    (parked (record { future = future; batcher = b }), returns (ok yielded))
park_on slot future yielded (failed e) = (slot, returns (err e))
park_on slot future yielded BatcherFor.panics = (slot, panics)

-- `yielded` is what the fresh future yields; it must not be done.
abbrev pub park_fresh : EventLoop → WakerSlot → Obj → Obj → YieldedNext → WakerSlot × Yielded
park_fresh env slot loop future no_iterator = (slot, panics)
park_fresh env slot loop future (next_of (err e)) = (slot, returns (err e))
park_fresh env slot loop future (next_of (ok none)) = (slot, panics)
park_fresh env slot loop future (next_of (ok (some y))) =
    park_on slot future y (env.batcher_for loop)

abbrev pub park_created : EventLoop → WakerSlot → Obj → PyResult Obj → WakerSlot × Yielded
unfolding yield_future
park_created env slot loop (err e) = (slot, returns (err e))
park_created env slot loop (ok future) = park_fresh env slot loop future (yield_future env future)

-- The end of `yield_asyncio_future`: park on a new future of the running loop.
unfoldable pub park_afresh : EventLoop → WakerSlot → PyResult Obj → WakerSlot × Yielded
unfolding yield_future
park_afresh env slot (err e) = (slot, returns (err e))
park_afresh env slot (ok loop) = park_created env slot loop (env.create_future loop)

-- Polled again while still parked.
abbrev pub repark : EventLoop → Parked → YieldedNext → WakerSlot × Yielded
unfolding park_afresh
repark env p no_iterator = (parked p, panics)
repark env p (next_of (err e)) = (parked p, returns (err e))
repark env p (next_of (ok (some y))) = (parked p, returns (ok y))
repark env p (next_of (ok none)) = park_afresh env (parked p) env.running_loop

unfoldable pub yield_asyncio_future : EventLoop → WakerSlot → WakerSlot × Yielded
unfolding park_afresh yield_future
yield_asyncio_future env woken = (idle, returns (ok env.none_object))
yield_asyncio_future env (parked p) = repark env p (yield_future env p.future)
yield_asyncio_future env idle = park_afresh env idle env.running_loop

unfoldable pub reset : WakerSlot → WakerSlot
reset slot = idle

-- `take_parked`: record a wake, and hand out the parked future to deliver it to.
unfoldable pub take_parked : WakerSlot → WakerSlot × Option Parked
take_parked (parked p) = (idle, some p)
take_parked idle = (woken, none)
take_parked woken = (woken, none)
