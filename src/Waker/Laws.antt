-- ===== src/Waker/Laws.antt =====
-- No wake is lost: over any calls of a waker, a wake either finds the coroutine parked and hands its
-- future to the batcher, or makes the next yield return `None` at once, unless a reset forgets it.
use python_rs_driver.Common.{
  ℕ, ◌+◌, ◌==◌, ◌≡◌, refl, true, inl, inr, Option, none, some, List, [], ◌∷◌, ◌++◌, to_list,
  if◌then◌else◌,
}
use python_rs_driver.Common.Python.{Obj, ok}
use python_rs_driver.Batcher.{State, FutureCalls, Done, enqueue, drain}
use python_rs_driver.Batcher.Drain.{IsIn, IsCallable, drain_lem}
use python_rs_driver.Waker.{
  Parked, WakerSlot, idle, woken, parked, EventLoop, Yielded, returns, yield_asyncio_future, reset,
  take_parked,
}

pub data Call : Type 0 where
  yields : EventLoop → Call
  wakes resets : Call

-- The slot after a call, and the future that it hands to a batcher.
unfoldable pub step : WakerSlot → Call → WakerSlot × Option Parked
unfolding reset
step slot (yields env) = ((yield_asyncio_future env slot).0, none)
step slot wakes = take_parked slot
step slot resets = (reset slot, none)

unfoldable pub run : WakerSlot → List Call → WakerSlot
unfolding step
run slot [] = slot
run slot (c ∷ cs) = run (step slot c).0 cs

unfoldable pub delivered : WakerSlot → List Call → List Parked
unfolding step
delivered slot [] = []
delivered slot (c ∷ cs) = to_list (step slot c).1 ++ delivered (step slot c).0 cs

-- Whether a yield that left the slot so has answered `None` without parking.
abbrev reports_wake : EventLoop → WakerSlot → Yielded → ℕ
reports_wake env idle (returns (ok y)) = if y == env.none_object then 1 else 0
reports_wake env slot r = 0

-- How often a yield answered `None` without parking, by what it returned and left.
abbrev reported : WakerSlot → Call → ℕ
reported slot (yields env) =
    let (slot', r) = yield_asyncio_future env slot in reports_wake env slot' r
reported slot c = 0

unfoldable pub all_reported : WakerSlot → List Call → ℕ
unfolding step yield_asyncio_future
all_reported slot [] = 0
all_reported slot (c ∷ cs) = reported slot c + all_reported (step slot c).0 cs

abbrev pub is_wake : Call → ℕ
is_wake wakes = 1
is_wake _ = 0

abbrev pub count_wakes : List Call → ℕ
count_wakes [] = 0
count_wakes (c ∷ cs) = is_wake c + count_wakes cs

-- A wake while the waker waits for the next yield, whose answer it has settled.
abbrev is_merged : WakerSlot → Call → ℕ
is_merged woken wakes = 1
is_merged _ _ = 0

unfoldable pub all_merged : WakerSlot → List Call → ℕ
unfolding step
all_merged slot [] = 0
all_merged slot (c ∷ cs) = is_merged slot c + all_merged (step slot c).0 cs

abbrev pub is_woken : WakerSlot → ℕ
is_woken woken = 1
is_woken _ = 0

-- A pending wake that a reset forgets.
abbrev is_forgotten : WakerSlot → Call → ℕ
is_forgotten woken resets = 1
is_forgotten _ _ = 0

unfoldable pub all_forgotten : WakerSlot → List Call → ℕ
unfolding step
all_forgotten slot [] = 0
all_forgotten slot (c ∷ cs) = is_forgotten slot c + all_forgotten (step slot c).0 cs

IsIn-pushed : (f : Obj) (before later : List Obj) → IsIn f ((before ++ f ∷ []) ++ later)
IsIn-pushed f [] later = inl refl
IsIn-pushed f (g ∷ before) later = inr (IsIn-pushed f before later)

-- A wake of a parked coroutine reaches it: the future that the wake hands to the batcher has its
-- result set by the batcher's next drain, whatever was queued before or is pushed after it,
-- unless a call on that very future raises.
pub take_parked-drain :
    (p : Parked) (s : State) (later : List Obj) (calls : FutureCalls) (done : Done)
    → IsCallable calls p.future
    → let (slot, delivered_to) = take_parked (parked p) in
      let queued = (enqueue s p.future).0 in
      let (s', done', _) = drain calls (record queued { queue = queued.queue ++ later }) done in
      (slot ≡ idle) × (delivered_to ≡ some p) × (done' p.future ≡ true) × (s'.queue ≡ [])
unfolding take_parked enqueue
take_parked-drain p s later calls done c =
    let queued : State = record { queue = (s.queue ++ p.future ∷ []) ++ later; armed = true } in
    let (empty, unarmed, released, others) = drain_lem calls queued done in
    (refl, refl, released p.future (IsIn-pushed p.future s.queue later) c, empty)
