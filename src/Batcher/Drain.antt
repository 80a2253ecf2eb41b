-- ===== src/Batcher/Drain.antt =====
-- The drain: every queued future is released, whatever happens to the others.
use python_rs_driver.Common.{
  ◌≡◌, refl, ◌∙◌, ◌≢◌, true, false, ◌⊎◌, inl, inr, Option, none, List, [], ◌∷◌, arith,
}
use python_rs_driver.Common.Python.{Obj, PyErr}
use python_rs_driver.Batcher.{
  State, FutureCalls, Done, release_waiter, get_or_insert, release_all, drain,
}

abbrev pub IsIn : Obj → List Obj → Type 0
IsIn f [] = ⊥
IsIn f (g ∷ gs) = (f ≡ g) ⊎ IsIn f gs

-- A future whose calls do not raise.
pub record IsCallable (calls : FutureCalls) (f : Obj) : Type 0 where
  pub done_ok : calls.done_error f ≡ none
  pub set_ok : calls.set_error f ≡ none

release_waiter-done :
    (calls : FutureCalls) (done : Done) (f : Obj)
    → IsCallable calls f
    → (release_waiter calls done f).0 f ≡ true
unfolding release_waiter
release_waiter-done calls done f c = ground arith

-- A future that is done stays done.
release_waiter-keeps :
    (calls : FutureCalls) (done : Done) (f g : Obj)
    → done g ≡ true
    → (release_waiter calls done f).0 g ≡ true
unfolding release_waiter
release_waiter-keeps calls done f g h = ground arith

release_all-keeps :
    (calls : FutureCalls) (fs : List Obj) (done : Done) (first_err : Option PyErr) (g : Obj)
    → done g ≡ true
    → (release_all calls fs done first_err).0 g ≡ true
unfolding release_all
release_all-keeps calls [] done first_err g h = h
release_all-keeps calls (f ∷ fs) done first_err g h =
    release_all-keeps calls fs (release_waiter calls done f).0
      (get_or_insert first_err (release_waiter calls done f).1) g
      (release_waiter-keeps calls done f g h)

release_all-done :
    (calls : FutureCalls) (fs : List Obj) (done : Done) (first_err : Option PyErr) (g : Obj)
    → IsIn g fs
    → IsCallable calls g
    → (release_all calls fs done first_err).0 g ≡ true
unfolding release_all
release_all-done calls [] done first_err g m c = absurd m
release_all-done calls (f ∷ fs) done first_err g (inl e) c =
    release_all-keeps calls fs (release_waiter calls done f).0
      (get_or_insert first_err (release_waiter calls done f).1) g
      (rw e (release_waiter-done calls done f (rw e at c)))
release_all-done calls (f ∷ fs) done first_err g (inr m) c =
    release_all-done calls fs (release_waiter calls done f).0
      (get_or_insert first_err (release_waiter calls done f).1) g m c

release_waiter-other :
    (calls : FutureCalls) (done : Done) (f g : Obj)
    → g ≢ f
    → (release_waiter calls done f).0 g ≡ done g
unfolding release_waiter
release_waiter-other calls done f g h = ground arith

release_all-other :
    (calls : FutureCalls) (fs : List Obj) (done : Done) (first_err : Option PyErr) (g : Obj)
    → ¬ IsIn g fs
    → (release_all calls fs done first_err).0 g ≡ done g
unfolding release_all
release_all-other calls [] done first_err g h = refl
release_all-other calls (f ∷ fs) done first_err g h =
    release_all-other calls fs (release_waiter calls done f).0
      (get_or_insert first_err (release_waiter calls done f).1) g (λ m. h (inr m))
    ∙ release_waiter-other calls done f g (λ e. h (inl e))

-- A drain leaves the queue empty and the batcher unarmed. It sets the result of every queued
-- future whose own calls do not raise, also when calls on other futures raise, and touches no
-- future that was not queued.
pub drain_lem :
    (calls : FutureCalls) (s : State) (done : Done)
    → let (s', done', first_err) = drain calls s done in
      (s'.queue ≡ [])
      × (s'.armed ≡ false)
      × ((g : Obj) → IsIn g s.queue → IsCallable calls g → done' g ≡ true)
      × ((g : Obj) → ¬ IsIn g s.queue → done' g ≡ done g)
unfolding drain
drain_lem calls s done = (
  refl,
  refl,
  release_all-done calls s.queue done none,
  release_all-other calls s.queue done none,
)
