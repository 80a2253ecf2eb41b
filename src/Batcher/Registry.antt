-- ===== src/Batcher/Registry.antt =====
-- `BATCHERS` and its users: `batcher_for`, `evict_fn` and the `drain` function that the loop calls.
use python_rs_driver.Common.{
  ℕ, ◌≡◌, ◌≢◌, refl, true, inl, inr, Option, none, some, List, [], ◌∷◌, ◌==◌, if◌then◌else◌, arith,
  Option-cases,
}
use python_rs_driver.Common.Python.{PyErr, PyResult, ok, err, type_error}

-- The batcher registered for each loop key.
abbrev pub Registry : Type 0
Registry = ℕ → Option ℕ

abbrev pub put : Registry → ℕ → ℕ → Registry
put m key b = λ k. if k == key then some b else m k

-- The section that inserts: an entry that another thread made meanwhile wins.
unfoldable pub insert_entry : Option ℕ → Registry → ℕ → ℕ → Registry × ℕ
insert_entry (some b') m key b = (m, b')
insert_entry none m key b = (put m key b, b)

unfoldable pub insert_or_get : Registry → ℕ → ℕ → Registry × ℕ
unfolding insert_entry
insert_or_get m key b = insert_entry (m key) m key b

-- The weak reference's callback: the loop is being deallocated.
unfoldable pub evict : Registry → ℕ → Registry
evict m key = λ k. if k == key then none else m k

-- `batcher_for` ends with a batcher, an error, or a panic on a loop that cannot be referenced weakly.
pub data BatcherFor : Type 0 where
  batcher : ℕ → BatcherFor
  failed : PyErr → BatcherFor
  panics : BatcherFor

-- What building an entry meets: the weak reference's error, and that of `Batcher::new` or the new
-- batcher.
pub record Building : Type 0 where
  pub weak_error : Option PyErr
  pub new_batcher : PyResult ℕ

abbrev pub weak_failed : PyErr → BatcherFor
weak_failed type_error = panics
weak_failed e = failed e

abbrev pub inserted : Registry × ℕ → Registry × BatcherFor
inserted r = (r.0, batcher r.1)

abbrev pub register_with : Option PyErr → PyResult ℕ → Registry → ℕ → Registry × BatcherFor
register_with (some e) new_batcher m key = (m, weak_failed e)
register_with none (err e) m key = (m, failed e)
register_with none (ok b) m key = inserted (insert_or_get m key b)

abbrev pub register_new : Registry → ℕ → Building → Registry × BatcherFor
register_new m key building = register_with building.weak_error building.new_batcher m key

-- `seen` is the registry at the lookup, `m` the one that other threads have left when the entry is
-- inserted.
unfoldable pub found_or_new : Option ℕ → Registry → ℕ → Building → Registry × BatcherFor
found_or_new (some b) m key building = (m, batcher b)
found_or_new none m key building = register_new m key building

unfoldable pub batcher_for : Registry → Registry → ℕ → Building → Registry × BatcherFor
unfolding found_or_new
batcher_for seen m key building = found_or_new (seen key) m key building

==-refl : (k : ℕ) → (k == k) ≡ true
==-refl k = ground arith

insert_or_get-twice :
    (m : Registry) (key b b' : ℕ)
    → let (m1, c) = insert_or_get m key b in
      (m1 key ≡ some c) × (insert_or_get m1 key b' ≡ (m1, c)) × ((k : ℕ) → k ≢ key → m1 k ≡ m k)
unfolding insert_or_get
insert_or_get-twice m key b b' = elim (Option-cases (m key)) [
  | inl e ↦ rw e (rw (==-refl key) (refl, refl, λ k h. ground arith))
  | inr (c, e) ↦ rw e (e, rw e refl, λ k h. refl)
]

batcher_for-missed :
    (seen m : Registry) (key b : ℕ)
    → seen key ≡ none
    → batcher_for seen m key (record { weak_error = none; new_batcher = ok b })
      ≡ inserted (insert_or_get m key b)
unfolding batcher_for
batcher_for-missed seen m key b missed = rw missed refl

-- Two threads that both miss a loop and then register it end with one batcher, the one that the
-- registry holds, whichever inserts first; other loops keep theirs.
pub batcher_for-race :
    (seen m : Registry) (key b b' : ℕ)
    → seen key ≡ none
    → let (m1, r) = batcher_for seen m key (record { weak_error = none; new_batcher = ok b }) in
      let (m2, r') = batcher_for seen m1 key (record { weak_error = none; new_batcher = ok b' }) in
      (r' ≡ r) × ((c : ℕ) × (r ≡ batcher c) × (m2 key ≡ some c)) × ((k : ℕ) → k ≢ key → m2 k ≡ m k)
batcher_for-race seen m key b b' missed =
    let (held, again, others) = insert_or_get-twice m key b b' in
    rw (batcher_for-missed seen m key b missed) (
      rw (batcher_for-missed seen (insert_or_get m key b).0 key b' missed)
        (rw again (refl, ((insert_or_get m key b).1, refl, held), others)))

-- Calls of any threads for any loops.
pub data Call : Type 0 where
  asks : Registry → ℕ → Building → Call
  evicts : ℕ → Call

unfoldable pub step : Registry → Call → Registry
step m (asks seen key building) = (batcher_for seen m key building).0
step m (evicts key) = evict m key

abbrev pub Spares : ℕ → List Call → Type 0
Spares key [] = Unit {0}
Spares key (asks seen k building ∷ cs) = Spares key cs
Spares key (evicts k ∷ cs) = (k ≢ key) × Spares key cs

unfoldable pub run : Registry → List Call → Registry
unfolding step
run m [] = m
run m (c ∷ cs) = run (step m c) cs

insert_or_get-keeps :
    (m : Registry) (k b key c : ℕ) → m key ≡ some c → (insert_or_get m k b).0 key ≡ some c
unfolding insert_or_get
insert_or_get-keeps m k b key c h = elim (Option-cases (m k)) [
  | inl e ↦ rw e (ground arith)
  | inr (d, e) ↦ rw e h
]

register_with-keeps :
    (weak : Option PyErr) (new_batcher : PyResult ℕ) (m : Registry) (k key c : ℕ)
    → m key ≡ some c
    → (register_with weak new_batcher m k).0 key ≡ some c
register_with-keeps (some e) new_batcher m k key c h = h
register_with-keeps none (err e) m k key c h = h
register_with-keeps none (ok b) m k key c h = insert_or_get-keeps m k b key c h

found_or_new-keeps :
    (seen : Option ℕ) (m : Registry) (k : ℕ) (building : Building) (key c : ℕ)
    → m key ≡ some c
    → (found_or_new seen m k building).0 key ≡ some c
unfolding found_or_new
found_or_new-keeps (some b) m k building key c h = h
found_or_new-keeps none m k building key c h =
    register_with-keeps building.weak_error building.new_batcher m k key c h

step-keeps :
    (m : Registry) (call : Call) (key c : ℕ)
    → Spares key (call ∷ [])
    → m key ≡ some c
    → step m call key ≡ some c
unfolding step batcher_for evict
step-keeps m (asks seen k building) key c sp h = found_or_new-keeps (seen k) m k building key c h
step-keeps m (evicts k) key c sp h = ground arith

-- Once registered, a loop keeps its batcher through any calls for any loops, until that loop
-- itself is deallocated.
pub run-keeps :
    (m : Registry) (cs : List Call) (key c : ℕ)
    → Spares key cs
    → m key ≡ some c
    → run m cs key ≡ some c
unfolding run
run-keeps m [] key c sp h = h
run-keeps m (asks seen k building ∷ cs) key c sp h =
    run-keeps (step m (asks seen k building)) cs key c sp
      (step-keeps m (asks seen k building) key c tt h)
run-keeps m (evicts k ∷ cs) key c sp h =
    run-keeps (step m (evicts k)) cs key c sp.1 (step-keeps m (evicts k) key c (sp.0, tt) h)
