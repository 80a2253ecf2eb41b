-- ===== src/Cache/History.antt =====
-- Sections of any threads on one cache.
use python_rs_driver.Common.{
  ℕ, Option, none, some, List, [], ◌∷◌, ◌++◌, ◌==◌, ◌≡◌, refl, inl, inr, Bool-cases, arith,
}
use python_rs_driver.Common.Python.{Obj, PyResult, ok, err}
use python_rs_driver.Cache.{
  Entries, CacheState, active, frozen, lookup, write_section, keep_or_insert, or_insert, extend,
  freeze_section, fill_dict, freeze_filled, KeyErrors,
}

-- The value of a key that the cache holds.
abbrev pub held : CacheState → ℕ → Option Obj
held (active m) key = lookup m key
held (frozen m view) key = lookup m key

-- The sections that change the cache: at the end of `get_or_init` and of
-- `get_or_init_python_mapping`.
pub data Event : Type 0 where
  inserts : (key : ℕ) → Obj → Event
  freezes : Entries → KeyErrors → Event

-- The value for the key that the event returns to its caller, if it does.
abbrev pub Answers : Type 0
Answers = List (ℕ × Option Obj)

unfoldable pub step : CacheState → Event → CacheState × Answers
step s (inserts key v) = let (s', answer) = write_section s key v in (s', (key, answer) ∷ [])
step s (freezes entries raised) = ((freeze_section s entries raised).0, [])

unfoldable pub run : CacheState → List Event → CacheState × Answers
unfolding step
run s [] = (s, [])
run s (e ∷ es) = let (s1, xs) = step s e in let (s2, ys) = run s1 es in (s2, xs ++ ys)

-- Every value that was returned for a key is the one in the cache.
abbrev pub AllHeld : CacheState → Answers → Type 0
AllHeld s [] = Unit {0}
AllHeld s ((k, none) ∷ xs) = AllHeld s xs
AllHeld s ((k, some v) ∷ xs) = (held s k ≡ some v) × AllHeld s xs

lookup-append :
    (m : Entries) (n : Entries) (key : ℕ) (v : Obj)
    → lookup m key ≡ some v
    → lookup (m ++ n) key ≡ some v
unfolding lookup
lookup-append [] n key v h = cc
lookup-append ((k, x) ∷ m) n key v h = elim (Bool-cases (k == key)) [
  | inl e ↦ ground arith
  | inr e ↦ rw e (lookup-append m n key v (rw e at h))
]

insert-keeps :
    (m : Entries) (k : ℕ) (v : Obj) (r : Option Obj) (key : ℕ) (x : Obj)
    → lookup m key ≡ some x
    → lookup (or_insert m k v r) key ≡ some x
insert-keeps m k v (some y) key x h = h
insert-keeps m k v none key x h = lookup-append m _ key x h

extend-keeps :
    (m es : Entries) (key : ℕ) (x : Obj) → lookup m key ≡ some x → lookup (extend m es) key ≡ some x
unfolding extend
extend-keeps m [] key x h = h
extend-keeps m ((k, v) ∷ es) key x h =
    extend-keeps (or_insert m k v (lookup m k)) es key x (insert-keeps m k v (lookup m k) key x h)

-- A transition keeps the value of each key that has one.
abbrev pub Keeps : CacheState → CacheState → Type 0
Keeps s s' = (key : ℕ) (x : Obj) → held s key ≡ some x → held s' key ≡ some x

lookup-inserted :
    (m : Entries) (key : ℕ) (v : Obj)
    → lookup m key ≡ none
    → lookup (m ++ (key, v) ∷ []) key ≡ some v
unfolding lookup
lookup-inserted [] key v h = ground arith
lookup-inserted ((k, x) ∷ m) key v h = elim (Bool-cases (k == key)) [
  | inl e ↦ ground arith
  | inr e ↦ rw e (lookup-inserted m key v (rw e at h))
]

keep_or_insert-Keeps :
    (m : Entries) (key : ℕ) (v : Obj) (r : Option Obj)
    → lookup m key ≡ r
    → Keeps (active m) (keep_or_insert m key v r).0
      × AllHeld (keep_or_insert m key v r).0 ((key, (keep_or_insert m key v r).1) ∷ [])
keep_or_insert-Keeps m key v (some y) e = (λ k x h. h, (e, tt))
keep_or_insert-Keeps m key v none e =
    (λ k x h. lookup-append m _ k x h, (lookup-inserted m key v e, tt))

frozen-AllHeld :
    (m view : Entries) (key : ℕ) (r : Option Obj)
    → lookup m key ≡ r
    → AllHeld (frozen m view) ((key, r) ∷ [])
frozen-AllHeld m view key none e = tt
frozen-AllHeld m view key (some v) e = (e, tt)

filled-Keeps :
    (m es : Entries) (filled : PyResult Entries)
    → Keeps (active m) (freeze_filled m (extend m es) filled).0
filled-Keeps m es (err e) = λ k x h. h
filled-Keeps m es (ok view) = λ k x h. extend-keeps m es k x h

pub freeze-Keeps :
    (s : CacheState) (es : Entries) (raised : KeyErrors) → Keeps s (freeze_section s es raised).0
unfolding freeze_section
freeze-Keeps (active m) es raised = filled-Keeps m es (fill_dict raised [] (extend m es))
freeze-Keeps (frozen m view) es raised = λ k x h. h

step-Keeps :
    (s : CacheState) (e : Event) → let (s', answers) = step s e in Keeps s s' × AllHeld s' answers
unfolding step write_section
step-Keeps (active m) (inserts key v) = keep_or_insert-Keeps m key v (lookup m key) refl
step-Keeps (frozen m view) (inserts key v) =
    (λ k x h. h, frozen-AllHeld m view key (lookup m key) refl)
step-Keeps s (freezes es raised) = (freeze-Keeps s es raised, tt)

AllHeld-Keeps : (s s' : CacheState) (xs : Answers) → Keeps s s' → AllHeld s xs → AllHeld s' xs
AllHeld-Keeps s s' [] k h = tt
AllHeld-Keeps s s' ((key, none) ∷ xs) k h = AllHeld-Keeps s s' xs k h
AllHeld-Keeps s s' ((key, some v) ∷ xs) k h = (k key v h.0, AllHeld-Keeps s s' xs k h.1)

AllHeld-append :
    (s : CacheState) (xs ys : Answers) → AllHeld s xs → AllHeld s ys → AllHeld s (xs ++ ys)
AllHeld-append s [] ys h i = i
AllHeld-append s ((key, none) ∷ xs) ys h i = AllHeld-append s xs ys h i
AllHeld-append s ((key, some v) ∷ xs) ys h i = (h.0, AllHeld-append s xs ys h.1 i)

-- Through any interleaving of the writes of any threads, a key keeps the first value it gets, and
-- every value that was returned for a key is the one that the cache holds in the end.
pub run-Keeps :
    (s : CacheState) (es : List Event)
    → let (s', answers) = run s es in
      ((key : ℕ) (x : Obj) → held s key ≡ some x → held s' key ≡ some x) × AllHeld s' answers
unfolding run
run-Keeps s [] = (λ k x h. h, tt)
run-Keeps s (e ∷ es) =
    let (kept, now) = step-Keeps s e in
    let (kept', later) = run-Keeps (step s e).0 es in
    (
      λ k x h. kept' k x (kept k x h),
      AllHeld-append (run (step s e).0 es).0 (step s e).1 (run (step s e).0 es).1
          (AllHeld-Keeps (step s e).0 (run (step s e).0 es).0 (step s e).1 kept' now) later,
    )
