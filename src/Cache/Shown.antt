-- ===== src/Cache/Shown.antt =====
-- src/cache.rs: the mapping that a frozen cache shows.
use python_rs_driver.Common.{
  ℕ, Bool, true, false, Option, none, some, List, [], ◌∷◌, ◌++◌, ◌==◌, ◌≡◌, refl, ◌∙◌, inl, inr,
  Bool-cases, arith, if◌then◌else◌,
}
use python_rs_driver.Common.Python.{Obj, PyErr, PyResult, ok, err}
use python_rs_driver.Cache.{
  Entries, CacheState, active, frozen, lookup, write_section, keep_or_insert, or_insert, extend,
  set_item, KeyErrors, unless_raised, fill_dict, freeze_filled, freeze_section,
}
use python_rs_driver.Cache.History.{Event, inserts, freezes, step, run}

-- A map has one entry for a key.
abbrev pub IsUnique : Entries → Type 0
IsUnique [] = Unit {0}
IsUnique ((k, v) ∷ m) = (lookup m k ≡ none) × IsUnique m

-- The mapping shown has, for each key, the value that the cache holds.
abbrev pub IsShown : CacheState → Type 0
IsShown (active m) = IsUnique m
IsShown (frozen m view) = IsUnique m × ((key : ℕ) → lookup view key ≡ lookup m key)

eq_of_test : (a b : ℕ) → (a == b) ≡ true → a ≡ b
eq_of_test a b e = ground arith

test_sym : (a b : ℕ) → (a == b) ≡ false → (b == a) ≡ false
test_sym a b e = ground arith

none-some : (x : Obj) → some x ≡ none → ⊥
none-some x h = cc

lookup-appended :
    (m : Entries) (k : ℕ) (v : Obj) (key : ℕ)
    → lookup m key ≡ none
    → (k == key) ≡ false
    → lookup (m ++ (k, v) ∷ []) key ≡ none
unfolding lookup
lookup-appended [] k v key h e = rw e refl
lookup-appended ((k', x) ∷ m) k v key h e = elim (Bool-cases (k' == key)) [
  | inl e' ↦ absurd (none-some x (rw e' at h))
  | inr e' ↦ rw e' (lookup-appended m k v key (rw e' at h) e)
]

-- A key that the map does not have is not that of its first entry, and the rest does not have it.
other-key :
    (k : ℕ) (x : Obj) (m : Entries) (key : ℕ)
    → lookup ((k, x) ∷ m) key ≡ none
    → ((k == key) ≡ false) × (lookup m key ≡ none)
unfolding lookup
other-key k x m key h = elim (Bool-cases (k == key)) [
  | inl e ↦ absurd (none-some x (rw e at h))
  | inr e ↦ (e, rw e at h)
]

append-IsUnique :
    (m : Entries) (k : ℕ) (v : Obj) → IsUnique m → lookup m k ≡ none → IsUnique (m ++ (k, v) ∷ [])
unfolding lookup
append-IsUnique [] k v u h = (refl, tt)
append-IsUnique ((k', x) ∷ m) k v (fresh, u) h =
    let (e, h') = other-key k' x m k h in
    (lookup-appended m k v k' fresh (test_sym k' k e), append-IsUnique m k v u h')

or_insert-IsUnique :
    (m : Entries) (k : ℕ) (v : Obj) (r : Option Obj)
    → lookup m k ≡ r
    → IsUnique m
    → IsUnique (or_insert m k v r)
or_insert-IsUnique m k v (some x) e u = u
or_insert-IsUnique m k v none e u = append-IsUnique m k v u e

extend-IsUnique : (m es : Entries) → IsUnique m → IsUnique (extend m es)
unfolding extend
extend-IsUnique m [] u = u
extend-IsUnique m ((k, v) ∷ es) u =
    extend-IsUnique (or_insert m k v (lookup m k)) es (or_insert-IsUnique m k v (lookup m k) refl u)

abbrev or_else : Option Obj → Option Obj → Option Obj
or_else none y = y
or_else (some x) y = some x

-- `k'` is not `k` and it is `key`, so `k` is not `key`.
test_at : (k' k key : ℕ) → (k' == k) ≡ false → (k' == key) ≡ true → (k == key) ≡ false
test_at k' k key e e' = ground arith

same_test : (k' k key : ℕ) → (k' == k) ≡ true → (k' == key) ≡ (k == key)
same_test k' k key e = ground arith

if_twice :
    (b : Bool) (x : Option Obj) (y z : Option Obj)
    → (if b then x else y) ≡ (if b then x else (if b then z else y))
if_twice true x y z = refl
if_twice false x y z = refl

lookup-set_item :
    (dict : Entries) (k : ℕ) (v : Obj) (key : ℕ)
    → lookup (set_item dict k v) key ≡ (if k == key then some v else lookup dict key)
unfolding lookup set_item
lookup-set_item [] k v key = refl
lookup-set_item ((k', x) ∷ dict) k v key = elim (Bool-cases (k' == k)) [
  | inl e ↦
      rw e (rw (same_test k' k key e) (if_twice (k == key) (some v) (lookup dict key) (some x)))
  | inr e ↦ rw e (elim (Bool-cases (k' == key)) [
    | inl e' ↦ rw e' (rw (test_at k' k key e e') refl)
    | inr e' ↦ rw e' (lookup-set_item dict k v key)
  ])
]

-- The first entry of a map, or what was there before.
first_or :
    (k : ℕ) (v : Obj) (m : Entries) (key : ℕ) (before : Option Obj)
    → lookup m k ≡ none
    → or_else (lookup m key) (if k == key then some v else before)
      ≡ or_else (if k == key then some v else lookup m key) before
first_or k v m key before h = elim (Bool-cases (k == key)) [
  | inl e ↦ rw e (rw (← eq_of_test k key e) (rw h refl))
  | inr e ↦ rw e refl
]

unless_raised-ok :
    (r : Option PyErr) (filled : PyResult Entries) (view : Entries)
    → unless_raised r filled ≡ ok view
    → filled ≡ ok view
unless_raised-ok none filled view h = h
unless_raised-ok (some e) filled view h = absurd cc

ok_inj : (a b : Entries) → PyResult.ok a ≡ ok b → a ≡ b
ok_inj a b h = cc

-- Filling a dict from a map with one entry for each key: the dict has the map's values, and
-- what it had before for other keys.
fill_dict-lookup :
    (raised : KeyErrors) (dict m view : Entries)
    → IsUnique m
    → fill_dict raised dict m ≡ ok view
    → (key : ℕ) → lookup view key ≡ or_else (lookup m key) (lookup dict key)
unfolding fill_dict lookup
fill_dict-lookup raised dict [] view u h key = rw (ok_inj dict view h) refl
fill_dict-lookup raised dict ((k, v) ∷ m) view (fresh, u) h key =
    fill_dict-lookup raised (set_item dict k v) m view u (unless_raised-ok (raised k) _ view h) key
    ∙ (rw (lookup-set_item dict k v key) (first_or k v m key (lookup dict key) fresh))

or_else-none : (r : Option Obj) → or_else r none ≡ r
or_else-none none = refl
or_else-none (some x) = refl

freeze_filled-IsShown :
    (raised : KeyErrors) (m n : Entries) (filled : PyResult Entries)
    → fill_dict raised [] n ≡ filled
    → IsUnique m
    → IsUnique n
    → IsShown (freeze_filled m n filled).0
unfolding lookup
freeze_filled-IsShown raised m n (err e) h u u' = u
freeze_filled-IsShown raised m n (ok view) h u u' =
    (u', λ key. fill_dict-lookup raised [] n view u' h key ∙ or_else-none (lookup n key))

pub freeze-IsShown :
    (s : CacheState) (es : Entries) (raised : KeyErrors)
    → IsShown s
    → IsShown (freeze_section s es raised).0
unfolding freeze_section
freeze-IsShown (active m) es raised u =
    freeze_filled-IsShown raised m (extend m es) (fill_dict raised [] (extend m es)) refl u
      (extend-IsUnique m es u)
freeze-IsShown (frozen m view) es raised h = h

keep_or_insert-IsShown :
    (m : Entries) (key : ℕ) (v : Obj) (r : Option Obj)
    → lookup m key ≡ r
    → IsUnique m
    → IsShown (keep_or_insert m key v r).0
keep_or_insert-IsShown m key v (some x) e u = u
keep_or_insert-IsShown m key v none e u = append-IsUnique m key v u e

step-IsShown : (s : CacheState) (e : Event) → IsShown s → IsShown (step s e).0
unfolding step write_section
step-IsShown (active m) (inserts key v) u = keep_or_insert-IsShown m key v (lookup m key) refl u
step-IsShown (frozen m view) (inserts key v) h = h
step-IsShown s (freezes es raised) h = freeze-IsShown s es raised h

-- Through any interleaving of the writes from a map with one entry for each key, the map keeps one
-- entry for each key, and the dict that `set_item` filled when the cache froze has for every key
-- just the value that the cache holds.
pub run-IsShown : (s : CacheState) (es : List Event) → IsShown s → IsShown (run s es).0
unfolding run
run-IsShown s [] h = h
run-IsShown s (e ∷ es) h = run-IsShown (step s e).0 es (step-IsShown s e h)
