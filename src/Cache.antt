-- ===== src/Cache.antt =====
-- src/cache.rs: a cache of Python objects that is filled on demand until it is shown as a mapping.
-- `Cache.History` follows the sections of several threads, `Cache.Shown` the mapping
-- that it shows, and `Cache.Settled` whole calls.
pub mod History
pub mod Settled
pub mod Shown
pub mod Tests
use python_rs_driver.Common.{
  ℕ, Bool, true, false, Option, none, some, List, [], ◌∷◌, ◌++◌, ◌==◌, if◌then◌else◌,
}
use python_rs_driver.Common.Python.{Obj, PyErr, PyResult, ok, err, ◌>>=◌}

-- `HashMap<K, Py<V>>`, in the order of insertion.
abbrev pub Entries : Type 0
Entries = List (ℕ × Obj)

-- `view` is the dict behind the mapping proxy.
pub data CacheState : Type 0 where
  active : (map : Entries) → CacheState
  frozen : (map : Entries) → (view : Entries) → CacheState

unfoldable pub new : CacheState
new = active []

unfoldable pub lookup : Entries → ℕ → Option Obj
lookup [] key = none
lookup ((k, v) ∷ m) key = if k == key then some v else lookup m key

-- What the section under the read lock answers, `none` if the value is to be resolved.
abbrev pub found_active : Option Obj → Option (Option Obj)
found_active (some v) = some (some v)
found_active none = none

unfoldable pub read_section : CacheState → ℕ → Option (Option Obj)
unfolding lookup
read_section (active m) key = found_active (lookup m key)
read_section (frozen m view) key = some (lookup m key)

abbrev pub keep_or_insert : Entries → ℕ → Obj → Option Obj → CacheState × Option Obj
keep_or_insert m key resolved (some existing) = (active m, some existing)
keep_or_insert m key resolved none = (active (m ++ (key, resolved) ∷ []), some resolved)

unfoldable pub write_section : CacheState → ℕ → Obj → CacheState × Option Obj
write_section (active m) key resolved = keep_or_insert m key resolved (lookup m key)
write_section (frozen m view) key resolved = (frozen m view, lookup m key)

-- `get_or_init`: `resolved` is what `f` answers, and `later` the state that it and other threads
-- leave before the write lock is taken.
abbrev pub resolve_into :
    CacheState → ℕ → PyResult (Option Obj) → CacheState × PyResult (Option Obj)
unfolding write_section
resolve_into later key (err e) = (later, err e)
resolve_into later key (ok none) = (later, ok none)
resolve_into later key (ok (some v)) = let (s, answer) = write_section later key v in (s, ok answer)

abbrev pub get_or_resolve :
    CacheState
    → CacheState
    → ℕ
    → PyResult (Option Obj)
    → Option (Option Obj)
    → CacheState × PyResult (Option Obj)
unfolding resolve_into
get_or_resolve seen later key resolved (some answer) = (seen, ok answer)
get_or_resolve seen later key resolved none = resolve_into later key resolved

unfoldable pub get_or_init :
    CacheState → CacheState → ℕ → PyResult (Option Obj) → CacheState × PyResult (Option Obj)
unfolding get_or_resolve
get_or_init seen later key resolved = get_or_resolve seen later key resolved (read_section seen key)

-- `entry(k).or_insert_with(..)`.
abbrev pub or_insert : Entries → ℕ → Obj → Option Obj → Entries
or_insert m key v (some existing) = m
or_insert m key v none = m ++ (key, v) ∷ []

unfoldable pub extend : Entries → Entries → Entries
extend m [] = m
extend m ((k, v) ∷ entries) = extend (or_insert m k v (lookup m k)) entries

-- The entries that `f` makes: the first error ends the collection.
unfoldable pub collect : List (ℕ × PyResult Obj) → PyResult Entries
collect [] = ok []
collect ((k, r) ∷ rs) =
    let rest = collect rs in r >>= λ v. rest >>= λ entries. ok ((k, v) ∷ entries)

-- `dict.set_item`: the value of a key that the dict has is replaced.
unfoldable pub set_item : Entries → ℕ → Obj → Entries
set_item [] key v = (key, v) ∷ []
set_item ((k, x) ∷ dict) key v =
    let rest = set_item dict key v in if k == key then (k, v) ∷ dict else (k, x) ∷ rest

-- What hashing a key of the mapping, or making a Python object of it, raises.
abbrev pub KeyErrors : Type 0
KeyErrors = ℕ → Option PyErr

-- The loop that fills the dict: the first key that raises ends it.
abbrev pub unless_raised : Option PyErr → PyResult Entries → PyResult Entries
unless_raised none filled = filled
unless_raised (some e) filled = err e

unfoldable pub fill_dict : KeyErrors → Entries → Entries → PyResult Entries
unfolding set_item
fill_dict raised dict [] = ok dict
fill_dict raised dict ((k, v) ∷ m) =
    unless_raised (raised k) (fill_dict raised (set_item dict k v) m)

-- The section under the write lock, once the entries are added to a copy of the map.
abbrev pub freeze_filled : Entries → Entries → PyResult Entries → CacheState × PyResult Entries
freeze_filled m frozen_map (err e) = (active m, err e)
freeze_filled m frozen_map (ok view) = (frozen frozen_map view, ok view)

unfoldable pub freeze_section : CacheState → Entries → KeyErrors → CacheState × PyResult Entries
unfolding extend fill_dict
freeze_section (frozen m view) entries raised = (frozen m view, ok view)
freeze_section (active m) entries raised =
    let frozen_map = extend m entries in freeze_filled m frozen_map (fill_dict raised [] frozen_map)

abbrev pub freeze_collected :
    CacheState → PyResult Entries → KeyErrors → CacheState × PyResult Entries
freeze_collected later (err e) raised = (later, err e)
freeze_collected later (ok entries) raised = freeze_section later entries raised

-- `get_or_init_python_mapping`, with `later` as above.
unfoldable pub get_or_init_python_mapping :
    CacheState → CacheState → List (ℕ × PyResult Obj) → KeyErrors → CacheState × PyResult Entries
unfolding freeze_section collect
get_or_init_python_mapping (frozen m view) later made raised = (frozen m view, ok view)
get_or_init_python_mapping (active m) later made raised =
    freeze_collected later (collect made) raised
