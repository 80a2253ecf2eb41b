-- ===== src/Cache/Tests.antt =====
-- Runs of a cache, and the theorems about them.
use python_rs_driver.Common.{ℕ, none, some, List, [], ◌∷◌, ◌≡◌, refl, map}
use python_rs_driver.Common.Python.{Obj, ok, err, dropped_err}
use python_rs_driver.Cache.{
  Entries, active, frozen, new, lookup, write_section, extend, set_item, KeyErrors, fill_dict,
  freeze_section, collect, get_or_init_python_mapping,
}
use python_rs_driver.Cache.History.{Event, inserts, freezes, run, held, AllHeld, run-Keeps}
use python_rs_driver.Cache.Settled.{Call, gets, maps, calls, answer_of, mapping-Settled}
use python_rs_driver.Cache.Shown.{IsUnique, IsShown, run-IsShown}

abbrev no_errors : KeyErrors
no_errors = λ k. none

-- Two threads resolve key 1; then the mapping is made, from entries that include it.
abbrev two_writers : List Event
two_writers =
    inserts 1 10
    ∷ inserts 1 11
    ∷ freezes ((1, 12) ∷ (2, 20) ∷ []) no_errors
    ∷ inserts 3 30
    ∷ inserts 2 21
    ∷ []

two_writers-run : run new two_writers ≡ (
  frozen ((1, 10) ∷ (2, 20) ∷ []) ((1, 10) ∷ (2, 20) ∷ []),
  (1, some 10) ∷ (1, some 10) ∷ (3, none) ∷ (2, some 20) ∷ [],
)
unfolding run new write_section extend freeze_section fill_dict set_item lookup
two_writers-run = refl

run-Keeps_example :
    let (s', answers) = run (active ((1, 10) ∷ [])) two_writers in
    ((key : ℕ) (x : Obj) → held (active ((1, 10) ∷ [])) key ≡ some x → held s' key ≡ some x)
    × AllHeld s' answers
run-Keeps_example = run-Keeps (active ((1, 10) ∷ [])) two_writers

run-IsShown_example : IsShown (run (active []) two_writers).0
run-IsShown_example = run-IsShown (active []) two_writers tt

-- Key 2 is resolved by another thread while the mapping is made.
abbrev shown : Entries
shown = (1, 10) ∷ (2, 21) ∷ (3, 32) ∷ []

made-shown :
    get_or_init_python_mapping
      (active ((1, 10) ∷ []))
      (run (active ((1, 10) ∷ [])) (inserts 2 21 ∷ [])).0
      ((2, ok 22) ∷ (3, ok 32) ∷ [])
      no_errors
    ≡ (frozen shown shown, ok shown)
unfolding get_or_init_python_mapping run write_section extend freeze_section fill_dict set_item
    lookup collect
made-shown = refl

abbrev later_calls : List Call
later_calls =
    gets [] 3 (ok (some 33))
    ∷ maps (inserts 4 40 ∷ []) [] no_errors
    ∷ gets [] 4 (err dropped_err)
    ∷ []

one-IsUnique : IsUnique ((1, 10) ∷ [])
unfolding lookup
one-IsUnique = (refl, tt)

mapping-Settled_example :
    (calls (frozen shown shown) later_calls
      ≡ (frozen shown shown, map (answer_of shown) later_calls))
    × ((key : ℕ) (x : Obj) → held (active ((1, 10) ∷ [])) key ≡ some x → lookup shown key ≡ some x)
mapping-Settled_example =
    mapping-Settled (active ((1, 10) ∷ [])) (inserts 2 21 ∷ []) ((2, ok 22) ∷ (3, ok 32) ∷ [])
      no_errors (frozen shown shown) shown later_calls one-IsUnique made-shown
