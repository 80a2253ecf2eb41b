-- ===== src/Values/Elements.antt =====
-- Lemmas on the elements of a Python value and on the tests that guard them.
use python_rs_driver.Common.{ℕ, ◌<◌, true, false, ◌≡◌, refl, arith, ltb, ◌==◌}
use python_rs_driver.Values.{
  PyValue, py_none, cql_empty, py_bool, py_int, py_object, py_str, py_list, py_set, py_tuple,
  py_dict, Items, no_items, item, Pairs, no_pairs, pair,
}
use python_rs_driver.Values.Serialize.{or_null}
use python_rs_driver.Values.Typing.{is_none, AllItems, AllPairsOf}
use python_rs_driver.Values.Loops.{Write}

pub AllItems-map :
    (P Q : PyValue → Type 0)
    → ((v : PyValue) → P v → Q v)
    → (vs : Items) → AllItems P vs
    → AllItems Q vs
AllItems-map P Q f no_items h = tt
AllItems-map P Q f (item v vs) (h, hs) = (f v h, AllItems-map P Q f vs hs)

pub AllPairsOf-map :
    (P P' Q Q' : PyValue → Type 0)
    → ((v : PyValue) → P v → P' v)
    → ((v : PyValue) → Q v → Q' v)
    → (ps : Pairs) → AllPairsOf P Q ps
    → AllPairsOf P' Q' ps
AllPairsOf-map P P' Q Q' f g no_pairs h = tt
AllPairsOf-map P P' Q Q' f g (pair k v ps) (h, i, hs) =
    (f k h, g v i, AllPairsOf-map P P' Q Q' f g ps hs)

pub or_null-some : (write : Write) (v : PyValue) → is_none v ≡ false → or_null write v ≡ write v
or_null-some write py_none h = cc
or_null-some write cql_empty h = refl
or_null-some write (py_bool b) h = refl
or_null-some write (py_int n) h = refl
or_null-some write (py_str s) h = refl
or_null-some write (py_object class x) h = refl
or_null-some write (py_list vs) h = refl
or_null-some write (py_set vs) h = refl
or_null-some write (py_tuple vs) h = refl
or_null-some write (py_dict ps) h = refl

pub ltb-true : (m n : ℕ) → m < n → ltb m n ≡ true
ltb-true m n h = ground arith

pub ==-same : (n : ℕ) → (n == n) ≡ true
==-same n = ground arith
