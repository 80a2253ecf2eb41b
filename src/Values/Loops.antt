-- ===== src/Values/Loops.antt =====
-- The loops over the items of a container, on the two sides.
use python_rs_driver.Common.{ℕ, suc, ◌+◌, List, [], ◌∷◌, ◌≡◌, refl, ap, sym, ◌∙◌, map, length}
use python_rs_driver.Values.{
  PyValue, Items, no_items, item, Pairs, no_pairs, pair, Cell, count, count_pairs,
}
use python_rs_driver.Values.Scalars.{Result, SerError, map_err, key_failed, value_failed}
use python_rs_driver.Values.Scalars
use python_rs_driver.Values.Serialize.{elements, entries}
use python_rs_driver.Values.Deserialize.{
  Decoded, DeError, in_map_index, ok, err, context, ◌>>=◌, fill, fill_dict, append, list_append,
}
use python_rs_driver.Values.Typing.{subs, pair_subs, add_all, add_pairs, AllItems, AllPairsOf}

abbrev pub Write : Type 0
Write = PyValue → Result Cell

abbrev pub Read : Type 0
Read = Cell → Decoded PyValue

-- A value is written as a cell that is read as the value.
abbrev pub Returns : Write → Read → PyValue → Type 0
Returns write read v = (c : Cell) × (write v ≡ Scalars.ok c) × (read c ≡ ok v)

abbrev pub ReadBack : Read → List Cell → Items → Type 0
ReadBack read [] no_items = Unit {0}
ReadBack read (c ∷ cs) (item v vs) = (read c ≡ ok v) × ReadBack read cs vs
ReadBack read _ _ = ⊥

abbrev pub ReadBackPairs : Read → Read → List (Cell × Cell) → Pairs → Type 0
ReadBackPairs rk rv [] no_pairs = Unit {0}
ReadBackPairs rk rv ((c, d) ∷ cs) (pair k v ps) =
    (rk c ≡ ok k) × (rv d ≡ ok v) × ReadBackPairs rk rv cs ps
ReadBackPairs rk rv _ _ = ⊥

pub elements-ReadBack :
    (write : Write) (read : Read) (context : SerError → SerError) (vs : Items)
    → AllItems (Returns write read) vs
    → (cs : List Cell) × (elements write context vs ≡ Scalars.ok (subs cs))
      × (length cs ≡ count vs)
      × ReadBack read cs vs
unfolding elements subs count
elements-ReadBack write read context no_items h = ([], refl, refl, tt)
elements-ReadBack write read context (item v vs) ((c, e, e'), rest) =
    let (cs, f, n, back) = elements-ReadBack write read context vs rest in
    (c ∷ cs, rw e (rw f refl), ap suc n, (e', back))

pub entries-ReadBack :
    (wk wv : Write) (rk rv : Read) (ps : Pairs)
    → AllPairsOf (Returns wk rk) (Returns wv rv) ps
    → (cs : List (Cell × Cell)) × (entries wk wv ps ≡ Scalars.ok (pair_subs cs))
      × (length cs ≡ count_pairs ps)
      × ReadBackPairs rk rv cs ps
unfolding entries pair_subs count_pairs
entries-ReadBack wk wv rk rv no_pairs h = ([], refl, refl, tt)
entries-ReadBack wk wv rk rv (pair k v ps) ((c, e, e'), (d, g, g'), rest) =
    let (cs, f, n, back) = entries-ReadBack wk wv rk rv ps rest in
    ((c, d) ∷ cs, rw e (rw g (rw f refl)), ap suc n, (e', g', back))

pub then_lem :
    {A B : Type 0} (f : DeError → DeError) (d : Decoded A) (k k' : A → Decoded B) (out : B)
    → ((a : A) → k' a ≡ ok out → k a ≡ ok out)
    → (d >>= k') ≡ ok out
    → (context f d >>= k) ≡ ok out
then_lem f (ok a) k k' out each h = each a h
then_lem f (err e) k k' out each h = cc

pub fill-ReadBack :
    (place : DeError → ℕ → DeError) (read : Read) (add : Items → PyValue → Decoded Items) (i : ℕ)
    (acc acc' : Items) (cs : List Cell) (vs : Items)
    → ReadBack read cs vs
    → add_all add acc vs ≡ ok acc'
    → fill place read add i acc (map ok cs) ≡ ok acc'
unfolding fill add_all
fill-ReadBack place read add i acc acc' [] no_items back h = h
fill-ReadBack place read add i acc acc' [] (item v vs) back h = absurd back
fill-ReadBack place read add i acc acc' (c ∷ cs) no_items back h = absurd back
fill-ReadBack place read add i acc acc' (c ∷ cs) (item v vs) (e, back) h = rw e (
    then_lem (λ e'. place e' i) (add acc v) _ (λ a. add_all add a vs) acc'
      (λ a. fill-ReadBack place read add (i + 1) a acc' cs vs back) h)

pub fill_dict-ReadBack :
    (rk rv : Read) (set : Pairs → PyValue → PyValue → Decoded Pairs) (i : ℕ) (acc acc' : Pairs)
    (cs : List (Cell × Cell)) (ps : Pairs)
    → ReadBackPairs rk rv cs ps
    → add_pairs set acc ps ≡ ok acc'
    → fill_dict rk rv set i acc (map ok cs) ≡ ok acc'
unfolding fill_dict add_pairs
fill_dict-ReadBack rk rv set i acc acc' [] no_pairs back h = h
fill_dict-ReadBack rk rv set i acc acc' [] (pair k v ps) back h = absurd back
fill_dict-ReadBack rk rv set i acc acc' (c ∷ cs) no_pairs back h = absurd back
fill_dict-ReadBack rk rv set i acc acc' ((c, d) ∷ cs) (pair k v ps) (e, e', back) h = rw e (
    rw e' (
      then_lem (in_map_index i) (set acc k v) _ (λ a. add_pairs set a ps) acc'
        (λ a. fill_dict-ReadBack rk rv set (i + 1) a acc' cs ps back) h))

concat_items : Items → Items → Items
concat_items no_items ys = ys
concat_items (item x xs) ys = item x (concat_items xs ys)

concat_items-append :
    (xs : Items) (v : PyValue) (ys : Items)
    → concat_items (append xs v) ys ≡ concat_items xs (item v ys)
unfolding concat_items append
concat_items-append no_items v ys = refl
concat_items-append (item x xs) v ys = ap (item x) (concat_items-append xs v ys)

concat_items-nil : (xs : Items) → concat_items xs no_items ≡ xs
unfolding concat_items
concat_items-nil no_items = refl
concat_items-nil (item x xs) = ap (item x) (concat_items-nil xs)

list_append-all : (acc vs : Items) → add_all list_append acc vs ≡ ok (concat_items acc vs)
unfolding add_all concat_items
list_append-all acc no_items = ap ok (sym (concat_items-nil acc))
list_append-all acc (item v vs) =
    list_append-all (append acc v) vs ∙ ap ok (concat_items-append acc v vs)

-- Appending the items of a list to an empty one gives the list.
pub list_append-list : (vs : Items) → add_all list_append no_items vs ≡ ok vs
unfolding concat_items
list_append-list vs = list_append-all no_items vs
