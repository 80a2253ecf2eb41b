-- ===== src/Values/Containers.antt =====
-- A list, a set, a map or a vector of values that return is one that returns.
use python_rs_driver.Common.{
  ℕ, ◌^◌, ◌<◌, Bool, true, false, inl, inr, List, [], ◌∷◌, ◌≡◌, refl, ◌∙◌, length, arith, ltb,
}
use python_rs_driver.CqlTypes.{ℤ}
use python_rs_driver.Values.{
  NativeType, py_int, ColumnType, native, list_of, set_of, map_of, vector_of, udt_of, tuple_of,
  unknown_type, a_type, a_field, PyValue, py_none, py_list, py_set, py_tuple, py_dict, Items,
  no_items, item, Pairs, no_pairs, Cell, null, value, Parts, bytes, count, count_pairs, no_bytes,
}
use python_rs_driver.Values.Scalars.{Result, SerError, Writer, element_failed, serialize_natives}
use python_rs_driver.Values.Scalars
use python_rs_driver.Values.Serialize.{
  elements, or_null, vector_elem, write_elem, same_error, counted, finished, finish,
  serialize_arbitrary_value, serialize_sequence, serialize_map, serialize_vector,
}
use python_rs_driver.Values.Deserialize.{
  in_sequence_index, in_vector_index, ok, Reader, guarded, read, list_append,
}
use python_rs_driver.Values.Typing.{
  subs, pair_subs, Agrees, is_none, add_all, add_pairs, AllItems, AllPairsOf, null_is_none,
  NonEmpty, OrNone, IsScalar, is_int, is_extracted, HasType, is_overflow, IsWithin,
}
use python_rs_driver.Values.Loops.{
  Write, Read, Returns, elements-ReadBack, entries-ReadBack, fill-ReadBack, fill_dict-ReadBack,
  list_append-list,
}
use python_rs_driver.Values.Elements.{AllItems-map, AllPairsOf-map, or_null-some, ltb-true, ==-same}

module _ (w : Writer) (r : Reader) where
  -- A value is written as bytes and cells, which are read as the value.
  abbrev pub Stored : ColumnType → PyValue → Type 0
  Stored t v =
      (p : Parts) × (serialize_arbitrary_value w t v ≡ Scalars.ok (value p))
      × (guarded r t (read r t) (value p) ≡ ok v)

  int-not_none : (n : ℤ) (v : PyValue) → py_int n ≡ v → is_none v ≡ false
  int-not_none n v e = rw (← e) refl

  IsScalar-not_none : (t : NativeType) (v : PyValue) → IsScalar w r t v → is_none v ≡ false
  IsScalar-not_none t v (is_int bits n e within same) = int-not_none n v same
  IsScalar-not_none t v (is_extracted b e gives reads full some_value) = some_value

  HasType-not_none : (t : ColumnType) (v : PyValue) → HasType w r t v → is_none v ≡ false
  unfolding HasType
  HasType-not_none (native t) v h = IsScalar-not_none t v h
  HasType-not_none (list_of t) (py_list vs) h = refl
  HasType-not_none (set_of t) (py_set vs) h = refl
  HasType-not_none (map_of k t) (py_dict ps) h = refl
  HasType-not_none (vector_of t n) (py_list vs) h = refl
  HasType-not_none (udt_of (a_field name t fs)) (py_dict ps) h = refl
  HasType-not_none (tuple_of (a_type t ts)) (py_tuple vs) h = refl
  HasType-not_none _ _ h = absurd h

  abbrev pub Writes : ColumnType → Write
  Writes t = or_null (serialize_arbitrary_value w t)

  abbrev pub Reads : ColumnType → Read
  Reads t = guarded r t (read r t)

  pub finish_lem : (p : Parts) → w.fits p ≡ true → finish w p ≡ Scalars.ok (value p)
  finish_lem p fit = rw fit refl

  pub finished_fits : (p : Parts) (b : Bool) → is_overflow (finished p b) ≡ false → b ≡ true
  finished_fits p true h = refl
  finished_fits p false h = absurd cc

  module _ (agrees : Agrees w r) where
    counted_lem :
        (n m : ℕ) (parts : Result Parts) (p : Parts)
        → n < 2 ^ 31
        → m ≡ n
        → parts ≡ Scalars.ok p
        → w.fits (bytes (w.to_be_bytes m) p) ≡ true
        → counted w (ltb n (2 ^ 31)) n parts ≡ Scalars.ok (value (bytes (w.to_be_bytes m) p))
    counted_lem n m parts p small e h fit =
        rw (ltb-true n (2 ^ 31) small)
          (rw h (rw e (finish_lem (bytes (w.to_be_bytes n) p) (rw e at fit))))

    counted_fits :
        (n m : ℕ) (parts : Result Parts) (p : Parts)
        → n < 2 ^ 31
        → m ≡ n
        → parts ≡ Scalars.ok p
        → is_overflow (counted w (ltb n (2 ^ 31)) n parts) ≡ false
        → w.fits (bytes (w.to_be_bytes m) p) ≡ true
    counted_fits n m parts p small e h within = rw e (
        finished_fits (bytes (w.to_be_bytes n) p) (w.fits (bytes (w.to_be_bytes n) p))
          (rw (ltb-true n (2 ^ 31) small, h) at within))

    few : {m n : ℕ} → m ≡ n → n < 2 ^ 31 → m < 2 ^ 31
    few e small = omega arith

    guarded_lem :
        (t : ColumnType) (f : Read) (n : ℕ) (p : Parts)
        → guarded r t f (value (bytes (w.to_be_bytes n) p)) ≡ f (value (bytes (w.to_be_bytes n) p))
    guarded_lem t f n p = rw (agrees.count_has_bytes n) refl

    pub null-reads : (t : ColumnType) → null_is_none t ≡ true → read r t null ≡ ok py_none
    unfolding read
    null-reads (native t) h = refl
    null-reads (list_of t) h = cc
    null-reads (set_of t) h = cc
    null-reads (map_of k t) h = cc
    null-reads (vector_of t n) h = refl
    null-reads (udt_of fs) h = refl
    null-reads (tuple_of ts) h = refl
    null-reads unknown_type h = cc

    pub OrNone-Returns :
        (t : ColumnType)
        → ((v : PyValue) → HasType w r t v → Stored t v)
        → (v : PyValue) → OrNone w r t (HasType w r t) v
        → Returns (Writes t) (Reads t) v
    unfolding read
    OrNone-Returns t f v (inl h) =
        let (p, e, back) = f v h in
        (value p, or_null-some (serialize_arbitrary_value w t) v (HasType-not_none t v h) ∙ e, back)
    OrNone-Returns t f v (inr (e, nulls)) = (null, rw e refl, rw e (null-reads t nulls))

    pub list-Stored :
        (t : ColumnType)
        → ((v : PyValue) → HasType w r t v → Stored t v)
        → (vs : Items) → AllItems (OrNone w r t (HasType w r t)) vs
        → count vs < 2 ^ 31
        → IsWithin w r (list_of t) (py_list vs)
        → Stored (list_of t) (py_list vs)
    unfolding serialize_arbitrary_value read serialize_sequence
    list-Stored t f vs h small within =
        let (cs, e, n, back) =
          elements-ReadBack (Writes t) (Reads t) element_failed vs
            (AllItems-map _ _ (OrNone-Returns t f) vs h) in
        let fit = counted_fits (count vs) (length cs) _ (subs cs) small n e within in
        (
          bytes (w.to_be_bytes (length cs)) (subs cs),
          counted_lem (count vs) (length cs) _ (subs cs) small n e fit,
          guarded_lem (list_of t) (read r (list_of t)) (length cs) (subs cs)
              ∙ rw (agrees.list_agrees t cs (few n small) fit) (
                  rw
                    (fill-ReadBack (λ e i. in_sequence_index i e) (Reads t) list_append 0 no_items
                      vs cs vs back (list_append-list vs))
                    refl),
        )

    pub set-Stored :
        (t : ColumnType)
        → ((v : PyValue) → HasType w r t v → Stored t v)
        → (vs : Items) → AllItems (OrNone w r t (HasType w r t)) vs
        → count vs < 2 ^ 31
        → add_all r.set_add no_items vs ≡ ok vs
        → IsWithin w r (set_of t) (py_set vs)
        → Stored (set_of t) (py_set vs)
    unfolding serialize_arbitrary_value read serialize_sequence
    set-Stored t f vs h small adds within =
        let (cs, e, n, back) =
          elements-ReadBack (Writes t) (Reads t) element_failed vs
            (AllItems-map _ _ (OrNone-Returns t f) vs h) in
        let fit = counted_fits (count vs) (length cs) _ (subs cs) small n e within in
        (
          bytes (w.to_be_bytes (length cs)) (subs cs),
          counted_lem (count vs) (length cs) _ (subs cs) small n e fit,
          guarded_lem (set_of t) (read r (set_of t)) (length cs) (subs cs)
              ∙ rw (agrees.set_agrees t cs (few n small) fit) (
                  rw
                    (fill-ReadBack (λ e i. in_sequence_index i e) (Reads t) r.set_add 0 no_items vs
                      cs vs back adds)
                    refl),
        )

    pub map-Stored :
        (k t : ColumnType)
        → ((v : PyValue) → HasType w r k v → Stored k v)
        → ((v : PyValue) → HasType w r t v → Stored t v)
        → (ps : Pairs) → AllPairsOf (OrNone w r k (HasType w r k)) (OrNone w r t (HasType w r t)) ps
        → count_pairs ps < 2 ^ 31
        → add_pairs r.dict_set no_pairs ps ≡ ok ps
        → IsWithin w r (map_of k t) (py_dict ps)
        → Stored (map_of k t) (py_dict ps)
    unfolding serialize_arbitrary_value read serialize_map
    map-Stored k t f g ps h small adds within =
        let (cs, e, n, back) =
          entries-ReadBack (Writes k) (Writes t) (Reads k) (Reads t) ps
            (AllPairsOf-map _ _ _ _ (OrNone-Returns k f) (OrNone-Returns t g) ps h) in
        let fit = counted_fits (count_pairs ps) (length cs) _ (pair_subs cs) small n e within in
        (
          bytes (w.to_be_bytes (length cs)) (pair_subs cs),
          counted_lem (count_pairs ps) (length cs) _ (pair_subs cs) small n e fit,
          guarded_lem (map_of k t) (read r (map_of k t)) (length cs) (pair_subs cs)
              ∙ rw (agrees.map_agrees k t cs (few n small) fit) (
                  rw
                    (fill_dict-ReadBack (Reads k) (Reads t) r.dict_set 0 no_pairs ps cs ps back
                      adds)
                    refl),
        )

    pub guarded_full :
        (t : ColumnType) (f : Read) (p : Parts)
        → no_bytes p ≡ false
        → guarded r t f (value p) ≡ f (value p)
    guarded_full t f p h = rw h refl

    subs-full :
        (cs : List Cell) (vs : Items)
        → NonEmpty vs
        → length cs ≡ count vs
        → no_bytes (subs cs) ≡ false
    unfolding subs count
    subs-full [] no_items h e = absurd h
    subs-full [] (item v vs) h e = absurd (omega (arith, e))
    subs-full (c ∷ cs) vs h e = refl

    vector_elem_lem :
        (t : ColumnType) (v : PyValue) (p : Parts) (b : Bool)
        → HasType w r t v
        → serialize_arbitrary_value w t v ≡ Scalars.ok (value p)
        → w.type_size_for_vector t ≡ b
        → vector_elem w b (value p) ≡ Scalars.ok (value p)
    vector_elem_lem t v p true h e size = agrees.constant_keeps t v p h e size
    vector_elem_lem t v p false h e size = agrees.variable_keeps t v p h e size

    -- How the elements of a vector are written.
    abbrev WritesElem : ColumnType → Write
    WritesElem t = write_elem w t (Writes t)

    elem-Returns :
        (t : ColumnType)
        → ((v : PyValue) → HasType w r t v → Stored t v)
        → (v : PyValue) → HasType w r t v
        → Returns (WritesElem t) (Reads t) v
    elem-Returns t f v h =
        let (p, e, back) = f v h in
        (
          value p,
          rw (or_null-some (serialize_arbitrary_value w t) v (HasType-not_none t v h))
              (rw e (vector_elem_lem t v p (w.type_size_for_vector t) h e refl)),
          back,
        )

    serialize_vector_lem :
        (t : ColumnType) (write : Write) (vs : Items) (p : Parts)
        → elements (write_elem w t write) same_error vs ≡ Scalars.ok p
        → w.fits p ≡ true
        → serialize_vector w (count vs) t write vs ≡ Scalars.ok (value p)
    unfolding serialize_vector
    serialize_vector_lem t write vs p e fit = rw (==-same (count vs)) (rw e (finish_lem p fit))

    vector_fits :
        (t : ColumnType) (write : Write) (vs : Items) (p : Parts)
        → elements (write_elem w t write) same_error vs ≡ Scalars.ok p
        → is_overflow (serialize_vector w (count vs) t write vs) ≡ false
        → w.fits p ≡ true
    unfolding serialize_vector
    vector_fits t write vs p e within =
        finished_fits p (w.fits p) (rw (==-same (count vs), e) at within)

    pub vector-Stored :
        (t : ColumnType)
        → ((v : PyValue) → HasType w r t v → Stored t v)
        → (vs : Items) → AllItems (HasType w r t) vs
        → NonEmpty vs
        → IsWithin w r (vector_of t (count vs)) (py_list vs)
        → Stored (vector_of t (count vs)) (py_list vs)
    unfolding serialize_arbitrary_value read elements
    vector-Stored t f vs h full within =
        let (cs, e, n, back) =
          elements-ReadBack (WritesElem t) (Reads t) same_error vs
            (AllItems-map _ _ (elem-Returns t f) vs h) in
        let fit = vector_fits t (Writes t) vs (subs cs) e within in
        (
          subs cs,
          serialize_vector_lem t (Writes t) vs (subs cs) e fit,
          guarded_full (vector_of t (count vs)) (read r (vector_of t (count vs))) (subs cs)
                (subs-full cs vs full n)
              ∙ rw (rw n at (agrees.vector_agrees t vs cs h full e fit)) (
                  rw
                    (fill-ReadBack (λ e i. in_vector_index i e) (Reads t) list_append 0 no_items vs
                      cs vs back (list_append-list vs))
                    refl),
        )
