-- ===== src/Values/RoundTrip.antt =====
-- A value of a column's type is written as a cell that is read as the value.
use python_rs_driver.Common.{◌≡◌, subst, sym}
use python_rs_driver.Values.{
  ColumnType, native, list_of, set_of, map_of, vector_of, udt_of, tuple_of, Types, no_types, a_type,
  Fields, no_fields, a_field, PyValue, py_list, py_set, py_tuple, py_dict, Items, no_items, item,
  Pairs, no_pairs, pair, Cell,
}
use python_rs_driver.Values.Scalars.{Result, SerError, Writer, serialize_natives}
use python_rs_driver.Values.Scalars
use python_rs_driver.Values.Serialize.{serialize}
use python_rs_driver.Values.Deserialize.{ok, Reader, deserialize}
use python_rs_driver.Values.Typing.{Agrees, OrNone, HasType, IsWithin, HasFields, HasTypes}
use python_rs_driver.Values.Containers.{
  Stored, OrNone-Returns, list-Stored, set-Stored, map-Stored, vector-Stored,
}
use python_rs_driver.Values.Natives.{scalar-Stored}
use python_rs_driver.Values.Structs.{
  HasTypes-count, StoredFields, StoredTypes, nil-StoredFields, cons-StoredFields, nil-StoredTypes,
  cons-StoredTypes, udt-Stored, tuple-Stored,
}

module _ (w : Writer) (r : Reader) (agrees : Agrees w r) where
  mutual
    unfolding HasType

    typed-Stored : (t : ColumnType) (v : PyValue) → HasType w r t v → Stored w r t v
    typed-Stored (native t) v h = scalar-Stored w r agrees t v h
    typed-Stored (list_of t) (py_list vs) h =
        list-Stored w r agrees t (λ v. typed-Stored t v) vs h.0 h.1 h.2
    typed-Stored (set_of t) (py_set vs) h =
        set-Stored w r agrees t (λ v. typed-Stored t v) vs h.0 h.1 h.2 h.3
    typed-Stored (map_of k t) (py_dict ps) h =
        map-Stored w r agrees k t (λ v. typed-Stored k v) (λ v. typed-Stored t v) ps h.0 h.1 h.2 h.3
    typed-Stored (vector_of t n) (py_list vs) h =
        subst (λ d. Stored w r (vector_of t d) (py_list vs)) h.1
          (vector-Stored w r agrees t (λ v. typed-Stored t v) vs h.0 h.2
            (subst (λ d. IsWithin w r (vector_of t d) (py_list vs)) (sym h.1) h.3))
    typed-Stored (udt_of (a_field name t fs)) (py_dict ps) h =
        udt-Stored w r agrees name t fs ps h.1 (fields-Stored (a_field name t fs) ps ps h.0) h.2
    typed-Stored (tuple_of (a_type t ts)) (py_tuple vs) h =
        tuple-Stored w r agrees t ts vs (HasTypes-count w r (a_type t ts) vs h.0)
          (types-Stored (a_type t ts) vs h.0) h.1
    typed-Stored _ _ h = absurd h

    fields-Stored :
        (fs : Fields) (dict ps : Pairs)
        → HasFields w r fs dict ps
        → StoredFields w r agrees fs dict ps
    fields-Stored no_fields dict no_pairs h = nil-StoredFields w r agrees dict
    fields-Stored (a_field name t fs) dict (pair k v ps) h =
        cons-StoredFields w r agrees name t fs dict k v ps h.0 h.1 (typed-Stored t v h.2)
          (fields-Stored fs dict ps h.3)
    fields-Stored _ _ _ h = absurd h

    types-Stored : (ts : Types) (vs : Items) → HasTypes w r ts vs → StoredTypes w r agrees ts vs
    types-Stored no_types no_items h = nil-StoredTypes w r agrees
    types-Stored (a_type t ts) (item v vs) h =
        cons-StoredTypes w r agrees t ts v vs (typed-Stored t v h.0) (types-Stored ts vs h.1)
    types-Stored _ _ h = absurd h

  -- With a writer and a reader that agree on the layout of containers and integers, a value of a
  -- column's type, or `None` for a type whose null is `None`, is written without error as a cell,
  -- and reading the cell gives the value: an integer in the range of its type, another scalar
  -- that the libraries read from the bytes that they extract of it, and lists, sets, maps,
  -- vectors, user-defined types and tuples of such values, nested in any way, provided that no
  -- container is too large for a cell, that adding the items of a set or dict one by one gives
  -- it, and that a user-defined type has its fields in their order.
  pub deserialize-serialize :
      (t : ColumnType) (v : PyValue)
      → OrNone w r t (HasType w r t) v
      → (c : Cell) × (serialize w t v ≡ Scalars.ok c) × (deserialize r t c ≡ ok v)
  unfolding serialize deserialize
  deserialize-serialize t v h = OrNone-Returns w r agrees t (λ v. typed-Stored t v) v h
