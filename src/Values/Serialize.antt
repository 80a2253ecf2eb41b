-- ===== src/Values/Serialize.antt =====
-- src/serialize/value.rs: a Python value against the type of its column. The conversions of scalars
-- and the writer are those of PyO3 and the scylla crate, parameters here (`Values.Scalars`).
use python_rs_driver.Common.{
  ℕ, Bool, true, false, Option, none, some, ◌==◌, ltb, if◌then◌else◌, ◌^◌,
}
use python_rs_driver.Values.{
  ColumnType, native, list_of, set_of, map_of, vector_of, udt_of, tuple_of, unknown_type, Types,
  no_types, a_type, Fields, no_fields, a_field, PyValue, py_none, py_str, py_list, py_set, py_tuple,
  py_dict, Items, no_items, item, Pairs, no_pairs, pair, Cell, null, value, Parts, nil, bytes, sub,
  count, count_pairs, count_types,
}
use python_rs_driver.Values.Scalars.{
  list_expected, set_expected, map_expected, vector_expected, udt_expected, tuple_expected,
  SerError, unsupported_type, type_mismatch, too_many_elements, size_overflow, element_failed,
  key_failed, value_failed, invalid_number_of_elements, wrong_element_count, value_missing, Result,
  ok, err, ◌>>=◌, map_err, Writer, serialize_natives,
}

-- `PyAnyWrapper::serialize`: `None` is a null, another value is `write`'s.
abbrev pub or_null : (PyValue → Result Cell) → PyValue → Result Cell
or_null write py_none = ok null
or_null write v = write v

abbrev pub finished : Parts → Bool → Result Cell
finished p true = ok (value p)
finished p false = err size_overflow

-- `CellValueBuilder::finish`.
abbrev pub finish : Writer → Parts → Result Cell
finish w p = finished p (w.fits p)

unfoldable pub elements : (PyValue → Result Cell) → (SerError → SerError) → Items → Result Parts
elements write context no_items = ok nil
elements write context (item v vs) =
    map_err context (write v) >>= λ c. elements write context vs >>= λ p. ok (sub c p)

unfoldable pub entries : (PyValue → Result Cell) → (PyValue → Result Cell) → Pairs → Result Parts
entries write_key write_value no_pairs = ok nil
entries write_key write_value (pair k v ps) = map_err key_failed (write_key k) >>= λ c.
    map_err value_failed (write_value v) >>= λ d.
    entries write_key write_value ps >>= λ p. ok (sub c (sub d p))

-- A container's elements after their number, if that is an `i32`.
abbrev pub counted : Writer → Bool → ℕ → Result Parts → Result Cell
counted w true n parts = parts >>= λ p. finish w (bytes (w.to_be_bytes n) p)
counted w false n parts = err too_many_elements

unfoldable pub serialize_sequence : Writer → (PyValue → Result Cell) → Items → Result Cell
unfolding elements
serialize_sequence w write vs =
    counted w (ltb (count vs) (2 ^ 31)) (count vs) (elements write element_failed vs)

unfoldable pub serialize_map :
    Writer → (PyValue → Result Cell) → (PyValue → Result Cell) → Pairs → Result Cell
unfolding entries
serialize_map w write_key write_value ps =
    counted w (ltb (count_pairs ps) (2 ^ 31)) (count_pairs ps) (entries write_key write_value ps)

abbrev pub vector_elem : Writer → Bool → Cell → Result Cell
vector_elem w true c = w.constant_length_elem c
vector_elem w false c = w.variable_length_elem c

abbrev pub write_elem : Writer → ColumnType → (PyValue → Result Cell) → PyValue → Result Cell
write_elem w t write v = write v >>= vector_elem w (w.type_size_for_vector t)

abbrev pub same_error : SerError → SerError
same_error e = e

abbrev pub vector_of_length :
    Writer → Bool → ℕ → ColumnType → (PyValue → Result Cell) → Items → Result Cell
vector_of_length w true dimensions t write vs =
    elements (write_elem w t write) same_error vs >>= finish w
vector_of_length w false dimensions t write vs =
    err (invalid_number_of_elements (count vs) dimensions)

unfoldable pub serialize_vector :
    Writer → ℕ → ColumnType → (PyValue → Result Cell) → Items → Result Cell
unfolding elements
serialize_vector w dimensions t write vs =
    vector_of_length w (count vs == dimensions) dimensions t write vs

-- `dict.get_item(field_name)`.
unfoldable pub get_item : Pairs → ℕ → Option PyValue
get_item no_pairs name = none
get_item (pair (py_str k) v ps) name = if k == name then some v else get_item ps name
get_item (pair k v ps) name = get_item ps name

abbrev pub field_value : (PyValue → Result Cell) → ℕ → Option PyValue → Result Cell
field_value write name none = err (value_missing name)
field_value write name (some v) = write v

abbrev pub tuple_checked : Bool → ℕ → ℕ → Result Parts → Result Parts
tuple_checked true len expected parts = err (wrong_element_count len expected)
tuple_checked false len expected parts = parts

-- The casts to `list`, `set`, mapping, `list` or `tuple`, `dict` and `tuple`.
abbrev pub as_list : PyValue → Result Items
as_list (py_list vs) = ok vs
as_list v = err (type_mismatch list_expected)

abbrev pub as_set : PyValue → Result Items
as_set (py_set vs) = ok vs
as_set v = err (type_mismatch set_expected)

abbrev pub as_mapping : PyValue → Result Pairs
as_mapping (py_dict ps) = ok ps
as_mapping v = err (type_mismatch map_expected)

abbrev pub as_vector : PyValue → Result Items
as_vector (py_list vs) = ok vs
as_vector (py_tuple vs) = ok vs
as_vector v = err (type_mismatch vector_expected)

abbrev pub as_udt : PyValue → Result Pairs
as_udt (py_dict ps) = ok ps
as_udt v = err (type_mismatch udt_expected)

abbrev pub as_tuple : PyValue → Result Items
as_tuple (py_tuple vs) = ok vs
as_tuple v = err (type_mismatch tuple_expected)

unfoldable mutual
  pub serialize_arbitrary_value : Writer → ColumnType → PyValue → Result Cell
  serialize_arbitrary_value w (native t) v = serialize_natives w t v
  serialize_arbitrary_value w (list_of t) v =
      as_list v >>= serialize_sequence w (or_null (serialize_arbitrary_value w t))
  serialize_arbitrary_value w (set_of t) v =
      as_set v >>= serialize_sequence w (or_null (serialize_arbitrary_value w t))
  serialize_arbitrary_value w (map_of k t) v =
      as_mapping v
      >>= serialize_map w (or_null (serialize_arbitrary_value w k))
          (or_null (serialize_arbitrary_value w t))
  serialize_arbitrary_value w (vector_of t dimensions) v =
      as_vector v >>= serialize_vector w dimensions t (or_null (serialize_arbitrary_value w t))
  serialize_arbitrary_value w (udt_of fs) v =
      as_udt v >>= λ ps. serialize_fields w fs ps >>= finish w
  serialize_arbitrary_value w (tuple_of ts) v = as_tuple v >>= λ vs.
      tuple_checked (ltb (count_types ts) (count vs)) (count vs) (count_types ts)
        (serialize_types w ts vs)
      >>= finish w
  serialize_arbitrary_value w unknown_type v = err unsupported_type

  pub serialize_fields : Writer → Fields → Pairs → Result Parts
  serialize_fields w no_fields ps = ok nil
  serialize_fields w (a_field name t fs) ps =
      field_value (serialize_arbitrary_value w t) name (get_item ps name) >>= λ c.
      serialize_fields w fs ps >>= λ p. ok (sub c p)

  -- `zip` ends with the shorter of the two.
  pub serialize_types : Writer → Types → Items → Result Parts
  serialize_types w no_types vs = ok nil
  serialize_types w (a_type t ts) no_items = ok nil
  serialize_types w (a_type t ts) (item v vs) =
      serialize_arbitrary_value w t v >>= λ c. serialize_types w ts vs >>= λ p. ok (sub c p)

unfoldable pub serialize : Writer → ColumnType → PyValue → Result Cell
unfolding serialize_arbitrary_value
serialize w t v = or_null (serialize_arbitrary_value w t) v
