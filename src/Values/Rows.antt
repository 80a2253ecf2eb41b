-- ===== src/Values/Rows.antt =====
-- src/serialize/value_list.rs: the values bound to a statement's columns, from a Python list or
-- tuple, a mapping by the columns' names, or nothing.
use python_rs_driver.Common.{
  ℕ, Option, none, some, List, [], ◌∷◌, ◌+◌, ◌==◌, length, if◌then◌else◌, zero,
}
use python_rs_driver.Values.{ColumnType, PyValue, Items, no_items, item, Cell, count}
use python_rs_driver.Values.Scalars.{SerError, Result, ok, err, Writer}
use python_rs_driver.Values.Serialize.{serialize}

-- What `get_item` of a Python mapping does.
pub data Lookup : Type 0 where
  found : PyValue → Lookup
  key_error raises : Lookup

-- A mapping is any object of that protocol: its `len` may raise.
pub record PyMapping : Type 0 where
  pub len : Option ℕ
  pub get_item : (name : ℕ) → Lookup

pub data PyValueList : Type 0 where
  sequence : Items → PyValueList
  mapping : PyMapping → PyValueList
  empty : PyValueList

-- The Python object given as the values.
pub data Argument : Type 0 where
  none_given other_object : Argument
  a_list a_tuple : Items → Argument
  a_mapping : PyMapping → Argument

abbrev of_items : Items → PyValueList
of_items no_items = empty
of_items vs = sequence vs

-- A mapping whose `len` raises is not an empty one.
abbrev of_mapping : PyMapping → Option ℕ → PyValueList
of_mapping m (some zero) = empty
of_mapping m _ = mapping m

-- `extract`, `none` for its `TypeError`.
unfoldable pub extract : Argument → Option PyValueList
extract none_given = some empty
extract (a_list vs) = some (of_items vs)
extract (a_tuple vs) = some (of_items vs)
extract (a_mapping m) = some (of_mapping m m.len)
extract other_object = none

pub record ColumnSpec : Type 0 where
  pub name : ℕ
  pub typ : ColumnType

pub data RowError : Type 0 where
  wrong_column_count : (rust_cols : ℕ) → (cql_cols : ℕ) → RowError
  value_missing_for_column : (name : ℕ) → RowError
  python_interop_failed : RowError
  at_parameter_index at_parameter_name : ℕ → SerError → RowError

-- The cells written for a row, or the error.
pub data Written : Type 0 where
  wrote : List Cell → Written
  failed : RowError → Written

abbrev pub also : Cell → Written → Written
also c (wrote cs) = wrote (c ∷ cs)
also c (failed e) = failed e

abbrev pub serialize_element : (SerError → RowError) → Result Cell → Written → Written
serialize_element place (ok c) rest = also c rest
serialize_element place (err e) rest = failed (place e)

abbrev pub length_equality_check : (val_list_len cols_len : ℕ) → Written → Written
length_equality_check val_list_len cols_len rest =
    if val_list_len == cols_len then rest else failed (wrong_column_count val_list_len cols_len)

-- The loop over the columns and the sequence, from the index on.
unfoldable pub write_sequence : Writer → ℕ → List ColumnSpec → Items → Written
write_sequence w index [] vs = wrote []
write_sequence w index (col ∷ cols) no_items = wrote []
write_sequence w index (col ∷ cols) (item v vs) =
    serialize_element (at_parameter_index index) (serialize w col.typ v)
      (write_sequence w (index + 1) cols vs)

abbrev pub write_found : Writer → ColumnSpec → Lookup → Written → Written
write_found w col (found v) rest =
    serialize_element (at_parameter_name col.name) (serialize w col.typ v) rest
write_found w col key_error rest = failed (value_missing_for_column col.name)
write_found w col raises rest = failed python_interop_failed

unfoldable pub write_mapping : Writer → PyMapping → List ColumnSpec → Written
write_mapping w m [] = wrote []
write_mapping w m (col ∷ cols) = write_found w col (m.get_item col.name) (write_mapping w m cols)

abbrev pub mapping_of_len : Writer → PyMapping → List ColumnSpec → Option ℕ → Written
mapping_of_len w m cols none = failed python_interop_failed
mapping_of_len w m cols (some dict_len) =
    length_equality_check dict_len (length cols) (write_mapping w m cols)

abbrev pub write_empty : List ColumnSpec → Written
write_empty [] = wrote []
write_empty cols = failed (wrong_column_count 0 (length cols))

-- `serialize` of `PyValueList`.
unfoldable pub serialize_row : Writer → List ColumnSpec → PyValueList → Written
unfolding write_sequence write_mapping
serialize_row w cols (sequence vs) =
    length_equality_check (count vs) (length cols) (write_sequence w 0 cols vs)
serialize_row w cols (mapping m) = mapping_of_len w m cols m.len
serialize_row w cols empty = write_empty cols
