-- ===== src/Values.antt =====
-- src/serialize/value.rs and src/deserialize/value.rs: Python values, the CQL types of columns, and
-- the cells that the one writes and the other reads. `Values.Serialize` and `Values.Deserialize` have
-- the two directions, `Values.RoundTrip` takes a value there and back.
pub mod Scalars
pub mod Serialize
pub mod Deserialize
pub mod Typing
pub mod Elements
pub mod Loops
pub mod Containers
pub mod Structs
pub mod RoundTrip
pub mod Natives
pub mod Nulls
pub mod Rows
pub mod Binding
pub mod Tests
use python_rs_driver.Common.{
  ℕ, suc, Bool, true, false, Option, none, some, List, [], ◌∷◌, ◌++◌, ◌&&◌, is_empty,
}
use python_rs_driver.Common.Python.{Obj}
use python_rs_driver.CqlTypes.{ℤ}

pub data NativeType : Type 0 where
  tiny_int small_int int big_int counter varint : NativeType
  float double decimal boolean ascii text blob : NativeType
  date duration time timestamp inet uuid timeuuid : NativeType
  -- A native type that this driver does not know.
  unknown_native : NativeType

-- `ColumnType`, with the types of a tuple and the fields of a user-defined type.
mutual
  pub data ColumnType : Type 0 where
    native : NativeType → ColumnType
    list_of set_of : ColumnType → ColumnType
    map_of : ColumnType → ColumnType → ColumnType
    vector_of : ColumnType → (dimensions : ℕ) → ColumnType
    udt_of : Fields → ColumnType
    tuple_of : Types → ColumnType
    unknown_type : ColumnType

  pub data Types : Type 0 where
    no_types : Types
    a_type : ColumnType → Types → Types

  pub data Fields : Type 0 where
    no_fields : Fields
    a_field : (name : ℕ) → ColumnType → Fields → Fields

-- The classes that the serializer tells apart by name.
pub data PyClass : Type 0 where
  py_float py_bytes py_decimal py_duration relativedelta py_date datetime_date datetime : PyClass
  py_timestamp ipv4_address ipv6_address py_time datetime_time py_uuid other_class : PyClass

-- A Python value: a string is known by the number of its text, another scalar by its identity. The
-- values of a set and the pairs of a dict stand in the order of iteration.
mutual
  pub data PyValue : Type 0 where
    py_none cql_empty : PyValue
    py_bool : Bool → PyValue
    py_int : ℤ → PyValue
    py_str : ℕ → PyValue
    py_object : PyClass → Obj → PyValue
    py_list py_set py_tuple : Items → PyValue
    py_dict : Pairs → PyValue

  pub data Items : Type 0 where
    no_items : Items
    item : PyValue → Items → Items

  pub data Pairs : Type 0 where
    no_pairs : Pairs
    pair : PyValue → PyValue → Pairs → Pairs

-- What the writer of the scylla crate is told to write: a null, or a value built of bytes and cells.
mutual
  pub data Cell : Type 0 where
    null : Cell
    value : Parts → Cell

  pub data Parts : Type 0 where
    nil : Parts
    bytes : List ℕ → Parts → Parts
    sub : Cell → Parts → Parts

unfoldable pub count : Items → ℕ
count no_items = 0
count (item v vs) = suc (count vs)

unfoldable pub count_pairs : Pairs → ℕ
count_pairs no_pairs = 0
count_pairs (pair k v ps) = suc (count_pairs ps)

unfoldable pub count_types : Types → ℕ
count_types no_types = 0
count_types (a_type t ts) = suc (count_types ts)

-- Whether the bytes of a value are none.
abbrev pub no_bytes : Parts → Bool
no_bytes nil = true
no_bytes (bytes b p) = is_empty b && no_bytes p
no_bytes (sub c p) = false
