-- ===== src/Values/Scalars.antt =====
-- src/serialize/value.rs: errors, what the libraries do, and the scalars.
use python_rs_driver.Common.{ℕ, Bool, true, false, Option, none, some, List, [], ◌∷◌, ltb, ◌^◌}
use python_rs_driver.CqlTypes.{ℤ, pos, negsuc}
use python_rs_driver.Values.{
  NativeType, tiny_int, small_int, int, big_int, counter, varint, float, double, decimal, boolean,
  ascii, text, blob, date, duration, time, timestamp, inet, uuid, timeuuid, PyClass, py_float,
  py_bytes, py_decimal, py_duration, relativedelta, py_date, datetime_date, datetime, py_timestamp,
  ipv4_address, ipv6_address, py_time, datetime_time, py_uuid, other_class, py_bool, py_object,
  ColumnType, unknown_native, PyValue, py_int, py_str, Cell, value, Parts, nil, bytes,
}

pub data TypeExpected : Type 0 where
  list_expected set_expected map_expected vector_expected udt_expected tuple_expected : TypeExpected

-- The errors of serialization, an element's with what failed around it.
pub data SerError : Type 0 where
  mismatched : NativeType → (expected : List NativeType) → SerError
  value_overflow mixed_sign interop_failed unsupported_type : SerError
  type_mismatch : TypeExpected → SerError
  too_many_elements size_overflow : SerError
  element_failed key_failed value_failed : SerError → SerError
  invalid_number_of_elements wrong_element_count : (len : ℕ) → (expected : ℕ) → SerError
  value_missing : (field : ℕ) → SerError
  library_failed : SerError

pub data Result {ℓ} (A : Type ℓ) : Type ℓ where
  ok : A → Result A
  err : SerError → Result A

infixl 5 ◌>>=◌
abbrev pub ◌>>=◌ {ℓ κ} : {A : Type ℓ} {B : Type κ} → Result A → (A → Result B) → Result B
ok a >>= f = f a
err e >>= f = err e

abbrev pub map_err {ℓ} : {A : Type ℓ} → (SerError → SerError) → Result A → Result A
map_err f (ok a) = ok a
map_err f (err e) = err (f e)

-- What extracting a scalar as a type and writing it gives.
pub data Extraction : Type 0 where
  gives : List ℕ → Extraction
  no_match overflows mixes_signs fails_in_python fails_in_library : Extraction

-- What the libraries do for the serializer: the bytes of an integer of a type's width, the extraction
-- of any other scalar as a type, the bytes of an `i32`, whether a built value keeps within the
-- protocol's size, which types have one size in a vector, and what each kind of vector element does
-- to the element's cell.
pub record Writer : Type 0 where
  pub int_bytes : NativeType → ℤ → List ℕ
  pub scalar_bytes : NativeType → PyValue → Extraction
  pub to_be_bytes : ℕ → List ℕ
  pub fits : Parts → Bool
  pub type_size_for_vector : ColumnType → Bool
  pub constant_length_elem : Cell → Result Cell
  pub variable_length_elem : Cell → Result Cell

-- Whether an integer is in the range of a signed type of `w + 1` bits.
abbrev pub in_range : ℕ → ℤ → Bool
in_range w (pos n) = ltb n (2 ^ w)
in_range w (negsuc n) = ltb n (2 ^ w)

abbrev pub of_bytes : List ℕ → Cell
of_bytes b = value (bytes b nil)

abbrev pub checked_int : Writer → NativeType → ℤ → Bool → Result Cell
checked_int w t n true = ok (of_bytes (w.int_bytes t n))
checked_int w t n false = err value_overflow

-- `map_type_to_expected`: the CQL types that take values of a class, none for a class not listed.
unfoldable pub class_columns : PyClass → Option (List NativeType)
class_columns py_float = some (double ∷ float ∷ [])
class_columns py_bytes = some (blob ∷ [])
class_columns py_decimal = some (decimal ∷ [])
class_columns py_duration = some (duration ∷ [])
class_columns relativedelta = some (duration ∷ [])
class_columns py_date = some (date ∷ [])
class_columns datetime_date = some (date ∷ [])
class_columns datetime = some (date ∷ timestamp ∷ [])
class_columns py_timestamp = some (timestamp ∷ [])
class_columns ipv4_address = some (inet ∷ [])
class_columns ipv6_address = some (inet ∷ [])
class_columns py_time = some (time ∷ [])
class_columns datetime_time = some (time ∷ [])
class_columns py_uuid = some (uuid ∷ timeuuid ∷ [])
class_columns other_class = none

unfoldable pub map_type_to_expected : PyValue → Option (List NativeType)
unfolding class_columns
map_type_to_expected (py_int n) =
    some (tiny_int ∷ small_int ∷ int ∷ big_int ∷ counter ∷ varint ∷ [])
map_type_to_expected (py_bool b) = some (boolean ∷ [])
map_type_to_expected (py_str s) = some (ascii ∷ text ∷ [])
map_type_to_expected (py_object class x) = class_columns class
map_type_to_expected v = none

abbrev pub mismatch : NativeType → Option (List NativeType) → SerError
mismatch t (some expected) = mismatched t expected
mismatch t none = unsupported_type

unfoldable pub mismatched_type_error : NativeType → PyValue → SerError
unfolding map_type_to_expected
mismatched_type_error t v = mismatch t (map_type_to_expected v)

-- `serialize_int`: a value that is no `int` is mismatched, one out of range overflows. A `bool` is
-- an `int`.
abbrev pub serialize_int : Writer → NativeType → ℕ → PyValue → Result Cell
serialize_int w t bits (py_int n) = checked_int w t n (in_range bits n)
serialize_int w t bits (py_bool true) = checked_int w t (pos 1) (in_range bits (pos 1))
serialize_int w t bits (py_bool false) = checked_int w t (pos 0) (in_range bits (pos 0))
serialize_int w t bits v = err (mismatched_type_error t v)

abbrev pub extracted : NativeType → PyValue → Extraction → Result Cell
extracted t v (gives b) = ok (of_bytes b)
extracted t v no_match = err (mismatched_type_error t v)
extracted t v overflows = err value_overflow
extracted t v mixes_signs = err mixed_sign
extracted t v fails_in_python = err interop_failed
extracted t v fails_in_library = err library_failed

-- `serialize_native`, and the branches for dates, durations, times, addresses and the like.
abbrev pub serialize_native : Writer → NativeType → PyValue → Result Cell
serialize_native w t v = extracted t v (w.scalar_bytes t v)

unfoldable pub serialize_natives : Writer → NativeType → PyValue → Result Cell
serialize_natives w tiny_int v = serialize_int w tiny_int 7 v
serialize_natives w small_int v = serialize_int w small_int 15 v
serialize_natives w int v = serialize_int w int 31 v
serialize_natives w big_int v = serialize_int w big_int 63 v
serialize_natives w counter v = serialize_int w counter 63 v
serialize_natives w unknown_native v = err unsupported_type
serialize_natives w t v = serialize_native w t v
