-- ===== src/Values/Typing.antt =====
-- Which Python values a column of a type takes and gives back, and what the libraries on the two
-- sides must agree on.
use python_rs_driver.Common.{
  ℕ, Bool, true, false, Option, none, some, List, [], ◌∷◌, ◌≡◌, ◌<◌, ◌^◌, ◌⊎◌, map, length,
  is_empty,
}
use python_rs_driver.CqlTypes.{ℤ}
use python_rs_driver.Values.{
  tiny_int, small_int, int, big_int, counter, unknown_native, py_int, NativeType, ColumnType,
  native, list_of, set_of, map_of, vector_of, udt_of, tuple_of, unknown_type, Types, no_types,
  a_type, Fields, no_fields, a_field, PyValue, py_none, py_str, py_list, py_set, py_tuple, py_dict,
  Items, no_items, item, Pairs, no_pairs, pair, Cell, value, Parts, nil, bytes, sub, count,
  count_pairs,
}
use python_rs_driver.Values.Scalars.{
  in_range, gives, size_overflow, Result, Writer, serialize_natives, of_bytes,
}
use python_rs_driver.Values.Scalars
use python_rs_driver.Values.Serialize.{
  get_item, elements, write_elem, or_null, same_error, serialize_arbitrary_value,
}
use python_rs_driver.Values.Deserialize.{Decoded, ok, ◌>>=◌, Reader, may_be_empty}

-- The parts that hold the cells and no other bytes, and those of pairs of cells.
unfoldable pub subs : List Cell → Parts
subs [] = nil
subs (c ∷ cs) = sub c (subs cs)

unfoldable pub pair_subs : List (Cell × Cell) → Parts
pair_subs [] = nil
pair_subs ((k, v) ∷ cs) = sub k (sub v (pair_subs cs))

-- The bits of an integer type beside its sign.
abbrev pub int_bits : NativeType → Option ℕ
int_bits tiny_int = some 7
int_bits small_int = some 15
int_bits int = some 31
int_bits big_int = some 63
int_bits counter = some 63
int_bits t = none

-- The types whose values the libraries convert.
abbrev pub extracts : NativeType → Bool
extracts tiny_int = false
extracts small_int = false
extracts int = false
extracts big_int = false
extracts counter = false
extracts unknown_native = false
extracts t = true

-- A cell that is too large for its length.
abbrev pub is_overflow : Result Cell → Bool
is_overflow (Scalars.err size_overflow) = true
is_overflow _ = false

abbrev pub is_none : PyValue → Bool
is_none py_none = true
is_none _ = false

-- Adding the items one by one to a container.
unfoldable pub add_all : (Items → PyValue → Decoded Items) → Items → Items → Decoded Items
add_all add acc no_items = ok acc
add_all add acc (item v vs) = add acc v >>= λ acc'. add_all add acc' vs

unfoldable pub add_pairs :
    (Pairs → PyValue → PyValue → Decoded Pairs) → Pairs → Pairs → Decoded Pairs
add_pairs set acc no_pairs = ok acc
add_pairs set acc (pair k v ps) = set acc k v >>= λ acc'. add_pairs set acc' ps

abbrev pub AllItems : (PyValue → Type 0) → Items → Type 0
AllItems P no_items = Unit {0}
AllItems P (item v vs) = P v × AllItems P vs

abbrev pub AllPairsOf : (PyValue → Type 0) → (PyValue → Type 0) → Pairs → Type 0
AllPairsOf P Q no_pairs = Unit {0}
AllPairsOf P Q (pair k v ps) = P k × Q v × AllPairsOf P Q ps

-- The types whose null reads as `None`; a null list, set or map reads as an empty one.
abbrev pub null_is_none : ColumnType → Bool
null_is_none (list_of t) = false
null_is_none (set_of t) = false
null_is_none (map_of k t) = false
null_is_none unknown_type = false
null_is_none _ = true

abbrev pub NonEmpty : Items → Type 0
NonEmpty no_items = ⊥
NonEmpty (item v vs) = Unit {0}

module _ (w : Writer) (r : Reader) where
  -- A scalar of a type: an integer in the type's range, or a value that the libraries extract as
  -- bytes and read from these.
  pub data IsScalar (t : NativeType) (v : PyValue) : Type 0 where
    is_int :
        (bits : ℕ) (n : ℤ)
        → int_bits t ≡ some bits
        → in_range bits n ≡ true
        → py_int n ≡ v
        → IsScalar t v
    is_extracted :
        (b : List ℕ)
        → extracts t ≡ true
        → w.scalar_bytes t v ≡ gives b
        → r.scalar t (bytes b nil) ≡ ok v
        → (is_empty b ≡ false) ⊎ (may_be_empty (native t) ≡ true)
        → is_none v ≡ false
        → IsScalar t v

  -- An element of a collection may be `None` if its type reads a null so.
  abbrev pub OrNone : ColumnType → (PyValue → Type 0) → PyValue → Type 0
  OrNone t P v = P v ⊎ ((v ≡ py_none) × (null_is_none t ≡ true))

  -- Writing the value does not fail for the size of its cell.
  abbrev pub IsWithin : ColumnType → PyValue → Type 0
  IsWithin t v = is_overflow (serialize_arbitrary_value w t v) ≡ false

  unfoldable mutual
    pub HasType : ColumnType → PyValue → Type 0
    HasType (native t) v = IsScalar t v
    HasType (list_of t) (py_list vs) =
        AllItems (OrNone t (HasType t)) vs × (count vs < 2 ^ 31) × IsWithin (list_of t) (py_list vs)
    HasType (set_of t) (py_set vs) =
        AllItems (OrNone t (HasType t)) vs
        × (count vs < 2 ^ 31)
        × (add_all r.set_add no_items vs ≡ ok vs)
        × IsWithin (set_of t) (py_set vs)
    HasType (map_of k t) (py_dict ps) =
        AllPairsOf (OrNone k (HasType k)) (OrNone t (HasType t)) ps
        × (count_pairs ps < 2 ^ 31)
        × (add_pairs r.dict_set no_pairs ps ≡ ok ps)
        × IsWithin (map_of k t) (py_dict ps)
    HasType (vector_of t dimensions) (py_list vs) =
        AllItems (HasType t) vs
        × (count vs ≡ dimensions)
        × NonEmpty vs
        × IsWithin (vector_of t dimensions) (py_list vs)
    HasType (udt_of (a_field name t fs)) (py_dict ps) =
        HasFields (a_field name t fs) ps ps
        × (add_pairs r.dict_set no_pairs ps ≡ ok ps)
        × IsWithin (udt_of (a_field name t fs)) (py_dict ps)
    HasType (tuple_of (a_type t ts)) (py_tuple vs) =
        HasTypes (a_type t ts) vs × IsWithin (tuple_of (a_type t ts)) (py_tuple vs)
    HasType _ _ = ⊥

    -- The fields are those of the type, in its order; each is found under its name in the dict.
    pub HasFields : Fields → Pairs → Pairs → Type 0
    HasFields no_fields dict no_pairs = Unit {0}
    HasFields (a_field name t fs) dict (pair k v ps) =
        (k ≡ py_str name) × (get_item dict name ≡ some v) × HasType t v × HasFields fs dict ps
    HasFields _ _ _ = ⊥

    pub HasTypes : Types → Items → Type 0
    HasTypes no_types no_items = Unit {0}
    HasTypes (a_type t ts) (item v vs) = HasType t v × HasTypes ts vs
    HasTypes _ _ = ⊥

-- How the elements of a vector are written.
abbrev pub vector_parts : Writer → ColumnType → Items → Result Parts
vector_parts w t vs =
    elements (write_elem w t (or_null (serialize_arbitrary_value w t))) same_error vs

-- The reader's iterators give the cells that the writer was given, where the cell that holds them
-- fits; the rest of what fits does too, a vector's builder takes what was written for its elements
-- as it is, an integer in the range of its type is read from the bytes it is written as, and it and
-- an `i32` have bytes.
pub record Agrees (w : Writer) (r : Reader) : Type 0 where
  pub list_agrees :
      (t : ColumnType) (cs : List Cell)
      → length cs < 2 ^ 31
      → w.fits (bytes (w.to_be_bytes (length cs)) (subs cs)) ≡ true
      → r.list_cells (list_of t) (bytes (w.to_be_bytes (length cs)) (subs cs)) ≡ ok (map ok cs)
  pub set_agrees :
      (t : ColumnType) (cs : List Cell)
      → length cs < 2 ^ 31
      → w.fits (bytes (w.to_be_bytes (length cs)) (subs cs)) ≡ true
      → r.list_cells (set_of t) (bytes (w.to_be_bytes (length cs)) (subs cs)) ≡ ok (map ok cs)
  pub map_agrees :
      (k t : ColumnType) (cs : List (Cell × Cell))
      → length cs < 2 ^ 31
      → w.fits (bytes (w.to_be_bytes (length cs)) (pair_subs cs)) ≡ true
      → r.map_cells (map_of k t) (bytes (w.to_be_bytes (length cs)) (pair_subs cs)) ≡ ok (map ok cs)
  pub vector_agrees :
      (t : ColumnType) (vs : Items) (cs : List Cell)
      → AllItems (HasType w r t) vs
      → NonEmpty vs
      → vector_parts w t vs ≡ Scalars.ok (subs cs)
      → w.fits (subs cs) ≡ true
      → r.vector_cells (vector_of t (length cs)) (subs cs) ≡ ok (map ok cs)
  pub field_agrees :
      (c : Cell) (p : Parts) → w.fits (sub c p) ≡ true → r.next_field (sub c p) ≡ ok (c, p)
  pub tuple_agrees :
      (c : Cell) (p : Parts) → w.fits (sub c p) ≡ true → r.read_cql_bytes (sub c p) ≡ ok (c, p)
  pub rest_fits : (c : Cell) (p : Parts) → w.fits (sub c p) ≡ true → w.fits p ≡ true
  pub constant_keeps :
      (t : ColumnType) (v : PyValue) (p : Parts)
      → HasType w r t v
      → serialize_arbitrary_value w t v ≡ Scalars.ok (value p)
      → w.type_size_for_vector t ≡ true
      → w.constant_length_elem (value p) ≡ Scalars.ok (value p)
  pub variable_keeps :
      (t : ColumnType) (v : PyValue) (p : Parts)
      → HasType w r t v
      → serialize_arbitrary_value w t v ≡ Scalars.ok (value p)
      → w.type_size_for_vector t ≡ false
      → w.variable_length_elem (value p) ≡ Scalars.ok (value p)
  pub int_agrees :
      (t : NativeType) (bits : ℕ) (n : ℤ)
      → int_bits t ≡ some bits
      → in_range bits n ≡ true
      → r.scalar t (bytes (w.int_bytes t n) nil) ≡ ok (py_int n)
  pub int_has_bytes :
      (t : NativeType) (bits : ℕ) (n : ℤ)
      → int_bits t ≡ some bits
      → in_range bits n ≡ true
      → is_empty (w.int_bytes t n) ≡ false
  pub count_has_bytes : (n : ℕ) → is_empty (w.to_be_bytes n) ≡ false
