-- ===== src/Values/Tests.antt =====
-- A writer and a reader that agree, and values that go there and back.
use python_rs_driver.Common.{
  false, ℕ, zero, suc, true, some, List, [], ◌∷◌, ◌≡◌, refl, arith, length, ◌<◌, ◌^◌, inl, inr, map,
  ap, ltb, ◌+◌, is_empty,
}
use python_rs_driver.CqlTypes.{ℤ, pos, negsuc}
use python_rs_driver.Values.{
  NativeType, tiny_int, small_int, big_int, counter, int, text, Types, ColumnType, native, list_of,
  set_of, map_of, vector_of, tuple_of, udt_of, no_types, a_type, no_fields, a_field, PyValue,
  py_none, py_int, py_str, py_list, py_set, py_tuple, py_dict, Items, no_items, item, Pairs,
  no_pairs, pair, Cell, null, value, Parts, nil, bytes, sub, cql_empty, count, count_types,
  count_pairs,
}
use python_rs_driver.Values.Scalars.{
  Writer, Extraction, gives, no_match, unsupported_type, serialize_natives,
}
use python_rs_driver.Values.Scalars
use python_rs_driver.Values.Serialize.{
  serialize, serialize_arbitrary_value, serialize_sequence, serialize_map, serialize_vector,
  elements, entries, get_item,
}
use python_rs_driver.Values.Deserialize.{
  Decoded, ok, err, scylla_decode_failed, Reader, deserialize, append,
}
use python_rs_driver.Values.Typing.{
  subs, pair_subs, Agrees, IsScalar, is_int, is_extracted, int_bits, HasType, add_all, add_pairs,
}
use python_rs_driver.Values.Elements.{ltb-true}
use python_rs_driver.Values.RoundTrip.{deserialize-serialize}
use python_rs_driver.Values.Nulls.{
  null_here, null_later, none_field, later_field, read-serialize_tuple, serialize-udt_none,
}
use python_rs_driver.Values.Rows.{
  Lookup, found, key_error, PyMapping, sequence, mapping, ColumnSpec, wrote, serialize_row, extract,
  a_list, empty,
}
use python_rs_driver.Values.Binding.{
  written_cells, Named, RowHasType, ReadsAs, mapping-sequence, serialize_row-length,
  serialize_row-ReadsAs,
}

-- Strings are written as the number of their text, small integers as themselves.
abbrev text_bytes : NativeType → PyValue → Extraction
text_bytes text (py_str s) = gives (s ∷ [])
text_bytes t v = no_match

abbrev cells : Parts → List (Decoded Cell)
cells nil = []
cells (bytes b p) = cells p
cells (sub c p) = ok c ∷ cells p

abbrev cell_pairs : Parts → List (Decoded (Cell × Cell))
cell_pairs (bytes b p) = cell_pairs p
cell_pairs (sub k (sub v p)) = ok (k, v) ∷ cell_pairs p
cell_pairs p = []

abbrev next : Parts → Decoded (Cell × Parts)
next (sub c p) = ok (c, p)
next p = err scylla_decode_failed

abbrev int_of : List ℕ → Decoded PyValue
int_of (n ∷ []) = ok (py_int (pos n))
int_of (zero ∷ n ∷ []) = ok (py_int (negsuc n))
int_of b = err scylla_decode_failed

abbrev scalar_of : NativeType → List ℕ → Decoded PyValue
scalar_of text (s ∷ []) = ok (py_str s)
scalar_of tiny_int b = int_of b
scalar_of small_int b = int_of b
scalar_of int b = int_of b
scalar_of big_int b = int_of b
scalar_of counter b = int_of b
scalar_of t b = err scylla_decode_failed

abbrev scalar : NativeType → Parts → Decoded PyValue
scalar t (bytes b nil) = scalar_of t b
scalar t p = err scylla_decode_failed

abbrev set_item : Pairs → PyValue → PyValue → Pairs
set_item no_pairs k v = pair k v no_pairs
set_item (pair k v ps) k' v' = pair k v (set_item ps k' v')

abbrev int_bytes : NativeType → ℤ → List ℕ
int_bytes t (pos n) = n ∷ []
int_bytes t (negsuc n) = 0 ∷ n ∷ []

-- A bound on the bytes of the parts, with nine for the length of each.
unfoldable mutual
  parts_size : Parts → ℕ
  parts_size nil = 0
  parts_size (bytes b p) = length b + parts_size p
  parts_size (sub c p) = 9 + cell_size c + parts_size p

  cell_size : Cell → ℕ
  cell_size null = 0
  cell_size (value p) = parts_size p

ltb-rest : (c p : ℕ) → ltb (9 + c + p) (2 ^ 31) ≡ true → ltb p (2 ^ 31) ≡ true
ltb-rest c p h = ground arith

abbrev writer : Writer
writer = record {
  int_bytes = int_bytes;
  scalar_bytes = text_bytes;
  to_be_bytes = λ n. n ∷ [];
  fits = λ p. ltb (parts_size p) (2 ^ 31);
  type_size_for_vector = λ t. true;
  constant_length_elem = λ c. Scalars.ok c;
  variable_length_elem = λ c. Scalars.ok c;
}

abbrev reader : Reader
reader = record {
  scalar = scalar;
  list_cells = λ t p. ok (cells p);
  vector_cells = λ t p. ok (cells p);
  map_cells = λ t p. ok (cell_pairs p);
  next_field = next;
  read_cql_bytes = next;
  set_add = λ vs v. ok (append vs v);
  dict_set = λ ps k v. ok (set_item ps k v);
  empty_value = ok cql_empty;
}

cells-subs : (cs : List Cell) → cells (subs cs) ≡ map ok cs
unfolding subs
cells-subs [] = refl
cells-subs (c ∷ cs) = ap (λ xs. ok c ∷ xs) (cells-subs cs)

cell_pairs-pair_subs : (cs : List (Cell × Cell)) → cell_pairs (pair_subs cs) ≡ map ok cs
unfolding pair_subs
cell_pairs-pair_subs [] = refl
cell_pairs-pair_subs ((k, v) ∷ cs) = ap (λ xs. ok (k, v) ∷ xs) (cell_pairs-pair_subs cs)

ints-agree :
    (t : NativeType) (bits : ℕ) (n : ℤ)
    → int_bits t ≡ some bits
    → reader.scalar t (bytes (int_bytes t n) nil) ≡ ok (py_int n)
ints-agree tiny_int bits (pos n) e = refl
ints-agree tiny_int bits (negsuc n) e = refl
ints-agree small_int bits (pos n) e = refl
ints-agree small_int bits (negsuc n) e = refl
ints-agree int bits (pos n) e = refl
ints-agree int bits (negsuc n) e = refl
ints-agree big_int bits (pos n) e = refl
ints-agree big_int bits (negsuc n) e = refl
ints-agree counter bits (pos n) e = refl
ints-agree counter bits (negsuc n) e = refl
ints-agree _ bits n e = absurd cc

ints-have_bytes : (t : NativeType) (n : ℤ) → is_empty (int_bytes t n) ≡ false
ints-have_bytes t (pos n) = refl
ints-have_bytes t (negsuc n) = refl

agrees : Agrees writer reader
unfolding parts_size
agrees = record {
  list_agrees = λ t cs few fit. ap ok (cells-subs cs);
  set_agrees = λ t cs few fit. ap ok (cells-subs cs);
  map_agrees = λ k t cs few fit. ap ok (cell_pairs-pair_subs cs);
  vector_agrees = λ t vs cs typed full written fit. ap ok (cells-subs cs);
  field_agrees = λ c p fit. refl;
  tuple_agrees = λ c p fit. refl;
  rest_fits = λ c p fit. ltb-rest (cell_size c) (parts_size p) fit;
  constant_keeps = λ t v p typed written size. refl;
  variable_keeps = λ t v p typed written size. refl;
  int_agrees = λ t bits n e within. ints-agree t bits n e;
  int_has_bytes = λ t bits n e within. ints-have_bytes t n;
  count_has_bytes = λ n. refl;
}

int-IsScalar : (n : ℕ) → n < 2 ^ 31 → IsScalar writer reader int (py_int (pos n))
int-IsScalar n small = is_int 31 (pos n) refl (ltb-true n (2 ^ 31) small) refl

text-IsScalar : (s : ℕ) → IsScalar writer reader text (py_str s)
text-IsScalar s = is_extracted (s ∷ []) refl refl refl (inl refl) refl

-- A list of tuples of an integer and a map of texts to sets of vectors of integers.
abbrev vectors : ColumnType
vectors = vector_of (native int) 2

abbrev column : ColumnType
column =
    list_of
      (tuple_of (a_type (native int) (a_type (map_of (native text) (set_of vectors)) no_types)))

abbrev a_vector : PyValue
a_vector = py_list (item (py_int (pos 8)) (item (py_int (pos 9)) no_items))

abbrev a_set : PyValue
a_set = py_set (item a_vector (item py_none no_items))

abbrev a_map : PyValue
a_map = py_dict (pair (py_str 4) a_set no_pairs)

abbrev nested : PyValue
nested =
    py_list (item (py_tuple (item (py_int (pos 7)) (item a_map no_items))) (item py_none no_items))

-- Opens all that writing a container computes with.
computing : Unit {0}
unfolding HasType count count_types count_pairs add_all add_pairs append serialize_arbitrary_value
    serialize_natives serialize_vector serialize_sequence serialize_map elements entries parts_size
    cell_size
computing = tt

vector-HasType : HasType writer reader vectors a_vector
unfolding computing
vector-HasType =
    ((int-IsScalar 8 (omega arith), (int-IsScalar 9 (omega arith), tt)), refl, tt, refl)

set-HasType : HasType writer reader (set_of vectors) a_set
unfolding computing
set-HasType = ((inl vector-HasType, (inr (refl, refl), tt)), omega arith, refl, refl)

map-HasType : HasType writer reader (map_of (native text) (set_of vectors)) a_map
unfolding computing
map-HasType = ((inl (text-IsScalar 4), inl set-HasType, tt), omega arith, refl, refl)

nested-HasType : HasType writer reader column nested
unfolding computing
nested-HasType = (
  (inl ((int-IsScalar 7 (omega arith), (map-HasType, tt)), refl), (inr (refl, refl), tt)),
  omega arith,
  refl,
)

deserialize-serialize_example :
    (c : Cell) × (serialize writer column nested ≡ Scalars.ok c)
    × (deserialize reader column c ≡ ok nested)
deserialize-serialize_example =
    deserialize-serialize writer reader agrees column nested (inl nested-HasType)

-- A tuple of an integer and a text that is null.
abbrev a_tuple_type : Types
a_tuple_type = a_type (native int) (a_type (native text) no_types)

abbrev null_text : Parts
null_text = sub (value (bytes (5 ∷ []) nil)) (sub null nil)

abbrev with_none : PyValue
with_none = py_tuple (item (py_int (pos 5)) (item py_none no_items))

null_text-reads : deserialize reader (tuple_of a_tuple_type) (value null_text) ≡ ok with_none
unfolding deserialize
null_text-reads = refl

read-serialize_tuple_example :
    ¬ (serialize writer (tuple_of a_tuple_type) with_none ≡ Scalars.ok (value null_text))
read-serialize_tuple_example =
    read-serialize_tuple writer reader a_tuple_type null_text with_none (value null_text)
      (null_later refl (null_here refl refl)) null_text-reads

none-found :
    get_item (pair (py_str 6) py_none (pair (py_str 5) (py_int (pos 1)) no_pairs)) 6 ≡ some py_none
unfolding get_item
none-found = refl

serialize-udt_none_example : ¬ (
    serialize writer
      (udt_of (a_field 5 (native int) (a_field 6 (native text) no_fields)))
      (py_dict (pair (py_str 6) py_none (pair (py_str 5) (py_int (pos 1)) no_pairs)))
    ≡ Scalars.ok (value null_text))
serialize-udt_none_example =
    serialize-udt_none writer (a_field 5 (native int) (a_field 6 (native text) no_fields))
      (pair (py_str 6) py_none (pair (py_str 5) (py_int (pos 1)) no_pairs)) (value null_text)
      (later_field (none_field refl none-found))

abbrev columns : List ColumnSpec
columns = record { name = 1; typ = native int } ∷ record { name = 2; typ = native text } ∷ []

abbrev values : Items
values = item (py_int (pos 5)) (item py_none no_items)

abbrev row_lookup : ℕ → Lookup
row_lookup (suc zero) = found (py_int (pos 5))
row_lookup (suc (suc zero)) = found py_none
row_lookup _ = key_error

abbrev values_mapping : PyMapping
values_mapping = record { len = some 2; get_item = row_lookup }

values-Named : Named values_mapping columns values
unfolding Named
values-Named = (refl, (refl, tt))

mapping-sequence_example :
    written_cells (serialize_row writer columns (mapping values_mapping))
    ≡ written_cells (serialize_row writer columns (sequence values))
unfolding count
mapping-sequence_example = mapping-sequence writer columns values_mapping values refl values-Named

values-RowHasType : RowHasType writer reader columns values
unfolding RowHasType HasType
values-RowHasType = (inl (int-IsScalar 5 (omega arith)), (inr (refl, refl), tt))

serialize_row-ReadsAs_example :
    (cs : List Cell) × (serialize_row writer columns (sequence values) ≡ wrote cs)
    × ReadsAs reader columns cs values
serialize_row-ReadsAs_example =
    serialize_row-ReadsAs writer reader agrees columns values values-RowHasType

abbrev row_cells : List Cell
row_cells = value (bytes (5 ∷ []) nil) ∷ null ∷ []

row_is_written : serialize_row writer columns (sequence values) ≡ wrote row_cells
unfolding serialize_row serialize serialize_natives count
row_is_written = refl

serialize_row-length_example : length row_cells ≡ length columns
serialize_row-length_example =
    serialize_row-length writer columns (sequence values) row_cells row_is_written

no_values_are_empty : extract (a_list no_items) ≡ some empty
unfolding extract
no_values_are_empty = refl
