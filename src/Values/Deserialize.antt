-- ===== src/Values/Deserialize.antt =====
-- src/deserialize/value.rs: a cell as a Python value. The iterators over a cell's parts are those of
-- the scylla crate, parameters here.
use python_rs_driver.Common.{ℕ, Bool, true, false, List, [], ◌∷◌, ◌+◌}
use python_rs_driver.Values.{
  NativeType, ascii, text, blob, unknown_native, ColumnType, native, list_of, set_of, map_of,
  vector_of, udt_of, tuple_of, unknown_type, Types, no_types, a_type, Fields, no_fields, a_field,
  PyValue, py_none, py_str, py_list, py_set, py_tuple, py_dict, Items, no_items, item, Pairs,
  no_pairs, Cell, null, value, Parts, no_bytes,
}

-- The errors of deserialization, with the path to the part that failed.
pub data DeError : Type 0 where
  scylla_decode_failed python_conversion_failed unsupported_type : DeError
  in_sequence_index in_map_index in_vector_index in_tuple_index : ℕ → DeError → DeError
  in_udt_field : (name : ℕ) → DeError → DeError
  -- A failed conversion to Python by the exception that another error was turned into.
  python_failed_with : DeError → DeError

pub data Decoded {ℓ} (A : Type ℓ) : Type ℓ where
  ok : A → Decoded A
  err : DeError → Decoded A

infixl 5 ◌>>=◌
abbrev pub ◌>>=◌ {ℓ κ} : {A : Type ℓ} {B : Type κ} → Decoded A → (A → Decoded B) → Decoded B
ok a >>= f = f a
err e >>= f = err e

abbrev pub context {ℓ} : {A : Type ℓ} → (DeError → DeError) → Decoded A → Decoded A
context f (ok a) = ok a
context f (err e) = err (f e)

-- What the libraries do for the deserializer. An iterator over a list, set or vector gives cells one
-- by one, `none` at its end, and one over a map gives pairs of cells; `next_field` reads the cell of
-- a field of a user-defined type, `read_cql_bytes` that of a tuple.
pub record Reader : Type 0 where
  pub scalar : NativeType → Parts → Decoded PyValue
  pub list_cells : ColumnType → Parts → Decoded (List (Decoded Cell))
  pub vector_cells : ColumnType → Parts → Decoded (List (Decoded Cell))
  pub map_cells : ColumnType → Parts → Decoded (List (Decoded (Cell × Cell)))
  pub next_field : Parts → Decoded (Cell × Parts)
  pub read_cql_bytes : Parts → Decoded (Cell × Parts)
  pub set_add : Items → PyValue → Decoded Items
  pub dict_set : Pairs → PyValue → PyValue → Decoded Pairs
  pub empty_value : Decoded PyValue

unfoldable pub append : Items → PyValue → Items
append no_items v = item v no_items
append (item x xs) v = item x (append xs v)

-- The loop of `deserialize_sequence` and of vectors, from the index `i` on.
unfoldable pub fill :
    (DeError → ℕ → DeError)
    → (Cell → Decoded PyValue)
    → (Items → PyValue → Decoded Items)
    → ℕ
    → Items
    → List (Decoded Cell)
    → Decoded Items
fill place read add i acc [] = ok acc
fill place read add i acc (c ∷ cs) = context (λ e. place e i) c >>= λ cell.
    context (λ e. place e i) (read cell) >>= λ v.
    context (λ e. place e i) (add acc v) >>= λ acc'. fill place read add (i + 1) acc' cs

unfoldable pub fill_dict :
    (Cell → Decoded PyValue)
    → (Cell → Decoded PyValue)
    → (Pairs → PyValue → PyValue → Decoded Pairs)
    → ℕ
    → Pairs
    → List (Decoded (Cell × Cell))
    → Decoded Pairs
fill_dict read_key read_value set i acc [] = ok acc
fill_dict read_key read_value set i acc (c ∷ cs) = context (in_map_index i) c >>= λ (k, v).
    context (in_map_index i) (read_key k) >>= λ key.
    context (in_map_index i) (read_value v) >>= λ val.
    context (in_map_index i) (set acc key val) >>= λ acc'.
    fill_dict read_key read_value set (i + 1) acc' cs

abbrev pub list_append : Items → PyValue → Decoded Items
list_append vs v = ok (append vs v)

-- A cell without bytes is `CqlEmpty`, but for text and blobs.
abbrev pub may_be_empty : ColumnType → Bool
may_be_empty (native ascii) = true
may_be_empty (native blob) = true
may_be_empty (native text) = true
may_be_empty t = false

abbrev pub unless_empty : Reader → Bool → Bool → Decoded PyValue → Decoded PyValue
unless_empty r true false full = r.empty_value
unless_empty r _ _ full = full

abbrev pub read_native : Reader → NativeType → Parts → Decoded PyValue
read_native r unknown_native p = err unsupported_type
read_native r t p = r.scalar t p

abbrev pub or_else : PyValue → (Parts → Decoded PyValue) → Cell → Decoded PyValue
or_else v read null = ok v
or_else v read (value p) = read p

-- The check for a cell without bytes, before `read`.
abbrev pub guarded : Reader → ColumnType → (Cell → Decoded PyValue) → Cell → Decoded PyValue
guarded r t read null = read null
guarded r t read (value p) = unless_empty r (no_bytes p) (may_be_empty t) (read (value p))

unfoldable mutual
  -- `deser_cql_py_value` past the check.
  pub read : Reader → ColumnType → Cell → Decoded PyValue
  read r (native t) c = or_else py_none (read_native r t) c
  read r (list_of t) c =
      or_else (py_list no_items)
        (λ p. r.list_cells (list_of t) p >>= λ cells.
          fill (λ e i. in_sequence_index i e) (guarded r t (read r t)) list_append 0 no_items cells
          >>= λ vs. ok (py_list vs))
        c
  read r (set_of t) c =
      or_else (py_set no_items)
        (λ p. r.list_cells (set_of t) p >>= λ cells.
          fill (λ e i. in_sequence_index i e) (guarded r t (read r t)) r.set_add 0 no_items cells
          >>= λ vs. ok (py_set vs))
        c
  read r (map_of k t) c =
      or_else (py_dict no_pairs)
        (λ p. r.map_cells (map_of k t) p >>= λ cells.
          fill_dict (guarded r k (read r k)) (guarded r t (read r t)) r.dict_set 0 no_pairs cells
          >>= λ ps. ok (py_dict ps))
        c
  read r (vector_of t dimensions) c =
      or_else py_none
        (λ p. r.vector_cells (vector_of t dimensions) p >>= λ cells.
          fill (λ e i. in_vector_index i e) (guarded r t (read r t)) list_append 0 no_items cells
          >>= λ vs. ok (py_list vs))
        c
  read r (udt_of fs) c =
      or_else py_none (λ p. read_fields r fs no_pairs p >>= λ ps. ok (py_dict ps)) c
  read r (tuple_of ts) c =
      or_else py_none
        (λ p. context python_failed_with (read_types r ts 0 p) >>= λ vs. ok (py_tuple vs)) c
  read r unknown_type c = err unsupported_type

  pub read_fields : Reader → Fields → Pairs → Parts → Decoded Pairs
  read_fields r no_fields acc p = ok acc
  read_fields r (a_field name t fs) acc p =
      context (in_udt_field name) (r.next_field p) >>= λ (c, rest).
      context (in_udt_field name) (guarded r t (read r t) c) >>= λ v.
      context (in_udt_field name) (r.dict_set acc (py_str name) v) >>= λ acc'.
      read_fields r fs acc' rest

  -- A cell that cannot be read leaves the slice where it was, but then the tuple fails.
  pub read_types : Reader → Types → ℕ → Parts → Decoded Items
  read_types r no_types i p = ok no_items
  read_types r (a_type t ts) i p = context (in_tuple_index i) (r.read_cql_bytes p) >>= λ (c, rest).
      context (in_tuple_index i) (guarded r t (read r t) c) >>= λ v.
      read_types r ts (i + 1) rest >>= λ vs. ok (item v vs)

unfoldable pub deserialize : Reader → ColumnType → Cell → Decoded PyValue
unfolding read
deserialize r t c = guarded r t (read r t) c
