-- ===== src/Values/Binding.antt =====
-- src/serialize/value_list.rs: what binding values to columns writes.
use python_rs_driver.Common.{
  ℕ, suc, true, false, Option, none, some, List, [], ◌∷◌, ◌≡◌, refl, ap, arith, ◌+◌, ◌==◌, length,
  if◌then◌else◌,
}
use python_rs_driver.Values.{Items, no_items, item, Cell, count}
use python_rs_driver.Values.Scalars.{SerError, Result, ok, err, Writer}
use python_rs_driver.Values.Serialize.{serialize}
use python_rs_driver.Values.Deserialize.{Reader, deserialize}
use python_rs_driver.Values.Deserialize
use python_rs_driver.Values.Typing.{Agrees, OrNone, HasType}
use python_rs_driver.Values.RoundTrip.{deserialize-serialize}
use python_rs_driver.Values.Rows.{
  Lookup, found, key_error, raises, PyMapping, PyValueList, sequence, mapping, empty, ColumnSpec,
  RowError, Written, wrote, failed, also, serialize_element, length_equality_check, write_found,
  mapping_of_len, write_empty, write_sequence, write_mapping, serialize_row,
}

-- The cells of a row, without the error.
unfoldable pub written_cells : Written → Option (List Cell)
written_cells (wrote cs) = some cs
written_cells (failed e) = none

-- The mapping has, under each column's name, the value in the column's place.
unfoldable pub Named : PyMapping → List ColumnSpec → Items → Type 0
Named m [] no_items = Unit {0}
Named m (col ∷ cols) (item v vs) = (m.get_item col.name ≡ found v) × Named m cols vs
Named m _ _ = ⊥

unfoldable pub RowHasType : Writer → Reader → List ColumnSpec → Items → Type 0
RowHasType w r [] no_items = Unit {0}
RowHasType w r (col ∷ cols) (item v vs) =
    OrNone w r col.typ (HasType w r col.typ) v × RowHasType w r cols vs
RowHasType w r _ _ = ⊥

-- Each cell is read, as its column's type, as the value in its place.
unfoldable pub ReadsAs : Reader → List ColumnSpec → List Cell → Items → Type 0
ReadsAs r [] [] no_items = Unit {0}
ReadsAs r (col ∷ cols) (c ∷ cs) (item v vs) =
    (deserialize r col.typ c ≡ Deserialize.ok v) × ReadsAs r cols cs vs
ReadsAs r _ _ _ = ⊥

some_eq : {xs ys : List Cell} → some xs ≡ some ys → xs ≡ ys
some_eq e = cc

wrote_inj : {xs ys : List Cell} → wrote xs ≡ wrote ys → xs ≡ ys
wrote_inj e = cc

equal_self : (n : ℕ) → (n == n) ≡ true
equal_self n = ground arith

also-cells :
    (c : Cell) (x y : Written)
    → written_cells x ≡ written_cells y
    → written_cells (also c x) ≡ written_cells (also c y)
unfolding written_cells
also-cells c (wrote xs) (wrote ys) h = ap some (ap (λ zs. c ∷ zs) (some_eq h))
also-cells c (wrote xs) (failed e) h = absurd cc
also-cells c (failed e) (wrote ys) h = absurd cc
also-cells c (failed e) (failed f) h = refl

element-cells :
    (place place' : SerError → RowError) (c : Result Cell) (x y : Written)
    → written_cells x ≡ written_cells y
    → written_cells (serialize_element place c x) ≡ written_cells (serialize_element place' c y)
unfolding written_cells
element-cells place place' (ok c) x y h = also-cells c x y h
element-cells place place' (err e) x y h = refl

write_mapping-write_sequence :
    (w : Writer) (m : PyMapping) (i : ℕ) (cols : List ColumnSpec) (vs : Items)
    → Named m cols vs
    → written_cells (write_mapping w m cols) ≡ written_cells (write_sequence w i cols vs)
unfolding Named write_mapping write_sequence
write_mapping-write_sequence w m i [] no_items h = refl
write_mapping-write_sequence w m i [] (item v vs) h = absurd h
write_mapping-write_sequence w m i (col ∷ cols) no_items h = absurd h
write_mapping-write_sequence w m i (col ∷ cols) (item v vs) h = rw (h.0) (
    element-cells _ _ (serialize w col.typ v) _ _
      (write_mapping-write_sequence w m (i + 1) cols vs h.1))

checked-cells :
    (n k : ℕ) (x y : Written) (e f : RowError)
    → written_cells x ≡ written_cells y
    → written_cells (if n == k then x else failed e)
      ≡ written_cells (if n == k then y else failed f)
unfolding written_cells
checked-cells n k x y e f h =
    elim (n == k)
      as (λ b.
        written_cells (if b then x else failed e) ≡ written_cells (if b then y else failed f)) [
          | true ↦ h
          | false ↦ refl
        ]

-- A mapping of as many values as the sequence that has each value under the name of the column in its
-- place writes the cells that the sequence writes, and fails when the sequence fails.
pub mapping-sequence :
    (w : Writer) (cols : List ColumnSpec) (m : PyMapping) (vs : Items)
    → m.len ≡ some (count vs)
    → Named m cols vs
    → written_cells (serialize_row w cols (mapping m))
      ≡ written_cells (serialize_row w cols (sequence vs))
unfolding serialize_row
mapping-sequence w cols m vs len h =
    rw len (
      checked-cells (count vs) (length cols) _ _ _ _ (write_mapping-write_sequence w m 0 cols vs h))

element-wrote :
    (place : SerError → RowError) (c : Result Cell) (x : Written) (n : ℕ)
    → ((cs : List Cell) → x ≡ wrote cs → length cs ≡ n)
    → (cs : List Cell) → serialize_element place c x ≡ wrote cs
    → length cs ≡ suc n
element-wrote place (ok c) (wrote xs) n h cs e = let e' = h xs refl in cc
element-wrote place (ok c) (failed f) n h cs e = absurd cc
element-wrote place (err e') x n h cs e = absurd cc

write_sequence-length :
    (w : Writer) (i : ℕ) (cols : List ColumnSpec) (vs : Items)
    → count vs ≡ length cols
    → (cs : List Cell) → write_sequence w i cols vs ≡ wrote cs
    → length cs ≡ length cols
unfolding write_sequence count
write_sequence-length w i [] vs n cs e = cc
write_sequence-length w i (col ∷ cols) no_items n cs e = absurd (omega arith)
write_sequence-length w i (col ∷ cols) (item v vs) n cs e =
    element-wrote _ (serialize w col.typ v) _ (length cols)
      (write_sequence-length w (i + 1) cols vs (omega arith)) cs e

found-wrote :
    (w : Writer) (col : ColumnSpec) (l : Lookup) (x : Written) (n : ℕ)
    → ((cs : List Cell) → x ≡ wrote cs → length cs ≡ n)
    → (cs : List Cell) → write_found w col l x ≡ wrote cs
    → length cs ≡ suc n
found-wrote w col (found v) x n h cs e = element-wrote _ (serialize w col.typ v) x n h cs e
found-wrote w col key_error x n h cs e = absurd cc
found-wrote w col raises x n h cs e = absurd cc

write_mapping-length :
    (w : Writer) (m : PyMapping) (cols : List ColumnSpec) (cs : List Cell)
    → write_mapping w m cols ≡ wrote cs
    → length cs ≡ length cols
unfolding write_mapping
write_mapping-length w m [] cs e = rw (← wrote_inj e) refl
write_mapping-length w m (col ∷ cols) cs e =
    found-wrote w col (m.get_item col.name) _ (length cols) (write_mapping-length w m cols) cs e

checked-wrote :
    (n k : ℕ) (x : Written) (cs : List Cell)
    → length_equality_check n k x ≡ wrote cs
    → (n ≡ k → x ≡ wrote cs → length cs ≡ k)
    → length cs ≡ k
checked-wrote n k x cs e h = ground arith

mapping-wrote :
    (w : Writer) (m : PyMapping) (cols : List ColumnSpec) (len : Option ℕ) (cs : List Cell)
    → mapping_of_len w m cols len ≡ wrote cs
    → length cs ≡ length cols
mapping-wrote w m cols none cs e = absurd cc
mapping-wrote w m cols (some n) cs e =
    checked-wrote n (length cols) _ cs e (λ same e'. write_mapping-length w m cols cs e')

empty-wrote :
    (cols : List ColumnSpec) (cs : List Cell)
    → write_empty cols ≡ wrote cs
    → length cs ≡ length cols
empty-wrote [] cs e = rw (← wrote_inj e) refl
empty-wrote (col ∷ cols) cs e = absurd cc

-- A row that is written without error has a cell for each column, be the values a sequence, a mapping
-- or nothing.
pub serialize_row-length :
    (w : Writer) (cols : List ColumnSpec) (l : PyValueList) (cs : List Cell)
    → serialize_row w cols l ≡ wrote cs
    → length cs ≡ length cols
unfolding serialize_row
serialize_row-length w cols (sequence vs) cs e =
    checked-wrote (count vs) (length cols) _ cs e
      (λ same e'. write_sequence-length w 0 cols vs same cs e')
serialize_row-length w cols (mapping m) cs e = mapping-wrote w m cols m.len cs e
serialize_row-length w cols empty cs e = empty-wrote cols cs e

RowHasType-count :
    (w : Writer) (r : Reader) (cols : List ColumnSpec) (vs : Items)
    → RowHasType w r cols vs
    → count vs ≡ length cols
unfolding RowHasType count
RowHasType-count w r [] no_items h = refl
RowHasType-count w r (col ∷ cols) (item v vs) h = ap suc (RowHasType-count w r cols vs h.1)
RowHasType-count w r [] (item v vs) h = absurd h
RowHasType-count w r (col ∷ cols) no_items h = absurd h

write_sequence-ReadsAs :
    (w : Writer) (r : Reader) (agrees : Agrees w r) (i : ℕ) (cols : List ColumnSpec) (vs : Items)
    → RowHasType w r cols vs
    → (cs : List Cell) × (write_sequence w i cols vs ≡ wrote cs) × ReadsAs r cols cs vs
unfolding RowHasType write_sequence ReadsAs
write_sequence-ReadsAs w r agrees i [] no_items h = ([], refl, tt)
write_sequence-ReadsAs w r agrees i [] (item v vs) h = absurd h
write_sequence-ReadsAs w r agrees i (col ∷ cols) no_items h = absurd h
write_sequence-ReadsAs w r agrees i (col ∷ cols) (item v vs) h =
    let (c, writes, reads) = deserialize-serialize w r agrees col.typ v h.0 in
    let (cs, e, rest) = write_sequence-ReadsAs w r agrees (i + 1) cols vs h.1 in
    (c ∷ cs, rw writes (rw e refl), (reads, rest))

-- With a writer and a reader that agree on the layout of containers and integers, a sequence of
-- values of the columns' types, or `None` where a type's null is `None`, is written as a row,
-- whose cells are read as the values: integers in the range of their types, other scalars that
-- the libraries read from the bytes that they extract of them, and containers of such values that
-- are not too large for a cell, whose items added one by one give them.
pub serialize_row-ReadsAs :
    (w : Writer) (r : Reader) (agrees : Agrees w r) (cols : List ColumnSpec) (vs : Items)
    → RowHasType w r cols vs
    → (cs : List Cell) × (serialize_row w cols (sequence vs) ≡ wrote cs) × ReadsAs r cols cs vs
unfolding serialize_row
serialize_row-ReadsAs w r agrees cols vs h =
    let (cs, e, reads) = write_sequence-ReadsAs w r agrees 0 cols vs h in
    (cs, rw (RowHasType-count w r cols vs h) (rw (equal_self (length cols)) e), reads)
