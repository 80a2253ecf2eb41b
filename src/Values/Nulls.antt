-- ===== src/Values/Nulls.antt =====
-- `None` inside a tuple or a user-defined type: it is read from a null, but it is not written.
use python_rs_driver.Common.{ℕ, ◌+◌, ltb, Bool, true, false, some, ◌≡◌, refl, subst}
use python_rs_driver.Values.{
  NativeType, tiny_int, small_int, int, big_int, counter, varint, float, double, decimal, boolean,
  ascii, text, blob, date, duration, time, timestamp, inet, uuid, timeuuid, unknown_native, native,
  ColumnType, Types, PyValue, Items, Pairs, Fields, Cell, Parts, udt_of, tuple_of, a_type, a_field,
  py_none, py_tuple, py_dict, item, null, value, sub, no_bytes, count, count_types,
}
use python_rs_driver.Values.Scalars.{
  Writer, Result, SerError, no_match, unsupported_type, serialize_natives, mismatched_type_error,
  map_type_to_expected,
}
use python_rs_driver.Values.Scalars
use python_rs_driver.Values.Serialize.{
  serialize, serialize_arbitrary_value, serialize_types, serialize_fields, get_item, tuple_checked,
  finish, field_value,
}
use python_rs_driver.Values.Deserialize.{
  Decoded, DeError, in_tuple_index, python_failed_with, context, ok, err, ◌>>=◌, Reader, guarded,
  read, read_types, deserialize,
}

serialize_natives-none :
    (w : Writer) (t : NativeType)
    → w.scalar_bytes t py_none ≡ no_match
    → serialize_natives w t py_none ≡ Scalars.err unsupported_type
unfolding serialize_natives mismatched_type_error
serialize_natives-none w tiny_int h = refl
serialize_natives-none w small_int h = refl
serialize_natives-none w int h = refl
serialize_natives-none w big_int h = refl
serialize_natives-none w counter h = refl
serialize_natives-none w unknown_native h = refl
serialize_natives-none w varint h = rw h refl
serialize_natives-none w float h = rw h refl
serialize_natives-none w double h = rw h refl
serialize_natives-none w decimal h = rw h refl
serialize_natives-none w boolean h = rw h refl
serialize_natives-none w ascii h = rw h refl
serialize_natives-none w text h = rw h refl
serialize_natives-none w blob h = rw h refl
serialize_natives-none w date h = rw h refl
serialize_natives-none w duration h = rw h refl
serialize_natives-none w time h = rw h refl
serialize_natives-none w timestamp h = rw h refl
serialize_natives-none w inet h = rw h refl
serialize_natives-none w uuid h = rw h refl
serialize_natives-none w timeuuid h = rw h refl

-- Parts of a tuple's cell with a null at a scalar that `None` does not extract as, wherever, of which
-- the parts up to it can be read.
pub data NullAt (w : Writer) (r : Reader) : Types → Parts → Type 0 where
  null_here :
      {t : NativeType} {ts : Types} {p : Parts}
      → w.scalar_bytes t py_none ≡ no_match
      → r.read_cql_bytes (sub null p) ≡ ok (null, p)
      → NullAt w r (a_type (native t) ts) (sub null p)
  null_later :
      {t : ColumnType} {ts : Types} {c : Cell} {p : Parts}
      → r.read_cql_bytes (sub c p) ≡ ok (c, p)
      → NullAt w r ts p
      → NullAt w r (a_type t ts) (sub c p)

-- Items with a `None` there.
data NoneAt (w : Writer) : Types → Items → Type 0 where
  none_here :
      {t : NativeType} {ts : Types} {vs : Items}
      → w.scalar_bytes t py_none ≡ no_match
      → NoneAt w (a_type (native t) ts) (item py_none vs)
  none_later :
      {t : ColumnType} {ts : Types} {v : PyValue} {vs : Items}
      → NoneAt w ts vs
      → NoneAt w (a_type t ts) (item v vs)

ok_inj : (a b : Items) → Decoded.ok a ≡ ok b → a ≡ b
ok_inj a b h = cc

value_inj : (a b : PyValue) → Decoded.ok a ≡ ok b → a ≡ b
value_inj a b h = cc

rest-item :
    (d : Decoded Items) (v : PyValue) (vs : Items)
    → (d >>= λ xs. ok (item v xs)) ≡ ok vs
    → (xs : Items) × (d ≡ ok xs) × (item v xs ≡ vs)
rest-item (ok xs) v vs h = (xs, refl, ok_inj (item v xs) vs h)
rest-item (err e) v vs h = absurd cc

then-item :
    (f : DeError → DeError) (g : Decoded PyValue) (d : Decoded Items) (vs : Items)
    → (context f g >>= λ v. d >>= λ xs. ok (item v xs)) ≡ ok vs
    → (v : PyValue) × (xs : Items) × (d ≡ ok xs) × (item v xs ≡ vs)
then-item f (ok v) d vs h = let (xs, e, e') = rest-item d v vs h in (v, xs, e, e')
then-item f (err e) d vs h = absurd cc

read-NoneAt :
    (w : Writer) (r : Reader) {ts : Types} {p : Parts} (i : ℕ) (vs : Items)
    → NullAt w r ts p
    → read_types r ts i p ≡ ok vs
    → NoneAt w ts vs
unfolding read
read-NoneAt w r i vs (null_here {t} {ts} {p} refused reads) h =
    let (xs, _, e) = rest-item (read_types r ts (i + 1) p) py_none vs (rw reads at h) in
    subst (NoneAt w (a_type (native t) ts)) e (none_here refused)
read-NoneAt w r i vs (null_later {t} {ts} {c} {p} reads later) h =
    let (v, xs, d, e) =
      then-item (in_tuple_index i) (guarded r t (read r t) c) (read_types r ts (i + 1) p) vs
        (rw reads at h) in
    subst (NoneAt w (a_type t ts)) e (none_later (read-NoneAt w r (i + 1) xs later d))

-- Neither of two parts is written, if one of them fails.
first-refused :
    (x : Result Cell) (y : Result Parts) (e : SerError) (q : Parts)
    → x ≡ Scalars.err e
    → Scalars.◌>>=◌ x (λ c. Scalars.◌>>=◌ y (λ p. Scalars.ok (sub c p))) ≡ Scalars.ok q
    → ⊥
first-refused x y e q h k = cc

rest-refused :
    (x : Result Cell) (y : Result Parts) (q : Parts)
    → ((p : Parts) → y ≡ Scalars.ok p → ⊥)
    → Scalars.◌>>=◌ x (λ c. Scalars.◌>>=◌ y (λ p. Scalars.ok (sub c p))) ≡ Scalars.ok q
    → ⊥
rest-refused (Scalars.ok c) (Scalars.ok p) q f h = f p refl
rest-refused (Scalars.ok c) (Scalars.err e) q f h = cc
rest-refused (Scalars.err e) y q f h = cc

types-refused :
    (w : Writer) {ts : Types} {vs : Items}
    → NoneAt w ts vs
    → (q : Parts) → serialize_types w ts vs ≡ Scalars.ok q
    → ⊥
unfolding serialize_types
types-refused w (none_here {t} {ts} {vs} refused) q h =
    first-refused (serialize_natives w t py_none) (serialize_types w ts vs) unsupported_type q
      (serialize_natives-none w t refused) h
types-refused w (none_later {t} {ts} {v} {vs} later) q h =
    rest-refused (serialize_arbitrary_value w t v) (serialize_types w ts vs) q
      (types-refused w later) h

NullAt-full :
    (w : Writer) (r : Reader) {ts : Types} {p : Parts} → NullAt w r ts p → no_bytes p ≡ false
NullAt-full w r (null_here refused reads) = refl
NullAt-full w r (null_later reads later) = refl

tuple-read :
    (f : DeError → DeError) (d : Decoded Items) (v : PyValue)
    → (context f d >>= λ vs. ok (py_tuple vs)) ≡ ok v
    → (vs : Items) × (d ≡ ok vs) × (py_tuple vs ≡ v)
tuple-read f (ok vs) v h = (vs, refl, value_inj (py_tuple vs) v h)
tuple-read f (err e) v h = absurd cc

deserialize-tuple :
    (w : Writer) (r : Reader) (ts : Types) (p : Parts) (v : PyValue)
    → no_bytes p ≡ false
    → deserialize r (tuple_of ts) (value p) ≡ ok v
    → (vs : Items) × (read_types r ts 0 p ≡ ok vs) × (py_tuple vs ≡ v)
unfolding deserialize read
deserialize-tuple w r ts p v full h =
    tuple-read python_failed_with (read_types r ts 0 p) v (rw full at h)

checked-refused :
    (w : Writer) (b : Bool) (n m : ℕ) (y : Result Parts) (c : Cell)
    → ((q : Parts) → y ≡ Scalars.ok q → ⊥)
    → Scalars.◌>>=◌ (tuple_checked b n m y) (finish w) ≡ Scalars.ok c
    → ⊥
checked-refused w true n m y c f h = cc
checked-refused w false n m (Scalars.ok q) c f h = f q refl
checked-refused w false n m (Scalars.err e) c f h = cc

tuple-refused :
    (w : Writer) (ts : Types) (vs : Items) (c : Cell)
    → NoneAt w ts vs
    → serialize w (tuple_of ts) (py_tuple vs) ≡ Scalars.ok c
    → ⊥
unfolding serialize serialize_arbitrary_value
tuple-refused w ts vs c none h =
    checked-refused w (ltb (count_types ts) (count vs)) (count vs) (count_types ts)
      (serialize_types w ts vs) c (types-refused w none) h

-- A tuple that was read from a cell with a null at a scalar that `None` does not extract as, at any
-- place and among elements of any types, is refused as a value for the same column, where the
-- reader gives the parts up to that null back as they are.
pub read-serialize_tuple :
    (w : Writer) (r : Reader) (ts : Types) (p : Parts) (v : PyValue) (c : Cell)
    → NullAt w r ts p
    → deserialize r (tuple_of ts) (value p) ≡ ok v
    → ¬ (serialize w (tuple_of ts) v ≡ Scalars.ok c)
read-serialize_tuple w r ts p v c null_at h written =
    let (vs, e, e') = deserialize-tuple w r ts p v (NullAt-full w r null_at) h in
    tuple-refused w ts vs c (read-NoneAt w r 0 vs null_at e) (rw (← e') at written)

-- A field, of a scalar type that `None` does not extract as, for which the dict has `None`.
pub data NoneField (w : Writer) (dict : Pairs) : Fields → Type 0 where
  none_field :
      {name : ℕ} {t : NativeType} {fs : Fields}
      → w.scalar_bytes t py_none ≡ no_match
      → get_item dict name ≡ some py_none
      → NoneField w dict (a_field name (native t) fs)
  later_field :
      {name : ℕ} {t : ColumnType} {fs : Fields}
      → NoneField w dict fs
      → NoneField w dict (a_field name t fs)

fields-refused :
    (w : Writer) (dict : Pairs) {fs : Fields}
    → NoneField w dict fs
    → (q : Parts) → serialize_fields w fs dict ≡ Scalars.ok q
    → ⊥
unfolding serialize_fields
fields-refused w dict (none_field {name} {t} {fs} refused found) q h =
    first-refused (field_value (serialize_arbitrary_value w (native t)) name (get_item dict name))
      (serialize_fields w fs dict) unsupported_type q
      (rw found (serialize_natives-none w t refused)) h
fields-refused w dict (later_field {name} {t} {fs} later) q h =
    rest-refused (field_value (serialize_arbitrary_value w t) name (get_item dict name))
      (serialize_fields w fs dict) q (fields-refused w dict later) h

finish-refused :
    (w : Writer) (y : Result Parts) (c : Cell)
    → ((q : Parts) → y ≡ Scalars.ok q → ⊥)
    → Scalars.◌>>=◌ y (finish w) ≡ Scalars.ok c
    → ⊥
finish-refused w (Scalars.ok q) c f h = f q refl
finish-refused w (Scalars.err e) c f h = cc

-- A dict with `None` for any field of a user-defined type that has a scalar type as which `None`
-- does not extract is refused, whatever its other fields are.
pub serialize-udt_none :
    (w : Writer) (fs : Fields) (dict : Pairs) (c : Cell)
    → NoneField w dict fs
    → ¬ (serialize w (udt_of fs) (py_dict dict) ≡ Scalars.ok c)
unfolding serialize serialize_arbitrary_value
serialize-udt_none w fs dict c none h =
    finish-refused w (serialize_fields w fs dict) c (fields-refused w dict none) h
