-- ===== src/Values/Structs.antt =====
-- A user-defined type or a tuple whose parts return is one that returns.
use python_rs_driver.Common.{ℕ, suc, ◌+◌, true, false, some, ◌≡◌, refl, ap, ◌∙◌, arith, ltb}
use python_rs_driver.Values.{
  ColumnType, udt_of, tuple_of, Types, no_types, a_type, Fields, no_fields, a_field, PyValue,
  py_str, py_tuple, py_dict, Items, no_items, item, Pairs, no_pairs, pair, value, Parts, nil, sub,
  count, count_types, no_bytes,
}
use python_rs_driver.Values.Scalars.{
  Result, SerError, Writer, serialize_natives, in_range, gives, of_bytes,
}
use python_rs_driver.Values.Scalars
use python_rs_driver.Values.Serialize.{
  get_item, tuple_checked, finish, serialize_arbitrary_value, serialize_fields, serialize_types,
}
use python_rs_driver.Values.Deserialize.{
  in_udt_field, context, python_failed_with, ok, ◌>>=◌, Reader, read, read_fields, read_types,
}
use python_rs_driver.Values.Typing.{Agrees, add_pairs, HasType, HasTypes, IsWithin}
use python_rs_driver.Values.Loops.{then_lem}
use python_rs_driver.Values.Containers.{Stored, finish_lem, finished_fits, guarded_full}

pub HasTypes-count :
    (w : Writer) (r : Reader) (ts : Types) (vs : Items)
    → HasTypes w r ts vs
    → count vs ≡ count_types ts
unfolding HasType count count_types
HasTypes-count w r no_types no_items h = refl
HasTypes-count w r (a_type t ts) (item v vs) h = ap suc (HasTypes-count w r ts vs h.1)
HasTypes-count w r no_types (item v vs) h = absurd h
HasTypes-count w r (a_type t ts) no_items h = absurd h

ltb-same : (n : ℕ) → ltb n n ≡ false
ltb-same n = ground arith

abbrev HasSome : Fields → Type 0
HasSome no_fields = ⊥
HasSome (a_field name t fs) = Unit {0}

module _ (w : Writer) (r : Reader) (agrees : Agrees w r) where
  -- Writing and reading the fields; a dict is filled field by field from any that fits.
  abbrev pub StoredFields : Fields → Pairs → Pairs → Type 0
  StoredFields fs dict ps =
      (p : Parts) × (serialize_fields w fs dict ≡ Scalars.ok p)
      × (w.fits p ≡ true
          → (acc acc' : Pairs) → add_pairs r.dict_set acc ps ≡ ok acc'
          → read_fields r fs acc p ≡ ok acc')
      × (HasSome fs → no_bytes p ≡ false)

  abbrev pub StoredTypes : Types → Items → Type 0
  StoredTypes ts vs =
      (p : Parts) × (serialize_types w ts vs ≡ Scalars.ok p)
      × (w.fits p ≡ true → (i : ℕ) → read_types r ts i p ≡ ok vs)
      × ((t : ColumnType) (rest : Types) → ts ≡ a_type t rest → no_bytes p ≡ false)

  serialize-udt :
      (fs : Fields) (dict : Pairs)
      → serialize_arbitrary_value w (udt_of fs) (py_dict dict)
        ≡ Scalars.◌>>=◌ (serialize_fields w fs dict) (finish w)
  unfolding serialize_arbitrary_value
  serialize-udt fs dict = refl

  read-udt :
      (fs : Fields) (p : Parts)
      → read r (udt_of fs) (value p) ≡ read_fields r fs no_pairs p >>= (λ ps. ok (py_dict ps))
  unfolding read
  read-udt fs p = refl

  serialize-tuple :
      (ts : Types) (vs : Items)
      → serialize_arbitrary_value w (tuple_of ts) (py_tuple vs)
        ≡ Scalars.◌>>=◌
            (tuple_checked
              (ltb (count_types ts) (count vs))
              (count vs)
              (count_types ts)
              (serialize_types w ts vs))
            (finish w)
  unfolding serialize_arbitrary_value
  serialize-tuple ts vs = refl

  read-tuple :
      (ts : Types) (p : Parts)
      → read r (tuple_of ts) (value p)
        ≡ context python_failed_with (read_types r ts 0 p) >>= (λ vs. ok (py_tuple vs))
  unfolding read
  read-tuple ts p = refl

  serialize_udt_lem :
      (fs : Fields) (dict : Pairs) (p : Parts)
      → serialize_fields w fs dict ≡ Scalars.ok p
      → w.fits p ≡ true
      → serialize_arbitrary_value w (udt_of fs) (py_dict dict) ≡ Scalars.ok (value p)
  serialize_udt_lem fs dict p e fit = rw (serialize-udt fs dict) (rw e (finish_lem w r p fit))

  udt_fits :
      (fs : Fields) (dict : Pairs) (p : Parts)
      → serialize_fields w fs dict ≡ Scalars.ok p
      → IsWithin w r (udt_of fs) (py_dict dict)
      → w.fits p ≡ true
  udt_fits fs dict p e within =
      finished_fits w r p (w.fits p) (rw (serialize-udt fs dict, e) at within)

  read_udt_lem :
      (fs : Fields) (ps : Pairs) (p : Parts)
      → read_fields r fs no_pairs p ≡ ok ps
      → read r (udt_of fs) (value p) ≡ ok (py_dict ps)
  read_udt_lem fs ps p e = rw (read-udt fs p) (rw e refl)

  serialize_tuple_lem :
      (ts : Types) (vs : Items) (p : Parts)
      → count vs ≡ count_types ts
      → serialize_types w ts vs ≡ Scalars.ok p
      → w.fits p ≡ true
      → serialize_arbitrary_value w (tuple_of ts) (py_tuple vs) ≡ Scalars.ok (value p)
  serialize_tuple_lem ts vs p same e fit =
      rw (serialize-tuple ts vs)
        (rw same (rw (ltb-same (count_types ts)) (rw e (finish_lem w r p fit))))

  tuple_fits :
      (ts : Types) (vs : Items) (p : Parts)
      → count vs ≡ count_types ts
      → serialize_types w ts vs ≡ Scalars.ok p
      → IsWithin w r (tuple_of ts) (py_tuple vs)
      → w.fits p ≡ true
  tuple_fits ts vs p same e within =
      finished_fits w r p (w.fits p)
        (rw (serialize-tuple ts vs, same, ltb-same (count_types ts), e) at within)

  read_tuple_lem :
      (ts : Types) (vs : Items) (p : Parts)
      → read_types r ts 0 p ≡ ok vs
      → read r (tuple_of ts) (value p) ≡ ok (py_tuple vs)
  read_tuple_lem ts vs p e = rw (read-tuple ts p) (rw e refl)

  pub nil-StoredFields : (dict : Pairs) → StoredFields no_fields dict no_pairs
  unfolding serialize_fields read_fields add_pairs
  nil-StoredFields dict = (nil, refl, λ fit acc acc' h. h, λ h. absurd h)

  pub cons-StoredFields :
      (name : ℕ) (t : ColumnType) (fs : Fields) (dict : Pairs) (k v : PyValue) (ps : Pairs)
      → k ≡ py_str name
      → get_item dict name ≡ some v
      → Stored w r t v
      → StoredFields fs dict ps
      → StoredFields (a_field name t fs) dict (pair k v ps)
  unfolding serialize_fields read_fields add_pairs
  cons-StoredFields name t fs dict k v ps ek found (p, e, back) (q, e', rest, _) = (
    sub (value p) q,
    rw found (rw e (rw e' refl)),
    λ fit acc acc' h. rw (agrees.field_agrees (value p) q fit) (
        rw back (
          then_lem (in_udt_field name) (r.dict_set acc (py_str name) v) _
            (λ a. add_pairs r.dict_set a ps) acc'
            (λ a. rest (agrees.rest_fits (value p) q fit) a acc') (rw ek at h))),
    λ h. refl,
  )

  pub nil-StoredTypes : StoredTypes no_types no_items
  unfolding serialize_types read_types
  nil-StoredTypes = (nil, refl, λ fit i. refl, λ t rest h. cc)

  pub cons-StoredTypes :
      (t : ColumnType) (ts : Types) (v : PyValue) (vs : Items)
      → Stored w r t v
      → StoredTypes ts vs
      → StoredTypes (a_type t ts) (item v vs)
  unfolding serialize_types read_types
  cons-StoredTypes t ts v vs (p, e, back) (q, e', rest, _) = (
    sub (value p) q,
    rw e (rw e' refl),
    λ fit i.
        rw (agrees.tuple_agrees (value p) q fit)
          (rw back (rw (rest (agrees.rest_fits (value p) q fit) (i + 1)) refl)),
    λ u us h. refl,
  )

  pub udt-Stored :
      (name : ℕ) (t : ColumnType) (fs : Fields) (ps : Pairs)
      → add_pairs r.dict_set no_pairs ps ≡ ok ps
      → StoredFields (a_field name t fs) ps ps
      → IsWithin w r (udt_of (a_field name t fs)) (py_dict ps)
      → Stored w r (udt_of (a_field name t fs)) (py_dict ps)
  udt-Stored name t fs ps adds (p, e, back, full) within =
      let fit = udt_fits (a_field name t fs) ps p e within in
      (
        p,
        serialize_udt_lem (a_field name t fs) ps p e fit,
        guarded_full w r agrees (udt_of (a_field name t fs)) (read r (udt_of (a_field name t fs))) p
              (full tt)
            ∙ read_udt_lem (a_field name t fs) ps p (back fit no_pairs ps adds),
      )

  pub tuple-Stored :
      (t : ColumnType) (ts : Types) (vs : Items)
      → count vs ≡ count_types (a_type t ts)
      → StoredTypes (a_type t ts) vs
      → IsWithin w r (tuple_of (a_type t ts)) (py_tuple vs)
      → Stored w r (tuple_of (a_type t ts)) (py_tuple vs)
  tuple-Stored t ts vs same (p, e, back, full) within =
      let fit = tuple_fits (a_type t ts) vs p same e within in
      (
        p,
        serialize_tuple_lem (a_type t ts) vs p same e fit,
        guarded_full w r agrees (tuple_of (a_type t ts)) (read r (tuple_of (a_type t ts))) p
              (full t ts refl)
            ∙ read_tuple_lem (a_type t ts) vs p (back fit 0),
      )
