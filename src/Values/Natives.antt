-- ===== src/Values/Natives.antt =====
-- A scalar of a type is written as bytes that are read as the scalar.
use python_rs_driver.Common.{
  ℕ, Bool, true, false, ◌&&◌, some, ◌⊎◌, inl, inr, List, [], ◌∷◌, ◌≡◌, refl, ◌∙◌, is_empty, subst,
}
use python_rs_driver.CqlTypes.{ℤ}
use python_rs_driver.Values.{
  tiny_int, small_int, int, big_int, counter, varint, float, double, decimal, boolean, ascii, text,
  blob, date, duration, time, timestamp, inet, uuid, timeuuid, unknown_native, py_int, NativeType,
  native, PyValue, Parts, nil, bytes,
}
use python_rs_driver.Values.Scalars.{
  Result, SerError, Writer, serialize_natives, in_range, gives, of_bytes,
}
use python_rs_driver.Values.Scalars
use python_rs_driver.Values.Serialize.{serialize_arbitrary_value}
use python_rs_driver.Values.Deserialize.{
  Decoded, unless_empty, may_be_empty, ok, Reader, read_native, read,
}
use python_rs_driver.Values.Typing.{Agrees, IsScalar, is_int, is_extracted, int_bits, extracts}
use python_rs_driver.Values.Containers.{Stored}

bits_inj : (a b : ℕ) → some a ≡ some b → a ≡ b
bits_inj a b e = cc

module _ (w : Writer) (r : Reader) (agrees : Agrees w r) where
  unless_empty_lem :
      (b : List ℕ) (may : Bool) (d : Decoded PyValue) (v : PyValue)
      → (is_empty b ≡ false) ⊎ (may ≡ true)
      → d ≡ ok v
      → unless_empty r (is_empty b && true) may d ≡ ok v
  unless_empty_lem [] may d v (inl e) h = cc
  unless_empty_lem [] may d v (inr e) h = rw e h
  unless_empty_lem (x ∷ b) may d v full h = h

  int-writes :
      (t : NativeType) (bits : ℕ) (n : ℤ)
      → int_bits t ≡ some bits
      → in_range bits n ≡ true
      → serialize_natives w t (py_int n) ≡ Scalars.ok (of_bytes (w.int_bytes t n))
  unfolding serialize_natives
  int-writes tiny_int bits n e h = rw (bits_inj _ bits e, h) refl
  int-writes small_int bits n e h = rw (bits_inj _ bits e, h) refl
  int-writes int bits n e h = rw (bits_inj _ bits e, h) refl
  int-writes big_int bits n e h = rw (bits_inj _ bits e, h) refl
  int-writes counter bits n e h = rw (bits_inj _ bits e, h) refl
  int-writes varint bits n e h = absurd cc
  int-writes float bits n e h = absurd cc
  int-writes double bits n e h = absurd cc
  int-writes decimal bits n e h = absurd cc
  int-writes boolean bits n e h = absurd cc
  int-writes ascii bits n e h = absurd cc
  int-writes text bits n e h = absurd cc
  int-writes blob bits n e h = absurd cc
  int-writes date bits n e h = absurd cc
  int-writes duration bits n e h = absurd cc
  int-writes time bits n e h = absurd cc
  int-writes timestamp bits n e h = absurd cc
  int-writes inet bits n e h = absurd cc
  int-writes uuid bits n e h = absurd cc
  int-writes timeuuid bits n e h = absurd cc
  int-writes unknown_native bits n e h = absurd cc

  int-reads :
      (t : NativeType) (bits : ℕ) (p : Parts)
      → int_bits t ≡ some bits
      → read_native r t p ≡ r.scalar t p
  int-reads tiny_int bits p e = refl
  int-reads small_int bits p e = refl
  int-reads int bits p e = refl
  int-reads big_int bits p e = refl
  int-reads counter bits p e = refl
  int-reads varint bits p e = refl
  int-reads float bits p e = refl
  int-reads double bits p e = refl
  int-reads decimal bits p e = refl
  int-reads boolean bits p e = refl
  int-reads ascii bits p e = refl
  int-reads text bits p e = refl
  int-reads blob bits p e = refl
  int-reads date bits p e = refl
  int-reads duration bits p e = refl
  int-reads time bits p e = refl
  int-reads timestamp bits p e = refl
  int-reads inet bits p e = refl
  int-reads uuid bits p e = refl
  int-reads timeuuid bits p e = refl
  int-reads unknown_native bits p e = absurd cc

  extracted-writes :
      (t : NativeType) (v : PyValue) (b : List ℕ)
      → extracts t ≡ true
      → w.scalar_bytes t v ≡ gives b
      → serialize_natives w t v ≡ Scalars.ok (of_bytes b)
  unfolding serialize_natives
  extracted-writes varint v b e h = rw h refl
  extracted-writes float v b e h = rw h refl
  extracted-writes double v b e h = rw h refl
  extracted-writes decimal v b e h = rw h refl
  extracted-writes boolean v b e h = rw h refl
  extracted-writes ascii v b e h = rw h refl
  extracted-writes text v b e h = rw h refl
  extracted-writes blob v b e h = rw h refl
  extracted-writes date v b e h = rw h refl
  extracted-writes duration v b e h = rw h refl
  extracted-writes time v b e h = rw h refl
  extracted-writes timestamp v b e h = rw h refl
  extracted-writes inet v b e h = rw h refl
  extracted-writes uuid v b e h = rw h refl
  extracted-writes timeuuid v b e h = rw h refl
  extracted-writes tiny_int v b e h = absurd cc
  extracted-writes small_int v b e h = absurd cc
  extracted-writes int v b e h = absurd cc
  extracted-writes big_int v b e h = absurd cc
  extracted-writes counter v b e h = absurd cc
  extracted-writes unknown_native v b e h = absurd cc

  extracted-reads :
      (t : NativeType) (p : Parts) → extracts t ≡ true → read_native r t p ≡ r.scalar t p
  extracted-reads tiny_int p e = refl
  extracted-reads small_int p e = refl
  extracted-reads int p e = refl
  extracted-reads big_int p e = refl
  extracted-reads counter p e = refl
  extracted-reads varint p e = refl
  extracted-reads float p e = refl
  extracted-reads double p e = refl
  extracted-reads decimal p e = refl
  extracted-reads boolean p e = refl
  extracted-reads ascii p e = refl
  extracted-reads text p e = refl
  extracted-reads blob p e = refl
  extracted-reads date p e = refl
  extracted-reads duration p e = refl
  extracted-reads time p e = refl
  extracted-reads timestamp p e = refl
  extracted-reads inet p e = refl
  extracted-reads uuid p e = refl
  extracted-reads timeuuid p e = refl
  extracted-reads unknown_native p e = absurd cc

  encoded-Stored :
      (t : NativeType) (v : PyValue) (b : List ℕ)
      → serialize_natives w t v ≡ Scalars.ok (of_bytes b)
      → read_native r t (bytes b nil) ≡ ok v
      → (is_empty b ≡ false) ⊎ (may_be_empty (native t) ≡ true)
      → Stored w r (native t) v
  unfolding serialize_arbitrary_value read
  encoded-Stored t v b writes reads full =
      (bytes b nil, writes, unless_empty_lem b (may_be_empty (native t)) _ v full reads)

  pub scalar-Stored : (t : NativeType) (v : PyValue) → IsScalar w r t v → Stored w r (native t) v
  scalar-Stored t v (is_int bits n e h same) = subst (Stored w r (native t)) same (
      encoded-Stored t (py_int n) (w.int_bytes t n) (int-writes t bits n e h)
        (int-reads t bits _ e ∙ agrees.int_agrees t bits n e h)
        (inl (agrees.int_has_bytes t bits n e h)))
  scalar-Stored t v (is_extracted b e h reads full _) =
      encoded-Stored t v b (extracted-writes t v b e h) (extracted-reads t _ e ∙ reads) full
