-- ===== src/Common/Lists.antt =====
-- Lists measured by native numbers, and lists related place by place.
use Prim.Native.Nat.{ℕ, zero, suc, ◌+◌}
use mathlib.Core.Path.{◌≡◌}
use mathlib.Core.List.{List, [], ◌∷◌, ◌++◌}
use mathlib.Core.Bool.{Bool, true, false}
use mathlib.Core.Option.{Option, none, some}
use native.Mathlib.Omega.{arith}

module _ {ℓ} {A : Type ℓ} where
  abbrev pub length : List A → ℕ
  length [] = 0
  length (x ∷ xs) = suc (length xs)

  pub length-append : (xs ys : List A) → length (xs ++ ys) ≡ length xs + length ys
  length-append [] ys = omega arith
  length-append (x ∷ xs) ys = omega (arith, length-append xs ys)

  abbrev pub is_empty : List A → Bool
  is_empty [] = true
  is_empty (x ∷ xs) = false

  abbrev pub to_list : Option A → List A
  to_list none = []
  to_list (some a) = a ∷ []

  abbrev pub drop : ℕ → List A → List A
  drop zero xs = xs
  drop (suc n) [] = []
  drop (suc n) (x ∷ xs) = drop n xs

  abbrev pub get_elem? : List A → ℕ → Option A
  get_elem? [] i = none
  get_elem? (x ∷ xs) zero = some x
  get_elem? (x ∷ xs) (suc i) = get_elem? xs i

-- Two lists of one length, related place by place.
abbrev pub AllPairs {ℓ} : {A : Type ℓ} → (A → A → Type 0) → List A → List A → Type 0
AllPairs R [] [] = Unit {0}
AllPairs R [] (y ∷ ys) = ⊥
AllPairs R (x ∷ xs) [] = ⊥
AllPairs R (x ∷ xs) (y ∷ ys) = R x y × AllPairs R xs ys

module _ {ℓ} {A : Type ℓ} (R : A → A → Type 0) where
  pub AllPairs-refl : ((a : A) → R a a) → (xs : List A) → AllPairs R xs xs
  AllPairs-refl r [] = tt
  AllPairs-refl r (x ∷ xs) = (r x, AllPairs-refl r xs)

  pub AllPairs-append :
      (xs xs' ys ys' : List A)
      → AllPairs R xs xs'
      → AllPairs R ys ys'
      → AllPairs R (xs ++ ys) (xs' ++ ys')
  AllPairs-append [] [] ys ys' p q = q
  AllPairs-append [] (x' ∷ xs') ys ys' p q = absurd p
  AllPairs-append (x ∷ xs) [] ys ys' p q = absurd p
  AllPairs-append (x ∷ xs) (x' ∷ xs') ys ys' p q = (p.0, AllPairs-append xs xs' ys ys' p.1 q)

  pub AllPairs-trans :
      ((a b c : A) → R a b → R b c → R a c)
      → (xs ys zs : List A) → AllPairs R xs ys
      → AllPairs R ys zs
      → AllPairs R xs zs
  AllPairs-trans t [] [] zs p q = q
  AllPairs-trans t [] (y ∷ ys) zs p q = absurd p
  AllPairs-trans t (x ∷ xs) [] zs p q = absurd p
  AllPairs-trans t (x ∷ xs) (y ∷ ys) [] p q = absurd q
  AllPairs-trans t (x ∷ xs) (y ∷ ys) (z ∷ zs) p q =
      (t x y z p.0 q.0, AllPairs-trans t xs ys zs p.1 q.1)
