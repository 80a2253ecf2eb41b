-- ===== src/Callbacks/Prepended.antt =====
-- `Prepended` of src/utils.rs: `first` followed by `rest`, with an exact size.
use python_rs_driver.Common.{
  ℕ, zero, suc, ◌+◌, ◌≡◌, refl, Option, none, some, List, [], ◌∷◌, arith, length, ◌⊎◌, inl, inr,
}

pub record Prepended {ℓ} (A : Type ℓ) : Type ℓ where
  pub first : Option A
  pub rest : List A

module _ {ℓ} {A : Type ℓ} where
  unfoldable pub new : A → List A → Prepended A
  new first rest = record { first = some first; rest = rest }

  -- `self.first.take().or_else(|| self.rest.next())`, by the two fields.
  unfoldable pub next_of : Option A → List A → Option (A × Prepended A)
  next_of (some x) rest = some (x, record { first = none; rest = rest })
  next_of none [] = none
  next_of none (x ∷ rest) = some (x, record { first = none; rest = rest })

  unfoldable pub next : Prepended A → Option (A × Prepended A)
  unfolding next_of
  next p = next_of p.first p.rest

  abbrev from_bool : Option A → ℕ
  from_bool none = 0
  from_bool (some x) = 1

  unfoldable pub size_hint : Prepended A → ℕ × Option ℕ
  size_hint p = (length p.rest + from_bool p.first, some (length p.rest + from_bool p.first))

  -- Calls of `next` until it is exhausted, at most `fuel` of them.
  collect_for : ℕ → Prepended A → List A
  unfolding next
  collect_for zero p = []
  collect_for (suc fuel) p = elim (next p) [ none ↦ [] | some (x, q) ↦ x ∷ collect_for fuel q ]

  -- As many calls as the size hint says.
  unfoldable pub collect : Prepended A → List A
  unfolding collect_for size_hint
  collect p = collect_for (size_hint p).0 p

  collect_for-rest :
      (xs : List A) → collect_for (length xs) (record { first = none; rest = xs }) ≡ xs
  unfolding collect_for
  collect_for-rest [] = refl
  collect_for-rest (x ∷ xs) = rw (collect_for-rest xs)

  collect_for-new : (x : A) (xs : List A) → collect_for (suc (length xs)) (new x xs) ≡ x ∷ xs
  unfolding collect_for new
  collect_for-new x xs = rw (collect_for-rest xs)

  -- The iterator, called as often as its size hint says, gives the first item and then the rest.
  collect-new : (x : A) (xs : List A) → collect (new x xs) ≡ x ∷ xs
  unfolding collect
  collect-new x xs =
      let e : length xs + from_bool (some x) ≡ suc (length xs) = omega arith in
      unfold new in rw e (collect_for-new x xs)

  size_hint-next_of :
      (f : Option A) (r : List A)
      → ((next_of f r ≡ none) × (length r + from_bool f ≡ 0))
        ⊎ ((x : A) × (q : Prepended A) × (next_of f r ≡ some (x, q))
            × (length r + from_bool f ≡ suc (length q.rest + from_bool q.first)))
  unfolding next_of
  size_hint-next_of (some x) r = inr (x, record { first = none; rest = r }, refl, omega arith)
  size_hint-next_of none [] = inl (refl, omega arith)
  size_hint-next_of none (x ∷ r) = inr (x, record { first = none; rest = r }, refl, omega arith)

  -- The size hint is exact at every point: `next` yields as long as it is not 0, and each item
  -- takes one off it.
  size_hint-next :
      (p : Prepended A)
      → ((next p ≡ none) × ((size_hint p).0 ≡ 0))
        ⊎ ((x : A) × (q : Prepended A) × (next p ≡ some (x, q))
            × ((size_hint p).0 ≡ suc (size_hint q).0))
  unfolding next size_hint
  size_hint-next p = size_hint-next_of p.first p.rest
