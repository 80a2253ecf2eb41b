-- ===== src/RowFactory/Distinct.antt =====
-- src/deserialize/row_factory.rs: the field names are found, and no two are the same.
use python_rs_driver.Common.{
  ℕ, zero, suc, Bool, true, false, Option, none, some, List, [], ◌∷◌, ◌++◌, ◌+◌, ◌==◌, ◌≡◌, ◌≤◌,
  ◌<◌, leb, ◌||◌, ◌&&◌, if◌then◌else◌, refl, ap, arith, length,
}
use python_rs_driver.RowFactory.{
  String, underscore, same, contains, usable_name, unique_name, names_from, field_names, and_names,
}

-- How many of the names are at least so long.
abbrev as_long : ℕ → List String → ℕ
as_long n [] = 0
as_long n (x ∷ xs) = if leb n (length x) then suc (as_long n xs) else as_long n xs

as_long-length : (n : ℕ) (xs : List String) → as_long n xs ≤ length xs
as_long-length n [] = omega arith
as_long-length n (x ∷ xs) = let le = as_long-length n xs in ground arith

as_long-suc : (n : ℕ) (xs : List String) → as_long (suc n) xs ≤ as_long n xs
as_long-suc n [] = omega arith
as_long-suc n (x ∷ xs) = let le = as_long-suc n xs in ground arith

and-right : (a b : Bool) → (a && b) ≡ true → b ≡ true
and-right true b h = h
and-right false b h = absurd cc

same-length : (x y : String) → same x y ≡ true → length x ≡ length y
unfolding same
same-length [] [] h = refl
same-length [] (d ∷ ds) h = absurd cc
same-length (c ∷ cs) [] h = absurd cc
same-length (c ∷ cs) (d ∷ ds) h = ap suc (same-length cs ds (and-right (c == d) (same cs ds) h))

fewer-as_long :
    (n l a b : ℕ) → a < b → (if leb (suc n) l then suc a else a) < (if leb n l then suc b else b)
fewer-as_long n l a b lt = ground arith

equal-as_long :
    (n l a b : ℕ)
    → l ≡ n
    → a ≤ b
    → (if leb (suc n) l then suc a else a) < (if leb n l then suc b else b)
equal-as_long n l a b e le = ground arith

either-as_long :
    (x name : String) (xs : List String) (b : Bool)
    → same x name ≡ b
    → (b || contains xs name) ≡ true
    → (contains xs name ≡ true → as_long (suc (length name)) xs < as_long (length name) xs)
    → as_long (suc (length name)) (x ∷ xs) < as_long (length name) (x ∷ xs)
either-as_long x name xs true e h ih =
    equal-as_long (length name) (length x) (as_long (suc (length name)) xs)
      (as_long (length name) xs) (same-length x name e) (as_long-suc (length name) xs)
either-as_long x name xs false e h ih =
    fewer-as_long (length name) (length x) (as_long (suc (length name)) xs)
      (as_long (length name) xs) (ih h)

-- A name that was seen counts among those of its length, and not among the longer ones.
contains-as_long :
    (xs : List String) (name : String)
    → contains xs name ≡ true
    → as_long (suc (length name)) xs < as_long (length name) xs
unfolding contains
contains-as_long [] name h = absurd cc
contains-as_long (x ∷ xs) name h =
    either-as_long x name xs (same x name) refl h (λ h'. contains-as_long xs name h')

length-longer : (name : String) → length (name ++ (underscore ∷ [])) ≡ suc (length name)
length-longer [] = refl
length-longer (c ∷ cs) = ap suc (length-longer cs)

-- A name that was not seen.
abbrev Fresh : List String → Option String → Type 0
Fresh seen none = ⊥
Fresh seen (some name) = contains seen name ≡ false

or-Fresh :
    (seen : List String) (name : String) (b : Bool)
    → contains seen name ≡ b
    → (longer : Option String) → (contains seen name ≡ true → Fresh seen longer)
    → Fresh seen (if b then longer else some name)
or-Fresh seen name true e longer h = h e
or-Fresh seen name false e longer h = e

shorter : {a b c : ℕ} → a < b → b < suc c → a < c
shorter h k = omega arith

below : {a b : ℕ} → a ≤ b → a < suc b
below h = omega arith

unique_name-Fresh :
    (fuel : ℕ) (seen : List String) (name : String)
    → as_long (length name) seen < fuel
    → Fresh seen (unique_name fuel seen name)
unfolding unique_name
unique_name-Fresh zero seen name lt = absurd (omega arith)
unique_name-Fresh (suc fuel) seen name lt =
    or-Fresh seen name (contains seen name) refl (unique_name fuel seen (name ++ (underscore ∷ [])))
      (λ h.
        unique_name-Fresh fuel seen (name ++ (underscore ∷ []))
          (rw (length-longer name) (shorter (contains-as_long seen name h) lt)))

-- The names are not among those seen, and no two of them are the same.
abbrev pub AllNew : List String → List String → Type 0
AllNew seen [] = Unit {0}
AllNew seen (name ∷ names) = (contains seen name ≡ false) × AllNew (name ∷ seen) names

abbrev Named : List String → ℕ → Option (List String) → Type 0
Named seen n none = ⊥
Named seen n (some names) = AllNew seen names × (length names ≡ n)

some-Named :
    (seen : List String) (n : ℕ) (x : String) (names : Option (List String))
    → contains seen x ≡ false
    → Named (x ∷ seen) n names
    → Named seen (suc n) (elim names [ none ↦ none | some ns ↦ some (x ∷ ns) ])
some-Named seen n x none f h = h
some-Named seen n x (some ns) f h = ((f, h.0), ap suc h.1)

and_names-Named :
    (seen : List String) (n : ℕ) (name : Option String) (names : String → Option (List String))
    → Fresh seen name
    → ((x : String) → Named (x ∷ seen) n (names x))
    → Named seen (suc n) (and_names name names)
and_names-Named seen n none names f h = f
and_names-Named seen n (some x) names f h = some-Named seen n x (names x) f (h x)

names_from-Named :
    (display : ℕ → String) (keywords : List String) (index : ℕ) (seen columns : List String)
    → Named seen (length columns) (names_from display keywords index seen columns)
unfolding names_from
names_from-Named display keywords index seen [] = (tt, refl)
names_from-Named display keywords index seen (column ∷ columns) =
    let name = usable_name display keywords index column in
    and_names-Named seen (length columns) (unique_name (suc (length seen)) seen name)
      (λ x. names_from display keywords (index + 1) (x ∷ seen) columns)
      (unique_name-Fresh (suc (length seen)) seen name (below (as_long-length (length name) seen)))
      (λ x. names_from-Named display keywords (index + 1) (x ∷ seen) columns)

Named-some :
    (n : ℕ) (o : Option (List String))
    → Named [] n o
    → (names : List String) × (o ≡ some names) × AllNew [] names × (length names ≡ n)
Named-some n none h = absurd h
Named-some n (some names) h = (names, refl, h.0, h.1)

-- The search for a name that was not seen ends for every column, after at most one more round than
-- names were seen, so that there is a field name for each column; and no two are the same, whatever
-- the columns' names are.
pub field_names-AllNew :
    (display : ℕ → String) (keywords columns : List String)
    → (names : List String) × (field_names display keywords columns ≡ some names)
      × AllNew [] names
      × (length names ≡ length columns)
unfolding field_names
field_names-AllNew display keywords columns =
    Named-some (length columns) (names_from display keywords 0 [] columns)
      (names_from-Named display keywords 0 [] columns)
