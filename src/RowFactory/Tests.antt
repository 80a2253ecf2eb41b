-- ===== src/RowFactory/Tests.antt =====
-- Columns `a`, `a`, one without a name, `a_`, and `[b]`.
use python_rs_driver.Common.{ℕ, zero, suc, ◌≡◌, refl, some, List, [], ◌∷◌, length}
use python_rs_driver.RowFactory.{String, field_names}
use python_rs_driver.RowFactory.Distinct.{AllNew}
use python_rs_driver.RowFactory.Fields.{
  is_field_char, AllFieldChars, AllFields, field_names-AllFields,
}

-- Numbers in strokes.
abbrev display : ℕ → String
display zero = []
display (suc n) = 49 ∷ display n

display-AllFieldChars : (n : ℕ) → AllFieldChars (display n)
unfolding is_field_char
display-AllFieldChars zero = tt
display-AllFieldChars (suc n) = (refl, display-AllFieldChars n)

abbrev columns : List String
columns = (97 ∷ []) ∷ (97 ∷ []) ∷ [] ∷ (97 ∷ 95 ∷ []) ∷ (91 ∷ 98 ∷ 93 ∷ []) ∷ []

abbrev keywords : List String
keywords = (105 ∷ 102 ∷ []) ∷ []

names_found :
    field_names display keywords columns
    ≡ some (
        (97 ∷ [])
        ∷ (97 ∷ 95 ∷ [])
        ∷ (102 ∷ 105 ∷ 101 ∷ 108 ∷ 100 ∷ 95 ∷ 49 ∷ 49 ∷ 95 ∷ [])
        ∷ (97 ∷ 95 ∷ 95 ∷ [])
        ∷ (98 ∷ [])
        ∷ [])
unfolding field_names
names_found = refl

field_names-AllFields_example :
    (names : List String) × (field_names display keywords columns ≡ some names)
    × AllFields names
    × AllNew [] names
    × (length names ≡ length columns)
field_names-AllFields_example = field_names-AllFields display keywords display-AllFieldChars columns
