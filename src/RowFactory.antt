-- ===== src/RowFactory.antt =====
-- src/deserialize/row_factory.rs: the field names of a namedtuple, made of the columns' names. A
-- string is the list of its characters' codes.
pub mod Distinct
pub mod Fields
pub mod Tests
use python_rs_driver.Common.{
  ℕ, zero, suc, Bool, true, false, Option, none, some, List, [], ◌∷◌, ◌++◌, ◌+◌, ◌==◌, leb, not,
  ◌&&◌, ◌||◌, if◌then◌else◌, map, length,
}

abbrev pub String : Type 0
String = List ℕ

abbrev between : ℕ → ℕ → ℕ → Bool
between low high c = leb low c && leb c high

unfoldable pub is_ascii_digit : ℕ → Bool
is_ascii_digit c = between 48 57 c

unfoldable pub is_ascii_alphanumeric : ℕ → Bool
unfolding is_ascii_digit
is_ascii_alphanumeric c = is_ascii_digit c || (between 65 90 c || between 97 122 c)

abbrev pub underscore : ℕ
underscore = 95

unfoldable pub trim_start_matches : (ℕ → Bool) → String → String
trim_start_matches p [] = []
trim_start_matches p (c ∷ cs) =
    let trimmed = trim_start_matches p cs in if p c then trimmed else (c ∷ cs)

abbrev trim_end_at : (ℕ → Bool) → ℕ → String → String
trim_end_at p c [] = if p c then [] else (c ∷ [])
trim_end_at p c (d ∷ cs) = c ∷ d ∷ cs

unfoldable pub trim_end_matches : (ℕ → Bool) → String → String
trim_end_matches p [] = []
trim_end_matches p (c ∷ cs) = trim_end_at p c (trim_end_matches p cs)

unfoldable pub clean_name : String → String
unfolding is_ascii_alphanumeric trim_start_matches trim_end_matches
clean_name name =
    map (λ c. if is_ascii_alphanumeric c then c else underscore)
      (trim_start_matches (λ c. not (is_ascii_alphanumeric c))
        (trim_end_matches (λ c. not (is_ascii_alphanumeric c || c == underscore)) name))

unfoldable pub same : String → String → Bool
same [] [] = true
same (c ∷ cs) (d ∷ ds) = c == d && same cs ds
same _ _ = false

unfoldable pub contains : List String → String → Bool
unfolding same
contains [] name = false
contains (x ∷ xs) name = same x name || contains xs name

unfoldable pub is_identifier : List String → String → Bool
unfolding contains is_ascii_digit
is_identifier keywords [] = false
is_identifier keywords (c ∷ cs) = not (is_ascii_digit c) && not (contains keywords (c ∷ cs))

-- `field_{index}_`; `display` is the formatting of an integer.
abbrev pub field_at : (ℕ → String) → ℕ → String
field_at display index =
    (102 ∷ 105 ∷ 101 ∷ 108 ∷ 100 ∷ underscore ∷ []) ++ (display index ++ (underscore ∷ []))

unfoldable pub usable_name : (ℕ → String) → List String → ℕ → String → String
unfolding clean_name is_identifier
usable_name display keywords index column =
    let name = clean_name column in
    if is_identifier keywords name then name else field_at display index

-- The loop that appends `_` until the name is not among those seen; `none` if the fuel runs out.
unfoldable pub unique_name : ℕ → List String → String → Option String
unfolding contains
unique_name zero seen name = none
unique_name (suc fuel) seen name =
    let longer = unique_name fuel seen (name ++ (underscore ∷ [])) in
    if contains seen name then longer else some name

abbrev pub and_names : Option String → (String → Option (List String)) → Option (List String)
and_names none names = none
and_names (some name) names = elim (names name) [ none ↦ none | some ns ↦ some (name ∷ ns) ]

-- The loop over the columns: each name may take as many rounds as names were seen, and one.
unfoldable pub names_from :
    (ℕ → String) → List String → ℕ → List String → List String → Option (List String)
unfolding unique_name usable_name
names_from display keywords index seen [] = some []
names_from display keywords index seen (column ∷ columns) =
    and_names (unique_name (suc (length seen)) seen (usable_name display keywords index column))
      (λ name. names_from display keywords (index + 1) (name ∷ seen) columns)

unfoldable pub field_names : (ℕ → String) → List String → List String → Option (List String)
unfolding names_from
field_names display keywords columns = names_from display keywords 0 [] columns
