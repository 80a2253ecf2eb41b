-- ===== src/RowFactory/Fields.antt =====
-- src/deserialize/row_factory.rs: the field names can stand as fields of a namedtuple.
use python_rs_driver.Common.{
  ℕ, zero, suc, Bool, true, false, Option, none, some, List, [], ◌∷◌, ◌++◌, ◌+◌, ◌==◌, ◌≡◌, not,
  ◌||◌, ◌&&◌, if◌then◌else◌, refl, subst, length, map,
}
use python_rs_driver.RowFactory.{
  String, underscore, is_ascii_digit, is_ascii_alphanumeric, trim_start_matches, trim_end_matches,
  clean_name, contains, is_identifier, field_at, usable_name, unique_name, and_names, names_from,
  field_names,
}
use python_rs_driver.RowFactory.Distinct.{AllNew, field_names-AllNew}

unfoldable pub is_field_char : ℕ → Bool
unfolding is_ascii_alphanumeric
is_field_char c = is_ascii_alphanumeric c || c == underscore

abbrev pub AllFieldChars : String → Type 0
AllFieldChars [] = Unit {0}
AllFieldChars (c ∷ cs) = (is_field_char c ≡ true) × AllFieldChars cs

-- A letter, and then letters, digits and underscores.
abbrev pub IsField : String → Type 0
IsField [] = ⊥
IsField (c ∷ cs) =
    (is_ascii_alphanumeric c ≡ true) × (is_ascii_digit c ≡ false) × AllFieldChars (c ∷ cs)

abbrev pub AllFields : List String → Type 0
AllFields [] = Unit {0}
AllFields (name ∷ names) = IsField name × AllFields names

replaced_char :
    (c : ℕ) (b : Bool)
    → is_ascii_alphanumeric c ≡ b
    → is_field_char (if b then c else underscore) ≡ true
unfolding is_field_char
replaced_char c true e = rw e refl
replaced_char c false e = refl

abbrev replace : ℕ → ℕ
replace c = if is_ascii_alphanumeric c then c else underscore

map-AllFieldChars : (xs : String) → AllFieldChars (map replace xs)
map-AllFieldChars [] = tt
map-AllFieldChars (c ∷ cs) = (replaced_char c (is_ascii_alphanumeric c) refl, map-AllFieldChars cs)

abbrev Starts : (ℕ → Bool) → String → Type 0
Starts p [] = Unit {0}
Starts p (c ∷ cs) = p c ≡ true

trimmed-Starts :
    (c : ℕ) (cs trimmed : String) (b : Bool)
    → is_ascii_alphanumeric c ≡ b
    → Starts is_ascii_alphanumeric trimmed
    → Starts is_ascii_alphanumeric (if not b then trimmed else (c ∷ cs))
trimmed-Starts c cs trimmed true e h = e
trimmed-Starts c cs trimmed false e h = h

trim_start_matches-Starts :
    (xs : String)
    → Starts is_ascii_alphanumeric (trim_start_matches (λ c. not (is_ascii_alphanumeric c)) xs)
unfolding trim_start_matches
trim_start_matches-Starts [] = tt
trim_start_matches-Starts (c ∷ cs) =
    trimmed-Starts c cs (trim_start_matches (λ c. not (is_ascii_alphanumeric c)) cs)
      (is_ascii_alphanumeric c) refl (trim_start_matches-Starts cs)

map-Starts :
    (xs : String) → Starts is_ascii_alphanumeric xs → Starts is_ascii_alphanumeric (map replace xs)
map-Starts [] h = tt
map-Starts (c ∷ cs) h = rw h h

clean_name-AllFieldChars : (name : String) → AllFieldChars (clean_name name)
unfolding clean_name
clean_name-AllFieldChars name = map-AllFieldChars _

clean_name-Starts : (name : String) → Starts is_ascii_alphanumeric (clean_name name)
unfolding clean_name
clean_name-Starts name = map-Starts _ (
    trim_start_matches-Starts
      (trim_end_matches (λ c. not (is_ascii_alphanumeric c || c == underscore)) name))

not-false : (a b : Bool) → (not a && b) ≡ true → a ≡ false
not-false true b h = absurd cc
not-false false b h = refl

identifier-IsField :
    (keywords : List String) (name : String)
    → AllFieldChars name
    → Starts is_ascii_alphanumeric name
    → is_identifier keywords name ≡ true
    → IsField name
unfolding is_identifier
identifier-IsField keywords [] chars starts h = absurd cc
identifier-IsField keywords (c ∷ cs) chars starts h =
    (starts, not-false (is_ascii_digit c) (not (contains keywords (c ∷ cs))) h, chars)

append-AllFieldChars :
    (xs ys : String) → AllFieldChars xs → AllFieldChars ys → AllFieldChars (xs ++ ys)
append-AllFieldChars [] ys h k = k
append-AllFieldChars (x ∷ xs) ys h k = (h.0, append-AllFieldChars xs ys h.1 k)

underscore-AllFieldChars : AllFieldChars (underscore ∷ [])
unfolding is_field_char
underscore-AllFieldChars = (refl, tt)

longer-IsField : (name : String) → IsField name → IsField (name ++ (underscore ∷ []))
longer-IsField [] h = absurd h
longer-IsField (c ∷ cs) h =
    (h.0, h.1, append-AllFieldChars (c ∷ cs) (underscore ∷ []) h.2 underscore-AllFieldChars)

field_at-IsField :
    (display : ℕ → String) (index : ℕ)
    → AllFieldChars (display index)
    → IsField (field_at display index)
unfolding is_field_char is_ascii_digit
field_at-IsField display index h = (
  refl,
  refl,
  (
    refl,
    (
      refl,
      (
        refl,
        (
          refl,
          (
            refl,
            (
              refl,
              append-AllFieldChars (display index) (underscore ∷ []) h underscore-AllFieldChars,
            ),
          ),
        ),
      ),
    ),
  ),
)

chosen-IsField :
    (display : ℕ → String) (keywords : List String) (index : ℕ) (name : String)
    → AllFieldChars (display index)
    → AllFieldChars name
    → Starts is_ascii_alphanumeric name
    → (b : Bool) → is_identifier keywords name ≡ b
    → IsField (if b then name else field_at display index)
chosen-IsField display keywords index name d chars starts true e =
    identifier-IsField keywords name chars starts e
chosen-IsField display keywords index name d chars starts false e = field_at-IsField display index d

usable_name-IsField :
    (display : ℕ → String) (keywords : List String) (index : ℕ) (column : String)
    → AllFieldChars (display index)
    → IsField (usable_name display keywords index column)
unfolding usable_name
usable_name-IsField display keywords index column d =
    chosen-IsField display keywords index (clean_name column) d (clean_name-AllFieldChars column)
      (clean_name-Starts column) (is_identifier keywords (clean_name column)) refl

abbrev FieldIfAny : Option String → Type 0
FieldIfAny none = Unit {0}
FieldIfAny (some name) = IsField name

one-IsField :
    (b : Bool) (longer : Option String) (name : String)
    → FieldIfAny longer
    → IsField name
    → FieldIfAny (if b then longer else some name)
one-IsField true longer name h k = h
one-IsField false longer name h k = k

unique_name-IsField :
    (fuel : ℕ) (seen : List String) (name : String)
    → IsField name
    → FieldIfAny (unique_name fuel seen name)
unfolding unique_name
unique_name-IsField zero seen name h = tt
unique_name-IsField (suc fuel) seen name h =
    one-IsField (contains seen name) (unique_name fuel seen (name ++ (underscore ∷ []))) name
      (unique_name-IsField fuel seen (name ++ (underscore ∷ [])) (longer-IsField name h)) h

abbrev FieldsIfAny : Option (List String) → Type 0
FieldsIfAny none = Unit {0}
FieldsIfAny (some names) = AllFields names

more-FieldsIfAny :
    (x : String) (names : Option (List String))
    → IsField x
    → FieldsIfAny names
    → FieldsIfAny (elim names [ none ↦ none | some ns ↦ some (x ∷ ns) ])
more-FieldsIfAny x none h k = tt
more-FieldsIfAny x (some ns) h k = (h, k)

and_names-FieldsIfAny :
    (name : Option String) (names : String → Option (List String))
    → FieldIfAny name
    → ((x : String) → FieldsIfAny (names x))
    → FieldsIfAny (and_names name names)
and_names-FieldsIfAny none names h k = tt
and_names-FieldsIfAny (some x) names h k = more-FieldsIfAny x (names x) h (k x)

names_from-FieldsIfAny :
    (display : ℕ → String) (keywords : List String)
    → ((n : ℕ) → AllFieldChars (display n))
    → (index : ℕ) (seen columns : List String)
    → FieldsIfAny (names_from display keywords index seen columns)
unfolding names_from
names_from-FieldsIfAny display keywords d index seen [] = tt
names_from-FieldsIfAny display keywords d index seen (column ∷ columns) =
    and_names-FieldsIfAny
      (unique_name (suc (length seen)) seen (usable_name display keywords index column))
      (λ x. names_from display keywords (index + 1) (x ∷ seen) columns)
      (unique_name-IsField (suc (length seen)) seen (usable_name display keywords index column)
        (usable_name-IsField display keywords index column (d index)))
      (λ x. names_from-FieldsIfAny display keywords d (index + 1) (x ∷ seen) columns)

-- If numbers are shown by digits, letters or underscores, then for any columns the search for names
-- that were not seen ends, after at most one more round each than names were seen, and gives a field
-- name for each column: a letter and then letters, digits and underscores, no two names the same.
pub field_names-AllFields :
    (display : ℕ → String) (keywords : List String)
    → ((n : ℕ) → AllFieldChars (display n))
    → (columns : List String)
    → (names : List String) × (field_names display keywords columns ≡ some names)
      × AllFields names
      × AllNew [] names
      × (length names ≡ length columns)
unfolding field_names
field_names-AllFields display keywords d columns =
    let (names, found, new, count) = field_names-AllNew display keywords columns in
    (
      names,
      found,
      subst FieldsIfAny found (names_from-FieldsIfAny display keywords d 0 [] columns),
      new,
      count,
    )
