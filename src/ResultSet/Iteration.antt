-- ===== src/ResultSet/Iteration.antt =====
-- Iterating a result set gives the rows of every page, in order.
use python_rs_driver.Common.{
  ℕ, zero, suc, true, false, Option, none, some, List, [], ◌∷◌, ◌++◌, ◌+◌, ◌<◌, ◌≡◌, ◌≢◌, refl, sym,
  ap, ◌∙◌, get_elem?, length, append-nil, append_assoc, arith,
}
use python_rs_driver.Common.Python.{Obj, ok, err, type_error}
use python_rs_driver.ResultSet.{
  Mode, not_started, list_mode, iterating, IterState, ResponseFuture, rows_or_empty, start_page,
  fetch_page, fetched_rows, next_row, drain_rows, drain_from_start, enter_list_mode, new, appended,
  step, World, row, page_started, step_past,
}

unfoldable pub concat : List (List Obj) → List Obj
concat [] = []
concat (xs ∷ xss) = xs ++ concat xss

get_elem?-middle :
    (front : List Obj) (x : Obj) (xs : List Obj)
    → get_elem? (front ++ x ∷ xs) (length front) ≡ some x
get_elem?-middle [] x xs = refl
get_elem?-middle (y ∷ front) x xs = get_elem?-middle front x xs

get_elem?-end : (rows : List Obj) → get_elem? (rows ++ []) (length rows) ≡ none
get_elem?-end [] = refl
get_elem?-end (y ∷ rows) = get_elem?-end rows

length-snoc : (front : List Obj) (x : Obj) → length (front ++ x ∷ []) ≡ length front + 1
length-snoc [] x = refl
length-snoc (y ∷ front) x = rw (length-snoc front x) (omega arith)

append-nils : (xs : List Obj) → xs ≡ xs ++ ([] ++ [])
append-nils xs = sym (append-nil xs)

module _ {ℓ} {S : Type ℓ} (future : ResponseFuture S) where
  -- The response future still has these pages, each of which arrives.
  pub data Serves : S → List (List Obj) → Type ℓ where
    last : {w : S} → future.has_more_pages w ≡ false → Serves w []
    more :
        {w w' : S} {rows : Option (List Obj)} {pages : List (List Obj)}
        → future.has_more_pages w ≡ true
        → future.fetch w ≡ (w', ok rows)
        → Serves w' pages
        → Serves w (rows_or_empty rows ∷ pages)

  -- The response future once they all have arrived.
  abbrev pub exhausted : {w : S} {pages : List (List Obj)} → Serves w pages → S
  exhausted (last {w} h) = w
  exhausted (more h e rest) = exhausted rest

  abbrev at : List Obj → ℕ → IterState
  at rows position = record { current_rows = rows; mode = iterating position }

  step-here :
      (w : S) (rows : List Obj) (p : ℕ) (x : Obj)
      → get_elem? rows p ≡ some x
      → step future w (at rows p) ≡ (at rows (p + 1), ok (row x))
  unfolding step
  step-here w rows p x h = rw h refl

  step-end :
      (w : S) (rows : List Obj) (p : ℕ)
      → get_elem? rows p ≡ none
      → step future w (at rows p) ≡ step_past future (future.has_more_pages w) (at rows p)
  unfolding step
  step-end w rows p h = rw h refl

  next_row-here :
      (fuel : ℕ) (w : S) (rows : List Obj) (p : ℕ) (x : Obj)
      → get_elem? rows p ≡ some x
      → next_row future (suc fuel) (w, at rows p) ≡ ((w, at rows (p + 1)), some (ok (some x)))
  unfolding next_row
  next_row-here fuel w rows p x h = rw (step-here w rows p x h) refl

  next_row-end :
      (fuel : ℕ) (w : S) (rows : List Obj) (p : ℕ)
      → get_elem? rows p ≡ none
      → future.has_more_pages w ≡ false
      → next_row future (suc fuel) (w, at rows p) ≡ ((w, start_page []), some (ok none))
  unfolding next_row
  next_row-end fuel w rows p h e =
      rw (step-end w rows p h ∙ ap (λ b. step_past future b (at rows p)) e) refl

  next_row-page :
      (fuel : ℕ) (w w' : S) (rows : List Obj) (p : ℕ) (page : Option (List Obj))
      → get_elem? rows p ≡ none
      → future.has_more_pages w ≡ true
      → future.fetch w ≡ (w', ok page)
      → next_row future (suc fuel) (w, at rows p)
        ≡ next_row future fuel (w', start_page (rows_or_empty page))
  unfolding next_row fetch_page
  next_row-page fuel w w' rows p page h e f =
      rw (step-end w rows p h ∙ ap (λ b. step_past future b (at rows p)) e)
        (ap (λ x. page_started future (next_row future fuel) (at rows p) (fetched_rows future x)) f)

  -- What the loop makes of the rest, from a call of `next_row` on.
  abbrev Loops :
      (pages : ℕ) {w : S} {xss : List (List Obj)}
      → Serves w xss
      → (n fuel : ℕ) → (all front xs : List Obj) → Type ℓ
  Loops pages {w} {xss} serves n fuel all front xs =
      appended future (drain_rows future n pages) all
        (next_row future fuel (w, at (front ++ xs) (length front)))
      ≡ ((exhausted serves, start_page []), some (ok (all ++ (xs ++ concat xss))))

  -- The claim at the end of a page.
  abbrev Ends : (pages : ℕ) {w : S} {xss : List (List Obj)} → Serves w xss → Type ℓ
  Ends pages {w} {xss} serves =
      (n fuel : ℕ) (all front : List Obj)
      → length xss < fuel
      → length (concat xss) < suc n
      → Loops pages serves n fuel all front []

  page-Loops :
      (pages : ℕ) {w : S} {xss : List (List Obj)} (serves : Serves w xss)
      → Ends pages serves
      → length xss < pages
      → (n fuel : ℕ) (all front xs : List Obj) → length xss < fuel
      → length (xs ++ concat xss) < suc n
      → Loops pages serves n fuel all front xs
  unfolding drain_rows
  page-Loops pages serves ends g n fuel all front [] f h = ends n fuel all front f h
  page-Loops pages serves ends g n zero all front (x ∷ xs) f h = absurd (omega arith)
  page-Loops pages serves ends g zero (suc fuel) all front (x ∷ xs) f h = absurd (omega arith)
  page-Loops pages {w} {xss} serves ends g (suc n) (suc fuel) all front (x ∷ xs) f h =
      rw (next_row-here fuel w (front ++ x ∷ xs) (length front) x (get_elem?-middle front x xs)) (
        rw
          (
            append_assoc front (x ∷ []) xs,
            length-snoc front x,
            append_assoc all (x ∷ []) (xs ++ concat xss),
          )
          at
          (page-Loops pages serves ends g n pages (all ++ x ∷ []) (front ++ x ∷ []) xs g
            (omega arith)))

  serves-Ends :
      (pages : ℕ) {w : S} {xss : List (List Obj)} (serves : Serves w xss)
      → length xss < pages
      → Ends pages serves
  unfolding concat start_page
  serves-Ends pages (last e) g n zero all front f h = absurd (omega arith)
  serves-Ends pages (more e e' rest) g n zero all front f h = absurd (omega arith)
  serves-Ends pages {w} (last e) g n (suc fuel) all front f h =
      rw (next_row-end fuel w (front ++ []) (length front) (get_elem?-end front) e)
        (ap (λ (l : List Obj). ((w, start_page []), some (ok l))) (append-nils all))
  serves-Ends pages {w} (more {w' = w'} {rows = rows} e e' rest) g n (suc fuel) all front f h =
      rw (next_row-page fuel w w' (front ++ []) (length front) rows (get_elem?-end front) e e') (
        page-Loops pages rest (serves-Ends pages rest (omega arith)) (omega arith) n fuel all []
          (rows_or_empty rows) (omega arith) h)

  -- Draining an unlisted result set returns the rows of the current page, from its start, and those
  -- of every page that the response future still has, in order. It ends on the exhausted future with
  -- no current rows. Enough fuel is one call for each row and one more, and in each call one round
  -- for each page and one more.
  pub drain_from_start_lem :
      {w : S} {xss : List (List Obj)} (serves : Serves w xss) (n pages : ℕ) (rows : List Obj)
      (mode : Mode)
      → mode ≢ list_mode
      → length xss < pages
      → length (rows ++ concat xss) < n
      → drain_from_start future n pages (w, record { current_rows = rows; mode = mode })
        ≡ ((exhausted serves, start_page []), some (ok (rows ++ concat xss)))
  unfolding drain_from_start drain_rows
  drain_from_start_lem serves zero pages rows mode u g h = absurd (omega arith)
  drain_from_start_lem serves (suc n) pages rows list_mode u g h = absurd (u refl)
  drain_from_start_lem serves (suc n) pages rows not_started u g h =
      page-Loops pages serves (serves-Ends pages serves g) g n pages [] [] rows g h
  drain_from_start_lem serves (suc n) pages rows (iterating p) u g h =
      page-Loops pages serves (serves-Ends pages serves g) g n pages [] [] rows g h

  abbrev pub as_list : S → List Obj → World future
  as_list w rows = (w, record { current_rows = rows; mode = list_mode })

  next_row-listed :
      (fuel : ℕ) (w : S) (rows : List Obj)
      → next_row future (suc fuel) (as_list w rows) ≡ (as_list w rows, some (err type_error))
  unfolding next_row step
  next_row-listed fuel w rows = refl

  -- Making a fresh result set a list gathers the same rows; from then on reading it as a list
  -- changes nothing, drains return those rows, and `next` is refused.
  pub enter_list_mode_lem :
      {w : S} {xss : List (List Obj)} (serves : Serves w xss) (n pages : ℕ)
      (rows : Option (List Obj))
      → length xss < pages
      → length (rows_or_empty rows ++ concat xss) < n
      → let rows' = rows_or_empty rows ++ concat xss in
        (enter_list_mode future n pages (w, new rows)
          ≡ (as_list (exhausted serves) rows', some (ok tt)))
        × (enter_list_mode future n pages (as_list (exhausted serves) rows')
            ≡ (as_list (exhausted serves) rows', some (ok tt)))
        × (drain_from_start future n pages (as_list (exhausted serves) rows')
            ≡ (as_list (exhausted serves) rows', some (ok rows')))
        × (next_row future (suc pages) (as_list (exhausted serves) rows')
            ≡ (as_list (exhausted serves) rows', some (err type_error)))
  unfolding enter_list_mode new
  enter_list_mode_lem {xss = xss} serves n pages rows g h = (
    rw (drain_from_start_lem serves n pages (rows_or_empty rows) not_started (λ e. cc) g h) refl,
    refl,
    refl,
    next_row-listed pages (exhausted serves) (rows_or_empty rows ++ concat xss),
  )
