-- ===== src/Retrieval/Tail.antt =====
-- `related_tail_product_ids` of src/search/retrieval.py, with fuel for its loop. `browse` is the
-- index's, for the filters and the order of the call; `type_of` the type of a product.
use querix_semantic_search.Prelude.{
  ℕ, zero, suc, ◌+◌, ◌-◌, ◌*◌, Bool, true, false, not, ◌&&◌, ◌||◌, Option, none, some, List, [],
  ◌∷◌, ◌++◌, map, ltb, ◌==◌, if◌then◌else◌, min, max, is_none, length, Text, codes, lookup,
}
use querix_semantic_search.Retrieval.Products.{
  Value, null, text, number, member, type_in, get, expected_types,
}

pub record Filters : Type 0 where
  pub categorical : List (Text × Value)
  pub has_min_rental_fee : Bool
  pub has_max_rental_fee : Bool

abbrev is_truthy : Value → Bool
is_truthy null = false
is_truthy (text []) = false
is_truthy (text (c ∷ s)) = true
is_truthy (number n) = not (n == 0)

-- The filter of an inferred category that the user did not set.
unfoldable pub category_filter :
    Text → Text → List (Text × Value) → List (Text × Value) → List (Text × Value)
unfolding lookup get
category_filter category_key metadata_key categorical inferred =
    let value = get category_key inferred in
    if not (is_none (lookup metadata_key categorical))
    then []
    else if is_truthy value
    then (metadata_key, value) ∷ []
    else []

unfoldable pub category_filters : List (Text × Value) → List (Text × Value) → List (Text × Value)
unfolding category_filter
category_filters categorical inferred =
    category_filter (codes "main_category") (codes "main_category_name") categorical inferred
    ++ category_filter (codes "subcategory") (codes "subcategory_name") categorical inferred

abbrev pub is_empty {ℓ} : {A : Type ℓ} → List A → Bool
is_empty [] = true
is_empty (x ∷ xs) = false

module _ (str : Value → Text) (type_of : Text → Option Text) (expected : List Text) where
  -- One page: at most `room` new products, and the identities seen.
  unfoldable pub scan : ℕ → List Text → List Value → List Value × List Text
  scan zero seen rows = ([], seen)
  scan (suc room) seen [] = ([], seen)
  scan (suc room) seen (v ∷ rows) =
      let skip = scan (suc room) seen rows in
      let other = scan (suc room) (str v ∷ seen) rows in
      let taken = scan room (str v ∷ seen) rows in
      if member (str v) seen
      then skip
      else if type_in expected (type_of (str v))
      then (v ∷ taken.0, taken.1)
      else other

  -- The `while` loop; `none` is out of fuel.
  unfoldable pub tail_loop : (ℕ → ℕ → List Value) → ℕ → ℕ → ℕ → List Text → ℕ → Option (List Value)
  unfolding scan
  tail_loop browse page zero room seen offset = none
  tail_loop browse page (suc fuel) zero seen offset = some []
  tail_loop browse page (suc fuel) (suc room) seen offset =
      let rows = browse page offset in
      let step = scan (suc room) seen rows in
      let rest =
        tail_loop browse page fuel (suc room - length step.0) step.1 (offset + length rows) in
      if is_empty rows
      then some []
      else if ltb (length rows) page
      then some step.0
      else (elim rest [ none ↦ none | some vs ↦ some (step.0 ++ vs) ])

-- No filter at all: neither of the user, nor inferred, nor a price.
abbrev pub unfiltered : Filters → List (Text × Value) → Bool
unfiltered filters categories =
    is_empty filters.categorical
    && (is_empty categories && not (filters.has_min_rental_fee || filters.has_max_rental_fee))

abbrev pub page_size : ℕ → ℕ
page_size limit = max 100 (min (limit * 3) 500)

unfoldable pub related_tail_product_ids :
    (Value → Text)
    → (Text → Option Text)
    → (List (Text × Value) → ℕ → ℕ → List Value)
    → ℕ
    → Filters
    → List (Text × Value)
    → Bool
    → Option (List Text)
    → List Value
    → ℕ
    → Option (List Value)
unfolding category_filters expected_types tail_loop
related_tail_product_ids str type_of browse fuel filters inferred wanted allowed exclude limit =
    let categories = category_filters filters.categorical inferred in
    let loop =
      tail_loop str type_of (expected_types wanted allowed) (browse categories) (page_size limit)
        fuel limit (map str exclude) 0 in
    if limit == 0 then some [] else if unfiltered filters categories then some [] else loop
