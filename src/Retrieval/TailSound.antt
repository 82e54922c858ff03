-- ===== src/Retrieval/TailSound.antt =====
-- What the related tail contains.
use querix_semantic_search.Prelude.{
  ℕ, ◌≤◌, ◌<◌, ◌≡◌, Bool, true, false, Option, some, List, map, length, take, drop, All, Text,
  Distinct,
}
use querix_semantic_search.Retrieval.Products.{Value, type_in, expected_types}
use querix_semantic_search.Retrieval.Tail.{
  Filters, unfiltered, category_filters, related_tail_product_ids,
}
use querix_semantic_search.Retrieval.Filtering.{NewTo, scan_sound}
use querix_semantic_search.Retrieval.TailPaging.{related_tail_one_pass}

-- Where there is some filter, and the index lists the rows of the filters in one order and `browse`
-- gives the page asked for, the loop ends with fuel for one more page than there are rows, with at
-- most `limit` products, each once, none of them excluded, and all of an expected type.
pub related_tail_sound :
    (str : Value → Text) (type_of : Text → Option Text)
    (browse : List (Text × Value) → ℕ → ℕ → List Value) (rows : List Value) (fuel : ℕ)
    (filters : Filters) (inferred : List (Text × Value)) (wanted : Bool)
    (allowed : Option (List Text)) (exclude : List Value) (limit : ℕ)
    → ((n o : ℕ)
        → browse (category_filters filters.categorical inferred) n o ≡ take n (drop o rows))
    → length rows < fuel
    → unfiltered filters (category_filters filters.categorical inferred) ≡ false
    → (ids : List Value) × (related_tail_product_ids str type_of browse fuel filters inferred wanted
          allowed exclude limit
        ≡ some ids)
      × (length ids ≤ limit)
      × Distinct str ids
      × NewTo str (map str exclude) ids
      × All (λ v. type_in (expected_types wanted allowed) (type_of (str v)) ≡ true) ids
related_tail_sound str type_of browse rows fuel filters inferred wanted allowed exclude limit
      listing enough filtered =
    let (n, d, t, l) =
      scan_sound str type_of (expected_types wanted allowed) limit (map str exclude) rows in
    (
      _,
      related_tail_one_pass str type_of browse rows fuel filters inferred wanted allowed exclude
          limit listing enough filtered,
      l,
      d,
      n,
      t,
    )
