-- ===== src/Retrieval/Tests.antt =====
-- Runs of the product extraction and of the related tail.
use querix_semantic_search.Prelude.{
  ℕ, ◌≤◌, ◌≡◌, refl, Bool, true, false, Option, none, some, List, [], ◌∷◌, map, length, take, drop,
  All, Text, codes, Distinct, arith, text_eq, if◌then◌else◌,
}
use querix_semantic_search.Retrieval.Products.{
  Value, null, text, number, Candidate, type_in, extract_product_ids, expected_types,
  filter_candidates_by_ad_type,
}
use querix_semantic_search.Retrieval.Filtering.{NewTo, typed}
use querix_semantic_search.Retrieval.Tail.{
  Filters, unfiltered, category_filters, scan, related_tail_product_ids,
}
use querix_semantic_search.Retrieval.TailPaging.{related_tail_one_pass}
use querix_semantic_search.Retrieval.TailSound.{related_tail_sound}

-- One digit is enough for the products below.
abbrev digit : Value → Text
digit null = codes "None"
digit (text t) = t
digit (number n) = n ∷ []

abbrev product : ℕ → Candidate
product n = record {
  id = n ∷ [];
  metadata =
      (codes "source_type", text (codes "mysql"))
      ∷ (codes "source_table", text (codes "ads"))
      ∷ (codes "id", number n)
      ∷ [];
}

abbrev candidates : List Candidate
candidates = product 7 ∷ product 8 ∷ product 7 ∷ []

abbrev types : Text → Option Text
types t = if text_eq t (8 ∷ []) then some (codes "2") else some (codes "1")

abbrev fetch : List Value → Text → Option Text
fetch ids = types

extracts :
    extract_product_ids digit (codes "ads") (codes "id") candidates ≡ number 7 ∷ number 8 ∷ []
unfolding extract_product_ids text_eq
extracts = refl

abbrev kept : List Candidate
kept = filter_candidates_by_ad_type digit (codes "ads") (codes "id") fetch true none candidates

abbrev wanted_test : Candidate → Bool
wanted_test =
    typed digit (codes "ads") (codes "id")
      (fetch (extract_product_ids digit (codes "ads") (codes "id") candidates))
      (expected_types true none)

filters_wanted : kept ≡ product 8 ∷ []
unfolding filter_candidates_by_ad_type text_eq
filters_wanted = refl

abbrev listing : List Value
listing = number 7 ∷ number 8 ∷ number 9 ∷ number 9 ∷ []

abbrev browse : List (Text × Value) → ℕ → ℕ → List Value
browse categories n o = take n (drop o listing)

abbrev priced : Filters
priced = record { categorical = []; has_min_rental_fee = true; has_max_rental_fee = false }

priced_is_filtered : unfiltered priced (category_filters priced.categorical []) ≡ false
unfolding category_filters
priced_is_filtered = refl

tail_found :
    related_tail_product_ids digit types browse 5 priced [] false none (number 7 ∷ []) 6
    ≡ some (number 9 ∷ [])
unfolding related_tail_product_ids text_eq
tail_found = refl

related_tail_one_pass_example :
    related_tail_product_ids digit types browse 5 priced [] false none (number 7 ∷ []) 6
    ≡ some (scan digit types (expected_types false none) 6 (map digit (number 7 ∷ [])) listing).0
related_tail_one_pass_example =
    related_tail_one_pass digit types browse listing 5 priced [] false none (number 7 ∷ []) 6
      (λ n o. refl) (omega arith) priced_is_filtered

related_tail_sound_example :
    (ids : List Value) × (related_tail_product_ids digit types browse 5 priced [] false none
        (number 7 ∷ [])
        6
      ≡ some ids)
    × (length ids ≤ 6)
    × Distinct digit ids
    × NewTo digit (map digit (number 7 ∷ [])) ids
    × All (λ v. type_in (expected_types false none) (types (digit v)) ≡ true) ids
related_tail_sound_example =
    related_tail_sound digit types browse listing 5 priced [] false none (number 7 ∷ []) 6
      (λ n o. refl) (omega arith) priced_is_filtered
