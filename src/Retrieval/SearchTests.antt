-- ===== src/Retrieval/SearchTests.antt =====
-- Runs of the vector search and of the fusion, and their theorems at concrete inputs.
use querix_semantic_search.Prelude.{
  ℕ, ◌-◌, ◌+◌, ◌≡◌, ◌≢◌, refl, ap, true, false, ◌||◌, Option, none, some, List, [], ◌∷◌, map, arith,
  ltb, any, All, Text, codes, text_eq, ℤ, pos, Distinct, Result, ok,
}
use querix_semantic_search.Prelude.Sorting.{IsWeakOrder, IsSorted}
use querix_semantic_search.Retrieval.Products.{Value, text, number, get}
use querix_semantic_search.Retrieval.Filters.{
  one_of, Price, amount, not_a_number, ResolvedFilters, Pricing, metadata_matches_filters,
}
use querix_semantic_search.Retrieval.Fusion.{Scores, Hit, scored_before, Weights, merge_results}
use querix_semantic_search.Retrieval.FusionScores.{hit_id, fused_id}
use querix_semantic_search.Retrieval.FusionExact.{HasRankScore, merge_results_exact}
use querix_semantic_search.Retrieval.VectorSearch.{
  Clause, at_least, in_values, Options, Limits, Answer, rows, type_error, adaptive, SearchError,
  Request, vector_where_filter, vector_search,
}
use querix_semantic_search.Retrieval.VectorExact.{IsAnswer, vector_search_exact}
use querix_semantic_search.Retrieval.PgFilter.{Sql, column, holds}
use querix_semantic_search.Retrieval.WhereFilter.{AllHold, where_filter_complete}

-- Scores as whole numbers: a share is weight less rank.
abbrev whole : Scores
whole = record {
  Score = ℕ;
  zero_score = 0;
  plus = λ a b. a + b;
  divide = λ w n. w - n;
  below = λ a b. ltb a b;
}

whole-IsWeakOrder : IsWeakOrder (λ a b. ltb a b)
whole-IsWeakOrder = record {
  asymmetric = λ a b h. ground arith;
  negative = λ a b c h k. ground arith;
}

abbrev weights : Weights whole
weights = record { rrf_constant = 1; vector_weight = 10; bm25_weight = 10; soft_category_boost = 3 }

abbrev hit : ℕ → Text → Hit
hit n category = record {
  id = n ∷ [];
  text = [];
  metadata =
      (codes "source_file", text (codes "ads"))
      ∷ (codes "main_category_name", text category)
      ∷ (codes "rental_fee", number n)
      ∷ [];
}

abbrev vectors : List Hit
vectors = hit 1 (codes "tools") ∷ hit 2 (codes "cars") ∷ []

abbrev keywords : List Hit
keywords = hit 2 (codes "cars") ∷ hit 3 (codes "cars") ∷ []

abbrev cars : Option Value
cars = some (text (codes "cars"))

fuses :
    map (fused_id whole) (merge_results whole weights cars none vectors keywords)
    ≡ (2 ∷ []) ∷ (3 ∷ []) ∷ (1 ∷ []) ∷ []
unfolding merge_results text_eq
fuses = refl

merge_results_exact_example :
    IsSorted (scored_before whole) (merge_results whole weights cars none vectors keywords)
    × Distinct (fused_id whole) (merge_results whole weights cars none vectors keywords)
    × (any
          (λ f. text_eq (fused_id whole f) (2 ∷ []))
          (merge_results whole weights cars none vectors keywords)
        ≡ (any (λ h. text_eq (hit_id h) (2 ∷ [])) vectors
            || any (λ h. text_eq (hit_id h) (2 ∷ [])) keywords))
    × All
        (HasRankScore whole weights cars none vectors keywords)
        (merge_results whole weights cars none vectors keywords)
merge_results_exact_example =
    merge_results_exact whole weights cars none vectors keywords whole-IsWeakOrder (2 ∷ [])

abbrev pricing : Pricing
pricing = record {
  to_float = λ v. elim v [ number n ↦ some (amount (pos n)) | _ ↦ none ];
  unpriced_ceiling = pos 0;
}

abbrev filters : ResolvedFilters
filters = record {
  categorical =
      (codes "main_category_name", one_of (text (codes "cars") ∷ text (codes "cars") ∷ [])) ∷ [];
  min_rental_fee = some (pos 2);
  max_rental_fee = none;
}

abbrev clauses : List Clause
clauses = in_values (codes "main_category_name") (text (codes "cars") ∷ []) ∷ at_least (pos 2) ∷ []

has_clauses : vector_where_filter filters false ≡ some clauses
unfolding vector_where_filter text_eq
has_clauses = refl

second_matches :
    metadata_matches_filters pricing
      (codes "ads")
      filters
      none
      false
      (hit 2 (codes "cars")).metadata
    ≡ true
unfolding metadata_matches_filters text_eq
second_matches = refl

priced :
    pricing.to_float (get (codes "rental_fee") (hit 2 (codes "cars")).metadata) ≢ some not_a_number
unfolding get text_eq
priced h = cc

-- One digit for a number.
abbrev digits : Sql
digits = record {
  number_text = λ n. n ∷ [];
  decimal = λ t. elim t [ n ∷ [] ↦ some (pos n) | _ ↦ none ];
}

abbrev fee_of : Option Price → Option ℤ
fee_of (some (amount fee)) = some fee
fee_of _ = none

plain :
    (fee : ℤ)
    → pricing.to_float (get (codes "rental_fee") (hit 2 (codes "cars")).metadata)
      ≡ some (amount fee)
    → (t : Text) × (column digits (get (codes "rental_fee") (hit 2 (codes "cars")).metadata)
        ≡ some t)
      × (digits.decimal t ≡ some fee)
unfolding get text_eq
plain fee e = (_, refl, ap fee_of e)

where_filter_complete_example : AllHold digits pricing (hit 2 (codes "cars")).metadata clauses
where_filter_complete_example =
    where_filter_complete digits pricing (hit 2 (codes "cars")).metadata (codes "ads") filters none
      false second_matches (refl, tt) priced plain clauses has_clauses

-- A price that `float` reads, but whose text is no decimal, passes the exact check and not the
-- condition of the store.
hides_other_texts :
    holds (record digits { decimal = λ t. none }) (hit 2 (codes "cars")).metadata (at_least (pos 2))
    ≡ false
unfolding holds get text_eq
hides_other_texts = refl

abbrev limits : Limits
limits = record { exact_max_rows = 100; overfetch_factor = 4; max_candidates = 1000 }

abbrev one_request : Request
one_request = record {
  top_k = 1;
  candidate_k = 2;
  filters = some (codes "ads", filters);
  company_id = none;
  mode = adaptive;
  include_unpriced = false;
}

-- An adapter that knows no option but the filter.
abbrev old_adapter : Options → Answer ℕ
old_adapter o = elim o.post_filter_n_results [
  | some n ↦ type_error true false false
  | none ↦ elim o.exact_filter_max_rows [
    | some n ↦ type_error false true false
    | none ↦
        rows
          ((hit 1 (codes "tools"), 5) ∷ (hit 2 (codes "cars"), 6) ∷ (hit 3 (codes "cars"), 7) ∷ [])
  ]
]

finds_first_match :
    vector_search limits pricing old_adapter (some 3) 4 one_request
    ≡ some (ok ((hit 2 (codes "cars"), 6) ∷ []))
unfolding vector_search text_eq
finds_first_match = refl

vector_search_exact_example :
    (result : Result SearchError (List (Hit × ℕ))) × (vector_search limits pricing old_adapter
        (some 3)
        4
        one_request
      ≡ some result)
    × IsAnswer limits pricing old_adapter (some 3) one_request 4 result
vector_search_exact_example =
    vector_search_exact limits pricing old_adapter (some 3) one_request 4 (omega arith)
      (omega arith)
