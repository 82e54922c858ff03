-- ===== src/Retrieval/VectorSearch.antt =====
-- `vector_where_filter` and `vector_search` of src/search/retrieval.py. The query's embedding is
-- part of the collection's `query`, and `Distance` is the type of its distances.
use querix_semantic_search.Prelude.{
  ℕ, zero, suc, ◌*◌, Bool, true, false, not, ◌&&◌, Option, none, some, List, [], ◌∷◌, ◌++◌,
  if◌then◌else◌, leb, min, max, any, Result, ok, err, Text, ℤ,
}
use querix_semantic_search.Retrieval.Products.{Value}
use querix_semantic_search.Retrieval.Fusion.{Hit}
use querix_semantic_search.Retrieval.Filters.{
  value_eq, Expected, one_of, exactly, ResolvedFilters, Pricing, metadata_matches_filters,
}

-- One condition of the vector store.
pub data Clause : Type 0 where
  in_values : Text → List Value → Clause
  equals : Text → Value → Clause
  at_least : ℤ → Clause
  at_most : ℤ → Clause

-- `dict.fromkeys`: each value once, where it was first met.
unfoldable pub first_only : List Value → List Value → List Value
unfolding value_eq
first_only seen [] = []
first_only seen (v ∷ vs) =
    let rest = first_only (v ∷ seen) vs in
    let again = first_only seen vs in if any (value_eq v) seen then again else v ∷ rest

-- The clause of one categorical filter; an empty choice gives none.
unfoldable pub category_clause : Text → Expected → List Clause
unfolding first_only
category_clause key (one_of values) = elim (first_only [] values) [
  | [] ↦ []
  | v ∷ vs ↦ in_values key (v ∷ vs) ∷ []
]
category_clause key (exactly value) = equals key value ∷ []

unfoldable pub category_clauses : List (Text × Expected) → List Clause
unfolding category_clause
category_clauses [] = []
category_clauses ((key, expected) ∷ rest) = category_clause key expected ++ category_clauses rest

abbrev pub bound_clause : (ℤ → Clause) → Option ℤ → List Clause
bound_clause make none = []
bound_clause make (some fee) = make fee ∷ []

unfoldable pub price_clauses : ResolvedFilters → Bool → List Clause
price_clauses filters include_unpriced =
    if include_unpriced
    then []
    else bound_clause at_least filters.min_rental_fee ++ bound_clause at_most filters.max_rental_fee

-- `vector_where_filter`: all of these clauses have to hold; no clause is no filter.
unfoldable pub vector_where_filter : ResolvedFilters → Bool → Option (List Clause)
unfolding category_clauses price_clauses
vector_where_filter filters include_unpriced =
    elim (category_clauses filters.categorical ++ price_clauses filters include_unpriced) [
      | [] ↦ none
      | c ∷ cs ↦ some (c ∷ cs)
    ]

-- `post_filter_metadata`.
pub data PostFilter : Type 0 where
  off : PostFilter
  on : PostFilter
  adaptive : PostFilter

pub record Options : Type 0 where
  pub n_results : ℕ
  pub clauses : Option (List Clause)
  pub exact_filter_max_rows : Option ℕ
  pub post_filter_n_results : Option ℕ

-- VECTOR_EXACT_FILTER_MAX_ROWS, VECTOR_POST_FILTER_OVERFETCH_FACTOR and
-- VECTOR_POST_FILTER_MAX_CANDIDATES.
pub record Limits : Type 0 where
  pub exact_max_rows : ℕ
  pub overfetch_factor : ℕ
  pub max_candidates : ℕ

unfoldable pub overfetch : Limits → ℕ → ℕ → ℕ
overfetch limits wanted row_count =
    min (min (wanted * limits.overfetch_factor) limits.max_candidates) row_count

-- `query_options`, from the filter if there is one.
unfoldable pub query_options : Limits → PostFilter → ℕ → ℕ → Option (List Clause) → Options
unfolding overfetch
query_options limits mode wanted row_count none = record {
  n_results = min wanted row_count;
  clauses = none;
  exact_filter_max_rows = none;
  post_filter_n_results = none;
}
query_options limits adaptive wanted row_count (some cs) = record {
  n_results = min wanted row_count;
  clauses = some cs;
  exact_filter_max_rows = some limits.exact_max_rows;
  post_filter_n_results = some (overfetch limits wanted row_count);
}
query_options limits on wanted row_count (some cs) = record {
  n_results = overfetch limits wanted row_count;
  clauses = none;
  exact_filter_max_rows = none;
  post_filter_n_results = none;
}
query_options limits off wanted row_count (some cs) = record {
  n_results = min wanted row_count;
  clauses = some cs;
  exact_filter_max_rows = some limits.exact_max_rows;
  post_filter_n_results = none;
}

-- What a query comes to: rows; a TypeError, by the options that its message names; or another
-- exception.
pub data Answer (Distance : Type 0) : Type 0 where
  rows : List (Hit × Distance) → Answer Distance
  type_error : (names_post_filter names_exact_filter names_where : Bool) → Answer Distance
  failed : Answer Distance

pub data SearchError : Type 0 where
  unsupported : SearchError
  query_failed : SearchError

abbrev pub is_some {ℓ} : {A : Type ℓ} → Option A → Bool
is_some none = false
is_some (some a) = true

module _ {Distance : Type 0} (query : Options → Answer Distance) where
  -- The `while` loop, in which each TypeError takes one option away; `none` is out of fuel.
  unfoldable pub query_loop :
      ℕ → Options → Option (Result SearchError (Options × List (Hit × Distance)))
  query_loop zero o = none
  query_loop (suc fuel) o = elim (query o) [
    | rows found ↦ some (ok (o, found))
    | failed ↦ some (err query_failed)
    | type_error post exact named ↦
        let less_post = query_loop fuel (record o { post_filter_n_results = none }) in
        let less_exact = query_loop fuel (record o { exact_filter_max_rows = none }) in
        let less_where = query_loop fuel (record o { clauses = none }) in
        if post && is_some o.post_filter_n_results
        then less_post
        else if exact && is_some o.exact_filter_max_rows
        then less_exact
        else if named && is_some o.clauses
        then less_where
        else some (err unsupported)
  ]

-- The output loop, from an output of some length on: a row that passes is appended, and the loop
-- ends when the output is long enough.
unfoldable pub collect :
    {Distance : Type 0} → (Hit → Bool) → ℕ → ℕ → List (Hit × Distance) → List (Hit × Distance)
collect passes top_k found [] = []
collect passes top_k found ((hit, distance) ∷ rest) =
    let skipped = collect passes top_k found rest in
    let later = collect passes top_k (suc found) rest in
    if not (passes hit)
    then skipped
    else if leb top_k (suc found)
    then (hit, distance) ∷ []
    else (hit, distance) ∷ later

-- What the caller asks: the source's name with the filters, or no exact check.
pub record Request : Type 0 where
  pub top_k : ℕ
  pub candidate_k : ℕ
  pub filters : Option (Text × ResolvedFilters)
  pub company_id : Option Text
  pub mode : PostFilter
  pub include_unpriced : Bool

unfoldable pub passes : Pricing → Request → Hit → Bool
unfolding metadata_matches_filters
passes pr r hit = elim r.filters [
  | none ↦ true
  | some (source_name, filters) ↦
      metadata_matches_filters pr source_name filters r.company_id r.include_unpriced hit.metadata
]

abbrev pub where_of : Request → Option (List Clause)
where_of r = elim r.filters [
  | none ↦ none
  | some (source_name, filters) ↦ vector_where_filter filters r.include_unpriced
]

-- The rows that the collection counts, if it wants a count before a query.
abbrev pub row_count : Option ℕ → Request → ℕ
row_count none r = max r.candidate_k r.top_k
row_count (some n) r = n

unfoldable pub vector_search :
    {Distance : Type 0}
    → Limits
    → Pricing
    → (Options → Answer Distance)
    → Option ℕ
    → ℕ
    → Request
    → Option (Result SearchError (List (Hit × Distance)))
unfolding vector_where_filter query_options query_loop collect passes
vector_search limits pr query count fuel r =
    let o =
      query_options limits r.mode (max r.candidate_k r.top_k) (row_count count r) (where_of r) in
    let searched = query_loop query fuel o in
    elim count [
      | some zero ↦ some (ok [])
      | _ ↦ elim searched [
        | none ↦ none
        | some (err x) ↦ some (err x)
        | some (ok (used, found)) ↦ some (ok (collect (passes pr r) r.top_k 0 found))
      ]
    ]
