-- ===== src/Retrieval/Products.antt =====
-- `extract_product_ids` and `filter_candidates_by_ad_type` of src/search/retrieval.py.
use querix_semantic_search.Prelude.{
  ℕ, Bool, false, not, ◌||◌, Option, none, some, List, [], ◌∷◌, if◌then◌else◌, any, keep, Text,
  codes, text_eq, lookup,
}

-- A metadata value: missing or `None`, a text, or a number.
pub data Value : Type 0 where
  null : Value
  text : Text → Value
  number : ℕ → Value

pub record Candidate : Type 0 where
  pub id : Text
  pub metadata : List (Text × Value)

-- `metadata.get(key)`.
unfoldable pub get : Text → List (Text × Value) → Value
unfolding lookup
get key metadata = elim (lookup key metadata) [ none ↦ null | some v ↦ v ]

abbrev pub is_text : Text → Value → Bool
is_text s (text t) = text_eq t s
is_text s _ = false

abbrev pub present : Value → Option Value
present null = none
present (text t) = some (text t)
present (number n) = some (number n)

-- The product that one candidate names, by the table and the id column of the search.
unfoldable pub product_id_of : Text → Text → Candidate → Option Value
unfolding get
product_id_of search_table search_id_column c =
    let source_type = get (codes "source_type") c.metadata in
    if not (is_text (codes "mysql") source_type || is_text (codes "postgres") source_type)
    then none
    else if not (is_text search_table (get (codes "source_table") c.metadata))
    then none
    else elim (present (get search_id_column c.metadata)) [
      | some v ↦ some v
      | none ↦
          if is_text search_id_column (get (codes "primary_key_column") c.metadata)
          then present (get (codes "primary_key_value") c.metadata)
          else none
    ]

abbrev pub member : Text → List Text → Bool
member t ts = any (text_eq t) ts

-- The loop of `extract_product_ids`, by the identities seen; `str` is Python's.
unfoldable pub extract_from : (Value → Text) → Text → Text → List Text → List Candidate → List Value
unfolding product_id_of
extract_from str table column seen [] = []
extract_from str table column seen (c ∷ cs) = elim (product_id_of table column c) [
  | none ↦ extract_from str table column seen cs
  | some v ↦
      let again = extract_from str table column seen cs in
      let new = extract_from str table column (str v ∷ seen) cs in
      if member (str v) seen then again else v ∷ new
]

unfoldable pub extract_product_ids : (Value → Text) → Text → Text → List Candidate → List Value
unfolding extract_from
extract_product_ids str table column cs = extract_from str table column [] cs

-- `allowed_ad_types`, or the one type that the target means: 2 is wanted and 1 is offered.
unfoldable pub expected_types : Bool → Option (List Text) → List Text
expected_types wanted (some types) = types
expected_types wanted none = (if wanted then codes "2" else codes "1") ∷ []

abbrev pub type_in : List Text → Option Text → Bool
type_in types none = false
type_in types (some t) = member t types

abbrev pub has_type :
    (Value → Text) → Text → Text → (Text → Option Text) → List Text → Candidate → Bool
has_type str table column types expected c = elim (extract_product_ids str table column (c ∷ [])) [
  | [] ↦ false
  | v ∷ _ ↦ type_in expected (types (str v))
]

-- `filter_candidates_by_ad_type`; `fetch` reads the types of the products, by identity.
unfoldable pub filter_candidates_by_ad_type :
    (Value → Text)
    → Text
    → Text
    → (List Value → Text → Option Text)
    → Bool
    → Option (List Text)
    → List Candidate
    → List Candidate
unfolding extract_product_ids expected_types
filter_candidates_by_ad_type str table column fetch wanted allowed cs =
    let types = fetch (extract_product_ids str table column cs) in
    keep (has_type str table column types (expected_types wanted allowed)) cs
