-- ===== src/Retrieval/Filters.antt =====
-- `metadata_matches_filters`, `vector_where_filter` and `vector_search` of src/search/retrieval.py.
use querix_semantic_search.Prelude.{
  Bool, true, false, not, ◌&&◌, Option, none, some, List, [], ◌∷◌, if◌then◌else◌, ◌==◌, is_none,
  any, Text, codes, text_eq, ℤ, leb_ℤ, ltb_ℤ,
}
use querix_semantic_search.Retrieval.Products.{Value, null, text, number, get}

-- `==` on metadata values.
unfoldable pub value_eq : Value → Value → Bool
value_eq null null = true
value_eq (text s) (text t) = text_eq s t
value_eq (number n) (number m) = n == m
value_eq _ _ = false

-- An expected category: one value, or several of which one must be met.
pub data Expected : Type 0 where
  one_of : List Value → Expected
  exactly : Value → Expected

-- The float of a price: NaN, which compares false with every number, or an amount in hundredths.
pub data Price : Type 0 where
  not_a_number : Price
  amount : ℤ → Price

pub record ResolvedFilters : Type 0 where
  pub categorical : List (Text × Expected)
  pub min_rental_fee : Option ℤ
  pub max_rental_fee : Option ℤ

-- `float(value)`, which raises on what is no number, and UNPRICED_RENTAL_FEE_CEILING.
pub record Pricing : Type 0 where
  pub to_float : Value → Option Price
  pub unpriced_ceiling : ℤ

unfoldable pub meets : Expected → Value → Bool
unfolding value_eq
meets (one_of values) actual = any (value_eq actual) values
meets (exactly value) actual = value_eq actual value

-- The loop over the categorical filters.
unfoldable pub meets_all : List (Text × Expected) → List (Text × Value) → Bool
unfolding meets get
meets_all [] metadata = true
meets_all ((key, expected) ∷ rest) metadata =
    if meets expected (get key metadata) then meets_all rest metadata else false

abbrev pub is_unpriced : Value → Bool
is_unpriced null = true
is_unpriced (text []) = true
is_unpriced (text (c ∷ s)) = false
is_unpriced (number n) = false

abbrev pub below_minimum : Option ℤ → ℤ → Bool
below_minimum none fee = false
below_minimum (some minimum) fee = ltb_ℤ fee minimum

abbrev pub above_maximum : Option ℤ → ℤ → Bool
above_maximum none fee = false
above_maximum (some maximum) fee = ltb_ℤ maximum fee

-- The tests of a price that was read.
unfoldable pub price_fits : Pricing → ResolvedFilters → Bool → Price → Bool
price_fits pr filters include_unpriced not_a_number = true
price_fits pr filters include_unpriced (amount fee) =
    if leb_ℤ fee pr.unpriced_ceiling
    then include_unpriced
    else if below_minimum filters.min_rental_fee fee
    then false
    else not (above_maximum filters.max_rental_fee fee)

abbrev pub text_is : Text → Value → Bool
text_is s (text t) = text_eq t s
text_is s null = false
text_is s (number n) = false

-- `company_id is not None and metadata.get("company_id") != company_id`, denied.
abbrev pub company_fits : Option Text → Value → Bool
company_fits none actual = true
company_fits (some company) actual = text_is company actual

unfoldable pub metadata_matches_filters :
    Pricing → Text → ResolvedFilters → Option Text → Bool → List (Text × Value) → Bool
unfolding get meets_all price_fits
metadata_matches_filters pr source_name filters company_id include_unpriced metadata =
    let raw = get (codes "rental_fee") metadata in
    if not (text_is source_name (get (codes "source_file") metadata))
    then false
    else if not (company_fits company_id (get (codes "company_id") metadata))
    then false
    else if not (meets_all filters.categorical metadata)
    then false
    else if is_none filters.min_rental_fee && is_none filters.max_rental_fee
    then true
    else if is_unpriced raw && include_unpriced
    then true
    else (elim (pr.to_float raw) [
      | none ↦ false
      | some price ↦ price_fits pr filters include_unpriced price
    ])
