-- ===== src/Retrieval/WhereFilter.antt =====
-- The vector store's filter never loses a row that the exact check would pass.
use mathlib.Core.Path.{subst}
use mathlib.Core.Option.{some-injective}
use querix_semantic_search.Prelude.{
  ◌≡◌, ◌≢◌, refl, ap, inl, inr, Bool, true, false, ◌&&◌, ◌||◌, Option, none, some, List, [], ◌∷◌,
  ◌++◌, arith, ==_iff, Bool-cases, Option-cases, is_none, any, All, All-append, Text, codes,
  text_eq, text_eq_iff, text_eq_refl, ◌∙◌, ℤ,
}
use querix_semantic_search.Retrieval.Products.{Value, null, text, number, get}
use querix_semantic_search.Retrieval.Filters.{
  value_eq, Expected, one_of, exactly, Price, not_a_number, amount, ResolvedFilters, Pricing, meets,
  meets_all, below_minimum, above_maximum, price_fits, metadata_matches_filters,
}
use querix_semantic_search.Retrieval.PgFilter.{Sql, column, python_str, compares, gated, holds}
use querix_semantic_search.Retrieval.VectorSearch.{
  Clause, in_values, at_least, at_most, first_only, category_clause, category_clauses, bound_clause,
  price_clauses, vector_where_filter,
}

value_eq-eq : (v w : Value) → value_eq v w ≡ true → v ≡ w
unfolding value_eq
value_eq-eq null null h = refl
value_eq-eq (text s) (text t) h = ap text ((text_eq_iff s t).0 h)
value_eq-eq (number n) (number m) h = ap number ((==_iff n m).0 h)
value_eq-eq null (text t) h = cc
value_eq-eq null (number m) h = cc
value_eq-eq (text s) null h = cc
value_eq-eq (text s) (number m) h = cc
value_eq-eq (number n) null h = cc
value_eq-eq (number n) (text t) h = cc

-- Dropping repeated values keeps which values there are.
first_only-any :
    (a : Value) (seen vs : List Value)
    → (any (value_eq a) (first_only seen vs) || any (value_eq a) seen)
      ≡ (any (value_eq a) vs || any (value_eq a) seen)
unfolding first_only
first_only-any a seen [] = refl
first_only-any a seen (v ∷ vs) = elim (Bool-cases (any (value_eq v) seen)) [
  | inr new ↦ rw (first_only, new) (ground (arith, first_only-any a (v ∷ seen) vs))
  | inl old ↦ elim (Bool-cases (value_eq a v)) [
    | inr other ↦ rw (first_only, old) (ground (arith, first_only-any a seen vs))
    | inl same ↦
        let there : any (value_eq a) seen ≡ true = (rw (value_eq-eq a v same) old) in
        rw (first_only, old) (ground (arith, there))
  ]
]

first_only_complete :
    (a : Value) (vs : List Value)
    → any (value_eq a) vs ≡ true
    → any (value_eq a) (first_only [] vs) ≡ true
first_only_complete a vs h = ground (arith, first_only-any a [] vs)

abbrev pub is_null : Value → Bool
is_null null = true
is_null (text t) = false
is_null (number n) = false

-- A filter that asks for a missing value.
abbrev pub expects_null : Expected → Bool
expects_null (exactly value) = is_null value
expects_null (one_of values) = any is_null values

not_null :
    (a : Value) (vs : List Value)
    → any (value_eq a) vs ≡ true
    → any is_null vs ≡ false
    → is_null a ≡ false
not_null a [] h n = absurd (cc)
not_null a (v ∷ vs) h n = elim (Bool-cases (value_eq a v)) [
  | inr other ↦ not_null a vs (ground arith) (ground arith)
  | inl same ↦ ap is_null (value_eq-eq a v same) ∙ ground arith
]

module _ (sql : Sql) where
  -- Equal values have equal texts.
  same_texts :
      (a : Value) (vs : List Value)
      → any (value_eq a) vs ≡ true
      → any (λ v. text_eq (python_str sql a) (python_str sql v)) vs ≡ true
  same_texts a [] h = h
  same_texts a (v ∷ vs) h = elim (Bool-cases (value_eq a v)) [
    | inl same ↦
        let e : text_eq (python_str sql a) (python_str sql v) ≡ true =
          (rw (value_eq-eq a v same) (text_eq_refl (python_str sql v))) in
        ground arith
    | inr other ↦ let rest = same_texts a vs (ground arith) in ground arith
  ]

  column-of_value : (a : Value) → is_null a ≡ false → column sql a ≡ some (python_str sql a)
  column-of_value null h = absurd (cc)
  column-of_value (text t) h = refl
  column-of_value (number n) h = refl

module _ (sql : Sql) (pr : Pricing) (metadata : List (Text × Value)) where
  abbrev pub AllHold : List Clause → Type 0
  AllHold cs = All (λ c. holds sql metadata c ≡ true) cs

  category_clause-holds :
      (key : Text) (expected : Expected)
      → expects_null expected ≡ false
      → meets expected (get key metadata) ≡ true
      → AllHold (category_clause key expected)
  unfolding meets category_clause holds
  category_clause-holds key (exactly value) n h =
      let same = value_eq-eq (get key metadata) value h in
      (
        rw (holds, column-of_value sql (get key metadata) (ap is_null same ∙ n), same)
            (text_eq_refl (python_str sql value)),
        tt,
      )
  category_clause-holds key (one_of values) n h =
      kept (first_only [] values) (first_only_complete (get key metadata) values h)
    where
      kept :
          (vs : List Value)
          → any (value_eq (get key metadata)) vs ≡ true
          → AllHold (elim vs [ [] ↦ [] | v ∷ rest ↦ in_values key (v ∷ rest) ∷ [] ])
      kept [] k = tt
      kept (v ∷ rest) k = (
        rw (holds, column-of_value sql (get key metadata) (not_null (get key metadata) values h n))
            (same_texts sql (get key metadata) (v ∷ rest) k),
        tt,
      )

  category_clauses-hold :
      (categorical : List (Text × Expected))
      → All (λ e. expects_null e.1 ≡ false) categorical
      → meets_all categorical metadata ≡ true
      → AllHold (category_clauses categorical)
  unfolding meets_all category_clauses
  category_clauses-hold [] n h = tt
  category_clauses-hold ((key, expected) ∷ rest) n h =
      All-append (λ c. holds sql metadata c ≡ true) (category_clause key expected)
        (category_clauses rest) (category_clause-holds key expected n.0 (ground arith))
        (category_clauses-hold rest n.1 (ground arith))

  -- A price within the bounds meets their clauses.
  bounds-hold :
      (minimum maximum : Option ℤ) (fee : ℤ) (t : Text)
      → column sql (get (codes "rental_fee") metadata) ≡ some t
      → sql.decimal t ≡ some fee
      → below_minimum minimum fee ≡ false
      → above_maximum maximum fee ≡ false
      → AllHold (bound_clause at_least minimum ++ bound_clause at_most maximum)
  unfolding holds
  bounds-hold none none fee t e d low high = tt
  bounds-hold (some lo) none fee t e d low high =
      (rw (holds, e, compares, gated, d) (ground arith), tt)
  bounds-hold none (some hi) fee t e d low high =
      (rw (holds, e, compares, gated, d) (ground arith), tt)
  bounds-hold (some lo) (some hi) fee t e d low high = (
    rw (holds, e, compares, gated, d) (ground arith),
    (rw (holds, e, compares, gated, d) (ground arith), tt),
  )

  module _ (source_name : Text) (filters : ResolvedFilters) (company_id : Option Text)
      (include_unpriced : Bool)
      (matches : metadata_matches_filters pr source_name filters company_id include_unpriced
          metadata
        ≡ true) where
    matched_categories : meets_all filters.categorical metadata ≡ true
    unfolding metadata_matches_filters
    matched_categories = ground arith

    abbrev raw : Value
    raw = get (codes "rental_fee") metadata

    -- The price, if it is a number, is written in the row as a decimal.
    abbrev pub IsPlain : Type 0
    IsPlain =
        (fee : ℤ)
        → pr.to_float raw ≡ some (amount fee)
        → (t : Text) × (column sql raw ≡ some t) × (sql.decimal t ≡ some fee)

    -- A match with a bound has a price.
    matched_price :
        include_unpriced ≡ false
        → (is_none filters.min_rental_fee && is_none filters.max_rental_fee) ≡ false
        → (price : Price) × (pr.to_float raw ≡ some price)
          × (price_fits pr filters include_unpriced price ≡ true)
    unfolding metadata_matches_filters
    matched_price priced bounded = elim (Option-cases (pr.to_float raw)) [
      | inl nothing ↦ absurd (ground arith)
      | inr (price, e) ↦ (price, e, ground arith)
    ]

    price_clauses-hold :
        pr.to_float raw ≢ some not_a_number
        → IsPlain
        → AllHold (price_clauses filters include_unpriced)
    unfolding price_clauses
    price_clauses-hold number_like plain = elim (Bool-cases include_unpriced) [
      | inl unpriced ↦ rw unpriced tt
      | inr priced ↦
          elim (Bool-cases (is_none filters.min_rental_fee && is_none filters.max_rental_fee)) [
            | inl free ↦ rw priced (unbounded filters.min_rental_fee filters.max_rental_fee free)
            | inr bounded ↦
                let (price, e, fits) = matched_price priced bounded in
                rw priced (within price e (rw priced at fits))
          ]
    ]
      where
        unbounded :
            (minimum maximum : Option ℤ)
            → (is_none minimum && is_none maximum) ≡ true
            → AllHold (bound_clause at_least minimum ++ bound_clause at_most maximum)
        unbounded none none h = tt
        unbounded (some lo) maximum h = absurd (cc)
        unbounded none (some hi) h = absurd (cc)

        within :
            (price : Price)
            → pr.to_float raw ≡ some price
            → price_fits pr filters false price ≡ true
            → AllHold (
                bound_clause at_least filters.min_rental_fee
                ++ bound_clause at_most filters.max_rental_fee)
        within not_a_number e fits = absurd (number_like e)
        within (amount fee) e fits =
            let (t, et, d) = plain fee e in
            bounds-hold filters.min_rental_fee filters.max_rental_fee fee t et d
              (unfold price_fits in ground arith) (unfold price_fits in ground arith)

    -- A row that the exact check passes meets every condition that PostgreSQL is given with the
    -- filter, so the store hides no match, if no filter asks for a missing value, and the row's
    -- price, if it is a number, is not NaN and is written as a decimal.
    pub where_filter_complete :
        All (λ e. expects_null e.1 ≡ false) filters.categorical
        → pr.to_float raw ≢ some not_a_number
        → IsPlain
        → (cs : List Clause) → vector_where_filter filters include_unpriced ≡ some cs
        → AllHold cs
    unfolding vector_where_filter
    where_filter_complete asks number_like plain cs e =
        let all =
          All-append (λ c. holds sql metadata c ≡ true) (category_clauses filters.categorical)
            (price_clauses filters include_unpriced)
            (category_clauses-hold filters.categorical asks matched_categories)
            (price_clauses-hold number_like plain) in
        same_clauses
          (category_clauses filters.categorical ++ price_clauses filters include_unpriced) e all
      where
        same_clauses :
            (ds : List Clause)
            → ◌≡◌ {A = Option (List Clause)}
                (elim ds [ [] ↦ none | c ∷ rest ↦ some (c ∷ rest) ])
                (some cs)
            → AllHold ds
            → AllHold cs
        same_clauses [] p h = absurd (cc)
        same_clauses (d ∷ ds) p h = subst AllHold (some-injective (d ∷ ds) cs p) h
