-- ===== src/Retrieval/Filtering.antt =====
-- The products of the candidates: each once, and only those of an expected type.
use querix_semantic_search.Prelude.{
  keep-passes, ℕ, zero, suc, ◌≤◌, ◌≡◌, refl, ap, inl, inr, Bool, true, false, ◌||◌, Option, none,
  some, List, [], ◌∷◌, map, arith, Bool-cases, Option-cases, length, any, keep, All, All-map, Text,
  text_eq, text_eq_iff, Distinct,
}
use querix_semantic_search.Retrieval.Products.{
  Value, Candidate, product_id_of, member, extract_from, extract_product_ids, expected_types,
  type_in, has_type, filter_candidates_by_ad_type,
}
use querix_semantic_search.Retrieval.Tail.{scan}

module _ (str : Value → Text) where
  -- No identity among the values is one of the list.
  abbrev pub NewTo : List Text → List Value → Type 0
  NewTo seen vs = All (λ v. member (str v) seen ≡ false) vs

  NewTo-tail : (t : Text) (seen : List Text) (vs : List Value) → NewTo (t ∷ seen) vs → NewTo seen vs
  NewTo-tail t seen vs h = All-map (λ v k. ground arith) vs h

  NewTo-head :
      (v : Value) (seen : List Text) (vs : List Value)
      → NewTo (str v ∷ seen) vs
      → any (λ w. text_eq (str w) (str v)) vs ≡ false
  NewTo-head v seen [] h = refl
  NewTo-head v seen (w ∷ vs) h = ground (arith, h.0, NewTo-head v seen vs h.1)

  module _ (table column : Text) where
    extract_from-NewTo :
        (seen : List Text) (cs : List Candidate)
        → NewTo seen (extract_from str table column seen cs)
          × Distinct str (extract_from str table column seen cs)
    unfolding extract_from
    extract_from-NewTo seen [] = (tt, tt)
    extract_from-NewTo seen (c ∷ cs) = elim (Option-cases (product_id_of table column c)) [
      | inl nothing ↦ rw (extract_from, nothing) (extract_from-NewTo seen cs)
      | inr (v, found) ↦ elim (Bool-cases (member (str v) seen)) [
        | inl old ↦ rw (extract_from, found, old) (extract_from-NewTo seen cs)
        | inr new ↦
            let (n, d) = extract_from-NewTo (str v ∷ seen) cs in
            let vs = extract_from str table column (str v ∷ seen) cs in
            rw (extract_from, found, new)
              ((new, NewTo-tail (str v) seen vs n), (NewTo-head v seen vs n, d))
      ]
    ]

module _ {ℓ} {A : Type ℓ} where
  keep-same : (p q : A → Bool) (xs : List A) → ((x : A) → p x ≡ q x) → keep p xs ≡ keep q xs
  keep-same p q [] h = refl
  keep-same p q (x ∷ xs) h = let rest = keep-same p q xs h in rw (h x, rest) refl

  keep-keep : (p : A → Bool) (xs : List A) → keep p (keep p xs) ≡ keep p xs
  keep-keep p [] = refl
  keep-keep p (x ∷ xs) = elim (Bool-cases (p x)) [
    | inl hit ↦ rw (hit, hit) (ap (◌∷◌ x) (keep-keep p xs))
    | inr miss ↦ rw miss (keep-keep p xs)
  ]

-- The candidate names a product of this identity.
abbrev pub names_product : (Value → Text) → Text → Text → Text → Candidate → Bool
names_product str table column t c = elim (product_id_of table column c) [
  | none ↦ false
  | some v ↦ text_eq t (str v)
]

extract_from-members :
    (str : Value → Text) (table column : Text) (seen : List Text) (cs : List Candidate) (t : Text)
    → (member t seen || member t (map str (extract_from str table column seen cs)))
      ≡ (member t seen || any (names_product str table column t) cs)
unfolding extract_from
extract_from-members str table column seen [] t = refl
extract_from-members str table column seen (c ∷ cs) t =
    elim (Option-cases (product_id_of table column c)) [
      | inl nothing ↦
          let unnamed : names_product str table column t c ≡ false =
            (rw (names_product, nothing) refl) in
          rw (extract_from, nothing, unnamed) (extract_from-members str table column seen cs t)
      | inr (v, found) ↦
          let named : names_product str table column t c ≡ text_eq t (str v) =
            (rw (names_product, found) refl) in
          elim (Bool-cases (member (str v) seen)) [
            | inl old ↦
                let rest = extract_from-members str table column seen cs t in
                rw (extract_from, found, old, named)
                  (elim (Bool-cases (text_eq t (str v))) [
                    | inl same ↦
                        let in_seen : member t seen ≡ true =
                          (rw ((text_eq_iff t (str v)).0 same) old) in
                        rw in_seen refl
                    | inr other ↦ rw other rest
                  ])
            | inr new ↦
                let rest = extract_from-members str table column (str v ∷ seen) cs t in
                rw (extract_from, found, new, named) (ground (arith, rest))
          ]
    ]

-- The products of the candidates are the identities that some candidate names, each once.
pub extract_product_ids_exact :
    (str : Value → Text) (table column : Text) (cs : List Candidate) (t : Text)
    → Distinct str (extract_product_ids str table column cs)
      × (member t (map str (extract_product_ids str table column cs))
          ≡ any (names_product str table column t) cs)
unfolding extract_product_ids
extract_product_ids_exact str table column cs t =
    ((extract_from-NewTo str table column [] cs).1, extract_from-members str table column [] cs t)

-- The test of one candidate, by the product that it names.
abbrev pub typed :
    (Value → Text) → Text → Text → (Text → Option Text) → List Text → Candidate → Bool
typed str table column types expected c = elim (product_id_of table column c) [
  | none ↦ false
  | some v ↦ type_in expected (types (str v))
]

has_type-typed :
    (str : Value → Text) (table column : Text) (types : Text → Option Text) (expected : List Text)
    (c : Candidate)
    → has_type str table column types expected c ≡ typed str table column types expected c
unfolding extract_product_ids extract_from
has_type-typed str table column types expected c =
    elim (Option-cases (product_id_of table column c)) [
      | inl nothing ↦ rw (has_type, extract_product_ids, extract_from, typed, nothing) refl
      | inr (v, found) ↦ rw (has_type, extract_product_ids, extract_from, typed, found) refl
    ]

-- The filter keeps, in their order, just the candidates that name a product whose type, as fetched
-- for all the products at once, is expected; so a second filter by the same types changes nothing.
pub filter_candidates_exact :
    (str : Value → Text) (table column : Text) (fetch : List Value → Text → Option Text)
    (wanted : Bool) (allowed : Option (List Text)) (cs : List Candidate)
    → let kept = filter_candidates_by_ad_type str table column fetch wanted allowed cs in
      let types = fetch (extract_product_ids str table column cs) in
      let test = typed str table column types (expected_types wanted allowed) in
      (kept ≡ keep test cs) × All (λ c. test c ≡ true) kept × (keep test kept ≡ kept)
unfolding filter_candidates_by_ad_type
filter_candidates_exact str table column fetch wanted allowed cs =
    let types = fetch (extract_product_ids str table column cs) in
    let test = typed str table column types (expected_types wanted allowed) in
    let same =
      keep-same (has_type str table column types (expected_types wanted allowed)) test cs
        (has_type-typed str table column types (expected_types wanted allowed)) in
    rw same (refl, keep-passes test cs, keep-keep test cs)

module _ (str : Value → Text) (type_of : Text → Option Text) (expected : List Text) where
  pub scan_sound :
      (room : ℕ) (seen : List Text) (rows : List Value)
      → NewTo str seen (scan str type_of expected room seen rows).0
        × Distinct str (scan str type_of expected room seen rows).0
        × All
            (λ v. type_in expected (type_of (str v)) ≡ true)
            (scan str type_of expected room seen rows).0
        × (length (scan str type_of expected room seen rows).0 ≤ room)
  unfolding scan
  scan_sound zero seen rows = (tt, tt, tt, omega arith)
  scan_sound (suc room) seen [] = (tt, tt, tt, omega arith)
  scan_sound (suc room) seen (v ∷ rows) = elim (Bool-cases (member (str v) seen)) [
    | inl old ↦ rw (scan, old) (scan_sound (suc room) seen rows)
    | inr new ↦ elim (Bool-cases (type_in expected (type_of (str v)))) [
      | inr other ↦
          let (n, d, t, l) = scan_sound (suc room) (str v ∷ seen) rows in
          rw (scan, new, other) (NewTo-tail str (str v) seen _ n, d, t, l)
      | inl fits ↦
          let (n, d, t, l) = scan_sound room (str v ∷ seen) rows in
          rw (scan, new, fits)
            (
              (new, NewTo-tail str (str v) seen _ n),
              (NewTo-head str v seen _ n, d),
              (fits, t),
              omega (arith, l),
            )
    ]
  ]
