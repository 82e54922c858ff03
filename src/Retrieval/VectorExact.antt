-- ===== src/Retrieval/VectorExact.antt =====
-- `vector_search` gives the first rows that pass the exact check, whatever the adapter supports.
use querix_semantic_search.Prelude.{
  ℕ, zero, suc, ◌-◌, ◌≤◌, ◌<◌, ◌≡◌, refl, ap, ◌∙◌, ◌⊎◌, inl, inr, Bool, Option, none, some, List,
  [], ◌∷◌, arith, leb, max, Bool-cases, take, keep, Result, ok, err,
}
use querix_semantic_search.Retrieval.Fusion.{Hit}
use querix_semantic_search.Retrieval.Filters.{Pricing}
use querix_semantic_search.Retrieval.VectorSearch.{
  Options, Limits, Answer, rows, SearchError, query_options, query_loop, collect, Request, passes,
  where_of, row_count, vector_search,
}
use querix_semantic_search.Retrieval.VectorLoop.{
  options_left, IsWeaker, Drops, Drops-IsWeaker, Refusal, query_loop-ends,
}

collect-take :
    {Distance : Type 0} (p : Hit → Bool) (top_k found : ℕ) (hits : List (Hit × Distance))
    → found < top_k
    → collect p top_k found hits ≡ take (top_k - found) (keep (λ h. p h.0) hits)
unfolding collect
collect-take p top_k found [] h =
    let e : top_k - found ≡ suc (top_k - found - 1) = omega arith in rw e refl
collect-take p top_k found ((hit, distance) ∷ hits) h = elim (Bool-cases (p hit)) [
  | inr fails ↦ rw fails (collect-take p top_k found hits h)
  | inl fits ↦ elim (Bool-cases (leb top_k (suc found))) [
    | inl full ↦ let e : top_k - found ≡ suc zero = ground arith in rw (fits, full, e) refl
    | inr more ↦
        let e : top_k - found ≡ suc (top_k - suc found) = ground arith in
        rw (fits, more, e)
          (ap (◌∷◌ (hit, distance)) (collect-take p top_k (suc found) hits (ground arith)))
  ]
]

options_left-le : (o : Options) → options_left o < 4
options_left-le o = ground arith

abbrev pub options_of : Limits → Option ℕ → Request → Options
options_of limits count r =
    query_options limits r.mode (max r.candidate_k r.top_k) (row_count count r) (where_of r)

-- What `vector_search` makes of the end of its loop.
abbrev collected :
    {Distance : Type 0}
    → Pricing
    → Request
    → Option (Result SearchError (Options × List (Hit × Distance)))
    → Option (Result SearchError (List (Hit × Distance)))
collected pr r none = none
collected pr r (some (err x)) = some (err x)
collected pr r (some (ok (used, found))) = some (ok (collect (passes pr r) r.top_k 0 found))

module _ {Distance : Type 0} (limits : Limits) (pr : Pricing) (query : Options → Answer Distance)
    (count : Option ℕ) (r : Request) (fuel : ℕ) where
  -- The search of an empty collection, one that raised, or the rows of an accepted query.
  abbrev pub IsAnswer : Result SearchError (List (Hit × Distance)) → Type 0
  IsAnswer result =
      ((count ≡ some 0) × (result ≡ ok []))
      ⊎ (((x : SearchError) × (used : Options) × (result ≡ err x)
            × Refusal query used x
            × Drops query (options_of limits count r) used
            × IsWeaker used (options_of limits count r))
          ⊎ ((used : Options) × (found : List (Hit × Distance)) × (query used ≡ rows found)
              × Drops query (options_of limits count r) used
              × IsWeaker used (options_of limits count r)
              × (result ≡ ok (take r.top_k (keep (λ h. passes pr r h.0) found)))))

  answers :
      vector_search limits pr query count fuel r
        ≡ collected pr r (query_loop query fuel (options_of limits count r))
      → 4 ≤ fuel
      → 0 < r.top_k
      → (result : Result SearchError (List (Hit × Distance))) × (vector_search limits pr query count
            fuel r
          ≡ some result)
        × IsAnswer result
  answers runs enough h =
      let asked = options_of limits count r in
      let (out, loops, ends) =
        query_loop-ends query fuel asked (omega (arith, options_left-le asked, enough)) in
      elim ends [
        | inr (x, used, raised, refusal, w) ↦ (
          err x,
          runs ∙ ap (collected pr r) (loops ∙ ap some raised),
          inr (inl (x, used, refl, refusal, w, Drops-IsWeaker query asked used w)),
        )
        | inl (used, found, e, q, w) ↦
            let all = keep (λ h. passes pr r h.0) found in
            let first =
              collect-take (passes pr r) r.top_k 0 found h ∙ ap (λ k. take k all) (omega arith) in
            (
              ok (collect (passes pr r) r.top_k 0 found),
              runs ∙ ap (collected pr r) (loops ∙ ap some e),
              inr (inr (used, found, q, w, Drops-IsWeaker query asked used w, ap ok first)),
            )
      ]

-- `vector_search` ends within four rounds of its fallbacks. It gives nothing for an empty
-- collection. Otherwise it ends with a query whose options are those asked for, with the limit of
-- rows unchanged, less those that the adapter refused: one by one, each after a TypeError of the
-- query with it whose message names it, the filter only when neither the post-filter nor the exact
-- limit was left to take away for that message. It gives the first `top_k` rows of that query that
-- pass the exact check, in their order; or it raises, and then only because the query failed, or
-- gave a TypeError that names no option left. `top_k` is at least 1.
pub vector_search_exact :
    {Distance : Type 0} (limits : Limits) (pr : Pricing) (query : Options → Answer Distance)
    (count : Option ℕ) (r : Request) (fuel : ℕ)
    → 4 ≤ fuel
    → 0 < r.top_k
    → (result : Result SearchError (List (Hit × Distance))) × (vector_search limits pr query count
          fuel r
        ≡ some result)
      × IsAnswer limits pr query count r fuel result
unfolding vector_search
vector_search_exact limits pr query (some zero) r fuel enough h = (ok [], refl, inl (refl, refl))
vector_search_exact limits pr query none r fuel enough h =
    answers limits pr query none r fuel same enough h
  where
    same :
        vector_search limits pr query none fuel r
        ≡ collected pr r (query_loop query fuel (options_of limits none r))
    same = ground arith
vector_search_exact limits pr query (some (suc n)) r fuel enough h =
    answers limits pr query (some (suc n)) r fuel same enough h
  where
    same :
        vector_search limits pr query (some (suc n)) fuel r
        ≡ collected pr r (query_loop query fuel (options_of limits (some (suc n)) r))
    same = ground arith
