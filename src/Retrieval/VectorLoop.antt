-- ===== src/Retrieval/VectorLoop.antt =====
-- How the loop of `vector_search` ends, whatever options the adapter supports.
use querix_semantic_search.Prelude.{
  ℕ, zero, suc, ◌+◌, ◌<◌, ◌≡◌, refl, ◌⊎◌, inl, inr, Bool, true, false, ◌&&◌, Option, none, some,
  List, arith, Bool-cases, Result, ok, err,
}
use querix_semantic_search.Retrieval.Fusion.{Hit}
use querix_semantic_search.Retrieval.VectorSearch.{
  Options, Answer, rows, type_error, failed, SearchError, unsupported, query_failed, is_some,
  query_loop,
}

abbrev pub weight {ℓ} : {A : Type ℓ} → Option A → ℕ
weight none = 0
weight (some a) = 1

abbrev pub options_left : Options → ℕ
options_left o = weight o.post_filter_n_results + weight o.exact_filter_max_rows + weight o.clauses

-- The same option, or none.
abbrev KeptOrDropped {ℓ} : {A : Type ℓ} → Option A → Option A → Type ℓ
KeptOrDropped used asked = (used ≡ asked) ⊎ (used ≡ none)

-- The query asks for as many rows; an option that the adapter does not know is left out.
pub record IsWeaker (used asked : Options) : Type 0 where
  pub same_limit : used.n_results ≡ asked.n_results
  pub post_filter : KeptOrDropped used.post_filter_n_results asked.post_filter_n_results
  pub exact_filter : KeptOrDropped used.exact_filter_max_rows asked.exact_filter_max_rows
  pub where_clauses : KeptOrDropped used.clauses asked.clauses

IsWeaker-refl : (o : Options) → IsWeaker o o
IsWeaker-refl o = record {
  same_limit = refl;
  post_filter = inl refl;
  exact_filter = inl refl;
  where_clauses = inl refl;
}

dropped_again {ℓ} :
    {A : Type ℓ} {used asked : Option A} → KeptOrDropped used none → KeptOrDropped used asked
dropped_again (inl e) = inr e
dropped_again (inr e) = inr e

Answer-cases :
    {Distance : Type 0} (a : Answer Distance)
    → ((found : List (Hit × Distance)) × (a ≡ rows found))
      ⊎ (((p : Bool) × (e : Bool) × (w : Bool) × (a ≡ type_error p e w)) ⊎ (a ≡ failed))
Answer-cases (rows found) = inl (found, refl)
Answer-cases (type_error p e w) = inr (inl (p, e, w, refl))
Answer-cases failed = inr (inr refl)

-- Why a query ends the search with an exception: it raised another one than a TypeError, or its
-- TypeError names no option that it still has.
pub data Refusal {Distance : Type 0} (query : Options → Answer Distance) (used : Options)
    : SearchError → Type 0 where
  by_exception : query used ≡ failed → Refusal query used query_failed
  by_options :
      (post exact clauses : Bool)
      → query used ≡ type_error post exact clauses
      → (post && is_some used.post_filter_n_results) ≡ false
      → (exact && is_some used.exact_filter_max_rows) ≡ false
      → (clauses && is_some used.clauses) ≡ false
      → Refusal query used unsupported

-- From the options asked for to those of the last query: each query between gave a TypeError, and
-- took away one option that its message names and that it had, the post-filter before the limit of
-- the exact ranking, and that before the filter.
pub data Drops {Distance : Type 0} (query : Options → Answer Distance)
    : Options → Options → Type 0 where
  no_more : (o : Options) → Drops query o o
  drops_post :
      (post exact clauses : Bool) (o used : Options)
      → query o ≡ type_error post exact clauses
      → (post && is_some o.post_filter_n_results) ≡ true
      → Drops query (record o { post_filter_n_results = none }) used
      → Drops query o used
  drops_exact :
      (post exact clauses : Bool) (o used : Options)
      → query o ≡ type_error post exact clauses
      → (post && is_some o.post_filter_n_results) ≡ false
      → (exact && is_some o.exact_filter_max_rows) ≡ true
      → Drops query (record o { exact_filter_max_rows = none }) used
      → Drops query o used
  drops_clauses :
      (post exact clauses : Bool) (o used : Options)
      → query o ≡ type_error post exact clauses
      → (post && is_some o.post_filter_n_results) ≡ false
      → (exact && is_some o.exact_filter_max_rows) ≡ false
      → (clauses && is_some o.clauses) ≡ true
      → Drops query (record o { clauses = none }) used
      → Drops query o used

pub Drops-IsWeaker :
    {Distance : Type 0} (query : Options → Answer Distance) (o used : Options)
    → Drops query o used
    → IsWeaker used o
Drops-IsWeaker query o used (no_more _) = IsWeaker-refl o
Drops-IsWeaker query o used (drops_post post exact clauses _ _ q h d) =
    let k = Drops-IsWeaker query (record o { post_filter_n_results = none }) used d in
    record {
      same_limit = k.same_limit;
      post_filter = dropped_again k.post_filter;
      exact_filter = k.exact_filter;
      where_clauses = k.where_clauses;
    }
Drops-IsWeaker query o used (drops_exact post exact clauses _ _ q h1 h d) =
    let k = Drops-IsWeaker query (record o { exact_filter_max_rows = none }) used d in
    record {
      same_limit = k.same_limit;
      post_filter = k.post_filter;
      exact_filter = dropped_again k.exact_filter;
      where_clauses = k.where_clauses;
    }
Drops-IsWeaker query o used (drops_clauses post exact clauses _ _ q h1 h2 h d) =
    let k = Drops-IsWeaker query (record o { clauses = none }) used d in
    record {
      same_limit = k.same_limit;
      post_filter = k.post_filter;
      exact_filter = k.exact_filter;
      where_clauses = dropped_again k.where_clauses;
    }

module _ {Distance : Type 0} (query : Options → Answer Distance) where
  -- How the loop ends: with the rows, or the exception, of a query with some of the options.
  abbrev pub Ends : Options → Result SearchError (Options × List (Hit × Distance)) → Type 0
  Ends asked r =
      ((used : Options) × (found : List (Hit × Distance)) × (r ≡ ok (used, found))
        × (query used ≡ rows found)
        × Drops query asked used)
      ⊎ ((x : SearchError) × (used : Options) × (r ≡ err x)
          × Refusal query used x
          × Drops query asked used)

  abbrev pub Loops : ℕ → Options → Options → Type 0
  Loops fuel o asked =
      (r : Result SearchError (Options × List (Hit × Distance))) × (query_loop query fuel o
        ≡ some r)
      × Ends asked r

  weaken :
      (fuel : ℕ) (less asked : Options)
      → ((used : Options) → Drops query less used → Drops query asked used)
      → Loops fuel less less
      → Loops fuel less asked
  weaken fuel less asked back (r, runs, inr (x, used, e, q, w)) =
      (r, runs, inr (x, used, e, q, back used w))
  weaken fuel less asked back (r, runs, inl (used, found, e, q, w)) =
      (r, runs, inl (used, found, e, q, back used w))

  absent : {A : Type 0} (o : Option A) → is_some o ≡ true → weight o ≡ 1
  absent none h = cc
  absent (some a) h = refl

  pub query_loop-ends : (fuel : ℕ) (o : Options) → options_left o < fuel → Loops fuel o o
  unfolding query_loop
  query_loop-ends zero o h = absurd (omega arith)
  query_loop-ends (suc fuel) o h = elim (Answer-cases (query o)) [
    | inl (found, q) ↦ (ok (o, found), rw (query_loop, q) refl, inl (o, found, refl, q, no_more o))
    | inr (inr q) ↦ (
      err query_failed,
      rw (query_loop, q) refl,
      inr (query_failed, o, refl, by_exception q, no_more o),
    )
    | inr (inl (p, e, w, q)) ↦ elim (Bool-cases (p && is_some o.post_filter_n_results)) [
      | inl drop_post ↦
          let there = absent o.post_filter_n_results (ground arith) in
          let less : Options = record o { post_filter_n_results = none } in
          let (r, runs, ends) =
            weaken fuel less o (λ used d. drops_post p e w o used q drop_post d)
              (query_loop-ends fuel less (omega (arith, there))) in
          (r, rw (query_loop, q, drop_post) runs, ends)
      | inr keep_post ↦ elim (Bool-cases (e && is_some o.exact_filter_max_rows)) [
        | inl drop_exact ↦
            let there = absent o.exact_filter_max_rows (ground arith) in
            let less : Options = record o { exact_filter_max_rows = none } in
            let (r, runs, ends) =
              weaken fuel less o (λ used d. drops_exact p e w o used q keep_post drop_exact d)
                (query_loop-ends fuel less (omega (arith, there))) in
            (r, rw (query_loop, q, keep_post, drop_exact) runs, ends)
        | inr keep_exact ↦ elim (Bool-cases (w && is_some o.clauses)) [
          | inl drop_where ↦
              let there = absent o.clauses (ground arith) in
              let less : Options = record o { clauses = none } in
              let (r, runs, ends) =
                weaken fuel less o
                  (λ used d. drops_clauses p e w o used q keep_post keep_exact drop_where d)
                  (query_loop-ends fuel less (omega (arith, there))) in
              (r, rw (query_loop, q, keep_post, keep_exact, drop_where) runs, ends)
          | inr keep_where ↦ (
            err unsupported,
            rw (query_loop, q, keep_post, keep_exact, keep_where) refl,
            inr (
              unsupported,
              o,
              refl,
              by_options p e w q keep_post keep_exact keep_where,
              no_more o,
            ),
          )
        ]
      ]
    ]
  ]
