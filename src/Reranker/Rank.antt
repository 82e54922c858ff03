-- ===== src/Reranker/Rank.antt =====
-- `SearchRankingMixin.rank` and `_fusion_fallback_results` of src/search/ranking.py.
use querix_semantic_search.Prelude.{
  ℕ, suc, Bool, true, false, not, Option, none, some, List, [], ◌∷◌, ◌++◌, map, if◌then◌else◌, take,
  keep, Result, ok, err, Text, codes, text_eq,
}
use querix_semantic_search.Auth.Passwords.{casefold}
use querix_semantic_search.Retrieval.Fusion.{Hit}
use querix_semantic_search.Reranker.Ranking.{Texts, Relevance, prioritize_verified, rerank}

-- The parts of a query plan that the ranking reads, and the policy's context; an empty text counts
-- as none.
pub record RankPlan : Type 0 where
  pub keyword_query : Text
  pub main_category : Text
  pub subcategory : Text
  pub domain_context : Text

abbrev pub join : Text → List Text → Text
join sep [] = []
join sep (t ∷ []) = t
join sep (t ∷ u ∷ ts) = t ++ (sep ++ join sep (u ∷ ts))

abbrev pub if_any : Text → List Text
if_any [] = []
if_any (c ∷ s) = (c ∷ s) ∷ []

-- The categories that are given, each once.
unfoldable pub category_hints : RankPlan → List Text
category_hints plan =
    if_any plan.main_category
    ++ (if text_eq plan.subcategory plan.main_category then [] else if_any plan.subcategory)

unfoldable pub keyword_context : Texts → Text → Text → List Text
unfolding casefold
keyword_context tx query [] = []
keyword_context tx query (c ∷ s) =
    if text_eq (casefold tx.fold_char (c ∷ s)) (casefold tx.fold_char query)
    then []
    else (codes "Search concepts: " ++ (c ∷ s)) ∷ []

unfoldable pub category_context : List Text → List Text
category_context [] = []
category_context (h ∷ hints) =
    (codes "Possible catalog categories: " ++ join (codes ", ") (h ∷ hints)) ∷ []

-- `ranking_query`: the query, and below it the context that there is.
unfoldable pub ranking_query : Texts → Text → Option RankPlan → Text
unfolding category_hints keyword_context category_context
ranking_query tx query none = query
ranking_query tx query (some plan) =
    let context =
      keyword_context tx query plan.keyword_query
      ++ (category_context (category_hints plan) ++ if_any plan.domain_context) in
    elim context [
      | [] ↦ query
      | line ∷ lines ↦ query ++ ((10 ∷ []) ++ join (10 ∷ []) (line ∷ lines))
    ]

-- What the ranking does with scores: `1.0 / position`, a test against 0, and the product with
-- `reranker_relative_score_floor`, which is `none` if that is 0.
pub record Floors (S : Type 0) : Type 0 where
  pub reciprocal : ℕ → S
  pub is_positive : S → Bool
  pub relative_floor : Option (S → S)

module _ (tx : Texts) (rv : Relevance) (fl : Floors (Relevance.Score rv)) where
  open rv use {Score, below}

  -- The fusion's scores, or the reciprocal of the position where there is none.
  unfoldable pub fusion_scored : ℕ → List (Hit × Option Score) → List (Hit × Score)
  fusion_scored position [] = []
  fusion_scored position ((hit, some score) ∷ rest) =
      (hit, score) ∷ fusion_scored (suc position) rest
  fusion_scored position ((hit, none) ∷ rest) =
      (hit, fl.reciprocal position) ∷ fusion_scored (suc position) rest

  unfoldable pub fusion_fallback_results : List (Hit × Option Score) → ℕ → List (Hit × Score)
  unfolding fusion_scored prioritize_verified
  fusion_fallback_results candidates top_k =
      take top_k (prioritize_verified tx rv (fusion_scored 1 candidates))

  abbrev pub greater : Score → Score → Score
  greater a b = if below a b then b else a

  unfoldable pub relative_cutoff : Score → Option Score
  relative_cutoff top = elim fl.relative_floor [
    | none ↦ none
    | some scale ↦ if fl.is_positive top then some (scale top) else none
  ]

  -- `max(cutoffs)`, if there is one.
  unfoldable pub cutoff_of : Option Score → Option Score → Option Score
  cutoff_of none none = none
  cutoff_of none (some b) = some b
  cutoff_of (some a) none = some a
  cutoff_of (some a) (some b) = some (greater a b)

  abbrev pub reaches : Option Score → Hit × Score → Bool
  reaches none item = true
  reaches (some cutoff) item = not (below item.1 cutoff)

  -- The results that reach the cutoff of the provider and of the first result.
  unfoldable pub prune : Option Score → List (Hit × Score) → List (Hit × Score)
  unfolding relative_cutoff cutoff_of
  prune provider_floor [] = []
  prune provider_floor (first ∷ rest) =
      keep (reaches (cutoff_of provider_floor (relative_cutoff first.1))) (first ∷ rest)

  pub record Ranked (E : Type 0) : Type 0 where
    pub results : List (Hit × Score)
    pub degraded : Bool
    pub error : Option E

  -- `rank`, with the floor of the provider that answered; a failure of the reranker is caught.
  unfoldable pub rank :
      {E : Type 0}
      → (List (Text × Text) → Result E (List Score))
      → Option Score
      → Text
      → List (Hit × Option Score)
      → Option RankPlan
      → ℕ
      → Ranked E
  unfolding ranking_query fusion_fallback_results prune rerank
  rank compute_score provider_floor query candidates plan top_k =
      elim (rerank tx rv compute_score (ranking_query tx query plan) (map (λ c. c.0) candidates)
        top_k (some top_k)) [
          | err x ↦ record {
            results = fusion_fallback_results candidates top_k;
            degraded = true;
            error = some x;
          }
          | ok results ↦ record {
            results = prune provider_floor results;
            degraded = false;
            error = none;
          }
        ]
