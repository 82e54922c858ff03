-- ===== src/Reranker/Reranked.antt =====
-- What `rerank` returns.
use querix_semantic_search.Prelude.{
  ℕ, zero, suc, ◌≤◌, ◌≡◌, refl, ◌∙◌, Bool, true, Option, none, some, List, [], ◌∷◌, ◌++◌, map,
  arith, length, take, count, count-append, All, Result, ok, Text,
}
use querix_semantic_search.Prelude.Sorting.{sorted, count-sorted, All-sorted}
use querix_semantic_search.Retrieval.Fusion.{Hit}
use querix_semantic_search.Reranker.Ranking.{
  Texts, Relevance, zip, score_before, Placed, diversify, position_before, ranking, ordered, rerank,
}
use querix_semantic_search.Reranker.Bands.{prioritize_verified-count}
use querix_semantic_search.Reranker.Diversity.{DistinctTitles, late_reason, diversify-Split}

module _ (tx : Texts) (rv : Relevance) where
  open rv use {Score}

  -- An answer of `rerank` for scored items: the first items of a list that holds each of them once,
  -- `primary` before `deferred`.
  pub record IsReranked (items : List (Hit × Score)) (top_k diversity : ℕ)
      (out : List (Hit × Score)) : Type 0 where
    pub primary : List (Placed tx rv)
    pub deferred : List (Placed tx rv)
    pub first : out ≡ map (λ (q : Placed tx rv). q.1) (take top_k (primary ++ deferred))
    pub complete :
        (p : Hit × Score → Bool)
        → count (λ (q : Placed tx rv). p q.1) (primary ++ deferred) ≡ count p items
    pub room : length primary ≤ diversity
    pub distinct : DistinctTitles tx rv diversity primary
    pub reasons : All (λ y. late_reason tx rv diversity 0 [] primary y ≡ true) deferred

  ranking-count :
      (p : Hit × Score → Bool) (candidates : List Hit) (scores : List Score)
      → count p (ranking tx rv candidates scores) ≡ count p (zip tx rv candidates scores)
  unfolding ranking
  ranking-count p candidates scores =
      prioritize_verified-count tx rv p (sorted (score_before tx rv) (zip tx rv candidates scores))
      ∙ count-sorted (score_before tx rv) p (zip tx rv candidates scores)

  ordered-IsReranked :
      (candidates : List Hit) (scores : List Score) (top_k diversity : ℕ)
      → IsReranked (zip tx rv candidates scores) top_k diversity (
          map
            (λ (q : Placed tx rv). q.1)
            (take top_k (ordered tx rv diversity (ranking tx rv candidates scores))))
  unfolding ordered
  ordered-IsReranked candidates scores top_k diversity =
      let ranked = ranking tx rv candidates scores in
      let split = diversify tx rv diversity 0 [] 0 ranked in
      let s = diversify-Split tx rv diversity 0 [] 0 ranked in
      record {
        primary = split.0;
        deferred = sorted (position_before tx rv) split.1;
        first = refl;
        complete = λ p. omega (
          arith,
          count-append (λ (q : Placed tx rv). p q.1) split.0
              (sorted (position_before tx rv) split.1),
          count-sorted (position_before tx rv) (λ (q : Placed tx rv). p q.1) split.1,
          s.counts p,
          ranking-count p candidates scores,
        );
        room = omega (arith, s.room);
        distinct = s.distinct;
        reasons =
            All-sorted (position_before tx rv)
              (λ y. late_reason tx rv diversity 0 [] split.0 y ≡ true) split.1 s.reasons;
      }

  -- When the scores of a candidate list are computed, `rerank` returns the first `top_k` items of a
  -- list that holds every scored candidate as often as it was given. It starts with at most
  -- `diversity_top_k` items (`top_k` if that is not given) of which no two share a title, and an
  -- item comes after these only because one of them has its title, or because they are complete.
  pub rerank_diverse :
      {E : Type 0} (compute_score : List (Text × Text) → Result E (List Score)) (query : Text)
      (candidates : List Hit) (top_k : ℕ) (diversity_top_k : Option ℕ) (scores : List Score)
      → compute_score (map (λ (h : Hit). (query, h.text)) candidates) ≡ ok scores
      → (out : List (Hit × Score)) × (rerank tx rv compute_score query candidates top_k
            diversity_top_k
          ≡ ok out)
        × IsReranked
            (zip tx rv candidates scores)
            top_k
            (elim diversity_top_k [ none ↦ top_k | some k ↦ k ])
            out
  unfolding rerank
  rerank_diverse compute_score query [] top_k diversity_top_k scores e = (
    [],
    refl,
    record {
      primary = [];
      deferred = [];
      first = nothing_first top_k;
      complete = λ p. refl;
      room = omega arith;
      distinct = tt;
      reasons = tt;
    },
  )
    where
      nothing_first : (n : ℕ) → [] ≡ map (λ (q : Placed tx rv). q.1) (take n [])
      nothing_first zero = refl
      nothing_first (suc n) = refl
  rerank_diverse compute_score query (c ∷ candidates) top_k diversity_top_k scores e =
      (_, rw e refl, ordered-IsReranked (c ∷ candidates) scores top_k _)
