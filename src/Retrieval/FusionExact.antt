-- ===== src/Retrieval/FusionExact.antt =====
-- `merge_results` against the score of each id alone.
use querix_semantic_search.Prelude.{
  ◌≡◌, refl, sym, ap, ◌∙◌, Bool, false, ◌||◌, Option, List, [], ◌∷◌, map, if◌then◌else◌, arith, any,
  All, All-map, Text, codes, text_eq, text_eq_comm, text_eq_refl, Distinct,
}
use querix_semantic_search.Prelude.Sorting.{
  IsWeakOrder, IsSorted, All-sorted, any-sorted, Distinct-sorted, sorted-IsSorted,
}
use querix_semantic_search.Retrieval.Products.{Value, get}
use querix_semantic_search.Retrieval.Fusion.{
  Scores, Hit, vector, bm25, Fused, add_source, boost_by, boost, matches_category, scored_before,
  Weights, merge_results,
}
use querix_semantic_search.Retrieval.FusionScores.{
  hit_id, fused_id, rank_shares, score_of, add_source-score, add_source-any, add_source-Distinct,
}

module _ {ℓ κ} {A : Type ℓ} {B : Type κ} where
  any-map-same :
      (f : A → B) (p : B → Bool) (q : A → Bool) (xs : List A)
      → ((x : A) → p (f x) ≡ q x)
      → any p (map f xs) ≡ any q xs
  any-map-same f p q [] h = refl
  any-map-same f p q (x ∷ xs) h = let rest = any-map-same f p q xs h in rw (h x, rest) refl

  Distinct-map-same :
      (f : A → B) (key : B → Text) (key' : A → Text) (xs : List A)
      → ((x : A) → key (f x) ≡ key' x)
      → Distinct key' xs
      → Distinct key (map f xs)
  Distinct-map-same f key key' [] h d = tt
  Distinct-map-same f key key' (x ∷ xs) h d = (
    any-map-same f (λ y. text_eq (key y) (key (f x))) (λ y. text_eq (key' y) (key' x)) xs
          (λ y. ap (λ k. text_eq k (key (f x))) (h y) ∙ ap (λ k. text_eq (key' y) k) (h x))
        ∙ d.0,
    Distinct-map-same f key key' xs h d.1,
  )

  All-map-image {μ} :
      (f : A → B) (P : B → Type μ) (xs : List A) → All (λ x. P (f x)) xs → All P (map f xs)
  All-map-image f P [] h = tt
  All-map-image f P (x ∷ xs) h = (h.0, All-map-image f P xs h.1)

module _ (sc : Scores) where
  open sc use {Score, zero_score, plus, divide, below}

  -- The boosts of one entry, by its metadata.
  abbrev pub boosted : Score → Option Value → Option Value → List (Text × Value) → Score → Score
  boosted soft main_category subcategory metadata score =
      let once =
        if matches_category sc main_category (get (codes "main_category_name") metadata)
        then plus score soft
        else score in
      if matches_category sc subcategory (get (codes "subcategory_name") metadata)
      then plus once soft
      else once

  boost-id :
      (soft : Score) (main_category subcategory : Option Value) (f : Fused Score)
      → fused_id sc (boost sc soft main_category subcategory f) ≡ fused_id sc f
  unfolding boost boost_by
  boost-id soft main_category subcategory f = ground arith

  boost-metadata :
      (soft : Score) (main_category subcategory : Option Value) (f : Fused Score)
      → (boost sc soft main_category subcategory f).hit.metadata ≡ f.hit.metadata
  unfolding boost boost_by
  boost-metadata soft main_category subcategory f = ground arith

  boost-score :
      (soft : Score) (main_category subcategory : Option Value) (f : Fused Score)
      → (boost sc soft main_category subcategory f).fusion_score
        ≡ boosted soft main_category subcategory f.hit.metadata f.fusion_score
  unfolding boost boost_by
  boost-score soft main_category subcategory f = ground arith

  -- In a list of distinct ids the entry of an id is the one that has it.
  score_of-own :
      (fs : List (Fused Score))
      → Distinct (fused_id sc) fs
      → All (λ f. score_of sc (fused_id sc f) fs ≡ f.fusion_score) fs
  score_of-own [] d = tt
  score_of-own (f ∷ fs) d =
      (ground (arith, text_eq_refl f.hit.id), later fs d.0 (score_of-own fs d.1))
    where
      later :
          (gs : List (Fused Score))
          → any (λ g. text_eq (fused_id sc g) (fused_id sc f)) gs ≡ false
          → All (λ g. score_of sc (fused_id sc g) fs ≡ g.fusion_score) gs
          → All (λ g. score_of sc (fused_id sc g) (f ∷ fs) ≡ g.fusion_score) gs
      later [] new h = tt
      later (g ∷ gs) new h =
          (ground (arith, text_eq_comm f.hit.id g.hit.id, h.0), later gs (ground arith) h.1)

  scored-IsWeakOrder : IsWeakOrder below → IsWeakOrder (scored_before sc)
  scored-IsWeakOrder o = record {
    asymmetric = λ f g h. o.asymmetric g.fusion_score f.fusion_score h;
    negative = λ f g h k l. o.negative h.fusion_score g.fusion_score f.fusion_score l k;
  }

  module _ (w : Weights sc) (main_category subcategory : Option Value)
      (vectors bm25s : List Hit) where
    -- The fusion score of an id by its ranks in the two lists.
    abbrev pub rank_score : Text → Score
    rank_score k =
        rank_shares sc w.bm25_weight w.rrf_constant 1 bm25s k
          (rank_shares sc w.vector_weight w.rrf_constant 1 vectors k zero_score)

    from_vectors : List (Fused Score)
    from_vectors = add_source sc vector w.vector_weight w.rrf_constant 1 vectors []

    from_both : List (Fused Score)
    from_both = add_source sc bm25 w.bm25_weight w.rrf_constant 1 bm25s from_vectors

    from_both-Distinct : Distinct (fused_id sc) from_both
    unfolding from_both from_vectors
    from_both-Distinct =
        add_source-Distinct sc bm25 w.bm25_weight w.rrf_constant 1 bm25s from_vectors
          (add_source-Distinct sc vector w.vector_weight w.rrf_constant 1 vectors [] tt)

    from_both-score : (k : Text) → score_of sc k from_both ≡ rank_score k
    unfolding from_both from_vectors
    from_both-score k =
        add_source-score sc bm25 w.bm25_weight w.rrf_constant 1 bm25s from_vectors k
        ∙ ap (rank_shares sc w.bm25_weight w.rrf_constant 1 bm25s k)
            (add_source-score sc vector w.vector_weight w.rrf_constant 1 vectors [] k)

    -- The score that an entry of the answer should have.
    abbrev pub HasRankScore : Fused Score → Type 0
    HasRankScore f =
        f.fusion_score
        ≡ boosted w.soft_category_boost main_category subcategory f.hit.metadata
            (rank_score f.hit.id)

    -- The fusion of two result lists has one entry for each id of either list and for no other; it
    -- is sorted by falling score; and the score of an entry is what its ranks in the two lists
    -- give, weight by weight, and the boost of each inferred category that its metadata has. The
    -- comparison of scores is a strict weak order.
    pub merge_results_exact :
        IsWeakOrder below
        → (k : Text)
        → let out = merge_results sc w main_category subcategory vectors bm25s in
          IsSorted (scored_before sc) out
          × Distinct (fused_id sc) out
          × (any (λ f. text_eq (fused_id sc f) k) out
              ≡ (any (λ h. text_eq (hit_id h) k) vectors || any (λ h. text_eq (hit_id h) k) bm25s))
          × All HasRankScore out
    unfolding merge_results from_both from_vectors
    merge_results_exact order k =
        let b = boost sc w.soft_category_boost main_category subcategory in
        let same = boost-id w.soft_category_boost main_category subcategory in
        let exact = exact_scores in
        (
          sorted-IsSorted (scored_before sc) (scored-IsWeakOrder order) (map b from_both),
          Distinct-sorted (scored_before sc) (fused_id sc) (map b from_both)
              (Distinct-map-same b (fused_id sc) (fused_id sc) from_both same from_both-Distinct),
          any-sorted (scored_before sc) (λ f. text_eq (fused_id sc f) k) (map b from_both)
              ∙ any-map-same b (λ f. text_eq (fused_id sc f) k) (λ f. text_eq (fused_id sc f) k)
                  from_both (λ f. ap (λ i. text_eq i k) (same f))
              ∙ add_source-any sc bm25 w.bm25_weight w.rrf_constant 1 bm25s from_vectors k
              ∙ ap (λ t. t || any (λ h. text_eq (hit_id h) k) bm25s)
                  (add_source-any sc vector w.vector_weight w.rrf_constant 1 vectors [] k),
          All-sorted (scored_before sc) HasRankScore (map b from_both)
              (All-map-image b HasRankScore from_both exact),
        )
      where
        exact_scores :
            All
              (λ f. HasRankScore (boost sc w.soft_category_boost main_category subcategory f))
              from_both
        exact_scores =
            All-map
              (λ f own.
                boost-score w.soft_category_boost main_category subcategory f
                ∙ (let e : f.fusion_score ≡ rank_score f.hit.id =
                      sym own ∙ from_both-score f.hit.id in
                    rw
                      (
                        boost-id w.soft_category_boost main_category subcategory f,
                        boost-metadata w.soft_category_boost main_category subcategory f,
                        e,
                      )
                      refl))
              from_both (score_of-own from_both from_both-Distinct)
