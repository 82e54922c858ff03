-- ===== src/Reranker/RankingTests.antt =====
-- Runs of the reranking, and its theorems at them.
use querix_semantic_search.Prelude.{
  ℕ, ◌-◌, ◌≡◌, refl, none, some, List, [], ◌∷◌, ltb, leb, ◌==◌, Result, ok, err, Text, codes,
  text_eq,
}
use querix_semantic_search.Retrieval.Products.{null, text, number}
use querix_semantic_search.Retrieval.Fusion.{Hit}
use querix_semantic_search.Reranker.Ranking.{
  Texts, Relevance, is_verified, zip, prioritize_verified, rerank,
}
use querix_semantic_search.Reranker.Bands.{Banded, prioritize_verified-Banded}
use querix_semantic_search.Reranker.Reranked.{IsReranked, rerank_diverse}
use querix_semantic_search.Reranker.Rank.{Floors, rank}

abbrev texts : Texts
texts = record {
  str = λ v. elim v [ null ↦ codes "None" | text t ↦ t | number n ↦ n ∷ [] ];
  is_space = λ c. c == 32;
  fold_char = λ c. c ∷ [];
}

-- Whole scores, close if they differ by at most 5.
abbrev whole : Relevance
whole = record { Score = ℕ; below = λ a b. ltb a b; close = λ a b. leb (a - b) 5 }

abbrev ad : Text → Text → Hit
ad title verified = record {
  id = title;
  text = title;
  metadata =
      (codes "title", text title) ∷ (codes "user_is_aadhaar_gst_verified", text verified) ∷ [];
}

abbrev drill : Hit
drill = ad (codes "a") (codes "0")

abbrev same_drill : Hit
same_drill = ad (codes "a ") (codes "0")

abbrev saw : Hit
saw = ad (codes "b") (codes "1")

abbrev scores : List (Text × Text) → Result Text (List ℕ)
scores pairs = ok (50 ∷ 30 ∷ 48 ∷ [])

reranks :
    rerank texts whole scores (codes "q") (drill ∷ same_drill ∷ saw ∷ []) 2 none
    ≡ ok ((saw, 48) ∷ (drill, 50) ∷ [])
unfolding rerank is_verified text_eq
reranks = refl

abbrev floors : Floors ℕ
floors = record { reciprocal = λ n. 100 - n; is_positive = λ s. ltb 0 s; relative_floor = none }

falls_back :
    (rank texts whole floors
      (λ pairs. err (codes "down"))
      none
      (codes "q")
      ((drill, some 9) ∷ (saw, none) ∷ [])
      none
      1).results
    ≡ (saw, 98) ∷ []
unfolding rank is_verified text_eq
falls_back = refl

prioritize_verified-Banded_example :
    Banded texts whole
      ((drill, 50) ∷ (saw, 48) ∷ (same_drill, 30) ∷ [])
      (prioritize_verified texts whole ((drill, 50) ∷ (saw, 48) ∷ (same_drill, 30) ∷ []))
prioritize_verified-Banded_example =
    prioritize_verified-Banded texts whole ((drill, 50) ∷ (saw, 48) ∷ (same_drill, 30) ∷ [])

rerank_diverse_example :
    (out : List (Hit × ℕ)) × (rerank texts whole scores
        (codes "q")
        (drill ∷ same_drill ∷ saw ∷ [])
        2
        none
      ≡ ok out)
    × IsReranked texts whole
        (zip texts whole (drill ∷ same_drill ∷ saw ∷ []) (50 ∷ 30 ∷ 48 ∷ []))
        2
        2
        out
rerank_diverse_example =
    rerank_diverse texts whole scores (codes "q") (drill ∷ same_drill ∷ saw ∷ []) 2 none
      (50 ∷ 30 ∷ 48 ∷ []) refl
