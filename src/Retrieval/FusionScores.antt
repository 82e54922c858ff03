-- ===== src/Retrieval/FusionScores.antt =====
-- The fusion gives every id one entry, with the shares of its ranks, and sorts the entries.
use querix_semantic_search.Prelude.{
  ℕ, suc, ◌+◌, ◌≡◌, refl, ap, ◌∙◌, inl, inr, ◌||◌, none, some, List, [], ◌∷◌, if◌then◌else◌, arith,
  Bool-cases, any, find, Text, text_eq, text_eq_iff, text_eq_comm, Distinct,
}
use querix_semantic_search.Retrieval.Fusion.{Scores, Hit, Source, Fused, add_item, add_source}

abbrev pub hit_id : Hit → Text
hit_id h = h.id

module _ (sc : Scores) where
  open sc use {Score, zero_score, plus, divide, below}

  abbrev pub fused_id : Fused Score → Text
  fused_id f = f.hit.id

  -- The score of one id alone: `start` and the shares of the ranks where it stands in the list.
  unfoldable pub rank_shares : Score → ℕ → ℕ → List Hit → Text → Score → Score
  rank_shares weight constant rank [] k start = start
  rank_shares weight constant rank (hit ∷ hits) k start =
      rank_shares weight constant (suc rank) hits k
        (if text_eq hit.id k then plus start (divide weight (constant + rank)) else start)

  -- The entry of an id, or the score it would start from.
  abbrev pub score_of : Text → List (Fused Score) → Score
  score_of k fs = elim (find (λ f. text_eq (fused_id f) k) fs) [
    | none ↦ zero_score
    | some f ↦ f.fusion_score
  ]

  add_item-score :
      (source : Source) (share : Score) (hit : Hit) (fs : List (Fused Score)) (k : Text)
      → score_of k (add_item sc source share hit fs)
        ≡ (if text_eq hit.id k then plus (score_of k fs) share else score_of k fs)
  unfolding add_item
  add_item-score source share hit [] k = ground arith
  add_item-score source share hit (f ∷ fs) k = ground (
    arith,
    text_eq_iff f.hit.id hit.id,
    text_eq_iff f.hit.id k,
    text_eq_iff hit.id k,
    add_item-score source share hit fs k,
  )

  pub add_source-score :
      (source : Source) (weight : Score) (constant rank : ℕ) (hits : List Hit)
      (fs : List (Fused Score)) (k : Text)
      → score_of k (add_source sc source weight constant rank hits fs)
        ≡ rank_shares weight constant rank hits k (score_of k fs)
  unfolding add_source rank_shares
  add_source-score source weight constant rank [] fs k = refl
  add_source-score source weight constant rank (hit ∷ hits) fs k =
      add_source-score source weight constant (suc rank) hits
        (add_item sc source (divide weight (constant + rank)) hit fs) k
      ∙ ap (rank_shares weight constant (suc rank) hits k)
          (add_item-score source (divide weight (constant + rank)) hit fs k)

  -- An id has an entry if it had one or is added.
  add_item-any :
      (source : Source) (share : Score) (hit : Hit) (fs : List (Fused Score)) (k : Text)
      → any (λ f. text_eq (fused_id f) k) (add_item sc source share hit fs)
        ≡ (text_eq hit.id k || any (λ f. text_eq (fused_id f) k) fs)
  unfolding add_item
  add_item-any source share hit [] k = ground arith
  add_item-any source share hit (f ∷ fs) k =
      ground (arith, text_eq_iff f.hit.id hit.id, add_item-any source share hit fs k)

  pub add_source-any :
      (source : Source) (weight : Score) (constant rank : ℕ) (hits : List Hit)
      (fs : List (Fused Score)) (k : Text)
      → any (λ f. text_eq (fused_id f) k) (add_source sc source weight constant rank hits fs)
        ≡ (any (λ f. text_eq (fused_id f) k) fs || any (λ h. text_eq (hit_id h) k) hits)
  unfolding add_source
  add_source-any source weight constant rank [] fs k = ground arith
  add_source-any source weight constant rank (hit ∷ hits) fs k =
      add_source-any source weight constant (suc rank) hits _ k
      ∙ ground (arith, add_item-any source (divide weight (constant + rank)) hit fs k)

  add_item-Distinct :
      (source : Source) (share : Score) (hit : Hit) (fs : List (Fused Score))
      → Distinct fused_id fs
      → Distinct fused_id (add_item sc source share hit fs)
  unfolding add_item
  add_item-Distinct source share hit [] h = (refl, tt)
  add_item-Distinct source share hit (f ∷ fs) h = elim (Bool-cases (text_eq f.hit.id hit.id)) [
    | inl same ↦ rw same h
    | inr other ↦ rw other (
      ground (arith, add_item-any source share hit fs f.hit.id, text_eq_comm hit.id f.hit.id, h.0),
      add_item-Distinct source share hit fs h.1,
    )
  ]

  pub add_source-Distinct :
      (source : Source) (weight : Score) (constant rank : ℕ) (hits : List Hit)
      (fs : List (Fused Score))
      → Distinct fused_id fs
      → Distinct fused_id (add_source sc source weight constant rank hits fs)
  unfolding add_source
  add_source-Distinct source weight constant rank [] fs h = h
  add_source-Distinct source weight constant rank (hit ∷ hits) fs h =
      add_source-Distinct source weight constant (suc rank) hits _
        (add_item-Distinct source (divide weight (constant + rank)) hit fs h)
