-- ===== src/Retrieval/Fusion.antt =====
-- `merge_results` of src/search/retrieval.py: the reciprocal rank fusion of the two result lists.
-- The scores and their arithmetic are a parameter: the code's are floating-point numbers.
use Prim.Native.Nat.{compare, Ordering}
use querix_semantic_search.Prelude.{
  ℕ, suc, ◌+◌, Bool, true, false, Option, none, some, List, [], ◌∷◌, ◌++◌, map, if◌then◌else◌, any,
  Text, codes, text_eq,
}
use querix_semantic_search.Prelude.Sorting.{sorted}
use querix_semantic_search.Retrieval.Products.{Value, null, text, number, get, is_text}

-- `below` compares two scores.
pub record Scores : Type 1 where
  pub Score : Type 0
  pub zero_score : Score
  pub plus : Score → Score → Score
  pub divide : Score → ℕ → Score
  pub below : Score → Score → Bool

-- An item of a result list.
pub record Hit : Type 0 where
  pub id : Text
  pub text : Text
  pub metadata : List (Text × Value)

pub data Source : Type 0 where
  vector : Source
  bm25 : Source

abbrev pub same_source : Source → Source → Bool
same_source vector vector = true
same_source bm25 bm25 = true
same_source _ _ = false

-- An entry of `merged`; its `sources` are the parts of its "source" text between the "+".
pub record Fused (S : Type 0) : Type 0 where
  pub hit : Hit
  pub sources : List Source
  pub fusion_score : S

module _ (sc : Scores) where
  open sc use {Score, zero_score, plus, divide, below}

  -- An item met again: its source is noted once, and its share added.
  unfoldable pub meet_again : Source → Score → Fused Score → Fused Score
  meet_again source share f = record f {
    sources = if any (same_source source) f.sources then f.sources else f.sources ++ source ∷ [];
    fusion_score = plus f.fusion_score share;
  }

  -- `merged[item["id"]]` for one item; a new id goes to the end of the dict.
  unfoldable pub add_item : Source → Score → Hit → List (Fused Score) → List (Fused Score)
  unfolding meet_again
  add_item source share hit [] =
      (record { hit = hit; sources = source ∷ []; fusion_score = plus zero_score share }) ∷ []
  add_item source share hit (f ∷ fs) =
      if text_eq f.hit.id hit.id
      then meet_again source share f ∷ fs
      else f ∷ add_item source share hit fs

  -- The loop over one source, from a rank on.
  unfoldable pub add_source :
      Source → Score → ℕ → ℕ → List Hit → List (Fused Score) → List (Fused Score)
  unfolding add_item
  add_source source weight rrf_constant rank [] merged = merged
  add_source source weight rrf_constant rank (hit ∷ hits) merged =
      add_source source weight rrf_constant (suc rank) hits
        (add_item source (divide weight (rrf_constant + rank)) hit merged)

  -- `expected is not None and metadata.get(metadata_key) == expected`.
  abbrev pub matches_category : Option Value → Value → Bool
  matches_category none actual = false
  matches_category (some null) actual = false
  matches_category (some (text t)) actual = is_text t actual
  matches_category (some (number n)) (number m) = elim (compare n m) [
    | Ordering.eq ↦ true
    | _ ↦ false
  ]
  matches_category (some (number n)) actual = false

  unfoldable pub boost_by : Score → Text → Option Value → Fused Score → Fused Score
  unfolding get
  boost_by soft_category_boost metadata_key expected f =
      if matches_category expected (get metadata_key f.hit.metadata)
      then (record f { fusion_score = plus f.fusion_score soft_category_boost })
      else f

  -- The inferred categories, of which each that fits gives the boost.
  unfoldable pub boost : Score → Option Value → Option Value → Fused Score → Fused Score
  unfolding boost_by
  boost soft_category_boost main_category subcategory f =
      boost_by soft_category_boost (codes "subcategory_name") subcategory
        (boost_by soft_category_boost (codes "main_category_name") main_category f)

  -- `key=fusion_score, reverse=True`: the greater score goes first.
  abbrev pub scored_before : Fused Score → Fused Score → Bool
  scored_before f g = below g.fusion_score f.fusion_score

  pub record Weights : Type 0 where
    pub rrf_constant : ℕ
    pub vector_weight : Score
    pub bm25_weight : Score
    pub soft_category_boost : Score

  unfoldable pub merge_results :
      Weights → Option Value → Option Value → List Hit → List Hit → List (Fused Score)
  unfolding add_source boost sorted
  merge_results w main_category subcategory vector_results bm25_results = sorted scored_before (
      map (boost w.soft_category_boost main_category subcategory) (
        add_source bm25 w.bm25_weight w.rrf_constant 1 bm25_results
          (add_source vector w.vector_weight w.rrf_constant 1 vector_results [])))
