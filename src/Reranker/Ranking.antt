-- ===== src/Reranker/Ranking.antt =====
-- `prioritize_verified_within_relevance_bands` and `rerank` of src/search/reranker.py. What the
-- code does with floating-point scores is a parameter.
use querix_semantic_search.Prelude.{
  ℕ, zero, suc, Bool, true, false, not, ◌&&◌, Option, none, some, List, [], ◌∷◌, ◌++◌, map, ltb,
  if◌then◌else◌, take, any, Result, ok, ◌>>=◌, Text, codes, text_eq,
}
use querix_semantic_search.Prelude.Sorting.{sorted}
use querix_semantic_search.Auth.Passwords.{strip, casefold}
use querix_semantic_search.Analytics.Events.{squeeze}
use querix_semantic_search.Retrieval.Products.{Value, null, text, number, get}
use querix_semantic_search.Retrieval.Fusion.{Hit}

-- `str`, `str.isspace`, and `str.casefold` of one character.
pub record Texts : Type 0 where
  pub str : Value → Text
  pub is_space : ℕ → Bool
  pub fold_char : ℕ → Text

-- `below` compares two scores, and `close anchor s` is the test
-- `anchor - s <= abs(anchor) * relative_band`.
pub record Relevance : Type 1 where
  pub Score : Type 0
  pub below : Score → Score → Bool
  pub close : Score → Score → Bool

abbrev pub is_truthy : Value → Bool
is_truthy null = false
is_truthy (text []) = false
is_truthy (text (c ∷ s)) = true
is_truthy (number zero) = false
is_truthy (number (suc n)) = true

-- `str(metadata.get("user_is_aadhaar_gst_verified", "")).strip() == "1"`.
unfoldable pub is_verified : Texts → Hit → Bool
unfolding get strip
is_verified tx hit =
    text_eq (strip tx.is_space (tx.str (get (codes "user_is_aadhaar_gst_verified") hit.metadata)))
      (codes "1")

abbrev pub non_empty : Text → Option Text
non_empty [] = none
non_empty (c ∷ s) = some (c ∷ s)

-- `normalized_title`; an empty one counts as none.
unfoldable pub normalized_title : Texts → Hit → Option Text
unfolding get casefold squeeze
normalized_title tx hit =
    let content = get (codes "content_title") hit.metadata in
    let title = if is_truthy content then content else get (codes "title") hit.metadata in
    if is_truthy title
    then non_empty (squeeze tx.is_space false false (casefold tx.fold_char (tx.str title)))
    else none

abbrev pub is_seen : Option Text → List Text → Bool
is_seen none seen = false
is_seen (some title) seen = any (text_eq title) seen

abbrev pub note : Option Text → List Text → List Text
note none seen = seen
note (some title) seen = title ∷ seen

module _ (tx : Texts) (rv : Relevance) where
  open rv use {Score, below, close}

  -- `key=is_verified, reverse=True`.
  abbrev pub verified_before : Hit × Score → Hit × Score → Bool
  verified_before a b = is_verified tx a.0 && not (is_verified tx b.0)

  -- The bands from one on, with its anchor's score and the part of it that was read.
  unfoldable pub bands : Score → List (Hit × Score) → List (Hit × Score) → List (Hit × Score)
  unfolding sorted
  bands anchor band [] = sorted verified_before band
  bands anchor band (item ∷ rest) =
      let same = bands anchor (band ++ item ∷ []) rest in
      let next = sorted verified_before band ++ bands item.1 (item ∷ []) rest in
      if close anchor item.1 then same else next

  unfoldable pub prioritize_verified : List (Hit × Score) → List (Hit × Score)
  unfolding bands
  prioritize_verified [] = []
  prioritize_verified (item ∷ rest) = bands item.1 (item ∷ []) rest

  abbrev pub score_before : Hit × Score → Hit × Score → Bool
  score_before a b = below b.1 a.1

  abbrev pub zip {ℓ κ} : {A : Type ℓ} {B : Type κ} → List A → List B → List (A × B)
  zip [] bs = []
  zip (a ∷ as') [] = []
  zip (a ∷ as') (b ∷ bs) = (a, b) ∷ zip as' bs

  -- An item with its position in the ranking.
  abbrev pub Placed : Type 0
  Placed = ℕ × (Hit × Score)

  -- The diversity loop: `filled` is the length of `primary`; the result is what it and `deferred`
  -- get from here on.
  unfoldable pub diversify : ℕ → ℕ → List Text → ℕ → List (Hit × Score) → List Placed × List Placed
  unfolding normalized_title
  diversify top filled seen position [] = ([], [])
  diversify top filled seen position (item ∷ rest) =
      let title = normalized_title tx item.0 in
      let repeated = diversify top filled seen (suc position) rest in
      let taken = diversify top (suc filled) (note title seen) (suc position) rest in
      let late = diversify top filled (note title seen) (suc position) rest in
      if ltb filled top && is_seen title seen
      then (repeated.0, (position, item) ∷ repeated.1)
      else if ltb filled top
      then ((position, item) ∷ taken.0, taken.1)
      else (late.0, (position, item) ∷ late.1)

  abbrev pub position_before : Placed → Placed → Bool
  position_before a b = ltb a.0 b.0

  -- The ranking of scored candidates.
  unfoldable pub ranking : List Hit → List Score → List (Hit × Score)
  unfolding sorted prioritize_verified
  ranking candidates scores = prioritize_verified (sorted score_before (zip candidates scores))

  unfoldable pub ordered : ℕ → List (Hit × Score) → List Placed
  unfolding sorted diversify
  ordered diversity_top_k ranked =
      let split = diversify diversity_top_k 0 [] 0 ranked in
      split.0 ++ sorted position_before split.1

  -- `rerank`; `compute_score` gives the scores of the pairs, or raises.
  unfoldable pub rerank :
      {E : Type 0}
      → (List (Text × Text) → Result E (List Score))
      → Text
      → List Hit
      → ℕ
      → Option ℕ
      → Result E (List (Hit × Score))
  unfolding ranking ordered
  rerank compute_score query [] top_k diversity_top_k = ok []
  rerank compute_score query (c ∷ candidates) top_k diversity_top_k = do
    scores ← compute_score (map (λ (h : Hit). (query, h.text)) (c ∷ candidates))
    let diversity : ℕ = elim diversity_top_k [ none ↦ top_k | some k ↦ k ]
    ok (map (λ p. p.1) (take top_k (ordered diversity (ranking (c ∷ candidates) scores))))
