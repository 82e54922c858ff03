-- ===== src/Reranker/Diversity.antt =====
-- The first results of `rerank` have different titles, and no candidate is lost.
use querix_semantic_search.Prelude.{
  ℕ, suc, ◌+◌, ◌-◌, ◌≤◌, ◌<◌, ◌≡◌, refl, inl, inr, Bool, true, false, ◌||◌, Option, none, some,
  List, [], ◌∷◌, arith, leb, ltb, Bool-cases, length, any, count, All, All-map, Text,
}
use querix_semantic_search.Retrieval.Fusion.{Hit}
use querix_semantic_search.Reranker.Ranking.{
  Texts, Relevance, normalized_title, is_seen, note, Placed, diversify,
}

is_seen-note :
    (t u : Option Text) (seen : List Text)
    → is_seen t (note u seen) ≡ (is_seen t (note u []) || is_seen t seen)
is_seen-note none u seen = refl
is_seen-note (some t) none seen = refl
is_seen-note (some t) (some u) seen = ground arith

module _ (tx : Texts) (rv : Relevance) (top : ℕ) where
  open rv use {Score}

  abbrev pub title_of : Placed tx rv → Option Text
  title_of p = normalized_title tx p.1.0

  -- Both have a title, and it is the same.
  abbrev pub same_title : Placed tx rv → Placed tx rv → Bool
  same_title a b = is_seen (title_of b) (note (title_of a) [])

  -- No two of the items share a title.
  abbrev pub DistinctTitles : List (Placed tx rv) → Type 0
  DistinctTitles [] = Unit
  DistinctTitles (x ∷ xs) = All (λ y. same_title x y ≡ false) xs × DistinctTitles xs

  -- Why an item is not among the first: one of them has its title, or they are complete.
  abbrev pub late_reason : ℕ → List Text → List (Placed tx rv) → Placed tx rv → Bool
  late_reason filled seen primary y =
      is_seen (title_of y) seen
      || (any (λ x. same_title x y) primary || leb top (filled + length primary))

  pub record Split (filled : ℕ) (seen : List Text) (items : List (Hit × Score))
      (primary deferred : List (Placed tx rv)) : Type 0 where
    pub counts :
        (p : Hit × Score → Bool)
        → count (λ (q : Placed tx rv). p q.1) primary + count (λ (q : Placed tx rv). p q.1) deferred
          ≡ count p items
    pub room : length primary ≤ top - filled
    pub fresh : All (λ y. is_seen (title_of y) seen ≡ false) primary
    pub distinct : DistinctTitles primary
    pub reasons : All (λ y. late_reason filled seen primary y ≡ true) deferred

  module _ (filled position : ℕ) (seen : List Text) (item : Hit × Score) (rest : List (Hit × Score))
      {primary deferred : List (Placed tx rv)} where
    repeats :
        is_seen (normalized_title tx item.0) seen ≡ true
        → Split filled seen rest primary deferred
        → Split filled seen (item ∷ rest) primary ((position, item) ∷ deferred)
    repeats dup s = record {
      counts = λ p. ground (arith, s.counts p);
      room = s.room;
      fresh = s.fresh;
      distinct = s.distinct;
      reasons = (ground (arith, dup), s.reasons);
    }

    comes_late :
        top ≤ filled
        → Split filled (note (normalized_title tx item.0) seen) rest primary deferred
        → Split filled seen (item ∷ rest) primary ((position, item) ∷ deferred)
    comes_late full s =
        let none_first : length primary ≡ 0 = omega (arith, s.room) in
        let complete : leb top (filled + length primary) ≡ true = ground (arith, none_first) in
        record {
          counts = λ p. ground (arith, s.counts p);
          room = s.room;
          fresh =
              All-map
                (λ y h. ground (arith, is_seen-note (title_of y) (normalized_title tx item.0) seen))
                primary s.fresh;
          distinct = s.distinct;
          reasons = (
            ground (arith, complete),
            All-map (λ y h. ground (arith, complete)) deferred s.reasons,
          );
        }

    is_taken :
        filled < top
        → is_seen (normalized_title tx item.0) seen ≡ false
        → Split (suc filled) (note (normalized_title tx item.0) seen) rest primary deferred
        → Split filled seen (item ∷ rest) ((position, item) ∷ primary) deferred
    is_taken space new s = record {
      counts = λ p. ground (arith, s.counts p);
      room = omega (arith, s.room);
      fresh = (
        new,
        All-map (λ y h. ground (arith, is_seen-note (title_of y) (normalized_title tx item.0) seen))
            primary s.fresh,
      );
      distinct = (
        All-map (λ y h. ground (arith, is_seen-note (title_of y) (normalized_title tx item.0) seen))
            primary s.fresh,
        s.distinct,
      );
      reasons =
          All-map
            (λ y h. ground (arith, h, is_seen-note (title_of y) (normalized_title tx item.0) seen))
            deferred s.reasons;
    }

  pub diversify-Split :
      (filled : ℕ) (seen : List Text) (position : ℕ) (items : List (Hit × Score))
      → Split filled seen items
          (diversify tx rv top filled seen position items).0
          (diversify tx rv top filled seen position items).1
  unfolding diversify
  diversify-Split filled seen position [] = record {
    counts = λ p. refl;
    room = omega arith;
    fresh = tt;
    distinct = tt;
    reasons = tt;
  }
  diversify-Split filled seen position (item ∷ rest) =
      let title = normalized_title tx item.0 in
      elim (Bool-cases (ltb filled top)) [
        | inr full ↦ rw full (
            comes_late filled position seen item rest (ground arith)
              (diversify-Split filled (note title seen) (suc position) rest))
        | inl space ↦ elim (Bool-cases (is_seen title seen)) [
          | inl dup ↦
              rw (space, dup)
                (repeats filled position seen item rest dup
                  (diversify-Split filled seen (suc position) rest))
          | inr new ↦
              rw (space, new)
                (is_taken filled position seen item rest (ground arith) new
                  (diversify-Split (suc filled) (note title seen) (suc position) rest))
        ]
      ]
