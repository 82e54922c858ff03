-- ===== src/Reranker/Bands.antt =====
-- Verified owners go first within a band of close scores, and nowhere else.
use mathlib.Core.Path.{subst}
use querix_semantic_search.Prelude.{
  ◌+◌, ◌≡◌, refl, sym, ap, ◌∙◌, inl, inr, Bool, true, false, not, ◌&&◌, List, [], ◌∷◌, ◌++◌, arith,
  Bool-cases, count, count-append, keep, keep-passes, All, All-append, append_assoc, append-nil,
}
use querix_semantic_search.Prelude.Sorting.{sorted, place, count-sorted}
use querix_semantic_search.Retrieval.Fusion.{Hit}
use querix_semantic_search.Reranker.Ranking.{
  Texts, Relevance, is_verified, verified_before, bands, prioritize_verified,
}

module _ {ℓ} {A : Type ℓ} (v : A → Bool) where
  abbrev before : A → A → Bool
  before a b = v a && not (v b)

  -- An element without the mark goes behind all with it.
  place-marked :
      (x : A) (vs ns : List A)
      → v x ≡ false
      → All (λ y. v y ≡ true) vs
      → All (λ y. v y ≡ false) ns
      → place before x (vs ++ ns) ≡ vs ++ x ∷ ns
  unfolding place
  place-marked x [] [] hx hv hn = refl
  place-marked x [] (n ∷ ns) hx hv hn = ground (arith, hn.0)
  place-marked x (y ∷ vs) ns hx hv hn = ground (arith, hv.0, place-marked x vs ns hx hv.1 hn)

  place-first : (x : A) (ys : List A) → v x ≡ true → place before x ys ≡ x ∷ ys
  unfolding place
  place-first x [] hx = refl
  place-first x (y ∷ ys) hx = elim (Bool-cases (v y)) [
    | inl marked ↦ ground (arith, marked)
    | inr unmarked ↦ ground (arith, unmarked)
  ]

  keep-not_passes : (xs : List A) → All (λ y. v y ≡ false) (keep (λ y. not (v y)) xs)
  keep-not_passes [] = tt
  keep-not_passes (x ∷ xs) = elim (Bool-cases (v x)) [
    | inl hit ↦ rw hit (keep-not_passes xs)
    | inr miss ↦ rw miss (miss, keep-not_passes xs)
  ]

  -- Sorting by a mark puts the marked elements first, each part in its order.
  pub sorted-marked : (xs : List A) → sorted before xs ≡ keep v xs ++ keep (λ y. not (v y)) xs
  unfolding sorted
  sorted-marked [] = refl
  sorted-marked (x ∷ xs) = elim (Bool-cases (v x)) [
    | inl hit ↦ rw hit (place-first x (sorted before xs) hit ∙ ap (◌∷◌ x) (sorted-marked xs))
    | inr miss ↦ rw miss (
        ap (place before x) (sorted-marked xs)
        ∙ place-marked x (keep v xs) (keep (λ y. not (v y)) xs) miss (keep-passes v xs)
            (keep-not_passes xs))
  ]

module _ (tx : Texts) (rv : Relevance) where
  open rv use {Score, close}

  abbrev pub marked : Hit × Score → Bool
  marked item = is_verified tx item.0

  -- What follows a band starts with an item that is not close to the anchor.
  abbrev pub Starts : Hit × Score → List (Hit × Score) → Type 0
  Starts anchor [] = Unit
  Starts anchor (item ∷ rest) = close anchor.1 item.1 ≡ false

  -- A ranking cut into bands, and what becomes of it: a band is an item, its anchor, with the
  -- items after it that are close to it; the next band starts with the first that is not.
  pub data Banded : List (Hit × Score) → List (Hit × Score) → Type 0 where
    no_band : Banded [] []
    band :
        (anchor : Hit × Score) (members rest out : List (Hit × Score))
        → All (λ (item : Hit × Score). close anchor.1 item.1 ≡ true) members
        → Starts anchor rest
        → Banded rest out
        → Banded ((anchor ∷ members) ++ rest) (
            (keep marked (anchor ∷ members) ++ keep (λ item. not (marked item)) (anchor ∷ members))
            ++ out)

  bands-Banded :
      (anchor : Hit × Score) (members rest : List (Hit × Score))
      → All (λ (item : Hit × Score). close anchor.1 item.1 ≡ true) members
      → Banded ((anchor ∷ members) ++ rest) (bands tx rv anchor.1 (anchor ∷ members) rest)
  unfolding bands
  bands-Banded anchor members [] h =
      let order = sorted-marked marked (anchor ∷ members) in
      subst (Banded ((anchor ∷ members) ++ [])) (append-nil _ ∙ sym order)
        (band anchor members [] [] h tt no_band)
  bands-Banded anchor members (item ∷ rest) h = elim (Bool-cases (close anchor.1 item.1)) [
    | inl near ↦
        let longer = bands-Banded anchor (members ++ item ∷ []) rest (
          All-append (λ (x : Hit × Score). close anchor.1 x.1 ≡ true) members (item ∷ []) h
            (near, tt)) in
        let cut : (anchor ∷ (members ++ item ∷ [])) ++ rest ≡ (anchor ∷ members) ++ item ∷ rest =
          append_assoc (anchor ∷ members) (item ∷ []) rest in
        rw near (
          subst (λ l. Banded l (bands tx rv anchor.1 ((anchor ∷ members) ++ item ∷ []) rest)) cut
            longer)
    | inr far ↦
        let order = sorted-marked marked (anchor ∷ members) in
        let rest_banded = bands-Banded item [] rest tt in
        rw far (
          subst
            (λ l.
              Banded ((anchor ∷ members) ++ item ∷ rest) (l ++ bands tx rv item.1 (item ∷ []) rest))
            (sym order)
            (band anchor members (item ∷ rest) (bands tx rv item.1 (item ∷ []) rest) h far
              rest_banded))
  ]

  -- Prioritising cuts the ranking into bands, and puts the verified of each band first.
  pub prioritize_verified-Banded :
      (ranked : List (Hit × Score)) → Banded ranked (prioritize_verified tx rv ranked)
  unfolding prioritize_verified
  prioritize_verified-Banded [] = no_band
  prioritize_verified-Banded (item ∷ rest) = bands-Banded item [] rest tt

  bands-count :
      (p : Hit × Score → Bool) (anchor : Score) (members rest : List (Hit × Score))
      → count p (bands tx rv anchor members rest) ≡ count p members + count p rest
  unfolding bands
  bands-count p anchor members [] = omega (arith, count-sorted (verified_before tx rv) p members)
  bands-count p anchor members (item ∷ rest) = elim (Bool-cases (close anchor item.1)) [
    | inl near ↦ rw near (
        ground (
          arith,
          bands-count p anchor (members ++ item ∷ []) rest,
          count-append p members (item ∷ []),
        ))
    | inr far ↦ rw far (
        ground (
          arith,
          count-append p (sorted (verified_before tx rv) members)
              (bands tx rv item.1 (item ∷ []) rest),
          count-sorted (verified_before tx rv) p members,
          bands-count p item.1 (item ∷ []) rest,
        ))
  ]

  -- It neither loses nor doubles an item.
  pub prioritize_verified-count :
      (p : Hit × Score → Bool) (ranked : List (Hit × Score))
      → count p (prioritize_verified tx rv ranked) ≡ count p ranked
  unfolding prioritize_verified
  prioritize_verified-count p [] = refl
  prioritize_verified-count p (item ∷ rest) = ground (arith, bands-count p item.1 (item ∷ []) rest)
