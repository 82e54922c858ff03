-- ===== src/Prelude/Sorting.antt =====
-- Python's `sorted`: a stable sort, by a test of which of two elements goes first.
use mathlib.Core.Path.{◌≡◌, refl, ◌∙◌}
use mathlib.Core.Logic.{inl, inr}
use mathlib.Core.Bool.{Bool, true, false, ◌||◌}
use mathlib.Core.List.{List, [], ◌∷◌}
use native.Mathlib.Omega.{arith}
use querix_semantic_search.Prelude.Tests.{if◌then◌else◌, Bool-cases}
use querix_semantic_search.Prelude.Lists.{keep, count, any, All, All-map}
use querix_semantic_search.Prelude.Texts.{Text, text_eq, text_eq_comm, Distinct}

-- A strict weak order: what a comparison of keys is.
pub record IsWeakOrder {ℓ} {A : Type ℓ} (before : A → A → Bool) : Type ℓ where
  pub asymmetric : (x y : A) → before x y ≡ true → before y x ≡ false
  pub negative : (x y z : A) → before x y ≡ false → before y z ≡ false → before x z ≡ false

module _ {ℓ} {A : Type ℓ} (before : A → A → Bool) where
  unfoldable pub place : A → List A → List A
  place x [] = x ∷ []
  place x (y ∷ ys) = let later = place x ys in if before y x then y ∷ later else x ∷ y ∷ ys

  unfoldable pub sorted : List A → List A
  unfolding place
  sorted [] = []
  sorted (x ∷ xs) = place x (sorted xs)

  -- No element goes before an earlier one.
  abbrev pub IsSorted : List A → Type 0
  IsSorted [] = Unit
  IsSorted (x ∷ xs) = All (λ y. before y x ≡ false) xs × IsSorted xs

  count-place : (p : A → Bool) (x : A) (ys : List A) → count p (place x ys) ≡ count p (x ∷ ys)
  unfolding place
  count-place p x [] = refl
  count-place p x (y ∷ ys) = ground (arith, count-place p x ys)

  -- Sorting keeps how many elements pass any test.
  pub count-sorted : (p : A → Bool) (xs : List A) → count p (sorted xs) ≡ count p xs
  unfolding sorted
  count-sorted p [] = refl
  count-sorted p (x ∷ xs) = ground (arith, count-place p x (sorted xs), count-sorted p xs)

  All-place {κ} : (P : A → Type κ) (x : A) (ys : List A) → P x → All P ys → All P (place x ys)
  unfolding place
  All-place P x [] h k = (h, tt)
  All-place P x (y ∷ ys) h k = elim (Bool-cases (before y x)) [
    | inl goes ↦ rw goes (k.0, All-place P x ys h k.1)
    | inr stays ↦ rw stays (h, k)
  ]

  -- What holds of all elements still does.
  pub All-sorted {κ} : (P : A → Type κ) (xs : List A) → All P xs → All P (sorted xs)
  unfolding sorted
  All-sorted P [] h = tt
  All-sorted P (x ∷ xs) h = All-place P x (sorted xs) h.0 (All-sorted P xs h.1)

  module _ (order : IsWeakOrder before) where
    place-IsSorted : (x : A) (ys : List A) → IsSorted ys → IsSorted (place x ys)
    unfolding place
    place-IsSorted x [] h = (tt, tt)
    place-IsSorted x (y ∷ ys) h = elim (Bool-cases (before y x)) [
      | inl goes ↦ rw goes (
        All-place (λ z. before z y ≡ false) x ys (order.asymmetric y x goes) h.0,
        place-IsSorted x ys h.1,
      )
      | inr stays ↦
          rw stays ((stays, All-map (λ z later. order.negative z y x later stays) ys h.0), h)
    ]

    pub sorted-IsSorted : (xs : List A) → IsSorted (sorted xs)
    unfolding sorted
    sorted-IsSorted [] = tt
    sorted-IsSorted (x ∷ xs) = place-IsSorted x (sorted xs) (sorted-IsSorted xs)

  -- Elements that do not go before each other keep their order.
  module _ (p : A → Bool) (ties : (x y : A) → p x ≡ true → p y ≡ true → before y x ≡ false) where
    keep-place : (x : A) (ys : List A) → keep p (place x ys) ≡ keep p (x ∷ ys)
    unfolding place
    keep-place x [] = refl
    keep-place x (y ∷ ys) = elim (Bool-cases (before y x)) [
      | inr stays ↦ rw stays refl
      | inl goes ↦ elim (Bool-cases (p x)) [
        | inr outside ↦ rw goes (ground (arith, keep-place x ys))
        | inl inside ↦ elim (Bool-cases (p y)) [
          | inl both ↦ absurd (ground (arith, ties x y))
          | inr one ↦ rw goes (ground (arith, keep-place x ys))
        ]
      ]
    ]

    pub sorted_stable : (xs : List A) → keep p (sorted xs) ≡ keep p xs
    unfolding sorted
    sorted_stable [] = refl
    sorted_stable (x ∷ xs) = ground (arith, keep-place x (sorted xs), sorted_stable xs)

  any-place : (p : A → Bool) (x : A) (ys : List A) → any p (place x ys) ≡ (p x || any p ys)
  unfolding place
  any-place p x [] = refl
  any-place p x (y ∷ ys) = ground (arith, any-place p x ys)

  pub any-sorted : (p : A → Bool) (xs : List A) → any p (sorted xs) ≡ any p xs
  unfolding sorted
  any-sorted p [] = refl
  any-sorted p (x ∷ xs) = ground (arith, any-place p x (sorted xs), any-sorted p xs)

  module _ (key : A → Text) where
    Distinct-place :
        (x : A) (ys : List A)
        → any (λ y. text_eq (key y) (key x)) ys ≡ false
        → Distinct key ys
        → Distinct key (place x ys)
    unfolding place
    Distinct-place x [] new d = (refl, tt)
    Distinct-place x (y ∷ ys) new d = elim (Bool-cases (before y x)) [
      | inr stays ↦ rw stays (new, d)
      | inl goes ↦ rw goes (
        ground (
          arith,
          any-place (λ z. text_eq (key z) (key y)) x ys,
          text_eq_comm (key x) (key y),
          d.0,
        ),
        Distinct-place x ys (ground arith) d.1,
      )
    ]

    pub Distinct-sorted : (xs : List A) → Distinct key xs → Distinct key (sorted xs)
    unfolding sorted
    Distinct-sorted [] d = tt
    Distinct-sorted (x ∷ xs) d =
        Distinct-place x (sorted xs) (any-sorted (λ y. text_eq (key y) (key x)) xs ∙ d.0)
          (Distinct-sorted xs d.1)
