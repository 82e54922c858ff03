-- ===== src/Prelude/Kept.antt =====
-- What `keep` keeps.
use Prim.Native.Nat.{ℕ, zero, suc}
use mathlib.Core.Path.{◌≡◌, refl, ap}
use mathlib.Core.Logic.{inl, inr}
use mathlib.Core.Bool.{Bool, true, false, not}
use mathlib.Core.List.{List, [], ◌∷◌, ◌++◌}
use native.Mathlib.Omega.{arith}
use querix_semantic_search.Prelude.Tests.{Bool-cases}
use querix_semantic_search.Prelude.Lists.{keep, count, length, take, All}

module _ {ℓ} {A : Type ℓ} where
  pub keep-append : (p : A → Bool) (xs ys : List A) → keep p (xs ++ ys) ≡ keep p xs ++ keep p ys
  keep-append p [] ys = refl
  keep-append p (x ∷ xs) ys = ground (arith, keep-append p xs ys)

  pub keep-keep_comm : (p q : A → Bool) (xs : List A) → keep p (keep q xs) ≡ keep q (keep p xs)
  keep-keep_comm p q [] = refl
  keep-keep_comm p q (x ∷ xs) = ground (arith, keep-keep_comm p q xs)

  pub keep_whole : (p : A → Bool) (xs : List A) → All (λ x. p x ≡ true) xs → keep p xs ≡ xs
  keep_whole p [] h = refl
  keep_whole p (x ∷ xs) h = rw h.0 (ap (◌∷◌ x) (keep_whole p xs h.1))

  pub keep-none : (p : A → Bool) (xs : List A) → All (λ x. p x ≡ false) xs → keep p xs ≡ []
  keep-none p [] h = refl
  keep-none p (x ∷ xs) h = rw h.0 (keep-none p xs h.1)

  pub keep-same_on :
      (p q : A → Bool) (xs : List A) → All (λ x. p x ≡ q x) xs → keep p xs ≡ keep q xs
  keep-same_on p q [] h = refl
  keep-same_on p q (x ∷ xs) h = let rest = keep-same_on p q xs h.1 in rw (h.0, rest) refl

  pub count-eq-length : (p : A → Bool) (xs : List A) → count p xs ≡ length (keep p xs)
  count-eq-length p [] = refl
  count-eq-length p (x ∷ xs) = ground (arith, count-eq-length p xs)

  -- What no element passes, all fail.
  pub keep-not : (p : A → Bool) (xs : List A) → keep p xs ≡ [] → keep (λ x. not (p x)) xs ≡ xs
  keep-not p [] h = refl
  keep-not p (x ∷ xs) h = elim (Bool-cases (p x)) [
    | inl hit ↦ absurd (ground arith)
    | inr miss ↦ rw miss (ap (◌∷◌ x) (keep-not p xs (rw miss at h)))
  ]

  pub All-take {κ} : (P : A → Type κ) (n : ℕ) (xs : List A) → All P xs → All P (take n xs)
  All-take P zero xs h = tt
  All-take P (suc n) [] h = tt
  All-take P (suc n) (x ∷ xs) h = (h.0, All-take P n xs h.1)

  pub keep-passes : (p : A → Bool) (xs : List A) → All (λ x. p x ≡ true) (keep p xs)
  keep-passes p [] = tt
  keep-passes p (x ∷ xs) = elim (Bool-cases (p x)) [
    | inl hit ↦ rw hit (hit, keep-passes p xs)
    | inr miss ↦ rw miss (keep-passes p xs)
  ]
