-- ===== src/Prelude/Texts.antt =====
-- Texts as lists of code points, their comparison, and a `dict` keyed by text.
use Prim.Native.Nat.{ℕ}
use Prim.Native.Char.{code}
use Prim.Native.String.{String}
use mathlib.Core.Path.{◌≡◌, refl, ap}
use mathlib.Core.Logic.{◌↔◌}
use mathlib.Core.Bool.{Bool, true, false, ◌&&◌}
use mathlib.Core.List.{List, [], ◌∷◌, ◌++◌}
use mathlib.Core.Option.{Option, none, some}
use native.Mathlib.Omega.{arith}
use mathlib.Core.Logic.{inl, inr}
use querix_semantic_search.Prelude.Tests.{◌==◌, if◌then◌else◌, Bool-cases}
use querix_semantic_search.Prelude.Lists.{
  find, All, All-map, All-of_not-any, any, keep, update_where, any-update_where, any-keep,
  any-append,
}

abbrev pub Text : Type 0
Text = List ℕ

-- The code points of a literal.
abbrev pub codes : String → Text
codes String.[] = []
codes (String.◌∷◌ c s) = code c ∷ codes s

unfoldable pub text_eq : Text → Text → Bool
text_eq [] [] = true
text_eq (a ∷ s) (b ∷ t) = (a == b) && text_eq s t
text_eq _ _ = false

pub text_eq_iff : (s t : Text) → (text_eq s t ≡ true) ↔ (s ≡ t)
unfolding text_eq
text_eq_iff [] [] = (λ _. refl, λ _. refl)
text_eq_iff [] (b ∷ t) = (λ h. cc, λ h. cc)
text_eq_iff (a ∷ s) [] = (λ h. cc, λ h. cc)
text_eq_iff (a ∷ s) (b ∷ t) =
    (λ h. ground (arith, (text_eq_iff s t).0), λ h. ground (arith, (text_eq_iff s t).1))

pub text_eq_refl : (s : Text) → text_eq s s ≡ true
text_eq_refl s = (text_eq_iff s s).1 refl

pub text_eq_comm : (s t : Text) → text_eq s t ≡ text_eq t s
unfolding text_eq
text_eq_comm [] [] = refl
text_eq_comm [] (b ∷ t) = refl
text_eq_comm (a ∷ s) [] = refl
text_eq_comm (a ∷ s) (b ∷ t) = ground (arith, text_eq_comm s t)

-- No two elements have the same key.
abbrev pub Distinct {ℓ} : {A : Type ℓ} → (A → Text) → List A → Type 0
Distinct key [] = Unit
Distinct key (x ∷ xs) = (any (λ y. text_eq (key y) (key x)) xs ≡ false) × Distinct key xs

module _ {ℓ} {A : Type ℓ} (key : A → Text) where
  pub Distinct-update_where :
      (q : A → Bool) (f : A → A) (xs : List A)
      → ((x : A) → key (f x) ≡ key x)
      → Distinct key xs
      → Distinct key (update_where q f xs)
  Distinct-update_where q f [] same d = tt
  Distinct-update_where q f (x ∷ xs) same d = (
    rw (hit, any-update_where _ q f xs (λ y. ap (λ k. text_eq k (key x)) (same y))) d.0,
    Distinct-update_where q f xs same d.1,
  )
    where
      hit : key (if q x then f x else x) ≡ key x
      hit = ground (arith, same x)

  pub Distinct-keep : (q : A → Bool) (xs : List A) → Distinct key xs → Distinct key (keep q xs)
  Distinct-keep q [] d = tt
  Distinct-keep q (x ∷ xs) d = elim (Bool-cases (q x)) [
    | inl hit ↦ rw hit (any-keep _ q xs d.0, Distinct-keep q xs d.1)
    | inr miss ↦ rw miss (Distinct-keep q xs d.1)
  ]

  pub Distinct-append :
      (xs : List A) (y : A)
      → Distinct key xs
      → any (λ x. text_eq (key x) (key y)) xs ≡ false
      → Distinct key (xs ++ y ∷ [])
  Distinct-append [] y d new = (refl, tt)
  Distinct-append (x ∷ xs) y d new = (
    ground
        (arith, any-append (λ z. text_eq (key z) (key x)) xs y, text_eq_comm (key x) (key y), d.0),
    Distinct-append xs y d.1 (ground arith),
  )

module _ {ℓ} {A : Type ℓ} (key : A → Text) where
  -- Under distinct keys a lookup finds the only element with the key.
  pub find_unique :
      (k : Text) (xs : List A) {x : A}
      → Distinct key xs
      → find (λ y. text_eq (key y) k) xs ≡ some x
      → All (λ y. text_eq (key y) k ≡ true → y ≡ x) xs
  find_unique k [] d e = tt
  find_unique k (y ∷ ys) {x} d e = elim (Bool-cases (text_eq (key y) k)) [
    | inl hit ↦
        let here : y ≡ x = (ground arith) in
        let none_left = All-of_not-any _ ys (rw ((text_eq_iff (key y) k).0 hit) at d.0) in
        (λ _. here, All-map (λ z miss hit'. absurd (cc)) ys none_left)
    | inr miss ↦ (λ hit. absurd (cc), find_unique k ys d.1 (rw miss at e))
  ]

module _ {ℓ} {V : Type ℓ} where
  unfoldable pub lookup : Text → List (Text × V) → Option V
  lookup k [] = none
  lookup k ((j, v) ∷ m) = if text_eq j k then some v else lookup k m

  -- `d[k] = v`: an old key keeps its place, a new one goes last.
  unfoldable pub insert : Text → V → List (Text × V) → List (Text × V)
  insert k v [] = (k, v) ∷ []
  insert k v ((j, w) ∷ m) = if text_eq j k then (j, v) ∷ m else (j, w) ∷ insert k v m

  pub lookup-insert :
      (k j : Text) (v : V) (m : List (Text × V))
      → lookup j (insert k v m) ≡ (if text_eq k j then some v else lookup j m)
  unfolding lookup insert
  lookup-insert k j v [] = refl
  lookup-insert k j v ((i, w) ∷ m) =
      ground (arith, text_eq_iff k j, text_eq_iff i k, text_eq_iff i j, lookup-insert k j v m)
