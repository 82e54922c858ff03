-- ===== src/Auth/Rows.antt =====
-- Rows that a query finds in the users table.
use querix_semantic_search.Prelude.{
  ◌≡◌, ap, inl, inr, Bool, true, false, some, List, [], ◌∷◌, arith, Bool-cases, keep, any, find,
  All, Text, text_eq_iff, text_eq_refl, Distinct,
}
use mathlib.Core.Path.{subst}
use querix_semantic_search.Auth.Types.{User}
use querix_semantic_search.Auth.Login.{only, is_user}

only-head {ℓ} : {A : Type ℓ} {x y : A} (xs : List A) → only (x ∷ xs) ≡ some y → x ≡ y
only-head [] e = ground arith
only-head (x' ∷ xs) e = cc

-- What a query selects, it found in the table.
pub All-only {ℓ κ} :
    {A : Type ℓ} (P : A → Type κ) (p : A → Bool) (xs : List A) {x : A}
    → All P xs
    → only (keep p xs) ≡ some x
    → P x
All-only P p [] h e = cc
All-only P p (y ∷ ys) {x} h e = elim (Bool-cases (p y)) [
  | inl hit ↦ subst P (only-head (keep p ys) (rw hit at e)) h.0
  | inr miss ↦ All-only P p ys h.1 (rw miss at e)
]

pub only-passes {ℓ} :
    {A : Type ℓ} (p : A → Bool) (xs : List A) {x : A} → only (keep p xs) ≡ some x → p x ≡ true
only-passes p [] e = cc
only-passes p (y ∷ ys) {x} e = elim (Bool-cases (p y)) [
  | inl hit ↦ subst (λ z. p z ≡ true) (only-head (keep p ys) (rw hit at e)) hit
  | inr miss ↦ only-passes p ys (rw miss at e)
]

-- No two rows have the same user id.
abbrev pub DistinctUsers : List User → Type 0
DistinctUsers us = Distinct (λ (u : User). u.user_id) us

any-of_only :
    (p : User → Bool) (us : List User) {u : User}
    → only (keep p us) ≡ some u
    → any (is_user u.user_id) us ≡ true
any-of_only p [] e = cc
any-of_only p (x ∷ xs) {u} e = elim (Bool-cases (p x)) [
  | inl hit ↦
      let same : x ≡ u = only-head (keep p xs) (rw hit at e) in
      ground (arith, ap (λ (y : User). y.user_id) same, text_eq_iff x.user_id u.user_id)
  | inr miss ↦ let rest = any-of_only p xs (rw miss at e) in ground (arith, rest)
]

-- Under distinct ids the id of a selected row finds that row.
pub find-of_only :
    (p : User → Bool) (us : List User) {u : User}
    → DistinctUsers us
    → only (keep p us) ≡ some u
    → find (is_user u.user_id) us ≡ some u
find-of_only p [] d e = cc
find-of_only p (x ∷ xs) {u} d e = elim (Bool-cases (p x)) [
  | inl hit ↦
      let same : x ≡ u = only-head (keep p xs) (rw hit at e) in
      subst (λ (y : User). find (is_user y.user_id) (x ∷ xs) ≡ some y) same (rw text_eq_refl)
  | inr miss ↦
      let e' = (rw miss at e) in
      let rest = find-of_only p xs d.1 e' in
      let found = any-of_only p xs e' in
      elim (Bool-cases (is_user u.user_id x)) [
        | inl clash ↦
            (let fresh =
                subst (λ (t : Text). any (is_user t) xs ≡ false)
                  ((text_eq_iff x.user_id u.user_id).0 clash) d.0 in
              cc)
        | inr other ↦ rw other rest
      ]
]
