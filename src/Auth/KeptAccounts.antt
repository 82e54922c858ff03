-- ===== src/Auth/KeptAccounts.antt =====
-- `create_user`, `set_password` and `set_active` keep the invariant.
use querix_semantic_search.Prelude.{
  ℕ, ◌<◌, ◌≡◌, refl, sym, inl, inr, Bool, true, false, Option, List, [], ◌∷◌, ◌++◌, arith, ◌==◌,
  if◌then◌else◌, Bool-cases, any, count, update_where, All-append, Result, ok, >>=-eq-ok,
  ok-injective, Text, Distinct-append, Option-cases,
}
use querix_semantic_search.Auth.Types.{
  Platform, AuthError, Role, internal_admin, company_user, other_role, User, Db, Config,
}
use querix_semantic_search.Auth.Passwords.{
  normalize_username, validate_binding, validate_password, password_hash, normalize_company,
}
use querix_semantic_search.Auth.Login.{is_user}
use querix_semantic_search.Auth.Sessions.{revoke}
use querix_semantic_search.Auth.Accounts.{
  clashes, insert_user, create_user, of_user, revoke_all, change_password, set_password,
  change_active, set_active, resolve_user_id,
}
use querix_semantic_search.Auth.Validity.{
  Bound, UserOk, IsValid, IsValid-users, IsValid-sessions, UserOk-cleared, UserOk-same,
  SessionOk-revoke,
}

Bound-validate_binding :
    (pl : Platform) (role : Role) (company_id : Option Text) {b : Option Text}
    → validate_binding pl role company_id ≡ ok b
    → Bound role b
unfolding validate_binding
Bound-validate_binding pl (other_role r) company_id e = absurd (cc)
Bound-validate_binding pl internal_admin company_id e =
    elim (Option-cases (normalize_company pl company_id)) [
      | inl no_company ↦ rw (← ok-injective (rw (validate_binding, no_company) at e)) tt
      | inr (co, given) ↦ absurd (let e' = (rw (validate_binding, given) at e) in cc)
    ]
Bound-validate_binding pl company_user company_id e =
    elim (Option-cases (normalize_company pl company_id)) [
      | inl no_company ↦ absurd (let e' = (rw (validate_binding, no_company) at e) in cc)
      | inr (co, given) ↦ rw (← ok-injective (rw (validate_binding, given) at e)) tt
    ]

-- An inserted user has an id of its own and goes last.
insert_user-fresh :
    (u : User) (users : List User) {us : List User}
    → insert_user u users ≡ ok us
    → (any (is_user u.user_id) users ≡ false) × (us ≡ users ++ u ∷ [])
unfolding insert_user clashes
insert_user-fresh u users e = elim (Bool-cases (any (clashes u) users)) [
  | inl clash ↦ absurd (let e' = (rw clash at e) in cc)
  | inr fresh ↦ (no_id users fresh, sym (ok-injective (rw fresh at e)))
]
  where
    no_id : (xs : List User) → any (clashes u) xs ≡ false → any (is_user u.user_id) xs ≡ false
    no_id [] h = refl
    no_id (x ∷ xs) h = ground (arith, no_id xs)

pub create_user-IsValid :
    (pl : Platform) (c : Config) (now : ℕ) (user_id salt username password : Text) (role : Role)
    (company_id : Option Text) (db : Db) {r : Db × User}
    → 0 < c.max_login_attempts
    → IsValid c db
    → create_user pl c now user_id salt username password role company_id db ≡ ok r
    → IsValid c r.0
unfolding create_user
create_user-IsValid pl c now user_id salt username password role company_id db positive v e =
    let (n, _, e1) = >>=-eq-ok (normalize_username pl username) _ e in
    let (co, bound, e2) = >>=-eq-ok (validate_binding pl role company_id) _ e1 in
    let (_, _, e3) = >>=-eq-ok (validate_password c password) _ e2 in
    let (h, _, e4) = >>=-eq-ok (password_hash pl salt password) _ e3 in
    let (us, inserted, e5) = >>=-eq-ok (insert_user _ db.users) _ e4 in
    let (fresh, at_end) = insert_user-fresh _ db.users inserted in
    rw (← ok-injective e5, at_end)
      (record {
        users_distinct =
            Distinct-append (λ (u : User). u.user_id) db.users _ v.users_distinct fresh;
        sessions_distinct = v.sessions_distinct;
        users_ok = All-append (UserOk c) db.users _ v.users_ok (
          record {
            bound = Bound-validate_binding pl role company_id bound;
            locked = λ h. absurd (omega arith);
          },
          tt,
        );
        sessions_ok = v.sessions_ok;
      })

-- Revoking an account's sessions keeps the invariant.
revoke_all-IsValid :
    (c : Config) (now : ℕ) (id : Text) (db : Db)
    → IsValid c db
    → IsValid c (record db { sessions = revoke_all now id db.sessions })
unfolding revoke_all
revoke_all-IsValid c now id db v =
    IsValid-sessions c (of_user id) (revoke now) db _ (λ s. refl)
      (λ s _ k. SessionOk-revoke c now s k) v refl refl

pub set_password-IsValid :
    (pl : Platform) (c : Config) (now : ℕ) (salt username password : Text) (company : Option Text)
    (db : Db) {r : Db}
    → 0 < c.max_login_attempts
    → IsValid c db
    → set_password pl c now salt username password company db ≡ ok r
    → IsValid c r
unfolding set_password
set_password-IsValid pl c now salt username password company db positive v e =
    let (n, _, e1) = >>=-eq-ok (normalize_username pl username) _ e in
    let (_, _, e2) = >>=-eq-ok (validate_password c password) _ e1 in
    let (h, _, e3) = >>=-eq-ok (password_hash pl salt password) _ e2 in
    let (id, _, e4) = >>=-eq-ok (resolve_user_id pl n company db.users) _ e3 in
    elim (Bool-cases (count (is_user id) db.users == 1)) [
      | inl one ↦ rw (← ok-injective (rw one at e4)) (
          IsValid-users c id (change_password h now)
            (record db { sessions = revoke_all now id db.sessions }) _ (λ u. refl)
            (λ u k. UserOk-cleared c u _ positive refl refl refl k)
            (revoke_all-IsValid c now id db v) refl refl)
      | inr other ↦ absurd (let e' = (rw other at e4) in cc)
    ]

pub set_active-IsValid :
    (pl : Platform) (c : Config) (now : ℕ) (username : Text) (active : Bool) (company : Option Text)
    (db : Db) {r : Db}
    → IsValid c db
    → set_active pl now username active company db ≡ ok r
    → IsValid c r
unfolding set_active
set_active-IsValid pl c now username active company db {r} v e =
    let (n, _, e1) = >>=-eq-ok (normalize_username pl username) _ e in
    let (id, _, e2) = >>=-eq-ok (resolve_user_id pl n company db.users) _ e1 in
    elim (Bool-cases (count (is_user id) db.users == 1)) [
      | inl one ↦ switch id active (rw one at e2)
      | inr other ↦ absurd (let e' = (rw other at e2) in cc)
    ]
  where
    switch :
        (id : Text) (on : Bool)
        → ◌≡◌ {A = Result AuthError Db}
            (ok (record db {
              users = update_where (is_user id) (change_active on now) db.users;
              sessions = if on then db.sessions else revoke_all now id db.sessions;
            }))
            (ok r)
        → IsValid c r
    switch id true x = rw (← ok-injective x) (
        IsValid-users c id (change_active true now) db _ (λ u. refl)
          (λ u k. UserOk-same c u _ refl refl refl refl k) v refl refl)
    switch id false x = rw (← ok-injective x) (
        IsValid-users c id (change_active false now)
          (record db { sessions = revoke_all now id db.sessions }) _ (λ u. refl)
          (λ u k. UserOk-same c u _ refl refl refl refl k) (revoke_all-IsValid c now id db v) refl
          refl)
