-- ===== src/Auth/Tenancy.antt =====
-- A login binds to the role and the company that the request names.
use querix_semantic_search.Prelude.{
  ℕ, ◌≡◌, refl, sym, ap, ◌∙◌, true, false, not, Option, none, some, arith, if◌then◌else◌, Result,
  ok, err, ok-injective, Text, text_eq_iff, List, [], ◌∷◌, ◌⊎◌, inl, inr, keep,
}
use mathlib.Core.Option.{some-injective}
use querix_semantic_search.Auth.Types.{
  Platform, AuthError, Role, company_user, User, Db, Config, Principal, role_eq, is_valid_role,
  unsupported_required_role, company_needs_role, role_eq_iff, company_eq, company_eq_iff, company,
  session_policy, internal_admin, other_role,
}
use querix_semantic_search.Auth.Passwords.{normalize, normalize_company, verify_password}
use querix_semantic_search.Auth.Login.{
  LoginRequest, Draw, authenticate, check_request, login_name, select_row, selects, may_login,
  principal_of, new_session, is_locked, only,
}
use querix_semantic_search.Auth.Accepted.{Accepted}
use querix_semantic_search.Auth.Rows.{only-passes}
use querix_semantic_search.Auth.LoggedIn.{authenticate-LoggedIn}

-- A request for a company that passes the guards asks for the company's role.
check_request-company :
    (pl : Platform) (q : LoginRequest) (ch : ℕ) (co : Text) {checked : Option Text}
    → q.required_company_id ≡ some (ch ∷ co)
    → check_request pl q ≡ ok checked
    → (q.required_role ≡ some company_user) × (checked ≡ some (normalize pl (ch ∷ co)))
unfolding check_request normalize_company is_valid_role role_eq
check_request-company pl q ch co {checked} eco e =
    go q.required_role refl (rw (check_request, eco, normalize_company) at e)
  where
    go :
        (role : Option Role)
        → q.required_role ≡ role
        → ◌≡◌ {A = Result AuthError (Option Text)}
            (if (elim role [ none ↦ false | some r ↦ not (is_valid_role r) ])
              then err unsupported_required_role
              else if (elim role [ none ↦ false | some r ↦ role_eq r company_user ])
              then ok (some (normalize pl (ch ∷ co)))
              else err company_needs_role)
            (ok checked)
        → (q.required_role ≡ some company_user) × (checked ≡ some (normalize pl (ch ∷ co)))
    go none er x = absurd (cc)
    go (some company_user) er x = (er, sym (ok-injective x))
    go (some internal_admin) er x = absurd (cc)
    go (some (other_role r)) er x = absurd (cc)

principal-of_Accepted :
    (pl : Platform) (c : Config) (d : Draw) (u : User) (name : Text) (remote : Option Text)
    (db db' : Db) (t : Text) (p : Principal)
    → Accepted pl c d u name remote db (db', some (t, p))
    → (p.user_id ≡ u.user_id)
      × (p.role ≡ u.role)
      × (p.company_id ≡ u.company_id)
      × (t ≡ d.token)
      × (idle : ℕ) × (lifetime : ℕ) × (session_policy c p.role ≡ ok (p.portal_type, idle, lifetime))
unfolding principal_of
principal-of_Accepted pl c d u name remote db db' t p a =
    let e : ◌≡◌ {A = Option (Text × Principal)} (some (t, p)) (
        some (
          d.token,
          principal_of d.now u a.portal
              (new_session pl d u a.portal a.idle_seconds a.absolute_seconds).expires_at,
        )) =
      (ap (λ (r : Db × Option (Text × Principal)). r.1) a.result) in
    let ep : p
        ≡ principal_of d.now u a.portal
            (new_session pl d u a.portal a.idle_seconds a.absolute_seconds).expires_at =
      (ground (arith, e)) in
    let role : p.role ≡ u.role = (ap (λ (x : Principal). x.role) ep) in
    let portal : p.portal_type ≡ a.portal = (ap (λ (x : Principal). x.portal_type) ep) in
    (
      ap (λ (x : Principal). x.user_id) ep,
      role,
      ap (λ (x : Principal). x.company_id) ep,
      ground (arith, e),
      a.idle_seconds,
      a.absolute_seconds,
      rw (role, portal) a.policy,
    )

-- A login for a company gives a principal of that company, with the company's role; so no login of
-- one company's portal enters another company or an internal account.
pub tenant_isolation :
    (pl : Platform) (c : Config) (d : Draw) (q : LoginRequest) (db db' : Db) (ch : ℕ) (co t : Text)
    (p : Principal)
    → q.required_company_id ≡ some (ch ∷ co)
    → authenticate pl c d q db ≡ ok (db', some (t, p))
    → (p.role ≡ company_user)
      × (p.company_id ≡ some (normalize pl (ch ∷ co)))
      × (p.portal_type ≡ company)
unfolding select_row selects session_policy
tenant_isolation pl c d q db db' ch co t p eco e =
    let l = authenticate-LoggedIn pl c d q db db' e in
    let (er, ec) = check_request-company pl q ch co eco l.checked in
    let name = login_name pl q.username in
    let sel : select_row name (some company_user) (some (normalize pl (ch ∷ co))) db.users
        ≡ some l.user =
      (rw (er, ec) at l.selected) in
    let passes =
      only-passes (selects name (some company_user) (some (normalize pl (ch ∷ co)))) db.users sel in
    let role : l.user.role ≡ company_user =
      ((role_eq_iff l.user.role company_user).0 (ground arith)) in
    let comp : l.user.company_id ≡ some (normalize pl (ch ∷ co)) =
      ((company_eq_iff l.user.company_id (some (normalize pl (ch ∷ co)))).0 (ground arith)) in
    let (_, pr, pc, _, idle, lifetime, policy) =
      principal-of_Accepted pl c d l.user name q.remote_address db db' t p l.accepted in
    let is_company = pr ∙ role in (is_company, pc ∙ comp, ground (arith, rw is_company at policy))

only-single {ℓ} : {A : Type ℓ} (xs : List A) {x : A} → only xs ≡ some x → xs ≡ x ∷ []
only-single [] e = cc
only-single (y ∷ []) e = ap (λ z. z ∷ []) (some-injective y _ e)
only-single (y ∷ z ∷ zs) e = cc

-- Who a login that succeeds has found, and what it has checked of the account.
pub record IsSoundLogin (pl : Platform) (d : Draw) (q : LoginRequest) (db : Db) (t : Text)
    (p : Principal) : Type 0 where
  pub user : User
  pub company_id : Option Text
  pub checked : check_request pl q ≡ ok company_id
  pub only_row :
      keep (selects (login_name pl q.username) q.required_role company_id) db.users ≡ user ∷ []
  pub name : user.username_normalized ≡ login_name pl q.username
  pub role : (q.required_role ≡ none) ⊎ (q.required_role ≡ some user.role)
  pub company : (company_id ≡ none) ⊎ (user.company_id ≡ company_id)
  pub active : user.active ≡ true
  pub unlocked : is_locked d.now user.locked_until ≡ false
  pub verified : verify_password pl user.password_hash q.password ≡ true
  pub token : t ≡ d.token
  pub principal :
      (p.user_id ≡ user.user_id) × (p.role ≡ user.role) × (p.company_id ≡ user.company_id)

-- A login that succeeds has returned the token drawn for it, to the only account of the table that
-- has the name, the required role, if there is one, and the company asked for, if there is one;
-- this account, as it stands in the table, is active and not locked, and its stored hash verifies
-- the password.
pub authenticate_sound :
    (pl : Platform) (c : Config) (d : Draw) (q : LoginRequest) (db db' : Db) (t : Text)
    (p : Principal)
    → authenticate pl c d q db ≡ ok (db', some (t, p))
    → IsSoundLogin pl d q db t p
unfolding select_row selects may_login
authenticate_sound pl c d q db db' t p e =
    let l = authenticate-LoggedIn pl c d q db db' e in
    let name = login_name pl q.username in
    let row : keep (selects name q.required_role l.company) db.users ≡ l.user ∷ [] =
      only-single (keep (selects name q.required_role l.company) db.users) l.selected in
    let passes = only-passes (selects name q.required_role l.company) db.users l.selected in
    let may = l.may in
    let (id, role, co, token, _, _, _) =
      principal-of_Accepted pl c d l.user name q.remote_address db db' t p l.accepted in
    record {
      user = l.user;
      company_id = l.company;
      checked = l.checked;
      only_row = row;
      name = (text_eq_iff l.user.username_normalized name).0 (ground arith);
      role = role_of l.user q.required_role (ground arith);
      company = company_of l.user l.company (ground arith);
      active = ground arith;
      unlocked = ground arith;
      verified = ground arith;
      token = token;
      principal = (id, role, co);
    }
  where
    role_of :
        (u : User) (o : Option Role)
        → (elim o [ none ↦ true | some r ↦ role_eq u.role r ]) ≡ true
        → (o ≡ none) ⊎ (o ≡ some u.role)
    role_of u none h = inl refl
    role_of u (some r) h = inr (ap some (sym ((role_eq_iff u.role r).0 h)))

    company_of :
        (u : User) (o : Option Text)
        → (elim o [ none ↦ true | some k ↦ company_eq u.company_id (some k) ]) ≡ true
        → (o ≡ none) ⊎ (u.company_id ≡ o)
    company_of u none h = inl refl
    company_of u (some k) h = inr ((company_eq_iff u.company_id (some k)).0 h)
