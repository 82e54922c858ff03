-- ===== src/Auth/RoundTrip.antt =====
-- A token just issued resolves.
use querix_semantic_search.Prelude.{
  ℕ, ◌+◌, ◌<◌, ◌≡◌, refl, sym, ap, ◌∙◌, ◌⊎◌, inl, inr, true, Option, none, some, List, ◌∷◌, arith,
  min, find, update_where, find-update_where, find-append, find-passes, ok, Text, text_eq,
  text_eq_refl,
}
use mathlib.Core.Path.{subst}
use querix_semantic_search.Auth.Types.{
  Platform, at, User, Session, Db, Config, Principal, Portal, seconds, session_policy, role_eq_iff,
  company_eq_iff, portal_eq_iff,
}
use querix_semantic_search.Auth.Passwords.{verify_password}
use querix_semantic_search.Auth.Login.{
  LoginRequest, Draw, authenticate, login_name, select_row, selects, is_user, has_hash,
  principal_of, new_session, clear_failures, set_hash,
}
use querix_semantic_search.Auth.Accepted.{Accepted}
use querix_semantic_search.Auth.Rows.{DistinctUsers, find-of_only}
use querix_semantic_search.Auth.Sessions.{
  join_row, binding_holds, is_fresh, slide, admit, resolve_row, resolve_digest, resolve_session,
}
use querix_semantic_search.Auth.Resolved.{Fits}
use querix_semantic_search.Auth.LoggedIn.{authenticate-LoggedIn, may_login-active}

-- The checks of `resolve_session` that a joined row passes.
pub resolve_digest-passes :
    (c : Config) (now : ℕ) (wanted : Option Portal) (digest : Text) (db : Db) (s : Session)
    (u : User) (idle absolute : ℕ) (portal : Portal) (idle_seconds absolute_seconds : ℕ)
    → join_row digest db ≡ some (s, u)
    → binding_holds s u ≡ true
    → s.idle_expires_at ≡ at idle
    → s.absolute_expires_at ≡ at absolute
    → session_policy c u.role ≡ ok (portal, idle_seconds, absolute_seconds)
    → is_fresh wanted portal idle absolute now s ≡ true
    → resolve_digest c now wanted digest db
      ≡ ok (
        record db {
          sessions = update_where (has_hash digest) (slide now idle_seconds absolute) db.sessions;
        },
        some (principal_of now u s.portal_type (slide now idle_seconds absolute s).expires_at),
      )
unfolding resolve_digest resolve_row admit
resolve_digest-passes c now wanted digest db s u idle absolute portal wi wa joined binding ei ea
      policy fresh =
    rw (resolve_digest, joined, resolve_row, binding, ei, ea, admit, policy, fresh) refl

-- A write to the row of an id keeps the row at its id.
find-written :
    (id : Text) (f : User → User) (us : List User) {u : User}
    → ((x : User) → (f x).user_id ≡ x.user_id)
    → find (is_user id) us ≡ some u
    → find (is_user id) (update_where (is_user id) f us) ≡ some (f u)
find-written id f us {u} same found =
    find-update_where (is_user id) (is_user id) f us (λ x. ap (λ k. text_eq k id) (same x))
    ∙ rw (found, find-passes (is_user id) us found) refl

-- The account's row after a login: active, with the role and the company that it had.
pub record Stored (u : User) (users : List User) : Type 0 where
  pub row : User
  pub found : find (is_user u.user_id) users ≡ some row
  pub same_id : row.user_id ≡ u.user_id
  pub same_active : row.active ≡ u.active
  pub same_role : row.role ≡ u.role
  pub same_company : row.company_id ≡ u.company_id

Stored-cleared :
    (now : ℕ) (u : User) (us users : List User)
    → find (is_user u.user_id) us ≡ some u
    → (users ≡ us) ⊎ ((h : Text) × (users ≡ update_where (is_user u.user_id) (set_hash h now) us))
    → Stored u (update_where (is_user u.user_id) (clear_failures now) users)
Stored-cleared now u us users found (inl e) = record {
  row = clear_failures now u;
  found = find-written u.user_id (clear_failures now) users {u = u} (λ x. refl) (rw e found);
  same_id = refl;
  same_active = refl;
  same_role = refl;
  same_company = refl;
}
Stored-cleared now u us users found (inr (h, e)) = record {
  row = clear_failures now (set_hash h now u);
  found =
      find-written u.user_id (clear_failures now) users {u = set_hash h now u} (λ x. refl)
        (rw e (find-written u.user_id (set_hash h now) us (λ x. refl) found));
  same_id = refl;
  same_active = refl;
  same_role = refl;
  same_company = refl;
}

pub join_row-found :
    (digest : Text) (db : Db) (s : Session) (u : User)
    → find (has_hash digest) db.sessions ≡ some s
    → find (is_user s.user_id) db.users ≡ some u
    → join_row digest db ≡ some (s, u)
unfolding join_row
join_row-found digest db s u found owner = rw (join_row, found, owner) refl

is_fresh-holds :
    (wanted : Option Portal) (idle absolute now : ℕ) (s : Session)
    → Fits wanted s.portal_type
    → now < idle
    → now < absolute
    → is_fresh wanted s.portal_type idle absolute now s ≡ true
unfolding is_fresh
is_fresh-holds none idle absolute now s f i a =
    ground (arith, (portal_eq_iff s.portal_type s.portal_type).1 refl)
is_fresh-holds (some w) idle absolute now s f i a =
    ground (
      arith,
      (portal_eq_iff s.portal_type s.portal_type).1 refl,
      (portal_eq_iff s.portal_type w).1 f,
    )

binding-new_session :
    (pl : Platform) (d : Draw) (u row : User) (portal : Portal) (wi wa : ℕ)
    → row.active ≡ true
    → row.role ≡ u.role
    → row.company_id ≡ u.company_id
    → binding_holds (new_session pl d u portal wi wa) row ≡ true
unfolding binding_holds new_session
binding-new_session pl d u row portal wi wa a r co = ground (
  arith,
  (role_eq_iff u.role row.role).1 (sym r),
  (company_eq_iff u.company_id row.company_id).1 (sym co),
)

principal_of-same :
    (now : ℕ) (u row : User) (portal : Portal) (expires later : ℕ)
    → row.user_id ≡ u.user_id
    → row.role ≡ u.role
    → row.company_id ≡ u.company_id
    → ((principal_of now row portal expires).user_id
        ≡ (principal_of later u portal expires).user_id)
      × ((principal_of now row portal expires).role ≡ (principal_of later u portal expires).role)
      × ((principal_of now row portal expires).company_id
          ≡ (principal_of later u portal expires).company_id)
unfolding principal_of
principal_of-same now u row portal expires later i r co = (i, r, co)

-- The token of an accepted login, resolved before the deadline of its principal.
Accepted-resolves :
    (pl : Platform) (c : Config) (d : Draw) (u : User) (name : Text) (remote : Option Text)
    (db db1 : Db) (t : ℕ) (token : Text) (p : Principal) (now : ℕ) (wanted : Option Portal)
    → DistinctUsers db.users
    → find (is_user u.user_id) db.users ≡ some u
    → u.active ≡ true
    → Accepted pl c d u name remote db (db1, some (t ∷ token, p))
    → Fits wanted p.portal_type
    → now < p.session_expires_at
    → (db2 : Db) × (p' : Principal) × (resolve_session pl c now (some (t ∷ token)) wanted db1
        ≡ ok (db2, some p'))
      × (p'.user_id ≡ p.user_id)
      × (p'.role ≡ p.role)
      × (p'.company_id ≡ p.company_id)
      × (p'.portal_type ≡ p.portal_type)
unfolding resolve_session principal_of new_session
Accepted-resolves pl c d u name remote db db1 t token p now wanted distinct found active a fits
      before =
    let s = new_session pl d u a.portal a.idle_seconds a.absolute_seconds in
    let st = Stored-cleared d.now u db.users a.users found a.rehashed in
    let e1 = (ap (λ (r : Db × Option (Text × Principal)). r.0) a.result) in
    let e2 : ◌≡◌ {A = Option (Text × Principal)} (some (t ∷ token, p))
        (some (d.token, principal_of d.now u a.portal s.expires_at)) =
      (ap (λ (r : Db × Option (Text × Principal)). r.1) a.result) in
    let et : t ∷ token ≡ d.token = (ground arith) in
    let ep : p ≡ principal_of d.now u a.portal s.expires_at = (ground arith) in
    let here : find (has_hash (pl.sha256_hex (t ∷ token))) db1.sessions ≡ some s =
      (rw (e1, et)
        (find-append (has_hash (pl.sha256_hex d.token)) db.sessions s a.unused
          (text_eq_refl (pl.sha256_hex d.token)))) in
    let owner : find (is_user u.user_id) db1.users ≡ some st.row = (rw e1 st.found) in
    let joined = join_row-found (pl.sha256_hex (t ∷ token)) db1 s st.row here owner in
    let idle = d.now + seconds a.idle_seconds in
    let absolute = d.now + seconds a.absolute_seconds in
    let deadline : p.session_expires_at ≡ min idle absolute =
      (ap (λ (x : Principal). x.session_expires_at) ep) in
    let portal : p.portal_type ≡ a.portal = (ap (λ (x : Principal). x.portal_type) ep) in
    let fresh =
      is_fresh-holds wanted idle absolute now s (subst (Fits wanted) portal fits) (ground arith)
        (ground arith) in
    let done =
      resolve_digest-passes c now wanted (pl.sha256_hex (t ∷ token)) db1 s st.row idle absolute
        a.portal a.idle_seconds a.absolute_seconds joined
        (binding-new_session pl d u st.row a.portal a.idle_seconds a.absolute_seconds
          (st.same_active ∙ active) st.same_role st.same_company)
        refl refl (rw st.same_role a.policy) fresh in
    (
      _,
      _,
      done,
      st.same_id ∙ sym (ap (λ (x : Principal). x.user_id) ep),
      st.same_role ∙ sym (ap (λ (x : Principal). x.role) ep),
      st.same_company ∙ sym (ap (λ (x : Principal). x.company_id) ep),
      sym portal,
    )

-- With distinct user ids, the token that a login returns, if it is not empty, resolves for any
-- portal that the principal fits until the principal's deadline: to the same account, with the
-- same role, company and portal.
pub login_resolves :
    (pl : Platform) (c : Config) (d : Draw) (q : LoginRequest) (db db1 : Db) (t : ℕ) (token : Text)
    (p : Principal) (now : ℕ) (wanted : Option Portal)
    → DistinctUsers db.users
    → authenticate pl c d q db ≡ ok (db1, some (t ∷ token, p))
    → Fits wanted p.portal_type
    → now < p.session_expires_at
    → (db2 : Db) × (p' : Principal) × (resolve_session pl c now (some (t ∷ token)) wanted db1
        ≡ ok (db2, some p'))
      × (p'.user_id ≡ p.user_id)
      × (p'.role ≡ p.role)
      × (p'.company_id ≡ p.company_id)
      × (p'.portal_type ≡ p.portal_type)
unfolding select_row
login_resolves pl c d q db db1 t token p now wanted distinct e fits before =
    let l = authenticate-LoggedIn pl c d q db db1 e in
    let found =
      find-of_only (selects (login_name pl q.username) q.required_role l.company) db.users distinct
        l.selected in
    let active =
      may_login-active d.now q.required_role (verify_password pl l.user.password_hash q.password)
        l.user l.may in
    Accepted-resolves pl c d l.user (login_name pl q.username) q.remote_address db db1 t token p now
      wanted distinct found active l.accepted fits before
