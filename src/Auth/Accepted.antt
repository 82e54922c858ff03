-- ===== src/Auth/Accepted.antt =====
-- What a successful login has written.
use querix_semantic_search.Prelude.{
  ℕ, ◌≡◌, sym, ◌⊎◌, inl, inr, false, Option, some, List, [], ◌∷◌, ◌++◌, arith, Bool-cases, any,
  update_where, Result, ok, ◌>>=◌, >>=-eq-ok, ok-injective, Text,
}
use querix_semantic_search.Auth.Types.{
  Platform, AuthError, User, Session, Db, Config, Principal, login_success, session_policy, Portal,
}
use querix_semantic_search.Auth.Passwords.{password_hash, password_needs_rehash}
use querix_semantic_search.Auth.Login.{
  Draw, is_user, rehash, new_session, insert_session, accept, clear_failures, set_hash,
  principal_of, has_hash, event_of,
}

-- The effect of `accept` on the tables: the account's row is written, and one session is added.
pub record Accepted (pl : Platform) (c : Config) (d : Draw) (u : User) (name : Text)
    (remote : Option Text) (db : Db) (r : Db × Option (Text × Principal)) : Type 0 where
  pub users : List User
  pub portal : Portal
  pub idle_seconds : ℕ
  pub absolute_seconds : ℕ
  pub rehashed :
      (users ≡ db.users)
      ⊎ ((h : Text) × (users ≡ update_where (is_user u.user_id) (set_hash h d.now) db.users))
  pub policy : session_policy c u.role ≡ ok (portal, idle_seconds, absolute_seconds)
  pub unused : any (has_hash (pl.sha256_hex d.token)) db.sessions ≡ false
  pub result : r ≡ (
    record {
      users = update_where (is_user u.user_id) (clear_failures d.now) users;
      sessions = db.sessions ++ new_session pl d u portal idle_seconds absolute_seconds ∷ [];
      events = db.events ++ event_of d.event_now (some u) name login_success remote ∷ [];
    },
    some (
      d.token,
      principal_of d.now u portal
          (new_session pl d u portal idle_seconds absolute_seconds).expires_at,
    ),
  )

rehash-cases :
    (pl : Platform) (d : Draw) (password : Text) (u : User) (us users : List User)
    → rehash pl d password u us ≡ ok users
    → (users ≡ us) ⊎ ((h : Text) × (users ≡ update_where (is_user u.user_id) (set_hash h d.now) us))
unfolding rehash
rehash-cases pl d password u us users e =
    elim (Bool-cases (password_needs_rehash u.password_hash)) [
      | inl stale ↦
          let (h, _, e') =
            >>=-eq-ok (password_hash pl d.salt password)
              (λ h. ok (update_where (is_user u.user_id) (set_hash h d.now) us)) (rw stale at e) in
          inr (h, ground arith)
      | inr current ↦ inl (ground arith)
    ]

insert_session-cases :
    {B : Type 0} (s : Session) (sessions : List Session) (f : List Session → B) {r : B}
    → ◌≡◌ {A = Result AuthError B} (insert_session s sessions >>= λ ss. ok (f ss)) (ok r)
    → (any (has_hash s.session_hash) sessions ≡ false) × (r ≡ f (sessions ++ s ∷ []))
unfolding insert_session
insert_session-cases s sessions f e = elim (Bool-cases (any (has_hash s.session_hash) sessions)) [
  | inl used ↦ let e' = (rw used at e) in cc
  | inr unused ↦ (unused, sym (ok-injective (rw unused at e)))
]

pub accept-Accepted :
    (pl : Platform) (c : Config) (d : Draw) (u : User) (password name : Text) (remote : Option Text)
    (db : Db) {r : Db × Option (Text × Principal)}
    → accept pl c d u password name remote db ≡ ok r
    → Accepted pl c d u name remote db r
unfolding accept
accept-Accepted pl c d u password name remote db {r} e =
    let (users, re, e1) = >>=-eq-ok (rehash pl d password u db.users) _ e in
    let (p, po, e2) = >>=-eq-ok (session_policy c u.role) _ e1 in
    let (fresh, e3) = insert_session-cases (new_session pl d u p.0 p.1 p.2) db.sessions _ e2 in
    record {
      users = users;
      portal = p.0;
      idle_seconds = p.1;
      absolute_seconds = p.2;
      rehashed = rehash-cases pl d password u db.users users re;
      policy = po;
      unused = fresh;
      result = e3;
    }
