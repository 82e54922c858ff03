-- ===== src/Auth/LoginValidity.antt =====
-- A login attempt keeps the invariant.
use querix_semantic_search.Prelude.{
  ℕ, ◌+◌, ◌<◌, ◌≡◌, refl, ◌⊎◌, inl, inr, Bool, false, not, ◌&&◌, Option, none, some, List, arith,
  Bool-cases, update_where, All-append, ok, >>=-eq-ok, ok-injective, Text, Distinct-append,
}
use querix_semantic_search.Auth.Types.{
  Platform, User, Session, Db, Config, Principal, seconds, session_policy, Portal,
}
use querix_semantic_search.Auth.Passwords.{verify_password}
use querix_semantic_search.Auth.Login.{
  LoginRequest, Draw, check_request, login_name, is_user, reject, new_session, may_login,
  decide_login, authenticate, clear_failures, set_hash,
}
use querix_semantic_search.Auth.Accepted.{Accepted, accept-Accepted}
use querix_semantic_search.Auth.Validity.{
  SessionOk, IsValid, IsValid-users, UserOk-set_failures, UserOk-cleared, UserOk-same,
}

module _ (pl : Platform) (c : Config) (positive : 0 < c.max_login_attempts) where
  reject-IsValid :
      (d : Draw) (row : Option User) (locked verified : Bool) (name : Text) (remote : Option Text)
      (db : Db)
      → IsValid c db
      → IsValid c (reject c d row locked verified name remote db)
  unfolding reject
  reject-IsValid d none locked verified name remote db v = record {
    users_distinct = v.users_distinct;
    sessions_distinct = v.sessions_distinct;
    users_ok = v.users_ok;
    sessions_ok = v.sessions_ok;
  }
  reject-IsValid d (some u) locked verified name remote db v =
      elim (Bool-cases (not locked && (u.active && not verified))) [
        | inl counted ↦ rw counted (
            IsValid-users c u.user_id _ db _ (λ x. refl)
              (UserOk-set_failures c (u.failed_attempts + 1) d.now) v refl refl)
        | inr other ↦ rw other (record {
          users_distinct = v.users_distinct;
          sessions_distinct = v.sessions_distinct;
          users_ok = v.users_ok;
          sessions_ok = v.sessions_ok;
        })
      ]

  rehashed-IsValid :
      (d : Draw) (u : User) (db : Db) (users : List User)
      → (users ≡ db.users)
        ⊎ ((h : Text) × (users ≡ update_where (is_user u.user_id) (set_hash h d.now) db.users))
      → IsValid c db
      → IsValid c (record db { users = users })
  rehashed-IsValid d u db users (inl e) v = rw e (record {
    users_distinct = v.users_distinct;
    sessions_distinct = v.sessions_distinct;
    users_ok = v.users_ok;
    sessions_ok = v.sessions_ok;
  })
  rehashed-IsValid d u db users (inr (h, e)) v =
      IsValid-users c u.user_id (set_hash h d.now) db _ (λ x. refl)
        (λ x k. UserOk-same c x _ refl refl refl refl k) v e refl

  SessionOk-new_session :
      (d : Draw) (u : User) (portal : Portal) (idle_seconds absolute_seconds : ℕ)
      → session_policy c u.role ≡ ok (portal, idle_seconds, absolute_seconds)
      → SessionOk c (new_session pl d u portal idle_seconds absolute_seconds)
  unfolding new_session
  SessionOk-new_session d u portal idle_seconds absolute_seconds policy = record {
    idle = d.now + seconds idle_seconds;
    absolute = d.now + seconds absolute_seconds;
    portal = portal;
    idle_seconds = idle_seconds;
    absolute_seconds = absolute_seconds;
    idle_stamp = refl;
    absolute_stamp = refl;
    policy = policy;
    portal_fits = refl;
    lifetime = omega arith;
    expires = ground arith;
  }

  Accepted-IsValid :
      (d : Draw) (u : User) (name : Text) (remote : Option Text) (db : Db)
      {r : Db × Option (Text × Principal)}
      → IsValid c db
      → Accepted pl c d u name remote db r
      → IsValid c r.0
  unfolding new_session
  Accepted-IsValid d u name remote db v a =
      let v1 = rehashed-IsValid d u db a.users a.rehashed v in
      let v2 : IsValid c
          (record db { users = update_where (is_user u.user_id) (clear_failures d.now) a.users }) =
        IsValid-users c u.user_id (clear_failures d.now) (record db { users = a.users }) _
          (λ x. refl) (λ x k. UserOk-cleared c x _ positive refl refl refl k) v1 refl refl in
      rw a.result (record {
        users_distinct = v2.users_distinct;
        sessions_distinct =
            Distinct-append (λ (s : Session). s.session_hash) db.sessions _ v.sessions_distinct
              a.unused;
        users_ok = v2.users_ok;
        sessions_ok =
            All-append (SessionOk c) db.sessions _ v.sessions_ok
              (SessionOk-new_session d u a.portal a.idle_seconds a.absolute_seconds a.policy, tt);
      })

  pub authenticate-IsValid :
      (d : Draw) (q : LoginRequest) (db : Db) {r : Db × Option (Text × Principal)}
      → IsValid c db
      → authenticate pl c d q db ≡ ok r
      → IsValid c r.0
  unfolding authenticate
  authenticate-IsValid d q db {r} v e =
      let (co, _, e1) = >>=-eq-ok (check_request pl q) _ e in decide (login_name pl q.username) _ e1
    where
      decide :
          (name : Text) (row : Option User)
          → decide_login pl c d q name row db ≡ ok r
          → IsValid c r.0
      decide name none x =
          rw (← ok-injective x) (reject-IsValid d none false false name q.remote_address db v)
      decide name (some u) x =
          let verified = verify_password pl u.password_hash q.password in
          elim (Bool-cases (may_login d.now q.required_role verified u)) [
            | inl may ↦
                Accepted-IsValid d u name q.remote_address db v
                  (accept-Accepted pl c d u q.password name q.remote_address db (rw may at x))
            | inr refused ↦
                rw (← ok-injective (rw refused at x))
                  (reject-IsValid d (some u) _ verified name q.remote_address db v)
          ]
