-- ===== src/Auth/Locks.antt =====
-- A locked account stays locked through any login attempt that comes before its lock ends.
use querix_semantic_search.Prelude.{
  ℕ, ◌<◌, ◌≡◌, refl, sym, ◌∙◌, ◌≢◌, ◌⊎◌, inl, inr, Bool, true, false, not, ◌&&◌, Option, none, some,
  List, [], ◌∷◌, arith, lt→ltb, Bool-cases, update_where, All, All-update_where, ok, >>=-eq-ok,
  ok-injective, Text, text_eq_iff,
}
use querix_semantic_search.Auth.Types.{Platform, Stamp, at, User, Db, Config, Principal, Role}
use querix_semantic_search.Auth.Passwords.{verify_password}
use querix_semantic_search.Auth.Rows.{All-only}
use querix_semantic_search.Auth.Accepted.{Accepted, accept-Accepted}
use querix_semantic_search.Auth.Login.{
  LoginRequest, Draw, check_request, login_name, is_locked, is_user, set_failures, reject,
  may_login, decide_login, authenticate, clear_failures, set_hash, principal_of,
}

-- Every row of the account is locked until `until`.
abbrev pub LockedUntil : Text → ℕ → List User → Type 0
LockedUntil id until = All (λ u. is_user id u ≡ true → u.locked_until ≡ some (at until))

pub LockedUntil-set_failures :
    (id : Text) (attempts now until : ℕ) (us : List User)
    → LockedUntil id until
        (update_where (is_user id) (set_failures attempts (some (at until)) now) us)
LockedUntil-set_failures id attempts now until [] = tt
LockedUntil-set_failures id attempts now until (u ∷ us) =
    (ground arith, LockedUntil-set_failures id attempts now until us)

-- A write to other accounts keeps the lock.
LockedUntil-update_where :
    (id other : Text) (until : ℕ) (f : User → User) (us : List User)
    → id ≢ other
    → ((u : User) → (f u).user_id ≡ u.user_id)
    → LockedUntil id until us
    → LockedUntil id until (update_where (is_user other) f us)
LockedUntil-update_where id other until f us ne same =
    All-update_where (λ u. is_user id u ≡ true → u.locked_until ≡ some (at until)) (is_user other) f
      us
      (λ u hit v mine. absurd (
        ne (
          sym ((text_eq_iff u.user_id id).0 (rw (← same u) mine))
          ∙ (text_eq_iff u.user_id other).0 hit)))

module _ (pl : Platform) (c : Config) (id : Text) (until : ℕ) where
  -- A locked account cannot log in before its lock ends.
  may_login_locked :
      (d : Draw) (role : Option Role) (verified : Bool) (u : User)
      → d.now < until
      → (is_user id u ≡ true → u.locked_until ≡ some (at until))
      → may_login d.now role verified u ≡ true
      → u.user_id ≢ id
  unfolding may_login is_locked
  may_login_locked d role verified u early lock may same =
      let stamp = lock ((text_eq_iff u.user_id id).1 same) in ground arith

  reject-LockedUntil :
      (d : Draw) (u : User) (locked verified : Bool) (name : Text) (remote : Option Text) (db : Db)
      → (is_user id u ≡ true → locked ≡ true)
      → LockedUntil id until db.users
      → LockedUntil id until (reject c d (some u) locked verified name remote db).users
  unfolding reject
  reject-LockedUntil d u true verified name remote db mine v = v
  reject-LockedUntil d u false verified name remote db mine v =
      elim (Bool-cases (u.active && not verified)) [
        | inl counted ↦ rw counted (
            LockedUntil-update_where id u.user_id until _ db.users
              (λ e. let hit = mine ((text_eq_iff u.user_id id).1 (sym e)) in cc) (λ x. refl) v)
        | inr other ↦ rw other v
      ]

  -- A login of another account keeps the lock, and is that account's.
  Accepted-LockedUntil :
      (d : Draw) (u : User) (name : Text) (remote : Option Text) (db : Db)
      {r : Db × Option (Text × Principal)}
      → u.user_id ≢ id
      → LockedUntil id until db.users
      → Accepted pl c d u name remote db r
      → LockedUntil id until r.0.users
        × ((t : Text × Principal) → r.1 ≡ some t → t.1.user_id ≡ u.user_id)
  unfolding principal_of
  Accepted-LockedUntil d u name remote db ne v a = rw a.result (
    LockedUntil-update_where id u.user_id until (clear_failures d.now) a.users (λ e. ne (sym e))
        (λ x. refl) (rehashed a.rehashed),
    λ t e. ground arith,
  )
    where
      rehashed :
          (a.users ≡ db.users)
            ⊎ ((h : Text) × (a.users
                  ≡ update_where (is_user u.user_id) (set_hash h d.now) db.users))
          → LockedUntil id until a.users
      rehashed (inl e) = rw e v
      rehashed (inr (h, e)) = rw e (
          LockedUntil-update_where id u.user_id until (set_hash h d.now) db.users (λ x. ne (sym x))
            (λ x. refl) v)

  is_locked_early :
      (now : ℕ) (o : Option Stamp) → now < until → o ≡ some (at until) → is_locked now o ≡ true
  unfolding is_locked
  is_locked_early now o early e = rw (e, is_locked) (lt→ltb now until early)

  decide_login-LockedUntil :
      (d : Draw) (q : LoginRequest) (name : Text) (row : Option User) (db : Db)
      {r : Db × Option (Text × Principal)}
      → d.now < until
      → ((u : User) → row ≡ some u → is_user id u ≡ true → u.locked_until ≡ some (at until))
      → LockedUntil id until db.users
      → decide_login pl c d q name row db ≡ ok r
      → LockedUntil id until r.0.users × ((t : Text × Principal) → r.1 ≡ some t → t.1.user_id ≢ id)
  unfolding decide_login
  decide_login-LockedUntil d q name none db early lock v e =
      rw (← ok-injective e) (v, λ t n. absurd (cc))
  decide_login-LockedUntil d q name (some u) db early lock v e =
      let verified = verify_password pl u.password_hash q.password in
      elim (Bool-cases (may_login d.now q.required_role verified u)) [
        | inl may ↦
            let ne = may_login_locked d q.required_role verified u early (lock u refl) may in
            let a = accept-Accepted pl c d u q.password name q.remote_address db (rw may at e) in
            let (l, own) = Accepted-LockedUntil d u name q.remote_address db ne v a in
            (l, λ t n same. ne (sym (own t n) ∙ same))
        | inr refused ↦ rw (← ok-injective (rw refused at e)) (
          reject-LockedUntil d u _ verified name q.remote_address db
              (λ mine. is_locked_early d.now u.locked_until early (lock u refl mine)) v,
          λ t n. absurd (cc),
        )
      ]

  -- Any login attempt before the lock ends keeps the lock, and opens no session of the account.
  pub authenticate-LockedUntil :
      (d : Draw) (q : LoginRequest) (db : Db) {r : Db × Option (Text × Principal)}
      → d.now < until
      → LockedUntil id until db.users
      → authenticate pl c d q db ≡ ok r
      → LockedUntil id until r.0.users × ((t : Text × Principal) → r.1 ≡ some t → t.1.user_id ≢ id)
  unfolding authenticate
  authenticate-LockedUntil d q db early v e =
      let (company, _, e1) = >>=-eq-ok (check_request pl q) _ e in
      decide_login-LockedUntil d q (login_name pl q.username) _ db early
        (λ u sel.
          All-only (λ (x : User). is_user id x ≡ true → x.locked_until ≡ some (at until)) _ db.users
            v sel)
        v e1
