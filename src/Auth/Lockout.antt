-- ===== src/Auth/Lockout.antt =====
-- Guessing a password: the lock that repeated failures set, and what it stops.
use querix_semantic_search.Prelude.{
  ℕ, ◌+◌, ◌≤◌, ◌<◌, ◌≡◌, refl, ◌≢◌, true, false, Option, none, some, List, [], ◌∷◌, ◌++◌, arith,
  leb, All, All-append, Result, ok, err, Text,
}
use querix_semantic_search.Auth.Types.{Platform, AuthError, User, Db, Config, Principal, seconds}
use querix_semantic_search.Auth.Passwords.{verify_password}
use querix_semantic_search.Auth.Login.{
  LoginRequest, Draw, check_request, login_name, select_row, is_locked, reject, may_login,
  authenticate,
}
use querix_semantic_search.Auth.Locks.{
  LockedUntil, LockedUntil-set_failures, authenticate-LockedUntil,
}

-- The tables after an attempt: one that raises changes nothing.
abbrev pub db_after : Result AuthError (Db × Option (Text × Principal)) → Db → Db
db_after (err _) db = db
db_after (ok r) db = r.0

-- The session that an attempt opens, if any.
abbrev pub opened : Result AuthError (Db × Option (Text × Principal)) → List Principal
opened (ok (_, some (_, p))) = p ∷ []
opened _ = []

-- Login attempts one after the other, and the sessions that they open.
unfoldable pub login_run : Platform → Config → List (Draw × LoginRequest) → Db → Db × List Principal
login_run pl c [] db = (db, [])
login_run pl c ((d, q) ∷ rest) db =
    let outcome = authenticate pl c d q db in
    let (db', later) = login_run pl c rest (db_after outcome db) in (db', opened outcome ++ later)

module _ (id : Text) (until : ℕ) where
  after-LockedUntil :
      (o : Result AuthError (Db × Option (Text × Principal))) (db : Db)
      → LockedUntil id until db.users
      → ((r : Db × Option (Text × Principal))
          → o ≡ ok r
          → LockedUntil id until r.0.users
            × ((t : Text × Principal) → r.1 ≡ some t → t.1.user_id ≢ id))
      → LockedUntil id until (db_after o db).users × All (λ p. p.user_id ≢ id) (opened o)
  after-LockedUntil (err x) db v h = (v, tt)
  after-LockedUntil (ok (db', none)) db v h = ((h (db', none) refl).0, tt)
  after-LockedUntil (ok (db', some t)) db v h =
      let (l, own) = h (db', some t) refl in (l, (own t refl, tt))

  login_run-LockedUntil :
      (pl : Platform) (c : Config) (attempts : List (Draw × LoginRequest)) (db : Db)
      → All (λ a. a.0.now < until) attempts
      → LockedUntil id until db.users
      → All (λ p. p.user_id ≢ id) (login_run pl c attempts db).1
  unfolding login_run
  login_run-LockedUntil pl c [] db early v = tt
  login_run-LockedUntil pl c ((d, q) ∷ rest) db early v =
      let o = authenticate pl c d q db in
      let (l, own) =
        after-LockedUntil o db v
          (λ r e. authenticate-LockedUntil pl c id until d q db early.0 v e) in
      All-append (λ p. p.user_id ≢ id) (opened o) _ own
        (login_run-LockedUntil pl c rest (db_after o db) early.1 l)

reject-locks :
    (c : Config) (d : Draw) (u : User) (name : Text) (remote : Option Text) (db : Db)
    → u.active ≡ true
    → c.max_login_attempts ≤ u.failed_attempts + 1
    → LockedUntil u.user_id
        (d.now + seconds c.lock_seconds)
        (reject c d (some u) false false name remote db).users
unfolding reject
reject-locks c d u name remote db active limit =
    let reached : leb c.max_login_attempts (u.failed_attempts + 1) ≡ true = ground arith in
    rw (active, reached)
      (LockedUntil-set_failures u.user_id (u.failed_attempts + 1) d.now
        (d.now + seconds c.lock_seconds) db.users)

module _ (pl : Platform) (c : Config) (d : Draw) (q : LoginRequest) (company : Option Text)
    (u : User) (db : Db) (checked : check_request pl q ≡ ok company)
    (row : select_row (login_name pl q.username) q.required_role company db.users ≡ some u)
    (wrong : verify_password pl u.password_hash q.password ≡ false) where
  authenticate_wrong :
      authenticate pl c d q db
      ≡ ok (
        reject c d
            (some u)
            (is_locked d.now u.locked_until)
            false
            (login_name pl q.username)
            q.remote_address
            db,
        none,
      )
  unfolding authenticate
  authenticate_wrong = rw (checked, row) (rw (wrong, may_not_login) refl)
    where
      may_not_login : may_login d.now q.required_role false u ≡ false
      may_not_login = unfold may_login in ground arith

  -- A wrong password on an active, unlocked account whose failures reach the limit with it opens no
  -- session; and no attempt whatever, with whatever password, opens a session of that account
  -- before `lock_seconds` have passed.
  pub lockout :
      (later : List (Draw × LoginRequest))
      → u.active ≡ true
      → is_locked d.now u.locked_until ≡ false
      → c.max_login_attempts ≤ u.failed_attempts + 1
      → All (λ a. a.0.now < d.now + seconds c.lock_seconds) later
      → All (λ p. p.user_id ≢ u.user_id) (login_run pl c ((d, q) ∷ later) db).1
  unfolding login_run
  lockout later active unlocked limit early =
      rw authenticate_wrong
        (login_run-LockedUntil u.user_id (d.now + seconds c.lock_seconds) pl c later _ early locked)
    where
      locked :
          LockedUntil u.user_id
            (d.now + seconds c.lock_seconds)
            (reject c d
              (some u)
              (is_locked d.now u.locked_until)
              false
              (login_name pl q.username)
              q.remote_address
              db).users
      locked =
          rw unlocked
            (reject-locks c d u (login_name pl q.username) q.remote_address db active limit)
