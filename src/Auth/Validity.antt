-- ===== src/Auth/Validity.antt =====
-- The invariant of the tables, and the writes that keep it.
use querix_semantic_search.Prelude.{
  ℕ, ◌+◌, ◌≤◌, ◌<◌, ◌≡◌, refl, sym, ◌∙◌, ◌≢◌, Bool, true, Option, none, some, arith, min,
  update_where, All, All-update_where, ok, Text, Distinct, Distinct-update_where,
}
use querix_semantic_search.Auth.Types.{
  Role, internal_admin, company_user, at, User, Session, Db, Config, seconds, session_policy,
  Portal,
}
use querix_semantic_search.Auth.Login.{is_user, lock_for, set_failures}
use querix_semantic_search.Auth.Sessions.{slide, revoke}

-- The table's check: an internal account has no company, a company account has one.
abbrev pub Bound : Role → Option Text → Type 0
Bound internal_admin none = Unit
Bound company_user (some _) = Unit
Bound _ _ = ⊥

pub record UserOk (c : Config) (u : User) : Type 0 where
  pub bound : Bound u.role u.company_id
  -- An account at the limit has a lock, running or past.
  pub locked : c.max_login_attempts ≤ u.failed_attempts → u.locked_until ≢ none

-- The deadlines of a session: it idles out no later than it ends, and ends within the lifetime
-- that its role has, counted from the login.
pub record SessionOk (c : Config) (s : Session) : Type 0 where
  pub idle : ℕ
  pub absolute : ℕ
  pub portal : Portal
  pub idle_seconds : ℕ
  pub absolute_seconds : ℕ
  pub idle_stamp : s.idle_expires_at ≡ at idle
  pub absolute_stamp : s.absolute_expires_at ≡ at absolute
  pub policy : session_policy c s.role ≡ ok (portal, idle_seconds, absolute_seconds)
  pub portal_fits : s.portal_type ≡ portal
  pub lifetime : absolute ≤ s.created_at + seconds absolute_seconds
  pub expires : s.expires_at ≤ absolute

pub record IsValid (c : Config) (db : Db) : Type 0 where
  pub users_distinct : Distinct (λ (u : User). u.user_id) db.users
  pub sessions_distinct : Distinct (λ (s : Session). s.session_hash) db.sessions
  pub users_ok : All (UserOk c) db.users
  pub sessions_ok : All (SessionOk c) db.sessions

module _ (c : Config) where
  -- A write to some users that keeps their ids and is sound on each.
  pub IsValid-users :
      (id : Text) (f : User → User) (db db' : Db)
      → ((u : User) → (f u).user_id ≡ u.user_id)
      → ((u : User) → UserOk c u → UserOk c (f u))
      → IsValid c db
      → db'.users ≡ update_where (is_user id) f db.users
      → db'.sessions ≡ db.sessions
      → IsValid c db'
  IsValid-users id f db db' same sound v eu es = record {
    users_distinct = rw eu (
        Distinct-update_where (λ (u : User). u.user_id) (is_user id) f db.users same
          v.users_distinct);
    sessions_distinct = rw es v.sessions_distinct;
    users_ok =
        rw eu (All-update_where (UserOk c) (is_user id) f db.users (λ u _ k. sound u k) v.users_ok);
    sessions_ok = rw es v.sessions_ok;
  }

  pub IsValid-sessions :
      (q : Session → Bool) (f : Session → Session) (db db' : Db)
      → ((s : Session) → (f s).session_hash ≡ s.session_hash)
      → ((s : Session) → q s ≡ true → SessionOk c s → SessionOk c (f s))
      → IsValid c db
      → db'.users ≡ db.users
      → db'.sessions ≡ update_where q f db.sessions
      → IsValid c db'
  IsValid-sessions q f db db' same sound v eu es = record {
    users_distinct = rw eu v.users_distinct;
    sessions_distinct = rw es (
        Distinct-update_where (λ (s : Session). s.session_hash) q f db.sessions same
          v.sessions_distinct);
    users_ok = rw eu v.users_ok;
    sessions_ok = rw es (All-update_where (SessionOk c) q f db.sessions sound v.sessions_ok);
  }

  pub UserOk-set_failures :
      (attempts now : ℕ) (u : User)
      → UserOk c u
      → UserOk c (set_failures attempts (lock_for c now attempts) now u)
  unfolding lock_for
  UserOk-set_failures attempts now u k = record { bound = k.bound; locked = λ h e. ground arith }

  pub UserOk-cleared :
      (u u' : User)
      → 0 < c.max_login_attempts
      → u'.role ≡ u.role
      → u'.company_id ≡ u.company_id
      → u'.failed_attempts ≡ 0
      → UserOk c u
      → UserOk c u'
  UserOk-cleared u u' pos r co z k = record {
    bound = rw (r, co) k.bound;
    locked = λ h. absurd (omega arith);
  }

  pub UserOk-same :
      (u u' : User)
      → u'.role ≡ u.role
      → u'.company_id ≡ u.company_id
      → u'.failed_attempts ≡ u.failed_attempts
      → u'.locked_until ≡ u.locked_until
      → UserOk c u
      → UserOk c u'
  UserOk-same u u' r co n l k = record {
    bound = rw (r, co) k.bound;
    locked = λ h e. k.locked (omega arith) (sym l ∙ e);
  }

  -- A slid session still ends when it did.
  pub SessionOk-slide :
      (now idle_seconds absolute : ℕ) (s : Session)
      → s.absolute_expires_at ≡ at absolute
      → SessionOk c s
      → SessionOk c (slide now idle_seconds absolute s)
  unfolding slide
  SessionOk-slide now idle_seconds absolute s e k = record {
    idle = min (now + seconds idle_seconds) absolute;
    absolute = k.absolute;
    portal = k.portal;
    idle_seconds = k.idle_seconds;
    absolute_seconds = k.absolute_seconds;
    idle_stamp = refl;
    absolute_stamp = k.absolute_stamp;
    policy = k.policy;
    portal_fits = k.portal_fits;
    lifetime = k.lifetime;
    expires = ground (arith, e, k.absolute_stamp);
  }

  pub SessionOk-revoke : (now : ℕ) (s : Session) → SessionOk c s → SessionOk c (revoke now s)
  SessionOk-revoke now s k = record {
    idle = k.idle;
    absolute = k.absolute;
    portal = k.portal;
    idle_seconds = k.idle_seconds;
    absolute_seconds = k.absolute_seconds;
    idle_stamp = k.idle_stamp;
    absolute_stamp = k.absolute_stamp;
    policy = k.policy;
    portal_fits = k.portal_fits;
    lifetime = k.lifetime;
    expires = k.expires;
  }
