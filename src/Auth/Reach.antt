-- ===== src/Auth/Reach.antt =====
-- The store as a transition system: every call that commits is a step from the empty tables.
use querix_semantic_search.Prelude.{
  ℕ, ◌+◌, ◌<◌, ◌≡◌, Bool, Option, some, [], arith, All-find, ok, Text,
}
use querix_semantic_search.Auth.Types.{
  Platform, Role, User, Session, Db, Config, Principal, Portal, at, seconds, session_policy,
}
use querix_semantic_search.Auth.Login.{LoginRequest, Draw, authenticate, has_hash}
use querix_semantic_search.Auth.Sessions.{
  join_row, resolve_session, revoke_session, prune_expired_sessions,
}
use querix_semantic_search.Auth.Accounts.{create_user, set_password, set_active}
use querix_semantic_search.Auth.Validity.{SessionOk, IsValid}
use querix_semantic_search.Auth.LoginValidity.{authenticate-IsValid}
use querix_semantic_search.Auth.Resolved.{resolve_session_sound}
use querix_semantic_search.Auth.Kept.{
  join_row-finds, resolve_session-IsValid, revoke_session-IsValid, prune_expired_sessions-IsValid,
}
use querix_semantic_search.Auth.KeptAccounts.{
  create_user-IsValid, set_password-IsValid, set_active-IsValid,
}

pub data Step (pl : Platform) (c : Config) (db : Db) : Db → Type 0 where
  creates :
      (now : ℕ) (user_id salt username password : Text) (role : Role) (company_id : Option Text)
      (db' : Db) (u : User)
      → create_user pl c now user_id salt username password role company_id db ≡ ok (db', u)
      → Step pl c db db'
  sets_password :
      (now : ℕ) (salt username password : Text) (company_id : Option Text) (db' : Db)
      → set_password pl c now salt username password company_id db ≡ ok db'
      → Step pl c db db'
  sets_active :
      (now : ℕ) (username : Text) (active : Bool) (company_id : Option Text) (db' : Db)
      → set_active pl now username active company_id db ≡ ok db'
      → Step pl c db db'
  authenticates :
      (d : Draw) (q : LoginRequest) (db' : Db) (o : Option (Text × Principal))
      → authenticate pl c d q db ≡ ok (db', o)
      → Step pl c db db'
  resolves :
      (now : ℕ) (token : Option Text) (wanted : Option Portal) (db' : Db) (p : Option Principal)
      → resolve_session pl c now token wanted db ≡ ok (db', p)
      → Step pl c db db'
  revokes :
      (now event_now : ℕ) (token : Option Text) (wanted : Option Portal) (remote : Option Text)
      → Step pl c db (revoke_session pl now event_now token wanted remote db)
  prunes : (now : ℕ) → Step pl c db (prune_expired_sessions now db).0

abbrev pub empty_db : Db
empty_db = record { users = []; sessions = []; events = [] }

pub data Reach (pl : Platform) (c : Config) : Db → Type 0 where
  start : Reach pl c empty_db
  next : (db db' : Db) → Reach pl c db → Step pl c db db' → Reach pl c db'

module _ (pl : Platform) (c : Config) (positive : 0 < c.max_login_attempts) where
  pub Step-IsValid : (db db' : Db) → IsValid c db → Step pl c db db' → IsValid c db'
  Step-IsValid db db' v (creates now id salt name password role co _ u e) =
      create_user-IsValid pl c now id salt name password role co db positive v e
  Step-IsValid db db' v (sets_password now salt name password co _ e) =
      set_password-IsValid pl c now salt name password co db positive v e
  Step-IsValid db db' v (sets_active now name active co _ e) =
      set_active-IsValid pl c now name active co db v e
  Step-IsValid db db' v (authenticates d q _ o e) = authenticate-IsValid pl c positive d q db v e
  Step-IsValid db db' v (resolves now token wanted _ p e) =
      resolve_session-IsValid pl c now token wanted db v e
  Step-IsValid db db' v (revokes now event_now token wanted remote) =
      revoke_session-IsValid pl c now event_now token wanted remote db v
  Step-IsValid db db' v (prunes now) = prune_expired_sessions-IsValid c now db v

  -- With a positive attempt limit, every reachable state of the tables has distinct user ids and
  -- session hashes; each internal account has no company and each company account one; an account
  -- at the attempt limit has a lock; and each session is of its role's portal and ends within its
  -- role's absolute lifetime after the login.
  pub Reach-IsValid : (db : Db) → Reach pl c db → IsValid c db
  Reach-IsValid db start = record {
    users_distinct = tt;
    sessions_distinct = tt;
    users_ok = tt;
    sessions_ok = tt;
  }
  Reach-IsValid db (next before _ r s) = Step-IsValid before db (Reach-IsValid before r) s

within :
    (c : Config) (now absolute : ℕ) (s : Session)
    → SessionOk c s
    → s.absolute_expires_at ≡ at absolute
    → now < absolute
    → (p : Portal) × (idle : ℕ) × (lifetime : ℕ) × (session_policy c s.role
        ≡ ok (p, idle, lifetime))
      × (s.portal_type ≡ p)
      × (now < s.created_at + seconds lifetime)
within c now absolute s k e h = (
  k.portal,
  k.idle_seconds,
  k.absolute_seconds,
  k.policy,
  k.portal_fits,
  ground (arith, k.lifetime, k.absolute_stamp, e),
)

-- In a reachable state, with a positive attempt limit, a token that resolves at `now` belongs to a
-- session that is of its role's portal and was opened less than the role's absolute lifetime ago,
-- however often it was resolved before.
pub session_lifetime :
    (pl : Platform) (c : Config) (now : ℕ) (token : Text) (wanted : Option Portal) (db db' : Db)
    (p : Principal)
    → 0 < c.max_login_attempts
    → Reach pl c db
    → resolve_session pl c now (some token) wanted db ≡ ok (db', some p)
    → (s : Session) × (u : User) × (join_row (pl.sha256_hex token) db ≡ some (s, u))
      × (portal : Portal) × (idle : ℕ) × (lifetime : ℕ) × (session_policy c s.role
          ≡ ok (portal, idle, lifetime))
      × (s.portal_type ≡ portal)
      × (now < s.created_at + seconds lifetime)
session_lifetime pl c now token wanted db db' p positive r e =
    let (s, u, idle, absolute, _, joined, live, _, _, _) =
      resolve_session_sound pl c now token wanted db db' e in
    let v = Reach-IsValid pl c positive db r in
    let (found, _) = join_row-finds (pl.sha256_hex token) db joined in
    let k =
      All-find (SessionOk c) (has_hash (pl.sha256_hex token)) db.sessions v.sessions_ok found in
    let (portal, idle_seconds, lifetime, policy, fits, ends) =
      within c now absolute s k live.absolute_stamp live.before_absolute in
    (s, u, joined, portal, idle_seconds, lifetime, policy, fits, ends)
