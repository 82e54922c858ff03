-- ===== src/Auth/Tests.antt =====
-- A run of the account store: an account is created, logs in, and uses its session.
use querix_semantic_search.Prelude.{
  ℕ, ◌+◌, ◌<◌, ◌≡◌, ◌↔◌, refl, true, none, some, [], ◌∷◌, ◌==◌, min, Result, ok, err, Text, codes,
  text_eq, arith, Distinct,
}
use querix_semantic_search.Auth.Types.{
  Platform, AuthError, company_user, Portal, company, User, Session, Db, Config, Principal, seconds,
  session_policy, role_eq, company_eq, portal_eq, is_valid_role,
}
use querix_semantic_search.Auth.Passwords.{
  normalize, normalize_username, verify_password, password_hash, validate_password,
  validate_binding, normalize_company, password_needs_rehash,
}
use querix_semantic_search.Auth.Login.{LoginRequest, Draw, authenticate, principal_of}
use querix_semantic_search.Auth.Sessions.{join_row, resolve_session, prune_expired_sessions}
use querix_semantic_search.Auth.Accounts.{create_user}
use querix_semantic_search.Auth.Validity.{IsValid}
use querix_semantic_search.Auth.Reach.{
  Reach, start, next, creates, authenticates, empty_db, Reach-IsValid, session_lifetime,
}
use querix_semantic_search.Auth.Resolved.{Live, resolve_session_sound}
use querix_semantic_search.Auth.RoundTrip.{login_resolves}
use querix_semantic_search.Auth.Pruning.{ResolvesTo, prune_unobservable}
use querix_semantic_search.Auth.Tenancy.{tenant_isolation, IsSoundLogin, authenticate_sound}

-- A platform on which a hash is the password itself.
abbrev pub pl : Platform
pl = record {
  is_space = λ c. c == b' ';
  fold_char = λ c. c ∷ [];
  parse_int = λ t. some 1;
  from_hex = λ t. some t;
  to_hex = λ t. t;
  sha256_hex = λ t. t;
  scrypt = λ password salt n r p size. some password;
}

abbrev pub config : Config
config = record {
  company_session_idle_seconds = 10;
  company_session_absolute_seconds = 30;
  internal_session_idle_seconds = 5;
  internal_session_absolute_seconds = 20;
  max_login_attempts = 1;
  lock_seconds = 60;
  password_min_length = 1;
}

abbrev pub user1 : User
user1 = record {
  user_id = codes "i";
  username = codes "u";
  username_normalized = codes "u";
  password_hash = codes "scrypt$32768$8$3$s$p";
  role = company_user;
  company_id = some (codes "c");
  active = true;
  failed_attempts = 0;
  locked_until = none;
  created_at = 0;
  updated_at = 0;
  password_changed_at = 0;
  last_login_at = none;
}

abbrev pub db1 : Db
db1 = record { users = user1 ∷ []; sessions = []; events = [] }

creates_user :
    create_user pl config 0
      (codes "i")
      (codes "s")
      (codes "u")
      (codes "p")
      company_user
      (some (codes "c"))
      empty_db
    ≡ ok (db1, user1)
unfolding create_user validate_password validate_binding password_hash normalize_username normalize
creates_user = refl

reach1 : Reach pl config db1
reach1 = next empty_db db1 start (
    creates 0 (codes "i") (codes "s") (codes "u") (codes "p") company_user (some (codes "c")) db1
      user1 creates_user)

Reach-IsValid_example : IsValid config db1
Reach-IsValid_example = Reach-IsValid pl config (omega arith) db1 reach1

abbrev pub draw : ℕ → Text → Draw
draw t token = record { now = t; event_now = t; token = token; salt = codes "s" }

abbrev pub login : Text → LoginRequest
login password = record {
  username = codes "u";
  password = password;
  required_role = some company_user;
  required_company_id = some (codes "c");
  remote_address = none;
}

abbrev pub principal : ℕ → ℕ → Principal
principal expires age = record {
  user_id = codes "i";
  username = codes "u";
  role = company_user;
  company_id = some (codes "c");
  portal_type = company;
  session_expires_at = expires;
  session_max_age_seconds = age;
}

abbrev pub state {ℓ} : {A : Type ℓ} → Db → Result AuthError (Db × A) → Db
state db (ok r) = r.0
state db (err e) = db

abbrev pub db2 : Db
db2 = state db1 (authenticate pl config (draw 100 (codes "t")) (login (codes "p")) db1)

logs_in :
    authenticate pl config (draw 100 (codes "t")) (login (codes "p")) db1
    ≡ ok (db2, some (codes "t", principal 10_000_100 10))
unfolding authenticate verify_password is_valid_role role_eq company_eq text_eq normalize_username
    normalize_company session_policy password_needs_rehash normalize
logs_in = refl

reach2 : Reach pl config db2
reach2 = next db1 db2 reach1 (
    authenticates (draw 100 (codes "t")) (login (codes "p")) db2
      (some (codes "t", principal 10_000_100 10)) logs_in)

authenticate_sound_example :
    IsSoundLogin pl
      (draw 100 (codes "t"))
      (login (codes "p"))
      db1
      (codes "t")
      (principal 10_000_100 10)
authenticate_sound_example =
    authenticate_sound pl config (draw 100 (codes "t")) (login (codes "p")) db1 db2 (codes "t")
      (principal 10_000_100 10) logs_in

tenant_isolation_example :
    (company_user ≡ company_user)
    × (some (codes "c") ≡ some (normalize pl (codes "c")))
    × (company ≡ company)
tenant_isolation_example =
    tenant_isolation pl config (draw 100 (codes "t")) (login (codes "p")) db1 db2 b'c' []
      (codes "t") (principal 10_000_100 10) refl logs_in

login_resolves_example :
    (db3 : Db) × (p' : Principal) × (resolve_session pl config 200
        (some (codes "t"))
        (some company)
        db2
      ≡ ok (db3, some p'))
    × (p'.user_id ≡ codes "i")
    × (p'.role ≡ company_user)
    × (p'.company_id ≡ some (codes "c"))
    × (p'.portal_type ≡ company)
login_resolves_example =
    login_resolves pl config (draw 100 (codes "t")) (login (codes "p")) db1 db2 b't' []
      (principal 10_000_100 10) 200 (some company) (refl, tt) logs_in refl (omega arith)

abbrev db3 : Db
db3 = state db2 (resolve_session pl config 200 (some (codes "t")) (some company) db2)

resolves_again :
    resolve_session pl config 200 (some (codes "t")) (some company) db2
    ≡ ok (db3, some (principal 10_000_200 10))
unfolding authenticate verify_password is_valid_role role_eq company_eq text_eq normalize_username
    normalize_company session_policy password_needs_rehash normalize resolve_session portal_eq
resolves_again = refl

resolve_session_sound_example :
    (s : Session) × (u : User) × (idle : ℕ) × (absolute : ℕ) × (idle_seconds : ℕ) × (join_row
        (codes "t")
        db2
      ≡ some (s, u))
    × Live 200 (some company) s u idle absolute
    × (lifetime : ℕ) × (session_policy config u.role ≡ ok (s.portal_type, idle_seconds, lifetime))
    × (principal 10_000_200 10
        ≡ principal_of 200 u s.portal_type (min (200 + seconds idle_seconds) absolute))
resolve_session_sound_example =
    resolve_session_sound pl config 200 (codes "t") (some company) db2 db3 resolves_again

session_lifetime_example :
    (s : Session) × (u : User) × (join_row (codes "t") db2 ≡ some (s, u))
    × (portal : Portal) × (idle : ℕ) × (lifetime : ℕ) × (session_policy config s.role
        ≡ ok (portal, idle, lifetime))
    × (s.portal_type ≡ portal)
    × (200 < s.created_at + seconds lifetime)
session_lifetime_example =
    session_lifetime pl config 200 (codes "t") (some company) db2 db3 (principal 10_000_200 10)
      (omega arith) reach2 resolves_again

one_session : Distinct (λ (s : Session). s.session_hash) db2.sessions
unfolding authenticate verify_password is_valid_role role_eq company_eq text_eq normalize_username
    normalize_company session_policy password_needs_rehash normalize
one_session = (refl, tt)

prune_unobservable_example :
    ResolvesTo pl config 200 (codes "t") (some company) db2 (principal 10_000_200 10)
    ↔ ResolvesTo pl config 200
        (codes "t")
        (some company)
        (prune_expired_sessions 150 db2).0
        (principal 10_000_200 10)
prune_unobservable_example =
    prune_unobservable pl config 150 200 (codes "t") (some company) db2 (principal 10_000_200 10)
      one_session (omega arith)
