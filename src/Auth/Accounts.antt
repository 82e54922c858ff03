-- ===== src/Auth/Accounts.antt =====
-- `create_user`, `set_password` and `set_active` of src/analytics_service/auth.py.
use querix_semantic_search.Prelude.{
  ℕ, Bool, true, ◌&&◌, ◌||◌, Option, none, some, List, [], ◌∷◌, ◌++◌, ◌==◌, if◌then◌else◌, is_none,
  keep, any, count, update_where, Result, ok, err, ◌>>=◌, Text, text_eq,
}
use querix_semantic_search.Auth.Types.{
  Platform, AuthError, username_exists, unknown_user, ambiguous_user, Role, internal_admin, User,
  Session, Db, Config, role_eq, company_eq,
}
use querix_semantic_search.Auth.Passwords.{
  normalize, normalize_username, strip, password_hash, validate_password, validate_binding,
}
use querix_semantic_search.Auth.Login.{is_user}
use querix_semantic_search.Auth.Sessions.{revoke}

-- The unique indexes: an internal name, and a name within a company.
unfoldable pub clashes : User → User → Bool
clashes new old =
    text_eq old.user_id new.user_id
    || (text_eq old.username_normalized new.username_normalized
        && (role_eq old.role new.role
            && (role_eq new.role internal_admin || company_eq old.company_id new.company_id)))

unfoldable pub insert_user : User → List User → Result AuthError (List User)
unfolding clashes
insert_user u users = if any (clashes u) users then err username_exists else ok (users ++ u ∷ [])

unfoldable pub create_user :
    Platform
    → Config
    → ℕ
    → Text
    → Text
    → Text
    → Text
    → Role
    → Option Text
    → Db
    → Result AuthError (Db × User)
unfolding insert_user
create_user pl c now user_id salt username password role company_id db = do
  normalized ← normalize_username pl username
  company ← validate_binding pl role company_id
  _ ← validate_password c password
  encoded ← password_hash pl salt password
  let u : User = record {
    user_id = user_id;
    username = strip pl.is_space username;
    username_normalized = normalized;
    password_hash = encoded;
    role = role;
    company_id = company;
    active = true;
    failed_attempts = 0;
    locked_until = none;
    created_at = now;
    updated_at = now;
    password_changed_at = now;
    last_login_at = none;
  }
  users ← insert_user u db.users
  ok (record db { users = users }, u)

-- The rows that a name means: an internal account, or one of the company.
unfoldable pub named : Platform → Text → Option Text → User → Bool
named pl name none u = text_eq u.username_normalized name && role_eq u.role internal_admin
named pl name (some company) u =
    text_eq u.username_normalized name && company_eq u.company_id (some (normalize pl company))

abbrev pub only_id : List User → Result AuthError Text
only_id [] = err unknown_user
only_id (u ∷ []) = ok u.user_id
only_id _ = err ambiguous_user

-- `_resolve_user_id`.
unfoldable pub resolve_user_id : Platform → Text → Option Text → List User → Result AuthError Text
unfolding named
resolve_user_id pl name company users = only_id (keep (named pl name company) users)

abbrev pub of_user : Text → Session → Bool
of_user id s = text_eq s.user_id id && is_none s.revoked_at

-- The `UPDATE` that revokes the open sessions of an account.
unfoldable pub revoke_all : ℕ → Text → List Session → List Session
revoke_all now id sessions = update_where (of_user id) (revoke now) sessions

abbrev pub change_password : Text → ℕ → User → User
change_password encoded now u = record u {
  password_hash = encoded;
  password_changed_at = now;
  updated_at = now;
  failed_attempts = 0;
  locked_until = none;
}

unfoldable pub set_password :
    Platform → Config → ℕ → Text → Text → Text → Option Text → Db → Result AuthError Db
unfolding resolve_user_id revoke_all
set_password pl c now salt username password company db = do
  name ← normalize_username pl username
  _ ← validate_password c password
  encoded ← password_hash pl salt password
  id ← resolve_user_id pl name company db.users
  if count (is_user id) db.users == 1
      then ok (record db {
        users = update_where (is_user id) (change_password encoded now) db.users;
        sessions = revoke_all now id db.sessions;
      })
      else err unknown_user

abbrev pub change_active : Bool → ℕ → User → User
change_active active now u = record u { active = active; updated_at = now }

unfoldable pub set_active : Platform → ℕ → Text → Bool → Option Text → Db → Result AuthError Db
unfolding resolve_user_id revoke_all
set_active pl now username active company db = do
  name ← normalize_username pl username
  id ← resolve_user_id pl name company db.users
  if count (is_user id) db.users == 1
      then ok (record db {
        users = update_where (is_user id) (change_active active now) db.users;
        sessions = if active then db.sessions else revoke_all now id db.sessions;
      })
      else err unknown_user
