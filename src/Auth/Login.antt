-- ===== src/Auth/Login.antt =====
-- `authenticate` of src/analytics_service/auth.py, one transaction: the tables after the commit
-- and the new session, or the exception, which leaves the tables as they were.
use querix_semantic_search.Prelude.{
  ℕ, ◌+◌, Bool, true, false, not, ◌&&◌, Option, none, some, List, [], ◌∷◌, ◌++◌, ltb, leb,
  if◌then◌else◌, min, take, keep, any, update_where, Result, ok, err, ◌>>=◌, Text, text_eq,
}
use querix_semantic_search.Auth.Types.{
  Platform, AuthError, unsupported_required_role, company_needs_role, integrity_error, Role,
  company_user, Portal, EventType, login_rejected, account_locked, login_success, Stamp, at,
  garbled, User, Session, Event, Db, Config, Principal, seconds, max_age_seconds, role_eq,
  is_valid_role, company_eq, session_policy,
}
use querix_semantic_search.Auth.Passwords.{
  normalize_username, normalize_company, password_hash, verify_password, password_needs_rehash,
}

pub record LoginRequest : Type 0 where
  pub username : Text
  pub password : Text
  pub required_role : Option Role
  pub required_company_id : Option Text
  pub remote_address : Option Text

-- What a call draws from outside: the clock, read once more for the event, a token, a salt.
pub record Draw : Type 0 where
  pub now : ℕ
  pub event_now : ℕ
  pub token : Text
  pub salt : Text

-- The guards before the transaction: the normalised company.
unfoldable pub check_request : Platform → LoginRequest → Result AuthError (Option Text)
check_request pl q =
    if (elim q.required_role [ none ↦ false | some r ↦ not (is_valid_role r) ])
    then err unsupported_required_role
    else elim (normalize_company pl q.required_company_id) [
      | none ↦ ok none
      | some c ↦
          if (elim q.required_role [ none ↦ false | some r ↦ role_eq r company_user ])
          then ok (some c)
          else err company_needs_role
    ]

-- A name that does not normalise selects no row by the empty name.
abbrev pub login_name : Platform → Text → Text
login_name pl username = elim (normalize_username pl username) [ ok n ↦ n | err _ ↦ [] ]

-- The `WHERE` clauses of the query.
unfoldable pub selects : Text → Option Role → Option Text → User → Bool
selects name required_role company u =
    text_eq u.username_normalized name
    && ((elim required_role [ none ↦ true | some r ↦ role_eq u.role r ])
        && (elim company [ none ↦ true | some c ↦ company_eq u.company_id (some c) ]))

-- `rows[0] if len(rows) == 1 else None`.
abbrev pub only {ℓ} : {A : Type ℓ} → List A → Option A
only (x ∷ []) = some x
only _ = none

unfoldable pub select_row : Text → Option Role → Option Text → List User → Option User
unfolding selects
select_row name required_role company users = only (keep (selects name required_role company) users)

-- A lock that cannot be read holds.
unfoldable pub is_locked : ℕ → Option Stamp → Bool
is_locked now none = false
is_locked now (some (at t)) = ltb now t
is_locked now (some (garbled _)) = true

abbrev pub is_user : Text → User → Bool
is_user id u = text_eq u.user_id id

-- The lock that the given count of failures sets.
unfoldable pub lock_for : Config → ℕ → ℕ → Option Stamp
lock_for c now attempts =
    if leb c.max_login_attempts attempts then some (at (now + seconds c.lock_seconds)) else none

-- The `UPDATE` of a wrong password.
abbrev pub set_failures : ℕ → Option Stamp → ℕ → User → User
set_failures attempts lock now u = record u {
  failed_attempts = attempts;
  locked_until = lock;
  updated_at = now;
}

abbrev pub failure_event : Config → User → EventType
failure_event c u =
    if leb c.max_login_attempts (u.failed_attempts + 1) then account_locked else login_rejected

-- `_event`.
unfoldable pub event_of : ℕ → Option User → Text → EventType → Option Text → Event
event_of now row name kind remote = record {
  user_id = elim row [ none ↦ none | some u ↦ some u.user_id ];
  username_normalized = name;
  company_id = elim row [ none ↦ none | some u ↦ u.company_id ];
  event_type = kind;
  remote_address = take 191 (elim remote [ none ↦ [] | some a ↦ a ]);
  created_at = now;
}

-- The rejecting branch. Only a wrong password on an active, unlocked account is counted.
unfoldable pub reject : Config → Draw → Option User → Bool → Bool → Text → Option Text → Db → Db
unfolding lock_for event_of
reject c d none locked verified name remote db = record db {
  events = db.events ++ event_of d.event_now none name login_rejected remote ∷ [];
}
reject c d (some u) locked verified name remote db =
    if not locked && (u.active && not verified)
    then record db {
      users =
          update_where (is_user u.user_id)
            (set_failures (u.failed_attempts + 1) (lock_for c d.now (u.failed_attempts + 1)) d.now)
            db.users;
      events = db.events ++ event_of d.event_now (some u) name (failure_event c u) remote ∷ [];
    }
    else record db {
      events = db.events ++ event_of d.event_now (some u) name login_rejected remote ∷ [];
    }

abbrev pub set_hash : Text → ℕ → User → User
set_hash h now u = record u { password_hash = h; password_changed_at = now }

-- The hash that the account keeps: a new one if the stored one is stale.
unfoldable pub rehash : Platform → Draw → Text → User → List User → Result AuthError (List User)
rehash pl d password u users =
    if password_needs_rehash u.password_hash
    then (do
      h ← password_hash pl d.salt password
      ok (update_where (is_user u.user_id) (set_hash h d.now) users))
    else ok users

abbrev pub clear_failures : ℕ → User → User
clear_failures now u = record u {
  failed_attempts = 0;
  locked_until = none;
  last_login_at = some now;
  updated_at = now;
}

unfoldable pub new_session : Platform → Draw → User → Portal → ℕ → ℕ → Session
new_session pl d u portal idle_seconds absolute_seconds = record {
  session_hash = pl.sha256_hex d.token;
  user_id = u.user_id;
  portal_type = portal;
  role = u.role;
  company_id = u.company_id;
  created_at = d.now;
  expires_at = min (d.now + seconds idle_seconds) (d.now + seconds absolute_seconds);
  last_seen_at = d.now;
  idle_expires_at = at (d.now + seconds idle_seconds);
  absolute_expires_at = at (d.now + seconds absolute_seconds);
  revoked_at = none;
}

abbrev pub has_hash : Text → Session → Bool
has_hash h s = text_eq s.session_hash h

-- `INSERT INTO analytics_sessions`, whose key is the hash.
unfoldable pub insert_session : Session → List Session → Result AuthError (List Session)
insert_session s sessions =
    if any (has_hash s.session_hash) sessions then err integrity_error else ok (sessions ++ s ∷ [])

unfoldable pub principal_of : ℕ → User → Portal → ℕ → Principal
unfolding max_age_seconds
principal_of now u portal expires_at = record {
  user_id = u.user_id;
  username = u.username;
  role = u.role;
  company_id = u.company_id;
  portal_type = portal;
  session_expires_at = expires_at;
  session_max_age_seconds = max_age_seconds expires_at now;
}

-- The accepting branch.
unfoldable pub accept :
    Platform
    → Config
    → Draw
    → User
    → Text
    → Text
    → Option Text
    → Db
    → Result AuthError (Db × Option (Text × Principal))
unfolding rehash new_session insert_session principal_of event_of
accept pl c d u password name remote db = do
  users ← rehash pl d password u db.users
  (portal, idle_seconds, absolute_seconds) ← session_policy c u.role
  let s = new_session pl d u portal idle_seconds absolute_seconds
  sessions ← insert_session s db.sessions
  ok (
    record {
      users = update_where (is_user u.user_id) (clear_failures d.now) users;
      sessions = sessions;
      events = db.events ++ event_of d.event_now (some u) name login_success remote ∷ [];
    },
    some (d.token, principal_of d.now u portal s.expires_at),
  )

-- The account may log in now.
unfoldable pub may_login : ℕ → Option Role → Bool → User → Bool
may_login now required_role verified u =
    u.active
    && (not (is_locked now u.locked_until)
        && (verified && (elim required_role [ none ↦ true | some r ↦ role_eq u.role r ])))

-- The transaction, by the row that the query selects. `dummy` is the hash that an unknown name is
-- checked against; its verdict is not used.
unfoldable pub decide_login :
    Platform
    → Config
    → Draw
    → LoginRequest
    → Text
    → Option User
    → Db
    → Result AuthError (Db × Option (Text × Principal))
unfolding reject accept may_login is_locked
decide_login pl c d q name none db = ok (reject c d none false false name q.remote_address db, none)
decide_login pl c d q name (some u) db =
    let verified = verify_password pl u.password_hash q.password in
    let locked = is_locked d.now u.locked_until in
    if may_login d.now q.required_role verified u
    then accept pl c d u q.password name q.remote_address db
    else ok (reject c d (some u) locked verified name q.remote_address db, none)

unfoldable pub authenticate :
    Platform → Config → Draw → LoginRequest → Db → Result AuthError (Db × Option (Text × Principal))
unfolding check_request select_row decide_login
authenticate pl c d q db = do
  company ← check_request pl q
  let name = login_name pl q.username
  decide_login pl c d q name (select_row name q.required_role company db.users) db
