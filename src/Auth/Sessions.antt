-- ===== src/Auth/Sessions.antt =====
-- `resolve_session`, `revoke_session` and `prune_expired_sessions` of
-- src/analytics_service/auth.py.
use querix_semantic_search.Prelude.{
  ℕ, ◌+◌, Bool, true, false, not, ◌&&◌, ◌||◌, Option, none, some, [], ◌∷◌, ◌++◌, ltb, leb,
  if◌then◌else◌, min, is_none, keep, count, find, update_where, Result, ok, ◌>>=◌, Text,
}
use querix_semantic_search.Auth.Types.{
  Platform, AuthError, Portal, logout, Stamp, at, garbled, User, Session, Db, Config, Principal,
  seconds, role_eq, portal_eq, company_eq, session_policy,
}
use querix_semantic_search.Auth.Login.{is_user, has_hash, event_of, principal_of}

-- The join of a session with its user.
unfoldable pub join_row : Text → Db → Option (Session × User)
join_row digest db = elim (find (has_hash digest) db.sessions) [
  | none ↦ none
  | some s ↦ elim (find (is_user s.user_id) db.users) [ none ↦ none | some u ↦ some (s, u) ]
]

-- The first guard: the account is active, the session is not revoked, and the account still has
-- the role and the company that the session was opened with.
unfoldable pub binding_holds : Session → User → Bool
binding_holds s u =
    u.active
    && (is_none s.revoked_at && (role_eq s.role u.role && company_eq s.company_id u.company_id))

-- The second guard: the right portal, and neither deadline reached.
unfoldable pub is_fresh : Option Portal → Portal → ℕ → ℕ → ℕ → Session → Bool
is_fresh wanted expected idle absolute now s =
    portal_eq s.portal_type expected
    && ((elim wanted [ none ↦ true | some p ↦ portal_eq s.portal_type p ])
        && (ltb now idle && ltb now absolute))

-- The `UPDATE` that slides the idle deadline, never past the absolute one.
unfoldable pub slide : ℕ → ℕ → ℕ → Session → Session
slide now idle_seconds absolute s =
    let idle = min (now + seconds idle_seconds) absolute in
    record s { last_seen_at = now; idle_expires_at = at idle; expires_at = min idle absolute }

-- `datetime.fromisoformat`; `none` is a `ValueError`.
abbrev pub read_stamp : Stamp → Option ℕ
read_stamp (at t) = some t
read_stamp (garbled _) = none

unfoldable pub admit :
    Config
    → ℕ
    → Option Portal
    → Text
    → Session
    → User
    → ℕ
    → ℕ
    → Db
    → Result AuthError (Db × Option Principal)
unfolding is_fresh slide principal_of
admit c now wanted digest s u idle absolute db = do
  (expected, idle_seconds, _) ← session_policy c u.role
  if is_fresh wanted expected idle absolute now s
      then ok (
        record db {
          sessions = update_where (has_hash digest) (slide now idle_seconds absolute) db.sessions;
        },
        some (principal_of now u s.portal_type (slide now idle_seconds absolute s).expires_at),
      )
      else ok (db, none)

unfoldable pub resolve_row :
    Config
    → ℕ
    → Option Portal
    → Text
    → Session
    → User
    → Db
    → Result AuthError (Db × Option Principal)
unfolding binding_holds admit
resolve_row c now wanted digest s u db =
    if binding_holds s u
    then elim (read_stamp s.idle_expires_at) [
      | none ↦ ok (db, none)
      | some idle ↦ elim (read_stamp s.absolute_expires_at) [
        | none ↦ ok (db, none)
        | some absolute ↦ admit c now wanted digest s u idle absolute db
      ]
    ]
    else ok (db, none)

unfoldable pub resolve_digest :
    Config → ℕ → Option Portal → Text → Db → Result AuthError (Db × Option Principal)
unfolding join_row resolve_row
resolve_digest c now wanted digest db = elim (join_row digest db) [
  | none ↦ ok (db, none)
  | some (s, u) ↦ resolve_row c now wanted digest s u db
]

-- `resolve_session`; no token, or an empty one, resolves to nothing.
unfoldable pub resolve_session :
    Platform
    → Config
    → ℕ
    → Option Text
    → Option Portal
    → Db
    → Result AuthError (Db × Option Principal)
unfolding resolve_digest
resolve_session pl c now (some (t ∷ token)) wanted db =
    resolve_digest c now wanted (pl.sha256_hex (t ∷ token)) db
resolve_session pl c now _ wanted db = ok (db, none)

abbrev pub revoke : ℕ → Session → Session
revoke now s = record s { revoked_at = some now }

abbrev pub is_live_hash : Text → Session → Bool
is_live_hash digest s = has_hash digest s && is_none s.revoked_at

abbrev pub portal_differs : Option Portal → Session → Bool
portal_differs none s = false
portal_differs (some p) s = not (portal_eq s.portal_type p)

-- The revoking `UPDATE` and, for a known row, the event.
unfoldable pub revoke_digest : ℕ → ℕ → Text → Option (Session × User) → Option Text → Db → Db
unfolding event_of
revoke_digest now event_now digest none remote db = record db {
  sessions = update_where (is_live_hash digest) (revoke now) db.sessions;
}
revoke_digest now event_now digest (some (s, u)) remote db = record db {
  sessions = update_where (is_live_hash digest) (revoke now) db.sessions;
  events = db.events ++ event_of event_now (some u) u.username_normalized logout remote ∷ [];
}

-- A session of another portal than the one that asks is left alone.
unfoldable pub revoke_joined :
    ℕ → ℕ → Text → Option Portal → Option (Session × User) → Option Text → Db → Db
unfolding revoke_digest
revoke_joined now event_now digest wanted none remote db =
    revoke_digest now event_now digest none remote db
revoke_joined now event_now digest wanted (some (s, u)) remote db =
    if portal_differs wanted s
    then db
    else revoke_digest now event_now digest (some (s, u)) remote db

unfoldable pub revoke_session :
    Platform → ℕ → ℕ → Option Text → Option Portal → Option Text → Db → Db
unfolding join_row revoke_joined
revoke_session pl now event_now (some (t ∷ token)) wanted remote db =
    let digest = pl.sha256_hex (t ∷ token) in
    revoke_joined now event_now digest wanted (join_row digest db) remote db
revoke_session pl now event_now _ wanted remote db = db

-- `column <= ?`, on the texts.
unfoldable pub sorts_le : Stamp → ℕ → Bool
sorts_le (at t) now = leb t now
sorts_le (garbled p) now = leb p now

unfoldable pub is_prunable : ℕ → Session → Bool
unfolding sorts_le
is_prunable now s =
    sorts_le s.idle_expires_at now
    || (sorts_le s.absolute_expires_at now || not (is_none s.revoked_at))

-- The tables after the `DELETE`, and the number of rows deleted.
unfoldable pub prune_expired_sessions : ℕ → Db → Db × ℕ
unfolding is_prunable
prune_expired_sessions now db = (
  record db { sessions = keep (λ s. not (is_prunable now s)) db.sessions },
  count (is_prunable now) db.sessions,
)
