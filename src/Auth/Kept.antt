-- ===== src/Auth/Kept.antt =====
-- Every operation on the tables keeps the invariant.
use querix_semantic_search.Prelude.{
  ℕ, ◌≡◌, refl, sym, ap, ◌∙◌, inl, inr, true, Option, none, some, [], ◌∷◌, arith, Bool-cases, find,
  All-keep, All-update_where_given, ok, ok-injective, Text, Distinct-update_where, Distinct-keep,
  find_unique, Option-cases,
}
use mathlib.Core.Path.{subst}
use querix_semantic_search.Auth.Types.{Platform, at, User, Session, Db, Config, Principal, Portal}
use querix_semantic_search.Auth.Login.{is_user, has_hash}
use querix_semantic_search.Auth.Sessions.{
  join_row, slide, resolve_session, revoke, is_live_hash, revoke_digest, revoke_joined,
  revoke_session, prune_expired_sessions, portal_differs,
}
use querix_semantic_search.Auth.Validity.{
  SessionOk, IsValid, IsValid-sessions, SessionOk-slide, SessionOk-revoke,
}
use querix_semantic_search.Auth.Resolved.{Resolved, resolve_digest-cases}

-- The join finds the session by its hash, and the user by the session.
pub join_row-finds :
    (digest : Text) (db : Db) {s : Session} {u : User}
    → join_row digest db ≡ some (s, u)
    → (find (has_hash digest) db.sessions ≡ some s) × (find (is_user s.user_id) db.users ≡ some u)
unfolding join_row
join_row-finds digest db {s} {u} e = elim (Option-cases (find (has_hash digest) db.sessions)) [
  | inl missing ↦ absurd (let e' = (rw (join_row, missing) at e) in cc)
  | inr (s', found) ↦ elim (Option-cases (find (is_user s'.user_id) db.users)) [
    | inl orphan ↦ absurd (let e' = (rw (join_row, found, orphan) at e) in cc)
    | inr (u', owner) ↦
        let e' : some (s', u') ≡ some (s, u) = (rw (join_row, found, owner) at e) in
        let es : s' ≡ s = (ground (arith, e')) in
        let eu : u' ≡ u = (ground (arith, e')) in
        (
          found ∙ ap some es,
          subst (λ (x : Session). find (is_user x.user_id) db.users ≡ some u) es
              (owner ∙ ap some eu),
        )
  ]
]

-- A write that leaves both tables of the invariant alone.
IsValid-same :
    (c : Config) (db db' : Db)
    → IsValid c db
    → db'.users ≡ db.users
    → db'.sessions ≡ db.sessions
    → IsValid c db'
IsValid-same c db db' v eu es = record {
  users_distinct = rw eu v.users_distinct;
  sessions_distinct = rw es v.sessions_distinct;
  users_ok = rw eu v.users_ok;
  sessions_ok = rw es v.sessions_ok;
}

Resolved-IsValid :
    (c : Config) (now : ℕ) (wanted : Option Portal) (digest : Text) (db : Db)
    {r : Db × Option Principal}
    → IsValid c db
    → Resolved c now wanted digest db r
    → IsValid c r.0
unfolding slide
Resolved-IsValid c now wanted digest db v x =
    let f = slide now x.idle_seconds x.absolute in
    let (found, _) = join_row-finds digest db x.joined in
    let unique =
      find_unique (λ (s : Session). s.session_hash) digest db.sessions v.sessions_distinct found in
    rw x.result (record {
      users_distinct = v.users_distinct;
      sessions_distinct =
          Distinct-update_where (λ (s : Session). s.session_hash) (has_hash digest) f db.sessions
            (λ s. refl) v.sessions_distinct;
      users_ok = v.users_ok;
      sessions_ok =
          All-update_where_given (SessionOk c) (λ y. has_hash digest y ≡ true → y ≡ x.session)
            (has_hash digest) f db.sessions
            (λ y hit same k.
              SessionOk-slide c now x.idle_seconds x.absolute y
                (subst (λ (z : Session). z.absolute_expires_at ≡ at x.absolute) (sym (same hit))
                  x.absolute_stamp)
                k)
            unique v.sessions_ok;
    })

pub resolve_session-IsValid :
    (pl : Platform) (c : Config) (now : ℕ) (token : Option Text) (wanted : Option Portal) (db : Db)
    {r : Db × Option Principal}
    → IsValid c db
    → resolve_session pl c now token wanted db ≡ ok r
    → IsValid c r.0
unfolding resolve_session
resolve_session-IsValid pl c now none wanted db v e = rw (← ok-injective e) v
resolve_session-IsValid pl c now (some []) wanted db v e = rw (← ok-injective e) v
resolve_session-IsValid pl c now (some (t ∷ token)) wanted db v e =
    elim (resolve_digest-cases c now wanted (pl.sha256_hex (t ∷ token)) db e) [
      | inl refused ↦ rw refused v
      | inr x ↦ Resolved-IsValid c now wanted (pl.sha256_hex (t ∷ token)) db v x
    ]

revoke_digest-IsValid :
    (c : Config) (now event_now : ℕ) (digest : Text) (row : Option (Session × User))
    (remote : Option Text) (db : Db)
    → IsValid c db
    → IsValid c (revoke_digest now event_now digest row remote db)
unfolding revoke_digest
revoke_digest-IsValid c now event_now digest none remote db v =
    IsValid-sessions c (is_live_hash digest) (revoke now) db _ (λ s. refl)
      (λ s _ k. SessionOk-revoke c now s k) v refl refl
revoke_digest-IsValid c now event_now digest (some (s, u)) remote db v =
    IsValid-sessions c (is_live_hash digest) (revoke now) db _ (λ s. refl)
      (λ s _ k. SessionOk-revoke c now s k) v refl refl

revoke_joined-IsValid :
    (c : Config) (now event_now : ℕ) (digest : Text) (wanted : Option Portal)
    (row : Option (Session × User)) (remote : Option Text) (db : Db)
    → IsValid c db
    → IsValid c (revoke_joined now event_now digest wanted row remote db)
unfolding revoke_joined
revoke_joined-IsValid c now event_now digest wanted none remote db v =
    revoke_digest-IsValid c now event_now digest none remote db v
revoke_joined-IsValid c now event_now digest wanted (some (s, u)) remote db v =
    elim (Bool-cases (portal_differs wanted s)) [
      | inl other ↦ rw other v
      | inr same ↦ rw same (revoke_digest-IsValid c now event_now digest (some (s, u)) remote db v)
    ]

pub revoke_session-IsValid :
    (pl : Platform) (c : Config) (now event_now : ℕ) (token : Option Text) (wanted : Option Portal)
    (remote : Option Text) (db : Db)
    → IsValid c db
    → IsValid c (revoke_session pl now event_now token wanted remote db)
unfolding revoke_session
revoke_session-IsValid pl c now event_now none wanted remote db v = v
revoke_session-IsValid pl c now event_now (some []) wanted remote db v = v
revoke_session-IsValid pl c now event_now (some (t ∷ token)) wanted remote db v =
    let digest = pl.sha256_hex (t ∷ token) in
    revoke_joined-IsValid c now event_now digest wanted (join_row digest db) remote db v

pub prune_expired_sessions-IsValid :
    (c : Config) (now : ℕ) (db : Db) → IsValid c db → IsValid c (prune_expired_sessions now db).0
unfolding prune_expired_sessions
prune_expired_sessions-IsValid c now db v = record {
  users_distinct = v.users_distinct;
  sessions_distinct =
      Distinct-keep (λ (s : Session). s.session_hash) _ db.sessions v.sessions_distinct;
  users_ok = v.users_ok;
  sessions_ok = All-keep (SessionOk c) _ db.sessions v.sessions_ok;
}
