-- ===== src/Auth/Resolved.antt =====
-- What a session token must satisfy to resolve, and what resolving it writes.
use querix_semantic_search.Prelude.{
  ℕ, ◌+◌, ◌<◌, ◌≡◌, refl, sym, ap, ◌∙◌, ◌⊎◌, inl, inr, true, Option, none, some, [], ◌∷◌, arith,
  min, Bool-cases, update_where, Result, ok, >>=-eq-ok, ok-injective, Text,
}
use querix_semantic_search.Auth.Types.{
  Platform, AuthError, Stamp, at, garbled, User, Session, Db, Config, Principal, seconds,
  session_policy, Portal, role_eq_iff, company_eq_iff, portal_eq_iff,
}
use querix_semantic_search.Auth.Login.{has_hash, principal_of}
use querix_semantic_search.Auth.Sessions.{
  join_row, slide, admit, read_stamp, resolve_row, resolve_digest, resolve_session, binding_holds,
  is_fresh,
}

-- A successful `resolve_session`, by the joined row.
pub record Resolved (c : Config) (now : ℕ) (wanted : Option Portal) (digest : Text) (db : Db)
    (r : Db × Option Principal) : Type 0 where
  pub session : Session
  pub user : User
  pub idle : ℕ
  pub absolute : ℕ
  pub portal : Portal
  pub idle_seconds : ℕ
  pub absolute_seconds : ℕ
  pub joined : join_row digest db ≡ some (session, user)
  pub binding : binding_holds session user ≡ true
  pub idle_stamp : session.idle_expires_at ≡ at idle
  pub absolute_stamp : session.absolute_expires_at ≡ at absolute
  pub policy : session_policy c user.role ≡ ok (portal, idle_seconds, absolute_seconds)
  pub fresh : is_fresh wanted portal idle absolute now session ≡ true
  pub result : r ≡ (
    record db {
      sessions = update_where (has_hash digest) (slide now idle_seconds absolute) db.sessions;
    },
    some (
        principal_of now user session.portal_type
          (slide now idle_seconds absolute session).expires_at),
  )

module _ (c : Config) (now : ℕ) (wanted : Option Portal) (digest : Text) (db : Db)
    {r : Db × Option Principal} where
  admit-cases :
      (s : Session) (u : User) (idle absolute : ℕ)
      → join_row digest db ≡ some (s, u)
      → binding_holds s u ≡ true
      → s.idle_expires_at ≡ at idle
      → s.absolute_expires_at ≡ at absolute
      → admit c now wanted digest s u idle absolute db ≡ ok r
      → (r ≡ (db, none)) ⊎ Resolved c now wanted digest db r
  unfolding admit
  admit-cases s u idle absolute joined binding ei ea e =
      let (p, policy, e1) = >>=-eq-ok (session_policy c u.role) _ e in
      elim (Bool-cases (is_fresh wanted p.0 idle absolute now s)) [
        | inl fresh ↦ inr (record {
          session = s;
          user = u;
          idle = idle;
          absolute = absolute;
          portal = p.0;
          idle_seconds = p.1;
          absolute_seconds = p.2;
          joined = joined;
          binding = binding;
          idle_stamp = ei;
          absolute_stamp = ea;
          policy = policy;
          fresh = fresh;
          result = sym (ok-injective (rw fresh at e1));
        })
        | inr stale ↦ inl (sym (ok-injective (rw stale at e1)))
      ]

  stamps-cases :
      (s : Session) (u : User) (i a : Stamp)
      → join_row digest db ≡ some (s, u)
      → binding_holds s u ≡ true
      → s.idle_expires_at ≡ i
      → s.absolute_expires_at ≡ a
      → ◌≡◌ {A = Result AuthError (Db × Option Principal)}
          (elim (read_stamp i) [
            | none ↦ ok (db, none)
            | some idle ↦ elim (read_stamp a) [
              | none ↦ ok (db, none)
              | some absolute ↦ admit c now wanted digest s u idle absolute db
            ]
          ])
          (ok r)
      → (r ≡ (db, none)) ⊎ Resolved c now wanted digest db r
  stamps-cases s u (garbled x) a joined binding ei ea e = inl (sym (ok-injective e))
  stamps-cases s u (at i) (garbled x) joined binding ei ea e = inl (sym (ok-injective e))
  stamps-cases s u (at i) (at a) joined binding ei ea e = admit-cases s u i a joined binding ei ea e

  row-cases :
      (s : Session) (u : User)
      → join_row digest db ≡ some (s, u)
      → resolve_row c now wanted digest s u db ≡ ok r
      → (r ≡ (db, none)) ⊎ Resolved c now wanted digest db r
  unfolding resolve_row
  row-cases s u joined e = elim (Bool-cases (binding_holds s u)) [
    | inl held ↦
        stamps-cases s u s.idle_expires_at s.absolute_expires_at joined held refl refl
          (rw held at e)
    | inr broken ↦ inl (sym (ok-injective (rw broken at e)))
  ]

  joined-cases :
      (o : Option (Session × User))
      → join_row digest db ≡ o
      → ◌≡◌ {A = Result AuthError (Db × Option Principal)}
          (elim o [ none ↦ ok (db, none) | some (s, u) ↦ resolve_row c now wanted digest s u db ])
          (ok r)
      → (r ≡ (db, none)) ⊎ Resolved c now wanted digest db r
  joined-cases none j e = inl (sym (ok-injective e))
  joined-cases (some (s, u)) j e = row-cases s u j e

  pub resolve_digest-cases :
      resolve_digest c now wanted digest db ≡ ok r
      → (r ≡ (db, none)) ⊎ Resolved c now wanted digest db r
  unfolding resolve_digest
  resolve_digest-cases e = joined-cases (join_row digest db) refl e

-- The portal asked for, if one is.
abbrev pub Fits : Option Portal → Portal → Type 0
Fits none portal = Unit
Fits (some w) portal = portal ≡ w

-- The session `s` of `u` is good at `now`.
pub record Live (now : ℕ) (wanted : Option Portal) (s : Session) (u : User) (idle absolute : ℕ)
    : Type 0 where
  pub active : u.active ≡ true
  pub not_revoked : s.revoked_at ≡ none
  pub same_role : s.role ≡ u.role
  pub same_company : s.company_id ≡ u.company_id
  pub fits : Fits wanted s.portal_type
  pub idle_stamp : s.idle_expires_at ≡ at idle
  pub absolute_stamp : s.absolute_expires_at ≡ at absolute
  pub before_idle : now < idle
  pub before_absolute : now < absolute

Fits-is_fresh :
    (wanted : Option Portal) (expected : Portal) (idle absolute now : ℕ) (s : Session)
    → is_fresh wanted expected idle absolute now s ≡ true
    → Fits wanted s.portal_type × (now < idle) × (now < absolute) × (s.portal_type ≡ expected)
unfolding is_fresh
Fits-is_fresh none expected idle absolute now s h =
    (tt, ground arith, ground arith, (portal_eq_iff s.portal_type expected).0 (ground arith))
Fits-is_fresh (some w) expected idle absolute now s h = (
  (portal_eq_iff s.portal_type w).0 (ground arith),
  ground arith,
  ground arith,
  (portal_eq_iff s.portal_type expected).0 (ground arith),
)

pub Resolved-Live :
    (c : Config) (now : ℕ) (wanted : Option Portal) (digest : Text) (db : Db)
    {r : Db × Option Principal} (x : Resolved c now wanted digest db r)
    → Live now wanted x.session x.user x.idle x.absolute
unfolding binding_holds
Resolved-Live c now wanted digest db x =
    let s = x.session in
    let u = x.user in
    let b = x.binding in
    let (f, i, a, _) = Fits-is_fresh wanted x.portal x.idle x.absolute now s x.fresh in
    record {
      active = ground arith;
      not_revoked = ground arith;
      same_role = (role_eq_iff s.role u.role).0 (ground arith);
      same_company = (company_eq_iff s.company_id u.company_id).0 (ground arith);
      fits = f;
      idle_stamp = x.idle_stamp;
      absolute_stamp = x.absolute_stamp;
      before_idle = i;
      before_absolute = a;
    }

principal-slide :
    (now : ℕ) (u : User) (s : Session) (idle_seconds absolute : ℕ) {db db' : Db} {p : Principal}
    → ◌≡◌ {A = Db × Option Principal}
        (db', some p)
        (db, some (principal_of now u s.portal_type (slide now idle_seconds absolute s).expires_at))
    → p ≡ principal_of now u s.portal_type (min (now + seconds idle_seconds) absolute)
unfolding slide
principal-slide now u s idle_seconds absolute h = ground arith

abbrev policy_at : ℕ → ℕ → Portal → Result AuthError (Portal × ℕ × ℕ)
policy_at idle_seconds lifetime portal = ok (portal, idle_seconds, lifetime)

-- A token that resolves is that of a session whose account is active and has the role and the
-- company that the session was opened with; the session is not revoked, is of the portal asked
-- for, which is the portal of the account's role, and neither of its deadlines has come. The
-- principal is that account, until the new idle deadline, the role's idle time from now, or the
-- absolute one if that is earlier.
pub resolve_session_sound :
    (pl : Platform) (c : Config) (now : ℕ) (token : Text) (wanted : Option Portal) (db db' : Db)
    {p : Principal}
    → resolve_session pl c now (some token) wanted db ≡ ok (db', some p)
    → (s : Session) × (u : User) × (idle : ℕ) × (absolute : ℕ) × (idle_seconds : ℕ) × (join_row
          (pl.sha256_hex token)
          db
        ≡ some (s, u))
      × Live now wanted s u idle absolute
      × (lifetime : ℕ) × (session_policy c u.role ≡ ok (s.portal_type, idle_seconds, lifetime))
      × (p ≡ principal_of now u s.portal_type (min (now + seconds idle_seconds) absolute))
unfolding resolve_session
resolve_session_sound pl c now [] wanted db db' e = absurd (cc)
resolve_session_sound pl c now (t ∷ token) wanted db db' e =
    elim (resolve_digest-cases c now wanted (pl.sha256_hex (t ∷ token)) db e) [
      | inl refused ↦ absurd (cc)
      | inr x ↦ (
        x.session,
        x.user,
        x.idle,
        x.absolute,
        x.idle_seconds,
        x.joined,
        Resolved-Live c now wanted (pl.sha256_hex (t ∷ token)) db x,
        x.absolute_seconds,
        x.policy
            ∙ ap (policy_at x.idle_seconds x.absolute_seconds)
                (sym (Fits-is_fresh wanted x.portal x.idle x.absolute now x.session x.fresh).3),
        principal-slide now x.user x.session x.idle_seconds x.absolute x.result,
      )
    ]
