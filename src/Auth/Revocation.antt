-- ===== src/Auth/Revocation.antt =====
-- A revoked session does not resolve; changing a password and deactivating an account revoke.
use querix_semantic_search.Prelude.{
  ℕ, ◌≡◌, refl, sym, ap, ◌∙◌, ◌≢◌, ◌⊎◌, inl, inr, false, Option, none, some, List, [], ◌∷◌, arith,
  ◌==◌, if◌then◌else◌, Bool-cases, Option-cases, is_none, count, find, update_where, All, All-find,
  find-update_where, find-passes, ok, >>=-eq-ok, ok-injective, Text, text_eq_iff,
}
use querix_semantic_search.Auth.Types.{Platform, User, Session, Db, Config, Principal, Portal}
use querix_semantic_search.Auth.Passwords.{normalize_username, validate_password, password_hash}
use querix_semantic_search.Auth.Login.{is_user, has_hash, principal_of}
use querix_semantic_search.Auth.Sessions.{
  join_row, binding_holds, resolve_row, resolve_digest, resolve_session, revoke, is_live_hash,
  revoke_digest, revoke_joined, revoke_session,
}
use querix_semantic_search.Auth.Accounts.{
  of_user, revoke_all, set_password, set_active, resolve_user_id,
}
use querix_semantic_search.Auth.Resolved.{resolve_session_sound}
use querix_semantic_search.Auth.Kept.{join_row-finds}

-- Every session of the account is revoked.
abbrev pub AllRevoked : Text → List Session → Type 0
AllRevoked id ss = All (λ (s : Session). (s.user_id ≡ id) → s.revoked_at ≢ none) ss

revoke_all-AllRevoked :
    (now : ℕ) (id : Text) (ss : List Session) → AllRevoked id (revoke_all now id ss)
unfolding revoke_all
revoke_all-AllRevoked now id [] = tt
revoke_all-AllRevoked now id (s ∷ ss) = (here, revoke_all-AllRevoked now id ss)
  where
    here :
        (if of_user id s then revoke now s else s).user_id ≡ id
        → (if of_user id s then revoke now s else s).revoked_at ≢ none
    here = elim (Bool-cases (of_user id s)) [
      | inl hit ↦ rw hit (λ _ h. cc)
      | inr miss ↦ rw miss (λ same h. ground (arith, h, (text_eq_iff s.user_id id).1 same))
    ]

-- No token of such an account resolves.
AllRevoked-refuses :
    (pl : Platform) (c : Config) (id : Text) (now : ℕ) (token : Text) (wanted : Option Portal)
    (db db' : Db) (p : Principal)
    → AllRevoked id db.sessions
    → resolve_session pl c now (some token) wanted db ≡ ok (db', some p)
    → p.user_id ≢ id
unfolding principal_of
AllRevoked-refuses pl c id now token wanted db db' p revoked e same =
    let (s, u, idle, absolute, _, joined, live, _, _, ep) =
      resolve_session_sound pl c now token wanted db db' e in
    let (found, owner) = join_row-finds (pl.sha256_hex token) db joined in
    let owned : u.user_id ≡ s.user_id =
      (text_eq_iff u.user_id s.user_id).0 (find-passes (is_user s.user_id) db.users owner) in
    let mine : s.user_id ≡ id = (sym owned ∙ sym (ap (λ (x : Principal). x.user_id) ep) ∙ same) in
    All-find (λ (x : Session). (x.user_id ≡ id) → x.revoked_at ≢ none)
      (has_hash (pl.sha256_hex token)) db.sessions revoked found mine live.not_revoked

-- After a password change, whoever asks with whatever token is not the account whose password was
-- changed: each session that the account had is closed.
pub set_password_revokes :
    (pl : Platform) (c : Config) (now : ℕ) (salt username password name id : Text)
    (company : Option Text) (db db1 db2 : Db) (later : ℕ) (token : Text) (wanted : Option Portal)
    (p : Principal)
    → normalize_username pl username ≡ ok name
    → resolve_user_id pl name company db.users ≡ ok id
    → set_password pl c now salt username password company db ≡ ok db1
    → resolve_session pl c later (some token) wanted db1 ≡ ok (db2, some p)
    → p.user_id ≢ id
unfolding set_password
set_password_revokes pl c now salt username password name id company db db1 db2 later token wanted p
      en ei e er =
    let (n, e0, e1) = >>=-eq-ok (normalize_username pl username) _ e in
    let (_, _, e2) = >>=-eq-ok (validate_password c password) _ e1 in
    let (h, _, e3) = >>=-eq-ok (password_hash pl salt password) _ e2 in
    let (id', e4, e5) = >>=-eq-ok (resolve_user_id pl n company db.users) _ e3 in
    let en' : n ≡ name = ok-injective (sym e0 ∙ en) in
    let ei' : id' ≡ id = ok-injective (sym e4 ∙ rw en' ei) in
    elim (Bool-cases (count (is_user id') db.users == 1)) [
      | inl one ↦
          AllRevoked-refuses pl c id later token wanted db1 db2 p
            (rw (← ok-injective (rw one at e5), ei') (revoke_all-AllRevoked now id db.sessions)) er
      | inr other ↦ absurd (let e' = (rw other at e5) in cc)
    ]

-- After a deactivation, no token resolves to the account that was deactivated.
pub set_active_revokes :
    (pl : Platform) (c : Config) (now : ℕ) (username name id : Text) (company : Option Text)
    (db db1 db2 : Db) (later : ℕ) (token : Text) (wanted : Option Portal) (p : Principal)
    → normalize_username pl username ≡ ok name
    → resolve_user_id pl name company db.users ≡ ok id
    → set_active pl now username false company db ≡ ok db1
    → resolve_session pl c later (some token) wanted db1 ≡ ok (db2, some p)
    → p.user_id ≢ id
unfolding set_active
set_active_revokes pl c now username name id company db db1 db2 later token wanted p en ei e er =
    let (n, e0, e1) = >>=-eq-ok (normalize_username pl username) _ e in
    let (id', e4, e5) = >>=-eq-ok (resolve_user_id pl n company db.users) _ e1 in
    let en' : n ≡ name = ok-injective (sym e0 ∙ en) in
    let ei' : id' ≡ id = ok-injective (sym e4 ∙ rw en' ei) in
    elim (Bool-cases (count (is_user id') db.users == 1)) [
      | inl one ↦
          AllRevoked-refuses pl c id later token wanted db1 db2 p
            (rw (← ok-injective (rw one at e5), ei') (revoke_all-AllRevoked now id db.sessions)) er
      | inr other ↦ absurd (let e' = (rw other at e5) in cc)
    ]

-- A digest whose session is revoked, or that has none, resolves to nothing.
resolve_digest-refuses :
    (c : Config) (now : ℕ) (wanted : Option Portal) (digest : Text) (db : Db)
    → (find (has_hash digest) db.sessions ≡ none)
      ⊎ ((s : Session) × (find (has_hash digest) db.sessions ≡ some s)
          × (is_none s.revoked_at ≡ false))
    → resolve_digest c now wanted digest db ≡ ok (db, none)
unfolding resolve_digest
resolve_digest-refuses c now wanted digest db (inl missing) =
    rw (resolve_digest, join_row, missing) refl
resolve_digest-refuses c now wanted digest db (inr (s, found, revoked)) =
    elim (Option-cases (find (is_user s.user_id) db.users)) [
      | inl orphan ↦ rw (resolve_digest, join_row, found, orphan) refl
      | inr (u, owner) ↦
          let broken : binding_holds s u ≡ false = (elim (Bool-cases u.active) [
            | inl on ↦ rw (binding_holds, on, revoked) refl
            | inr off ↦ rw (binding_holds, off) refl
          ]) in
          rw (resolve_digest, join_row, found, owner, resolve_row, broken) refl
    ]

revoked-refuses :
    (digest : Text) (now : ℕ) (ss : List Session)
    → (find (has_hash digest) (update_where (is_live_hash digest) (revoke now) ss) ≡ none)
      ⊎ ((s : Session) × (find
              (has_hash digest)
              (update_where (is_live_hash digest) (revoke now) ss)
            ≡ some s)
          × (is_none s.revoked_at ≡ false))
revoked-refuses digest now ss =
    let written =
      find-update_where (has_hash digest) (is_live_hash digest) (revoke now) ss (λ s. refl) in
    elim (Option-cases (find (has_hash digest) ss)) [
      | inl missing ↦ inl (rw missing at written)
      | inr (s, found) ↦
          let hit = find-passes (has_hash digest) ss found in
          let at_s = (rw found at written) in
          elim (Bool-cases (is_none s.revoked_at)) [
            | inl open_ ↦ inr (revoke now s, rw (hit, open_) at at_s, refl)
            | inr closed ↦ inr (s, rw (hit, closed) at at_s, closed)
          ]
    ]

revoke_digest-refuses :
    (c : Config) (now event_now later : ℕ) (wanted : Option Portal) (digest : Text)
    (row : Option (Session × User)) (remote : Option Text) (db : Db)
    → resolve_digest c later wanted digest (revoke_digest now event_now digest row remote db)
      ≡ ok (revoke_digest now event_now digest row remote db, none)
unfolding revoke_digest
revoke_digest-refuses c now event_now later wanted digest none remote db =
    resolve_digest-refuses c later wanted digest _ (revoked-refuses digest now db.sessions)
revoke_digest-refuses c now event_now later wanted digest (some (s, u)) remote db =
    resolve_digest-refuses c later wanted digest _ (revoked-refuses digest now db.sessions)

-- After a logout that names no portal, the token resolves at no time and for no portal, and the
-- attempt writes nothing.
pub revoke_session_final :
    (pl : Platform) (c : Config) (now event_now later : ℕ) (token : Text) (wanted : Option Portal)
    (remote : Option Text) (db : Db)
    → resolve_session pl c later
        (some token)
        wanted
        (revoke_session pl now event_now (some token) none remote db)
      ≡ ok (revoke_session pl now event_now (some token) none remote db, none)
unfolding resolve_session revoke_session revoke_joined
revoke_session_final pl c now event_now later [] wanted remote db = refl
revoke_session_final pl c now event_now later (t ∷ token) wanted remote db =
    go (join_row (pl.sha256_hex (t ∷ token)) db)
  where
    digest : Text
    digest = pl.sha256_hex (t ∷ token)

    go :
        (row : Option (Session × User))
        → resolve_digest c later wanted digest
            (revoke_joined now event_now digest none row remote db)
          ≡ ok (revoke_joined now event_now digest none row remote db, none)
    go none = revoke_digest-refuses c now event_now later wanted digest none remote db
    go (some (s, u)) =
        revoke_digest-refuses c now event_now later wanted digest (some (s, u)) remote db
