-- ===== src/Auth/Pruning.antt =====
-- What pruning leaves resolvable.
use querix_semantic_search.Prelude.{
  ℕ, ◌≤◌, ◌≡◌, refl, sym, ap, ◌↔◌, inl, inr, Bool, true, not, Option, some, List, [], ◌∷◌, arith,
  Bool-cases, keep, find, find-none, ok, Text, text_eq_iff, Distinct,
}
use mathlib.Core.Path.{subst}
use querix_semantic_search.Auth.Types.{Platform, Session, User, Db, Config, Principal, Portal}
use querix_semantic_search.Auth.Login.{has_hash}
use querix_semantic_search.Auth.Sessions.{
  resolve_digest, resolve_session, is_prunable, sorts_le, prune_expired_sessions,
}
use querix_semantic_search.Auth.Resolved.{Resolved, Live, Resolved-Live, resolve_digest-cases}
use querix_semantic_search.Auth.RoundTrip.{resolve_digest-passes, join_row-found}
use querix_semantic_search.Auth.Kept.{join_row-finds}

find-keep :
    (p q : Session → Bool) (ss : List Session) {s : Session}
    → find p ss ≡ some s
    → q s ≡ true
    → find p (keep q ss) ≡ some s
find-keep p q [] found h = cc
find-keep p q (x ∷ xs) {s} found h = elim (Bool-cases (p x)) [
  | inl hit ↦
      let here : x ≡ s = (ground arith) in
      let kept : q x ≡ true = (subst (λ (z : Session). q z ≡ true) (sym here) h) in
      rw (kept, hit) (ap some here)
  | inr miss ↦
      let rest = find-keep p q xs (rw miss at found) h in
      elim (Bool-cases (q x)) [ inl kept ↦ rw (kept, miss) rest | inr gone ↦ rw gone rest ]
]

-- Under distinct hashes what is found among the kept sessions was found before.
find-of_keep :
    (digest : Text) (q : Session → Bool) (ss : List Session) {s : Session}
    → Distinct (λ (x : Session). x.session_hash) ss
    → find (has_hash digest) (keep q ss) ≡ some s
    → find (has_hash digest) ss ≡ some s
find-of_keep digest q [] d found = found
find-of_keep digest q (x ∷ xs) {s} d found = elim (Bool-cases (q x)) [
  | inl kept ↦
      let found' = (rw kept at found) in
      elim (Bool-cases (has_hash digest x)) [
        | inl hit ↦ rw hit (rw hit at found')
        | inr miss ↦ rw miss (find-of_keep digest q xs d.1 (rw miss at found'))
      ]
  | inr gone ↦
      let found' = (rw gone at found) in
      let rest = find-of_keep digest q xs d.1 found' in
      elim (Bool-cases (has_hash digest x)) [
        | inl hit ↦ absurd (
            let clash = find-none (has_hash x.session_hash) xs d.0 in
            let same : x.session_hash ≡ digest = ((text_eq_iff x.session_hash digest).0 hit) in
            let clash' = (rw same at clash) in cc)
        | inr miss ↦ rw miss rest
      ]
]

-- A live session outlives any earlier pruning.
Live-kept :
    (now later : ℕ) (wanted : Option Portal) (s : Session) (u : User) (idle absolute : ℕ)
    → now ≤ later
    → Live later wanted s u idle absolute
    → not (is_prunable now s) ≡ true
unfolding is_prunable sorts_le
Live-kept now later wanted s u idle absolute le live =
    rw (live.idle_stamp, live.absolute_stamp, live.not_revoked)
      (ground (arith, live.before_idle, live.before_absolute, le))

-- The principal that a token resolves to.
abbrev pub ResolvesTo : Platform → Config → ℕ → Text → Option Portal → Db → Principal → Type 0
ResolvesTo pl c now token wanted db p =
    (db' : Db) × (resolve_session pl c now (some token) wanted db ≡ ok (db', some p))

Resolved-elsewhere :
    (c : Config) (now : ℕ) (wanted : Option Portal) (digest : Text) (db other db1 : Db)
    (p : Principal) (x : Resolved c now wanted digest db (db1, some p))
    → find (has_hash digest) other.sessions ≡ some x.session
    → other.users ≡ db.users
    → (db2 : Db) × (resolve_digest c now wanted digest other ≡ ok (db2, some p))
Resolved-elsewhere c now wanted digest db other db1 p x found users =
    let (_, owner) = join_row-finds digest db x.joined in
    let passes =
      resolve_digest-passes c now wanted digest other x.session x.user x.idle x.absolute x.portal
        x.idle_seconds x.absolute_seconds
        (join_row-found digest other x.session x.user found (rw users owner)) x.binding x.idle_stamp
        x.absolute_stamp x.policy x.fresh in
    (_, rw (sym (ap (λ (r : Db × Option Principal). r.1) x.result)) at passes)

-- With distinct session hashes, pruning at `now` changes no answer at or after `now`: a token
-- resolves to a principal in the pruned tables just when it does in the tables before.
pub prune_unobservable :
    (pl : Platform) (c : Config) (now later : ℕ) (token : Text) (wanted : Option Portal) (db : Db)
    (p : Principal)
    → Distinct (λ (s : Session). s.session_hash) db.sessions
    → now ≤ later
    → ResolvesTo pl c later token wanted db p
      ↔ ResolvesTo pl c later token wanted (prune_expired_sessions now db).0 p
unfolding resolve_session prune_expired_sessions
prune_unobservable pl c now later [] wanted db p distinct le =
    (λ h. absurd (let e = h.1 in cc), λ h. absurd (let e = h.1 in cc))
prune_unobservable pl c now later (t ∷ token) wanted db p distinct le = (forth, back)
  where
    digest : Text
    digest = pl.sha256_hex (t ∷ token)

    q : Session → Bool
    q s = not (is_prunable now s)

    forth :
        ResolvesTo pl c later (t ∷ token) wanted db p
        → ResolvesTo pl c later (t ∷ token) wanted (prune_expired_sessions now db).0 p
    forth (db1, e) = elim (resolve_digest-cases c later wanted digest db e) [
      | inl refused ↦ absurd (cc)
      | inr x ↦
          Resolved-elsewhere c later wanted digest db _ db1 p x
            (find-keep (has_hash digest) q db.sessions (join_row-finds digest db x.joined).0 (
              Live-kept now later wanted x.session x.user x.idle x.absolute le
                (Resolved-Live c later wanted digest db x)))
            refl
    ]

    back :
        ResolvesTo pl c later (t ∷ token) wanted (prune_expired_sessions now db).0 p
        → ResolvesTo pl c later (t ∷ token) wanted db p
    back (db1, e) =
        elim (resolve_digest-cases c later wanted digest (prune_expired_sessions now db).0 e) [
          | inl refused ↦ absurd (cc)
          | inr x ↦
              Resolved-elsewhere c later wanted digest _ db db1 p x
                (find-of_keep digest q db.sessions distinct
                  (join_row-finds digest (prune_expired_sessions now db).0 x.joined).0)
                refl
        ]
