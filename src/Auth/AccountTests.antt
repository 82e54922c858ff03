-- ===== src/Auth/AccountTests.antt =====
-- A run of the account store with two accounts: one is locked, gets a new password, and is made
-- inactive.
use querix_semantic_search.Prelude.{
  ℕ, ◌≡◌, ◌≢◌, refl, false, none, some, [], ◌∷◌, All, Result, ok, err, codes, text_eq, arith,
}
use querix_semantic_search.Auth.Types.{
  AuthError, company_user, User, Db, Principal, session_policy, role_eq, company_eq, portal_eq,
  is_valid_role,
}
use querix_semantic_search.Auth.Passwords.{
  normalize, normalize_username, verify_password, password_hash, validate_password,
  normalize_company, password_needs_rehash,
}
use querix_semantic_search.Auth.Login.{
  authenticate, login_name, is_locked, select_row, check_request,
}
use querix_semantic_search.Auth.Sessions.{resolve_session}
use querix_semantic_search.Auth.Accounts.{set_password, set_active, resolve_user_id}
use querix_semantic_search.Auth.Lockout.{login_run, lockout}
use querix_semantic_search.Auth.Revocation.{set_password_revokes}
use querix_semantic_search.Auth.Tests.{pl, config, user1, db1, draw, login, principal, state, db2}

-- A second account, of an older process, whose session outlives the changes of the first.
abbrev user2 : User
user2 = record user1 { user_id = codes "j"; username = codes "w"; username_normalized = codes "w" }

abbrev both : Db
both = record db2 { users = user2 ∷ db2.users }

abbrev db4 : Db
db4 = state both (
    authenticate pl config (draw 150 (codes "x"))
      (record (login (codes "p")) { username = codes "w" }) both)

abbrev unwrap {ℓ} : {A : Type ℓ} → A → Result AuthError A → A
unwrap d (ok a) = a
unwrap d (err e) = d

abbrev db5 : Db
db5 =
    unwrap db4
      (set_password pl config 160 (codes "s") (codes "u") (codes "new") (some (codes "c")) db4)

abbrev db6 : Db
db6 = unwrap db4 (set_active pl 160 (codes "u") false (some (codes "c")) db4)

abbrev second : ℕ → ℕ → Principal
second expires age = record (principal expires age) { user_id = codes "j"; username = codes "w" }

first_id : resolve_user_id pl (codes "u") (some (codes "c")) db4.users ≡ ok (codes "i")
unfolding authenticate verify_password is_valid_role role_eq company_eq text_eq normalize_username
    normalize_company session_policy password_needs_rehash normalize resolve_user_id
first_id = refl

first_name : normalize_username pl (codes "u") ≡ ok (codes "u")
unfolding normalize_username normalize
first_name = refl

changes_password :
    set_password pl config 160 (codes "s") (codes "u") (codes "new") (some (codes "c")) db4 ≡ ok db5
unfolding authenticate verify_password is_valid_role role_eq company_eq text_eq normalize_username
    normalize_company session_policy password_needs_rehash normalize set_password validate_password
    password_hash
changes_password = refl

second_stays :
    resolve_session pl config 170 (some (codes "x")) none db5
    ≡ ok (
      state db5 (resolve_session pl config 170 (some (codes "x")) none db5),
      some (second 10_000_170 10),
    )
unfolding authenticate verify_password is_valid_role role_eq company_eq text_eq normalize_username
    normalize_company session_policy password_needs_rehash normalize set_password validate_password
    password_hash resolve_session portal_eq
second_stays = refl

set_password_revokes_example : codes "j" ≢ codes "i"
set_password_revokes_example =
    set_password_revokes pl config 160 (codes "s") (codes "u") (codes "new") (codes "u") (codes "i")
      (some (codes "c")) db4 db5
      (state db5 (resolve_session pl config 170 (some (codes "x")) none db5)) 170 (codes "x") none
      (second 10_000_170 10) first_name first_id changes_password second_stays

deactivates : set_active pl 160 (codes "u") false (some (codes "c")) db4 ≡ ok db6
unfolding authenticate verify_password is_valid_role role_eq company_eq text_eq normalize_username
    normalize_company session_policy password_needs_rehash normalize set_active
deactivates = refl

second_active :
    resolve_session pl config 170 (some (codes "x")) none db6
    ≡ ok (
      state db6 (resolve_session pl config 170 (some (codes "x")) none db6),
      some (second 10_000_170 10),
    )
unfolding authenticate verify_password is_valid_role role_eq company_eq text_eq normalize_username
    normalize_company session_policy password_needs_rehash normalize set_active resolve_session
    portal_eq
second_active = refl

checks_company : check_request pl (login (codes "wrong")) ≡ ok (some (codes "c"))
unfolding check_request is_valid_role role_eq normalize_company normalize
checks_company = refl

selects_user :
    select_row (login_name pl (codes "u")) (some company_user) (some (codes "c")) db1.users
    ≡ some user1
unfolding select_row role_eq company_eq text_eq normalize_username normalize
selects_user = refl

wrong_password : verify_password pl user1.password_hash (codes "wrong") ≡ false
unfolding verify_password text_eq
wrong_password = refl

lockout_example :
    All
      (λ p. p.user_id ≢ codes "i")
      (login_run pl config
        ((draw 100 (codes "t"), login (codes "wrong"))
          ∷ (draw 200 (codes "t"), login (codes "p"))
          ∷ [])
        db1).1
unfolding is_locked
lockout_example =
    lockout pl config (draw 100 (codes "t")) (login (codes "wrong")) (some (codes "c")) user1 db1
      checks_company selects_user wrong_password ((draw 200 (codes "t"), login (codes "p")) ∷ [])
      refl refl (omega arith) (omega arith, tt)
