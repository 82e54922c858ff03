-- ===== src/Auth/LoggedIn.antt =====
-- What a successful `authenticate` has checked.
use querix_semantic_search.Prelude.{
  ℕ, ◌≡◌, refl, inl, inr, Bool, true, Option, none, some, arith, Bool-cases, ok, >>=-eq-ok,
  ok-injective, Text,
}
use querix_semantic_search.Auth.Types.{Platform, User, Db, Config, Principal, Role}
use querix_semantic_search.Auth.Passwords.{verify_password}
use querix_semantic_search.Auth.Login.{
  LoginRequest, Draw, authenticate, check_request, login_name, select_row, decide_login, may_login,
}
use querix_semantic_search.Auth.Accepted.{Accepted, accept-Accepted}

-- The row that a successful login selected, and what it wrote.
pub record LoggedIn (pl : Platform) (c : Config) (d : Draw) (q : LoginRequest) (db : Db)
    (r : Db × Option (Text × Principal)) : Type 0 where
  pub user : User
  pub company : Option Text
  pub checked : check_request pl q ≡ ok company
  pub selected : select_row (login_name pl q.username) q.required_role company db.users ≡ some user
  pub may :
      may_login d.now q.required_role (verify_password pl user.password_hash q.password) user ≡ true
  pub accepted : Accepted pl c d user (login_name pl q.username) q.remote_address db r

pub authenticate-LoggedIn :
    (pl : Platform) (c : Config) (d : Draw) (q : LoginRequest) (db db' : Db) {tp : Text × Principal}
    → authenticate pl c d q db ≡ ok (db', some tp)
    → LoggedIn pl c d q db (db', some tp)
unfolding authenticate decide_login
authenticate-LoggedIn pl c d q db db' {tp} e =
    let (co, checked, e1) = >>=-eq-ok (check_request pl q) _ e in
    go co checked (select_row (login_name pl q.username) q.required_role co db.users) refl e1
  where
    go :
        (co : Option Text) (checked : check_request pl q ≡ ok co) (row : Option User)
        → select_row (login_name pl q.username) q.required_role co db.users ≡ row
        → decide_login pl c d q (login_name pl q.username) row db ≡ ok (db', some tp)
        → LoggedIn pl c d q db (db', some tp)
    go co checked none selected x = absurd (let x' = ok-injective x in cc)
    go co checked (some u) selected x =
        elim (Bool-cases
          (may_login d.now q.required_role (verify_password pl u.password_hash q.password) u)) [
            | inl may ↦ record {
              user = u;
              company = co;
              checked = checked;
              selected = selected;
              may = may;
              accepted =
                  accept-Accepted pl c d u q.password (login_name pl q.username) q.remote_address db
                    (rw may at x);
            }
            | inr refused ↦ absurd (let x' = ok-injective (rw refused at x) in cc)
          ]

pub may_login-active :
    (now : ℕ) (required : Option Role) (verified : Bool) (u : User)
    → may_login now required verified u ≡ true
    → u.active ≡ true
unfolding may_login
may_login-active now required verified u h = ground arith
