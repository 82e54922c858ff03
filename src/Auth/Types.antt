-- ===== src/Auth/Types.antt =====
-- The tables of `AnalyticsAuthStore` and its configuration (src/analytics_service/auth.py).
-- Times are microseconds. What Python's own library computes is a `Platform`.
use querix_semantic_search.Prelude.{
  ℕ, ◌+◌, ◌-◌, ◌*◌, ◌/◌, ◌≡◌, refl, ap, ◌↔◌, Bool, true, false, ◌||◌, Option, none, some, List,
  arith, ltb, ◌==◌, if◌then◌else◌, Result, ok, err, Text, text_eq, text_eq_iff,
}

-- `str.isspace` and `str.casefold` character by character, `int`, `bytes.fromhex`, `bytes.hex`,
-- `hashlib.sha256(…).hexdigest` and `hashlib.scrypt`; `none` is a `ValueError`.
pub record Platform : Type 0 where
  pub is_space : ℕ → Bool
  pub fold_char : ℕ → Text
  pub parse_int : Text → Option ℕ
  pub from_hex : Text → Option Text
  pub to_hex : Text → Text
  pub sha256_hex : Text → Text
  pub scrypt : Text → Text → ℕ → ℕ → ℕ → ℕ → Option Text

pub data AuthError : Type 0 where
  invalid_username password_too_short password_too_long unsupported_role : AuthError
  internal_with_company company_missing username_exists unknown_user ambiguous_user : AuthError
  unsupported_required_role company_needs_role hash_failed integrity_error : AuthError
  invalid_session_policy : AuthError

-- A role column: one of the two valid roles, or any other text.
pub data Role : Type 0 where
  internal_admin company_user : Role
  other_role : Text → Role

pub data Portal : Type 0 where
  company internal : Portal

pub data EventType : Type 0 where
  login_rejected account_locked login_success logout : EventType

-- A timestamp column: an ISO date, or a text that is none; `garbled p` sorts, as text, just at or
-- below the ISO text of time `p`.
pub data Stamp : Type 0 where
  at : ℕ → Stamp
  garbled : ℕ → Stamp

pub record User : Type 0 where
  pub user_id : Text
  pub username : Text
  pub username_normalized : Text
  pub password_hash : Text
  pub role : Role
  pub company_id : Option Text
  pub active : Bool
  pub failed_attempts : ℕ
  pub locked_until : Option Stamp
  pub created_at : ℕ
  pub updated_at : ℕ
  pub password_changed_at : ℕ
  pub last_login_at : Option ℕ

pub record Session : Type 0 where
  pub session_hash : Text
  pub user_id : Text
  pub portal_type : Portal
  pub role : Role
  pub company_id : Option Text
  pub created_at : ℕ
  pub expires_at : ℕ
  pub last_seen_at : ℕ
  pub idle_expires_at : Stamp
  pub absolute_expires_at : Stamp
  pub revoked_at : Option ℕ

pub record Event : Type 0 where
  pub user_id : Option Text
  pub username_normalized : Text
  pub company_id : Option Text
  pub event_type : EventType
  pub remote_address : Text
  pub created_at : ℕ

pub record Db : Type 0 where
  pub users : List User
  pub sessions : List Session
  pub events : List Event

pub record Config : Type 0 where
  pub company_session_idle_seconds : ℕ
  pub company_session_absolute_seconds : ℕ
  pub internal_session_idle_seconds : ℕ
  pub internal_session_absolute_seconds : ℕ
  pub max_login_attempts : ℕ
  pub lock_seconds : ℕ
  pub password_min_length : ℕ

pub record Principal : Type 0 where
  pub user_id : Text
  pub username : Text
  pub role : Role
  pub company_id : Option Text
  pub portal_type : Portal
  pub session_expires_at : ℕ
  pub session_max_age_seconds : ℕ

abbrev pub or_else {ℓ} : {A : Type ℓ} → A → Option A → A
or_else d none = d
or_else d (some a) = a

-- The constructor: a policy left out is the common lifetime, and each must be positive and not
-- idle longer than it lives.
unfoldable pub init :
    ℕ → Option ℕ → Option ℕ → Option ℕ → Option ℕ → ℕ → ℕ → ℕ → Result AuthError Config
init ttl company_idle company_absolute internal_idle internal_absolute attempts lock minimum =
    let ci = or_else ttl company_idle in
    let ca = or_else ttl company_absolute in
    let ii = or_else ttl internal_idle in
    let ia = or_else ttl internal_absolute in
    if ci == 0 || ltb ca ci
    then err invalid_session_policy
    else if ii == 0 || ltb ia ii
    then err invalid_session_policy
    else ok (record {
      company_session_idle_seconds = ci;
      company_session_absolute_seconds = ca;
      internal_session_idle_seconds = ii;
      internal_session_absolute_seconds = ia;
      max_login_attempts = attempts;
      lock_seconds = lock;
      password_min_length = minimum;
    })

-- `timedelta(seconds=n)`.
abbrev pub seconds : ℕ → ℕ
seconds n = n * 1_000_000

-- `max(0, math.ceil((expires_at - now).total_seconds()))`.
unfoldable pub max_age_seconds : ℕ → ℕ → ℕ
max_age_seconds expires_at now = (expires_at - now + 999_999) / 1_000_000

unfoldable pub role_eq : Role → Role → Bool
role_eq internal_admin internal_admin = true
role_eq company_user company_user = true
role_eq (other_role a) (other_role b) = text_eq a b
role_eq _ _ = false

unfoldable pub is_valid_role : Role → Bool
is_valid_role (other_role _) = false
is_valid_role _ = true

unfoldable pub portal_eq : Portal → Portal → Bool
portal_eq company company = true
portal_eq internal internal = true
portal_eq _ _ = false

unfoldable pub company_eq : Option Text → Option Text → Bool
company_eq none none = true
company_eq (some a) (some b) = text_eq a b
company_eq _ _ = false

-- `_session_policy`: the portal, the idle and the absolute lifetime of a role.
unfoldable pub session_policy : Config → Role → Result AuthError (Portal × ℕ × ℕ)
session_policy c company_user =
    ok (company, c.company_session_idle_seconds, c.company_session_absolute_seconds)
session_policy c internal_admin =
    ok (internal, c.internal_session_idle_seconds, c.internal_session_absolute_seconds)
session_policy c (other_role _) = err unsupported_role

pub role_eq_iff : (a b : Role) → (role_eq a b ≡ true) ↔ (a ≡ b)
unfolding role_eq
role_eq_iff (other_role a) (other_role b) =
    (λ h. ap other_role ((text_eq_iff a b).0 h), λ h. (text_eq_iff a b).1 (ground arith))
role_eq_iff internal_admin internal_admin = (λ h. refl, λ h. refl)
role_eq_iff company_user company_user = (λ h. refl, λ h. refl)
role_eq_iff _ _ = (λ h. cc, λ h. cc)

pub company_eq_iff : (a b : Option Text) → (company_eq a b ≡ true) ↔ (a ≡ b)
unfolding company_eq
company_eq_iff (some a) (some b) =
    (λ h. ap some ((text_eq_iff a b).0 h), λ h. (text_eq_iff a b).1 (ground arith))
company_eq_iff none none = (λ h. refl, λ h. refl)
company_eq_iff _ _ = (λ h. cc, λ h. cc)

pub portal_eq_iff : (a b : Portal) → (portal_eq a b ≡ true) ↔ (a ≡ b)
unfolding portal_eq
portal_eq_iff company company = (λ h. refl, λ h. refl)
portal_eq_iff internal internal = (λ h. refl, λ h. refl)
portal_eq_iff _ _ = (λ h. cc, λ h. cc)
