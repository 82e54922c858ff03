-- ===== src/Auth/Passwords.antt =====
-- Names and passwords of src/analytics_service/auth.py: normalisation, hashing, verification.
use querix_semantic_search.Prelude.{
  ℕ, zero, suc, ◌^◌, Bool, true, false, not, ◌&&◌, ◌||◌, Option, none, some, List, [], ◌∷◌, ◌++◌,
  ltb, ◌==◌, if◌then◌else◌, length, Result, ok, err, Text, codes, text_eq,
}
use mathlib.Core.List.{reverse}
use querix_semantic_search.Auth.Types.{
  Platform, AuthError, invalid_username, password_too_short, password_too_long, unsupported_role,
  internal_with_company, company_missing, hash_failed, Config, Role, internal_admin, company_user,
  other_role,
}

abbrev pub scrypt_n : ℕ
scrypt_n = 2 ^ 15

abbrev pub scrypt_r : ℕ
scrypt_r = 8

abbrev pub scrypt_p : ℕ
scrypt_p = 3

unfoldable pub drop_spaces : (ℕ → Bool) → Text → Text
drop_spaces is_space [] = []
drop_spaces is_space (c ∷ s) =
    let rest = drop_spaces is_space s in if is_space c then rest else c ∷ s

-- `str.strip`.
unfoldable pub strip : (ℕ → Bool) → Text → Text
unfolding drop_spaces
strip is_space s = reverse (drop_spaces is_space (reverse (drop_spaces is_space s)))

-- `str.casefold`, which maps each character on its own.
unfoldable pub casefold : (ℕ → Text) → Text → Text
casefold fold_char [] = []
casefold fold_char (c ∷ s) = fold_char c ++ casefold fold_char s

unfoldable pub normalize : Platform → Text → Text
unfolding strip casefold
normalize pl s = casefold pl.fold_char (strip pl.is_space s)

unfoldable pub normalize_username : Platform → Text → Result AuthError Text
normalize_username pl username =
    let normalized = normalize pl username in
    if length normalized == 0 || ltb 191 (length normalized)
    then err invalid_username
    else ok normalized

-- `company_id.strip().casefold() if company_id else None`: an empty text counts as none.
unfoldable pub normalize_company : Platform → Option Text → Option Text
normalize_company pl none = none
normalize_company pl (some []) = none
normalize_company pl (some (c ∷ s)) = some (normalize pl (c ∷ s))

abbrev prepend : ℕ → List Text → List Text
prepend c [] = (c ∷ []) ∷ []
prepend c (w ∷ ws) = (c ∷ w) ∷ ws

-- `s.split("$", n)`.
unfoldable pub split_dollar : ℕ → Text → List Text
split_dollar n [] = [] ∷ []
split_dollar zero (c ∷ s) = (c ∷ s) ∷ []
split_dollar (suc n) (c ∷ s) =
    let rest = split_dollar n s in
    let more = split_dollar (suc n) s in if c == b'$' then [] ∷ rest else prepend c more

-- `_password_hash`, with the salt given.
unfoldable pub password_hash : Platform → Text → Text → Result AuthError Text
password_hash pl salt password = elim (pl.scrypt password salt scrypt_n scrypt_r scrypt_p 32) [
  | none ↦ err hash_failed
  | some digest ↦ ok (codes "scrypt$32768$8$3$" ++ (pl.to_hex salt ++ (b'$' ∷ pl.to_hex digest)))
]

-- The parsed fields of `_verify_password`; `none` is a `ValueError`.
abbrev pub and_then {ℓ κ} : {A : Type ℓ} {B : Type κ} → Option A → (A → Option B) → Option B
and_then none f = none
and_then (some a) f = f a

abbrev pub or_false : Option Bool → Bool
or_false none = false
or_false (some b) = b

unfoldable pub matches_digest : Platform → Text → Text → Text → Text → Text → Text → Option Bool
matches_digest pl raw_n raw_r raw_p raw_salt raw_digest password =
    and_then (pl.parse_int raw_n) (λ n. and_then (pl.parse_int raw_r) (λ r.
      and_then (pl.parse_int raw_p) (λ p. and_then (pl.from_hex raw_salt) (λ salt.
        and_then (pl.from_hex raw_digest) (λ expected.
          and_then (pl.scrypt password salt n r p (length expected))
            (λ actual. some (text_eq actual expected)))))))

unfoldable pub verify_parts : Platform → List Text → Text → Bool
unfolding matches_digest
verify_parts pl (algorithm ∷ n ∷ r ∷ p ∷ salt ∷ digest ∷ []) password =
    if text_eq algorithm (codes "scrypt")
    then or_false (matches_digest pl n r p salt digest password)
    else false
verify_parts pl _ password = false

-- `_verify_password`: every exception is a refusal.
unfoldable pub verify_password : Platform → Text → Text → Bool
unfolding split_dollar verify_parts
verify_password pl encoded password = verify_parts pl (split_dollar 5 encoded) password

unfoldable pub stale_parts : List Text → Bool
stale_parts (algorithm ∷ n ∷ r ∷ p ∷ salt ∷ digest ∷ []) =
    not (text_eq algorithm (codes "scrypt"))
    || not (text_eq n (codes "32768") && (text_eq r (codes "8") && text_eq p (codes "3")))
stale_parts _ = true

-- `_password_needs_rehash`.
unfoldable pub password_needs_rehash : Text → Bool
unfolding split_dollar stale_parts
password_needs_rehash encoded = stale_parts (split_dollar 5 encoded)

-- `_validate_password`.
unfoldable pub validate_password : Config → Text → Result AuthError (Unit {0})
validate_password c password =
    if ltb (length password) c.password_min_length
    then err password_too_short
    else if ltb 1024 (length password)
    then err password_too_long
    else ok tt

-- `_validate_binding`: an internal user has no company, a company user has one.
unfoldable pub validate_binding : Platform → Role → Option Text → Result AuthError (Option Text)
unfolding normalize_company
validate_binding pl (other_role _) company_id = err unsupported_role
validate_binding pl internal_admin company_id = elim (normalize_company pl company_id) [
  | none ↦ ok none
  | some _ ↦ err internal_with_company
]
validate_binding pl company_user company_id = elim (normalize_company pl company_id) [
  | none ↦ err company_missing
  | some c ↦ ok (some c)
]
