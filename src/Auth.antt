-- ===== src/Auth.antt =====
-- internal/auth/jwt.go and internal/auth/context.go: access tokens and the principal that a verified
-- one names. The package golang-jwt is a parameter; a duration is a signed number of nanoseconds.
pub mod Profiles
pub mod Messages
pub mod Tokens
pub mod Store
pub mod Once
pub mod SignIn
use be_pawfund.Prelude.{
  ◌≡◌, ◌+◌, ◌-◌, ◌<◌, suc, Bool, true, false, not, ◌||◌, Option, none, some, Result, ok, err, ltb,
  if◌then◌else◌,
}
use be_pawfund.Prelude.Int.{ℤ, pos, negsuc, int_lt}
use be_pawfund.Text.{Text, is_empty, text_eq, byte_length, trim_space}
use be_pawfund.Domain.{Instant, UserRole, role_supporter, role_fundraiser}

pub record Principal : Type 0 where
  pub wallet_address : Text
  pub role : UserRole

-- Claims; the registered ones that are set are `exp` and `iat`.
pub record Claims : Type 0 where
  pub wallet_address : Text
  pub role : UserRole
  pub expires_at : Instant
  pub issued_at : Instant

-- What the program calls of golang-jwt, for HS256 with a required expiry.
pub record TokenPackage : Type 0 where
  -- jwt.NewNumericDate
  pub numeric_date : Instant → Instant
  -- secret, claims; none for an error of SignedString
  pub sign : Text → Claims → Option Text
  -- secret, time, token; none for an error or a token that is not valid
  pub parse : Text → Instant → Text → Option Claims
  -- A signed token is read back with its secret until it expires.
  pub parse-sign :
      (secret : Text) (claims : Claims) (token : Text) (now : Instant)
      → sign secret claims ≡ some token
      → now < claims.expires_at
      → parse secret now token ≡ some claims
  pub parse-unexpired :
      (secret token : Text) (now : Instant) (claims : Claims)
      → parse secret now token ≡ some claims
      → now < claims.expires_at

-- now.Add(d)
abbrev pub add_duration : Instant → ℤ → Instant
add_duration now (pos n) = now + n
add_duration now (negsuc n) = now - suc n

-- isSupportedRole
unfoldable pub is_supported_role : UserRole → Bool
is_supported_role role =
    is_empty role || text_eq role role_supporter || text_eq role role_fundraiser

-- NewJWTManager: the secret of the manager, which needs 32 bytes; a text stands for the bytes here.
unfoldable pub new_jwt_manager : Text → Option Text
new_jwt_manager secret = if ltb (byte_length secret) 32 then none else some secret

module _ (tokens : TokenPackage) where
  -- JWTManager.Generate; every error is none.
  unfoldable pub generate : Text → Instant → Text → UserRole → ℤ → Option Text
  unfolding is_supported_role
  generate secret now wallet_address role ttl =
      let wallet = trim_space wallet_address in
      if is_empty wallet
      then none
      else if not (is_supported_role role)
      then none
      else if not (int_lt (pos 0) ttl)
      then none
      else tokens.sign secret (record {
        wallet_address = wallet;
        role = role;
        expires_at = tokens.numeric_date (add_duration now ttl);
        issued_at = tokens.numeric_date now;
      })

  abbrev pub checked_claims : Option Claims → Option Principal
  checked_claims none = none
  checked_claims (some claims) =
      let wallet = trim_space claims.wallet_address in
      if is_empty wallet
      then none
      else if not (is_supported_role claims.role)
      then none
      else some (record { wallet_address = wallet; role = claims.role })

  -- JWTManager.Verify; every error is none.
  unfoldable pub verify_token : Text → Instant → Text → Option Principal
  unfolding is_supported_role
  verify_token secret now token = checked_claims (tokens.parse secret now token)
