-- ===== src/Auth/Tokens.antt =====
-- What a generated access token is verified as.
use be_pawfund.Prelude.{◌≡◌, ◌<◌, true, false, some, arith}
use be_pawfund.Prelude.Int.{ℤ}
use be_pawfund.Text.{Text, is_empty, trim_space}
use be_pawfund.Text.Trim.{trim_space_idem}
use be_pawfund.Domain.{Instant, UserRole}
use be_pawfund.Auth.{Claims, TokenPackage, add_duration, is_supported_role, generate, verify_token}

module _ (tokens : TokenPackage) where
  abbrev pub claims_of : Instant → Text → UserRole → ℤ → Claims
  claims_of now wallet_address role ttl = record {
    wallet_address = trim_space wallet_address;
    role = role;
    expires_at = tokens.numeric_date (add_duration now ttl);
    issued_at = tokens.numeric_date now;
  }

  -- What Generate has checked when it answers with a token.
  pub record IsGenerated (secret : Text) (now : Instant) (wallet_address : Text) (role : UserRole)
      (ttl : ℤ) (token : Text) : Type 0 where
    pub wallet_given : is_empty (trim_space wallet_address) ≡ false
    pub role_supported : is_supported_role role ≡ true
    pub signed : tokens.sign secret (claims_of now wallet_address role ttl) ≡ some token

  pub generate-IsGenerated :
      (secret : Text) (now : Instant) (wallet_address : Text) (role : UserRole) (ttl : ℤ)
      (token : Text)
      → generate tokens secret now wallet_address role ttl ≡ some token
      → IsGenerated secret now wallet_address role ttl token
  unfolding generate
  generate-IsGenerated secret now wallet_address role ttl token h = record {
    wallet_given = ground arith;
    role_supported = ground arith;
    signed = ground arith;
  }

  -- A token that Generate made is verified, until its expiry, as the trimmed wallet address and the
  -- role that it was made for.
  pub verify_token-generate :
      (secret : Text) (now : Instant) (wallet_address : Text) (role : UserRole) (ttl : ℤ)
      (token : Text) (later : Instant)
      → generate tokens secret now wallet_address role ttl ≡ some token
      → later < tokens.numeric_date (add_duration now ttl)
      → verify_token tokens secret later token
        ≡ some (record { wallet_address = trim_space wallet_address; role = role })
  unfolding verify_token
  verify_token-generate secret now wallet_address role ttl token later h alive =
      let made = generate-IsGenerated secret now wallet_address role ttl token h in
      let read =
        tokens.parse-sign secret (claims_of now wallet_address role ttl) token later made.signed
          alive in
      rw (read, trim_space_idem wallet_address, made.wallet_given, made.role_supported)
