-- ===== src/Http/Handlers/Sessions.antt =====
-- internal/http/handler/auth_handler.go: the two requests of a sign-in, and the signed-in user.
use be_pawfund.Prelude.{Bool, true, false, Option, none, some, [], ◌∷◌, ◌++◌, Result, ok, err}
use be_pawfund.Prelude.Int.{ℤ}
use be_pawfund.Text.{Text, codes}
use be_pawfund.Domain.{Instant, UserRole}
use be_pawfund.Database.{Db}
use be_pawfund.Auth.{Principal}
use be_pawfund.Auth.Profiles.{AuthProfile}
use be_pawfund.Auth.Messages.{
  AuthError, invalid_wallet_address, invalid_message, invalid_signature, siwe_verification,
  profile_not_found, VerifyAuthResult, create_message, verify, get_me,
}
use be_pawfund.Http.Responses.{
  Response, success, error, validation_error, internal_error, no_store, challenge, Body, read_json,
}
use be_pawfund.Http.Requests.Campaigns.{
  CreateAuthMessageRequest, normalize_create_auth_message, validate_create_auth_message,
  VerifyAuthRequest, normalize_verify_auth, validate_verify_auth,
}
use be_pawfund.Http.Handlers.{Site, image_url, invalid_token, guarded, with_request}

pub record CreateAuthMessageResponse : Type 0 where
  pub message : Text

-- verifyAuthResponse; getMeResponse has the same fields but the token.
pub record GetMeResponse : Type 0 where
  pub is_not_registered : Bool
  pub address : Text
  pub name : Option Text
  pub role : Option UserRole
  pub image_url : Option Text
  pub chain_id : ℤ

pub record VerifyAuthResponse : Type 0 where
  pub access_token : Text
  pub me : GetMeResponse

module _ (site : Site) where
  abbrev Store : Type 0
  Store = site.auth.redis.Store

  abbrev pub created_message :
      Result AuthError Text × Store → Response CreateAuthMessageResponse × Store
  created_message (ok message, store) =
      (success 200 (codes "AUTH_MESSAGE_CREATED") (record { message = message }) no_store, store)
  created_message (err invalid_wallet_address, store) = (
    validation_error ((codes "address", codes "address must be a valid Ethereum address!") ∷ [])
        no_store,
    store,
  )
  created_message (err _, store) = (internal_error no_store, store)

  -- HandleCreateMessage
  unfoldable pub handle_create_message :
      Instant
      → Text
      → Body CreateAuthMessageRequest
      → Store
      → Response CreateAuthMessageResponse × Store
  handle_create_message now nonce body store =
      with_request (read_json body) normalize_create_auth_message validate_create_auth_message
        no_store store (λ r. created_message (create_message site.auth now nonce r.address store))

  -- The fields of an answer about a wallet.
  abbrev pub me_response : Text → Option AuthProfile → GetMeResponse
  me_response address none = record {
    is_not_registered = true;
    address = address;
    name = none;
    role = none;
    image_url = none;
    chain_id = site.auth.config.chain_id;
  }
  me_response address (some profile) = record {
    is_not_registered = false;
    address = address;
    name = some profile.name;
    role = some profile.role;
    image_url = image_url site profile.image_object_key;
    chain_id = site.auth.config.chain_id;
  }

  abbrev pub verified_message :
      Result AuthError VerifyAuthResult × Store → Response VerifyAuthResponse × Store
  verified_message (ok r, store) = (
    success 200 (codes "AUTH_VERIFIED")
        (record { access_token = r.access_token; me = me_response r.address r.profile }) no_store,
    store,
  )
  verified_message (err invalid_message, store) = (
    validation_error ((codes "message", codes "message must be a valid SIWE message!") ∷ [])
        no_store,
    store,
  )
  verified_message (err invalid_signature, store) = (
    validation_error
        ((codes "signature", codes "signature must be a valid 65-byte Ethereum signature!") ∷ [])
        no_store,
    store,
  )
  verified_message (err siwe_verification, store) =
      (error 401 (codes "SIWE_VERIFICATION_FAILED") [] no_store, store)
  verified_message (err _, store) = (internal_error no_store, store)

  -- HandleVerify
  unfoldable pub handle_verify :
      Instant → Bool → Db → Body VerifyAuthRequest → Store → Response VerifyAuthResponse × Store
  handle_verify now works db body store =
      with_request (read_json body) normalize_verify_auth validate_verify_auth no_store store
        (λ r. verified_message (verify site.auth now works db r.message r.signature store))

  abbrev pub me_found : Text → Result AuthError AuthProfile → Response GetMeResponse
  me_found address (ok profile) =
      success 200 (codes "PROFILE_RETRIEVED") (me_response address (some profile)) no_store
  me_found address (err profile_not_found) =
      success 200 (codes "PROFILE_RETRIEVED") (me_response address none) no_store
  me_found address (err _) = internal_error no_store

  -- HandleGetMe
  unfoldable pub handle_get_me : Bool → Option Principal → Db → Response GetMeResponse
  handle_get_me works principal db =
      guarded principal (invalid_token (no_store ++ challenge))
        (λ wallet_address role. me_found wallet_address (get_me site.auth works wallet_address db))
