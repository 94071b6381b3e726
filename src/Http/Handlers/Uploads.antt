-- ===== src/Http/Handlers/Uploads.antt =====
-- internal/http/handler/upload_handler.go. The presigner is a parameter, as in the service.
use be_pawfund.Prelude.{ℕ, Option, [], ◌++◌, Result, ok, err}
use be_pawfund.Prelude.Int.{ℤ}
use be_pawfund.Text.{Text, codes}
use be_pawfund.Domain.{
  Uuid, role_fundraiser, ServiceError, unsupported_profile_image_type, invalid_profile_image_size,
}
use be_pawfund.ObjectKey.{UuidPackage, profile_image_directory, campaign_image_directory}
use be_pawfund.Service.Uploads.{PresignProfileImageResult, presign_image}
use be_pawfund.Auth.{Principal}
use be_pawfund.Http.Responses.{
  Response, success, error, validation_error, internal_error, no_store, challenge, Body, read_json,
}
use be_pawfund.Http.Requests.Campaigns.{
  PresignProfileImageRequest, normalize_presign, validate_presign, content_type_error, size_error,
}
use be_pawfund.Http.Handlers.{invalid_token, guarded, require_role, with_request}

-- The answer of a handler that changes nothing
abbrev pub alone : {A : Type 0} → A → A × Unit {0}
alone a = (a, tt)

abbrev pub presigned_response :
    Text → Result ServiceError PresignProfileImageResult → Response PresignProfileImageResult
presigned_response code (ok result) = success 200 code result no_store
presigned_response code (err unsupported_profile_image_type) =
    validation_error content_type_error no_store
presigned_response code (err invalid_profile_image_size) = validation_error size_error no_store
presigned_response code (err _) = internal_error no_store

abbrev pub fundraiser_access_required : {A : Type 0} → Response A
fundraiser_access_required = error 403 (codes "FUNDRAISER_ACCESS_REQUIRED") [] no_store

module _ (unicode_lower : ℕ → ℕ) (uuid : UuidPackage)
    (presign_put : Text → Text → ℤ → Option Text) where
  abbrev pub presign_for :
      Text → Text → Option Uuid → PresignProfileImageRequest → Response PresignProfileImageResult
  presign_for code directory id r = presigned_response code (
      presign_image unicode_lower uuid presign_put directory id
        (record { content_type = r.content_type; size = r.size }))

  -- HandlePresignProfileImage: the body is checked before the principal.
  unfoldable pub handle_presign_profile_image :
      Option Uuid
      → Option Principal
      → Body PresignProfileImageRequest
      → Response PresignProfileImageResult
  handle_presign_profile_image id principal body =
      (with_request (read_json body) (normalize_presign unicode_lower) validate_presign no_store tt
        (λ r. alone (
          guarded principal (invalid_token (no_store ++ challenge)) (λ wallet_address role.
            presign_for (codes "PROFILE_IMAGE_UPLOAD_PRESIGNED") profile_image_directory id r)))).0

  -- HandlePresignCampaignImage: the principal and its role are checked before the body.
  unfoldable pub handle_presign_campaign_image :
      Option Uuid
      → Option Principal
      → Body PresignProfileImageRequest
      → Response PresignProfileImageResult
  handle_presign_campaign_image id principal body =
      guarded principal (invalid_token (no_store ++ challenge)) (λ wallet_address role.
        require_role role_fundraiser role fundraiser_access_required
          (with_request (read_json body) (normalize_presign unicode_lower) validate_presign no_store
            tt
            (λ r. alone (
              presign_for (codes "CAMPAIGN_IMAGE_UPLOAD_PRESIGNED") campaign_image_directory id
                r))).0)
