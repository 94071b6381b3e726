-- ===== src/Http/Requests/Campaigns.antt =====
-- campaign_dto.go, upload_dto.go and auth_dto.go: the bodies of a new campaign, of an upload and of the
-- sign-in.
use be_pawfund.Prelude.{ℕ, Bool, not, ◌||◌, Option, none, some, [], ◌∷◌, ◌++◌, if◌then◌else◌}
use be_pawfund.Prelude.Int.{ℤ, pos, int_lt}
use be_pawfund.Text.{Text, codes, is_empty, text_eq, to_lower, trim_space}
use be_pawfund.Domain.{Instant}
use be_pawfund.ObjectKey.{UuidPackage, campaign_image_directory}
use be_pawfund.Deployment.{Rfc3339}
use be_pawfund.Service.Uploads.{min_profile_image_size, max_profile_image_size}
use be_pawfund.Http.Options.{FieldErrors}
use be_pawfund.Http.Requests.{
  max_name_characters, max_country_characters, max_zip_code_characters, when,
  validate_required_length, validate_staged_image_object_key, image_error,
}

pub record CreateCampaignRequest : Type 0 where
  pub title : Text
  pub short_description : Text
  pub story : Text
  pub goal_amount : ℤ
  pub end_at : Text
  pub image_object_key : Text
  pub country : Text
  pub zip_code : Text

-- createCampaignRequest.normalize
unfoldable pub normalize_create_campaign : CreateCampaignRequest → CreateCampaignRequest
normalize_create_campaign r = record {
  title = trim_space r.title;
  short_description = trim_space r.short_description;
  story = trim_space r.story;
  goal_amount = r.goal_amount;
  end_at = trim_space r.end_at;
  image_object_key = trim_space r.image_object_key;
  country = trim_space r.country;
  zip_code = trim_space r.zip_code;
}

-- The parsed end, Go's zero time where it is not valid, and the errors.
abbrev pub parsed_end : Option Instant → Instant × FieldErrors
parsed_end none = (0, (codes "endAt", codes "endAt must be a valid RFC3339 timestamp!") ∷ [])
parsed_end (some t) = (t, [])

module _ (rfc3339 : Rfc3339) (uuid : UuidPackage) where
  abbrev pub end_of : Text → Instant × FieldErrors
  end_of end_at =
      if is_empty end_at
      then (0, (codes "endAt", codes "endAt is required!") ∷ [])
      else parsed_end (rfc3339.parse end_at)

  abbrev pub required_image : Text → FieldErrors
  required_image key =
      if is_empty key
      then image_error (codes "imageObjectKey is required!")
      else validate_staged_image_object_key uuid key campaign_image_directory

  -- createCampaignRequest.validate: the errors and the end. A text is valid UTF-8, so the last check of
  -- the source adds nothing.
  unfoldable pub validate_create_campaign : CreateCampaignRequest → FieldErrors × Instant
  validate_create_campaign r =
      let (end_at, end_errors) = end_of r.end_at in
      (
        validate_required_length (codes "title") r.title max_name_characters (codes "255")
            ++ validate_required_length (codes "shortDescription") r.short_description
                max_name_characters (codes "255")
            ++ when (is_empty r.story) (codes "story") (codes "story is required!")
            ++ when (not (int_lt (pos 0) r.goal_amount)) (codes "goalAmount")
                (codes "goalAmount must be greater than 0!")
            ++ end_errors
            ++ required_image r.image_object_key
            ++ validate_required_length (codes "country") r.country max_country_characters
                (codes "255")
            ++ validate_required_length (codes "zipCode") r.zip_code max_zip_code_characters
                (codes "20"),
        end_at,
      )

pub record PresignProfileImageRequest : Type 0 where
  pub content_type : Text
  pub size : ℤ

-- presignProfileImageRequest.normalize
unfoldable pub normalize_presign : (ℕ → ℕ) → PresignProfileImageRequest → PresignProfileImageRequest
normalize_presign unicode_lower r = record r {
  content_type = to_lower unicode_lower (trim_space r.content_type);
}

-- isSupportedProfileImageContentType
abbrev pub is_supported_profile_image_content_type : Text → Bool
is_supported_profile_image_content_type content_type =
    text_eq content_type (codes "image/jpeg")
    || text_eq content_type (codes "image/png")
    || text_eq content_type (codes "image/webp")

abbrev pub content_type_error : FieldErrors
content_type_error =
    (codes "contentType", codes "contentType must be image/jpeg, image/png, or image/webp!") ∷ []

abbrev pub size_error : FieldErrors
size_error = (codes "size", codes "size must be between 1 and 5242880 bytes!") ∷ []

-- presignProfileImageRequest.validate
unfoldable pub validate_presign : PresignProfileImageRequest → FieldErrors
validate_presign r =
    (if is_empty r.content_type
      then (codes "contentType", codes "contentType is required!") ∷ []
      else if is_supported_profile_image_content_type r.content_type
      then []
      else content_type_error)
    ++ (if int_lt r.size min_profile_image_size || int_lt max_profile_image_size r.size
        then size_error
        else [])

pub record CreateAuthMessageRequest : Type 0 where
  pub address : Text

-- createAuthMessageRequest.normalize and validate
abbrev pub normalize_create_auth_message : CreateAuthMessageRequest → CreateAuthMessageRequest
normalize_create_auth_message r = record { address = trim_space r.address }

abbrev pub validate_create_auth_message : CreateAuthMessageRequest → FieldErrors
validate_create_auth_message r =
    when (is_empty r.address) (codes "address") (codes "address is required!")

pub record VerifyAuthRequest : Type 0 where
  pub message : Text
  pub signature : Text

-- verifyAuthRequest.normalize and validate; the message is kept byte for byte.
abbrev pub normalize_verify_auth : VerifyAuthRequest → VerifyAuthRequest
normalize_verify_auth r = record r { signature = trim_space r.signature }

abbrev pub validate_verify_auth : VerifyAuthRequest → FieldErrors
validate_verify_auth r =
    when (is_empty (trim_space r.message)) (codes "message") (codes "message is required!")
    ++ when (is_empty r.signature) (codes "signature") (codes "signature is required!")
