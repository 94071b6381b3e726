-- ===== src/Service/Profiles.antt =====
-- What the services of fundraisers and supporters share: the normalisation of optional texts, the
-- optional promotion of an image, the removal of an old image, and the errors of registration.
use be_pawfund.Prelude.{true, Option, none, some, Result, ok, err, if◌then◌else◌}
use be_pawfund.Text.{Text, is_empty, to_lower, trim_space}
use be_pawfund.Domain.{
  ImageObjectKeyUpdate, ServiceError, email_already_registered, wallet_already_registered,
  active_campaigns_exist, internal, RepositoryError, email_already_exists, wallet_already_exists,
  fundraiser_has_active_campaigns,
}
use be_pawfund.Storage.{delete}
use be_pawfund.ObjectKey.{profile_image_directory, promote_image_object_key}
use be_pawfund.Service.{Environment}

-- normalizeOptionalString
unfoldable pub normalize_optional_string : Option Text → Option Text
normalize_optional_string none = none
normalize_optional_string (some value) =
    let normalized = trim_space value in if is_empty normalized then none else some normalized

-- normalizeProfileString(value, false), the only way it is called
abbrev pub normalize_profile_string : Option Text → Option Text
normalize_profile_string none = none
normalize_profile_string (some value) = some (trim_space value)

-- The step of the two normalize…ProfileReplacement functions on the image.
abbrev pub normalize_image : ImageObjectKeyUpdate → ImageObjectKeyUpdate
normalize_image image =
    if image.is_set then record image { value = normalize_profile_string image.value } else image

-- The errors of the two Register methods.
abbrev pub register_error : RepositoryError → ServiceError
register_error email_already_exists = email_already_registered
register_error wallet_already_exists = wallet_already_registered
register_error _ = internal

-- The errors of the two ReplaceProfile methods.
abbrev pub replace_error : RepositoryError → ServiceError
replace_error email_already_exists = email_already_registered
replace_error _ = internal

-- The errors of FundraiserService.DeleteProfile; a supporter's are internal.
abbrev pub delete_error : RepositoryError → ServiceError
delete_error fundraiser_has_active_campaigns = active_campaigns_exist
delete_error _ = internal

module _ (env : Environment) where
  -- strings.ToLower(strings.TrimSpace(email))
  abbrev pub normalize_email : Text → Text
  normalize_email email = to_lower env.unicode_lower (trim_space email)

  abbrev pub some_promoted :
      Result ServiceError Text × env.client.Bucket
      → Result ServiceError (Option Text) × env.client.Bucket
  some_promoted (err e, bucket) = (err e, bucket)
  some_promoted (ok canonical, bucket) = (ok (some canonical), bucket)

  abbrev pub promote_normalized :
      Option Text → env.client.Bucket → Result ServiceError (Option Text) × env.client.Bucket
  promote_normalized none bucket = (ok none, bucket)
  promote_normalized (some key) bucket = some_promoted (
      promote_image_object_key env.uuid env.client env.has_promoter key profile_image_directory
        bucket)

  -- promoteOptionalImageObjectKey
  unfoldable pub promote_optional_image_object_key :
      Option Text → env.client.Bucket → Result ServiceError (Option Text) × env.client.Bucket
  unfolding normalize_optional_string
  promote_optional_image_object_key staging_key bucket =
      promote_normalized (normalize_optional_string staging_key) bucket

  -- The image of a replacement as the two ReplaceProfile methods promote it.
  abbrev pub updated_image :
      Result ServiceError Text × env.client.Bucket
      → Result ServiceError ImageObjectKeyUpdate × env.client.Bucket
  updated_image (err e, bucket) = (err e, bucket)
  updated_image (ok canonical, bucket) =
      (ok (record { is_set = true; value = some canonical }), bucket)

  abbrev pub promote_value :
      Option Text
      → ImageObjectKeyUpdate
      → env.client.Bucket
      → Result ServiceError ImageObjectKeyUpdate × env.client.Bucket
  promote_value none image bucket = (ok image, bucket)
  promote_value (some key) image bucket =
      if image.is_set
      then updated_image (
          promote_image_object_key env.uuid env.client env.has_promoter key profile_image_directory
            bucket)
      else (ok image, bucket)

  abbrev pub promote_update :
      ImageObjectKeyUpdate
      → env.client.Bucket
      → Result ServiceError ImageObjectKeyUpdate × env.client.Bucket
  promote_update image bucket = promote_value image.value image bucket

  -- The staged key that is discarded after a replacement.
  abbrev pub staged_of : ImageObjectKeyUpdate → Option Text
  staged_of image = if image.is_set then image.value else none

  -- The removal of an image after the transaction; a failure is only logged.
  abbrev pub clean_up : Option Text → env.client.Bucket → env.client.Bucket
  clean_up none bucket = bucket
  clean_up (some key) bucket = if env.has_deleter then (delete env.client key bucket).1 else bucket
