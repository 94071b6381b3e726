-- ===== src/Service/Uploads.antt =====
-- internal/service/upload.go: presigned uploads of staged images. The presigner is a parameter: the URL
-- for a key, a content type and a size, none where it fails.
use be_pawfund.Prelude.{
  ℕ, ◌≡◌, ◌*◌, refl, false, ◌||◌, Option, none, some, ◌++◌, arith, Result, ok, err, if◌then◌else◌,
  Member,
}
use be_pawfund.Prelude.Int.{ℤ, pos, int_lt}
use be_pawfund.Text.{Text, codes, to_lower, trim_space}
use be_pawfund.Domain.{Uuid, ServiceError, invalid_profile_image_size, internal}
use be_pawfund.ObjectKey.{
  UuidPackage, profile_image_extension, staging_image_object_key, canonical_image_object_key,
  extension_of_type,
}
use be_pawfund.ObjectKey.Canonical.{extensions}
use be_pawfund.ObjectKey.Staged.{directories, canonical-staging_image_object_key}

abbrev pub min_profile_image_size : ℤ
min_profile_image_size = pos 1

abbrev pub max_profile_image_size : ℤ
max_profile_image_size = pos (5 * 1024 * 1024)

pub record PresignProfileImageInput : Type 0 where
  pub content_type : Text
  pub size : ℤ

pub record PresignProfileImageResult : Type 0 where
  pub object_key : Text
  pub url : Text

module _ (unicode_lower : ℕ → ℕ) (uuid : UuidPackage)
    (presign_put : Text → Text → ℤ → Option Text) where
  abbrev pub presigned : Text → Option Text → Result ServiceError PresignProfileImageResult
  presigned object_key none = err internal
  presigned object_key (some url) = ok (record { object_key = object_key; url = url })

  abbrev pub with_key :
      Text → Text → ℤ → Text → Option Uuid → Result ServiceError PresignProfileImageResult
  with_key directory content_type size extension none = err internal
  with_key directory content_type size extension (some id) =
      let object_key = staging_image_object_key directory (uuid.to_string id) extension in
      presigned object_key (presign_put object_key content_type size)

  abbrev pub with_extension :
      Text
      → Text
      → ℤ
      → Option Uuid
      → Result ServiceError Text
      → Result ServiceError PresignProfileImageResult
  with_extension directory content_type size id (err e) = err e
  with_extension directory content_type size id (ok extension) =
      if int_lt size min_profile_image_size || int_lt max_profile_image_size size
      then err invalid_profile_image_size
      else with_key directory content_type size extension id

  -- UploadService.presignImage; `id` is the answer of the id generator. PresignProfileImage and
  -- PresignCampaignImage are this at their directories.
  unfoldable pub presign_image :
      Text → Option Uuid → PresignProfileImageInput → Result ServiceError PresignProfileImageResult
  presign_image directory id input =
      let content_type = to_lower unicode_lower (trim_space input.content_type) in
      with_extension directory content_type input.size id
        (profile_image_extension unicode_lower content_type)

  extension_is_known :
      (content_type extension : Text)
      → profile_image_extension unicode_lower content_type ≡ ok extension
      → Member extension extensions
  unfolding profile_image_extension extension_of_type
  extension_is_known content_type extension h = ground arith

  -- What an accepted upload is: its size is from 1 byte to 5 MiB, and its key is one that the creation
  -- of a profile or a campaign accepts for the same directory, under the drawn UUID.
  pub record Presigned (directory : Text) (input : PresignProfileImageInput) (object_key : Text)
      : Type 0 where
    pub id : Uuid
    pub extension : Text
    pub size_low : int_lt input.size min_profile_image_size ≡ false
    pub size_high : int_lt max_profile_image_size input.size ≡ false
    pub known : Member extension extensions
    pub accepted :
        canonical_image_object_key uuid object_key directory
        ≡ ok (directory ++ (codes "/" ++ (uuid.to_string id ++ extension)))

  -- Every presigned upload to one of the two image directories is Presigned.
  pub presign_image-Presigned :
      (directory : Text) (id : Option Uuid) (input : PresignProfileImageInput)
      (result : PresignProfileImageResult)
      → Member directory directories
      → presign_image directory id input ≡ ok result
      → Presigned directory input result.object_key
  unfolding presign_image
  presign_image-Presigned directory none input result m h = ground arith
  presign_image-Presigned directory (some id) input result m h =
      let content_type = to_lower unicode_lower (trim_space input.content_type) in
      by_extension (profile_image_extension unicode_lower content_type) refl h
    where
      by_extension :
          (r : Result ServiceError Text)
          → profile_image_extension unicode_lower
              (to_lower unicode_lower (trim_space input.content_type))
            ≡ r
          → with_extension directory
              (to_lower unicode_lower (trim_space input.content_type))
              input.size
              (some id)
              r
            ≡ ok result
          → Presigned directory input result.object_key
      by_extension (err e) f k = ground arith
      by_extension (ok extension) f k =
          let known =
            extension_is_known (to_lower unicode_lower (trim_space input.content_type)) extension
              f in
          let key : staging_image_object_key directory (uuid.to_string id) extension
              ≡ result.object_key =
            ground arith in
          record {
            id = id;
            extension = extension;
            size_low = ground arith;
            size_high = ground arith;
            known = known;
            accepted =
                rw (← key) (canonical-staging_image_object_key uuid id extension known directory m);
          }
