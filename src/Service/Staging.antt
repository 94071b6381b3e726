-- ===== src/Service/Staging.antt =====
-- What the profile services leave of the bucket when they answer with an error: the promotions.
pub mod Supporters
pub mod Fundraisers
use be_pawfund.Prelude.{◌≡◌, true, Option, none, some, arith, Result, ok, err}
use be_pawfund.Text.{Text, trim_space}
use be_pawfund.Domain.{
  Uuid, Instant, Supporter, Fundraiser, SupporterProfileReplacement, FundraiserProfileReplacement,
  ImageObjectKeyUpdate, ServiceError, RepositoryError,
}
use be_pawfund.Database.{Db, Driver}
use be_pawfund.Database.Users.{Cleanup}
use be_pawfund.Database.Supporters.{create_supporter, replace_supporter}
use be_pawfund.Database.Fundraisers.{create_fundraiser, replace_fundraiser}
use be_pawfund.Storage.{promote, StorageError}
use be_pawfund.Storage.Promotion.{promote-keeps_all}
use be_pawfund.ObjectKey.{
  profile_image_directory, promote_image_object_key, promote_canonical, promoted,
  canonical_image_object_key,
}
use be_pawfund.Service.{Environment, World}
use be_pawfund.Service.Profiles.{
  promote_optional_image_object_key, promote_normalized, some_promoted, normalize_optional_string,
  promote_update, promote_value, updated_image, staged_of,
}

module _ (env : Environment) where
  open env.client use {Bucket, holds}

  pub promote_image-keeps :
      (key directory : Text) (b : Bucket) (k : Text)
      → holds b k ≡ true
      → holds (promote_image_object_key env.uuid env.client env.has_promoter key directory b).1 k
        ≡ true
  unfolding promote_image_object_key
  promote_image-keeps key directory b k h =
      by_key (canonical_image_object_key env.uuid key directory)
    where
      after :
          (canonical : Text) (r : Result StorageError (Unit {0}) × Bucket)
          → holds r.1 k ≡ true
          → holds (promoted env.uuid env.client canonical r).1 k ≡ true
      after canonical r g = ground arith

      by_key :
          (r : Result ServiceError Text)
          → holds (promote_canonical env.uuid env.client env.has_promoter key r b).1 k ≡ true
      by_key (err e) = h
      by_key (ok canonical) = ground (
        arith,
        after canonical (promote env.client (trim_space key) canonical b)
            (promote-keeps_all env.client (trim_space key) canonical b k h),
      )

  pub promote_optional-keeps :
      (staging_key : Option Text) (b : Bucket) (k : Text)
      → holds b k ≡ true
      → holds (promote_optional_image_object_key env staging_key b).1 k ≡ true
  unfolding promote_optional_image_object_key
  promote_optional-keeps staging_key b k h = by_key (normalize_optional_string staging_key)
    where
      wrap :
          (r : Result ServiceError Text × Bucket)
          → holds r.1 k ≡ true
          → holds (some_promoted env r).1 k ≡ true
      wrap r g = ground arith

      by_key : (n : Option Text) → holds (promote_normalized env n b).1 k ≡ true
      by_key none = h
      by_key (some key) =
          wrap
            (promote_image_object_key env.uuid env.client env.has_promoter key
              profile_image_directory b)
            (promote_image-keeps key profile_image_directory b k h)

  pub promote_update-keeps :
      (image : ImageObjectKeyUpdate) (b : Bucket) (k : Text)
      → holds b k ≡ true
      → holds (promote_update env image b).1 k ≡ true
  promote_update-keeps image b k h = by_value image.value
    where
      wrap :
          (r : Result ServiceError Text × Bucket)
          → holds r.1 k ≡ true
          → holds (updated_image env r).1 k ≡ true
      wrap r g = ground arith

      by_value : (v : Option Text) → holds (promote_value env v image b).1 k ≡ true
      by_value none = h
      by_value (some key) = ground (
        arith,
        wrap
            (promote_image_object_key env.uuid env.client env.has_promoter key
              profile_image_directory b)
            (promote_image-keeps key profile_image_directory b k h),
      )
