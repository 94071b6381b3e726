-- ===== src/Tests/Images.antt =====
-- Runs of the image keys, the promoter and the uploads.
use be_pawfund.Prelude.{◌≡◌, refl, true, Option, some, List, [], ◌∷◌, ◌++◌, ok, inl}
use be_pawfund.Prelude.Int.{ℤ, pos}
use be_pawfund.Text.{
  Text, codes, text_eq, trim_space, trim_left, trim_right, is_space, has_prefix, drop_prefix,
  trim_prefix, has_suffix, trim_suffix, contains, to_lower,
}
use be_pawfund.Storage.{promote, discard}
use be_pawfund.Storage.Promotion.{promote-keeps_all}
use be_pawfund.ObjectKey.{
  extension_of_type, extension_from_name, profile_image_extension,
  profile_image_extension_from_name, canonical_rest, canonical_image_object_key,
  promote_image_object_key, staging_image_object_key, profile_image_directory,
}
use be_pawfund.ObjectKey.Canonical.{IsStaged, canonical-IsStaged}
use be_pawfund.ObjectKey.Promoted.{promote_image-holds, promote_image-again}
use be_pawfund.Service.Uploads.{
  PresignProfileImageInput, Presigned, presign_image, presign_image-Presigned,
}
use be_pawfund.Tests.Instances.{unary_uuid, listed_client, stat_never_broken}

abbrev staged : Text
staged = codes " tmp/profiles/aa.png"

abbrev committed : Text
committed = codes "profiles/aa.png"

abbrev bucket : List Text
bucket = codes "tmp/profiles/aa.png" ∷ codes "campaigns/a.jpg" ∷ []

accepted : canonical_image_object_key unary_uuid staged profile_image_directory ≡ ok committed
unfolding canonical_image_object_key canonical_rest profile_image_extension_from_name
    extension_from_name text_eq trim_space trim_left trim_right is_space has_prefix drop_prefix
    trim_prefix has_suffix trim_suffix contains
accepted = refl

canonical-IsStaged_example : IsStaged unary_uuid staged profile_image_directory committed
canonical-IsStaged_example =
    canonical-IsStaged unary_uuid staged profile_image_directory committed accepted

promoted_once :
    promote_image_object_key unary_uuid listed_client true staged profile_image_directory bucket
    ≡ (ok committed, committed ∷ bucket)
unfolding promote_image_object_key promote canonical_image_object_key canonical_rest
    profile_image_extension_from_name extension_from_name text_eq trim_space trim_left trim_right
    is_space has_prefix drop_prefix trim_prefix has_suffix trim_suffix contains
promoted_once = refl

promote_image-holds_example :
    listed_client.holds (discard listed_client (trim_space staged) (committed ∷ bucket)) committed
    ≡ true
promote_image-holds_example =
    promote_image-holds unary_uuid staged profile_image_directory committed listed_client bucket
      (committed ∷ bucket) (inl refl) promoted_once

committed_there : listed_client.holds (committed ∷ []) committed ≡ true
unfolding text_eq
committed_there = refl

promote_image-again_example :
    promote_image_object_key unary_uuid listed_client true staged profile_image_directory
      (committed ∷ [])
    ≡ (ok committed, committed ∷ [])
promote_image-again_example =
    promote_image-again unary_uuid staged profile_image_directory committed listed_client
      (committed ∷ []) (inl refl) accepted committed_there
      (stat_never_broken (committed ∷ []) committed)

other_there : listed_client.holds bucket (codes "campaigns/a.jpg") ≡ true
unfolding text_eq
other_there = refl

promote-keeps_all_example :
    listed_client.holds (promote listed_client staged committed bucket).1 (codes "campaigns/a.jpg")
    ≡ true
promote-keeps_all_example =
    promote-keeps_all listed_client staged committed bucket (codes "campaigns/a.jpg") other_there

abbrev presigner : Text → Text → ℤ → Option Text
presigner object_key content_type size = some (codes "https://" ++ object_key)

abbrev input : PresignProfileImageInput
input = record { content_type = codes "Image/PNG "; size = pos 1000 }

abbrev presigned_key : Text
presigned_key = codes "tmp/profiles/aaa.png"

presigns :
    presign_image (λ c. c) unary_uuid presigner profile_image_directory (some 3) input
    ≡ ok (record { object_key = presigned_key; url = codes "https://" ++ presigned_key })
unfolding presign_image profile_image_extension extension_of_type staging_image_object_key to_lower
    text_eq trim_space trim_left trim_right is_space
presigns = refl

presign_image-Presigned_example :
    Presigned (λ c. c) unary_uuid presigner profile_image_directory input presigned_key
presign_image-Presigned_example =
    presign_image-Presigned (λ c. c) unary_uuid presigner profile_image_directory (some 3) input
      (record { object_key = presigned_key; url = codes "https://" ++ presigned_key }) (inl refl)
      presigns
