-- ===== src/ObjectKey.antt =====
-- internal/service/object_key.go: the keys of staged and committed images, and the promotion of a
-- staged image. github.com/google/uuid is a parameter.
pub mod Canonical
pub mod Staged
pub mod Promoted
use be_pawfund.Prelude.{
  ℕ, ◌≡◌, Bool, true, false, ◌&&◌, ◌||◌, not, Option, none, some, List, [], ◌∷◌, ◌++◌, leb, Result,
  ok, err, if◌then◌else◌, All, is_some,
}
use be_pawfund.Text.{
  Text, codes, text_eq, is_empty, trim_space, to_lower, has_prefix, trim_prefix, has_suffix,
  trim_suffix, contains,
}
use be_pawfund.Domain.{
  Uuid, ServiceError, invalid_image_object_key, image_object_not_found, internal,
  unsupported_profile_image_type,
}
use be_pawfund.Storage.{ObjectClient, StorageError, object_not_found, other, promote, discard}

-- A hexadecimal digit or the dash.
abbrev pub is_uuid_char : ℕ → Bool
is_uuid_char c =
    (leb b'0' c && leb c b'9') || (leb b'a' c && leb c b'f') || leb b'-' c && leb c b'-'

-- uuid.Parse and UUID.String. `String` writes lower-case hexadecimal digits and dashes, which
-- `Parse` reads back.
pub record UuidPackage : Type 0 where
  pub parse : Text → Option Uuid
  pub to_string : Uuid → Text
  pub parse-to_string : (u : Uuid) → parse (to_string u) ≡ some u
  pub to_string_chars : (u : Uuid) → All (λ c. is_uuid_char c ≡ true) (to_string u)

abbrev pub staging_prefix : Text
staging_prefix = codes "tmp/"

abbrev pub profile_image_directory : Text
profile_image_directory = codes "profiles"

abbrev pub campaign_image_directory : Text
campaign_image_directory = codes "campaigns"

abbrev pub profile_image_types : List (Text × Text)
profile_image_types =
    (codes "image/jpeg", codes ".jpg")
    ∷ (codes "image/png", codes ".png")
    ∷ (codes "image/webp", codes ".webp")
    ∷ []

unfoldable pub staging_image_object_key : Text → Text → Text → Text
staging_image_object_key directory id extension =
    staging_prefix ++ (directory ++ (codes "/" ++ (id ++ extension)))

-- The two loops over `profileImageTypes`.
unfoldable pub extension_of_type : List (Text × Text) → Text → Option Text
extension_of_type [] normalized = none
extension_of_type ((content_type, extension) ∷ types) normalized =
    if text_eq content_type normalized then some extension else extension_of_type types normalized

unfoldable pub extension_from_name : List (Text × Text) → Text → Text
extension_from_name [] name = []
extension_from_name ((content_type, extension) ∷ types) name =
    if has_suffix name extension then extension else extension_from_name types name

unfoldable pub profile_image_extension_from_name : Text → Text
unfolding extension_from_name
profile_image_extension_from_name name = extension_from_name profile_image_types name

unfoldable pub profile_image_extension : (ℕ → ℕ) → Text → Result ServiceError Text
unfolding extension_of_type
profile_image_extension unicode_lower content_type =
    elim (extension_of_type profile_image_types
      (to_lower unicode_lower (trim_space content_type))) [
        | none ↦ err unsupported_profile_image_type
        | some extension ↦ ok extension
      ]

module _ (uuid : UuidPackage) where
  -- From the part of the key behind the directory on.
  unfoldable pub canonical_rest : Text → Text → Result ServiceError Text
  canonical_rest rest expected_directory =
      if is_empty rest || contains rest (codes "/")
      then err invalid_image_object_key
      else let extension = profile_image_extension_from_name rest in
        if is_empty extension
        then err invalid_image_object_key
        else if is_some (uuid.parse (trim_suffix rest extension))
        then ok (expected_directory ++ (codes "/" ++ rest))
        else err invalid_image_object_key

  unfoldable pub canonical_image_object_key : Text → Text → Result ServiceError Text
  canonical_image_object_key staging_key expected_directory =
      let key = trim_space staging_key in
      let prefix = staging_prefix ++ (expected_directory ++ codes "/") in
      if is_empty key || has_prefix key (codes "/") || contains key (codes "..")
      then err invalid_image_object_key
      else if not (has_prefix key prefix)
      then err invalid_image_object_key
      else canonical_rest (trim_prefix key prefix) expected_directory

  module _ (client : ObjectClient) where
    open client use {Bucket}

    abbrev pub promoted :
        Text → Result StorageError (Unit {0}) × Bucket → Result ServiceError Text × Bucket
    promoted canonical (ok u, b) = (ok canonical, b)
    promoted canonical (err object_not_found, b) = (err image_object_not_found, b)
    promoted canonical (err other, b) = (err internal, b)

    abbrev pub promote_canonical :
        Bool → Text → Result ServiceError Text → Bucket → Result ServiceError Text × Bucket
    promote_canonical has_promoter staging_key (err e) b = (err e, b)
    promote_canonical has_promoter staging_key (ok canonical) b =
        if has_promoter
        then promoted canonical (promote client (trim_space staging_key) canonical b)
        else (ok canonical, b)

    -- `has_promoter` is `promoter != nil`.
    unfoldable pub promote_image_object_key :
        Bool → Text → Text → Bucket → Result ServiceError Text × Bucket
    promote_image_object_key has_promoter staging_key directory b =
        promote_canonical has_promoter staging_key
          (canonical_image_object_key staging_key directory) b

    unfoldable pub discard_staging_image : Bool → Option Text → Bucket → Bucket
    discard_staging_image has_promoter none b = b
    discard_staging_image has_promoter (some staging_key) b =
        let key = trim_space staging_key in
        if has_promoter && not (is_empty key) then discard client key b else b
