-- ===== src/Http/Requests.antt =====
-- internal/http/handler: what the request bodies share in their validation. url.ParseRequestURI is a
-- parameter: the scheme and the host of a URL that it takes.
pub mod Profiles
pub mod Campaigns
pub mod Bounds
use be_pawfund.Prelude.{
  ℕ, ◌*◌, Bool, true, false, not, ◌&&◌, ◌||◌, Option, none, some, List, [], ◌∷◌, ◌++◌, Result, ok,
  err, ltb, leb, nat_eq, if◌then◌else◌,
}
use be_pawfund.Text.{Text, codes, is_empty, text_eq, byte_length, rune_count, to_lower, trim_space}
use be_pawfund.Domain.{ServiceError, ImageObjectKeyUpdate}
use be_pawfund.ObjectKey.{
  UuidPackage, campaign_image_directory, profile_image_directory, canonical_image_object_key,
}
use be_pawfund.Http.Options.{FieldErrors}

abbrev pub max_name_characters : ℕ
max_name_characters = 255

abbrev pub max_email_characters : ℕ
max_email_characters = 255

abbrev pub max_social_url_characters : ℕ
max_social_url_characters = 2048

abbrev pub max_country_characters : ℕ
max_country_characters = 255

abbrev pub max_zip_code_characters : ℕ
max_zip_code_characters = 20

abbrev pub max_image_object_key_bytes : ℕ
max_image_object_key_bytes = 1024

-- fieldErrors.Add under a condition
abbrev pub when : Bool → Text → Text → FieldErrors
when wrong field message = if wrong then (field, message) ∷ [] else []

-- validateRequiredLength; `limit` is the printed number of characters.
unfoldable pub validate_required_length : Text → Text → ℕ → Text → FieldErrors
validate_required_length field value max_characters limit =
    if is_empty value
    then (field, field ++ codes " is required!") ∷ []
    else when (ltb max_characters (rune_count value)) field
        (field ++ codes " must not exceed " ++ limit ++ codes " characters!")

abbrev pub is_letter : ℕ → Bool
is_letter c = (leb b'a' c && leb c b'z') || (leb b'A' c && leb c b'Z')

abbrev pub is_domain_char : ℕ → Bool
is_domain_char c = is_letter c || (leb b'0' c && leb c b'9') || nat_eq c b'.' || nat_eq c b'-'

abbrev pub is_local_char : ℕ → Bool
is_local_char c = is_domain_char c || nat_eq c b'_' || nat_eq c b'%' || nat_eq c b'+'

unfoldable pub all_letters : Text → Bool
all_letters [] = true
all_letters (c ∷ s) = is_letter c && all_letters s

-- [a-zA-Z]{2,}$
abbrev pub is_top_level : Text → Bool
is_top_level (c ∷ d ∷ s) = is_letter c && is_letter d && all_letters s
is_top_level _ = false

-- [a-zA-Z0-9.-]*\.[a-zA-Z]{2,}$
unfoldable pub ends_in_top_level : Text → Bool
ends_in_top_level [] = false
ends_in_top_level (c ∷ s) =
    (nat_eq c b'.' && is_top_level s) || (is_domain_char c && ends_in_top_level s)

abbrev pub is_email_domain : Text → Bool
is_email_domain [] = false
is_email_domain (c ∷ s) = is_domain_char c && ends_in_top_level s

-- [a-zA-Z0-9._%+-]*@[a-zA-Z0-9.-]+\.[a-zA-Z]{2,}$
unfoldable pub continues_email : Text → Bool
continues_email [] = false
continues_email (c ∷ s) =
    if nat_eq c b'@' then is_email_domain s else is_local_char c && continues_email s

-- emailPattern.MatchString
unfoldable pub matches_email : Text → Bool
unfolding all_letters ends_in_top_level continues_email
matches_email [] = false
matches_email (c ∷ s) = is_local_char c && continues_email s

-- The checks of an email, the same in the four validate methods
unfoldable pub validate_email : Text → FieldErrors
unfolding matches_email
validate_email email =
    if is_empty email
    then (codes "email", codes "email is required!") ∷ []
    else when (ltb max_email_characters (rune_count email)) (codes "email")
        (codes "email must not exceed 255 characters!")
      ++ when (not (matches_email email)) (codes "email") (codes "email format is not valid!")

-- isAbsoluteHTTPURL
abbrev pub is_absolute_http : Option (Text × Text) → Bool
is_absolute_http none = false
is_absolute_http (some (scheme, host)) =
    (text_eq scheme (codes "http") || text_eq scheme (codes "https")) && not (is_empty host)

-- The checks of the social URL, the same in the two validate methods of fundraisers
unfoldable pub validate_social_url : (Text → Option (Text × Text)) → Text → FieldErrors
validate_social_url parse_request_uri social_url =
    if is_empty social_url
    then (codes "socialUrl", codes "socialUrl is required!") ∷ []
    else when (ltb max_social_url_characters (rune_count social_url)) (codes "socialUrl")
        (codes "socialUrl must not exceed 2048 characters!")
      ++ when (not (is_absolute_http (parse_request_uri social_url))) (codes "socialUrl")
          (codes "socialUrl must be an absolute HTTP or HTTPS URL!")

-- stagedImageObjectKeyMessage
abbrev pub staged_image_object_key_message : Text → Text
staged_image_object_key_message directory =
    if text_eq directory campaign_image_directory
    then codes "imageObjectKey must be a staged campaign image key!"
    else codes "imageObjectKey must be a staged profile image key!"

abbrev pub image_error : Text → FieldErrors
image_error message = (codes "imageObjectKey", message) ∷ []

abbrev pub refused_key : Text → Result ServiceError Text → FieldErrors
refused_key directory (ok canonical) = []
refused_key directory (err e) = image_error (staged_image_object_key_message directory)

module _ (uuid : UuidPackage) where
  -- validateStagedImageObjectKey
  unfoldable pub validate_staged_image_object_key : Text → Text → FieldErrors
  validate_staged_image_object_key key directory =
      if is_empty key
      then []
      else if ltb max_image_object_key_bytes (byte_length key)
      then image_error (codes "imageObjectKey must not exceed 1024 bytes!")
      else refused_key directory (canonical_image_object_key uuid key directory)

  -- The image of a registration
  abbrev pub validate_given_image : Option Text → FieldErrors
  validate_given_image none = []
  validate_given_image (some key) = validate_staged_image_object_key key profile_image_directory

  -- The image of a replacement
  abbrev pub validate_value : Bool → Option Text → FieldErrors
  validate_value false value = []
  validate_value true none = []
  validate_value true (some key) =
      if is_empty key
      then image_error (codes "imageObjectKey must not be empty!")
      else validate_staged_image_object_key key profile_image_directory

-- optionalImageObjectKey.normalize
abbrev pub normalize_value : Option Text → Option Text
normalize_value none = none
normalize_value (some value) = some (trim_space value)

abbrev pub normalize_optional_image_object_key : ImageObjectKeyUpdate → ImageObjectKeyUpdate
normalize_optional_image_object_key k =
    if k.is_set then record k { value = normalize_value k.value } else k
