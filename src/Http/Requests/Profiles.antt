-- ===== src/Http/Requests/Profiles.antt =====
-- supporter_dto.go and fundraiser_dto.go: the bodies of registrations and replacements.
use be_pawfund.Prelude.{ℕ, Option, ◌++◌}
use be_pawfund.Text.{Text, codes, to_lower, trim_space}
use be_pawfund.Domain.{
  ImageObjectKeyUpdate, SupporterProfileReplacement, FundraiserProfileReplacement,
}
use be_pawfund.ObjectKey.{UuidPackage}
use be_pawfund.Service.Profiles.{normalize_optional_string}
use be_pawfund.Http.Options.{FieldErrors}
use be_pawfund.Http.Requests.{
  max_name_characters, max_country_characters, max_zip_code_characters, validate_required_length,
  validate_email, validate_social_url, validate_given_image, validate_value,
  normalize_optional_image_object_key,
}

pub record RegisterSupporterRequest : Type 0 where
  pub name : Text
  pub email : Text
  pub image_object_key : Option Text

-- optionalImageObjectKey has the fields of domain.ImageObjectKeyUpdate.
pub record ReplaceSupporterProfileRequest : Type 0 where
  pub name : Text
  pub email : Text
  pub image_object_key : ImageObjectKeyUpdate

pub record FundraiserContactPerson : Type 0 where
  pub name : Text
  pub phone : Text

pub record RegisterFundraiserRequest : Type 0 where
  pub name : Text
  pub email : Text
  pub contact_person : FundraiserContactPerson
  pub social_url : Text
  pub country : Text
  pub zip_code : Text
  pub image_object_key : Option Text

pub record ReplaceFundraiserProfileRequest : Type 0 where
  pub name : Text
  pub image_object_key : ImageObjectKeyUpdate
  pub email : Text
  pub contact_person : FundraiserContactPerson
  pub social_url : Text
  pub country : Text
  pub zip_code : Text

abbrev pub trimmed_contact : FundraiserContactPerson → FundraiserContactPerson
trimmed_contact c = record { name = trim_space c.name; phone = trim_space c.phone }

module _ (unicode_lower : ℕ → ℕ) where
  -- registerSupporterRequest.normalize
  unfoldable pub normalize_register_supporter : RegisterSupporterRequest → RegisterSupporterRequest
  normalize_register_supporter r = record {
    name = trim_space r.name;
    email = to_lower unicode_lower (trim_space r.email);
    image_object_key = normalize_optional_string r.image_object_key;
  }

  -- replaceSupporterProfileRequest.normalize
  unfoldable pub normalize_replace_supporter :
      ReplaceSupporterProfileRequest → ReplaceSupporterProfileRequest
  normalize_replace_supporter r = record {
    name = trim_space r.name;
    email = to_lower unicode_lower (trim_space r.email);
    image_object_key = normalize_optional_image_object_key r.image_object_key;
  }

  -- registerFundraiserRequest.normalize
  unfoldable pub normalize_register_fundraiser :
      RegisterFundraiserRequest → RegisterFundraiserRequest
  normalize_register_fundraiser r = record {
    name = trim_space r.name;
    email = to_lower unicode_lower (trim_space r.email);
    contact_person = trimmed_contact r.contact_person;
    social_url = trim_space r.social_url;
    country = trim_space r.country;
    zip_code = trim_space r.zip_code;
    image_object_key = normalize_optional_string r.image_object_key;
  }

  -- replaceFundraiserProfileRequest.normalize
  unfoldable pub normalize_replace_fundraiser :
      ReplaceFundraiserProfileRequest → ReplaceFundraiserProfileRequest
  normalize_replace_fundraiser r = record {
    name = trim_space r.name;
    image_object_key = normalize_optional_image_object_key r.image_object_key;
    email = to_lower unicode_lower (trim_space r.email);
    contact_person = trimmed_contact r.contact_person;
    social_url = trim_space r.social_url;
    country = trim_space r.country;
    zip_code = trim_space r.zip_code;
  }

-- The checks of the fields that both requests of a fundraiser have
abbrev pub validate_fundraiser_fields :
    (Text → Option (Text × Text))
    → Text
    → Text
    → FundraiserContactPerson
    → Text
    → Text
    → Text
    → FieldErrors
validate_fundraiser_fields parse_request_uri name email contact social_url country zip_code =
    validate_required_length (codes "name") name max_name_characters (codes "255")
    ++ validate_email email
    ++ validate_required_length (codes "contactPerson.name") contact.name max_name_characters
        (codes "255")
    ++ validate_required_length (codes "contactPerson.phone") contact.phone max_name_characters
        (codes "255")
    ++ validate_social_url parse_request_uri social_url
    ++ validate_required_length (codes "country") country max_country_characters (codes "255")
    ++ validate_required_length (codes "zipCode") zip_code max_zip_code_characters (codes "20")

module _ (uuid : UuidPackage) where
  -- registerSupporterRequest.validate; no error is the empty list.
  unfoldable pub validate_register_supporter : RegisterSupporterRequest → FieldErrors
  validate_register_supporter r =
      validate_required_length (codes "name") r.name max_name_characters (codes "255")
      ++ validate_email r.email
      ++ validate_given_image uuid r.image_object_key

  -- replaceSupporterProfileRequest.validate
  unfoldable pub validate_replace_supporter : ReplaceSupporterProfileRequest → FieldErrors
  validate_replace_supporter r =
      validate_required_length (codes "name") r.name max_name_characters (codes "255")
      ++ validate_email r.email
      ++ validate_value uuid r.image_object_key.is_set r.image_object_key.value

  module _ (parse_request_uri : Text → Option (Text × Text)) where
    -- registerFundraiserRequest.validate
    unfoldable pub validate_register_fundraiser : RegisterFundraiserRequest → FieldErrors
    validate_register_fundraiser r =
        validate_fundraiser_fields parse_request_uri r.name r.email r.contact_person r.social_url
          r.country r.zip_code
        ++ validate_given_image uuid r.image_object_key

    -- replaceFundraiserProfileRequest.validate
    unfoldable pub validate_replace_fundraiser : ReplaceFundraiserProfileRequest → FieldErrors
    validate_replace_fundraiser r =
        validate_fundraiser_fields parse_request_uri r.name r.email r.contact_person r.social_url
          r.country r.zip_code
        ++ validate_value uuid r.image_object_key.is_set r.image_object_key.value

-- replaceSupporterProfileRequest.toProfileReplacement
abbrev pub to_supporter_replacement : ReplaceSupporterProfileRequest → SupporterProfileReplacement
to_supporter_replacement r = record {
  name = r.name;
  email = r.email;
  image_object_key = r.image_object_key;
}

-- replaceFundraiserProfileRequest.toProfileReplacement
abbrev pub to_fundraiser_replacement :
    ReplaceFundraiserProfileRequest → FundraiserProfileReplacement
to_fundraiser_replacement r = record {
  name = r.name;
  email = r.email;
  image_object_key = r.image_object_key;
  contact_name = r.contact_person.name;
  contact_phone = r.contact_person.phone;
  social_url = r.social_url;
  country = r.country;
  zip_code = r.zip_code;
}
