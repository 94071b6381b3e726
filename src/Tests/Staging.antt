-- ===== src/Tests/Staging.antt =====
-- Runs of the profile services on a connection that does not open.
use be_pawfund.Prelude.{◌≡◌, refl, true, false, some, [], ◌∷◌, err}
use be_pawfund.Text.{
  Text, codes, text_eq, trim_space, trim_left, trim_right, is_space, has_prefix, drop_prefix,
  trim_prefix, has_suffix, trim_suffix, contains,
}
use be_pawfund.Domain.{SupporterProfileReplacement, FundraiserProfileReplacement, internal}
use be_pawfund.Database.{Driver}
use be_pawfund.Database.Supporters.{create_supporter, replace_supporter}
use be_pawfund.Database.Fundraisers.{create_fundraiser, replace_fundraiser}
use be_pawfund.Database.History.{empty_db}
use be_pawfund.Storage.{promote}
use be_pawfund.ObjectKey.{
  extension_from_name, profile_image_extension_from_name, canonical_rest,
  canonical_image_object_key, promote_image_object_key,
}
use be_pawfund.Service.{World}
use be_pawfund.Service.Profiles.{normalize_optional_string, promote_optional_image_object_key}
use be_pawfund.Service.Supporters.{
  RegisterSupporterInput, register_supporter, replace_supporter_profile,
}
use be_pawfund.Service.Fundraisers.{
  RegisterFundraiserInput, register_fundraiser, replace_fundraiser_profile,
}
use be_pawfund.Service.Staging.Supporters.{
  register_supporter-keeps, replace_supporter_profile-keeps,
}
use be_pawfund.Service.Staging.Fundraisers.{
  register_fundraiser-keeps, replace_fundraiser_profile-keeps,
}
use be_pawfund.Tests.Data.{wallet, noon}
use be_pawfund.Tests.Instances.{environment}

abbrev closed : Driver
closed = record { works = λ call. false; applied = false }

abbrev staged : Text
staged = codes "tmp/profiles/aa.png"

abbrev world : World environment
world = record { db = empty_db; bucket = staged ∷ []; queue = [] }

staged_there : environment.client.holds world.bucket staged ≡ true
unfolding text_eq
staged_there = refl

abbrev supporter_input : RegisterSupporterInput
supporter_input = record {
  name = codes "S";
  email = codes "s@b";
  wallet_address = wallet;
  image_object_key = some staged;
}

abbrev supporter_profile : SupporterProfileReplacement
supporter_profile = record {
  name = codes "S";
  email = codes "s@b";
  image_object_key = record { is_set = true; value = some staged };
}

abbrev fundraiser_input : RegisterFundraiserInput
fundraiser_input = record {
  name = codes "F";
  email = codes "a@b";
  wallet_address = wallet;
  contact_name = codes "C";
  contact_phone = codes "1";
  social_url = codes "u";
  country = codes "ID";
  zip_code = codes "9";
  image_object_key = some staged;
}

abbrev fundraiser_profile : FundraiserProfileReplacement
fundraiser_profile = record {
  name = codes "F";
  email = codes "a@b";
  image_object_key = record { is_set = true; value = some staged };
  contact_name = codes "C";
  contact_phone = codes "1";
  social_url = codes "u";
  country = codes "ID";
  zip_code = codes "9";
}

supporter_refused :
    (register_supporter environment closed noon (some 1) supporter_input world).0 ≡ err internal
unfolding register_supporter create_supporter normalize_optional_string
    promote_optional_image_object_key promote_image_object_key promote canonical_image_object_key
    canonical_rest profile_image_extension_from_name extension_from_name text_eq trim_space
    trim_left trim_right is_space has_prefix drop_prefix trim_prefix has_suffix trim_suffix contains
supporter_refused = refl

register_supporter-keeps_example :
    environment.client.holds
      (register_supporter environment closed noon (some 1) supporter_input world).1.bucket
      staged
    ≡ true
register_supporter-keeps_example =
    register_supporter-keeps environment closed staged noon (some 1) supporter_input world internal
      supporter_refused staged_there

supporter_not_replaced :
    (replace_supporter_profile environment closed wallet supporter_profile world).0 ≡ err internal
unfolding replace_supporter_profile replace_supporter promote_image_object_key promote
    canonical_image_object_key canonical_rest profile_image_extension_from_name extension_from_name
    text_eq trim_space trim_left trim_right is_space has_prefix drop_prefix trim_prefix has_suffix
    trim_suffix contains
supporter_not_replaced = refl

replace_supporter_profile-keeps_example :
    environment.client.holds
      (replace_supporter_profile environment closed wallet supporter_profile world).1.bucket
      staged
    ≡ true
replace_supporter_profile-keeps_example =
    replace_supporter_profile-keeps environment closed staged wallet supporter_profile world
      internal supporter_not_replaced staged_there

fundraiser_refused :
    (register_fundraiser environment closed noon (some 1) fundraiser_input world).0 ≡ err internal
unfolding register_fundraiser create_fundraiser normalize_optional_string
    promote_optional_image_object_key promote_image_object_key promote canonical_image_object_key
    canonical_rest profile_image_extension_from_name extension_from_name text_eq trim_space
    trim_left trim_right is_space has_prefix drop_prefix trim_prefix has_suffix trim_suffix contains
fundraiser_refused = refl

register_fundraiser-keeps_example :
    environment.client.holds
      (register_fundraiser environment closed noon (some 1) fundraiser_input world).1.bucket
      staged
    ≡ true
register_fundraiser-keeps_example =
    register_fundraiser-keeps environment closed staged noon (some 1) fundraiser_input world
      internal fundraiser_refused staged_there

fundraiser_not_replaced :
    (replace_fundraiser_profile environment closed wallet fundraiser_profile world).0 ≡ err internal
unfolding replace_fundraiser_profile replace_fundraiser promote_image_object_key promote
    canonical_image_object_key canonical_rest profile_image_extension_from_name extension_from_name
    text_eq trim_space trim_left trim_right is_space has_prefix drop_prefix trim_prefix has_suffix
    trim_suffix contains
fundraiser_not_replaced = refl

replace_fundraiser_profile-keeps_example :
    environment.client.holds
      (replace_fundraiser_profile environment closed wallet fundraiser_profile world).1.bucket
      staged
    ≡ true
replace_fundraiser_profile-keeps_example =
    replace_fundraiser_profile-keeps environment closed staged wallet fundraiser_profile world
      internal fundraiser_not_replaced staged_there
