-- ===== src/Tests/Handlers.antt =====
-- Runs of the validation of bodies and of the handlers.
use be_pawfund.Prelude.{◌≡◌, ◌≤◌, ◌⊎◌, refl, ◌+◌, ◌*◌, ◌&&◌, true, some, none, [], ◌∷◌, arith}
use be_pawfund.Prelude.Int.{pos}
use be_pawfund.Text.{
  codes, text_eq, trim_space, trim_left, trim_right, is_space, has_prefix, drop_prefix, trim_prefix,
  has_suffix, trim_suffix, contains, byte_length,
}
use be_pawfund.Domain.{minute, role_fundraiser}
use be_pawfund.Database.{fits}
use be_pawfund.Database.Campaigns.{is_storable}
use be_pawfund.Database.Fundraisers.{fits_columns}
use be_pawfund.Database.Users.{is_user_role}
use be_pawfund.ObjectKey.{
  extension_from_name, profile_image_extension_from_name, canonical_rest,
  canonical_image_object_key,
}
use be_pawfund.Service.{World}
use be_pawfund.Service.Campaigns.{Surroundings, requested}
use be_pawfund.Service.Fundraisers.{registered}
use be_pawfund.Deployment.{published}
use be_pawfund.Auth.{Principal}
use be_pawfund.Http.Responses.{Body, decoded, end_of_body}
use be_pawfund.Http.Requests.{
  validate_required_length, validate_email, validate_social_url, validate_staged_image_object_key,
  matches_email, all_letters, ends_in_top_level, continues_email,
}
use be_pawfund.Http.Requests.Profiles.{RegisterFundraiserRequest, validate_register_fundraiser}
use be_pawfund.Http.Requests.Campaigns.{CreateCampaignRequest, validate_create_campaign}
use be_pawfund.Http.Requests.Bounds.{
  validate_create_campaign-storable, validate_register_fundraiser-fits,
}
use be_pawfund.Http.Handlers.{Site}
use be_pawfund.Http.Handlers.Campaigns.{create_campaign_input, handle_create_campaign}
use be_pawfund.Http.Handlers.Fundraisers.{register_fundraiser_input}
use be_pawfund.Http.Handlers.Admission.{
  IsRefused, IsUnwelcome, IsAdmitted, handle_create_campaign-outcome,
}
use be_pawfund.Tests.Data.{working, wallet, noon, db_of}
use be_pawfund.Tests.Instances.{environment}
use be_pawfund.Tests.Packages.{auth_environment}

abbrev site : Site
site = record {
  environment = environment;
  auth = auth_environment;
  base_url = codes "https://i";
  path_escape = λ s. s;
  parse_request_uri = λ s. some (codes "https", s);
}

abbrev asked : CreateCampaignRequest
asked = record {
  title = codes "T";
  short_description = codes "S";
  story = codes "Y";
  goal_amount = pos 5;
  end_at = b'T' ∷ 1600 ∷ b'Z' ∷ [];
  image_object_key = codes "tmp/campaigns/a.jpg";
  country = codes "ID";
  zip_code = codes "9";
}

validated : (validate_create_campaign environment.rfc3339 environment.uuid asked).0 ≡ []
unfolding validate_create_campaign validate_required_length validate_staged_image_object_key
    byte_length canonical_image_object_key canonical_rest profile_image_extension_from_name
    extension_from_name text_eq trim_space trim_left trim_right is_space has_prefix drop_prefix
    trim_prefix has_suffix trim_suffix contains
validated = refl

short_key : byte_length (codes "k") ≤ 255
unfolding byte_length
short_key = omega arith

validate_create_campaign-storable_example :
    is_storable (
      requested 2
        (codes "campaigns/a.jpg")
        (create_campaign_input wallet (codes "k") asked (noon + 10 * minute)))
    ≡ true
validate_create_campaign-storable_example =
    validate_create_campaign-storable environment.rfc3339 environment.uuid asked wallet (codes "k")
      (noon + 10 * minute) 2 (codes "campaigns/a.jpg") validated short_key

abbrev registration : RegisterFundraiserRequest
registration = record {
  name = codes "F";
  email = codes "a@b.id";
  contact_person = record { name = codes "C"; phone = codes "1" };
  social_url = codes "https://u";
  country = codes "ID";
  zip_code = codes "9";
  image_object_key = none;
}

registration_validated :
    validate_register_fundraiser environment.uuid site.parse_request_uri registration ≡ []
unfolding validate_register_fundraiser validate_required_length validate_email validate_social_url
    matches_email all_letters ends_in_top_level continues_email text_eq
registration_validated = refl

validate_register_fundraiser-fits_example :
    let f = registered environment working 1 none (register_fundraiser_input wallet registration) in
    (fits 255 f.user.email
      && fits 255 f.user.wallet_address
      && is_user_role f.user.role
      && fits_columns f.name f.contact_name f.contact_phone f.country f.zip_code)
    ≡ true
validate_register_fundraiser-fits_example =
    validate_register_fundraiser-fits environment working site.parse_request_uri registration wallet
      1 none registration_validated (omega arith)

abbrev around : Surroundings
around = record {
  id = some 2;
  driver = working;
  others = [];
  database_now = noon;
  now = noon;
  chain_id = pos 84;
  has_publisher = true;
  publication = published;
}

abbrev world : World environment
world = record { db = db_of []; bucket = codes "tmp/campaigns/a.jpg" ∷ []; queue = [] }

abbrev body : Body CreateCampaignRequest
body = record {
  media_type = some (codes "application/json");
  first = decoded asked;
  rest = end_of_body;
}

abbrev caller : Principal
caller = record { wallet_address = wallet; role = role_fundraiser }

handle_create_campaign-outcome_example :
    let answer = handle_create_campaign site around (some caller) (codes "k") body world in
    IsRefused site around world
      (IsUnwelcome site around world (some caller) (codes "k") body)
      answer
    ⊎ IsAdmitted site around world (some caller) (codes "k") body answer
handle_create_campaign-outcome_example =
    handle_create_campaign-outcome site around world (some caller) (codes "k") body
