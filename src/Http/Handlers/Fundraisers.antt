-- ===== src/Http/Handlers/Fundraisers.antt =====
-- internal/http/handler/fundraiser_handler.go.
use be_pawfund.Prelude.{Bool, Option, none, some, [], ◌++◌, Result, ok, err, if◌then◌else◌}
use be_pawfund.Text.{Text, codes, is_empty, trim_space}
use be_pawfund.Domain.{
  Uuid, Instant, UserRole, Fundraiser, ServiceError, profile_not_found, active_campaigns_exist,
}
use be_pawfund.Database.{Driver}
use be_pawfund.Service.{World}
use be_pawfund.Service.Fundraisers.{
  RegisterFundraiserInput, register_fundraiser, get_fundraiser_profile, replace_fundraiser_profile,
  delete_fundraiser_profile,
}
use be_pawfund.Auth.{Principal}
use be_pawfund.Auth.Messages.{AuthError, issue_access_token}
use be_pawfund.Http.Responses.{
  Response, success, error, no_content, internal_error, no_store, challenge, Body, read_json,
}
use be_pawfund.Http.Requests.Profiles.{
  FundraiserContactPerson, RegisterFundraiserRequest, ReplaceFundraiserProfileRequest,
  normalize_register_fundraiser, normalize_replace_fundraiser, validate_register_fundraiser,
  validate_replace_fundraiser, to_fundraiser_replacement,
}
use be_pawfund.Http.Handlers.{
  Site, image_url, value_or_empty, profile_missing, invalid_token, service_error, replace_failed,
  lookup_failed, guarded, with_request,
}

pub record RegisterFundraiserResponse : Type 0 where
  pub name : Text
  pub email : Text
  pub contact_person : FundraiserContactPerson
  pub social_url : Text
  pub country : Text
  pub zip_code : Text
  pub image_url : Option Text
  pub wallet_address : Text
  pub role : UserRole
  pub access_token : Text

pub record MyFundraiserProfileResponse : Type 0 where
  pub name : Text
  pub email : Text
  pub contact_person : FundraiserContactPerson
  pub social_url : Text
  pub country : Text
  pub zip_code : Text
  pub image_url : Option Text
  pub wallet_address : Text

pub record PublicFundraiserProfileResponse : Type 0 where
  pub name : Text
  pub email : Text
  pub contact_person : FundraiserContactPerson
  pub social_url : Text
  pub country : Text
  pub zip_code : Text
  pub image_url : Option Text
  pub created_at : Text

abbrev pub contact_of : Fundraiser → FundraiserContactPerson
contact_of f = record { name = f.contact_name; phone = f.contact_phone }

abbrev pub register_fundraiser_input : Text → RegisterFundraiserRequest → RegisterFundraiserInput
register_fundraiser_input wallet_address r = record {
  name = r.name;
  email = r.email;
  wallet_address = wallet_address;
  contact_name = r.contact_person.name;
  contact_phone = r.contact_person.phone;
  social_url = r.social_url;
  country = r.country;
  zip_code = r.zip_code;
  image_object_key = r.image_object_key;
}

module _ (site : Site) where
  abbrev S : Type 0
  S = World site.environment

  abbrev pub registered_fundraiser_response :
      Fundraiser → Result AuthError Text → Response RegisterFundraiserResponse
  registered_fundraiser_response created (err e) = internal_error []
  registered_fundraiser_response created (ok access_token) =
      success 201 (codes "FUNDRAISER_REGISTERED")
        (record {
          name = created.name;
          email = created.user.email;
          contact_person = contact_of created;
          social_url = value_or_empty created.social_url;
          country = created.country;
          zip_code = created.zip_code;
          image_url = image_url site created.image_object_key;
          wallet_address = created.user.wallet_address;
          role = created.user.role;
          access_token = access_token;
        })
        []

  abbrev pub after_register_fundraiser :
      Instant → Result ServiceError Fundraiser × S → Response RegisterFundraiserResponse × S
  after_register_fundraiser now (err e, world) = (service_error e [], world)
  after_register_fundraiser now (ok created, world) = (
    registered_fundraiser_response created
        (issue_access_token site.auth now created.user.wallet_address created.user.role),
    world,
  )

  -- The principal of a registration: its address is tested without trimming.
  abbrev pub register_fundraiser_for :
      Driver
      → Instant
      → Option Uuid
      → Option Principal
      → S
      → RegisterFundraiserRequest
      → Response RegisterFundraiserResponse × S
  register_fundraiser_for driver now id none world r = (invalid_token [], world)
  register_fundraiser_for driver now id (some principal) world r =
      if is_empty principal.wallet_address
      then (invalid_token [], world)
      else after_register_fundraiser now (
          register_fundraiser site.environment driver now id
            (register_fundraiser_input principal.wallet_address r) world)

  -- HandleRegisterFundraiser; `now` is the clock of the call.
  unfoldable pub handle_register_fundraiser :
      Driver
      → Instant
      → Option Uuid
      → Option Principal
      → Body RegisterFundraiserRequest
      → S
      → Response RegisterFundraiserResponse × S
  handle_register_fundraiser driver now id principal body world =
      with_request (read_json body) (normalize_register_fundraiser site.environment.unicode_lower)
        (validate_register_fundraiser site.environment.uuid site.parse_request_uri) [] world
        (register_fundraiser_for driver now id principal world)

  abbrev pub found_fundraiser_response :
      Result ServiceError Fundraiser → Response MyFundraiserProfileResponse
  found_fundraiser_response (err e) = lookup_failed e no_store
  found_fundraiser_response (ok fundraiser) =
      success 200 (codes "PROFILE_RETRIEVED")
        (record {
          name = fundraiser.name;
          email = fundraiser.user.email;
          contact_person = contact_of fundraiser;
          social_url = value_or_empty fundraiser.social_url;
          country = fundraiser.country;
          zip_code = fundraiser.zip_code;
          image_url = image_url site fundraiser.image_object_key;
          wallet_address = fundraiser.user.wallet_address;
        })
        no_store

  -- HandleGetProfile
  unfoldable pub handle_get_fundraiser_profile :
      Driver → Bool → Option Principal → S → Response MyFundraiserProfileResponse
  handle_get_fundraiser_profile driver works principal world =
      guarded principal (invalid_token (no_store ++ challenge)) (λ wallet_address role.
        found_fundraiser_response
          (get_fundraiser_profile site.environment driver works wallet_address world))

  abbrev pub replaced_fundraiser_response :
      Result ServiceError (Unit {0}) × S → Response (Unit {0}) × S
  replaced_fundraiser_response (err e, world) = (replace_failed e, world)
  replaced_fundraiser_response (ok u, world) = (no_content no_store, world)

  -- HandleReplaceProfile
  unfoldable pub handle_replace_fundraiser_profile :
      Driver → Option Principal → Body ReplaceFundraiserProfileRequest → S → Response (Unit {0}) × S
  handle_replace_fundraiser_profile driver principal body world =
      with_request (read_json body) (normalize_replace_fundraiser site.environment.unicode_lower)
        (validate_replace_fundraiser site.environment.uuid site.parse_request_uri) no_store world
        (λ r.
          guarded principal (invalid_token (no_store ++ challenge), world)
            (λ wallet_address role. replaced_fundraiser_response (
              replace_fundraiser_profile site.environment driver wallet_address
                (to_fundraiser_replacement r) world)))

  abbrev pub deleted_fundraiser_response :
      Result ServiceError (Unit {0}) × S → Response (Unit {0}) × S
  deleted_fundraiser_response (err profile_not_found, world) = (profile_missing no_store, world)
  deleted_fundraiser_response (err active_campaigns_exist, world) =
      (error 409 (codes "ACTIVE_CAMPAIGNS_EXIST") [] no_store, world)
  deleted_fundraiser_response (err _, world) = (internal_error no_store, world)
  deleted_fundraiser_response (ok u, world) = (no_content no_store, world)

  -- HandleDeleteProfile
  unfoldable pub handle_delete_fundraiser_profile :
      Driver → Instant → Option Principal → S → Response (Unit {0}) × S
  handle_delete_fundraiser_profile driver now principal world =
      guarded principal (invalid_token (no_store ++ challenge), world)
        (λ wallet_address role.
          deleted_fundraiser_response
            (delete_fundraiser_profile site.environment driver now wallet_address world))

  abbrev pub public_fundraiser_response :
      Result ServiceError Fundraiser → Response PublicFundraiserProfileResponse
  public_fundraiser_response (err e) = lookup_failed e []
  public_fundraiser_response (ok fundraiser) =
      success 200 (codes "PROFILE_RETRIEVED")
        (record {
          name = fundraiser.name;
          email = fundraiser.user.email;
          contact_person = contact_of fundraiser;
          social_url = value_or_empty fundraiser.social_url;
          country = fundraiser.country;
          zip_code = fundraiser.zip_code;
          image_url = image_url site fundraiser.image_object_key;
          created_at = site.environment.rfc3339.format fundraiser.user.created_at;
        })
        []

  -- HandleGetPublicProfile; `address` is the parameter of the path.
  unfoldable pub handle_get_public_fundraiser_profile :
      Driver → Bool → Text → S → Response PublicFundraiserProfileResponse
  handle_get_public_fundraiser_profile driver works address world =
      public_fundraiser_response
        (get_fundraiser_profile site.environment driver works (trim_space address) world)
