-- ===== src/Http/Handlers/Supporters.antt =====
-- internal/http/handler/supporter_handler.go, without the list of donations.
use be_pawfund.Prelude.{Bool, Option, none, some, [], ◌++◌, Result, ok, err, if◌then◌else◌}
use be_pawfund.Text.{Text, codes, is_empty}
use be_pawfund.Domain.{Uuid, Instant, UserRole, Supporter, ServiceError}
use be_pawfund.Database.{Driver}
use be_pawfund.Service.{World}
use be_pawfund.Service.Supporters.{
  RegisterSupporterInput, register_supporter, get_supporter_profile, replace_supporter_profile,
  delete_supporter_profile,
}
use be_pawfund.Auth.{Principal}
use be_pawfund.Auth.Messages.{AuthError, issue_access_token}
use be_pawfund.Http.Responses.{
  Response, success, no_content, internal_error, no_store, challenge, Body, read_json,
}
use be_pawfund.Http.Requests.Profiles.{
  RegisterSupporterRequest, ReplaceSupporterProfileRequest, normalize_register_supporter,
  normalize_replace_supporter, validate_register_supporter, validate_replace_supporter,
  to_supporter_replacement,
}
use be_pawfund.Http.Handlers.{
  Site, image_url, invalid_token, service_error, replace_failed, lookup_failed, guarded,
  with_request,
}

pub record RegisterSupporterResponse : Type 0 where
  pub name : Text
  pub email : Text
  pub wallet_address : Text
  pub image_url : Option Text
  pub role : UserRole
  pub access_token : Text

pub record MySupporterProfileResponse : Type 0 where
  pub name : Text
  pub email : Text
  pub wallet_address : Text
  pub image_url : Option Text

abbrev pub register_supporter_input : Text → RegisterSupporterRequest → RegisterSupporterInput
register_supporter_input wallet_address r = record {
  name = r.name;
  email = r.email;
  wallet_address = wallet_address;
  image_object_key = r.image_object_key;
}

module _ (site : Site) where
  abbrev S : Type 0
  S = World site.environment

  abbrev pub registered_supporter_response :
      Supporter → Result AuthError Text → Response RegisterSupporterResponse
  registered_supporter_response created (err e) = internal_error []
  registered_supporter_response created (ok access_token) =
      success 201 (codes "SUPPORTER_REGISTERED")
        (record {
          name = created.name;
          email = created.user.email;
          wallet_address = created.user.wallet_address;
          image_url = image_url site created.image_object_key;
          role = created.user.role;
          access_token = access_token;
        })
        []

  abbrev pub after_register_supporter :
      Instant → Result ServiceError Supporter × S → Response RegisterSupporterResponse × S
  after_register_supporter now (err e, world) = (service_error e [], world)
  after_register_supporter now (ok created, world) = (
    registered_supporter_response created
        (issue_access_token site.auth now created.user.wallet_address created.user.role),
    world,
  )

  -- The principal of a registration: its address is tested without trimming.
  abbrev pub register_supporter_for :
      Driver
      → Instant
      → Option Uuid
      → Option Principal
      → S
      → RegisterSupporterRequest
      → Response RegisterSupporterResponse × S
  register_supporter_for driver now id none world r = (invalid_token [], world)
  register_supporter_for driver now id (some principal) world r =
      if is_empty principal.wallet_address
      then (invalid_token [], world)
      else after_register_supporter now (
          register_supporter site.environment driver now id
            (register_supporter_input principal.wallet_address r) world)

  -- HandleRegisterSupporter; `now` is the clock of the call.
  unfoldable pub handle_register_supporter :
      Driver
      → Instant
      → Option Uuid
      → Option Principal
      → Body RegisterSupporterRequest
      → S
      → Response RegisterSupporterResponse × S
  handle_register_supporter driver now id principal body world =
      with_request (read_json body) (normalize_register_supporter site.environment.unicode_lower)
        (validate_register_supporter site.environment.uuid) [] world
        (register_supporter_for driver now id principal world)

  abbrev pub found_supporter_response :
      Result ServiceError Supporter → Response MySupporterProfileResponse
  found_supporter_response (err e) = lookup_failed e no_store
  found_supporter_response (ok supporter) =
      success 200 (codes "PROFILE_RETRIEVED")
        (record {
          name = supporter.name;
          email = supporter.user.email;
          wallet_address = supporter.user.wallet_address;
          image_url = image_url site supporter.image_object_key;
        })
        no_store

  -- HandleGetProfile
  unfoldable pub handle_get_supporter_profile :
      Driver → Bool → Option Principal → S → Response MySupporterProfileResponse
  handle_get_supporter_profile driver works principal world =
      guarded principal (invalid_token (no_store ++ challenge)) (λ wallet_address role.
        found_supporter_response
          (get_supporter_profile site.environment driver works wallet_address world))

  abbrev pub replaced_supporter_response :
      Result ServiceError (Unit {0}) × S → Response (Unit {0}) × S
  replaced_supporter_response (err e, world) = (replace_failed e, world)
  replaced_supporter_response (ok u, world) = (no_content no_store, world)

  -- HandleReplaceProfile
  unfoldable pub handle_replace_supporter_profile :
      Driver → Option Principal → Body ReplaceSupporterProfileRequest → S → Response (Unit {0}) × S
  handle_replace_supporter_profile driver principal body world =
      with_request (read_json body) (normalize_replace_supporter site.environment.unicode_lower)
        (validate_replace_supporter site.environment.uuid) no_store world
        (λ r.
          guarded principal (invalid_token (no_store ++ challenge), world)
            (λ wallet_address role. replaced_supporter_response (
              replace_supporter_profile site.environment driver wallet_address
                (to_supporter_replacement r) world)))

  abbrev pub deleted_supporter_response :
      Result ServiceError (Unit {0}) × S → Response (Unit {0}) × S
  deleted_supporter_response (err e, world) = (lookup_failed e no_store, world)
  deleted_supporter_response (ok u, world) = (no_content no_store, world)

  -- HandleDeleteProfile
  unfoldable pub handle_delete_supporter_profile :
      Driver → Instant → Option Principal → S → Response (Unit {0}) × S
  handle_delete_supporter_profile driver now principal world =
      guarded principal (invalid_token (no_store ++ challenge), world)
        (λ wallet_address role.
          deleted_supporter_response
            (delete_supporter_profile site.environment driver now wallet_address world))
