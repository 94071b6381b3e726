-- ===== src/Http/Handlers/Campaigns.antt =====
-- internal/http/handler/campaign_handler.go: the creation of a campaign and a fundraiser's view of one.
use be_pawfund.Prelude.{
  ℕ, Bool, Option, none, some, [], ◌∷◌, ◌++◌, Result, ok, err, ltb, if◌then◌else◌,
}
use be_pawfund.Prelude.Int.{ℤ}
use be_pawfund.Text.{Text, codes, is_empty, byte_length, trim_space}
use be_pawfund.Domain.{
  Uuid, Instant, Campaign, CampaignStatus, role_fundraiser, ServiceError, campaign_end_at_too_soon,
  invalid_image_object_key, image_object_not_found, campaign_idempotency_conflict,
  profile_not_found, campaign_not_found,
}
use be_pawfund.ObjectKey.{campaign_image_directory}
use be_pawfund.Service.{World}
use be_pawfund.Service.Campaigns.{CreateCampaignInput, Surroundings, create, get_my_campaign_detail}
use be_pawfund.Auth.{Principal}
use be_pawfund.Http.Options.{is_empty_errors, FieldErrors}
use be_pawfund.Http.Responses.{
  Response, success, error, validation_error, internal_error, read_error, no_store, challenge, Body,
  read_json, ReadError,
}
use be_pawfund.Http.Requests.{image_error, staged_image_object_key_message}
use be_pawfund.Http.Requests.Campaigns.{
  CreateCampaignRequest, normalize_create_campaign, validate_create_campaign,
}
use be_pawfund.Http.Handlers.{
  Site, image_url, invalid_token, profile_missing, campaign_missing, guarded, require_role,
}
use be_pawfund.Http.Handlers.Uploads.{fundraiser_access_required}

abbrev pub max_idempotency_key_bytes : ℕ
max_idempotency_key_bytes = 255

-- myCampaignResponse; createCampaignResponse has the same fields and the id.
pub record MyCampaignResponse : Type 0 where
  pub title : Text
  pub short_description : Text
  pub story : Text
  pub goal_amount : ℤ
  pub raised_amount : ℤ
  pub donor_count : ℤ
  pub end_at : Text
  pub image_url : Option Text
  pub country : Text
  pub zip_code : Text
  pub status : CampaignStatus
  pub contract_address : Option Text
  pub created_at : Text

pub record CreateCampaignResponse : Type 0 where
  pub id : Text
  pub campaign : MyCampaignResponse

abbrev pub create_campaign_input :
    Text → Text → CreateCampaignRequest → Instant → CreateCampaignInput
create_campaign_input wallet_address idempotency_key r end_at = record {
  wallet_address = wallet_address;
  idempotency_key = idempotency_key;
  title = r.title;
  short_description = r.short_description;
  story = r.story;
  goal_amount = r.goal_amount;
  end_at = end_at;
  image_object_key = r.image_object_key;
  country = r.country;
  zip_code = r.zip_code;
}

module _ (site : Site) where
  abbrev S : Type 0
  S = World site.environment

  abbrev pub campaign_response : Campaign → MyCampaignResponse
  campaign_response c = record {
    title = c.title;
    short_description = c.short_description;
    story = c.story;
    goal_amount = c.goal_amount;
    raised_amount = c.raised_amount;
    donor_count = c.donor_count;
    end_at = site.environment.rfc3339.format c.end_at;
    image_url = image_url site (some c.image_object_key);
    country = c.country;
    zip_code = c.zip_code;
    status = c.status;
    contract_address = c.contract_address;
    created_at = site.environment.rfc3339.format c.created_at;
  }

  -- The switch over the errors of Create
  unfoldable pub create_failed : ServiceError → Response CreateCampaignResponse
  create_failed campaign_end_at_too_soon =
      validation_error
        ((codes "endAt", codes "endAt must be at least 5 minutes in the future!") ∷ []) no_store
  create_failed invalid_image_object_key =
      validation_error (image_error (staged_image_object_key_message campaign_image_directory))
        no_store
  create_failed image_object_not_found =
      validation_error (image_error (codes "imageObjectKey does not reference an uploaded image!"))
        no_store
  create_failed campaign_idempotency_conflict =
      error 409 (codes "IDEMPOTENCY_KEY_CONFLICT") [] no_store
  create_failed profile_not_found = profile_missing no_store
  create_failed _ = internal_error no_store

  abbrev pub created_response :
      Result ServiceError Campaign × S → Response CreateCampaignResponse × S
  created_response (err e, world) = (create_failed e, world)
  created_response (ok created, world) = (
    success 201 (codes "CAMPAIGN_CREATED")
        (record {
          id = site.environment.uuid.to_string created.id;
          campaign = campaign_response created;
        })
        no_store,
    world,
  )

  abbrev pub create_validated :
      Surroundings
      → Text
      → Text
      → CreateCampaignRequest
      → FieldErrors × Instant
      → S
      → Response CreateCampaignResponse × S
  create_validated around wallet_address key r (errors, end_at) world =
      if is_empty_errors errors
      then created_response
          (create site.environment around (create_campaign_input wallet_address key r end_at) world)
      else (validation_error errors no_store, world)

  abbrev pub create_read :
      Surroundings
      → Text
      → Text
      → Result ReadError CreateCampaignRequest
      → S
      → Response CreateCampaignResponse × S
  create_read around wallet_address key (err e) world = (read_error e no_store, world)
  create_read around wallet_address key (ok request) world =
      let r = normalize_create_campaign request in
      create_validated around wallet_address key r
        (validate_create_campaign site.environment.rfc3339 site.environment.uuid r) world

  abbrev pub create_with_key :
      Surroundings
      → Text
      → Text
      → Body CreateCampaignRequest
      → S
      → Response CreateCampaignResponse × S
  create_with_key around wallet_address key body world =
      if is_empty key
      then (error 400 (codes "IDEMPOTENCY_KEY_REQUIRED") [] no_store, world)
      else if ltb max_idempotency_key_bytes (byte_length key)
      then (error 400 (codes "INVALID_IDEMPOTENCY_KEY") [] no_store, world)
      else create_read around wallet_address key (read_json body) world

  -- HandleCreateCampaign; `header` is the value of Idempotency-Key.
  unfoldable pub handle_create_campaign :
      Surroundings
      → Option Principal
      → Text
      → Body CreateCampaignRequest
      → S
      → Response CreateCampaignResponse × S
  handle_create_campaign around principal header body world =
      guarded principal (invalid_token (no_store ++ challenge), world)
        (λ wallet_address role.
          require_role role_fundraiser role (fundraiser_access_required, world)
            (create_with_key around wallet_address (trim_space header) body world))

  abbrev pub detail_response : Result ServiceError Campaign → Response MyCampaignResponse
  detail_response (ok c) = success 200 (codes "CAMPAIGN_RETRIEVED") (campaign_response c) no_store
  detail_response (err campaign_not_found) = campaign_missing
  detail_response (err _) = internal_error no_store

  abbrev pub detail_of : Bool → Text → Option Uuid → S → Response MyCampaignResponse
  detail_of works wallet_address none world =
      validation_error ((codes "id", codes "id must be a valid UUID!") ∷ []) no_store
  detail_of works wallet_address (some id) world =
      detail_response (get_my_campaign_detail site.environment works wallet_address id world)

  -- HandleGetMyCampaignDetail; `id` is the parameter of the path.
  unfoldable pub handle_get_my_campaign_detail :
      Bool → Option Principal → Text → S → Response MyCampaignResponse
  handle_get_my_campaign_detail works principal id world =
      guarded principal (invalid_token (no_store ++ challenge)) (λ wallet_address role.
        require_role role_fundraiser role fundraiser_access_required
          (detail_of works wallet_address (site.environment.uuid.parse (trim_space id)) world))
