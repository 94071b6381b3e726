-- ===== src/Http/Handlers/Lists.antt =====
-- internal/http/handler/campaign_handler.go: the lists of campaigns and the public detail.
use be_pawfund.Prelude.{
  ℕ, Bool, Option, none, some, List, ◌++◌, map, Result, ok, err, if◌then◌else◌,
}
use be_pawfund.Prelude.Int.{ℤ, pos}
use be_pawfund.Text.{Text, codes, is_empty, trim_space}
use be_pawfund.Domain.{
  Uuid, Campaign, CampaignStatus, role_fundraiser, ServiceError, campaign_not_found,
}
use be_pawfund.Database.{Db}
use be_pawfund.Database.Listings.{Sql, PublicCampaignListItem, PublicCampaignDetail}
use be_pawfund.Service.Listings.{
  list_public_campaigns, list_my_campaigns, get_public_campaign_detail,
}
use be_pawfund.Auth.{Principal}
use be_pawfund.Http.Options.{Query, lookup, first_query_value, FieldErrors}
use be_pawfund.Http.Sorting.{
  CampaignListOptions, random, public_campaign_list_statuses, fundraiser_campaign_list_statuses,
  campaign_list_options_from_query,
}
use be_pawfund.Http.Pagination.{new_pagination}
use be_pawfund.Http.Responses.{
  Response, success, success_with_pagination, validation_error, internal_error, no_store, challenge,
}
use be_pawfund.Http.Handlers.{
  Site, image_url, value_or_empty, invalid_token, campaign_missing, guarded, require_role,
}
use be_pawfund.Http.Handlers.Uploads.{fundraiser_access_required}

-- publicCampaignListItemResponse; an item of a fundraiser's list has the same fields but the last.
pub record MyCampaignListItemResponse : Type 0 where
  pub id : Uuid
  pub title : Text
  pub short_description : Text
  pub goal_amount : ℤ
  pub raised_amount : ℤ
  pub donor_count : ℤ
  pub image_url : Option Text
  pub end_at : Text
  pub created_at : Text
  pub contract_address : Option Text
  pub status : CampaignStatus

pub record PublicCampaignListItemResponse : Type 0 where
  pub campaign : MyCampaignListItemResponse
  pub fundraiser_image_url : Option Text

pub record CampaignFundraiser : Type 0 where
  pub id : Uuid
  pub name : Text
  pub image_url : Option Text
  pub address : Text

pub record PublicCampaignDetailResponse : Type 0 where
  pub id : Uuid
  pub title : Text
  pub short_description : Text
  pub story : Text
  pub fundraiser : CampaignFundraiser
  pub goal_amount : ℤ
  pub raised_amount : ℤ
  pub donor_count : ℤ
  pub contract_address : Text
  pub end_at : Text
  pub created_at : Text
  pub image_url : Text
  pub country : Text
  pub zip_code : Text
  pub status : CampaignStatus

-- Without a sort, or with a blank one, the public list is in random order.
abbrev pub sorted_or_random : Option (List Text) → CampaignListOptions → CampaignListOptions
sorted_or_random none options = record options { sort = random }
sorted_or_random (some values) options =
    if is_empty (trim_space (first_query_value values))
    then record options { sort = random }
    else options

module _ (site : Site) (sql : Sql) where
  abbrev pub list_item_response : Campaign → MyCampaignListItemResponse
  list_item_response c = record {
    id = c.id;
    title = c.title;
    short_description = c.short_description;
    goal_amount = c.goal_amount;
    raised_amount = c.raised_amount;
    donor_count = c.donor_count;
    image_url = image_url site (some c.image_object_key);
    end_at = site.environment.rfc3339.format c.end_at;
    created_at = site.environment.rfc3339.format c.created_at;
    contract_address = c.contract_address;
    status = c.status;
  }

  abbrev pub public_item_response : PublicCampaignListItem → PublicCampaignListItemResponse
  public_item_response item = record {
    campaign = list_item_response item.campaign;
    fundraiser_image_url = image_url site item.fundraiser_image_object_key;
  }

  abbrev pub page_response :
      {A B : Type 0}
      → (A → B)
      → CampaignListOptions
      → Result ServiceError (List A × ℤ)
      → Response (List B)
  page_response item options (err e) = internal_error no_store
  page_response item options (ok (rows, total)) =
      success_with_pagination 200 (codes "CAMPAIGNS_RETRIEVED") (map item rows)
        (new_pagination (pos options.page) (pos options.page_size) total) no_store

  abbrev pub public_list_of :
      Bool
      → Bool
      → ℕ
      → Query
      → Result FieldErrors CampaignListOptions
      → Db
      → Response (List PublicCampaignListItemResponse)
  public_list_of counts lists draw query (err errors) db = validation_error errors no_store
  public_list_of counts lists draw query (ok parsed) db =
      let options = sorted_or_random (lookup (codes "sortBy") query) parsed in
      page_response public_item_response options
        (list_public_campaigns sql counts lists draw options db)

  -- HandleGetPublicCampaignList
  unfoldable pub handle_get_public_campaign_list :
      Bool → Bool → ℕ → Query → Db → Response (List PublicCampaignListItemResponse)
  handle_get_public_campaign_list counts lists draw query db =
      public_list_of counts lists draw query
        (campaign_list_options_from_query query public_campaign_list_statuses) db

  abbrev pub my_list_of :
      Bool
      → Bool
      → ℕ
      → Text
      → Result FieldErrors CampaignListOptions
      → Db
      → Response (List MyCampaignListItemResponse)
  my_list_of counts lists draw wallet_address (err errors) db = validation_error errors no_store
  my_list_of counts lists draw wallet_address (ok options) db =
      page_response list_item_response options
        (list_my_campaigns sql counts lists draw wallet_address options db)

  -- HandleGetMyCampaignList
  unfoldable pub handle_get_my_campaign_list :
      Bool → Bool → ℕ → Option Principal → Query → Db → Response (List MyCampaignListItemResponse)
  handle_get_my_campaign_list counts lists draw principal query db =
      guarded principal (invalid_token (no_store ++ challenge)) (λ wallet_address role.
        require_role role_fundraiser role fundraiser_access_required (
          my_list_of counts lists draw wallet_address
            (campaign_list_options_from_query query fundraiser_campaign_list_statuses) db))

  abbrev pub public_detail_response : PublicCampaignDetail → PublicCampaignDetailResponse
  public_detail_response detail =
      let c = detail.campaign in
      record {
        id = c.id;
        title = c.title;
        short_description = c.short_description;
        story = c.story;
        fundraiser = record {
          id = c.fundraiser_id;
          name = detail.fundraiser_name;
          image_url = image_url site detail.fundraiser_image_object_key;
          address = detail.fundraiser_wallet_address;
        };
        goal_amount = c.goal_amount;
        raised_amount = c.raised_amount;
        donor_count = c.donor_count;
        contract_address = value_or_empty c.contract_address;
        end_at = site.environment.rfc3339.format c.end_at;
        created_at = site.environment.rfc3339.format c.created_at;
        image_url = value_or_empty (image_url site (some c.image_object_key));
        country = c.country;
        zip_code = c.zip_code;
        status = c.status;
      }

  abbrev pub public_detail_of :
      Result ServiceError PublicCampaignDetail → Response PublicCampaignDetailResponse
  public_detail_of (ok detail) =
      success 200 (codes "CAMPAIGN_RETRIEVED") (public_detail_response detail) no_store
  public_detail_of (err campaign_not_found) = campaign_missing
  public_detail_of (err _) = internal_error no_store

  -- HandleGetPublicCampaignDetail; `address` is the parameter of the path.
  unfoldable pub handle_get_public_campaign_detail :
      Bool → Text → Db → Response PublicCampaignDetailResponse
  handle_get_public_campaign_detail works address db =
      public_detail_of (get_public_campaign_detail sql works (trim_space address) db)
