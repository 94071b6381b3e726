-- ===== src/Http/Handlers/Donations.antt =====
-- internal/http/handler/campaign_handler.go and supporter_handler.go: the list of a campaign's donors
-- and the list of a supporter's donations.
use be_pawfund.Prelude.{Bool, Option, List, [], ◌++◌, map, Result, ok, err}
use be_pawfund.Prelude.Int.{ℤ, pos}
use be_pawfund.Text.{Text, codes, trim_space}
use be_pawfund.Domain.{role_supporter, ServiceError, campaign_not_found}
use be_pawfund.Database.{Db}
use be_pawfund.Database.Donors.{DonationRow, PublicCampaignDonor}
use be_pawfund.Database.Donations.{Donation, DonationCampaign}
use be_pawfund.Service.Donations.{list_public_campaign_donors, list_my_donations}
use be_pawfund.Auth.{Principal}
use be_pawfund.Http.Options.{
  Query, FieldErrors, DonationListOptions, donation_list_options_from_query,
}
use be_pawfund.Http.Sorting.{CampaignDonorListOptions, campaign_donor_list_options_from_query}
use be_pawfund.Http.Pagination.{new_pagination}
use be_pawfund.Http.Responses.{
  Response, success, success_with_pagination, error, validation_error, internal_error, no_store,
  challenge,
}
use be_pawfund.Http.Handlers.{
  Site, image_url, invalid_token, campaign_missing, lookup_failed, guarded, require_role,
}

pub record PublicCampaignDonorsItemResponse : Type 0 where
  pub name : Option Text
  pub address : Text
  pub image_url : Option Text
  pub amount : ℤ
  pub donated_on : Text

-- The campaign of an item has the fields of DonationCampaign.
pub record MyDonationItemListResponse : Type 0 where
  pub amount : ℤ
  pub campaign : DonationCampaign
  pub donated_on : Text
  pub tx_hash : Text

module _ (site : Site) (lower : Text → Text) where
  abbrev pub donor_response : PublicCampaignDonor → PublicCampaignDonorsItemResponse
  donor_response donor = record {
    name = donor.name;
    address = donor.wallet_address;
    image_url = image_url site donor.image_object_key;
    amount = donor.amount;
    donated_on = site.environment.rfc3339.format donor.donated_at;
  }

  abbrev pub donors_response :
      CampaignDonorListOptions
      → Result ServiceError (List PublicCampaignDonor × ℤ)
      → Response (List PublicCampaignDonorsItemResponse)
  donors_response options (ok (donors, total)) =
      success_with_pagination 200 (codes "CAMPAIGN_DONORS_RETRIEVED") (map donor_response donors)
        (new_pagination (pos options.page) (pos options.page_size) total) no_store
  donors_response options (err campaign_not_found) = campaign_missing
  donors_response options (err _) = internal_error no_store

  abbrev pub donors_for :
      (Text → Text → Bool)
      → Bool
      → Bool
      → Bool
      → Text
      → Result FieldErrors CampaignDonorListOptions
      → Db
      → List DonationRow
      → Response (List PublicCampaignDonorsItemResponse)
  donors_for address_before finds counts lists address (err errors) db donations =
      validation_error errors no_store
  donors_for address_before finds counts lists address (ok options) db donations =
      donors_response options (
        list_public_campaign_donors lower address_before finds counts lists (trim_space address)
          options db donations)

  -- HandleGetPublicCampaignDonors; `address` is the parameter of the path.
  unfoldable pub handle_get_public_campaign_donors :
      (Text → Text → Bool)
      → Bool
      → Bool
      → Bool
      → Text
      → Query
      → Db
      → List DonationRow
      → Response (List PublicCampaignDonorsItemResponse)
  handle_get_public_campaign_donors address_before finds counts lists address query db donations =
      donors_for address_before finds counts lists address
        (campaign_donor_list_options_from_query query) db donations

  abbrev pub donation_response : Donation → MyDonationItemListResponse
  donation_response donation = record {
    amount = donation.amount;
    campaign = donation.campaign;
    donated_on = site.environment.rfc3339.format donation.donated_at;
    tx_hash = donation.tx_hash;
  }

  abbrev pub donations_response :
      Result ServiceError (List Donation) → Response (List MyDonationItemListResponse)
  donations_response (ok donations) =
      success 200 (codes "DONATIONS_RETRIEVED") (map donation_response donations) no_store
  donations_response (err e) = lookup_failed e no_store

  abbrev pub donations_for :
      Bool
      → Bool
      → Text
      → Result FieldErrors DonationListOptions
      → Db
      → List DonationRow
      → Response (List MyDonationItemListResponse)
  donations_for finds lists wallet_address (err errors) db donations =
      validation_error errors no_store
  donations_for finds lists wallet_address (ok options) db donations =
      donations_response (list_my_donations lower finds lists wallet_address options db donations)

  -- HandleGetMyDonations
  unfoldable pub handle_get_my_donations :
      Bool
      → Bool
      → Option Principal
      → Query
      → Db
      → List DonationRow
      → Response (List MyDonationItemListResponse)
  handle_get_my_donations finds lists principal query db donations =
      guarded principal (invalid_token (no_store ++ challenge)) (λ wallet_address role.
        require_role role_supporter role (error 403 (codes "SUPPORTER_ACCESS_REQUIRED") [] no_store)
          (donations_for finds lists wallet_address (donation_list_options_from_query query) db
            donations))
