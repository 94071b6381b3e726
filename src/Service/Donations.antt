-- ===== src/Service/Donations.antt =====
-- internal/service/campaign.go and supporter.go: the donors of a campaign, the donations of a supporter.
use be_pawfund.Prelude.{Bool, Option, none, some, List, Result, ok, err}
use be_pawfund.Prelude.Int.{ℤ}
use be_pawfund.Text.{Text, trim_space}
use be_pawfund.Domain.{
  ServiceError, campaign_not_found, profile_not_found, internal, RepositoryError, not_found,
}
use be_pawfund.Database.{Db}
use be_pawfund.Database.Donors.{DonationRow, PublicCampaignDonor, list_public_donors}
use be_pawfund.Database.Donations.{Donation, list_donations_by_wallet_address}
use be_pawfund.Http.Options.{DonationListOptions}
use be_pawfund.Http.Sorting.{CampaignDonorListOptions}

abbrev pub found_donors :
    Result RepositoryError (List PublicCampaignDonor × ℤ)
    → Result ServiceError (List PublicCampaignDonor × ℤ)
found_donors (ok page) = ok page
found_donors (err not_found) = err campaign_not_found
found_donors (err _) = err internal

abbrev pub found_my_donations :
    Result RepositoryError (Option (List Donation)) → Result ServiceError (List Donation)
found_my_donations (err e) = err internal
found_my_donations (ok none) = err profile_not_found
found_my_donations (ok (some donations)) = ok donations

-- CampaignService.ListPublicCampaignDonors
unfoldable pub list_public_campaign_donors :
    (Text → Text)
    → (Text → Text → Bool)
    → Bool
    → Bool
    → Bool
    → Text
    → CampaignDonorListOptions
    → Db
    → List DonationRow
    → Result ServiceError (List PublicCampaignDonor × ℤ)
list_public_campaign_donors lower address_before finds counts lists contract_address options db
      donations =
    found_donors (
      list_public_donors lower address_before finds counts lists (trim_space contract_address)
        options db donations)

-- SupporterService.ListMyDonations
unfoldable pub list_my_donations :
    (Text → Text)
    → Bool
    → Bool
    → Text
    → DonationListOptions
    → Db
    → List DonationRow
    → Result ServiceError (List Donation)
list_my_donations lower finds lists wallet_address options db donations = found_my_donations (
    list_donations_by_wallet_address lower finds lists (trim_space wallet_address) options db
      donations)
