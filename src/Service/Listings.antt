-- ===== src/Service/Listings.antt =====
-- internal/service/campaign.go: the lists of campaigns and the public detail.
use be_pawfund.Prelude.{ℕ, Bool, List, Result, ok, err}
use be_pawfund.Prelude.Int.{ℤ}
use be_pawfund.Text.{Text, trim_space}
use be_pawfund.Domain.{
  Campaign, ServiceError, campaign_not_found, internal, RepositoryError, not_found,
}
use be_pawfund.Database.{Db}
use be_pawfund.Database.Listings.{
  Sql, PublicCampaignListItem, PublicCampaignDetail, list_public, list_for_fundraiser,
  find_public_by_contract_address,
}
use be_pawfund.Http.Sorting.{CampaignListOptions}

abbrev pub listed :
    {A : Type 0} → Result RepositoryError (List A × ℤ) → Result ServiceError (List A × ℤ)
listed (ok page) = ok page
listed (err e) = err internal

abbrev pub found_public :
    Result RepositoryError PublicCampaignDetail → Result ServiceError PublicCampaignDetail
found_public (ok campaign) = ok campaign
found_public (err not_found) = err campaign_not_found
found_public (err _) = err internal

abbrev pub trim_search : CampaignListOptions → CampaignListOptions
trim_search options = record options { search = trim_space options.search }

module _ (sql : Sql) where
  -- CampaignService.ListPublicCampaigns; the first arguments are the outcomes of the two queries and the
  -- randomness of the second.
  unfoldable pub list_public_campaigns :
      Bool
      → Bool
      → ℕ
      → CampaignListOptions
      → Db
      → Result ServiceError (List PublicCampaignListItem × ℤ)
  list_public_campaigns counts lists draw options db =
      listed (list_public sql counts lists draw (trim_search options) db)

  -- CampaignService.ListMyCampaigns
  unfoldable pub list_my_campaigns :
      Bool → Bool → ℕ → Text → CampaignListOptions → Db → Result ServiceError (List Campaign × ℤ)
  list_my_campaigns counts lists draw wallet_address options db = listed (
      list_for_fundraiser sql counts lists draw (trim_space wallet_address) (trim_search options)
        db)

  -- CampaignService.GetPublicCampaignDetail
  unfoldable pub get_public_campaign_detail :
      Bool → Text → Db → Result ServiceError PublicCampaignDetail
  get_public_campaign_detail works contract_address db =
      found_public (find_public_by_contract_address sql works (trim_space contract_address) db)
