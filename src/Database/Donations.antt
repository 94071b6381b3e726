-- ===== src/Database/Donations.antt =====
-- internal/infra/database/supporter_postgres.go: the donations of a supporter.
use be_pawfund.Prelude.{
  Bool, Option, none, some, List, [], ◌∷◌, Result, ok, err, nat_eq, if◌then◌else◌, find?, filter_by,
}
use be_pawfund.Prelude.Int.{ℤ, pos}
use be_pawfund.Text.{Text, text_eq, is_empty, trim_space}
use be_pawfund.Domain.{Instant, Campaign, RepositoryError, failure}
use be_pawfund.Database.{Db, UserRow, supporter_account}
use be_pawfund.Database.Donors.{DonationRow, Donated, joined, is_later}
use be_pawfund.Database.Listings.{page_at, offset_of, sort_by}
use be_pawfund.Http.Options.{DonationListOptions}

pub record DonationCampaign : Type 0 where
  pub title : Text
  pub contract_address : Text

pub record Donation : Type 0 where
  pub amount : ℤ
  pub campaign : DonationCampaign
  pub donated_at : Instant
  pub tx_hash : Text

-- JOIN campaigns c ON c.id = d.campaign_id
abbrev pub campaign_of : List Campaign → Donated → Option Campaign
campaign_of campaigns d = find? (λ c. nat_eq c.id d.donation.campaign_id) campaigns

abbrev pub with_campaign :
    Donated → Option Campaign → List (Donated × Campaign) → List (Donated × Campaign)
with_campaign d none rest = rest
with_campaign d (some c) rest = (d, c) ∷ rest

unfoldable pub join_campaigns : List Campaign → List Donated → List (Donated × Campaign)
join_campaigns campaigns [] = []
join_campaigns campaigns (d ∷ ds) =
    with_campaign d (campaign_of campaigns d) (join_campaigns campaigns ds)

-- A row without a contract address, or with a blank one, is an error.
abbrev pub scan_donation : Donated → Campaign → Option Text → Result RepositoryError Donation
scan_donation d c none = err failure
scan_donation d c (some address) =
    if is_empty (trim_space address)
    then err failure
    else ok (record {
      amount = pos d.donation.amount;
      campaign = record { title = c.title; contract_address = address };
      donated_at = d.event.created_at;
      tx_hash = d.event.tx_hash;
    })

abbrev pub scanned_before :
    Result RepositoryError Donation
    → Result RepositoryError (List Donation)
    → Result RepositoryError (List Donation)
scanned_before (err e) rest = err e
scanned_before (ok d) (err e) = err e
scanned_before (ok d) (ok ds) = ok (d ∷ ds)

unfoldable pub scan_donations : List (Donated × Campaign) → Result RepositoryError (List Donation)
scan_donations [] = ok []
scan_donations ((d, c) ∷ rows) =
    scanned_before (scan_donation d c c.contract_address) (scan_donations rows)

abbrev pub scan_page :
    Result RepositoryError (List (Donated × Campaign)) → Result RepositoryError (List Donation)
scan_page (err e) = err e
scan_page (ok rows) = scan_donations rows

abbrev pub found_donations :
    Result RepositoryError (List Donation) → Result RepositoryError (Option (List Donation))
found_donations (err e) = err e
found_donations (ok donations) = ok (some donations)

module _ (lower : Text → Text) where
  abbrev pub donated_by : Text → DonationRow → Bool
  donated_by wallet_address d = text_eq (lower d.donor_address) (lower wallet_address)

  abbrev pub donations_of :
      Bool
      → Text
      → DonationListOptions
      → Db
      → List DonationRow
      → Option UserRow
      → Result RepositoryError (Option (List Donation))
  donations_of lists wallet_address options db donations none = ok none
  donations_of lists wallet_address options db donations (some u) =
      let mine = filter_by (donated_by wallet_address) donations in
      let rows = sort_by is_later (joined db.blockchain_events mine) in
      let page =
        page_at options.page_size (offset_of options.page options.page_size)
          (join_campaigns db.campaigns rows) in
      if lists then found_donations (scan_page page) else err failure

  -- ListDonationsByWalletAddress
  unfoldable pub list_donations_by_wallet_address :
      Bool
      → Bool
      → Text
      → DonationListOptions
      → Db
      → List DonationRow
      → Result RepositoryError (Option (List Donation))
  list_donations_by_wallet_address finds lists wallet_address options db donations =
      let address = trim_space wallet_address in
      if finds
      then donations_of lists address options db donations (supporter_account lower address db)
      else err failure
