-- ===== src/Tests/Donors.antt =====
-- Runs of the list of donors: two addresses, three donations.
use be_pawfund.Prelude.{ℕ, ◌≡◌, ◌≤◌, refl, Bool, true, none, some, List, [], ◌∷◌, ok, length, arith}
use be_pawfund.Prelude.Int.{pos, pos_part}
use be_pawfund.Text.{Text, codes, text_eq, trim_space, trim_right, trim_left, is_space}
use be_pawfund.Domain.{Campaign, active, BlockchainEvent}
use be_pawfund.Database.{Db, fundraiser_of}
use be_pawfund.Database.Listings.{owner_of}
use be_pawfund.Http.Sorting.{CampaignDonorListOptions, top}
use be_pawfund.Database.Donors.{
  DonationRow, PublicCampaignDonor, insert_group, group_by, sum_by, normalized, of_campaign,
  find_campaign, list_public_donors,
}
use be_pawfund.Database.Donors.Totals.{HasOneSupporter, list_public_donors-accounts}
use be_pawfund.Tests.Data.{row, db_of, address, wallet, noon}

abbrev live : Campaign
live = record row { status = active; contract_address = some address; event_id = some 7 }

abbrev donated_event : ℕ → BlockchainEvent
donated_event id = record {
  id = id;
  tx_hash = codes "0x1";
  log_index = pos id;
  event_type = codes "donated";
  block_number = pos 3;
  created_at = noon;
}

abbrev db : Db
db = record (db_of (live ∷ [])) {
  blockchain_events = donated_event 10 ∷ donated_event 11 ∷ donated_event 12 ∷ [];
}

abbrev donation : ℕ → Text → ℕ → DonationRow
donation event donor amount = record {
  id = event;
  campaign_id = live.id;
  supporter_id = none;
  donor_address = donor;
  event_id = event;
  amount = amount;
}

abbrev donations : List DonationRow
donations = donation 10 wallet 5 ∷ donation 11 (codes "0xB") 7 ∷ donation 12 wallet 3 ∷ []

abbrev options : CampaignDonorListOptions
options = record { sort = top; page = 1; page_size = 10 }

abbrev as_is : Text → Text
as_is s = s

abbrev any_order : Text → Text → Bool
any_order a b = true

found : find_campaign as_is any_order address db ≡ some live
unfolding owner_of fundraiser_of text_eq trim_space trim_right trim_left is_space
found = refl

one_supporter : HasOneSupporter as_is db.users
one_supporter key = ground arith

two_groups : length (group_by (normalized as_is) (of_campaign live.id donations)) ≤ 10
unfolding group_by insert_group text_eq
two_groups = omega arith

list_public_donors-accounts_example :
    (donors : List PublicCampaignDonor) × (list_public_donors as_is any_order true true true address
        options db donations
      ≡ ok (donors, pos (length donors)))
    × (sum_by (λ d. pos_part d.amount) donors
        ≡ sum_by (λ d. d.amount) (of_campaign live.id donations))
list_public_donors-accounts_example =
    list_public_donors-accounts as_is any_order address options db donations live found
      ((donated_event 10, refl), ((donated_event 11, refl), ((donated_event 12, refl), tt)))
      one_supporter (omega arith) refl two_groups
