-- ===== src/Database/Donors.antt =====
-- internal/infra/database/campaign_postgres.go: the donors of a public campaign, with the records of
-- internal/domain/donation.go. The donations are grouped by their address without regard to case;
-- LOWER and the collation of addresses are parameters. A donation's amount is positive (a check of
-- the table), so it is a natural number.
pub mod Totals
use be_pawfund.Prelude.{
  ℕ, ◌+◌, Bool, true, false, ◌&&◌, ◌||◌, Option, none, some, List, [], ◌∷◌, ◌++◌, map, Result, ok,
  err, nat_eq, ltb, leb, if◌then◌else◌, find?, filter_by, any, length,
}
use be_pawfund.Prelude.Int.{ℤ, pos, int_lt, int_eq, max_int64}
use be_pawfund.Text.{Text, text_eq, trim_space}
use be_pawfund.Domain.{
  Instant, Uuid, Campaign, role_supporter, RepositoryError, not_found, failure, BlockchainEvent,
}
use be_pawfund.Database.{Db, UserRow, SupporterRow, is_live, supporter_of}
use be_pawfund.Database.Listings.{is_public, has_address, page_at, offset_of, sort_by, descending}
use be_pawfund.Http.Sorting.{CampaignDonorListSort, recent, top, CampaignDonorListOptions}

pub record PublicCampaignDonor : Type 0 where
  pub name : Option Text
  pub wallet_address : Text
  pub image_object_key : Option Text
  pub amount : ℤ
  pub donated_at : Instant

pub record DonationRow : Type 0 where
  pub id : Uuid
  pub campaign_id : Uuid
  pub supporter_id : Option Uuid
  pub donor_address : Text
  pub event_id : Uuid
  pub amount : ℕ

-- A row of donations d JOIN blockchain_events be ON be.id = d.event_id
pub record Donated : Type 0 where
  pub donation : DonationRow
  pub event : BlockchainEvent

abbrev pub event_of : List BlockchainEvent → DonationRow → Option BlockchainEvent
event_of events d = find? (λ e. nat_eq e.id d.event_id) events

abbrev pub with_event : DonationRow → Option BlockchainEvent → List Donated → List Donated
with_event d none rest = rest
with_event d (some e) rest = record { donation = d; event = e } ∷ rest

unfoldable pub joined : List BlockchainEvent → List DonationRow → List Donated
joined events [] = []
joined events (d ∷ ds) = with_event d (event_of events d) (joined events ds)

-- GROUP BY: the groups with their keys.
unfoldable pub insert_group : {A : Type 0} → Text → A → List (Text × List A) → List (Text × List A)
insert_group key x [] = (key, x ∷ []) ∷ []
insert_group key x ((k, xs) ∷ groups) =
    let rest = insert_group key x groups in
    if text_eq k key then (k, x ∷ xs) ∷ groups else (k, xs) ∷ rest

unfoldable pub group_by : {A : Type 0} → (A → Text) → List A → List (Text × List A)
group_by key [] = []
group_by key (x ∷ xs) = insert_group (key x) x (group_by key xs)

-- SUM
abbrev pub sum_by : {A : Type 0} → (A → ℕ) → List A → ℕ
sum_by f [] = 0
sum_by f (x ∷ xs) = f x + sum_by f xs

-- MAX(be.created_at)
abbrev pub last_donated : List Donated → Instant
last_donated [] = 0
last_donated (d ∷ ds) =
    let last = last_donated ds in let at = d.event.created_at in if ltb last at then at else last

-- ORDER BY be.created_at DESC, be.block_number DESC, be.log_index DESC, d.id DESC
abbrev pub is_later : Donated → Donated → Bool
is_later a b = descending a.event.created_at b.event.created_at (
    int_lt b.event.block_number a.event.block_number
    || (int_eq a.event.block_number b.event.block_number
        && (int_lt b.event.log_index a.event.log_index
            || (int_eq a.event.log_index b.event.log_index && leb b.donation.id a.donation.id))))

abbrev pub first_address : List Donated → Text
first_address [] = []
first_address (d ∷ ds) = d.donation.donor_address

pub record DonorTotal : Type 0 where
  pub normalized_address : Text
  pub donor_address : Text
  pub amount : ℕ
  pub donated_at : Instant

abbrev pub amount_of : Donated → ℕ
amount_of d = d.donation.amount

abbrev pub total_of : Text × List Donated → DonorTotal
total_of g = record {
  normalized_address = g.0;
  donor_address = first_address (sort_by is_later g.1);
  amount = sum_by amount_of g.1;
  donated_at = last_donated g.1;
}

-- LEFT JOIN: a row for each user that matches, or one without a user.
abbrev pub attach : DonorTotal → List UserRow → List (DonorTotal × Option UserRow)
attach t [] = (t, none) ∷ []
attach t (u ∷ us) = (t, some u) ∷ map (λ v. (t, some v)) us

abbrev pub name_of_supporter : Option SupporterRow → Option Text
name_of_supporter none = none
name_of_supporter (some s) = some s.name

abbrev pub image_of_supporter : Option SupporterRow → Option Text
image_of_supporter none = none
image_of_supporter (some s) = s.image_object_key

abbrev pub donor_of : List SupporterRow → DonorTotal × Option UserRow → PublicCampaignDonor
donor_of supporters (t, none) = record {
  name = none;
  wallet_address = t.donor_address;
  image_object_key = none;
  amount = pos t.amount;
  donated_at = t.donated_at;
}
donor_of supporters (t, some u) = record {
  name = name_of_supporter (supporter_of supporters u);
  wallet_address = u.user.wallet_address;
  image_object_key = image_of_supporter (supporter_of supporters u);
  amount = pos t.amount;
  donated_at = t.donated_at;
}

abbrev pub of_campaign : Uuid → List DonationRow → List DonationRow
of_campaign id donations = filter_by (λ d. nat_eq d.campaign_id id) donations

-- A sum that does not fit BIGINT is an error of the statement.
abbrev pub overflows : DonorTotal → Bool
overflows t = ltb max_int64 t.amount

abbrev pub with_total :
    ℕ
    → Result RepositoryError (List PublicCampaignDonor)
    → Result RepositoryError (List PublicCampaignDonor × ℤ)
with_total total (err e) = err e
with_total total (ok donors) = ok (donors, pos total)

module _ (lower : Text → Text) where
  abbrev pub normalized : DonationRow → Text
  normalized d = lower d.donor_address

  -- The users that a total is joined with
  abbrev pub supporters_with : List UserRow → Text → List UserRow
  supporters_with users address =
      filter_by
        (λ u.
          text_eq (lower u.user.wallet_address) address
          && text_eq u.user.role role_supporter
          && is_live u)
        users

  unfoldable pub left_joined : List UserRow → List DonorTotal → List (DonorTotal × Option UserRow)
  left_joined users [] = []
  left_joined users (t ∷ ts) =
      attach t (supporters_with users t.normalized_address) ++ left_joined users ts

  -- donor_totals
  unfoldable pub donor_totals : List BlockchainEvent → List DonationRow → List DonorTotal
  donor_totals events donations =
      map total_of (group_by (λ d. normalized d.donation) (joined events donations))

module _ (address_before : Text → Text → Bool) where
  -- campaignDonorListOrderBy
  abbrev pub donor_before :
      CampaignDonorListSort → DonorTotal × Option UserRow → DonorTotal × Option UserRow → Bool
  donor_before top (a, u) (b, v) = descending a.amount b.amount (
      descending a.donated_at b.donated_at
        (address_before a.normalized_address b.normalized_address))
  donor_before recent (a, u) (b, v) =
      descending a.donated_at b.donated_at
        (descending a.amount b.amount (address_before a.normalized_address b.normalized_address))

module _ (lower : Text → Text) (address_before : Text → Text → Bool) where
  abbrev pub donors_page :
      CampaignDonorListOptions
      → Db
      → List DonorTotal
      → Result RepositoryError (List PublicCampaignDonor)
  donors_page options db totals =
      if any overflows totals
      then err failure
      else page_at options.page_size (offset_of options.page options.page_size) (
          map (donor_of db.supporters) (
            sort_by (donor_before address_before options.sort) (left_joined lower db.users totals)))

  -- findCampaign
  abbrev pub find_campaign : Text → Db → Option Campaign
  find_campaign contract_address db =
      find?
        (λ c. has_address lower (trim_space contract_address) c.contract_address && is_public db c)
        db.campaigns

  -- The campaign, then the number of its donors, then a page of them.
  abbrev pub donors_of_campaign :
      Bool
      → Bool
      → CampaignDonorListOptions
      → Db
      → List DonationRow
      → Option Campaign
      → Result RepositoryError (List PublicCampaignDonor × ℤ)
  donors_of_campaign counts lists options db donations none = err not_found
  donors_of_campaign counts lists options db donations (some c) =
      let rows = of_campaign c.id donations in
      if counts && lists
      then with_total (length (group_by (normalized lower) rows))
          (donors_page options db (donor_totals lower db.blockchain_events rows))
      else err failure

  -- ListPublicDonorsByContractAddress; a statement that fails is a failure.
  unfoldable pub list_public_donors :
      Bool
      → Bool
      → Bool
      → Text
      → CampaignDonorListOptions
      → Db
      → List DonationRow
      → Result RepositoryError (List PublicCampaignDonor × ℤ)
  list_public_donors finds counts lists contract_address options db donations =
      if finds
      then donors_of_campaign counts lists options db donations (find_campaign contract_address db)
      else err failure
