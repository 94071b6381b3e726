-- ===== src/Database/Listings.antt =====
-- internal/infra/database/campaign_postgres.go: the lists of campaigns and the public detail. A list
-- statement selects the matching rows, orders them and cuts out a page. ILIKE, the comparison of two
-- quotients of type numeric and the order of RANDOM() are parameters.
pub mod Pages
pub mod Walk
pub mod Visible
pub mod Shown
use be_pawfund.Prelude.{
  ℕ, suc, zero, ◌-◌, ◌≡◌, Bool, true, false, ◌&&◌, ◌||◌, Option, none, some, List, [], ◌∷◌, ◌++◌,
  map, Result, ok, err, nat_eq, ltb, leb, if◌then◌else◌, find?, filter_by, is_some, length,
}
use be_pawfund.Prelude.Int.{ℤ, pos, negsuc, int_lt, int_eq, mul_int64, sub_int64}
use be_pawfund.Text.{Text, codes, is_empty, text_eq, trim_space}
use be_pawfund.Domain.{
  Instant, Uuid, Campaign, CampaignStatus, role_fundraiser, RepositoryError, not_found, failure,
}
use be_pawfund.Database.{Db, UserRow, FundraiserRow, is_live, fundraiser_of}
use be_pawfund.Database.Campaigns.{is_on_chain, is_owned_by}
use be_pawfund.Http.Sorting.{
  CampaignListSort, random, newest, oldest, close_to_goal, most_donated, CampaignListOptions,
  status_name,
}

-- What PostgreSQL adds: LOWER, value ILIKE pattern, raised / goal >= raised / goal, and RANDOM().
pub record Sql : Type 0 where
  pub lower : Text → Text
  pub ilike : Text → Text → Bool
  pub as_close : ℤ → ℤ → ℤ → ℤ → Bool
  -- the order that one statement draws
  pub shuffle : ℕ → List Campaign → List Campaign
  -- It has the same rows.
  pub shuffle-rows :
      (draw : ℕ) (rows : List Campaign) (p : Campaign → Bool)
      → length (filter_by p (shuffle draw rows)) ≡ length (filter_by p rows)

pub record PublicCampaignListItem : Type 0 where
  pub campaign : Campaign
  pub fundraiser_image_object_key : Option Text

pub record PublicCampaignDetail : Type 0 where
  pub campaign : Campaign
  pub fundraiser_name : Text
  pub fundraiser_wallet_address : Text
  pub fundraiser_image_object_key : Option Text

-- LIMIT and OFFSET
unfoldable pub take : {A : Type 0} → ℕ → List A → List A
take zero xs = []
take (suc n) [] = []
take (suc n) (x ∷ xs) = x ∷ take n xs

unfoldable pub drop : {A : Type 0} → ℕ → List A → List A
drop zero xs = xs
drop (suc n) [] = []
drop (suc n) (x ∷ xs) = drop n xs

-- ORDER BY, for a test that tells whether a row may stand before another.
unfoldable pub insert_by : {A : Type 0} → (A → A → Bool) → A → List A → List A
insert_by before x [] = x ∷ []
insert_by before x (y ∷ ys) =
    let rest = insert_by before x ys in if before x y then x ∷ y ∷ ys else y ∷ rest

unfoldable pub sort_by : {A : Type 0} → (A → A → Bool) → List A → List A
sort_by before [] = []
sort_by before (x ∷ xs) = insert_by before x (sort_by before xs)

-- (options.Page - 1) * options.PageSize
abbrev pub offset_of : ℕ → ℕ → ℤ
offset_of page page_size = mul_int64 (sub_int64 (pos page) (pos 1)) (pos page_size)

-- A negative OFFSET is an error of the statement.
abbrev pub page_at : {A : Type 0} → ℕ → ℤ → List A → Result RepositoryError (List A)
page_at page_size (pos offset) rows = ok (take page_size (drop offset rows))
page_at page_size (negsuc n) rows = err failure

-- The descending and ascending columns of an order, most significant first.
abbrev pub descending : ℕ → ℕ → Bool → Bool
descending a b next = ltb b a || (nat_eq a b && next)

abbrev pub ascending : ℕ → ℕ → Bool → Bool
ascending a b next = ltb a b || (nat_eq a b && next)

abbrev pub newer : Campaign → Campaign → Bool
newer a b = descending a.created_at b.created_at (leb b.id a.id)

abbrev pub is_random : CampaignListSort → Bool
is_random random = true
is_random _ = false

-- campaignListStatusArgument, and the test of the statement with it
abbrev pub has_status : Option CampaignStatus → Campaign → Bool
has_status none c = true
has_status (some status) c = text_eq (status_name c.status) (status_name status)

-- The owner of a campaign: the joined live fundraiser.
unfoldable pub owner_of : Db → Campaign → Option UserRow
owner_of db c =
    find?
      (λ u.
        nat_eq u.user.id c.fundraiser_id
        && text_eq u.user.role role_fundraiser
        && is_live u
        && is_some (fundraiser_of db.fundraisers u))
      db.users

-- A campaign that anyone may see
abbrev pub is_public : Db → Campaign → Bool
is_public db c = is_some (owner_of db c) && is_on_chain c.status && is_some c.contract_address

abbrev pub image_of_row : Option FundraiserRow → Option Text
image_of_row none = none
image_of_row (some f) = f.image_object_key

abbrev pub name_of_row : Option FundraiserRow → Text
name_of_row none = []
name_of_row (some f) = f.name

abbrev pub list_item : Db → Campaign → Option UserRow → PublicCampaignListItem
list_item db c none = record { campaign = c; fundraiser_image_object_key = none }
list_item db c (some u) = record {
  campaign = c;
  fundraiser_image_object_key = image_of_row (fundraiser_of db.fundraisers u);
}

abbrev pub detail_of_owner :
    Db → Campaign → Option UserRow → Result RepositoryError PublicCampaignDetail
detail_of_owner db c none = err not_found
detail_of_owner db c (some u) =
    let row = fundraiser_of db.fundraisers u in
    ok (record {
      campaign = c;
      fundraiser_name = name_of_row row;
      fundraiser_wallet_address = u.user.wallet_address;
      fundraiser_image_object_key = image_of_row row;
    })

abbrev pub detail_found : Db → Option Campaign → Result RepositoryError PublicCampaignDetail
detail_found db none = err not_found
detail_found db (some c) = detail_of_owner db c (owner_of db c)

abbrev pub has_address : (Text → Text) → Text → Option Text → Bool
has_address lower address none = false
has_address lower address (some contract) = text_eq (lower contract) (lower address)

module _ (sql : Sql) where
  -- $1 = '' OR c.title ILIKE '%' || $1 || '%' OR c.short_description ILIKE '%' || $1 || '%'
  abbrev pub matches_search : Text → Campaign → Bool
  matches_search search c =
      let pattern = codes "%" ++ search ++ codes "%" in
      is_empty search || sql.ilike c.title pattern || sql.ilike c.short_description pattern

  -- The orders of campaignListOrderBy but RANDOM()
  unfoldable pub before : CampaignListSort → Campaign → Campaign → Bool
  before oldest a b = ascending a.created_at b.created_at (leb a.id b.id)
  before close_to_goal a b =
      let closer = sql.as_close a.raised_amount a.goal_amount b.raised_amount b.goal_amount in
      let as_far = sql.as_close b.raised_amount b.goal_amount a.raised_amount a.goal_amount in
      closer && (if as_far then newer a b else true)
  before most_donated a b =
      int_lt b.raised_amount a.raised_amount
      || (int_eq a.raised_amount b.raised_amount && newer a b)
  before _ a b = newer a b

  -- campaignListOrderBy
  unfoldable pub ordered : ℕ → CampaignListSort → List Campaign → List Campaign
  unfolding before sort_by insert_by
  ordered draw sort rows =
      if is_random sort then sql.shuffle draw rows else sort_by (before sort) rows

  -- publicCampaignListFromWhere
  abbrev pub is_listed : Db → CampaignListOptions → Campaign → Bool
  is_listed db options c =
      is_public db c && matches_search options.search c && has_status options.status c

  abbrev pub public_rows : Db → CampaignListOptions → List Campaign
  public_rows db options = filter_by (is_listed db options) db.campaigns

  -- A page with the total; the two statements may fail.
  abbrev pub counted_page :
      {A : Type 0}
      → Bool
      → Bool
      → ℕ
      → Result RepositoryError (List A)
      → Result RepositoryError (List A × ℤ)
  counted_page counts lists total (err e) = err e
  counted_page counts lists total (ok rows) =
      if counts && lists then ok (rows, pos total) else err failure

  -- ListPublic
  unfoldable pub list_public :
      Bool
      → Bool
      → ℕ
      → CampaignListOptions
      → Db
      → Result RepositoryError (List PublicCampaignListItem × ℤ)
  unfolding ordered
  list_public counts lists draw options db =
      let rows = public_rows db options in
      counted_page counts lists (length rows) (
        page_at options.page_size (offset_of options.page options.page_size)
          (map (λ c. list_item db c (owner_of db c)) (ordered draw options.sort rows)))

  -- fundraiserCampaignListFromWhere
  abbrev pub is_mine : Db → Text → CampaignListOptions → Campaign → Bool
  is_mine db wallet_address options c =
      is_owned_by sql.lower wallet_address db c
      && matches_search options.search c
      && has_status options.status c

  abbrev pub my_rows : Db → Text → CampaignListOptions → List Campaign
  my_rows db wallet_address options =
      filter_by (is_mine db (trim_space wallet_address) options) db.campaigns

  -- ListForFundraiser
  unfoldable pub list_for_fundraiser :
      Bool → Bool → ℕ → Text → CampaignListOptions → Db → Result RepositoryError (List Campaign × ℤ)
  unfolding ordered
  list_for_fundraiser counts lists draw wallet_address options db =
      let rows = my_rows db wallet_address options in
      counted_page counts lists (length rows) (
        page_at options.page_size (offset_of options.page options.page_size)
          (ordered draw options.sort rows))

  -- FindPublicByContractAddress
  unfoldable pub find_public_by_contract_address :
      Bool → Text → Db → Result RepositoryError PublicCampaignDetail
  find_public_by_contract_address works contract_address db =
      if works
      then detail_found db (
          find?
            (λ c.
              has_address sql.lower (trim_space contract_address) c.contract_address
              && is_public db c)
            db.campaigns)
      else err failure
