-- ===== src/Tests/Lists.antt =====
-- Runs of the lists of campaigns.
use be_pawfund.Prelude.{
  ℕ, ◌≡◌, ◌≤◌, ◌+◌, ◌↔◌, refl, Bool, true, none, some, [], ◌∷◌, ok, All, length, arith,
}
use be_pawfund.Prelude.Int.{pos, max_int64}
use be_pawfund.Text.{text_eq}
use be_pawfund.Domain.{Campaign, active}
use be_pawfund.Database.{Db, fundraiser_of}
use be_pawfund.Http.Sorting.{CampaignListOptions, newest}
use be_pawfund.Http.Pagination.{new_pagination}
use be_pawfund.Database.Listings.{
  Sql, PublicCampaignListItem, is_listed, public_rows, list_public, owner_of, before, sort_by,
  insert_by, ordered, take, drop,
}
use be_pawfund.Database.Listings.Pages.{concat_pages, count}
use be_pawfund.Database.Listings.Walk.{whole, page_of_list, list_public-walk}
use be_pawfund.Database.Listings.Shown.{IsShown}
use be_pawfund.Database.Listings.Visible.{list_public-listed}
use be_pawfund.Tests.Data.{row, db_of, address}

abbrev sql : Sql
sql = record {
  lower = λ s. s;
  ilike = λ value pattern. true;
  as_close = λ a b c d. true;
  shuffle = λ draw rows. rows;
  shuffle-rows = λ draw rows p. refl;
}

abbrev live : Campaign
live = record row { status = active; contract_address = some address; event_id = some 7 }

abbrev db : Db
db = db_of (live ∷ row ∷ [])

abbrev options : CampaignListOptions
options = record { search = []; sort = newest; status = none; page = 1; page_size = 10 }

abbrev item : PublicCampaignListItem
item = record { campaign = live; fundraiser_image_object_key = none }

room : length (public_rows sql db options) + 10 ≤ max_int64
unfolding owner_of fundraiser_of text_eq
room = omega arith

list_public-walk_example :
    (n : ℕ) × ((new_pagination
        (pos 1)
        (pos 10)
        (pos (length (public_rows sql db options)))).total_pages
      ≡ pos n)
    × (concat_pages (page_of_list sql options db (λ k. k)) n ≡ whole sql options db)
    × ((p : Campaign → Bool)
        → count p (sort_by (before sql newest) (public_rows sql db options))
          ≡ count p (public_rows sql db options))
list_public-walk_example = list_public-walk sql options db (λ k. k) refl (omega arith) room

answered : list_public sql true true 0 options db ≡ ok (item ∷ [], pos 1)
unfolding list_public ordered owner_of fundraiser_of text_eq take drop sort_by insert_by
answered = refl

list_public-listed_example :
    All (λ (i : PublicCampaignListItem). IsShown sql options db i.campaign) (item ∷ [])
    × (pos 1 ≡ pos (count (is_listed sql db options) db.campaigns))
    × All (λ c. (is_listed sql db options c ≡ true) ↔ IsShown sql options db c) db.campaigns
list_public-listed_example =
    list_public-listed sql true true 0 options db (item ∷ []) (pos 1) answered
