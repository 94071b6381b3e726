-- ===== src/Tests/Http.antt =====
-- Runs of the list options and the pagination.
use be_pawfund.Prelude.{ℕ, ◌≡◌, refl, some, [], ◌∷◌, ok, arith}
use be_pawfund.Prelude.Int.{pos}
use be_pawfund.Text.{
  codes, text_eq, trim_space, trim_left, trim_right, is_space, parse_digits, parse_magnitude,
  parse_int64,
}
use be_pawfund.Domain.{active}
use be_pawfund.Http.Options.{
  Query, lookup, page_of, page_size_of, page_too_large, parse_positive_int64,
  donation_list_options_from_query,
}
use be_pawfund.Http.Sorting.{
  newest, top, public_campaign_list_statuses, donor_sort_named, campaign_status_from_allowed,
  campaign_list_options_from_query, campaign_donor_list_options_from_query,
}
use be_pawfund.Http.Bounds.{
  IsPage, IsAllowed, campaign_list_options-IsPage, campaign_donor_list_options-IsPage,
  donation_list_options-IsPage,
}
use be_pawfund.Http.Pagination.{new_pagination, IsPageCount, new_pagination-IsPageCount}

abbrev query : Query
query =
    (codes "page", codes "3" ∷ [])
    ∷ (codes "pageSize", codes " 25" ∷ [])
    ∷ (codes "filter", codes "active" ∷ [])
    ∷ []

campaigns_accepted :
    campaign_list_options_from_query query public_campaign_list_statuses
    ≡ ok (record { search = []; sort = newest; status = some active; page = 3; page_size = 25 })
unfolding campaign_list_options_from_query lookup page_of page_size_of page_too_large
    parse_positive_int64 campaign_status_from_allowed parse_int64 parse_magnitude parse_digits
    text_eq trim_space trim_left trim_right is_space
campaigns_accepted = refl

campaign_list_options-IsPage_example :
    IsPage 3 25 × IsAllowed public_campaign_list_statuses (some active)
campaign_list_options-IsPage_example =
    campaign_list_options-IsPage query public_campaign_list_statuses
      (record { search = []; sort = newest; status = some active; page = 3; page_size = 25 })
      campaigns_accepted

abbrev donors_query : Query
donors_query = (codes "sortBy", codes "top" ∷ []) ∷ (codes "page", codes "+2" ∷ []) ∷ []

donors_accepted :
    campaign_donor_list_options_from_query donors_query
    ≡ ok (record { sort = top; page = 2; page_size = 10 })
unfolding campaign_donor_list_options_from_query lookup page_of page_size_of page_too_large
    parse_positive_int64 donor_sort_named parse_int64 parse_magnitude parse_digits text_eq
    trim_space trim_left trim_right is_space
donors_accepted = refl

campaign_donor_list_options-IsPage_example : IsPage 2 10
campaign_donor_list_options-IsPage_example =
    campaign_donor_list_options-IsPage donors_query
      (record { sort = top; page = 2; page_size = 10 }) donors_accepted

donations_accepted :
    donation_list_options_from_query query ≡ ok (record { page = 3; page_size = 25 })
unfolding donation_list_options_from_query lookup page_of page_size_of page_too_large
    parse_positive_int64 parse_int64 parse_magnitude parse_digits text_eq trim_space trim_left
    trim_right is_space
donations_accepted = refl

donation_list_options-IsPage_example : IsPage 3 25
donation_list_options-IsPage_example =
    donation_list_options-IsPage query (record { page = 3; page_size = 25 }) donations_accepted

new_pagination-IsPageCount_example :
    (pages : ℕ) × ((new_pagination (pos 1) (pos 10) (pos 25)).total_pages ≡ pos pages)
    × IsPageCount 25 10 pages
new_pagination-IsPageCount_example =
    new_pagination-IsPageCount (pos 1) 10 25 (omega arith) (omega arith)
