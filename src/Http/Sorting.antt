-- ===== src/Http/Sorting.antt =====
-- campaign_dto.go: the list options that also sort and filter.
use be_pawfund.Prelude.{
  ℕ, ◌||◌, Option, none, some, List, [], ◌∷◌, ◌++◌, Result, ok, err, if◌then◌else◌,
}
use be_pawfund.Text.{Text, codes, text_eq, is_empty, trim_space}
use be_pawfund.Domain.{CampaignStatus, pending, active, completed, cancelled, failed}
use be_pawfund.Http.Options.{
  Query, lookup, FieldErrors, first_query_value, get, page_of, page_size_of, is_empty_errors,
  page_too_large,
}

pub data CampaignListSort : Type 0 where
  random newest oldest close_to_goal most_donated : CampaignListSort

pub data CampaignDonorListSort : Type 0 where
  recent top : CampaignDonorListSort

pub record CampaignListOptions : Type 0 where
  pub search : Text
  pub sort : CampaignListSort
  pub status : Option CampaignStatus
  pub page : ℕ
  pub page_size : ℕ

pub record CampaignDonorListOptions : Type 0 where
  pub sort : CampaignDonorListSort
  pub page : ℕ
  pub page_size : ℕ

-- The names of the statuses.
abbrev pub status_name : CampaignStatus → Text
status_name pending = codes "pending"
status_name active = codes "active"
status_name completed = codes "completed"
status_name cancelled = codes "cancelled"
status_name failed = codes "failed"

abbrev pub public_campaign_list_statuses : List CampaignStatus
public_campaign_list_statuses = active ∷ completed ∷ cancelled ∷ []

abbrev pub fundraiser_campaign_list_statuses : List CampaignStatus
fundraiser_campaign_list_statuses = pending ∷ active ∷ completed ∷ cancelled ∷ failed ∷ []

-- The switch over sortBy.
unfoldable pub sort_named : Text → CampaignListSort × FieldErrors
sort_named sort =
    if is_empty sort || text_eq sort (codes "newest")
    then (newest, [])
    else if text_eq sort (codes "oldest")
    then (oldest, [])
    else if text_eq sort (codes "close-to-goal")
    then (close_to_goal, [])
    else if text_eq sort (codes "most-donated")
    then (most_donated, [])
    else (
      newest,
      (
        codes "sortBy",
        codes "sortBy must be one of newest, oldest, close-to-goal, or most-donated!",
      )
          ∷ [],
    )

abbrev pub sort_of : Option (List Text) → CampaignListSort × FieldErrors
sort_of none = (newest, [])
sort_of (some values) = sort_named (trim_space (first_query_value values))

unfoldable pub donor_sort_named : Text → CampaignDonorListSort × FieldErrors
donor_sort_named sort =
    if is_empty sort || text_eq sort (codes "recent")
    then (recent, [])
    else if text_eq sort (codes "top")
    then (top, [])
    else (recent, (codes "sortBy", codes "sortBy must be one of recent or top!") ∷ [])

abbrev pub donor_sort_of : Option (List Text) → CampaignDonorListSort × FieldErrors
donor_sort_of none = (recent, [])
donor_sort_of (some values) = donor_sort_named (trim_space (first_query_value values))

-- campaignStatusFromAllowed
unfoldable pub campaign_status_from_allowed : Text → List CampaignStatus → Option CampaignStatus
campaign_status_from_allowed filter [] = none
campaign_status_from_allowed filter (status ∷ allowed) =
    let rest = campaign_status_from_allowed filter allowed in
    if text_eq filter (status_name status) then some status else rest

-- strings.Join(names, ", ") with the last name behind ", or "
abbrev pub joined_names : List CampaignStatus → Text
joined_names [] = []
joined_names (status ∷ []) = codes "or " ++ status_name status
joined_names (status ∷ next ∷ rest) =
    status_name status ++ (codes ", " ++ joined_names (next ∷ rest))

-- campaignListFilterError
abbrev pub campaign_list_filter_error : List CampaignStatus → Text
campaign_list_filter_error [] = codes "filter is invalid!"
campaign_list_filter_error (a ∷ []) = codes "filter must be " ++ (status_name a ++ codes "!")
campaign_list_filter_error (a ∷ b ∷ []) =
    codes "filter must be one of "
    ++ (status_name a ++ (codes " or " ++ (status_name b ++ codes "!")))
campaign_list_filter_error (a ∷ b ∷ c ∷ rest) =
    codes "filter must be one of " ++ (joined_names (a ∷ b ∷ c ∷ rest) ++ codes "!")

abbrev pub status_or_error :
    List CampaignStatus → Option CampaignStatus → Option CampaignStatus × FieldErrors
status_or_error allowed none = (none, (codes "filter", campaign_list_filter_error allowed) ∷ [])
status_or_error allowed (some status) = (some status, [])

abbrev pub status_of :
    List CampaignStatus → Option (List Text) → Option CampaignStatus × FieldErrors
status_of allowed none = (none, [])
status_of allowed (some values) =
    let filter = trim_space (first_query_value values) in
    if is_empty filter
    then (none, [])
    else status_or_error allowed (campaign_status_from_allowed filter allowed)

-- campaignListOptionsFromQuery
unfoldable pub campaign_list_options_from_query :
    Query → List CampaignStatus → Result FieldErrors CampaignListOptions
unfolding page_of page_size_of page_too_large sort_named campaign_status_from_allowed
campaign_list_options_from_query query allowed =
    let (sort, sort_errors) = sort_of (lookup (codes "sortBy") query) in
    let (status, filter_errors) = status_of allowed (lookup (codes "filter") query) in
    let (page, page_errors) = page_of (lookup (codes "page") query) in
    let (page_size, size_errors) = page_size_of (lookup (codes "pageSize") query) in
    let errors =
      sort_errors
      ++ (filter_errors
          ++ (page_errors ++ (size_errors ++ page_too_large page_errors page page_size))) in
    if is_empty_errors errors
    then ok (record {
      search = trim_space (get (lookup (codes "search") query));
      sort = sort;
      status = status;
      page = page;
      page_size = page_size;
    })
    else err errors

-- campaignDonorListOptionsFromQuery
unfoldable pub campaign_donor_list_options_from_query :
    Query → Result FieldErrors CampaignDonorListOptions
unfolding page_of page_size_of page_too_large donor_sort_named
campaign_donor_list_options_from_query query =
    let (sort, sort_errors) = donor_sort_of (lookup (codes "sortBy") query) in
    let (page, page_errors) = page_of (lookup (codes "page") query) in
    let (page_size, size_errors) = page_size_of (lookup (codes "pageSize") query) in
    let errors =
      sort_errors ++ (page_errors ++ (size_errors ++ page_too_large page_errors page page_size)) in
    if is_empty_errors errors
    then ok (record { sort = sort; page = page; page_size = page_size })
    else err errors
