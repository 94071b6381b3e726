-- ===== src/Http/Bounds.antt =====
-- The bounds of accepted list options: the offset of their page fits an int64.
use be_pawfund.Prelude.{
  ℕ, suc, zero, ◌≡◌, ◌≤◌, ◌-◌, ◌/◌, ◌*◌, refl, sym, ap, true, Option, none, some, List, [], ◌∷◌,
  ◌++◌, arith, ok, ◌∙◌, Member, Bool-cases, inl, inr,
}
use native.Mathlib.Nat.{le-div_iff_mul-le}
use be_pawfund.Prelude.Int.{ℤ, pos, negsuc, max_int64}
use be_pawfund.Text.{Text, codes, text_eq, is_empty, trim_space, parse_int64}
use be_pawfund.Domain.{CampaignStatus}
use be_pawfund.Http.Options.{
  Query, lookup, FieldErrors, page_of, page_size_of, page_too_large, is_empty_errors, at_least_one,
  parse_positive_int64, parsed_page_size, parsed_page, first_query_value,
  donation_list_options_from_query, DonationListOptions,
}
use be_pawfund.Http.Sorting.{
  CampaignListOptions, campaign_list_options_from_query, CampaignDonorListOptions,
  campaign_donor_list_options_from_query, donor_sort_of, sort_of, status_of, status_or_error,
  status_name, campaign_status_from_allowed,
}

-- A page of at least 1 with 1 to 100 rows, whose offset is in range.
pub record IsPage (page page_size : ℕ) : Type 0 where
  pub page_low : 1 ≤ page
  pub size_low : 1 ≤ page_size
  pub size_high : page_size ≤ 100
  pub offset_high : (page - 1) * page_size ≤ max_int64

positive : (n : Option ℤ) (k : ℕ) → at_least_one n ≡ some k → 1 ≤ k
positive none k h = ground arith
positive (some (negsuc n)) k h = ground arith
positive (some (pos zero)) k h = ground arith
positive (some (pos (suc n))) k h = ground arith

page_of-low : (values : Option (List Text)) → 1 ≤ (page_of values).0
unfolding page_of parse_positive_int64
page_of-low none = omega arith
page_of-low (some values) = from (parse_positive_int64 (first_query_value values)) refl
  where
    from :
        (r : Option ℕ) → parse_positive_int64 (first_query_value values) ≡ r → 1 ≤ (parsed_page r).0
    from none h = omega arith
    from (some k) h = positive (parse_int64 (trim_space (first_query_value values))) k h

page_size_of-bounds :
    (values : Option (List Text)) → (1 ≤ (page_size_of values).0) × ((page_size_of values).0 ≤ 100)
unfolding page_size_of parse_positive_int64
page_size_of-bounds none = (omega arith, omega arith)
page_size_of-bounds (some values) = from (parse_positive_int64 (first_query_value values)) refl
  where
    from :
        (r : Option ℕ)
        → parse_positive_int64 (first_query_value values) ≡ r
        → (1 ≤ (parsed_page_size r).0) × ((parsed_page_size r).0 ≤ 100)
    from none h = (omega arith, omega arith)
    from (some k) h =
        let low = positive (parse_int64 (trim_space (first_query_value values))) k h in
        (ground (arith, low), ground arith)

in_range :
    (page page_size : ℕ)
    → 1 ≤ page_size
    → page_too_large [] page page_size ≡ []
    → (page - 1) * page_size ≤ max_int64
unfolding page_too_large
in_range page page_size low h =
    let small : page - 1 ≤ max_int64 / page_size = ground arith in
    (le-div_iff_mul-le {k = page_size} {x = page - 1} {y = max_int64} (omega (arith, low))).0 small

-- No errors means none of the page.
no_errors : (xs ys : FieldErrors) → is_empty_errors (xs ++ ys) ≡ true → (xs ≡ []) × (ys ≡ [])
no_errors [] [] h = (refl, refl)
no_errors [] (y ∷ ys) h = ground arith
no_errors (x ∷ xs) ys h = ground arith

query_fields-IsPage :
    (page page_size : Option (List Text))
    → is_empty_errors (
        (page_of page).1
        ++ ((page_size_of page_size).1
            ++ page_too_large (page_of page).1 (page_of page).0 (page_size_of page_size).0))
      ≡ true
    → IsPage (page_of page).0 (page_size_of page_size).0
query_fields-IsPage page page_size h =
    let (none_of_page, others) =
      no_errors (page_of page).1
        ((page_size_of page_size).1
          ++ page_too_large (page_of page).1 (page_of page).0 (page_size_of page_size).0)
        h in
    let (none_of_size, none_too_large) =
      no_errors_of (page_size_of page_size).1
        (page_too_large (page_of page).1 (page_of page).0 (page_size_of page_size).0) others in
    let (size_low, size_high) = page_size_of-bounds page_size in
    record {
      page_low = page_of-low page;
      size_low = size_low;
      size_high = size_high;
      offset_high = in_range (page_of page).0 (page_size_of page_size).0 size_low (
          ap (λ (e : FieldErrors). page_too_large e (page_of page).0 (page_size_of page_size).0)
            (sym none_of_page)
          ∙ none_too_large);
    }
  where
    no_errors_of : (xs ys : FieldErrors) → xs ++ ys ≡ [] → (xs ≡ []) × (ys ≡ [])
    no_errors_of [] ys h = (refl, h)
    no_errors_of (x ∷ xs) ys h = ground arith

-- Accepted options of a list of donations ask for a page of at least 1 with 1 to 100 rows, whose offset
-- fits an int64.
pub donation_list_options-IsPage :
    (query : Query) (options : DonationListOptions)
    → donation_list_options_from_query query ≡ ok options
    → IsPage options.page options.page_size
unfolding donation_list_options_from_query
donation_list_options-IsPage query options h =
    let page = lookup (codes "page") query in
    let size = lookup (codes "pageSize") query in
    let is_page = query_fields-IsPage page size (ground arith) in
    let same_page : (page_of page).0 ≡ options.page = ground arith in
    let same_size : (page_size_of size).0 ≡ options.page_size = ground arith in
    rw (← same_page, ← same_size) is_page

-- Accepted options of a list of donors ask for a page of at least 1 with 1 to 100 rows, whose offset
-- fits an int64.
pub campaign_donor_list_options-IsPage :
    (query : Query) (options : CampaignDonorListOptions)
    → campaign_donor_list_options_from_query query ≡ ok options
    → IsPage options.page options.page_size
unfolding campaign_donor_list_options_from_query
campaign_donor_list_options-IsPage query options h =
    let page = lookup (codes "page") query in
    let size = lookup (codes "pageSize") query in
    let sort_errors = (donor_sort_of (lookup (codes "sortBy") query)).1 in
    let errors =
      (page_of page).1
      ++ ((page_size_of size).1
          ++ page_too_large (page_of page).1 (page_of page).0 (page_size_of size).0) in
    let empty : is_empty_errors (sort_errors ++ errors) ≡ true = ground arith in
    let is_page =
      query_fields-IsPage page size (ap is_empty_errors ((no_errors sort_errors errors empty).1)) in
    let same_page : (page_of page).0 ≡ options.page = ground arith in
    let same_size : (page_size_of size).0 ≡ options.page_size = ground arith in
    rw (← same_page, ← same_size) is_page

in_allowed :
    (filter : Text) (status : CampaignStatus) (xs : List CampaignStatus)
    → campaign_status_from_allowed filter xs ≡ some status
    → Member status xs
unfolding campaign_status_from_allowed
in_allowed filter status [] h = ground arith
in_allowed filter status (x ∷ xs) h = elim (Bool-cases (text_eq filter (status_name x))) [
  | inl e ↦ inl (ground arith)
  | inr e ↦ inr (in_allowed filter status xs (ground arith))
]

-- What a list of campaigns may be filtered by: nothing, or one of the allowed statuses.
abbrev pub IsAllowed : List CampaignStatus → Option CampaignStatus → Type 0
IsAllowed allowed none = Unit
IsAllowed allowed (some status) = Member status allowed

status_of-IsAllowed :
    (allowed : List CampaignStatus) (values : Option (List Text))
    → IsAllowed allowed (status_of allowed values).0
status_of-IsAllowed allowed none = tt
status_of-IsAllowed allowed (some values) =
    elim (Bool-cases (is_empty (trim_space (first_query_value values)))) [
      | inl e ↦ rw e tt
      | inr e ↦
          rw e (
            from (campaign_status_from_allowed (trim_space (first_query_value values)) allowed)
              refl)
    ]
  where
    from :
        (r : Option CampaignStatus)
        → campaign_status_from_allowed (trim_space (first_query_value values)) allowed ≡ r
        → IsAllowed allowed (status_or_error allowed r).0
    from none g = tt
    from (some found) g = in_allowed (trim_space (first_query_value values)) found allowed g

-- Accepted options of a list of campaigns ask for a page of at least 1 with 1 to 100 rows, whose offset
-- fits an int64, and filter by nothing or by one of the allowed statuses.
pub campaign_list_options-IsPage :
    (query : Query) (allowed : List CampaignStatus) (options : CampaignListOptions)
    → campaign_list_options_from_query query allowed ≡ ok options
    → IsPage options.page options.page_size × IsAllowed allowed options.status
unfolding campaign_list_options_from_query
campaign_list_options-IsPage query allowed options h =
    let page = lookup (codes "page") query in
    let size = lookup (codes "pageSize") query in
    let filter = lookup (codes "filter") query in
    let sort_errors = (sort_of (lookup (codes "sortBy") query)).1 in
    let filter_errors = (status_of allowed filter).1 in
    let errors =
      (page_of page).1
      ++ ((page_size_of size).1
          ++ page_too_large (page_of page).1 (page_of page).0 (page_size_of size).0) in
    let empty : is_empty_errors (sort_errors ++ (filter_errors ++ errors)) ≡ true = ground arith in
    let empty' : is_empty_errors (filter_errors ++ errors) ≡ true =
      ap is_empty_errors ((no_errors sort_errors (filter_errors ++ errors) empty).1) in
    let is_page =
      query_fields-IsPage page size
        (ap is_empty_errors ((no_errors filter_errors errors empty').1)) in
    let same_page : (page_of page).0 ≡ options.page = ground arith in
    let same_size : (page_size_of size).0 ≡ options.page_size = ground arith in
    let same_status : (status_of allowed filter).0 ≡ options.status = ground arith in
    (rw (← same_page, ← same_size) is_page, rw (← same_status) (status_of-IsAllowed allowed filter))
