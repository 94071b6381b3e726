-- ===== src/Http/Options.antt =====
-- internal/http/handler/campaign_dto.go and supporter_dto.go: the list options of a query. Values of
-- int64 that are checked to be at least 1 are natural numbers. A query is the list of its fields; the
-- field errors are listed in the order in which they are added.
use be_pawfund.Prelude.{
  ℕ, suc, zero, ◌-◌, ◌/◌, Bool, true, false, ◌&&◌, Option, none, some, List, [], ◌∷◌, ◌++◌, Result,
  ok, err, ltb, if◌then◌else◌,
}
use be_pawfund.Prelude.Int.{ℤ, pos, negsuc, max_int64}
use be_pawfund.Text.{Text, codes, text_eq, trim_space, parse_int64}

-- url.Values
abbrev pub Query : Type 0
Query = List (Text × List Text)

unfoldable pub lookup : Text → Query → Option (List Text)
lookup field [] = none
lookup field ((name, values) ∷ query) =
    let rest = lookup field query in if text_eq name field then some values else rest

-- A field and what is wrong with it.
abbrev pub FieldErrors : Type 0
FieldErrors = List (Text × Text)

-- firstQueryValue
abbrev pub first_query_value : List Text → Text
first_query_value [] = []
first_query_value (value ∷ values) = value

-- The value of url.Values.Get: the first one, or the empty string.
abbrev pub get : Option (List Text) → Text
get none = []
get (some values) = first_query_value values

abbrev pub at_least_one : Option ℤ → Option ℕ
at_least_one none = none
at_least_one (some (negsuc n)) = none
at_least_one (some (pos zero)) = none
at_least_one (some (pos (suc n))) = some (suc n)

-- parsePositiveInt64
unfoldable pub parse_positive_int64 : Text → Option ℕ
parse_positive_int64 value = at_least_one (parse_int64 (trim_space value))

abbrev pub default_page : ℕ
default_page = 1

abbrev pub default_page_size : ℕ
default_page_size = 10

abbrev pub max_page_size : ℕ
max_page_size = 100

-- A field of a query: its value, with the errors that it adds.
abbrev pub parsed_page : Option ℕ → ℕ × FieldErrors
parsed_page none = (default_page, (codes "page", codes "page must be a positive integer!") ∷ [])
parsed_page (some page) = (page, [])

unfoldable pub page_of : Option (List Text) → ℕ × FieldErrors
page_of none = (default_page, [])
page_of (some values) = parsed_page (parse_positive_int64 (first_query_value values))

abbrev pub page_size_error : FieldErrors
page_size_error = (codes "pageSize", codes "pageSize must be an integer between 1 and 100!") ∷ []

abbrev pub parsed_page_size : Option ℕ → ℕ × FieldErrors
parsed_page_size none = (default_page_size, page_size_error)
parsed_page_size (some page_size) =
    if ltb max_page_size page_size then (default_page_size, page_size_error) else (page_size, [])

unfoldable pub page_size_of : Option (List Text) → ℕ × FieldErrors
page_size_of none = (default_page_size, [])
page_size_of (some values) = parsed_page_size (parse_positive_int64 (first_query_value values))

abbrev pub is_empty_errors : FieldErrors → Bool
is_empty_errors [] = true
is_empty_errors (e ∷ errors) = false

-- options.Page-1 > math.MaxInt64/options.PageSize, unless the page is invalid already
unfoldable pub page_too_large : FieldErrors → ℕ → ℕ → FieldErrors
page_too_large page_errors page page_size =
    if is_empty_errors page_errors && ltb (max_int64 / page_size) (page - 1)
    then (codes "page", codes "page is too large!") ∷ []
    else []

pub record DonationListOptions : Type 0 where
  pub page : ℕ
  pub page_size : ℕ

-- donationListOptionsFromQuery
unfoldable pub donation_list_options_from_query : Query → Result FieldErrors DonationListOptions
unfolding page_of page_size_of page_too_large
donation_list_options_from_query query =
    let (page, page_errors) = page_of (lookup (codes "page") query) in
    let (page_size, size_errors) = page_size_of (lookup (codes "pageSize") query) in
    let errors = page_errors ++ (size_errors ++ page_too_large page_errors page page_size) in
    if is_empty_errors errors
    then ok (record { page = page; page_size = page_size })
    else err errors
