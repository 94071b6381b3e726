-- ===== src/Database/Donors/Totals.antt =====
-- What the donors' amounts and their number come to.
use be_pawfund.Prelude.{
  ℕ, ◌+◌, ◌*◌, ◌≡◌, ◌≤◌, refl, sym, ap, ◌∙◌, Bool, true, false, Option, none, some, List, [], ◌∷◌,
  ◌++◌, map, ok, err, arith, All, any, length, length-append, if◌then◌else◌,
}
use be_pawfund.Prelude.Int.{pos, pos_part, max_int64}
use be_pawfund.Text.{Text, text_eq}
use be_pawfund.Domain.{Campaign, BlockchainEvent, failure}
use be_pawfund.Database.{Db, UserRow, SupporterRow}
use be_pawfund.Http.Sorting.{CampaignDonorListOptions}
use be_pawfund.Database.Listings.{insert_by, sort_by, take, drop, page_at, offset_of}
use be_pawfund.Database.Listings.Pages.{take-all}
use be_pawfund.Database.Listings.Walk.{length-map, length-sort_by, offset_of-pos}
use be_pawfund.Database.Donors.{
  DonationRow, Donated, DonorTotal, PublicCampaignDonor, event_of, with_event, joined, insert_group,
  group_by, sum_by, amount_of, total_of, attach, donor_of, normalized, supporters_with, left_joined,
  donor_totals, overflows, donor_before, of_campaign, find_campaign, donors_page,
  list_public_donors, donors_of_campaign, with_total,
}

module _ {A : Type 0} (f : A → ℕ) where
  sum_by-append : (xs ys : List A) → sum_by f (xs ++ ys) ≡ sum_by f xs + sum_by f ys
  sum_by-append [] ys = omega arith
  sum_by-append (x ∷ xs) ys = omega (arith, sum_by-append xs ys)

  sum_by-map :
      {B : Type 0} (g : B → A) (xs : List B) → sum_by f (map g xs) ≡ sum_by (λ b. f (g b)) xs
  sum_by-map g [] = refl
  sum_by-map g (x ∷ xs) = ap (λ n. f (g x) + n) (sum_by-map g xs)

  sum_by-insert_by :
      (before : A → A → Bool) (x : A) (xs : List A)
      → sum_by f (insert_by before x xs) ≡ f x + sum_by f xs
  unfolding insert_by
  sum_by-insert_by before x [] = refl
  sum_by-insert_by before x (y ∷ ys) = ground (arith, sum_by-insert_by before x ys)

  sum_by-sort_by :
      (before : A → A → Bool) (xs : List A) → sum_by f (sort_by before xs) ≡ sum_by f xs
  unfolding sort_by
  sum_by-sort_by before [] = refl
  sum_by-sort_by before (x ∷ xs) =
      sum_by-insert_by before x (sort_by before xs) ∙ ap (λ n. f x + n) (sum_by-sort_by before xs)

  -- Grouping keeps the sum.
  sum_by-insert_group :
      (key : Text) (x : A) (groups : List (Text × List A))
      → sum_by (λ g. sum_by f g.1) (insert_group key x groups)
        ≡ f x + sum_by (λ g. sum_by f g.1) groups
  unfolding insert_group
  sum_by-insert_group key x [] = omega arith
  sum_by-insert_group key x ((k, xs) ∷ groups) = ground (arith, sum_by-insert_group key x groups)

  sum_by-group_by :
      (key : A → Text) (xs : List A) → sum_by (λ g. sum_by f g.1) (group_by key xs) ≡ sum_by f xs
  unfolding group_by
  sum_by-group_by key [] = refl
  sum_by-group_by key (x ∷ xs) =
      sum_by-insert_group (key x) x (group_by key xs) ∙ ap (λ n. f x + n) (sum_by-group_by key xs)

-- The keys of the groups: they depend on the keys of the rows alone.
abbrev insert_key : Text → List Text → List Text
insert_key key [] = key ∷ []
insert_key key (k ∷ ks) = let rest = insert_key key ks in if text_eq k key then k ∷ ks else k ∷ rest

abbrev distinct : List Text → List Text
distinct [] = []
distinct (k ∷ ks) = insert_key k (distinct ks)

module _ {A : Type 0} where
  map-insert_group :
      (key : Text) (x : A) (groups : List (Text × List A))
      → map (λ g. g.0) (insert_group key x groups) ≡ insert_key key (map (λ g. g.0) groups)
  unfolding insert_group
  map-insert_group key x [] = refl
  map-insert_group key x ((k, xs) ∷ groups) = ground (arith, map-insert_group key x groups)

  map-group_by :
      (key : A → Text) (xs : List A) → map (λ g. g.0) (group_by key xs) ≡ distinct (map key xs)
  unfolding group_by
  map-group_by key [] = refl
  map-group_by key (x ∷ xs) =
      map-insert_group (key x) x (group_by key xs) ∙ ap (insert_key (key x)) (map-group_by key xs)

  length-group_by :
      (key : A → Text) (xs : List A) → length (group_by key xs) ≡ length (distinct (map key xs))
  length-group_by key xs =
      sym (length-map (λ g. g.0) (group_by key xs)) ∙ ap length (map-group_by key xs)

-- The event of the donation is in the table, as its foreign key demands.
abbrev pub HasEvent : List BlockchainEvent → DonationRow → Type 0
HasEvent events d = (e : BlockchainEvent) × (event_of events d ≡ some e)

map-joined :
    {B : Type 0} (f : DonationRow → B) (events : List BlockchainEvent) (ds : List DonationRow)
    → All (HasEvent events) ds
    → map (λ d. f d.donation) (joined events ds) ≡ map f ds
unfolding joined
map-joined f events [] h = refl
map-joined f events (d ∷ ds) ((e, found), h) =
    ap (λ o. map (λ j. f j.donation) (with_event d o (joined events ds))) found
    ∙ ap (λ t. f d ∷ t) (map-joined f events ds h)

abbrev amount_of_row : DonorTotal × Option UserRow → ℕ
amount_of_row r = r.0.amount

sum_by-attach :
    (t : DonorTotal) (us : List UserRow)
    → length us ≤ 1
    → (sum_by amount_of_row (attach t us) ≡ t.amount) × (length (attach t us) ≡ 1)
sum_by-attach t [] h = (omega arith, refl)
sum_by-attach t (u ∷ []) h = (omega arith, refl)
sum_by-attach t (u ∷ v ∷ us) h = absurd (omega (arith, h))

amount_of_donor :
    (supporters : List SupporterRow) (r : DonorTotal × Option UserRow)
    → pos_part (donor_of supporters r).amount ≡ amount_of_row r
amount_of_donor supporters (t, none) = refl
amount_of_donor supporters (t, some u) = refl

sum_by-donors :
    (supporters : List SupporterRow) (rows : List (DonorTotal × Option UserRow))
    → sum_by (λ d. pos_part d.amount) (map (donor_of supporters) rows) ≡ sum_by amount_of_row rows
sum_by-donors supporters [] = refl
sum_by-donors supporters (r ∷ rows) =
    omega (arith, amount_of_donor supporters r, sum_by-donors supporters rows)

none_overflows :
    (ts : List DonorTotal) → sum_by (λ t. t.amount) ts ≤ max_int64 → any overflows ts ≡ false
none_overflows [] h = refl
none_overflows (t ∷ ts) h = ground (arith, none_overflows ts (omega (arith, h)))

first_page :
    {A : Type 0} (size : ℕ) (rows : List A)
    → length rows ≤ size
    → page_at size (offset_of 1 size) rows ≡ ok rows
unfolding drop
first_page size rows h =
    ap (λ o. page_at size o rows) (offset_of-pos 0 size (omega arith) (omega arith)) ∙ at_start
  where
    at_start : page_at size (pos (0 * size)) rows ≡ ok rows
    at_start =
        let e : 0 * size ≡ 0 = omega arith in
        ap (λ k. ok (take size (drop k rows))) e ∙ ap (λ t. ok t) (take-all size rows h)

module _ (lower : Text → Text) (users : List UserRow) where
  -- No two live supporters have the same address up to case.
  abbrev pub HasOneSupporter : Type 0
  HasOneSupporter = (address : Text) → length (supporters_with lower users address) ≤ 1

  sum_by-left_joined :
      (ts : List DonorTotal)
      → HasOneSupporter
      → (sum_by amount_of_row (left_joined lower users ts) ≡ sum_by (λ t. t.amount) ts)
        × (length (left_joined lower users ts) ≡ length ts)
  unfolding left_joined
  sum_by-left_joined [] one = (refl, refl)
  sum_by-left_joined (t ∷ ts) one =
      let us = supporters_with lower users t.normalized_address in
      let (s, l) = sum_by-attach t us (one t.normalized_address) in
      let (rest_s, rest_l) = sum_by-left_joined ts one in
      let rest = left_joined lower users ts in
      let e = sum_by-append amount_of_row (attach t us) rest in
      let m = length-append (attach t us) rest in
      (omega (arith, s, rest_s, e), omega (arith, l, rest_l, m))

module _ (lower : Text → Text) (events : List BlockchainEvent) where
  sum_by-joined :
      (ds : List DonationRow)
      → All (HasEvent events) ds
      → sum_by amount_of (joined events ds) ≡ sum_by (λ d. d.amount) ds
  sum_by-joined ds h =
      sym (sum_by-map (λ n. n) amount_of (joined events ds))
      ∙ ap (sum_by (λ n. n)) (map-joined (λ d. d.amount) events ds h)
      ∙ sum_by-map (λ n. n) (λ (d : DonationRow). d.amount) ds

  sum_by-donor_totals :
      (ds : List DonationRow)
      → All (HasEvent events) ds
      → sum_by (λ t. t.amount) (donor_totals lower events ds) ≡ sum_by (λ d. d.amount) ds
  unfolding donor_totals
  sum_by-donor_totals ds h =
      let key : Donated → Text = λ d. normalized lower d.donation in
      sum_by-map (λ t. t.amount) total_of (group_by key (joined events ds))
      ∙ sum_by-group_by amount_of key (joined events ds)
      ∙ sum_by-joined ds h

  length-donor_totals :
      (ds : List DonationRow)
      → All (HasEvent events) ds
      → length (donor_totals lower events ds) ≡ length (group_by (normalized lower) ds)
  unfolding donor_totals
  length-donor_totals ds h =
      let key : Donated → Text = λ d. normalized lower d.donation in
      length-map total_of (group_by key (joined events ds))
      ∙ length-group_by key (joined events ds)
      ∙ ap (λ ks. length (distinct ks)) (map-joined (normalized lower) events ds h)
      ∙ sym (length-group_by (normalized lower) ds)

module _ (lower : Text → Text) (address_before : Text → Text → Bool) where
  -- All rows of the donors, in order
  abbrev all_donors : CampaignDonorListOptions → Db → List DonorTotal → List PublicCampaignDonor
  all_donors options db totals =
      map (donor_of db.supporters)
        (sort_by (donor_before address_before options.sort) (left_joined lower db.users totals))

  donors_page-first :
      (options : CampaignDonorListOptions) (db : Db) (totals : List DonorTotal)
      → any overflows totals ≡ false
      → options.page ≡ 1
      → length (all_donors options db totals) ≤ options.page_size
      → donors_page lower address_before options db totals ≡ ok (all_donors options db totals)
  donors_page-first options db totals fits first room =
      let size = options.page_size in
      let donors = all_donors options db totals in
      ap (λ b. if b then err failure else page_at size (offset_of options.page size) donors) fits
      ∙ ap (λ k. page_at size (offset_of k size) donors) first
      ∙ first_page size donors room

  -- The first page of the donors of a public campaign, when it is as long as they are many and their
  -- donations fit an int64, on tables in which each donation has its event and no two live supporters
  -- share an address: the answer has as many rows as its total tells, and their amounts come to the
  -- amounts of the campaign's donations.
  pub list_public_donors-accounts :
      (contract_address : Text) (options : CampaignDonorListOptions) (db : Db)
      (donations : List DonationRow) (c : Campaign)
      → find_campaign lower address_before contract_address db ≡ some c
      → All (HasEvent db.blockchain_events) (of_campaign c.id donations)
      → HasOneSupporter lower db.users
      → sum_by (λ d. d.amount) (of_campaign c.id donations) ≤ max_int64
      → options.page ≡ 1
      → length (group_by (normalized lower) (of_campaign c.id donations)) ≤ options.page_size
      → (donors : List PublicCampaignDonor) × (list_public_donors lower address_before true true
            true contract_address options db donations
          ≡ ok (donors, pos (length donors)))
        × (sum_by (λ d. pos_part d.amount) donors
            ≡ sum_by (λ d. d.amount) (of_campaign c.id donations))
  unfolding list_public_donors
  list_public_donors-accounts contract_address options db donations c found events one fits first
        room =
      let ds = of_campaign c.id donations in
      let totals = donor_totals lower db.blockchain_events ds in
      let rows = left_joined lower db.users totals in
      let before = donor_before address_before options.sort in
      let donors = all_donors options db totals in
      let (joined_sum, joined_length) = sum_by-left_joined lower db.users totals one in
      let total_sum = sum_by-donor_totals lower db.blockchain_events ds events in
      let many : length donors ≡ length (group_by (normalized lower) ds) =
        length-map (donor_of db.supporters) (sort_by before rows)
        ∙ length-sort_by before rows
        ∙ joined_length
        ∙ length-donor_totals lower db.blockchain_events ds events in
      let page =
        donors_page-first options db totals (none_overflows totals (omega (arith, total_sum, fits)))
          first (omega (arith, many, room)) in
      let sum =
        sum_by-donors db.supporters (sort_by before rows)
        ∙ sum_by-sort_by amount_of_row before rows
        ∙ joined_sum
        ∙ total_sum in
      let answer =
        ap (donors_of_campaign lower address_before true true options db donations) found
        ∙ ap (λ r. with_total (length (group_by (normalized lower) ds)) r) page
        ∙ ap (λ n. ok (donors, pos n)) (sym many) in
      (donors, answer, sum)
