-- ===== src/Database/Listings/Visible.antt =====
-- What a list shows: only rows that its statement selects.
use be_pawfund.Prelude.{
  ℕ, ◌≡◌, refl, ◌∙◌, Bool, true, not, Option, none, some, List, [], ◌∷◌, map, Result, ok, err, All,
  All-weaken, All-tabulate, ◌↔◌, arith, Bool-cases, inl, inr, filter_by, length,
}
use be_pawfund.Prelude.Int.{ℤ, pos, negsuc}
use be_pawfund.Domain.{Campaign, RepositoryError}
use be_pawfund.Database.{Db, UserRow}
use be_pawfund.Http.Sorting.{CampaignListOptions, CampaignListSort}
use be_pawfund.Database.Listings.{
  Sql, PublicCampaignListItem, take, drop, insert_by, sort_by, page_at, offset_of, owner_of,
  list_item, is_listed, public_rows, counted_page, ordered, list_public, before, is_random,
}
use be_pawfund.Database.Listings.Shown.{IsShown, is_listed_iff}
use be_pawfund.Database.Listings.Pages.{All-take, All-drop, count, count-sort_by}

module _ {A : Type 0} (P : A → Type 0) where
  pub All-filter_by :
      (p : A → Bool) (xs : List A) → ((a : A) → p a ≡ true → P a) → All P (filter_by p xs)
  All-filter_by p [] h = tt
  All-filter_by p (x ∷ xs) h = ground (arith, h x, All-filter_by p xs h)

  All-insert_by :
      (before : A → A → Bool) (x : A) (xs : List A) → P x → All P xs → All P (insert_by before x xs)
  unfolding insert_by
  All-insert_by before x [] px h = (px, tt)
  All-insert_by before x (y ∷ ys) px h = ground (arith, All-insert_by before x ys px h.1)

  pub All-sort_by : (before : A → A → Bool) (xs : List A) → All P xs → All P (sort_by before xs)
  unfolding sort_by
  All-sort_by before [] h = tt
  All-sort_by before (x ∷ xs) h =
      All-insert_by before x (sort_by before xs) h.0 (All-sort_by before xs h.1)

  pub All-page_at :
      (size : ℕ) (offset : ℤ) (xs rows : List A)
      → All P xs
      → page_at size offset xs ≡ ok rows
      → All P rows
  All-page_at size (pos offset) xs rows h e =
      let same : take size (drop offset xs) ≡ rows = ground arith in
      rw (← same) (All-take P size (drop offset xs) (All-drop P offset xs h))
  All-page_at size (negsuc n) xs rows h e = ground arith

module _ {A : Type 0} where
  All-of_count :
      (p : A → Bool) (xs : List A) → count (λ a. not (p a)) xs ≡ 0 → All (λ a. p a ≡ true) xs
  All-of_count p [] h = tt
  All-of_count p (x ∷ xs) h = ground (arith, All-of_count p xs)

  count-filter_by : (p : A → Bool) (xs : List A) → count (λ a. not (p a)) (filter_by p xs) ≡ 0
  count-filter_by p [] = refl
  count-filter_by p (x ∷ xs) = ground (arith, count-filter_by p xs)

All-map :
    {A B : Type 0} (f : A → B) (Q : B → Type 0) (xs : List A)
    → All (λ a. Q (f a)) xs
    → All Q (map f xs)
All-map f Q [] h = tt
All-map f Q (x ∷ xs) h = (h.0, All-map f Q xs h.1)

item_campaign : (db : Db) (c : Campaign) (o : Option UserRow) → (list_item db c o).campaign ≡ c
item_campaign db c none = refl
item_campaign db c (some u) = refl

module _ (sql : Sql) where
  -- An order has the rows of the list.
  pub count-ordered :
      (draw : ℕ) (sort : CampaignListSort) (rows : List Campaign) (p : Campaign → Bool)
      → count p (ordered sql draw sort rows) ≡ count p rows
  unfolding ordered
  count-ordered draw sort rows p = elim (Bool-cases (is_random sort)) [
    | inl e ↦ rw e (sql.shuffle-rows draw rows p)
    | inr e ↦ rw e (count-sort_by p (before sql sort) rows)
  ]

  selected :
      (draw : ℕ) (sort : CampaignListSort) (p : Campaign → Bool) (rows : List Campaign)
      → All (λ c. p c ≡ true) (ordered sql draw sort (filter_by p rows))
  selected draw sort p rows =
      All-of_count p (ordered sql draw sort (filter_by p rows))
        (count-ordered draw sort (filter_by p rows) (λ a. not (p a)) ∙ count-filter_by p rows)

  counted_page-ok :
      {A : Type 0} (counts lists : Bool) (total : ℕ) (page : Result RepositoryError (List A))
      (rows : List A) (n : ℤ)
      → counted_page sql counts lists total page ≡ ok (rows, n)
      → (page ≡ ok rows) × (n ≡ pos total)
  counted_page-ok counts lists total (err e) rows n h = ground arith
  counted_page-ok counts lists total (ok found) rows n h = (ground arith, ground arith)

  -- Every campaign of a public list is one that anyone may see: active, completed or cancelled, with a
  -- contract address, of a fundraiser with a profile who is not deleted; its title or its short
  -- description has the searched text, and it has the asked status. The total is the number of the
  -- campaigns that the statement selects, and it selects exactly those of the table that are so.
  pub list_public-listed :
      (counts lists : Bool) (draw : ℕ) (options : CampaignListOptions) (db : Db)
      (items : List PublicCampaignListItem) (total : ℤ)
      → list_public sql counts lists draw options db ≡ ok (items, total)
      → All (λ item. IsShown sql options db item.campaign) items
        × (total ≡ pos (count (is_listed sql db options) db.campaigns))
        × All (λ c. (is_listed sql db options c ≡ true) ↔ IsShown sql options db c) db.campaigns
  unfolding list_public
  list_public-listed counts lists draw options db items total h =
      let rows = public_rows sql db options in
      let items_of =
        map (λ c. list_item db c (owner_of db c)) (ordered sql draw options.sort rows) in
      let (page, counted) =
        counted_page-ok counts lists (length rows)
          (page_at options.page_size (offset_of options.page options.page_size) items_of) items
          total h in
      let P = λ (item : PublicCampaignListItem). IsShown sql options db item.campaign in
      let shown =
        All-map (λ c. list_item db c (owner_of db c)) P (ordered sql draw options.sort rows)
          (All-weaken (λ c. is_listed sql db options c ≡ true)
            (λ c. P (list_item db c (owner_of db c))) (ordered sql draw options.sort rows)
            (λ c e. rw (item_campaign db c (owner_of db c)) ((is_listed_iff sql options db c).0 e))
            (selected draw options.sort (is_listed sql db options) db.campaigns)) in
      (
        All-page_at P options.page_size (offset_of options.page options.page_size) items_of items
            shown page,
        counted,
        All-tabulate (λ c. (is_listed sql db options c ≡ true) ↔ IsShown sql options db c)
            db.campaigns (λ c m. is_listed_iff sql options db c),
      )
