-- ===== src/Database/Listings/Walk.antt =====
-- A walk through the pages of the public list.
use be_pawfund.Prelude.{
  ℕ, suc, ◌+◌, ◌-◌, ◌*◌, ◌≡◌, ◌≤◌, refl, ap, ◌∙◌, Bool, true, false, List, [], ◌∷◌, map, arith,
  Result, ok, err, length,
}
use be_pawfund.Prelude.Int.{ℤ, pos, max_int64, mul_int64, wrap64, wrap64-pos}
use be_pawfund.Domain.{Campaign, RepositoryError}
use be_pawfund.Database.{Db}
use be_pawfund.Http.Sorting.{CampaignListOptions}
use be_pawfund.Http.Pagination.{
  new_pagination, new_pagination-IsPageCount, sub_int64-pos, sub_ℕ-pos,
}
use be_pawfund.Database.Listings.{
  Sql, PublicCampaignListItem, take, drop, insert_by, sort_by, offset_of, owner_of, list_item,
  public_rows, ordered, list_public, before, is_random,
}
use be_pawfund.Database.Listings.Pages.{
  take-all, concat_pages, concat_pages-take, count, count-sort_by,
}
use native.Mathlib.Nat.{mul-le-mul_right, le-mul_of_pos_right}

mul_int64-pos : (a b : ℕ) → a * b ≤ max_int64 → mul_int64 (pos a) (pos b) ≡ pos (a * b)
mul_int64-pos a b h =
    ap wrap64 (sub_ℕ-pos (a * b + 0 * 0) (a * 0 + 0 * b) (omega arith))
    ∙ wrap64-pos (a * b + 0 * 0 - (a * 0 + 0 * b)) (omega (arith, h))
    ∙ ap pos (omega arith)

-- In range the offset of a page is exact.
pub offset_of-pos :
    (k size : ℕ)
    → suc k ≤ max_int64
    → k * size ≤ max_int64
    → offset_of (suc k) size ≡ pos (k * size)
offset_of-pos k size page h =
    let e : suc k - 1 ≡ k = omega arith in
    ap (λ z. mul_int64 z (pos size)) (sub_int64-pos (suc k) 1 (omega arith) page ∙ ap pos e)
    ∙ mul_int64-pos k size h

-- The rows of an answered page.
abbrev pub rows_of : {A : Type 0} → Result RepositoryError (List A × ℤ) → List A
rows_of (ok (rows, total)) = rows
rows_of (err e) = []

pub length-map : {A B : Type 0} (f : A → B) (xs : List A) → length (map f xs) ≡ length xs
length-map f [] = refl
length-map f (x ∷ xs) = ap suc (length-map f xs)

length-insert_by :
    {A : Type 0} (before : A → A → Bool) (x : A) (xs : List A)
    → length (insert_by before x xs) ≡ suc (length xs)
unfolding insert_by
length-insert_by before x [] = refl
length-insert_by before x (y ∷ ys) = ground (arith, length-insert_by before x ys)

pub length-sort_by :
    {A : Type 0} (before : A → A → Bool) (xs : List A) → length (sort_by before xs) ≡ length xs
unfolding sort_by
length-sort_by before [] = refl
length-sort_by before (x ∷ xs) =
    length-insert_by before x (sort_by before xs) ∙ ap suc (length-sort_by before xs)

module _ (sql : Sql) (options : CampaignListOptions) (db : Db) where
  -- The whole list that the pages are cut from.
  abbrev pub whole : List PublicCampaignListItem
  whole =
      map (λ c. list_item db c (owner_of db c))
        (sort_by (before sql options.sort) (public_rows sql db options))

  -- The answer to a request for one page; `draw` is the randomness of its statement.
  abbrev pub page_of_list : (ℕ → ℕ) → ℕ → List PublicCampaignListItem
  page_of_list draw k =
      rows_of (list_public sql true true (draw k) (record options { page = k }) db)

  page-rows :
      (draw : ℕ → ℕ) (k : ℕ)
      → is_random options.sort ≡ false
      → suc k ≤ max_int64
      → k * options.page_size ≤ max_int64
      → page_of_list draw (suc k) ≡ take options.page_size (drop (k * options.page_size) whole)
  unfolding list_public ordered
  page-rows draw k sorted page low = rw (offset_of-pos k options.page_size page low, sorted)

  -- On tables that do not change, for an order that is not random, a page size of at least 1, and a number
  -- of listed campaigns that with it fits an int64: the pages 1 to the last one of the pagination are
  -- one after the other the whole ordered list, in which every campaign stands as often as it is
  -- selected.
  pub list_public-walk :
      (draw : ℕ → ℕ)
      → is_random options.sort ≡ false
      → 1 ≤ options.page_size
      → length (public_rows sql db options) + options.page_size ≤ max_int64
      → (n : ℕ) × ((new_pagination
            (pos options.page)
            (pos options.page_size)
            (pos (length (public_rows sql db options)))).total_pages
          ≡ pos n)
        × (concat_pages (page_of_list draw) n ≡ whole)
        × ((p : Campaign → Bool)
            → count p (sort_by (before sql options.sort) (public_rows sql db options))
              ≡ count p (public_rows sql db options))
  list_public-walk draw sorted one fits =
      let rows = public_rows sql db options in
      let size = options.page_size in
      let (n, pages, last) =
        new_pagination-IsPageCount (pos options.page) size (length rows) one fits in
      let same : length whole ≡ length rows =
        length-map (λ c. list_item db c (owner_of db c)) (sort_by (before sql options.sort) rows)
        ∙ length-sort_by (before sql options.sort) rows in
      let cut : (k : ℕ)
          → suc k ≤ n
          → page_of_list draw (suc k) ≡ take size (drop (k * size) whole) =
        λ k le.
          let fewer : k ≤ n - 1 = omega (arith, le) in
          let below : k * size ≤ (n - 1) * size = mul-le-mul_right size fewer in
          let least = last.least in
          let grows : k ≤ k * size = le-mul_of_pos_right {m = size} k (omega (arith, one)) in
          page-rows draw k sorted (omega (arith, below, least, grows, fits, one))
            (omega (arith, below, least, fits)) in
      let all = last.holds_all in
      (
        n,
        pages,
        concat_pages-take (page_of_list draw) size whole n cut
            ∙ take-all (n * size) whole (omega (arith, same, all)),
        λ p. count-sort_by p (before sql options.sort) rows,
      )
