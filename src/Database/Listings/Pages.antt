-- ===== src/Database/Listings/Pages.antt =====
-- Pages of a list: one after the other they are the list; and an ordered list has the rows of the list.
use be_pawfund.Prelude.{
  ℕ, suc, zero, ◌+◌, ◌*◌, ◌≡◌, ◌≤◌, refl, sym, ap, ◌∙◌, Bool, List, [], ◌∷◌, ◌++◌, arith, length,
  All, filter_by,
}
use native.Mathlib.Nat.{suc-mul}
use be_pawfund.Database.Listings.{take, drop, insert_by, sort_by}

module _ {A : Type 0} where
  pub take-all : (n : ℕ) (xs : List A) → length xs ≤ n → take n xs ≡ xs
  unfolding take
  take-all zero [] h = refl
  take-all zero (x ∷ xs) h = absurd (omega (arith, h))
  take-all (suc n) [] h = refl
  take-all (suc n) (x ∷ xs) h = ap (λ t. x ∷ t) (take-all n xs (omega (arith, h)))

  take-nil : (n : ℕ) → take {A = A} n [] ≡ []
  unfolding take
  take-nil zero = refl
  take-nil (suc n) = refl

  pub take-add : (m n : ℕ) (xs : List A) → take m xs ++ take n (drop m xs) ≡ take (m + n) xs
  unfolding take drop
  take-add zero n xs = let e : n ≡ 0 + n = omega arith in ap (λ k. take k xs) e
  take-add (suc m) n [] = take-nil n ∙ sym (take-nil (suc m + n))
  take-add (suc m) n (x ∷ xs) =
      let e : suc (m + n) ≡ suc m + n = omega arith in
      ap (λ t. x ∷ t) (take-add m n xs) ∙ ap (λ k. take k (x ∷ xs)) e

  -- The pages 1 to n, one after the other.
  unfoldable pub concat_pages : (ℕ → List A) → ℕ → List A
  concat_pages page zero = []
  concat_pages page (suc n) = concat_pages page n ++ page (suc n)

  pub concat_pages-take :
      (page : ℕ → List A) (size : ℕ) (xs : List A) (n : ℕ)
      → ((k : ℕ) → suc k ≤ n → page (suc k) ≡ take size (drop (k * size) xs))
      → concat_pages page n ≡ take (n * size) xs
  unfolding concat_pages take
  concat_pages-take page size xs zero h =
      let e : 0 ≡ 0 * size = omega arith in ap (λ k. take k xs) e
  concat_pages-take page size xs (suc n) h =
      let before = concat_pages-take page size xs n (λ k le. h k (omega (arith, le))) in
      let here = h n (omega arith) in
      let next : n * size + size ≡ suc n * size = sym (suc-mul n size) in
      ap (λ t. t ++ page (suc n)) before
      ∙ ap (λ t. take (n * size) xs ++ t) here
      ∙ take-add (n * size) size xs
      ∙ ap (λ k. take k xs) next

  -- A predicate of all rows is one of all rows of a page.
  pub All-take : (P : A → Type 0) (n : ℕ) (xs : List A) → All P xs → All P (take n xs)
  unfolding take
  All-take P zero xs h = tt
  All-take P (suc n) [] h = tt
  All-take P (suc n) (x ∷ xs) h = (h.0, All-take P n xs h.1)

  pub All-drop : (P : A → Type 0) (n : ℕ) (xs : List A) → All P xs → All P (drop n xs)
  unfolding drop
  All-drop P zero xs h = h
  All-drop P (suc n) [] h = tt
  All-drop P (suc n) (x ∷ xs) h = All-drop P n xs h.1

  -- How many rows pass a test
  abbrev pub count : (A → Bool) → List A → ℕ
  count p xs = length (filter_by p xs)

  count-insert_by :
      (p : A → Bool) (before : A → A → Bool) (x : A) (xs : List A)
      → count p (insert_by before x xs) ≡ count p (x ∷ xs)
  unfolding insert_by
  count-insert_by p before x [] = refl
  count-insert_by p before x (y ∷ ys) = ground (arith, count-insert_by p before x ys)

  pub count-sort_by :
      (p : A → Bool) (before : A → A → Bool) (xs : List A)
      → count p (sort_by before xs) ≡ count p xs
  unfolding sort_by
  count-sort_by p before [] = refl
  count-sort_by p before (x ∷ xs) =
      let r = count-sort_by p before xs in
      count-insert_by p before x (sort_by before xs) ∙ ground arith
