-- ===== src/Http/Pagination.antt =====
-- internal/http/httpx/response.go: NewPagination.
use be_pawfund.Prelude.{
  ℕ, suc, zero, ◌≡◌, ◌≤◌, ◌<◌, ◌⊎◌, inl, inr, refl, ◌-◌, ◌+◌, ◌/◌, ◌*◌, ◌↔◌, ap, ◌∙◌, true, ◌&&◌,
  arith, if◌then◌else◌,
}
use be_pawfund.Prelude.Int.{
  ℤ, pos, int_lt, add_int64, sub_int64, div_int64, wrap64, wrap64-pos, max_int64, sub_ℕ,
}
use native.Mathlib.Nat.{
  le-div_iff_mul-le, div-mul-le_self, div-le_self, div-zero, zero-div, suc-mul,
}

pub record Pagination : Type 0 where
  pub current : ℤ
  pub page_size : ℤ
  pub total_pages : ℤ
  pub total_items : ℤ

-- NewPagination
unfoldable pub new_pagination : ℤ → ℤ → ℤ → Pagination
new_pagination current page_size total_items = record {
  current = current;
  page_size = page_size;
  total_pages =
      if int_lt (pos 0) page_size && int_lt (pos 0) total_items
      then div_int64 (sub_int64 (add_int64 total_items page_size) (pos 1)) page_size
      else pos 0;
  total_items = total_items;
}

-- The number of pages of `size` rows that `items` rows fill: the least one that holds them all.
pub record IsPageCount (items size pages : ℕ) : Type 0 where
  pub holds_all : items ≤ pages * size
  -- One page less does not, where there is one.
  pub least : (pages ≡ 0) ⊎ ((pages - 1) * size < items)

-- In range the operations of int64 are those of the natural numbers.
pub sub_ℕ-pos : (a b : ℕ) → b ≤ a → sub_ℕ a b ≡ pos (a - b)
sub_ℕ-pos a b h = ground arith

add_int64-pos : (a b : ℕ) → a + b ≤ max_int64 → add_int64 (pos a) (pos b) ≡ pos (a + b)
add_int64-pos a b h =
    ap wrap64 (sub_ℕ-pos (a + b) (0 + 0) (omega arith))
    ∙ wrap64-pos (a + b - (0 + 0)) (omega (arith, h))
    ∙ ap pos (omega arith)

pub sub_int64-pos : (a b : ℕ) → b ≤ a → a ≤ max_int64 → sub_int64 (pos a) (pos b) ≡ pos (a - b)
sub_int64-pos a b le h =
    ap wrap64 (sub_ℕ-pos (a + 0) (0 + b) (omega (arith, le)))
    ∙ wrap64-pos (a + 0 - (0 + b)) (omega (arith, h))
    ∙ ap pos (omega arith)

div_int64-pos : (a b : ℕ) → a ≤ max_int64 → div_int64 (pos a) (pos b) ≡ pos (a / b)
div_int64-pos a b h =
    let le : a / b ≤ a = div-le_self a b in
    ap wrap64 (
      ap (λ z. sub_ℕ (a / b + 0 / 0) z)
        (ap (λ x. x + 0 / b) (div-zero a) ∙ omega (arith, zero-div b))
      ∙ ap (λ x. sub_ℕ (a / b + x) 0) (zero-div 0)
      ∙ sub_ℕ-pos (a / b + 0) 0 (omega arith))
    ∙ wrap64-pos (a / b + 0 - 0) (omega (arith, h, le))
    ∙ ap pos (omega arith)

rounded_up :
    (size items : ℕ)
    → 1 ≤ size
    → items + size ≤ max_int64
    → div_int64 (sub_int64 (add_int64 (pos items) (pos size)) (pos 1)) (pos size)
      ≡ pos ((items + size - 1) / size)
rounded_up size items s h =
    rw (add_int64-pos items size h, sub_int64-pos (items + size) 1 (omega (arith, s)) h)
      (div_int64-pos (items + size - 1) size (omega (arith, h)))

rounded_up-IsPageCount :
    (size items : ℕ) → 1 ≤ size → IsPageCount items size ((items + size - 1) / size)
rounded_up-IsPageCount size items s =
    let q = (items + size - 1) / size in
    let low : q * size ≤ items + size - 1 = div-mul-le_self (items + size - 1) size in
    let not_above : (suc q ≤ q) ↔ (suc q * size ≤ items + size - 1) =
      le-div_iff_mul-le {k = size} {x = suc q} {y = items + size - 1} (omega (arith, s)) in
    let over : (suc q * size ≤ items + size - 1) → ⊥ =
      λ h. let k = not_above.1 h in omega (arith, k) in
    let high : items + size ≤ suc q * size = at_most (suc q * size) (items + size) over in
    let next : suc q * size ≡ q * size + size = suc-mul q size in
    record { holds_all = omega (arith, high, next); least = one_less q low }
  where
    at_most : (a b : ℕ) → ((a ≤ b - 1) → ⊥) → b ≤ a
    at_most a b h = ground arith

    one_less : (q : ℕ) → q * size ≤ items + size - 1 → (q ≡ 0) ⊎ ((q - 1) * size < items)
    one_less zero h = inl refl
    one_less (suc r) h =
        let next : suc r * size ≡ r * size + size = suc-mul r size in
        let same : suc r - 1 ≡ r = omega arith in inr (rw same (omega (arith, h, next, s)))

-- The pages of a pagination with a page size of at least 1, for a number of items that with it fits an
-- int64: the least number of pages that hold the items.
pub new_pagination-IsPageCount :
    (current : ℤ) (size items : ℕ)
    → 1 ≤ size
    → items + size ≤ max_int64
    → (pages : ℕ) × ((new_pagination current (pos size) (pos items)).total_pages ≡ pos pages)
      × IsPageCount items size pages
unfolding new_pagination
new_pagination-IsPageCount current size zero s h =
    (0, ground arith, record { holds_all = omega arith; least = inl refl })
new_pagination-IsPageCount current size (suc items) s h =
    let filled : (int_lt (pos 0) (pos size) && int_lt (pos 0) (pos (suc items))) ≡ true =
      ground (arith, s) in
    (
      (suc items + size - 1) / size,
      rw filled (rounded_up size (suc items) s h),
      rounded_up-IsPageCount size (suc items) s,
    )
