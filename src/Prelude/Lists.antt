-- ===== src/Prelude/Lists.antt =====
-- Lists measured by native numbers, and lists as tables of a database: the first row that passes a
-- test (a query of one row), the existence of such a row, an update of the rows that pass.
use Prim.Native.Nat.{ℕ, suc, ◌+◌}
use mathlib.Core.Path.{◌≡◌, refl}
use mathlib.Core.Logic.{◌⊎◌, inl, inr}
use mathlib.Core.Bool.{Bool, true, false, ◌||◌}
use mathlib.Core.List.{List, [], ◌∷◌, ◌++◌}
use mathlib.Core.Option.{Option, none, some}
use native.Mathlib.Omega.{arith}
use be_pawfund.Prelude.Tests.{if◌then◌else◌, Bool-cases}

module _ {ℓ} {A : Type ℓ} where
  abbrev pub length : List A → ℕ
  length [] = 0
  length (x ∷ xs) = suc (length xs)

  pub length-append : (xs ys : List A) → length (xs ++ ys) ≡ length xs + length ys
  length-append [] ys = omega arith
  length-append (x ∷ xs) ys = omega (arith, length-append xs ys)

  abbrev pub filter_by : (A → Bool) → List A → List A
  filter_by p [] = []
  filter_by p (x ∷ xs) = let rest = filter_by p xs in if p x then x ∷ rest else rest

  -- SELECT … WHERE p, read by QueryRow: the first row.
  abbrev pub find? : (A → Bool) → List A → Option A
  find? p [] = none
  find? p (x ∷ xs) = let rest = find? p xs in if p x then some x else rest

  abbrev pub any : (A → Bool) → List A → Bool
  any p [] = false
  any p (x ∷ xs) = p x || any p xs

  -- UPDATE … SET f WHERE p
  abbrev pub update_where : (A → Bool) → (A → A) → List A → List A
  update_where p f [] = []
  update_where p f (x ∷ xs) = (if p x then f x else x) ∷ update_where p f xs

-- The row is in the table.
abbrev pub Member : {A : Type 0} → A → List A → Type 0
Member a [] = ⊥
Member a (x ∷ xs) = (a ≡ x) ⊎ Member a xs

abbrev pub All : {A : Type 0} → (A → Type 0) → List A → Type 0
All P [] = Unit
All P (x ∷ xs) = P x × All P xs

module _ {A : Type 0} (P : A → Type 0) where
  pub All-Member : (xs : List A) (a : A) → All P xs → Member a xs → P a
  All-Member [] a h m = elim m [ ]
  All-Member (x ∷ xs) a (p, h) (inl e) = rw e p
  All-Member (x ∷ xs) a (p, h) (inr m) = All-Member xs a h m

  pub All-append : (xs ys : List A) → All P xs → All P ys → All P (xs ++ ys)
  All-append [] ys h k = k
  All-append (x ∷ xs) ys (p, h) k = (p, All-append xs ys h k)

  pub All-tabulate : (xs : List A) → ((a : A) → Member a xs → P a) → All P xs
  All-tabulate [] h = tt
  All-tabulate (x ∷ xs) h = (h x (inl refl), All-tabulate xs (λ a m. h a (inr m)))

  pub All-update_where :
      (p : A → Bool) (f : A → A) (xs : List A)
      → ((a : A) → Member a xs → p a ≡ true → P a → P (f a))
      → All P xs
      → All P (update_where p f xs)
  All-update_where p f [] keep h = tt
  All-update_where p f (x ∷ xs) keep (px, h) =
      (at (Bool-cases (p x)), All-update_where p f xs (λ a m. keep a (inr m)) h)
    where
      at : (p x ≡ true) ⊎ (p x ≡ false) → P (if p x then f x else x)
      at (inl e) = rw e (keep x (inl refl) e px)
      at (inr e) = rw e px

module _ {A : Type 0} where
  pub find?-holds : (p : A → Bool) (xs : List A) (a : A) → find? p xs ≡ some a → p a ≡ true
  find?-holds p [] a h = ground arith
  find?-holds p (x ∷ xs) a h = ground (arith, find?-holds p xs a)

  pub find?-Member : (p : A → Bool) (xs : List A) (a : A) → find? p xs ≡ some a → Member a xs
  find?-Member p [] a h = ground arith
  find?-Member p (x ∷ xs) a h = elim (Bool-cases (p x)) [
    | inl e ↦ inl (ground arith)
    | inr e ↦ inr (find?-Member p xs a (ground arith))
  ]

  pub any_of_Member :
      (p : A → Bool) (xs : List A) (a : A) → Member a xs → p a ≡ true → any p xs ≡ true
  any_of_Member p [] a m h = elim m [ ]
  any_of_Member p (x ∷ xs) a (inl e) h = let px : p x ≡ true = rw (← e) h in rw px
  any_of_Member p (x ∷ xs) a (inr m) h = ground (arith, any_of_Member p xs a m h)

  pub any-Member :
      (p : A → Bool) (xs : List A) → any p xs ≡ true → (a : A) × Member a xs × (p a ≡ true)
  any-Member p [] h = ground arith
  any-Member p (x ∷ xs) h = elim (Bool-cases (p x)) [
    | inl e ↦ (x, inl refl, e)
    | inr e ↦ let (a, m, q) = any-Member p xs (ground arith) in (a, inr m, q)
  ]

  pub Member-append_left : (xs ys : List A) (a : A) → Member a xs → Member a (xs ++ ys)
  Member-append_left [] ys a m = elim m [ ]
  Member-append_left (x ∷ xs) ys a (inl e) = inl e
  Member-append_left (x ∷ xs) ys a (inr m) = inr (Member-append_left xs ys a m)

  pub find?-append_none :
      (p : A → Bool) (xs ys : List A) → find? p xs ≡ none → find? p (xs ++ ys) ≡ find? p ys
  find?-append_none p [] ys h = refl
  find?-append_none p (x ∷ xs) ys h = ground (arith, find?-append_none p xs ys)

  pub find?-append_some :
      (p : A → Bool) (xs ys : List A) (a : A) → find? p xs ≡ some a → find? p (xs ++ ys) ≡ some a
  find?-append_some p [] ys a h = ground arith
  find?-append_some p (x ∷ xs) ys a h = ground (arith, find?-append_some p xs ys a)

  -- An update that changes no row's test keeps the first row that passes, up to the update.
  pub find?-update_where_ne :
      (q p : A → Bool) (f : A → A) (xs : List A)
      → ((a : A) → p a ≡ true → q (f a) ≡ q a)
      → find? q xs ≡ none
      → find? q (update_where p f xs) ≡ none
  find?-update_where_ne q p f [] same h = refl
  find?-update_where_ne q p f (x ∷ xs) same h =
      ground (arith, same x, find?-update_where_ne q p f xs same)

module _ {A : Type 0} where
  pub any-eq-false : (p : A → Bool) (xs : List A) → any p xs ≡ false → All (λ a. p a ≡ false) xs
  any-eq-false p [] h = tt
  any-eq-false p (x ∷ xs) h = (ground arith, any-eq-false p xs (ground arith))

  pub find?-none_of_any : (p : A → Bool) (xs : List A) → any p xs ≡ false → find? p xs ≡ none
  find?-none_of_any p [] h = refl
  find?-none_of_any p (x ∷ xs) h = ground (arith, find?-none_of_any p xs)

  pub any_append_left : (p : A → Bool) (xs ys : List A) → any p xs ≡ true → any p (xs ++ ys) ≡ true
  any_append_left p [] ys h = ground arith
  any_append_left p (x ∷ xs) ys h = ground (arith, any_append_left p xs ys)

  -- An update of what a test does not read.
  pub any-update_where :
      (q p : A → Bool) (f : A → A) (xs : List A)
      → ((a : A) → q (f a) ≡ q a)
      → any q (update_where p f xs) ≡ any q xs
  any-update_where q p f [] same = refl
  any-update_where q p f (x ∷ xs) same = ground (arith, same x, any-update_where q p f xs same)

  -- A row that the update passes over stays.
  pub Member-update_where_ne :
      (p : A → Bool) (f : A → A) (xs : List A) (a : A)
      → Member a xs
      → p a ≡ false
      → Member a (update_where p f xs)
  Member-update_where_ne p f [] a m h = elim m [ ]
  Member-update_where_ne p f (x ∷ xs) a (inl e) h =
      let px : p x ≡ false = rw (← e) h in inl (rw px e)
  Member-update_where_ne p f (x ∷ xs) a (inr m) h = inr (Member-update_where_ne p f xs a m h)

  -- The first row that passes a test of what the update keeps is the updated first row.
  pub find?-update_where :
      (q : A → Bool) (f : A → A) (xs : List A) (a : A)
      → ((x : A) → q (f x) ≡ q x)
      → find? q xs ≡ some a
      → find? q (update_where q f xs) ≡ some (f a)
  find?-update_where q f [] a same h = ground arith
  find?-update_where q f (x ∷ xs) a same h = elim (Bool-cases (q x)) [
    | inl e ↦ ground (arith, same x)
    | inr e ↦ ground (arith, find?-update_where q f xs a same)
  ]

  module _ (P Q : A → Type 0) where
    pub All-weaken : (xs : List A) → ((a : A) → P a → Q a) → All P xs → All Q xs
    All-weaken [] h all = tt
    All-weaken (x ∷ xs) h (p, all) = (h x p, All-weaken xs h all)
