-- ===== src/Prelude/Unique.antt =====
-- Tables whose rows have different keys.
use mathlib.Core.Path.{◌≡◌, refl, sym, ap, ◌∙◌}
use mathlib.Core.Logic.{◌≢◌, inl, inr}
use mathlib.Core.Bool.{Bool, true, false}
use mathlib.Core.List.{List, [], ◌∷◌, ◌++◌}
use be_pawfund.Prelude.Tests.{if◌then◌else◌}
use be_pawfund.Prelude.Lists.{update_where, Member, All, All-Member, All-append, All-update_where}

-- No two rows have the same key.
abbrev pub UniqueBy : {A K : Type 0} → (A → K) → List A → Type 0
UniqueBy key [] = Unit
UniqueBy key (x ∷ xs) = All (λ y. key x ≢ key y) xs × UniqueBy key xs

module _ {A K : Type 0} (key : A → K) where
  pub UniqueBy-append_one :
      (xs : List A) (x : A)
      → UniqueBy key xs
      → All (λ y. key y ≢ key x) xs
      → UniqueBy key (xs ++ x ∷ [])
  UniqueBy-append_one [] x u h = (tt, tt)
  UniqueBy-append_one (y ∷ xs) x (d, u) (ne, h) =
      (All-append (λ z. key y ≢ key z) xs (x ∷ []) d (ne, tt), UniqueBy-append_one xs x u h)

  All-update_where_key :
      (p : A → Bool) (f : A → A) (k : K) (xs : List A)
      → ((a : A) → key (f a) ≡ key a)
      → All (λ y. k ≢ key y) xs
      → All (λ y. k ≢ key y) (update_where p f xs)
  All-update_where_key p f k xs same h =
      All-update_where (λ y. k ≢ key y) p f xs (λ a m t ne e. ne (e ∙ same a)) h

  key-update :
      (b : Bool) (f : A → A) (x : A)
      → ((a : A) → key (f a) ≡ key a)
      → key (if b then f x else x) ≡ key x
  key-update true f x same = same x
  key-update false f x same = refl

  pub UniqueBy-update_where :
      (p : A → Bool) (f : A → A) (xs : List A)
      → ((a : A) → key (f a) ≡ key a)
      → UniqueBy key xs
      → UniqueBy key (update_where p f xs)
  UniqueBy-update_where p f [] same u = tt
  UniqueBy-update_where p f (x ∷ xs) same (d, u) = (
    rw (key-update (p x) f x same) (All-update_where_key p f (key x) xs same d),
    UniqueBy-update_where p f xs same u,
  )

  -- Two rows with one key are the same row.
  pub UniqueBy-injective :
      (xs : List A) (a b : A) → UniqueBy key xs → Member a xs → Member b xs → key a ≡ key b → a ≡ b
  UniqueBy-injective [] a b u m n e = elim m [ ]
  UniqueBy-injective (x ∷ xs) a b (d, u) (inl p) (inl q) e = p ∙ sym q
  UniqueBy-injective (x ∷ xs) a b (d, u) (inl p) (inr n) e =
      absurd (All-Member (λ y. key x ≢ key y) xs b d n (ap key (sym p) ∙ e))
  UniqueBy-injective (x ∷ xs) a b (d, u) (inr m) (inl q) e =
      absurd (All-Member (λ y. key x ≢ key y) xs a d m (ap key (sym q) ∙ sym e))
  UniqueBy-injective (x ∷ xs) a b (d, u) (inr m) (inr n) e = UniqueBy-injective xs a b u m n e
