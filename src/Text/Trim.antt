-- ===== src/Text/Trim.antt =====
-- Laws of strings.TrimSpace: it keeps a text that has no space at either end, and a second call
-- changes nothing.
use be_pawfund.Prelude.{ℕ, ◌≡◌, ◌≢◌, refl, false, [], ◌∷◌, ◌++◌, arith, Bool-cases, inl, inr}
use be_pawfund.Text.{Text, is_space, trim_left, keep_before, trim_right, trim_space}

-- No space at the front.
abbrev pub StartsPlain : Text → Type 0
StartsPlain [] = Unit
StartsPlain (c ∷ s) = is_space c ≡ false

trim_left-StartsPlain : (s : Text) → StartsPlain (trim_left s)
unfolding trim_left
trim_left-StartsPlain [] = tt
trim_left-StartsPlain (c ∷ s) = elim (Bool-cases (is_space c)) [
  | inl e ↦ rw e (trim_left-StartsPlain s)
  | inr e ↦ rw e e
]

pub trim_left_of_StartsPlain : (s : Text) → StartsPlain s → trim_left s ≡ s
unfolding trim_left
trim_left_of_StartsPlain [] h = refl
trim_left_of_StartsPlain (c ∷ s) h = rw h

keep_before-StartsPlain : (c : ℕ) (s : Text) → is_space c ≡ false → StartsPlain (keep_before c s)
keep_before-StartsPlain c [] h = rw h h
keep_before-StartsPlain c (d ∷ s) h = h

trim_right-StartsPlain : (s : Text) → StartsPlain s → StartsPlain (trim_right s)
unfolding trim_right
trim_right-StartsPlain [] h = tt
trim_right-StartsPlain (c ∷ s) h = keep_before-StartsPlain c (trim_right s) h

trim_right-keep_before :
    (c : ℕ) (s : Text) → trim_right s ≡ s → trim_right (keep_before c s) ≡ keep_before c s
unfolding trim_right
trim_right-keep_before c [] h = elim (Bool-cases (is_space c)) [
  | inl e ↦ rw e
  | inr e ↦ rw e (rw e)
]
trim_right-keep_before c (d ∷ s) h = rw h

trim_right_idem : (s : Text) → trim_right (trim_right s) ≡ trim_right s
unfolding trim_right
trim_right_idem [] = refl
trim_right_idem (c ∷ s) = trim_right-keep_before c (trim_right s) (trim_right_idem s)

pub trim_space-StartsPlain : (s : Text) → StartsPlain (trim_space s)
unfolding trim_space
trim_space-StartsPlain s = trim_right-StartsPlain (trim_left s) (trim_left-StartsPlain s)

pub trim_right-trim_space : (s : Text) → trim_right (trim_space s) ≡ trim_space s
unfolding trim_space
trim_right-trim_space s = trim_right_idem (trim_left s)

-- What has no space at either end is kept.
pub trim_space_of_plain : (s : Text) → StartsPlain s → trim_right s ≡ s → trim_space s ≡ s
unfolding trim_space
trim_space_of_plain s h k = rw (trim_left_of_StartsPlain s h) k

pub trim_space_idem : (s : Text) → trim_space (trim_space s) ≡ trim_space s
trim_space_idem s =
    trim_space_of_plain (trim_space s) (trim_space-StartsPlain s) (trim_right-trim_space s)

trim_right-tail : (c : ℕ) (s : Text) → trim_right (c ∷ s) ≡ c ∷ s → trim_right s ≡ s
unfolding trim_right
trim_right-tail c [] h = refl
trim_right-tail c (d ∷ s) h = ground arith

-- The end of a trimmed text is trimmed.
pub trim_right-suffix : (p s : Text) → trim_right (p ++ s) ≡ p ++ s → trim_right s ≡ s
trim_right-suffix [] s h = h
trim_right-suffix (c ∷ p) s h = trim_right-suffix p s (trim_right-tail c (p ++ s) h)

-- Text before a trimmed end is kept.
pub trim_right-append : (p s : Text) → s ≢ [] → trim_right s ≡ s → trim_right (p ++ s) ≡ p ++ s
unfolding trim_right
trim_right-append [] s ne h = h
trim_right-append (c ∷ []) [] ne h = absurd (ne refl)
trim_right-append (c ∷ []) (d ∷ s) ne h = rw h
trim_right-append (c ∷ d ∷ p) s ne h = rw (trim_right-append (d ∷ p) s ne h)
