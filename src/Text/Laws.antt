-- ===== src/Text/Laws.antt =====
-- Laws of the texts: equality, prefixes, suffixes, containment.
use be_pawfund.Prelude.{
  ℕ, ◌≡◌, ◌↔◌, refl, sym, ap, true, false, [], ◌∷◌, ◌++◌, arith, nat_eq_refl, Bool-cases, inl, inr,
  length, length-append,
}
use be_pawfund.Text.{Text, text_eq, has_prefix, drop_prefix, has_suffix, trim_suffix}

pub text_eq_sound : (s t : Text) → text_eq s t ≡ true → s ≡ t
unfolding text_eq
text_eq_sound [] [] h = refl
text_eq_sound [] (b ∷ t) h = ground arith
text_eq_sound (a ∷ s) [] h = ground arith
text_eq_sound (a ∷ s) (b ∷ t) h = ground (arith, text_eq_sound s t)

pub text_eq_refl : (s : Text) → text_eq s s ≡ true
unfolding text_eq
text_eq_refl [] = refl
text_eq_refl (a ∷ s) = rw (nat_eq_refl a) (text_eq_refl s)

pub text_eq_iff : (s t : Text) → (text_eq s t ≡ true) ↔ (s ≡ t)
text_eq_iff s t = (text_eq_sound s t, λ e. rw e (text_eq_refl t))

pub text_eq_comm : (s t : Text) → text_eq s t ≡ text_eq t s
text_eq_comm s t = ground (arith, text_eq_iff s t, text_eq_iff t s)

pub has_prefix-append : (p s : Text) → has_prefix (p ++ s) p ≡ true
unfolding has_prefix
has_prefix-append [] s = refl
has_prefix-append (c ∷ p) s = rw (nat_eq_refl c) (has_prefix-append p s)

pub drop_prefix-append : (p s : Text) → drop_prefix (p ++ s) p ≡ s
unfolding drop_prefix
drop_prefix-append [] s = refl
drop_prefix-append (c ∷ p) s = drop_prefix-append p s

pub append-drop_prefix : (s p : Text) → has_prefix s p ≡ true → p ++ drop_prefix s p ≡ s
unfolding has_prefix drop_prefix
append-drop_prefix s [] h = refl
append-drop_prefix [] (c ∷ p) h = ground arith
append-drop_prefix (d ∷ s) (c ∷ p) h = ground (arith, append-drop_prefix s p)

-- A text is what TrimSuffix leaves of it and the suffix.
pub trim_suffix-append_suffix :
    (s suffix : Text) → has_suffix s suffix ≡ true → trim_suffix s suffix ++ suffix ≡ s
unfolding has_suffix trim_suffix
trim_suffix-append_suffix [] suffix h = sym (text_eq_sound [] suffix h)
trim_suffix-append_suffix (c ∷ s) suffix h = elim (Bool-cases (text_eq (c ∷ s) suffix)) [
  | inl e ↦ rw e (sym (text_eq_sound (c ∷ s) suffix e))
  | inr e ↦ rw e (ap (λ t. c ∷ t) (trim_suffix-append_suffix s suffix (rw e at h)))
]

text_eq-length : (s t : Text) → text_eq s t ≡ true → length s ≡ length t
text_eq-length s t h = ap length (text_eq_sound s t h)

text_eq-longer : (c : ℕ) (s t : Text) → text_eq (c ∷ s ++ t) t ≡ false
text_eq-longer c s t = elim (Bool-cases (text_eq (c ∷ s ++ t) t)) [
  | inl e ↦ absurd (omega (arith, text_eq-length (c ∷ s ++ t) t e, length-append s t))
  | inr e ↦ e
]

pub has_suffix-append : (s suffix : Text) → has_suffix (s ++ suffix) suffix ≡ true
unfolding has_suffix
has_suffix-append [] [] = text_eq_refl []
has_suffix-append [] (c ∷ t) = rw (text_eq_refl (c ∷ t))
has_suffix-append (c ∷ s) t = rw (text_eq-longer c s t) (has_suffix-append s t)

-- TrimSuffix takes an appended suffix off again.
pub trim_suffix-append : (s suffix : Text) → trim_suffix (s ++ suffix) suffix ≡ s
unfolding trim_suffix
trim_suffix-append [] [] = refl
trim_suffix-append [] (c ∷ t) = rw (text_eq_refl (c ∷ t))
trim_suffix-append (c ∷ s) t = rw (text_eq-longer c s t) (ap (λ r. c ∷ r) (trim_suffix-append s t))
