-- ===== src/Http/Sessions.antt =====
-- A token that Generate made, sent in the Authorization header, is the principal of its request.
use be_pawfund.Prelude.{
  ℕ, ◌≡◌, ◌<◌, refl, ap, ◌∙◌, true, false, [], ◌∷◌, ◌++◌, some, ok, All, arith,
}
use be_pawfund.Prelude.Int.{ℤ}
use be_pawfund.Text.{Text, codes, is_space, trim_space, trim_right, text_eq, keep_before}
use be_pawfund.Text.Trim.{trim_space_of_plain, trim_right-append}
use be_pawfund.Domain.{Instant, UserRole}
use be_pawfund.Auth.{TokenPackage, add_duration, generate}
use be_pawfund.Auth.Tokens.{verify_token-generate}
use be_pawfund.Http.Middleware.{fields, open_piece, authenticate}

abbrev pub IsPlain : Text → Type 0
IsPlain s = All (λ c. is_space c ≡ false) s

fields-plain : (c : ℕ) (s : Text) → IsPlain (c ∷ s) → fields (c ∷ s) ≡ (c ∷ s) ∷ []
unfolding fields
fields-plain c [] h = rw (h.0)
fields-plain c (d ∷ s) h =
    let step : fields (c ∷ d ∷ s) ≡ open_piece c true (fields (d ∷ s)) = rw (h.0, h.1.0) in
    step ∙ ap (open_piece c true) (fields-plain d s h.1)

trim_right_of_plain : (s : Text) → IsPlain s → trim_right s ≡ s
unfolding trim_right
trim_right_of_plain [] h = refl
trim_right_of_plain (c ∷ []) h = rw (h.0)
trim_right_of_plain (c ∷ d ∷ s) h = ap (keep_before c) (trim_right_of_plain (d ∷ s) h.1)

abbrev pub bearer : Text → Text
bearer token = codes "Bearer " ++ token

trim_space-bearer :
    (c : ℕ) (token : Text)
    → IsPlain (c ∷ token)
    → trim_space (bearer (c ∷ token)) ≡ bearer (c ∷ token)
unfolding is_space
trim_space-bearer c token h = trim_space_of_plain (bearer (c ∷ token)) refl (
    trim_right-append (codes "Bearer ") (c ∷ token) (λ e. ground arith)
      (trim_right_of_plain (c ∷ token) h))

fields-bearer :
    (c : ℕ) (token : Text)
    → IsPlain (c ∷ token)
    → fields (bearer (c ∷ token)) ≡ codes "Bearer" ∷ (c ∷ token) ∷ []
unfolding fields is_space
fields-bearer c token h = ap (λ x. codes "Bearer" ∷ x) (fields-plain c token h)

module _ (tokens : TokenPackage) where
  -- A generated token, not empty and without a space, in a Bearer header before its expiry: Authenticate
  -- lets the request through, as the trimmed wallet address and the role of the token.
  pub authenticate-generate :
      {A : Type 0} (secret : Text) (now : Instant) (wallet_address : Text) (role : UserRole)
      (ttl : ℤ) (c : ℕ) (token : Text) (later : Instant)
      → generate tokens secret now wallet_address role ttl ≡ some (c ∷ token)
      → IsPlain (c ∷ token)
      → later < tokens.numeric_date (add_duration now ttl)
      → authenticate tokens secret {A = A} later (bearer (c ∷ token))
        ≡ ok (record { wallet_address = trim_space wallet_address; role = role })
  unfolding authenticate text_eq trim_space
  authenticate-generate secret now wallet_address role ttl c token later h plain alive =
      let t = trim_space-bearer c token plain in
      let f = fields-bearer c token plain in
      let v =
        verify_token-generate tokens secret now wallet_address role ttl (c ∷ token) later h alive in
      rw (t, f, v)
