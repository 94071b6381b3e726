-- ===== src/Http/Requests/Bounds.antt =====
-- What a validated body has: its texts fit the columns that they are stored in.
use be_pawfund.Prelude.{
  ℕ, Bool, ◌≡◌, ◌≤◌, ◌+◌, refl, true, false, not, ◌&&◌, List, [], ◌∷◌, ◌++◌, arith, Option, leb,
  ltb, if◌then◌else◌,
}
use be_pawfund.Prelude.Int.{pos, int_lt}
use be_pawfund.Text.{Text, codes, trim_space, to_lower, rune_count, byte_length}
use be_pawfund.Text.Lengths.{length-trim_space, length-map, rune_count-byte_length}
use be_pawfund.Http.Handlers.Campaigns.{create_campaign_input, max_idempotency_key_bytes}
use be_pawfund.Domain.{Instant, Uuid, role_fundraiser}
use be_pawfund.Text.Laws.{text_eq_refl}
use be_pawfund.Database.{fits}
use be_pawfund.Database.Campaigns.{is_storable}
use be_pawfund.Database.Fundraisers.{fits_columns}
use be_pawfund.Database.Users.{is_user_role}
use be_pawfund.ObjectKey.{UuidPackage}
use be_pawfund.Deployment.{Rfc3339}
use be_pawfund.Service.{Environment}
use be_pawfund.Service.Fundraisers.{registered}
use be_pawfund.Database.{Driver}
use be_pawfund.Http.Handlers.Fundraisers.{register_fundraiser_input}
use be_pawfund.Service.Campaigns.{requested}
use be_pawfund.Http.Requests.{
  validate_required_length, validate_email, when, max_name_characters, max_country_characters,
  max_zip_code_characters,
}
use be_pawfund.Http.Requests.Profiles.{RegisterFundraiserRequest, validate_register_fundraiser}
use be_pawfund.Http.Requests.Campaigns.{CreateCampaignRequest, validate_create_campaign}

pub append-nil : {A : Type 0} (xs ys : List A) → xs ++ ys ≡ [] → (xs ≡ []) × (ys ≡ [])
append-nil [] ys h = (refl, h)
append-nil (x ∷ xs) ys h = ground arith

when-false : (wrong : Bool) (field message : Text) → when wrong field message ≡ [] → wrong ≡ false
when-false wrong field message h = ground arith

validate_required_length-fits :
    (field value : Text) (n : ℕ) (limit : Text)
    → validate_required_length field value n limit ≡ []
    → fits n value ≡ true
unfolding validate_required_length
validate_required_length-fits field value n limit h = ground arith

-- A field that a validation accepts, trimmed again by the service.
trimmed-fits :
    (field value : Text) (n : ℕ) (limit : Text)
    → validate_required_length field value n limit ≡ []
    → fits n (trim_space value) ≡ true
trimmed-fits field value n limit h =
    let a = validate_required_length-fits field value n limit h in
    let b = length-trim_space value in ground arith

email-fits :
    (unicode_lower : ℕ → ℕ) (email : Text)
    → validate_email email ≡ []
    → fits 255 (to_lower unicode_lower (trim_space email)) ≡ true
unfolding validate_email to_lower
email-fits unicode_lower email h =
    let a : leb (rune_count email) 255 ≡ true = ground arith in
    let b = length-trim_space email in
    let c =
      length-map
        (λ c.
          if ltb c 0x80 then (if leb b'A' c && leb c b'Z' then c + 32 else c) else unicode_lower c)
        (trim_space email) in
    ground arith

module _ (rfc3339 : Rfc3339) (uuid : UuidPackage) where
  -- A validated request for a campaign, with an idempotency key of at most 255 bytes, is within the bounds
  -- of the columns and of the goal when the service asks to store it, whatever its id, its image and
  -- its address.
  pub validate_create_campaign-storable :
      (r : CreateCampaignRequest) (wallet_address key : Text) (end_at : Instant) (id : Uuid)
      (image : Text)
      → (validate_create_campaign rfc3339 uuid r).0 ≡ []
      → byte_length key ≤ max_idempotency_key_bytes
      → is_storable (requested id image (create_campaign_input wallet_address key r end_at)) ≡ true
  unfolding validate_create_campaign
  validate_create_campaign-storable r wallet_address key end_at id image h k =
      let (h1, zip) = append-nil _ _ h in
      let (h2, country) = append-nil _ _ h1 in
      let (h3, img) = append-nil _ _ h2 in
      let (h4, end) = append-nil _ _ h3 in
      let (h5, goal) = append-nil _ _ h4 in
      let (h6, story) = append-nil _ _ h5 in
      let (title, short) = append-nil _ _ h6 in
      let t = trimmed-fits (codes "title") r.title max_name_characters (codes "255") title in
      let s =
        trimmed-fits (codes "shortDescription") r.short_description max_name_characters
          (codes "255") short in
      let c =
        trimmed-fits (codes "country") r.country max_country_characters (codes "255") country in
      let z = trimmed-fits (codes "zipCode") r.zip_code max_zip_code_characters (codes "20") zip in
      let g =
        when-false (not (int_lt (pos 0) r.goal_amount)) (codes "goalAmount")
          (codes "goalAmount must be greater than 0!") goal in
      let key_runes = rune_count-byte_length key in
      let key_trim = length-trim_space key in ground arith

-- A validated registration of a fundraiser by a wallet address of at most 255 characters is within the
-- bounds of the columns of its user and its profile when the service asks to store it, whatever its
-- id and its image.
pub validate_register_fundraiser-fits :
    (env : Environment) (driver : Driver) (parse_request_uri : Text → Option (Text × Text))
    (r : RegisterFundraiserRequest) (wallet_address : Text) (id : Uuid) (image : Option Text)
    → validate_register_fundraiser env.uuid parse_request_uri r ≡ []
    → rune_count wallet_address ≤ 255
    → let f = registered env driver id image (register_fundraiser_input wallet_address r) in
      (fits 255 f.user.email
        && fits 255 f.user.wallet_address
        && is_user_role f.user.role
        && fits_columns f.name f.contact_name f.contact_phone f.country f.zip_code)
      ≡ true
unfolding validate_register_fundraiser
validate_register_fundraiser-fits env driver parse_request_uri r wallet_address id image h w =
    let (h1, img) = append-nil _ _ h in
    let (h2, zip) = append-nil _ _ h1 in
    let (h3, country) = append-nil _ _ h2 in
    let (h4, url) = append-nil _ _ h3 in
    let (h5, phone) = append-nil _ _ h4 in
    let (h6, contact) = append-nil _ _ h5 in
    let (name, email) = append-nil _ _ h6 in
    let e = email-fits env.unicode_lower r.email email in
    let n = trimmed-fits (codes "name") r.name max_name_characters (codes "255") name in
    let c =
      trimmed-fits (codes "contactPerson.name") r.contact_person.name max_name_characters
        (codes "255") contact in
    let p =
      trimmed-fits (codes "contactPerson.phone") r.contact_person.phone max_name_characters
        (codes "255") phone in
    let l = trimmed-fits (codes "country") r.country max_country_characters (codes "255") country in
    let z = trimmed-fits (codes "zipCode") r.zip_code max_zip_code_characters (codes "20") zip in
    let shorter = length-trim_space wallet_address in
    let a : leb (rune_count (trim_space wallet_address)) 255 ≡ true = ground arith in
    rw (e, a, text_eq_refl role_fundraiser, n, c, p, l, z) refl
