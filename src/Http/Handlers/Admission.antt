-- ===== src/Http/Handlers/Admission.antt =====
-- Which requests for a new campaign reach the service, and what becomes of the others.
use be_pawfund.Prelude.{
  ◌≡◌, ◌≢◌, ap, ◌≤◌, ◌<◌, ◌⊎◌, inl, inr, refl, true, false, Option, none, some, [], ◌∷◌, Result, ok,
  err, ltb, arith, Bool-cases,
}
use be_pawfund.Text.{Text, is_empty, text_eq, byte_length, trim_space}
use be_pawfund.Text.Laws.{text_eq_sound, text_eq_refl}
use be_pawfund.Domain.{role_fundraiser}
use be_pawfund.Service.{World}
use be_pawfund.Service.Campaigns.{Surroundings, create}
use be_pawfund.Auth.{Principal}
use be_pawfund.Http.Options.{FieldErrors, is_empty_errors}
use be_pawfund.Http.Responses.{
  Response, Body, ReadError, unsupported_media_type, body_too_large, invalid_json, read_json,
}
use be_pawfund.Http.Requests.Campaigns.{
  CreateCampaignRequest, normalize_create_campaign, validate_create_campaign,
}
use be_pawfund.Http.Handlers.{Site, guarded}
use be_pawfund.Http.Handlers.Campaigns.{
  CreateCampaignResponse, max_idempotency_key_bytes, create_campaign_input, created_response,
  create_read, create_with_key, handle_create_campaign,
}

module _ (site : Site) (around : Surroundings) (world : World site.environment) where
  abbrev pub Answer : Type 0
  Answer = Response CreateCampaignResponse × World site.environment

  -- Why a fundraiser's request is refused: the key, a body that is not read, or a request that is not
  -- valid when its texts are trimmed.
  pub data IsUnfit (key : Text) (body : Body CreateCampaignRequest) : Type 0 where
    no_key : is_empty key ≡ true → IsUnfit key body
    long_key : max_idempotency_key_bytes < byte_length key → IsUnfit key body
    unread : (e : ReadError) → read_json body ≡ err e → IsUnfit key body
    not_valid :
        (given : CreateCampaignRequest)
        → read_json body ≡ ok given
        → (validate_create_campaign site.environment.rfc3339 site.environment.uuid
            (normalize_create_campaign given)).0
          ≢ []
        → IsUnfit key body

  -- Why a request is refused.
  pub data IsUnwelcome (given : Option Principal) (header : Text)
      (body : Body CreateCampaignRequest) : Type 0 where
    anonymous : given ≡ none → IsUnwelcome given header body
    no_wallet :
        (principal : Principal)
        → given ≡ some principal
        → is_empty (trim_space principal.wallet_address) ≡ true
        → IsUnwelcome given header body
    other_role :
        (principal : Principal)
        → given ≡ some principal
        → principal.role ≢ role_fundraiser
        → IsUnwelcome given header body
    unfit : IsUnfit (trim_space header) body → IsUnwelcome given header body

  -- A client error that changes nothing, for a reason.
  pub record IsRefused (Reason : Type 0) (answer : Answer) : Type 0 where
    pub reason : Reason
    pub unchanged : answer.1 ≡ world
    pub low : 400 ≤ answer.0.status
    pub high : answer.0.status < 500

  -- The body holds a request, which is valid when its texts are trimmed; the service is called for the
  -- trimmed request, and its outcome is answered.
  pub record IsCreated (wallet_address key : Text) (body : Body CreateCampaignRequest)
      (answer : Answer) : Type 0 where
    pub given : CreateCampaignRequest
    pub decodes : read_json body ≡ ok given
    pub request : CreateCampaignRequest
    pub trimmed : request ≡ record {
      title = trim_space given.title;
      short_description = trim_space given.short_description;
      story = trim_space given.story;
      goal_amount = given.goal_amount;
      end_at = trim_space given.end_at;
      image_object_key = trim_space given.image_object_key;
      country = trim_space given.country;
      zip_code = trim_space given.zip_code;
    }
    pub validated :
        (validate_create_campaign site.environment.rfc3339 site.environment.uuid request).0 ≡ []
    pub key_given : is_empty key ≡ false
    pub key_bounded : byte_length key ≤ max_idempotency_key_bytes
    pub answered :
        answer
        ≡ created_response site (
            create site.environment around
              (create_campaign_input wallet_address key request
                (validate_create_campaign site.environment.rfc3339 site.environment.uuid request).1)
              world)

  -- It is so for a fundraiser's principal.
  pub record IsAdmitted (given : Option Principal) (header : Text)
      (body : Body CreateCampaignRequest) (answer : Answer) : Type 0 where
    pub principal : Principal
    pub same : given ≡ some principal
    pub wallet_given : is_empty (trim_space principal.wallet_address) ≡ false
    pub fundraiser : principal.role ≡ role_fundraiser
    pub created : IsCreated (trim_space principal.wallet_address) (trim_space header) body answer

  read-IsRefused :
      {Reason : Type 0} (wallet_address key : Text) (e : ReadError)
      → Reason
      → IsRefused Reason (create_read site around wallet_address key (err e) world)
  read-IsRefused wallet_address key unsupported_media_type r = record {
    reason = r;
    unchanged = refl;
    low = omega arith;
    high = omega arith;
  }
  read-IsRefused wallet_address key body_too_large r = record {
    reason = r;
    unchanged = refl;
    low = omega arith;
    high = omega arith;
  }
  read-IsRefused wallet_address key invalid_json r = record {
    reason = r;
    unchanged = refl;
    low = omega arith;
    high = omega arith;
  }

  empty_errors : (errors : FieldErrors) → is_empty_errors errors ≡ true → errors ≡ []
  empty_errors [] h = refl
  empty_errors (e ∷ errors) h = ground arith

  read-outcome :
      (wallet_address key : Text) (body : Body CreateCampaignRequest)
      (read : Result ReadError CreateCampaignRequest)
      → read_json body ≡ read
      → is_empty key ≡ false
      → byte_length key ≤ max_idempotency_key_bytes
      → IsRefused (IsUnfit key body) (create_read site around wallet_address key read world)
        ⊎ IsCreated wallet_address key body (create_read site around wallet_address key read world)
  unfolding normalize_create_campaign
  read-outcome wallet_address key body (err e) decodes given bounded =
      inl (read-IsRefused wallet_address key e (IsUnfit.unread e decodes))
  read-outcome wallet_address key body (ok request) decodes given bounded =
      let r = normalize_create_campaign request in
      let checked = validate_create_campaign site.environment.rfc3339 site.environment.uuid r in
      elim (Bool-cases (is_empty_errors checked.0)) [
        | inl e ↦ inr (record {
          given = request;
          decodes = decodes;
          request = r;
          trimmed = refl;
          validated = empty_errors checked.0 e;
          key_given = given;
          key_bounded = bounded;
          answered = rw e;
        })
        | inr e ↦ inl (record {
          reason = IsUnfit.not_valid request decodes (λ h. ground (arith, e, ap is_empty_errors h));
          unchanged = rw e;
          low = rw e (omega arith);
          high = rw e (omega arith);
        })
      ]

  key-outcome :
      (wallet_address key : Text) (body : Body CreateCampaignRequest)
      → IsRefused (IsUnfit key body) (create_with_key site around wallet_address key body world)
        ⊎ IsCreated wallet_address key body
            (create_with_key site around wallet_address key body world)
  key-outcome wallet_address key body = elim (Bool-cases (is_empty key)) [
    | inl e ↦ inl (record {
      reason = IsUnfit.no_key e;
      unchanged = rw e;
      low = rw e (omega arith);
      high = rw e (omega arith);
    })
    | inr e ↦ elim (Bool-cases (ltb max_idempotency_key_bytes (byte_length key))) [
      | inl l ↦ inl (record {
        reason = IsUnfit.long_key (ground arith);
        unchanged = rw (e, l);
        low = rw (e, l) (omega arith);
        high = rw (e, l) (omega arith);
      })
      | inr l ↦
          rw (e, l) (read-outcome wallet_address key body (read_json body) refl e (ground arith))
    ]
  ]

  role-outcome :
      (principal : Principal) (header : Text) (body : Body CreateCampaignRequest)
      → let answer = handle_create_campaign site around (some principal) header body world in
        IsRefused (IsUnwelcome (some principal) header body) answer
        ⊎ IsAdmitted (some principal) header body answer
  unfolding handle_create_campaign guarded
  role-outcome principal header body =
      elim (Bool-cases (is_empty (trim_space principal.wallet_address))) [
        | inl e ↦ inl (record {
          reason = IsUnwelcome.no_wallet principal refl e;
          unchanged = rw e;
          low = rw e (omega arith);
          high = rw e (omega arith);
        })
        | inr e ↦ elim (Bool-cases (text_eq principal.role role_fundraiser)) [
          | inr f ↦ inl (record {
            reason = IsUnwelcome.other_role principal refl (λ h.
                let t = text_eq_refl role_fundraiser in
                let u = ap (λ role. text_eq role role_fundraiser) h in ground (arith, f, t, u));
            unchanged = rw (e, f);
            low = rw (e, f) (omega arith);
            high = rw (e, f) (omega arith);
          })
          | inl f ↦
              rw (e, f)
                (elim (key-outcome (trim_space principal.wallet_address) (trim_space header) body) [
                  | inl r ↦ inl (record {
                    reason = IsUnwelcome.unfit r.reason;
                    unchanged = r.unchanged;
                    low = r.low;
                    high = r.high;
                  })
                  | inr c ↦ inr (record {
                    principal = principal;
                    same = refl;
                    wallet_given = e;
                    fundraiser = text_eq_sound principal.role role_fundraiser f;
                    created = c;
                  })
                ])
        ]
      ]

  -- HandleCreateCampaign answers with a client error and changes nothing, and then there is no
  -- fundraiser's principal with an address, or the idempotency key is empty or longer than 255 bytes,
  -- or the body is not read, or its request is not valid when its texts are trimmed; or else none of
  -- this is so, and the answer and the state are those of the service for the trimmed request.
  pub handle_create_campaign-outcome :
      (principal : Option Principal) (header : Text) (body : Body CreateCampaignRequest)
      → let answer = handle_create_campaign site around principal header body world in
        IsRefused (IsUnwelcome principal header body) answer
        ⊎ IsAdmitted principal header body answer
  unfolding handle_create_campaign guarded
  handle_create_campaign-outcome none header body = inl (record {
    reason = IsUnwelcome.anonymous refl;
    unchanged = refl;
    low = omega arith;
    high = omega arith;
  })
  handle_create_campaign-outcome (some principal) header body = role-outcome principal header body
