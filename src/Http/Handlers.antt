-- ===== src/Http/Handlers.antt =====
-- internal/http/handler: what the handlers stand on, and what they share: the check of the principal,
-- and the answers for errors of the services.
pub mod Supporters
pub mod Fundraisers
pub mod Campaigns
pub mod Uploads
pub mod Sessions
pub mod Admission
pub mod Lists
pub mod Donations
use be_pawfund.Prelude.{ℕ, Option, none, some, List, [], ◌∷◌, ◌++◌, Result, ok, err, if◌then◌else◌}
use be_pawfund.Text.{Text, codes, is_empty, text_eq, trim_space}
use be_pawfund.Domain.{
  UserRole, ServiceError, email_already_registered, wallet_already_registered, profile_not_found,
  invalid_image_object_key, image_object_not_found,
}
use be_pawfund.ObjectKey.{profile_image_directory}
use be_pawfund.Storage.PublicUrl.{build_public_url}
use be_pawfund.Service.{Environment}
use be_pawfund.Auth.{Principal}
use be_pawfund.Auth.Messages.{AuthEnvironment}
use be_pawfund.Http.Responses.{
  Response, error, validation_error, internal_error, read_error, no_store, challenge, Body,
  read_json, ReadError,
}
use be_pawfund.Http.Options.{FieldErrors, is_empty_errors}
use be_pawfund.Http.Requests.{image_error, staged_image_object_key_message}

-- The services of the process, the base URL and escaping of public URLs, and url.ParseRequestURI.
pub record Site : Type 1 where
  pub environment : Environment
  pub auth : AuthEnvironment
  pub base_url : Text
  pub path_escape : Text → Text
  pub parse_request_uri : Text → Option (Text × Text)

-- PublicURLBuilder.Build of the site
abbrev pub image_url : Site → Option Text → Option Text
image_url site key = build_public_url site.path_escape site.base_url key

-- valueOrEmpty
abbrev pub value_or_empty : Option Text → Text
value_or_empty none = []
value_or_empty (some value) = value

module _ {A : Type 0} where
  -- The answer without a principal; two handlers set no header before it.
  abbrev pub invalid_token : List (Text × Text) → Response A
  invalid_token headers = error 401 (codes "INVALID_ACCESS_TOKEN") [] headers

  abbrev pub profile_missing : List (Text × Text) → Response A
  profile_missing headers = error 404 (codes "PROFILE_NOT_FOUND") [] headers

  abbrev pub campaign_missing : Response A
  campaign_missing = error 404 (codes "CAMPAIGN_NOT_FOUND") [] no_store

  -- handleServiceError, the same for supporters and fundraisers; the headers are those set before.
  unfoldable pub service_error : ServiceError → List (Text × Text) → Response A
  service_error email_already_registered headers =
      error 409 (codes "EMAIL_ALREADY_REGISTERED")
        ((codes "email", codes "email is already registered!") ∷ []) headers
  service_error wallet_already_registered headers =
      error 409 (codes "WALLET_ALREADY_REGISTERED")
        ((codes "walletAddress", codes "wallet address is already registered!") ∷ []) headers
  service_error invalid_image_object_key headers =
      validation_error (image_error (staged_image_object_key_message profile_image_directory))
        headers
  service_error image_object_not_found headers =
      validation_error (image_error (codes "imageObjectKey does not reference an uploaded image!"))
        headers
  service_error _ headers = internal_error headers

  -- The errors of the two ReplaceProfile calls
  abbrev pub replace_failed : ServiceError → Response A
  replace_failed profile_not_found = profile_missing no_store
  replace_failed e = service_error e no_store

  -- The errors of the profile lookups and of the deletion of a supporter
  abbrev pub lookup_failed : ServiceError → List (Text × Text) → Response A
  lookup_failed profile_not_found headers = profile_missing headers
  lookup_failed _ headers = internal_error headers

-- The principal of the context with its trimmed wallet address, if it has one: the guard of the
-- handlers for signed-in users, with the answer where it fails.
unfoldable pub guarded : {B : Type 0} → Option Principal → B → (Text → UserRole → B) → B
guarded none refused next = refused
guarded (some principal) refused next =
    let wallet_address = trim_space principal.wallet_address in
    let passed = next wallet_address principal.role in
    if is_empty wallet_address then refused else passed

-- The same for a role.
abbrev pub require_role : {B : Type 0} → UserRole → UserRole → B → B → B
require_role needed role refused next = if text_eq role needed then next else refused

-- The start of a handler with a body: it is read, normalised and validated; the answers for a refused
-- body leave the state alone.
module _ {B W : Type 0} where
  abbrev pub after_validation :
      FieldErrors → List (Text × Text) → W → Response B × W → Response B × W
  after_validation errors headers world next =
      if is_empty_errors errors then next else (validation_error errors headers, world)

  abbrev pub with_request :
      {A : Type 0}
      → Result ReadError A
      → (A → A)
      → (A → FieldErrors)
      → List (Text × Text)
      → W
      → (A → Response B × W)
      → Response B × W
  with_request (err e) normalize validate headers world next = (read_error e headers, world)
  with_request (ok request) normalize validate headers world next =
      after_validation (validate (normalize request)) headers world (next (normalize request))
