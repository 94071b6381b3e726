-- ===== src/Http/Middleware.antt =====
-- internal/http/middleware: authentication of a request by its access token, and cross-origin headers.
use be_pawfund.Prelude.{
  ℕ, Bool, true, false, not, ◌&&◌, ◌+◌, Option, none, some, List, [], ◌∷◌, ◌++◌, map, Result, ok,
  err, leb, any, if◌then◌else◌,
}
use be_pawfund.Text.{Text, codes, is_empty, text_eq, trim_space, is_space}
use be_pawfund.Domain.{Instant}
use be_pawfund.Auth.{Principal, TokenPackage, verify_token}
use be_pawfund.Http.Responses.{Response, error, no_store, challenge}

-- The pieces of a text whose first piece is still open.
abbrev pub open_piece : ℕ → Bool → List Text → List Text
open_piece c false pieces = (c ∷ []) ∷ pieces
open_piece c true [] = (c ∷ []) ∷ []
open_piece c true (p ∷ pieces) = (c ∷ p) ∷ pieces

abbrev pub starts_plain : Text → Bool
starts_plain [] = false
starts_plain (c ∷ s) = not (is_space c)

-- strings.Fields: the longest pieces without a space.
unfoldable pub fields : Text → List Text
fields [] = []
fields (c ∷ s) =
    let rest = fields s in if is_space c then rest else open_piece c (starts_plain s) rest

-- strings.EqualFold(s, "Bearer"). None of its letters folds to a character past ASCII.
abbrev pub lower_ascii : ℕ → ℕ
lower_ascii c = if leb b'A' c && leb c b'Z' then c + 32 else c

abbrev pub is_bearer : Text → Bool
is_bearer s = text_eq (map lower_ascii s) (codes "bearer")

abbrev pub vary_authorization : List (Text × Text)
vary_authorization = (codes "Vary", codes "Authorization") ∷ no_store

-- writeAuthenticationError
abbrev pub refused : {A : Type 0} → Text → Response A
refused code = error 401 code [] (vary_authorization ++ challenge)

module _ (tokens : TokenPackage) (secret : Text) where
  abbrev pub verified : {A : Type 0} → Option Principal → Result (Response A) Principal
  verified none = err (refused (codes "INVALID_ACCESS_TOKEN"))
  verified (some principal) = ok principal

  abbrev pub with_fields : {A : Type 0} → Instant → List Text → Result (Response A) Principal
  with_fields now (scheme ∷ token ∷ []) =
      if is_bearer scheme
      then verified (verify_token tokens secret now token)
      else err (refused (codes "INVALID_ACCESS_TOKEN"))
  with_fields now _ = err (refused (codes "INVALID_ACCESS_TOKEN"))

  -- Authenticate: the answer to the request, or the principal that the next handler finds in the
  -- context; an absent header is empty.
  unfoldable pub authenticate : {A : Type 0} → Instant → Text → Result (Response A) Principal
  unfolding fields
  authenticate now authorization =
      let trimmed = trim_space authorization in
      if is_empty trimmed
      then err (refused (codes "ACCESS_TOKEN_REQUIRED"))
      else with_fields now (fields trimmed)

-- The origins that CORS allows.
unfoldable pub allowed_origins : List Text → List Text
allowed_origins [] = []
allowed_origins (origin ∷ origins) =
    let rest = allowed_origins origins in
    let trimmed = trim_space origin in if is_empty trimmed then rest else trimmed ∷ rest

abbrev pub cors_headers : Text → List (Text × Text)
cors_headers origin =
    (codes "Access-Control-Allow-Origin", origin)
    ∷ (codes "Access-Control-Allow-Methods", codes "GET, POST, PUT, PATCH, DELETE, HEAD, OPTIONS")
    ∷ (
      codes "Access-Control-Allow-Headers",
      codes "Accept, Authorization, Content-Type, Idempotency-Key, X-Request-Id",
    )
    ∷ (codes "Access-Control-Allow-Credentials", codes "true")
    ∷ (codes "Access-Control-Max-Age", codes "300")
    ∷ []

-- CORS: the headers that it sets, and whether the next handler is called; if not, the answer is 204.
unfoldable pub cors : List Text → Text → Text → List (Text × Text) × Bool
unfolding allowed_origins
cors origins method origin_header =
    let origin = trim_space origin_header in
    (
      (codes "Vary", codes "Origin")
          ∷ (if any (text_eq origin) (allowed_origins origins) then cors_headers origin else []),
      not (text_eq method (codes "OPTIONS")),
    )
