-- ===== src/Http/Responses.antt =====
-- internal/http/httpx: the answers of the handlers, and the reading of a JSON body. The texts written
-- for people are left out of an answer; encoding/json and mime are behind what they answer.
use be_pawfund.Prelude.{
  ℕ, Bool, false, Option, none, some, List, [], ◌∷◌, Result, ok, err, if◌then◌else◌,
}
use be_pawfund.Text.{Text, codes, text_eq}
use be_pawfund.Http.Options.{FieldErrors}
use be_pawfund.Http.Pagination.{Pagination}

-- Response, with its status and the headers that are set besides the content type.
pub record Response (A : Type 0) : Type 0 where
  pub status : ℕ
  pub code : Text
  pub content : Option A
  pub errors : FieldErrors
  pub pagination : Option Pagination
  pub headers : List (Text × Text)

abbrev pub no_store : List (Text × Text)
no_store = (codes "Cache-Control", codes "no-store") ∷ []

abbrev pub challenge : List (Text × Text)
challenge = (codes "WWW-Authenticate", codes "Bearer") ∷ []

-- What ReadJSON refuses: ErrUnsupportedMediaType, ErrBodyTooLarge, ErrInvalidJSON.
pub data ReadError : Type 0 where
  unsupported_media_type body_too_large invalid_json : ReadError

-- The decoding of one value, and of what follows it.
pub data Decoded (A : Type 0) : Type 0 where
  decoded : A → Decoded A
  too_large malformed : Decoded A

pub data Rest : Type 0 where
  end_of_body another rest_too_large rest_malformed : Rest

-- A request body: the media type of its header, if it has one, and what the decoder makes of it.
pub record Body (A : Type 0) : Type 0 where
  pub media_type : Option Text
  pub first : Decoded A
  pub rest : Rest

abbrev pub is_json : Option Text → Bool
is_json none = false
is_json (some media_type) = text_eq media_type (codes "application/json")

module _ {A : Type 0} where
  -- Responder.Success
  abbrev pub success : ℕ → Text → A → List (Text × Text) → Response A
  success status code content headers = record {
    status = status;
    code = code;
    content = some content;
    errors = [];
    pagination = none;
    headers = headers;
  }

  -- Responder.SuccessWithPagination
  abbrev pub success_with_pagination : ℕ → Text → A → Pagination → List (Text × Text) → Response A
  success_with_pagination status code content pagination headers = record {
    status = status;
    code = code;
    content = some content;
    errors = [];
    pagination = some pagination;
    headers = headers;
  }

  -- Responder.Error
  abbrev pub error : ℕ → Text → FieldErrors → List (Text × Text) → Response A
  error status code errors headers = record {
    status = status;
    code = code;
    content = none;
    errors = errors;
    pagination = none;
    headers = headers;
  }

  -- Responder.ValidationError
  abbrev pub validation_error : FieldErrors → List (Text × Text) → Response A
  validation_error errors headers = error 422 (codes "VALIDATION_ERROR") errors headers

  -- Responder.InternalError
  abbrev pub internal_error : List (Text × Text) → Response A
  internal_error headers = error 500 (codes "INTERNAL_SERVER_ERROR") [] headers

  -- w.WriteHeader(http.StatusNoContent)
  abbrev pub no_content : List (Text × Text) → Response A
  no_content headers = record {
    status = 204;
    code = [];
    content = none;
    errors = [];
    pagination = none;
    headers = headers;
  }

  -- Responder.ReadError
  abbrev pub read_error : ReadError → List (Text × Text) → Response A
  read_error unsupported_media_type headers = error 415 (codes "UNSUPPORTED_MEDIA_TYPE") [] headers
  read_error body_too_large headers = error 413 (codes "REQUEST_TOO_LARGE") [] headers
  read_error invalid_json headers = error 400 (codes "INVALID_REQUEST") [] headers

  abbrev pub read_rest : A → Rest → Result ReadError A
  read_rest request end_of_body = ok request
  read_rest request rest_too_large = err body_too_large
  read_rest request another = err invalid_json
  read_rest request rest_malformed = err invalid_json

  abbrev pub read_first : Decoded A → Rest → Result ReadError A
  read_first (decoded request) rest = read_rest request rest
  read_first too_large rest = err body_too_large
  read_first malformed rest = err invalid_json

  -- ReadJSON
  unfoldable pub read_json : Body A → Result ReadError A
  read_json body =
      if is_json body.media_type
      then read_first body.first body.rest
      else err unsupported_media_type
