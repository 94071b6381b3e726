-- ===== src/Auth/Messages.antt =====
-- internal/service/auth.go: sign-in with Ethereum. A message is stored when it is made and taken out
-- of the store when its signature is verified. The packages siwe-go and go-ethereum are parameters.
use be_pawfund.Prelude.{
  ℕ, ◌≡◌, ◌+◌, ◌*◌, Bool, true, false, not, ◌&&◌, ◌||◌, Option, none, some, [], ◌∷◌, ◌++◌, Result,
  ok, err, nat_eq, leb, if◌then◌else◌,
}
use be_pawfund.Prelude.Int.{ℤ, int_eq}
use be_pawfund.Text.{Text, codes, is_empty, text_eq, trim_space, byte_length, has_prefix}
use be_pawfund.Domain.{Instant, UserRole, RepositoryError}
use be_pawfund.Database.{Db}
use be_pawfund.Cache.{Redis, CacheError, miss, failed, set, get_delete}
use be_pawfund.Auth.{TokenPackage, generate, add_duration}
use be_pawfund.Auth.Profiles.{AuthProfile, find_auth_profile}

-- The options that CreateMessage gives to siwe.InitMessage besides the statement.
pub record MessageOptions : Type 0 where
  pub statement : Text
  pub chain_id : ℤ
  pub issued_at : Text
  pub expiration_time : Text

-- What the service calls of siwe-go, go-ethereum and net/url.
pub record SiwePackage : Type 1 where
  pub Message : Type 0
  -- time.RFC3339
  pub format_time : Instant → Text
  -- common.IsHexAddress, common.HexToAddress(…).Hex()
  pub is_hex_address : Text → Bool
  pub checksum_address : Text → Text
  -- domain, address, URI, nonce, options
  pub init_message : Text → Text → Text → Text → MessageOptions → Option Message
  pub print_message : Message → Text
  pub parse_message : Text → Option Message
  -- GetURI().String(), GetChainID(), GetNonce(), GetAddress().Hex()
  pub uri : Message → Text
  pub chain_id : Message → ℤ
  pub nonce : Message → Text
  pub address : Message → Text
  -- time, message, signature, domain
  pub verify_message : Instant → Message → Text → Text → Bool
  -- A made message is read back from its text, with its fields.
  pub parse-print : (m : Message) → parse_message (print_message m) ≡ some m
  pub print_message-plain : (m : Message) → is_empty (trim_space (print_message m)) ≡ false
  pub nonce-init_message :
      (d a u n : Text) (o : MessageOptions) (m : Message)
      → init_message d a u n o ≡ some m
      → nonce m ≡ n
  pub address-init_message :
      (d a u n : Text) (o : MessageOptions) (m : Message)
      → init_message d (checksum_address a) u n o ≡ some m
      → address m ≡ checksum_address a
  pub chain_id-init_message :
      (d a u n : Text) (o : MessageOptions) (m : Message)
      → init_message d a u n o ≡ some m
      → chain_id m ≡ o.chain_id

pub record AuthConfig : Type 0 where
  pub domain : Text
  pub uri : Text
  pub chain_id : ℤ
  pub message_ttl : ℤ
  pub access_token_ttl : ℤ

-- ErrInvalidWalletAddress, ErrInvalidMessage, ErrInvalidSignature, ErrSIWEVerification,
-- ErrProfileNotFound, or another error.
pub data AuthError : Type 0 where
  invalid_wallet_address invalid_message invalid_signature siwe_verification profile_not_found
        internal :
      AuthError

pub record VerifyAuthResult : Type 0 where
  pub access_token : Text
  pub address : Text
  pub profile : Option AuthProfile

abbrev pub auth_message_key_prefix : Text
auth_message_key_prefix = codes "siwe:message:"

-- A byte that hex.DecodeString takes
abbrev pub is_hex_digit : ℕ → Bool
is_hex_digit c =
    (leb b'0' c && leb c b'9') || (leb b'a' c && leb c b'f') || (leb b'A' c && leb c b'F')

-- hex.DecodeString of an even number of digits succeeds iff all are hexadecimal.
unfoldable pub is_hex : Text → Bool
is_hex [] = true
is_hex (c ∷ s) = is_hex_digit c && is_hex s

-- isValidEthereumSignature. All texts whose bytes are hexadecimal digits are ASCII, so that 130
-- digits are 130 bytes and decode to 65.
abbrev pub without_0x : Text → Text
without_0x (a ∷ b ∷ digits) = digits
without_0x _ = []

unfoldable pub is_valid_ethereum_signature : Text → Bool
unfolding is_hex
is_valid_ethereum_signature signature =
    nat_eq (byte_length signature) (2 + 65 * 2)
    && has_prefix signature (codes "0x")
    && is_hex (without_0x signature)

-- What the service is built on: the server of the store and the prefix of its keys, the packages, the
-- secret of the token manager, SQL's LOWER, and the configuration.
pub record AuthEnvironment : Type 1 where
  pub redis : Redis
  pub key_prefix : Text
  pub siwe : SiwePackage
  pub tokens : TokenPackage
  pub secret : Text
  pub sql_lower : Text → Text
  pub config : AuthConfig

module _ (env : AuthEnvironment) where
  open env.redis use {Store}
  open env.siwe use {Message}

  abbrev pub message_options : Instant → MessageOptions
  message_options now = record {
    statement = codes "Sign in to Pawfund.";
    chain_id = env.config.chain_id;
    issued_at = env.siwe.format_time now;
    expiration_time = env.siwe.format_time (add_duration now env.config.message_ttl);
  }

  abbrev pub stored_message :
      Text → Result CacheError (Unit {0}) × Store → Result AuthError Text × Store
  stored_message raw (ok u, store) = (ok raw, store)
  stored_message raw (err e, store) = (err internal, store)

  abbrev pub store_message : Instant → Text → Option Message → Store → Result AuthError Text × Store
  store_message now nonce none store = (err internal, store)
  store_message now nonce (some m) store =
      let raw = env.siwe.print_message m in
      stored_message raw (
        set env.redis env.key_prefix now (auth_message_key_prefix ++ nonce) raw
          env.config.message_ttl store)

  -- AuthService.CreateMessage; `nonce` is the answer of rand.Text.
  unfoldable pub create_message : Instant → Text → Text → Store → Result AuthError Text × Store
  create_message now nonce wallet_address store =
      let wallet = trim_space wallet_address in
      if not (env.siwe.is_hex_address wallet)
      then (err invalid_wallet_address, store)
      else store_message now nonce
          (env.siwe.init_message env.config.domain (env.siwe.checksum_address wallet) env.config.uri
            nonce (message_options now))
          store

  abbrev pub role_of : Option AuthProfile → UserRole
  role_of none = []
  role_of (some profile) = profile.role

  abbrev pub with_token :
      Text → Option AuthProfile → Option Text → Result AuthError VerifyAuthResult
  with_token address profile none = err internal
  with_token address profile (some token) =
      ok (record { access_token = token; address = address; profile = profile })

  abbrev pub with_profile :
      Instant
      → Text
      → Result RepositoryError (Option AuthProfile)
      → Result AuthError VerifyAuthResult
  with_profile now address (err e) = err internal
  with_profile now address (ok profile) =
      with_token address profile
        (generate env.tokens env.secret now address (role_of profile) env.config.access_token_ttl)

  abbrev pub consumed :
      Instant
      → Bool
      → Db
      → Text
      → Message
      → Result CacheError Text × Store
      → Result AuthError VerifyAuthResult × Store
  consumed now works db raw m (err miss, store) = (err siwe_verification, store)
  consumed now works db raw m (err failed, store) = (err internal, store)
  consumed now works db raw m (ok kept, store) = (
    if not (text_eq kept raw)
        then err siwe_verification
        else with_profile now (env.siwe.address m)
            (find_auth_profile env.sql_lower works (env.siwe.address m) db),
    store,
  )

  abbrev pub verify_parsed :
      Instant
      → Bool
      → Db
      → Text
      → Text
      → Option Message
      → Store
      → Result AuthError VerifyAuthResult × Store
  verify_parsed now works db raw signature none store = (err invalid_message, store)
  verify_parsed now works db raw signature (some m) store =
      if not (text_eq (env.siwe.uri m) env.config.uri)
        || not (int_eq (env.siwe.chain_id m) env.config.chain_id)
      then (err siwe_verification, store)
      else if not (env.siwe.verify_message now m signature env.config.domain)
      then (err siwe_verification, store)
      else consumed now works db raw m (
          get_delete env.redis env.key_prefix now (auth_message_key_prefix ++ env.siwe.nonce m)
            store)

  -- AuthService.Verify at one instant; `works` is the outcome of the query for the profile.
  unfoldable pub verify :
      Instant → Bool → Db → Text → Text → Store → Result AuthError VerifyAuthResult × Store
  unfolding is_valid_ethereum_signature
  verify now works db raw signature store =
      let trimmed = trim_space signature in
      if is_empty (trim_space raw)
      then (err invalid_message, store)
      else if not (is_valid_ethereum_signature trimmed)
      then (err invalid_signature, store)
      else verify_parsed now works db raw trimmed (env.siwe.parse_message raw) store

  -- AuthService.IssueAccessToken
  abbrev pub issued : Option Text → Result AuthError Text
  issued none = err internal
  issued (some token) = ok token

  unfoldable pub issue_access_token : Instant → Text → UserRole → Result AuthError Text
  issue_access_token now wallet_address role =
      issued (generate env.tokens env.secret now wallet_address role env.config.access_token_ttl)

  abbrev pub found_me : Result RepositoryError (Option AuthProfile) → Result AuthError AuthProfile
  found_me (err e) = err internal
  found_me (ok none) = err profile_not_found
  found_me (ok (some profile)) = ok profile

  -- AuthService.GetMe
  unfoldable pub get_me : Bool → Text → Db → Result AuthError AuthProfile
  get_me works wallet_address db =
      found_me (find_auth_profile env.sql_lower works (trim_space wallet_address) db)
