-- ===== src/Tests/Sessions.antt =====
-- Runs of the sign-in, and of the requests that follow it.
use be_pawfund.Prelude.{◌≡◌, ◌≢◌, refl, ◌+◌, ◌*◌, true, Option, none, some, [], ◌∷◌, ok, err, arith}
use be_pawfund.Prelude.Int.{pos}
use be_pawfund.Text.{
  Text, codes, text_eq, trim_space, trim_left, trim_right, is_space, byte_length, has_prefix,
}
use be_pawfund.Domain.{Instant, role_fundraiser, second}
use be_pawfund.Database.{Db, fundraiser_of}
use be_pawfund.Cache.{build_key, set, failed}
use be_pawfund.Auth.{generate, is_supported_role, verify_token}
use be_pawfund.Auth.Profiles.{AuthProfile, find_auth_profile}
use be_pawfund.Auth.Messages.{
  create_message, verify, VerifyAuthResult, is_hex, is_valid_ethereum_signature,
}
use be_pawfund.Auth.Tokens.{verify_token-generate}
use be_pawfund.Auth.Store.{key_of, taken_at}
use be_pawfund.Auth.Once.{Later, verify-once}
use be_pawfund.Auth.SignIn.{Others, verify-create_message}
use be_pawfund.Http.Middleware.{authenticate}
use be_pawfund.Http.Sessions.{IsPlain, bearer, authenticate-generate}
use be_pawfund.Tests.Data.{wallet, noon, db_of}
use be_pawfund.Tests.Packages.{short_tokens, auth_environment}

abbrev nonce : Text
nonce = codes "n"

abbrev raw : Text
raw = b'S' ∷ 84 ∷ b'n' ∷ wallet

abbrev signature : Text
signature =
    codes
      " 0x0000000000000000000000000000000000000000000000000000000000000000000000000000000000000000000000000000000000000000000000000000000000"

abbrev db : Db
db = db_of []

abbrev later : Instant
later = noon + second

abbrev nothing_stored : Text → Instant → Option Text
nothing_stored k t = none

abbrev profile : Option AuthProfile
profile = some (record { name = codes "F"; role = role_fundraiser; image_object_key = none })

abbrev expiry : Instant
expiry = later + 60 * 60 * second

abbrev token : Text
token = b'f' ∷ expiry ∷ later ∷ wallet

made : (create_message auth_environment noon nonce wallet nothing_stored).0 ≡ ok raw
unfolding create_message set build_key trim_space trim_left trim_right is_space
made = refl

well_formed : is_valid_ethereum_signature (trim_space signature) ≡ true
unfolding is_valid_ethereum_signature is_hex trim_space trim_left trim_right is_space byte_length
    has_prefix
well_formed = refl

generated :
    generate short_tokens (codes "s") later wallet role_fundraiser (pos (60 * 60 * second))
    ≡ some token
unfolding generate is_supported_role trim_space trim_left trim_right is_space text_eq
generated = refl

found : find_auth_profile (λ s. s) true wallet db ≡ ok profile
unfolding find_auth_profile fundraiser_of trim_space trim_left trim_right is_space text_eq
found = refl

abbrev result : VerifyAuthResult
result = record { access_token = token; address = wallet; profile = profile }

abbrev message : auth_environment.siwe.Message
message = record { chain = 84; nonce = b'n'; address = wallet }

-- The store after the message was made.
abbrev started : Text → Instant → Option Text
started = (create_message auth_environment noon nonce wallet nothing_stored).1

signed :
    (m : auth_environment.siwe.Message)
    → auth_environment.siwe.parse_message raw ≡ some m
    → (auth_environment.siwe.uri m ≡ auth_environment.config.uri)
      × (auth_environment.siwe.verify_message later m
            (trim_space signature)
            auth_environment.config.domain
          ≡ true)
unfolding text_eq
signed m h = (refl, refl)

answers : (taken_at auth_environment later (key_of auth_environment nonce) started).0 ≢ err failed
unfolding build_key create_message set trim_space trim_left trim_right is_space text_eq
answers h = ground arith

verify-create_message_example :
    (verify auth_environment later true db raw signature started).0 ≡ ok result
unfolding trim_space trim_left trim_right is_space
verify-create_message_example =
    verify-create_message auth_environment noon later nonce wallet raw signature nothing_stored
      started true db profile token made Others.now_on (omega arith) signed well_formed answers
      found generated

accepted : (verify auth_environment later true db raw signature started).0 ≡ ok result
unfolding trim_space trim_left trim_right is_space
accepted =
    verify-create_message auth_environment noon later nonce wallet raw signature nothing_stored
      started true db profile token made Others.now_on (omega arith) signed well_formed answers
      found generated

verify-once_example :
    (verify auth_environment
      (later + second)
      true
      db
      raw
      signature
      (verify auth_environment later true db raw signature started).1).0
    ≢ ok result
verify-once_example =
    verify-once auth_environment later true db raw signature started result message
      (verify auth_environment later true db raw signature started).1 (later + second) true db
      signature result accepted refl Later.now_on

verify_token-generate_example :
    verify_token short_tokens (codes "s") (later + second) token
    ≡ some (record { wallet_address = trim_space wallet; role = role_fundraiser })
verify_token-generate_example =
    verify_token-generate short_tokens (codes "s") later wallet role_fundraiser
      (pos (60 * 60 * second)) token (later + second) generated (omega arith)

plain : IsPlain token
unfolding is_space
plain = (refl, (refl, (refl, (refl, (refl, (refl, tt))))))

authenticate-generate_example :
    authenticate short_tokens (codes "s") {A = Text} (later + second) (bearer token)
    ≡ ok (record { wallet_address = trim_space wallet; role = role_fundraiser })
authenticate-generate_example =
    authenticate-generate short_tokens {A = Text} (codes "s") later wallet role_fundraiser
      (pos (60 * 60 * second)) b'f' (expiry ∷ later ∷ wallet) (later + second) generated plain
      (omega arith)
