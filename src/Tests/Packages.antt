-- ===== src/Tests/Packages.antt =====
-- Concrete instances of the packages of the sign-in: a server as a function, messages and tokens of a
-- few characters.
use be_pawfund.Prelude.{
  ℕ, ◌≡◌, ◌≢◌, ◌<◌, ◌+◌, ◌-◌, ◌%◌, ◌*◌, refl, sym, ap, ◌∙◌, true, false, Option, none, some, [],
  ◌∷◌, arith, ltb, lt→ltb, if◌then◌else◌, Bool-cases, inl, inr,
}
use be_pawfund.Prelude.Int.{ℤ, pos, negsuc}
use be_pawfund.Text.{
  Text, codes, text_eq, is_empty, trim_space, trim_left, trim_right, keep_before, is_space,
}
use be_pawfund.Text.Laws.{text_eq_refl, text_eq_sound}
use be_pawfund.Domain.{Instant, UserRole, role_supporter, role_fundraiser, second, minute}
use be_pawfund.Cache.{Redis, Fetched, value, nil}
use be_pawfund.Auth.{Claims, TokenPackage}
use be_pawfund.Auth.Messages.{SiwePackage, AuthEnvironment}

abbrev Values : Type 0
Values = Text → Instant → Option Text

abbrev without : Text → Values → Values
without key s k t = if text_eq k key then none else s k t

abbrev with_value : Instant → Text → Text → Instant → Values → Values
with_value now key v ttl s k t =
    if text_eq k key then (if ltb t (now + ttl) then some v else none) else s k t

abbrev answer : Option Text → Fetched
answer none = nil
answer (some v) = value v

pub other_key : (k key : Text) → k ≢ key → text_eq k key ≡ false
other_key k key ne = elim (Bool-cases (text_eq k key)) [
  | inl e ↦ absurd (ne (text_eq_sound k key e))
  | inr e ↦ e
]

pub with_value-stored :
    (now : Instant) (key v : Text) (ttl : Instant) (s : Values) (t : Instant)
    → t < now + ttl
    → with_value now key v ttl s key t ≡ some v
with_value-stored now key v ttl s t h = rw (text_eq_refl key) (ground arith)

pub with_value-same :
    (now : Instant) (key v : Text) (ttl : Instant) (s : Values) (k : Text) (t : Instant)
    → k ≢ key
    → with_value now key v ttl s k t ≡ s k t
with_value-same now key v ttl s k t ne = rw (other_key k key ne)

pub answer-stored : (o : Option Text) (v : Text) → answer o ≡ value v → o ≡ some v
answer-stored none v h = ground arith
answer-stored (some w) v h = ground arith

pub without-gone : (key : Text) (s : Values) (t : Instant) → without key s key t ≡ none
without-gone key s t = rw (text_eq_refl key)

pub without-same :
    (key : Text) (s : Values) (k : Text) (t : Instant) → k ≢ key → without key s k t ≡ s k t
without-same key s k t ne = rw (other_key k key ne)

pub without-nothing_new :
    (key : Text) (s : Values) (k v : Text) (t : Instant)
    → without key s k t ≡ some v
    → s k t ≡ some v
without-nothing_new key s k v t h = ground arith

abbrev pub listed_redis : Redis
listed_redis = record {
  Store = Values;
  stored = λ s k t. s k t;
  get = λ now k s. answer (s k now);
  set = λ now k v ttl s. (true, with_value now k v ttl s);
  del = λ now k s. (true, without k s);
  get_del = λ now k s. (answer (s k now), without k s);
  set-stored = λ now k v ttl s h t. with_value-stored now k v ttl s t;
  set-same = with_value-same;
  get_del-stored = λ now k v s h. answer-stored (s k now) v h;
  get_del-answers = λ now k v s h works. ap answer h;
  get_del-gone = λ now k v s t h. without-gone k s t;
  get_del-same = λ now k s j t. without-same k s j t;
  get_del-nothing_new = λ now k s j v t. without-nothing_new k s j v t;
}

pub record ShortMessage : Type 0 where
  pub chain : ℕ
  pub nonce : ℕ
  pub address : Text

abbrev print : ShortMessage → Text
print m = b'S' ∷ m.chain ∷ m.nonce ∷ m.address

abbrev read : Text → Option ShortMessage
read (s ∷ chain ∷ nonce ∷ address) =
    some (record { chain = chain; nonce = nonce; address = address })
read _ = none

abbrev make : Text → Text → ℤ → Option ShortMessage
make address (n ∷ []) (pos c) = some (record { chain = c; nonce = n; address = address })
make address nonce chain = none

pub trimmed_after : (s : Text) → is_empty (keep_before b'S' s) ≡ false
unfolding is_space
trimmed_after [] = refl
trimmed_after (c ∷ s) = refl

pub print-plain : (m : ShortMessage) → is_empty (trim_space (print m)) ≡ false
unfolding trim_space trim_left trim_right is_space
print-plain m = trimmed_after (trim_right (m.chain ∷ m.nonce ∷ m.address))

pub make-nonce : (a n : Text) (c : ℤ) (m : ShortMessage) → make a n c ≡ some m → m.nonce ∷ [] ≡ n
make-nonce a [] c m h = ground arith
make-nonce a (n ∷ []) (pos c) m h = ground arith
make-nonce a (n ∷ []) (negsuc c) m h = ground arith
make-nonce a (n ∷ k ∷ s) c m h = ground arith

pub make-address : (a n : Text) (c : ℤ) (m : ShortMessage) → make a n c ≡ some m → m.address ≡ a
make-address a [] c m h = ground arith
make-address a (n ∷ []) (pos c) m h = ground arith
make-address a (n ∷ []) (negsuc c) m h = ground arith
make-address a (n ∷ k ∷ s) c m h = ground arith

pub make-chain : (a n : Text) (c : ℤ) (m : ShortMessage) → make a n c ≡ some m → pos m.chain ≡ c
make-chain a [] c m h = ground arith
make-chain a (n ∷ []) (pos c) m h = ground arith
make-chain a (n ∷ []) (negsuc c) m h = ground arith
make-chain a (n ∷ k ∷ s) c m h = ground arith

abbrev pub short_siwe : SiwePackage
short_siwe = record {
  Message = ShortMessage;
  format_time = λ t. b'T' ∷ t ∷ [];
  is_hex_address = λ a. true;
  checksum_address = λ a. a;
  init_message = λ d a u n o. make a n o.chain_id;
  print_message = print;
  parse_message = read;
  uri = λ m. codes "https://p";
  chain_id = λ m. pos m.chain;
  nonce = λ m. m.nonce ∷ [];
  address = λ m. m.address;
  verify_message = λ now m signature d. text_eq d (codes "p");
  parse-print = λ m. refl;
  print_message-plain = print-plain;
  nonce-init_message = λ d a u n o m h. make-nonce a n o.chain_id m h;
  address-init_message = λ d a u n o m h. make-address a n o.chain_id m h;
  chain_id-init_message = λ d a u n o m h. make-chain a n o.chain_id m h;
}

abbrev role_mark : UserRole → ℕ
role_mark role =
    if text_eq role role_fundraiser
    then b'f'
    else if text_eq role role_supporter
    then b's'
    else b'n'

abbrev role_marked : ℕ → UserRole
role_marked m = if ltb m b'n' then role_fundraiser else if ltb b'n' m then role_supporter else []

-- A token can be signed for the roles that the program knows.
abbrev short_token : Claims → Option Text
short_token c =
    if text_eq (role_marked (role_mark c.role)) c.role
    then some (role_mark c.role ∷ c.expires_at ∷ c.issued_at ∷ c.wallet_address)
    else none

abbrev alive : Instant → Claims → Option Claims
alive now c = if ltb now c.expires_at then some c else none

abbrev parsed : Instant → Text → Option Claims
parsed now (role ∷ e ∷ i ∷ wallet) =
    alive now
      (record { wallet_address = wallet; role = role_marked role; expires_at = e; issued_at = i })
parsed now _ = none

pub parsed-short_token :
    (c : Claims) (token : Text) (now : Instant)
    → short_token c ≡ some token
    → now < c.expires_at
    → parsed now token ≡ some c
parsed-short_token c token now h live =
    elim (Bool-cases (text_eq (role_marked (role_mark c.role)) c.role)) [
      | inl e ↦
          let t : role_mark c.role ∷ c.expires_at ∷ c.issued_at ∷ c.wallet_address ≡ token =
            ground arith in
          let r = text_eq_sound (role_marked (role_mark c.role)) c.role e in
          ap (parsed now) (sym t)
          ∙ ap (λ x. alive now (record c { role = x })) r
          ∙ rw (lt→ltb now c.expires_at live)
      | inr e ↦ absurd (ground arith)
    ]

pub parsed-unexpired :
    (token : Text) (now : Instant) (c : Claims) → parsed now token ≡ some c → now < c.expires_at
parsed-unexpired [] now c h = ground arith
parsed-unexpired (a ∷ []) now c h = ground arith
parsed-unexpired (a ∷ b ∷ []) now c h = ground arith
parsed-unexpired (a ∷ b ∷ d ∷ w) now c h = ground arith

abbrev pub short_tokens : TokenPackage
short_tokens = record {
  numeric_date = λ t. t - t % second;
  sign = λ secret c. short_token c;
  parse = λ secret now token. parsed now token;
  parse-sign = λ secret c token now h live. parsed-short_token c token now h live;
  parse-unexpired = λ secret token now c h. parsed-unexpired token now c h;
}

abbrev pub auth_environment : AuthEnvironment
auth_environment = record {
  redis = listed_redis;
  key_prefix = codes "p";
  siwe = short_siwe;
  tokens = short_tokens;
  secret = codes "s";
  sql_lower = λ s. s;
  config = record {
    domain = codes "p";
    uri = codes "https://p";
    chain_id = pos 84;
    message_ttl = pos (5 * minute);
    access_token_ttl = pos (60 * minute);
  };
}
