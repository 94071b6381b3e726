-- ===== src/Auth/SignIn.antt =====
-- A sign-in goes through: what CreateMessage made is what Verify accepts.
use be_pawfund.Prelude.{
  ◌≡◌, ◌≢◌, ◌<◌, ◌+◌, inl, inr, refl, sym, ap, ◌∙◌, Bool, true, Option, none, some, Result, ok, err,
  arith, Bool-cases,
}
use be_pawfund.Prelude.Int.{ℤ, pos, int_lt, pos_part, int_eq_iff}
use be_pawfund.Text.{Text, text_eq, trim_space}
use be_pawfund.Text.Laws.{text_eq_refl}
use be_pawfund.Domain.{Instant}
use be_pawfund.Database.{Db}
use be_pawfund.Cache.{set, set_at, get_delete, CacheError, failed}
use be_pawfund.Auth.{generate}
use be_pawfund.Auth.Profiles.{AuthProfile, find_auth_profile}
use be_pawfund.Auth.Messages.{
  AuthEnvironment, verify, verify_parsed, consumed, with_profile, role_of,
  is_valid_ethereum_signature, create_message, store_message, stored_message, message_options,
}
use be_pawfund.Auth.Store.{
  key_of, stored_at, taken_at, create_message-other, verify-left, taken-same, taken-answers,
}

module _ (env : AuthEnvironment) where
  open env.redis use {Store, stored}
  open env.siwe use {Message}

  set-stored_at :
      (now : Instant) (key : Option Text) (v : Text) (ttl : ℤ) (s : Store) (t : Instant)
      → (set_at env.redis now key v ttl s).0 ≡ ok tt
      → t < now + pos_part ttl
      → stored_at env (set_at env.redis now key v ttl s).1 key t ≡ some v
  set-stored_at now none v ttl s t h live = ground arith
  set-stored_at now (some key) v ttl s t h live = elim (Bool-cases (int_lt (pos 0) ttl)) [
    | inl e ↦ rw e (env.redis.set-stored now key v (pos_part ttl) s (ground arith) t live)
    | inr e ↦ ground arith
  ]

  stored_message-ok :
      (text raw : Text) (x : Result CacheError (Unit {0}) × Store)
      → (stored_message env text x).0 ≡ ok raw
      → (x.0 ≡ ok tt) × (text ≡ raw) × ((stored_message env text x).1 ≡ x.1)
  stored_message-ok text raw (ok u, s) h = (refl, ground arith, refl)
  stored_message-ok text raw (err e, s) h = ground arith

  -- What CreateMessage has done when it answers with a text.
  pub record IsMade (now : Instant) (nonce wallet_address raw : Text) (s : Store) : Type 0 where
    pub message : Message
    pub printed : env.siwe.print_message message ≡ raw
    pub made :
        env.siwe.init_message env.config.domain
          (env.siwe.checksum_address (trim_space wallet_address))
          env.config.uri
          nonce
          (message_options env now)
        ≡ some message
    pub kept :
        (t : Instant)
        → t < now + pos_part env.config.message_ttl
        → stored_at env (create_message env now nonce wallet_address s).1 (key_of env nonce) t
          ≡ some raw

  store_message-IsMade :
      (now : Instant) (nonce raw : Text) (o : Option Message) (s : Store)
      → (store_message env now nonce o s).0 ≡ ok raw
      → (m : Message) × (o ≡ some m)
        × (env.siwe.print_message m ≡ raw)
        × ((t : Instant)
            → t < now + pos_part env.config.message_ttl
            → stored_at env (store_message env now nonce o s).1 (key_of env nonce) t ≡ some raw)
  unfolding set
  store_message-IsMade now nonce raw none s h = ground arith
  store_message-IsMade now nonce raw (some m) s h =
      let x =
        set_at env.redis now (key_of env nonce) (env.siwe.print_message m) env.config.message_ttl
          s in
      let (done, same, left) = stored_message-ok (env.siwe.print_message m) raw x h in
      (
        m,
        refl,
        same,
        λ t live.
            ap (λ u. stored_at env u (key_of env nonce) t) left
            ∙ set-stored_at now (key_of env nonce) (env.siwe.print_message m) env.config.message_ttl
                s t done live
            ∙ ap some same,
      )

  pub create_message-IsMade :
      (now : Instant) (nonce wallet_address raw : Text) (s : Store)
      → (create_message env now nonce wallet_address s).0 ≡ ok raw
      → IsMade now nonce wallet_address raw s
  unfolding create_message
  create_message-IsMade now nonce wallet_address raw s h =
      elim (Bool-cases (env.siwe.is_hex_address (trim_space wallet_address))) [
        | inl e ↦
            let o =
              env.siwe.init_message env.config.domain
                (env.siwe.checksum_address (trim_space wallet_address)) env.config.uri nonce
                (message_options env now) in
            let (m, made, printed, kept) = store_message-IsMade now nonce raw o s (rw e at h) in
            record {
              message = m;
              printed = printed;
              made = made;
              kept = λ t live. rw e (kept t live);
            }
        | inr e ↦ absurd (ground arith)
      ]

  -- What other users do between the two steps: messages under other keys are made and verified.
  pub data Others (key : Option Text) : Store → Store → Type 0 where
    now_on : {s : Store} → Others key s s
    created :
        {s t : Store}
        → Others key s t
        → (now : Instant) (nonce wallet_address : Text) → key_of env nonce ≢ key
        → Others key s (create_message env now nonce wallet_address t).1
    verified :
        {s t : Store}
        → Others key s t
        → (now : Instant) (works : Bool) (db : Db) (raw signature : Text)
        → ((m : Message)
            → env.siwe.parse_message raw ≡ some m
            → key_of env (env.siwe.nonce m) ≢ key)
        → Others key s (verify env now works db raw signature t).1

  Others-keep :
      {key : Option Text} {s u : Store}
      → Others key s u
      → (t : Instant) → stored_at env u key t ≡ stored_at env s key t
  Others-keep now_on t = refl
  Others-keep {key = key} (created {t} others now nonce wallet_address other) at =
      create_message-other env now nonce wallet_address t key other at ∙ Others-keep others at
  Others-keep {key = key} (verified {t} others now works db raw signature other) at =
      elim (verify-left env now works db raw signature t) [
        | inl e ↦ ap (λ x. stored_at env x key at) e ∙ Others-keep others at
        | inr (m, read, e) ↦
            ap (λ x. stored_at env x key at) e
            ∙ taken-same env now (key_of env (env.siwe.nonce m)) key t at (other m read)
            ∙ Others-keep others at
      ]

  consumed-taken :
      (now : Instant) (works : Bool) (db : Db) (raw : Text) (m : Message)
      (x : Result CacheError Text × Store)
      → x.0 ≡ ok raw
      → (consumed env now works db raw m x).0
        ≡ with_profile env now
            (env.siwe.address m)
            (find_auth_profile env.sql_lower works (env.siwe.address m) db)
  consumed-taken now works db raw m (ok v, s) h =
      let same : v ≡ raw = ground arith in rw (same, text_eq_refl raw)
  consumed-taken now works db raw m (err e, s) h = ground arith

  parsed-accepts :
      (now : Instant) (works : Bool) (db : Db) (raw signature : Text) (s : Store) (m : Message)
      → env.siwe.uri m ≡ env.config.uri
      → env.siwe.chain_id m ≡ env.config.chain_id
      → env.siwe.verify_message now m signature env.config.domain ≡ true
      → (taken_at env now (key_of env (env.siwe.nonce m)) s).0 ≡ ok raw
      → (verify_parsed env now works db raw signature (some m) s).0
        ≡ with_profile env now
            (env.siwe.address m)
            (find_auth_profile env.sql_lower works (env.siwe.address m) db)
  unfolding get_delete
  parsed-accepts now works db raw signature s m uri chain good taken =
      let same_uri : text_eq (env.siwe.uri m) env.config.uri ≡ true =
        ap (λ u. text_eq u env.config.uri) uri ∙ text_eq_refl env.config.uri in
      let same_chain = (int_eq_iff (env.siwe.chain_id m) env.config.chain_id).1 chain in
      rw (same_uri, same_chain, good)
        (consumed-taken now works db raw m (taken_at env now (key_of env (env.siwe.nonce m)) s)
          taken)

  -- Verify, when all its checks go through.
  verify-accepts :
      (now : Instant) (works : Bool) (db : Db) (signature : Text) (s : Store) (m : Message)
      → is_valid_ethereum_signature (trim_space signature) ≡ true
      → env.siwe.uri m ≡ env.config.uri
      → env.siwe.chain_id m ≡ env.config.chain_id
      → env.siwe.verify_message now m (trim_space signature) env.config.domain ≡ true
      → (taken_at env now (key_of env (env.siwe.nonce m)) s).0 ≡ ok (env.siwe.print_message m)
      → (verify env now works db (env.siwe.print_message m) signature s).0
        ≡ with_profile env now
            (env.siwe.address m)
            (find_auth_profile env.sql_lower works (env.siwe.address m) db)
  unfolding verify
  verify-accepts now works db signature s m sig uri chain good taken =
      rw (env.siwe.print_message-plain m, env.siwe.parse-print m, sig)
        (parsed-accepts now works db (env.siwe.print_message m) (trim_space signature) s m uri chain
          good taken)

  -- Take a text that CreateMessage answered with, at an instant before its lifetime is over, whatever
  -- other users have done meanwhile under other keys. If the URI of the message prints as the
  -- configured one, the signature is well formed and siwe-go accepts it, the store answers, the
  -- profile is looked up and a token is generated, then Verify answers with this token, the
  -- checksummed address that the message was asked for, and the profile.
  pub verify-create_message :
      (now later : Instant) (nonce wallet_address raw signature : Text) (s u : Store) (works : Bool)
      (db : Db) (profile : Option AuthProfile) (token : Text)
      → (create_message env now nonce wallet_address s).0 ≡ ok raw
      → Others (key_of env nonce) (create_message env now nonce wallet_address s).1 u
      → later < now + pos_part env.config.message_ttl
      → ((m : Message)
          → env.siwe.parse_message raw ≡ some m
          → (env.siwe.uri m ≡ env.config.uri)
            × (env.siwe.verify_message later m (trim_space signature) env.config.domain ≡ true))
      → is_valid_ethereum_signature (trim_space signature) ≡ true
      → (taken_at env later (key_of env nonce) u).0 ≢ err failed
      → find_auth_profile env.sql_lower works
          (env.siwe.checksum_address (trim_space wallet_address))
          db
        ≡ ok profile
      → generate env.tokens env.secret later
          (env.siwe.checksum_address (trim_space wallet_address))
          (role_of env profile)
          env.config.access_token_ttl
        ≡ some token
      → (verify env later works db raw signature u).0
        ≡ ok (record {
          access_token = token;
          address = env.siwe.checksum_address (trim_space wallet_address);
          profile = profile;
        })
  verify-create_message now later nonce wallet_address raw signature s u works db profile token h
        others live signed sig answers found generated =
      let made = create_message-IsMade now nonce wallet_address raw s h in
      let m = made.message in
      let wallet = trim_space wallet_address in
      let options = message_options env now in
      let same_nonce : env.siwe.nonce m ≡ nonce =
        env.siwe.nonce-init_message env.config.domain (env.siwe.checksum_address wallet)
          env.config.uri nonce options m made.made in
      let same_address : env.siwe.address m ≡ env.siwe.checksum_address wallet =
        env.siwe.address-init_message env.config.domain wallet env.config.uri nonce options m
          made.made in
      let same_chain : env.siwe.chain_id m ≡ env.config.chain_id =
        env.siwe.chain_id-init_message env.config.domain (env.siwe.checksum_address wallet)
          env.config.uri nonce options m made.made in
      let read : env.siwe.parse_message raw ≡ some m =
        ap env.siwe.parse_message (sym made.printed) ∙ env.siwe.parse-print m in
      let (uri, good) = signed m read in
      let there = Others-keep others later ∙ made.kept later live in
      let taken = taken-answers env later (key_of env nonce) u raw there answers in
      let taken_m : (taken_at env later (key_of env (env.siwe.nonce m)) u).0
          ≡ ok (env.siwe.print_message m) =
        ap (λ n. (taken_at env later (key_of env n) u).0) same_nonce
        ∙ taken
        ∙ ap ok (sym made.printed) in
      let accepted = verify-accepts later works db signature u m sig uri same_chain good taken_m in
      ap (λ t. (verify env later works db t signature u).0) (sym made.printed)
      ∙ accepted
      ∙ ap (λ a. with_profile env later a (find_auth_profile env.sql_lower works a db)) same_address
      ∙ ap (with_profile env later (env.siwe.checksum_address wallet)) found
      ∙ rw generated
