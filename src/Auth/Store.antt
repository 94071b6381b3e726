-- ===== src/Auth/Store.antt =====
-- What the two steps of a sign-in read and leave in the store of messages.
use be_pawfund.Prelude.{
  ◌≡◌, ◌≢◌, refl, sym, ap, ◌∙◌, Bool, true, not, ◌||◌, Option, none, some, ◌++◌, Result, ok, err,
  arith, Bool-cases, Option-cases, inl, inr, ◌⊎◌,
}
use be_pawfund.Prelude.Int.{ℤ, pos_part, int_eq}
use be_pawfund.Text.{Text, text_eq, trim_space}
use be_pawfund.Text.Laws.{text_eq_sound}
use be_pawfund.Domain.{Instant}
use be_pawfund.Database.{Db}
use be_pawfund.Cache.{
  build_key, set, set_at, get_delete, get_delete_at, fetched, CacheError, miss, failed,
}
use be_pawfund.Auth.Profiles.{find_auth_profile}
use be_pawfund.Auth.Messages.{
  AuthEnvironment, VerifyAuthResult, AuthError, auth_message_key_prefix, verify, verify_parsed,
  consumed, with_profile, create_message, store_message, stored_message, message_options,
}

module _ (env : AuthEnvironment) where
  open env.redis use {Store, stored}
  open env.siwe use {Message}

  -- The key under which a message with the nonce is kept.
  abbrev pub key_of : Text → Option Text
  key_of nonce = build_key env.key_prefix (auth_message_key_prefix ++ nonce)

  -- A value under a key that Redis may not know at all.
  abbrev pub stored_at : Store → Option Text → Instant → Option Text
  stored_at s none t = none
  stored_at s (some key) t = stored s key t

  abbrev pub taken_at : Instant → Option Text → Store → Result CacheError Text × Store
  taken_at now key s = get_delete_at env.redis now key s

  pub get_delete-key :
      (now : Instant) (nonce : Text) (s : Store)
      → get_delete env.redis env.key_prefix now (auth_message_key_prefix ++ nonce) s
        ≡ taken_at now (key_of nonce) s
  unfolding get_delete
  get_delete-key now nonce s = refl

  -- What GetDelete answers was there, and is gone.
  pub taken-stored :
      (now : Instant) (key : Option Text) (s : Store) (v : Text)
      → (taken_at now key s).0 ≡ ok v
      → stored_at s key now ≡ some v
  taken-stored now none s v h = ground arith
  taken-stored now (some key) s v h = env.redis.get_del-stored now key v s (ground arith)

  pub taken-gone :
      (now : Instant) (key : Option Text) (s : Store) (v : Text) (t : Instant)
      → (taken_at now key s).0 ≡ ok v
      → stored_at (taken_at now key s).1 key t ≡ none
  taken-gone now none s v t h = refl
  taken-gone now (some key) s v t h = env.redis.get_del-gone now key v s t (ground arith)

  pub taken-same :
      (now : Instant) (key k : Option Text) (s : Store) (t : Instant)
      → key ≢ k
      → stored_at (taken_at now key s).1 k t ≡ stored_at s k t
  taken-same now key none s t other = refl
  taken-same now none (some k) s t other = refl
  taken-same now (some key) (some k) s t other =
      env.redis.get_del-same now key s k t (λ e. other (ap some (sym e)))

  -- What is there is taken, if the server answers.
  pub taken-answers :
      (now : Instant) (key : Option Text) (s : Store) (v : Text)
      → stored_at s key now ≡ some v
      → (taken_at now key s).0 ≢ err failed
      → (taken_at now key s).0 ≡ ok v
  taken-answers now none s v h works = ground arith
  taken-answers now (some key) s v h works =
      let answer =
        env.redis.get_del-answers now key v s h (λ e. works (ap (fetched env.redis) e)) in
      ap (fetched env.redis) answer

  pub taken-stays_gone :
      (now : Instant) (key k : Option Text) (s : Store) (t : Instant)
      → stored_at s k t ≡ none
      → stored_at (taken_at now key s).1 k t ≡ none
  taken-stays_gone now key none s t h = refl
  taken-stays_gone now none (some k) s t h = h
  taken-stays_gone now (some key) (some k) s t h =
      elim (Option-cases (stored (env.redis.get_del now key s).1 k t)) [
        | inl e ↦ e
        | inr (v, e) ↦ ground (arith, env.redis.get_del-nothing_new now key s k v t e)
      ]

  -- What Verify checks before it takes the message out of the store, and what it answers then.
  pub record IsAccepted (now : Instant) (works : Bool) (db : Db) (raw signature : Text) (s : Store)
      (r : VerifyAuthResult) (m : Message) : Type 0 where
    pub parsed : env.siwe.parse_message raw ≡ some m
    pub verified : env.siwe.verify_message now m (trim_space signature) env.config.domain ≡ true
    pub taken : (taken_at now (key_of (env.siwe.nonce m)) s).0 ≡ ok raw
    pub answered :
        with_profile env now
          (env.siwe.address m)
          (find_auth_profile env.sql_lower works (env.siwe.address m) db)
        ≡ ok r
    pub left :
        (verify env now works db raw signature s).1 ≡ (taken_at now (key_of (env.siwe.nonce m)) s).1

  consumed-store :
      (now : Instant) (works : Bool) (db : Db) (raw : Text) (m : Message)
      (x : Result CacheError Text × Store)
      → (consumed env now works db raw m x).1 ≡ x.1
  consumed-store now works db raw m (ok v, s) = refl
  consumed-store now works db raw m (err miss, s) = refl
  consumed-store now works db raw m (err failed, s) = refl

  consumed-ok :
      (now : Instant) (works : Bool) (db : Db) (raw : Text) (m : Message)
      (x : Result CacheError Text × Store) (r : VerifyAuthResult)
      → (consumed env now works db raw m x).0 ≡ ok r
      → (x.0 ≡ ok raw)
        × (with_profile env now
              (env.siwe.address m)
              (find_auth_profile env.sql_lower works (env.siwe.address m) db)
            ≡ ok r)
  consumed-ok now works db raw m (ok v, s) r h = elim (Bool-cases (text_eq v raw)) [
    | inl e ↦ (ap ok (text_eq_sound v raw e), rw e at h)
    | inr e ↦ ground arith
  ]
  consumed-ok now works db raw m (err miss, s) r h = ground arith
  consumed-ok now works db raw m (err failed, s) r h = ground arith

  module _ (now : Instant) (works : Bool) (db : Db) (raw signature : Text) (s : Store) where
    abbrev on_message : Message → Result AuthError VerifyAuthResult × Store
    on_message m = consumed env now works db raw m (taken_at now (key_of (env.siwe.nonce m)) s)

    parsed-left :
        (o : Option Message)
        → ((verify_parsed env now works db raw (trim_space signature) o s).1 ≡ s)
          ⊎ ((m : Message) × (o ≡ some m)
              × ((verify_parsed env now works db raw (trim_space signature) o s).1
                  ≡ (taken_at now (key_of (env.siwe.nonce m)) s).1))
    unfolding get_delete
    parsed-left none = inl refl
    parsed-left (some m) =
        let kept = consumed-store now works db raw m (taken_at now (key_of (env.siwe.nonce m)) s) in
        elim (Bool-cases (
          not (text_eq (env.siwe.uri m) env.config.uri)
          || not (int_eq (env.siwe.chain_id m) env.config.chain_id))) [
            | inl e ↦ inl (rw e)
            | inr e ↦
                elim (Bool-cases
                  (env.siwe.verify_message now m (trim_space signature) env.config.domain)) [
                    | inl v ↦ inr (m, refl, rw (e, v) kept)
                    | inr v ↦ inl (rw (e, v))
                  ]
          ]

    -- Verify leaves the store alone, or takes the key of its message out of it.
    pub verify-left :
        ((verify env now works db raw signature s).1 ≡ s)
        ⊎ ((m : Message) × (env.siwe.parse_message raw ≡ some m)
            × ((verify env now works db raw signature s).1
                ≡ (taken_at now (key_of (env.siwe.nonce m)) s).1))
    unfolding verify
    verify-left = ground (arith, parsed-left (env.siwe.parse_message raw))

    parsed-some :
        (o : Option Message) (r : VerifyAuthResult)
        → (verify_parsed env now works db raw (trim_space signature) o s).0 ≡ ok r
        → (m : Message) × (o ≡ some m)
    parsed-some none r h = ground arith
    parsed-some (some m) r h = (m, refl)

    parsed-reaches :
        (m : Message) (r : VerifyAuthResult)
        → (verify_parsed env now works db raw (trim_space signature) (some m) s).0 ≡ ok r
        → (env.siwe.verify_message now m (trim_space signature) env.config.domain ≡ true)
          × (verify_parsed env now works db raw (trim_space signature) (some m) s ≡ on_message m)
    unfolding get_delete
    parsed-reaches m r h =
        elim (Bool-cases (
          not (text_eq (env.siwe.uri m) env.config.uri)
          || not (int_eq (env.siwe.chain_id m) env.config.chain_id))) [
            | inl e ↦ ground arith
            | inr e ↦
                elim (Bool-cases
                  (env.siwe.verify_message now m (trim_space signature) env.config.domain)) [
                    | inl v ↦ (v, rw (e, v))
                    | inr v ↦ ground arith
                  ]
          ]

    verify-parsed :
        (r : VerifyAuthResult)
        → (verify env now works db raw signature s).0 ≡ ok r
        → verify env now works db raw signature s
          ≡ verify_parsed env now works db raw (trim_space signature) (env.siwe.parse_message raw) s
    unfolding verify
    verify-parsed r h = ground arith

    verify-IsAccepted :
        (r : VerifyAuthResult)
        → (verify env now works db raw signature s).0 ≡ ok r
        → (m : Message) × IsAccepted now works db raw signature s r m
    verify-IsAccepted r h =
        let whole = verify-parsed r h in
        let h2 = rw whole at h in
        let (m, p) = parsed-some (env.siwe.parse_message raw) r h2 in
        let (v, at) = parsed-reaches m r (rw p at h2) in
        let total : verify env now works db raw signature s ≡ on_message m =
          whole ∙ ap (λ o. verify_parsed env now works db raw (trim_space signature) o s) p ∙ at in
        let (taken, answered) =
          consumed-ok now works db raw m (taken_at now (key_of (env.siwe.nonce m)) s) r
            (rw total at h) in
        (
          m,
          record {
            parsed = p;
            verified = v;
            taken = taken;
            answered = answered;
            left =
                ap (λ x. x.1) total
                ∙ consumed-store now works db raw m (taken_at now (key_of (env.siwe.nonce m)) s);
          },
        )

    pub verify-IsAccepted_of :
        (r : VerifyAuthResult) (m : Message)
        → (verify env now works db raw signature s).0 ≡ ok r
        → env.siwe.parse_message raw ≡ some m
        → IsAccepted now works db raw signature s r m
    verify-IsAccepted_of r m h read =
        let (n, a) = verify-IsAccepted r h in
        let same : n ≡ m = ground (arith, a.parsed) in rw same at a

  create-key :
      (now : Instant) (key k : Option Text) (v : Text) (ttl : ℤ) (s : Store) (t : Instant)
      → key ≢ k
      → stored_at (set_at env.redis now key v ttl s).1 k t ≡ stored_at s k t
  create-key now key none v ttl s t other = refl
  create-key now none (some k) v ttl s t other = refl
  create-key now (some key) (some k) v ttl s t other =
      ground
        (arith, env.redis.set-same now key v (pos_part ttl) s k t (λ e. other (ap some (sym e))))

  stored_message-store :
      (raw : Text) (x : Result CacheError (Unit {0}) × Store) → (stored_message env raw x).1 ≡ x.1
  stored_message-store raw (ok u, s) = refl
  stored_message-store raw (err e, s) = refl

  store_message-other :
      (now : Instant) (nonce : Text) (o : Option Message) (s : Store) (k : Option Text)
      (t : Instant)
      → key_of nonce ≢ k
      → stored_at (store_message env now nonce o s).1 k t ≡ stored_at s k t
  unfolding set
  store_message-other now nonce none s k t other = refl
  store_message-other now nonce (some m) s k t other =
      ap (λ x. stored_at x k t)
        (stored_message-store (env.siwe.print_message m)
          (set_at env.redis now (key_of nonce) (env.siwe.print_message m) env.config.message_ttl s))
      ∙ create-key now (key_of nonce) k (env.siwe.print_message m) env.config.message_ttl s t other

  -- CreateMessage writes to no key but its own.
  pub create_message-other :
      (now : Instant) (nonce wallet_address : Text) (s : Store) (k : Option Text)
      → key_of nonce ≢ k
      → (t : Instant)
      → stored_at (create_message env now nonce wallet_address s).1 k t ≡ stored_at s k t
  unfolding create_message
  create_message-other now nonce wallet_address s k other t = ground (
    arith,
    store_message-other now nonce
        (env.siwe.init_message env.config.domain
          (env.siwe.checksum_address (trim_space wallet_address)) env.config.uri nonce
          (message_options env now))
        s k t other,
  )
