-- ===== src/Service/Staging/Fundraisers.antt =====
-- What the fundraiser service leaves of the bucket when it answers with an error.
use be_pawfund.Prelude.{◌≡◌, true, Option, none, some, arith, Result, ok, err}
use be_pawfund.Text.{Text, trim_space}
use be_pawfund.Domain.{
  Uuid, Instant, Fundraiser, FundraiserProfileReplacement, ImageObjectKeyUpdate, ServiceError,
  RepositoryError,
}
use be_pawfund.Database.{Db, Driver}
use be_pawfund.Database.Users.{Cleanup}
use be_pawfund.Database.Fundraisers.{create_fundraiser, replace_fundraiser}
use be_pawfund.Service.{Environment, World}
use be_pawfund.Service.Profiles.{
  promote_optional_image_object_key, normalize_optional_string, promote_update, staged_of,
}
use be_pawfund.Service.Fundraisers
use be_pawfund.Service.Staging.{promote_optional-keeps, promote_update-keeps}

module _ (env : Environment) where
  open env.client use {Bucket, holds}

  module _ (driver : Driver) (k : Text) where
    registered_fundraiser :
        (now : Instant) (id : Uuid) (input : Fundraisers.RegisterFundraiserInput)
        (world : World env) (r : Result ServiceError (Option Text) × Bucket) (e : ServiceError)
        → holds r.1 k ≡ true
        → (Fundraisers.after_promotion env driver now id input world r).0 ≡ err e
        → holds (Fundraisers.after_promotion env driver now id input world r).1.bucket k ≡ true
    registered_fundraiser now id input world (err f, b) e h failed = h
    registered_fundraiser now id input world (ok key, b) e h failed =
        by_end
          (create_fundraiser driver now (Fundraisers.registered env driver id key input) world.db)
          failed
      where
        by_end :
            (c : Result RepositoryError Fundraiser × Db)
            → (Fundraisers.after_create env driver
                (normalize_optional_string input.image_object_key)
                (record world { bucket = b })
                c).0
              ≡ err e
            → holds
                (Fundraisers.after_create env driver
                  (normalize_optional_string input.image_object_key)
                  (record world { bucket = b })
                  c).1.bucket
                k
              ≡ true
        by_end (err f, db) g = h
        by_end (ok created, db) g = ground arith

    -- A registration of a fundraiser that is answered with an error loses no object of the bucket: the client
    -- may send the same staged image again.
    pub register_fundraiser-keeps :
        (now : Instant) (id : Option Uuid) (input : Fundraisers.RegisterFundraiserInput)
        (world : World env) (e : ServiceError)
        → (Fundraisers.register_fundraiser env driver now id input world).0 ≡ err e
        → holds world.bucket k ≡ true
        → holds (Fundraisers.register_fundraiser env driver now id input world).1.bucket k ≡ true
    unfolding Fundraisers.register_fundraiser
    register_fundraiser-keeps now none input world e failed h = h
    register_fundraiser-keeps now (some id) input world e failed h =
        registered_fundraiser now id input world
          (promote_optional_image_object_key env (normalize_optional_string input.image_object_key)
            world.bucket)
          e
          (promote_optional-keeps env (normalize_optional_string input.image_object_key)
            world.bucket k h)
          failed

    replaced_fundraiser :
        (wallet_address : Text) (profile : FundraiserProfileReplacement) (world : World env)
        (r : Result ServiceError ImageObjectKeyUpdate × Bucket) (e : ServiceError)
        → holds r.1 k ≡ true
        → (Fundraisers.after_image env driver wallet_address profile world r).0 ≡ err e
        → holds (Fundraisers.after_image env driver wallet_address profile world r).1.bucket k
          ≡ true
    replaced_fundraiser wallet_address profile world (err f, b) e h failed = h
    replaced_fundraiser wallet_address profile world (ok image, b) e h failed =
        by_end
          (replace_fundraiser env.sql_lower driver (trim_space wallet_address)
            (record profile { image_object_key = image }) world.db)
          failed
      where
        by_end :
            (c : Result RepositoryError (Option Cleanup) × Db)
            → (Fundraisers.after_replace env driver
                (staged_of env profile.image_object_key)
                (record world { bucket = b })
                c).0
              ≡ err e
            → holds
                (Fundraisers.after_replace env driver
                  (staged_of env profile.image_object_key)
                  (record world { bucket = b })
                  c).1.bucket
                k
              ≡ true
        by_end (err f, db) g = h
        by_end (ok none, db) g = h
        by_end (ok (some cleanup), db) g = ground arith

    -- A replacement of a fundraiser profile that is answered with an error loses no object of the bucket.
    pub replace_fundraiser_profile-keeps :
        (wallet_address : Text) (profile : FundraiserProfileReplacement) (world : World env)
        (e : ServiceError)
        → (Fundraisers.replace_fundraiser_profile env driver wallet_address profile world).0 ≡ err e
        → holds world.bucket k ≡ true
        → holds
            (Fundraisers.replace_fundraiser_profile env driver wallet_address profile
              world).1.bucket
            k
          ≡ true
    unfolding Fundraisers.replace_fundraiser_profile
    replace_fundraiser_profile-keeps wallet_address input world e failed h =
        let profile = Fundraisers.normalize_profile_replacement env driver input in
        replaced_fundraiser wallet_address profile world
          (promote_update env profile.image_object_key world.bucket) e
          (promote_update-keeps env profile.image_object_key world.bucket k h) failed
