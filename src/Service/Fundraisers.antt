-- ===== src/Service/Fundraisers.antt =====
-- internal/service/fundraiser.go: registration, lookup, replacement and deletion of a fundraiser profile.
use be_pawfund.Prelude.{Bool, Option, none, some, Result, ok, err}
use be_pawfund.Text.{Text, trim_space}
use be_pawfund.Domain.{
  Uuid, Instant, Fundraiser, FundraiserProfileReplacement, ImageObjectKeyUpdate, role_fundraiser,
  ServiceError, profile_not_found, internal, RepositoryError,
}
use be_pawfund.Database.{Db, Driver}
use be_pawfund.Database.Users.{Cleanup}
use be_pawfund.Database.Fundraisers.{
  create_fundraiser, find_fundraiser, replace_fundraiser, delete_fundraiser,
}
use be_pawfund.ObjectKey.{discard_staging_image}
use be_pawfund.Service.{Environment, World}
use be_pawfund.Service.Profiles.{
  normalize_optional_string, normalize_image, register_error, replace_error, delete_error,
  normalize_email, promote_optional_image_object_key, promote_update, staged_of, clean_up,
}

-- RegisterFundraiserInput, with the two fields of ContactPerson.
pub record RegisterFundraiserInput : Type 0 where
  pub name : Text
  pub email : Text
  pub wallet_address : Text
  pub contact_name : Text
  pub contact_phone : Text
  pub social_url : Text
  pub country : Text
  pub zip_code : Text
  pub image_object_key : Option Text

module _ (env : Environment) (driver : Driver) where
  -- The fundraiser that Register asks for; created_at is Go's zero time.
  abbrev pub registered : Uuid → Option Text → RegisterFundraiserInput → Fundraiser
  registered id image_object_key input = record {
    user = record {
      id = id;
      role = role_fundraiser;
      email = normalize_email env input.email;
      wallet_address = trim_space input.wallet_address;
      created_at = 0;
    };
    name = trim_space input.name;
    image_object_key = image_object_key;
    contact_name = trim_space input.contact_name;
    contact_phone = trim_space input.contact_phone;
    social_url = some (trim_space input.social_url);
    country = trim_space input.country;
    zip_code = trim_space input.zip_code;
  }

  abbrev pub after_create :
      Option Text
      → World env
      → Result RepositoryError Fundraiser × Db
      → Result ServiceError Fundraiser × World env
  after_create staging_key world (err e, db) = (err (register_error e), record world { db = db })
  after_create staging_key world (ok created, db) = (
    ok created,
    record world {
      db = db;
      bucket = discard_staging_image env.uuid env.client env.has_promoter staging_key world.bucket;
    },
  )

  abbrev pub after_promotion :
      Instant
      → Uuid
      → RegisterFundraiserInput
      → World env
      → Result ServiceError (Option Text) × env.client.Bucket
      → Result ServiceError Fundraiser × World env
  after_promotion now id input world (err e, bucket) = (err e, record world { bucket = bucket })
  after_promotion now id input world (ok image_object_key, bucket) =
      after_create (normalize_optional_string input.image_object_key)
        (record world { bucket = bucket })
        (create_fundraiser driver now (registered id image_object_key input) world.db)

  abbrev pub register_with_id :
      Instant
      → Option Uuid
      → RegisterFundraiserInput
      → World env
      → Result ServiceError Fundraiser × World env
  register_with_id now none input world = (err internal, world)
  register_with_id now (some id) input world = after_promotion now id input world (
      promote_optional_image_object_key env (normalize_optional_string input.image_object_key)
        world.bucket)

  -- FundraiserService.Register; `id` is the answer of the id generator, `now` the clock of the database.
  unfoldable pub register_fundraiser :
      Instant
      → Option Uuid
      → RegisterFundraiserInput
      → World env
      → Result ServiceError Fundraiser × World env
  register_fundraiser now id input world = register_with_id now id input world

  abbrev pub found_profile :
      Result RepositoryError (Option Fundraiser) → Result ServiceError Fundraiser
  found_profile (err e) = err internal
  found_profile (ok none) = err profile_not_found
  found_profile (ok (some profile)) = ok profile

  -- FundraiserService.GetProfile; `works` is the outcome of the query.
  unfoldable pub get_fundraiser_profile : Bool → Text → World env → Result ServiceError Fundraiser
  get_fundraiser_profile works wallet_address world =
      found_profile (find_fundraiser env.sql_lower works (trim_space wallet_address) world.db)

  -- normalizeFundraiserProfileReplacement
  abbrev pub normalize_profile_replacement :
      FundraiserProfileReplacement → FundraiserProfileReplacement
  normalize_profile_replacement profile = record {
    name = trim_space profile.name;
    email = normalize_email env profile.email;
    image_object_key = normalize_image profile.image_object_key;
    contact_name = trim_space profile.contact_name;
    contact_phone = trim_space profile.contact_phone;
    social_url = trim_space profile.social_url;
    country = trim_space profile.country;
    zip_code = trim_space profile.zip_code;
  }

  abbrev pub after_replace :
      Option Text
      → World env
      → Result RepositoryError (Option Cleanup) × Db
      → Result ServiceError (Unit {0}) × World env
  after_replace staging_key world (err e, db) = (err (replace_error e), record world { db = db })
  after_replace staging_key world (ok none, db) = (err profile_not_found, record world { db = db })
  after_replace staging_key world (ok (some cleanup), db) = (
    ok tt,
    record world {
      db = db;
      bucket =
          clean_up env cleanup
            (discard_staging_image env.uuid env.client env.has_promoter staging_key world.bucket);
    },
  )

  abbrev pub after_image :
      Text
      → FundraiserProfileReplacement
      → World env
      → Result ServiceError ImageObjectKeyUpdate × env.client.Bucket
      → Result ServiceError (Unit {0}) × World env
  after_image wallet_address profile world (err e, bucket) =
      (err e, record world { bucket = bucket })
  after_image wallet_address profile world (ok image, bucket) =
      after_replace (staged_of env profile.image_object_key) (record world { bucket = bucket })
        (replace_fundraiser env.sql_lower driver (trim_space wallet_address)
          (record profile { image_object_key = image }) world.db)

  -- FundraiserService.ReplaceProfile
  unfoldable pub replace_fundraiser_profile :
      Text → FundraiserProfileReplacement → World env → Result ServiceError (Unit {0}) × World env
  replace_fundraiser_profile wallet_address input world =
      let profile = normalize_profile_replacement input in
      after_image wallet_address profile world
        (promote_update env profile.image_object_key world.bucket)

  abbrev pub after_delete :
      World env
      → Result RepositoryError (Option Cleanup) × Db
      → Result ServiceError (Unit {0}) × World env
  after_delete world (err e, db) = (err (delete_error e), record world { db = db })
  after_delete world (ok none, db) = (err profile_not_found, record world { db = db })
  after_delete world (ok (some cleanup), db) =
      (ok tt, record world { db = db; bucket = clean_up env cleanup world.bucket })

  -- FundraiserService.DeleteProfile
  unfoldable pub delete_fundraiser_profile :
      Instant → Text → World env → Result ServiceError (Unit {0}) × World env
  delete_fundraiser_profile now wallet_address world =
      after_delete world
        (delete_fundraiser env.sql_lower driver now (trim_space wallet_address) world.db)
