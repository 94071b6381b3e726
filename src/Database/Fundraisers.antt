-- ===== src/Database/Fundraisers.antt =====
-- internal/infra/database/fundraiser_postgres.go: registration, lookup, replacement and deletion of a
-- fundraiser profile. The Boolean of the Go methods (found) is the option of the answer.
use be_pawfund.Prelude.{
  Bool, true, false, not, ◌&&◌, Option, none, some, List, [], ◌∷◌, ◌++◌, Result, ok, err, nat_eq,
  if◌then◌else◌, any, update_where,
}
use be_pawfund.Text.{Text, trim_space}
use be_pawfund.Domain.{
  Uuid, Instant, Fundraiser, FundraiserProfileReplacement, Campaign, CampaignStatus, pending,
  active, RepositoryError, fundraiser_has_active_campaigns, failure,
}
use be_pawfund.Database.{
  Db, Driver, begin, lock, insert, insert_profile, find_key, check, update, update_profile,
  update_image, finish, fits, UserRow, FundraiserRow, has_id, fundraiser_account, fundraiser_of,
}
use be_pawfund.Database.Users.{
  insert_user, update_email, soft_delete, replaced_image, checks_image, deleted_image, has_image,
  Cleanup,
}

abbrev pub fundraiser_row : Fundraiser → FundraiserRow
fundraiser_row f = record {
  id = f.user.id;
  name = f.name;
  image_object_key = f.image_object_key;
  contact_name = f.contact_name;
  contact_phone = f.contact_phone;
  social_url = f.social_url;
  country = f.country;
  zip_code = f.zip_code;
}

-- The lengths of the columns.
abbrev pub fits_columns : Text → Text → Text → Text → Text → Bool
fits_columns name contact_name contact_phone country zip_code =
    fits 255 name
    && fits 255 contact_name
    && fits 255 contact_phone
    && fits 255 country
    && fits 20 zip_code

abbrev pub has_fundraiser_id : Uuid → FundraiserRow → Bool
has_fundraiser_id id s = nat_eq s.id id

abbrev pub inserted_fundraiser :
    Driver
    → Fundraiser
    → Result RepositoryError UserRow
    → Db
    → Result RepositoryError Fundraiser × Db
inserted_fundraiser driver fundraiser (err e) db = (err e, db)
inserted_fundraiser driver fundraiser (ok u) db =
    if driver.works insert_profile
      && fits_columns fundraiser.name fundraiser.contact_name fundraiser.contact_phone
          fundraiser.country fundraiser.zip_code
      && not (any (has_fundraiser_id fundraiser.user.id) db.fundraisers)
    then finish driver (record fundraiser { user = u.user }) db
        (record db {
          users = db.users ++ u ∷ [];
          fundraisers = db.fundraisers ++ fundraiser_row fundraiser ∷ [];
        })
    else (err failure, db)

-- PostgresFundraiserRepository.Create
unfoldable pub create_fundraiser :
    Driver → Instant → Fundraiser → Db → Result RepositoryError Fundraiser × Db
unfolding finish insert_user
create_fundraiser driver now fundraiser db =
    if driver.works begin && driver.works insert
    then inserted_fundraiser driver fundraiser (insert_user now fundraiser.user db.users) db
    else (err failure, db)

abbrev pub set_fundraiser_profile : FundraiserProfileReplacement → FundraiserRow → FundraiserRow
set_fundraiser_profile profile f = record f {
  name = profile.name;
  contact_name = profile.contact_name;
  contact_phone = profile.contact_phone;
  social_url = some profile.social_url;
  country = profile.country;
  zip_code = profile.zip_code;
}

abbrev pub set_fundraiser_image : Option Text → FundraiserRow → FundraiserRow
set_fundraiser_image image s = record s { image_object_key = image }

-- The statements on `fundraisers`: the columns of the profile, and the image if the request gives one.
unfoldable pub replace_fundraiser_rows :
    Uuid → FundraiserProfileReplacement → List FundraiserRow → List FundraiserRow
replace_fundraiser_rows id profile fundraisers =
    let renamed =
      update_where (has_fundraiser_id id) (set_fundraiser_profile profile) fundraisers in
    if profile.image_object_key.is_set
    then update_where (has_fundraiser_id id) (set_fundraiser_image profile.image_object_key.value)
        renamed
    else renamed

abbrev pub image_of : Option FundraiserRow → Option Text
image_of none = none
image_of (some s) = s.image_object_key

abbrev pub replaced_users :
    Driver
    → FundraiserProfileReplacement
    → Uuid
    → Option Text
    → Result RepositoryError (List UserRow)
    → Db
    → Result RepositoryError (Option Cleanup) × Db
replaced_users driver profile id current (err e) db = (err e, db)
replaced_users driver profile id current (ok users) db =
    let after = record db {
      users = users;
      fundraisers = replace_fundraiser_rows id profile db.fundraisers;
    } in
    if not (
      driver.works update_profile
      && fits_columns profile.name profile.contact_name profile.contact_phone profile.country
          profile.zip_code)
    then (err failure, db)
    else if profile.image_object_key.is_set && not (driver.works update_image)
    then (err failure, db)
    else if checks_image profile.image_object_key current && not (driver.works check)
    then (err failure, db)
    else finish driver (some (replaced_image profile.image_object_key current after)) db after

abbrev pub replace_found :
    Driver
    → FundraiserProfileReplacement
    → Option UserRow
    → Db
    → Result RepositoryError (Option Cleanup) × Db
replace_found driver profile none db = (ok none, db)
replace_found driver profile (some u) db =
    if driver.works update
    then replaced_users driver profile u.user.id (image_of (fundraiser_of db.fundraisers u))
        (update_email profile.email u.user.id db.users) db
    else (err failure, db)

abbrev pub cleared_fundraisers : Uuid → List FundraiserRow → List FundraiserRow
cleared_fundraisers id fundraisers =
    update_where (has_fundraiser_id id) (set_fundraiser_image none) fundraisers

abbrev pub deleted_fundraiser : Instant → Uuid → Db → Db
deleted_fundraiser now id db = record db {
  users = update_where (has_id id) (soft_delete now) db.users;
  fundraisers = cleared_fundraisers id db.fundraisers;
}

-- status IN ('pending', 'active')
abbrev pub is_open : CampaignStatus → Bool
is_open pending = true
is_open active = true
is_open _ = false

unfoldable pub has_active_campaign : Uuid → Db → Bool
has_active_campaign id db =
    any (λ (c : Campaign). nat_eq c.fundraiser_id id && is_open c.status) db.campaigns

abbrev pub delete_found :
    Driver → Instant → Option UserRow → Db → Result RepositoryError (Option Cleanup) × Db
delete_found driver now none db = (ok none, db)
delete_found driver now (some u) db =
    let current = image_of (fundraiser_of db.fundraisers u) in
    let after = deleted_fundraiser now u.user.id db in
    if not (driver.works find_key)
    then (err failure, db)
    else if has_active_campaign u.user.id db
    then (err fundraiser_has_active_campaigns, db)
    else if not (driver.works update_image && driver.works update)
    then (err failure, db)
    else if has_image current && not (driver.works check)
    then (err failure, db)
    else finish driver (some (deleted_image current after)) db after

module _ (lower : Text → Text) where
  -- PostgresFundraiserRepository.FindByWalletAddress; `works` is the outcome of the query.
  abbrev pub joined_fundraiser : UserRow → Option FundraiserRow → Option Fundraiser
  joined_fundraiser u none = none
  joined_fundraiser u (some s) = some (record {
    user = u.user;
    name = s.name;
    image_object_key = s.image_object_key;
    contact_name = s.contact_name;
    contact_phone = s.contact_phone;
    social_url = s.social_url;
    country = s.country;
    zip_code = s.zip_code;
  })

  abbrev pub found_fundraiser : Option UserRow → Db → Option Fundraiser
  found_fundraiser none db = none
  found_fundraiser (some u) db = joined_fundraiser u (fundraiser_of db.fundraisers u)

  unfoldable pub find_fundraiser : Bool → Text → Db → Result RepositoryError (Option Fundraiser)
  find_fundraiser works wallet_address db =
      if works
      then ok (found_fundraiser (fundraiser_account lower (trim_space wallet_address) db) db)
      else err failure

  -- PostgresFundraiserRepository.ReplaceProfile
  unfoldable pub replace_fundraiser :
      Driver
      → Text
      → FundraiserProfileReplacement
      → Db
      → Result RepositoryError (Option Cleanup) × Db
  unfolding finish update_email
  replace_fundraiser driver wallet_address profile db =
      if driver.works begin && driver.works lock
      then replace_found driver profile (fundraiser_account lower (trim_space wallet_address) db) db
      else (err failure, db)

  -- PostgresFundraiserRepository.DeleteProfile
  unfoldable pub delete_fundraiser :
      Driver → Instant → Text → Db → Result RepositoryError (Option Cleanup) × Db
  unfolding finish
  delete_fundraiser driver now wallet_address db =
      if driver.works begin && driver.works lock
      then delete_found driver now (fundraiser_account lower (trim_space wallet_address) db) db
      else (err failure, db)
