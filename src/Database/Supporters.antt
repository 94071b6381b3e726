-- ===== src/Database/Supporters.antt =====
-- internal/infra/database/supporter_postgres.go: registration, lookup, replacement and deletion of a
-- supporter profile. The Boolean of the Go methods (found) is the option of the answer.

use be_pawfund.Prelude.{
  Bool, not, ◌&&◌, Option, none, some, List, [], ◌∷◌, ◌++◌, Result, ok, err, nat_eq, if◌then◌else◌,
  any, update_where,
}
use be_pawfund.Text.{Text, trim_space}
use be_pawfund.Domain.{
  Uuid, Instant, Supporter, SupporterProfileReplacement, RepositoryError, failure,
}
use be_pawfund.Database.{
  Db, Driver, begin, lock, insert, insert_profile, check, update, update_profile, update_image,
  finish, fits, UserRow, SupporterRow, has_id, supporter_account, supporter_of,
}
use be_pawfund.Database.Users.{
  insert_user, update_email, soft_delete, replaced_image, checks_image, deleted_image, has_image,
  Cleanup,
}

abbrev pub supporter_row : Supporter → SupporterRow
supporter_row s = record { id = s.user.id; name = s.name; image_object_key = s.image_object_key }

abbrev pub has_supporter_id : Uuid → SupporterRow → Bool
has_supporter_id id s = nat_eq s.id id

abbrev pub inserted_supporter :
    Driver → Supporter → Result RepositoryError UserRow → Db → Result RepositoryError Supporter × Db
inserted_supporter driver supporter (err e) db = (err e, db)
inserted_supporter driver supporter (ok u) db =
    if driver.works insert_profile
      && fits 255 supporter.name
      && not (any (has_supporter_id supporter.user.id) db.supporters)
    then finish driver (record supporter { user = u.user }) db
        (record db {
          users = db.users ++ u ∷ [];
          supporters = db.supporters ++ supporter_row supporter ∷ [];
        })
    else (err failure, db)

-- PostgresSupporterRepository.Create
unfoldable pub create_supporter :
    Driver → Instant → Supporter → Db → Result RepositoryError Supporter × Db
unfolding finish insert_user
create_supporter driver now supporter db =
    if driver.works begin && driver.works insert
    then inserted_supporter driver supporter (insert_user now supporter.user db.users) db
    else (err failure, db)

abbrev pub set_supporter_name : Text → SupporterRow → SupporterRow
set_supporter_name name s = record s { name = name }

abbrev pub set_supporter_image : Option Text → SupporterRow → SupporterRow
set_supporter_image image s = record s { image_object_key = image }

-- The statements on `supporters`: the name, and the image if the request gives one.
unfoldable pub replace_supporter_rows :
    Uuid → SupporterProfileReplacement → List SupporterRow → List SupporterRow
replace_supporter_rows id profile supporters =
    let renamed = update_where (has_supporter_id id) (set_supporter_name profile.name) supporters in
    if profile.image_object_key.is_set
    then update_where (has_supporter_id id) (set_supporter_image profile.image_object_key.value)
        renamed
    else renamed

abbrev pub image_of : Option SupporterRow → Option Text
image_of none = none
image_of (some s) = s.image_object_key

abbrev pub replaced_users :
    Driver
    → SupporterProfileReplacement
    → Uuid
    → Option Text
    → Result RepositoryError (List UserRow)
    → Db
    → Result RepositoryError (Option Cleanup) × Db
replaced_users driver profile id current (err e) db = (err e, db)
replaced_users driver profile id current (ok users) db =
    let after = record db {
      users = users;
      supporters = replace_supporter_rows id profile db.supporters;
    } in
    if not (driver.works update_profile && fits 255 profile.name)
    then (err failure, db)
    else if profile.image_object_key.is_set && not (driver.works update_image)
    then (err failure, db)
    else if checks_image profile.image_object_key current && not (driver.works check)
    then (err failure, db)
    else finish driver (some (replaced_image profile.image_object_key current after)) db after

abbrev pub replace_found :
    Driver
    → SupporterProfileReplacement
    → Option UserRow
    → Db
    → Result RepositoryError (Option Cleanup) × Db
replace_found driver profile none db = (ok none, db)
replace_found driver profile (some u) db =
    if driver.works update
    then replaced_users driver profile u.user.id (image_of (supporter_of db.supporters u))
        (update_email profile.email u.user.id db.users) db
    else (err failure, db)

abbrev pub cleared_supporters : Uuid → List SupporterRow → List SupporterRow
cleared_supporters id supporters =
    update_where (has_supporter_id id) (set_supporter_image none) supporters

abbrev pub deleted_supporter : Instant → Uuid → Db → Db
deleted_supporter now id db = record db {
  users = update_where (has_id id) (soft_delete now) db.users;
  supporters = cleared_supporters id db.supporters;
}

abbrev pub delete_found :
    Driver → Instant → Option UserRow → Db → Result RepositoryError (Option Cleanup) × Db
delete_found driver now none db = (ok none, db)
delete_found driver now (some u) db =
    let current = image_of (supporter_of db.supporters u) in
    let after = deleted_supporter now u.user.id db in
    if not (driver.works update_image && driver.works update)
    then (err failure, db)
    else if has_image current && not (driver.works check)
    then (err failure, db)
    else finish driver (some (deleted_image current after)) db after

module _ (lower : Text → Text) where
  -- PostgresSupporterRepository.FindByWalletAddress; `works` is the outcome of the query.
  abbrev pub joined_supporter : UserRow → Option SupporterRow → Option Supporter
  joined_supporter u none = none
  joined_supporter u (some s) =
      some (record { user = u.user; name = s.name; image_object_key = s.image_object_key })

  abbrev pub found_supporter : Option UserRow → Db → Option Supporter
  found_supporter none db = none
  found_supporter (some u) db = joined_supporter u (supporter_of db.supporters u)

  unfoldable pub find_supporter : Bool → Text → Db → Result RepositoryError (Option Supporter)
  find_supporter works wallet_address db =
      if works
      then ok (found_supporter (supporter_account lower (trim_space wallet_address) db) db)
      else err failure

  -- PostgresSupporterRepository.ReplaceProfile
  unfoldable pub replace_supporter :
      Driver
      → Text
      → SupporterProfileReplacement
      → Db
      → Result RepositoryError (Option Cleanup) × Db
  unfolding finish update_email
  replace_supporter driver wallet_address profile db =
      if driver.works begin && driver.works lock
      then replace_found driver profile (supporter_account lower (trim_space wallet_address) db) db
      else (err failure, db)

  -- PostgresSupporterRepository.DeleteProfile
  unfoldable pub delete_supporter :
      Driver → Instant → Text → Db → Result RepositoryError (Option Cleanup) × Db
  unfolding finish
  delete_supporter driver now wallet_address db =
      if driver.works begin && driver.works lock
      then delete_found driver now (supporter_account lower (trim_space wallet_address) db) db
      else (err failure, db)
