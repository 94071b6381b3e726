-- ===== src/Database/Users.antt =====
-- What the profile repositories share: the rows of `users` with their unique indexes, the mapping of
-- constraint violations (mapPostgresError), and the references to an image.
use be_pawfund.Prelude.{
  Bool, true, false, not, ◌&&◌, ◌||◌, Option, none, some, List, Result, ok, err, if◌then◌else◌, any,
  update_where,
}
use be_pawfund.Text.{Text, text_eq}
use be_pawfund.Domain.{
  UserRole, role_fundraiser, role_supporter, ImageObjectKeyUpdate, Uuid, Instant, User,
  RepositoryError, email_already_exists, wallet_already_exists, failure,
}
use be_pawfund.Database.{Db, UserRow, FundraiserRow, SupporterRow, is_live, has_id, fits}

-- users_email_key and users_wallet_address_key hold of the live rows.
abbrev pub holds_email : Text → UserRow → Bool
holds_email email u = is_live u && text_eq u.user.email email

abbrev pub holds_wallet : Text → UserRow → Bool
holds_wallet wallet_address u = is_live u && text_eq u.user.wallet_address wallet_address

-- The values of the type user_role.
abbrev pub is_user_role : UserRole → Bool
is_user_role role = text_eq role role_fundraiser || text_eq role role_supporter

-- INSERT INTO users … RETURNING created_at, with the error of mapPostgresError. The indexes are
-- checked in the order of their creation.
unfoldable pub insert_user : Instant → User → List UserRow → Result RepositoryError UserRow
insert_user now user users =
    if not (fits 255 user.email && fits 255 user.wallet_address && is_user_role user.role)
    then err failure
    else if any (has_id user.id) users
    then err failure
    else if any (holds_email user.email) users
    then err email_already_exists
    else if any (holds_wallet user.wallet_address) users
    then err wallet_already_exists
    else ok (record { user = record user { created_at = now }; deleted_at = none })

-- UPDATE users SET email = $1 WHERE id = $2
abbrev pub set_email : Text → UserRow → UserRow
set_email email u = record u { user = record (u.user) { email = email } }

unfoldable pub update_email : Text → Uuid → List UserRow → Result RepositoryError (List UserRow)
update_email email id users =
    if not (fits 255 email)
    then err failure
    else if any (λ u. not (has_id id u) && holds_email email u) users
    then err email_already_exists
    else ok (update_where (has_id id) (set_email email) users)

-- UPDATE users SET deleted_at = CURRENT_TIMESTAMP WHERE id = $1
abbrev pub soft_delete : Instant → UserRow → UserRow
soft_delete now u = record u { deleted_at = some now }

abbrev pub is_image : Text → Option Text → Bool
is_image key none = false
is_image key (some k) = text_eq k key

-- imageObjectKeyChanged
unfoldable pub image_object_key_changed : Text → Option Text → Bool
image_object_key_changed current none = true
image_object_key_changed current (some updated) = not (text_eq current updated)

-- SELECT EXISTS (… fundraisers … UNION ALL … supporters …) of the two ReplaceProfile methods
unfoldable pub image_still_referenced : Text → Db → Bool
image_still_referenced key db =
    any (λ (f : FundraiserRow). is_image key f.image_object_key) db.fundraisers
    || any (λ (s : SupporterRow). is_image key s.image_object_key) db.supporters

-- The same of the two DeleteProfile methods: profiles of live users only
unfoldable pub image_referenced_live : Text → Db → Bool
image_referenced_live key db =
    any
      (λ (f : FundraiserRow).
        is_image key f.image_object_key && any (λ u. has_id f.id u && is_live u) db.users)
      db.fundraisers
    || any
        (λ (s : SupporterRow).
          is_image key s.image_object_key && any (λ u. has_id s.id u && is_live u) db.users)
        db.supporters

-- What a method answers about the storage: the key of an image whose file may be deleted
-- (`OldImageObjectKey` with `DeleteOldImageFile`; both are set together).
abbrev pub Cleanup : Type 0
Cleanup = Option Text

abbrev pub cleanup_of : Bool → Text → Cleanup
cleanup_of referenced key = if referenced then none else some key

-- The old image may be deleted if the request changes it and no profile refers to it any more.
unfoldable pub replaced_image : ImageObjectKeyUpdate → Option Text → Db → Cleanup
replaced_image change none db = none
replaced_image change (some current) db =
    if change.is_set && image_object_key_changed current change.value
    then cleanup_of (image_still_referenced current db) current
    else none

-- The reference check is a driver call only where the image changes.
abbrev pub checks_image : ImageObjectKeyUpdate → Option Text → Bool
checks_image change none = false
checks_image change (some current) = change.is_set && image_object_key_changed current change.value

-- The image of a deleted profile may be deleted if no live profile refers to it.
unfoldable pub deleted_image : Option Text → Db → Cleanup
deleted_image none db = none
deleted_image (some current) db = cleanup_of (image_referenced_live current db) current

abbrev pub has_image : Option Text → Bool
has_image none = false
has_image (some key) = true
