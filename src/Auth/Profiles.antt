-- ===== src/Auth/Profiles.antt =====
-- internal/infra/database/auth_postgres.go and internal/domain/auth_profile.go: the profile of a wallet,
-- of either role.
use be_pawfund.Prelude.{Bool, not, ◌&&◌, Option, none, some, Result, ok, err, if◌then◌else◌, find?}
use be_pawfund.Text.{Text, is_empty, text_eq, trim_space}
use be_pawfund.Domain.{UserRole, role_supporter, role_fundraiser, RepositoryError, failure}
use be_pawfund.Database.{
  Db, UserRow, SupporterRow, FundraiserRow, is_live, supporter_of, fundraiser_of,
}

pub record AuthProfile : Type 0 where
  pub name : Text
  pub role : UserRole
  pub image_object_key : Option Text

-- A live user of either role with the address, up to case.
abbrev pub has_wallet : (Text → Text) → Text → UserRow → Bool
has_wallet lower wallet_address u =
    is_live u && text_eq (lower u.user.wallet_address) (lower wallet_address)

-- The two joined rows: a profile of the other role is not joined.
abbrev pub joined_supporter : Db → UserRow → Option SupporterRow
joined_supporter db u =
    if text_eq u.user.role role_supporter then supporter_of db.supporters u else none

abbrev pub joined_fundraiser : Db → UserRow → Option FundraiserRow
joined_fundraiser db u =
    if text_eq u.user.role role_fundraiser then fundraiser_of db.fundraisers u else none

-- COALESCE(s.name, f.name) and COALESCE(s.image_object_key, f.image_object_key)
abbrev pub fundraiser_columns : Option FundraiserRow → Option Text × Option Text
fundraiser_columns none = (none, none)
fundraiser_columns (some f) = (some f.name, f.image_object_key)

abbrev pub coalesce : Option Text → Option Text → Option Text
coalesce none y = y
coalesce (some x) y = some x

abbrev pub joined_columns : Option SupporterRow → Option FundraiserRow → Option Text × Option Text
joined_columns none f = fundraiser_columns f
joined_columns (some s) f = (some s.name, coalesce s.image_object_key (fundraiser_columns f).1)

abbrev pub scanned :
    UserRole → Option Text × Option Text → Result RepositoryError (Option AuthProfile)
scanned role (none, image) = err failure
scanned role (some name, image) =
    if not (text_eq role role_supporter) && not (text_eq role role_fundraiser)
    then err failure
    else if is_empty (trim_space name)
    then err failure
    else ok (some (record { name = name; role = role; image_object_key = image }))

abbrev pub found_user : Db → Option UserRow → Result RepositoryError (Option AuthProfile)
found_user db none = ok none
found_user db (some u) =
    scanned u.user.role (joined_columns (joined_supporter db u) (joined_fundraiser db u))

-- PostgresAuthRepository.FindProfileByWalletAddress; `works` is the outcome of the query.
unfoldable pub find_auth_profile :
    (Text → Text) → Bool → Text → Db → Result RepositoryError (Option AuthProfile)
find_auth_profile lower works wallet_address db =
    if works
    then found_user db (find? (has_wallet lower (trim_space wallet_address)) db.users)
    else err failure
