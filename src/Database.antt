-- ===== src/Database.antt =====
-- The PostgreSQL tables of migrations/, as lists of rows, and what the repositories of
-- internal/infra/database share: the outcome of driver calls, transactions, the join of a user with
-- its profile. A statement of the sources is translated to its effect on the tables, with the
-- constraints of the migrations; SQL's LOWER is a parameter.
pub mod Campaigns
pub mod Users
pub mod Fundraisers
pub mod Supporters
pub mod Accounts
pub mod Consistency
pub mod History
pub mod Images
pub mod Listings
pub mod Donors
pub mod Donations
use be_pawfund.Prelude.{
  ℕ, Bool, true, false, not, ◌&&◌, Option, none, some, List, Result, ok, err, nat_eq, leb,
  if◌then◌else◌, find?, is_some,
}
use be_pawfund.Prelude.Int.{ℤ}
use be_pawfund.Text.{Text, text_eq, rune_count}
use be_pawfund.Domain.{
  Uuid, Instant, UserRole, User, Campaign, BlockchainEvent, role_fundraiser, role_supporter,
  RepositoryError, failure,
}

-- A row of `users`: soft deletion sets `deleted_at`.
pub record UserRow : Type 0 where
  pub user : User
  pub deleted_at : Option Instant

pub record FundraiserRow : Type 0 where
  pub id : Uuid
  pub name : Text
  pub image_object_key : Option Text
  pub contact_name : Text
  pub contact_phone : Text
  pub social_url : Option Text
  pub country : Text
  pub zip_code : Text

pub record SupporterRow : Type 0 where
  pub id : Uuid
  pub name : Text
  pub image_object_key : Option Text

-- `campaigns` has the columns of domain.Campaign.
pub record Db : Type 0 where
  pub users : List UserRow
  pub fundraisers : List FundraiserRow
  pub supporters : List SupporterRow
  pub campaigns : List Campaign
  pub blockchain_events : List BlockchainEvent

-- The driver calls of one repository method, in the order of the code.
pub data Call : Type 0 where
  begin lock find_key insert insert_profile find_key_again check update update_profile update_image
        commit :
      Call

-- Whether each call returns without an error; `applied` tells whether a commit whose answer is an
-- error took effect all the same (the connection was lost on the way back).
pub record Driver : Type 0 where
  pub works : Call → Bool
  pub applied : Bool

-- tx.Commit() and what follows it; any other end of a method rolls back.
unfoldable pub finish : {A : Type 0} → Driver → A → Db → Db → Result RepositoryError A × Db
finish driver answer before after =
    if driver.works commit
    then (ok answer, after)
    else (err failure, if driver.applied then after else before)

-- deleted_at IS NULL
abbrev pub is_live : UserRow → Bool
is_live u = not (is_some u.deleted_at)

-- VARCHAR(n)
abbrev pub fits : ℕ → Text → Bool
fits n s = leb (rune_count s) n

abbrev pub has_id : Uuid → UserRow → Bool
has_id id u = nat_eq u.user.id id

-- A live user of the role, whose address is equal to the given one up to case.
unfoldable pub is_account : (Text → Text) → UserRole → Text → UserRow → Bool
is_account lower role wallet_address u =
    text_eq u.user.role role
    && is_live u
    && text_eq (lower u.user.wallet_address) (lower wallet_address)

unfoldable pub fundraiser_of : List FundraiserRow → UserRow → Option FundraiserRow
fundraiser_of fundraisers u = find? (λ f. nat_eq f.id u.user.id) fundraisers

unfoldable pub supporter_of : List SupporterRow → UserRow → Option SupporterRow
supporter_of supporters u = find? (λ s. nat_eq s.id u.user.id) supporters

-- FROM users u JOIN fundraisers f ON f.id = u.id WHERE u.role = 'fundraiser' AND u.deleted_at IS
-- NULL AND LOWER(u.wallet_address) = LOWER($1): the user of the first row.
unfoldable pub fundraiser_account : (Text → Text) → Text → Db → Option UserRow
fundraiser_account lower wallet_address db =
    find?
      (λ u.
        is_account lower role_fundraiser wallet_address u
        && is_some (fundraiser_of db.fundraisers u))
      db.users

unfoldable pub supporter_account : (Text → Text) → Text → Db → Option UserRow
supporter_account lower wallet_address db =
    find?
      (λ u.
        is_account lower role_supporter wallet_address u && is_some (supporter_of db.supporters u))
      db.users
