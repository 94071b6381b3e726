-- ===== src/Database/Consistency.antt =====
-- The invariant of the tables that the repositories keep between them.
pub mod Creating
pub mod Completing
pub mod Profiles
use be_pawfund.Prelude.{◌≡◌, Bool, true, false, ◌&&◌, List, All, any, is_some, UniqueBy}
use be_pawfund.Text.{Text, text_eq}
use be_pawfund.Domain.{Uuid, Campaign, role_fundraiser}
use be_pawfund.Database.{Db, UserRow, is_live, has_id}
use be_pawfund.Database.Fundraisers.{is_open}
use be_pawfund.Database.Campaigns.{is_on_chain}

abbrev pub user_id : UserRow → Uuid
user_id u = u.user.id

abbrev pub campaign_id : Campaign → Uuid
campaign_id c = c.id

abbrev pub campaign_key : Campaign → Uuid × Text
campaign_key c = (c.fundraiser_id, c.idempotency_key)

-- The live account of a fundraiser.
abbrev pub is_owner : Uuid → UserRow → Bool
is_owner id u = has_id id u && (text_eq u.user.role role_fundraiser && is_live u)

-- A pending or active campaign belongs to a live fundraiser account.
abbrev pub OwnerLive : List UserRow → Campaign → Type 0
OwnerLive users c = is_open c.status ≡ true → any (is_owner c.fundraiser_id) users ≡ true

-- An active, completed or cancelled campaign has its event and its contract.
abbrev pub HasChainData : Campaign → Type 0
HasChainData c =
    is_on_chain c.status ≡ true → (is_some c.event_id ≡ true) × (is_some c.contract_address ≡ true)

pub record IsConsistent (db : Db) : Type 0 where
  pub users_unique : UniqueBy user_id db.users
  pub campaigns_unique : UniqueBy campaign_id db.campaigns
  pub keys_unique : UniqueBy campaign_key db.campaigns
  pub owners_live : All (OwnerLive db.users) db.campaigns
  pub chain_data : All HasChainData db.campaigns
