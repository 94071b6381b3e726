-- ===== src/Domain.antt =====
-- internal/domain: the entities, and the sentinel errors of internal/service and
-- internal/repository. An instant is the number of nanoseconds since Go's zero time; `UTC()` keeps
-- the instant, so it is left out. A UUID is its 128 bits as a number, `uuid.Nil` is 0.
use be_pawfund.Prelude.{ℕ, ◌*◌, Bool, true, false, Option}
use be_pawfund.Prelude.Int.{ℤ}
use be_pawfund.Text.{Text, codes}

abbrev pub Uuid : Type 0
Uuid = ℕ

abbrev pub Instant : Type 0
Instant = ℕ

abbrev pub microsecond : ℕ
microsecond = 1000

abbrev pub second : ℕ
second = 1000000000

abbrev pub minute : ℕ
minute = 60 * second

-- type UserRole string
abbrev pub UserRole : Type 0
UserRole = Text

abbrev pub role_fundraiser : UserRole
role_fundraiser = codes "fundraiser"

abbrev pub role_supporter : UserRole
role_supporter = codes "supporter"

pub data CampaignStatus : Type 0 where
  pending active completed cancelled failed : CampaignStatus

abbrev pub is_pending : CampaignStatus → Bool
is_pending pending = true
is_pending _ = false

abbrev pub is_active : CampaignStatus → Bool
is_active active = true
is_active _ = false

pub record User : Type 0 where
  pub id : Uuid
  pub role : UserRole
  pub email : Text
  pub wallet_address : Text
  pub created_at : Instant

pub record Fundraiser : Type 0 where
  pub user : User
  pub name : Text
  pub image_object_key : Option Text
  pub contact_name : Text
  pub contact_phone : Text
  pub social_url : Option Text
  pub country : Text
  pub zip_code : Text

pub record Supporter : Type 0 where
  pub user : User
  pub name : Text
  pub image_object_key : Option Text

-- An omitted field keeps the image; a given null clears it.
pub record ImageObjectKeyUpdate : Type 0 where
  pub is_set : Bool
  pub value : Option Text

pub record FundraiserProfileReplacement : Type 0 where
  pub name : Text
  pub email : Text
  pub image_object_key : ImageObjectKeyUpdate
  pub contact_name : Text
  pub contact_phone : Text
  pub social_url : Text
  pub country : Text
  pub zip_code : Text

pub record SupporterProfileReplacement : Type 0 where
  pub name : Text
  pub email : Text
  pub image_object_key : ImageObjectKeyUpdate

pub record Campaign : Type 0 where
  pub id : Uuid
  pub fundraiser_id : Uuid
  pub event_id : Option Uuid
  pub title : Text
  pub short_description : Text
  pub story : Text
  pub goal_amount : ℤ
  pub raised_amount : ℤ
  pub donor_count : ℤ
  pub contract_address : Option Text
  pub created_at : Instant
  pub end_at : Instant
  pub image_object_key : Text
  pub country : Text
  pub zip_code : Text
  pub status : CampaignStatus
  pub idempotency_key : Text

-- type BlockchainEventType string
abbrev pub event_campaign_created : Text
event_campaign_created = codes "campaign_created"

pub record BlockchainEvent : Type 0 where
  pub id : Uuid
  pub tx_hash : Text
  pub log_index : ℤ
  pub event_type : Text
  pub block_number : ℤ
  pub created_at : Instant

-- The sentinels of internal/service; `internal` stands for any other error, wrapped or not.
pub data ServiceError : Type 0 where
  email_already_registered wallet_already_registered profile_not_found active_campaigns_exist
        invalid_image_object_key image_object_not_found campaign_idempotency_conflict
        campaign_end_at_too_soon campaign_not_found unsupported_profile_image_type
        invalid_profile_image_size internal :
      ServiceError

-- The sentinels of internal/repository; `failure` stands for any other error.
pub data RepositoryError : Type 0 where
  email_already_exists wallet_already_exists campaign_fundraiser_not_found idempotency_conflict
        end_at_too_soon not_found not_pending_deployment fundraiser_has_active_campaigns failure :
      RepositoryError
