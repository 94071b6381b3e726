-- ===== src/Database/Campaigns.antt =====
-- internal/infra/database/campaign_postgres.go: the rows of `campaigns`, their lookups, and the insert
-- of a pending campaign.
pub mod Creation
pub mod Completion
pub mod Payload
pub mod Idempotency
pub mod Deployed
use be_pawfund.Prelude.{
  ◌-◌, ◌%◌, Bool, true, false, not, ◌&&◌, ◌||◌, Option, none, some, List, [], ◌∷◌, ◌++◌, Result, ok,
  err, nat_eq, ltb, if◌then◌else◌, find?, any, update_where, is_some,
}
use be_pawfund.Prelude.Int.{pos, int_eq, int_lt}
use be_pawfund.Text.{Text, text_eq, is_empty, trim_space}
use be_pawfund.Domain.{
  Uuid, Instant, Campaign, CampaignStatus, pending, active, completed, cancelled, failed,
  is_pending, BlockchainEvent, event_campaign_created, RepositoryError,
  campaign_fundraiser_not_found, idempotency_conflict, end_at_too_soon, not_found,
  not_pending_deployment, failure, microsecond,
}
use be_pawfund.Database.{
  Db, Driver, begin, lock, find_key, insert, find_key_again, update, finish, fits, UserRow,
  is_account, fundraiser_account, fundraiser_of,
}

-- sameCampaignCreationPayload
unfoldable pub same_campaign_creation_payload : Campaign → Campaign → Bool
same_campaign_creation_payload existing requested =
    text_eq existing.title requested.title
    && text_eq existing.short_description requested.short_description
    && text_eq existing.story requested.story
    && int_eq existing.goal_amount requested.goal_amount
    && nat_eq existing.end_at requested.end_at
    && text_eq existing.image_object_key requested.image_object_key
    && text_eq existing.country requested.country
    && text_eq existing.zip_code requested.zip_code

abbrev pub has_key : Uuid → Text → Campaign → Bool
has_key fundraiser_id idempotency_key c =
    nat_eq c.fundraiser_id fundraiser_id && text_eq c.idempotency_key idempotency_key

abbrev pub has_campaign_id : Uuid → Campaign → Bool
has_campaign_id id c = nat_eq c.id id

-- WHERE fundraiser_id = $1 AND idempotency_key = $2
unfoldable pub find_campaign_by_idempotency_key : Uuid → Text → Db → Option Campaign
find_campaign_by_idempotency_key fundraiser_id idempotency_key db =
    find? (has_key fundraiser_id idempotency_key) db.campaigns

-- status IN ('active', 'completed', 'cancelled')
abbrev pub is_on_chain : CampaignStatus → Bool
is_on_chain active = true
is_on_chain completed = true
is_on_chain cancelled = true
is_on_chain _ = false

-- The lengths of the columns, CHECK (goal_amount > 0), and campaigns_live_chain_data_check of a row
-- without event and address.
abbrev pub is_storable : Campaign → Bool
is_storable c =
    fits 255 c.title
    && fits 255 c.short_description
    && fits 255 c.country
    && fits 20 c.zip_code
    && fits 255 c.idempotency_key
    && int_lt (pos 0) c.goal_amount
    && not (is_on_chain c.status)

-- INSERT INTO campaigns … ON CONFLICT (fundraiser_id, idempotency_key) DO NOTHING RETURNING …
pub data Insertion : Type 0 where
  -- a constraint is violated
  rejected : Insertion
  -- DO NOTHING: no row comes back
  nothing : Insertion
  -- the row that is stored
  stored : Campaign → Insertion

-- What a column of type TIMESTAMPTZ holds of an instant: pgx sends its whole microseconds.
abbrev pub stored_instant : Instant → Instant
stored_instant t = t - t % microsecond

-- The columns that the statement leaves out take their defaults; `now` is CURRENT_TIMESTAMP.
unfoldable pub new_row : Instant → Campaign → Campaign
new_row now c = record c {
  event_id = none;
  contract_address = none;
  raised_amount = pos 0;
  donor_count = pos 0;
  created_at = now;
  end_at = stored_instant c.end_at;
}

unfoldable pub insert_campaign : Instant → Campaign → List Campaign → Insertion
insert_campaign now c campaigns =
    if not (is_storable c)
    then rejected
    else if any (has_key c.fundraiser_id c.idempotency_key) campaigns
    then nothing
    else if any (has_campaign_id c.id) campaigns
    then rejected
    else stored (new_row now c)

-- RETURNING raised_amount, donor_count, created_at
abbrev pub returned : Campaign → Campaign → Campaign
returned c row = record c {
  raised_amount = row.raised_amount;
  donor_count = row.donor_count;
  created_at = row.created_at;
}

abbrev pub append_campaigns : List Campaign → Db → Db
append_campaigns more db = record db { campaigns = db.campaigns ++ more }

abbrev pub or_not_found : Bool → Option Campaign → Result RepositoryError Campaign
or_not_found works none = if works then err not_found else err failure
or_not_found works (some c) = if works then ok c else err failure

-- FindByIDForDeployment; `works` is the outcome of the query.
unfoldable pub find_by_id_for_deployment : Bool → Uuid → Db → Result RepositoryError Campaign
find_by_id_for_deployment works campaign_id db =
    or_not_found works (find? (has_campaign_id campaign_id) db.campaigns)

module _ (lower : Text → Text) where
  -- The owner of a campaign is a live fundraiser with this address.
  abbrev pub is_owned_by : Text → Db → Campaign → Bool
  is_owned_by wallet_address db c =
      any
        (λ u.
          nat_eq u.user.id c.fundraiser_id
          && is_account lower (be_pawfund.Domain.role_fundraiser) wallet_address u
          && is_some (fundraiser_of db.fundraisers u))
        db.users

  -- FindByIDForFundraiser
  unfoldable pub find_by_id_for_fundraiser :
      Bool → Text → Uuid → Db → Result RepositoryError Campaign
  find_by_id_for_fundraiser works wallet_address campaign_id db = or_not_found works (
      find? (λ c. has_campaign_id campaign_id c && is_owned_by (trim_space wallet_address) db c)
        db.campaigns)
