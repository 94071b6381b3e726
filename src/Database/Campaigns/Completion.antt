-- ===== src/Database/Campaigns/Completion.antt =====
-- campaign_postgres.go: CompleteDeployment.
use be_pawfund.Prelude.{
  ◌-◌, ◌^◌, Bool, false, not, ◌&&◌, ◌||◌, Option, none, some, List, [], ◌∷◌, ◌++◌, Result, ok, err,
  nat_eq, if◌then◌else◌, find?, any, update_where,
}
use be_pawfund.Prelude.Int.{ℤ, pos, negsuc, int_eq, int_lt}
use be_pawfund.Text.{Text, text_eq, is_empty, trim_space}
use be_pawfund.Domain.{
  Uuid, Campaign, CampaignStatus, pending, active, completed, cancelled, failed, BlockchainEvent,
  event_campaign_created, RepositoryError, not_found, not_pending_deployment, failure,
}
use be_pawfund.Database.{Db, Driver, begin, lock, insert, update, finish, fits}
use be_pawfund.Database.Campaigns.{has_campaign_id, stored_instant}

-- The check of the arguments of CompleteDeployment.
abbrev pub is_complete_event : BlockchainEvent → Text → Bool
is_complete_event event contract_address =
    not (is_empty contract_address)
    && not (nat_eq event.id 0)
    && not (is_empty (trim_space event.tx_hash))
    && text_eq event.event_type event_campaign_created

-- INTEGER
abbrev pub is_integer : ℤ → Bool
is_integer n = not (int_lt (pos (2 ^ 31 - 1)) n) && not (int_lt n (negsuc (2 ^ 31 - 1)))

-- PRIMARY KEY (id), UNIQUE (tx_hash, log_index), VARCHAR(255), and two columns of type INTEGER
abbrev pub is_new_event : BlockchainEvent → List BlockchainEvent → Bool
is_new_event event events =
    fits 255 event.tx_hash
    && is_integer event.log_index
    && is_integer event.block_number
    && not (
        any
          (λ (e : BlockchainEvent).
            nat_eq e.id event.id
            || text_eq e.tx_hash event.tx_hash && int_eq e.log_index event.log_index)
          events)

-- UNIQUE (contract_address), UNIQUE (event_id), VARCHAR(255), for the row `id`
abbrev pub option_eq : Text → Option Text → Bool
option_eq s none = false
option_eq s (some t) = text_eq s t

abbrev pub option_id_eq : Uuid → Option Uuid → Bool
option_id_eq u none = false
option_id_eq u (some v) = nat_eq u v

abbrev pub is_new_address : Uuid → Uuid → Text → List Campaign → Bool
is_new_address id event_id contract_address campaigns =
    fits 255 contract_address
    && not (
        any
          (λ (c : Campaign).
            not (nat_eq c.id id)
            && (option_eq contract_address c.contract_address || option_id_eq event_id c.event_id))
          campaigns)

-- SET status = 'active', event_id = $3, contract_address = $4
abbrev pub deployed : Uuid → Text → Campaign → Campaign
deployed event_id contract_address c = record c {
  status = active;
  event_id = some event_id;
  contract_address = some contract_address;
}

-- The row of `blockchain_events`
abbrev pub event_row : BlockchainEvent → BlockchainEvent
event_row event = record event {
  tx_hash = trim_space event.tx_hash;
  created_at = stored_instant event.created_at;
}

unfoldable pub record_deployment :
    Driver → Uuid → BlockchainEvent → Text → Db → Result RepositoryError (Unit {0}) × Db
unfolding finish
record_deployment driver campaign_id event contract_address db =
    let row = event_row event in
    if not (driver.works insert && is_new_event row db.blockchain_events)
    then (err failure, db)
    else if not
        (driver.works update && is_new_address campaign_id event.id contract_address db.campaigns)
    then (err failure, db)
    else finish driver tt db (record db {
      blockchain_events = db.blockchain_events ++ row ∷ [];
      campaigns =
          update_where (has_campaign_id campaign_id) (deployed event.id contract_address)
            db.campaigns;
    })

abbrev pub has_address : Option Text → Bool
has_address none = false
has_address (some address) = not (is_empty (trim_space address))

unfoldable pub complete_locked :
    Driver
    → Uuid
    → BlockchainEvent
    → Text
    → CampaignStatus
    → Option Text
    → Db
    → Result RepositoryError (Unit {0}) × Db
unfolding record_deployment
complete_locked driver id event contract_address active existing_address db =
    if has_address existing_address then (ok tt, db) else (err not_pending_deployment, db)
complete_locked driver id event contract_address pending existing_address db =
    record_deployment driver id event contract_address db
complete_locked driver id event contract_address completed existing_address db =
    (err not_pending_deployment, db)
complete_locked driver id event contract_address cancelled existing_address db =
    (err not_pending_deployment, db)
complete_locked driver id event contract_address failed existing_address db =
    (err not_pending_deployment, db)

unfoldable pub complete_found :
    Driver → BlockchainEvent → Text → Option Campaign → Db → Result RepositoryError (Unit {0}) × Db
unfolding complete_locked
complete_found driver event contract_address none db = (err not_found, db)
complete_found driver event contract_address (some c) db =
    complete_locked driver c.id event contract_address c.status c.contract_address db

-- PostgresCampaignRepository.CompleteDeployment
unfoldable pub complete_deployment :
    Driver → Uuid → BlockchainEvent → Text → Db → Result RepositoryError (Unit {0}) × Db
unfolding complete_found
complete_deployment driver campaign_id event contract_address db =
    let address = trim_space contract_address in
    if not (is_complete_event event address)
    then (err failure, db)
    else if driver.works begin && driver.works lock
    then complete_found driver event address (find? (has_campaign_id campaign_id) db.campaigns) db
    else (err failure, db)
