-- ===== src/Database/Consistency/Completing.antt =====
-- CompleteDeployment keeps the tables consistent.
use be_pawfund.Prelude.{
  ◌≡◌, refl, true, not, ◌&&◌, Option, none, some, [], ◌∷◌, ◌++◌, arith, Member, find?, update_where,
  Bool-cases, inl, inr, nat_eq_iff, All-update_where, UniqueBy-update_where, UniqueBy-injective,
  find?-Member,
}
use be_pawfund.Text.{Text, trim_space}
use be_pawfund.Domain.{
  Uuid, Campaign, CampaignStatus, pending, active, completed, cancelled, failed, BlockchainEvent,
}
use be_pawfund.Database.{Db, Driver, begin, lock, insert, update}
use be_pawfund.Database.Campaigns.{has_campaign_id}
use be_pawfund.Database.Campaigns.Completion.{
  deployed, event_row, record_deployment, complete_locked, complete_found, complete_deployment,
  is_new_event, is_new_address, is_complete_event,
}
use be_pawfund.Database.Consistency.{
  campaign_id, campaign_key, OwnerLive, HasChainData, IsConsistent,
}
use be_pawfund.Database.Consistency.Creating.{finish_cases}

-- The tables after the two statements and the commit.
abbrev pub recorded : Uuid → BlockchainEvent → Text → Db → Db
recorded id event contract_address db = record db {
  blockchain_events = db.blockchain_events ++ event_row event ∷ [];
  campaigns = update_where (has_campaign_id id) (deployed event.id contract_address) db.campaigns;
}

-- The methods leaves the tables alone, or records the deployment of a pending campaign.
pub data Completion (event : BlockchainEvent) (address : Text) (db : Db) : Db → Type 0 where
  untouched : {db' : Db} → db' ≡ db → Completion event address db db'
  completes :
      {db' : Db} (c : Campaign)
      → Member c db.campaigns
      → c.status ≡ pending
      → db' ≡ recorded c.id event address db
      → Completion event address db db'

module _ (driver : Driver) (event : BlockchainEvent) (address : Text) (db : Db) where
  record_effect :
      (c : Campaign)
      → Member c db.campaigns
      → c.status ≡ pending
      → Completion event address db (record_deployment driver c.id event address db).1
  unfolding record_deployment
  record_effect c m e =
      elim (Bool-cases
        (not (driver.works insert && is_new_event (event_row event) db.blockchain_events))) [
          | inl bad ↦ rw bad (untouched refl)
          | inr good ↦
              rw good
                (elim (Bool-cases (
                  not (driver.works update && is_new_address c.id event.id address db.campaigns))) [
                    | inl bad ↦ rw bad (untouched refl)
                    | inr fine ↦
                        rw fine (elim (finish_cases driver tt db (recorded c.id event address db)) [
                          | inl before ↦ untouched before
                          | inr after ↦ completes c m e after
                        ])
                  ])
        ]

  locked_effect :
      (c : Campaign) (status : CampaignStatus)
      → Member c db.campaigns
      → c.status ≡ status
      → Completion event address db
          (complete_locked driver c.id event address status c.contract_address db).1
  unfolding complete_locked
  locked_effect c pending m e = record_effect c m e
  locked_effect c active m e = untouched (ground arith)
  locked_effect c completed m e = untouched refl
  locked_effect c cancelled m e = untouched refl
  locked_effect c failed m e = untouched refl

  found_effect :
      (id : Uuid) (found : Option Campaign)
      → find? (has_campaign_id id) db.campaigns ≡ found
      → Completion event address db (complete_found driver event address found db).1
  unfolding complete_found
  found_effect id none h = untouched refl
  found_effect id (some c) h =
      locked_effect c c.status (find?-Member (has_campaign_id id) db.campaigns c h) refl

pub complete_deployment_effect :
    (driver : Driver) (id : Uuid) (event : BlockchainEvent) (contract_address : Text) (db : Db)
    → Completion event
        (trim_space contract_address)
        db
        (complete_deployment driver id event contract_address db).1
unfolding complete_deployment
complete_deployment_effect driver id event contract_address db =
    elim (Bool-cases (not (is_complete_event event (trim_space contract_address)))) [
      | inl bad ↦ rw bad (untouched refl)
      | inr good ↦ rw good (elim (Bool-cases (driver.works begin && driver.works lock)) [
        | inl works ↦ rw works (
            found_effect driver event (trim_space contract_address) db id
              (find? (has_campaign_id id) db.campaigns) refl)
        | inr broken ↦ rw broken (untouched refl)
      ])
    ]

module _ (event : BlockchainEvent) (address : Text) (db : Db) (c : Campaign) where
  -- The updated row is the pending one, whose owner is live.
  recorded_owner :
      IsConsistent db
      → Member c db.campaigns
      → c.status ≡ pending
      → (a : Campaign) → Member a db.campaigns
      → has_campaign_id c.id a ≡ true
      → OwnerLive db.users a
      → OwnerLive db.users (deployed event.id address a)
  recorded_owner h m e a ma same live is_open_now =
      let equal : a ≡ c =
        UniqueBy-injective campaign_id db.campaigns a c h.campaigns_unique ma m
          ((nat_eq_iff a.id c.id).0 same) in
      live (rw equal (rw e))

  recorded-IsConsistent :
      IsConsistent db
      → Member c db.campaigns
      → c.status ≡ pending
      → IsConsistent (recorded c.id event address db)
  recorded-IsConsistent h m e = record {
    users_unique = h.users_unique;
    campaigns_unique =
        UniqueBy-update_where campaign_id (has_campaign_id c.id) (deployed event.id address)
          db.campaigns (λ a. refl) h.campaigns_unique;
    keys_unique =
        UniqueBy-update_where campaign_key (has_campaign_id c.id) (deployed event.id address)
          db.campaigns (λ a. refl) h.keys_unique;
    owners_live =
        All-update_where (OwnerLive db.users) (has_campaign_id c.id) (deployed event.id address)
          db.campaigns (recorded_owner h m e) h.owners_live;
    chain_data =
        All-update_where HasChainData (has_campaign_id c.id) (deployed event.id address)
          db.campaigns (λ a ma same old now. (refl, refl)) h.chain_data;
  }

Completion-IsConsistent :
    (event : BlockchainEvent) (address : Text) (db db' : Db)
    → Completion event address db db'
    → IsConsistent db
    → IsConsistent db'
Completion-IsConsistent event address db db' (untouched e) h = rw e h
Completion-IsConsistent event address db db' (completes c m e r) h =
    rw r (recorded-IsConsistent event address db c h m e)

-- Whatever driver calls fail, CompleteDeployment keeps the tables consistent.
pub complete_deployment-IsConsistent :
    (driver : Driver) (id : Uuid) (event : BlockchainEvent) (contract_address : Text) (db : Db)
    → IsConsistent db
    → IsConsistent (complete_deployment driver id event contract_address db).1
complete_deployment-IsConsistent driver id event contract_address db h =
    Completion-IsConsistent event (trim_space contract_address) db
      (complete_deployment driver id event contract_address db).1
      (complete_deployment_effect driver id event contract_address db) h
