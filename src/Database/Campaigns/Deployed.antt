-- ===== src/Database/Campaigns/Deployed.antt =====
-- What a successful CompleteDeployment has done, and what a second one does.
use be_pawfund.Prelude.{
  ◌≡◌, ◌-◌, ◌%◌, refl, true, false, some, [], ◌∷◌, ◌++◌, update_where, nat_eq, arith, ok, find?,
  Option-cases, inl, inr, ◌⊎◌, nat_eq_iff, find?-holds, find?-update_where,
}
use be_pawfund.Text.{Text, trim_space, is_empty}
use be_pawfund.Text.Trim.{trim_space_idem}
use be_pawfund.Domain.{
  Uuid, Campaign, CampaignStatus, pending, active, completed, cancelled, failed, BlockchainEvent,
  microsecond,
}
use be_pawfund.Database.{Db, Driver, Call, begin, lock, insert, update, commit, finish}
use be_pawfund.Database.Campaigns.{has_campaign_id}
use be_pawfund.Database.Campaigns.Completion.{
  deployed, has_address, record_deployment, complete_locked, complete_found, complete_deployment,
  is_complete_event, is_new_event, is_new_address, event_row,
}
use be_pawfund.Database.Consistency.Completing.{recorded}

-- The two ways to succeed: the campaign was deployed before and nothing changes, or it was pending and
-- now its row is active with the event and the address, the event is a new row, with whole
-- microseconds and its hash trimmed, and all else is as it was.
pub record WasDeployed (id : Uuid) (db db' : Db) : Type 0 where
  pub campaign : Campaign
  pub row_found : find? (has_campaign_id id) db.campaigns ≡ some campaign
  pub is_active : campaign.status ≡ active
  pub addressed : has_address campaign.contract_address ≡ true
  pub unchanged : db' ≡ db

pub record IsDeployed (id : Uuid) (event : BlockchainEvent) (contract_address : Text) (db db' : Db)
    : Type 0 where
  pub campaign : Campaign
  pub row_found : find? (has_campaign_id id) db.campaigns ≡ some campaign
  pub was_pending : campaign.status ≡ pending
  pub address_given : is_empty (trim_space contract_address) ≡ false
  pub row_after :
      find? (has_campaign_id id) db'.campaigns
      ≡ some (record campaign {
        status = active;
        event_id = some event.id;
        contract_address = some (trim_space contract_address);
      })
  pub is_recorded : db' ≡ record db {
    blockchain_events =
        db.blockchain_events
        ++ (record event {
          tx_hash = trim_space event.tx_hash;
          created_at = event.created_at - event.created_at % microsecond;
        })
          ∷ [];
    campaigns =
        update_where
          (λ c. nat_eq c.id id)
          (λ c. record c {
            status = active;
            event_id = some event.id;
            contract_address = some (trim_space contract_address);
          })
          db.campaigns;
  }

module _ (driver : Driver) (id : Uuid) (event : BlockchainEvent) (contract_address : Text)
    (db db' : Db) where
  pub row_deployed :
      (c : Campaign)
      → find? (has_campaign_id id) db.campaigns ≡ some c
      → db' ≡ recorded id event (trim_space contract_address) db
      → find? (has_campaign_id id) db'.campaigns
        ≡ some (deployed event.id (trim_space contract_address) c)
  row_deployed c f h = rw h (
      find?-update_where (has_campaign_id id) (deployed event.id (trim_space contract_address))
        db.campaigns c (λ x. refl) f)

  locked_ok :
      (c : Campaign) (status : CampaignStatus)
      → find? (has_campaign_id id) db.campaigns ≡ some c
      → c.status ≡ status
      → is_empty (trim_space contract_address) ≡ false
      → complete_locked driver id event (trim_space contract_address) status c.contract_address db
        ≡ (ok tt, db')
      → WasDeployed id db db' ⊎ IsDeployed id event contract_address db db'
  unfolding complete_locked record_deployment finish
  locked_ok c active f e a h = inl (record {
    campaign = c;
    row_found = f;
    is_active = e;
    addressed = ground arith;
    unchanged = ground arith;
  })
  locked_ok c pending f e a h =
      let r : db' ≡ recorded id event (trim_space contract_address) db = ground arith in
      inr (record {
        campaign = c;
        row_found = f;
        was_pending = e;
        address_given = a;
        row_after = row_deployed c f r;
        is_recorded = r;
      })
  locked_ok c completed f e a h = ground arith
  locked_ok c cancelled f e a h = ground arith
  locked_ok c failed f e a h = ground arith

  -- CompleteDeployment succeeds only for a campaign that was deployed before, which it leaves alone
  -- with all tables, or for a pending one and an address that is not blank: then the row of the campaign
  -- is active with the event and the trimmed address, the event is appended with its hash trimmed and
  -- its time in whole microseconds, and nothing else changes.
  pub complete_deployment-ok :
      complete_deployment driver id event contract_address db ≡ (ok tt, db')
      → WasDeployed id db db' ⊎ IsDeployed id event contract_address db db'
  unfolding complete_deployment complete_found
  complete_deployment-ok h = elim (Option-cases (find? (has_campaign_id id) db.campaigns)) [
    | inl missing ↦ ground arith
    | inr (c, found) ↦
        let same : c.id ≡ id =
          (nat_eq_iff c.id id).0 (find?-holds (has_campaign_id id) db.campaigns c found) in
        locked_ok c c.status found refl (ground arith) (rw (← same) (ground arith))
  ]

  complete_event :
      complete_deployment driver id event contract_address db ≡ (ok tt, db')
      → is_complete_event event (trim_space contract_address) ≡ true
  unfolding complete_deployment
  complete_event h = ground arith

  -- After a success the campaign is active with an address.
  pub complete_deployment-active :
      complete_deployment driver id event contract_address db ≡ (ok tt, db')
      → WasDeployed id db' db'
  complete_deployment-active h = elim (complete_deployment-ok h) [
    | inl w ↦ record {
      campaign = w.campaign;
      row_found = rw (w.unchanged) (w.row_found);
      is_active = w.is_active;
      addressed = w.addressed;
      unchanged = refl;
    }
    | inr i ↦
        let complete = complete_event h in
        record {
          campaign = deployed event.id (trim_space contract_address) i.campaign;
          row_found = i.row_after;
          is_active = refl;
          addressed = rw (trim_space_idem contract_address) (ground arith);
          unchanged = refl;
        }
  ]

  -- The first deployment wins: after a success, a further completion of the same campaign with
  -- whatever event and address, on a connection that opens and locks, succeeds and changes nothing.
  pub complete_deployment-first_wins :
      (later : Driver) (other_event : BlockchainEvent) (other_address : Text)
      → complete_deployment driver id event contract_address db ≡ (ok tt, db')
      → later.works begin ≡ true
      → later.works lock ≡ true
      → is_complete_event other_event (trim_space other_address) ≡ true
      → complete_deployment later id other_event other_address db' ≡ (ok tt, db')
  unfolding complete_deployment complete_found complete_locked
  complete_deployment-first_wins later other_event other_address h b l complete =
      let w = complete_deployment-active h in
      rw (complete, b, l, w.row_found, w.is_active, w.addressed) refl

-- CompleteDeployment of a pending campaign goes through when its calls work and the event and the
-- address are new.
pub complete_deployment-records :
    (driver : Driver) (event : BlockchainEvent) (contract_address : Text) (c : Campaign) (db : Db)
    → find? (has_campaign_id c.id) db.campaigns ≡ some c
    → c.status ≡ pending
    → ((call : Call) → driver.works call ≡ true)
    → is_complete_event event (trim_space contract_address) ≡ true
    → is_new_event (event_row event) db.blockchain_events ≡ true
    → is_new_address c.id event.id (trim_space contract_address) db.campaigns ≡ true
    → complete_deployment driver c.id event contract_address db
      ≡ (ok tt, recorded c.id event (trim_space contract_address) db)
unfolding complete_deployment complete_found complete_locked record_deployment finish
complete_deployment-records driver event contract_address c db found waits works complete new
      fresh =
    rw
      (
        complete,
        works begin,
        works lock,
        found,
        waits,
        works insert,
        new,
        works update,
        fresh,
        works commit,
      )
      refl
