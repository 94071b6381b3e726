-- ===== src/Deployment/Message.antt =====
-- What the queue does to a task, and what the worker does with the message of a stored campaign.
use be_pawfund.Prelude.{
  ℕ, ◌≡◌, ◌≢◌, ◌<◌, ◌-◌, ◌%◌, refl, ◌∙◌, true, false, some, [], ◌∷◌, arith, ok, find?, nat_eq_refl,
  All, ◌++◌, nat_eq,
}
use be_pawfund.Prelude.Int.{ℤ, pos, int_lt, int_eq_iff}
use be_pawfund.Text.{Text, is_empty, is_space, trim_space, trim_left, trim_right}
use be_pawfund.Text.Trim.{trim_space_of_plain}
use be_pawfund.Domain.{
  Uuid, Campaign, pending, active, second, microsecond, BlockchainEvent, event_campaign_created,
}
use be_pawfund.Database.{Db, Call}
use be_pawfund.Database.Consistency.Completing.{recorded}
use be_pawfund.Database.Campaigns.Completion.{is_complete_event, is_new_event, is_new_address}
use be_pawfund.Database.Campaigns.Deployed.{row_deployed, complete_deployment-records}
use be_pawfund.Database.Campaigns.{has_campaign_id, find_by_id_for_deployment}
use be_pawfund.ObjectKey.{UuidPackage, is_uuid_char}
use be_pawfund.Deployment.{
  CampaignDeploymentTask, Rfc3339, year_10000, task_of, needs_campaign_deployment,
  campaign_deployment_body, decode_campaign_deployment_message,
}
use be_pawfund.Deployment.Worker.{
  Surroundings, Handled, CampaignDeploymentParams, CampaignDeploymentResult, skipped, params_of,
  after_deploy, after_load, handle, handle_delivery,
}

-- What a UUID writes has no space to trim.
uuid_char_plain : (c : ℕ) → is_uuid_char c ≡ true → is_space c ≡ false
unfolding is_space
uuid_char_plain c h = ground arith

trim_right_uuid : (s : Text) → All (λ c. is_uuid_char c ≡ true) s → trim_right s ≡ s
unfolding trim_right
trim_right_uuid [] h = refl
trim_right_uuid (c ∷ []) (p, h) = rw (uuid_char_plain c p) refl
trim_right_uuid (c ∷ d ∷ s) (p, h) = rw (trim_right_uuid (d ∷ s) h) refl

trim_uuid : (s : Text) → All (λ c. is_uuid_char c ≡ true) s → trim_space s ≡ s
trim_uuid [] h = unfold trim_space in unfold trim_left in unfold trim_right in refl
trim_uuid (c ∷ s) (p, h) =
    trim_space_of_plain (c ∷ s) (uuid_char_plain c p) (trim_right_uuid (c ∷ s) (p, h))

-- What a deployed campaign leads to, written out.
abbrev pub call_for : ℤ → Text → Campaign → CampaignDeploymentParams
call_for chain_id wallet_address c = record {
  campaign_id = c.id;
  fundraiser_id = c.fundraiser_id;
  fundraiser_wallet = wallet_address;
  goal_amount = c.goal_amount;
  end_at = c.end_at;
  chain_id = chain_id;
  title = c.title;
}

abbrev pub event_for : Uuid → CampaignDeploymentResult → BlockchainEvent
event_for event_id result = record {
  id = event_id;
  tx_hash = result.tx_hash;
  log_index = result.log_index;
  event_type = event_campaign_created;
  block_number = result.block_number;
  created_at = result.event_created_at;
}

-- As the table keeps it
abbrev pub stored_event : Uuid → CampaignDeploymentResult → BlockchainEvent
stored_event event_id result = record (event_for event_id result) {
  tx_hash = trim_space result.tx_hash;
  created_at = result.event_created_at - result.event_created_at % microsecond;
}

pub record IsDelivered (chain_id : ℤ) (wallet_address : Text) (campaign : Campaign)
    (result : CampaignDeploymentResult) (event_id : Uuid) (db : Db) (h : Handled) : Type 0 where
  pub acknowledged : h.answer ≡ ok tt
  pub called : h.deployments ≡ call_for chain_id wallet_address campaign ∷ []
  pub row_after :
      find? (λ c. nat_eq c.id campaign.id) h.db.campaigns
      ≡ some (record campaign {
        status = active;
        event_id = some event_id;
        contract_address = some (trim_space result.contract_address);
      })
  pub event_added :
      h.db.blockchain_events ≡ db.blockchain_events ++ stored_event event_id result ∷ []

module _ (uuid : UuidPackage) (rfc3339 : Rfc3339) where
  -- A task with a positive amount and chain, a wallet that is not empty without spaces at its ends,
  -- and an end before the year 10000 comes out of its message with everything but the fraction of a
  -- second of its end.
  pub decode-campaign_deployment_body :
      (task : CampaignDeploymentTask)
      → int_lt (pos 0) task.chain_id ≡ true
      → int_lt (pos 0) task.goal_amount ≡ true
      → trim_space task.fundraiser_wallet ≡ task.fundraiser_wallet
      → is_empty task.fundraiser_wallet ≡ false
      → task.end_at < year_10000
      → decode_campaign_deployment_message uuid rfc3339 (campaign_deployment_body uuid rfc3339 task)
        ≡ some (record task { end_at = task.end_at - task.end_at % second })
  unfolding campaign_deployment_body decode_campaign_deployment_message
  decode-campaign_deployment_body task chain goal trimmed filled before =
      rw
        (
          trim_uuid (uuid.to_string task.campaign_id) (uuid.to_string_chars task.campaign_id),
          trim_uuid (uuid.to_string task.fundraiser_id) (uuid.to_string_chars task.fundraiser_id),
          uuid.parse-to_string task.campaign_id,
          uuid.parse-to_string task.fundraiser_id,
          rfc3339.format_plain task.end_at,
          rfc3339.parse-format task.end_at before,
          chain,
          goal,
          trimmed,
          filled,
        )
        refl

  -- A campaign that the worker finds in the tables, and the task that was published for it.
  pub record Deliverable (around : Surroundings) (wallet_address : Text) (campaign : Campaign)
      (db : Db) : Type 0 where
    pub running : around.cancelled ≡ false
    pub loading : around.loads ≡ true
    pub on_chain : int_lt (pos 0) around.chain_id ≡ true
    pub row_found : find? (has_campaign_id campaign.id) db.campaigns ≡ some campaign
    pub waiting : needs_campaign_deployment campaign ≡ true
    pub goal_positive : int_lt (pos 0) campaign.goal_amount ≡ true
    pub wallet_trimmed : trim_space wallet_address ≡ wallet_address
    pub wallet_filled : is_empty wallet_address ≡ false
    pub end_writable : campaign.end_at < year_10000

  module _ (around : Surroundings) (wallet_address : Text) (campaign : Campaign) (db : Db)
      (d : Deliverable around wallet_address campaign db) where
    rounded : CampaignDeploymentTask
    rounded = record (task_of around.chain_id wallet_address campaign) {
      end_at = campaign.end_at - campaign.end_at % second;
    }

    handle-rounded : handle around rounded db ≡ after_load around rounded (ok campaign) db
    unfolding handle rounded find_by_id_for_deployment
    handle-rounded =
        rw (d.running, (int_eq_iff around.chain_id around.chain_id).1 refl, d.row_found, d.loading)
          refl

    deliver-rounded :
        handle_delivery uuid rfc3339 around
          (campaign_deployment_body uuid rfc3339 (task_of around.chain_id wallet_address campaign))
          db
        ≡ handle around rounded db
    unfolding handle_delivery rounded
    deliver-rounded =
        rw
          (decode-campaign_deployment_body (task_of around.chain_id wallet_address campaign)
            d.on_chain d.goal_positive d.wallet_trimmed d.wallet_filled d.end_writable)
          refl

    deliver-calls :
        campaign.end_at % second ≡ 0
        → handle_delivery uuid rfc3339 around
            (campaign_deployment_body uuid rfc3339
              (task_of around.chain_id wallet_address campaign))
            db
          ≡ (let params = params_of (task_of around.chain_id wallet_address campaign) campaign in
              after_deploy around params (around.deploy_campaign params) around.event_id db)
    deliver-calls whole =
        let same : campaign.end_at - campaign.end_at % second ≡ campaign.end_at = omega arith in
        deliver-rounded
        ∙ handle-rounded
        ∙ (unfold after_load in
            unfold rounded in
            rw
              (
                same,
                nat_eq_refl campaign.fundraiser_id,
                nat_eq_refl campaign.end_at,
                (int_eq_iff campaign.goal_amount campaign.goal_amount).1 refl,
              )
              (ground (arith, d.waiting)))

    -- Take the published message of a stored pending campaign (positive amount and chain, trimmed
    -- wallet that is not empty, end before the year 10000), whose end is a whole second, and a running
    -- worker that loads the row, whose chain answers the call for this campaign, which draws an event
    -- id, and whose database calls work, with a complete event and address that are new to the tables.
    -- Then the delivery is acknowledged after exactly this one call of the chain; the row of the campaign
    -- is active with the event and the address of the answer, and the event is stored.
    pub deliver-deploys :
        (result : CampaignDeploymentResult) (event_id : Uuid)
        → campaign.end_at % second ≡ 0
        → around.deploy_campaign (call_for around.chain_id wallet_address campaign) ≡ some result
        → around.event_id ≡ some event_id
        → ((call : Call) → around.driver.works call ≡ true)
        → is_complete_event (event_for event_id result) (trim_space result.contract_address) ≡ true
        → is_new_event (stored_event event_id result) db.blockchain_events ≡ true
        → is_new_address campaign.id event_id (trim_space result.contract_address) db.campaigns
          ≡ true
        → IsDelivered around.chain_id wallet_address campaign result event_id db (
            handle_delivery uuid rfc3339 around
              (campaign_deployment_body uuid rfc3339
                (task_of around.chain_id wallet_address campaign))
              db)
    deliver-deploys result event_id whole answers drawn works complete new fresh =
        let waits : campaign.status ≡ pending = let w = d.waiting in ground arith in
        let recorded_all =
          complete_deployment-records around.driver (event_for event_id result)
            result.contract_address campaign db d.row_found waits works complete new fresh in
        let handled = deliver-calls whole in
        let left =
          recorded campaign.id (event_for event_id result) (trim_space result.contract_address)
            db in
        rw (handled, answers, drawn, recorded_all)
          (record {
            acknowledged = refl;
            called = refl;
            row_after =
                row_deployed around.driver campaign.id (event_for event_id result)
                  result.contract_address db left campaign d.row_found refl;
            event_added = refl;
          })

    -- The same message of a campaign whose end has a fraction of a second is acknowledged by such a
    -- worker without a deployment, whatever the chain and the database would answer, and no row
    -- changes: a stored pending campaign (positive amount and chain, trimmed wallet that is not
    -- empty, end before the year 10000) stays pending.
    pub deliver-skips_fraction :
        campaign.end_at % second ≢ 0
        → handle_delivery uuid rfc3339 around
            (campaign_deployment_body uuid rfc3339
              (task_of around.chain_id wallet_address campaign))
            db
          ≡ skipped db
    deliver-skips_fraction fraction =
        let other : campaign.end_at - campaign.end_at % second ≢ campaign.end_at =
          λ e. fraction (omega (arith, e)) in
        deliver-rounded
        ∙ handle-rounded
        ∙ (unfold after_load in unfold rounded in ground (arith, d.waiting))
