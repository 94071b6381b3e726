-- ===== src/Deployment/Redelivery.antt =====
-- Which tasks make the worker call the chain, and what a redelivered task does.
use be_pawfund.Prelude.{
  ◌≡◌, ◌≢◌, sym, ap, ◌∙◌, true, false, not, ◌&&◌, Option, none, some, [], arith, Result, ok, err,
  find?, Option-cases, Bool-cases, inl, inr, refl, ◌⊎◌, ◌∷◌, nat_eq, nat_eq_iff,
}
use be_pawfund.Prelude.Int.{int_eq, int_eq_iff}
use be_pawfund.Text.{Text, is_empty, trim_space}
use be_pawfund.Domain.{
  Uuid, Campaign, pending, RepositoryError, not_pending_deployment, BlockchainEvent,
}
use be_pawfund.Database.{Db, Driver, finish}
use be_pawfund.Database.Campaigns.{has_campaign_id, find_by_id_for_deployment}
use be_pawfund.Database.Campaigns.Completion.{
  complete_deployment, complete_found, complete_locked, record_deployment,
}
use be_pawfund.Database.Campaigns.Deployed.{WasDeployed, complete_deployment-active}
use be_pawfund.Deployment.{CampaignDeploymentTask, lacks_address, needs_campaign_deployment}
use be_pawfund.Deployment.Worker.{
  Surroundings, Handled, CampaignDeploymentParams, CampaignDeploymentResult, skipped, params_of,
  event_of, after_deploy, after_load, handle, deployment_task_matches_campaign,
}

-- The campaign that a deployment is for, and the one call of the chain.
pub record Deploying (around : Surroundings) (task : CampaignDeploymentTask) (db : Db)
    : Type 0 where
  pub campaign : Campaign
  pub same_chain : task.chain_id ≡ around.chain_id
  pub row_found : find? (λ c. nat_eq c.id task.campaign_id) db.campaigns ≡ some campaign
  pub is_waiting : campaign.status ≡ pending
  pub unaddressed :
      (campaign.contract_address ≡ none)
      ⊎ ((blank : Text) × (campaign.contract_address ≡ some blank)
          × (is_empty (trim_space blank) ≡ true))
  pub same_fundraiser : campaign.fundraiser_id ≡ task.fundraiser_id
  pub same_goal : campaign.goal_amount ≡ task.goal_amount
  pub same_end : campaign.end_at ≡ task.end_at
  pub called_once :
      (handle around task db).deployments
      ≡ record {
        campaign_id = task.campaign_id;
        fundraiser_id = task.fundraiser_id;
        fundraiser_wallet = task.fundraiser_wallet;
        goal_amount = task.goal_amount;
        end_at = task.end_at;
        chain_id = task.chain_id;
        title = campaign.title;
      }
        ∷ []

-- The branch of the worker that calls the chain.
record Reaching (around : Surroundings) (task : CampaignDeploymentTask) (db : Db) : Type 0 where
  campaign : Campaign
  same_chain : int_eq task.chain_id around.chain_id ≡ true
  row_found : find? (has_campaign_id task.campaign_id) db.campaigns ≡ some campaign
  waiting : needs_campaign_deployment campaign ≡ true
  matches : deployment_task_matches_campaign task campaign ≡ true
  handled :
      handle around task db
      ≡ after_deploy around
          (params_of task campaign)
          (around.deploy_campaign (params_of task campaign))
          around.event_id
          db

after_deploy-called :
    (around : Surroundings) (params : CampaignDeploymentParams)
    (result : Option CampaignDeploymentResult) (event_id : Option Uuid) (db : Db)
    → (after_deploy around params result event_id db).deployments ≡ params ∷ []
after_deploy-called around params none event_id db = refl
after_deploy-called around params (some result) none db = refl
after_deploy-called around params (some result) (some event_id) db = refl

unaddressed_cases :
    (address : Option Text)
    → lacks_address address ≡ true
    → (address ≡ none)
      ⊎ ((blank : Text) × (address ≡ some blank) × (is_empty (trim_space blank) ≡ true))
unaddressed_cases none h = inl refl
unaddressed_cases (some address) h = inr (address, refl, h)

module _ (around : Surroundings) (task : CampaignDeploymentTask) (db : Db) where
  handle-Reaching : (handle around task db).deployments ≢ [] → Reaching around task db
  unfolding handle after_load find_by_id_for_deployment
  handle-Reaching called =
      elim (Option-cases (find? (has_campaign_id task.campaign_id) db.campaigns)) [
        | inl missing ↦ absurd (called (ground arith))
        | inr (c, found) ↦
            elim (Bool-cases (
              not around.cancelled
              && (int_eq task.chain_id around.chain_id
                  && (around.loads
                      && (needs_campaign_deployment c
                          && deployment_task_matches_campaign task c))))) [
                            | inl goes ↦ record {
                              campaign = c;
                              same_chain = ground arith;
                              row_found = found;
                              waiting = ground arith;
                              matches = ground arith;
                              handled = ground arith;
                            }
                            | inr stops ↦ absurd (called (ground arith))
                          ]
      ]

  -- The worker calls the chain only for a task of its own chain whose campaign is stored, pending,
  -- without an address, and has the task's fundraiser, amount and end; then it calls it once, with the
  -- task's data and the stored title.
  pub handle-Deploying : (handle around task db).deployments ≢ [] → Deploying around task db
  handle-Deploying called =
      let r = handle-Reaching called in
      let c = r.campaign in
      record {
        campaign = c;
        same_chain = (int_eq_iff task.chain_id around.chain_id).0 r.same_chain;
        row_found = r.row_found;
        is_waiting = let w = r.waiting in ground arith;
        unaddressed = unaddressed_cases c.contract_address (let w = r.waiting in ground arith);
        same_fundraiser =
            (nat_eq_iff c.fundraiser_id task.fundraiser_id).0 (let m = r.matches in ground arith);
        same_goal =
            (int_eq_iff c.goal_amount task.goal_amount).0 (let m = r.matches in ground arith);
        same_end = (nat_eq_iff c.end_at task.end_at).0 (let m = r.matches in ground arith);
        called_once =
            ap (λ (h : Handled). h.deployments) r.handled
            ∙ after_deploy-called around (params_of task c)
                (around.deploy_campaign (params_of task c)) around.event_id db;
      }

-- On a pending row, CompleteDeployment does not answer that the campaign is not pending.
pending_not_skipped :
    (driver : Driver) (id : Uuid) (event : BlockchainEvent) (contract_address : Text) (c : Campaign)
    (db : Db)
    → find? (has_campaign_id id) db.campaigns ≡ some c
    → c.status ≡ pending
    → (complete_deployment driver id event contract_address db).0 ≢ err not_pending_deployment
unfolding complete_deployment complete_found complete_locked record_deployment finish
pending_not_skipped driver id event contract_address c db found e h = ground arith

-- A call that went through: the deployment was recorded.
completed :
    (around : Surroundings) (params : CampaignDeploymentParams) (c : Campaign)
    (result : Option CampaignDeploymentResult) (event_id : Option Uuid) (db db' : Db)
    → find? (has_campaign_id params.campaign_id) db.campaigns ≡ some c
    → c.status ≡ pending
    → (after_deploy around params result event_id db).answer ≡ ok tt
    → (after_deploy around params result event_id db).db ≡ db'
    → WasDeployed params.campaign_id db' db'
completed around params c none event_id db db' found e h k = ground arith
completed around params c (some result) none db db' found e h k = ground arith
completed around params c (some result) (some event_id) db db' found e h k =
    let never =
      pending_not_skipped around.driver params.campaign_id (event_of event_id result)
        result.contract_address c db found e in
    complete_deployment-active around.driver params.campaign_id (event_of event_id result)
      result.contract_address db db' (pair h k never)
  where
    pair :
        {r : Result RepositoryError (Unit {0}) × Db}
        → be_pawfund.Deployment.Worker.completion_answer r.0 ≡ ok tt
        → r.1 ≡ db'
        → r.0 ≢ err not_pending_deployment
        → r ≡ (ok tt, db')
    pair h k never = ground arith

-- A campaign that is active with an address is skipped.
skipped_active :
    (later : Surroundings) (task : CampaignDeploymentTask) (db : Db)
    → WasDeployed task.campaign_id db db
    → later.cancelled ≡ false
    → later.loads ≡ true
    → handle later task db ≡ skipped db
unfolding handle after_load find_by_id_for_deployment
skipped_active later task db w running loads =
    let filled : lacks_address w.campaign.contract_address ≡ false = ground (arith, w.addressed) in
    rw (running, w.row_found, loads, filled) (ground arith)

-- After the worker has deployed a campaign without an error, every later delivery of a task for
-- this campaign to a running worker that loads the row is acknowledged without a deployment and
-- changes nothing.
pub handle-once :
    (around later : Surroundings) (task again : CampaignDeploymentTask) (db : Db)
    → (handle around task db).deployments ≢ []
    → (handle around task db).answer ≡ ok tt
    → again.campaign_id ≡ task.campaign_id
    → later.cancelled ≡ false
    → later.loads ≡ true
    → handle later again (handle around task db).db ≡ skipped (handle around task db).db
handle-once around later task again db called answered same running loads =
    let d = handle-Reaching around task db called in
    let pend : d.campaign.status ≡ pending = ground (arith, d.waiting) in
    let w : WasDeployed task.campaign_id (handle around task db).db (handle around task db).db =
      completed around (params_of task d.campaign) d.campaign
        (around.deploy_campaign (params_of task d.campaign)) around.event_id db
        (handle around task db).db d.row_found pend
        (ap (λ (r : Handled). r.answer) (sym d.handled) ∙ answered)
        (ap (λ (r : Handled). r.db) (sym d.handled)) in
    skipped_active later again (handle around task db).db (rw same w) running loads
