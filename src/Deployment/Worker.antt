-- ===== src/Deployment/Worker.antt =====
-- internal/service/campaign_deployment_worker.go and Deployer.handleDelivery of
-- internal/app/deployer.go: what a delivered task does. The chain is a parameter: the answer of
-- DeployCampaign to its arguments. Log lines are left out.
use be_pawfund.Prelude.{
  Bool, not, ◌&&◌, Option, none, some, List, [], ◌∷◌, Result, ok, err, nat_eq, if◌then◌else◌,
}
use be_pawfund.Prelude.Int.{ℤ, int_eq}
use be_pawfund.Text.{Text}
use be_pawfund.Domain.{
  Uuid, Instant, Campaign, is_pending, BlockchainEvent, event_campaign_created, ServiceError,
  internal, RepositoryError, not_found, not_pending_deployment,
}
use be_pawfund.Database.{Db, Driver}
use be_pawfund.Database.Campaigns.{find_by_id_for_deployment}
use be_pawfund.Database.Campaigns.Completion.{complete_deployment}
use be_pawfund.ObjectKey.{UuidPackage}
use be_pawfund.Deployment.{
  CampaignDeploymentTask, Body, Rfc3339, lacks_address, decode_campaign_deployment_message,
}

pub record CampaignDeploymentParams : Type 0 where
  pub campaign_id : Uuid
  pub fundraiser_id : Uuid
  pub fundraiser_wallet : Text
  pub goal_amount : ℤ
  pub end_at : Instant
  pub chain_id : ℤ
  pub title : Text

pub record CampaignDeploymentResult : Type 0 where
  pub contract_address : Text
  pub tx_hash : Text
  pub log_index : ℤ
  pub block_number : ℤ
  pub event_created_at : Instant

-- The surroundings of one call of Handle: whether the context is cancelled, the configured chain,
-- the outcome of the query, the driver calls of CompleteDeployment, the answers of DeployCampaign
-- and of the id generator.
pub record Surroundings : Type 0 where
  pub cancelled : Bool
  pub chain_id : ℤ
  pub loads : Bool
  pub driver : Driver
  pub deploy_campaign : CampaignDeploymentParams → Option CampaignDeploymentResult
  pub event_id : Option Uuid

-- What Handle returns, the calls of DeployCampaign that it has made, and the tables.
pub record Handled : Type 0 where
  pub answer : Result ServiceError (Unit {0})
  pub deployments : List CampaignDeploymentParams
  pub db : Db

-- campaignAlreadyDeployed; the two branches of the code are the same.
abbrev pub campaign_already_deployed : Campaign → Bool
campaign_already_deployed campaign = not (lacks_address campaign.contract_address)

abbrev pub deployment_task_matches_campaign : CampaignDeploymentTask → Campaign → Bool
deployment_task_matches_campaign task campaign =
    nat_eq campaign.fundraiser_id task.fundraiser_id
    && int_eq campaign.goal_amount task.goal_amount
    && nat_eq campaign.end_at task.end_at

abbrev pub params_of : CampaignDeploymentTask → Campaign → CampaignDeploymentParams
params_of task campaign = record {
  campaign_id = task.campaign_id;
  fundraiser_id = task.fundraiser_id;
  fundraiser_wallet = task.fundraiser_wallet;
  goal_amount = task.goal_amount;
  end_at = task.end_at;
  chain_id = task.chain_id;
  title = campaign.title;
}

abbrev pub event_of : Uuid → CampaignDeploymentResult → BlockchainEvent
event_of event_id result = record {
  id = event_id;
  tx_hash = result.tx_hash;
  log_index = result.log_index;
  event_type = event_campaign_created;
  block_number = result.block_number;
  created_at = result.event_created_at;
}

-- CompleteDeployment has returned.
abbrev pub completion_answer : Result RepositoryError (Unit {0}) → Result ServiceError (Unit {0})
completion_answer (ok u) = ok tt
completion_answer (err not_pending_deployment) = ok tt
completion_answer (err _) = err internal

abbrev pub after_deploy :
    Surroundings
    → CampaignDeploymentParams
    → Option CampaignDeploymentResult
    → Option Uuid
    → Db
    → Handled
after_deploy around params none event_id db = record {
  answer = err internal;
  deployments = params ∷ [];
  db = db;
}
after_deploy around params (some result) none db = record {
  answer = err internal;
  deployments = params ∷ [];
  db = db;
}
after_deploy around params (some result) (some event_id) db =
    let completed =
      complete_deployment around.driver params.campaign_id (event_of event_id result)
        result.contract_address db in
    record { answer = completion_answer completed.0; deployments = params ∷ []; db = completed.1 }

abbrev pub skipped : Db → Handled
skipped db = record { answer = ok tt; deployments = []; db = db }

unfoldable pub after_load :
    Surroundings → CampaignDeploymentTask → Result RepositoryError Campaign → Db → Handled
unfolding complete_deployment
after_load around task (err not_found) db = skipped db
after_load around task (err _) db = record { answer = err internal; deployments = []; db = db }
after_load around task (ok campaign) db =
    if campaign_already_deployed campaign
    then skipped db
    else if not (is_pending campaign.status)
    then skipped db
    else if not (deployment_task_matches_campaign task campaign)
    then skipped db
    else let params = params_of task campaign in
      after_deploy around params (around.deploy_campaign params) around.event_id db

-- CampaignDeploymentWorker.Handle
unfoldable pub handle : Surroundings → CampaignDeploymentTask → Db → Handled
unfolding after_load
handle around task db =
    if around.cancelled
    then record { answer = err internal; deployments = []; db = db }
    else if not (int_eq task.chain_id around.chain_id)
    then skipped db
    else after_load around task (find_by_id_for_deployment around.loads task.campaign_id db) db

abbrev pub handle_decoded : Surroundings → Option CampaignDeploymentTask → Db → Handled
handle_decoded around none db = skipped db
handle_decoded around (some task) db = handle around task db

-- Deployer.handleDelivery; the consumer acknowledges the delivery if the answer is no error.
unfoldable pub handle_delivery : UuidPackage → Rfc3339 → Surroundings → Body → Db → Handled
unfolding handle
handle_delivery uuid rfc3339 around body db =
    handle_decoded around (decode_campaign_deployment_message uuid rfc3339 body) db
