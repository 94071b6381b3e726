-- ===== src/Tests/Deployment.antt =====
-- Runs of the deployment worker.
use be_pawfund.Prelude.{◌≡◌, ◌≢◌, ◌-◌, ◌%◌, ◌+◌, refl, true, false, some, [], ◌∷◌, arith, ok}
use be_pawfund.Prelude.Int.{pos}
use be_pawfund.Text.{codes, text_eq, trim_space, trim_left, trim_right, is_space}
use be_pawfund.Domain.{Campaign, second}
use be_pawfund.Database.{finish}
use be_pawfund.Database.Campaigns.{find_by_id_for_deployment}
use be_pawfund.Database.Campaigns.Completion.{
  complete_deployment, complete_found, complete_locked, record_deployment, is_complete_event,
  is_new_event, is_new_address,
}
use be_pawfund.Deployment.{
  CampaignDeploymentTask, task_of, campaign_deployment_body, decode_campaign_deployment_message,
}
use be_pawfund.Deployment.Worker.{
  Surroundings, CampaignDeploymentResult, after_load, handle, handle_delivery, skipped,
}
use be_pawfund.Deployment.Message.{
  decode-campaign_deployment_body, Deliverable, IsDelivered, event_for, stored_event,
  deliver-deploys, deliver-skips_fraction,
}
use be_pawfund.Deployment.Redelivery.{Deploying, handle-Deploying, handle-once}
use be_pawfund.Tests.Data.{working, wallet, noon, row, db_of, address}
use be_pawfund.Tests.Instances.{unary_uuid, short_rfc3339}

abbrev around : Surroundings
around = record {
  cancelled = false;
  chain_id = pos 84;
  loads = true;
  driver = working;
  deploy_campaign = λ params. some (record {
    contract_address = address;
    tx_hash = codes "0xT";
    log_index = pos 0;
    block_number = pos 1;
    event_created_at = noon;
  });
  event_id = some 7;
}

abbrev task : CampaignDeploymentTask
task = task_of (pos 84) wallet row

trimmed : trim_space wallet ≡ wallet
unfolding trim_space trim_left trim_right is_space
trimmed = refl

decode-campaign_deployment_body_example :
    decode_campaign_deployment_message unary_uuid short_rfc3339
      (campaign_deployment_body unary_uuid short_rfc3339 task)
    ≡ some (record task { end_at = task.end_at - task.end_at % second })
decode-campaign_deployment_body_example =
    decode-campaign_deployment_body unary_uuid short_rfc3339 task refl refl trimmed refl
      (omega arith)

-- A campaign that ends half a second later.
abbrev late : Campaign
late = record row { end_at = row.end_at + 500000000 }

row-Deliverable : Deliverable unary_uuid short_rfc3339 around wallet row (db_of (row ∷ []))
row-Deliverable = record {
  running = refl;
  loading = refl;
  on_chain = refl;
  row_found = refl;
  waiting = refl;
  goal_positive = refl;
  wallet_trimmed = trimmed;
  wallet_filled = refl;
  end_writable = omega arith;
}

late-Deliverable : Deliverable unary_uuid short_rfc3339 around wallet late (db_of (late ∷ []))
late-Deliverable = record {
  running = refl;
  loading = refl;
  on_chain = refl;
  row_found = refl;
  waiting = refl;
  goal_positive = refl;
  wallet_trimmed = trimmed;
  wallet_filled = refl;
  end_writable = omega arith;
}

abbrev answer : CampaignDeploymentResult
answer = record {
  contract_address = address;
  tx_hash = codes "0xT";
  log_index = pos 0;
  block_number = pos 1;
  event_created_at = noon;
}

event_complete : is_complete_event (event_for 7 answer) (trim_space address) ≡ true
unfolding trim_space trim_left trim_right is_space text_eq
event_complete = refl

event_new : is_new_event (stored_event 7 answer) [] ≡ true
unfolding trim_space trim_left trim_right is_space
event_new = refl

address_new : is_new_address 2 7 (trim_space address) (row ∷ []) ≡ true
unfolding trim_space trim_left trim_right is_space
address_new = refl

deliver-deploys_example : IsDelivered (pos 84) wallet row answer 7 (db_of (row ∷ [])) (
    handle_delivery unary_uuid short_rfc3339 around
      (campaign_deployment_body unary_uuid short_rfc3339 (task_of around.chain_id wallet row))
      (db_of (row ∷ [])))
deliver-deploys_example =
    deliver-deploys unary_uuid short_rfc3339 around wallet row (db_of (row ∷ [])) row-Deliverable
      answer 7 refl refl refl (λ call. refl) event_complete event_new address_new

deliver-skips_fraction_example :
    handle_delivery unary_uuid short_rfc3339 around
      (campaign_deployment_body unary_uuid short_rfc3339 (task_of around.chain_id wallet late))
      (db_of (late ∷ []))
    ≡ skipped (db_of (late ∷ []))
deliver-skips_fraction_example =
    deliver-skips_fraction unary_uuid short_rfc3339 around wallet late (db_of (late ∷ []))
      late-Deliverable (λ e. ground arith)

calls_chain : (handle around task (db_of (row ∷ []))).deployments ≢ []
unfolding handle after_load find_by_id_for_deployment
calls_chain e = ground arith

handle-Deploying_example : Deploying around task (db_of (row ∷ []))
handle-Deploying_example = handle-Deploying around task (db_of (row ∷ [])) calls_chain

succeeds : (handle around task (db_of (row ∷ []))).answer ≡ ok tt
unfolding handle after_load find_by_id_for_deployment complete_deployment complete_found
    complete_locked record_deployment finish text_eq trim_space trim_left trim_right is_space
succeeds = refl

handle-once_example :
    handle around (record task { goal_amount = pos 6 }) (handle around task (db_of (row ∷ []))).db
    ≡ skipped (handle around task (db_of (row ∷ []))).db
handle-once_example =
    handle-once around around task (record task { goal_amount = pos 6 }) (db_of (row ∷ []))
      calls_chain succeeds refl refl refl
