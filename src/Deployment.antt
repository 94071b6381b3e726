-- ===== src/Deployment.antt =====
-- The deployment of campaigns: the task of internal/service/campaign.go, its message of
-- internal/app/campaign_deployment.go, and the broker's queue. A body is what json.Unmarshal reads of
-- it, none where it fails. The RFC 3339 layout of package `time` is an interface.
pub mod Worker
pub mod Message
pub mod Redelivery
use be_pawfund.Prelude.{
  ℕ, ◌≡◌, ◌<◌, ◌-◌, ◌%◌, ◌*◌, Bool, true, false, not, ◌&&◌, ◌||◌, Option, none, some, List, [], ◌∷◌,
  ◌++◌, Result, ok, err, if◌then◌else◌,
}
use be_pawfund.Prelude.Int.{ℤ, pos, int_lt}
use be_pawfund.Text.{Text, is_empty, trim_space}
use be_pawfund.Domain.{Uuid, Instant, Campaign, is_pending, second, ServiceError, internal}
use be_pawfund.ObjectKey.{UuidPackage}

-- The first instant that RFC 3339 cannot write, in nanoseconds since Go's zero time.
abbrev pub year_10000 : Instant
year_10000 = 315537897600 * second

-- t.UTC().Format(time.RFC3339) and time.Parse(time.RFC3339, s). The layout has no fraction of a
-- second; what it writes is read back, and has no space at its ends.
pub record Rfc3339 : Type 0 where
  pub format : Instant → Text
  pub parse : Text → Option Instant
  pub parse-format : (t : Instant) → t < year_10000 → parse (format t) ≡ some (t - t % second)
  pub format_plain : (t : Instant) → trim_space (format t) ≡ format t

pub record CampaignDeploymentTask : Type 0 where
  pub campaign_id : Uuid
  pub fundraiser_id : Uuid
  pub fundraiser_wallet : Text
  pub goal_amount : ℤ
  pub end_at : Instant
  pub chain_id : ℤ

pub record CampaignDeploymentMessage : Type 0 where
  pub campaign_id : Text
  pub fundraiser_id : Text
  pub fundraiser_wallet : Text
  pub goal_amount : ℤ
  pub end_at : Text
  pub chain_id : ℤ

abbrev pub Body : Type 0
Body = Option CampaignDeploymentMessage

-- needsCampaignDeployment; `lacks_address` is the test of `ContractAddress`.
abbrev pub lacks_address : Option Text → Bool
lacks_address none = true
lacks_address (some address) = is_empty (trim_space address)

abbrev pub needs_campaign_deployment : Campaign → Bool
needs_campaign_deployment campaign =
    is_pending campaign.status && lacks_address campaign.contract_address

-- The task that publishCampaignDeployment makes of a campaign.
abbrev pub task_of : ℤ → Text → Campaign → CampaignDeploymentTask
task_of chain_id wallet_address campaign = record {
  campaign_id = campaign.id;
  fundraiser_id = campaign.fundraiser_id;
  fundraiser_wallet = wallet_address;
  goal_amount = campaign.goal_amount;
  end_at = campaign.end_at;
  chain_id = chain_id;
}

-- How the declaration of the topology and the publication end: without an error, or with one,
-- after the broker has taken the message or not.
pub data Publication : Type 0 where
  published lost rejected : Publication

module _ (uuid : UuidPackage) (rfc3339 : Rfc3339) where
  -- campaignDeploymentBody
  unfoldable pub campaign_deployment_body : CampaignDeploymentTask → Body
  campaign_deployment_body task = some (record {
    campaign_id = uuid.to_string task.campaign_id;
    fundraiser_id = uuid.to_string task.fundraiser_id;
    fundraiser_wallet = task.fundraiser_wallet;
    goal_amount = task.goal_amount;
    end_at = rfc3339.format task.end_at;
    chain_id = task.chain_id;
  })

  -- The checks behind the three parsed fields.
  abbrev pub checked_task :
      Option Uuid
      → Option Uuid
      → Option Instant
      → CampaignDeploymentMessage
      → Option CampaignDeploymentTask
  checked_task (some campaign_id) (some fundraiser_id) (some end_at) message =
      if not (int_lt (pos 0) message.chain_id)
      then none
      else if is_empty (trim_space message.fundraiser_wallet)
      then none
      else if not (int_lt (pos 0) message.goal_amount)
      then none
      else some (record {
        campaign_id = campaign_id;
        fundraiser_id = fundraiser_id;
        fundraiser_wallet = trim_space message.fundraiser_wallet;
        goal_amount = message.goal_amount;
        end_at = end_at;
        chain_id = message.chain_id;
      })
  checked_task _ _ _ message = none

  -- DecodeCampaignDeploymentMessage
  unfoldable pub decode_campaign_deployment_message : Body → Option CampaignDeploymentTask
  decode_campaign_deployment_message none = none
  decode_campaign_deployment_message (some message) =
      checked_task (uuid.parse (trim_space message.campaign_id))
        (uuid.parse (trim_space message.fundraiser_id)) (rfc3339.parse (trim_space message.end_at))
        message

  -- CampaignDeploymentPublisher.PublishCampaignDeployment on the durable queue `campaign.deploy`.
  unfoldable pub publish_campaign_deployment :
      Publication → CampaignDeploymentTask → List Body → Result ServiceError (Unit {0}) × List Body
  publish_campaign_deployment published task queue =
      (ok tt, queue ++ campaign_deployment_body task ∷ [])
  publish_campaign_deployment lost task queue =
      (err internal, queue ++ campaign_deployment_body task ∷ [])
  publish_campaign_deployment rejected task queue = (err internal, queue)
