-- ===== src/Service/Campaigns.antt =====
-- internal/service/campaign.go: the creation of a campaign and the lookup of a fundraiser's campaign.
pub mod Retry
use be_pawfund.Prelude.{
  ℕ, ◌+◌, ◌-◌, ◌%◌, ◌*◌, Bool, true, false, not, ◌&&◌, Option, none, some, List, [], ◌∷◌, ◌++◌,
  Result, ok, err, if◌then◌else◌,
}
use be_pawfund.Prelude.Int.{ℤ, pos, int_lt}
use be_pawfund.Text.{Text, trim_space}
use be_pawfund.Domain.{
  Uuid, Instant, Campaign, CampaignStatus, pending, ServiceError, profile_not_found,
  campaign_idempotency_conflict, campaign_end_at_too_soon, campaign_not_found, internal,
  RepositoryError, campaign_fundraiser_not_found, idempotency_conflict, end_at_too_soon, not_found,
  microsecond, minute,
}
use be_pawfund.Database.{Db, Driver}
use be_pawfund.Database.Campaigns.{find_by_id_for_fundraiser}
use be_pawfund.Database.Campaigns.Creation.{create_pending}
use be_pawfund.ObjectKey.{campaign_image_directory, promote_image_object_key, discard_staging_image}
use be_pawfund.Deployment.{
  Body, Publication, task_of, needs_campaign_deployment, publish_campaign_deployment,
}
use be_pawfund.Service.{Environment, World}

abbrev pub campaign_deployment_lead_time : ℕ
campaign_deployment_lead_time = 5 * minute

pub record CreateCampaignInput : Type 0 where
  pub wallet_address : Text
  pub idempotency_key : Text
  pub title : Text
  pub short_description : Text
  pub story : Text
  pub goal_amount : ℤ
  pub end_at : Instant
  pub image_object_key : Text
  pub country : Text
  pub zip_code : Text

-- The surroundings of one call of Create: the drawn id, the driver calls, the campaigns committed by
-- others meanwhile, the clocks of the database and of the service, the configured chain, whether
-- there is a publisher, and how the publication ends.
pub record Surroundings : Type 0 where
  pub id : Option Uuid
  pub driver : Driver
  pub others : List Campaign
  pub database_now : Instant
  pub now : Instant
  pub chain_id : ℤ
  pub has_publisher : Bool
  pub publication : Publication

-- The campaign that Create asks for; the fields that Go leaves at their zero values are written out,
-- the nil of an array type is 0.
abbrev pub requested : Uuid → Text → CreateCampaignInput → Campaign
requested id image_object_key input = record {
  id = id;
  fundraiser_id = 0;
  event_id = none;
  title = trim_space input.title;
  short_description = trim_space input.short_description;
  story = trim_space input.story;
  goal_amount = input.goal_amount;
  raised_amount = pos 0;
  donor_count = pos 0;
  contract_address = none;
  created_at = 0;
  end_at = input.end_at - input.end_at % microsecond;
  image_object_key = image_object_key;
  country = trim_space input.country;
  zip_code = trim_space input.zip_code;
  status = pending;
  idempotency_key = trim_space input.idempotency_key;
}

-- The switch over the errors of CreatePending.
abbrev pub create_error : RepositoryError → ServiceError
create_error campaign_fundraiser_not_found = profile_not_found
create_error idempotency_conflict = campaign_idempotency_conflict
create_error end_at_too_soon = campaign_end_at_too_soon
create_error _ = internal

-- The errors of FindByIDForFundraiser.
abbrev pub found_campaign : Result RepositoryError Campaign → Result ServiceError Campaign
found_campaign (ok campaign) = ok campaign
found_campaign (err not_found) = err campaign_not_found
found_campaign (err _) = err internal

module _ (env : Environment) where
  -- publishCampaignDeployment
  unfoldable pub publish :
      Surroundings → Text → Campaign → List Body → Result ServiceError (Unit {0}) × List Body
  unfolding publish_campaign_deployment
  publish around wallet_address campaign queue =
      if not (needs_campaign_deployment campaign)
      then (ok tt, queue)
      else if not (int_lt (pos 0) around.chain_id)
      then (err internal, queue)
      else if not around.has_publisher
      then (err internal, queue)
      else publish_campaign_deployment env.uuid env.rfc3339 around.publication
          (task_of around.chain_id wallet_address campaign) queue

  abbrev pub answered : Campaign → Result ServiceError (Unit {0}) → Result ServiceError Campaign
  answered created (ok u) = ok created
  answered created (err e) = err e

  abbrev pub after_create :
      Surroundings
      → CreateCampaignInput
      → env.client.Bucket
      → List Body
      → Result RepositoryError Campaign × Db
      → Result ServiceError Campaign × World env
  after_create around input bucket queue (err e, db) =
      (err (create_error e), record { db = db; bucket = bucket; queue = queue })
  after_create around input bucket queue (ok created, db) =
      let sent = publish around (trim_space input.wallet_address) created queue in
      (
        answered created sent.0,
        record {
          db = db;
          bucket =
              discard_staging_image env.uuid env.client env.has_promoter
                (some (trim_space input.image_object_key)) bucket;
          queue = sent.1;
        },
      )

  abbrev pub after_promotion :
      Surroundings
      → Uuid
      → CreateCampaignInput
      → World env
      → Result ServiceError Text × env.client.Bucket
      → Result ServiceError Campaign × World env
  after_promotion around id input world (err e, bucket) = (err e, record world { bucket = bucket })
  after_promotion around id input world (ok image_object_key, bucket) =
      after_create around input bucket world.queue (
        create_pending env.sql_lower around.driver around.others around.database_now
          (trim_space input.wallet_address) (requested id image_object_key input)
          (around.now + campaign_deployment_lead_time) world.db)

  abbrev pub create_with_id :
      Surroundings
      → Option Uuid
      → CreateCampaignInput
      → World env
      → Result ServiceError Campaign × World env
  create_with_id around none input world = (err internal, world)
  create_with_id around (some id) input world = after_promotion around id input world (
      promote_image_object_key env.uuid env.client env.has_promoter
        (trim_space input.image_object_key) campaign_image_directory world.bucket)

  -- CampaignService.Create
  unfoldable pub create :
      Surroundings → CreateCampaignInput → World env → Result ServiceError Campaign × World env
  unfolding publish
  create around input world = create_with_id around around.id input world

  -- CampaignService.GetMyCampaignDetail; `works` is the outcome of the query.
  unfoldable pub get_my_campaign_detail :
      Bool → Text → Uuid → World env → Result ServiceError Campaign
  get_my_campaign_detail works wallet_address campaign_id world = found_campaign (
      find_by_id_for_fundraiser env.sql_lower works (trim_space wallet_address) campaign_id
        world.db)
