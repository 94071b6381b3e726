-- ===== src/Tests/Service.antt =====
-- Runs of the services.
use be_pawfund.Prelude.{◌≡◌, refl, true, some, [], ◌∷◌, ◌++◌, ◌+◌, ◌*◌, ok, if◌then◌else◌}
use be_pawfund.Prelude.Int.{pos}
use be_pawfund.Text.{
  codes, text_eq, trim_space, trim_left, trim_right, is_space, has_prefix, drop_prefix, trim_prefix,
  has_suffix, trim_suffix, contains,
}
use be_pawfund.Domain.{minute}
use be_pawfund.Database.{finish, is_account, fundraiser_account, fundraiser_of}
use be_pawfund.Database.Campaigns.{find_campaign_by_idempotency_key, new_row, insert_campaign}
use be_pawfund.Database.Campaigns.Creation.{
  replay, after_insert, after_find_key, create_for, create_pending,
}
use be_pawfund.Storage.{promote, discard}
use be_pawfund.ObjectKey.{
  extension_from_name, profile_image_extension_from_name, canonical_rest,
  canonical_image_object_key, promote_image_object_key, discard_staging_image,
}
use be_pawfund.Deployment.{
  published, rejected, task_of, needs_campaign_deployment, campaign_deployment_body,
  publish_campaign_deployment,
}
use be_pawfund.Service.{World}
use be_pawfund.Service.Campaigns.{CreateCampaignInput, Surroundings, create, publish}
use be_pawfund.Service.Campaigns.Retry.{create-retry}
use be_pawfund.Tests.Data.{working, wallet, noon, row, db_of}
use be_pawfund.Tests.Instances.{environment, stat_never_broken}

abbrev input : CreateCampaignInput
input = record {
  wallet_address = wallet;
  idempotency_key = codes "k";
  title = codes " T";
  short_description = codes "S";
  story = codes "Y";
  goal_amount = pos 5;
  end_at = noon + 10 * minute + 1;
  image_object_key = codes "tmp/campaigns/a.jpg";
  country = codes "ID";
  zip_code = codes "9";
}

abbrev world : World environment
world = record { db = db_of []; bucket = codes "tmp/campaigns/a.jpg" ∷ []; queue = [] }

-- The broker cannot be reached.
abbrev unreachable : Surroundings
unreachable = record {
  id = some 2;
  driver = working;
  others = [];
  database_now = noon;
  now = noon;
  chain_id = pos 84;
  has_publisher = true;
  publication = rejected;
}

abbrev later : Surroundings
later = record unreachable { id = some 3; now = noon + 20 * minute; publication = published }

goes_through :
    (create environment (record unreachable { publication = published }) input world).0 ≡ ok row
unfolding create publish publish_campaign_deployment discard_staging_image discard
    promote_image_object_key promote canonical_image_object_key canonical_rest
    profile_image_extension_from_name extension_from_name text_eq trim_space trim_left trim_right
    is_space has_prefix drop_prefix trim_prefix has_suffix trim_suffix contains create_pending
    create_for after_find_key after_insert replay insert_campaign new_row finish
    find_campaign_by_idempotency_key fundraiser_account fundraiser_of is_account
goes_through = refl

create-retry_example :
    let left = (create environment unreachable input world).1 in
    let retried = create environment later input left in
    (retried.0 ≡ ok row)
    × (retried.1.db ≡ left.db)
    × (retried.1.queue ≡ (
        if needs_campaign_deployment row
        then left.queue
          ++ campaign_deployment_body environment.uuid environment.rfc3339
              (task_of later.chain_id (trim_space input.wallet_address) row)
            ∷ []
        else left.queue))
create-retry_example =
    create-retry environment unreachable input world later row refl (3, refl) (λ call. refl)
      (stat_never_broken (create environment unreachable input world).1.bucket) goes_through refl
      refl refl
