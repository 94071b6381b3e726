-- ===== src/Service/Campaigns/Retry.antt =====
-- A campaign whose task could not be published, and the client's retry.
use be_pawfund.Prelude.{
  ◌+◌, ◌≡◌, ◌≢◌, refl, sym, ap, ◌∙◌, true, false, Option, none, some, [], ◌∷◌, ◌++◌, arith, Result,
  ok, err, if◌then◌else◌, inl, inr,
}
use be_pawfund.Prelude.Int.{pos, int_lt}
use be_pawfund.Text.{Text, trim_space, is_empty}
use be_pawfund.Domain.{Uuid, Campaign, ServiceError, RepositoryError}
use be_pawfund.Database.{Db, Call}
use be_pawfund.Database.Campaigns.{same_campaign_creation_payload}
use be_pawfund.Database.Campaigns.Creation.{create_pending}
use be_pawfund.Database.Campaigns.Idempotency.{create_pending-retry}
use be_pawfund.Database.Campaigns.Payload.{same_payload_refl}
use be_pawfund.Storage.{broken, discard}
use be_pawfund.ObjectKey.{
  campaign_image_directory, promote_image_object_key, discard_staging_image,
  canonical_image_object_key,
}
use be_pawfund.ObjectKey.Promoted.{promoted_parts, promote_image-holds, promote_image-again}
use be_pawfund.Deployment.{
  published, task_of, needs_campaign_deployment, campaign_deployment_body,
  publish_campaign_deployment,
}
use be_pawfund.Service.{Environment, World}
use be_pawfund.Service.Campaigns.{
  CreateCampaignInput, Surroundings, requested, campaign_deployment_lead_time, create, publish,
  after_create, after_promotion, create_with_id,
}

module _ (env : Environment) (first : Surroundings) (input : CreateCampaignInput)
    (world : World env) where
  -- The two steps of Create before the publication.
  record Stored (created : Campaign) : Type 0 where
    id : Uuid
    key : Text
    bucket : env.client.Bucket
    db : Db
    promotion :
        promote_image_object_key env.uuid env.client env.has_promoter
          (trim_space input.image_object_key)
          campaign_image_directory
          world.bucket
        ≡ (ok key, bucket)
    creation :
        create_pending env.sql_lower first.driver first.others first.database_now
          (trim_space input.wallet_address)
          (requested id key input)
          (first.now + campaign_deployment_lead_time)
          world.db
        ≡ (ok created, db)
    left : (create env first input world).1 ≡ record {
      db = db;
      bucket =
          discard_staging_image env.uuid env.client env.has_promoter
            (some (trim_space input.image_object_key))
            bucket;
      queue = (publish env first (trim_space input.wallet_address) created world.queue).1;
    }

  would_publish : Surroundings
  would_publish = record first { publication = published }

  after_promotion-Stored :
      (created : Campaign) (id : Uuid) (p : Result ServiceError Text × env.client.Bucket)
      → first.id ≡ some id
      → promote_image_object_key env.uuid env.client env.has_promoter
          (trim_space input.image_object_key)
          campaign_image_directory
          world.bucket
        ≡ p
      → (after_promotion env would_publish id input world p).0 ≡ ok created
      → Stored created
  unfolding would_publish create publish
  after_promotion-Stored created id (err e, b) drawn g h = ground arith
  after_promotion-Stored created id (ok key, b) drawn g h =
      by_creation
        (create_pending env.sql_lower first.driver first.others first.database_now
          (trim_space input.wallet_address) (requested id key input)
          (first.now + campaign_deployment_lead_time) world.db)
        refl h
    where
      by_creation :
          (c : Result RepositoryError Campaign × Db)
          → create_pending env.sql_lower first.driver first.others first.database_now
              (trim_space input.wallet_address)
              (requested id key input)
              (first.now + campaign_deployment_lead_time)
              world.db
            ≡ c
          → (after_create env would_publish input b world.queue c).0 ≡ ok created
          → Stored created
      by_creation (err e, db) k h = ground arith
      by_creation (ok c, db) k h =
          let same : c ≡ created = ground arith in
          record {
            id = id;
            key = key;
            bucket = b;
            db = db;
            promotion = g;
            creation = k ∙ ap (λ (x : Campaign). (ok x, db)) same;
            left = rw (drawn, g, k, same) refl;
          }

  create-Stored :
      (created : Campaign)
      → (create env (record first { publication = published }) input world).0 ≡ ok created
      → Stored created
  unfolding create would_publish
  create-Stored created h = by_id first.id refl h
    where
      by_id :
          (id : Option Uuid)
          → first.id ≡ id
          → (create_with_id env would_publish id input world).0 ≡ ok created
          → Stored created
      by_id none drawn h = ground arith
      by_id (some id) drawn h =
          after_promotion-Stored created id
            (promote_image_object_key env.uuid env.client env.has_promoter
              (trim_space input.image_object_key) campaign_image_directory world.bucket)
            drawn refl h

  -- The same payload under another id and the same key of the image.
  same_request :
      (id id' : Uuid) (key : Text)
      → same_campaign_creation_payload (requested id key input) (requested id' key input) ≡ true
  unfolding same_campaign_creation_payload
  same_request id id' key =
      unfold same_campaign_creation_payload in same_payload_refl (requested id key input)

  -- A retry of the creation finds the committed image and the stored campaign.
  module _ (later : Surroundings) (created : Campaign) (promotes : env.has_promoter ≡ true)
      (drawn : (id : Uuid) × (later.id ≡ some id))
      (works : (call : Call) → later.driver.works call ≡ true)
      (reachable : (k : Text)
        → env.client.stat_object (create env first input world).1.bucket k ≢ broken) where
    again_promoted :
        (s : Stored created)
        → promote_image_object_key env.uuid env.client env.has_promoter
            (trim_space input.image_object_key)
            campaign_image_directory
            (create env first input world).1.bucket
          ≡ (ok s.key, (create env first input world).1.bucket)
    unfolding discard_staging_image
    again_promoted s =
        let staged = trim_space input.image_object_key in
        let b' = (create env first input world).1.bucket in
        let promotion : promote_image_object_key env.uuid env.client true staged
              campaign_image_directory world.bucket
            ≡ (ok s.key, s.bucket) =
          ap
            (λ t.
              promote_image_object_key env.uuid env.client t staged campaign_image_directory
                world.bucket)
            (sym promotes)
          ∙ s.promotion in
        let made =
          (promoted_parts env.uuid staged campaign_image_directory s.key env.client world.bucket
            s.bucket promotion).0 in
        let held =
          promote_image-holds env.uuid staged campaign_image_directory s.key env.client world.bucket
            s.bucket (inr (inl refl)) promotion in
        let is_left : b'
            ≡ discard_staging_image env.uuid env.client env.has_promoter (some staged) s.bucket =
          ap (λ (w : World env). w.bucket) s.left in
        let full : is_empty (trim_space staged) ≡ false =
          unfold canonical_image_object_key in ground (arith, made) in
        let is_discard : b' ≡ discard env.client (trim_space staged) s.bucket =
          is_left ∙ rw (promotes, full) refl in
        let there : env.client.holds b' s.key ≡ true =
          ap (λ b. env.client.holds b s.key) is_discard ∙ held in
        rw promotes (
          promote_image-again env.uuid staged campaign_image_directory s.key env.client b'
            (inr (inl refl)) made there (reachable s.key))

    again_created :
        (s : Stored created) (id : Uuid)
        → create_pending env.sql_lower later.driver later.others later.database_now
            (trim_space input.wallet_address)
            (requested id s.key input)
            (later.now + campaign_deployment_lead_time)
            s.db
          ≡ (ok created, s.db)
    again_created s id =
        create_pending-retry env.sql_lower (trim_space input.wallet_address) first.driver
          later.driver first.others later.others first.database_now later.database_now
          (requested s.id s.key input) (requested id s.key input)
          (first.now + campaign_deployment_lead_time) (later.now + campaign_deployment_lead_time)
          created world.db s.db refl refl (omega arith) refl works s.creation
        ∙ rw (same_request s.id id s.key) refl

    again : Stored created → Result ServiceError Campaign × World env
    again s =
        after_create env later input (create env first input world).1.bucket
          (create env first input world).1.queue (ok created, s.db)

    again_is :
        (s : Stored created) → create env later input (create env first input world).1 ≡ again s
    unfolding again create
    again_is s =
        let (id, drawn) = drawn in
        let same_db : (create env first input world).1.db ≡ s.db =
          ap (λ (w : World env). w.db) s.left in
        rw (drawn, again_promoted s, same_db, again_created s id) refl

    -- Create is retryable after a failed publication. Take a call that answers with a campaign when its
    -- publication works. However its publication ends, a retry of the same input, with a promoter, any
    -- new id, database calls that work, a store whose lookups do not fail, a positive chain and a
    -- publication that works, answers with the same campaign, changes no row, and enqueues the task of
    -- the campaign if it needs a deployment. The staged image may be gone, and the end may be near.
    pub create-retry :
        (create env (record first { publication = published }) input world).0 ≡ ok created
        → int_lt (pos 0) later.chain_id ≡ true
        → later.has_publisher ≡ true
        → later.publication ≡ published
        → let left = (create env first input world).1 in
          let retried = create env later input left in
          (retried.0 ≡ ok created)
          × (retried.1.db ≡ left.db)
          × (retried.1.queue ≡ (
              if needs_campaign_deployment created
              then left.queue
                ++ campaign_deployment_body env.uuid env.rfc3339
                    (task_of later.chain_id (trim_space input.wallet_address) created)
                  ∷ []
              else left.queue))
    unfolding again publish publish_campaign_deployment
    create-retry h chain publisher publication =
        let s = create-Stored created h in
        let same_db : s.db ≡ (create env first input world).1.db =
          sym (ap (λ (w : World env). w.db) s.left) in
        rw (again_is s) (rw (chain, publisher, publication) (ground arith))
