-- ===== src/Database/Campaigns/Creation.antt =====
-- campaign_postgres.go: CreatePending.
use be_pawfund.Prelude.{◌&&◌, Option, none, some, List, [], ◌∷◌, Result, err, ltb, if◌then◌else◌}
use be_pawfund.Text.{Text, trim_space}
use be_pawfund.Domain.{
  Instant, Campaign, RepositoryError, campaign_fundraiser_not_found, idempotency_conflict,
  end_at_too_soon, failure,
}
use be_pawfund.Database.{
  Db, Driver, begin, lock, find_key, insert, find_key_again, finish, UserRow, fundraiser_account,
}
use be_pawfund.Database.Campaigns.{
  same_campaign_creation_payload, find_campaign_by_idempotency_key, Insertion, rejected, nothing,
  stored, insert_campaign, returned, append_campaigns,
}

-- The row that already has the key is the answer if its payload is the same.
unfoldable pub replay :
    Driver → Option Campaign → Campaign → Db → Result RepositoryError Campaign × Db
unfolding finish
replay driver none campaign db = (err failure, db)
replay driver (some existing) campaign db =
    if same_campaign_creation_payload existing campaign
    then finish driver existing db db
    else (err idempotency_conflict, db)

unfoldable pub after_insert :
    Driver → Campaign → Insertion → Db → Result RepositoryError Campaign × Db
unfolding finish replay
after_insert driver campaign rejected db = (err failure, db)
after_insert driver campaign nothing db =
    if driver.works find_key_again
    then replay driver
        (find_campaign_by_idempotency_key campaign.fundraiser_id campaign.idempotency_key db)
        campaign db
    else (err failure, db)
after_insert driver campaign (stored row) db =
    finish driver (returned campaign row) db (append_campaigns (row ∷ []) db)

-- From the first lookup of the key on. `others` are the campaigns that other transactions commit
-- between that lookup and the insert.
unfoldable pub after_find_key :
    Driver
    → List Campaign
    → Instant
    → Campaign
    → Instant
    → Option Campaign
    → Db
    → Result RepositoryError Campaign × Db
unfolding replay after_insert insert_campaign
after_find_key driver others now campaign minimum_end_at (some existing) db =
    replay driver (some existing) campaign db
after_find_key driver others now campaign minimum_end_at none db =
    if ltb campaign.end_at minimum_end_at
    then (err end_at_too_soon, db)
    else let db' = append_campaigns others db in
      if driver.works insert
      then after_insert driver campaign (insert_campaign now campaign db'.campaigns) db'
      else (err failure, db')

unfoldable pub create_for :
    Driver
    → List Campaign
    → Instant
    → Campaign
    → Instant
    → Option UserRow
    → Db
    → Result RepositoryError Campaign × Db
unfolding after_find_key
create_for driver others now campaign minimum_end_at none db =
    (err campaign_fundraiser_not_found, db)
create_for driver others now campaign minimum_end_at (some u) db =
    let owned = record campaign { fundraiser_id = u.user.id } in
    if driver.works find_key
    then after_find_key driver others now owned minimum_end_at
        (find_campaign_by_idempotency_key u.user.id owned.idempotency_key db) db
    else (err failure, db)

module _ (lower : Text → Text) where
  -- PostgresCampaignRepository.CreatePending
  unfoldable pub create_pending :
      Driver
      → List Campaign
      → Instant
      → Text
      → Campaign
      → Instant
      → Db
      → Result RepositoryError Campaign × Db
  unfolding create_for
  create_pending driver others now wallet_address campaign minimum_end_at db =
      if driver.works begin && driver.works lock
      then create_for driver others now campaign minimum_end_at
          (fundraiser_account lower (trim_space wallet_address) db) db
      else (err failure, db)
