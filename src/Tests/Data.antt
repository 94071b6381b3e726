-- ===== src/Tests/Data.antt =====
-- Test data: a fundraiser, its campaign, and a connection that works.
use be_pawfund.Prelude.{true, none, some, List, [], ◌∷◌, ◌+◌, ◌*◌}
use be_pawfund.Prelude.Int.{pos}
use be_pawfund.Text.{Text, codes}
use be_pawfund.Domain.{
  Instant, Fundraiser, Campaign, pending, BlockchainEvent, event_campaign_created, role_fundraiser,
  minute, second,
}
use be_pawfund.Database.{Db, Driver}
use be_pawfund.Database.Fundraisers.{fundraiser_row}
use be_pawfund.Database.History.{empty_db}

abbrev pub working : Driver
working = record { works = λ call. true; applied = true }

abbrev pub wallet : Text
wallet = codes "0xA"

abbrev pub noon : Instant
noon = 1000 * second

abbrev pub fundraiser : Fundraiser
fundraiser = record {
  user = record {
    id = 1;
    role = role_fundraiser;
    email = codes "a@b";
    wallet_address = wallet;
    created_at = noon;
  };
  name = codes "F";
  image_object_key = none;
  contact_name = codes "C";
  contact_phone = codes "1";
  social_url = some (codes "u");
  country = codes "ID";
  zip_code = codes "9";
}

-- What a client asks for.
abbrev pub asked : Campaign
asked = record {
  id = 2;
  fundraiser_id = 0;
  event_id = none;
  title = codes "T";
  short_description = codes "S";
  story = codes "Y";
  goal_amount = pos 5;
  raised_amount = pos 0;
  donor_count = pos 0;
  contract_address = none;
  created_at = 0;
  end_at = noon + 10 * minute;
  image_object_key = codes "campaigns/a.jpg";
  country = codes "ID";
  zip_code = codes "9";
  status = pending;
  idempotency_key = codes "k";
}

-- The row that it becomes.
abbrev pub row : Campaign
row = record asked { fundraiser_id = 1; created_at = noon }

abbrev pub db_of : List Campaign → Db
db_of campaigns = record empty_db {
  users = record { user = fundraiser.user; deleted_at = none } ∷ [];
  fundraisers = fundraiser_row fundraiser ∷ [];
  campaigns = campaigns;
}

abbrev pub event : BlockchainEvent
event = record {
  id = 7;
  tx_hash = codes "0xT";
  log_index = pos 0;
  event_type = event_campaign_created;
  block_number = pos 1;
  created_at = noon;
}

abbrev pub address : Text
address = codes "0xC"
