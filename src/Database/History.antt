-- ===== src/Database/History.antt =====
-- The methods of the repositories as the steps of the tables. A method's transaction is one step; its
-- driver calls may fail anywhere, and the outcome of a lost commit may be either.
use be_pawfund.Prelude.{[], append-nil}
use be_pawfund.Text.{Text}
use be_pawfund.Domain.{
  Uuid, Instant, Fundraiser, FundraiserProfileReplacement, Supporter, SupporterProfileReplacement,
  Campaign, BlockchainEvent,
}
use be_pawfund.Database.{Db, Driver}
use be_pawfund.Database.Fundraisers.{create_fundraiser, replace_fundraiser, delete_fundraiser}
use be_pawfund.Database.Supporters.{create_supporter, replace_supporter, delete_supporter}
use be_pawfund.Database.Campaigns.{append_campaigns}
use be_pawfund.Database.Campaigns.Creation.{create_pending}
use be_pawfund.Database.Campaigns.Completion.{complete_deployment}
use be_pawfund.Database.Consistency.{IsConsistent}
use be_pawfund.Database.Consistency.Creating.{create_pending-IsConsistent}
use be_pawfund.Database.Consistency.Completing.{complete_deployment-IsConsistent}
use be_pawfund.Database.Consistency.Profiles.Supporters.{
  create_supporter-IsConsistent, replace_supporter-IsConsistent, delete_supporter-IsConsistent,
}
use be_pawfund.Database.Consistency.Profiles.Fundraisers.{
  create_fundraiser-IsConsistent, replace_fundraiser-IsConsistent, delete_fundraiser-IsConsistent,
}

-- The tables after the migrations.
abbrev pub empty_db : Db
empty_db = record {
  users = [];
  fundraisers = [];
  supporters = [];
  campaigns = [];
  blockchain_events = [];
}

-- The calls of the repositories that write.
pub data Method : Type 0 where
  creates_fundraiser : Instant → Fundraiser → Method
  replaces_fundraiser : Text → FundraiserProfileReplacement → Method
  deletes_fundraiser : Instant → Text → Method
  creates_supporter : Instant → Supporter → Method
  replaces_supporter : Text → SupporterProfileReplacement → Method
  deletes_supporter : Instant → Text → Method
  creates_campaign : Instant → Text → Campaign → Instant → Method
  completes_deployment : Uuid → BlockchainEvent → Text → Method

-- The tables after a call.
unfoldable pub after_method : (Text → Text) → Driver → Method → Db → Db
after_method lower driver (creates_fundraiser now f) db = (create_fundraiser driver now f db).1
after_method lower driver (replaces_fundraiser wallet_address profile) db =
    (replace_fundraiser lower driver wallet_address profile db).1
after_method lower driver (deletes_fundraiser now wallet_address) db =
    (delete_fundraiser lower driver now wallet_address db).1
after_method lower driver (creates_supporter now s) db = (create_supporter driver now s db).1
after_method lower driver (replaces_supporter wallet_address profile) db =
    (replace_supporter lower driver wallet_address profile db).1
after_method lower driver (deletes_supporter now wallet_address) db =
    (delete_supporter lower driver now wallet_address db).1
after_method lower driver (creates_campaign now wallet_address campaign minimum_end_at) db =
    (create_pending lower driver [] now wallet_address campaign minimum_end_at db).1
after_method lower driver (completes_deployment id event contract_address) db =
    (complete_deployment driver id event contract_address db).1

-- The tables that some sequence of calls leaves.
pub data Reached (lower : Text → Text) : Db → Type 0 where
  migrated : Reached lower empty_db
  called :
      {db : Db} (driver : Driver) (m : Method)
      → Reached lower db
      → Reached lower (after_method lower driver m db)

append_none : (db : Db) → IsConsistent db → IsConsistent (append_campaigns [] db)
append_none db h = rw (append-nil db.campaigns) h

after_method-IsConsistent :
    (lower : Text → Text) (driver : Driver) (m : Method) (db : Db)
    → IsConsistent db
    → IsConsistent (after_method lower driver m db)
unfolding after_method
after_method-IsConsistent lower driver (creates_fundraiser now f) db h =
    create_fundraiser-IsConsistent driver db h now f
after_method-IsConsistent lower driver (replaces_fundraiser wallet_address profile) db h =
    replace_fundraiser-IsConsistent driver db h lower wallet_address profile
after_method-IsConsistent lower driver (deletes_fundraiser now wallet_address) db h =
    delete_fundraiser-IsConsistent driver db h lower wallet_address now
after_method-IsConsistent lower driver (creates_supporter now s) db h =
    create_supporter-IsConsistent driver db h now s
after_method-IsConsistent lower driver (replaces_supporter wallet_address profile) db h =
    replace_supporter-IsConsistent driver db h lower wallet_address profile
after_method-IsConsistent lower driver (deletes_supporter now wallet_address) db h =
    delete_supporter-IsConsistent driver db h lower wallet_address now
after_method-IsConsistent lower driver (creates_campaign now wallet_address campaign minimum) db h =
    create_pending-IsConsistent lower driver [] now wallet_address campaign minimum db h
      (append_none db h)
after_method-IsConsistent lower driver (completes_deployment id event contract_address) db h =
    complete_deployment-IsConsistent driver id event contract_address db h

empty-IsConsistent : IsConsistent empty_db
empty-IsConsistent = record {
  users_unique = tt;
  campaigns_unique = tt;
  keys_unique = tt;
  owners_live = tt;
  chain_data = tt;
}

module _ (lower : Text → Text) where
  -- Every sequence of calls, with failures at any driver call and lost commits, leaves consistent
  -- tables: ids and the (fundraiser, idempotency key) pairs of campaigns are unique, every pending or
  -- active campaign belongs to a live fundraiser, and every active, completed or cancelled one has
  -- its event and its contract address.
  pub Reached-IsConsistent : (db : Db) → Reached lower db → IsConsistent db
  Reached-IsConsistent db migrated = empty-IsConsistent
  Reached-IsConsistent db (called driver m r) =
      after_method-IsConsistent lower driver m _ (Reached-IsConsistent _ r)
