-- ===== src/Service.antt =====
-- internal/service: the application services, over the tables, the bucket and the broker's queue.
pub mod Campaigns
pub mod Uploads
pub mod Profiles
pub mod Supporters
pub mod Fundraisers
pub mod Staging
pub mod Listings
pub mod Donations
use be_pawfund.Prelude.{ℕ, Bool, List}
use be_pawfund.Text.{Text}
use be_pawfund.Storage.{ObjectClient}
use be_pawfund.ObjectKey.{UuidPackage}
use be_pawfund.Database.{Db}
use be_pawfund.Deployment.{Body, Rfc3339}

-- What the services are built on: SQL's LOWER, the case mapping of Unicode past ASCII, the packages
-- for UUIDs and times, the object store, and whether NewSupporterService and its siblings got a
-- promoter and a deleter (`!= nil`).
pub record Environment : Type 1 where
  pub sql_lower : Text → Text
  pub unicode_lower : ℕ → ℕ
  pub uuid : UuidPackage
  pub rfc3339 : Rfc3339
  pub client : ObjectClient
  pub has_promoter : Bool
  pub has_deleter : Bool

-- The state that the services share.
pub record World (env : Environment) : Type 0 where
  pub db : Db
  pub bucket : env.client.Bucket
  pub queue : List Body
