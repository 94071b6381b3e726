-- ===== src/Lib.antt =====
-- Verification of the PawFund backend (internal/, migrations/): a crowdfunding service in Go with an
-- API process (cmd/api) and a deployer process (cmd/deployer), which share PostgreSQL, an object store
-- for images and a RabbitMQ queue.
--
-- The parts and their modules
--   Domain                    internal/domain, the errors of internal/service and internal/repository
--   Database                  migrations/*.sql and internal/infra/database: the tables as lists of rows;
--                             one function per repository method, from the tables to an answer and the
--                             tables left. Campaigns: campaign_postgres.go (CreatePending in Creation,
--                             CompleteDeployment in Completion, the lookups by id). Users, Fundraisers
--                             and Supporters: fundraiser_postgres.go and supporter_postgres.go.
--                             Consistency states the invariant of the tables; its children and History
--                             carry it through the methods. Campaigns/Idempotency and Campaigns/Deployed
--                             are about repeated calls, Images about the images that profiles release.
--                             Listings has the lists of campaigns with their order and pages, Donors the
--                             grouped list of a campaign's donors, Donations that of a supporter's
--                             donations.
--   Storage                   internal/infra/storage: object_promoter.go and object_deleter.go
--   ObjectKey                 internal/service/object_key.go
--   Deployment                the deployment task of internal/service/campaign.go, its message and
--                             publication of internal/app/campaign_deployment.go; Worker has
--                             internal/service/campaign_deployment_worker.go and the handleDelivery of
--                             internal/app/deployer.go
--   Service                   the services of internal/service: Campaigns (campaign.go), Uploads
--                             (upload.go), Profiles, Supporters (supporter.go), Fundraisers
--                             (fundraiser.go), over one state of tables, bucket and queue. Staging is
--                             about the images after an error, Campaigns/Retry about repeated creation.
--                             Listings has the lists of campaign.go, Donations the lists of donors and
--                             donations.
--   Cache                     internal/infra/cache/cache.go
--   Auth                      internal/auth and internal/service/auth.go (Messages) with
--                             internal/infra/database/auth_postgres.go (Profiles). Tokens, Once and SignIn
--                             are about tokens, repeated and successful sign-ins; Store about what the
--                             two steps of a sign-in leave in the store.
--   Http                      internal/http: list options (Options, Sorting), answers (Responses,
--                             Pagination), bodies and their validation (Requests), middleware
--                             (Middleware) and the handlers (Handlers). Admission is about the requests
--                             that reach the service, Sessions about tokens in headers.
--   Queue                     internal/infra/queue: topology.go, consumer.go and publisher.go; Client has
--                             the goroutines of client.go as a step relation
--   Prelude, Text             shared helpers; strings as lists of code points with what the code calls of
--                             package strings
--   Tests                     instances of the interfaces, test data, and runs
--
-- How the code is read
--   A service creates a campaign in this order: it promotes the staged image (tmp/campaigns/…) to its
--   committed key, stores a pending row under the fundraiser's idempotency key, discards the staged
--   image, and publishes a task. The deployer process decodes the task, compares it with the row, calls
--   the chain, and stores the event with the address. Profiles are promoted and discarded in the same
--   way; an image that no profile refers to any more is deleted after the transaction.
--   A repository method is one transaction: its driver calls (Driver) may each fail, which rolls back,
--   and a failed commit may have taken effect. CreatePending also takes the campaigns that others commit
--   between its lookup and its insert. Context cancellation is one of these failures, and a flag of the
--   worker. Log lines are left out.
--   Instants are nanoseconds since Go's zero time (a row keeps whole microseconds), integers keep
--   Go's signs, UUIDs are numbers with uuid.Nil as 0. All functions are structurally recursive on
--   lists; no fuel is used.
--   A handler is a function of the principal in its context, its headers and its body as the JSON
--   decoder leaves it; an answer has no texts for people. The principal is what Authenticate puts there.
--   The client of the broker is a relation between states: a step is what one goroutine, the network or
--   the clock does between two points where another can interfere.
--
-- Interfaces for code outside the repository, with documented laws: UuidPackage (google/uuid),
-- ObjectClient (the MinIO client), Rfc3339 (the layout of package time), Redis (go-redis), SiwePackage
-- (siwe-go and go-ethereum), TokenPackage (golang-jwt), Sql (LOWER, ILIKE, numeric quotients and
-- RANDOM), the collation of addresses, Unicode's case mapping past ASCII, url.PathEscape and
-- url.ParseRequestURI, the presigner, and the answer of the chain. The donations, which this
-- repository only reads, are a table beside the others. Tests/Instances and Tests/Packages have
-- instances. Of the AMQP library the client's steps use that NotifyClose closes its channel at once
-- on a closed connection.
--
-- Not modelled: configuration and start-up, routing, the session loop of the consumer, the
-- factory contract calls. JSON is taken after parsing.
pub mod Prelude
pub mod Text
pub mod Domain
pub mod Storage
pub mod ObjectKey
pub mod Database
pub mod Deployment
pub mod Service
pub mod Http
pub mod Tests
pub mod Cache
pub mod Auth
pub mod Queue
