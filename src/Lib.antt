-- ===== src/Lib.antt =====
-- Verification library for cafe-discovery, the service that signs users in, accepts scan requests for
-- wallets and TLS endpoints, charges them to a quota ledger, hands them to scanners over JetStream,
-- forwards the scanners' lifecycle events to cafe-persistence, and serves and deletes the results.
--
-- The parts, the files that model them, and the code they stand for:
--   Scan        pkg/scan/state.go, pkg/scan/kinds.go: status names and the transition rule. The lifecycle
--               as a step relation is in Scan/Transitions.
--   Ledger      internal/repository/scan_usage_ledger_repository.go over the tables of
--               internal/domain/scan_usage_event.go, scan_result.go and tls_scan_result.go. Ledger/Tables
--               has the rows, Ledger/Queries the counts (CountSuccessUsage, loadScanQuotaSnapshot, ...),
--               Ledger/Reserve the writes (ReserveScanUsage, ReleaseSuccessUsageByScanID, ...);
--               Ledger/Snapshot, Quota, Effects and Handover hold the proofs.
--   Plan        internal/service/plan.go with internal/domain/plan.go: limits, usages and
--               ReservePostScanQuota, which calls the ledger. Plan/Store has
--               internal/repository/plan_repository.go and internal/handler/plan.go, Plan/Migrations
--               internal/app/migrations.go with its helpers in container.go.
--   Address     internal/address/address.go.
--   Lifecycle   internal/service/wallet_command.go (an event becomes a command) and, in
--               Lifecycle/Settle, internal/service/wallet_lifecycle.go (a delivery is settled).
--   Abandon     internal/service/scan_request_abandon.go: the state of the abandoner and Due, and in
--               Abandon/Publish the publication of the missing commands by rounds.
--   Authz       internal/authz/scan_authz.go, internal/service/scan_authz.go, internal/handler/scan_authz.go
--               and internal/middleware/internal_service_auth.go: the internal read authorization.
--   Accept      internal/handler/discovery.go: POST /discovery/v1/scan, which uses Address, Plan and the
--               pending store, publishes to the work queue, and rolls back. A publication may be stored
--               although its acknowledgement does not come, here and in Abandon
--               The types and checks are in Accept, the handler in Accept/Post.
--   Presence    internal/service/scanner_presence.go: the living scanners, HasScanner, OnchainIndexer and
--               ListScanners, with the heartbeats in Presence/Heartbeat and the subscriptions of a
--               start and of Close in Presence/Subscriptions. Accept takes the answers of HasScanner as an argument.
--   Auth        internal/service/auth.go: the hybrid tokens (mintHybridJWT, verifyHybridJWT, ...). The
--               accounts (Signup, Signin and the handlers of internal/handler/auth.go over
--               internal/repository/user_repository.go) are in Auth/Accounts, and
--               internal/middleware/jwt.go, with Accept's handler behind it, in Auth/Gate.
--   Chains      internal/config/chain.go and the chain ids of a scan (chainIDsForNetworks).
--   Scans       internal/handler/discovery_v1_scans.go, discovery_v1_cbom.go, scan_read_errors.go and
--               helpers.go: Scans/Read has the details and CBOMs, Scans/Query the lists and their
--               pagination, Scans/Delete the deletions. They use Address, Chains and the two stores.
--   Client      internal/persistence/scanhttp (client.go, client_pending.go, client_transition.go): the
--               HTTP client behind those stores, with its retries. Client/Wire has the rows of
--               internal/persistence/scanread/wire.go and scanpending/wire.go and their conversion,
--               Client/Policies the client of internal/persistence/cphttp.
--   Results     internal/repository/base_repository.go (a table with soft deletion), and over it
--               scan_result_repository.go in Results/Wallets and tls_scan_result_repository.go in
--               Results/Tls. Results/Adapter makes a store of Scans from it, as
--               internal/handler/scan_read_testsupport.go does.
--   Observation internal/walletobservation/export.go (Observation/Export), the wallet kinds and results
--               of internal/domain, internal/cbom and the bodies of
--               internal/handler/discovery_v1_scan_result.go.
--   Cache       internal/repository/redis_tls_scan_repository.go, in Cache/Warm
--               internal/service/user_scan_cache.go, and in Cache/Startup internal/service/startup.go
--               and default_endpoints.go.
--   Wallets     internal/service/cafe_wallet.go over internal/repository/cafe_wallet_repository.go, with
--               internal/handler/cafe_wallet.go in Wallets/Handlers: the wallets that a user saves.
--   Base        shared helpers: Boolean tests, lists, association lists, signed numbers, texts, results.
--
-- How the code is read. A table is a list of rows and a query a filter, a count or a first match; rows
-- that are soft-deleted are left out where GORM leaves them out. A transaction returns the new tables or
-- an error and no tables; `Faults` says which statements of a call the database refuses. The
-- reservations of one user and kind are serialised by an advisory lock, so a history is a sequence of
-- whole calls, between which cafe-persistence may change the result tables; the insert of
-- RecordSuccessUsageIfUnderLimitInTx, which takes no lock, may have counted in other tables. A
-- publication is stored, stored without its acknowledgement, which is an error too, or not stored. Identifiers, instants and
-- counts are natural numbers, uuid.Nil and the zero time are 0, plan limits are integers of either sign
-- without overflow (they are stored 32-bit columns compared as int64). A text that is inspected is a
-- list of code points; TrimSpace, ToLower, ToUpper and EqualFold are the ASCII ones, with Unicode spaces.
-- A Go map is an association list, a function into Option or a list, since no result depends on the
-- order of iteration. The loop over delivery attempts and that over the attempts of a request run on
-- the two attempts the source allows, the other loops on lists. A 401 that is written without stopping
-- a handler keeps its status under a later body, so the handlers compute the status that is left.
--
-- Taken as parameters, because the code is not in the repository: the decoders and subjects of
-- cafe-contracts and uuid.Parse (`Contracts`, `parse_uuid`), the stores behind cafe-persistence
-- (`PendingStore`, `ScanStore`) and, for the client, the service and the network (`Server`), the policy
-- check, url.Parse, JSON encoding, base64 and time.Parse (`Codec`, `Decoders`, `Parsers`), bcrypt, the
-- two signature schemes and the answer of Turnstile (`Services`, `Keys`), JetStream metadata, the answers
-- of ApplyWalletTransition in Lifecycle, rand.Read, uuid.New and time.Now. The lookups of users and
-- plans and the two queries of the POST handler on scan_results are parameters as well. What is assumed
-- of a parameter is a record of laws (`IsCodec`, `IsSigner`, `IsScanStore`, `IsServer`), and the tests
-- of each part give a concrete one. Redis is its key space (`SET`, `GET`, `DEL`, `KEYS`), with the
-- commands it refuses; a poll or a wait is the list of what it observes until its timeout.
--
-- Not modelled: the goroutine of Presence that runs the expiry, NATS, Postgres and Redis connections,
-- metrics, configuration but the chains, the container but its two helpers of the migrations, and the
-- OpenSSL binding, which are I/O, bindings or wiring. Log lines, metrics and the wording of messages are
-- left out of the modelled handlers.
pub mod Base
pub mod Scan
pub mod Ledger
pub mod Plan
pub mod Address
pub mod Lifecycle
pub mod Abandon
pub mod Authz
pub mod Accept
pub mod Presence
pub mod Results
pub mod Auth
pub mod Chains
pub mod Scans
pub mod Client
pub mod Wallets
pub mod Observation
pub mod Cache
