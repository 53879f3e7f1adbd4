-- ===== src/Lib.antt =====
-- Skillplane keeps skills in workspaces, lets people and agents propose amendments to them, and
-- publishes them from regional databases to a global control plane. These modules model the parts of
-- the TypeScript packages that decide who may do what, and that keep shared tables consistent. A
-- table is a list of rows or a function from keys; a handler that runs in a transaction is a function
-- from the old state to the new one or to the error that rolls it back; a sequence of requests is a
-- list, and the model runs the requests of one table one after the other. That is an assumption: a
-- rotation of a refresh token locks that token only, so that one which commits while the family of
-- another token is revoked is outside the model.
--
-- Common holds what the modules share: results of code that throws, values of type unknown (Json),
-- texts with their UTF-16 length and order, sorted sets, the errors of packages/domain/src/errors.ts.
--
-- Access: packages/domain/src/principal.ts. Access.Authorization is authorization.ts beside it
-- (canPerform, authorize). Access.Membership is memberships.ts beside it, membershipRole and
-- lockWorkspaceMemberships of packages/api/src/tenancy.ts, and the three handlers of
-- packages/api/src/routes/workspaces.ts that change or remove memberships.
--
-- Access.Invitations: packages/domain/src/invitations.ts, with the handlers of
-- packages/api/src/routes/invitations.ts that create an invitation (Creations) and that revoke or accept
-- it (Answers). Workspaces runs them beside the handlers for members. The hashes, toLowerCase and the
-- tables of users and workspaces are fields of Services.
--
-- Policy: packages/domain/src/amendment-policy.ts. Policy.Parse is parseAmendmentPolicy, which takes
-- any JSON value; Policy.Evaluate is evaluateAmendmentPolicy, which decides whether a proposal is
-- published without review. Both read the scopes and principals of Access. String(index) is computed
-- on fuel: n + 1 steps, more than n has digits.
--
-- ControlPlane.Placement: createPostgresWorkspacePlacementDirectory of
-- packages/control-plane/src/placement.ts. ControlPlane.Stats: applyPublicStatsProjectionCheckpoint
-- and cleanupPublicStatsProjectionEvents of packages/control-plane/src/projection-outbox.ts. Which of
-- the expired rows a cleanup takes, by its limit and the locks it skips, is an argument. The check of
-- the counters is that of packages/db/src/schema/domain.ts.
--
-- ControlPlane.Objects: the bundle keys, the immutable object store and publishGlobalProjection of
-- packages/control-plane/src/publication.ts. ControlPlane.Resources: resource-directory.ts beside it.
-- ControlPlane.Regional: applyRegionalPublicProjection of projection-outbox.ts beside it, which changes
-- the tables of the modules above, with the schemas of its payloads in Regional.Payloads. The digest of
-- the platform, its dates and JSON.stringify are fields of Platform.
--
-- ControlPlane.Outbox: the table of events of a region, with enqueue of
-- packages/domain/src/projection-events.ts and the statements of projection-outbox.ts, each one step.
-- Outbox.Drain is drainRegionalProjectionOutbox without its observer. What other workers do between its
-- statements, the locks, the clock and the processor are fields of Worker. The loop runs on fuel, one
-- turn more than the limit of the drain, since every turn but the last takes a row.
--
-- ControlPlane.Publication: PostgresPublicProjectionDirectory of
-- packages/control-plane/src/publication.ts, over the heads and projections of public skills, whose
-- unique indexes are those of packages/db/src/schema/control-plane.ts.
--
-- Oauth: packages/authfn-mcp-oauth/src. Oauth.Refresh is refresh.ts (exchangeRefreshToken), with
-- consumeRateLimit of packages/db/src/rate-limit.ts in Oauth.RateLimit and issueTokenPair of tokens.ts
-- in Oauth.Tokens; Oauth.Revocation is revocation.ts; Oauth.Codes is codes.ts; Oauth.Sessions runs
-- exchanges and revocations in sequence over one database. The HMAC and the SHA-256 of node:crypto
-- are fields of Runtime and CodeRuntime, the random values and the instants of a call are fields of
-- the call; nothing is assumed of them. Instants are milliseconds since the epoch.
--
-- Idempotency: IdempotencyStore of packages/domain/src/idempotency.ts, which the mutations of the
-- domain services claim their keys from.
--
-- ControlPlane.Migration: packages/control-plane/src/migration.ts: migrateWorkspaceWithJournal and
-- migrateWorkspace, over the journal in Migration.Runs. The move that DataFn makes, with the hooks that
-- copy and verify the data, is an argument; which statements of the journal fail is a field of the
-- input.
--
-- Composition: packages/domain/src/composition.ts. Composition.Lock has the locks and the
-- checks of their shape, with dependencySchema of packages/storage/src/composition.ts; Composition is
-- validateLock; Composition.Merge and Composition.Resolve are resolveDependencies. The library semver
-- is a record of the functions that the code uses, of which nothing is assumed, and the versions that
-- may be chosen are a function. Its recursions run on fuel: height on two levels more than the lock has
-- nodes, as the parents that it is in are distinct and are nodes or the root; the visit that orders the
-- nodes on one level more than the limit of the depth, as a valid lock has no longer path.
--
-- Mcp.Base64: encodeBase64Url and decodeBase64Url of mcp/src/pagination.ts. Mcp.Tokens: stableJson of
-- packages/storage/src/manifest.ts and the signed tokens of pagination.ts. Mcp.Cursors: McpCursorCodec.
-- Web Crypto, JSON.parse, the text codecs and localeCompare are fields of Platform; what is documented
-- of them is IsPlatform, and Reads says that JSON.parse reads the text of an envelope back.
--
-- Lifecycle: VersionLifecycleService of packages/domain/src/version-lifecycle.ts. Each call of set is
-- one step on the tables of a region and of the control plane and on the records of Idempotency; which
-- of its statements fail, and whether they took effect, are fields of Change.
--
-- Storage.Paths: normalizeBundlePath and bytewisePathCompare of packages/storage/src/paths.ts, on texts
-- as lists of code points, unpaired surrogates among them; the normal form NFC is an argument.
--
-- Not modelled: HTTP, SQL text, pools and retries, telemetry, the prose of error messages; the
-- services over skills, versions, amendments, reviews, contexts, notes and git sources; the rollback
-- drill and the copying of a workspace migration; the web application, the workers and the scripts.
pub mod Common
pub mod Access
pub mod Policy
pub mod ControlPlane
pub mod Idempotency
pub mod Oauth
pub mod Composition
pub mod Mcp
pub mod Lifecycle
pub mod Storage
