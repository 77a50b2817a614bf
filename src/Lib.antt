-- ===== src/Lib.antt =====
-- A model of Protect Platform, a service that keeps a shared reputation of Discord users.
--
-- The API (apps/api) takes flags, reports and administration from the dashboard and from the bot,
-- keeps users, flags and an outbox in PostgreSQL, and caches users in Redis. Each write of a user
-- runs in one transaction together with an audit row and the events that tell of it. The worker
-- (apps/worker) takes events from the outbox and publishes them in Redis, and other services listen.
--
-- Files, and the code they are about:
--   Prelude        tests, lists, tables, dictionaries and results, for all the others
--   Shared         packages/shared/src: levels (index.ts, flag-levels.ts) and events (domain-events.ts)
--   Policy         apps/api/src/domain/flag-policy.service.ts
--   Store          apps/api/prisma/schema.prisma, apps/api/src/events/outbox.service.ts and
--                  apps/api/src/audit/audit.service.ts: tables, transactions, outbox and audit
--   Redis, Cache   apps/api/src/cache/user-cache.service.ts and the keys that Redis holds
--   Js             what the code uses of JavaScript's texts and numbers
--   Auth           apps/api/src/auth: identities, roles and packages/shared/src/admin-discord-ids.ts;
--                  Auth/Guards are the guards before a route
--   Users          apps/api/src/users: the public view of a user, read through the cache; Flagged
--                  is the list of flagged users
--   Paging         the pages by cursor that users.service.ts and audit.service.ts cut
--   AuditLogs      apps/api/src/audit/audit.service.ts: the list of audit rows
--   Scores         the score, the level and the version of a user, as flags.service.ts raises them
--                  and admin-flags.service.ts computes them anew
--   Flags          apps/api/src/flags/flags.service.ts; Flags/Admin is
--                  apps/api/src/admin/admin-flags.service.ts
--   Entitlements   apps/api/src/entitlements/entitlements.service.ts: which guild has a licence
--   LicenseKeys    apps/api/src/license-keys/license-keys.service.ts
--   UserConsistency  apps/api/src/internal/user-consistency.service.ts: the check and the repair of a
--                  user's row
--   Tickets        apps/api/src/tickets/tickets.service.ts: what reports call of it; Evidence and Chat
--                  are the operations on evidence and messages, Views the lists and views
--   Reports        apps/api/src/reports: AntiAbuse is reports-anti-abuse.service.ts, Create, Intake,
--                  Review, Displays and Views are reports.service.ts
--   Dispatch       apps/worker/src/dispatch.ts and apps/api/scripts/outbox-safe-requeue.ts;
--                  Dispatch/Batch is a whole turn
--   Backpressure   apps/api/src/common/outbox-backpressure.middleware.ts
--   Worker         apps/worker/src: Decay is decay-job.ts, Schedule is member-sync-schedule-job.ts,
--                  Loop is main.ts
--   Servers        apps/api/src/servers/servers.service.ts: Configure is the configuration, Lifecycle
--                  the joins and leaves of the bot, Members the members and the blocked guilds
--   AdminGuilds    apps/api/src/admin/admin-guilds.service.ts
--   Me             apps/api/src/me/me.service.ts; Me/Pages are the pages of a guild's members
--   PlatformStats  apps/api/src/platform-stats/platform-stats.service.ts and
--                  apps/worker/src/platform-stats-job.ts
--   Dashboard      apps/api/src/dashboard/dashboard.service.ts: ticket buckets and the poll of rows;
--                  Series is the series over time, Pages the two dashboards
--   Bot            apps/bot/src/services: Breaker is circuitBreaker.ts, Limiter is
--                  guildRateLimiter.ts, ConfigCache is serverConfigCache.ts, ApiClient is
--                  apiClient.ts, Sync is memberSync.ts, Subscriber is eventSubscriber.ts. Joins is
--                  apps/bot/src/events/guildMemberAdd.ts with joinHold.ts, and Buttons is
--                  apps/bot/src/interactions/joinHoldButton.ts with joinHold.ts. Guilds is
--                  apps/bot/src/events/guildJoinLeave.ts
--   BotController  apps/api/src/bot/bot.controller.ts: the routes of the bot
--   Aggregates     the transactions of Flags, Reports and Worker/Decay that write users or flags, as
--                  steps one after the other, in any order
--   Samples        data for the modules called Tests, which hold runs at concrete inputs
--
-- A service method is a function of the database (and of Redis) to a result and the new state. A
-- transaction that throws leaves the database as it was. The clock, the identifiers that the
-- database makes and the correlation id come from an `Env`. Names are the source's in snake case:
-- `create_flag_tx` is the guards and the transaction of `createFlag`, `create_flag` is with the
-- refresh of the cache after it. Numbers are natural numbers, and times are milliseconds. Loops over
-- rows are recursion on lists, the search for a free licence code counts the source's eight attempts
-- down, and the retries of a request those of API_RETRY_MAX. The cut of a list into batches,
-- `Bot.Sync.chunks_in`, runs on fuel, for which the number of its elements is enough, since a batch
-- is not empty. Runs of several workers are a step relation,
-- `Dispatch.Runs.Step`, and so are the calls around a licence key, `LicenseKeys.Final.KeyStep`, and the
-- transactions that write users and flags, `Aggregates.Change`.
-- What comes from outside the repository is a parameter: JavaScript's trimming, lower case, digests
-- and number texts (`Js`), the verification of a token (`Verify`), and the power of two by which the
-- weight of a flag fades (`DecayJob.fade`).
--
-- Not modelled: the dashboard (apps/web), the commands and the rendering of apps/bot and what calls
-- Discord, Nest wiring, validation of request bodies by class-validator and zod, metrics, logs,
-- health, expiry of Redis keys, and row locks. A transaction, with the reads and guards before it, is
-- one step: nothing else commits in between. createFlag, createInstantReport, approve and the decay
-- lock the user's row; deleteFlag, patchFlag, reject and redeem lock nothing, and the guards of
-- approve and reject stand outside the transaction, so that concurrent runs of these are not what
-- the steps say. Reports/Review/Stale has approvals with reads that come earlier, and
-- Flags/Admin/Lost a deletion whose read of the flags does. The dispatcher's read of the marker and
-- its MULTI are two steps in Dispatch/Runs, where the lease is a condition: it outlasts a dispatch,
-- as docs/runbooks/worker-recovery.md requires. Of the foreign keys the one from members to servers
-- is modelled; those of reports are hypotheses. Of the API, the list of licence keys, the routes that
-- are not the bot's, and the files that tickets keep on disk are not modelled.
pub mod Prelude
pub mod Js
pub mod Shared
pub mod Policy
pub mod Store
pub mod Redis
pub mod Cache
pub mod Auth
pub mod Users
pub mod Scores
pub mod Flags
pub mod Entitlements
pub mod LicenseKeys
pub mod Servers
pub mod AdminGuilds
pub mod Me
pub mod PlatformStats
pub mod Dashboard
pub mod BotController
pub mod Paging
pub mod AuditLogs
pub mod Tickets
pub mod Reports
pub mod Dispatch
mod Samples
pub mod Worker
pub mod Bot
pub mod Backpressure
pub mod UserConsistency
pub mod Aggregates
