-- ===== src/Lib.antt =====
-- A verification library for the API of the whisky price tracker (a NestJS application). It models
-- the parts of src/ that hold the program's own logic and proves what makes them correct. Paths
-- below are from the repository's root.
--
-- The request path. src/app/rate-limit/ charges every request against token buckets that a Lua
-- script keeps in Valkey: `RateLimit.Bucket` is one bucket of the script, `RateLimit.Script` the
-- script over a request's buckets (`consume_script`), `RateLimit.Store` the class RateLimitStore
-- (`consume`, `run`, `numbers`, `decisions`, `record_failure`) and `RateLimit.Guard` the class
-- UserRateLimitGuard (`can_activate`, `pick`, `charges`, `report`). src/domain/auth/ throttles
-- logins: `LoginThrottle.Ladder` is one caller's position on the ladder (`attempt`, `fail`),
-- `LoginThrottle.Scripts` the two Lua scripts, `LoginThrottle.Service` the class
-- AuthThrottleService and `LoginThrottle.Interceptor` the class AuthThrottleInterceptor.
--
-- The catalogue cache. src/lib/cache/: `Cache.Codec` is CacheCodec, `Cache.Server` the commands of
-- the Valkey server as an interface, and `Cache.Service` the class VersionedCacheService (`bump`,
-- `read_generation`, `usable_generation`, `read`, `write`, `look`, `get_or_compute`). `look` is
-- `getOrCompute` up to its loader, so that a lookup and a write to the catalogue can be
-- interleaved around the loader. `Cache.Pages` is the storage of a set page by page (`get_page`,
-- `read_page`, `read_entries`, `write_set`) over the hash commands of `Cache.Hashes`; how many
-- commands of a pipeline reach the server when its reply is lost is a parameter. `Cache.Slow` is
-- its log of slow commands (`record_slow`, `flush_slow`).
--
-- The sync orchestrator. src/domain/store/sync-orchestrator.service.ts with src/core/sync-log/:
-- `Sync.Tracks` is `buildTracks` and `ArrayUtils.chunkify`, `Sync.Log` the table `sync_log` with
-- its partial unique index and the statements of SyncLogRepository, `Sync.Collect` is `collect`
-- and `outcomeOf`, and `Sync.Run` the life of a run (`resolveSyncableStore` as `unsyncable`,
-- `acquire_run`, `run_store_sync`, `run_scheduled_store`, `run_track`, `run_totals`), `Sync.Start`
-- is `startStoreSync` and `Sync.Boot` the sweep of `onModuleInit`. Statements of other instances
-- are the steps of `LogStep`.
--
-- The reports. `Report.Offers` and `Report.Build` are src/domain/report/report.service.ts with
-- src/utils/offer-price.util.ts: the rows of the catalogue are enriched, grouped by product and
-- sorted for each kind of report (`build_groups`); what the repositories answer is the record
-- `Prices` and the function `find_current_rows`, and the record `Runtime` is the collation with
-- the rounding of a percentage. `Report.Key` is src/utils/report-cache-key.util.ts (`canonical`,
-- `suffix`), where the order of texts and the folding of case are the record `Texts` and the hash
-- is a function. `Report.Query` is `findCurrentRows` of src/core/store-product/store-
-- product.repository.ts, as a condition on a row of the joined tables, where the matching of names
-- is the record `Matching`. `Report.Page` is src/utils/report-page.util.ts (`build_index`,
-- `select`): the orders of a result set and the choice of a page. How the runtime folds case,
-- compares text in the reader's language and writes a number is the record `Collation`.
--
-- The digest of a push. `Push` is src/utils/push-digest.util.ts (`by_user`, `best_per_product`,
-- `payload`); the record `Push.Runtime` is the collation, how a number is written and the bytes of
-- a payload's JSON.
--
-- The language model passes. src/scrape/llm/: `Llm.Policy` is LlmRetryPolicy, `Llm.Batch` the
-- class LlmBatchRunner (`run`, `take_batch`, `attempt` with its halving) and `Llm.Pool` the class
-- ConcurrencyPool of src/utils/. `Llm.Batch` sends one batch after another; `Llm.Turns` is the
-- runner at any concurrency, as turns that the loops of the pool take in any order. `attempt`
-- recurses on fuel; two for each item of the batch and two more are enough, since a length is
-- tried at most twice before it is halved.
--
-- Sign-in and sessions. src/domain/auth/ and src/app/guards/: `Auth.Tokens` is AuthTokenService
-- (refresh tokens and scopes as texts), `Auth.Sessions` is AuthSessionService over the commands of
-- `Auth.Server`, `Auth.Hash` is the class Hash of src/utils/hash.util.ts, `Auth.Service` is
-- AuthService (`login`, `refresh`, `logout`, `authenticate`), `Auth.Guards` is PermissionGuard
-- with the permissions that a route declares, and `Auth.Request` is AuthJwtGuard, followed by
-- PermissionGuard. The user table (`Auth.Service.Users`), and signing and digests
-- (`Auth.Service.Runtime`), are parameters; an access token is taken to verify only if it was
-- signed. A call takes the time and the random texts that it draws as arguments.
--
-- What a scrape writes. src/scrape/persist/: `Persist` is ScrapePersistService (`persist`,
-- `resolve_keys`, `resolve_canonical`, `upsert_offer`, the write loop as `write_each`,
-- `flag_out_of_stock`), `Persist.Offers` the table `store_product` with the statements of
-- src/core/store-product/store-product.repository.ts that a run sends, and `Persist.Prices` the
-- table `price_snapshot` with those of src/core/price-snapshot/price-snapshot.repository.ts. How
-- bottlings are found and created is the record `Persist.Catalogue`, the key of a snapshot a
-- function, and `localeCompare` the parameter `Collation`.
--
-- The address of a request. `ClientIp` is src/utils/client-ip.util.ts (`resolve`, `last_hop`); the
-- record `ClientIp.Runtime` is splitting a text at commas and trimming it. The rate limiter and
-- the login throttle take the address as a text.
--
-- Currency rates. `Currency` is src/utils/currency.util.ts (`parse_day`, `shift_days`,
-- `days_between`, `bridge`, `fill_gaps`); the record `Currency.Calendar` is what the runtime knows
-- of dates, and a thrown error is `none`.
--
-- Shared. `Prelude` passes library names on, with Boolean tests, lists over native numbers, a
-- stable sort, the slices of a list and a grouping by a key; `Hashes` is the interface of the hash
-- commands that the scripts call, and what becomes of a call.
--
-- Not modelled. Log lines, metrics where they carry no decision, durations and texts are left out.
-- Site adapters, SQL other than that of the sync log, of the current rows, of the offers and of
-- the prices of a day, the HTTP framework, and delivery of messages are outside this library; what
-- a scrape adds to a bottling (facts, flavors, the knowledge base), the listing of sessions,
-- conversion, the sync and the year chunks of currency rates, the history of a product and
-- dashboard metrics are not modelled.
pub mod Prelude
pub mod Hashes
pub mod RateLimit
pub mod LoginThrottle
pub mod Cache
pub mod Auth
pub mod Sync
pub mod Llm
pub mod Report
pub mod Push
pub mod ClientIp
pub mod Currency
pub mod Persist
