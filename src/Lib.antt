-- ===== src/Lib.antt =====
-- Saral collects public Instagram posts of tracked hashtags from Meta's Graph API, keeps them in
-- Postgres, and serves them over one paginated endpoint. This library models its own logic, and
-- proves what makes it correct.
--
-- How the parts work together. A schedule puts a `DISPATCH_DUE_SYNCS` job on the queue; the
-- dispatcher turns it into one sync job for each hashtag that is due; the worker hands each job to a
-- handler. A sync walks the pages of one Meta edge through the client, and for each page writes the
-- raw rows, upserts the posts with their history, queues the downloads and then records the cursor.
-- A download stores a file under the hash of its bytes. The endpoint lists the posts by keyset and
-- answers with a cursor. Which queue, storage and scheduler a process uses is chosen at its start from
-- the environment. The commands run parts of this by hand: the drain works a queue off, the replay
-- rebuilds the posts of a run from its raw rows, and three scripts set up, use and delete the AWS
-- account.
--
-- Which file models what (paths from the repository's root; operations keep their names, in
-- snake_case):
--   Jobs                 src/types/jobs.ts: the job payloads, syncKindFor.
--   Queue/Port, Memory   src/ports/Queue.ts, src/adapters/local/InMemoryQueue.ts: the state of the
--                        class as the record `MemoryQueue`, a function for each method.
--   Queue/Trace          sequences of calls of the methods, and the polling loop of `receive`.
--   Worker/Process       JobRunner.process of src/worker/JobRunner.ts over an interface of the queue.
--   Worker/Polling       JobRunner.start and stop, as steps that interleave.
--   Json                 the values that JSON.parse gives.
--   Meta/RateLimit/Usage src/lib/meta/rateLimit.ts.
--   Meta/Schema,         src/lib/meta/types.ts: the schemas, parseMetaTimestamp;
--   Timestamp, Errors    src/api/errors/ApiError.ts.
--   Meta/Client/Net      what src/lib/meta/MetaGraphClient.ts uses of fetch, timers and Math.random.
--   Meta/Client/Request  its request: classification of answers, pauses, attempts.
--   Meta/Client/Paginate its resolveHashtagId and the generator paginateMedia, as a function from the
--                        suspended generator (`Walk`) to what the consumer gets next.
--   Store/Tables         src/api/models: a record for each table.
--   Store/Media, Stale   upsertMedia and markStaleBefore of src/api/repositories/MediaRepository.ts.
--   Store/Assets         src/api/repositories/MediaAssetRepository.ts.
--   Store/Runs           src/api/repositories/SyncRunRepository.ts and DataPointRepository.ts.
--   Store/Hashtags       src/api/repositories/HashtagRepository.ts.
--   Sync/*               src/api/services/HashtagSyncService.ts: State (what it works on), Items (one
--                        page's items), Pages (the page loop), Service (runSync and sync), with
--                        src/database/advisoryLock.ts.
--   Store/Reads          the queries of the repositories that reports and commands use.
--   Meta/Payload         the payload column of data_points, and its schema on it again.
--   Query/Listing        src/api/repositories/HashtagMediaQueryRepository.ts and `nextCursor` of
--                        src/api/controllers/HashtagController.ts.
--   Http/*               the HTTP API: Request (src/api/controllers/requests), Cursor
--                        (src/api/controllers/responses/cursor.ts), Listing (the route of
--                        HashtagController.ts), Errors (src/api/middlewares/errorHandler.ts).
--   Asset/*              src/ports/Storage.ts and src/api/services/MediaAssetService.ts.
--   Disk/Paths, Driver   src/adapters/local/LocalDiskStorage.ts, over an interface of node:fs.
--   Sqs/Codec, Driver    src/adapters/aws/SqsQueue.ts over an interface of the client, with the schema
--                        of src/types/jobs.ts.
--   Schedule/*           toEventBridgeExpression of src/adapters/index.ts, the dispatcher of
--                        src/api/consumers/index.ts, enqueueBatch; Bridge and NodeCron:
--                        src/adapters/aws/EventBridgeScheduler.ts and
--                        src/adapters/local/NodeCronScheduler.ts.
--   Config/*             Env, Loading: src/lib/env/index.ts; Adapters: src/adapters/index.ts.
--   Consumers/Handlers   buildHandlers of src/api/consumers/index.ts, as handlers of Worker/Process.
--   Caption/Parser       src/api/services/captionParser.ts.
--   Commands/Drain       commands/_drain.ts, over an interface that both queues fill.
--   Commands/Replay      commands/replay.ts.
--   Cloud/Sdk, Action    the commands of the AWS SDK that the scripts send, and async functions over
--                        them; Cloud/Logic is a logic for these.
--   Cloud/Provision,     commands/provisionAws.ts, teardownAws.ts and deployEc2.ts.
--   Teardown, Deploy
-- The other files beside these hold the laws of the component that they stand under, and Tests the
-- runs at concrete inputs.
--
-- State. A class is a record, and a method a function that returns the new one. The database is one
-- record of lists of rows, and a statement a function on it; a transaction is one step. The world
-- outside (network, clock, timers, files, JSON.parse, Zod's URL check) is a type `W` with an
-- interface of functions on it, so that the theorems hold for every behaviour of it. Errors are
-- values. A UUID is a number drawn from a counter, a timestamp its milliseconds; numbers of JSON
-- are taken as non-negative integers.
--
-- Fuel. `fetch_page` halves the rejected page size and has one more than the first size as fuel;
-- `sync_pages` has two more than the items left to the cap; `read_pages` is given one more than the
-- rows of the listing, and `follow` likewise; `send_chunks` has one more than the jobs; the loop of
-- the drain needs more than the deliveries that the queue has left, a poll of the in-memory queue more
-- than the milliseconds of its wait, and the loop of the teardown more than the objects of the bucket. That each is enough is among the results, or a lemma of one. A request's
-- attempts are counted down from four, as in the code.
--
-- Not modelled: failures of Postgres, foreign keys, log lines and message texts; a rejection of
-- response.text() in the client; the lone surrogate that a cut through a pair leaves (the character
-- is dropped); Unicode character
-- classes, toLowerCase, trim, the Date constructor, base64url and Zod's coercions (arguments of the
-- models); src/adapters/aws/S3Storage.ts, whose methods are calls of the AWS SDK; the text of the cloud-init
-- script; the commands that call modelled operations one after the other
-- (commands/trackHashtag.ts, untrackHashtag.ts, syncTop.ts, syncRecent.ts, seed.ts) and their frame
-- (_runner.ts); the pool,
-- migrations, logger, and the wiring of the processes and of Express.
pub mod Base
pub mod Jobs
pub mod Queue
pub mod Worker
pub mod Json
pub mod Meta
pub mod Store
pub mod Sqs
pub mod Sync
pub mod Query
pub mod Asset
pub mod Caption
pub mod Schedule
pub mod Consumers
pub mod Commands
pub mod Cloud
pub mod Http
pub mod Disk
pub mod Config
pub mod Tests
