-- ===== src/Lib.antt =====
-- The core of the webmail engine: models of its in-process components and what is proved of them.
--
-- The engine serves accounts over HTTP. Its services ask the fair-use scheduler for tokens before
-- they call a mail server, take a connection from a pool, keep what they read in a cache, and keep
-- accounts, audit logs and folder states in a store. The parts that keep their state in memory are
-- modelled here:
--
-- - Scheduler: internal/scheduler/fairuse_scheduler.go. Scheduler/Bucket is `TokenBucket`,
--   Scheduler/Queue is `OperationQueue`, Scheduler the accounts with `InitializeAccount`,
--   `ConsumeTokens`, `ReleaseTokens`, `UpdatePolicy`, `RemoveAccount`, `Shutdown` and
--   `QueueOperation`, Scheduler/Probe is `CanExecute`, `WaitForTokens` and `EstimateWaitTime`, and
--   Scheduler/Worker is `ProcessQueue`. Its `FairUsePolicy` is that of internal/models/types.go.
-- - Store: internal/store/memory_store.go, with the errors of internal/store/account_store.go and the
--   records of internal/models/types.go (Store/Types). Store is `MemoryStore` with its accounts,
--   Store/Page the pagination, Store/Records the audit logs, folder sync states and processor
--   configs, Store/Messages is `MemoryMessageStore`.
-- - Cache: internal/cache/memory_cache.go. Cache is `MemoryClient`, Cache/Keys its `Keys` and `Scan`.
-- - Pool: internal/pool/connection_pool.go. Pool is `ConnectionPool`.
-- - Session: internal/pool/imap_session_pool.go. Session is `IMAPSessionPool`.
-- - Tasks: internal/taskmaster. Tasks has the values of interface.go and errors.go, Tasks/Managed is
--   `ManagedDispatcher` of managed.go with its workers (Tasks/Managed/Workers) and statistics
--   (Tasks/Stats), Tasks/Schedules is `TaskScheduler` of scheduler.go, with `Stop` in
--   Tasks/Schedules/Stopping and `CreateTask` in Tasks/Schedules/Creating.
-- - CacheKey: internal/cachekey/cache_key.go, the builders, checks and parser of keys;
--   CacheKey/Split is `strings.Split` at a colon.
-- - ListCache: internal/messagecache/message_cache.go. ListCache is `MessageListCache`;
--   ListCache/Client has the interface of a client, with Cache as an instance, and the `Cache` of
--   internal/cache/cache.go over it.
-- - MessagePages: the part of `GetMessageList` of internal/service/message_service_message.go that
--   chooses the UIDs of a page and the next cursor.
-- - Incremental: `fetchIncrementalUpdates` of internal/service/message_service_util.go.
-- - Base: numbers, lists and maps that the parts share. Base/Int has Go's 64-bit `int` with its
--   wrap-around, Base/Dict the maps, as association lists with one entry for a key.
--
-- A method is a function from the state and its arguments to the new state and its result. A method
-- that holds a mutex throughout is one step; one that gives it up on the way is one step for each
-- part (`admit` and `complete` of a pool). Concurrent calls are then sequences of such steps.
-- An iteration of the loop of `cleanupIdle`, which `Acquire` runs with no lock, is at most one step: its
-- races on the map are not modelled. `ConsumeTokens` is one step, though its lock is given up between
-- its lookups and the use of the bucket.
-- The goroutines that `performCleanup` starts are later calls of `Invalidate`. The body of a loop over a ticker is a step for one tick; the ticker itself is left out, but
-- not the panic of `time.NewTicker`. `time.Now()` is an argument: a count of nanoseconds. Where the
-- runtime chooses the order in which it visits a map and the order can show, the order is an
-- argument too; a result that is sorted or a set takes the order of the list. A panic is a value
-- (`panicked`, or `none` where a result is optional). Numbers of type `int` and `int64` wrap around
-- at 64 bits; the difference of two times does not. Loops are structural recursion over their lists,
-- except that a scan of the cache, the pages of a list and those of a folder are followed for a number of
-- calls, which is enough where it covers them.
--
-- A goroutine of the task pool or of a schedule is a value with the place where it stands, and each thing
-- that it does next is a step; a history interleaves the steps of all. `Dispatch` is a whole call where
-- one caller is looked at, and its steps (Tasks/Managed/Dispatching) in histories. A worker's receive with
-- its count, and the end of `processTask` with its counts, are one step. Where a `select` has more than one way open, an
-- argument tells which the runtime takes. Arguments also stand for what is not in the repository: the
-- float arithmetic of a mean (`average`), the encoding of JSON, SHA-256 and the printing of numbers.
--
-- A string is a native text, and the fields of an account or a message that the code only copies are
-- one field of an unknown type. The slices of processor configs are references to arrays of the
-- store, because copies of an account share them; a sync state and an audit entry, of which the store keeps the
-- caller's pointer, are values. Connections are values under their IDs: the
-- network handle and its TLS state are left out, and the outcome of a dial is an argument.
--
-- Not modelled: the HTTP API, the services but for the pages of a folder, the workers and the processors
-- above these parts; the dispatcher that chooses among the modes of the task pool, the cache of UID lists
-- and the typed helpers of internal/cache/cache.go; the
-- clients of Redis, SQL, IMAP and SMTP, of Machinery and of language models; encryption, MIME
-- parsing, files, configuration and logging; the frontend.
pub mod Base
pub mod Scheduler
pub mod Store
pub mod Cache
pub mod Pool
pub mod Session
pub mod Tasks
pub mod CacheKey
pub mod ListCache
pub mod MessagePages
pub mod Incremental
