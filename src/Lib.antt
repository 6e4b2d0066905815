-- ===== src/Lib.antt =====
-- FuseDrive: Google Drive as a FUSE file system. This library models the parts that carry its
-- own logic: the operations of the file system, the cache of paths and metadata, the cache of file
-- chunks, the lock that threads share, the queue of uploads and the metrics that these parts write.
--
-- FUSE calls `FuseOps`. A path is resolved through the metadata cache, which the listing of a
-- directory fills. A handle that is open for writing has a temporary file; its base is fetched when
-- it is first needed, and a release enters the file into the queue of uploads. Reading through any
-- other handle takes the file that waits for upload, or else goes to the chunks.
--
-- A read of a range goes through `ChunkManager`. It asks the memory cache, then the disk cache,
-- then a table of downloads under way; a download takes the chunk's lock, asks both caches again
-- and calls the storage client. The memory cache is bounded and writes gauges and counters. Changed
-- files are copied into the directory of uploads, entered into a queue that is saved in a file, and
-- uploaded by a pool; a failed upload is retried, and a full quota trips the circuit breaker.
--
-- Which file models what (paths from the repository's root):
--   Metrics          src/monitoring/metrics/metrics.py, `MetricsRegistry`
--   Contracts        src/domain/contracts/interfaces.py, the metadata of a node, the
--                    download call, and how a call ends
--   Chunks.Eviction  src/infrastructure/cache/chunk_manager.py, `InMemoryChunkEvictionCache`: an
--                    association list in the order of the `OrderedDict`, least recently used first
--   Chunks.Manager   src/infrastructure/cache/chunk_manager.py, `ChunkManager`: Download has the state
--                    and `download_chunk_from_drive_api`, Schedule has
--                    `schedule_or_get_chunk_download_task` and `_prefetch`, Read has
--                    `read_content_range_with_caching` and `invalidate_file_chunks_cache`
--   Locks.RwLock     src/infrastructure/concurrency/lock_manager.py, `RWLock` and its threads
--   Locks.Manager    src/infrastructure/concurrency/lock_manager.py, `LockManager`: `shared_lock` and
--                    `exclusive_lock` are `ask`, `retry` for a thread that was woken, and `leave`;
--                    Threads has any number of threads with several locks
--   Uploads.Jobs     src/infrastructure/drive/upload_manager.py, `UploadManager`, with
--                    src/infrastructure/drive/circuit_breaker.py
--   Uploads.Pool     src/infrastructure/drive/upload_manager.py, `__init__`, the workers, the timers of
--                    retries, the shutdown and a crash, as a step relation
--   Uploads.Journal  src/infrastructure/drive/upload_manager.py, `_recover_journal`
--   Metadata         src/infrastructure/cache/memory_cache.py, `MemoryMetadataCache`
--   Fuse             src/fuse/operations/fuse_ops.py, `FuseOps`: State has what it holds, Paths has
--                    the resolution of paths, `getattr` and `readdir`, Handles has `open`, `read`,
--                    `write` and `release`, Changes has the operations that change the tree
--   Dispatcher       src/infrastructure/concurrency/dispatcher.py, `RequestDispatcher`
--   Drive            src/infrastructure/drive/drive_client.py, `GoogleDriveStorageClient`; SignIn has
--                    its constructor and `_get_service`
--   Logging          src/monitoring/logging/logger.py, `JsonFormatter` and `setup_json_logger`
--   Entry            src/main.py, `main` as a list of effects
--   Stats            src/fuse/virtual_files/stats_vfs.py, `StatsVFS`: the attributes and the contents of
--                    the files below `/stats`
-- The children of these modules hold their theorems, Tests the theorems at concrete inputs, and Base
-- the shared lemmas on lists, dictionaries, texts and integers.
--
-- State is passed along: an operation takes the state and returns its result with the state after
-- it. A call that ends with an exception, or never, is a value of `Outcome`. Methods of
-- `ChunkManager` run one after the other; the threads of `RWLock` interleave, each critical section
-- being one step. Python's integers are unbounded, so no number wraps; a counter that may be
-- negative is an integer of Base.Int. Bytes and characters are numbers. The loops of the code
-- become recursion on the list that they consume or on the number of chunks left, so that no
-- fuel is needed. The printing of a number has fuel, and it is given the number itself; the
-- search for a cycle has two more than the number of threads that wait; resolving a path has one
-- more than its length, which stands for Python's recursion limit.
--
-- In Fuse an operation is an action on the whole state, which may end with an error. A descriptor is
-- the path of its file and a position: a file that loses its path while it is open is not followed.
-- Calls run one after the other and time stands still during one, so that `fd_lock` and the lock of
-- a handle do not show. The two objects of a node's metadata that the code shares between the cache
-- and `release` are one: the update happens before `set_metadata` compares.
--
-- Parameters: the storage client's results, which entries of a `TTLCache` are left at a time, the
-- names of temporary files, the metadata cache that names files, which chunk files cannot be
-- written, which queues the disk takes as `queue.json` at a time, the digits of the clock in the
-- names of upload files, the decoding of base 64 and the ids of `uuid4`. `Serves` is what a read
-- relies on: the client returns the bytes between the two offsets, both included.
--
-- In Drive a request is a function of the attempt, and tenacity's `retry` is a parameter with its
-- documented laws; the loop over pages has fuel, one for each page. In Uploads.Pool an upload is made
-- when a worker takes the job and its outcome is entered in a later step; what the disk takes may
-- change between two steps, and no call comes in behind the shutdown of the dispatcher. In
-- Locks.Manager.Threads a thread that is woken may try again as a reader or as a writer, which allows
-- more than the code does; a thread that gets a lock is entered among its owners in the same step.
--
-- Not modelled: what the threads behind `trigger_deadlock` do, what the constructors that `main` calls
-- raise, the waits between attempts, and the calls of the logger: input and output, or third-party
-- calls. Timers and pools are lists of what was handed to them. A status that `queue.json` may hold
-- beside the two of the code is left out. A save of `queue.json` may fail, and then changes nothing;
-- removing, moving and writing other files that exist is taken to succeed.
pub mod Base
pub mod Metrics
pub mod Contracts
pub mod Chunks
pub mod Locks
pub mod Uploads
pub mod Tests
pub mod Stats
pub mod Metadata
pub mod Dispatcher
pub mod Drive
pub mod Entry
pub mod Logging
pub mod Fuse
