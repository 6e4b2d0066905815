-- ===== src/Chunks/Manager/Schedule.antt =====
-- `schedule_or_get_chunk_download_task`, `_prefetch`, and waiting for a future.
use fusedrive_filesystem.Base.Int.{pos}
use fusedrive_filesystem.Base.{
  ◌&&◌, not, some, none, contains, ◌||◌, ◌+◌, true, mem, false, text_eq, pair_eq, nat_eq, lookup,
  insert, if◌then◌else◌, codes, Bool, ℕ, erase, Text,
}
use fusedrive_filesystem.Contracts.{Outcome, returns, raises, blocks, cancelled_error}
use fusedrive_filesystem.Chunks.Eviction.{ChunkKey, Bytes}
use fusedrive_filesystem.Chunks.Manager.Download.{
  Settings, State, Task, Status, pending, running, cancelled, finished, count,
  download_chunk_from_drive_api,
}

abbrev pub read_pool : Text
read_pool = codes "read"

abbrev pub prefetch_pool : Text
prefetch_pool = codes "prefetch"

-- `dispatcher.submit(pool_name, self.download_chunk_from_drive_api, ...)` with a pool that exists:
-- the number of the new future, which waits for a worker.
unfoldable pub submit : Text → ChunkKey → ℕ → Bool → State → ℕ × State
submit pool key total_size is_prefetch s =
    let task : Task = record {
      pool = pool;
      key = key;
      total_size = total_size;
      is_prefetch = is_prefetch;
      status = pending;
      has_callback = false;
    } in
    (
      s.next_task,
      count (codes "thread_pool_tasks") (pos 1)
          (record s { tasks = insert s.next_task task s.tasks; next_task = s.next_task + 1 }),
    )

-- `_remove_future`
unfoldable pub remove_future : ChunkKey → State → State
remove_future key s = record s { active_downloads = erase key s.active_downloads }

unfoldable pub set_status : ℕ → Task → Status → State → State
set_status id t status s = record s { tasks = insert id (record t { status = status }) s.tasks }

-- `future.cancel()` by a thread that holds `active_downloads_lock`. Cancelling a future that waits
-- runs its callbacks in the same thread, and `_remove_future` takes that lock, which no thread
-- can take twice.
unfoldable pub cancel_under_lock : ℕ → Task → State → Outcome Bool × State
cancel_under_lock id t s = elim t.status [
  | pending ↦
      let after = set_status id t cancelled s in
      if t.has_callback then (blocks, after) else (returns true, after)
  | cancelled ↦ (returns true, s)
  | running ↦ (returns false, s)
  | finished _ ↦ (returns false, s)
]

-- `future.add_done_callback(_remove_future)`, on a future that is not done.
unfoldable pub register_callback : ℕ → State → State
register_callback id s = elim (lookup id s.tasks) [
  | none ↦ s
  | some t ↦ record s { tasks = insert id (record t { has_callback = true }) s.tasks }
]

-- The lines after the test of the table: submit, enter the future, and register the callback.
unfoldable pub submit_new : ChunkKey → ℕ → Bool → State → Outcome ℕ × State
submit_new key total_size is_prefetch s =
    let (id, submitted) =
      submit (if is_prefetch then prefetch_pool else read_pool) key total_size is_prefetch s in
    let entered : State = record submitted {
      active_downloads = insert key (id, is_prefetch) submitted.active_downloads;
    } in
    (returns id, register_callback id entered)

-- What follows once `future.cancel()` has returned `True`: the download is submitted to the pool
-- for reads, and then the code runs on to the lines that submit it once more.
unfoldable pub promote : ChunkKey → ℕ → State → Outcome ℕ × State
promote key total_size s =
    let counted = count (codes "prefetch_promoted") (pos 1) s in
    let (id, submitted) = submit read_pool key total_size false counted in
    submit_new key total_size false
      (record submitted { active_downloads = insert key (id, false) submitted.active_downloads })

unfoldable pub share : ℕ → State → Outcome ℕ × State
share id s = (returns id, count (codes "shared_futures") (pos 1) s)

-- A reader meets a prefetch of the chunk that it wants.
unfoldable pub take_over : ℕ → Task → ChunkKey → ℕ → State → Outcome ℕ × State
take_over id t key total_size s =
    let (result, after) = cancel_under_lock id t s in
    elim result [
      | returns done ↦ if done then promote key total_size after else share id after
      | raises e ↦ (raises e, after)
      | blocks ↦ (blocks, after)
    ]

unfoldable pub schedule_or_get_chunk_download_task : ChunkKey → ℕ → Bool → State → Outcome ℕ × State
schedule_or_get_chunk_download_task key total_size is_prefetch s =
    elim (lookup key s.active_downloads) [
      | none ↦ submit_new key total_size is_prefetch s
      | some (id, was_prefetch) ↦
          if not is_prefetch && was_prefetch
          then elim (lookup id s.tasks) [
            | none ↦ share id s
            | some t ↦ take_over id t key total_size s
          ]
          else share id s
    ]

-- The three tests with which `_prefetch` returns: a thread is at the chunk, or a cache has it.
unfoldable pub is_at_hand : ChunkKey → State → Bool
is_at_hand key s = mem key s.locked || contains key s.memory.cache || contains key s.disk

unfoldable pub prefetch : ChunkKey → ℕ → State → State
prefetch key total_size s =
    if is_at_hand key s then s else (schedule_or_get_chunk_download_task key total_size true s).1

-- The end of a task: its outcome is kept, and the callback runs.
unfoldable pub finish_task : ℕ → Task → Outcome Bytes → State → State
finish_task id t result s =
    let done = set_status id t (finished result) s in
    if t.has_callback then remove_future t.key done else done

module _ (env : Settings) where
  -- A worker runs a task.
  unfoldable pub run_task : ℕ → Task → State → Outcome Bytes × State
  run_task id t s =
      let (result, after) = download_chunk_from_drive_api env t.key t.total_size t.is_prefetch s in
      (result, finish_task id t result after)

  -- `future.result()`: the worker has run the task when the call returns.
  unfoldable pub await_result : ℕ → State → Outcome Bytes × State
  await_result id s = elim (lookup id s.tasks) [
    | none ↦ (blocks, s)
    | some t ↦ elim t.status [
      | pending ↦ run_task id t s
      | running ↦ run_task id t s
      | cancelled ↦ (raises cancelled_error, s)
      | finished result ↦ (result, s)
    ]
  ]
