-- ===== src/Uploads/Jobs.antt =====
-- `UploadManager`: its state and its operations, with the circuit breaker that it trips. Removing,
-- moving and writing a file that exists is taken to succeed, but for the saving of the queue.
use fusedrive_filesystem.Base.Int.{pos}
use fusedrive_filesystem.Metrics.{MetricsRegistry, inc, set}
use fusedrive_filesystem.Base.{
  join, ◌||◌, text_eq, ltb, suc, is_infix, erase, ◌^◌, ◌==◌, ◌+◌, ◌∷◌, ℕ, some, none, lookup,
  insert, if◌then◌else◌, codes, List, ◌++◌, true, false, [], Text, Option, Dict, Bool,
}

pub data JobStatus : Type 0 where
  pending failed : JobStatus

pub data JobType : Type 0 where
  create update : JobType

-- An entry of `queue`, its fields those of the dictionary.
pub record Job : Type 0 where
  pub path : Text
  pub retries : ℕ
  pub status : JobStatus
  pub job_type : JobType
  pub parent_id : Option Text
  pub name : Option Text

-- `queue.json`.
pub data QueueFile : Type 0 where
  absent unreadable : QueueFile
  holds : Dict Text Job → QueueFile

-- How an upload ends: the client returns, or raises an exception with this text (that of the last
-- attempt, where it gave up retrying).
pub data UploadResult : Type 0 where
  uploaded : UploadResult
  upload_fails : Text → UploadResult

-- The two methods of `IStorageClient` that upload; the second reads the local file.
pub record UploadTarget : Type 0 where
  pub upload_new_file_to_drive : Option Text → Option Text → List ℕ → UploadResult
  pub upload_local_file_to_drive : Text → List ℕ → UploadResult

pub record Settings : Type 0 where
  pub uploads_dir : Text
  pub max_retries : ℕ
  pub storage : UploadTarget

-- `submitted` is what the upload pool has been given, `timers` the retries with their delays.
-- `can_save` is the state of the disk: which queues `queue.json` can be written with.
pub record State : Type 0 where
  pub queue : Dict Text Job
  pub queue_file : QueueFile
  pub can_save : Dict Text Job → Bool
  pub files : Dict Text (List ℕ)
  pub metrics : MetricsRegistry
  pub submitted : List Text
  pub timers : List (ℕ × Text)
  pub is_tripped : Bool

-- `GoogleDriveQuotaCircuitBreaker`: `trip`, `reset` and `is_quota_exceeded` of its one instance.
unfoldable pub trip : State → State
trip s = record s { is_tripped = true }

unfoldable pub reset : State → State
reset s = record s { is_tripped = false }

unfoldable pub is_quota_exceeded : State → Bool
is_quota_exceeded s = s.is_tripped

unfoldable pub is_failed : Job → Bool
is_failed job = elim job.status [ failed ↦ true | pending ↦ false ]

-- `len([q for q in self.queue.values() if q["status"] != "failed"])`
unfoldable pub active_jobs : Dict Text Job → ℕ
active_jobs [] = 0
active_jobs ((id, job) ∷ rest) = let n = active_jobs rest in if is_failed job then n else suc n

unfoldable pub set_queue_size : State → State
set_queue_size s = record s {
  metrics = set (codes "upload_queue_size") (pos (active_jobs s.queue)) s.metrics;
}

unfoldable pub load_upload_queue_from_disk : State → State
load_upload_queue_from_disk s = elim s.queue_file [
  | absent ↦ set_queue_size s
  | unreadable ↦ set_queue_size (record s { queue = [] })
  | holds saved ↦ set_queue_size (record s { queue = saved })
]

-- A save that fails is logged, and the old file and the gauge stay.
unfoldable pub persist_upload_queue_to_disk : State → State
persist_upload_queue_to_disk s = record s {
  queue_file = if s.can_save s.queue then holds s.queue else s.queue_file;
  metrics = if s.can_save s.queue then (set_queue_size s).metrics else s.metrics;
}

-- `dispatcher.submit("upload", self.execute_pending_upload_job, file_id)`
unfoldable pub submit_upload : Text → State → State
submit_upload file_id s = record s {
  metrics = inc (codes "thread_pool_tasks") s.metrics;
  submitted = s.submitted ++ file_id ∷ [];
}

-- `if path and os.path.exists(path): os.remove(path)`
unfoldable pub remove_file : Text → State → State
remove_file path s = record s { files = if path == [] then s.files else erase path s.files }

-- `f"{file_id}_{int(time.time())}.tmp"` in the directory of uploads, `now` being the digits.
unfoldable pub safe_path : Settings → Text → Text → Text
safe_path env file_id now = join env.uploads_dir (file_id ++ codes "_" ++ now ++ codes ".tmp")

unfoldable pub forget_old : Text → State → State
forget_old file_id s = elim (lookup file_id s.queue) [
  | none ↦ s
  | some old ↦ remove_file old.path s
]

unfoldable pub existing_retries : Text → State → ℕ
existing_retries file_id s = elim (lookup file_id s.queue) [ none ↦ 0 | some old ↦ old.retries ]

-- `shutil.move(temp_path, safe_path)`; `none` where it raises, as there is no such file.
unfoldable pub move_file : Text → Text → State → Option State
move_file source target s = elim (lookup source s.files) [
  | none ↦ none
  | some content ↦ some (record s { files = insert target content (erase source s.files) })
]

unfoldable pub new_job : Text → ℕ → Bool → Option Text → Option Text → Job
new_job path retries is_new parent_id name = record {
  path = path;
  retries = retries;
  status = pending;
  job_type = if is_new then create else update;
  parent_id = parent_id;
  name = name;
}

-- `enqueue_file_for_upload`, and whether it returns; it raises where the file is not there.
unfoldable pub enqueue_file_for_upload :
    Settings → Text → Text → Text → Bool → Option Text → Option Text → State → Bool × State
enqueue_file_for_upload env now file_id temp_path is_new parent_id name s =
    let target = safe_path env file_id now in
    let job = new_job target (existing_retries file_id s) is_new parent_id name in
    let cleared = forget_old file_id s in
    elim (move_file temp_path target cleared) [
      | none ↦ (false, cleared)
      | some moved ↦ (
        true,
        submit_upload file_id (
            persist_upload_queue_to_disk (record moved { queue = insert file_id job moved.queue })),
      )
    ]

-- The loop of `_process_queue` over the items of the queue.
unfoldable pub submit_pending : Dict Text Job → State → State
submit_pending [] s = s
submit_pending ((file_id, job) ∷ rest) s =
    submit_pending rest (if is_failed job then s else submit_upload file_id s)

unfoldable pub process_queue : State → State
process_queue s = submit_pending s.queue s

unfoldable pub get_pending_path : Text → State → Option Text
get_pending_path file_id s = elim (lookup file_id s.queue) [
  | none ↦ none
  | some job ↦ some job.path
]

-- The first block of `execute_pending_upload_job`: the job, if it is there and pending.
unfoldable pub take_job : Text → State → Option Job
take_job file_id s = elim (lookup file_id s.queue) [
  | none ↦ none
  | some job ↦ if is_failed job then none else some job
]

unfoldable pub remove_job : Text → Option Text → State → State
remove_job file_id local_path s =
    let removed : State = elim local_path [ none ↦ s | some path ↦ remove_file path s ] in
    persist_upload_queue_to_disk (record removed { queue = erase file_id removed.queue })

unfoldable pub upload : Settings → Text → Job → List ℕ → UploadResult
upload env file_id job content = elim job.job_type [
  | create ↦ env.storage.upload_new_file_to_drive job.parent_id job.name content
  | update ↦ env.storage.upload_local_file_to_drive file_id content
]

unfoldable pub fail_job : Text → Job → State → State
fail_job file_id job s = persist_upload_queue_to_disk (record s {
  queue = insert file_id (record job { status = failed }) s.queue;
  metrics = inc (codes "upload_failures") s.metrics;
})

-- The other branch: the queue is saved, and a timer is started.
unfoldable pub retry_job : Text → Job → State → State
retry_job file_id job s =
    let saved = persist_upload_queue_to_disk s in
    record saved { timers = saved.timers ++ (2 ^ job.retries, file_id) ∷ [] }

unfoldable pub handle_failure : Settings → Text → Bool → State → State
handle_failure env file_id is_fatal s = elim (lookup file_id s.queue) [
  | none ↦ s
  | some old ↦
      let job : Job = record old { retries = old.retries + 1 } in
      let counted : State = record s {
        queue = insert file_id job s.queue;
        metrics = inc (codes "upload_retries") s.metrics;
      } in
      if ltb env.max_retries job.retries || is_fatal
      then fail_job file_id job counted
      else retry_job file_id job counted
]

-- The `except` of `execute_pending_upload_job`.
unfoldable pub report_failure : Settings → Text → Text → State → State
report_failure env file_id message s =
    if is_infix (codes "storageQuotaExceeded") message
    then handle_failure env file_id true (trip s)
    else handle_failure env file_id false s

-- What follows the upload, in the state that the queue has by then.
unfoldable pub finish_upload : Settings → Text → Text → UploadResult → State → State
finish_upload env file_id local_path result s = elim result [
  | uploaded ↦
      remove_job file_id (some local_path) (record s { metrics = inc (codes "uploads") s.metrics })
  | upload_fails message ↦ report_failure env file_id message s
]

unfoldable pub execute_pending_upload_job : Settings → Text → State → State
execute_pending_upload_job env file_id s = elim (take_job file_id s) [
  | none ↦ s
  | some job ↦ elim (lookup job.path s.files) [
    | none ↦ remove_job file_id none s
    | some content ↦ finish_upload env file_id job.path (upload env file_id job content) s
  ]
]

-- The end of `__init__`, once the journal is recovered.
unfoldable pub resume : State → State
resume s = elim s.queue [ [] ↦ s | _ ∷ _ ↦ process_queue s ]
