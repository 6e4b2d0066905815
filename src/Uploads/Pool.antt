-- ===== src/Uploads/Pool.antt =====
-- The upload manager at work: its start, the pool that runs the jobs, the timers of retries, and a
-- crash. A job is taken and its upload made in one step, its outcome is entered in another, so that
-- other calls come in between.
pub mod Cover
pub mod Endings
pub mod Calls
pub mod Steps
use fusedrive_filesystem.Base.{
  Dict, false, text_eq, get_elem?, zero, mem, lookup, ◌==◌, true, suc, some, if◌then◌else◌, Option,
  ◌∷◌, ◌≡◌, none, codes, Bool, ℕ, [], Text, List,
}
use fusedrive_filesystem.Base.Int.{pos}
use fusedrive_filesystem.Metrics.{inc, set}
use fusedrive_filesystem.Metrics
use fusedrive_filesystem.Uploads.Jobs.{
  Job, State, Settings, UploadResult, load_upload_queue_from_disk, resume, take_job, remove_job,
  upload, finish_upload, enqueue_file_for_upload, submit_upload,
}
use fusedrive_filesystem.Uploads.Journal.{Surroundings, recover_journal}

-- An upload that a worker of the pool is making: the id, the path and what the client will answer.
pub record Running : Type 0 where
  pub file_id : Text
  pub local_path : Text
  pub result : UploadResult

pub record Pool : Type 0 where
  pub manager : State
  pub running : List Running
  pub is_shut_down : Bool

-- What a process has before `__init__`: the disk, and nothing else.
unfoldable pub reborn : State → State
reborn s = record s {
  queue = [];
  metrics = Metrics.new none;
  submitted = [];
  timers = [];
  is_tripped = false;
}

-- `__init__` before it loads the queue.
unfoldable pub clear : State → State
clear s = record s {
  queue = [];
  metrics =
      set (codes "upload_failures") (pos 0)
        (set (codes "upload_retries") (pos 0) (set (codes "upload_queue_size") (pos 0) s.metrics));
}

module _ (env : Settings) (around : Surroundings) (journal_dir : Text) where
  -- `__init__`, over the names in the journal; whether it returns.
  unfoldable pub start : List Text → State → Bool × State
  start names s =
      let (goes_on, recovered) =
        recover_journal env around journal_dir names (load_upload_queue_from_disk (clear s)) in
      (goes_on, if goes_on then resume recovered else recovered)

-- The first occurrence goes.
unfoldable pub take_out : Text → List Text → List Text
take_out file_id [] = []
take_out file_id (id ∷ ids) =
    let rest = take_out file_id ids in if id == file_id then ids else id ∷ rest

-- `_retry`, for one of the timers.
unfoldable pub drop_timer : ℕ → List (ℕ × Text) → List (ℕ × Text)
drop_timer i [] = []
drop_timer zero (t ∷ timers) = timers
drop_timer (suc i) (t ∷ timers) = t ∷ drop_timer i timers

unfoldable pub drop_running : ℕ → List Running → List Running
drop_running i [] = []
drop_running zero (r ∷ running) = running
drop_running (suc i) (r ∷ running) = r ∷ drop_running i running

-- A worker takes a job, and makes the upload.
unfoldable pub begin_job : Settings → Text → Pool → Pool
begin_job env file_id p =
    let s : State = record p.manager { submitted = take_out file_id p.manager.submitted } in
    elim (take_job file_id s) [
      | none ↦ record p { manager = s }
      | some job ↦ elim (lookup job.path s.files) [
        | none ↦ record p { manager = remove_job file_id none s }
        | some content ↦ record p {
          manager = s;
          running =
              record {
                file_id = file_id;
                local_path = job.path;
                result = upload env file_id job content;
              }
              ∷ p.running;
        }
      ]
    ]

-- The outcome is entered.
unfoldable pub end_job : Settings → ℕ → Running → Pool → Pool
end_job env i r p = record {
  manager = finish_upload env r.file_id r.local_path r.result p.manager;
  running = drop_running i p.running;
  is_shut_down = p.is_shut_down;
}

-- `_retry`. The dispatcher that is shut down counts the task and raises `RuntimeError`, which is
-- caught: the retry is lost.
unfoldable pub fire : ℕ → Text → Pool → Pool
fire i file_id p =
    let rest : State = record p.manager { timers = drop_timer i p.manager.timers } in
    record p {
      manager =
          if p.is_shut_down
          then record rest { metrics = inc (codes "thread_pool_tasks") rest.metrics }
          else submit_upload file_id rest;
    }

module _ (env : Settings) (around : Surroundings) (journal_dir : Text) where
  -- No call comes in behind the shutdown of the dispatcher, which `main` makes when `FUSE` has ended.
  pub data Step (p : Pool) : Pool → Type 0 where
    enqueues :
        (now file_id temp_path : Text) (is_new : Bool) (parent_id name : Option Text)
        → p.is_shut_down ≡ false
        → Step p (record p {
          manager =
              (enqueue_file_for_upload env now file_id temp_path is_new parent_id name p.manager).1;
        })
    begins :
        (file_id : Text) → mem file_id p.manager.submitted ≡ true → Step p (begin_job env file_id p)
    ends : (i : ℕ) (r : Running) → get_elem? p.running i ≡ some r → Step p (end_job env i r p)
    fires :
        (i delay : ℕ) (file_id : Text)
        → get_elem? p.manager.timers i ≡ some (delay, file_id)
        → Step p (fire i file_id p)
    shuts_down : Step p (record p { is_shut_down = true })
    -- The disk takes other queues than before.
    disk_changes :
        (can_save : Dict Text Job → Bool)
        → Step p (record p { manager = record p.manager { can_save = can_save } })
    -- The process ends or dies, and another starts over the same disk.
    restarts :
        (names : List Text) (t : State)
        → start env around journal_dir names (reborn p.manager) ≡ (true, t)
        → Step p (record { manager = t; running = []; is_shut_down = false })

  -- From the start of a process on, over any disk.
  pub data Reach : Pool → Type 0 where
    begin :
        (names : List Text) (s t : State)
        → start env around journal_dir names (reborn s) ≡ (true, t)
        → Reach (record { manager = t; running = []; is_shut_down = false })
    next : {p q : Pool} → Reach p → Step p q → Reach q
