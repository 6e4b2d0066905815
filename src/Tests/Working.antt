-- ===== src/Tests/Working.antt =====
-- An upload that fails once, and two threads with one lock.
use fusedrive_filesystem.Base.{
  mem, text_beq, lookup, codes, Text, refl, true, false, none, ◌∷◌, [], inl,
}
use fusedrive_filesystem.Metrics
use fusedrive_filesystem.Uploads.Jobs.{
  submit_upload, is_failed, submit_pending, process_queue, set_queue_size,
  load_upload_queue_from_disk, resume, Settings, State, upload_fails, holds, pending, update, Job,
}
use fusedrive_filesystem.Uploads.Journal.{recover_journal, Surroundings}
use fusedrive_filesystem.Uploads.Pool.{clear, Pool, Step, Reach, start, begin_job, reborn}
use fusedrive_filesystem.Uploads.Pool.Cover.{IsCovered}
use fusedrive_filesystem.Uploads.Pool.Steps.{Reach-IsCovered, begin_job_open}
use fusedrive_filesystem.Locks.Manager
use fusedrive_filesystem.Locks.Manager.{ask}
use fusedrive_filesystem.Locks.Manager.Threads
use fusedrive_filesystem.Locks.Manager.Threads.Graph.{IsAcyclic}
use fusedrive_filesystem.Locks.Manager.Threads.Acyclic.{Reach-IsAcyclic}

abbrev env : Settings
env = record {
  uploads_dir = codes "up";
  max_retries = 5;
  storage = record {
    upload_new_file_to_drive = λ parent_id name content. upload_fails (codes "API error");
    upload_local_file_to_drive = λ file_id content. upload_fails (codes "API error");
  };
}

abbrev around : Surroundings
around = record {
  decode_name = λ encoded. none;
  uuid4 = λ filename. filename;
  now = λ filename. codes "7";
}

abbrev doc : Text
doc = codes "doc"

abbrev job : Job
job = record {
  path = codes "up/doc_7.tmp";
  retries = 0;
  status = pending;
  job_type = update;
  parent_id = none;
  name = none;
}

abbrev disk : State
disk = record {
  queue = [];
  queue_file = holds ((doc, job) ∷ []);
  can_save = λ q. true;
  files = (job.path, 1 ∷ 2 ∷ []) ∷ [];
  metrics = Metrics.new none;
  submitted = [];
  timers = [];
  is_tripped = false;
}

abbrev started : State
started = (start env around (codes "journal") [] (reborn disk)).1

abbrev fresh_pool : Pool
fresh_pool = record { manager = started; running = []; is_shut_down = false }

Reach-IsCovered_example : IsCovered (begin_job env doc fresh_pool)
unfolding start recover_journal mem resume load_upload_queue_from_disk clear reborn set_queue_size
    process_queue submit_pending is_failed submit_upload text_beq
Reach-IsCovered_example =
    Reach-IsCovered env around (codes "journal") (begin_job env doc fresh_pool)
      (Reach.next (Reach.begin [] disk started refl) (Step.begins doc refl))
      (begin_job_open env doc fresh_pool)

abbrev key : Text
key = codes "chunk"

Reach-IsAcyclic_example : IsAcyclic (ask true key 1 (Manager.new (Metrics.new none))).1
unfolding Manager.new lookup text_beq
Reach-IsAcyclic_example =
    Reach-IsAcyclic (Metrics.new none) (ask true key 1 (Manager.new (Metrics.new none))).1
      (Threads.Reach.next Threads.Reach.begin (Threads.Step.asks true key 1 refl (refl, inl refl)))
