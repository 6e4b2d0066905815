-- ===== src/Tests/Uploading.antt =====
-- A file that waits to be uploaded, and a client that fails.
use fusedrive_filesystem.Base.Int.{pos}
use fusedrive_filesystem.Uploads.Retries.{finish-drops_newer, fails-gives_up, attempts}
use fusedrive_filesystem.Uploads.Jobs.{
  is_failed, update, UploadResult, JobType, existing_retries, create, uploaded, failed,
  finish_upload, safe_path, enqueue_file_for_upload, upload_fails, upload, holds, get_pending_path,
  new_job, execute_pending_upload_job, active_jobs, State, Settings, Job,
}
use fusedrive_filesystem.Uploads.Durability.{enqueue-survives, enqueue-unsaved, restart}
use fusedrive_filesystem.Uploads.Saving.{execute_saves, IsSaved, IsUnsaved}
use fusedrive_filesystem.Metrics
use fusedrive_filesystem.Base.{
  insert, ◌⊎◌, join, text_eq, ℕ, ◌==◌, if◌then◌else◌, some, ends_with, true, starts_with, none,
  is_infix, refl, false, ◌∷◌, text_beq, codes, [], lookup, Text, ◌≡◌,
}

abbrev env : Settings
env = record {
  uploads_dir = codes "up";
  max_retries = 1;
  storage = record {
    upload_new_file_to_drive = λ parent_id name content. upload_fails (codes "API error");
    upload_local_file_to_drive = λ file_id content. upload_fails (codes "API error");
  };
}

abbrev doc : Text
doc = codes "doc"

abbrev draft : Text
draft = codes "draft"

abbrev idle : State
idle = record {
  queue = [];
  queue_file = holds [];
  can_save = λ q. true;
  files = (draft, 1 ∷ 2 ∷ []) ∷ [];
  metrics = Metrics.new none;
  submitted = [];
  timers = [];
  is_tripped = false;
}

idle-IsSaved : IsSaved idle
unfolding Metrics.new Metrics.get lookup active_jobs
idle-IsSaved = record { saved = refl; gauge = refl }

enqueue-survives_example :
    let (done, t) = enqueue_file_for_upload env (codes "7") doc draft false none none idle in
    let target = safe_path env doc (codes "7") in
    (done ≡ true)
    × (t.submitted ≡ doc ∷ [])
    × (lookup target (restart t).files ≡ some (1 ∷ 2 ∷ []))
    × ((j : Text)
        → lookup j (restart t).queue ≡ (
            if doc == j
            then some (new_job target (existing_retries doc idle) false none none)
            else lookup j idle.queue))
unfolding lookup text_beq get_pending_path
enqueue-survives_example =
    enqueue-survives env (codes "7") doc draft false none none (1 ∷ 2 ∷ []) idle (λ q. refl) refl
      (λ e. cc)

abbrev job : Job
job = new_job (codes "up/doc_7.tmp") 0 false none none

abbrev queued : State
queued = record idle { queue = (doc, job) ∷ []; files = (codes "up/doc_7.tmp", 1 ∷ 2 ∷ []) ∷ [] }

queued-IsSaved : IsSaved (record queued {
  queue_file = holds queued.queue;
  metrics = Metrics.set (codes "upload_queue_size") (pos 1) queued.metrics;
})
unfolding Metrics.set Metrics.new Metrics.get lookup active_jobs is_failed new_job text_beq insert
queued-IsSaved = record { saved = refl; gauge = refl }

-- An upload of the one job fails, while the disk refuses the queue.
abbrev stuck : State
stuck = record queued {
  queue_file = holds queued.queue;
  metrics = Metrics.set (codes "upload_queue_size") (pos 1) queued.metrics;
  can_save = λ q. false;
}

stuck-IsSaved : IsSaved stuck
stuck-IsSaved = record { saved = queued-IsSaved.saved; gauge = queued-IsSaved.gauge }

execute_saves_example :
    IsSaved (execute_pending_upload_job env doc stuck)
    ⊎ IsUnsaved stuck (execute_pending_upload_job env doc stuck)
execute_saves_example = execute_saves env doc stuck stuck-IsSaved

abbrev refusing : State
refusing = record idle { can_save = λ q. false }

enqueue-unsaved_example :
    let (done, t) = enqueue_file_for_upload env (codes "7") doc draft false none none refusing in
    let target = safe_path env doc (codes "7") in
    (done ≡ true)
    × (t.submitted ≡ doc ∷ [])
    × (lookup doc t.queue ≡ some (new_job target (existing_retries doc refusing) false none none))
    × (lookup target t.files ≡ some (1 ∷ 2 ∷ []))
    × ((restart t).queue ≡ (restart refusing).queue)
unfolding lookup text_beq get_pending_path
enqueue-unsaved_example =
    enqueue-unsaved env (codes "7") doc draft false none none (1 ∷ 2 ∷ []) refusing (λ q. refl) refl
      (λ e. cc)

either : (t : JobType) {r : UploadResult} → (elim t [ create ↦ r | update ↦ r ]) ≡ r
either create = refl
either update = refl

every : (j : Job) → upload env doc j (1 ∷ 2 ∷ []) ≡ upload_fails (codes "API error")
unfolding upload
every j = either j.job_type

fails-gives_up_example :
    (lookup doc (attempts env doc 2 queued).queue
      ≡ some (record job { retries = 2; status = failed }))
    × (lookup job.path (attempts env doc 2 queued).files ≡ some (1 ∷ 2 ∷ []))
unfolding lookup text_beq new_job upload is_infix starts_with
fails-gives_up_example =
    fails-gives_up env doc (codes "API error") (1 ∷ 2 ∷ []) every refl 1 job queued refl refl refl
      refl

finish-drops_newer_example :
    let t = (enqueue_file_for_upload env (codes "8") doc draft false none none idle).1 in
    let r = finish_upload env doc (codes "up/doc_7.tmp") uploaded t in
    (lookup doc r.queue ≡ none)
    × (lookup (safe_path env doc (codes "8")) r.files ≡ some (1 ∷ 2 ∷ []))
    × ((n : ℕ) → attempts env doc n r ≡ r)
unfolding lookup text_beq get_pending_path safe_path join starts_with ends_with
finish-drops_newer_example =
    finish-drops_newer env (codes "8") doc draft (codes "up/doc_7.tmp") false none none (1 ∷ 2 ∷ [])
      idle refl (λ e. cc) refl
