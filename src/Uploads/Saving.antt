-- ===== src/Uploads/Saving.antt =====
-- `queue.json` and the gauge of the queue against the queue itself.
use fusedrive_filesystem.Base.Int.{ℤ, pos}
use fusedrive_filesystem.Metrics.Laws.{get-set, get-inc}
use fusedrive_filesystem.Uploads.Jobs.{
  Job, uploaded, remove_file, active_jobs, upload_fails, UploadResult, trip, take_job,
  report_failure, fail_job, set_queue_size, retry_job, remove_job, holds,
  persist_upload_queue_to_disk, handle_failure, finish_upload, execute_pending_upload_job, State,
  Settings,
}
use fusedrive_filesystem.Metrics
use fusedrive_filesystem.Base.{
  if_false, ◌∙◌, sym, ◌⊎◌, if_true, Dict, refl, ap, nat_eq, text_eq, ◌||◌, true, false, codes, ◌+◌,
  ltb, is_infix, Bool-cases, inr, inl, lookup, Option-cases, Bool, text_beq, Text, ◌≡◌,
}

pub record IsSaved (s : State) : Type 0 where
  pub saved : s.queue_file ≡ holds s.queue
  pub gauge : Metrics.get (codes "upload_queue_size") s.metrics ≡ pos (active_jobs s.queue)

abbrev gauge_of : State → ℤ
gauge_of s = Metrics.get (codes "upload_queue_size") s.metrics

-- The save failed, and the file and the gauge are those of before.
pub record IsUnsaved (s t : State) : Type 0 where
  pub refused : s.can_save t.queue ≡ false
  pub same_file : t.queue_file ≡ s.queue_file
  pub same_gauge : gauge_of t ≡ gauge_of s

persist-IsSaved : (s : State) → s.can_save s.queue ≡ true → IsSaved (persist_upload_queue_to_disk s)
unfolding persist_upload_queue_to_disk set_queue_size text_beq
persist-IsSaved s takes = record {
  saved = if_true _ _ _ takes;
  gauge =
      ap (Metrics.get (codes "upload_queue_size"))
        (if_true (s.can_save s.queue) (set_queue_size s).metrics s.metrics takes)
      ∙ simp get-set refl;
}

persist_outcomes :
    (s u : State)
    → u.can_save ≡ s.can_save
    → u.queue_file ≡ s.queue_file
    → gauge_of u ≡ gauge_of s
    → IsSaved (persist_upload_queue_to_disk u) ⊎ IsUnsaved s (persist_upload_queue_to_disk u)
unfolding persist_upload_queue_to_disk
persist_outcomes s u disk file gauge = elim (Bool-cases (u.can_save u.queue)) [
  | inl takes ↦ inl (persist-IsSaved u takes)
  | inr refuses ↦ inr (record {
    refused = ap (λ (f : Dict Text Job → Bool). f u.queue) (sym disk) ∙ refuses;
    same_file = if_false _ _ _ refuses ∙ file;
    same_gauge =
        ap (Metrics.get (codes "upload_queue_size"))
          (if_false (u.can_save u.queue) (set_queue_size u).metrics u.metrics refuses)
        ∙ gauge;
  })
]

retry_outcomes :
    (s : State) (id : Text) (job : Job) (u : State)
    → u.can_save ≡ s.can_save
    → u.queue_file ≡ s.queue_file
    → gauge_of u ≡ gauge_of s
    → IsSaved (retry_job id job u) ⊎ IsUnsaved s (retry_job id job u)
unfolding retry_job
retry_outcomes s id job u disk file gauge = elim (persist_outcomes s u disk file gauge) [
  | inl h ↦ inl (record { saved = h.saved; gauge = h.gauge })
  | inr h ↦ inr (record { refused = h.refused; same_file = h.same_file; same_gauge = h.same_gauge })
]

failure_outcomes :
    (env : Settings) (id : Text) (is_fatal : Bool) (s : State)
    → IsSaved s
    → IsSaved (handle_failure env id is_fatal s) ⊎ IsUnsaved s (handle_failure env id is_fatal s)
unfolding handle_failure fail_job text_beq
failure_outcomes env id is_fatal s h = elim (Option-cases (lookup id s.queue)) [
  | inl gone ↦ rw (gone, handle_failure) (inl h)
  | inr (old, found) ↦
      rw (found, handle_failure)
        (elim (Bool-cases (ltb env.max_retries (old.retries + 1) || is_fatal)) [
          | inl last ↦ rw last (persist_outcomes s _ refl refl (simp (get-inc, get-inc) refl))
          | inr again ↦ rw again (retry_outcomes s id _ _ refl refl (simp get-inc refl))
        ])
]

trip_outcomes :
    (env : Settings) (id : Text) (s : State)
    → IsSaved s
    → IsSaved (handle_failure env id true (trip s))
      ⊎ IsUnsaved s (handle_failure env id true (trip s))
unfolding trip
trip_outcomes env id s h =
    elim (failure_outcomes env id true (trip s) (record { saved = h.saved; gauge = h.gauge })) [
      | inl k ↦ inl k
      | inr k ↦
          inr (record { refused = k.refused; same_file = k.same_file; same_gauge = k.same_gauge })
    ]

finish_outcomes :
    (env : Settings) (id path : Text) (r : UploadResult) (s : State)
    → IsSaved s
    → IsSaved (finish_upload env id path r s) ⊎ IsUnsaved s (finish_upload env id path r s)
unfolding finish_upload remove_job remove_file report_failure text_beq
finish_outcomes env id path uploaded s h = persist_outcomes s _ refl refl (simp get-inc refl)
finish_outcomes env id path (upload_fails m) s h =
    elim (Bool-cases (is_infix (codes "storageQuotaExceeded") m)) [
      | inl quota ↦ rw (quota, report_failure) (trip_outcomes env id s h)
      | inr other ↦ rw (other, report_failure) (failure_outcomes env id false s h)
    ]

-- If `queue.json` holds the queue and `upload_queue_size` shows its jobs that have not failed,
-- then after `execute_pending_upload_job`, on each of its branches, either both hold again, or the
-- disk refused the queue of then, and the file and the gauge are those of before.
pub execute_saves :
    (env : Settings) (file_id : Text) (s : State)
    → IsSaved s
    → let t = execute_pending_upload_job env file_id s in IsSaved t ⊎ IsUnsaved s t
unfolding execute_pending_upload_job remove_job
execute_saves env id s h = elim (Option-cases (take_job id s)) [
  | inl idle ↦ rw (idle, execute_pending_upload_job) (inl h)
  | inr (job, taken) ↦
      rw (taken, execute_pending_upload_job)
        (elim (Option-cases (lookup job.path s.files)) [
          | inl missing ↦ rw missing (persist_outcomes s _ refl refl refl)
          | inr (content, there) ↦ rw there (finish_outcomes env id job.path _ s h)
        ])
]
