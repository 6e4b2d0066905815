-- ===== src/Uploads/Retries.antt =====
-- What becomes of a job that fails, and of one that is replaced while it is uploaded.
use fusedrive_filesystem.Uploads.Durability.{enqueue-Enqueued}
use fusedrive_filesystem.Uploads.Jobs.{
  remove_file, remove_job, uploaded, enqueue_file_for_upload, safe_path, get_pending_path,
  set_queue_size, failed, report_failure, persist_upload_queue_to_disk, retry_job, pending,
  finish_upload, is_failed, fail_job, take_job, handle_failure, upload_fails,
  execute_pending_upload_job, upload, State, Job, Settings,
}
use fusedrive_filesystem.Base.{
  lookup-erase, lookup-erase_self, erase, sym, subst, none, refl, ap, ◌==◌, ◌≢◌, ◌∙◌, inr,
  lookup-insert_self, arith, lt→ltb, inl, Option, true, Bool-cases, Bool, [], ◌∷◌, ◌^◌, ◌++◌, ltb,
  if◌then◌else◌, text_eq, ◌+◌, some, lookup, false, codes, zero, is_infix, suc, ℕ, List, Text, ◌≡◌,
}

-- The job runs `n` times, whether a timer or a restart brings it back.
abbrev pub attempts : Settings → Text → ℕ → State → State
attempts env file_id zero s = s
attempts env file_id (suc n) s = attempts env file_id n (execute_pending_upload_job env file_id s)

module _ (env : Settings) (file_id message : Text) (content : List ℕ)
    (fails : (j : Job) → upload env file_id j content ≡ upload_fails message)
    (other : is_infix (codes "storageQuotaExceeded") message ≡ false) where
  failed_once :
      (job : Job) (s : State)
      → lookup file_id s.queue ≡ some job
      → job.status ≡ pending
      → lookup job.path s.files ≡ some content
      → execute_pending_upload_job env file_id s ≡ handle_failure env file_id false s
  unfolding execute_pending_upload_job take_job is_failed finish_upload report_failure
  failed_once job s found waits there =
      rw
        (
          execute_pending_upload_job,
          take_job,
          found,
          is_failed,
          waits,
          there,
          fails _,
          finish_upload,
          report_failure,
          other,
        )
        refl

  failed_lem :
      (job : Job) (s : State)
      → lookup file_id s.queue ≡ some job
      → (lookup file_id (handle_failure env file_id false s).queue
          ≡ some (
              if ltb env.max_retries (job.retries + 1)
              then record job { retries = job.retries + 1; status = failed }
              else record job { retries = job.retries + 1 }))
        × ((handle_failure env file_id false s).files ≡ s.files)
        × ((handle_failure env file_id false s).timers ≡ (
            if ltb env.max_retries (job.retries + 1)
            then s.timers
            else s.timers ++ (2 ^ (job.retries + 1), file_id) ∷ []))
  unfolding handle_failure fail_job retry_job persist_upload_queue_to_disk set_queue_size
  failed_lem job s found =
      rw (handle_failure, found)
        (elim (Bool-cases (ltb env.max_retries (job.retries + 1))) [
          | inl last ↦ rw last (lookup-insert_self file_id _ _, refl, refl)
          | inr again ↦ rw again (lookup-insert_self file_id _ _, refl, refl)
        ])

  retried :
      (n : ℕ) (job : Job) (s : State)
      → lookup file_id s.queue ≡ some job
      → job.status ≡ pending
      → lookup job.path s.files ≡ some content
      → job.retries + n ≡ env.max_retries
      → (lookup file_id (attempts env file_id (suc n) s).queue
          ≡ some (record job { retries = env.max_retries + 1; status = failed }))
        × (lookup job.path (attempts env file_id (suc n) s).files ≡ some content)
  retried zero job s found waits there all =
      let (queue, files, _) = failed_lem job s found in
      let last : ltb env.max_retries (job.retries + 1) ≡ true = lt→ltb _ _ (omega arith) in
      let spent : job.retries + 1 ≡ env.max_retries + 1 = omega arith in
      rw (failed_once job s found waits there) (
        queue ∙ rw last (ap (λ r. some (record job { retries = r; status = failed })) spent),
        ap (lookup job.path) files ∙ there,
      )
  retried (suc n) job s found waits there all =
      let (queue, files, _) = failed_lem job s found in
      let again : ltb env.max_retries (job.retries + 1) ≡ false = ground arith in
      subst
        (λ r.
          (lookup file_id (attempts env file_id (suc n) r).queue
            ≡ some (record job { retries = env.max_retries + 1; status = failed }))
          × (lookup job.path (attempts env file_id (suc n) r).files ≡ some content))
        (sym (failed_once job s found waits there))
        (retried n (record job { retries = job.retries + 1 }) (handle_failure env file_id false s)
          (queue ∙ rw again refl) waits (ap (lookup job.path) files ∙ there) (omega arith))

-- A pending job whose file is there and whose upload fails every time, with an error other than
-- the quota, is marked as failed with `max_retries + 1` retries by the run that follows its last
-- allowed retry, and its file is kept.
pub fails-gives_up :
    (env : Settings) (file_id message : Text) (content : List ℕ)
    → ((j : Job) → upload env file_id j content ≡ upload_fails message)
    → is_infix (codes "storageQuotaExceeded") message ≡ false
    → (n : ℕ) (job : Job) (s : State) → lookup file_id s.queue ≡ some job
    → job.status ≡ pending
    → lookup job.path s.files ≡ some content
    → job.retries + n ≡ env.max_retries
    → (lookup file_id (attempts env file_id (suc n) s).queue
        ≡ some (record job { retries = env.max_retries + 1; status = failed }))
      × (lookup job.path (attempts env file_id (suc n) s).files ≡ some content)
fails-gives_up = retried

gone_idle :
    (env : Settings) (file_id : Text) (s : State)
    → lookup file_id s.queue ≡ none
    → (n : ℕ) → attempts env file_id n s ≡ s
unfolding execute_pending_upload_job take_job
gone_idle env file_id s gone zero = refl
gone_idle env file_id s gone (suc n) =
    let idle : execute_pending_upload_job env file_id s ≡ s =
      rw (execute_pending_upload_job, take_job, gone) refl in
    ap (attempts env file_id n) idle ∙ gone_idle env file_id s gone n

-- When a version of a file is enqueued (from a file that exists and is not the one that waits for
-- the id) while an older one, under another path, is uploaded, the end of that upload takes the
-- new job off the queue: its content stays on the disk, and no later run for the id uploads it or
-- changes anything.
pub finish-drops_newer :
    (env : Settings) (now file_id temp_path old_path : Text) (is_new : Bool)
    (parent_id name : Option Text) (content : List ℕ) (s : State)
    → lookup temp_path s.files ≡ some content
    → get_pending_path file_id s ≢ some temp_path
    → (old_path == safe_path env file_id now) ≡ false
    → let t = (enqueue_file_for_upload env now file_id temp_path is_new parent_id name s).1 in
      let r = finish_upload env file_id old_path uploaded t in
      (lookup file_id r.queue ≡ none)
      × (lookup (safe_path env file_id now) r.files ≡ some content)
      × ((n : ℕ) → attempts env file_id n r ≡ r)
unfolding finish_upload remove_job remove_file persist_upload_queue_to_disk set_queue_size
finish-drops_newer env now file_id temp_path old_path is_new parent_id name content s there apart
      older =
    let t : State = (enqueue_file_for_upload env now file_id temp_path is_new parent_id name s).1 in
    let new_file : lookup (safe_path env file_id now) t.files ≡ some content =
      (enqueue-Enqueued env now file_id temp_path is_new parent_id name content s there
        apart).1.file in
    let gone : lookup file_id (erase file_id t.queue) ≡ none = lookup-erase_self file_id t.queue in
    (
      gone,
      elim (Bool-cases (old_path == [])) [
        | inl empty ↦ rw empty new_file
        | inr named ↦
            rw (named, lookup-erase (safe_path env file_id now) old_path t.files, older) new_file
      ],
      gone_idle env file_id _ gone,
    )
