-- ===== src/Uploads/Durability.antt =====
-- What `queue.json` and the directory of uploads hold, so that a restart finds it again.
use fusedrive_filesystem.Uploads.Jobs.{
  unreadable, absent, QueueFile, Job, remove_file, move_file, forget_old, existing_retries, new_job,
  safe_path, enqueue_file_for_upload, get_pending_path, set_queue_size, holds, submit_upload,
  persist_upload_queue_to_disk, load_upload_queue_from_disk, State, Settings,
}
use fusedrive_filesystem.Base.{
  insert, if_false, ◌∙◌, sym, if_true, Dict, append_nonempty, join_nonempty, lookup-insert,
  lookup-insert_self, lookup-erase, refl, beq_ne, ap, ◌≢◌, nat_eq, text_eq, if◌then◌else◌, ◌∷◌,
  ◌++◌, true, false, codes, ◌==◌, some, Bool-cases, ℕ, inr, inl, List, lookup, Option, Option-cases,
  Bool, text_beq, [], Text, ◌≡◌,
}

-- A new process over the same disk, as far as `load_upload_queue_from_disk`.
abbrev pub restart : State → State
restart s = load_upload_queue_from_disk (record s { queue = [] })

-- The disk takes `queue.json` whatever the queue is.
abbrev pub AlwaysSaves : State → Type 0
AlwaysSaves s = (q : Dict Text Job) → s.can_save q ≡ true

-- The disk takes it for no queue.
abbrev pub NeverSaves : State → Type 0
NeverSaves s = (q : Dict Text Job) → s.can_save q ≡ false

still_there :
    (file_id temp_path : Text) (content : List ℕ) (s : State)
    → lookup temp_path s.files ≡ some content
    → get_pending_path file_id s ≢ some temp_path
    → lookup temp_path (forget_old file_id s).files ≡ some content
unfolding forget_old get_pending_path remove_file
still_there file_id temp_path content s there apart = elim (Option-cases (lookup file_id s.queue)) [
  | inl gone ↦ rw (gone, forget_old) there
  | inr (old, found) ↦
      let differs : (old.path == temp_path) ≡ false =
        beq_ne old.path temp_path (λ e. apart (rw (found, get_pending_path) (ap some e))) in
      rw (found, forget_old)
        (elim (Bool-cases (old.path == [])) [
          | inl empty ↦ rw empty there
          | inr named ↦ rw (named, lookup-erase temp_path old.path s.files, differs) there
        ])
]

pub forget_old-queue :
    (file_id : Text) (s : State)
    → ((forget_old file_id s).queue ≡ s.queue) × ((forget_old file_id s).submitted ≡ s.submitted)
unfolding forget_old remove_file
forget_old-queue file_id s = elim (Option-cases (lookup file_id s.queue)) [
  | inl gone ↦ rw (gone, forget_old) (refl, refl)
  | inr (old, found) ↦ rw (found, forget_old) (refl, refl)
]

forget_old-disk :
    (file_id : Text) (s : State)
    → ((forget_old file_id s).queue_file ≡ s.queue_file)
      × ((forget_old file_id s).can_save ≡ s.can_save)
unfolding forget_old remove_file
forget_old-disk file_id s = elim (Option-cases (lookup file_id s.queue)) [
  | inl gone ↦ rw (gone, forget_old) (refl, refl)
  | inr (old, found) ↦ rw (found, forget_old) (refl, refl)
]

-- What `enqueue_file_for_upload` leads to, whether the disk takes the queue or not.
pub record Enqueued (file_id target : Text) (job : Job) (content : List ℕ) (s t : State)
    : Type 0 where
  pub given : t.submitted ≡ s.submitted ++ file_id ∷ []
  pub entered : t.queue ≡ insert file_id job s.queue
  pub file : lookup target t.files ≡ some content
  pub on_disk : t.queue_file ≡ (if s.can_save t.queue then holds t.queue else s.queue_file)

pub enqueue-Enqueued :
    (env : Settings) (now file_id temp_path : Text) (is_new : Bool) (parent_id name : Option Text)
    (content : List ℕ) (s : State)
    → lookup temp_path s.files ≡ some content
    → get_pending_path file_id s ≢ some temp_path
    → let (done, t) = enqueue_file_for_upload env now file_id temp_path is_new parent_id name s in
      let target = safe_path env file_id now in
      let job = new_job target (existing_retries file_id s) is_new parent_id name in
      (done ≡ true) × Enqueued file_id target job content s t
unfolding enqueue_file_for_upload move_file persist_upload_queue_to_disk submit_upload
enqueue-Enqueued env now file_id temp_path is_new parent_id name content s there apart =
    let (queue_kept, submitted_kept) = forget_old-queue file_id s in
    let (file_kept, disk_kept) = forget_old-disk file_id s in
    let job =
      new_job (safe_path env file_id now) (existing_retries file_id s) is_new parent_id name in
    rw (enqueue_file_for_upload, move_file, still_there file_id temp_path content s there apart)
      (
        refl,
        record {
          given = ap (λ l. l ++ file_id ∷ []) submitted_kept;
          entered = ap (insert file_id job) queue_kept;
          file = lookup-insert_self (safe_path env file_id now) content _;
          on_disk = rw (file_kept, disk_kept) refl;
        },
      )

-- A restart reads what the file holds.
restart-holds :
    (s : State) (q : Dict Text Job)
    → s.queue_file ≡ holds q
    → ((restart s).queue ≡ q) × ((restart s).files ≡ s.files)
unfolding load_upload_queue_from_disk set_queue_size
restart-holds s q h = rw h (refl, refl)

loaded : QueueFile → Dict Text Job
loaded absent = []
loaded unreadable = []
loaded (holds q) = q

restart-loaded : (s : State) → (restart s).queue ≡ loaded s.queue_file
unfolding load_upload_queue_from_disk set_queue_size loaded
restart-loaded s =
    elim s.queue_file
      as (λ f.
        (load_upload_queue_from_disk (record s { queue = []; queue_file = f })).queue ≡ loaded f) [
          | absent ↦ refl
          | unreadable ↦ refl
          | holds q ↦ refl
        ]

-- Where the file to be uploaded exists and is not the one that waits for this id, and the disk
-- takes `queue.json`, `enqueue_file_for_upload` returns and submits one upload; a process that
-- then starts over the same disk loads the queue of before with the new job entered under its id
-- (its retries kept), and finds the content under the path of the job.
pub enqueue-survives :
    (env : Settings) (now file_id temp_path : Text) (is_new : Bool) (parent_id name : Option Text)
    (content : List ℕ) (s : State)
    → AlwaysSaves s
    → lookup temp_path s.files ≡ some content
    → get_pending_path file_id s ≢ some temp_path
    → let (done, t) = enqueue_file_for_upload env now file_id temp_path is_new parent_id name s in
      let target = safe_path env file_id now in
      (done ≡ true)
      × (t.submitted ≡ s.submitted ++ file_id ∷ [])
      × (lookup target (restart t).files ≡ some content)
      × ((j : Text)
          → lookup j (restart t).queue ≡ (
              if file_id == j
              then some (new_job target (existing_retries file_id s) is_new parent_id name)
              else lookup j s.queue))
enqueue-survives env now file_id temp_path is_new parent_id name content s takes there apart =
    let t : State = (enqueue_file_for_upload env now file_id temp_path is_new parent_id name s).1 in
    let (done, h) =
      enqueue-Enqueued env now file_id temp_path is_new parent_id name content s there apart in
    let (queue, files) = restart-holds t t.queue (h.on_disk ∙ if_true _ _ _ (takes t.queue)) in
    (
      done,
      h.given,
      ap (lookup (safe_path env file_id now)) files ∙ h.file,
      λ j. ap (lookup j) (queue ∙ h.entered) ∙ lookup-insert j file_id _ s.queue,
    )

-- Where the file to be uploaded exists and is not the one that waits for this id, but the disk
-- does not take `queue.json`, `enqueue_file_for_upload` returns and submits the upload as well,
-- the job is in the queue and its file in place, but a process that then starts over the same disk
-- loads the queue that it would have loaded before the call.
pub enqueue-unsaved :
    (env : Settings) (now file_id temp_path : Text) (is_new : Bool) (parent_id name : Option Text)
    (content : List ℕ) (s : State)
    → NeverSaves s
    → lookup temp_path s.files ≡ some content
    → get_pending_path file_id s ≢ some temp_path
    → let (done, t) = enqueue_file_for_upload env now file_id temp_path is_new parent_id name s in
      let target = safe_path env file_id now in
      (done ≡ true)
      × (t.submitted ≡ s.submitted ++ file_id ∷ [])
      × (lookup file_id t.queue
          ≡ some (new_job target (existing_retries file_id s) is_new parent_id name))
      × (lookup target t.files ≡ some content)
      × ((restart t).queue ≡ (restart s).queue)
enqueue-unsaved env now file_id temp_path is_new parent_id name content s refuses there apart =
    let t : State = (enqueue_file_for_upload env now file_id temp_path is_new parent_id name s).1 in
    let (done, h) =
      enqueue-Enqueued env now file_id temp_path is_new parent_id name content s there apart in
    (
      done,
      h.given,
      ap (lookup file_id) h.entered ∙ lookup-insert_self file_id _ s.queue,
      h.file,
      restart-loaded t
          ∙ ap loaded (h.on_disk ∙ if_false _ _ _ (refuses t.queue))
          ∙ sym (restart-loaded s),
    )

pub enqueued_file :
    (env : Settings) (now file_id temp_path : Text) (is_new : Bool) (parent_id name : Option Text)
    (content : List ℕ) (s : State)
    → lookup temp_path s.files ≡ some content
    → get_pending_path file_id s ≢ some temp_path
    → let (_, t) = enqueue_file_for_upload env now file_id temp_path is_new parent_id name s in
      lookup (safe_path env file_id now) t.files ≡ some content
unfolding enqueue_file_for_upload move_file persist_upload_queue_to_disk submit_upload
    set_queue_size
enqueued_file env now file_id temp_path is_new parent_id name content s there apart =
    rw (enqueue_file_for_upload, move_file, still_there file_id temp_path content s there apart)
      (lookup-insert_self (safe_path env file_id now) content _)

pub safe_path_nonempty :
    (env : Settings) (file_id now : Text) → (safe_path env file_id now == []) ≡ false
unfolding safe_path text_beq
safe_path_nonempty env file_id now =
    join_nonempty env.uploads_dir _
      (append_nonempty (file_id ++ codes "_" ++ now) (codes ".tmp") refl)

pub Enqueued-job :
    (file_id target : Text) (job : Job) (content : List ℕ) (s t : State)
    → job.path ≡ target
    → Enqueued file_id target job content s t
    → get_pending_path file_id t ≡ some target
unfolding get_pending_path
Enqueued-job file_id target job content s t named h =
    rw (get_pending_path, ap (lookup file_id) h.entered ∙ lookup-insert_self file_id job s.queue)
      (ap some named)

pub Enqueued-restart :
    (file_id target : Text) (job : Job) (content : List ℕ) (s t : State)
    → AlwaysSaves s
    → job.path ≡ target
    → Enqueued file_id target job content s t
    → (get_pending_path file_id (restart t) ≡ some target)
      × (lookup target (restart t).files ≡ some content)
unfolding get_pending_path
Enqueued-restart file_id target job content s t takes named h =
    let (queue, files) = restart-holds t t.queue (h.on_disk ∙ if_true _ _ _ (takes t.queue)) in
    (
      rw
          (
            get_pending_path,
            ap (lookup file_id) (queue ∙ h.entered) ∙ lookup-insert_self file_id job s.queue,
          )
          (ap some named),
      ap (lookup target) files ∙ h.file,
    )
