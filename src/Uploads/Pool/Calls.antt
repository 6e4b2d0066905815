-- ===== src/Uploads/Pool/Calls.antt =====
-- A call that enters a job, and a worker that takes one, against what `IsCovered` asks.
use fusedrive_filesystem.Base.{
  ◌⊎◌, true-ne-false, subst, text_beq_iff, insert, arith, [], ◌∷◌, Bool-cases, ◌++◌, ◌∙◌, text_eq,
  lookup, Option-cases, Option, mem, Text, refl, inl, inr, Bool, ◌==◌, ◌≡◌, true, some, none, ap,
  sym,
}
use fusedrive_filesystem.Uploads.Jobs.{
  State, Settings, Job, is_failed, submit_upload, take_job, remove_job, enqueue_file_for_upload,
  persist_upload_queue_to_disk, set_queue_size, remove_file, forget_old, move_file,
}
use fusedrive_filesystem.Uploads.Durability.{forget_old-queue}
use fusedrive_filesystem.Uploads.Pool.{Pool, begin_job, take_out}
use fusedrive_filesystem.Uploads.Pool.Cover.{
  is_covered, IsCovered, timer_ids, mem-take_out, mem-append_left, mem-append_right,
}
use fusedrive_filesystem.Uploads.Pool.Endings.{lookup-insert_other, remove_job-Ended}

forget_old_timers : (file_id : Text) (s : State) → (forget_old file_id s).timers ≡ s.timers
unfolding forget_old remove_file
forget_old_timers file_id s = elim (Option-cases (lookup file_id s.queue)) [
  | inl gone ↦ rw (forget_old, gone) refl
  | inr (old, found) ↦ rw (forget_old, found) refl
]

-- Either nothing that matters here changes, or a job is entered and handed to the pool.
enqueue_cases :
    (env : Settings) (now file_id temp_path : Text) (is_new : Bool) (parent_id name : Option Text)
    (s : State)
    → let t = (enqueue_file_for_upload env now file_id temp_path is_new parent_id name s).1 in
      (t.timers ≡ s.timers)
      × (((t.queue ≡ s.queue) × (t.submitted ≡ s.submitted))
          ⊎ ((job : Job) × (t.queue ≡ insert file_id job s.queue)
              × (t.submitted ≡ s.submitted ++ file_id ∷ [])))
unfolding enqueue_file_for_upload move_file submit_upload persist_upload_queue_to_disk
    set_queue_size
enqueue_cases env now file_id temp_path is_new parent_id name s =
    let (queue_kept, pool_kept) = forget_old-queue file_id s in
    elim (Option-cases (lookup temp_path (forget_old file_id s).files)) [
      | inl gone ↦
          rw (enqueue_file_for_upload, move_file, gone)
            (forget_old_timers file_id s, inl (queue_kept, pool_kept))
      | inr (content, there) ↦
          rw (enqueue_file_for_upload, move_file, there)
            (
              forget_old_timers file_id s,
              inr (_, ap (insert file_id _) queue_kept, ap (λ l. l ++ file_id ∷ []) pool_kept),
            )
    ]

pub enqueue-IsCovered :
    (env : Settings) (now file_id temp_path : Text) (is_new : Bool) (parent_id name : Option Text)
    (p : Pool)
    → IsCovered p
    → IsCovered (record p {
      manager =
          (enqueue_file_for_upload env now file_id temp_path is_new parent_id name p.manager).1;
    })
unfolding is_covered
enqueue-IsCovered env now file_id temp_path is_new parent_id name p h id job found alive =
    let (timers_kept, change) =
      enqueue_cases env now file_id temp_path is_new parent_id name p.manager in
    elim change [
      | inl (queue_kept, pool_kept) ↦
          rw (timers_kept, pool_kept) (h id job (ap (lookup id) (sym queue_kept) ∙ found) alive)
      | inr (entered, queue_grown, pool_grown) ↦ elim (Bool-cases (file_id == id)) [
        | inl same ↦
            let new =
              mem-append_right id p.manager.submitted (file_id ∷ []) (unfold mem in ground arith) in
            rw (timers_kept, pool_grown) (ground arith)
        | inr other ↦
            let before =
              h id job
                (sym (lookup-insert_other id file_id entered p.manager.queue other)
                  ∙ ap (lookup id) (sym queue_grown)
                  ∙ found)
                alive in
            rw (timers_kept, pool_grown)
              (ground (arith, mem-append_left id p.manager.submitted (file_id ∷ [])))
      ]
    ]

-- A submission may be used up where the id has no pending job.
use_up :
    (file_id : Text) (p : Pool)
    → ((job : Job) → lookup file_id p.manager.queue ≡ some job → is_failed job ≡ true)
    → IsCovered p
    → IsCovered (record p {
      manager = record p.manager { submitted = take_out file_id p.manager.submitted };
    })
unfolding is_covered
use_up file_id p dead h id job found alive = elim (Bool-cases (file_id == id)) [
  | inl same ↦ absurd (
      true-ne-false (
        sym
          (dead job (ap (λ j. lookup j p.manager.queue) ((text_beq_iff file_id id).0 same) ∙ found))
        ∙ alive))
  | inr other ↦
      let before = h id job found alive in
      ground (arith, mem-take_out id file_id p.manager.submitted)
]

take_job-is_failed :
    (file_id : Text) (s : State) (job : Job)
    → take_job file_id s ≡ none
    → lookup file_id s.queue ≡ some job
    → is_failed job ≡ true
unfolding take_job
take_job-is_failed file_id s job nothing found = elim (Bool-cases (is_failed job)) [
  | inl dead ↦ dead
  | inr alive ↦ absurd (let e : some job ≡ none = rw (take_job, found, alive) at nothing in cc)
]

pub begin_job-IsCovered :
    (env : Settings) (file_id : Text) (p : Pool) → IsCovered p → IsCovered (begin_job env file_id p)
unfolding begin_job take_job is_covered
begin_job-IsCovered env file_id p h =
    let s : State = record p.manager { submitted = take_out file_id p.manager.submitted } in
    elim (Option-cases (take_job file_id s)) [
      | inl nothing ↦
          rw (begin_job, nothing)
            (use_up file_id p (λ job found. take_job-is_failed file_id s job nothing found) h)
      | inr (taken, yes_taken) ↦ elim (Option-cases (lookup taken.path s.files)) [
        | inl missing ↦
            rw (begin_job, yes_taken, missing)
              (λ id job found alive.
                let e = remove_job-Ended file_id none s in
                elim (Bool-cases (file_id == id)) [
                  | inl same ↦
                      let is_id = (text_beq_iff file_id id).0 same in
                      let timed : mem id (timer_ids (remove_job file_id none s).timers) ≡ true =
                        subst (λ j. mem j (timer_ids (remove_job file_id none s).timers) ≡ true)
                          is_id
                          (e.own job
                            (subst (λ j. lookup j (remove_job file_id none s).queue ≡ some job)
                              (sym is_id) found)
                            alive) in
                      ground arith
                  | inr other ↦
                      let before = h id job (sym (e.others id other) ∙ found) alive in
                      rw e.pool
                        (ground (arith, e.keeps id, mem-take_out id file_id p.manager.submitted))
                ])
        | inr (content, there) ↦
            rw (begin_job, yes_taken, there)
              (λ id job found alive.
                let before = h id job found alive in
                elim (Bool-cases (file_id == id)) [
                  | inl same ↦ unfold mem in ground arith
                  | inr other ↦
                      let kept = mem-take_out id file_id p.manager.submitted in
                      unfold mem in ground (arith, kept)
                ])
      ]
    ]
