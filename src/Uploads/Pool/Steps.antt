-- ===== src/Uploads/Pool/Steps.antt =====
-- The steps of the upload manager, against what `IsCovered` asks.
use fusedrive_filesystem.Base.{
  Option-cases, true-ne-false, if_false, false, subst, get_elem?, Dict, arith, [], ◌∷◌, if_true,
  Bool-cases, ◌∙◌, text_eq, List, ℕ, lookup, mem, Text, refl, inl, inr, Bool, ◌==◌, ◌≡◌, true, some,
  none, ap, sym,
}
use fusedrive_filesystem.Uploads.Jobs.{
  take_job, load_upload_queue_from_disk, State, Settings, Job, submit_pending, submit_upload,
  resume, process_queue,
}
use fusedrive_filesystem.Uploads.Journal.{recover_journal, Surroundings}
use fusedrive_filesystem.Uploads.Pool.{
  drop_timer, take_out, end_job, begin_job, clear, Pool, Step, Reach, start, fire,
}
use fusedrive_filesystem.Uploads.Pool.Cover.{
  is_covered, IsCovered, submit_pending_keeps, submit_pending_all, mem-drop_timer, mem-append_left,
  mem-append_right,
}
use fusedrive_filesystem.Uploads.Pool.Endings.{end_job-IsCovered}
use fusedrive_filesystem.Uploads.Pool.Calls.{enqueue-IsCovered, begin_job-IsCovered}

fire-IsCovered :
    (i delay : ℕ) (file_id : Text) (p : Pool)
    → get_elem? p.manager.timers i ≡ some (delay, file_id)
    → p.is_shut_down ≡ false
    → IsCovered p
    → IsCovered (fire i file_id p)
unfolding fire submit_upload is_covered
fire-IsCovered i delay file_id p at_i accepts h id job found alive =
    let fired =
      if_false p.is_shut_down _
        (submit_upload file_id (record p.manager { timers = drop_timer i p.manager.timers }))
        accepts in
    let before = h id job (ap (λ (s : State). lookup id s.queue) (sym fired) ∙ found) alive in
    rw fired elim (Bool-cases (file_id == id)) [
      | inl same ↦
          let new =
            mem-append_right id p.manager.submitted (file_id ∷ []) (unfold mem in ground arith) in
          ground arith
      | inr other ↦ ground (
        arith,
        mem-append_left id p.manager.submitted (file_id ∷ []),
        mem-drop_timer id file_id i delay p.manager.timers at_i,
      )
    ]

resume_empty : (s : State) → s.queue ≡ [] → resume s ≡ s
unfolding resume
resume_empty s e =
    ap (λ (d : Dict Text Job). elim d as (λ x. State) [ [] ↦ s | _ ∷ _ ↦ process_queue s ]) e

resume_some :
    (s : State) (entry : Text × Job) (d : Dict Text Job)
    → s.queue ≡ entry ∷ d
    → resume s ≡ submit_pending s.queue s
unfolding resume process_queue
resume_some s entry d e =
    ap (λ (d : Dict Text Job). elim d as (λ x. State) [ [] ↦ s | _ ∷ _ ↦ process_queue s ]) e

resume-IsCovered :
    (s : State) → IsCovered (record { manager = resume s; running = []; is_shut_down = false })
unfolding is_covered
resume-IsCovered s = from_queue s.queue refl
  where
    from_queue :
        (d : Dict Text Job)
        → s.queue ≡ d
        → IsCovered (record { manager = resume s; running = []; is_shut_down = false })
    from_queue [] e id job found alive = absurd (
        let gone : none ≡ some job =
          unfold lookup in
          (ap (lookup id) (sym (ap (λ (t : State). t.queue) (resume_empty s e) ∙ e)) ∙ found) in
        cc)
    from_queue (entry ∷ d) e id job found alive =
        let same = resume_some s entry d e in
        let found' : lookup id s.queue ≡ some job =
          ap (lookup id)
            (sym (ap (λ (t : State). t.queue) same ∙ (submit_pending_keeps s.queue s id).0))
          ∙ found in
        let all = submit_pending_all s.queue s id job found' alive in rw same (ground (arith, all))

start-IsCovered :
    (env : Settings) (around : Surroundings) (journal_dir : Text) (names : List Text) (s t : State)
    → start env around journal_dir names s ≡ (true, t)
    → IsCovered (record { manager = t; running = []; is_shut_down = false })
unfolding start
start-IsCovered env around journal_dir names s t h =
    let r : Bool × State =
      recover_journal env around journal_dir names (load_upload_queue_from_disk (clear s)) in
    let goes_on : r.0 ≡ true = ap (λ (q : Bool × State). q.0) h in
    let same : resume r.1 ≡ t =
      sym (if_true r.0 (resume r.1) r.1 goes_on) ∙ ap (λ (q : Bool × State). q.1) h in
    subst (λ (u : State). IsCovered (record { manager = u; running = []; is_shut_down = false }))
      same (resume-IsCovered r.1)

pub begin_job_open :
    (env : Settings) (id : Text) (p : Pool) → (begin_job env id p).is_shut_down ≡ p.is_shut_down
unfolding begin_job
begin_job_open env id p =
    let s : State = record p.manager { submitted = take_out id p.manager.submitted } in
    elim (Option-cases (take_job id s)) [
      | inl idle ↦ rw (begin_job, idle) refl
      | inr (job, taken) ↦ elim (Option-cases (lookup job.path s.files)) [
        | inl gone ↦ rw (begin_job, taken, gone) refl
        | inr (content, there) ↦ rw (begin_job, taken, there) refl
      ]
    ]

Step-IsCovered :
    (env : Settings) (around : Surroundings) (journal_dir : Text) (p q : Pool)
    → (p.is_shut_down ≡ false → IsCovered p)
    → Step env around journal_dir p q
    → q.is_shut_down ≡ false
    → IsCovered q
unfolding fire end_job is_covered
Step-IsCovered env around journal_dir p q h
      (Step.enqueues now file_id temp_path is_new parent_id name accepts) open_still =
    enqueue-IsCovered env now file_id temp_path is_new parent_id name p (h accepts)
Step-IsCovered env around journal_dir p q h (Step.begins file_id waits) open_still =
    begin_job-IsCovered env file_id p (h (sym (begin_job_open env file_id p) ∙ open_still))
Step-IsCovered env around journal_dir p q h (Step.ends i r at_i) open_still =
    end_job-IsCovered env i r p at_i (h open_still)
Step-IsCovered env around journal_dir p q h (Step.fires i delay file_id at_i) open_still =
    fire-IsCovered i delay file_id p at_i open_still (h open_still)
Step-IsCovered env around journal_dir p q h Step.shuts_down open_still =
    absurd (true-ne-false open_still)
Step-IsCovered env around journal_dir p q h (Step.disk_changes can_save) open_still = h open_still
Step-IsCovered env around journal_dir p q h (Step.restarts names t started) open_still =
    start-IsCovered env around journal_dir names _ t started

-- As long as the dispatcher is not shut down, in every state that calls, workers, timers, a
-- failing disk and restarts lead to, every job that is in the queue and pending has been submitted
-- to the pool, is being uploaded by a worker, or has a timer that has not gone off.
pub Reach-IsCovered :
    (env : Settings) (around : Surroundings) (journal_dir : Text) (p : Pool)
    → Reach env around journal_dir p
    → p.is_shut_down ≡ false
    → IsCovered p
Reach-IsCovered env around journal_dir p (Reach.begin names s t started) open_still =
    start-IsCovered env around journal_dir names _ t started
Reach-IsCovered env around journal_dir p (Reach.next before step) open_still =
    Step-IsCovered env around journal_dir _ p (Reach-IsCovered env around journal_dir _ before) step
      open_still
