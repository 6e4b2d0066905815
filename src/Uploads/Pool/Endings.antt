-- ===== src/Uploads/Pool/Endings.antt =====
-- The end of a job, against what `IsCovered` asks.
use fusedrive_filesystem.Metrics.{inc}
use fusedrive_filesystem.Base.{
  true-ne-false, subst, lookup-insert_self, text_beq_iff, some-inj, insert, codes, is_infix,
  get_elem?, Dict, arith, ◌||◌, beq_refl, [], ◌+◌, ◌∷◌, ltb, if_true, if_false, Bool-cases, ◌++◌,
  ◌∙◌, text_eq, List, ℕ, lookup, Option-cases, Option, mem, Text, refl, inl, inr, Bool, ◌==◌, ◌≡◌,
  lookup-insert, lookup-erase, true, false, some, none, ap, sym,
}
use fusedrive_filesystem.Uploads.Jobs.{
  failed, State, Settings, Job, UploadResult, uploaded, upload_fails, is_failed, remove_job,
  finish_upload, handle_failure, report_failure, fail_job, retry_job, persist_upload_queue_to_disk,
  set_queue_size, trip, remove_file,
}
use fusedrive_filesystem.Uploads.Pool.{Pool, Running, end_job}
use fusedrive_filesystem.Uploads.Pool.Cover.{is_covered, IsCovered, timer_ids, mem-drop_running}

-- What the end of a job does to the queue, the pool and the timers.
pub record Ended (id : Text) (s t : State) : Type 0 where
  pub others : (j : Text) → (id == j) ≡ false → lookup j t.queue ≡ lookup j s.queue
  pub pool : t.submitted ≡ s.submitted
  pub keeps : (j : Text) → mem j (timer_ids s.timers) ≡ true → mem j (timer_ids t.timers) ≡ true
  pub own :
      (job : Job)
      → lookup id t.queue ≡ some job
      → is_failed job ≡ false
      → mem id (timer_ids t.timers) ≡ true

pub lookup-insert_other :
    (j id : Text) (job : Job) (d : Dict Text Job)
    → (id == j) ≡ false
    → lookup j (insert id job d) ≡ lookup j d
lookup-insert_other j id job d other =
    lookup-insert j id job d ∙ if_false (id == j) (some job) _ other

mem-timer_ids :
    (x id : Text) (n : ℕ) (timers : List (ℕ × Text))
    → mem x (timer_ids (timers ++ (n, id) ∷ [])) ≡ mem x (timer_ids timers) || id == x
unfolding mem
mem-timer_ids x id n [] = ground arith
mem-timer_ids x id n (t ∷ timers) = ground (arith, mem-timer_ids x id n timers)

pub remove_job-Ended :
    (id : Text) (path : Option Text) (s : State) → Ended id s (remove_job id path s)
unfolding remove_job remove_file persist_upload_queue_to_disk set_queue_size
remove_job-Ended id none s = record {
  others = λ j other. lookup-erase j id s.queue ∙ if_false (id == j) none _ other;
  pool = refl;
  keeps = λ j h. h;
  own = λ job found alive. absurd (
      let gone : none ≡ some job =
        sym (lookup-erase id id s.queue ∙ if_true (id == id) none _ (beq_refl id)) ∙ found in
      cc);
}
remove_job-Ended id (some path) s = record {
  others = λ j other. lookup-erase j id s.queue ∙ if_false (id == j) none _ other;
  pool = refl;
  keeps = λ j h. h;
  own = λ job found alive. absurd (
      let gone : none ≡ some job =
        sym (lookup-erase id id s.queue ∙ if_true (id == id) none _ (beq_refl id)) ∙ found in
      cc);
}

handle_failure-Ended :
    (env : Settings) (id : Text) (is_fatal : Bool) (s : State)
    → Ended id s (handle_failure env id is_fatal s)
unfolding handle_failure retry_job fail_job persist_upload_queue_to_disk set_queue_size is_failed
handle_failure-Ended env id is_fatal s = elim (Option-cases (lookup id s.queue)) [
  | inl gone ↦
      rw (handle_failure, gone)
        (record {
          others = λ j other. refl;
          pool = refl;
          keeps = λ j h. h;
          own = λ job found alive. absurd (let e : none ≡ some job = sym gone ∙ found in cc);
        })
  | inr (old, found) ↦ elim (Bool-cases (ltb env.max_retries (old.retries + 1) || is_fatal)) [
    | inl last ↦
        rw (handle_failure, found, last)
          (record {
            others =
                λ j other. lookup-insert_other j id _ _ other ∙ lookup-insert_other j id _ _ other;
            pool = refl;
            keeps = λ j h. h;
            own = λ job entered alive.
                let e : record old { retries = old.retries + 1; status = failed } ≡ job =
                  some-inj (sym (lookup-insert_self id _ _) ∙ entered) in
                absurd (true-ne-false (ap is_failed e ∙ alive));
          })
    | inr again ↦
        rw (handle_failure, found, again)
          (record {
            others = λ j other. lookup-insert_other j id _ _ other;
            pool = refl;
            keeps = λ j h. rw (mem-timer_ids j id) (ground (arith, h));
            own = λ job entered alive. rw (mem-timer_ids id id) (ground (arith, beq_refl id));
          })
  ]
]

finish_upload-Ended :
    (env : Settings) (id path : Text) (r : UploadResult) (s : State)
    → Ended id s (finish_upload env id path r s)
unfolding finish_upload report_failure trip
finish_upload-Ended env id path uploaded s =
    let e =
      remove_job-Ended id (some path) (record s { metrics = inc (codes "uploads") s.metrics }) in
    record { others = e.others; pool = e.pool; keeps = e.keeps; own = e.own }
finish_upload-Ended env id path (upload_fails message) s =
    elim (Bool-cases (is_infix (codes "storageQuotaExceeded") message)) [
      | inl full ↦
          let e = handle_failure-Ended env id true (trip s) in
          rw (report_failure, full)
            (record { others = e.others; pool = e.pool; keeps = e.keeps; own = e.own })
      | inr other ↦ rw (report_failure, other) (handle_failure-Ended env id false s)
    ]

pub end_job-IsCovered :
    (env : Settings) (i : ℕ) (r : Running) (p : Pool)
    → get_elem? p.running i ≡ some r
    → IsCovered p
    → IsCovered (end_job env i r p)
unfolding end_job is_covered
end_job-IsCovered env i r p at_i h id job found alive =
    let e = finish_upload-Ended env r.file_id r.local_path r.result p.manager in
    elim (Bool-cases (r.file_id == id)) [
      | inl same ↦
          let is_id = (text_beq_iff r.file_id id).0 same in
          let timed : mem id
                (timer_ids (finish_upload env r.file_id r.local_path r.result p.manager).timers)
              ≡ true =
            subst
              (λ j.
                mem j
                  (timer_ids (finish_upload env r.file_id r.local_path r.result p.manager).timers)
                ≡ true)
              is_id
              (e.own job
                (subst
                  (λ j.
                    lookup j (finish_upload env r.file_id r.local_path r.result p.manager).queue
                    ≡ some job)
                  (sym is_id) found)
                alive) in
          ground arith
      | inr other ↦
          let before = h id job (sym (e.others id other) ∙ found) alive in
          rw e.pool (ground (arith, e.keeps id, mem-drop_running id i r p.running at_i))
    ]
