-- ===== src/Fuse/Handles/Releasing.antt =====
-- Releasing a handle: the queue of uploads and the other readers after it.
use fusedrive_filesystem.Metrics.{MetricsRegistry}
use fusedrive_filesystem.Base.Int.{pos}
use fusedrive_filesystem.Stats.{str}
use fusedrive_filesystem.Metadata.{get_metadata, set_metadata}
use fusedrive_filesystem.Uploads.Durability.{
  safe_path_nonempty, Enqueued-restart, Enqueued-job, restart, enqueue-Enqueued, Enqueued,
  AlwaysSaves,
}
use fusedrive_filesystem.Contracts.{Outcome, returns, DriveNodeMetadata}
use fusedrive_filesystem.Uploads.Jobs.{safe_path, get_pending_path, new_job, existing_retries, Job}
use fusedrive_filesystem.Base.{
  some-inj, true-ne-false, beq_ne, lookup-erase, nat_eq, arith, not, ◌||◌, ◌+◌, slice, happly,
  subst, erase, codes, true, starts_with, [], ◌==◌, if_false, sym, if_true, ◌∙◌, ap, none, false,
  refl, text_eq, inr, ◌≢◌, inl, some, Option, Bool-cases, lookup, Bool, ℕ, Option-cases, List, Text,
  ◌≡◌,
}
use fusedrive_filesystem.Uploads.Jobs
use fusedrive_filesystem.Fuse.State.{
  files_of, on_chunks, on_uploads, invalidate_chunks, store_metadata, enqueue, Settings, State,
  OpenFile, ◌>>=◌,
}
use fusedrive_filesystem.Fuse.Handles.{
  read_node, release_open, release_written, release, read_open, release_edit, pending_content,
  resize_node, resize_to_file, read,
}

-- What the caches do leaves the rest alone.
abbrev SameFiles : State → State → Type 0
SameFiles s t = (t.uploads ≡ s.uploads) × (t.open_files ≡ s.open_files)

store_metadata-SameFiles :
    (env : Settings) (id : Text) (m : DriveNodeMetadata) (s : State)
    → SameFiles s (store_metadata env id m s)
unfolding store_metadata invalidate_chunks on_chunks
store_metadata-SameFiles env id m s = elim (Bool-cases (set_metadata env.ttl id m s.cache).0) [
  | inl changed ↦ rw (store_metadata, changed) (refl, refl)
  | inr same ↦ rw (store_metadata, same) (refl, refl)
]

resize-SameFiles :
    (env : Settings) (id path : Text) (s : State) → SameFiles s (resize_to_file env id path s)
unfolding resize_to_file resize_node
resize-SameFiles env id path s = elim (Option-cases (lookup path (files_of s))) [
  | inl gone ↦ rw (resize_to_file, gone) (refl, refl)
  | inr (content, there) ↦ elim (Option-cases (get_metadata env.ttl id s.cache)) [
    | inl unknown ↦ rw (resize_to_file, there, resize_node, unknown) (refl, refl)
    | inr (m, known) ↦
        rw (resize_to_file, there, resize_node, known) (store_metadata-SameFiles env id _ _)
  ]
]

-- The content waits for upload under the id, and so far as the disk took it, `queue.json` has it.
pub record IsQueued (id : Text) (content : List ℕ) (u : Jobs.State) (t : State) : Type 0 where
  pub waits : pending_content id t ≡ some content
  pub target : Text
  pub job : Job
  pub named : job.path ≡ target
  pub entered : Enqueued id target job content u t.uploads

pending_metrics :
    (id : Text) (m : MetricsRegistry) (u : Jobs.State)
    → get_pending_path id (record u { metrics = m }) ≡ get_pending_path id u
unfolding get_pending_path
pending_metrics id m u = refl

pending_content_lem :
    (id path : Text) (content : List ℕ) (s : State)
    → get_pending_path id s.uploads ≡ some path
    → (path == []) ≡ false
    → lookup path (files_of s) ≡ some content
    → pending_content id s ≡ some content
unfolding pending_content
pending_content_lem id path content s waits named there = rw (pending_content, waits, named) there

enqueue-IsQueued :
    (env : Settings) (id path : Text) (is_new : Bool) (parent name : Option Text) (content : List ℕ)
    (s : State)
    → lookup path (files_of s) ≡ some content
    → get_pending_path id s.uploads ≢ some path
    → let (o, t) = enqueue env id path is_new parent name s in
      (o ≡ returns tt) × (t.open_files ≡ s.open_files) × IsQueued id content s.uploads t
unfolding enqueue on_uploads new_job
enqueue-IsQueued env id path is_new parent name content s there apart =
    let u : Jobs.State = record s.uploads { metrics = s.metrics } in
    let now : Text = str (pos s.cache.now) in
    let target : Text = safe_path env.upload_env id now in
    let t : State = (enqueue env id path is_new parent name s).1 in
    let apart' : get_pending_path id u ≢ some path =
      λ e. apart (sym (pending_metrics id s.metrics s.uploads) ∙ e) in
    let (done, h) =
      enqueue-Enqueued env.upload_env now id path is_new parent name content u there apart' in
    let job : Job = new_job target (existing_retries id u) is_new parent name in
    let waits : get_pending_path id t.uploads ≡ some target =
      Enqueued-job id target job content u t.uploads refl h in
    (
      if_true _ _ _ done,
      refl,
      record {
        waits =
            pending_content_lem id target content t waits (safe_path_nonempty env.upload_env id now)
              h.file;
        target = target;
        job = job;
        named = refl;
        entered = record {
          given = h.given;
          entered = h.entered;
          file = h.file;
          on_disk = h.on_disk;
        };
      },
    )

invalidate-SameFiles :
    (env : Settings) (id : Text) (s : State) → SameFiles s (invalidate_chunks env id s)
unfolding invalidate_chunks on_chunks
invalidate-SameFiles env id s = (refl, refl)

release_edit-IsQueued :
    (env : Settings) (info : OpenFile) (content : List ℕ) (s : State)
    → lookup info.temp_path (files_of s) ≡ some content
    → get_pending_path info.file_id s.uploads ≢ some info.temp_path
    → let (o, t) = release_edit env info s in
      (o ≡ returns tt) × (t.open_files ≡ s.open_files) × IsQueued info.file_id content s.uploads t
unfolding release_edit invalidate_chunks on_chunks pending_content
release_edit-IsQueued env info content s there apart =
    let after : State = resize_to_file env info.file_id info.temp_path s in
    let (same_files, same_open) = resize-SameFiles env info.file_id info.temp_path s in
    let (done, kept, queued) =
      enqueue-IsQueued env info.file_id info.temp_path false none none content after
        (ap (λ u. lookup info.temp_path u.files) same_files ∙ there)
        (λ e. apart (ap (get_pending_path info.file_id) (sym same_files) ∙ e)) in
    let q : IsQueued info.file_id content s.uploads
        (enqueue env info.file_id info.temp_path false none none after).1 =
      subst
        (λ u.
          IsQueued info.file_id content u
            (enqueue env info.file_id info.temp_path false none none after).1)
        same_files queued in
    let all : IsQueued info.file_id content s.uploads (
        invalidate_chunks env info.file_id
          (enqueue env info.file_id info.temp_path false none none after).1) =
      record {
        waits = q.waits;
        target = q.target;
        job = q.job;
        named = q.named;
        entered = q.entered;
      } in
    rw (◌>>=◌, done) (refl, kept ∙ same_open, all)

remove_written-IsQueued :
    (env : Settings) (is_new : Option (Text × Text)) (info : OpenFile) (content : List ℕ)
    (s : State)
    → info.is_modified ≡ true
    → lookup info.temp_path (files_of s) ≡ some content
    → get_pending_path info.file_id s.uploads ≢ some info.temp_path
    → let (o, t) = release_written env is_new info s in
      (o ≡ returns tt) × (t.open_files ≡ s.open_files) × IsQueued info.file_id content s.uploads t
unfolding release_written
remove_written-IsQueued env (some (parent, name)) info content s modified there apart =
    enqueue-IsQueued env info.file_id info.temp_path true (some parent) (some name) content s there
      apart
remove_written-IsQueued env none info content s modified there apart =
    subst
      (λ (r : Outcome Unit × State).
        (r.0 ≡ returns tt)
        × (r.1.open_files ≡ s.open_files)
        × IsQueued info.file_id content s.uploads r.1)
      (sym (happly (if_true info.is_modified _ _ modified) s))
      (release_edit-IsQueued env info content s there apart)

read_pending :
    (env : Settings) (path : Text) (fd offset len : ℕ) (info : OpenFile) (content : List ℕ)
    (t : State)
    → starts_with (codes "/stats") path ≡ false
    → lookup fd t.open_files ≡ some info
    → (info.is_write ≡ false) × (info.is_local_only ≡ false)
    → pending_content info.file_id t ≡ some content
    → (read env path len offset fd t).0 ≡ returns (slice offset (offset + len) content)
unfolding read read_open
read_pending env path fd offset len info content t plain found (reads, node) waits =
    rw (read, plain, found)
      (ap (λ (r : Outcome (List ℕ) × State). r.0)
          (happly (if_false info.is_local_only _ _ node) t
            ∙ happly (if_false info.is_write _ _ reads) t)
        ∙ unfold read_node in rw (read_node, waits) refl)

release_same :
    (env : Settings) (fd : ℕ) (info : OpenFile) (s : State)
    → lookup fd s.open_files ≡ some info
    → (info.is_write ≡ true) × (info.is_local_only ≡ false)
    → release env fd s
      ≡ release_written env info.is_new info (record s { open_files = erase fd s.open_files })
unfolding release release_open
release_same env fd info s found (writes, node) =
    rw (release, found)
      (happly (if_false (info.is_local_only || not info.is_write) _ _ (ground arith)) _)

release_lem :
    (env : Settings) (fd : ℕ) (info : OpenFile) (content : List ℕ) (s : State)
    → lookup fd s.open_files ≡ some info
    → (info.is_write ≡ true) × (info.is_local_only ≡ false)
    → info.is_modified ≡ true
    → lookup info.temp_path (files_of s) ≡ some content
    → get_pending_path info.file_id s.uploads ≢ some info.temp_path
    → let (o, t) = release env fd s in
      (o ≡ returns tt)
      × (t.open_files ≡ erase fd s.open_files)
      × IsQueued info.file_id content s.uploads t
release_lem env fd info content s found kind modified there apart =
    rw (release_same env fd info s found kind) (
      remove_written-IsQueued env info.is_new info content
        (record s { open_files = erase fd s.open_files }) modified there apart)

-- For a handle that is open for writing on a node and has been modified, whose temporary file
-- exists and is not the file that waits for this id, where the disk takes `queue.json`, `release`
-- returns, the handle is gone and no other, and the content of the temporary file waits for upload
-- under the id of the node: now, and in a process that starts over the same disk.
pub release-IsQueued :
    (env : Settings) (fd : ℕ) (info : OpenFile) (content : List ℕ) (s : State)
    → lookup fd s.open_files ≡ some info
    → (info.is_write ≡ true) × (info.is_local_only ≡ false)
    → info.is_modified ≡ true
    → lookup info.temp_path (files_of s) ≡ some content
    → get_pending_path info.file_id s.uploads ≢ some info.temp_path
    → AlwaysSaves s.uploads
    → let (o, t) = release env fd s in
      (o ≡ returns tt)
      × (t.open_files ≡ erase fd s.open_files)
      × (pending_content info.file_id t ≡ some content)
      × (path : Text) × (get_pending_path info.file_id (restart t.uploads) ≡ some path)
      × (lookup path (restart t.uploads).files ≡ some content)
release-IsQueued env fd info content s found kind modified there apart takes =
    let (done, gone, queued) = release_lem env fd info content s found kind modified there apart in
    let (again, kept) =
      Enqueued-restart info.file_id queued.target queued.job content s.uploads
        (release env fd s).1.uploads takes queued.named queued.entered in
    (done, gone, queued.waits, queued.target, again, kept)

-- After the `release` of a handle that is open for writing on a node and has been modified, whose
-- temporary file exists and is not the file that waits for this id, a handle that was open for
-- reading on the same node, under a path that is not below `/stats`, reads the released content,
-- cut at the offset and the length asked for, whether the queue could be saved or not.
pub read-release :
    (env : Settings) (fd fd' : ℕ) (info info' : OpenFile) (path : Text) (offset len : ℕ)
    (content : List ℕ) (s : State)
    → lookup fd s.open_files ≡ some info
    → (info.is_write ≡ true) × (info.is_local_only ≡ false)
    → info.is_modified ≡ true
    → lookup info.temp_path (files_of s) ≡ some content
    → get_pending_path info.file_id s.uploads ≢ some info.temp_path
    → starts_with (codes "/stats") path ≡ false
    → lookup fd' s.open_files ≡ some info'
    → (info'.is_write ≡ false) × (info'.is_local_only ≡ false)
    → info'.file_id ≡ info.file_id
    → let t = (release env fd s).1 in
      (read env path len offset fd' t).0 ≡ returns (slice offset (offset + len) content)
read-release env fd fd' info info' path offset len content s found kind modified there apart plain
      found' reads same_id =
    let (_, kept, queued) = release_lem env fd info content s found kind modified there apart in
    read_pending env path fd' offset len info' content (release env fd s).1 plain
      (ap (lookup fd') kept
        ∙ lookup-erase fd' fd s.open_files
        ∙ if_false (fd == fd') none _ other
        ∙ found')
      reads (ap (λ i. pending_content i (release env fd s).1) same_id ∙ queued.waits)
  where
    other : (fd == fd') ≡ false
    other = beq_ne fd fd' (λ e. true-ne-false (
        sym kind.0
        ∙ ap (λ (i : OpenFile). i.is_write)
            (some-inj (sym found ∙ ap (λ f. lookup f s.open_files) e ∙ found'))
        ∙ reads.0))
