-- ===== src/Chunks/Manager/Sharing.antt =====
-- The table of downloads: who shares a future, and what becomes of a reader that meets a prefetch.
use fusedrive_filesystem.Base.{
  refl, sym, lookup-insert_self, ◌∙◌, text_eq, pair_eq, nat_eq, false, ap, ◌&&◌, true, some, not,
  none, ◌≡◌, lookup, Bool, ℕ,
}
use fusedrive_filesystem.Contracts.{returns, blocks}
use fusedrive_filesystem.Chunks.Eviction.{ChunkKey}
use fusedrive_filesystem.Chunks.Manager.Download.{State, Task}
use fusedrive_filesystem.Chunks.Manager.Schedule.{
  schedule_or_get_chunk_download_task, share, take_over, cancel_under_lock,
}
use fusedrive_filesystem.Chunks.Manager.Waiting.{submit_new_lem, submitted_task, schedule_free}

-- The entry of a scheduled chunk, and its task.
entry_after :
    (key : ChunkKey) (total_size : ℕ) (p : Bool) (s : State)
    → lookup key s.active_downloads ≡ none
    → let (o, t) = schedule_or_get_chunk_download_task key total_size p s in
      (o ≡ returns s.next_task)
      × (lookup key t.active_downloads ≡ some (s.next_task, p))
      × (lookup s.next_task t.tasks ≡ some (submitted_task key total_size p))
entry_after key total_size p s free =
    let (o, active, memory, disk, found) = submit_new_lem key total_size p s in
    rw (schedule_free key total_size p s free) (
      o,
      ap (lookup key) active ∙ lookup-insert_self key (s.next_task, p) s.active_downloads,
      found,
    )

shares :
    (key : ChunkKey) (n id : ℕ) (p was : Bool) (s : State)
    → lookup key s.active_downloads ≡ some (id, was)
    → (not p && was) ≡ false
    → schedule_or_get_chunk_download_task key n p s ≡ share id s
unfolding schedule_or_get_chunk_download_task
shares key n id p was s busy alike = rw (schedule_or_get_chunk_download_task, busy, alike)

takes_over :
    (key : ChunkKey) (n id : ℕ) (t : Task) (s : State)
    → lookup key s.active_downloads ≡ some (id, true)
    → lookup id s.tasks ≡ some t
    → schedule_or_get_chunk_download_task key n false s ≡ take_over id t key n s
unfolding schedule_or_get_chunk_download_task
takes_over key n id t s busy found = rw (schedule_or_get_chunk_download_task, busy, found)

-- Where no download of a chunk is under way, a call for it followed by a second one returns the
-- same future twice; the second call submits no task and leaves the table as it is, unless the
-- first is a prefetch and the second is not.
pub schedule_twice :
    (key : ChunkKey) (n n' : ℕ) (p p' : Bool) (s : State)
    → lookup key s.active_downloads ≡ none
    → (not p' && p) ≡ false
    → let (o, t) = schedule_or_get_chunk_download_task key n p s in
      let (o', t') = schedule_or_get_chunk_download_task key n' p' t in
      (o' ≡ o) × (t'.tasks ≡ t.tasks) × (t'.active_downloads ≡ t.active_downloads)
unfolding share
schedule_twice key n n' p p' s free alike =
    let (o, entry, found) = entry_after key n p s free in
    rw
      (shares key n' s.next_task p' p (schedule_or_get_chunk_download_task key n p s).1 entry alike)
      (sym o, refl, refl)

-- A reader that asks for a chunk whose prefetch was submitted and still waits for a worker never
-- returns from `schedule_or_get_chunk_download_task`: cancelling the future runs its callback,
-- which takes the lock that the reader holds.
pub schedule_blocks :
    (key : ChunkKey) (n n' : ℕ) (s : State)
    → lookup key s.active_downloads ≡ none
    → let (_, t) = schedule_or_get_chunk_download_task key n true s in
      (schedule_or_get_chunk_download_task key n' false t).0 ≡ blocks
unfolding take_over cancel_under_lock submitted_task
schedule_blocks key n n' s free =
    let (o, entry, found) = entry_after key n true s free in
    rw (
      takes_over key n' s.next_task (submitted_task key n true)
        (schedule_or_get_chunk_download_task key n true s).1 entry found)
