-- ===== src/Chunks/Manager/Waiting.antt =====
-- One chunk of a read: from memory, from disk, or by waiting for its download.
use fusedrive_filesystem.Base.Int.{pos}
use fusedrive_filesystem.Base.{
  inl, inr, erase-insert_absent, Option-cases, false, erase, codes, refl, lookup-insert_self,
  length, true, if◌then◌else◌, some, ◌∙◌, insert, ap, Bool, text_eq, pair_eq, nat_eq, arith, none,
  ◌≡◌, lookup, ◌<◌, ℕ, Text,
}
use fusedrive_filesystem.Contracts.{returns}
use fusedrive_filesystem.Chunks.Eviction.{ChunkKey, Bytes}
use fusedrive_filesystem.Chunks.Manager.Download.{
  pending, cache_put, write_chunk_to_disk_cache, fetch_from_api, fetch_after_miss, download_locked,
  Settings, State, Task, count, cache_get, read_chunk_from_disk_cache,
  download_chunk_from_drive_api,
}
use fusedrive_filesystem.Chunks.Manager.Schedule.{
  read_pool, prefetch_pool, schedule_or_get_chunk_download_task, await_result, submit_new, submit,
  register_callback, run_task, finish_task, set_status, remove_future,
}
use fusedrive_filesystem.Chunks.Manager.Read.{count_hit, wait_for_chunk, disk_or_wait, obtain_chunk}
use fusedrive_filesystem.Chunks.Manager.Coherent.{
  Serves, Coherent, Obtains, download-Obtains, cache_get-Coherent, memory_hit, disk_hit,
  cache_put-Coherent,
}

-- No download that was not under way before is under way after.
abbrev pub Settles : State → State → Type 0
Settles s t =
    (k : ChunkKey) → lookup k s.active_downloads ≡ none → lookup k t.active_downloads ≡ none

pub schedule_free :
    (key : ChunkKey) (total_size : ℕ) (p : Bool) (s : State)
    → lookup key s.active_downloads ≡ none
    → schedule_or_get_chunk_download_task key total_size p s ≡ submit_new key total_size p s
unfolding schedule_or_get_chunk_download_task
schedule_free key total_size p s free = rw (free, schedule_or_get_chunk_download_task)

-- What `submit` and `add_done_callback` make of a call.
unfoldable pub submitted_task : ChunkKey → ℕ → Bool → Task
submitted_task key total_size is_prefetch = record {
  pool = if is_prefetch then prefetch_pool else read_pool;
  key = key;
  total_size = total_size;
  is_prefetch = is_prefetch;
  status = pending;
  has_callback = true;
}

-- A chunk whose download is not under way is submitted, with the callback registered.
pub submit_new_lem :
    (key : ChunkKey) (total_size : ℕ) (p : Bool) (s : State)
    → let (o, t) = submit_new key total_size p s in
      (o ≡ returns s.next_task)
      × (t.active_downloads ≡ insert key (s.next_task, p) s.active_downloads)
      × (t.memory ≡ s.memory)
      × (t.disk ≡ s.disk)
      × (lookup s.next_task t.tasks ≡ some (submitted_task key total_size p))
unfolding submit_new submit register_callback submitted_task
submit_new_lem key total_size p s =
    rw (register_callback, lookup-insert_self s.next_task _ s.tasks)
      (refl, refl, refl, refl, lookup-insert_self s.next_task _ _)

cache_get-active :
    (key : ChunkKey) (s : State) → (cache_get key s).1.active_downloads ≡ s.active_downloads
unfolding cache_get
cache_get-active key s = refl

cache_put-active :
    (key : ChunkKey) (b : Bytes) (p : Bool) (s : State)
    → (cache_put key b p s).active_downloads ≡ s.active_downloads
unfolding cache_put
cache_put-active key b p s = refl

module _ (env : Settings) where
  open env use {chunk_size, storage}

  download-active :
      (key : ChunkKey) (total_size : ℕ) (p : Bool) (s : State)
      → (download_chunk_from_drive_api env key total_size p s).1.active_downloads
        ≡ s.active_downloads
  unfolding download_chunk_from_drive_api download_locked fetch_after_miss fetch_from_api
      write_chunk_to_disk_cache cache_get cache_put
  download-active key total_size p s = ground arith

  module _ (content : Text → Bytes) (positive : 0 < chunk_size)
      (serves : Serves storage content) where
    await-Obtains :
        (id : ℕ) (key : ChunkKey) (total_size : ℕ) (p : Bool) (s : State)
        → total_size ≡ length (content key.0)
        → lookup id s.tasks ≡ some (submitted_task key total_size p)
        → Coherent env content s
        → Obtains env content key (await_result env id s)
          × ((await_result env id s).1.active_downloads ≡ erase key s.active_downloads)
    unfolding await_result submitted_task run_task finish_task remove_future set_status
    await-Obtains id key total_size p s size found h =
        let (right, kept) =
          download-Obtains env content positive serves key total_size p s size h in
        rw (await_result, found)
          (
            (
              right,
              record { sound = kept.sound; in_memory = kept.in_memory; on_disk = kept.on_disk },
            ),
            ap (erase key) (download-active key total_size p s),
          )

    -- A reader that waits gets the chunk, and leaves no download behind.
    wait_for_chunk-Obtains :
        (key : ChunkKey) (total_size : ℕ) (s : State)
        → total_size ≡ length (content key.0)
        → lookup key s.active_downloads ≡ none
        → Coherent env content s
        → Obtains env content key (wait_for_chunk env key total_size s)
          × Settles s (wait_for_chunk env key total_size s).1
    unfolding wait_for_chunk
    wait_for_chunk-Obtains key total_size s size free h =
        let missed : State = count (codes "cache_misses") (pos 1) s in
        let t : State = (submit_new key total_size false missed).1 in
        let (o, active, memory, disk, found) = submit_new_lem key total_size false missed in
        let coherent : Coherent env content t = rw (memory, disk) h in
        let (right, erased) =
          await-Obtains missed.next_task key total_size false t size found coherent in
        rw
          (
            wait_for_chunk,
            schedule_free key total_size false missed free,
            o,
            schedule_free key total_size false missed free,
          )
          (
            right,
            λ k before.
                ap (lookup k) (erased ∙ ap (erase key) active)
                ∙ erase-insert_absent k key (missed.next_task, false) s.active_downloads before,
          )

    pub obtain_chunk-Obtains :
        (key : ChunkKey) (total_size : ℕ) (s : State)
        → total_size ≡ length (content key.0)
        → lookup key s.active_downloads ≡ none
        → Coherent env content s
        → Obtains env content key (obtain_chunk env key total_size s)
          × Settles s (obtain_chunk env key total_size s).1
    unfolding obtain_chunk disk_or_wait
    obtain_chunk-Obtains key total_size s size free h =
        let touched : State = (cache_get key s).1 in
        let coherent = cache_get-Coherent env content key s h in
        let settled = λ (k : ChunkKey) (before : lookup k s.active_downloads ≡ none).
          ap (lookup k) (cache_get-active key s) ∙ before in
        elim (Option-cases (cache_get key s).0) [
          | inr (b, hit) ↦
              rw (obtain_chunk, hit)
                (
                  (ap returns (memory_hit env content key b s h hit), coherent),
                  λ k before. ap (lookup k) (cache_get-active key s) ∙ before,
                )
          | inl miss ↦ elim (Option-cases (read_chunk_from_disk_cache env key touched)) [
            | inr (b, hit) ↦
                let same = disk_hit env content key b touched coherent hit in
                rw (obtain_chunk, miss, disk_or_wait, hit)
                  (
                    (ap returns same, cache_put-Coherent env content key b false _ coherent same),
                    λ k before.
                        ap (lookup k) (
                          cache_put-active key b false (count_hit b touched)
                          ∙ cache_get-active key s)
                        ∙ before,
                  )
            | inl none_there ↦
                rw (obtain_chunk, miss, disk_or_wait, none_there)
                  (let (right, settles) =
                      wait_for_chunk-Obtains key total_size touched size (settled key free)
                        coherent in
                    (right, λ k before. settles k (settled k before)))
          ]
        ]
