-- ===== src/Chunks/Manager/Ahead.antt =====
-- Reading ahead leaves the caches alone, and every download but its own.
use fusedrive_filesystem.Chunks.Manager.Waiting.{submit_new_lem}
use fusedrive_filesystem.Base.{
  Bool-cases, lookup-insert, ◌==◌, inl, inr, Option-cases, false, refl, true, ◌∙◌, ap, text_eq,
  pair_eq, nat_eq, ◌≡◌, lookup, ℕ,
}
use fusedrive_filesystem.Chunks.Eviction.{ChunkKey}
use fusedrive_filesystem.Chunks.Manager.Download.{State}
use fusedrive_filesystem.Chunks.Manager.Schedule.{
  is_at_hand, share, prefetch, schedule_or_get_chunk_download_task,
}

-- Scheduling a prefetch touches no other chunk's entry, and neither cache.
schedule_prefetch_lem :
    (key k : ChunkKey) (total_size : ℕ) (s : State)
    → let t = (schedule_or_get_chunk_download_task key total_size true s).1 in
      ((key == k) ≡ false → lookup k t.active_downloads ≡ lookup k s.active_downloads)
      × (t.memory ≡ s.memory)
      × (t.disk ≡ s.disk)
unfolding schedule_or_get_chunk_download_task share
schedule_prefetch_lem key k total_size s = elim (Option-cases (lookup key s.active_downloads)) [
  | inl free ↦
      let (_, active, memory, disk, _) = submit_new_lem key total_size true s in
      rw (schedule_or_get_chunk_download_task, free)
        (
          λ other.
              ap (lookup k) active
              ∙ lookup-insert k key (s.next_task, true) s.active_downloads
              ∙ rw other,
          memory,
          disk,
        )
  | inr (busy, found) ↦ rw (schedule_or_get_chunk_download_task, found) (λ other. refl, refl, refl)
]

pub prefetch_lem :
    (key k : ChunkKey) (total_size : ℕ) (s : State)
    → let t = prefetch key total_size s in
      ((key == k) ≡ false → lookup k t.active_downloads ≡ lookup k s.active_downloads)
      × (t.memory ≡ s.memory)
      × (t.disk ≡ s.disk)
unfolding prefetch
prefetch_lem key k total_size s = elim (Bool-cases (is_at_hand key s)) [
  | inl here ↦ rw here (λ other. refl, refl, refl)
  | inr away ↦ rw away (schedule_prefetch_lem key k total_size s)
]
