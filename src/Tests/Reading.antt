-- ===== src/Tests/Reading.antt =====
-- Files of nine bytes in chunks of four.
use fusedrive_filesystem.Chunks.Manager.Sharing.{schedule_blocks, schedule_twice}
use fusedrive_filesystem.Contracts.{blocks, returns}
use fusedrive_filesystem.Chunks.Manager.Invalidation.{lookup-invalidate_file, invalidate-Coherent}
use fusedrive_filesystem.Chunks.Manager.Schedule.{schedule_or_get_chunk_download_task}
use fusedrive_filesystem.Chunks.Manager.Ranges.{read-Obtains}
use fusedrive_filesystem.Chunks.Manager.Download.{download_chunk_from_drive_api}
use fusedrive_filesystem.Chunks.Eviction.{Bytes}
use fusedrive_filesystem.Chunks.Manager.Read.{
  read_content_range_with_caching, invalidate_file_chunks_cache,
}
use fusedrive_filesystem.Chunks.Manager.Coherent.{download-Obtains, Serves, Obtains, Coherent}
use fusedrive_filesystem.Chunks.Eviction
use fusedrive_filesystem.Chunks.Manager.Download.{Settings, State}
use fusedrive_filesystem.Metrics
use fusedrive_filesystem.Base.{
  refl, pair_eq, nat_eq, ◌&&◌, text_eq, not, ◌==◌, ◌∷◌, true, if◌then◌else◌, arith, [], ◌+◌, some,
  slice, none, false, codes, lookup, Text, ◌≡◌,
}

abbrev film : Text
film = codes "film"

abbrev content : Text → Bytes
content file_id = 10 ∷ 11 ∷ 12 ∷ 13 ∷ 14 ∷ 15 ∷ 16 ∷ 17 ∷ 18 ∷ []

abbrev env : Settings
env = record {
  storage = record {
    download_file_chunk_from_api =
        λ file_id start end. some (slice start (end + 1) (content file_id));
  };
  chunk_size = 4;
  disable_disk_cache = false;
  meta_cache = none;
  write_fails = λ k. false;
}

abbrev cold : State
cold = record {
  memory = Eviction.new 2 100;
  metrics = Metrics.new none;
  disk = [];
  active_downloads = [];
  tasks = [];
  next_task = 0;
  recent_chunks = [];
  locked = [];
}

content-Serves : Serves env.storage content
content-Serves file_id start end low high = refl

cold-Coherent : Coherent env content cold
unfolding Eviction.new lookup
cold-Coherent = record {
  sound = record { distinct = _; accounted = refl; tracked = λ k h. refl };
  in_memory = λ k b found. cc;
  on_disk = λ k b found. cc;
}

read-Obtains_example :
    let (o, t) = read_content_range_with_caching env film 2 5 9 cold in
    (o ≡ returns (12 ∷ 13 ∷ 14 ∷ 15 ∷ 16 ∷ [])) × Coherent env content t
unfolding lookup slice
read-Obtains_example =
    read-Obtains env content (omega arith) content-Serves film 2 5 9 cold refl (λ i low high. refl)
      cold-Coherent

download-Obtains_example :
    Obtains env content (film, 2) (download_chunk_from_drive_api env (film, 2) 9 true cold)
download-Obtains_example =
    download-Obtains env content (omega arith) content-Serves (film, 2) 9 true cold refl
      cold-Coherent

schedule_twice_example :
    let (o, t) = schedule_or_get_chunk_download_task (film, 0) 9 true cold in
    let (o', t') = schedule_or_get_chunk_download_task (film, 0) 9 true t in
    (o' ≡ o) × (t'.tasks ≡ t.tasks) × (t'.active_downloads ≡ t.active_downloads)
unfolding lookup
schedule_twice_example = schedule_twice (film, 0) 9 9 true true cold refl refl

schedule_blocks_example :
    let (_, t) = schedule_or_get_chunk_download_task (film, 0) 9 true cold in
    (schedule_or_get_chunk_download_task (film, 0) 9 false t).0 ≡ blocks
unfolding lookup
schedule_blocks_example = schedule_blocks (film, 0) 9 9 cold refl

abbrev warm : State
warm = (read_content_range_with_caching env film 2 5 9 cold).1

warm-Coherent : Coherent env content warm
unfolding lookup
warm-Coherent =
    (read-Obtains env content (omega arith) content-Serves film 2 5 9 cold refl (λ i low high. refl)
      cold-Coherent).1

lookup-invalidate_file_example :
    let t = invalidate_file_chunks_cache false film warm in
    (lookup (film, 0) t.memory.cache
      ≡ (if film == film then none else lookup (film, 0) warm.memory.cache))
    × (lookup (film, 0) t.disk
        ≡ (if not false && film == film then none else lookup (film, 0) warm.disk))
lookup-invalidate_file_example = lookup-invalidate_file false film (film, 0) warm

-- `film` changes, and no other file does.
abbrev changed : Text → Bytes
changed file_id = if file_id == film then 1 ∷ [] else content file_id

invalidate-Coherent_example : Coherent env changed (invalidate_file_chunks_cache false film warm)
invalidate-Coherent_example =
    invalidate-Coherent env content changed film warm (λ g apart. rw apart refl) warm-Coherent
