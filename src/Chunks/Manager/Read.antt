-- ===== src/Chunks/Manager/Read.antt =====
-- `read_content_range_with_caching` and `invalidate_file_chunks_cache`.
use fusedrive_filesystem.Base.Int.{int_eq, ◌-ℤ◌, negsuc, pos, ℤ}
use fusedrive_filesystem.Base.{
  zero, none, ◌||◌, min, drop, nat_eq, mem, [], ◌*◌, ◌∷◌, true, text_eq, lookup, length, leb, ◌==◌,
  ◌/◌, ◌-◌, ◌++◌, suc, some, slice, insert, if◌then◌else◌, false, List, Dict, ◌+◌, ℕ, codes, Text,
  Bool,
}
use fusedrive_filesystem.Contracts.{Outcome, returns, raises, blocks}
use fusedrive_filesystem.Chunks.Eviction
use fusedrive_filesystem.Chunks.Eviction.{ChunkKey, Bytes}
use fusedrive_filesystem.Chunks.Manager.Download.{
  Settings, State, count, cache_get, cache_put, read_chunk_from_disk_cache,
}
use fusedrive_filesystem.Chunks.Manager.Schedule.{
  prefetch, schedule_or_get_chunk_download_task, await_result,
}

-- `(n - 1) // chunk_size`, which is -1 for n = 0
unfoldable pub last_chunk : ℕ → ℕ → ℤ
last_chunk n chunk_size = if n == 0 then negsuc 0 else pos ((n - 1) / chunk_size)

-- `(n - 1) // chunk_size + 1`, where `range` stops
unfoldable pub stop_chunk : ℕ → ℕ → ℕ
stop_chunk n chunk_size = if n == 0 then 0 else (n - 1) / chunk_size + 1

unfoldable pub recent_of : Text → State → List ℤ
recent_of file_id s = elim (lookup file_id s.recent_chunks) [ none ↦ [] | some l ↦ l ]

unfoldable pub is_sequential : ℕ → List ℤ → Bool
is_sequential start_chunk [] = true
is_sequential start_chunk (x ∷ recent) =
    mem (pos start_chunk) (x ∷ recent)
    || mem (pos start_chunk -ℤ pos 1) (x ∷ recent)
    || mem (pos start_chunk -ℤ pos 2) (x ∷ recent)

-- `append` on a deque with `maxlen=10`
unfoldable pub append_recent : ℤ → List ℤ → List ℤ
append_recent c recent = let longer = recent ++ c ∷ [] in drop (length longer - 10) longer

unfoldable pub note_recent : Text → ℤ → State → State
note_recent file_id c s = record s {
  recent_chunks = insert file_id (append_recent c (recent_of file_id s)) s.recent_chunks;
}

abbrev pub count_hit : Bytes → State → State
count_hit bytes s =
    count (codes "bytes_from_cache") (pos (length bytes)) (count (codes "cache_hits") (pos 1) s)

module _ (env : Settings) where
  open env use {chunk_size}

  -- a chunk that neither cache has: wait for its download
  unfoldable pub wait_for_chunk : ChunkKey → ℕ → State → Outcome Bytes × State
  wait_for_chunk key total_size s =
      let (scheduled, after) =
        schedule_or_get_chunk_download_task key total_size false
          (count (codes "cache_misses") (pos 1) s) in
      elim scheduled [
        | returns id ↦ await_result env id after
        | raises e ↦ (raises e, after)
        | blocks ↦ (blocks, after)
      ]

  unfoldable pub disk_or_wait : ChunkKey → ℕ → State → Outcome Bytes × State
  disk_or_wait key total_size s = elim (read_chunk_from_disk_cache env key s) [
    | some bytes ↦ (returns bytes, cache_put key bytes false (count_hit bytes s))
    | none ↦ wait_for_chunk key total_size s
  ]

  -- `cached_data` of one round of the loop
  unfoldable pub obtain_chunk : ChunkKey → ℕ → State → Outcome Bytes × State
  obtain_chunk key total_size s =
      let (found, touched) = cache_get key s in
      elim found [
        | some bytes ↦ (returns bytes, count_hit bytes touched)
        | none ↦ disk_or_wait key total_size touched
      ]

  -- `cached_data[rel_start:rel_end]`; in the loop the range ends behind the start of the chunk
  unfoldable pub piece_of : ℕ → ℕ → ℕ → Bytes → Bytes
  piece_of offset len chunk_idx bytes =
      slice (offset - chunk_idx * chunk_size)
        (min chunk_size (offset + len - chunk_idx * chunk_size)) bytes

  -- `rounds` more rounds of the loop, from `chunk_idx` on
  unfoldable pub read_chunks : Text → ℕ → ℕ → ℕ → ℕ → ℕ → Bytes → State → Outcome Bytes × State
  read_chunks file_id offset len total_size zero chunk_idx result s = (returns result, s)
  read_chunks file_id offset len total_size (suc rounds) chunk_idx result s =
      let (obtained, after) = obtain_chunk (file_id, chunk_idx) total_size s in
      elim obtained [
        | returns bytes ↦
            read_chunks file_id offset len total_size rounds (chunk_idx + 1)
              (result ++ piece_of offset len chunk_idx bytes) after
        | raises e ↦ (raises e, after)
        | blocks ↦ (blocks, after)
      ]

  -- The lines before the loop: read ahead if the access looks sequential, and note the chunk.
  unfoldable pub read_ahead : Text → ℕ → ℕ → ℕ → State → State
  read_ahead file_id offset len total_size s =
      let stop = stop_chunk (offset + len) chunk_size in
      let ahead =
        if is_sequential (offset / chunk_size) (recent_of file_id s)
        then prefetch (file_id, stop + 1) total_size (prefetch (file_id, stop) total_size s)
        else s in
      note_recent file_id (last_chunk (offset + len) chunk_size) ahead

  unfoldable pub read_content_range_with_caching : Text → ℕ → ℕ → ℕ → State → Outcome Bytes × State
  read_content_range_with_caching file_id offset len total_size s =
      if leb total_size offset
      then (returns [], s)
      else let start = offset / chunk_size in
        read_chunks file_id offset len total_size (stop_chunk (offset + len) chunk_size - start)
          start [] (read_ahead file_id offset len total_size s)

-- `invalidate_file_chunks_cache`: every chunk of the file in memory, then its directory on disk,
-- unless that fails.
unfoldable pub invalidate_keys : Text → List ChunkKey → State → State
invalidate_keys file_id [] s = s
invalidate_keys file_id (k ∷ ks) s =
    let (memory, metrics) = Eviction.invalidate k s.memory s.metrics in
    invalidate_keys file_id ks
      (if k.0 == file_id then record s { memory = memory; metrics = metrics } else s)

unfoldable pub remove_directory : Text → Dict ChunkKey Bytes → Dict ChunkKey Bytes
remove_directory file_id [] = []
remove_directory file_id (x ∷ d) =
    let rest = remove_directory file_id d in if x.0.0 == file_id then rest else x ∷ rest

unfoldable pub invalidate_file_chunks_cache : Bool → Text → State → State
invalidate_file_chunks_cache rmtree_fails file_id s =
    let cleared = invalidate_keys file_id (Eviction.iter s.memory) s in
    if rmtree_fails
    then cleared
    else record cleared { disk = remove_directory file_id cleared.disk }
