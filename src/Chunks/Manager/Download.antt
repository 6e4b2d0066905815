-- ===== src/Chunks/Manager/Download.antt =====
-- The state of `ChunkManager`, its disk cache, and `download_chunk_from_drive_api`.
use fusedrive_filesystem.Base.{
  ends_with, ℕ, ◌+◌, ◌-◌, ◌*◌, min, Text, text_eq, nat_eq, pair_eq, Dict, Bool, false, not, ◌&&◌,
  ◌||◌, Option, none, some, List, [], map, lookup, insert, length, leb, if◌then◌else◌, codes,
}
use fusedrive_filesystem.Base.Int.{ℤ, pos, negsuc}
use fusedrive_filesystem.Contracts.{
  DriveNodeMetadata, ChunkSource, Outcome, returns, raises, storage_error,
}
use fusedrive_filesystem.Metrics
use fusedrive_filesystem.Metrics.{MetricsRegistry}
use fusedrive_filesystem.Chunks.Eviction
use fusedrive_filesystem.Chunks.Eviction.{ChunkKey, Bytes, EvictionCache}

-- What `__init__` fixes: `meta_cache` is `none` where the manager is given no metadata cache, and
-- `write_fails` names the chunks whose file cannot be written.
pub record Settings : Type 0 where
  pub storage : ChunkSource
  pub chunk_size : ℕ
  pub disable_disk_cache : Bool
  pub meta_cache : Option (Text → Option DriveNodeMetadata)
  pub write_fails : ChunkKey → Bool

-- A `Future` of the dispatcher, with the call that it stands for. `has_callback` says whether
-- `_remove_future` has been registered on it.
pub data Status : Type 0 where
  pending running cancelled : Status
  finished : Outcome Bytes → Status

pub record Task : Type 0 where
  pub pool : Text
  pub key : ChunkKey
  pub total_size : ℕ
  pub is_prefetch : Bool
  pub status : Status
  pub has_callback : Bool

-- `disk` maps `(file_id, chunk_index)` to the contents of the file `file_id/chunk_index` below
-- `cache_dir`; `locked` are the chunks whose lock some thread holds or waits for.
pub record State : Type 0 where
  pub memory : EvictionCache
  pub metrics : MetricsRegistry
  pub disk : Dict ChunkKey Bytes
  pub active_downloads : Dict ChunkKey (ℕ × Bool)
  pub tasks : Dict ℕ Task
  pub next_task : ℕ
  pub recent_chunks : Dict Text (List ℤ)
  pub locked : List ChunkKey

-- `str.lower` on the letters of ASCII
unfoldable pub lower : Text → Text
lower = map (λ c. if leb 65 c && leb c 90 then c + 32 else c)

unfoldable pub is_video_name : Text → Bool
unfolding ends_with lower
is_video_name name =
    let n = lower name in
    ends_with n (codes ".mp4")
    || ends_with n (codes ".mkv")
    || ends_with n (codes ".avi")
    || ends_with n (codes ".mov")
    || ends_with n (codes ".webm")

unfoldable pub cache_get : ChunkKey → State → Option Bytes × State
cache_get key s =
    let (found, memory, metrics) = Eviction.get key s.memory s.metrics in
    (found, record s { memory = memory; metrics = metrics })

unfoldable pub cache_put : ChunkKey → Bytes → Bool → State → State
cache_put key bytes is_prefetch s =
    let (memory, metrics) = Eviction.put key bytes is_prefetch s.memory s.metrics in
    record s { memory = memory; metrics = metrics }

abbrev pub count : Text → ℤ → State → State
count name n s = record s { metrics = Metrics.add name n s.metrics }

module _ (env : Settings) where
  open env use {storage, chunk_size, disable_disk_cache, meta_cache, write_fails}
  open storage use {download_file_chunk_from_api}

  unfoldable pub is_video_file_by_extension : Text → Bool
  unfolding is_video_name
  is_video_file_by_extension file_id = elim meta_cache [
    | none ↦ false
    | some get_metadata ↦ elim (get_metadata file_id) [
      | none ↦ false
      | some node ↦ is_video_name node.name
    ]
  ]

  -- the test with which both disk methods begin
  unfoldable pub skips_disk : Text → Bool
  unfolding is_video_file_by_extension
  skips_disk file_id = disable_disk_cache && not (is_video_file_by_extension file_id)

  unfoldable pub read_chunk_from_disk_cache : ChunkKey → State → Option Bytes
  read_chunk_from_disk_cache key s = if skips_disk key.0 then none else lookup key s.disk

  -- A failed write is logged and leaves no file under the final name.
  unfoldable pub write_chunk_to_disk_cache : ChunkKey → Bytes → State → State
  write_chunk_to_disk_cache key bytes s =
      if skips_disk key.0
      then s
      else if write_fails key
      then s
      else record s { disk = insert key bytes s.disk }

  -- The request itself, once both caches have missed.
  unfoldable pub fetch_from_api : ChunkKey → ℕ → Bool → State → Outcome Bytes × State
  fetch_from_api key total_size is_prefetch s =
      let start = key.1 * chunk_size in
      let end = min (start + chunk_size - 1) (total_size - 1) in
      let asked = count (codes "downloads") (pos 1) (count (codes "api_requests") (pos 1) s) in
      elim (download_file_chunk_from_api key.0 start end) [
        | none ↦ (raises storage_error, asked)
        | some bytes ↦ (
          returns bytes,
          write_chunk_to_disk_cache key bytes (
              cache_put key bytes is_prefetch
                (count (codes "bytes_downloaded") (pos (length bytes)) asked)),
        )
      ]

  -- After a miss in memory: the disk, then the API.
  unfoldable pub fetch_after_miss : ChunkKey → ℕ → Bool → State → Outcome Bytes × State
  fetch_after_miss key total_size is_prefetch s = elim (read_chunk_from_disk_cache key s) [
    | some bytes ↦ (returns bytes, cache_put key bytes is_prefetch s)
    | none ↦ fetch_from_api key total_size is_prefetch s
  ]

  -- The body of the `with self.lock_manager.exclusive_lock(chunk_key)` block.
  unfoldable pub download_locked : ChunkKey → ℕ → Bool → State → Outcome Bytes × State
  download_locked key total_size is_prefetch s =
      let (found, touched) = cache_get key s in
      elim found [
        | some bytes ↦ (returns bytes, touched)
        | none ↦ fetch_after_miss key total_size is_prefetch touched
      ]

  -- The lock is free: the calls of this model follow one another. Taking it and giving it back
  -- count in `active_locks`.
  unfoldable pub download_chunk_from_drive_api : ChunkKey → ℕ → Bool → State → Outcome Bytes × State
  download_chunk_from_drive_api key total_size is_prefetch s =
      if leb total_size (key.1 * chunk_size)
      then (returns [], s)
      else let (result, after) =
          download_locked key total_size is_prefetch (count (codes "active_locks") (pos 1) s) in
        (result, count (codes "active_locks") (negsuc 0) after)
