-- ===== src/Fuse/Handles.antt =====
-- Handles: `open`, `_ensure_downloaded`, `read`, `write` and `release`.
pub mod Bytes
pub mod Sessions
pub mod Releasing
use fusedrive_filesystem.Chunks.Manager.Read.{read_content_range_with_caching}
use fusedrive_filesystem.Contracts.{
  key_error, storage_error, file_missing, returns, raises, bad_handle, DriveNodeMetadata, no_entry,
}
use fusedrive_filesystem.Uploads.Jobs.{get_pending_path}
use fusedrive_filesystem.Metadata.{resolve_path_to_node_id, get_metadata}
use fusedrive_filesystem.Base.{
  ◌&&◌, insert, drop, ◌-◌, text_eq, replicate, nat_eq, erase, ltb, length, codes, ◌==◌, ◌++◌, ◌+◌,
  ◌%◌, ◌∷◌, ◌||◌, true, take, starts_with, slice, not, none, false, ◌/◌, some, lookup,
  if◌then◌else◌, [], Option, List, Bool, ℕ, Text, ◌≡◌,
}
use fusedrive_filesystem.Stats
use fusedrive_filesystem.Fuse.State.{
  with_files, with_cache, set_handle, truthy, store_metadata, add_handle, invalidate_chunks,
  on_chunks, mkstemp, files_of, enqueue, OpenFile, Settings, State, Action, ◌>>=◌, ◌>>◌, pure,
  raise, gets, modify, or_raise, count,
}
use fusedrive_filesystem.Fuse.Paths

-- `flags & bit`, for a power of two
unfoldable pub has_flag : ℕ → ℕ → Bool
has_flag bit flags = flags / bit % 2 == 1

-- `flags & os.O_WRONLY or flags & os.O_RDWR`, and `flags & os.O_TRUNC`
unfoldable pub wants_write : ℕ → Bool
wants_write flags = has_flag 1 flags || has_flag 2 flags

unfoldable pub wants_truncate : ℕ → Bool
wants_truncate flags = has_flag 512 flags

-- `os.write` at a position: zeros fill a gap, and writing nothing changes nothing.
unfoldable pub write_at : ℕ → List ℕ → List ℕ → List ℕ
write_at offset [] content = content
write_at offset (b ∷ bytes) content =
    take offset (content ++ replicate (offset - length content) 0)
    ++ ((b ∷ bytes) ++ drop (offset + length (b ∷ bytes)) content)

-- `os.ftruncate` and `os.truncate`
unfoldable pub truncate_to : ℕ → List ℕ → List ℕ
truncate_to n content = take n (content ++ replicate (n - length content) 0)

unfoldable pub local_handle : Text → Text → Bool → Bool → OpenFile
local_handle path temp_path is_modified is_write = record {
  path = path;
  file_id = [];
  temp_path = temp_path;
  position = 0;
  is_modified = is_modified;
  is_write = is_write;
  is_local_only = true;
  base_downloaded = false;
  is_new = none;
}

unfoldable pub write_handle : Text → Text → Text → Bool → OpenFile
write_handle path file_id temp_path is_truncate = record {
  path = path;
  file_id = file_id;
  temp_path = temp_path;
  position = 0;
  is_modified = is_truncate;
  is_write = true;
  is_local_only = false;
  base_downloaded = is_truncate;
  is_new = none;
}

unfoldable pub read_handle : Text → Text → OpenFile
read_handle path file_id = record {
  path = path;
  file_id = file_id;
  temp_path = [];
  position = 0;
  is_modified = false;
  is_write = false;
  is_local_only = false;
  base_downloaded = false;
  is_new = none;
}

-- The content of the file that waits for upload, if there is one.
unfoldable pub pending_content : Text → State → Option (List ℕ)
pending_content file_id s = elim (get_pending_path file_id s.uploads) [
  | none ↦ none
  | some pending_path ↦ if pending_path == [] then none else lookup pending_path (files_of s)
]

-- `os.lseek(fd, offset, SEEK_SET)` and `os.read(fd, length)`
unfoldable pub seek_read : ℕ → OpenFile → ℕ → ℕ → Action (List ℕ)
seek_read fd info offset len s = elim (lookup info.temp_path (files_of s)) [
  | none ↦ (raises file_missing, s)
  | some content ↦
      let bytes = slice offset (offset + len) content in
      (
        returns bytes,
        count (codes "bytes_read") (length bytes)
            (set_handle fd (record info { position = offset + length bytes }) s),
      )
]

-- `os.lseek`, `os.write`, and the lines behind them
unfoldable pub seek_write : ℕ → OpenFile → ℕ → List ℕ → Action ℕ
seek_write fd info offset bytes s = elim (lookup info.temp_path (files_of s)) [
  | none ↦ (raises file_missing, s)
  | some content ↦ (
    returns (length bytes),
    count (codes "bytes_written") (length bytes) (
        set_handle fd (record info { position = offset + length bytes; is_modified = true })
          (with_files (insert info.temp_path (write_at offset bytes content)) s)),
  )
]

-- `os.write(temp_fd, data)` where the descriptor stands, and the mark.
unfoldable pub fill_base : ℕ → OpenFile → List ℕ → Action OpenFile
fill_base fd info base s = elim (lookup info.temp_path (files_of s)) [
  | none ↦ (raises file_missing, s)
  | some content ↦
      let filled : OpenFile = record info {
        position = info.position + length base;
        base_downloaded = true;
      } in
      (
        returns filled,
        set_handle fd filled
            (with_files (insert info.temp_path (write_at info.position base content)) s),
      )
]

-- `os.remove(temp_path)`
unfoldable pub remove_temp : Text → Action Unit
remove_temp temp_path s = elim (lookup temp_path (files_of s)) [
  | none ↦ (raises file_missing, s)
  | some _ ↦ (returns tt, with_files (erase temp_path) s)
]

module _ (env : Settings) where
  open env use {ttl}

  unfoldable pub open_local : Text → Text → Bool → Action ℕ
  open_local path temp_path is_write s = elim (lookup temp_path (files_of s)) [
    | none ↦ (raises file_missing, s)
    | some _ ↦ add_handle (local_handle path temp_path false is_write) s
  ]

  unfoldable pub open_node : Text → ℕ → Text → Action ℕ
  open_node path flags file_id =
      if wants_write flags
      then (do
        temp_path ← mkstemp env env.journal_dir (codes "edit_" ++ file_id ++ codes "_")
        add_handle (write_handle path file_id temp_path (wants_truncate flags)))
      else add_handle (read_handle path file_id)

  unfoldable pub open_file : Text → ℕ → Action ℕ
  open_file path flags s =
      if starts_with (codes "/stats") path
      then (returns 0, s)
      else elim (lookup path s.local_only_files) [
        | some temp_path ↦ open_local path temp_path (wants_write flags) s
        | none ↦ elim (truthy (resolve_path_to_node_id ttl path s.cache)) [
          | none ↦ (raises no_entry, s)
          | some file_id ↦ open_node path flags file_id s
        ]
      ]

  -- `data`, from the upload that waits or from the Drive
  unfoldable pub base_content : Text → State → Option (List ℕ)
  base_content file_id s = elim (pending_content file_id s) [
    | some content ↦ some content
    | none ↦ env.get_file_content file_id
  ]

  -- Whether there is anything to fetch: metadata with a size above 0.
  unfoldable pub has_base : Text → State → Bool
  has_base file_id s = elim (get_metadata ttl file_id s.cache) [
    | none ↦ false
    | some m ↦ ltb 0 m.size
  ]

  -- `_ensure_downloaded`, and the entry as it is then. An entry of a local file that is open for
  -- writing has no key `base_downloaded`.
  unfoldable pub ensure_downloaded : ℕ → OpenFile → Action OpenFile
  ensure_downloaded fd info s =
      if info.is_write && info.is_local_only
      then (raises key_error, s)
      else if not info.is_write || info.base_downloaded
      then (returns info, s)
      else if has_base info.file_id s
      then (elim (base_content info.file_id s) [
        | none ↦ (raises storage_error, s)
        | some base ↦ fill_base fd info base s
      ])
      else let marked : OpenFile = record info { base_downloaded = true } in
        (returns marked, set_handle fd marked s)

  -- `chunk_manager.read_content_range_with_caching`, and the count of the bytes
  unfoldable pub read_chunked : Text → ℕ → ℕ → ℕ → Action (List ℕ)
  read_chunked file_id offset len size = do
    bytes ← on_chunks (read_content_range_with_caching env.chunk_env file_id offset len size)
    modify (count (codes "bytes_read") (length bytes))
    pure bytes

  -- The last branch of `read`: the handle is for reading only.
  unfoldable pub read_node : Text → ℕ → ℕ → Action (List ℕ)
  read_node file_id offset len s = elim (pending_content file_id s) [
    | some content ↦
        let bytes = slice offset (offset + len) content in
        (returns bytes, count (codes "bytes_read") (length bytes) (count (codes "cache_hits") 1 s))
    | none ↦ elim (get_metadata ttl file_id s.cache) [
      | none ↦ (raises no_entry, s)
      | some m ↦ read_chunked file_id offset len m.size s
    ]
  ]

  unfoldable pub read_open : ℕ → OpenFile → ℕ → ℕ → Action (List ℕ)
  read_open fd info offset len =
      if info.is_local_only
      then seek_read fd info offset len
      else if info.is_write
      then (do filled ← ensure_downloaded fd info; seek_read fd filled offset len)
      else read_node info.file_id offset len

  unfoldable pub read_stats : Text → ℕ → ℕ → Action (List ℕ)
  read_stats path len offset s =
      let (found, metrics) = Stats.read env.deadlock path len offset s.metrics in
      or_raise found no_entry (record s { metrics = metrics })

  unfoldable pub read : Text → ℕ → ℕ → ℕ → Action (List ℕ)
  read path len offset fd s =
      if starts_with (codes "/stats") path
      then read_stats path len offset s
      else elim (lookup fd s.open_files) [
        | none ↦ (raises bad_handle, s)
        | some info ↦ read_open fd info offset len s
      ]

  unfoldable pub write_open : ℕ → OpenFile → ℕ → List ℕ → Action ℕ
  write_open fd info offset bytes =
      if not info.is_write
      then raise bad_handle
      else if info.is_local_only
      then seek_write fd info offset bytes
      else (do filled ← ensure_downloaded fd info; seek_write fd filled offset bytes)

  unfoldable pub write : Text → List ℕ → ℕ → ℕ → Action ℕ
  write path bytes offset fd s = elim (lookup fd s.open_files) [
    | none ↦ (raises bad_handle, s)
    | some info ↦ write_open fd info offset bytes s
  ]

  -- The new size and time of a node. The object in the cache is changed first, so that
  -- `set_metadata` compares it with itself.
  unfoldable pub resize_node : Text → ℕ → State → State
  resize_node file_id new_size s = elim (get_metadata ttl file_id s.cache) [
    | none ↦ s
    | some m ↦
        let resized : DriveNodeMetadata = record m {
          size = new_size;
          modified_at_timestamp = s.cache.now;
        } in
        store_metadata env file_id resized (
          with_cache
            (λ c. record c {
              node_id_to_metadata_map = insert file_id resized c.node_id_to_metadata_map;
            })
            s)
  ]

  -- `os.path.getsize` and the update; an exception is logged.
  unfoldable pub resize_to_file : Text → Text → State → State
  resize_to_file file_id path s = elim (lookup path (files_of s)) [
    | none ↦ s
    | some content ↦ resize_node file_id (length content) s
  ]

  unfoldable pub release_edit : OpenFile → Action Unit
  release_edit info = do
    modify (resize_to_file info.file_id info.temp_path)
    enqueue env info.file_id info.temp_path false none none
    modify (invalidate_chunks env info.file_id)

  -- The branches of `release` for a handle that is open for writing.
  unfoldable pub release_written : Option (Text × Text) → OpenFile → Action Unit
  release_written (some (parent_id, name)) info =
      enqueue env info.file_id info.temp_path true (some parent_id) (some name)
  release_written none info =
      if info.is_modified then release_edit info else remove_temp info.temp_path

  unfoldable pub release_open : OpenFile → Action Unit
  release_open info =
      if info.is_local_only || not info.is_write then pure tt else release_written info.is_new info

  unfoldable pub release : ℕ → Action Unit
  release fd s = elim (lookup fd s.open_files) [
    | none ↦ (returns tt, s)
    | some info ↦ release_open info (record s { open_files = erase fd s.open_files })
  ]
