-- ===== src/Fuse/Changes.antt =====
-- What changes the tree: `create`, `truncate`, `mkdir`, `rename`, `unlink`, `rmdir`; and `statfs`.
pub mod Truncating
use fusedrive_filesystem.Base.Int.{pos}
use fusedrive_filesystem.Stats.{str}
use fusedrive_filesystem.Metadata.{map_path_to_node_id, invalidate_path}
use fusedrive_filesystem.Fuse.Paths.{resolve_path_to_drive_node_id, resolve_or_raise}
use fusedrive_filesystem.Fuse.Handles.{truncate_to, resize_to_file, local_handle, ensure_downloaded}
use fusedrive_filesystem.Contracts.{
  Deletion, deleted, permission_error, file_not_found_error, os_error, other_error, no_access,
  storage_error, no_entry, io_error, file_missing, no_space, returns, raises, DriveNodeMetadata,
}
use fusedrive_filesystem.Base.{
  starts_with, ◌||◌, nat_eq, text_eq, some, false, erase, ends_with, dirname, ◌++◌, true, none,
  lookup, join, insert, codes, basename, Bool, ℕ, if◌then◌else◌, Text, Option, ◌≡◌,
}
use fusedrive_filesystem.Fuse.State.{
  invalidate_chunks, with_cache, store_metadata, set_handle, files_of, add_handle, with_files,
  mkstemp, enqueue, Settings, State, Action, ◌>>=◌, ◌>>◌, pure, raise, gets, modify, or_raise,
  count, OpenFile,
}
use fusedrive_filesystem.Uploads.Jobs.{is_quota_exceeded}

-- The pattern of `is_temporary_editor_swap_file`, for names without a line break.
unfoldable pub is_temporary_editor_swap_file : Text → Bool
is_temporary_editor_swap_file name =
    ends_with name (codes ".swp")
    || ends_with name (codes ".kate-swp")
    || ends_with name (codes "~")
    || starts_with (codes ".~lock") name

-- `if GoogleDriveQuotaCircuitBreaker().is_quota_exceeded(): raise FuseOSError(errno.ENOSPC)`
unfoldable pub check_quota : Action Unit
check_quota s = (if is_quota_exceeded s.uploads then raises no_space else returns tt, s)

unfoldable pub new_handle : Text → Text → Text → Text → Text → OpenFile
new_handle path file_id temp_path parent_id name = record {
  path = path;
  file_id = file_id;
  temp_path = temp_path;
  position = 0;
  is_modified = true;
  is_write = true;
  is_local_only = false;
  base_downloaded = true;
  is_new = some (parent_id, name);
}

unfoldable pub empty_node : Text → Text → ℕ → DriveNodeMetadata
empty_node file_id name now = record {
  file_id = file_id;
  name = name;
  is_directory = false;
  size = 0;
  modified_at_timestamp = now;
}

abbrev pub add_local : Text → Text → State → State
add_local path temp_path s = record s {
  local_only_files = insert path temp_path s.local_only_files;
}

-- `os.truncate` and `os.ftruncate`
unfoldable pub truncate_temp : Text → ℕ → Action Unit
truncate_temp temp_path len s = elim (lookup temp_path (files_of s)) [
  | none ↦ (raises file_missing, s)
  | some content ↦ (returns tt, with_files (insert temp_path (truncate_to len content)) s)
]

-- `shutil.copy`
unfoldable pub copy_file : Text → Text → Action Unit
copy_file source target s = elim (lookup source (files_of s)) [
  | none ↦ (raises file_missing, s)
  | some content ↦ (returns tt, with_files (insert target content) s)
]

unfoldable pub unlink_local : Text → Text → State → State
unlink_local path temp_path s =
    with_files (erase temp_path) (record s { local_only_files = erase path s.local_only_files })

module _ (env : Settings) where
  open env use {ttl}

  unfoldable pub create_local : Text → Action ℕ
  create_local path = do
    temp_path ← mkstemp env env.temp_dir (codes "fuse_swap_")
    modify (add_local path temp_path)
    add_handle (local_handle path temp_path true true)

  -- `cache.map_path_to_node_id` and `cache.set_metadata` of a node at a path
  unfoldable pub add_node : Text → DriveNodeMetadata → State → State
  add_node path m s =
      store_metadata env m.file_id m (with_cache (map_path_to_node_id ttl path m.file_id) s)

  -- The lines of `create` behind the lookup of the parent.
  unfoldable pub create_below : Text → Text → Action ℕ
  create_below path parent_id s =
      let fake_id = codes "local_" ++ env.uuid4 s.next_fd in
      let name = basename path in
      (do
        modify (add_node path (empty_node fake_id name s.cache.now))
        temp_path ←
            mkstemp env env.journal_dir
              (codes "create_" ++ parent_id ++ codes "_" ++ env.urlsafe_b64encode name ++ codes "_")
        add_handle (new_handle path fake_id temp_path parent_id name))
        s

  unfoldable pub create_node : Text → Action ℕ
  create_node path = do
    check_quota
    parent_id ← resolve_or_raise env (dirname path)
    create_below path parent_id

  unfoldable pub create : Text → Action ℕ
  create path =
      if is_temporary_editor_swap_file (basename path) then create_local path else create_node path

  unfoldable pub truncate_open : ℕ → OpenFile → ℕ → Action Unit
  truncate_open fd info len = do
    filled ← ensure_downloaded env fd info
    truncate_temp filled.temp_path len
    modify (set_handle fd (record filled { is_modified = true }))

  -- The lines under `fd_lock`: a handle that is open for writing, or nothing.
  unfoldable pub truncate_handle : Option ℕ → ℕ → Action Unit
  truncate_handle none len s = (returns tt, s)
  truncate_handle (some fd) len s = elim (lookup fd s.open_files) [
    | none ↦ (returns tt, s)
    | some info ↦ if info.is_write then truncate_open fd info len s else (returns tt, s)
  ]

  unfoldable pub truncate : Text → ℕ → Option ℕ → Action Unit
  truncate path len file_handle s = elim (lookup path s.local_only_files) [
    | some temp_path ↦ truncate_temp temp_path len s
    | none ↦ (do resolve_or_raise env path; truncate_handle file_handle len) s
  ]

  unfoldable pub mkdir : Text → Action Unit
  mkdir path = do
    check_quota
    parent_id ← resolve_or_raise env (dirname path)
    m ← or_raise (env.create_folder parent_id (basename path)) io_error
    modify (add_node path m)

  -- `delete_file` and `invalidate_path`, with the errors as the handlers map them
  unfoldable pub delete_node : Text → Text → Action Unit
  delete_node path file_id s = elim (env.delete_file file_id) [
    | deleted ↦ (returns tt, with_cache (invalidate_path ttl path) s)
    | permission_error ↦ (raises no_access, s)
    | file_not_found_error ↦ (raises no_entry, s)
    | os_error ↦ (raises io_error, s)
    | other_error ↦ (raises storage_error, s)
  ]

  unfoldable pub rmdir : Text → Action Unit
  rmdir path = do file_id ← resolve_or_raise env path; delete_node path file_id

  unfoldable pub unlink : Text → Action Unit
  unlink path s = elim (lookup path s.local_only_files) [
    | some temp_path ↦ (returns tt, unlink_local path temp_path s)
    | none ↦ (do check_quota; rmdir path) s
  ]

  unfoldable pub atomic_path : State → Text
  atomic_path s =
      join env.journal_dir (codes "fuse_atomic_" ++ str (pos s.cache.now) ++ codes ".tmp")

  -- A swap file takes the place of a node. `getsize` comes after the queue has moved the file, and
  -- what it raises is ignored.
  unfoldable pub replace_node : Text → Text → Text → Text → Action Unit
  replace_node old new temp_path new_id s =
      let safe_path = atomic_path s in
      (do
        copy_file temp_path safe_path
        enqueue env new_id safe_path false none none
        modify (invalidate_chunks env new_id)
        modify (resize_to_file env new_id safe_path)
        unlink old
        modify (with_cache (invalidate_path ttl new)))
        s

  -- The request for the Drive, where the client makes one.
  unfoldable pub send_rename : Text → Text → Text → Text → Action Unit
  send_rename old file_id new_parent_id new_name s = elim env.rename_request [
    | none ↦ (returns tt, s)
    | some request ↦
        (do
          old_parent ← resolve_path_to_drive_node_id env (dirname old)
          or_raise (if request file_id new_parent_id old_parent new_name then some tt else none)
              storage_error)
          s
  ]

  unfoldable pub rename_node : Text → Text → Action Unit
  rename_node old new = do
    check_quota
    found ← resolve_path_to_drive_node_id env old
    new_parent ← resolve_path_to_drive_node_id env (dirname new)
    file_id ← or_raise found no_entry
    new_parent_id ← or_raise new_parent no_entry
    send_rename old file_id new_parent_id (basename new)
    modify (with_cache (invalidate_path ttl old))
    modify (with_cache (invalidate_path ttl (dirname new)))

  unfoldable pub rename_local : Text → Text → Text → Action Unit
  rename_local old new temp_path = do
    found ← resolve_path_to_drive_node_id env new
    elim found [ some new_id ↦ replace_node old new temp_path new_id | none ↦ rename_node old new ]

  unfoldable pub rename : Text → Text → Action Unit
  rename old new s = elim (lookup old s.local_only_files) [
    | none ↦ rename_node old new s
    | some temp_path ↦
        if is_temporary_editor_swap_file new
        then (
          returns tt,
          record s { local_only_files = insert new temp_path (erase old s.local_only_files) },
        )
        else rename_local old new temp_path s
  ]

-- `statfs`: `f_bsize`, and the three counts of blocks.
abbrev pub statfs : ℕ × ℕ × ℕ × ℕ
statfs = (4096, 268435456, 268435456, 268435456)
