-- ===== src/Fuse/Paths.antt =====
-- From paths to nodes: `resolve_path_to_drive_node_id`, `_load_children`, `getattr` and `readdir`.
pub mod Resolving
pub mod Keeping
use fusedrive_filesystem.Metadata.{
  resolve_path_to_node_id, root, mark_directory_children_loaded, map_path_to_node_id,
  get_children_paths, is_directory_children_loaded, get_metadata,
}
use fusedrive_filesystem.Fuse.State.{
  pure, ◌>>=◌, truthy, files_of, with_cache, store_metadata, or_raise, Action,
}
use fusedrive_filesystem.Contracts.{
  file_missing, storage_error, returns, recursion_error, no_entry, raises, DriveNodeMetadata,
}
use fusedrive_filesystem.Base.{
  zero, ◌++◌, mem, dirname, not, join, ◌&&◌, text_eq, suc, lookup, basename, map, ◌+◌, ◌∷◌, true,
  starts_with, some, none, length, codes, ◌==◌, if◌then◌else◌, false, [], List, ℕ, Text, Option,
  ◌≡◌,
}
use fusedrive_filesystem.Stats
use fusedrive_filesystem.Fuse.State.{
  Settings, State, Action, ◌>>=◌, ◌>>◌, pure, raise, gets, modify, or_raise, count,
}

-- What `getattr` answers; `is_directory` stands for `S_IFDIR` or `S_IFREG` in the mode. The three
-- times are one, and none where they are those of the local file or of the clock.
pub record NodeAttributes : Type 0 where
  pub attributes : Stats.Attributes
  pub timestamp : Option ℕ

unfoldable pub node_attributes : DriveNodeMetadata → NodeAttributes
node_attributes m = record {
  attributes = record {
    is_directory = m.is_directory;
    st_mode = if m.is_directory then 493 else 420;
    st_nlink = if m.is_directory then 2 else 1;
    st_size = m.size;
  };
  timestamp = some m.modified_at_timestamp;
}

unfoldable pub local_attributes : ℕ → NodeAttributes
local_attributes size = record {
  attributes = record { is_directory = false; st_mode = 420; st_nlink = 1; st_size = size };
  timestamp = none;
}

unfoldable pub entries_of : Text → State → List Text
entries_of path s =
    let entries = codes "." ∷ codes ".." ∷ map basename (get_children_paths path s.cache) in
    if path == root && not (mem (codes "stats") entries)
    then entries ++ codes "stats" ∷ []
    else entries

module _ (env : Settings) where
  open env use {ttl}

  -- The body of the loop of `_load_children`.
  unfoldable pub add_items : Text → List DriveNodeMetadata → State → State
  add_items parent_path [] s = s
  add_items parent_path (item ∷ items) s = add_items parent_path items (
      store_metadata env item.file_id item
        (with_cache (map_path_to_node_id ttl (join parent_path item.name) item.file_id) s))

  unfoldable pub load_children : Text → Text → Action Unit
  load_children parent_id parent_path s =
      if is_directory_children_loaded ttl parent_id s.cache
      then (returns tt, s)
      else elim (env.list_children parent_id) [
        | none ↦ (raises storage_error, count (codes "api_requests") 1 s)
        | some items ↦ (
          returns tt,
          with_cache (mark_directory_children_loaded ttl parent_id)
              (add_items parent_path items (count (codes "api_requests") 1 s)),
        )
      ]

  -- The lines behind the recursive call.
  unfoldable pub resolve_below : Text → Option Text → Action (Option Text)
  resolve_below path parent s = elim parent [
    | none ↦ (returns none, s)
    | some parent_id ↦
        if is_directory_children_loaded ttl parent_id s.cache
        then (returns none, s)
        else (do
          load_children parent_id (dirname path)
          gets (λ t. truthy (resolve_path_to_node_id ttl path t.cache)))
            s
  ]

  -- `resolve_path_to_drive_node_id`; the fuel stands for Python's recursion limit.
  unfoldable pub resolve : ℕ → Text → Action (Option Text)
  resolve zero path s = (raises recursion_error, s)
  resolve (suc fuel) path s = elim (path == root) [
    | true ↦ (returns (truthy (some env.root_id)), s)
    | false ↦ elim (truthy (resolve_path_to_node_id ttl path s.cache)) [
      | some id ↦ (returns (some id), count (codes "cache_hits") 1 s)
      | none ↦
          (resolve fuel (dirname path) >>= resolve_below path) (count (codes "cache_misses") 1 s)
    ]
  ]

  abbrev pub resolve_path_to_drive_node_id : Text → Action (Option Text)
  resolve_path_to_drive_node_id path = resolve (length path + 1) path

  -- `if not file_id: raise FuseOSError(errno.ENOENT)`
  unfoldable pub resolve_or_raise : Text → Action Text
  resolve_or_raise path = do found ← resolve_path_to_drive_node_id path; or_raise found no_entry

  unfoldable pub root_metadata : State → DriveNodeMetadata
  root_metadata s = record {
    file_id = env.root_id;
    name = [];
    is_directory = true;
    size = 0;
    modified_at_timestamp = s.cache.now;
  }

  -- The lines of `getattr` for an id whose metadata is not in the cache.
  unfoldable pub fetch_metadata : Text → Action (Option DriveNodeMetadata)
  fetch_metadata file_id s =
      if file_id == env.root_id
      then (returns (some (root_metadata s)), store_metadata env env.root_id (root_metadata s) s)
      else let asked = count (codes "api_requests") 1 s in
        elim (env.get_file_metadata file_id) [
          | none ↦ (returns none, asked)
          | some m ↦ (returns (some m), store_metadata env file_id m asked)
        ]

  unfoldable pub find_metadata : Text → Action (Option DriveNodeMetadata)
  find_metadata file_id s = elim (get_metadata ttl file_id s.cache) [
    | some m ↦ (returns (some m), s)
    | none ↦ fetch_metadata file_id s
  ]

  unfoldable pub getattr_of_node : Text → Action NodeAttributes
  getattr_of_node path = do
    file_id ← resolve_or_raise path
    found ← find_metadata file_id
    m ← or_raise found no_entry
    pure (node_attributes m)

  unfoldable pub getattr : Text → Action NodeAttributes
  getattr path s =
      if starts_with (codes "/stats") path
      then (elim (Stats.getattr path s.metrics) [
        | none ↦ (raises no_entry, s)
        | some a ↦ (returns (record { attributes = a; timestamp = none }), s)
      ])
      else elim (lookup path s.local_only_files) [
        | some temp_path ↦ elim (lookup temp_path (files_of s)) [
          | none ↦ (raises file_missing, s)
          | some content ↦ (returns (local_attributes (length content)), s)
        ]
        | none ↦ getattr_of_node path s
      ]

  unfoldable pub readdir : Text → Action (List Text)
  readdir path s =
      if starts_with (codes "/stats") path
      then or_raise (Stats.readdir path) no_entry s
      else (do file_id ← resolve_or_raise path; load_children file_id path; gets (entries_of path))
          s
