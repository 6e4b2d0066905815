-- ===== src/Metadata.antt =====
-- src/infrastructure/cache/memory_cache.py: `MemoryMetadataCache`. A `TTLCache` is a dictionary
-- from which entries go by themselves, by age and when it is full: `Ttl` says what is left at a
-- time. Time stands still during one call. Sets of paths are lists without an order of their own.
pub mod Index
pub mod Contract
use fusedrive_filesystem.Contracts.{DriveNodeMetadata}
use fusedrive_filesystem.Base.{
  ◌||◌, nat_eq, ◌&&◌, not, dirname, ◌∷◌, true, text_eq, some, mem, false, contains, ◌==◌, none,
  lookup, insert, if◌then◌else◌, erase, codes, [], List, Bool, ℕ, Text, Option, Dict, ◌≡◌,
}

pub record Ttl : Type 0 where
  pub live_ids : ℕ → Dict Text Text → Dict Text Text
  pub live_metadata : ℕ → Dict Text DriveNodeMetadata → Dict Text DriveNodeMetadata
  pub live_directories : ℕ → Dict Text Bool → Dict Text Bool

pub record MetadataCache : Type 0 where
  pub path_to_node_id_map : Dict Text Text
  pub node_id_to_metadata_map : Dict Text DriveNodeMetadata
  pub fully_loaded_directories_set : Dict Text Bool
  pub parent_path_to_children_paths_map : Dict Text (List Text)
  pub now : ℕ

-- `__init__`
unfoldable pub new : ℕ → MetadataCache
new now = record {
  path_to_node_id_map = [];
  node_id_to_metadata_map = [];
  fully_loaded_directories_set = [];
  parent_path_to_children_paths_map = [];
  now = now;
}

abbrev pub root : Text
root = codes "/"

-- `set.add` and `set.discard`
unfoldable pub add_path : Text → List Text → List Text
add_path path paths = if mem path paths then paths else path ∷ paths

unfoldable pub discard : Text → List Text → List Text
discard path [] = []
discard path (p ∷ paths) = let rest = discard path paths in if p == path then rest else p ∷ rest

-- `_parent_path_to_children_paths_map.get(parent, set())`
unfoldable pub children_in : Dict Text (List Text) → Text → List Text
children_in d parent = elim (lookup parent d) [ none ↦ [] | some paths ↦ paths ]

abbrev pub get_children_paths : Text → MetadataCache → List Text
get_children_paths parent c = children_in c.parent_path_to_children_paths_map parent

-- The last lines of `map_path_to_node_id` and of `invalidate_path`.
unfoldable pub add_child : Text → Dict Text (List Text) → Dict Text (List Text)
add_child path d =
    if path == root
    then d
    else insert (dirname path) (add_path path (children_in d (dirname path))) d

unfoldable pub discard_child : Text → Dict Text (List Text) → Dict Text (List Text)
discard_child path d =
    if path == root || not (contains (dirname path) d)
    then d
    else insert (dirname path) (discard path (children_in d (dirname path))) d

module _ (ttl : Ttl) where
  open ttl use {live_ids, live_metadata, live_directories}

  unfoldable pub resolve_path_to_node_id : Text → MetadataCache → Option Text
  resolve_path_to_node_id path c = lookup path (live_ids c.now c.path_to_node_id_map)

  unfoldable pub map_path_to_node_id : Text → Text → MetadataCache → MetadataCache
  map_path_to_node_id path file_id c = record c {
    path_to_node_id_map = insert path file_id (live_ids c.now c.path_to_node_id_map);
    parent_path_to_children_paths_map = add_child path c.parent_path_to_children_paths_map;
  }

  unfoldable pub get_metadata : Text → MetadataCache → Option DriveNodeMetadata
  get_metadata file_id c = lookup file_id (live_metadata c.now c.node_id_to_metadata_map)

  -- Whether `set_metadata` calls `on_metadata_changed`.
  unfoldable pub is_changed : Option DriveNodeMetadata → DriveNodeMetadata → Bool
  is_changed old_meta metadata = elim old_meta [
    | none ↦ false
    | some old ↦
        not metadata.is_directory
        && not (old.modified_at_timestamp == metadata.modified_at_timestamp)
  ]

  unfoldable pub set_metadata : Text → DriveNodeMetadata → MetadataCache → Bool × MetadataCache
  set_metadata file_id metadata c = (
    is_changed (get_metadata file_id c) metadata,
    record c {
      node_id_to_metadata_map =
          insert file_id metadata (live_metadata c.now c.node_id_to_metadata_map);
    },
  )

  -- `if file_id: self._node_id_to_metadata_map.pop(file_id, None)`
  unfoldable pub forget_metadata :
      Option Text → Dict Text DriveNodeMetadata → Dict Text DriveNodeMetadata
  forget_metadata popped d = elim popped [
    | none ↦ d
    | some file_id ↦ if file_id == [] then d else erase file_id d
  ]

  unfoldable pub invalidate_path : Text → MetadataCache → MetadataCache
  invalidate_path path c = record c {
    path_to_node_id_map = erase path c.path_to_node_id_map;
    node_id_to_metadata_map =
        forget_metadata (resolve_path_to_node_id path c) c.node_id_to_metadata_map;
    parent_path_to_children_paths_map = discard_child path c.parent_path_to_children_paths_map;
  }

  unfoldable pub is_directory_children_loaded : Text → MetadataCache → Bool
  is_directory_children_loaded dir_id c =
      contains dir_id (live_directories c.now c.fully_loaded_directories_set)

  unfoldable pub mark_directory_children_loaded : Text → MetadataCache → MetadataCache
  mark_directory_children_loaded dir_id c = record c {
    fully_loaded_directories_set =
        insert dir_id true (live_directories c.now c.fully_loaded_directories_set);
  }
