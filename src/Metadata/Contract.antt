-- ===== src/Metadata/Contract.antt =====
-- `MemoryMetadataCache` as an `IMetadataCache`, against two maps, a set and a tree of paths.
use fusedrive_filesystem.Base.{
  text_beq, text_beq_iff, Option, ◌&&◌, is_some, true-ne-false, sym, not, ◌∙◌, ap, Option-cases,
  lookup, contains, Bool-cases, ◌||◌, text_eq, dirname, [], if◌then◌else◌, arith, Bool, ◌==◌, ◌≡◌,
  List, Dict, ℕ, mem, Text, refl, inl, inr, some, none, true, false, lookup-insert, lookup-erase,
}
use fusedrive_filesystem.Contracts.{DriveNodeMetadata, IMetadataCache}
use fusedrive_filesystem.Metadata
use fusedrive_filesystem.Metadata.Index.{mem-add_path, mem-discard, children-insert}
use fusedrive_filesystem.Metadata.{
  add_path, add_child, forget_metadata, Ttl, MetadataCache, root, discard, discard_child,
  children_in,
}

abbrev pub memory_cache : Ttl → IMetadataCache MetadataCache
memory_cache ttl = record {
  resolve_path_to_node_id = Metadata.resolve_path_to_node_id ttl;
  map_path_to_node_id = Metadata.map_path_to_node_id ttl;
  get_metadata = Metadata.get_metadata ttl;
  set_metadata = Metadata.set_metadata ttl;
  is_directory_children_loaded = Metadata.is_directory_children_loaded ttl;
  mark_directory_children_loaded = Metadata.mark_directory_children_loaded ttl;
  get_children_paths = Metadata.get_children_paths;
  invalidate_path = Metadata.invalidate_path ttl;
}

-- What can be seen of a cache: the id of each path, the metadata of each id, which directories are
-- loaded, and which paths are listed below which directory.
pub record View : Type 0 where
  pub id_of : Text → Option Text
  pub metadata_of : Text → Option DriveNodeMetadata
  pub is_loaded : Text → Bool
  pub lists : Text → Text → Bool

abbrev pub view : {C : Type 0} → IMetadataCache C → C → View
view o c = record {
  id_of = λ path. o.resolve_path_to_node_id path c;
  metadata_of = λ id. o.get_metadata id c;
  is_loaded = λ dir. o.is_directory_children_loaded dir c;
  lists = λ dir path. mem path (o.get_children_paths dir c);
}

-- The four changes, each with all that it leaves alone.
abbrev pub mapped : Text → Text → View → View
mapped path id v = record v {
  id_of = λ p. if path == p then some id else v.id_of p;
  lists = λ dir p. not (path == root) && dirname path == dir && path == p || v.lists dir p;
}

abbrev pub described : Text → DriveNodeMetadata → View → View
described id m v = record v { metadata_of = λ i. if id == i then some m else v.metadata_of i }

abbrev pub marked : Text → View → View
marked dir v = record v { is_loaded = λ d. dir == d || v.is_loaded d }

-- `popped` is the id that the path had.
abbrev pub without :
    Option Text → (Text → Option DriveNodeMetadata) → Text → Option DriveNodeMetadata
without none metadata_of i = metadata_of i
without (some id) metadata_of i = if not (id == []) && id == i then none else metadata_of i

abbrev pub invalidated : Text → View → View
invalidated path v = record v {
  id_of = λ p. if path == p then none else v.id_of p;
  metadata_of = without (v.id_of path) v.metadata_of;
  lists = λ dir p. not (not (path == root) && dirname path == dir && path == p) && v.lists dir p;
}

-- Two views show the same.
pub record Agrees (v w : View) : Type 0 where
  pub ids : (path : Text) → v.id_of path ≡ w.id_of path
  pub metadata : (id : Text) → v.metadata_of id ≡ w.metadata_of id
  pub loaded : (dir : Text) → v.is_loaded dir ≡ w.is_loaded dir
  pub listed : (dir path : Text) → v.lists dir path ≡ w.lists dir path

-- Every method that changes the cache changes what is seen of it so, and no more.
pub record IsCache {C : Type 0} (o : IMetadataCache C) : Type 0 where
  pub maps :
      (path id : Text) (c : C)
      → Agrees (view o (o.map_path_to_node_id path id c)) (mapped path id (view o c))
  pub describes :
      (id : Text) (m : DriveNodeMetadata) (c : C)
      → Agrees (view o (o.set_metadata id m c).1) (described id m (view o c))
  pub marks :
      (dir : Text) (c : C)
      → Agrees (view o (o.mark_directory_children_loaded dir c)) (marked dir (view o c))
  pub invalidates :
      (path : Text) (c : C)
      → Agrees (view o (o.invalidate_path path c)) (invalidated path (view o c))

-- Nothing has expired, and nothing is dropped for want of room.
pub record KeepsAll (ttl : Ttl) : Type 0 where
  pub ids : (now : ℕ) (d : Dict Text Text) → ttl.live_ids now d ≡ d
  pub metadata : (now : ℕ) (d : Dict Text DriveNodeMetadata) → ttl.live_metadata now d ≡ d
  pub directories : (now : ℕ) (d : Dict Text Bool) → ttl.live_directories now d ≡ d

absent_children :
    (dir : Text) (d : Dict Text (List Text)) → contains dir d ≡ false → children_in d dir ≡ []
unfolding children_in
absent_children dir d absent = elim (Option-cases (lookup dir d)) [
  | inl gone ↦ rw (children_in, gone) refl
  | inr (paths, there) ↦ absurd (true-ne-false (ap is_some (sym there) ∙ absent))
]

listed-add_child :
    (dir p path : Text) (d : Dict Text (List Text))
    → mem p (children_in (add_child path d) dir)
      ≡ (not (path == root) && dirname path == dir && path == p || mem p (children_in d dir))
unfolding add_child
listed-add_child dir p path d = elim (Bool-cases (path == root)) [
  | inl top ↦ rw (add_child, top) ground arith
  | inr below ↦ elim (Bool-cases (dirname path == dir)) [
    | inr other ↦
        rw
          (
            add_child,
            below,
            children-insert dir (dirname path) (add_path path (children_in d (dirname path))) d,
            other,
          )
          refl
    | inl here ↦
        rw
          (
            add_child,
            below,
            children-insert dir (dirname path) (add_path path (children_in d (dirname path))) d,
            here,
          )
          (mem-add_path p path (children_in d (dirname path))
            ∙ ap (λ (e : Text). text_beq path p || mem p (children_in d e))
                ((text_beq_iff (dirname path) dir).0 here))
  ]
]

-- A directory without an entry lists nothing.
unlisted_absent :
    (dir p path : Text) (d : Dict Text (List Text))
    → contains (dirname path) d ≡ false
    → mem p (children_in d dir)
      ≡ (not (dirname path == dir && path == p) && mem p (children_in d dir))
unfolding mem
unlisted_absent dir p path d absent = elim (Bool-cases (dirname path == dir)) [
  | inr other ↦ rw other refl
  | inl here ↦
      let empty : children_in d dir ≡ [] =
        ap (children_in d) (sym ((text_beq_iff (dirname path) dir).0 here))
        ∙ absent_children (dirname path) d absent in
      rw (here, empty) (ground arith)
]

listed-discard_child :
    (dir p path : Text) (d : Dict Text (List Text))
    → mem p (children_in (discard_child path d) dir)
      ≡ (not (not (path == root) && dirname path == dir && path == p) && mem p (children_in d dir))
unfolding discard_child
listed-discard_child dir p path d = elim (Bool-cases (path == root)) [
  | inl top ↦ rw (discard_child, top) refl
  | inr below ↦ elim (Bool-cases (contains (dirname path) d)) [
    | inr absent ↦ rw (discard_child, below, absent) (unlisted_absent dir p path d absent)
    | inl there ↦
        let shown =
          children-insert dir (dirname path) (discard path (children_in d (dirname path))) d in
        elim (Bool-cases (dirname path == dir)) [
          | inr other ↦ rw (discard_child, below, there, shown, other) refl
          | inl here ↦
              rw (discard_child, below, there, shown, here)
                (mem-discard p path (children_in d (dirname path))
                  ∙ ap (λ (e : Text). not (path == p) && mem p (children_in d e))
                      ((text_beq_iff (dirname path) dir).0 here))
        ]
  ]
]

forgotten :
    (ttl : Ttl) (popped : Option Text) (i : Text) (d : Dict Text DriveNodeMetadata)
    → lookup i (forget_metadata ttl popped d) ≡ without popped (λ j. lookup j d) i
unfolding forget_metadata
forgotten ttl none i d = refl
forgotten ttl (some id) i d = ground (arith, lookup-erase i id d)

-- While nothing expires, `MemoryMetadataCache` is, as far as its methods show, two maps, a set and
-- a relation: `map_path_to_node_id` changes the id of its path and lists it below its parent,
-- unless it is the root, `set_metadata` changes the metadata of its id,
-- `mark_directory_children_loaded` adds its directory to those loaded, and `invalidate_path` takes
-- away the id of its path, the metadata of that id and the listing below its parent; each leaves
-- everything else as it is.
pub memory_cache-IsCache : (ttl : Ttl) → KeepsAll ttl → IsCache (memory_cache ttl)
unfolding Metadata.resolve_path_to_node_id Metadata.map_path_to_node_id Metadata.invalidate_path
    Metadata.get_metadata Metadata.set_metadata Metadata.is_directory_children_loaded
    Metadata.mark_directory_children_loaded
memory_cache-IsCache ttl k = record {
  maps = λ path id c. record {
    ids = λ p. rw (k.ids, k.ids) (lookup-insert p path id c.path_to_node_id_map);
    metadata = λ i. refl;
    loaded = λ dir. refl;
    listed = λ dir p. listed-add_child dir p path c.parent_path_to_children_paths_map;
  };
  describes = λ id m c. record {
    ids = λ p. refl;
    metadata = λ i. rw (k.metadata, k.metadata) (lookup-insert i id m c.node_id_to_metadata_map);
    loaded = λ dir. refl;
    listed = λ dir p. refl;
  };
  marks = λ dir c. record {
    ids = λ p. refl;
    metadata = λ i. refl;
    loaded = λ d.
        rw (k.directories, k.directories)
          (ground (arith, lookup-insert d dir true c.fully_loaded_directories_set));
    listed = λ d p. refl;
  };
  invalidates = λ path c. record {
    ids = λ p. rw (k.ids, k.ids) (lookup-erase p path c.path_to_node_id_map);
    metadata = λ i.
        let popped = Metadata.resolve_path_to_node_id ttl path c in
        let d : Dict Text DriveNodeMetadata = c.node_id_to_metadata_map in
        ap (lookup i) (k.metadata c.now (forget_metadata ttl popped d))
        ∙ forgotten ttl popped i d
        ∙ ap (λ e. without popped (λ j. lookup j e) i) (sym (k.metadata c.now d));
    loaded = λ dir. refl;
    listed = λ dir p. listed-discard_child dir p path c.parent_path_to_children_paths_map;
  };
}
