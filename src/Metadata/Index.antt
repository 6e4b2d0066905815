-- ===== src/Metadata/Index.antt =====
-- The index of children, against the map from paths to ids.
use fusedrive_filesystem.Contracts.{DriveNodeMetadata}
use fusedrive_filesystem.Metadata.{
  discard_child, children_in, add_child, root, get_children_paths, map_path_to_node_id,
  invalidate_path, discard, add_path, Ttl, MetadataCache,
}
use fusedrive_filesystem.Base.{
  lookup-erase, sym, none, lookup-insert, if◌then◌else◌, ap, ◌∙◌, insert, refl, inr, [], text_eq,
  ◌∷◌, true, subst, Bool, inl, dirname, arith, some, false, Bool-cases, ◌&&◌, ◌||◌, not, lookup,
  List, Dict, ◌==◌, ℕ, mem, Text, ◌≡◌,
}

-- What the documentation of `TTLCache` promises here: entries may go, none comes or changes.
pub record OnlyDrops (ttl : Ttl) : Type 0 where
  pub ids :
      (now : ℕ) (d : Dict Text Text) (path id : Text)
      → lookup path (ttl.live_ids now d) ≡ some id
      → lookup path d ≡ some id
  pub metadata :
      (now : ℕ) (d : Dict Text DriveNodeMetadata) (id : Text) (m : DriveNodeMetadata)
      → lookup id (ttl.live_metadata now d) ≡ some m
      → lookup id d ≡ some m
  pub directories :
      (now : ℕ) (d : Dict Text Bool) (id : Text) (b : Bool)
      → lookup id (ttl.live_directories now d) ≡ some b
      → lookup id d ≡ some b

abbrev pub IsIndexed : MetadataCache → Type 0
IsIndexed c =
    (path id : Text)
    → (path == root) ≡ false
    → lookup path c.path_to_node_id_map ≡ some id
    → mem path (get_children_paths (dirname path) c) ≡ true

pub mem-add_path :
    (p path : Text) (paths : List Text) → mem p (add_path path paths) ≡ (path == p || mem p paths)
unfolding add_path mem
mem-add_path p path paths = elim (Bool-cases (mem path paths)) [
  | inl there ↦ elim (Bool-cases (path == p)) [
    | inl same ↦
        rw (there, same) (subst (λ q. mem q paths ≡ true) (((text_eq.beq_iff path p)).0 same) there)
    | inr other ↦ rw (there, other) refl
  ]
  | inr new ↦ rw new refl
]

pub mem-discard :
    (p path : Text) (paths : List Text)
    → mem p (discard path paths) ≡ (not (path == p) && mem p paths)
unfolding discard mem
mem-discard p path [] = ground arith
mem-discard p path (q ∷ paths) = ground (
  arith,
  mem-discard p path paths,
  text_eq.beq_iff q p,
  text_eq.beq_iff q path,
  text_eq.beq_iff path p,
)

-- The children of a directory after those of another, or of itself, are replaced.
pub children-insert :
    (dir parent : Text) (paths : List Text) (d : Dict Text (List Text))
    → children_in (insert parent paths d) dir ≡ (if parent == dir then paths else children_in d dir)
unfolding children_in
children-insert dir parent paths d = ground (arith, lookup-insert dir parent paths d)

pub mem-add_child :
    (p path : Text) (d : Dict Text (List Text))
    → mem p (children_in (add_child path d) (dirname p))
      ≡ (not (path == root) && path == p || mem p (children_in d (dirname p)))
unfolding add_child
mem-add_child p path d = ground (
  arith,
  children-insert (dirname p) (dirname path) (add_path path (children_in d (dirname path))) d,
  mem-add_path p path (children_in d (dirname path)),
  text_eq.beq_iff path p,
  text_eq.beq_iff (dirname path) (dirname p),
)

mem-discard_child :
    (p path : Text) (d : Dict Text (List Text))
    → (path == p) ≡ false
    → mem p (children_in (discard_child path d) (dirname p)) ≡ mem p (children_in d (dirname p))
unfolding discard_child
mem-discard_child p path d apart = ground (
  arith,
  children-insert (dirname p) (dirname path) (discard path (children_in d (dirname path))) d,
  mem-discard p path (children_in d (dirname path)),
  text_eq.beq_iff (dirname path) (dirname p),
)

module _ (ttl : Ttl) where
  map-IsIndexed :
      (drops : OnlyDrops ttl) (path id : Text) (c : MetadataCache)
      → IsIndexed c
      → IsIndexed (map_path_to_node_id ttl path id c)
  unfolding map_path_to_node_id
  map-IsIndexed drops path id c h p i inner found =
      mem-add_child p path c.parent_path_to_children_paths_map ∙ (elim (Bool-cases (path == p)) [
        | inl same ↦
            let e : path ≡ p = (text_eq.beq_iff path p).0 same in
            let below : (path == root) ≡ false = ap (λ q. q == root) e ∙ inner in
            rw (below, same) refl
        | inr other ↦
            let live : lookup p (ttl.live_ids c.now c.path_to_node_id_map) ≡ some i =
              sym
                (lookup-insert p path id (ttl.live_ids c.now c.path_to_node_id_map) ∙ rw other refl)
              ∙ found in
            let listed : mem p (children_in c.parent_path_to_children_paths_map (dirname p))
                ≡ true =
              h p i inner (drops.ids c.now c.path_to_node_id_map p i live) in
            rw (other, listed) (ground arith)
      ])

  invalidate-IsIndexed :
      (path : Text) (c : MetadataCache) → IsIndexed c → IsIndexed (invalidate_path ttl path c)
  unfolding invalidate_path
  invalidate-IsIndexed path c h p i inner found =
      let left : (if path == p then none else lookup p c.path_to_node_id_map) ≡ some i =
        sym (lookup-erase p path c.path_to_node_id_map) ∙ found in
      elim (Bool-cases (path == p)) [
        | inl same ↦ absurd (let e : none ≡ some i = rw same at left in cc)
        | inr other ↦
            mem-discard_child p path c.parent_path_to_children_paths_map other
            ∙ h p i inner (rw other at left)
      ]

-- With an expiry that only drops entries, a metadata cache in which every path but the root that
-- has an id is listed among the children of its parent stays one under `map_path_to_node_id` and
-- under `invalidate_path`.
pub changes-IsIndexed :
    (ttl : Ttl) (path id : Text) (c : MetadataCache)
    → OnlyDrops ttl
    → IsIndexed c
    → IsIndexed (map_path_to_node_id ttl path id c) × IsIndexed (invalidate_path ttl path c)
changes-IsIndexed ttl path id c drops h =
    (map-IsIndexed ttl drops path id c h, invalidate-IsIndexed ttl path c h)
