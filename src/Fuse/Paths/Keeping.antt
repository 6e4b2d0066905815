-- ===== src/Fuse/Paths/Keeping.antt =====
-- The resolution of a path and the table of open handles.
use fusedrive_filesystem.Base.{
  text_eq, zero, none, ◌+◌, length, dirname, [], Option-cases, ◌==◌, ◌∷◌, ◌∙◌, suc, inr, ℕ, some,
  inl, List, Bool-cases, Text, Option, ◌≡◌, refl,
}
use fusedrive_filesystem.Contracts.{no_entry, Outcome-cases, DriveNodeMetadata}
use fusedrive_filesystem.Metadata.{
  set_metadata, is_directory_children_loaded, resolve_path_to_node_id, root,
}
use fusedrive_filesystem.Fuse.State.{
  gets, or_raise, Settings, State, Action, ◌>>=◌, store_metadata, invalidate_chunks, on_chunks,
  truthy,
}
use fusedrive_filesystem.Fuse.Paths.{
  add_items, load_children, resolve_below, resolve, resolve_or_raise, resolve_path_to_drive_node_id,
}

-- The action leaves the handles alone.
abbrev pub KeepsHandles : {A : Type 0} → Action A → Type 0
KeepsHandles m = (s : State) → (m s).1.open_files ≡ s.open_files

>>=-KeepsHandles :
    {A B : Type 0} (m : Action A) (k : A → Action B)
    → KeepsHandles m
    → ((a : A) → KeepsHandles (k a))
    → KeepsHandles (m >>= k)
>>=-KeepsHandles m k first next s = elim (Outcome-cases (m s).0) [
  | inl (a, done) ↦ rw (◌>>=◌, done) (next a (m s).1 ∙ first s)
  | inr (inl (e, failed)) ↦ rw (◌>>=◌, failed) (first s)
  | inr (inr stuck) ↦ rw (◌>>=◌, stuck) (first s)
]

module _ (env : Settings) where
  store_metadata-handles :
      (id : Text) (m : DriveNodeMetadata) (s : State)
      → (store_metadata env id m s).open_files ≡ s.open_files
  unfolding store_metadata invalidate_chunks on_chunks
  store_metadata-handles id m s = elim (Bool-cases (set_metadata env.ttl id m s.cache).0) [
    | inl changed ↦ rw (store_metadata, changed) refl
    | inr same ↦ rw (store_metadata, same) refl
  ]

  add_items-handles :
      (parent_path : Text) (items : List DriveNodeMetadata) (s : State)
      → (add_items env parent_path items s).open_files ≡ s.open_files
  unfolding add_items
  add_items-handles parent_path [] s = refl
  add_items-handles parent_path (item ∷ items) s =
      add_items-handles parent_path items _ ∙ store_metadata-handles item.file_id item _

  load_children-KeepsHandles :
      (parent_id parent_path : Text) → KeepsHandles (load_children env parent_id parent_path)
  unfolding load_children
  load_children-KeepsHandles parent_id parent_path s =
      elim (Bool-cases (is_directory_children_loaded env.ttl parent_id s.cache)) [
        | inl there ↦ rw (load_children, there) refl
        | inr missing ↦ elim (Option-cases (env.list_children parent_id)) [
          | inl failed ↦ rw (load_children, missing, failed) refl
          | inr (items, listed) ↦
              rw (load_children, missing, listed) (add_items-handles parent_path items _)
        ]
      ]

  resolve_below-KeepsHandles :
      (path : Text) (parent : Option Text) → KeepsHandles (resolve_below env path parent)
  unfolding resolve_below
  resolve_below-KeepsHandles path none s = refl
  resolve_below-KeepsHandles path (some parent_id) s =
      elim (Bool-cases (is_directory_children_loaded env.ttl parent_id s.cache)) [
        | inl there ↦ rw (resolve_below, there) refl
        | inr missing ↦
            rw (resolve_below, missing)
              (>>=-KeepsHandles (load_children env parent_id (dirname path))
                (λ _. gets (λ t. truthy (resolve_path_to_node_id env.ttl path t.cache)))
                (load_children-KeepsHandles parent_id (dirname path)) (λ _ t. refl) s)
      ]

  resolve-KeepsHandles : (fuel : ℕ) (path : Text) → KeepsHandles (resolve env fuel path)
  unfolding resolve
  resolve-KeepsHandles zero path s = refl
  resolve-KeepsHandles (suc fuel) path s = elim (Bool-cases (path == root)) [
    | inl top ↦ rw (resolve, top) refl
    | inr below ↦ elim (Option-cases (truthy (resolve_path_to_node_id env.ttl path s.cache))) [
      | inr (id, known) ↦ rw (resolve, below, known) refl
      | inl unknown ↦
          rw (resolve, below, unknown)
            (>>=-KeepsHandles (resolve env fuel (dirname path)) (resolve_below env path)
              (resolve-KeepsHandles fuel (dirname path)) (resolve_below-KeepsHandles path) _)
    ]
  ]

  pub resolve_or_raise-KeepsHandles : (path : Text) → KeepsHandles (resolve_or_raise env path)
  unfolding resolve_or_raise
  resolve_or_raise-KeepsHandles path =
      >>=-KeepsHandles (resolve_path_to_drive_node_id env path) (λ found. or_raise found no_entry)
        (resolve-KeepsHandles (length path + 1) path) found
    where
      found : (id : Option Text) → KeepsHandles (or_raise id no_entry)
      found none s = refl
      found (some id) s = refl
