-- ===== src/Fuse/State.antt =====
-- What `FuseOps` holds and calls, and its operations as actions on that state.
use fusedrive_filesystem.Stats.{str}
use fusedrive_filesystem.Base.Int.{pos}
use fusedrive_filesystem.Uploads.Jobs.{enqueue_file_for_upload}
use fusedrive_filesystem.Chunks.Manager.Read.{invalidate_file_chunks_cache}
use fusedrive_filesystem.Metadata.{root, map_path_to_node_id, set_metadata, Ttl, MetadataCache}
use fusedrive_filesystem.Contracts.{
  Deletion, blocks-ne-returns, raises-ne-returns, Outcome-cases, file_missing, blocks, raises,
  DriveNodeMetadata, returns, Outcome, Error,
}
use fusedrive_filesystem.Base.{
  refl, inr, inl, ◌≡◌, true, text_eq, ◌==◌, none, nat_eq, if◌then◌else◌, [], ◌++◌, ◌+◌, some, join,
  insert, List, Bool, ℕ, Text, Option, Dict,
}
use fusedrive_filesystem.Metrics.{add, MetricsRegistry}
use fusedrive_filesystem.Chunks.Manager.Download
use fusedrive_filesystem.Uploads.Jobs

-- What the operations call: the settings of the two managers, the rest of the storage client (with
-- `none` where it raises), and the libraries. `rename_request` is there where the client has
-- `_get_service`; `temp_suffix` is what `mkstemp` adds to the prefix for a handle.
pub record Settings : Type 0 where
  pub chunk_env : Download.Settings
  pub upload_env : Jobs.Settings
  pub ttl : Ttl
  pub root_id : Text
  pub journal_dir : Text
  pub temp_dir : Text
  pub list_children : Text → Option (List DriveNodeMetadata)
  pub get_file_content : Text → Option (List ℕ)
  pub get_file_metadata : Text → Option DriveNodeMetadata
  pub create_folder : Text → Text → Option DriveNodeMetadata
  pub delete_file : Text → Deletion
  pub rename_request : Option (Text → Text → Option Text → Text → Bool)
  pub rmtree_fails : Text → Bool
  pub temp_suffix : ℕ → Text
  pub uuid4 : ℕ → Text
  pub urlsafe_b64encode : Text → Text
  pub deadlock : Option (MetricsRegistry → MetricsRegistry)

-- An entry of `open_files`. A key that the code leaves out for a kind of handle is empty or false
-- here; `is_new` is the parent and the name of a file that is created. A descriptor is the path of
-- its file and a position: a file that loses its path while it is open is not followed.
pub record OpenFile : Type 0 where
  pub path : Text
  pub file_id : Text
  pub temp_path : Text
  pub position : ℕ
  pub is_modified : Bool
  pub is_write : Bool
  pub is_local_only : Bool
  pub base_downloaded : Bool
  pub is_new : Option (Text × Text)

-- The registry is one object: `metrics` here, whatever the managers' own field says. The local
-- files and the circuit breaker are those of `uploads`; the time is that of `cache`.
pub record State : Type 0 where
  pub cache : MetadataCache
  pub chunks : Download.State
  pub uploads : Jobs.State
  pub metrics : MetricsRegistry
  pub open_files : Dict ℕ OpenFile
  pub local_only_files : Dict Text Text
  pub next_fd : ℕ

abbrev pub Action : Type 0 → Type 0
Action A = State → Outcome A × State

module _ {A : Type 0} where
  abbrev pub pure : A → Action A
  pure a s = (returns a, s)

  abbrev pub raise : Error → Action A
  raise e s = (raises e, s)

  abbrev pub gets : (State → A) → Action A
  gets f s = (returns (f s), s)

  -- What is there, or an exception.
  abbrev pub or_raise : Option A → Error → Action A
  or_raise none e = raise e
  or_raise (some a) e = pure a

infixl 5 ◌>>=◌ ◌>>◌
abbrev pub ◌>>=◌ : {A B : Type 0} → Action A → (A → Action B) → Action B
◌>>=◌ m f s =
    let (o, s') = m s in
    elim o [ returns a ↦ f a s' | raises e ↦ (raises e, s') | blocks ↦ (blocks, s') ]

abbrev pub ◌>>◌ : {A B : Type 0} → Action A → Action B → Action B
m >> k = m >>= λ _. k

abbrev pub modify : (State → State) → Action Unit
modify f s = (returns tt, f s)

-- A chain that returns has a first step that returned.
pub bind-returns :
    {A B : Type 0} (m : Action A) (k : A → Action B) (s : State) (b : B)
    → ((m >>= k) s).0 ≡ returns b
    → (a : A) × ((m s).0 ≡ returns a) × ((m >>= k) s ≡ k a (m s).1)
bind-returns m k s b h = elim (Outcome-cases (m s).0) [
  | inl (a, done) ↦ (a, done, rw (◌>>=◌, done) refl)
  | inr (inl (e, failed)) ↦ absurd (raises-ne-returns (rw (◌>>=◌, failed) at h))
  | inr (inr stuck) ↦ absurd (blocks-ne-returns (rw (◌>>=◌, stuck) at h))
]

pub bind_after :
    {A B : Type 0} (m : Action A) (k : A → Action B) (s : State) (a : A)
    → (m s).0 ≡ returns a
    → (m >>= k) s ≡ k a (m s).1
bind_after m k s a done = rw (◌>>=◌, done) refl

pub bind_raises :
    {A B : Type 0} (m : Action A) (k : A → Action B) (s : State) (e : Error)
    → (m s).0 ≡ raises e
    → ((m >>= k) s).0 ≡ raises e
bind_raises m k s e failed = rw (◌>>=◌, failed) refl

abbrev pub files_of : State → Dict Text (List ℕ)
files_of s = s.uploads.files

abbrev pub with_files : (Dict Text (List ℕ) → Dict Text (List ℕ)) → State → State
with_files f s = record s { uploads = record s.uploads { files = f s.uploads.files } }

abbrev pub with_cache : (MetadataCache → MetadataCache) → State → State
with_cache f s = record s { cache = f s.cache }

abbrev pub count : Text → ℕ → State → State
count key n s = record s { metrics = add key (pos n) s.metrics }

-- The managers at work, with the registry as it is.
unfoldable pub on_chunks : {A : Type 0} → (Download.State → A × Download.State) → State → A × State
on_chunks f s =
    let (a, c) = f (record s.chunks { metrics = s.metrics }) in
    (a, record s { chunks = c; metrics = c.metrics })

unfoldable pub on_uploads : {A : Type 0} → (Jobs.State → A × Jobs.State) → State → A × State
on_uploads f s =
    let (a, u) = f (record s.uploads { metrics = s.metrics }) in
    (a, record s { uploads = u; metrics = u.metrics })

module _ (env : Settings) where
  open env use {ttl}

  unfoldable pub invalidate_chunks : Text → State → State
  invalidate_chunks file_id s =
      (on_chunks (λ c. (tt, invalidate_file_chunks_cache (env.rmtree_fails file_id) file_id c)) s).1

  -- `cache.set_metadata`, with `on_metadata_changed` as `__init__` sets it.
  unfoldable pub store_metadata : Text → DriveNodeMetadata → State → State
  store_metadata file_id metadata s =
      let (changed, c) = set_metadata ttl file_id metadata s.cache in
      let stored : State = record s { cache = c } in
      if changed then invalidate_chunks file_id stored else stored

  -- `enqueue_file_for_upload`; it raises where the file is not there.
  unfoldable pub enqueue : Text → Text → Bool → Option Text → Option Text → Action Unit
  enqueue file_id temp_path is_new parent_id name s =
      let (done, after) =
        on_uploads
          (enqueue_file_for_upload env.upload_env (str (pos s.cache.now)) file_id temp_path is_new
            parent_id name)
          s in
      (if done then returns tt else raises file_missing, after)

  -- `tempfile.mkstemp`: an empty file.
  unfoldable pub mkstemp : Text → Text → Action Text
  mkstemp dir prefix s =
      let path = join dir (prefix ++ env.temp_suffix s.next_fd) in
      (returns path, with_files (insert path []) s)

  -- `__init__`, over the parts that it builds.
  unfoldable pub new : MetadataCache → Download.State → Jobs.State → MetricsRegistry → State
  new cache chunks uploads metrics =
      let root_meta : DriveNodeMetadata = record {
        file_id = env.root_id;
        name = [];
        is_directory = true;
        size = 0;
        modified_at_timestamp = cache.now;
      } in
      store_metadata env.root_id root_meta (record {
        cache = map_path_to_node_id ttl root env.root_id cache;
        chunks = chunks;
        uploads = uploads;
        metrics = metrics;
        open_files = [];
        local_only_files = [];
        next_fd = 1000;
      })

-- `fd = self.next_fd`, the entry, and `self.next_fd += 1`
unfoldable pub add_handle : OpenFile → Action ℕ
add_handle info s = (
  returns s.next_fd,
  record s { open_files = insert s.next_fd info s.open_files; next_fd = s.next_fd + 1 },
)

abbrev pub set_handle : ℕ → OpenFile → State → State
set_handle fd info s = record s { open_files = insert fd info s.open_files }

-- An id that is empty counts as none, as every caller tests it.
unfoldable pub truthy : Option Text → Option Text
truthy none = none
truthy (some id) = if id == [] then none else some id
