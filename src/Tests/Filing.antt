-- ===== src/Tests/Filing.antt =====
-- A small file system: a note that is open twice, for writing and for reading.
use fusedrive_filesystem.Uploads.Durability.{restart}
use fusedrive_filesystem.Fuse.Changes.Truncating.{truncate-length}
use fusedrive_filesystem.Fuse.Handles.Releasing.{release-IsQueued, read-release}
use fusedrive_filesystem.Fuse.Handles.Sessions.{read-write}
use fusedrive_filesystem.Fuse.Paths.{resolve_or_raise, resolve}
use fusedrive_filesystem.Fuse.Changes.{truncate, truncate_temp, truncate_open, truncate_handle}
use fusedrive_filesystem.Fuse.Paths.Resolving.{resolve_ends, no_double_slash}
use fusedrive_filesystem.Metadata.{root, invalidate_path, map_path_to_node_id, Ttl}
use fusedrive_filesystem.Metadata.Index.{changes-IsIndexed, IsIndexed, OnlyDrops}
use fusedrive_filesystem.Base.{
  text_eq, refl, nat_eq, ℕ, List, arith, ◌≢◌, erase, ◌+◌, ◌∷◌, text_beq, some, starts_with, none,
  lookup, false, codes, [], Text, Bool, length, slice, true, ◌≡◌,
}
use fusedrive_filesystem.Contracts.{deleted, DriveNodeMetadata, returns, raises, recursion_error}
use fusedrive_filesystem.Uploads.Jobs.{get_pending_path, upload_fails, holds}
use fusedrive_filesystem.Fuse.State.{truthy, files_of, Settings, State, OpenFile}
use fusedrive_filesystem.Fuse.Handles.{
  pending_content, seek_write, ensure_downloaded, write_open, read, write, release,
}
use fusedrive_filesystem.Metadata
use fusedrive_filesystem.Metrics
use fusedrive_filesystem.Chunks.Eviction

abbrev ttl : Ttl
ttl = record { live_ids = λ now d. d; live_metadata = λ now d. d; live_directories = λ now d. d }

ttl-OnlyDrops : OnlyDrops ttl
ttl-OnlyDrops = record {
  ids = λ now d path id h. h;
  metadata = λ now d id m h. h;
  directories = λ now d id b h. h;
}

abbrev doc : Text
doc = codes "doc"

abbrev note : Text
note = codes "/note"

abbrev temp : Text
temp = codes "journal/edit_doc_x"

abbrev doc_metadata : DriveNodeMetadata
doc_metadata = record {
  file_id = doc;
  name = codes "note";
  is_directory = false;
  size = 2;
  modified_at_timestamp = 5;
}

abbrev env : Settings
env = record {
  chunk_env = record {
    storage = record { download_file_chunk_from_api = λ file_id start end. none };
    chunk_size = 4;
    disable_disk_cache = true;
    meta_cache = none;
    write_fails = λ k. false;
  };
  upload_env = record {
    uploads_dir = codes "up";
    max_retries = 1;
    storage = record {
      upload_new_file_to_drive = λ parent_id name content. upload_fails (codes "API error");
      upload_local_file_to_drive = λ file_id content. upload_fails (codes "API error");
    };
  };
  ttl = ttl;
  root_id = codes "root";
  journal_dir = codes "journal";
  temp_dir = codes "/tmp";
  list_children = λ parent_id. some (doc_metadata ∷ []);
  get_file_content = λ file_id. some (1 ∷ 2 ∷ []);
  get_file_metadata = λ file_id. none;
  create_folder = λ parent_id name. none;
  delete_file = λ file_id. deleted;
  rename_request = none;
  rmtree_fails = λ file_id. false;
  temp_suffix = λ n. codes "x";
  uuid4 = λ n. codes "u";
  urlsafe_b64encode = λ name. name;
  deadlock = none;
}

abbrev writer : OpenFile
writer = record {
  path = note;
  file_id = doc;
  temp_path = temp;
  position = 0;
  is_modified = true;
  is_write = true;
  is_local_only = false;
  base_downloaded = true;
  is_new = none;
}

abbrev reader : OpenFile
reader = record {
  path = note;
  file_id = doc;
  temp_path = [];
  position = 0;
  is_modified = false;
  is_write = false;
  is_local_only = false;
  base_downloaded = false;
  is_new = none;
}

abbrev system : Bool → State
system is_tripped = record {
  cache = Metadata.new 9;
  chunks = record {
    memory = Eviction.new 2 100;
    metrics = Metrics.new none;
    disk = [];
    active_downloads = [];
    tasks = [];
    next_task = 0;
    recent_chunks = [];
    locked = [];
  };
  uploads = record {
    queue = [];
    queue_file = holds [];
    can_save = λ q. true;
    files = (temp, 1 ∷ 2 ∷ 3 ∷ []) ∷ [];
    metrics = Metrics.new none;
    submitted = [];
    timers = [];
    is_tripped = is_tripped;
  };
  metrics = Metrics.new none;
  open_files = (1000, writer) ∷ (1001, reader) ∷ [];
  local_only_files = [];
  next_fd = 1002;
}

changes-IsIndexed_example :
    IsIndexed (map_path_to_node_id ttl note doc (Metadata.new 9))
    × IsIndexed (invalidate_path ttl note (Metadata.new 9))
unfolding Metadata.new lookup
changes-IsIndexed_example =
    changes-IsIndexed ttl note doc (Metadata.new 9) ttl-OnlyDrops (λ p i inner found. cc)

abbrev typed : List ℕ
typed = 7 ∷ 8 ∷ []

read-write_example :
    (2 ≡ length typed)
    × ((read env note (length typed) 1 1000 (write env note typed 1 1000 (system false)).1).0
        ≡ returns typed)
unfolding write write_open ensure_downloaded seek_write lookup starts_with text_beq
read-write_example = read-write env note note typed 1 1000 2 (system false) refl refl

release-IsQueued_example :
    let (o, t) = release env 1000 (system false) in
    (o ≡ returns tt)
    × (t.open_files ≡ erase 1000 (system false).open_files)
    × (pending_content doc t ≡ some (1 ∷ 2 ∷ 3 ∷ []))
    × (path : Text) × (get_pending_path doc (restart t.uploads) ≡ some path)
    × (lookup path (restart t.uploads).files ≡ some (1 ∷ 2 ∷ 3 ∷ []))
unfolding lookup text_beq get_pending_path
release-IsQueued_example =
    release-IsQueued env 1000 writer (1 ∷ 2 ∷ 3 ∷ []) (system false) refl (refl, refl) refl refl
      (λ e. cc) (λ q. refl)

read-release_example :
    (read env note 5 1 1001 (release env 1000 (system false)).1).0
    ≡ returns (slice 1 (1 + 5) (1 ∷ 2 ∷ 3 ∷ []))
unfolding lookup text_beq get_pending_path starts_with
read-release_example =
    read-release env 1000 1001 writer reader note 1 5 (1 ∷ 2 ∷ 3 ∷ []) (system false) refl
      (refl, refl) refl refl (λ e. cc) refl refl (refl, refl) refl

resolve_ends_example : (resolve env 5 note (system false)).0 ≢ raises recursion_error
unfolding starts_with no_double_slash
resolve_ends_example = resolve_ends env 5 note (system false) (refl, refl) (omega arith)

truncate-length_example :
    let t = (truncate env root 2 (some 1000) (system false)).1 in
    (content : List ℕ) × (filled : OpenFile) × (lookup 1000 t.open_files ≡ some filled)
    × (filled.is_modified ≡ true)
    × (filled.file_id ≡ doc)
    × (lookup filled.temp_path (files_of t) ≡ some content)
    × (length content ≡ 2)
unfolding truncate truncate_handle truncate_open truncate_temp ensure_downloaded resolve
    resolve_or_raise truthy lookup text_beq
truncate-length_example = truncate-length env root 1000 2 writer (system false) refl refl refl refl
