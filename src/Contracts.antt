-- ===== src/Contracts.antt =====
-- src/domain/contracts/interfaces.py: the metadata of a node, and what the caches ask of the
-- storage client. Times are opaque numbers: the code only compares them.
use fusedrive_filesystem.Base.{refl, inr, inl, ◌⊎◌, ◌≡◌, ℕ, Text, Bool, List, Option}

pub record DriveNodeMetadata : Type 0 where
  pub file_id : Text
  pub name : Text
  pub is_directory : Bool
  pub size : ℕ
  pub modified_at_timestamp : ℕ

-- How a call ends: with a value, with an exception, or never. The second line of errors are those of
-- `FuseOSError`: ENOENT, EBADF, ENOSPC, EIO and EACCES.
pub data Error : Type 0 where
  storage_error deadlock_error cancelled_error recursion_error file_missing : Error
  no_entry bad_handle no_space io_error no_access key_error : Error

pub data Outcome {ℓ} (A : Type ℓ) : Type ℓ where
  returns : A → Outcome A
  raises : Error → Outcome A
  blocks : Outcome A

pub returns-inj {ℓ} : {A : Type ℓ} {a b : A} → returns a ≡ returns b → a ≡ b
returns-inj h = cc

pub raises-ne-returns {ℓ} : {A : Type ℓ} {e : Error} {a : A} → raises e ≡ returns a → ⊥
raises-ne-returns h = cc

pub returns-ne-raises {ℓ} : {A : Type ℓ} {e : Error} {a : A} → returns a ≡ raises e → ⊥
returns-ne-raises h = cc

pub blocks-ne-raises {ℓ} : {A : Type ℓ} {e : Error} {o : Outcome A} → o ≡ blocks → o ≡ raises e → ⊥
blocks-ne-raises stuck h = cc

pub raises-inj {ℓ} :
    {A : Type ℓ} {e f : Error} {o : Outcome A} → o ≡ raises e → o ≡ raises f → e ≡ f
raises-inj left right = cc

pub blocks-ne-returns {ℓ} : {A : Type ℓ} {a : A} → blocks ≡ returns a → ⊥
blocks-ne-returns h = cc

pub Outcome-cases {ℓ} :
    {A : Type ℓ} (o : Outcome A)
    → ((a : A) × (o ≡ returns a)) ⊎ (((e : Error) × (o ≡ raises e)) ⊎ (o ≡ blocks))
Outcome-cases (returns a) = inl (a, refl)
Outcome-cases (raises e) = inr (inl (e, refl))
Outcome-cases blocks = inr (inr refl)

-- How `delete_file` ends: it returns, or raises one of three kinds of `OSError`, or another
-- exception.
pub data Deletion : Type 0 where
  deleted permission_error file_not_found_error os_error other_error : Deletion

-- `download_file_chunk_from_api(file_id, start, end)`: the bytes from `start` to `end`, both
-- included; `none` where the client raises.
pub record ChunkSource : Type 0 where
  pub download_file_chunk_from_api : Text → ℕ → ℕ → Option (List ℕ)

-- The methods of the cache that `FuseOps` is given, over its state.
pub record IMetadataCache (C : Type 0) : Type 0 where
  pub resolve_path_to_node_id : Text → C → Option Text
  pub map_path_to_node_id : Text → Text → C → C
  pub get_metadata : Text → C → Option DriveNodeMetadata
  pub set_metadata : Text → DriveNodeMetadata → C → Bool × C
  pub is_directory_children_loaded : Text → C → Bool
  pub mark_directory_children_loaded : Text → C → C
  pub get_children_paths : Text → C → List Text
  pub invalidate_path : Text → C → C
