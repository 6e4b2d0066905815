-- ===== src/Drive.antt =====
-- src/infrastructure/drive/drive_client.py: `GoogleDriveStorageClient` and `_execute_with_retry`,
-- over the service of the Google API and the `retry` of tenacity. The circuit breaker is the flag
-- that is passed along. Each request is a function of the attempt.
pub mod Retrying
pub mod Refining
pub mod SignIn
use fusedrive_filesystem.Base.{
  zero, length, text_eq, suc, nat_eq, ◌++◌, ◌*◌, ◌&&◌, ◌∷◌, ◌||◌, true, some, not, none, ltb, false,
  codes, [], ◌==◌, ℕ, if◌then◌else◌, Text, Option, List, Bool,
}
use fusedrive_filesystem.Contracts.{
  DriveNodeMetadata, Deletion, deleted, permission_error, file_not_found_error, os_error,
  other_error,
}

-- An exception, by what the code asks of it. `reasons` are those of its JSON content, in order;
-- none where that raises `ValueError`.
pub record Failure : Type 0 where
  pub is_http_error : Bool
  pub is_resumable_upload_error : Bool
  pub status : ℕ
  pub reasons : Option (List Text)

-- How one attempt ends.
pub data Reply (A : Type 0) : Type 0 where
  answers : A → Reply A
  fails : Failure → Reply A

-- How a call ends: `gives_up` is the `RetryError` that holds the last exception, `raises_other` any
-- other exception.
pub data Result (A : Type 0) : Type 0 where
  answered : A → Result A
  failed : Failure → Result A
  gives_up : Failure → Result A
  raises_other : Result A

abbrev pub Call : Type 0 → Type 0
Call A = Bool → Result A × Bool

-- The dictionary of a file. `size` is the number that its text is read as; an empty
-- `modifiedTime` counts as none.
pub record File : Type 0 where
  pub id : Option Text
  pub name : Option Text
  pub mime_type : Option Text
  pub size : Option ℕ
  pub modified_time : Option Text

pub record Page : Type 0 where
  pub files : Option (List File)
  pub next_page_token : Option Text

-- The requests that the client builds. A ranged request answers with a status and content.
pub record Service : Type 0 where
  pub list_page : Text → Option Text → ℕ → Reply Page
  pub get_media : Text → ℕ → Reply (List ℕ)
  pub get_range : Text → ℕ → ℕ → ℕ → Reply (ℕ × List ℕ)
  pub create_file : Text → Text → List ℕ → ℕ → Reply File
  pub update_file : Text → List ℕ → Bool → ℕ → Reply File
  pub create_folder_request : Text → Text → ℕ → Reply File
  pub delete_request : Text → ℕ → Reply Unit

-- The loop over the errors of a 403: the value that is returned, if any, and the breaker.
unfoldable pub scan_reasons : List Text → Bool → Option Bool × Bool
scan_reasons [] tripped = (none, tripped)
scan_reasons (reason ∷ rest) tripped = elim (reason == codes "storageQuotaExceeded") [
  | true ↦ (some false, true)
  | false ↦ elim (reason == codes "insufficientFilePermissions") [
    | true ↦ (some false, tripped)
    | false ↦ scan_reasons rest tripped
  ]
]

unfoldable pub scan_content : Option (List Text) → Bool → Option Bool × Bool
scan_content none tripped = (none, tripped)
scan_content (some reasons) tripped = scan_reasons reasons tripped

-- `_is_retryable`
unfoldable pub is_retryable : Failure → Bool → Bool × Bool
is_retryable e tripped =
    let last_line = e.is_http_error || e.is_resumable_upload_error in
    if e.is_http_error && e.status == 404
    then (false, tripped)
    else if e.is_http_error && e.status == 403
    then (let (found, after) = scan_content e.reasons tripped in
        (elim found [ none ↦ last_line | some r ↦ r ], after))
    else (last_line, tripped)

-- The default of `retry`: every exception is tried again.
abbrev pub is_any : Failure → Bool → Bool × Bool
is_any e tripped = (true, tripped)

-- `retry(stop=stop_after_attempt(n), retry=p)` around a request.
abbrev pub RetryCall : Type 1
RetryCall = (A : Type 0) → (Failure → Bool → Bool × Bool) → ℕ → (ℕ → Reply A) → Call A

abbrev pub folder_mime : Text
folder_mime = codes "application/vnd.google-apps.folder"

-- `mtime_str.replace("Z", "+00:00")`
unfoldable pub replace_z : Text → Text
replace_z [] = []
replace_z (c ∷ text) =
    let rest = replace_z text in if c == 90 then codes "+00:00" ++ rest else c ∷ rest

unfoldable pub or_empty : Option Text → Text
or_empty none = []
or_empty (some text) = text

-- The clock, and `fromisoformat` with `timestamp`: none where it raises.
pub record Clock : Type 0 where
  pub now : ℕ
  pub fromisoformat : Text → Option ℕ

unfoldable pub modified_at : Clock → Option Text → Option ℕ
modified_at clock none = some clock.now
modified_at clock (some text) =
    if text == [] then some clock.now else clock.fromisoformat (replace_z text)

unfoldable pub is_folder : Option Text → Bool
is_folder none = false
is_folder (some mime) = mime == folder_mime

-- `_map_google_api_file_to_metadata`
unfoldable pub map_google_api_file_to_metadata : Clock → File → Option DriveNodeMetadata
map_google_api_file_to_metadata clock f = elim (modified_at clock f.modified_time) [
  | none ↦ none
  | some at ↦ some (record {
    file_id = or_empty f.id;
    name = or_empty f.name;
    is_directory = is_folder f.mime_type;
    size = elim f.size [ none ↦ 0 | some n ↦ n ];
    modified_at_timestamp = at;
  })
]

unfoldable pub map_files : Clock → List File → Option (List DriveNodeMetadata)
map_files clock [] = some []
map_files clock (f ∷ files) = elim (map_google_api_file_to_metadata clock f) [
  | none ↦ none
  | some m ↦ elim (map_files clock files) [ none ↦ none | some ms ↦ some (m ∷ ms) ]
]

unfoldable pub files_in : Page → List File
files_in page = elim page.files [ none ↦ [] | some files ↦ files ]

-- What is returned of what was answered: a value, or another exception.
unfoldable pub then_map : {A B : Type 0} → (A → Option B) → Result A × Bool → Result B × Bool
then_map f (answered a, tripped) =
    (elim (f a) [ none ↦ raises_other | some b ↦ answered b ], tripped)
then_map f (failed e, tripped) = (failed e, tripped)
then_map f (gives_up e, tripped) = (gives_up e, tripped)
then_map f (raises_other, tripped) = (raises_other, tripped)

-- `resp.status in [200, 206]`
unfoldable pub content_of : ℕ × List ℕ → Option (List ℕ)
content_of (status, content) = if status == 200 || status == 206 then some content else none

-- The `except HttpError` of `delete_file`.
unfoldable pub deletion_error : Failure → Deletion
deletion_error e =
    if not e.is_http_error
    then other_error
    else if e.status == 403
    then permission_error
    else if e.status == 404
    then file_not_found_error
    else os_error

-- `page_token = response.get("nextPageToken")`, for `if not page_token`
unfoldable pub next_token : Page → Option Text
next_token page = elim page.next_page_token [
  | none ↦ none
  | some token ↦ if token == [] then none else some token
]

-- The loop of `list_children` behind the request, with the next round as a function.
unfoldable pub extend :
    List File
    → (List File → Text → Bool → Option (Result (List File) × Bool))
    → Result Page × Bool
    → Option (Result (List File) × Bool)
extend all_files next_round (answered page, after) = elim (next_token page) [
  | none ↦ some (answered (all_files ++ files_in page), after)
  | some token ↦ next_round (all_files ++ files_in page) token after
]
extend all_files next_round (failed e, after) = some (failed e, after)
extend all_files next_round (gives_up e, after) = some (gives_up e, after)
extend all_files next_round (raises_other, after) = some (raises_other, after)

module _ (retry_call : RetryCall) where
  -- `_execute_with_retry`
  abbrev pub execute_with_retry : (A : Type 0) → (ℕ → Reply A) → Call A
  execute_with_retry A request = retry_call A is_retryable 5 request

  module _ (service : Service) where
    -- The loop of `list_children`; none where the fuel is used up.
    unfoldable pub list_from :
        ℕ → Text → List File → Option Text → Bool → Option (Result (List File) × Bool)
    list_from zero parent_id all_files page_token tripped = none
    list_from (suc fuel) parent_id all_files page_token tripped =
        extend all_files (λ files token after. list_from fuel parent_id files (some token) after)
          (execute_with_retry Page (service.list_page parent_id page_token) tripped)

    unfoldable pub get_file_content : Text → Call (List ℕ)
    get_file_content file_id = execute_with_retry (List ℕ) (service.get_media file_id)

    unfoldable pub download_file_chunk_from_api : Text → ℕ → ℕ → Call (List ℕ)
    download_file_chunk_from_api file_id start end tripped =
        then_map content_of
          (retry_call (ℕ × List ℕ) is_any 5 (service.get_range file_id start end) tripped)

    unfoldable pub delete_file : Text → Bool → Deletion × Bool
    delete_file file_id tripped =
        let (r, after) = execute_with_retry Unit (service.delete_request file_id) tripped in
        elim r [
          | answered _ ↦ (deleted, after)
          | failed e ↦ (deletion_error e, after)
          | gives_up e ↦ (other_error, after)
          | raises_other ↦ (other_error, after)
        ]

  module _ (service : Service) (clock : Clock) where
    unfoldable pub list_children : ℕ → Text → Bool → Option (Result (List DriveNodeMetadata) × Bool)
    list_children fuel parent_id tripped = elim (list_from service fuel parent_id [] none tripped) [
      | none ↦ none
      | some r ↦ some (then_map (map_files clock) r)
    ]

    unfoldable pub upload_new_file_to_drive : Text → Text → List ℕ → Call DriveNodeMetadata
    upload_new_file_to_drive parent_id name content tripped =
        then_map (map_google_api_file_to_metadata clock)
          (execute_with_retry File (service.create_file parent_id name content) tripped)

    -- Over the content of the local file.
    unfoldable pub upload_local_file_to_drive : Text → List ℕ → Call DriveNodeMetadata
    upload_local_file_to_drive file_id content tripped =
        let use_resumable = ltb (5 * 1024 * 1024) (length content) in
        then_map (map_google_api_file_to_metadata clock)
          (execute_with_retry File (service.update_file file_id content use_resumable) tripped)

    unfoldable pub create_folder : Text → Text → Call DriveNodeMetadata
    create_folder parent_id name tripped =
        then_map (map_google_api_file_to_metadata clock)
          (execute_with_retry File (service.create_folder_request parent_id name) tripped)
