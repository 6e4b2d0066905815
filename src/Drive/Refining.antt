-- ===== src/Drive/Refining.antt =====
-- The client against a store: directories with their children, and files with their contents.
use fusedrive_filesystem.Base.{
  ap, zero, ◌∙◌, refl, text_eq, ◌+◌, slice, arith, length, [], ◌++◌, ◌≤◌, suc, none, ◌≡◌, some,
  List, ◌<◌, ℕ, Text, Option, Bool,
}
use mathlib.Core.List.{append_assoc}
use fusedrive_filesystem.Contracts.{DriveNodeMetadata, ChunkSource}
use fusedrive_filesystem.Chunks.Manager.Coherent.{Serves}
use fusedrive_filesystem.Drive.{
  next_token, extend, Failure, Reply, answers, Result, answered, failed, gives_up, raises_other,
  RetryCall, is_retryable, is_any, Service, Clock, Page, File, files_in, map_files, then_map,
  execute_with_retry, list_from, list_children, get_file_content, download_file_chunk_from_api,
  content_of,
}
use fusedrive_filesystem.Drive.Retrying.{Retries, EndsAt, retry_answers}

pub record Store : Type 0 where
  pub children : Text → List DriveNodeMetadata
  pub contents : Text → List ℕ

-- The request answers so at one of the five attempts, and fails before it in ways that are tried
-- again.
abbrev pub Answers : {A : Type 0} → (Failure → Bool → Bool × Bool) → A → (ℕ → Reply A) → Type 0
Answers p a request = (k : ℕ) × (k < 5) × EndsAt p (answers a) k request

-- The pages from a token on, and their files.
pub data Pages (service : Service) (parent_id : Text) : Option Text → List File → ℕ → Type 0 where
  last :
      (token : Option Text) (page : Page)
      → Answers is_retryable page (service.list_page parent_id token)
      → next_token page ≡ none
      → Pages service parent_id token (files_in page) 1
  further :
      (token : Option Text) (page : Page) (next : Text) (rest : List File) (n : ℕ)
      → Answers is_retryable page (service.list_page parent_id token)
      → next_token page ≡ some next
      → Pages service parent_id (some next) rest n
      → Pages service parent_id token (files_in page ++ rest) (suc n)

-- The service shows the store, behind transient failures.
pub record Shows (service : Service) (clock : Clock) (store : Store) : Type 0 where
  pub listing :
      (parent_id : Text)
      → (files : List File) × (n : ℕ) × Pages service parent_id none files n
        × (map_files clock files ≡ some (store.children parent_id))
  pub media :
      (file_id : Text) → Answers is_retryable (store.contents file_id) (service.get_media file_id)
  pub ranges :
      (file_id : Text) (start end : ℕ)
      → start ≤ end
      → end < length (store.contents file_id)
      → Answers is_any
          (206, slice start (end + 1) (store.contents file_id))
          (service.get_range file_id start end)

-- The client as a source of chunks.
unfoldable pub value_of : {A : Type 0} → Result A → Option A
value_of (answered a) = some a
value_of (failed e) = none
value_of (gives_up e) = none
value_of raises_other = none

unfoldable pub chunk_source : RetryCall → Service → Bool → ChunkSource
chunk_source retry_call service tripped = record {
  download_file_chunk_from_api = λ file_id start end.
      value_of (download_file_chunk_from_api retry_call service file_id start end tripped).0;
}

module _ (retry_call : RetryCall) (laws : Retries retry_call) where
  execute-Answers :
      (A : Type 0) (request : ℕ → Reply A) (a : A) (tripped : Bool)
      → Answers is_retryable a request
      → execute_with_retry retry_call A request tripped ≡ (answered a, tripped)
  execute-Answers A request a tripped (k, few, ends) =
      retry_answers retry_call laws is_retryable k 5 request a tripped ends few

  list_from-Pages :
      (service : Service) (parent_id : Text) (fuel n : ℕ) (token : Option Text)
      (files all_files : List File) (tripped : Bool)
      → Pages service parent_id token files n
      → n ≤ fuel
      → list_from retry_call service fuel parent_id all_files token tripped
        ≡ some (answered (all_files ++ files), tripped)
  unfolding list_from extend
  list_from-Pages service parent_id zero n token files all_files tripped
        (last asked page given ends) enough =
      absurd (omega (arith, enough))
  list_from-Pages service parent_id zero n token files all_files tripped
        (further asked page next rest m given more pages) enough =
      absurd (omega (arith, enough))
  list_from-Pages service parent_id (suc fuel) n token files all_files tripped
        (last asked page given ended) enough =
      rw (list_from, execute-Answers Page (service.list_page parent_id token) page tripped given)
        (rw (extend, ended) refl)
  list_from-Pages service parent_id (suc fuel) n token files all_files tripped
        (further asked page next rest m given more pages) enough =
      rw (list_from, execute-Answers Page (service.list_page parent_id token) page tripped given)
        (rw (extend, more)
          (list_from-Pages service parent_id fuel m (some next) rest (all_files ++ files_in page)
              tripped pages (omega (arith, enough))
            ∙ ap (λ l. some (answered l, tripped)) (append_assoc all_files (files_in page) rest)))

  listed_lem :
      (service : Service) (clock : Clock) (parent_id : Text) (n : ℕ) (files : List File)
      (metadata : List DriveNodeMetadata) (tripped : Bool)
      → Pages service parent_id none files n
      → map_files clock files ≡ some metadata
      → list_children retry_call service clock n parent_id tripped
        ≡ some (answered metadata, tripped)
  unfolding list_children then_map
  listed_lem service clock parent_id n files metadata tripped pages mapped =
      rw
        (
          list_children,
          list_from-Pages service parent_id n n none files [] tripped pages (omega arith),
        )
        (rw (then_map, mapped) refl)

  -- Over a service that shows a store of directories and files, in pages and behind fewer than
  -- five transient failures for each request, and with `retry` as documented, the client is that
  -- store: with some fuel `list_children` returns all the children in order, `get_file_content`
  -- returns the content, and `download_file_chunk_from_api` serves every range, as the chunk
  -- manager relies on; the first two leave the circuit breaker as it was.
  pub client-Shows :
      (service : Service) (clock : Clock) (store : Store) (tripped : Bool)
      → Shows service clock store
      → ((parent_id : Text)
          → (fuel : ℕ) × (list_children retry_call service clock fuel parent_id tripped
              ≡ some (answered (store.children parent_id), tripped)))
        × ((file_id : Text)
            → get_file_content retry_call service file_id tripped
              ≡ (answered (store.contents file_id), tripped))
        × Serves (chunk_source retry_call service tripped) store.contents
  unfolding list_children get_file_content chunk_source download_file_chunk_from_api value_of
      content_of then_map
  client-Shows service clock store tripped shows = (
    λ parent_id.
        let (files, n, pages, mapped) = shows.listing parent_id in
        (
          n,
          listed_lem service clock parent_id n files (store.children parent_id) tripped pages
              mapped,
        ),
    λ file_id.
        execute-Answers (List ℕ) (service.get_media file_id) (store.contents file_id) tripped
          (shows.media file_id),
    λ file_id start end low high.
        let (k, few, ends) = shows.ranges file_id start end low high in
        rw
          (retry_answers retry_call laws is_any k 5 (service.get_range file_id start end) _ tripped
            ends few)
          refl,
  )
