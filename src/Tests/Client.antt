-- ===== src/Tests/Client.antt =====
-- A service whose first attempt fails each time, and tenacity by its documentation.
use fusedrive_filesystem.Base.{
  ap, text_beq, [], ◌+◌, ◌∷◌, ℕ, slice, mem, codes, arith, Text, Option, Bool, refl, true, false,
  zero, suc, some, none, ◌≡◌, ◌⊎◌, List,
}
use fusedrive_filesystem.Contracts.{
  DriveNodeMetadata, deleted, permission_error, file_not_found_error, other_error,
}
use fusedrive_filesystem.Chunks.Manager.Coherent.{Serves}
use fusedrive_filesystem.Drive.{
  files_in, next_token, Failure, Reply, answers, fails, answered, failed, gives_up, raises_other,
  RetryCall, is_retryable, is_any, Service, Clock, Page, File, map_files, execute_with_retry,
  list_children, get_file_content, delete_file, map_google_api_file_to_metadata, modified_at,
  or_empty, is_folder,
}
use fusedrive_filesystem.Drive.Retrying.{
  IsForeign, Retries, at_once, later, quota-trips, delete-outcomes,
}
use fusedrive_filesystem.Drive.Refining.{
  Store, Answers, last, further, Shows, chunk_source, client-Shows,
}

unfoldable tenacity : RetryCall
tenacity A p zero f tripped = (raises_other, tripped)
tenacity A p (suc zero) f tripped = elim (f 0) [
  | answers a ↦ (answered a, tripped)
  | fails e ↦ (elim (p e tripped).0 [ true ↦ gives_up e | false ↦ failed e ], (p e tripped).1)
]
tenacity A p (suc (suc n)) f tripped = elim (f 0) [
  | answers a ↦ (answered a, tripped)
  | fails e ↦ elim (p e tripped).0 [
    | true ↦ tenacity A p (suc n) (λ i. f (suc i)) (p e tripped).1
    | false ↦ (failed e, (p e tripped).1)
  ]
]

tenacity_answer :
    (A : Type 0) (p : Failure → Bool → Bool × Bool) (n : ℕ) (f : ℕ → Reply A) (tripped : Bool)
    (a : A)
    → f 0 ≡ answers a
    → tenacity A p (suc n) f tripped ≡ (answered a, tripped)
unfolding tenacity
tenacity_answer A p zero f tripped a now = rw (tenacity, now) refl
tenacity_answer A p (suc n) f tripped a now = rw (tenacity, now) refl

tenacity_final :
    (A : Type 0) (p : Failure → Bool → Bool × Bool) (n : ℕ) (f : ℕ → Reply A) (tripped after : Bool)
    (e : Failure)
    → f 0 ≡ fails e
    → p e tripped ≡ (false, after)
    → tenacity A p (suc n) f tripped ≡ (failed e, after)
unfolding tenacity
tenacity_final A p zero f tripped after e now ends = rw (tenacity, now, ends) refl
tenacity_final A p (suc n) f tripped after e now ends =
    let stops : (p e tripped).0 ≡ false = ap (λ (b : Bool × Bool). b.0) ends in
    rw (tenacity, now, stops) (ap (λ (b : Bool × Bool). (failed e, b.1)) ends)

tenacity_round :
    (A : Type 0) (p : Failure → Bool → Bool × Bool) (n : ℕ) (f : ℕ → Reply A) (tripped : Bool)
    (e : Failure)
    → f 0 ≡ fails e
    → (p e tripped).0 ≡ true
    → tenacity A p (suc (suc n)) f tripped ≡ tenacity A p (suc n) (λ i. f (suc i)) (p e tripped).1
unfolding tenacity
tenacity_round A p n f tripped e now goes_on = rw (tenacity, now, goes_on) refl

tenacity_again :
    (A : Type 0) (p : Failure → Bool → Bool × Bool) (n : ℕ) (f : ℕ → Reply A) (tripped after : Bool)
    (e : Failure)
    → f 0 ≡ fails e
    → p e tripped ≡ (true, after)
    → tenacity A p (suc (suc n)) f tripped ≡ tenacity A p (suc n) (λ i. f (suc i)) after
tenacity_again A p n f tripped after e now again =
    let goes_on : (p e tripped).0 ≡ true = ap (λ (b : Bool × Bool). b.0) again in
    rw (tenacity_round A p n f tripped e now goes_on)
      (ap (λ (b : Bool × Bool). tenacity A p (suc n) (λ i. f (suc i)) b.1) again)

tenacity-Retries : Retries tenacity
unfolding tenacity
tenacity-Retries = record {
  on_answer = tenacity_answer;
  on_final = tenacity_final;
  on_last = λ A p f tripped after e now again. rw (tenacity, now, again) refl;
  on_again = tenacity_again;
}

abbrev busy : Failure
busy = record {
  is_http_error = true;
  is_resumable_upload_error = false;
  status = 503;
  reasons = none;
}

abbrev flaky : {A : Type 0} → A → ℕ → Reply A
flaky a zero = fails busy
flaky a (suc n) = answers a

abbrev bytes : List ℕ
bytes = 1 ∷ 2 ∷ 3 ∷ []

abbrev note : File
note = record {
  id = some (codes "doc");
  name = some (codes "note");
  mime_type = none;
  size = some 3;
  modified_time = none;
}

abbrev clock : Clock
clock = record { now = 7; fromisoformat = λ text. none }

abbrev note_metadata : DriveNodeMetadata
note_metadata = record {
  file_id = codes "doc";
  name = codes "note";
  is_directory = false;
  size = 3;
  modified_at_timestamp = 7;
}

abbrev first_page : Page
first_page = record { files = some (note ∷ []); next_page_token = some (codes "2") }

abbrev second_page : Page
second_page = record { files = none; next_page_token = none }

abbrev page_at : Option Text → Page
page_at none = first_page
page_at (some token) = second_page

abbrev full : Failure
full = record {
  is_http_error = true;
  is_resumable_upload_error = false;
  status = 403;
  reasons = some (codes "storageQuotaExceeded" ∷ []);
}

abbrev service : Service
service = record {
  list_page = λ parent_id token. flaky (page_at token);
  get_media = λ file_id. flaky bytes;
  get_range = λ file_id start end. flaky (206, slice start (end + 1) bytes);
  create_file = λ parent_id name content n. fails full;
  update_file = λ file_id content resumable n. fails full;
  create_folder_request = λ parent_id name n. fails full;
  delete_request = λ file_id n. fails full;
}

abbrev small_store : Store
small_store = record { children = λ parent_id. note_metadata ∷ []; contents = λ file_id. bytes }

second_attempt : {A : Type 0} (a : A) → Answers is_retryable a (flaky a)
unfolding is_retryable
second_attempt a = (1, omega arith, later busy refl (λ tripped. refl) (at_once refl))

second_any : {A : Type 0} (a : A) → Answers is_any a (flaky a)
second_any a = (1, omega arith, later busy refl (λ tripped. refl) (at_once refl))

service-Shows : Shows service clock small_store
unfolding map_files map_google_api_file_to_metadata modified_at or_empty is_folder next_token
    files_in text_beq
service-Shows = record {
  listing = λ parent_id. (
    note ∷ [],
    2,
    further none first_page (codes "2") [] 1 (second_attempt first_page) refl
        (last (some (codes "2")) second_page (second_attempt second_page) refl),
    refl,
  );
  media = λ file_id. second_attempt bytes;
  ranges = λ file_id start end low high. second_any (206, slice start (end + 1) bytes);
}

client-Shows_example :
    ((parent_id : Text)
      → (fuel : ℕ) × (list_children tenacity service clock fuel parent_id false
          ≡ some (answered (small_store.children parent_id), false)))
    × ((file_id : Text)
        → get_file_content tenacity service file_id false
          ≡ (answered (small_store.contents file_id), false))
    × Serves (chunk_source tenacity service false) small_store.contents
client-Shows_example =
    client-Shows tenacity tenacity-Retries service clock small_store false service-Shows

delete-outcomes_example :
    let call = execute_with_retry tenacity Unit (service.delete_request (codes "doc")) false in
    let outcome = (delete_file tenacity service (codes "doc") false).0 in
    ((outcome ≡ deleted) × (call.0 ≡ answered tt))
    ⊎ (((outcome ≡ other_error) × IsForeign call.0)
        ⊎ (e : Failure) × (call.0 ≡ failed e)
          × (((outcome ≡ permission_error) × (e.is_http_error ≡ true) × (e.status ≡ 403))
              ⊎ ((outcome ≡ file_not_found_error) × (e.is_http_error ≡ true) × (e.status ≡ 404))))
delete-outcomes_example = delete-outcomes tenacity service (codes "doc") false tenacity-Retries

quota-trips_example :
    execute_with_retry tenacity File (service.create_file (codes "p") (codes "n") bytes) false
    ≡ (failed full, true)
unfolding mem text_beq
quota-trips_example =
    quota-trips tenacity File (service.create_file (codes "p") (codes "n") bytes) 0 full
      (codes "storageQuotaExceeded" ∷ []) false tenacity-Retries (at_once refl) (omega arith) refl
      refl refl refl refl
