-- ===== src/Tests/Journaling.antt =====
-- Two files that a crash left in the journal.
use fusedrive_filesystem.Uploads.Journal.{recover-edit, recover-create, recover_file, Surroundings}
use fusedrive_filesystem.Metrics
use fusedrive_filesystem.Uploads.Jobs.{Settings, State, absent, uploaded, enqueue_file_for_upload}
use fusedrive_filesystem.Base.{join, refl, true, none, false, ◌∷◌, some, mem, codes, [], ◌≡◌}

abbrev env : Settings
env = record {
  uploads_dir = codes "up";
  max_retries = 5;
  storage = record {
    upload_new_file_to_drive = λ parent_id name content. uploaded;
    upload_local_file_to_drive = λ file_id content. uploaded;
  };
}

abbrev around : Surroundings
around = record { decode_name = λ t. some t; uuid4 = λ t. codes "1"; now = λ t. codes "7" }

abbrev crashed : State
crashed = record {
  queue = [];
  queue_file = absent;
  can_save = λ q. true;
  files = (codes "j/edit_doc_x", 1 ∷ []) ∷ (codes "j/create_top_new_x", 2 ∷ []) ∷ [];
  metrics = Metrics.new none;
  submitted = [];
  timers = [];
  is_tripped = false;
}

recover-edit_example :
    recover_file env around (codes "j") (codes "edit_doc_x") crashed
    ≡ enqueue_file_for_upload env
        (codes "7")
        (codes "doc")
        (join (codes "j") (codes "edit_doc_x"))
        false
        none
        none
        crashed
unfolding mem
recover-edit_example = recover-edit env around (codes "j") 100 (codes "oc") (codes "x") crashed refl

recover-create_example : recover_file env around (codes "j") (codes "create_top_new_x") crashed ≡ (
  true,
  (enqueue_file_for_upload env
      (codes "7")
      (codes "rec_1")
      (join (codes "j") (codes "create_top_new_x"))
      true
      (some (codes "top"))
      (some (codes "new"))
      crashed).1,
)
unfolding mem
recover-create_example =
    recover-create env around (codes "j") 116 (codes "op") 110 (codes "ew") (codes "x")
      (codes "new") crashed refl refl refl
