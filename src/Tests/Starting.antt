-- ===== src/Tests/Starting.antt =====
-- A sign-in that asks the user, and a record with an attribute of its own.
use fusedrive_filesystem.Base.{
  ends_with, mem, head_of, strip_slashes, dirname, starts_with, join, text_beq, insert, ◌+◌, true,
  leb, text_eq, refl, ltb, [], ◌≡◌, ◌∷◌, some, none, ℕ, lookup, codes, Option, ◌++◌, Text, Dict,
}
use fusedrive_filesystem.Drive.SignIn.{
  renew, save_token, is_usable, token_path, stored, sign_in_user, is_service_account, Google,
  sign_in,
}
use fusedrive_filesystem.Drive.SignIn.Again.{ReadsBack, sign_in_again}
use fusedrive_filesystem.Logging.{LogRecord, Library, log_record}
use fusedrive_filesystem.Logging.Fields.{field, log_record-field}

abbrev read_token : Text → Option ℕ
read_token [] = none
read_token (c ∷ token) = some c

-- Credentials are the time at which they expire.
abbrev google : Google ℕ
google = record {
  json_type = λ content. some (some (codes "installed"));
  from_service_account_file = λ content. none;
  from_authorized_user_file = read_token;
  valid = λ now c. ltb now c;
  expired = λ now c. leb c now;
  has_refresh_token = λ c. true;
  refresh = λ now c. some (now + 60);
  run_local_server = λ content. some 100;
  to_json = λ c. c ∷ [];
}

google-ReadsBack : ReadsBack google
google-ReadsBack c = refl

abbrev key_file : Dict Text Text
key_file = (codes "/etc/key.json", codes "{}") ∷ []

abbrev signed_in : Dict Text Text
signed_in = key_file ++ (codes "/etc/token.json", 100 ∷ []) ∷ []

first_sign_in : sign_in google 5 (codes "/etc/key.json") key_file ≡ (some 100, signed_in)
unfolding sign_in lookup insert text_beq is_service_account sign_in_user stored token_path join
    starts_with dirname strip_slashes head_of mem ends_with is_usable save_token renew
first_sign_in = refl

sign_in_again_example : sign_in google 50 (codes "/etc/key.json") signed_in ≡ (some 100, signed_in)
unfolding sign_in lookup insert text_beq is_service_account sign_in_user stored token_path join
    starts_with dirname strip_slashes head_of mem ends_with is_usable save_token renew
sign_in_again_example =
    sign_in_again google 5 50 (codes "/etc/key.json") 100 key_file google-ReadsBack refl refl refl

-- The token has expired by then, and is renewed.
late_sign_in : (sign_in google 150 (codes "/etc/key.json") signed_in).0 ≡ some 210
unfolding sign_in lookup insert text_beq is_service_account sign_in_user stored token_path join
    starts_with dirname strip_slashes head_of mem ends_with is_usable save_token renew
late_sign_in = refl

abbrev library : Library Text Text
library = record {
  format_time = λ r. codes "12:00";
  format_exception = λ e. e;
  text_value = λ text. text;
  dumps = λ d. none;
}

abbrev download : LogRecord Text Text
download = record {
  levelname = codes "INFO";
  name = codes "main";
  message = codes "Baixando chunk";
  exc_info = none;
  attributes = (codes "msg", codes "Baixando chunk") ∷ (codes "event", codes "chunk_download") ∷ [];
}

log_record-field_example :
    lookup (codes "event") (log_record library download) ≡ field library download (codes "event")
unfolding lookup text_beq
log_record-field_example = log_record-field library download (codes "event") (refl, (refl, tt))
