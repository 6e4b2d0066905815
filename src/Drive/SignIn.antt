-- ===== src/Drive/SignIn.antt =====
-- src/infrastructure/drive/drive_client.py: the constructor of `GoogleDriveStorageClient` and
-- `_get_service`, over the Google libraries for credentials, on a disk of texts.
pub mod Again
use fusedrive_filesystem.Base.{
  text_eq, nat_eq, ◌&&◌, none, insert, if◌then◌else◌, ◌==◌, some, lookup, dirname, ℕ, join, false,
  Text, Dict, Option, Bool, List, codes,
}

-- What the libraries do: each that may raise is none there. A refresh makes other credentials, and
-- whether credentials are valid depends on the time.
pub record Google (C : Type 0) : Type 0 where
  -- `json.load(f).get("type")`
  pub json_type : Text → Option (Option Text)
  pub from_service_account_file : Text → Option C
  pub from_authorized_user_file : Text → Option C
  pub valid : ℕ → C → Bool
  pub expired : ℕ → C → Bool
  pub has_refresh_token : C → Bool
  pub refresh : ℕ → C → Option C
  pub run_local_server : Text → Option C
  pub to_json : C → Text

unfoldable pub token_path : Text → Text
token_path credentials_path = join (dirname credentials_path) (codes "token.json")

unfoldable pub is_service_account : Option Text → Bool
is_service_account none = false
is_service_account (some kind) = kind == codes "service_account"

module _ {C : Type 0} (google : Google C) where
  -- `creds` after the file of the token was read: none inside where there is no such file.
  unfoldable pub stored : Option Text → Option (Option C)
  stored none = some none
  stored (some token) = elim (google.from_authorized_user_file token) [
    | none ↦ none
    | some c ↦ some (some c)
  ]

  unfoldable pub save_token : Text → Option C → Dict Text Text → Option C × Dict Text Text
  save_token path none files = (none, files)
  save_token path (some c) files = (some c, insert path (google.to_json c) files)

module _ {C : Type 0} (google : Google C) (now : ℕ) where
  -- New credentials, from a refresh or from the user.
  unfoldable pub renew : Text → Option C → Option C
  renew content none = google.run_local_server content
  renew content (some c) =
      if google.expired now c && google.has_refresh_token c
      then google.refresh now c
      else google.run_local_server content

  unfoldable pub is_usable : Option C → Bool
  is_usable none = false
  is_usable (some c) = google.valid now c

  -- The branch of an installed application.
  unfoldable pub sign_in_user : Text → Text → Dict Text Text → Option C × Dict Text Text
  sign_in_user credentials_path content files =
      let path = token_path credentials_path in
      elim (stored google (lookup path files)) [
        | none ↦ (none, files)
        | some creds ↦
            if is_usable creds
            then (creds, files)
            else save_token google path (renew content creds) files
      ]

  -- `__init__`: the credentials, none where it raises, and the disk.
  unfoldable pub sign_in : Text → Dict Text Text → Option C × Dict Text Text
  sign_in credentials_path files = elim (lookup credentials_path files) [
    | none ↦ (none, files)
    | some content ↦ elim (google.json_type content) [
      | none ↦ (none, files)
      | some kind ↦
          if is_service_account kind
          then (google.from_service_account_file content, files)
          else sign_in_user credentials_path content files
    ]
  ]

-- `_get_service`, over the services of the threads: `build` makes one.
unfoldable pub get_service : {S : Type 0} → S → ℕ → Dict ℕ S → S × Dict ℕ S
get_service build thread services = elim (lookup thread services) [
  | some service ↦ (service, services)
  | none ↦ (build, insert thread build services)
]
