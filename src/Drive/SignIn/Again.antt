-- ===== src/Drive/SignIn/Again.antt =====
-- A later start over the disk that a sign-in leaves.
use fusedrive_filesystem.Base.{
  ◌∙◌, lookup-insert, false, Option, ◌==◌, lookup-insert_self, arith, Bool-cases, inr, inl, text_eq,
  Option-cases, true, some, lookup, ℕ, Text, Dict, ◌≡◌, refl,
}
use fusedrive_filesystem.Drive.SignIn.{
  is_service_account, sign_in, Google, token_path, stored, renew, is_usable, save_token,
  sign_in_user,
}

-- Credentials are read back from the text that they are written as.
abbrev pub ReadsBack : {C : Type 0} → Google C → Type 0
ReadsBack {C = C} google = (c : C) → google.from_authorized_user_file (google.to_json c) ≡ some c

-- A sign-in would not ask anybody: the token is there, and is usable.
stored_again :
    {C : Type 0} (google : Google C) (later : ℕ) (path content : Text) (c : C)
    (files : Dict Text Text)
    → stored google (lookup (token_path path) files) ≡ some (some c)
    → google.valid later c ≡ true
    → sign_in_user google later path content files ≡ (some c, files)
unfolding sign_in_user is_usable
stored_again google later path content c files known valid = rw (sign_in_user, known, valid) refl

-- A sign-in that succeeds leaves the token of its credentials, whichever way it came to them.
user_stores :
    {C : Type 0} (google : Google C) (now : ℕ) (path content : Text) (c : C)
    (files : Dict Text Text)
    → ReadsBack google
    → (sign_in_user google now path content files).0 ≡ some c
    → stored google (lookup (token_path path) (sign_in_user google now path content files).1)
      ≡ some (some c)
unfolding sign_in_user save_token stored
user_stores google now path content c files reads_back signed =
    elim (Option-cases (stored google (lookup (token_path path) files))) [
      | inl failed ↦ ground (arith, signed, failed)
      | inr (creds, known) ↦ elim (Bool-cases (is_usable google now creds)) [
        | inl usable ↦ ground (arith, signed, known, usable)
        | inr stale ↦ elim (Option-cases (renew google now content creds)) [
          | inl refused ↦ ground (arith, signed, known, stale, refused)
          | inr (renewed, made) ↦ ground (
            arith,
            signed,
            known,
            stale,
            made,
            reads_back renewed,
            lookup-insert_self (token_path path) (google.to_json renewed) files,
          )
        ]
      ]
    ]

user_keeps :
    {C : Type 0} (google : Google C) (now : ℕ) (path content : Text) (files : Dict Text Text)
    → (token_path path == path) ≡ false
    → lookup path (sign_in_user google now path content files).1 ≡ lookup path files
unfolding sign_in_user save_token
user_keeps google now path content files apart =
    elim (Option-cases (stored google (lookup (token_path path) files))) [
      | inl failed ↦ ground (arith, failed)
      | inr (creds, known) ↦ elim (Bool-cases (is_usable google now creds)) [
        | inl usable ↦ ground (arith, known, usable)
        | inr stale ↦ elim (Option-cases (renew google now content creds)) [
          | inl refused ↦ ground (arith, known, stale, refused)
          | inr (renewed, made) ↦ ground (
            arith,
            known,
            stale,
            made,
            apart,
            lookup-insert path (token_path path) (google.to_json renewed) files,
          )
        ]
      ]
    ]

module _ {C : Type 0} (google : Google C) (now later : ℕ) (path : Text) (c : C)
    (files : Dict Text Text) where
  user_again :
      (content : Text) (kind : Option Text)
      → ReadsBack google
      → (token_path path == path) ≡ false
      → lookup path files ≡ some content
      → google.json_type content ≡ some kind
      → is_service_account kind ≡ false
      → (sign_in_user google now path content files).0 ≡ some c
      → google.valid later c ≡ true
      → let left = (sign_in_user google now path content files).1 in
        sign_in google later path left ≡ (some c, left)
  unfolding sign_in
  user_again content kind reads_back apart there parsed user signed valid =
      let left = (sign_in_user google now path content files).1 in
      let same = user_keeps google now path content files apart in
      let kept : lookup path left ≡ some content = same ∙ there in
      rw (sign_in, kept, parsed, user)
        (stored_again google later path content c left
          (user_stores google now path content c files reads_back signed) valid)

  -- If the credentials are read back from the text that they are written as, the file of the token
  -- is another than that of the credentials, a sign-in at one time answers with credentials, and
  -- those are valid at a later time, then a sign-in at that time over the disk that the first left
  -- answers with the same credentials and leaves the disk as it is.
  pub sign_in_again :
      ReadsBack google
      → (token_path path == path) ≡ false
      → (sign_in google now path files).0 ≡ some c
      → google.valid later c ≡ true
      → let left = (sign_in google now path files).1 in
        sign_in google later path left ≡ (some c, left)
  unfolding sign_in
  sign_in_again reads_back apart signed valid = elim (Option-cases (lookup path files)) [
    | inl absent ↦ ground (arith, absent, signed)
    | inr (content, there) ↦ elim (Option-cases (google.json_type content)) [
      | inl broken ↦ ground (arith, there, broken, signed)
      | inr (kind, parsed) ↦ elim (Bool-cases (is_service_account kind)) [
        | inl service ↦ ground (arith, there, parsed, service, signed)
        | inr user ↦ ground (
          arith,
          there,
          parsed,
          user,
          signed,
          user_again content kind reads_back apart there parsed user,
        )
      ]
    ]
  ]
