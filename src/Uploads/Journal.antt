-- ===== src/Uploads/Journal.antt =====
-- `_recover_journal`: files that a crash left in the journal are enqueued by what their names say.
use fusedrive_filesystem.Base.{
  join, refl, nat_eq, drop, arith, [], ◌==◌, true, none, if◌then◌else◌, codes, ◌++◌, ◌∷◌, some,
  false, Option, List, Bool, ℕ, starts_with, mem, Text, ◌≡◌,
}
use fusedrive_filesystem.Uploads.Jobs.{Settings, State, enqueue_file_for_upload}

abbrev underscore : ℕ
underscore = 95

-- What is before the first underscore, and what is behind it.
unfoldable pub cut : Text → Option (Text × Text)
cut [] = none
cut (c ∷ text) =
    let rest = cut text in
    if c == underscore
    then some ([], text)
    else elim rest [ none ↦ none | some (before, behind) ↦ some (c ∷ before, behind) ]

-- `([^_]+)_` at the start of a text: the group, and what follows the match.
unfoldable pub segment : Text → Option (Text × Text)
segment text = elim (cut text) [
  | none ↦ none
  | some (before, behind) ↦ elim before [ [] ↦ none | c ∷ more ↦ some (c ∷ more, behind) ]
]

-- What a name in the journal says; `created` has the parent and the name in base 64.
pub data Orphan : Type 0 where
  unknown : Orphan
  edited : Text → Orphan
  created : Text → Text → Orphan

-- `re.match(r"^edit_([^_]+)_", filename)`
unfoldable pub match_edit : Text → Option Text
match_edit filename =
    if starts_with (codes "edit_") filename
    then elim (segment (drop 5 filename)) [ none ↦ none | some (id, _) ↦ some id ]
    else none

-- `re.match(r"^create_([^_]+)_([^_]+)_", filename)`
unfoldable pub match_create : Text → Option (Text × Text)
match_create filename =
    if starts_with (codes "create_") filename
    then elim (segment (drop 7 filename)) [
      | none ↦ none
      | some (parent, behind) ↦ elim (segment behind) [
        | none ↦ none
        | some (name, _) ↦ some (parent, name)
      ]
    ]
    else none

unfoldable pub classify : Text → Orphan
classify filename = elim (match_edit filename) [
  | some id ↦ edited id
  | none ↦ elim (match_create filename) [
    | some (parent, name) ↦ created parent name
    | none ↦ unknown
  ]
]

-- The libraries that the recovery calls: `urlsafe_b64decode` and `decode`, `none` where one of them
-- raises; the text of a new `uuid4` for each file; and the clock.
pub record Surroundings : Type 0 where
  pub decode_name : Text → Option Text
  pub uuid4 : Text → Text
  pub now : Text → Text

-- One round of the loop, and whether it goes on: what the branch for new files raises is caught.
unfoldable pub recover_file : Settings → Surroundings → Text → Text → State → Bool × State
recover_file env around journal_dir filename s =
    let path = join journal_dir filename in
    elim (classify filename) [
      | unknown ↦ (true, s)
      | edited id ↦ enqueue_file_for_upload env (around.now filename) id path false none none s
      | created parent encoded ↦ elim (around.decode_name encoded) [
        | none ↦ (true, s)
        | some name ↦ (
          true,
          (enqueue_file_for_upload env (around.now filename) (codes "rec_" ++ around.uuid4 filename)
              path true (some parent) (some name) s).1,
        )
      ]
    ]

-- The files of the journal in the order of `os.listdir`.
unfoldable pub recover_journal : Settings → Surroundings → Text → List Text → State → Bool × State
recover_journal env around journal_dir [] s = (true, s)
recover_journal env around journal_dir (filename ∷ rest) s =
    let (goes_on, after) = recover_file env around journal_dir filename s in
    if goes_on then recover_journal env around journal_dir rest after else (false, after)

cut-append :
    (before behind : Text)
    → mem underscore before ≡ false
    → cut (before ++ underscore ∷ behind) ≡ some (before, behind)
unfolding cut mem
cut-append [] behind clean = refl
cut-append (c ∷ before) behind clean =
    rw (cut-append before behind (ground (arith, clean))) (ground (arith, clean))

segment-append :
    (first : ℕ) (more behind : Text)
    → mem underscore (first ∷ more) ≡ false
    → segment ((first ∷ more) ++ underscore ∷ behind) ≡ some (first ∷ more, behind)
unfolding segment
segment-append first more behind clean = rw (segment, cut-append (first ∷ more) behind clean) refl

match_edit_lem :
    (text group behind : Text)
    → segment text ≡ some (group, behind)
    → match_edit (codes "edit_" ++ text) ≡ some group
unfolding match_edit starts_with
match_edit_lem text group behind e = rw e refl

match_create_lem :
    (text parent rest name behind : Text)
    → segment text ≡ some (parent, rest)
    → segment rest ≡ some (name, behind)
    → (match_edit (codes "create_" ++ text) ≡ none)
      × (match_create (codes "create_" ++ text) ≡ some (parent, name))
unfolding match_edit match_create starts_with
match_create_lem text parent rest name behind e e' = (refl, rw (e, e') refl)

recover_edited :
    (env : Settings) (around : Surroundings) (journal_dir filename id : Text) (s : State)
    → match_edit filename ≡ some id
    → recover_file env around journal_dir filename s
      ≡ enqueue_file_for_upload env
          (around.now filename)
          id
          (join journal_dir filename)
          false
          none
          none
          s
unfolding recover_file classify
recover_edited env around journal_dir filename id s e = rw (recover_file, classify, e) refl

recover_created :
    (env : Settings) (around : Surroundings) (journal_dir filename parent encoded name : Text)
    (s : State)
    → match_edit filename ≡ none
    → match_create filename ≡ some (parent, encoded)
    → around.decode_name encoded ≡ some name
    → recover_file env around journal_dir filename s ≡ (
      true,
      (enqueue_file_for_upload env
          (around.now filename)
          (codes "rec_" ++ around.uuid4 filename)
          (join journal_dir filename)
          true
          (some parent)
          (some name)
          s).1,
    )
unfolding recover_file classify
recover_created env around journal_dir filename parent encoded name s other found decodes =
    rw (recover_file, classify, other, found, decodes) refl

-- A journal file whose name is `edit_`, an id that is not empty and has no underscore, an
-- underscore and anything else is recovered by enqueueing it as an edit under that id.
pub recover-edit :
    (env : Settings) (around : Surroundings) (journal_dir : Text) (first : ℕ) (id behind : Text)
    (s : State)
    → mem underscore (first ∷ id) ≡ false
    → let filename = codes "edit_" ++ (first ∷ id) ++ underscore ∷ behind in
      recover_file env around journal_dir filename s
      ≡ enqueue_file_for_upload env
          (around.now filename)
          (first ∷ id)
          (join journal_dir filename)
          false
          none
          none
          s
recover-edit env around journal_dir first id behind s clean =
    recover_edited env around journal_dir _ (first ∷ id) s
      (match_edit_lem _ (first ∷ id) behind (segment-append first id behind clean))

-- A journal file whose name is `create_`, a parent id and an encoded name, both not empty, without
-- underscores and followed by one, and anything else is recovered by enqueueing it as a new file
-- of that parent under the decoded name, where the name can be decoded.
pub recover-create :
    (env : Settings) (around : Surroundings) (journal_dir : Text) (first : ℕ) (parent : Text)
    (start : ℕ) (encoded behind name : Text) (s : State)
    → mem underscore (first ∷ parent) ≡ false
    → mem underscore (start ∷ encoded) ≡ false
    → around.decode_name (start ∷ encoded) ≡ some name
    → let filename =
        codes "create_"
        ++ ((first ∷ parent) ++ underscore ∷ ((start ∷ encoded) ++ underscore ∷ behind)) in
      recover_file env around journal_dir filename s ≡ (
        true,
        (enqueue_file_for_upload env
            (around.now filename)
            (codes "rec_" ++ around.uuid4 filename)
            (join journal_dir filename)
            true
            (some (first ∷ parent))
            (some name)
            s).1,
      )
recover-create env around journal_dir first parent start encoded behind name s clean clean'
      decodes =
    let (other, found) =
      match_create_lem ((first ∷ parent) ++ underscore ∷ ((start ∷ encoded) ++ underscore ∷ behind))
        (first ∷ parent) _ (start ∷ encoded) behind
        (segment-append first parent ((start ∷ encoded) ++ underscore ∷ behind) clean)
        (segment-append start encoded behind clean') in
    recover_created env around journal_dir
      (codes "create_"
        ++ ((first ∷ parent) ++ underscore ∷ ((start ∷ encoded) ++ underscore ∷ behind)))
      (first ∷ parent) (start ∷ encoded) name s other found decodes
