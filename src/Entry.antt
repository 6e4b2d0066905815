-- ===== src/Entry.antt =====
-- src/main.py: the options, and what `main` does in which order, as a list of effects. What the
-- constructors raise is left out.
pub mod Ending
use fusedrive_filesystem.Base.{
  text_eq, not, ◌==◌, ◌++◌, if◌then◌else◌, get_elem?, false, [], ◌∷◌, ℕ, some, none, codes, Bool,
  Text, List, Option,
}

-- The environment, the arguments, the disk, and the two texts that `int` may refuse.
pub record Process : Type 0 where
  pub getenv : Text → Option Text
  pub argv : List Text
  pub exists : Text → Bool
  pub parse_int : Text → Option ℕ

pub record Options : Type 0 where
  pub mountpoint : Option Text
  pub credentials_path : Option Text
  pub root_id : Text

-- The exceptions that `main` tells apart.
pub data Raised : Type 0 where
  keyboard_interrupt runtime_error other_exception : Raised

-- How `FUSE(...)` and `dispatcher.shutdown()` end: with an exception, or none where they return.
pub record Endings : Type 0 where
  pub mount : Option Raised
  pub shutdown : Option Raised

pub data Effect : Type 0 where
  prints_usage : Effect
  force_unmounts : Text → Effect
  sleeps : ℕ → Effect
  makes_directory : Text → Effect
  builds_file_system : Text → Text → Effect
  mounts : Text → ℕ → ℕ → Bool → Effect
  shuts_dispatcher_down : Effect

-- How `main` ends: it returns, exits with a code, or an exception goes through.
pub data End : Type 0 where
  returned propagates : End
  exited : ℕ → End

-- `a or b`, for texts.
unfoldable pub or_else : Option Text → Option Text → Option Text
or_else none other = other
or_else (some text) other = if text == [] then other else some text

unfoldable pub or_default : Option Text → Text → Text
or_default none other = other
or_default (some text) other = if text == [] then other else text

unfoldable pub options : Process → Options
options p = record {
  mountpoint = or_else (p.getenv (codes "DRIVE_MOUNT_DIR")) (get_elem? p.argv 1);
  credentials_path = or_else (p.getenv (codes "DRIVE_CREDENTIALS")) (get_elem? p.argv 2);
  root_id =
      or_default (p.getenv (codes "DRIVE_FOLDER_ID"))
        (elim (get_elem? p.argv 3) [ none ↦ codes "root" | some id ↦ id ]);
}

-- `not text`, for what may be `None` or empty.
unfoldable pub given : Option Text → Option Text
given none = none
given (some text) = if text == [] then none else some text

-- `int(os.getenv(key, 1000))`
unfoldable pub id_of : Process → Text → Option ℕ
id_of p key = elim (p.getenv key) [ none ↦ some 1000 | some text ↦ p.parse_int text ]

unfoldable pub allows_other : Process → Bool
allows_other p = elim (p.getenv (codes "FUSE_ALLOW_OTHER")) [
  | none ↦ false
  | some text ↦ text == codes "1"
]

-- Statements: their effects in order, and the exception that goes through, if any.
abbrev pub Block : Type 0
Block = List Effect × Option Raised

-- One after the other.
unfoldable pub followed_by : Block → Block → Block
followed_by (effects, raised) next = elim raised [
  | some e ↦ (effects, some e)
  | none ↦ (effects ++ next.0, next.1)
]

-- `except KeyboardInterrupt` and `except RuntimeError`.
unfoldable pub handled : Raised → Option Raised
handled keyboard_interrupt = none
handled runtime_error = none
handled other_exception = some other_exception

unfoldable pub with_handlers : Block → Block
with_handlers (effects, raised) = (effects, elim raised [ none ↦ none | some e ↦ handled e ])

-- `finally`: it runs in any case, and its own exception takes the place of the other.
unfoldable pub finally : Block → Block → Block
finally (effects, raised) last =
    (effects ++ last.0, elim last.1 [ none ↦ raised | some e ↦ some e ])

unfoldable pub end_of : Option Raised → End
end_of none = returned
end_of (some e) = propagates

-- The `try` around `FUSE`, and its `finally`.
unfoldable pub serve : Process → Text → Endings → ℕ → ℕ → List Effect × End
serve p mountpoint endings uid gid =
    let mounting : Block = (mounts mountpoint uid gid (allows_other p) ∷ [], endings.mount) in
    let cleanup : Block =
      followed_by (shuts_dispatcher_down ∷ [], endings.shutdown)
        (force_unmounts mountpoint ∷ [], none) in
    let (effects, raised) = finally (with_handlers mounting) cleanup in (effects, end_of raised)

unfoldable pub build_and_serve : Process → Options → Text → Text → Endings → List Effect × End
build_and_serve p o mountpoint credentials_path endings =
    let before : List Effect =
      makes_directory mountpoint ∷ builds_file_system credentials_path o.root_id ∷ [] in
    elim (id_of p (codes "PUID")) [
      | none ↦ (before, propagates)
      | some uid ↦ elim (id_of p (codes "PGID")) [
        | none ↦ (before, propagates)
        | some gid ↦
            let (effects, end) = serve p mountpoint endings uid gid in (before ++ effects, end)
      ]
    ]

unfoldable pub run : Process → Options → Text → Text → Endings → List Effect × End
run p o mountpoint credentials_path endings =
    let before : List Effect = force_unmounts mountpoint ∷ sleeps 1 ∷ [] in
    if not (p.exists credentials_path)
    then (before, exited 1)
    else (let (effects, end) = build_and_serve p o mountpoint credentials_path endings in
        (before ++ effects, end))

unfoldable pub main : Process → Endings → List Effect × End
main p endings = elim (given (options p).mountpoint) [
  | none ↦ (prints_usage ∷ [], exited 1)
  | some mountpoint ↦ elim (given (options p).credentials_path) [
    | none ↦ (prints_usage ∷ [], exited 1)
    | some credentials_path ↦ run p (options p) mountpoint credentials_path endings
  ]
]
