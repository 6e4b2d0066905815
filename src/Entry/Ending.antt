-- ===== src/Entry/Ending.antt =====
-- Every end of `main` against the mount that it made.
use fusedrive_filesystem.Base.{none, some, ◌∷◌, [], Text, ◌≡◌, List}
use fusedrive_filesystem.Entry.{
  Endings, keyboard_interrupt, runtime_error, other_exception, End, returned, propagates, Effect,
  shuts_dispatcher_down, force_unmounts,
}

-- `main` goes through with an exception if the shutdown raises one, or `FUSE` one that is not
-- handled.
unfoldable pub final_end : Endings → End
final_end endings = elim endings.shutdown [
  | some e ↦ propagates
  | none ↦ elim endings.mount [
    | some other_exception ↦ propagates
    | some keyboard_interrupt ↦ returned
    | some runtime_error ↦ returned
    | none ↦ returned
  ]
]

-- What comes behind a mount.
unfoldable pub cleanup_of : Endings → Text → List Effect
cleanup_of endings mountpoint =
    shuts_dispatcher_down
    ∷ (elim endings.shutdown [ some e ↦ [] | none ↦ force_unmounts mountpoint ∷ [] ])

-- Behind the first mount come the shutdown and the unmounting of the same directory, and nothing
-- else, but the unmounting only if the shutdown returns; or there is no mount.
unfoldable pub CleansUp : Endings → End → List Effect → Type 0
CleansUp endings end [] = Unit
CleansUp endings end ((Effect.mounts mountpoint uid gid other) ∷ rest) =
    (rest ≡ cleanup_of endings mountpoint) × (end ≡ final_end endings)
CleansUp endings end ((Effect.prints_usage) ∷ rest) = CleansUp endings end rest
CleansUp endings end ((Effect.force_unmounts m) ∷ rest) = CleansUp endings end rest
CleansUp endings end ((Effect.sleeps n) ∷ rest) = CleansUp endings end rest
CleansUp endings end ((Effect.makes_directory m) ∷ rest) = CleansUp endings end rest
CleansUp endings end ((Effect.builds_file_system c r) ∷ rest) = CleansUp endings end rest
CleansUp endings end ((Effect.shuts_dispatcher_down) ∷ rest) = CleansUp endings end rest
