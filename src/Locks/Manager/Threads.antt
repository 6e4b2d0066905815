-- ===== src/Locks/Manager/Threads.antt =====
-- Any number of threads with the locks of one `LockManager`. A thread that waits for no lock may
-- ask for one or leave one; a thread that waits may be woken and try again.
pub mod Graph
pub mod Moves
pub mod Acyclic
use fusedrive_filesystem.Base.{
  text_eq, ◌⊎◌, nat_eq, true, some, none, false, ◌≡◌, [], lookup, ◌==◌, ℕ, Text, Bool,
}
use fusedrive_filesystem.Metrics.{MetricsRegistry}
use fusedrive_filesystem.Locks.Manager.{LockManager, new, ask, retry, leave, owners_of}
use fusedrive_filesystem.Locks.Manager.Chains.{holds}

-- What a thread that asks keeps to: keys are not empty, and no lock that the thread holds is asked
-- for to be shared.
abbrev pub IsProper : Bool → Text → ℕ → LockManager → Type 0
IsProper is_write key tid m =
    ((key == []) ≡ false) × ((is_write ≡ true) ⊎ (holds tid (owners_of key m) ≡ false))

pub data Step (m : LockManager) : LockManager → Type 0 where
  asks :
      (is_write : Bool) (key : Text) (tid : ℕ)
      → lookup tid m.waiting ≡ none
      → IsProper is_write key tid m
      → Step m (ask is_write key tid m).1
  retries :
      (is_write : Bool) (key : Text) (tid : ℕ)
      → lookup tid m.waiting ≡ some key
      → Step m (retry is_write key tid m).1
  leaves :
      (is_write : Bool) (key : Text) (tid : ℕ)
      → lookup tid m.waiting ≡ none
      → holds tid (owners_of key m) ≡ true
      → Step m (leave is_write key tid m)

pub data Reach (metrics : MetricsRegistry) : LockManager → Type 0 where
  begin : Reach metrics (new metrics)
  next : {m m' : LockManager} → Reach metrics m → Step m m' → Reach metrics m'
