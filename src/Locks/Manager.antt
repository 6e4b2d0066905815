-- ===== src/Locks/Manager.antt =====
-- `LockManager`: the table of locks with its counts of references, and the search for a cycle of
-- threads that wait for each other. Threads are numbers. Each part under `_global_lock` or a lock's
-- `_condition` is one function.
pub mod Searching
pub mod Chains
pub mod Cycles
pub mod Holding
pub mod Counting
pub mod Threads
use fusedrive_filesystem.Base.{
  zero, nat_eq, mem, ltb, false, ◌-◌, ◌∷◌, true, not, if◌then◌else◌, erase, text_eq, suc, some, ◌+◌,
  ◌&&◌, none, lookup, length, insert, contains, codes, List, ◌==◌, ℕ, [], Text, Option, Dict, Bool,
}
use fusedrive_filesystem.Base.Int.{negsuc, pos}
use fusedrive_filesystem.Metrics.{add, inc, MetricsRegistry}
use fusedrive_filesystem.Locks.RwLock.{
  writing, reading, RwLock, Turn, Pc, fresh, test_read, test_write, acquire_read, acquire_write,
  release_read, release_write,
}

pub record LockManager : Type 0 where
  pub metrics : MetricsRegistry
  pub locks : Dict Text RwLock
  pub refs : Dict Text ℕ
  pub allocations : Dict Text (Dict ℕ ℕ)
  pub waiting : Dict ℕ Text

unfoldable pub new : MetricsRegistry → LockManager
new metrics = record { metrics = metrics; locks = []; refs = []; allocations = []; waiting = [] }

unfoldable pub get_lock : Text → LockManager → LockManager
get_lock key m = elim (lookup key m.locks) [
  | none ↦ record m { locks = insert key fresh m.locks; refs = insert key 1 m.refs }
  | some _ ↦ elim (lookup key m.refs) [
    | none ↦ m
    | some n ↦ record m { refs = insert key (n + 1) m.refs }
  ]
]

unfoldable pub release_ref : Text → LockManager → LockManager
release_ref key m = elim (lookup key m.refs) [
  | none ↦ m
  | some n ↦
      if n - 1 == 0
      then record m { locks = erase key m.locks; refs = erase key m.refs }
      else record m { refs = insert key (n - 1) m.refs }
]

unfoldable pub has_lock : Text → LockManager → Bool
has_lock key m = contains key m.locks

-- `self._allocations.get(key, {})`
unfoldable pub owners_of : Text → LockManager → Dict ℕ ℕ
owners_of key m = elim (lookup key m.allocations) [ none ↦ [] | some owners ↦ owners ]

-- `self._allocations[key][tid]`, of a `defaultdict(int)`
unfoldable pub held_by : ℕ → Dict ℕ ℕ → ℕ
held_by tid owners = elim (lookup tid owners) [ none ↦ 0 | some n ↦ n ]

-- `self._waiting.get(owner)`, pushed where there is one.
unfoldable pub push : Option Text → List Text → List Text
push none stack = stack
push (some waiting_for) stack = if waiting_for == [] then stack else waiting_for ∷ stack

module _ (m : LockManager) (start_thread_id : ℕ) (target_lock : Text) (is_write : Bool) where
  -- The test of line 88.
  unfoldable pub is_reentrant : Text → Bool
  is_reentrant current_lock = current_lock == target_lock && not is_write

  -- The loop over the owners of a lock: the threads visited and the stack, or none for the error.
  unfoldable pub scan : Text → Dict ℕ ℕ → List ℕ → List Text → Option (List ℕ × List Text)
  scan current_lock [] visited stack = some (visited, stack)
  scan current_lock ((owner, n) ∷ owners) visited stack =
      elim (ltb 0 n && owner == start_thread_id) [
        | true ↦ elim (is_reentrant current_lock) [
          | true ↦ scan current_lock owners visited stack
          | false ↦ none
        ]
        | false ↦ elim (ltb 0 n && not (mem owner visited)) [
          | true ↦ scan current_lock owners (owner ∷ visited) (push (lookup owner m.waiting) stack)
          | false ↦ scan current_lock owners visited stack
        ]
      ]

  -- The loop over the stack: whether it ends without an error; none where the fuel is used up.
  unfoldable pub search_from : ℕ → List Text → List ℕ → List Text → Option Bool
  search_from zero visited_locks visited stack = none
  search_from (suc fuel) visited_locks visited [] = some true
  search_from (suc fuel) visited_locks visited (current_lock ∷ stack) =
      elim (mem current_lock visited_locks) [
        | true ↦ search_from fuel visited_locks visited stack
        | false ↦ elim (scan current_lock (owners_of current_lock m) visited stack) [
          | none ↦ some false
          | some after ↦ search_from fuel (current_lock ∷ visited_locks) after.0 after.1
        ]
      ]

  -- Whether `_detect_cycle` raises. Each waiting thread pushes one lock at most.
  unfoldable pub detect_cycle : Option Bool
  detect_cycle = search_from (length m.waiting + 2) [] [] (target_lock ∷ [])

unfoldable pub set_lock : Text → RwLock → LockManager → LockManager
set_lock key lock m = record m { locks = insert key lock m.locks }

-- The lines from `acquire_read` or `acquire_write` to `yield`, for a thread that has the lock.
unfoldable pub grant : Text → ℕ → LockManager → LockManager
grant key tid m =
    let owners = owners_of key m in
    let held = held_by tid owners in
    record m {
      metrics = inc (codes "active_locks") m.metrics;
      waiting = erase tid m.waiting;
      allocations = insert key (insert tid (held + 1) owners) m.allocations;
    }

-- What a turn at the lock of a key leads to: the thread has it, or waits.
unfoldable pub take_turn : Text → ℕ → Turn → LockManager → Pc × LockManager
take_turn key tid turn m =
    let moved = set_lock key turn.lock m in
    (
      turn.pc,
      elim turn.pc [ reading ↦ grant key tid moved | writing ↦ grant key tid moved | _ ↦ moved ],
    )

-- `shared_lock` and `exclusive_lock` up to the first test of the lock's condition; none where the
-- search raises.
unfoldable pub ask : Bool → Text → ℕ → LockManager → Option Pc × LockManager
ask is_write key tid m =
    let asked = get_lock key m in
    elim (detect_cycle asked tid key is_write) [
      | none ↦ (none, asked)
      | some false ↦ (
        none,
        release_ref key (record asked { metrics = inc (codes "deadlocks_detected") asked.metrics }),
      )
      | some true ↦ elim (lookup key asked.locks) [
        | none ↦ (none, asked)
        | some lock ↦
            let (pc, after) =
              take_turn key tid (if is_write then acquire_write lock else acquire_read lock)
                (record asked { waiting = insert tid key asked.waiting }) in
            (some pc, after)
      ]
    ]

-- A thread that was woken tests the condition again.
unfoldable pub retry : Bool → Text → ℕ → LockManager → Option Pc × LockManager
retry is_write key tid m = elim (lookup key m.locks) [
  | none ↦ (none, m)
  | some lock ↦
      let (pc, after) =
        take_turn key tid (if is_write then test_write lock else test_read lock) m in
      (some pc, after)
]

-- `self._allocations[key][tid] -= 1`, and `del` at 0.
unfoldable pub forget_owner : Text → ℕ → LockManager → LockManager
forget_owner key tid m =
    let owners = owners_of key m in
    let held = held_by tid owners in
    record m {
      allocations =
          insert key (if held - 1 == 0 then erase tid owners else insert tid (held - 1) owners)
            m.allocations;
    }

-- The two `finally` blocks.
unfoldable pub leave : Bool → Text → ℕ → LockManager → LockManager
leave is_write key tid m =
    let left = forget_owner key tid m in
    let counted = record left { metrics = add (codes "active_locks") (negsuc 0) left.metrics } in
    let released : LockManager = elim (lookup key counted.locks) [
      | none ↦ counted
      | some lock ↦
          set_lock key (if is_write then release_write lock else release_read lock).lock counted
    ] in
    release_ref key (record released { waiting = erase tid released.waiting })
