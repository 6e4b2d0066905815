-- ===== src/Locks/RwLock.antt =====
-- `RWLock`, with the threads that use one lock. What a thread does under `_condition` is one step;
-- `wait` puts it to sleep, `notify_all` wakes all that sleep, and a thread that is awake again
-- tests the condition of its loop once more.
pub mod Counting
pub mod Invariant
pub mod Safety
use fusedrive_filesystem.Base.{
  set, some, ◌≡◌, nat_eq, map, false, true, replicate, ltb, get_elem?, ◌==◌, ℕ, if◌then◌else◌, List,
  Bool, ◌-◌, ◌+◌, ◌||◌,
}

-- The three counters of `__init__`.
pub record RwLock : Type 0 where
  pub readers : ℕ
  pub writers : ℕ
  pub write_requests : ℕ

-- Where a thread stands: outside, in the loop of `acquire_read` or `acquire_write` (asleep or
-- woken), or between acquiring and releasing.
pub data Pc : Type 0 where
  idle : Pc
  reader_asleep : Pc
  reader_woken : Pc
  reading : Pc
  writer_asleep : Pc
  writer_woken : Pc
  writing : Pc

-- What a critical section leaves: the counters, where the thread stands, and whether it notified.
pub record Turn : Type 0 where
  pub lock : RwLock
  pub pc : Pc
  pub notifies : Bool

abbrev pub fresh : RwLock
fresh = record { readers = 0; writers = 0; write_requests = 0 }

-- The loop of `acquire_read`: wait, or go on.
unfoldable pub test_read : RwLock → Turn
test_read l =
    if ltb 0 l.writers || ltb 0 l.write_requests
    then record { lock = l; pc = reader_asleep; notifies = false }
    else record { lock = record l { readers = l.readers + 1 }; pc = reading; notifies = false }

unfoldable pub acquire_read : RwLock → Turn
acquire_read l = test_read l

unfoldable pub release_read : RwLock → Turn
release_read l = record {
  lock = record l { readers = l.readers - 1 };
  pc = idle;
  notifies = l.readers - 1 == 0;
}

-- The loop of `acquire_write` and the two lines behind it.
unfoldable pub test_write : RwLock → Turn
test_write l =
    if ltb 0 l.readers || ltb 0 l.writers
    then record { lock = l; pc = writer_asleep; notifies = false }
    else record {
      lock = record l { write_requests = l.write_requests - 1; writers = l.writers + 1 };
      pc = writing;
      notifies = false;
    }

unfoldable pub acquire_write : RwLock → Turn
acquire_write l = test_write (record l { write_requests = l.write_requests + 1 })

unfoldable pub release_write : RwLock → Turn
release_write l = record { lock = record l { writers = l.writers - 1 }; pc = idle; notifies = true }

unfoldable pub wake : Pc → Pc
wake reader_asleep = reader_woken
wake writer_asleep = writer_woken
wake p = p

pub record System : Type 0 where
  pub lock : RwLock
  pub threads : List Pc

-- Thread `i` has taken a turn.
unfoldable pub after_turn : ℕ → Turn → System → System
after_turn i t s = record {
  lock = t.lock;
  threads = let moved = set s.threads i t.pc in if t.notifies then map wake moved else moved;
}

-- Thread `i` takes its next turn; a thread outside chooses what to ask for.
pub data Step (s : System) : System → Type 0 where
  asks_read :
      (i : ℕ) → get_elem? s.threads i ≡ some idle → Step s (after_turn i (acquire_read s.lock) s)
  asks_write :
      (i : ℕ) → get_elem? s.threads i ≡ some idle → Step s (after_turn i (acquire_write s.lock) s)
  retries_read :
      (i : ℕ)
      → get_elem? s.threads i ≡ some reader_woken
      → Step s (after_turn i (test_read s.lock) s)
  retries_write :
      (i : ℕ)
      → get_elem? s.threads i ≡ some writer_woken
      → Step s (after_turn i (test_write s.lock) s)
  leaves_read :
      (i : ℕ) → get_elem? s.threads i ≡ some reading → Step s (after_turn i (release_read s.lock) s)
  leaves_write :
      (i : ℕ)
      → get_elem? s.threads i ≡ some writing
      → Step s (after_turn i (release_write s.lock) s)

-- Any number of threads, all outside, and a new lock.
abbrev pub start : ℕ → System
start n = record { lock = fresh; threads = replicate n idle }

pub data Reach (n : ℕ) : System → Type 0 where
  begin : Reach n (start n)
  next : {s t : System} → Reach n s → Step s t → Reach n t
