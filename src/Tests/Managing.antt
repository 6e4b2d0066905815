-- ===== src/Tests/Managing.antt =====
-- A table of three locks.
use fusedrive_filesystem.Locks.Manager.Cycles.{detect_cycle-IsDeadlock}
use fusedrive_filesystem.Locks.Manager.Chains.{IsDeadlock, holds}
use fusedrive_filesystem.Locks.Manager.Counting.{changes-IsTidy, IsTidy}
use fusedrive_filesystem.Base.{
  nat_eq, text_eq, mem, arith, text_beq, [], ◌∷◌, some, codes, none, lookup, Text, refl, true,
  false, ◌≡◌, ◌⊎◌,
}
use fusedrive_filesystem.Locks.RwLock.{reader_asleep, RwLock}
use fusedrive_filesystem.Locks.Manager.{
  is_reentrant, push, leave, scan, retry, search_from, owners_of, ask, detect_cycle, LockManager,
}
use fusedrive_filesystem.Locks.Manager.Holding.{reader_waits_itself, IsOnly}
use fusedrive_filesystem.Locks.Manager
use fusedrive_filesystem.Metrics

-- Thread 1 holds `a` and thread 2 holds `b`; thread 2 waits for `a`, so that thread 1 asking for
-- `b` would close a cycle. Thread 1 has `c` shared, and a writer has asked for it.
abbrev key_a : Text
key_a = codes "a"

abbrev key_b : Text
key_b = codes "b"

abbrev key_c : Text
key_c = codes "c"

abbrev busy_lock : RwLock
busy_lock = record { readers = 1; writers = 0; write_requests = 1 }

abbrev manager : LockManager
manager = record {
  metrics = Metrics.new none;
  locks = (key_a, busy_lock) ∷ (key_b, busy_lock) ∷ (key_c, busy_lock) ∷ [];
  refs = (key_a, 2) ∷ (key_b, 1) ∷ (key_c, 2) ∷ [];
  allocations = (key_a, (1, 1) ∷ []) ∷ (key_b, (2, 1) ∷ []) ∷ (key_c, (1, 1) ∷ []) ∷ [];
  waiting = (2, key_a) ∷ [];
}

closes_cycle : detect_cycle manager 1 key_b true ≡ some false
unfolding detect_cycle search_from scan lookup mem push owners_of is_reentrant text_beq
closes_cycle = refl

detect_cycle-IsDeadlock_example :
    ((detect_cycle manager 1 key_b true ≡ some false) × IsDeadlock manager 1 key_b true)
    ⊎ ((detect_cycle manager 1 key_b true ≡ some true) × ¬ IsDeadlock manager 1 key_b true)
detect_cycle-IsDeadlock_example = detect_cycle-IsDeadlock manager 1 key_b true

IsOnly-thread : IsOnly 1 key_c manager
unfolding holds owners_of lookup text_beq
IsOnly-thread o h = ground arith

reader_waits_itself_example :
    let (pc, after) = ask false key_c 1 manager in
    (pc ≡ some reader_asleep)
    × (after.allocations ≡ manager.allocations)
    × (lookup key_c after.locks ≡ some busy_lock)
    × (lookup 1 after.waiting ≡ some key_c)
unfolding holds owners_of lookup text_beq
reader_waits_itself_example =
    reader_waits_itself manager 1 2 key_c busy_lock refl refl refl IsOnly-thread (omega arith)

manager-IsTidy : IsTidy (Manager.new (Metrics.new none))
unfolding Manager.new lookup
manager-IsTidy = record { same = λ key. refl; positive = λ key n found. cc }

changes-IsTidy_example :
    IsTidy (ask true key_a 1 (Manager.new (Metrics.new none))).1
    × IsTidy (retry true key_a 1 (Manager.new (Metrics.new none))).1
    × IsTidy (leave true key_a 1 (Manager.new (Metrics.new none)))
changes-IsTidy_example = changes-IsTidy true key_a 1 (Manager.new (Metrics.new none)) manager-IsTidy
