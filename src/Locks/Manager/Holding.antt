-- ===== src/Locks/Manager/Holding.antt =====
-- What a thread may ask for, and the references that are counted.
use fusedrive_filesystem.Base.{
  ◌||◌, ltb, lookup-insert_self, if_true, if◌then◌else◌, text_eq, ◌+◌, ◌∙◌, insert, subst, ◌<◌, sym,
  some, nat_eq, arith, true-ne-false, true, lookup, false, Text, ℕ, refl, inl, inr, Bool, ◌==◌, ◌≡◌,
}
use fusedrive_filesystem.Locks.RwLock.{
  acquire_write, RwLock, acquire_read, test_read, reader_asleep,
}
use fusedrive_filesystem.Locks.Manager.{
  set_lock, LockManager, detect_cycle, owners_of, get_lock, ask, take_turn,
}
use fusedrive_filesystem.Locks.Manager.Cycles.{detect_cycle-IsDeadlock}
use fusedrive_filesystem.Locks.Manager.Chains.{holds, Leads, IsDeadlock, target_itself, through}

-- No thread but `tid` holds the lock.
abbrev pub IsOnly : ℕ → Text → LockManager → Type 0
IsOnly tid key m = (o : ℕ) → holds o (owners_of key m) ≡ true → (o == tid) ≡ true

Leads-only :
    (m : LockManager) (tid : ℕ) (key l : Text) → IsOnly tid key m → Leads m tid key l → key ≡ l
Leads-only m tid key l only target_itself = refl
Leads-only m tid key l only (through owner w before held other waits full) = absurd (
    true-ne-false (
      sym (
        only owner (
          subst (λ y. holds owner (owners_of y m) ≡ true) (sym (Leads-only m tid key _ only before))
            held))
      ∙ other))

only_harmless :
    (m : LockManager) (tid : ℕ) (key : Text) → IsOnly tid key m → ¬ IsDeadlock m tid key false
only_harmless m tid key only (l, leads, held, inl writes) = true-ne-false (sym writes)
only_harmless m tid key only (l, leads, held, inr apart) =
    apart (sym (Leads-only m tid key l only leads))

only_quiet :
    (m : LockManager) (tid : ℕ) (key : Text)
    → IsOnly tid key m
    → detect_cycle m tid key false ≡ some true
only_quiet m tid key only = elim (detect_cycle-IsDeadlock m tid key false) [
  | inl (found, dead) ↦ absurd (only_harmless m tid key only dead)
  | inr (quiet, free) ↦ quiet
]

-- A thread that asks, where the search finds nothing.
ask_quiet :
    (is_write : Bool) (key : Text) (tid : ℕ) (m : LockManager) (lock : RwLock)
    → detect_cycle (get_lock key m) tid key is_write ≡ some true
    → lookup key (get_lock key m).locks ≡ some lock
    → let asked : LockManager = get_lock key m in
      let turn = if is_write then acquire_write lock else acquire_read lock in
      let r = take_turn key tid turn (record asked { waiting = insert tid key asked.waiting }) in
      ask is_write key tid m ≡ (some r.0, r.1)
unfolding ask
ask_quiet is_write key tid m lock quiet there = rw (ask, quiet, there) refl

sleep_read :
    (lock : RwLock)
    → 0 < lock.write_requests
    → acquire_read lock ≡ record { lock = lock; pc = reader_asleep; notifies = false }
unfolding acquire_read test_read
sleep_read lock requested =
    if_true (ltb 0 lock.writers || ltb 0 lock.write_requests) _ _ (ground arith)

-- Where a thread alone holds a lock that is in both tables, and a writer has asked for it, the
-- thread that asks for it again, shared, is not refused: it sleeps, recorded as waiting for this
-- lock, while the allocations and the lock stay as they were, so that it goes on holding what it
-- waits for.
pub reader_waits_itself :
    (m : LockManager) (tid n : ℕ) (key : Text) (lock : RwLock)
    → lookup key m.locks ≡ some lock
    → lookup key m.refs ≡ some n
    → holds tid (owners_of key m) ≡ true
    → IsOnly tid key m
    → 0 < lock.write_requests
    → let (pc, after) = ask false key tid m in
      (pc ≡ some reader_asleep)
      × (after.allocations ≡ m.allocations)
      × (lookup key after.locks ≡ some lock)
      × (lookup tid after.waiting ≡ some key)
unfolding get_lock owners_of take_turn set_lock
reader_waits_itself m tid n key lock there counted held only requested =
    let asked : LockManager = record m { refs = insert key (n + 1) m.refs } in
    let got : get_lock key m ≡ asked = unfold get_lock in rw (get_lock, there, counted) refl in
    let quiet : detect_cycle (get_lock key m) tid key false ≡ some true =
      rw got (only_quiet asked tid key only) in
    let found : lookup key (get_lock key m).locks ≡ some lock = rw got there in
    rw (ask_quiet false key tid m lock quiet found, got, sleep_read lock requested)
      (refl, refl, lookup-insert_self key lock m.locks, lookup-insert_self tid key m.waiting)
