-- ===== src/Locks/RwLock/Safety.antt =====
-- What `RWLock` promises the threads that use it.
use fusedrive_filesystem.Locks.RwLock.Counting.{
  writers_ask, count-busy, count-find, is_busy, count-two, count, is_reading, sleeps_to_write,
  sleeps_to_read, is_writing, count-pos,
}
use fusedrive_filesystem.Locks.RwLock.Invariant.{Reach-Inv, Inv}
use fusedrive_filesystem.Locks.RwLock.{
  writer_asleep, reading, writing, reader_asleep, Reach, Pc, test_write, System, test_read,
}
use fusedrive_filesystem.Base.{
  ◌⊎◌, ◌<◌, ◌≤◌, ap, ◌∙◌, inr, inl, arith, some, ◌≢◌, get_elem?, ℕ, ◌≡◌,
}

-- In every state that any number of threads reach with one lock, while a thread is between
-- `acquire_write` and `release_write` no other thread reads or writes.
pub writer_alone :
    (n : ℕ) (s : System) (i j : ℕ) (p : Pc)
    → Reach n s
    → i ≢ j
    → get_elem? s.threads i ≡ some writing
    → get_elem? s.threads j ≡ some p
    → (p ≢ reading) × (p ≢ writing)
writer_alone n s i j p r apart first second = (
  λ e. elim inv.exclusive [
    | inl none_writes ↦
        omega (arith, inv.writing_counted, count-pos is_writing s.threads i writing first)
    | inr (one, none_reads) ↦
        omega (
          arith,
          inv.reading_counted,
          count-pos is_reading s.threads j reading (second ∙ ap some e),
        )
  ],
  λ e.
      let both : 2 ≤ count is_writing s.threads =
        count-two is_writing s.threads i j writing writing apart first (second ∙ ap some e) in
      ground (arith, both, inv.exclusive, inv.writing_counted),
)
  where
    inv : Inv s
    inv = Reach-Inv r

-- No wake-up is lost: in every reachable state the condition of a sleeping thread still holds, so
-- that the thread would go to sleep again if it were woken.
pub sleeper_waits :
    (n : ℕ) (s : System) (i : ℕ)
    → Reach n s
    → ((get_elem? s.threads i ≡ some reader_asleep) → (test_read s.lock).pc ≡ reader_asleep)
      × ((get_elem? s.threads i ≡ some writer_asleep) → (test_write s.lock).pc ≡ writer_asleep)
unfolding test_read test_write
sleeper_waits n s i r = (
  λ at. ground (arith, inv.readers_wait, count-pos sleeps_to_read s.threads i reader_asleep at),
  λ at. ground (arith, inv.writers_wait, count-pos sleeps_to_write s.threads i writer_asleep at),
)
  where
    inv : Inv s
    inv = Reach-Inv r

-- In every reachable state in which a thread sleeps, some thread reads, writes, or is woken to
-- write: the lock is never left with sleeping threads only.
pub sleeper_has_waker :
    (n : ℕ) (s : System) (i : ℕ) (p : Pc)
    → Reach n s
    → get_elem? s.threads i ≡ some p
    → (p ≡ reader_asleep) ⊎ (p ≡ writer_asleep)
    → (j : ℕ) × (q : Pc) × (get_elem? s.threads j ≡ some q) × (0 < is_busy q)
sleeper_has_waker n s i p r at asleep = count-find is_busy s.threads (elim asleep [
  | inl e ↦ ground (
    arith,
    count-busy s.threads,
    inv.readers_wait,
    inv.writers_wait,
    inv.writing_counted,
    inv.reading_counted,
    inv.asking_counted,
    writers_ask s.threads,
    count-pos sleeps_to_read s.threads i reader_asleep (at ∙ ap some e),
  )
  | inr e ↦ ground (
    arith,
    count-busy s.threads,
    inv.writers_wait,
    inv.writing_counted,
    inv.reading_counted,
    writers_ask s.threads,
    count-pos sleeps_to_write s.threads i writer_asleep (at ∙ ap some e),
  )
])
  where
    inv : Inv s
    inv = Reach-Inv r
