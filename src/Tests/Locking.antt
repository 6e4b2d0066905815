-- ===== src/Tests/Locking.antt =====
-- Two threads: the first writes, the second wants to read.
use fusedrive_filesystem.Locks.RwLock.Counting.{is_busy}
use fusedrive_filesystem.Locks.RwLock.Safety.{sleeper_has_waker, writer_alone, sleeper_waits}
use fusedrive_filesystem.Locks.RwLock.{
  asks_read, asks_write, writing, begin, reading, next, Pc, writer_asleep, Reach, test_read, start,
  test_write, reader_asleep, fresh, acquire_write, acquire_read, after_turn, System,
}
use fusedrive_filesystem.Base.{refl, inl, arith, ◌<◌, ◌≢◌, ℕ, some, get_elem?, ◌≡◌}

abbrev written : System
written = after_turn 0 (acquire_write fresh) (start 2)

abbrev contended : System
contended = after_turn 1 (acquire_read written.lock) written

contended-Reach : Reach 2 contended
unfolding after_turn acquire_write test_write acquire_read test_read
contended-Reach = next (next begin (asks_write 0 refl)) (asks_read 1 refl)

writer_alone_example : (reader_asleep ≢ reading) × (reader_asleep ≢ writing)
unfolding after_turn acquire_write test_write acquire_read test_read
writer_alone_example =
    writer_alone 2 contended 0 1 reader_asleep contended-Reach (λ e. omega (arith, e)) refl refl

sleeper_waits_example :
    ((get_elem? contended.threads 1 ≡ some reader_asleep)
      → (test_read contended.lock).pc ≡ reader_asleep)
    × ((get_elem? contended.threads 1 ≡ some writer_asleep)
        → (test_write contended.lock).pc ≡ writer_asleep)
sleeper_waits_example = sleeper_waits 2 contended 1 contended-Reach

sleeper_has_waker_example :
    (j : ℕ) × (q : Pc) × (get_elem? contended.threads j ≡ some q) × (0 < is_busy q)
unfolding after_turn acquire_write test_write acquire_read test_read
sleeper_has_waker_example =
    sleeper_has_waker 2 contended 1 reader_asleep contended-Reach refl (inl refl)
