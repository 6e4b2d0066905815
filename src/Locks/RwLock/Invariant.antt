-- ===== src/Locks/RwLock/Invariant.antt =====
-- What every turn keeps: the counters of `RWLock` count the threads, and no thread sleeps while
-- the condition of its loop is false.
use fusedrive_filesystem.Locks.RwLock.Counting.{
  count-pos, count-replicate, count-set, count-wake_none, count-wake, sleeps_to_write,
  sleeps_to_read, is_writing, is_reading, count, asks_to_write,
}
use fusedrive_filesystem.Locks.RwLock.{
  leaves_write, leaves_read, retries_write, retries_read, asks_write, begin, asks_read, next, Step,
  start, acquire_read, Reach, test_write, test_read, release_write, release_read, acquire_write,
  writing, writer_woken, writer_asleep, reading, reader_woken, reader_asleep, idle, RwLock, Turn,
  wake, after_turn, System, Pc,
}
use fusedrive_filesystem.Base.{
  sym, set, ◌||◌, ltb, arith, refl, inr, inl, true, Bool-cases, some, ◌<◌, ◌+◌, ◌⊎◌, get_elem?, ℕ,
  ◌≡◌,
}

pub record Inv (s : System) : Type 0 where
  pub reading_counted : s.lock.readers ≡ count is_reading s.threads
  pub writing_counted : s.lock.writers ≡ count is_writing s.threads
  pub asking_counted : s.lock.write_requests ≡ count asks_to_write s.threads
  pub exclusive : (s.lock.writers ≡ 0) ⊎ ((s.lock.writers ≡ 1) × (s.lock.readers ≡ 0))
  pub readers_wait :
      (count sleeps_to_read s.threads ≡ 0) ⊎ (0 < s.lock.writers + s.lock.write_requests)
  pub writers_wait : (count sleeps_to_write s.threads ≡ 0) ⊎ (0 < s.lock.readers + s.lock.writers)

-- What a turn of a thread at `p` has to do, `r` and `w` being the sleeping threads before it.
record IsFair (p : Pc) (t : Turn) (l : RwLock) (r w : ℕ) : Type 0 where
  reading_moved : t.lock.readers + is_reading p ≡ l.readers + is_reading t.pc
  writing_moved : t.lock.writers + is_writing p ≡ l.writers + is_writing t.pc
  asking_moved : t.lock.write_requests + asks_to_write p ≡ l.write_requests + asks_to_write t.pc
  exclusive : (t.lock.writers ≡ 0) ⊎ ((t.lock.writers ≡ 1) × (t.lock.readers ≡ 0))
  awake : (sleeps_to_read p ≡ 0) × (sleeps_to_write p ≡ 0)
  readers_wait :
      (t.notifies ≡ true)
      ⊎ ((r + sleeps_to_read t.pc ≡ 0) ⊎ (0 < t.lock.writers + t.lock.write_requests))
  writers_wait :
      (t.notifies ≡ true) ⊎ ((w + sleeps_to_write t.pc ≡ 0) ⊎ (0 < t.lock.readers + t.lock.writers))

wake_reading : (p : Pc) → is_reading (wake p) ≡ is_reading p
unfolding wake
wake_reading idle = refl
wake_reading reader_asleep = refl
wake_reading reader_woken = refl
wake_reading reading = refl
wake_reading writer_asleep = refl
wake_reading writer_woken = refl
wake_reading writing = refl

wake_writing : (p : Pc) → is_writing (wake p) ≡ is_writing p
unfolding wake
wake_writing idle = refl
wake_writing reader_asleep = refl
wake_writing reader_woken = refl
wake_writing reading = refl
wake_writing writer_asleep = refl
wake_writing writer_woken = refl
wake_writing writing = refl

wake_asking : (p : Pc) → asks_to_write (wake p) ≡ asks_to_write p
unfolding wake
wake_asking idle = refl
wake_asking reader_asleep = refl
wake_asking reader_woken = refl
wake_asking reading = refl
wake_asking writer_asleep = refl
wake_asking writer_woken = refl
wake_asking writing = refl

wake_sleeping : (p : Pc) → (sleeps_to_read (wake p) ≡ 0) × (sleeps_to_write (wake p) ≡ 0)
unfolding wake
wake_sleeping idle = (refl, refl)
wake_sleeping reader_asleep = (refl, refl)
wake_sleeping reader_woken = (refl, refl)
wake_sleeping reading = (refl, refl)
wake_sleeping writer_asleep = (refl, refl)
wake_sleeping writer_woken = (refl, refl)
wake_sleeping writing = (refl, refl)

-- A turn moves the count of a weight that waking leaves alone.
count-turn :
    (w : Pc → ℕ)
    → ((p : Pc) → w (wake p) ≡ w p)
    → (i : ℕ) (p : Pc) (t : Turn) (s : System) → get_elem? s.threads i ≡ some p
    → count w (after_turn i t s).threads + w p ≡ count w s.threads + w t.pc
unfolding after_turn
count-turn w same i p t s h = elim (Bool-cases t.notifies) [
  | inl woken ↦
      rw (woken, count-wake w (set s.threads i t.pc) same) (count-set w s.threads i p t.pc h)
  | inr quiet ↦ rw quiet (count-set w s.threads i p t.pc h)
]

counted-turn :
    (w : Pc → ℕ)
    → ((p : Pc) → w (wake p) ≡ w p)
    → (i : ℕ) (p : Pc) (t : Turn) (s : System) (old new : ℕ) → get_elem? s.threads i ≡ some p
    → old ≡ count w s.threads
    → new + w p ≡ old + w t.pc
    → new ≡ count w (after_turn i t s).threads
counted-turn w same i p t s old new h counted moved = omega (arith, count-turn w same i p t s h)

-- The sleeping threads after a turn: none, or those that slept and the thread itself.
count-turn_asleep :
    (w : Pc → ℕ)
    → ((p : Pc) → w (wake p) ≡ 0)
    → (i : ℕ) (p : Pc) (t : Turn) (s : System) (busy : Type 0) → get_elem? s.threads i ≡ some p
    → w p ≡ 0
    → (t.notifies ≡ true) ⊎ ((count w s.threads + w t.pc ≡ 0) ⊎ busy)
    → (count w (after_turn i t s).threads ≡ 0) ⊎ busy
unfolding after_turn
count-turn_asleep w none_left i p t s busy h awake waits = elim (Bool-cases t.notifies) [
  | inl woken ↦ rw woken (inl (count-wake_none w (set s.threads i t.pc) none_left))
  | inr quiet ↦ rw quiet (elim waits [
    | inl woken ↦ cc
    | inr (inl none_asleep) ↦ inl (omega (arith, count-set w s.threads i p t.pc h))
    | inr (inr b) ↦ inr b
  ])
]

after_turn-Inv :
    (i : ℕ) (p : Pc) (t : Turn) (s : System)
    → Inv s
    → get_elem? s.threads i ≡ some p
    → IsFair p t s.lock (count sleeps_to_read s.threads) (count sleeps_to_write s.threads)
    → Inv (after_turn i t s)
after_turn-Inv i p t s inv h fair = record {
  reading_counted =
      unfold after_turn in
      counted-turn is_reading wake_reading i p t s _ _ h inv.reading_counted fair.reading_moved;
  writing_counted =
      unfold after_turn in
      counted-turn is_writing wake_writing i p t s _ _ h inv.writing_counted fair.writing_moved;
  asking_counted =
      unfold after_turn in
      counted-turn asks_to_write wake_asking i p t s _ _ h inv.asking_counted fair.asking_moved;
  exclusive = unfold after_turn in fair.exclusive;
  readers_wait =
      unfold after_turn in
      count-turn_asleep sleeps_to_read (λ q. (wake_sleeping q).0) i p t s _ h fair.awake.0
        fair.readers_wait;
  writers_wait =
      unfold after_turn in
      count-turn_asleep sleeps_to_write (λ q. (wake_sleeping q).1) i p t s _ h fair.awake.1
        fair.writers_wait;
}

module _ (l : RwLock) (r w : ℕ) (exclusive : (l.writers ≡ 0) ⊎ ((l.writers ≡ 1) × (l.readers ≡ 0)))
    (readers_wait : (r ≡ 0) ⊎ (0 < l.writers + l.write_requests))
    (writers_wait : (w ≡ 0) ⊎ (0 < l.readers + l.writers)) where
  test_read-IsFair :
      (p : Pc)
      → (is_reading p ≡ 0) × (is_writing p ≡ 0) × (asks_to_write p ≡ 0)
      → (sleeps_to_read p ≡ 0) × (sleeps_to_write p ≡ 0)
      → IsFair p (test_read l) l r w
  unfolding test_read
  test_read-IsFair p (a, b, c) awake =
      elim (Bool-cases (ltb 0 l.writers || ltb 0 l.write_requests)) [
        | inl busy ↦ rw busy (record {
          reading_moved = ground arith;
          writing_moved = ground arith;
          asking_moved = ground arith;
          exclusive = exclusive;
          awake = awake;
          readers_wait = inr (inr (ground arith));
          writers_wait = inr (ground arith);
        })
        | inr free ↦ rw free (record {
          reading_moved = ground arith;
          writing_moved = ground arith;
          asking_moved = ground arith;
          exclusive = ground arith;
          awake = awake;
          readers_wait = inr (ground arith);
          writers_wait = inr (ground arith);
        })
      ]

  release_read-IsFair : 0 < l.readers → IsFair reading (release_read l) l r w
  unfolding release_read
  release_read-IsFair some_read = record {
    reading_moved = omega arith;
    writing_moved = refl;
    asking_moved = refl;
    exclusive = ground arith;
    awake = (refl, refl);
    readers_wait = ground arith;
    writers_wait = ground arith;
  }

  release_write-IsFair : 0 < l.writers → IsFair writing (release_write l) l r w
  unfolding release_write
  release_write-IsFair some_write = record {
    reading_moved = refl;
    writing_moved = omega arith;
    asking_moved = refl;
    exclusive = ground arith;
    awake = (refl, refl);
    readers_wait = inl refl;
    writers_wait = inl refl;
  }

  test_write-IsFair : 0 < l.write_requests → IsFair writer_woken (test_write l) l r w
  unfolding test_write
  test_write-IsFair asked = elim (Bool-cases (ltb 0 l.readers || ltb 0 l.writers)) [
    | inl busy ↦ rw busy (record {
      reading_moved = refl;
      writing_moved = omega arith;
      asking_moved = refl;
      exclusive = exclusive;
      awake = (refl, refl);
      readers_wait = inr (ground arith);
      writers_wait = inr (inr (ground arith));
    })
    | inr free ↦ rw free (record {
      reading_moved = refl;
      writing_moved = omega arith;
      asking_moved = omega arith;
      exclusive = ground arith;
      awake = (refl, refl);
      readers_wait = inr (inr (omega arith));
      writers_wait = inr (inr (omega arith));
    })
  ]

  acquire_write-IsFair : IsFair idle (acquire_write l) l r w
  unfolding acquire_write test_write
  acquire_write-IsFair = elim (Bool-cases (ltb 0 l.readers || ltb 0 l.writers)) [
    | inl busy ↦ rw busy (record {
      reading_moved = refl;
      writing_moved = omega arith;
      asking_moved = omega arith;
      exclusive = exclusive;
      awake = (refl, refl);
      readers_wait = inr (inr (omega arith));
      writers_wait = inr (inr (ground arith));
    })
    | inr free ↦ rw free (record {
      reading_moved = refl;
      writing_moved = omega arith;
      asking_moved = omega arith;
      exclusive = ground arith;
      awake = (refl, refl);
      readers_wait = inr (inr (omega arith));
      writers_wait = inr (inr (omega arith));
    })
  ]

Step-Inv : {s t : System} → Inv s → Step s t → Inv t
unfolding acquire_read
Step-Inv {s} inv (asks_read i at) = after_turn-Inv i idle _ s inv at (
    test_read-IsFair s.lock _ _ inv.exclusive inv.readers_wait inv.writers_wait idle
      (refl, refl, refl) (refl, refl))
Step-Inv {s} inv (asks_write i at) =
    after_turn-Inv i idle _ s inv at
      (acquire_write-IsFair s.lock _ _ inv.exclusive inv.readers_wait inv.writers_wait)
Step-Inv {s} inv (retries_read i at) = after_turn-Inv i reader_woken _ s inv at (
    test_read-IsFair s.lock _ _ inv.exclusive inv.readers_wait inv.writers_wait reader_woken
      (refl, refl, refl) (refl, refl))
Step-Inv {s} inv (retries_write i at) = after_turn-Inv i writer_woken _ s inv at (
    test_write-IsFair s.lock _ _ inv.exclusive inv.readers_wait inv.writers_wait
      (omega (arith, inv.asking_counted, count-pos asks_to_write s.threads i writer_woken at)))
Step-Inv {s} inv (leaves_read i at) = after_turn-Inv i reading _ s inv at (
    release_read-IsFair s.lock _ _ inv.exclusive inv.readers_wait inv.writers_wait
      (omega (arith, inv.reading_counted, count-pos is_reading s.threads i reading at)))
Step-Inv {s} inv (leaves_write i at) = after_turn-Inv i writing _ s inv at (
    release_write-IsFair s.lock _ _ inv.exclusive inv.readers_wait inv.writers_wait
      (omega (arith, inv.writing_counted, count-pos is_writing s.threads i writing at)))

start-Inv : (n : ℕ) → Inv (start n)
start-Inv n = record {
  reading_counted = sym (count-replicate is_reading n refl);
  writing_counted = sym (count-replicate is_writing n refl);
  asking_counted = sym (count-replicate asks_to_write n refl);
  exclusive = inl refl;
  readers_wait = inl (count-replicate sleeps_to_read n refl);
  writers_wait = inl (count-replicate sleeps_to_write n refl);
}

pub Reach-Inv : {n : ℕ} {s : System} → Reach n s → Inv s
Reach-Inv {n} begin = start-Inv n
Reach-Inv (next before step) = Step-Inv (Reach-Inv before) step
