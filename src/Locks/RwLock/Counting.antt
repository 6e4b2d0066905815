-- ===== src/Locks/RwLock/Counting.antt =====
-- Threads counted by where they stand.
use fusedrive_filesystem.Base.{
  inr, inl, ltb, Bool-cases, ◌<◌, set, refl, ap, ◌≤◌, zero, [], suc, some, arith, ◌+◌, ◌∷◌, ◌≢◌,
  replicate, map, get_elem?, ◌≡◌, List, ℕ,
}
use fusedrive_filesystem.Locks.RwLock.{
  reader_woken, Pc, idle, reader_asleep, reading, writer_asleep, writer_woken, writing, wake,
}

abbrev pub is_reading : Pc → ℕ
is_reading reading = 1
is_reading p = 0

abbrev pub is_writing : Pc → ℕ
is_writing writing = 1
is_writing p = 0

abbrev pub asks_to_write : Pc → ℕ
asks_to_write writer_asleep = 1
asks_to_write writer_woken = 1
asks_to_write p = 0

abbrev pub sleeps_to_read : Pc → ℕ
sleeps_to_read reader_asleep = 1
sleeps_to_read p = 0

abbrev pub sleeps_to_write : Pc → ℕ
sleeps_to_write writer_asleep = 1
sleeps_to_write p = 0

-- Threads that will take a turn without being woken, and then leave the lock or write.
abbrev pub is_busy : Pc → ℕ
is_busy reading = 1
is_busy writing = 1
is_busy writer_woken = 1
is_busy p = 0

-- How many threads weigh 1.
pub count : (Pc → ℕ) → List Pc → ℕ
count w [] = 0
count w (p ∷ ps) = w p + count w ps

pub count-set :
    (w : Pc → ℕ) (ps : List Pc) (i : ℕ) (p q : Pc)
    → get_elem? ps i ≡ some p
    → count w (set ps i q) + w p ≡ count w ps + w q
unfolding count
count-set w [] i p q h = cc
count-set w (x ∷ ps) zero p q h = ground arith
count-set w (x ∷ ps) (suc i) p q h = omega (arith, count-set w ps i p q h)

pub count-wake :
    (w : Pc → ℕ) (ps : List Pc) → ((p : Pc) → w (wake p) ≡ w p) → count w (map wake ps) ≡ count w ps
unfolding count
count-wake w [] same = refl
count-wake w (x ∷ ps) same = omega (arith, same x, count-wake w ps same)

pub count-wake_none :
    (w : Pc → ℕ) (ps : List Pc) → ((p : Pc) → w (wake p) ≡ 0) → count w (map wake ps) ≡ 0
unfolding count
count-wake_none w [] same = refl
count-wake_none w (x ∷ ps) same = omega (arith, same x, count-wake_none w ps same)

pub count-replicate : (w : Pc → ℕ) (n : ℕ) → w idle ≡ 0 → count w (replicate n idle) ≡ 0
unfolding count
count-replicate w zero h = refl
count-replicate w (suc n) h = omega (arith, h, count-replicate w n h)

-- A thread that stands there is counted, and two different threads twice.
pub count-pos :
    (w : Pc → ℕ) (ps : List Pc) (i : ℕ) (p : Pc) → get_elem? ps i ≡ some p → w p ≤ count w ps
unfolding count
count-pos w [] i p h = cc
count-pos w (x ∷ ps) zero p h = ground arith
count-pos w (x ∷ ps) (suc i) p h = omega (arith, count-pos w ps i p h)

pub count-two :
    (w : Pc → ℕ) (ps : List Pc) (i j : ℕ) (p q : Pc)
    → i ≢ j
    → get_elem? ps i ≡ some p
    → get_elem? ps j ≡ some q
    → w p + w q ≤ count w ps
unfolding count
count-two w [] i j p q d h k = cc
count-two w (x ∷ ps) zero zero p q d h k = absurd (d refl)
count-two w (x ∷ ps) zero (suc j) p q d h k = ground (arith, count-pos w ps j q k)
count-two w (x ∷ ps) (suc i) zero p q d h k = ground (arith, count-pos w ps i p h)
count-two w (x ∷ ps) (suc i) (suc j) p q d h k =
    omega (arith, count-two w ps i j p q (λ e. d (ap suc e)) h k)

-- Where the count is positive, a thread stands there.
pub count-find :
    (w : Pc → ℕ) (ps : List Pc)
    → 0 < count w ps
    → (i : ℕ) × (p : Pc) × (get_elem? ps i ≡ some p) × (0 < w p)
unfolding count
count-find w [] some_one = absurd (omega arith)
count-find w (x ∷ ps) some_one = elim (Bool-cases (ltb 0 (w x))) [
  | inl stands ↦ (0, x, refl, ground (arith, stands))
  | inr away ↦
      let (i, p, at, stands) = count-find w ps (ground (arith, away, some_one)) in
      (suc i, p, at, stands)
]

busy_parts :
    (p : Pc) → is_busy p + sleeps_to_write p ≡ is_reading p + is_writing p + asks_to_write p
busy_parts idle = refl
busy_parts reader_asleep = refl
busy_parts reader_woken = refl
busy_parts reading = refl
busy_parts writer_asleep = refl
busy_parts writer_woken = refl
busy_parts writing = refl

pub count-busy :
    (ps : List Pc)
    → count is_busy ps + count sleeps_to_write ps
      ≡ count is_reading ps + count is_writing ps + count asks_to_write ps
unfolding count
count-busy [] = refl
count-busy (p ∷ ps) = omega (arith, busy_parts p, count-busy ps)

asks_asleep : (p : Pc) → sleeps_to_write p ≤ asks_to_write p
asks_asleep idle = omega arith
asks_asleep reader_asleep = omega arith
asks_asleep reader_woken = omega arith
asks_asleep reading = omega arith
asks_asleep writer_asleep = omega arith
asks_asleep writer_woken = omega arith
asks_asleep writing = omega arith

pub writers_ask : (ps : List Pc) → count sleeps_to_write ps ≤ count asks_to_write ps
unfolding count
writers_ask [] = omega arith
writers_ask (p ∷ ps) = omega (arith, asks_asleep p, writers_ask ps)
