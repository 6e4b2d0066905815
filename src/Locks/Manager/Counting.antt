-- ===== src/Locks/Manager/Counting.antt =====
-- The table of locks and its counts of references.
use fusedrive_filesystem.Base.{
  false, Bool, nat_eq, ◌∙◌, text_beq_iff, some-inj, none, ap, text_eq, sym, subst, if◌then◌else◌,
  ◌-◌, ◌+◌, true, some, insert, arith, Bool-cases, ◌≤◌, lookup, erase, contains, ℕ, Option-cases,
  Text, Dict, refl, inl, inr, ◌==◌, ◌≡◌, lookup-insert, lookup-erase, is_some,
}
use fusedrive_filesystem.Locks.RwLock.{Pc, Turn, RwLock, fresh}
use fusedrive_filesystem.Locks.Manager.{
  grant, set_lock, forget_owner, detect_cycle, take_turn, retry, leave, ask, LockManager, get_lock,
  release_ref,
}

-- The two tables have the same keys, and no count is 0.
pub record IsCounted (locks : Dict Text RwLock) (refs : Dict Text ℕ) : Type 0 where
  pub same : (key : Text) → contains key locks ≡ contains key refs
  pub positive : (key : Text) (n : ℕ) → lookup key refs ≡ some n → 1 ≤ n

abbrev pub IsTidy : LockManager → Type 0
IsTidy m = IsCounted m.locks m.refs

abbrev AllPositive : Dict Text ℕ → Type 0
AllPositive refs = (key : Text) (n : ℕ) → lookup key refs ≡ some n → 1 ≤ n

insert-positive :
    (key : Text) (n : ℕ) (refs : Dict Text ℕ)
    → 1 ≤ n
    → AllPositive refs
    → AllPositive (insert key n refs)
insert-positive key n refs above h j k found =
    let e : (if key == j then some n else lookup j refs) ≡ some k =
      rw (lookup-insert j key n refs) at found in
    elim (Bool-cases (key == j)) [
      | inl own ↦ let same_n : n ≡ k = some-inj (rw own at e) in omega (arith, above, same_n)
      | inr other ↦ h j k (rw other at e)
    ]

-- A new value under a key that is there changes no key.
contains-insert_known :
    {V : Type 0} (j key : Text) (v : V) (d : Dict Text V)
    → contains key d ≡ true
    → contains j (insert key v d) ≡ contains j d
contains-insert_known j key v d there = rw (lookup-insert j key v d) (elim (Bool-cases (key == j)) [
  | inl own ↦ rw own (sym (subst (λ i. contains i d ≡ true) ((text_beq_iff key j).0 own) there))
  | inr other ↦ rw other refl
])

insert-IsCounted :
    (key : Text) (lock : RwLock) (n : ℕ) (locks : Dict Text RwLock) (refs : Dict Text ℕ)
    → 1 ≤ n
    → IsCounted locks refs
    → IsCounted (insert key lock locks) (insert key n refs)
insert-IsCounted key lock n locks refs above h = record {
  same = λ j.
      rw (lookup-insert j key lock locks, lookup-insert j key n refs)
        (elim (Bool-cases (key == j)) [ inl own ↦ rw own refl | inr other ↦ rw other (h.same j) ]);
  positive = insert-positive key n refs above h.positive;
}

set-IsCounted :
    (key : Text) (lock : RwLock) (locks : Dict Text RwLock) (refs : Dict Text ℕ)
    → contains key locks ≡ true
    → IsCounted locks refs
    → IsCounted (insert key lock locks) refs
set-IsCounted key lock locks refs there h = record {
  same = λ j. contains-insert_known j key lock locks there ∙ h.same j;
  positive = h.positive;
}

recount-IsCounted :
    (key : Text) (n : ℕ) (locks : Dict Text RwLock) (refs : Dict Text ℕ)
    → 1 ≤ n
    → contains key locks ≡ true
    → IsCounted locks refs
    → IsCounted locks (insert key n refs)
recount-IsCounted key n locks refs above there h = record {
  same = λ j. h.same j ∙ sym (contains-insert_known j key n refs (sym (h.same key) ∙ there));
  positive = insert-positive key n refs above h.positive;
}

erase-IsCounted :
    (key : Text) (locks : Dict Text RwLock) (refs : Dict Text ℕ)
    → IsCounted locks refs
    → IsCounted (erase key locks) (erase key refs)
erase-IsCounted key locks refs h = record {
  same = λ j.
      rw (lookup-erase j key locks, lookup-erase j key refs)
        (elim (Bool-cases (key == j)) [ inl own ↦ rw own refl | inr other ↦ rw other (h.same j) ]);
  positive = λ j k found.
      let e : (if key == j then none else lookup j refs) ≡ some k =
        rw (lookup-erase j key refs) at found in
      elim (Bool-cases (key == j)) [
        | inl own ↦ absurd (let gone : none ≡ some k = rw own at e in cc)
        | inr other ↦ h.positive j k (rw other at e)
      ];
}

get_lock-IsTidy : (key : Text) (m : LockManager) → IsTidy m → IsTidy (get_lock key m)
unfolding get_lock
get_lock-IsTidy key m h = elim (Option-cases (lookup key m.locks)) [
  | inl missing ↦
      rw (get_lock, missing) (insert-IsCounted key fresh 1 m.locks m.refs (omega arith) h)
  | inr (lock, there) ↦ elim (Option-cases (lookup key m.refs)) [
    | inl uncounted ↦ rw (get_lock, there, uncounted) h
    | inr (n, counted) ↦
        rw (get_lock, there, counted)
          (recount-IsCounted key (n + 1) m.locks m.refs (omega arith) (ap is_some there) h)
  ]
]

release_ref-IsTidy : (key : Text) (m : LockManager) → IsTidy m → IsTidy (release_ref key m)
unfolding release_ref
release_ref-IsTidy key m h = elim (Option-cases (lookup key m.refs)) [
  | inl uncounted ↦ rw (release_ref, uncounted) h
  | inr (n, counted) ↦ elim (Bool-cases (n - 1 == 0)) [
    | inl last ↦ rw (release_ref, counted, last) (erase-IsCounted key m.locks m.refs h)
    | inr more ↦
        rw (release_ref, counted, more)
          (recount-IsCounted key (n - 1) m.locks m.refs (ground arith)
            (h.same key ∙ ap is_some counted) h)
  ]
]

take_turn-IsTidy :
    (key : Text) (tid : ℕ) (turn : Turn) (m : LockManager)
    → contains key m.locks ≡ true
    → IsTidy m
    → IsTidy (take_turn key tid turn m).1
unfolding take_turn set_lock grant
take_turn-IsTidy key tid turn m there h = by_pc turn.pc
  where
    moved : IsCounted (insert key turn.lock m.locks) m.refs
    moved = set-IsCounted key turn.lock m.locks m.refs there h

    by_pc :
        (pc : Pc)
        → IsTidy (elim pc [
          | Pc.reading ↦ grant key tid (set_lock key turn.lock m)
          | Pc.writing ↦ grant key tid (set_lock key turn.lock m)
          | _ ↦ set_lock key turn.lock m
        ])
    by_pc Pc.idle = moved
    by_pc Pc.reader_asleep = moved
    by_pc Pc.reader_woken = moved
    by_pc Pc.reading = moved
    by_pc Pc.writer_asleep = moved
    by_pc Pc.writer_woken = moved
    by_pc Pc.writing = moved

ask-IsTidy :
    (is_write : Bool) (key : Text) (tid : ℕ) (m : LockManager)
    → IsTidy m
    → IsTidy (ask is_write key tid m).1
unfolding ask
ask-IsTidy is_write key tid m h =
    elim (Option-cases (detect_cycle (get_lock key m) tid key is_write)) [
      | inl stuck ↦ rw (ask, stuck) asked
      | inr (false, found) ↦ rw (ask, found) (release_ref-IsTidy key _ asked)
      | inr (true, quiet) ↦ elim (Option-cases (lookup key (get_lock key m).locks)) [
        | inl missing ↦ rw (ask, quiet, missing) asked
        | inr (lock, there) ↦
            rw (ask, quiet, there) (take_turn-IsTidy key tid _ _ (ap is_some there) asked)
      ]
    ]
  where
    asked : IsTidy (get_lock key m)
    asked = get_lock-IsTidy key m h

retry-IsTidy :
    (is_write : Bool) (key : Text) (tid : ℕ) (m : LockManager)
    → IsTidy m
    → IsTidy (retry is_write key tid m).1
unfolding retry
retry-IsTidy is_write key tid m h = elim (Option-cases (lookup key m.locks)) [
  | inl missing ↦ rw (retry, missing) h
  | inr (lock, there) ↦ rw (retry, there) (take_turn-IsTidy key tid _ m (ap is_some there) h)
]

leave-IsTidy :
    (is_write : Bool) (key : Text) (tid : ℕ) (m : LockManager)
    → IsTidy m
    → IsTidy (leave is_write key tid m)
unfolding leave forget_owner set_lock
leave-IsTidy is_write key tid m h = elim (Option-cases (lookup key m.locks)) [
  | inl missing ↦ rw (leave, missing) (release_ref-IsTidy key _ h)
  | inr (lock, there) ↦
      rw (leave, there)
        (release_ref-IsTidy key _ (set-IsCounted key _ m.locks m.refs (ap is_some there) h))
]

-- If the table of locks and the counts of references have the same keys and no count is 0, so it
-- is after a thread asks for a lock, tries again or leaves it, shared or exclusive, and after the
-- search raises.
pub changes-IsTidy :
    (is_write : Bool) (key : Text) (tid : ℕ) (m : LockManager)
    → IsTidy m
    → IsTidy (ask is_write key tid m).1
      × IsTidy (retry is_write key tid m).1
      × IsTidy (leave is_write key tid m)
changes-IsTidy is_write key tid m h = (
  ask-IsTidy is_write key tid m h,
  retry-IsTidy is_write key tid m h,
  leave-IsTidy is_write key tid m h,
)
