-- ===== src/Locks/Manager/Threads/Moves.antt =====
-- What an operation of the lock manager does to the graph of the threads that wait.
use fusedrive_filesystem.Base.{
  text_beq_iff, ◌+◌, beq_refl, if_false, ◌&&◌, ltb, if_true, ◌∙◌, nat_beq_iff, if◌then◌else◌,
  nat_eq, arith, ◌-◌, ◌∷◌, ◌⊎◌, text_eq, [], Bool-cases, lookup, Dict, ℕ, Option-cases, insert,
  erase, Text, refl, inl, inr, Bool, ◌==◌, ◌≡◌, true, false, some, none, ap, sym, subst,
  lookup-insert, lookup-erase,
}
use fusedrive_filesystem.Locks.RwLock.{Turn, Pc}
use fusedrive_filesystem.Locks.Manager.{
  LockManager, owners_of, get_lock, release_ref, set_lock, take_turn, grant, forget_owner, held_by,
  leave, new,
}
use fusedrive_filesystem.Locks.Manager.Chains.{holds}
use fusedrive_filesystem.Locks.Manager.Threads.Graph.{same_owners, Settles}

-- What the search and the graph look at.
abbrev SameGraph : LockManager → LockManager → Type 0
SameGraph m m' = (m'.waiting ≡ m.waiting) × (m'.allocations ≡ m.allocations)

pub get_lock-SameGraph : (key : Text) (m : LockManager) → SameGraph m (get_lock key m)
unfolding get_lock
get_lock-SameGraph key m = elim (Option-cases (lookup key m.locks)) [
  | inl missing ↦ rw (get_lock, missing) (refl, refl)
  | inr (lock, there) ↦ elim (Option-cases (lookup key m.refs)) [
    | inl uncounted ↦ rw (get_lock, there, uncounted) (refl, refl)
    | inr (n, counted) ↦ rw (get_lock, there, counted) (refl, refl)
  ]
]

pub release_ref-SameGraph : (key : Text) (m : LockManager) → SameGraph m (release_ref key m)
unfolding release_ref
release_ref-SameGraph key m = elim (Option-cases (lookup key m.refs)) [
  | inl uncounted ↦ rw (release_ref, uncounted) (refl, refl)
  | inr (n, counted) ↦ elim (Bool-cases (n - 1 == 0)) [
    | inl last ↦ rw (release_ref, counted, last) (refl, refl)
    | inr more ↦ rw (release_ref, counted, more) (refl, refl)
  ]
]

holds-insert :
    (u tid n : ℕ) (owners : Dict ℕ ℕ)
    → holds u (insert tid n owners) ≡ true
    → (holds u owners ≡ true) ⊎ (u ≡ tid)
unfolding holds insert
holds-insert u tid n [] h = inr (ground (arith, h))
holds-insert u tid n ((o, c) ∷ owners) h = elim (Bool-cases (tid == u)) [
  | inl same ↦ inr (sym ((nat_beq_iff tid u).0 same))
  | inr other ↦ elim (Bool-cases (o == tid)) [
    | inl at_head ↦ inl (ground (arith, h))
    | inr further ↦ elim (Bool-cases (ltb 0 c && o == u)) [
      | inl own ↦ inl (ground arith)
      | inr less ↦ elim (holds-insert u tid n owners (ground (arith, h))) [
        | inl before ↦ inl (ground arith)
        | inr same ↦ inr same
      ]
    ]
  ]
]

holds-erase :
    (u tid : ℕ) (owners : Dict ℕ ℕ) → holds u (erase tid owners) ≡ true → holds u owners ≡ true
unfolding holds erase
holds-erase u tid [] h = h
holds-erase u tid ((o, c) ∷ owners) h = ground (arith, holds-erase u tid owners)

owners_of-insert :
    (key k : Text) (owners : Dict ℕ ℕ) (m m' : LockManager)
    → m'.allocations ≡ insert key owners m.allocations
    → owners_of k m' ≡ (if key == k then owners else owners_of k m)
unfolding owners_of
owners_of-insert key k owners m m' e =
    rw (owners_of, e, lookup-insert k key owners m.allocations)
      (elim (Bool-cases (key == k)) [ inl own ↦ rw own refl | inr other ↦ rw other refl ])

-- Where the owners of one key are replaced, and at most one thread is new among them.
replaced_held :
    (key k : Text) (tid u : ℕ) (owners : Dict ℕ ℕ) (m m' : LockManager)
    → m'.allocations ≡ insert key owners m.allocations
    → (holds u owners ≡ true → (holds u (owners_of key m) ≡ true) ⊎ (u ≡ tid))
    → holds u (owners_of k m') ≡ true
    → (holds u (owners_of k m) ≡ true) ⊎ (u ≡ tid)
replaced_held key k tid u owners m m' e new held = elim (Bool-cases (key == k)) [
  | inl own ↦
      let is_k = (text_beq_iff key k).0 own in
      subst (λ i. (holds u (owners_of i m) ≡ true) ⊎ (u ≡ tid)) is_k
        (new (
          ap (holds u)
            (sym (owners_of-insert key k owners m m' e ∙ if_true (key == k) owners _ own))
          ∙ held))
  | inr other ↦ inl (
      ap (holds u) (sym (owners_of-insert key k owners m m' e ∙ if_false (key == k) owners _ other))
      ∙ held)
]

-- A thread gets the lock of a key.
pub grant-Settles :
    (key : Text) (tid : ℕ) (base m : LockManager)
    → ((t : ℕ) (k : Text)
        → (tid == t) ≡ false
        → lookup t m.waiting ≡ some k
        → lookup t base.waiting ≡ some k)
    → m.allocations ≡ base.allocations
    → Settles tid base (grant key tid m)
unfolding grant
grant-Settles key tid base m others same = record {
  waits = λ t k waits. elim (Bool-cases (tid == t)) [
    | inl own ↦ absurd (
        let e : none ≡ some k =
          sym (lookup-erase t tid m.waiting ∙ if_true (tid == t) none _ own) ∙ waits in
        cc)
    | inr other ↦
        others t k other
          (sym (lookup-erase t tid m.waiting ∙ if_false (tid == t) none _ other) ∙ waits)
  ];
  held = λ u k held.
      let owners = owners_of key m in
      replaced_held key k tid u (insert tid (held_by tid owners + 1) owners) base (grant key tid m)
        (ap (insert key (insert tid (held_by tid owners + 1) owners)) same)
        (λ q.
          subst (λ (d : Dict ℕ ℕ). (holds u d ≡ true) ⊎ (u ≡ tid)) (same_owners base m key same)
            (holds-insert u tid (held_by tid owners + 1) owners q))
        held;
  free = lookup-erase tid tid m.waiting ∙ if_true (tid == tid) none _ (beq_refl tid);
}

pub take_turn_cases :
    (key : Text) (tid : ℕ) (turn : Turn) (m : LockManager)
    → let r = (take_turn key tid turn m).1 in
      (r ≡ grant key tid (set_lock key turn.lock m)) ⊎ (r ≡ set_lock key turn.lock m)
unfolding take_turn
take_turn_cases key tid turn m = by_pc turn.pc
  where
    by_pc :
        (pc : Pc)
        → let r = elim pc as (λ x. LockManager) [
          | Pc.reading ↦ grant key tid (set_lock key turn.lock m)
          | Pc.writing ↦ grant key tid (set_lock key turn.lock m)
          | _ ↦ set_lock key turn.lock m
        ] in
          (r ≡ grant key tid (set_lock key turn.lock m)) ⊎ (r ≡ set_lock key turn.lock m)
    by_pc Pc.idle = inr refl
    by_pc Pc.reader_asleep = inr refl
    by_pc Pc.reader_woken = inr refl
    by_pc Pc.reading = inl refl
    by_pc Pc.writer_asleep = inr refl
    by_pc Pc.writer_woken = inr refl
    by_pc Pc.writing = inl refl

leave_graph :
    (is_write : Bool) (key : Text) (tid : ℕ) (m : LockManager)
    → let m' = leave is_write key tid m in
      (m'.waiting ≡ erase tid m.waiting) × (m'.allocations ≡ (forget_owner key tid m).allocations)
unfolding leave forget_owner set_lock
leave_graph is_write key tid m = elim (Option-cases (lookup key m.locks)) [
  | inl missing ↦ rw (leave, missing) (release_ref-SameGraph key _)
  | inr (lock, there) ↦ rw (leave, there) (release_ref-SameGraph key _)
]

-- The owners of a lock that a thread leaves once.
abbrev owners_left : ℕ → Dict ℕ ℕ → Dict ℕ ℕ
owners_left tid owners =
    if held_by tid owners - 1 == 0
    then erase tid owners
    else insert tid (held_by tid owners - 1) owners

holds-forget_owner :
    (key : Text) (tid u : ℕ) (m : LockManager)
    → holds u (owners_left tid (owners_of key m)) ≡ true
    → (holds u (owners_of key m) ≡ true) ⊎ (u ≡ tid)
holds-forget_owner key tid u m h =
    let owners = owners_of key m in
    let n = held_by tid owners in
    elim (Bool-cases (n - 1 == 0)) [
      | inl last ↦ inl (holds-erase u tid owners (rw last at h))
      | inr others ↦ holds-insert u tid (n - 1) owners (rw others at h)
    ]

pub leave-Settles :
    (is_write : Bool) (key : Text) (tid : ℕ) (m : LockManager)
    → Settles tid m (leave is_write key tid m)
leave-Settles is_write key tid m =
    let (waiting_less, owners_less) = leave_graph is_write key tid m in
    let forgotten : (forget_owner key tid m).allocations
        ≡ insert key (owners_left tid (owners_of key m)) m.allocations =
      unfold forget_owner in refl in
    record {
      waits = λ t k waits.
          let left : (if tid == t then none else lookup t m.waiting) ≡ some k =
            sym (ap (lookup t) waiting_less ∙ lookup-erase t tid m.waiting) ∙ waits in
          elim (Bool-cases (tid == t)) [
            | inl own ↦ absurd (let e : none ≡ some k = rw own at left in cc)
            | inr other ↦ rw other at left
          ];
      held = λ u k held.
          replaced_held key k tid u (owners_left tid (owners_of key m)) m (leave is_write key tid m)
            (owners_less ∙ forgotten) (holds-forget_owner key tid u m) held;
      free =
          ap (lookup tid) waiting_less
          ∙ lookup-erase tid tid m.waiting
          ∙ if_true (tid == tid) none _ (beq_refl tid);
    }
