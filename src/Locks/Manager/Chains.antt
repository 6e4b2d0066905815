-- ===== src/Locks/Manager/Chains.antt =====
-- A deadlock, told without the search: a chain of threads that wait, from the lock that is asked for
-- to a lock that the asking thread holds.
use fusedrive_filesystem.Base.{
  beq_ne, ◌≢◌, true-ne-false, ◌⊎◌, zero, Option-cases, ◌||◌, beq_refl, text_beq_iff, some-inj,
  arith, ◌&&◌, suc, subst, nat_eq, ltb, Bool-cases, ◌∷◌, text_eq, some, none, lookup, [], Option,
  true, mem, false, List, Text, Dict, ℕ, refl, inl, inr, Bool, ◌==◌, ◌≡◌,
}
use fusedrive_filesystem.Locks.Manager.{
  LockManager, scan, push, search_from, is_reentrant, owners_of,
}
use fusedrive_filesystem.Locks.Manager.Searching.{scan_cases}

unfoldable pub holds : ℕ → Dict ℕ ℕ → Bool
holds tid [] = false
holds tid ((owner, n) ∷ owners) = (ltb 0 n && owner == tid) || holds tid owners

-- The locks that a thread would wait for, through other threads, if it waited for `target`.
pub data Leads (m : LockManager) (start : ℕ) (target : Text) : Text → Type 0 where
  target_itself : Leads m start target target
  through :
      {l : Text} (owner : ℕ) (w : Text)
      → Leads m start target l
      → holds owner (owners_of l m) ≡ true
      → (owner == start) ≡ false
      → lookup owner m.waiting ≡ some w
      → (w == []) ≡ false
      → Leads m start target w

-- Such a lock is held by the thread itself, and it is not the target, asked for to be shared.
abbrev pub IsDeadlock : LockManager → ℕ → Text → Bool → Type 0
IsDeadlock m start target is_write =
    (l : Text) × Leads m start target l
    × (holds start (owners_of l m) ≡ true)
    × ((is_write ≡ true) ⊎ (l ≢ target))

harmful_cases :
    (m : LockManager) (start : ℕ) (target l : Text) (is_write : Bool)
    → is_reentrant m start target is_write l ≡ false
    → (is_write ≡ true) ⊎ (l ≢ target)
unfolding is_reentrant
harmful_cases m start target l is_write h = elim (Bool-cases is_write) [
  | inl writes ↦ inl writes
  | inr reads ↦ inr (λ e. true-ne-false (ground (arith, (text_beq_iff l target).1 e)))
]

pub harmful_not_reentrant :
    (m : LockManager) (start : ℕ) (target l : Text) (is_write : Bool)
    → (is_write ≡ true) ⊎ (l ≢ target)
    → is_reentrant m start target is_write l ≡ false
unfolding is_reentrant
harmful_not_reentrant m start target l is_write (inl writes) = ground arith
harmful_not_reentrant m start target l is_write (inr apart) = rw (beq_ne l target apart) refl

module _ (m : LockManager) (start : ℕ) (target : Text) (is_write : Bool) where
  scan_fails :
      (current : Text) (owners : Dict ℕ ℕ) (visited : List ℕ) (stack : List Text)
      → scan m start target is_write current owners visited stack ≡ none
      → (holds start owners ≡ true) × (is_reentrant m start target is_write current ≡ false)
  unfolding holds
  scan_fails current [] visited stack h = absurd (unfold scan in cc)
  scan_fails current ((owner, n) ∷ owners) visited stack h =
      elim (scan_cases m start target is_write current owner n owners visited stack none h) [
        | inl (own, inl (again, rest)) ↦
            let (held, plain) = scan_fails current owners visited stack rest in
            (ground arith, plain)
        | inl (own, inr (fails, rest)) ↦ (ground arith, fails)
        | inr (other, inl (new, rest)) ↦
            let (held, plain) =
              scan_fails current owners (owner ∷ visited) (push (lookup owner m.waiting) stack)
                rest in
            (ground arith, plain)
        | inr (other, inr (seen, rest)) ↦
            let (held, plain) = scan_fails current owners visited stack rest in
            (ground arith, plain)
      ]

  abbrev AllLead : List Text → Type 0
  AllLead stack = (x : Text) → mem x stack ≡ true → Leads m start target x

  push-Leads :
      (o : Option Text) (stack : List Text)
      → ((w : Text) → o ≡ some w → (w == []) ≡ false → Leads m start target w)
      → AllLead stack
      → AllLead (push o stack)
  unfolding push mem
  push-Leads none stack next all x inside = all x inside
  push-Leads (some w) stack next all x inside = elim (Bool-cases (w == [])) [
    | inl empty ↦ all x (rw empty at inside)
    | inr full ↦ elim (Bool-cases (w == x)) [
      | inl same ↦ subst (Leads m start target) ((text_beq_iff w x).0 same) (next w refl full)
      | inr other ↦ all x (rw (full, other) at inside)
    ]
  ]

  scan-Leads :
      (current : Text) (owners : Dict ℕ ℕ) (visited : List ℕ) (stack : List Text)
      (after : List ℕ × List Text)
      → scan m start target is_write current owners visited stack ≡ some after
      → Leads m start target current
      → ((tid : ℕ) → holds tid owners ≡ true → holds tid (owners_of current m) ≡ true)
      → AllLead stack
      → AllLead after.1
  unfolding holds scan
  scan-Leads current [] visited stack after h here held all =
      let e : some (visited, stack) ≡ some after = h in
      subst (λ (r : List ℕ × List Text). AllLead r.1) (some-inj e) all
  scan-Leads current ((owner, n) ∷ owners) visited stack after h here held all =
      let held' : (tid : ℕ) → holds tid owners ≡ true → holds tid (owners_of current m) ≡ true =
        λ tid q. held tid (ground arith) in
      elim (scan_cases m start target is_write current owner n owners visited stack (some after)
        h) [
          | inl (own, inl (again, rest)) ↦
              scan-Leads current owners visited stack after rest here held' all
          | inl (own, inr (fails, rest)) ↦ absurd (cc)
          | inr (other, inl (new, rest)) ↦
              scan-Leads current owners (owner ∷ visited) (push (lookup owner m.waiting) stack)
                after rest here held'
                (push-Leads (lookup owner m.waiting) stack
                  (λ w waits full.
                    through owner w here (held owner (ground (arith, beq_refl owner)))
                      (ground arith) waits full)
                  all)
          | inr (other, inr (seen, rest)) ↦
              scan-Leads current owners visited stack after rest here held' all
        ]

  pub search_sound :
      (fuel : ℕ) (visited_locks : List Text) (visited : List ℕ) (stack : List Text)
      → search_from m start target is_write fuel visited_locks visited stack ≡ some false
      → AllLead stack
      → IsDeadlock m start target is_write
  unfolding mem search_from
  search_sound zero visited_locks visited stack h all = absurd (unfold search_from in cc)
  search_sound (suc fuel) visited_locks visited [] h all = absurd (unfold search_from in cc)
  search_sound (suc fuel) visited_locks visited (current ∷ stack) h all =
      let below : AllLead stack = λ x q. all x (ground arith) in
      let here : Leads m start target current = all current (ground (arith, beq_refl current)) in
      elim (Bool-cases (mem current visited_locks)) [
        | inl again ↦
            search_sound fuel visited_locks visited stack (rw (search_from, again) at h) below
        | inr first ↦
            elim (Option-cases
              (scan m start target is_write current (owners_of current m) visited stack)) [
                | inl failed ↦
                    let (held, plain) =
                      scan_fails current (owners_of current m) visited stack failed in
                    (current, here, held, harmful_cases m start target current is_write plain)
                | inr (after, went) ↦
                    search_sound fuel (current ∷ visited_locks) after.0 after.1
                      (rw (search_from, first, went) at h)
                      (scan-Leads current (owners_of current m) visited stack after went here
                        (λ tid q. q) below)
              ]
      ]

  pub start-Leads : AllLead (target ∷ [])
  unfolding mem
  start-Leads x q = elim (Bool-cases (target == x)) [
    | inl same ↦ subst (Leads m start target) ((text_beq_iff target x).0 same) target_itself
    | inr other ↦ absurd (true-ne-false (ground arith))
  ]
