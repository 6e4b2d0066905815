-- ===== src/Locks/Manager/Cycles.antt =====
-- The search for a cycle against its description in `IsDeadlock`.
use fusedrive_filesystem.Locks.Manager.Chains.{
  holds, Leads, IsDeadlock, target_itself, through, search_sound, start-Leads,
  harmful_not_reentrant,
}
use fusedrive_filesystem.Base.{
  ◌+◌, length, is_some, ap, ◌∙◌, true-ne-false, nat_beq_iff, sym, ◌⊎◌, zero, Option-cases, ◌||◌,
  beq_refl, text_beq_iff, some-inj, arith, ◌&&◌, suc, subst, nat_eq, ltb, Bool-cases, ◌∷◌, text_eq,
  some, none, lookup, [], Option, true, mem, false, List, Text, Dict, ℕ, inl, inr, Bool, ◌==◌, ◌≡◌,
}
use fusedrive_filesystem.Locks.Manager.{
  LockManager, scan, push, search_from, detect_cycle, is_reentrant, owners_of,
}
use fusedrive_filesystem.Locks.Manager.Searching.{scan_cases, detect_ends}

module _ (m : LockManager) (start : ℕ) (target : Text) (is_write : Bool) where
  -- What a loop over owners that ends without an error has done.
  record Scanned (current : Text) (owners : Dict ℕ ℕ) (visited : List ℕ) (stack : List Text)
      (after : List ℕ × List Text) : Type 0 where
    plain : holds start owners ≡ true → is_reentrant m start target is_write current ≡ true
    keeps : (o : ℕ) → mem o visited ≡ true → mem o after.0 ≡ true
    stays : (x : Text) → mem x stack ≡ true → mem x after.1 ≡ true
    takes : (o : ℕ) → holds o owners ≡ true → (o == start) ≡ false → mem o after.0 ≡ true
    pushes :
        (o : ℕ) (w : Text)
        → mem o after.0 ≡ true
        → lookup o m.waiting ≡ some w
        → (w == []) ≡ false
        → (mem o visited ≡ true) ⊎ (mem w after.1 ≡ true)

  push_keeps :
      (o : Option Text) (stack : List Text) (x : Text)
      → mem x stack ≡ true
      → mem x (push o stack) ≡ true
  unfolding push mem
  push_keeps none stack x h = h
  push_keeps (some w) stack x h = ground arith

  push_top : (w : Text) (stack : List Text) → (w == []) ≡ false → mem w (push (some w) stack) ≡ true
  unfolding push mem
  push_top w stack full = rw full (ground (arith, beq_refl w))

  scan_done :
      (current : Text) (owners : Dict ℕ ℕ) (visited : List ℕ) (stack : List Text)
      (after : List ℕ × List Text)
      → scan m start target is_write current owners visited stack ≡ some after
      → Scanned current owners visited stack after
  unfolding holds scan mem
  scan_done current [] visited stack after h =
      let e : some (visited, stack) ≡ some after = h in
      subst (Scanned current [] visited stack) (some-inj e) (record {
        plain = λ held. cc;
        keeps = λ o q. q;
        stays = λ x q. q;
        takes = λ o held other. cc;
        pushes = λ o w inside waits full. inl inside;
      })
  scan_done current ((owner, n) ∷ owners) visited stack after h =
      elim (scan_cases m start target is_write current owner n owners visited stack (some after)
        h) [
          | inl (own, inl (again, rest)) ↦
              let r = scan_done current owners visited stack after rest in
              record {
                plain = λ held. again;
                keeps = r.keeps;
                stays = r.stays;
                takes = λ o held other.
                    r.takes o
                      (ground (
                        arith,
                        nat_eq.beq_iff owner start,
                        nat_eq.beq_iff owner o,
                        nat_eq.beq_iff o start,
                      ))
                      other;
                pushes = r.pushes;
              }
          | inl (own, inr (fails, rest)) ↦ absurd (cc)
          | inr (other, inl (new, rest)) ↦
              let r =
                scan_done current owners (owner ∷ visited) (push (lookup owner m.waiting) stack)
                  after rest in
              record {
                plain = λ held. r.plain (ground arith);
                keeps = λ o q. r.keeps o (ground arith);
                stays = λ x q. r.stays x (push_keeps (lookup owner m.waiting) stack x q);
                takes = λ o held apart. elim (Bool-cases (owner == o)) [
                  | inl same ↦ r.keeps o (ground arith)
                  | inr differs ↦ r.takes o (ground arith) apart
                ];
                pushes = λ o w inside waits full. elim (r.pushes o w inside waits full) [
                  | inr on_stack ↦ inr on_stack
                  | inl before ↦ elim (Bool-cases (owner == o)) [
                    | inr differs ↦ inl (ground arith)
                    | inl same ↦ inr (
                        r.stays w (
                          subst (λ i. mem w (push (lookup i m.waiting) stack) ≡ true)
                            (sym ((nat_beq_iff owner o).0 same))
                            (rw waits (push_top w stack full))))
                  ]
                ];
              }
          | inr (other, inr (seen, rest)) ↦
              let r = scan_done current owners visited stack after rest in
              record {
                plain = λ held. r.plain (ground arith);
                keeps = r.keeps;
                stays = r.stays;
                takes = λ o held apart. elim (Bool-cases (ltb 0 n && owner == o)) [
                  | inl same ↦ r.keeps o (
                      subst (λ i. mem i visited ≡ true) ((nat_beq_iff owner o).0 (ground arith))
                        (ground arith))
                  | inr differs ↦ r.takes o (ground arith) apart
                ];
                pushes = r.pushes;
              }
        ]

  -- The state of the search: what was visited is harmless, and what it leads to is visited or on
  -- the stack.
  record Searched (visited_locks : List Text) (visited : List ℕ) (stack : List Text) : Type 0 where
    target_in : mem target visited_locks || mem target stack ≡ true
    plain :
        (l : Text)
        → mem l visited_locks ≡ true
        → holds start (owners_of l m) ≡ true
        → is_reentrant m start target is_write l ≡ true
    seen :
        (l : Text) (o : ℕ)
        → mem l visited_locks ≡ true
        → holds o (owners_of l m) ≡ true
        → (o == start) ≡ false
        → mem o visited ≡ true
    pushed :
        (o : ℕ) (w : Text)
        → mem o visited ≡ true
        → lookup o m.waiting ≡ some w
        → (w == []) ≡ false
        → mem w visited_locks || mem w stack ≡ true

  skip_visited :
      (current : Text) (visited_locks : List Text) (visited : List ℕ) (stack : List Text)
      → mem current visited_locks ≡ true
      → Searched visited_locks visited (current ∷ stack)
      → Searched visited_locks visited stack
  unfolding mem
  skip_visited current visited_locks visited stack again i = record {
    target_in = drop_top target i.target_in;
    plain = i.plain;
    seen = i.seen;
    pushed = λ o w inside waits full. drop_top w (i.pushed o w inside waits full);
  }
    where
      drop_top :
          (x : Text)
          → mem x visited_locks || mem x (current ∷ stack) ≡ true
          → mem x visited_locks || mem x stack ≡ true
      drop_top x q = elim (Bool-cases (current == x)) [
        | inl same ↦
            let e : mem x visited_locks ≡ true =
              subst (λ y. mem y visited_locks ≡ true) ((text_beq_iff current x).0 same) again in
            ground arith
        | inr other ↦ ground arith
      ]

  visit :
      (current : Text) (visited_locks : List Text) (visited : List ℕ) (stack : List Text)
      (after : List ℕ × List Text)
      → Scanned current (owners_of current m) visited stack after
      → Searched visited_locks visited (current ∷ stack)
      → Searched (current ∷ visited_locks) after.0 after.1
  unfolding mem
  visit current visited_locks visited stack after r i = record {
    target_in = move target i.target_in;
    plain = λ l q held. elim (Bool-cases (current == l)) [
      | inl same ↦
          let e = (text_beq_iff current l).0 same in
          subst (λ y. is_reentrant m start target is_write y ≡ true) e
            (r.plain (subst (λ y. holds start (owners_of y m) ≡ true) (sym e) held))
      | inr other ↦ i.plain l (ground arith) held
    ];
    seen = λ l o q held apart. elim (Bool-cases (current == l)) [
      | inl same ↦
          r.takes o
            (subst (λ y. holds o (owners_of y m) ≡ true) (sym ((text_beq_iff current l).0 same))
              held)
            apart
      | inr other ↦ r.keeps o (i.seen l o (ground arith) held apart)
    ];
    pushed = λ o w inside waits full. elim (r.pushes o w inside waits full) [
      | inl before ↦ move w (i.pushed o w before waits full)
      | inr on_stack ↦ ground arith
    ];
  }
    where
      move :
          (x : Text)
          → mem x visited_locks || mem x (current ∷ stack) ≡ true
          → mem x (current ∷ visited_locks) || mem x after.1 ≡ true
      move x q = elim (Bool-cases (mem x stack)) [
        | inl below ↦ let e : mem x after.1 ≡ true = r.stays x below in ground arith
        | inr gone ↦ ground arith
      ]

  search_done :
      (fuel : ℕ) (visited_locks : List Text) (visited : List ℕ) (stack : List Text)
      → search_from m start target is_write fuel visited_locks visited stack ≡ some true
      → Searched visited_locks visited stack
      → (locks : List Text) × (threads : List ℕ) × Searched locks threads []
  unfolding search_from
  search_done zero visited_locks visited stack h i = absurd (cc)
  search_done (suc fuel) visited_locks visited [] h i = (visited_locks, visited, i)
  search_done (suc fuel) visited_locks visited (current ∷ stack) h i =
      elim (Bool-cases (mem current visited_locks)) [
        | inl again ↦
            search_done fuel visited_locks visited stack (rw (search_from, again) at h)
              (skip_visited current visited_locks visited stack again i)
        | inr first ↦
            elim (Option-cases
              (scan m start target is_write current (owners_of current m) visited stack)) [
                | inl failed ↦
                    absurd
                      (let e : some false ≡ some true = rw (search_from, first, failed) at h in cc)
                | inr (after, went) ↦
                    search_done fuel (current ∷ visited_locks) after.0 after.1
                      (rw (search_from, first, went) at h)
                      (visit current visited_locks visited stack after
                        (scan_done current (owners_of current m) visited stack after went) i)
              ]
      ]

  Leads-visited :
      (locks : List Text) (threads : List ℕ) (l : Text)
      → Searched locks threads []
      → Leads m start target l
      → mem l locks ≡ true
  unfolding mem
  Leads-visited locks threads l i target_itself = let e = i.target_in in ground arith
  Leads-visited locks threads l i (through owner w before held other waits full) =
      let e =
        i.pushed owner l (i.seen _ owner (Leads-visited locks threads _ i before) held other) waits
          full in
      ground arith

  start-Searched : Searched [] [] (target ∷ [])
  unfolding mem
  start-Searched = record {
    target_in = ground (arith, beq_refl target);
    plain = λ l q held. cc;
    seen = λ l o q held other. cc;
    pushed = λ o w inside waits full. cc;
  }

-- `_detect_cycle` raises exactly when there is a deadlock, and ends quietly otherwise: a deadlock
-- is a lock that the asking thread holds, reached from the lock asked for by going from a lock to
-- a holder other than the asking thread and on to the lock that this holder waits for, and which
-- is not the lock asked for itself when that is asked for to be shared.
pub detect_cycle-IsDeadlock :
    (m : LockManager) (start : ℕ) (target : Text) (is_write : Bool)
    → ((detect_cycle m start target is_write ≡ some false) × IsDeadlock m start target is_write)
      ⊎ ((detect_cycle m start target is_write ≡ some true) × ¬ IsDeadlock m start target is_write)
unfolding detect_cycle mem
detect_cycle-IsDeadlock m start target is_write =
    elim (Option-cases (detect_cycle m start target is_write)) [
      | inl stuck ↦
          absurd (true-ne-false (sym (detect_ends m start target is_write) ∙ ap is_some stuck))
      | inr (true, quiet) ↦ inr (
        quiet,
        λ (l, leads, held, harmful).
            let (locks, threads, i) =
              search_done m start target is_write (length m.waiting + 2) [] [] (target ∷ []) quiet
                (start-Searched m start target is_write) in
            true-ne-false (
              sym (i.plain l (Leads-visited m start target is_write locks threads l i leads) held)
              ∙ harmful_not_reentrant m start target l is_write harmful),
      )
      | inr (false, found) ↦ inl (
        found,
        search_sound m start target is_write (length m.waiting + 2) [] [] (target ∷ []) found
            (start-Leads m start target is_write),
      )
    ]
