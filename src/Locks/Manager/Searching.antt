-- ===== src/Locks/Manager/Searching.antt =====
-- The steps of the search for a cycle, and how many there are.
use fusedrive_filesystem.Base.{
  ◌⊎◌, not, ◌&&◌, text_eq, ltb, refl, zero, Option-cases, sym, suc, ◌==◌, some-inj, none, nat_eq,
  Bool-cases, ◌<◌, true, some, if◌then◌else◌, false, arith, ◌+◌, ◌≤◌, ◌≡◌, ◌∷◌, length, [], List,
  Bool, lookup, Text, ℕ, mem, Option, Dict, is_some, inl, inr,
}
use fusedrive_filesystem.Locks.Manager.{
  LockManager, scan, push, search_from, detect_cycle, is_reentrant, owners_of,
}

-- How many of the threads that wait have not been visited.
unfoldable unvisited : Dict ℕ Text → List ℕ → ℕ
unvisited [] visited = 0
unvisited ((tid, key) ∷ d) visited = (if mem tid visited then 0 else 1) + unvisited d visited

unvisited_mono :
    (d : Dict ℕ Text) (tid : ℕ) (visited : List ℕ)
    → unvisited d (tid ∷ visited) ≤ unvisited d visited
unfolding unvisited mem
unvisited_mono [] tid visited = omega arith
unvisited_mono ((t, w) ∷ d) tid visited = ground (arith, unvisited_mono d tid visited)

length-push : (o : Option Text) (stack : List Text) → length (push o stack) ≤ length stack + 1
unfolding push
length-push none stack = omega arith
length-push (some w) stack = ground arith

push_visited :
    (d : Dict ℕ Text) (tid : ℕ) (visited : List ℕ) (stack : List Text)
    → mem tid visited ≡ false
    → length (push (lookup tid d) stack) + unvisited d (tid ∷ visited)
      ≤ length stack + unvisited d visited
unfolding unvisited mem lookup push
push_visited [] tid visited stack h = omega arith
push_visited ((t, w) ∷ d) tid visited stack h = elim (Bool-cases (t == tid)) [
  | inl same ↦ ground (arith, unvisited_mono d tid visited)
  | inr other ↦ ground (arith, push_visited d tid visited stack h)
]

module _ (m : LockManager) (start : ℕ) (target : Text) (is_write : Bool) where
  -- What the loop does with one owner.
  abbrev pub ScanCase :
      Text → ℕ → ℕ → Dict ℕ ℕ → List ℕ → List Text → Option (List ℕ × List Text) → Type 0
  ScanCase current owner n owners visited stack r =
      ((ltb 0 n && owner == start ≡ true)
        × (((is_reentrant m start target is_write current ≡ true)
              × (scan m start target is_write current owners visited stack ≡ r))
            ⊎ ((is_reentrant m start target is_write current ≡ false) × (none ≡ r))))
      ⊎ ((ltb 0 n && owner == start ≡ false)
          × (((ltb 0 n && not (mem owner visited) ≡ true)
                × (scan m start target is_write current owners (owner ∷ visited)
                      (push (lookup owner m.waiting) stack)
                    ≡ r))
              ⊎ ((ltb 0 n && not (mem owner visited) ≡ false)
                  × (scan m start target is_write current owners visited stack ≡ r))))

  pub scan_cases :
      (current : Text) (owner n : ℕ) (owners : Dict ℕ ℕ) (visited : List ℕ) (stack : List Text)
      (r : Option (List ℕ × List Text))
      → scan m start target is_write current ((owner, n) ∷ owners) visited stack ≡ r
      → ScanCase current owner n owners visited stack r
  unfolding scan
  scan_cases current owner n owners visited stack r h =
      elim (Bool-cases (ltb 0 n && owner == start)) [
        | inl own ↦ elim (Bool-cases (is_reentrant m start target is_write current)) [
          | inl again ↦ inl (own, inl (again, rw (scan, own, again) at h))
          | inr fails ↦ inl (own, inr (fails, rw (scan, own, fails) at h))
        ]
        | inr other ↦ elim (Bool-cases (ltb 0 n && not (mem owner visited))) [
          | inl new ↦ inr (other, inl (new, rw (scan, other, new) at h))
          | inr seen ↦ inr (other, inr (seen, rw (scan, other, seen) at h))
        ]
      ]

  scan_measure :
      (current : Text) (owners : Dict ℕ ℕ) (visited : List ℕ) (stack : List Text)
      (after : List ℕ × List Text)
      → scan m start target is_write current owners visited stack ≡ some after
      → length after.1 + unvisited m.waiting after.0 ≤ length stack + unvisited m.waiting visited
  unfolding scan
  scan_measure current [] visited stack after h =
      let e : (visited, stack) ≡ after = some-inj h in rw (sym e) (omega arith)
  scan_measure current ((owner, n) ∷ owners) visited stack after h =
      elim (scan_cases current owner n owners visited stack (some after) h) [
        | inl (own, inl (again, rest)) ↦ scan_measure current owners visited stack after rest
        | inl (own, inr (fails, rest)) ↦ absurd (cc)
        | inr (other, inl (new, rest)) ↦ omega (
          arith,
          scan_measure current owners (owner ∷ visited) (push (lookup owner m.waiting) stack) after
              rest,
          push_visited m.waiting owner visited stack (ground arith),
        )
        | inr (other, inr (seen, rest)) ↦ scan_measure current owners visited stack after rest
      ]

  search_total :
      (fuel : ℕ) (visited_locks : List Text) (visited : List ℕ) (stack : List Text)
      → length stack + unvisited m.waiting visited < fuel
      → is_some (search_from m start target is_write fuel visited_locks visited stack) ≡ true
  unfolding search_from
  search_total zero visited_locks visited stack h = absurd (omega (arith, h))
  search_total (suc fuel) visited_locks visited [] h = refl
  search_total (suc fuel) visited_locks visited (current ∷ stack) h =
      elim (Bool-cases (mem current visited_locks)) [
        | inl again ↦
            rw (is_some, search_from, again)
              (search_total fuel visited_locks visited stack (omega (arith, h)))
        | inr first ↦
            elim (Option-cases
              (scan m start target is_write current (owners_of current m) visited stack)) [
                | inl failed ↦ rw (is_some, search_from, first, failed) refl
                | inr (after, went) ↦
                    rw (is_some, search_from, first, went)
                      (search_total fuel (current ∷ visited_locks) after.0 after.1 (
                        omega (
                          arith,
                          h,
                          scan_measure current (owners_of current m) visited stack after went,
                        )))
              ]
      ]

unvisited-length : (d : Dict ℕ Text) → unvisited d [] ≤ length d
unfolding unvisited mem
unvisited-length [] = omega arith
unvisited-length ((t, w) ∷ d) = omega (arith, unvisited-length d)

-- `_detect_cycle` ends within two steps more than there are threads that wait, whatever the tables
-- hold.
pub detect_ends :
    (m : LockManager) (start : ℕ) (target : Text) (is_write : Bool)
    → is_some (detect_cycle m start target is_write) ≡ true
unfolding detect_cycle
detect_ends m start target is_write =
    search_total m start target is_write _ [] [] (target ∷ [])
      (omega (arith, unvisited-length m.waiting))
