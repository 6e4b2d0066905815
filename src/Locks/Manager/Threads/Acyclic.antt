-- ===== src/Locks/Manager/Threads/Acyclic.antt =====
-- The operations, and the states that the steps lead to.
use fusedrive_filesystem.Base.{
  codes, if_false, ◌∙◌, if◌then◌else◌, nat_eq, text_eq, lookup, ℕ, Option-cases, insert, Text, refl,
  inl, inr, Bool, ◌==◌, ◌≡◌, some, none, ap, sym, subst, lookup-insert,
}
use fusedrive_filesystem.Metrics.{inc, MetricsRegistry}
use fusedrive_filesystem.Locks.RwLock.{acquire_read, acquire_write, test_read, test_write, Turn}
use fusedrive_filesystem.Locks.Manager.{
  LockManager, get_lock, release_ref, set_lock, ask, retry, new,
}
use fusedrive_filesystem.Locks.Manager.Chains.{holds}
use fusedrive_filesystem.Locks.Manager.Cycles.{detect_cycle-IsDeadlock}
use fusedrive_filesystem.Locks.Manager.Threads.{IsProper, Step, Reach}
use fusedrive_filesystem.Locks.Manager.Threads.Graph.{
  chain_waits, SameGraph-IsAcyclic, same_owners, Chain, IsAcyclic, Settles-IsAcyclic,
  Waits-IsAcyclic,
}
use fusedrive_filesystem.Locks.Manager.Threads.Moves.{
  get_lock-SameGraph, release_ref-SameGraph, grant-Settles, take_turn_cases, leave-Settles,
}

ask-IsAcyclic :
    (is_write : Bool) (key : Text) (tid : ℕ) (m : LockManager)
    → lookup tid m.waiting ≡ none
    → IsProper is_write key tid m
    → IsAcyclic m
    → IsAcyclic (ask is_write key tid m).1
unfolding ask set_lock
ask-IsAcyclic is_write key tid m free proper h =
    let asked : LockManager = get_lock key m in
    let (same_waiting, same_owned) = get_lock-SameGraph key m in
    let h' : IsAcyclic asked = SameGraph-IsAcyclic m asked same_waiting same_owned h in
    let free' : lookup tid asked.waiting ≡ none = ap (lookup tid) same_waiting ∙ free in
    let proper' : IsProper is_write key tid asked = (
      proper.0,
      elim proper.1 [
        | inl writes ↦ inl writes
        | inr not_held ↦ inr (ap (holds tid) (same_owners m asked key same_owned) ∙ not_held)
      ],
    ) in
    elim (detect_cycle-IsDeadlock asked tid key is_write) [
      | inl (found, dead) ↦
          let refused : LockManager = record asked {
            metrics = inc (codes "deadlocks_detected") asked.metrics;
          } in
          let (w, a) = release_ref-SameGraph key refused in
          rw (ask, found) (SameGraph-IsAcyclic asked (release_ref key refused) w a h')
      | inr (quiet, safe) ↦ elim (Option-cases (lookup key asked.locks)) [
        | inl missing ↦ rw (ask, quiet, missing) h'
        | inr (lock, there) ↦
            let turn : Turn = if is_write then acquire_write lock else acquire_read lock in
            let recorded : LockManager = record asked { waiting = insert tid key asked.waiting } in
            rw (ask, quiet, there)
              (elim (take_turn_cases key tid turn recorded) [
                | inl granted ↦ subst IsAcyclic (sym granted) (
                    Settles-IsAcyclic tid asked _
                      (grant-Settles key tid asked (set_lock key turn.lock recorded)
                        (λ t k other waits.
                          sym (
                            lookup-insert t tid key asked.waiting
                            ∙ if_false (tid == t) (some key) _ other)
                          ∙ waits)
                        refl)
                      h')
                | inr kept ↦ subst IsAcyclic (sym kept) (
                    Waits-IsAcyclic tid key is_write asked _
                      (record { waits = λ t. lookup-insert t tid key asked.waiting; same = refl })
                      free' proper' safe h')
              ])
      ]
    ]

retry-IsAcyclic :
    (is_write : Bool) (key : Text) (tid : ℕ) (m : LockManager)
    → IsAcyclic m
    → IsAcyclic (retry is_write key tid m).1
unfolding retry set_lock
retry-IsAcyclic is_write key tid m h = elim (Option-cases (lookup key m.locks)) [
  | inl missing ↦ rw (retry, missing) h
  | inr (lock, there) ↦
      let turn : Turn = if is_write then test_write lock else test_read lock in
      rw (retry, there)
        (elim (take_turn_cases key tid turn m) [
          | inl granted ↦ subst IsAcyclic (sym granted) (
              Settles-IsAcyclic tid m _
                (grant-Settles key tid m (set_lock key turn.lock m) (λ t k other waits. waits) refl)
                h)
          | inr kept ↦ subst IsAcyclic (sym kept) (SameGraph-IsAcyclic m _ refl refl h)
        ])
]

new-IsAcyclic : (metrics : MetricsRegistry) → IsAcyclic (new metrics)
unfolding new lookup
new-IsAcyclic metrics = record {
  no_cycle = λ t cycle. nothing_waits t cycle;
  named = λ t key waits. cc;
}
  where
    nothing_waits : (t : ℕ) → ¬ Chain (new metrics) t t
    nothing_waits t cycle = chain_waits (new metrics) t t cycle refl

-- Deadlock freedom: in every state that any number of threads reach with the locks of one
-- `LockManager`, no thread waits, through any chain of threads and of locks that these hold, for
-- itself, and no key that is waited for is empty. Threads ask with keys that are not empty, and
-- never ask to share a lock that they hold.
pub Reach-IsAcyclic : (metrics : MetricsRegistry) (m : LockManager) → Reach metrics m → IsAcyclic m
Reach-IsAcyclic metrics m Reach.begin = new-IsAcyclic metrics
Reach-IsAcyclic metrics m' (Reach.next {m} before step) =
    by_step m m' (Reach-IsAcyclic metrics m before) step
  where
    by_step : (m m' : LockManager) → IsAcyclic m → Step m m' → IsAcyclic m'
    by_step m m' h (Step.asks is_write key tid free proper) =
        ask-IsAcyclic is_write key tid m free proper h
    by_step m m' h (Step.retries is_write key tid waits) = retry-IsAcyclic is_write key tid m h
    by_step m m' h (Step.leaves is_write key tid free held) =
        Settles-IsAcyclic tid m _ (leave-Settles is_write key tid m) h
