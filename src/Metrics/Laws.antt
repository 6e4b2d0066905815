-- ===== src/Metrics/Laws.antt =====
-- The counters of `MetricsRegistry` against a total map from keys to integers.
use fusedrive_filesystem.Base.{
  Text, text_eq, text_beq_iff, ◌==◌, ◌≡◌, inl, inr, if◌then◌else◌, lookup, lookup-insert,
  Option-cases, arith,
}
use fusedrive_filesystem.Base.Int.{ℤ, pos, ◌+ℤ◌}
use fusedrive_filesystem.Metrics.{MetricsRegistry, get, set, ensure, add, inc}

pub get-set :
    (k j : Text) (v : ℤ) (m : MetricsRegistry) → get k (set j v m) ≡ (if j == k then v else get k m)
unfolding get set
get-set k j v m = ground (arith, lookup-insert k j v m.stats)

get-ensure : (k j : Text) (m : MetricsRegistry) → get k (ensure j m) ≡ get k m
unfolding get ensure set
get-ensure k j m = elim (Option-cases (lookup j m.stats)) [
  | inr (v, present) ↦ rw present
  | inl absent ↦
      rw absent (ground (arith, lookup-insert k j (pos 0) m.stats, text_beq_iff j k, absent))
]

-- `add` moves the value of its own key by the given value, from 0 where the key is new, and leaves
-- every other key.
pub get-add :
    (k j : Text) (v : ℤ) (m : MetricsRegistry)
    → get k (add j v m) ≡ (if j == k then get k m +ℤ v else get k m)
unfolding add
get-add k j v m =
    rw (get-set k j) (ground (arith, get-ensure k j m, get-ensure j j m, text_beq_iff j k))

pub get-inc :
    (k j : Text) (m : MetricsRegistry)
    → get k (inc j m) ≡ (if j == k then get k m +ℤ pos 1 else get k m)
unfolding inc
get-inc k j m = get-add k j (pos 1) m
