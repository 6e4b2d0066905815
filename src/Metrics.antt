-- ===== src/Metrics.antt =====
-- src/monitoring/metrics/metrics.py: `MetricsRegistry`, one registry for the whole process.
pub mod Laws
use fusedrive_filesystem.Base.{
  Text, text_eq, Dict, Option, none, some, [], contains, lookup, insert, if◌then◌else◌,
}
use fusedrive_filesystem.Base.Int.{ℤ, pos, ◌+ℤ◌}

pub record MetricsRegistry : Type 0 where
  pub stats : Dict Text ℤ

-- `MetricsRegistry()`: the class keeps its only instance, and `__init__` gives it an empty
-- dictionary the first time.
unfoldable pub new : Option MetricsRegistry → MetricsRegistry
new none = record { stats = [] }
new (some shared) = shared

unfoldable pub reset : MetricsRegistry → MetricsRegistry
reset m = record { stats = [] }

unfoldable pub set : Text → ℤ → MetricsRegistry → MetricsRegistry
set key value m = record { stats = insert key value m.stats }

unfoldable pub get : Text → MetricsRegistry → ℤ
get key m = elim (lookup key m.stats) [ none ↦ pos 0 | some v ↦ v ]

-- The first two lines of `add`: a key that is not there yet is set to 0.
unfoldable pub ensure : Text → MetricsRegistry → MetricsRegistry
ensure key m = if contains key m.stats then m else set key (pos 0) m

unfoldable pub add : Text → ℤ → MetricsRegistry → MetricsRegistry
add key value m = set key (get key (ensure key m) +ℤ value) (ensure key m)

unfoldable pub inc : Text → MetricsRegistry → MetricsRegistry
inc key m = add key (pos 1) m

unfoldable pub get_stats : MetricsRegistry → Dict Text ℤ
get_stats m = m.stats
