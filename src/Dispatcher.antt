-- ===== src/Dispatcher.antt =====
-- src/infrastructure/concurrency/dispatcher.py: `RequestDispatcher`, over the executors of
-- `concurrent.futures`.
pub mod Stopping
use fusedrive_filesystem.Base.{
  text_eq, insert, some, none, ◌++◌, ◌∷◌, lookup, codes, [], Option, ℕ, Text, Dict, Bool,
}
use fusedrive_filesystem.Base.Int.{pos}
use fusedrive_filesystem.Metrics.{MetricsRegistry, set, inc}

-- `ThreadPoolExecutor`: `submit` gives none where it raises, and the two private fields none where
-- there is no such attribute.
pub record Executors (E T : Type 0) : Type 0 where
  pub create : ℕ → Text → E
  pub submit_to : T → E → Option E
  pub queue_size : E → Option ℕ
  pub thread_count : E → Option ℕ
  pub shut_down : Bool → E → E

pub record RequestDispatcher (E : Type 0) : Type 0 where
  pub metrics : MetricsRegistry
  pub pools : Dict Text E

-- How `submit` ends: with the task in a pool, with `ValueError`, or with what the executor raises.
pub data Submission : Type 0 where
  submitted unknown_pool refused : Submission

abbrev pub active_key : Text → Text
active_key name = codes "pool_" ++ name ++ codes "_active"

abbrev pub queue_key : Text → Text
queue_key name = codes "pool_" ++ name ++ codes "_queue"

unfoldable pub set_some : Text → Option ℕ → MetricsRegistry → MetricsRegistry
set_some key none m = m
set_some key (some n) m = set key (pos n) m

module _ {E T : Type 0} (executors : Executors E T) where
  unfoldable pub create_pools : ℕ → ℕ → ℕ → ℕ → Dict Text E
  create_pools read_workers write_workers meta_workers prefetch_workers =
      (codes "read", executors.create read_workers (codes "read"))
      ∷ (codes "prefetch", executors.create prefetch_workers (codes "prefetch"))
      ∷ (codes "write", executors.create write_workers (codes "write"))
      ∷ (codes "metadata", executors.create meta_workers (codes "meta"))
      ∷ (codes "upload", executors.create 2 (codes "upload"))
      ∷ []

  -- The loop at the end of `__init__`.
  unfoldable pub clear_gauges : Dict Text E → MetricsRegistry → MetricsRegistry
  clear_gauges [] m = m
  clear_gauges ((name, executor) ∷ pools) m =
      clear_gauges pools (set (queue_key name) (pos 0) (set (active_key name) (pos 0) m))

  -- `__init__`
  unfoldable pub new : MetricsRegistry → ℕ → ℕ → ℕ → ℕ → RequestDispatcher E
  new metrics read_workers write_workers meta_workers prefetch_workers =
      let pools = create_pools read_workers write_workers meta_workers prefetch_workers in
      record { metrics = clear_gauges pools metrics; pools = pools }

  unfoldable pub submit : Text → T → RequestDispatcher E → Submission × RequestDispatcher E
  submit pool_name task d = elim (lookup pool_name d.pools) [
    | none ↦ (unknown_pool, d)
    | some executor ↦
        let counted : RequestDispatcher E = record d {
          metrics = inc (codes "thread_pool_tasks") d.metrics;
        } in
        elim (executors.submit_to task executor) [
          | none ↦ (refused, counted)
          | some busy ↦ (submitted, record counted { pools = insert pool_name busy counted.pools })
        ]
  ]

  -- The loop of `update_metrics`.
  unfoldable pub measure : Dict Text E → MetricsRegistry → MetricsRegistry
  measure [] m = m
  measure ((name, executor) ∷ pools) m = measure pools (
      set_some (active_key name) (executors.thread_count executor)
        (set_some (queue_key name) (executors.queue_size executor) m))

  unfoldable pub update_metrics : RequestDispatcher E → RequestDispatcher E
  update_metrics d = record d { metrics = measure d.pools d.metrics }

  unfoldable pub shut_down_all : Bool → Dict Text E → Dict Text E
  shut_down_all wait [] = []
  shut_down_all wait ((name, executor) ∷ pools) =
      (name, executors.shut_down wait executor) ∷ shut_down_all wait pools

  unfoldable pub shutdown : Bool → RequestDispatcher E → RequestDispatcher E
  shutdown wait d = record d { pools = shut_down_all wait d.pools }
