-- ===== src/Stats.antt =====
-- src/fuse/virtual_files/stats_vfs.py: `StatsVFS`, the directory `/stats` with a file per metric.
-- The file `trigger_deadlock` has threads run against each other before it is read; what they do
-- to the registry is an argument.
pub mod Reads
use fusedrive_filesystem.Metrics.{get, MetricsRegistry}
use fusedrive_filesystem.Base.Int.{negsuc, pos, ℤ}
use fusedrive_filesystem.Base.{
  basename, zero, text_eq, ltb, false, true, slice, none, length, ◌/◌, suc, some, nat_eq, ◌-◌,
  replicate, mem, [], ◌==◌, ◌%◌, ◌∷◌, if◌then◌else◌, codes, ◌++◌, ◌+◌, ℕ, Text, Option, List, Bool,
  ◌≡◌,
}

pub record Attributes : Type 0 where
  pub is_directory : Bool
  pub st_mode : ℕ
  pub st_nlink : ℕ
  pub st_size : ℕ

abbrev pub supported_keys : List Text
supported_keys =
    codes "cache_hits"
    ∷ codes "cache_misses"
    ∷ codes "cache_evictions"
    ∷ codes "downloads"
    ∷ codes "uploads"
    ∷ codes "bytes_read"
    ∷ codes "bytes_written"
    ∷ codes "active_locks"
    ∷ codes "deadlocks_detected"
    ∷ codes "cache_memory_usage"
    ∷ codes "thread_pool_tasks"
    ∷ codes "upload_queue_size"
    ∷ codes "cache_size_bytes"
    ∷ codes "cache_size_chunks"
    ∷ codes "api_requests"
    ∷ codes "bytes_downloaded"
    ∷ codes "bytes_from_cache"
    ∷ codes "trigger_deadlock"
    ∷ []

-- The decimal digits of a number, on as much fuel as the number itself.
unfoldable pub digits : ℕ → ℕ → Text
digits zero n = (48 + n % 10) ∷ []
digits (suc fuel) n =
    let rest = digits fuel (n / 10) in
    if ltb n 10 then (48 + n) ∷ [] else rest ++ (48 + n % 10) ∷ []

-- `str(val)`
unfoldable pub str : ℤ → Text
str (pos n) = digits n n
str (negsuc n) = codes "-" ++ digits (suc n) (suc n)

-- `f"{key:<20}"`: spaces behind a key that is shorter.
unfoldable pub padded : Text → Text
padded key = key ++ replicate (20 - length key) 32

unfoldable pub get_val_str : Text → MetricsRegistry → Text
get_val_str key m = padded key ++ codes ": " ++ str (get key m) ++ 10 ∷ []

-- `getattr`, less the three times; `none` where it raises `ENOENT`.
unfoldable pub getattr : Text → MetricsRegistry → Option Attributes
getattr path m =
    if path == codes "/stats"
    then some (record { is_directory = true; st_mode = 365; st_nlink = 2; st_size = 0 })
    else if mem (basename path) supported_keys
    then some (record {
      is_directory = false;
      st_mode = 292;
      st_nlink = 1;
      st_size = length (get_val_str (basename path) m);
    })
    else none

unfoldable pub readdir : Text → Option (List Text)
readdir path =
    if path == codes "/stats" then some (codes "." ∷ codes ".." ∷ supported_keys) else none

-- `read`, and the registry after it; `none` where it raises `ENOENT`.
unfoldable pub read :
    Option (MetricsRegistry → MetricsRegistry)
    → Text
    → ℕ
    → ℕ
    → MetricsRegistry
    → Option Text × MetricsRegistry
read deadlock path len offset m =
    if basename path == codes "trigger_deadlock"
    then (if offset == 0
        then (
          some (slice offset (offset + len) (codes "Deadlock forcado no FUSE VFS!" ++ 10 ∷ [])),
          elim deadlock [ none ↦ m | some run ↦ run m ],
        )
        else (some [], m))
    else if mem (basename path) supported_keys
    then (some (slice offset (offset + len) (get_val_str (basename path) m)), m)
    else (none, m)
