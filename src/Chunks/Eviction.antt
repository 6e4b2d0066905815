-- ===== src/Chunks/Eviction.antt =====
-- `InMemoryChunkEvictionCache`: an ordered dictionary, least recently used key first, bounded in
-- chunks and in bytes. The registry that the methods write is passed along.
pub mod Invariant
pub mod Order
pub mod Gauges
use fusedrive_filesystem.Base.{
  ℕ, Text, text_eq, nat_eq, pair_eq, Dict, Bool, true, false, Option, none, some, List, [], ◌∷◌,
  ◌++◌, ◌||◌, contains, lookup, insert, erase, keys, move_to_end, size_of, length, ltb,
  if◌then◌else◌, codes,
}
use fusedrive_filesystem.Base.Int.{ℤ, pos, ltb_ℤ, ◌+ℤ◌, ◌-ℤ◌}
use fusedrive_filesystem.Metrics
use fusedrive_filesystem.Metrics.{MetricsRegistry}

-- `(file_id, chunk_index)`
abbrev pub ChunkKey : Type 0
ChunkKey = Text × ℕ

abbrev pub Bytes : Type 0
Bytes = List ℕ

pub record EvictionCache : Type 0 where
  pub max_chunks : ℕ
  pub max_memory_bytes : ℕ
  pub cache : Dict ChunkKey Bytes
  pub prefetch_status : Dict ChunkKey Bool
  pub current_bytes : ℤ

-- `__init__`
unfoldable pub new : ℕ → ℕ → EvictionCache
new max_chunks max_memory_bytes = record {
  max_chunks = max_chunks;
  max_memory_bytes = max_memory_bytes;
  cache = [];
  prefetch_status = [];
  current_bytes = pos 0;
}

-- `__iter__`
unfoldable pub iter : EvictionCache → List ChunkKey
iter c = keys c.cache

unfoldable pub get :
    ChunkKey → EvictionCache → MetricsRegistry → Option Bytes × EvictionCache × MetricsRegistry
get key c m =
    if contains key c.cache
    then (
      lookup key (move_to_end key c.cache),
      record c { cache = move_to_end key c.cache; prefetch_status = erase key c.prefetch_status },
      if contains key c.prefetch_status then Metrics.inc (codes "prefetch_hits") m else m,
    )
    else (none, c, m)

-- The test of the loop in `_evict_if_needed`, for a cache that is not empty.
unfoldable pub over_limit : EvictionCache → Bool
over_limit c = ltb c.max_chunks (length c.cache) || ltb_ℤ (pos c.max_memory_bytes) c.current_bytes

-- The body of the loop, once `popitem(last=False)` has taken `(key, val)` and left `rest`.
unfoldable pub evict_oldest : ChunkKey → Bytes → Dict ChunkKey Bytes → EvictionCache → EvictionCache
evict_oldest key val rest c = record c {
  cache = rest;
  current_bytes = c.current_bytes -ℤ pos (length val);
  prefetch_status = erase key c.prefetch_status;
}

unfoldable pub count_eviction : ChunkKey → EvictionCache → MetricsRegistry → MetricsRegistry
count_eviction key c m =
    Metrics.inc (codes "cache_evictions")
      (if contains key c.prefetch_status then Metrics.inc (codes "prefetch_waste") m else m)

-- The loop; the list is `self.cache`, which shrinks in every round.
unfoldable pub evict_from :
    Dict ChunkKey Bytes → EvictionCache → MetricsRegistry → EvictionCache × MetricsRegistry
evict_from [] c m = (record c { cache = [] }, m)
evict_from ((key, val) ∷ rest) c m =
    let next = evict_from rest (evict_oldest key val rest c) (count_eviction key c m) in
    if over_limit (record c { cache = (key, val) ∷ rest })
    then next
    else (record c { cache = (key, val) ∷ rest }, m)

unfoldable pub evict_if_needed : EvictionCache → MetricsRegistry → EvictionCache × MetricsRegistry
evict_if_needed c m = evict_from c.cache c m

unfoldable pub update_metrics : EvictionCache → MetricsRegistry → MetricsRegistry
update_metrics c m = Metrics.set (codes "cache_memory_usage") c.current_bytes (
    Metrics.set (codes "cache_size_bytes") c.current_bytes
      (Metrics.set (codes "cache_size_chunks") (pos (length c.cache)) m))

-- The deletion of a key that is present, which `put` and `invalidate` share.
unfoldable pub forget : ChunkKey → EvictionCache → EvictionCache
forget key c = record c {
  prefetch_status = erase key c.prefetch_status;
  current_bytes = c.current_bytes -ℤ pos (size_of key c.cache);
  cache = erase key c.cache;
}

-- `put` up to its call of `_evict_if_needed`
unfoldable pub store : ChunkKey → Bytes → Bool → EvictionCache → EvictionCache
store key value is_prefetch c =
    let cleared = if contains key c.cache then forget key c else c in
    record cleared {
      cache = move_to_end key (insert key value cleared.cache);
      prefetch_status =
          if is_prefetch then insert key true cleared.prefetch_status else cleared.prefetch_status;
      current_bytes = cleared.current_bytes +ℤ pos (length value);
    }

unfoldable pub put :
    ChunkKey → Bytes → Bool → EvictionCache → MetricsRegistry → EvictionCache × MetricsRegistry
put key value is_prefetch c m =
    let (kept, counted) = evict_if_needed (store key value is_prefetch c) m in
    (kept, update_metrics kept counted)

unfoldable pub invalidate :
    ChunkKey → EvictionCache → MetricsRegistry → EvictionCache × MetricsRegistry
invalidate key c m =
    if contains key c.cache then (forget key c, update_metrics (forget key c) m) else (c, m)
