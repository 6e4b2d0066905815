-- ===== src/Chunks/Eviction/Gauges.antt =====
-- What the registry says of the cache: gauges for its size, a counter for its evictions.
use fusedrive_filesystem.Chunks.Eviction.Order.{store_lem, touched}
use fusedrive_filesystem.Base.{
  ap, Text, nat_eq, text_eq, pair_eq, text_beq, ◌≡◌, refl, ◌∙◌, Dict, Bool, [], ◌∷◌, length,
  total_length, Bool-cases, inl, inr, codes, contains,
}
use fusedrive_filesystem.Base.Int.{pos, ◌+ℤ◌, int_laws}
use fusedrive_filesystem.Metrics
use fusedrive_filesystem.Metrics.{MetricsRegistry}
use fusedrive_filesystem.Metrics.Laws.{get-set, get-inc}
use fusedrive_filesystem.Chunks.Eviction.{
  ChunkKey, Bytes, EvictionCache, evict_from, over_limit, evict_oldest, count_eviction,
  evict_if_needed, store, put, update_metrics,
}
use fusedrive_filesystem.Chunks.Eviction.Invariant.{IsSound, put-IsSound}

abbrev pub evictions : Text
evictions = codes "cache_evictions"

-- After `put` into a sound cache the gauges `cache_size_chunks`, `cache_size_bytes` and
-- `cache_memory_usage` show the chunks and the bytes that are held.
pub put_gauges :
    (k : ChunkKey) (v : Bytes) (p : Bool) (c : EvictionCache) (m : MetricsRegistry)
    → IsSound c
    → let (c', m') = put k v p c m in
      (Metrics.get (codes "cache_size_chunks") m' ≡ pos (length c'.cache))
      × (Metrics.get (codes "cache_size_bytes") m' ≡ pos (total_length c'.cache))
      × (Metrics.get (codes "cache_memory_usage") m' ≡ pos (total_length c'.cache))
unfolding put update_metrics text_beq
put_gauges k v p c m h =
    let sound = (put-IsSound k v p c m h).0 in
    (simp get-set, simp get-set sound.accounted, simp get-set sound.accounted)

count_eviction_lem :
    (k : ChunkKey) (c : EvictionCache) (m : MetricsRegistry)
    → Metrics.get evictions (count_eviction k c m) ≡ Metrics.get evictions m +ℤ pos 1
unfolding count_eviction text_beq
count_eviction_lem k c m = elim (Bool-cases (contains k c.prefetch_status)) [
  | inl marked ↦ rw marked (simp get-inc)
  | inr plain ↦ rw plain (simp get-inc)
]

evict_from-counts :
    (l : Dict ChunkKey Bytes) (c : EvictionCache) (m : MetricsRegistry)
    → Metrics.get evictions (evict_from l c m).1 +ℤ pos (length (evict_from l c m).0.cache)
      ≡ Metrics.get evictions m +ℤ pos (length l)
unfolding evict_from
evict_from-counts [] c m = refl
evict_from-counts ((key, val) ∷ rest) c m =
    elim (Bool-cases (over_limit (record c { cache = (key, val) ∷ rest }))) [
      | inl over ↦
          let later =
            evict_from-counts rest (evict_oldest key val rest c) (count_eviction key c m) in
          rw over (later ∙ rw (count_eviction_lem key c m) (omega int_laws))
      | inr fits ↦ rw fits refl
    ]

-- `cache_evictions` goes up by the number of chunks that `put` drops.
pub put-counts :
    (k : ChunkKey) (v : Bytes) (p : Bool) (c : EvictionCache) (m : MetricsRegistry)
    → let (c', m') = put k v p c m in
      Metrics.get evictions m' +ℤ pos (length c'.cache)
      ≡ Metrics.get evictions m +ℤ pos (length (touched k v c.cache))
unfolding put update_metrics text_beq evict_if_needed
put-counts k v p c m = simp get-set (
    evict_from-counts (store k v p c).cache (store k v p c) m
    ∙ ap (λ d. Metrics.get evictions m +ℤ pos (length d)) (store_lem k v p c))
