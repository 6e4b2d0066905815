-- ===== src/Tests/Eviction.antt =====
-- A cache of two chunks and five bytes.
use fusedrive_filesystem.Chunks.Eviction.Gauges.{put_gauges}
use fusedrive_filesystem.Base.Int.{◌-ℤ◌, ◌+ℤ◌, pos}
use fusedrive_filesystem.Metrics.{add, MetricsRegistry}
use fusedrive_filesystem.Chunks.Eviction.Order.{lookup-put, put-IsTrimmed, touched, IsTrimmed}
use fusedrive_filesystem.Chunks.Eviction.Invariant.{put-IsSound, IsWithin, IsSound}
use fusedrive_filesystem.Chunks.Eviction.{
  update_metrics, over_limit, evict_oldest, evict_from, evict_if_needed, store, invalidate, put,
  EvictionCache, ChunkKey,
}
use fusedrive_filesystem.Metrics
use fusedrive_filesystem.Chunks.Eviction
use fusedrive_filesystem.Base.{
  some, erase, insert, text_beq, total_length, length, ◌==◌, true, text_eq, pair_eq, nat_eq,
  if◌then◌else◌, false, [], ◌∷◌, refl, none, move_to_end, lookup, codes, ◌≡◌,
}

abbrev a : ChunkKey
a = (codes "a", 0)

abbrev b : ChunkKey
b = (codes "b", 0)

abbrev registry : MetricsRegistry
registry = Metrics.new none

abbrev empty : EvictionCache
empty = Eviction.new 2 5

-- `a` is in the cache, marked as prefetched.
abbrev one : EvictionCache
one = (put a (1 ∷ 2 ∷ 3 ∷ []) true empty registry).0

empty-IsSound : IsSound empty
unfolding Eviction.new lookup
empty-IsSound = record { distinct = _; accounted = refl; tracked = λ k h. refl }

one-IsSound : IsSound one
one-IsSound = (put-IsSound a (1 ∷ 2 ∷ 3 ∷ []) true empty registry empty-IsSound).0

one-IsWithin : IsWithin one
one-IsWithin = (put-IsSound a (1 ∷ 2 ∷ 3 ∷ []) true empty registry empty-IsSound).1

put-IsSound_example :
    IsSound (put b (4 ∷ 5 ∷ 6 ∷ []) false one registry).0
    × IsWithin (put b (4 ∷ 5 ∷ 6 ∷ []) false one registry).0
put-IsSound_example = put-IsSound b (4 ∷ 5 ∷ 6 ∷ []) false one registry one-IsSound

put-IsTrimmed_example :
    IsTrimmed one.max_chunks one.max_memory_bytes
      (touched b (4 ∷ 5 ∷ 6 ∷ []) one.cache)
      (put b (4 ∷ 5 ∷ 6 ∷ []) false one registry).0.cache
put-IsTrimmed_example = put-IsTrimmed b (4 ∷ 5 ∷ 6 ∷ []) false one registry one-IsSound

put_gauges_example :
    let (c', m') = put b (4 ∷ 5 ∷ 6 ∷ []) false one registry in
    (Metrics.get (codes "cache_size_chunks") m' ≡ pos (length c'.cache))
    × (Metrics.get (codes "cache_size_bytes") m' ≡ pos (total_length c'.cache))
    × (Metrics.get (codes "cache_memory_usage") m' ≡ pos (total_length c'.cache))
put_gauges_example = put_gauges b (4 ∷ 5 ∷ 6 ∷ []) false one registry one-IsSound

kept : lookup b (put b (4 ∷ 5 ∷ 6 ∷ []) false one registry).0.cache ≡ some (4 ∷ 5 ∷ 6 ∷ [])
unfolding put store evict_if_needed evict_from evict_oldest over_limit update_metrics Eviction.new
    text_beq insert erase move_to_end lookup ◌+ℤ◌ ◌-ℤ◌
kept = refl

lookup-put_example :
    (if b == b then some (4 ∷ 5 ∷ 6 ∷ []) else lookup b one.cache) ≡ some (4 ∷ 5 ∷ 6 ∷ [])
lookup-put_example =
    lookup-put b b (4 ∷ 5 ∷ 6 ∷ []) (4 ∷ 5 ∷ 6 ∷ []) false one registry one-IsSound kept
