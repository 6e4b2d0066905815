-- ===== src/Chunks/Eviction/Invariant.antt =====
-- What holds of the eviction cache after every method: the byte count is the bytes held, and both
-- bounds are kept.
use fusedrive_filesystem.Base.{
  append-absent, length-erase-le, nat_eq, text_eq, pair_eq, ◌≤◌, ◌≡◌, refl, ap, sym, ◌∙◌, ◌==◌,
  Dict, Bool, true, false, none, some, [], ◌∷◌, ◌++◌, arith, length, lookup, insert, erase,
  contains, Distinct, lookup-insert, lookup-erase, erase-Distinct, if◌then◌else◌, Option-cases,
  Bool-cases, ◌⊎◌, inl, inr, move_to_end, append-Distinct, move_to_end-insert_new,
  lookup-move_to_end, move_to_end-Distinct, length-move_to_end, total_length, total_length-append,
  total_length-erase, total_length-move_to_end, lookup-erase_self,
}
use fusedrive_filesystem.Base.Int.{pos, ◌+ℤ◌, -ℤ_pos, +ℤ_pos}
use fusedrive_filesystem.Metrics.{MetricsRegistry}
use fusedrive_filesystem.Chunks.Eviction.{
  ChunkKey, Bytes, EvictionCache, get, evict_from, over_limit, evict_oldest, count_eviction,
  evict_if_needed, forget, store, put, invalidate,
}

-- Every key that is marked as prefetched is cached.
abbrev pub Tracks : Dict ChunkKey Bytes → Dict ChunkKey Bool → Type 0
Tracks d status = (k : ChunkKey) → lookup k d ≡ none → lookup k status ≡ none

pub record IsSound (c : EvictionCache) : Type 0 where
  pub distinct : Distinct c.cache
  pub accounted : c.current_bytes ≡ pos (total_length c.cache)
  pub tracked : Tracks c.cache c.prefetch_status

pub record IsWithin (c : EvictionCache) : Type 0 where
  pub few : length c.cache ≤ c.max_chunks
  pub small : total_length c.cache ≤ c.max_memory_bytes

lookup_tail :
    (j key : ChunkKey) (val : Bytes) (rest : Dict ChunkKey Bytes)
    → (key == j) ≡ false
    → lookup j ((key, val) ∷ rest) ≡ lookup j rest
unfolding lookup
lookup_tail j key val rest h = rw h

erased_mark :
    (j k : ChunkKey) (status : Dict ChunkKey Bool)
    → lookup j status ≡ none
    → lookup j (erase k status) ≡ none
erased_mark j k status h = lookup-erase j k status ∙ cases (k == j)
  where
    cases : (b : Bool) → (if b then none else lookup j status) ≡ none
    cases true = refl
    cases false = h

-- Dropping a key from the chunks and from the marks keeps every mark on a cached chunk.
erase-Tracks :
    (k : ChunkKey) (d : Dict ChunkKey Bytes) (status : Dict ChunkKey Bool)
    → Tracks d status
    → Tracks (erase k d) (erase k status)
erase-Tracks k d status h j absent = lookup-erase j k status ∙ cases (Bool-cases (k == j))
  where
    cases :
        ((k == j) ≡ true) ⊎ ((k == j) ≡ false) → (if k == j then none else lookup j status) ≡ none
    cases (inl same) = rw same
    cases (inr other) = rw other (h j (sym (lookup-erase j k d ∙ rw other) ∙ absent))

forget-IsSound : (k : ChunkKey) (c : EvictionCache) → IsSound c → IsSound (forget k c)
unfolding forget
forget-IsSound k c h = record {
  distinct = erase-Distinct k c.cache h.distinct;
  accounted =
      let held = total_length-erase k c.cache h.distinct in
      rw h.accounted (-ℤ_pos _ _ (omega (arith, held)) ∙ ap pos (omega (arith, held)));
  tracked = erase-Tracks k c.cache c.prefetch_status h.tracked;
}

pub evict_oldest-IsSound :
    (key : ChunkKey) (val : Bytes) (rest : Dict ChunkKey Bytes) (c : EvictionCache)
    → IsSound (record c { cache = (key, val) ∷ rest })
    → IsSound (evict_oldest key val rest c)
unfolding evict_oldest
evict_oldest-IsSound key val rest c h = record {
  distinct = h.distinct.1;
  accounted = rw h.accounted (-ℤ_pos _ _ (omega arith) ∙ ap pos (omega arith));
  tracked =
      λ j absent. lookup-erase j key c.prefetch_status ∙ cases j absent (Bool-cases (key == j));
}
  where
    cases :
        (j : ChunkKey)
        → lookup j rest ≡ none
        → ((key == j) ≡ true) ⊎ ((key == j) ≡ false)
        → (if key == j then none else lookup j c.prefetch_status) ≡ none
    cases j absent (inl same) = rw same
    cases j absent (inr other) = rw other (h.tracked j (lookup_tail j key val rest other ∙ absent))

IsWithin-of_not_over :
    (c : EvictionCache)
    → c.current_bytes ≡ pos (total_length c.cache)
    → over_limit c ≡ false
    → IsWithin c
unfolding over_limit
IsWithin-of_not_over c h fits = record {
  few = let g = rw h at fits in ground arith;
  small = let g = rw h at fits in ground arith;
}

-- The loop ends within both bounds.
pub evict_from-IsSound :
    (l : Dict ChunkKey Bytes) (c : EvictionCache) (m : MetricsRegistry)
    → IsSound (record c { cache = l })
    → IsSound (evict_from l c m).0 × IsWithin (evict_from l c m).0
unfolding evict_from evict_oldest
evict_from-IsSound [] c m h = (h, record { few = omega arith; small = omega arith })
evict_from-IsSound ((key, val) ∷ rest) c m h =
    elim (Bool-cases (over_limit (record c { cache = (key, val) ∷ rest }))) [
      | inl over ↦ rw over (
          evict_from-IsSound rest (evict_oldest key val rest c) (count_eviction key c m)
            (evict_oldest-IsSound key val rest c h))
      | inr fits ↦ rw fits (h, IsWithin-of_not_over _ h.accounted fits)
    ]

evict_if_needed-IsSound :
    (c : EvictionCache) (m : MetricsRegistry)
    → IsSound c
    → IsSound (evict_if_needed c m).0 × IsWithin (evict_if_needed c m).0
unfolding evict_if_needed
evict_if_needed-IsSound c m h = evict_from-IsSound c.cache c m h

-- `put` stores the chunk last, with the bytes and the marks in step.
pub cleared-IsSound :
    (k : ChunkKey) (c : EvictionCache)
    → IsSound c
    → let cleared = if contains k c.cache then forget k c else c in
      IsSound cleared × (lookup k cleared.cache ≡ none)
unfolding forget
cleared-IsSound k c h = elim (Option-cases (lookup k c.cache)) [
  | inl absent ↦ rw absent (h, absent)
  | inr (v, present) ↦ rw present (forget-IsSound k c h, lookup-erase_self k c.cache)
]

append-IsSound :
    (k : ChunkKey) (v : Bytes) (status : Dict ChunkKey Bool) (c : EvictionCache)
    → IsSound c
    → lookup k c.cache ≡ none
    → ((j : ChunkKey) → (k == j) ≡ false → lookup j status ≡ lookup j c.prefetch_status)
    → IsSound (record c {
      cache = c.cache ++ (k, v) ∷ [];
      prefetch_status = status;
      current_bytes = c.current_bytes +ℤ pos (length v);
    })
append-IsSound k v status c h absent same = record {
  distinct = append-Distinct k v c.cache h.distinct absent;
  accounted =
      rw h.accounted
        (+ℤ_pos _ _ ∙ ap pos (omega (arith, total_length-append c.cache ((k, v) ∷ []))));
  tracked = λ j gone.
      let (before, other) = append-absent j k v c.cache gone in same j other ∙ h.tracked j before;
}

mark_other :
    (k : ChunkKey) (is_prefetch : Bool) (status : Dict ChunkKey Bool) (j : ChunkKey)
    → (k == j) ≡ false
    → lookup j (if is_prefetch then insert k true status else status) ≡ lookup j status
mark_other k true status j h = lookup-insert j k true status ∙ rw h
mark_other k false status j h = refl

pub store-IsSound :
    (k : ChunkKey) (v : Bytes) (p : Bool) (c : EvictionCache) → IsSound c → IsSound (store k v p c)
unfolding store
store-IsSound k v p c h =
    let cleared : EvictionCache = if contains k c.cache then forget k c else c in
    let (sound, absent) = cleared-IsSound k c h in
    rw (move_to_end-insert_new k v cleared.cache absent) (
      append-IsSound k v
        (if p then insert k true cleared.prefetch_status else cleared.prefetch_status) cleared sound
        absent (mark_other k p cleared.prefetch_status))

-- From a cache whose byte count is the bytes that it holds, whose keys are distinct and in which
-- only cached chunks are marked as prefetched, `put` leads to such a cache again, and to one that
-- keeps both bounds, in chunks and in bytes.
pub put-IsSound :
    (k : ChunkKey) (v : Bytes) (p : Bool) (c : EvictionCache) (m : MetricsRegistry)
    → IsSound c
    → IsSound (put k v p c m).0 × IsWithin (put k v p c m).0
unfolding put
put-IsSound k v p c m h = evict_if_needed-IsSound (store k v p c) m (store-IsSound k v p c h)

touched_mark :
    (j k : ChunkKey) (v : Bytes) (c : EvictionCache)
    → IsSound c
    → lookup k c.cache ≡ some v
    → lookup j (move_to_end k c.cache) ≡ none
    → lookup j (erase k c.prefetch_status) ≡ none
touched_mark j k v c h present gone =
    let absent = sym (lookup-move_to_end j k c.cache) ∙ gone in
    erased_mark j k c.prefetch_status (h.tracked j absent)

forget-IsWithin :
    (k : ChunkKey) (c : EvictionCache) → IsSound c → IsWithin c → IsWithin (forget k c)
unfolding forget
forget-IsWithin k c h w = record {
  few = omega (arith, length-erase-le k c.cache);
  small = omega (arith, total_length-erase k c.cache h.distinct);
}

pub get-IsSound :
    (k : ChunkKey) (c : EvictionCache) (m : MetricsRegistry) → IsSound c → IsSound (get k c m).1
unfolding get
get-IsSound k c m h = elim (Option-cases (lookup k c.cache)) [
  | inl absent ↦ rw absent h
  | inr (v, present) ↦ rw present (record {
    distinct = move_to_end-Distinct k c.cache h.distinct;
    accounted = h.accounted ∙ ap pos (sym (total_length-move_to_end k c.cache h.distinct));
    tracked = λ j gone. touched_mark j k v c h present gone;
  })
]

pub invalidate-IsSound :
    (k : ChunkKey) (c : EvictionCache) (m : MetricsRegistry)
    → IsSound c
    → IsSound (invalidate k c m).0
unfolding invalidate
invalidate-IsSound k c m h = elim (Option-cases (lookup k c.cache)) [
  | inl absent ↦ rw absent h
  | inr (v, present) ↦ rw present (forget-IsSound k c h)
]

get-IsWithin :
    (k : ChunkKey) (c : EvictionCache) (m : MetricsRegistry)
    → IsSound c
    → IsWithin c
    → IsWithin (get k c m).1
unfolding get
get-IsWithin k c m h w = elim (Option-cases (lookup k c.cache)) [
  | inl absent ↦ rw absent w
  | inr (v, present) ↦ rw present (record {
    few = rw (length-move_to_end k c.cache h.distinct) w.few;
    small = rw (total_length-move_to_end k c.cache h.distinct) w.small;
  })
]

invalidate-IsWithin :
    (k : ChunkKey) (c : EvictionCache) (m : MetricsRegistry)
    → IsSound c
    → IsWithin c
    → IsWithin (invalidate k c m).0
unfolding invalidate
invalidate-IsWithin k c m h w = elim (Option-cases (lookup k c.cache)) [
  | inl absent ↦ rw absent w
  | inr (v, present) ↦ rw present (forget-IsWithin k c h w)
]

-- From a sound cache that keeps both bounds, `get` and `invalidate` lead to such a cache again.
pub get-invalidate_keep :
    (k : ChunkKey) (c : EvictionCache) (m : MetricsRegistry)
    → IsSound c
    → IsWithin c
    → (IsSound (get k c m).1 × IsWithin (get k c m).1)
      × (IsSound (invalidate k c m).0 × IsWithin (invalidate k c m).0)
get-invalidate_keep k c m h w = (
  (get-IsSound k c m h, get-IsWithin k c m h w),
  (invalidate-IsSound k c m h, invalidate-IsWithin k c m h w),
)
