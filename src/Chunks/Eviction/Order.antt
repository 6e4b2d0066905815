-- ===== src/Chunks/Eviction/Order.antt =====
-- What is evicted: the least recently used chunks, and no more of them than the bounds ask for.
use fusedrive_filesystem.Base.{
  if◌then◌else◌, ℕ, nat_eq, text_eq, pair_eq, ◌≤◌, ◌≡◌, refl, ap, sym, subst, ◌∙◌, ◌==◌, Dict, Bool,
  true, some, List, [], ◌∷◌, ◌++◌, arith, length, length-append, lookup, insert, erase, Distinct,
  erase_absent, Option-cases, Bool-cases, inl, inr, move_to_end, lookup-append_new,
  move_to_end-insert_new, lookup-move_to_end, lookup-erase, total_length, absent_before_append,
  append-Distinct, erase-Distinct, lookup-append_ne, lookup-append_right, move_to_end_absent,
  lookup-erase_self,
}
use fusedrive_filesystem.Base.Int.{pos}
use fusedrive_filesystem.Metrics.{MetricsRegistry}
use fusedrive_filesystem.Chunks.Eviction.{
  ChunkKey, Bytes, EvictionCache, get, evict_from, over_limit, evict_oldest, count_eviction,
  evict_if_needed, forget, store, put,
}
use fusedrive_filesystem.Chunks.Eviction.Invariant.{
  IsSound, evict_oldest-IsSound, store-IsSound, put-IsSound,
}

-- The chunks, oldest first, as `put` has them before it evicts: the key moves to the end.
abbrev pub touched : ChunkKey → Bytes → Dict ChunkKey Bytes → Dict ChunkKey Bytes
touched k v d = erase k d ++ (k, v) ∷ []

-- `kept` is what is left of `before` when the fewest possible chunks are dropped from its front
-- to meet both bounds.
pub record IsTrimmed (max_chunks max_bytes : ℕ) (before kept : Dict ChunkKey Bytes) : Type 0 where
  pub dropped : Dict ChunkKey Bytes
  pub split : before ≡ dropped ++ kept
  pub longest :
      (front back : Dict ChunkKey Bytes)
      → before ≡ front ++ back
      → length back ≤ max_chunks
      → total_length back ≤ max_bytes
      → length back ≤ length kept

over_of_large :
    (c : EvictionCache)
    → c.current_bytes ≡ pos (total_length c.cache)
    → over_limit c ≡ true
    → length c.cache ≤ c.max_chunks
    → total_length c.cache ≤ c.max_memory_bytes
    → ⊥
unfolding over_limit
over_of_large c h over few small = let g = rw h at over in ground arith

tail_eq {ℓ} : {A : Type ℓ} {x y : A} {xs ys : List A} → x ∷ xs ≡ y ∷ ys → xs ≡ ys
tail_eq h = cc

-- A suffix that meets the bounds is not the whole of a list that does not.
longest_step :
    (c : EvictionCache) (key : ChunkKey) (val : Bytes) (rest : Dict ChunkKey Bytes) (kept : ℕ)
    → IsSound (record c { cache = (key, val) ∷ rest })
    → over_limit (record c { cache = (key, val) ∷ rest }) ≡ true
    → (front back : Dict ChunkKey Bytes) → (key, val) ∷ rest ≡ front ++ back
    → length back ≤ c.max_chunks
    → total_length back ≤ c.max_memory_bytes
    → ((front back : Dict ChunkKey Bytes)
        → rest ≡ front ++ back
        → length back ≤ c.max_chunks
        → total_length back ≤ c.max_memory_bytes
        → length back ≤ kept)
    → length back ≤ kept
longest_step c key val rest kept h over [] back e few small later =
    let few' = ap length e in
    let small' = ap total_length e in
    absurd (
      over_of_large (record c { cache = (key, val) ∷ rest }) h.accounted over (omega arith)
        (omega arith))
longest_step c key val rest kept h over (x ∷ front) back e few small later =
    later front back (tail_eq e) few small

pub evict_from-IsTrimmed :
    (l : Dict ChunkKey Bytes) (c : EvictionCache) (m : MetricsRegistry)
    → IsSound (record c { cache = l })
    → IsTrimmed c.max_chunks c.max_memory_bytes l (evict_from l c m).0.cache
unfolding evict_from evict_oldest
evict_from-IsTrimmed [] c m h = record {
  dropped = [];
  split = refl;
  longest =
      λ front back e few small. let n = ap length e in omega (arith, n, length-append front back);
}
evict_from-IsTrimmed ((key, val) ∷ rest) c m h =
    elim (Bool-cases (over_limit (record c { cache = (key, val) ∷ rest }))) [
      | inl over ↦
          let later =
            evict_from-IsTrimmed rest (evict_oldest key val rest c) (count_eviction key c m)
              (evict_oldest-IsSound key val rest c h) in
          rw over (record {
            dropped = (key, val) ∷ later.dropped;
            split = ap (λ d. (key, val) ∷ d) later.split;
            longest = λ front back e few small.
                longest_step c key val rest _ h over front back e few small later.longest;
          })
      | inr fits ↦ rw fits (record {
        dropped = [];
        split = refl;
        longest = λ front back e few small.
            let n = ap length e in omega (arith, n, length-append front back);
      })
    ]

store-limits :
    (k : ChunkKey) (v : Bytes) (p : Bool) (c : EvictionCache)
    → ((store k v p c).max_chunks ≡ c.max_chunks)
      × ((store k v p c).max_memory_bytes ≡ c.max_memory_bytes)
unfolding store forget
store-limits k v p c = ground arith

pub store_lem :
    (k : ChunkKey) (v : Bytes) (p : Bool) (c : EvictionCache)
    → (store k v p c).cache ≡ touched k v c.cache
unfolding store
store_lem k v p c = elim (Option-cases (lookup k c.cache)) [
  | inl absent ↦ rw absent (
      move_to_end-insert_new k v c.cache absent
      ∙ ap (λ d. d ++ (k, v) ∷ []) (sym (erase_absent k c.cache absent)))
  | inr (w, present) ↦ rw present forgotten
]
  where
    forgotten : move_to_end k (insert k v (forget k c).cache) ≡ touched k v c.cache
    forgotten =
        unfold forget in move_to_end-insert_new k v (erase k c.cache) (lookup-erase_self k c.cache)

-- From a sound cache, what `put` keeps is an end of the list that has the new chunk last and the
-- others in their order, and no longer end of that list meets both bounds: the least recently used
-- chunks are dropped, and the fewest of them.
pub put-IsTrimmed :
    (k : ChunkKey) (v : Bytes) (p : Bool) (c : EvictionCache) (m : MetricsRegistry)
    → IsSound c
    → IsTrimmed c.max_chunks c.max_memory_bytes (touched k v c.cache) (put k v p c m).0.cache
unfolding put evict_if_needed
put-IsTrimmed k v p c m h =
    let s : EvictionCache = store k v p c in
    let kept : Dict ChunkKey Bytes = (evict_from s.cache s m).0.cache in
    let (chunks, bytes) = store-limits k v p c in
    subst (λ n. IsTrimmed n c.max_memory_bytes (touched k v c.cache) kept) chunks
      (subst (λ n. IsTrimmed s.max_chunks n (touched k v c.cache) kept) bytes
        (subst (λ d. IsTrimmed s.max_chunks s.max_memory_bytes d kept) (store_lem k v p c)
          (evict_from-IsTrimmed s.cache s m (store-IsSound k v p c h))))

last_kept {ℓ} :
    {A : Type ℓ} (front back d : List A) (x : A)
    → front ++ back ≡ d ++ x ∷ []
    → 1 ≤ length back
    → (d' : List A) × (back ≡ d' ++ x ∷ [])
last_kept [] back d x e n = (d, e)
last_kept (y ∷ front) back [] x e n =
    let m = ap length e in absurd (omega (arith, m, length-append front back))
last_kept (y ∷ front) back (z ∷ d) x e n = last_kept front back d x (tail_eq e) n

-- A trimmed list keeps its last entry, if that entry alone meets the bounds.
lookup-IsTrimmed :
    (mc mb : ℕ) (k : ChunkKey) (v : Bytes) (d kept : Dict ChunkKey Bytes)
    → IsTrimmed mc mb (d ++ (k, v) ∷ []) kept
    → Distinct kept
    → 1 ≤ mc
    → length v ≤ mb
    → lookup k kept ≡ some v
lookup-IsTrimmed mc mb k v d kept t h one fits =
    let some_left = t.longest d ((k, v) ∷ []) refl (omega arith) (omega arith) in
    let (front, e) = last_kept t.dropped kept d (k, v) (sym t.split) some_left in
    rw e (lookup-append_new k v front (absent_before_append k v front (rw e at h)))

-- In a sound cache with room for a chunk, a chunk that fits the bound in bytes is found again
-- right after `put`.
pub lookup-put_self :
    (k : ChunkKey) (v : Bytes) (p : Bool) (c : EvictionCache) (m : MetricsRegistry)
    → IsSound c
    → 1 ≤ c.max_chunks
    → length v ≤ c.max_memory_bytes
    → lookup k (put k v p c m).0.cache ≡ some v
lookup-put_self k v p c m h one fits =
    lookup-IsTrimmed c.max_chunks c.max_memory_bytes k v (erase k c.cache) _
      (put-IsTrimmed k v p c m h) (put-IsSound k v p c m h).0.distinct one fits

-- In a sound cache, what is found after `put` is what it stored, under its key, and what was there
-- before, under any other key.
pub lookup-put :
    (j k : ChunkKey) (v w : Bytes) (p : Bool) (c : EvictionCache) (m : MetricsRegistry)
    → IsSound c
    → lookup j (put k v p c m).0.cache ≡ some w
    → (if k == j then some v else lookup j c.cache) ≡ some w
lookup-put j k v w p c m h found = elim (Bool-cases (k == j)) [
  | inl same ↦
      let e = (pair_eq.beq_iff k j).0 same in
      rw same (
        sym (
          ap (λ q. lookup q (touched k v c.cache)) (sym e)
          ∙ lookup-append_new k v (erase k c.cache) (lookup-erase_self k c.cache))
        ∙ before)
  | inr other ↦ rw other (
      sym (lookup-append_ne j k v (erase k c.cache) other ∙ lookup-erase j k c.cache ∙ rw other)
      ∙ before)
]
  where
    open (put-IsTrimmed k v p c m h) use {dropped, split}

    distinct : Distinct (touched k v c.cache)
    distinct =
        append-Distinct k v (erase k c.cache) (erase-Distinct k c.cache h.distinct)
          (lookup-erase_self k c.cache)

    before : lookup j (touched k v c.cache) ≡ some w
    before =
        subst (λ d. lookup j d ≡ some w) (sym split)
          (lookup-append_right j w dropped _ (subst Distinct split distinct) found)

-- `get` returns what is stored under the key, moves the key behind all others, and leaves what is
-- stored under every key.
pub get_lem :
    (k : ChunkKey) (c : EvictionCache) (m : MetricsRegistry)
    → ((get k c m).0 ≡ lookup k c.cache)
      × ((get k c m).1.cache ≡ move_to_end k c.cache)
      × ((j : ChunkKey) → lookup j (get k c m).1.cache ≡ lookup j c.cache)
unfolding get
get_lem k c m = elim (Option-cases (lookup k c.cache)) [
  | inl absent ↦ rw absent (refl, sym (move_to_end_absent k c.cache absent), λ j. refl)
  | inr (v, present) ↦
      rw present
        (lookup-move_to_end k k c.cache ∙ present, refl, λ j. lookup-move_to_end j k c.cache)
]
