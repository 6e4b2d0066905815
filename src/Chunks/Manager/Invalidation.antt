-- ===== src/Chunks/Manager/Invalidation.antt =====
-- `invalidate_file_chunks_cache` forgets the file and nothing else.
use fusedrive_filesystem.Base.{
  ◌+◌, ◌*◌, slice, mem-keys, ◌&&◌, not, Bool, refl, arith, [], ◌∷◌, List, erase_absent, Text,
  text_eq, nat_eq, Bool-cases, lookup-erase, Option-cases, inr, ◌∙◌, pair_eq, sym, ap, inl, false,
  ◌⊎◌, true, none, keys, some, ◌==◌, if◌then◌else◌, Dict, ◌≡◌, mem, lookup,
}
use fusedrive_filesystem.Metrics.{MetricsRegistry}
use fusedrive_filesystem.Chunks.Eviction.{ChunkKey, Bytes, EvictionCache, invalidate, forget, iter}
use fusedrive_filesystem.Chunks.Eviction.Invariant.{IsSound, invalidate-IsSound}
use fusedrive_filesystem.Chunks.Manager.Download.{Settings, State}
use fusedrive_filesystem.Chunks.Manager.Read.{
  invalidate_keys, remove_directory, invalidate_file_chunks_cache,
}
use fusedrive_filesystem.Chunks.Manager.Coherent.{Coherent, chunk_of}

lookup-invalidate :
    (j k : ChunkKey) (c : EvictionCache) (m : MetricsRegistry)
    → lookup j (invalidate k c m).0.cache ≡ (if k == j then none else lookup j c.cache)
unfolding invalidate forget
lookup-invalidate j k c m = elim (Option-cases (lookup k c.cache)) [
  | inr (v, present) ↦ rw present (lookup-erase j k c.cache)
  | inl absent ↦
      rw absent (sym (ap (lookup j) (erase_absent k c.cache absent)) ∙ lookup-erase j k c.cache)
]

same_file : (f : Text) (j k : ChunkKey) → (k == j) ≡ true → (k.0 == f) ≡ (j.0 == f)
same_file f j k h = ap (λ (q : ChunkKey). q.0 == f) ((pair_eq.beq_iff k j).0 h)

other_file : (f : Text) (j k : ChunkKey) → (j.0 == f) ≡ false → (k.0 == f) ≡ true → (k == j) ≡ false
other_file f j k h mine = elim (Bool-cases (k == j)) [
  | inl same ↦ let e = same_file f j k same in cc
  | inr other ↦ other
]

-- The loop over the keys: an absent chunk stays absent, a chunk of another file stays as it is, and
-- a listed chunk of the file goes.
invalidate_keys-absent :
    (f : Text) (j : ChunkKey) (ks : List ChunkKey) (s : State)
    → lookup j s.memory.cache ≡ none
    → lookup j (invalidate_keys f ks s).memory.cache ≡ none
unfolding invalidate_keys
invalidate_keys-absent f j [] s h = h
invalidate_keys-absent f j (k ∷ ks) s h =
    invalidate_keys-absent f j ks _ (once (Bool-cases (k.0 == f)))
  where
    after : EvictionCache × MetricsRegistry
    after = invalidate k s.memory s.metrics

    once :
        ((k.0 == f) ≡ true) ⊎ ((k.0 == f) ≡ false)
        → lookup j
            (if k.0 == f then record s { memory = after.0; metrics = after.1 } else s).memory.cache
          ≡ none
    once (inl mine) = rw mine (lookup-invalidate j k s.memory s.metrics ∙ ground arith)
    once (inr other) = rw other h

invalidate_keys-other :
    (f : Text) (j : ChunkKey) (ks : List ChunkKey) (s : State)
    → (j.0 == f) ≡ false
    → lookup j (invalidate_keys f ks s).memory.cache ≡ lookup j s.memory.cache
unfolding invalidate_keys
invalidate_keys-other f j [] s h = refl
invalidate_keys-other f j (k ∷ ks) s h =
    invalidate_keys-other f j ks _ h ∙ once (Bool-cases (k.0 == f))
  where
    after : EvictionCache × MetricsRegistry
    after = invalidate k s.memory s.metrics

    once :
        ((k.0 == f) ≡ true) ⊎ ((k.0 == f) ≡ false)
        → lookup j
            (if k.0 == f then record s { memory = after.0; metrics = after.1 } else s).memory.cache
          ≡ lookup j s.memory.cache
    once (inl mine) =
        rw mine (lookup-invalidate j k s.memory s.metrics ∙ rw (other_file f j k h mine))
    once (inr other) = rw other

invalidate_keys-listed :
    (f : Text) (j : ChunkKey) (ks : List ChunkKey) (s : State)
    → (j.0 == f) ≡ true
    → mem j ks ≡ true
    → lookup j (invalidate_keys f ks s).memory.cache ≡ none
unfolding invalidate_keys mem
invalidate_keys-listed f j [] s h m = cc
invalidate_keys-listed f j (k ∷ ks) s h m = elim (Bool-cases (k == j)) [
  | inl here ↦
      rw (invalidate_keys, same_file f j k here ∙ h)
        (invalidate_keys-absent f j ks _ (lookup-invalidate j k s.memory s.metrics ∙ rw here))
  | inr later ↦ invalidate_keys-listed f j ks _ h (rw later at m)
]

lookup-remove_directory :
    (f : Text) (j : ChunkKey) (d : Dict ChunkKey Bytes)
    → lookup j (remove_directory f d) ≡ (if j.0 == f then none else lookup j d)
unfolding remove_directory lookup
lookup-remove_directory f j [] = ground arith
lookup-remove_directory f j (x ∷ d) =
    ground (arith, lookup-remove_directory f j d, same_file f j x.0)

invalidate_keys-IsSound :
    (f : Text) (ks : List ChunkKey) (s : State)
    → IsSound s.memory
    → IsSound (invalidate_keys f ks s).memory
unfolding invalidate_keys
invalidate_keys-IsSound f [] s h = h
invalidate_keys-IsSound f (k ∷ ks) s h = elim (Bool-cases (k.0 == f)) [
  | inl mine ↦
      rw (invalidate_keys, mine)
        (invalidate_keys-IsSound f ks _ (invalidate-IsSound k s.memory s.metrics h))
  | inr other ↦ rw (invalidate_keys, other) (invalidate_keys-IsSound f ks s h)
]

invalidate_keys-disk :
    (f : Text) (ks : List ChunkKey) (s : State) → (invalidate_keys f ks s).disk ≡ s.disk
unfolding invalidate_keys
invalidate_keys-disk f [] s = refl
invalidate_keys-disk f (k ∷ ks) s = elim (Bool-cases (k.0 == f)) [
  | inl mine ↦ rw (invalidate_keys, mine) (invalidate_keys-disk f ks _)
  | inr other ↦ rw (invalidate_keys, other) (invalidate_keys-disk f ks s)
]

invalidate_keys_lem :
    (f : Text) (j : ChunkKey) (s : State)
    → lookup j (invalidate_keys f (keys s.memory.cache) s).memory.cache
      ≡ (if j.0 == f then none else lookup j s.memory.cache)
invalidate_keys_lem f j s = elim (Bool-cases (j.0 == f)) [
  | inr other ↦ rw other (invalidate_keys-other f j (keys s.memory.cache) s other)
  | inl mine ↦ rw mine (gone mine)
]
  where
    gone :
        (j.0 == f) ≡ true → lookup j (invalidate_keys f (keys s.memory.cache) s).memory.cache ≡ none
    gone mine = elim (Option-cases (lookup j s.memory.cache)) [
      | inl absent ↦ invalidate_keys-absent f j (keys s.memory.cache) s absent
      | inr (b, held) ↦
          invalidate_keys-listed f j (keys s.memory.cache) s mine (mem-keys j b s.memory.cache held)
    ]

-- After `invalidate_file_chunks_cache` memory has no chunk of the file, the disk has none unless
-- its directory could not be removed, and every chunk of another file is where it was.
pub lookup-invalidate_file :
    (fails : Bool) (f : Text) (j : ChunkKey) (s : State)
    → let t = invalidate_file_chunks_cache fails f s in
      (lookup j t.memory.cache ≡ (if j.0 == f then none else lookup j s.memory.cache))
      × (lookup j t.disk ≡ (if not fails && j.0 == f then none else lookup j s.disk))
unfolding invalidate_file_chunks_cache iter
lookup-invalidate_file true f j s =
    (invalidate_keys_lem f j s, ap (lookup j) (invalidate_keys-disk f (keys s.memory.cache) s))
lookup-invalidate_file false f j s = (
  invalidate_keys_lem f j s,
  lookup-remove_directory f j (invalidate_keys f (keys s.memory.cache) s).disk
      ∙ ap (λ d. if j.0 == f then none else lookup j d)
          (invalidate_keys-disk f (keys s.memory.cache) s),
)

kept_lookup :
    (f : Text) (j : ChunkKey) (b : Bytes) (d : Dict ChunkKey Bytes)
    → (if j.0 == f then none else lookup j d) ≡ some b
    → ((j.0 == f) ≡ false) × (lookup j d ≡ some b)
kept_lookup f j b d h = elim (Bool-cases (j.0 == f)) [
  | inl mine ↦ let e : none ≡ some b = rw mine at h in cc
  | inr other ↦ (other, rw other at h)
]

-- When the contents of one file change, those of no other file do, and the chunks of that file are
-- invalidated (its directory being removed), caches that were coherent with the old contents are
-- coherent with the new ones.
pub invalidate-Coherent :
    (env : Settings) (before after : Text → Bytes) (f : Text) (s : State)
    → ((g : Text) → (g == f) ≡ false → after g ≡ before g)
    → Coherent env before s
    → Coherent env after (invalidate_file_chunks_cache false f s)
invalidate-Coherent env before after f s same h = record {
  sound =
      unfold invalidate_file_chunks_cache iter in
      invalidate_keys-IsSound f (keys s.memory.cache) s h.sound;
  in_memory = λ j b found.
      let (other, held) =
        kept_lookup f j b s.memory.cache (sym (lookup-invalidate_file false f j s).0 ∙ found) in
      h.in_memory j b held ∙ unchanged j other;
  on_disk = λ j b found.
      let (other, held) =
        kept_lookup f j b s.disk (sym (lookup-invalidate_file false f j s).1 ∙ found) in
      h.on_disk j b held ∙ unchanged j other;
}
  where
    unchanged :
        (j : ChunkKey)
        → (j.0 == f) ≡ false
        → chunk_of env.chunk_size before j ≡ chunk_of env.chunk_size after j
    unchanged j other =
        ap (slice (j.1 * env.chunk_size) (j.1 * env.chunk_size + env.chunk_size))
          (sym (same j.0 other))
