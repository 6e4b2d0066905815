-- ===== src/Chunks/Manager/Coherent.antt =====
-- Coherence: what the two caches hold for a chunk is that chunk of the file on the Drive. A
-- download returns the chunk, whichever cache or the API it comes from, and keeps this.
use fusedrive_filesystem.Base.{
  refl, slice_past, leb, some-inj, Option-cases, slice-min, lookup-insert, arith, Bool-cases, ◌-◌,
  min, ap, inr, inl, if◌then◌else◌, text_eq, pair_eq, nat_eq, some, length, ◌+◌, ◌∙◌, lookup, ◌==◌,
  ◌<◌, ◌*◌, ◌≤◌, ◌≡◌, sym, slice, Dict, Bool, ℕ, Text,
}
use fusedrive_filesystem.Contracts.{ChunkSource, Outcome, returns}
use fusedrive_filesystem.Chunks.Eviction.{ChunkKey, Bytes, EvictionCache}
use fusedrive_filesystem.Chunks.Eviction.Invariant.{IsSound, put-IsSound, get-IsSound}
use fusedrive_filesystem.Chunks.Eviction.Order.{lookup-put, get_lem}
use fusedrive_filesystem.Chunks.Manager.Download.{
  Settings, State, cache_get, cache_put, read_chunk_from_disk_cache, write_chunk_to_disk_cache,
  fetch_from_api, fetch_after_miss, download_locked, download_chunk_from_drive_api, skips_disk,
}

-- The client answers every request for a range that lies in the file.
abbrev pub Serves : ChunkSource → (Text → Bytes) → Type 0
Serves storage content =
    (file_id : Text) (start end : ℕ)
    → start ≤ end
    → end < length (content file_id)
    → storage.download_file_chunk_from_api file_id start end
      ≡ some (slice start (end + 1) (content file_id))

-- The bytes of a chunk: none, past the end of the file.
abbrev pub chunk_of : ℕ → (Text → Bytes) → ChunkKey → Bytes
chunk_of chunk_size content key =
    slice (key.1 * chunk_size) (key.1 * chunk_size + chunk_size) (content key.0)

pub record IsCoherent (chunk_size : ℕ) (content : Text → Bytes) (memory : EvictionCache)
    (disk : Dict ChunkKey Bytes) : Type 0 where
  pub sound : IsSound memory
  pub in_memory :
      (k : ChunkKey) (b : Bytes)
      → lookup k memory.cache ≡ some b
      → b ≡ chunk_of chunk_size content k
  pub on_disk :
      (k : ChunkKey) (b : Bytes) → lookup k disk ≡ some b → b ≡ chunk_of chunk_size content k

module _ (env : Settings) (content : Text → Bytes) where
  open env use {chunk_size, storage}

  abbrev pub Coherent : State → Type 0
  Coherent s = IsCoherent chunk_size content s.memory s.disk

  -- What a download owes: the chunk, and caches that are still coherent.
  abbrev pub Obtains : ChunkKey → Outcome Bytes × State → Type 0
  Obtains key (o, s) = (o ≡ returns (chunk_of chunk_size content key)) × Coherent s

  -- What is found after a chunk has been stored is the chunk that was stored, or was there.
  stored :
      (d : Dict ChunkKey Bytes) (key k : ChunkKey) (b w : Bytes)
      → ((k : ChunkKey) (b : Bytes) → lookup k d ≡ some b → b ≡ chunk_of chunk_size content k)
      → b ≡ chunk_of chunk_size content key
      → (if key == k then some b else lookup k d) ≡ some w
      → w ≡ chunk_of chunk_size content k
  stored d key k b w held e q = elim (Bool-cases (key == k)) [
    | inl same ↦
        let there : key ≡ k = (pair_eq.beq_iff key k).0 same in
        let here : some b ≡ some w = rw same at q in
        sym (some-inj here) ∙ e ∙ ap (chunk_of chunk_size content) there
    | inr other ↦ held k w (rw other at q)
  ]

  pub cache_put-Coherent :
      (key : ChunkKey) (b : Bytes) (p : Bool) (s : State)
      → Coherent s
      → b ≡ chunk_of chunk_size content key
      → Coherent (cache_put key b p s)
  unfolding cache_put
  cache_put-Coherent key b p s h e = record {
    sound = (put-IsSound key b p s.memory s.metrics h.sound).0;
    in_memory = λ k w found.
        stored s.memory.cache key k b w h.in_memory e
          (lookup-put k key b w p s.memory s.metrics h.sound found);
    on_disk = h.on_disk;
  }

  pub cache_get-Coherent : (key : ChunkKey) (s : State) → Coherent s → Coherent (cache_get key s).1
  unfolding cache_get
  cache_get-Coherent key s h = record {
    sound = get-IsSound key s.memory s.metrics h.sound;
    in_memory = λ k w found. h.in_memory k w (sym ((get_lem key s.memory s.metrics).2 k) ∙ found);
    on_disk = h.on_disk;
  }

  write-Coherent :
      (key : ChunkKey) (b : Bytes) (s : State)
      → Coherent s
      → b ≡ chunk_of chunk_size content key
      → Coherent (write_chunk_to_disk_cache env key b s)
  unfolding write_chunk_to_disk_cache
  write-Coherent key b s h e = elim (Bool-cases (skips_disk env key.0)) [
    | inl skips ↦ rw skips h
    | inr keeps ↦ elim (Bool-cases (env.write_fails key)) [
      | inl fails ↦ rw (keeps, fails) h
      | inr writes ↦
          rw (keeps, writes)
            (record {
              sound = h.sound;
              in_memory = h.in_memory;
              on_disk = λ k w found.
                  stored s.disk key k b w h.on_disk e (sym (lookup-insert k key b s.disk) ∙ found);
            })
    ]
  ]

  pub memory_hit :
      (key : ChunkKey) (b : Bytes) (s : State)
      → Coherent s
      → (cache_get key s).0 ≡ some b
      → b ≡ chunk_of chunk_size content key
  unfolding cache_get
  memory_hit key b s h hit = h.in_memory key b (sym (get_lem key s.memory s.metrics).0 ∙ hit)

  pub disk_hit :
      (key : ChunkKey) (b : Bytes) (s : State)
      → Coherent s
      → read_chunk_from_disk_cache env key s ≡ some b
      → b ≡ chunk_of chunk_size content key
  unfolding read_chunk_from_disk_cache
  disk_hit key b s h hit = h.on_disk key b (ground arith)

  module _ (positive : 0 < chunk_size) (serves : Serves storage content) where
    -- The range that is asked for ends at the end of the chunk or of the file.
    requested :
        (key : ChunkKey)
        → key.1 * chunk_size < length (content key.0)
        → let start = key.1 * chunk_size in
          storage.download_file_chunk_from_api key.0 start
            (min (start + chunk_size - 1) (length (content key.0) - 1))
          ≡ some (chunk_of chunk_size content key)
    requested key inside =
        let start : ℕ = key.1 * chunk_size in
        let total : ℕ = length (content key.0) in
        let end : ℕ = min (start + chunk_size - 1) (total - 1) in
        serves key.0 start end (omega arith) (omega arith)
        ∙ ap some (
            ap (λ n. slice start n (content key.0))
              (let e : end + 1 ≡ min (start + chunk_size) total = omega arith in e)
            ∙ slice-min start (start + chunk_size) (content key.0))

    fetch_from_api-Obtains :
        (key : ChunkKey) (total_size : ℕ) (p : Bool) (s : State)
        → total_size ≡ length (content key.0)
        → key.1 * chunk_size < total_size
        → Coherent s
        → Obtains key (fetch_from_api env key total_size p s)
    unfolding fetch_from_api
    fetch_from_api-Obtains key total_size p s size inside h =
        rw (size, fetch_from_api, requested key (rw size at inside))
          (refl, write-Coherent key _ _ (cache_put-Coherent key _ p _ h refl) refl)

    pub fetch_after_miss-Obtains :
        (key : ChunkKey) (total_size : ℕ) (p : Bool) (s : State)
        → total_size ≡ length (content key.0)
        → key.1 * chunk_size < total_size
        → Coherent s
        → Obtains key (fetch_after_miss env key total_size p s)
    unfolding fetch_after_miss
    fetch_after_miss-Obtains key total_size p s size inside h =
        elim (Option-cases (read_chunk_from_disk_cache env key s)) [
          | inl miss ↦
              rw (fetch_after_miss, miss) (fetch_from_api-Obtains key total_size p s size inside h)
          | inr (b, hit) ↦
              let same = disk_hit key b s h hit in
              rw (fetch_after_miss, hit) (ap returns same, cache_put-Coherent key b p s h same)
        ]

    download_locked-Obtains :
        (key : ChunkKey) (total_size : ℕ) (p : Bool) (s : State)
        → total_size ≡ length (content key.0)
        → key.1 * chunk_size < total_size
        → Coherent s
        → Obtains key (download_locked env key total_size p s)
    unfolding download_locked
    download_locked-Obtains key total_size p s size inside h =
        let touched = cache_get-Coherent key s h in
        elim (Option-cases (cache_get key s).0) [
          | inl miss ↦
              rw (download_locked, miss)
                (fetch_after_miss-Obtains key total_size p (cache_get key s).1 size inside touched)
          | inr (b, hit) ↦
              rw (download_locked, hit) (ap returns (memory_hit key b s h hit), touched)
        ]

    -- With a chunk size above 0, a storage client that serves the contents, the size that the file
    -- has and coherent caches, `download_chunk_from_drive_api` returns the bytes of the chunk
    -- (none past the end of the file) and leaves the caches coherent.
    pub download-Obtains :
        (key : ChunkKey) (total_size : ℕ) (p : Bool) (s : State)
        → total_size ≡ length (content key.0)
        → Coherent s
        → Obtains key (download_chunk_from_drive_api env key total_size p s)
    unfolding download_chunk_from_drive_api
    download-Obtains key total_size p s size h =
        elim (Bool-cases (leb total_size (key.1 * chunk_size))) [
          | inl past ↦ rw past (ap returns (sym (slice_past _ _ (content key.0) (ground arith))), h)
          | inr inside ↦
              rw inside (download_locked-Obtains key total_size p _ size (ground arith) h)
        ]
