-- ===== src/Chunks/Manager/Ranges.antt =====
-- `read_content_range_with_caching` returns the bytes of the file.
use fusedrive_filesystem.Chunks.Manager.Ahead.{prefetch_lem}
use fusedrive_filesystem.Chunks.Manager.Waiting.{obtain_chunk-Obtains}
use fusedrive_filesystem.Chunks.Manager.Pieces.{
  start-le-stop, start_chunk-bounds, stop_chunk-last, so_far-step, so_far,
}
use fusedrive_filesystem.Base.{
  subst, slice_past, sym, leb, beq_ne, Bool-cases, ◌/◌, ◌==◌, zero, suc, inl, inr, false, refl,
  length, slice-nil, ◌∙◌, ap, Bool, text_eq, pair_eq, nat_eq, arith, none, ◌≡◌, lookup, ◌-◌, ◌+◌,
  min, ◌<◌, ◌≤◌, slice, ◌*◌, ℕ, Text,
}
use fusedrive_filesystem.Contracts.{returns}
use fusedrive_filesystem.Chunks.Eviction.{ChunkKey, Bytes}
use fusedrive_filesystem.Chunks.Manager.Download.{Settings, State}
use fusedrive_filesystem.Chunks.Manager.Schedule.{prefetch}
use fusedrive_filesystem.Chunks.Manager.Read.{
  recent_of, is_sequential, stop_chunk, obtain_chunk, piece_of, read_chunks, read_ahead,
  read_content_range_with_caching, note_recent,
}
use fusedrive_filesystem.Chunks.Manager.Coherent.{Serves, Coherent}

-- No download of these chunks of the file is under way.
abbrev pub NoDownloads : Text → ℕ → ℕ → State → Type 0
NoDownloads file_id first stop s =
    (i : ℕ) → first ≤ i → i < stop → lookup (file_id, i) s.active_downloads ≡ none

module _ (env : Settings) where
  open env use {chunk_size, storage}

  module _ (content : Text → Bytes) (positive : 0 < chunk_size)
      (serves : Serves storage content) where
    -- The loop: with the chunks below `i` read, the rest of the rounds read the rest of the range.
    read_chunks-lem :
        (file_id : Text) (offset len total_size rounds i stop : ℕ) (s : State)
        → total_size ≡ length (content file_id)
        → i + rounds ≡ stop
        → ((j : ℕ) → j < stop → j * chunk_size < offset + len)
        → (stop * chunk_size < offset + len → ⊥)
        → offset < (i + 1) * chunk_size
        → NoDownloads file_id i stop s
        → Coherent env content s
        → let (o, t) =
            read_chunks env file_id offset len total_size rounds i
              (so_far chunk_size offset (offset + len) (content file_id) i)
              s in
          (o ≡ returns (slice offset (offset + len) (content file_id))) × Coherent env content t
    unfolding read_chunks piece_of
    read_chunks-lem file_id offset len total_size zero i stop s size n inside last after quiet h =
        let ends = ap (λ (k : ℕ). k * chunk_size) n in
        (
          ap returns (
              ap (λ e. slice offset e (content file_id))
                (let e : min (i * chunk_size) (offset + len) ≡ offset + len = omega arith in e)),
          h,
        )
    read_chunks-lem file_id offset len total_size (suc rounds) i stop s size n inside last after
          quiet h =
        let key : ChunkKey = (file_id, i) in
        let ((o, coherent), settles) =
          obtain_chunk-Obtains env content positive serves key total_size s size
            (quiet i (omega arith) (omega arith)) h in
        let step =
          so_far-step chunk_size offset (offset + len) (content file_id) i (inside i (omega arith))
            after in
        rw (read_chunks, o, step)
          (read_chunks-lem file_id offset len total_size rounds (i + 1) stop
            (obtain_chunk env key total_size s).1 size (omega arith) inside last (omega arith)
            (λ j low high. settles (file_id, j) (quiet j (omega arith) high)) coherent)

abbrev same_key : ChunkKey → ChunkKey → Bool
same_key a b = a == b

key_ne : (file_id : Text) (i j : ℕ) → i < j → same_key (file_id, j) (file_id, i) ≡ false
key_ne file_id i j h =
    let a : ChunkKey = (file_id, j) in
    let b : ChunkKey = (file_id, i) in
    beq_ne a b (λ (e : a ≡ b). let n = ap (λ (k : ChunkKey). k.1) e in omega arith)

read_ahead-quiet :
    (env : Settings) (file_id : Text) (offset len total_size : ℕ) (s : State) (first : ℕ)
    → let stop = stop_chunk (offset + len) env.chunk_size in
      let t = read_ahead env file_id offset len total_size s in
      (NoDownloads file_id first stop s → NoDownloads file_id first stop t)
      × (t.memory ≡ s.memory)
      × (t.disk ≡ s.disk)
unfolding read_ahead note_recent
read_ahead-quiet env file_id offset len total_size s first =
    elim (Bool-cases (is_sequential (offset / env.chunk_size) (recent_of file_id s))) [
      | inr random ↦ rw random (λ quiet. quiet, refl, refl)
      | inl ahead ↦ rw ahead (
        λ quiet i low high.
            (prefetch_lem second (file_id, i) total_size after).0
              (key_ne file_id i (stop + 1) (omega arith))
            ∙ (prefetch_lem one (file_id, i) total_size s).0 (key_ne file_id i stop high)
            ∙ quiet i low high,
        (prefetch_lem second second total_size after).1 ∙ (prefetch_lem one one total_size s).1,
        (prefetch_lem second second total_size after).2 ∙ (prefetch_lem one one total_size s).2,
      )
    ]
  where
    stop : ℕ
    stop = stop_chunk (offset + len) env.chunk_size

    one : ChunkKey
    one = (file_id, stop)

    second : ChunkKey
    second = (file_id, stop + 1)

    after : State
    after = prefetch one total_size s

-- With a chunk size above 0, a storage client that serves the contents of the files, the size that
-- the file has, caches that are coherent with the contents and no download under way for a chunk
-- of the range, `read_content_range_with_caching` returns the bytes of the file from `offset` to
-- `offset + length` (cut at the end of the file, none from behind it), and leaves the caches
-- coherent.
pub read-Obtains :
    (env : Settings) (content : Text → Bytes)
    → 0 < env.chunk_size
    → Serves env.storage content
    → (file_id : Text) (offset len total_size : ℕ) (s : State)
    → total_size ≡ length (content file_id)
    → NoDownloads file_id (offset / env.chunk_size) (stop_chunk (offset + len) env.chunk_size) s
    → Coherent env content s
    → let (o, t) = read_content_range_with_caching env file_id offset len total_size s in
      (o ≡ returns (slice offset (offset + len) (content file_id))) × Coherent env content t
unfolding read_content_range_with_caching
read-Obtains env content positive serves file_id offset len total_size s size quiet h =
    elim (Bool-cases (leb total_size offset)) [
      | inl past ↦
          rw past (ap returns (sym (slice_past offset _ (content file_id) (ground arith))), h)
      | inr inside ↦ rw inside (
          subst
            (λ acc.
              let (o, t) =
                read_chunks env file_id offset len total_size (stop - start) start acc after in
              (o ≡ returns (slice offset (offset + len) (content file_id)))
              × Coherent env content t)
            (slice-nil offset (min (start * env.chunk_size) (offset + len)) (content file_id)
              (omega (arith, bounds)))
            (read_chunks-lem env content positive serves file_id offset len total_size
              (stop - start) start stop after size (omega (arith, before)) limits.0
              (λ beyond. omega (arith, limits)) bounds.1 (kept.0 quiet) (rw (kept.1, kept.2) h)))
    ]
  where
    start : ℕ
    start = offset / env.chunk_size

    stop : ℕ
    stop = stop_chunk (offset + len) env.chunk_size

    after : State
    after = read_ahead env file_id offset len total_size s

    limits :
        ((j : ℕ) → j < stop → j * env.chunk_size < offset + len)
        × (offset + len ≤ stop * env.chunk_size)
    limits = stop_chunk-last (offset + len) env.chunk_size positive

    bounds : (start * env.chunk_size ≤ offset) × (offset < (start + 1) * env.chunk_size)
    bounds = start_chunk-bounds offset env.chunk_size positive

    before : start ≤ stop
    before =
        start-le-stop offset env.chunk_size start stop positive bounds.0 (omega (arith, limits))

    kept :
        (NoDownloads file_id start stop s → NoDownloads file_id start stop after)
        × (after.memory ≡ s.memory)
        × (after.disk ≡ s.disk)
    kept = read_ahead-quiet env file_id offset len total_size s start
