-- ===== src/Fuse/Handles/Sessions.antt =====
-- A handle through its life: `_ensure_downloaded`, then `write` and `read`.
use fusedrive_filesystem.Fuse.Handles.Bytes.{slice-write_at}
use fusedrive_filesystem.Contracts.{Outcome, returns-inj, raises-ne-returns, returns}
use fusedrive_filesystem.Base.{
  ◌&&◌, happly, if_false, if_true, ap, ◌∙◌, false, codes, starts_with, Text, refl, arith, subst,
  text_eq, nat_eq, lookup-insert_self, sym, Bool-cases, inr, inl, Option-cases, slice, ◌+◌, some,
  lookup, length, true, List, ℕ, ◌||◌, not, ◌≡◌,
}
use fusedrive_filesystem.Fuse.State.{
  bind_after, bind-returns, ◌>>=◌, files_of, Settings, State, OpenFile,
}
use fusedrive_filesystem.Fuse.Handles.{
  write_open, write, read, seek_read, read_open, base_content, has_base, write_at, fill_base,
  ensure_downloaded, seek_write,
}

-- A handle whose file can be read through it as it stands.
abbrev IsReady : OpenFile → Type 0
IsReady info = ((not info.is_write || info.base_downloaded) || info.is_local_only) ≡ true

-- After `seek_write` the entry is the old one, further on, and the file has the bytes.
seek_write_lem :
    (fd : ℕ) (info : OpenFile) (offset : ℕ) (bytes : List ℕ) (s : State) (n : ℕ)
    → (seek_write fd info offset bytes s).0 ≡ returns n
    → let t = (seek_write fd info offset bytes s).1 in
      (content : List ℕ) × (n ≡ length bytes)
      × (lookup fd t.open_files
          ≡ some (record info { position = offset + length bytes; is_modified = true }))
      × (lookup info.temp_path (files_of t) ≡ some content)
      × (slice offset (offset + length bytes) content ≡ bytes)
unfolding seek_write
seek_write_lem fd info offset bytes s n h =
    elim (Option-cases (lookup info.temp_path (files_of s))) [
      | inl gone ↦ absurd (raises-ne-returns (rw (gone, seek_write) at h))
      | inr (old, there) ↦
          rw (seek_write, there)
            (
              write_at offset bytes old,
              returns-inj (sym (rw (there, seek_write) at h)),
              lookup-insert_self fd _ s.open_files,
              lookup-insert_self info.temp_path _ (files_of s),
              slice-write_at offset bytes old,
            )
    ]

fill_base_lem :
    (fd : ℕ) (info filled : OpenFile) (base : List ℕ) (s : State)
    → (fill_base fd info base s).0 ≡ returns filled
    → filled ≡ record info { position = info.position + length base; base_downloaded = true }
unfolding fill_base
fill_base_lem fd info filled base s h = elim (Option-cases (lookup info.temp_path (files_of s))) [
  | inl gone ↦ absurd (raises-ne-returns (rw (gone, fill_base) at h))
  | inr (old, there) ↦ sym (returns-inj (rw (there, fill_base) at h))
]

-- The entry after `_ensure_downloaded`: a position and a mark may have changed.
abbrev pub IsFilled : OpenFile → OpenFile → Type 0
IsFilled info filled =
    ((not filled.is_write || filled.base_downloaded) ≡ true)
    × (filled.is_write ≡ info.is_write)
    × (filled.is_local_only ≡ info.is_local_only)
    × (filled.temp_path ≡ info.temp_path)
    × (filled.is_new ≡ info.is_new)
    × (filled.file_id ≡ info.file_id)

pub ensure_downloaded_lem :
    (env : Settings) (fd : ℕ) (info filled : OpenFile) (s : State)
    → (ensure_downloaded env fd info s).0 ≡ returns filled
    → IsFilled info filled
unfolding ensure_downloaded
ensure_downloaded_lem env fd info filled s h =
    elim (Bool-cases (info.is_write && info.is_local_only)) [
      | inl keyless ↦ absurd (raises-ne-returns (rw (ensure_downloaded, keyless) at h))
      | inr node ↦ elim (Bool-cases (not info.is_write || info.base_downloaded)) [
        | inl ready ↦
            let e : info ≡ filled = returns-inj (rw (ensure_downloaded, node, ready) at h) in
            subst (λ i. IsFilled info i) e (ready, refl, refl, refl, refl, refl)
        | inr fetch ↦ elim (Bool-cases (has_base env info.file_id s)) [
          | inr empty ↦
              let e : record info { base_downloaded = true } ≡ filled =
                returns-inj (rw (ensure_downloaded, node, fetch, empty) at h) in
              subst (λ i. IsFilled info i) e (ground arith, refl, refl, refl, refl, refl)
          | inl some_base ↦ elim (Option-cases (base_content env info.file_id s)) [
            | inl failed ↦
                absurd
                  (raises-ne-returns (rw (ensure_downloaded, node, fetch, some_base, failed) at h))
            | inr (base, got) ↦
                subst (λ i. IsFilled info i)
                  (sym (
                    fill_base_lem fd info filled base s
                      (rw (ensure_downloaded, node, fetch, some_base, got) at h)))
                  (ground arith, refl, refl, refl, refl, refl)
          ]
        ]
      ]
    ]

ensure_ready :
    (env : Settings) (fd : ℕ) (info : OpenFile) (s : State)
    → info.is_local_only ≡ false
    → (not info.is_write || info.base_downloaded) ≡ true
    → ensure_downloaded env fd info s ≡ (returns info, s)
unfolding ensure_downloaded
ensure_ready env fd info s node ready =
    let reachable : (info.is_write && info.is_local_only) ≡ false = ground arith in
    rw (ensure_downloaded, reachable, ready) refl

-- Reading through an entry whose file is complete is reading the file.
read_ready :
    (env : Settings) (fd offset len : ℕ) (info : OpenFile) (s : State)
    → info.is_write ≡ true
    → IsReady info
    → read_open env fd info offset len s ≡ seek_read fd info offset len s
unfolding read_open
read_ready env fd offset len info s writes ready = elim (Bool-cases info.is_local_only) [
  | inl is_local ↦ happly (if_true info.is_local_only _ _ is_local) s
  | inr node ↦
      happly (if_false info.is_local_only _ _ node) s
      ∙ happly (if_true info.is_write _ _ writes) s
      ∙ (let ready : ensure_downloaded env fd info s ≡ (returns info, s) =
            ensure_ready env fd info s node (ground arith) in
          bind_after (ensure_downloaded env fd info) (λ f. seek_read fd f offset len) s info
            (ap (λ r. r.0) ready)
          ∙ ap (λ r. seek_read fd info offset len r.1) ready)
]

read_found :
    (env : Settings) (path : Text) (fd offset len : ℕ) (info : OpenFile) (content : List ℕ)
    (s : State)
    → starts_with (codes "/stats") path ≡ false
    → lookup fd s.open_files ≡ some info
    → info.is_write ≡ true
    → IsReady info
    → lookup info.temp_path (files_of s) ≡ some content
    → (read env path len offset fd s).0 ≡ returns (slice offset (offset + len) content)
unfolding read
read_found env path fd offset len info content s plain found writes ready there =
    rw (read, plain, found)
      (ap (λ r. r.0) (read_ready env fd offset len info s writes ready)
        ∙ unfold seek_read in rw (seek_read, there) refl)

written :
    (env : Settings) (path path' : Text) (bytes : List ℕ) (offset fd n : ℕ) (info : OpenFile)
    (s : State)
    → starts_with (codes "/stats") path' ≡ false
    → info.is_write ≡ true
    → IsReady info
    → (seek_write fd info offset bytes s).0 ≡ returns n
    → (n ≡ length bytes)
      × ((read env path' (length bytes) offset fd (seek_write fd info offset bytes s).1).0
          ≡ returns bytes)
written env path path' bytes offset fd n info s plain writes ready h =
    let (content, count_eq, found, there, same) = seek_write_lem fd info offset bytes s n h in
    (
      count_eq,
      read_found env path' fd offset (length bytes)
            (record info { position = offset + length bytes; is_modified = true }) content
            (seek_write fd info offset bytes s).1 plain found writes ready there
          ∙ ap returns same,
    )

write_open_cases :
    (env : Settings) (fd offset n : ℕ) (info : OpenFile) (bytes : List ℕ) (s : State)
    → (write_open env fd info offset bytes s).0 ≡ returns n
    → (filled : OpenFile) × (t : State) × (filled.is_write ≡ true)
      × IsReady filled
      × (write_open env fd info offset bytes s ≡ seek_write fd filled offset bytes t)
unfolding write_open
write_open_cases env fd offset n info bytes s h = elim (Bool-cases info.is_write) [
  | inr reads ↦ absurd (
      raises-ne-returns (
        sym (
          ap (λ (r : Outcome ℕ × State). r.0)
            (happly (if_true (not info.is_write) _ _ (ap not reads)) s))
        ∙ h))
  | inl writes ↦ elim (Bool-cases info.is_local_only) [
    | inl is_local ↦ (
      info,
      s,
      writes,
      ground arith,
      happly (if_false (not info.is_write) _ _ (ap not writes)) s
          ∙ happly (if_true info.is_local_only _ _ is_local) s,
    )
    | inr node ↦
        let chain : write_open env fd info offset bytes s
            ≡ (ensure_downloaded env fd info >>= λ filled. seek_write fd filled offset bytes) s =
          happly (if_false (not info.is_write) _ _ (ap not writes)) s
          ∙ happly (if_false info.is_local_only _ _ node) s in
        let (filled, done, rest) =
          bind-returns (ensure_downloaded env fd info) (λ f. seek_write fd f offset bytes) s n
            (ap (λ r. r.0) (sym chain) ∙ h) in
        let (ready, write_kept, _, _, _, _) = ensure_downloaded_lem env fd info filled s done in
        (
          filled,
          (ensure_downloaded env fd info s).1,
          write_kept ∙ writes,
          ground arith,
          chain ∙ rest,
        )
  ]
]

-- If `write` of some bytes through a handle returns a count, the count is that of the bytes, and a
-- `read` through the same handle straight after it, for a path that is not below `/stats`, at the
-- same offset and of that length, returns these bytes: a base that is still to be fetched, a gap
-- behind the end of the file and an empty write included.
pub read-write :
    (env : Settings) (path path' : Text) (bytes : List ℕ) (offset fd n : ℕ) (s : State)
    → starts_with (codes "/stats") path' ≡ false
    → let (o, t) = write env path bytes offset fd s in
      o ≡ returns n
      → (n ≡ length bytes) × ((read env path' (length bytes) offset fd t).0 ≡ returns bytes)
unfolding write
read-write env path path' bytes offset fd n s plain h =
    elim (Option-cases (lookup fd s.open_files)) [
      | inl gone ↦ absurd (raises-ne-returns (rw (write, gone) at h))
      | inr (info, found) ↦
          let opened : write env path bytes offset fd s ≡ write_open env fd info offset bytes s =
            rw (write, found) refl in
          let (filled, u, writes, ready, same) =
            write_open_cases env fd offset n info bytes s (ap (λ r. r.0) (sym opened) ∙ h) in
          subst
            (λ r.
              (n ≡ length bytes)
              × ((read env path' (length bytes) offset fd r.1).0 ≡ returns bytes))
            (sym (opened ∙ same))
            (written env path path' bytes offset fd n filled u plain writes ready
              (ap (λ r. r.0) (sym (opened ∙ same)) ∙ h))
    ]
