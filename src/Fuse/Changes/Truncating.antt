-- ===== src/Fuse/Changes/Truncating.antt =====
-- Truncating a file that is open for writing.
use fusedrive_filesystem.Fuse.Handles.Bytes.{length-replicate}
use fusedrive_filesystem.Base.{
  none, sym, ap, ◌∙◌, nat_eq, text_eq, if_true, ◌++◌, lookup-insert_self, length-take, true, arith,
  Option-cases, ◌-◌, some, length-append, replicate, lookup, Text, List, refl, inl, inr, length, ℕ,
  ◌≡◌,
}
use fusedrive_filesystem.Contracts.{returns, raises-ne-returns}
use fusedrive_filesystem.Fuse.Paths.{resolve_or_raise}
use fusedrive_filesystem.Fuse.Paths.Keeping.{resolve_or_raise-KeepsHandles}
use fusedrive_filesystem.Fuse.State.{
  Settings, State, OpenFile, Action, ◌>>=◌, bind-returns, files_of, modify, set_handle,
}
use fusedrive_filesystem.Fuse.Handles.{truncate_to, ensure_downloaded}
use fusedrive_filesystem.Fuse.Handles.Sessions.{ensure_downloaded_lem}
use fusedrive_filesystem.Fuse.Changes.{truncate, truncate_handle, truncate_open, truncate_temp}

length-truncate_to : (n : ℕ) (content : List ℕ) → length (truncate_to n content) ≡ n
unfolding truncate_to
length-truncate_to n content =
    let whole = length-append content (replicate (n - length content) 0) in
    let gap = length-replicate (n - length content) 0 in
    length-take n (content ++ replicate (n - length content) 0) ∙ ground (arith, whole, gap)

truncate_temp-length :
    (temp_path : Text) (len : ℕ) (s : State)
    → (truncate_temp temp_path len s).0 ≡ returns tt
    → (content : List ℕ) × (lookup temp_path (files_of (truncate_temp temp_path len s).1)
        ≡ some content)
      × (length content ≡ len)
unfolding truncate_temp
truncate_temp-length temp_path len s h = elim (Option-cases (lookup temp_path (files_of s))) [
  | inl gone ↦ absurd (raises-ne-returns (rw (truncate_temp, gone) at h))
  | inr (content, there) ↦
      rw (truncate_temp, there)
        (
          truncate_to len content,
          lookup-insert_self temp_path (truncate_to len content) (files_of s),
          length-truncate_to len content,
        )
]

-- The lines of `truncate` behind `_ensure_downloaded`.
truncate_filled : ℕ → ℕ → OpenFile → Action Unit
truncate_filled fd len filled = truncate_temp filled.temp_path len >>= λ _.
    modify (set_handle fd (record filled { is_modified = true }))

truncate_handle-length :
    (env : Settings) (fd len : ℕ) (info : OpenFile) (s : State)
    → lookup fd s.open_files ≡ some info
    → info.is_write ≡ true
    → let (o, t) = truncate_handle env (some fd) len s in
      o ≡ returns tt
      → (content : List ℕ) × (filled : OpenFile) × (lookup fd t.open_files ≡ some filled)
        × (filled.is_modified ≡ true)
        × (filled.file_id ≡ info.file_id)
        × (lookup filled.temp_path (files_of t) ≡ some content)
        × (length content ≡ len)
unfolding truncate_handle truncate_open truncate_filled
truncate_handle-length env fd len info s found writes h =
    let opened : truncate_handle env (some fd) len s ≡ truncate_open env fd info len s =
      rw (truncate_handle, found)
        (if_true info.is_write (truncate_open env fd info len s) _ writes) in
    let (filled, done, rest) =
      bind-returns (ensure_downloaded env fd info) (truncate_filled fd len) s tt
        (ap (λ r. r.0) (sym opened) ∙ h) in
    let u : State = (ensure_downloaded env fd info s).1 in
    let (unit, cut, last) =
      bind-returns (truncate_temp filled.temp_path len)
        (λ _. modify (set_handle fd (record filled { is_modified = true }))) u tt
        (ap (λ r. r.0) (sym (opened ∙ rest)) ∙ h) in
    let (_, _, _, _, _, same_id) = ensure_downloaded_lem env fd info filled s done in
    let (content, there, right) = truncate_temp-length filled.temp_path len u cut in
    rw (opened ∙ rest ∙ last) (
      content,
      record filled { is_modified = true },
      lookup-insert_self fd (record filled { is_modified = true })
          (truncate_temp filled.temp_path len u).1.open_files,
      refl,
      same_id,
      there,
      right,
    )

-- If `truncate` of a path that is not of a local file, with a handle that is open for writing,
-- returns, then the handle is marked as modified under the same id, and its temporary file has
-- exactly the length asked for, whether the base was still to be fetched, is cut or is filled up.
pub truncate-length :
    (env : Settings) (path : Text) (fd len : ℕ) (info : OpenFile) (s : State)
    → lookup path s.local_only_files ≡ none
    → lookup fd s.open_files ≡ some info
    → info.is_write ≡ true
    → (truncate env path len (some fd) s).0 ≡ returns tt
    → let t = (truncate env path len (some fd) s).1 in
      (content : List ℕ) × (filled : OpenFile) × (lookup fd t.open_files ≡ some filled)
      × (filled.is_modified ≡ true)
      × (filled.file_id ≡ info.file_id)
      × (lookup filled.temp_path (files_of t) ≡ some content)
      × (length content ≡ len)
unfolding truncate
truncate-length env path fd len info s node found writes h =
    let both : Action Unit = resolve_or_raise env path >>= λ _. truncate_handle env (some fd) len in
    let same : truncate env path len (some fd) s ≡ both s = rw (truncate, node) refl in
    let (id, done, rest) =
      bind-returns (resolve_or_raise env path) (λ _. truncate_handle env (some fd) len) s tt
        (ap (λ r. r.0) (sym same) ∙ h) in
    let u : State = (resolve_or_raise env path s).1 in
    let kept : lookup fd u.open_files ≡ some info =
      ap (lookup fd) (resolve_or_raise-KeepsHandles env path s) ∙ found in
    rw (same ∙ rest)
      (truncate_handle-length env fd len info u kept writes (ap (λ r. r.0) (sym (same ∙ rest)) ∙ h))
