-- ===== src/Fuse/Paths/Resolving.antt =====
-- The recursion of `resolve_path_to_drive_node_id`, on paths as FUSE gives them: absolute, with no
-- slash behind another.
use fusedrive_filesystem.Contracts.{
  blocks-ne-raises, Outcome-cases, raises-inj, storage_error, returns-ne-raises, recursion_error,
  raises,
}
use fusedrive_filesystem.Fuse.Paths.{load_children, resolve_below, resolve}
use fusedrive_filesystem.Metadata.{resolve_path_to_node_id, is_directory_children_loaded, root}
use fusedrive_filesystem.Base.{
  codes, none, Option-cases, zero, suc, some, ◌≢◌, Option, ℕ, refl, true-ne-false, ◌⊎◌, slash,
  dirname, inr, text_eq, nat_eq, inl, ◌&&◌, not, arith, [], Bool-cases, ◌==◌, ◌∷◌, ◌≤◌, text_beq,
  false, ◌<◌, true, starts_with, mem, length, Bool, strip_slashes, head_of, Text, ◌≡◌,
}
use fusedrive_filesystem.Fuse.State.{
  gets, bind_after, bind_raises, truthy, Settings, State, Action, ◌>>=◌, count,
}

unfoldable pub no_double_slash : Text → Bool
no_double_slash [] = true
no_double_slash (c ∷ path) = not (c == 47 && starts_with slash path) && no_double_slash path

abbrev pub IsAbsolute : Text → Type 0
IsAbsolute path = (starts_with slash path ≡ true) × (no_double_slash path ≡ true)

head_of_plain : (path : Text) → mem 47 path ≡ false → head_of path ≡ []
unfolding head_of
head_of_plain [] h = refl
head_of_plain (c ∷ path) h = rw h refl

length-head_of : (path : Text) → length (head_of path) ≤ length path
unfolding head_of
length-head_of [] = omega arith
length-head_of (c ∷ path) = ground (arith, length-head_of path)

strip-head_of-lt :
    (path : Text)
    → mem 47 path ≡ true
    → length (strip_slashes (head_of path)) < length (head_of path)
unfolding head_of strip_slashes mem text_beq
strip-head_of-lt [] h = cc
strip-head_of-lt (c ∷ path) h = elim (Bool-cases (mem 47 path)) [
  | inl deeper ↦ ground (arith, strip-head_of-lt path deeper)
  | inr last ↦ rw (h, head_of_plain path last) (ground arith)
]

starts-head_of :
    (path : Text) → starts_with slash (head_of path) ≡ true → starts_with slash path ≡ true
unfolding head_of starts_with
starts-head_of [] h = h
starts-head_of (c ∷ path) h = ground arith

starts-strip :
    (path : Text) → starts_with slash (strip_slashes path) ≡ true → starts_with slash path ≡ true
unfolding strip_slashes starts_with
starts-strip [] h = h
starts-strip (c ∷ path) h = ground arith

single-head_of : (path : Text) → no_double_slash path ≡ true → no_double_slash (head_of path) ≡ true
unfolding head_of no_double_slash
single-head_of [] h = h
single-head_of (c ∷ path) h = ground (arith, single-head_of path, starts-head_of path)

single-strip :
    (path : Text) → no_double_slash path ≡ true → no_double_slash (strip_slashes path) ≡ true
unfolding strip_slashes no_double_slash
single-strip [] h = h
single-strip (c ∷ path) h = ground (arith, single-strip path, starts-strip path)

-- A text of slashes only, none behind another, is at most one.
stripped_empty :
    (path : Text)
    → (strip_slashes path == []) ≡ true
    → no_double_slash path ≡ true
    → length path ≤ 1
unfolding strip_slashes no_double_slash starts_with text_beq
stripped_empty [] h single = omega arith
stripped_empty (c ∷ []) h single = omega arith
stripped_empty (c ∷ d ∷ path) h single = ground arith

length-pos : (path : Text) → starts_with slash path ≡ true → 1 ≤ length path
unfolding starts_with
length-pos [] h = cc
length-pos (c ∷ path) h = omega arith

mem-slash : (path : Text) → starts_with slash path ≡ true → mem 47 path ≡ true
unfolding starts_with mem
mem-slash [] h = cc
mem-slash (c ∷ path) h = ground arith

head_of-starts :
    (path : Text) → starts_with slash path ≡ true → starts_with slash (head_of path) ≡ true
unfolding starts_with head_of mem
head_of-starts [] h = h
head_of-starts (c ∷ path) h = ground arith

strip-starts :
    (path : Text)
    → starts_with slash path ≡ true
    → (strip_slashes path == []) ≡ false
    → starts_with slash (strip_slashes path) ≡ true
unfolding starts_with strip_slashes text_beq
strip-starts [] h some_left = cc
strip-starts (c ∷ path) h some_left = elim (Bool-cases (c == 47 && strip_slashes path == [])) [
  | inl all ↦ absurd (true-ne-false (rw all at some_left))
  | inr keeps ↦ rw keeps h
]

-- The parent of an absolute path is absolute, and shorter unless it is the root.
dirname-IsAbsolute :
    (path : Text)
    → IsAbsolute path
    → IsAbsolute (dirname path)
      × ((length (dirname path) ≡ 1) ⊎ (length (dirname path) < length path))
unfolding dirname
dirname-IsAbsolute path (starts, single) = elim (Bool-cases (strip_slashes (head_of path) == [])) [
  | inl none_left ↦ rw none_left (
    (head_of-starts path starts, single-head_of path single),
    inl (
        omega (
          arith,
          stripped_empty (head_of path) none_left (single-head_of path single),
          length-pos (head_of path) (head_of-starts path starts),
        )),
  )
  | inr some_left ↦ rw some_left (
    (
      strip-starts (head_of path) (head_of-starts path starts) some_left,
      single-strip (head_of path) (single-head_of path single),
    ),
    inr (omega (arith, strip-head_of-lt path (mem-slash path starts), length-head_of path)),
  )
]

root-length :
    (path : Text) → starts_with slash path ≡ true → (path == root) ≡ false → 2 ≤ length path
unfolding starts_with text_beq
root-length [] h other = cc
root-length (c ∷ []) h other = absurd (true-ne-false (ground arith))
root-length (c ∷ d ∷ path) h other = omega arith

storage-ne-recursion : storage_error ≡ recursion_error → ⊥
storage-ne-recursion h = cc

loaded_parent : (env : Settings) (path : Text) → Unit {0} → Action (Option Text)
loaded_parent env path done = gets (λ t. truthy (resolve_path_to_node_id env.ttl path t.cache))

never_below :
    (env : Settings) (path : Text) (parent : Option Text) (s : State)
    → (resolve_below env path parent s).0 ≢ raises recursion_error
unfolding resolve_below load_children loaded_parent
never_below env path none s h = cc
never_below env path (some id) s h =
    elim (Bool-cases (is_directory_children_loaded env.ttl id s.cache)) [
      | inl loaded ↦ returns-ne-raises (rw (resolve_below, loaded) at h)
      | inr fresh ↦
          (let first = load_children env id (dirname path) in
            let h' : ((first >>= loaded_parent env path) s).0 ≡ raises recursion_error =
              rw (resolve_below, fresh) at h in
            elim (Option-cases (env.list_children id)) [
              | inl failed ↦ storage-ne-recursion (
                  raises-inj
                    (bind_raises first (loaded_parent env path) s storage_error
                      (rw (load_children, fresh, failed) refl))
                    h')
              | inr (items, listed) ↦ returns-ne-raises (
                  rw
                    (bind_after first (loaded_parent env path) s tt
                      (rw (load_children, fresh, listed) refl))
                    at h')
            ])
    ]

-- For an absolute path without two slashes in a row and fuel of at least its length,
-- `resolve_path_to_drive_node_id` does not run out of fuel, whatever the caches hold and the
-- client answers.
pub resolve_ends :
    (env : Settings) (fuel : ℕ) (path : Text) (s : State)
    → IsAbsolute path
    → length path ≤ fuel
    → (resolve env fuel path s).0 ≢ raises recursion_error
unfolding resolve
resolve_ends env zero path s absolute enough h =
    absurd (omega (arith, length-pos path absolute.0, enough))
resolve_ends env (suc fuel) path s absolute enough h = elim (Bool-cases (path == root)) [
  | inl top ↦ returns-ne-raises (rw (resolve, top) at h)
  | inr other ↦ elim (Option-cases (truthy (resolve_path_to_node_id env.ttl path s.cache))) [
    | inr (id, hit) ↦ returns-ne-raises (rw (resolve, other, hit) at h)
    | inl missed ↦
        (let counted = count (codes "cache_misses") 1 s in
          let (parent, shorter) = dirname-IsAbsolute path absolute in
          let ends =
            resolve_ends env fuel (dirname path) counted parent
              (omega (arith, shorter, enough, root-length path absolute.0 other)) in
          let h' : ((resolve env fuel (dirname path) >>= resolve_below env path) counted).0
              ≡ raises recursion_error =
            rw (resolve, other, missed) at h in
          elim (Outcome-cases (resolve env fuel (dirname path) counted).0) [
            | inl (found, done) ↦ never_below env path found _ (rw (◌>>=◌, done) at h')
            | inr (inl (e, failed)) ↦
                ends (rw (raises-inj refl (rw (◌>>=◌, failed) at h')) at failed)
            | inr (inr stuck) ↦ blocks-ne-raises refl (rw (◌>>=◌, stuck) at h')
          ])
  ]
]
