-- ===== src/Base/Paths.antt =====
-- Python's `os.path` on texts: 47 is the slash.
use fusedrive_filesystem.Base.Tests.{if◌then◌else◌}
use fusedrive_filesystem.Base.Equality.{
  text_beq, Text, ◌==◌, nat_eq, mem, codes, starts_with, ends_with, text_eq,
}
use mathlib.Core.Bool.{◌&&◌, ◌||◌, false}
use mathlib.Core.Path.{◌≡◌, refl}
use native.Mathlib.Omega.{arith}
use mathlib.Core.List.{[], ◌∷◌, ◌++◌}

abbrev pub slash : Text
slash = codes "/"

-- `os.path.join(a, b)`
unfoldable pub join : Text → Text → Text
join a b =
    if starts_with slash b
    then b
    else if a == [] || ends_with a slash
    then a ++ b
    else a ++ slash ++ b

-- `os.path.basename`: what follows the last slash.
unfoldable pub basename : Text → Text
basename [] = []
basename (c ∷ path) =
    let rest = basename path in
    if mem 47 (c ∷ path) then (if mem 47 path then rest else path) else c ∷ path

-- `path.rstrip("/")`
unfoldable pub strip_slashes : Text → Text
strip_slashes [] = []
strip_slashes (c ∷ path) =
    let rest = strip_slashes path in if c == 47 && rest == [] then [] else c ∷ rest

-- A path up to its last slash, and with it.
unfoldable pub head_of : Text → Text
head_of [] = []
head_of (c ∷ path) = if mem 47 (c ∷ path) then c ∷ head_of path else []

-- `os.path.dirname`: what is before the last slash; only slashes are left alone.
unfoldable pub dirname : Text → Text
dirname path =
    let stripped = strip_slashes (head_of path) in if stripped == [] then head_of path else stripped

pub append_nonempty : (a b : Text) → (b == []) ≡ false → (a ++ b == []) ≡ false
unfolding text_beq
append_nonempty [] b h = h
append_nonempty (c ∷ a) b h = refl

pub join_nonempty : (a b : Text) → (b == []) ≡ false → (join a b == []) ≡ false
unfolding join
join_nonempty a b h = ground (arith, append_nonempty a b h, append_nonempty (a ++ slash) b h)
