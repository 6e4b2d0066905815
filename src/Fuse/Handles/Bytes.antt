-- ===== src/Fuse/Handles/Bytes.antt =====
-- What `os.write` leaves in a file.
use fusedrive_filesystem.Fuse.Handles.{write_at}
use mathlib.Core.List.{append-nil}
use fusedrive_filesystem.Base.{
  ◌∙◌, refl, length-append, zero, drop-nil, ◌-◌, ◌∷◌, suc, length-take, ap, ◌++◌, take, replicate,
  drop, arith, [], ◌+◌, length, List, ℕ, slice, ◌≡◌,
}

pub length-replicate : (n b : ℕ) → length (replicate n b) ≡ n
length-replicate zero b = refl
length-replicate (suc n) b = omega (arith, length-replicate n b)

take-append_exact {ℓ} :
    {A : Type ℓ} (n : ℕ) (xs ys : List A) → length xs ≡ n → take n (xs ++ ys) ≡ xs
take-append_exact zero [] ys e = refl
take-append_exact zero (x ∷ xs) ys e = absurd (omega (arith, e))
take-append_exact (suc n) [] ys e = absurd (omega (arith, e))
take-append_exact (suc n) (x ∷ xs) ys e = ap (◌∷◌ x) (take-append_exact n xs ys (omega (arith, e)))

drop-append_exact {ℓ} :
    {A : Type ℓ} (n : ℕ) (xs ys : List A) → length xs ≡ n → drop n (xs ++ ys) ≡ ys
drop-append_exact zero [] ys e = refl
drop-append_exact zero (x ∷ xs) ys e = absurd (omega (arith, e))
drop-append_exact (suc n) [] ys e = absurd (omega (arith, e))
drop-append_exact (suc n) (x ∷ xs) ys e = drop-append_exact n xs ys (omega (arith, e))

-- The bytes in front of what is written, zeros where the file was shorter.
abbrev front : ℕ → List ℕ → List ℕ
front offset content = take offset (content ++ replicate (offset - length content) 0)

length-front : (offset : ℕ) (content : List ℕ) → length (front offset content) ≡ offset
length-front offset content = omega (
  arith,
  length-take offset (content ++ replicate (offset - length content) 0),
  length-append content (replicate (offset - length content) 0),
  length-replicate (offset - length content) 0,
)

-- What was written is read again.
pub slice-write_at :
    (offset : ℕ) (bytes content : List ℕ)
    → slice offset (offset + length bytes) (write_at offset bytes content) ≡ bytes
unfolding slice write_at
slice-write_at offset [] content =
    ap (λ n. take n (drop offset content)) (let e : offset + 0 - offset ≡ 0 = omega arith in e)
slice-write_at offset (b ∷ bytes) content =
    ap (take (offset + suc (length bytes) - offset))
      (drop-append_exact offset (front offset content) _ (length-front offset content))
    ∙ take-append_exact (offset + suc (length bytes) - offset) (b ∷ bytes) _ (omega arith)

-- A file filled from its start, when it was empty, holds just that.
pub write_at_empty : (bytes : List ℕ) → write_at 0 bytes [] ≡ bytes
unfolding write_at
write_at_empty [] = refl
write_at_empty (b ∷ bytes) =
    ap (λ l. b ∷ bytes ++ l) (drop-nil (0 + suc (length bytes))) ∙ append-nil (b ∷ bytes)
