-- ===== src/Base/Lists.antt =====
-- Lists measured by native numbers, under the library's names, and Python's slices.
use Prim.Native.Nat.{ℕ, zero, suc, ◌+◌, ◌-◌, ◌≤◌, min}
use mathlib.Core.Path.{◌≡◌, refl, ap, sym, ◌∙◌}
use mathlib.Core.Option.{Option, none, some}
use mathlib.Core.List.{List, [], ◌∷◌, ◌++◌}
use native.Mathlib.Omega.{arith}

module _ {ℓ} {A : Type ℓ} where
  abbrev pub length : List A → ℕ
  length (_ ∷ rest) = suc (length rest)
  length [] = 0

  abbrev pub take : ℕ → List A → List A
  take (suc n) (first ∷ rest) = first ∷ take n rest
  take (suc n) [] = []
  take zero _ = []

  abbrev pub drop : ℕ → List A → List A
  drop zero xs = xs
  drop (suc n) [] = []
  drop (suc n) (x ∷ xs) = drop n xs

  -- `xs[i:j]` for 0 ≤ i and 0 ≤ j
  unfoldable pub slice : ℕ → ℕ → List A → List A
  slice i j xs = take (j - i) (drop i xs)

  pub length-append : (xs ys : List A) → length (xs ++ ys) ≡ length xs + length ys
  length-append [] ys = omega arith
  length-append (x ∷ xs) ys = omega (arith, length-append xs ys)

  pub length-take : (n : ℕ) (xs : List A) → length (take n xs) ≡ min n (length xs)
  length-take zero xs = omega arith
  length-take (suc n) [] = omega arith
  length-take (suc n) (x ∷ xs) = omega (arith, length-take n xs)

  pub length-drop : (n : ℕ) (xs : List A) → length (drop n xs) ≡ length xs - n
  length-drop zero xs = omega arith
  length-drop (suc n) [] = omega arith
  length-drop (suc n) (x ∷ xs) = omega (arith, length-drop n xs)

  pub take_of_length-le : (bound : ℕ) (l : List A) → length l ≤ bound → take bound l ≡ l
  take_of_length-le (suc n) (first ∷ rest) fits =
      ap (λ l. first ∷ l) (take_of_length-le n rest (omega (arith, fits)))
  take_of_length-le (suc n) [] fits = refl
  take_of_length-le zero [] fits = refl
  take_of_length-le zero (first ∷ rest) fits = absurd (omega (arith, fits))

  pub drop_of_length-le : (n : ℕ) (xs : List A) → length xs ≤ n → drop n xs ≡ []
  drop_of_length-le zero [] h = refl
  drop_of_length-le zero (x ∷ xs) h = absurd (omega arith)
  drop_of_length-le (suc n) [] h = refl
  drop_of_length-le (suc n) (x ∷ xs) h = drop_of_length-le n xs (omega arith)

  pub take-nil : (n : ℕ) → take n [] ≡ []
  take-nil zero = refl
  take-nil (suc n) = refl

  pub drop-nil : (n : ℕ) → drop n [] ≡ []
  drop-nil zero = refl
  drop-nil (suc n) = refl

  pub drop-drop : (m n : ℕ) (xs : List A) → drop m (drop n xs) ≡ drop (n + m) xs
  drop-drop m zero xs = ap (λ k. drop k xs) (omega arith)
  drop-drop m (suc n) [] = drop-nil m ∙ sym (drop-nil (suc n + m))
  drop-drop m (suc n) (x ∷ xs) =
      drop-drop m n xs
      ∙ ap (λ k. drop k (x ∷ xs)) (let e : suc (n + m) ≡ suc n + m = omega arith in e)

  -- a prefix splits at any point below its length
  pub take-add : (m n : ℕ) (xs : List A) → take (m + n) xs ≡ take m xs ++ take n (drop m xs)
  take-add zero n xs = ap (λ k. take k xs) (omega arith)
  take-add (suc m) n [] = take-nil (suc m + n) ∙ sym (take-nil n)
  take-add (suc m) n (x ∷ xs) =
      ap (λ k. take k (x ∷ xs)) (let e : suc m + n ≡ suc (m + n) = omega arith in e)
      ∙ ap (◌∷◌ x) (take-add m n xs)

  pub take-take : (m n : ℕ) (xs : List A) → take m (take n xs) ≡ take (min m n) xs
  take-take zero n xs = ap (λ k. take k xs) (let e : 0 ≡ min 0 n = omega arith in e)
  take-take (suc m) zero xs = ap (λ k. take k xs) (let e : 0 ≡ min (suc m) 0 = omega arith in e)
  take-take (suc m) (suc n) [] = sym (take-nil (min (suc m) (suc n)))
  take-take (suc m) (suc n) (x ∷ xs) =
      ap (◌∷◌ x) (take-take m n xs)
      ∙ ap (λ k. take k (x ∷ xs)) (let e : suc (min m n) ≡ min (suc m) (suc n) = omega arith in e)

  pub drop-take : (m n : ℕ) (xs : List A) → drop m (take n xs) ≡ take (n - m) (drop m xs)
  drop-take zero n xs = ap (λ k. take k xs) (omega arith)
  drop-take (suc m) zero xs =
      ap (λ k. take k (drop (suc m) xs)) (let e : 0 ≡ 0 - suc m = omega arith in e)
  drop-take (suc m) (suc n) [] = sym (take-nil (suc n - suc m))
  drop-take (suc m) (suc n) (x ∷ xs) =
      drop-take m n xs
      ∙ ap (λ k. take k (drop m xs)) (let e : n - m ≡ suc n - suc m = omega arith in e)

  -- a slice of a slice that lies inside it
  pub slice-slice :
      (a b c d : ℕ) (xs : List A) → c + b ≤ d → slice a b (slice c d xs) ≡ slice (c + a) (c + b) xs
  unfolding slice
  slice-slice a b c d xs h =
      ap (take (b - a)) (drop-take a (d - c) (drop c xs))
      ∙ take-take (b - a) (d - c - a) (drop a (drop c xs))
      ∙ ap (λ n. take n (drop a (drop c xs)))
          (let e : min (b - a) (d - c - a) ≡ c + b - (c + a) = omega arith in e)
      ∙ ap (take (c + b - (c + a))) (drop-drop a c xs)

  -- two slices that meet
  pub slice-append :
      (a b c : ℕ) (xs : List A) → a ≤ b → b ≤ c → slice a b xs ++ slice b c xs ≡ slice a c xs
  unfolding slice
  slice-append a b c xs h k =
      ap (λ n. take (b - a) (drop a xs) ++ take (c - b) (drop n xs))
        (let e : b ≡ a + (b - a) = omega arith in e)
      ∙ ap (λ d. take (b - a) (drop a xs) ++ take (c - b) d) (sym (drop-drop (b - a) a xs))
      ∙ sym (take-add (b - a) (c - b) (drop a xs))
      ∙ ap (λ n. take n (drop a xs)) (let e : b - a + (c - b) ≡ c - a = omega arith in e)

  pub slice-nil : (a b : ℕ) (xs : List A) → b ≤ a → slice a b xs ≡ []
  unfolding slice
  slice-nil a b xs h = ap (λ n. take n (drop a xs)) (let e : b - a ≡ 0 = omega arith in e)

  -- a slice past the end is empty, and one that runs over the end stops there
  pub slice_past : (a b : ℕ) (xs : List A) → length xs ≤ a → slice a b xs ≡ []
  unfolding slice
  slice_past a b xs h = ap (take (b - a)) (drop_of_length-le a xs h) ∙ take-nil (b - a)

  pub slice-min : (a b : ℕ) (xs : List A) → slice a (min b (length xs)) xs ≡ slice a b xs
  unfolding slice
  slice-min a b xs =
      let n = length-drop a xs in
      ap (λ k. take k (drop a xs))
        (let e : min b (length xs) - a ≡ min (b - a) (length xs - a) = omega arith in e)
      ∙ sym (take-take (b - a) (length xs - a) (drop a xs))
      ∙ ap (take (b - a)) (take_of_length-le (length xs - a) (drop a xs) (omega arith))

  abbrev pub get_elem? : List A → ℕ → Option A
  get_elem? [] i = none
  get_elem? (x ∷ xs) zero = some x
  get_elem? (x ∷ xs) (suc i) = get_elem? xs i

  -- a write out of bounds changes nothing
  abbrev pub set : List A → ℕ → A → List A
  set [] i v = []
  set (x ∷ xs) zero v = v ∷ xs
  set (x ∷ xs) (suc i) v = x ∷ set xs i v

  abbrev pub replicate : ℕ → A → List A
  replicate zero a = []
  replicate (suc n) a = a ∷ replicate n a
