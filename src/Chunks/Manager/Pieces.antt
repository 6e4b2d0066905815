-- ===== src/Chunks/Manager/Pieces.antt =====
-- The pieces that the loop of a read appends, one chunk after the other, add up to the range.
use native.Mathlib.Nat.{div-add-mod, mod-lt, mul-le-mul_right}
use native.Mathlib.Decide.{dec_lt, dec_le}
use mathlib.Core.Path.{ap₂}
use fusedrive_filesystem.Base.{
  suc, ◌/◌, slice-append, slice-nil, ◌∙◌, ap, text_eq, pair_eq, nat_eq, arith, slice-slice, ◌≡◌,
  ◌++◌, ◌-◌, ◌+◌, min, ◌<◌, ◌≤◌, slice, ◌*◌, ℕ,
}
use fusedrive_filesystem.Chunks.Eviction.{Bytes}
use fusedrive_filesystem.Chunks.Manager.Read.{stop_chunk}

-- One chunk's part of the range, and the range up to the chunk after it.
module _ (c offset stop : ℕ) (content : Bytes) where
  piece-slice :
      (i : ℕ)
      → i * c < stop
      → slice (offset - i * c) (min c (stop - i * c)) (slice (i * c) (i * c + c) content)
        ≡ slice (i * c + (offset - i * c)) (i * c + min c (stop - i * c)) content
  piece-slice i h =
      slice-slice (offset - i * c) (min c (stop - i * c)) (i * c) (i * c + c) content (omega arith)

  -- what has been read when the chunks below `i` are done
  abbrev pub so_far : ℕ → Bytes
  so_far i = slice offset (min (i * c) stop) content

  pub so_far-step :
      (i : ℕ)
      → i * c < stop
      → offset < (i + 1) * c
      → so_far i
          ++ slice (offset - i * c) (min c (stop - i * c)) (slice (i * c) (i * c + c) content)
        ≡ so_far (i + 1)
  so_far-step i h k = ap (λ d. so_far i ++ d) (piece-slice i h) ∙ elim (dec_lt (i * c) offset) [
    | yes before ↦
        ap (λ d. d ++ slice (i * c + (offset - i * c)) (i * c + min c (stop - i * c)) content)
          (slice-nil offset (min (i * c) stop) content (omega arith))
        ∙ ap₂ (λ a b. slice a b content) (omega arith) (omega arith)
    | no behind ↦
        ap₂ (λ a b. so_far i ++ slice a b content)
          (let e : i * c + (offset - i * c) ≡ min (i * c) stop = omega arith in e)
          (let e : i * c + min c (stop - i * c) ≡ min ((i + 1) * c) stop = omega arith in e)
        ∙ slice-append offset (min (i * c) stop) (min ((i + 1) * c) stop) content (omega arith)
            (omega arith)
  ]

pub stop_chunk-last :
    (n c : ℕ) → 0 < c → ((j : ℕ) → j < stop_chunk n c → j * c < n) × (n ≤ stop_chunk n c * c)
unfolding stop_chunk
stop_chunk-last n c h = (λ j below. inside j below, covered)
  where
    inside : (j : ℕ) → j < stop_chunk n c → j * c < n
    inside j below =
        let le : j ≤ (n - 1) / c = ground arith in
        let mono = mul-le-mul_right c le in ground (arith, div-add-mod (n - 1) c)

    covered : n ≤ stop_chunk n c * c
    covered = grind (arith, div-add-mod (n - 1) c, mod-lt (n - 1) {m = c} h)

-- The first chunk of a range begins before it and ends behind its start, and no later than the
-- last one.
pub start_chunk-bounds :
    (offset c : ℕ) → 0 < c → (offset / c * c ≤ offset) × (offset < (offset / c + 1) * c)
start_chunk-bounds offset c h = (
  omega (arith, div-add-mod offset c),
  grind (arith, div-add-mod offset c, mod-lt offset {m = c} h),
)

pub start-le-stop :
    (offset c start stop : ℕ) → 0 < c → start * c ≤ offset → offset ≤ stop * c → start ≤ stop
start-le-stop offset c start stop h low high = elim (dec_le start stop) [
  | yes le ↦ le
  | no gt ↦
      let far : suc stop ≤ start = omega arith in absurd (omega (arith, mul-le-mul_right c far))
]
