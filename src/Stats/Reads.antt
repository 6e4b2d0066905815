-- ===== src/Stats/Reads.antt =====
-- What a reader of a statistics file sees.
use fusedrive_filesystem.Base.Int.{pos}
use fusedrive_filesystem.Metrics.{MetricsRegistry}
use fusedrive_filesystem.Stats.{
  str, padded, get_val_str, supported_keys, Attributes, read, getattr, digits,
}
use fusedrive_filesystem.Metrics
use fusedrive_filesystem.Base.{
  basename, take_of_length-le, text_beq, text_eq, zero, ◌/◌, mem, ap, ◌%◌, ◌⊎◌, inr, ◌<◌, some,
  none, inl, refl, ltb, false, Bool-cases, ◌-◌, ◌+◌, suc, codes, [], ◌==◌, ◌*◌, ◌∷◌, length, arith,
  Option, ◌++◌, ◌≤◌, Text, ℕ, slice, ◌≡◌,
}

-- The number that a text of digits stands for, the digits so far giving `n`.
abbrev pub value_from : ℕ → Text → ℕ
value_from n [] = n
value_from n (c ∷ rest) = value_from (n * 10 + (c - 48)) rest

value_from-append :
    (n c : ℕ) (text : Text) → value_from n (text ++ c ∷ []) ≡ value_from n text * 10 + (c - 48)
value_from-append n c [] = refl
value_from-append n c (d ∷ text) = value_from-append (n * 10 + (d - 48)) c text

-- The digits that a metric is printed with stand for its value, when the fuel is at least the
-- value, as it is in `str`.
pub value-digits : (fuel n : ℕ) → n ≤ fuel → value_from 0 (digits fuel n) ≡ n
unfolding digits
value-digits zero n enough = omega (arith, enough)
value-digits (suc fuel) n enough = elim (Bool-cases (ltb n 10)) [
  | inl small ↦ rw small (omega arith)
  | inr large ↦
      rw (large, value_from-append 0 (48 + n % 10) (digits fuel (n / 10)))
        (omega (arith, value-digits fuel (n / 10) (omega (arith, enough))))
]

-- For a path other than `/stats` and a name other than `trigger_deadlock`, `getattr` and `read` of
-- the statistics agree: either both refuse the path, or there is one content that `read` cuts at
-- the offset and the length asked for, that `getattr` gives the size of, as a regular file, and
-- reading leaves the metrics as they are.
pub getattr-read :
    (path : Text) (m : MetricsRegistry)
    → (path == codes "/stats") ≡ false
    → (basename path == codes "trigger_deadlock") ≡ false
    → ((getattr path m ≡ none)
        × ((deadlock : Option (MetricsRegistry → MetricsRegistry)) (len offset : ℕ)
            → read deadlock path len offset m ≡ (none, m)))
      ⊎ ((content : Text) × (a : Attributes) × (getattr path m ≡ some a)
          × (a.is_directory ≡ false)
          × (a.st_size ≡ length content)
          × ((deadlock : Option (MetricsRegistry → MetricsRegistry)) (len offset : ℕ)
              → read deadlock path len offset m ≡ (some (slice offset (offset + len) content), m)))
unfolding getattr read
getattr-read path m inside usual = elim (Bool-cases (mem (basename path) supported_keys)) [
  | inl known ↦ inr (
    get_val_str (basename path) m,
    record {
      is_directory = false;
      st_mode = 292;
      st_nlink = 1;
      st_size = length (get_val_str (basename path) m);
    },
    rw (inside, known) refl,
    refl,
    refl,
    λ deadlock len offset. rw (usual, known) refl,
  )
  | inr strange ↦ inl (rw (inside, strange) refl, λ deadlock len offset. rw (usual, strange) refl)
]

-- While the metric of its name is 0, `read` of at least 30 bytes of `/stats/trigger_deadlock`
-- returns more bytes than the size that `getattr` reports for it.
pub trigger_too_long :
    (deadlock : Option (MetricsRegistry → MetricsRegistry)) (m : MetricsRegistry) (len : ℕ)
    → Metrics.get (codes "trigger_deadlock") m ≡ pos 0
    → 30 ≤ len
    → let path = codes "/stats/trigger_deadlock" in
      (content : Text) × (a : Attributes) × (getattr path m ≡ some a)
      × ((read deadlock path len 0 m).0 ≡ some content)
      × (a.st_size < length content)
unfolding getattr read slice basename get_val_str padded str digits text_beq mem
trigger_too_long deadlock m len unset enough = (
  codes "Deadlock forcado no FUSE VFS!" ++ 10 ∷ [],
  record { is_directory = false; st_mode = 292; st_nlink = 1; st_size = 24 },
  rw unset refl,
  ap some (take_of_length-le (0 + len - 0) _ (omega (arith, enough))),
  omega arith,
)
