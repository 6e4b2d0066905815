-- ===== src/Base/Ordered.antt =====
-- `OrderedDict`: the order of keys under `move_to_end`, and the sizes of the values.
use fusedrive_filesystem.Base.Tests.{if◌then◌else◌, Option-cases}
use fusedrive_filesystem.Base.Lists.{length, length-append}
use fusedrive_filesystem.Base.Equality.{Eq, ◌==◌, beq_refl, beq_comm}
use fusedrive_filesystem.Base.Maps.{
  Dict, lookup, contains, insert, erase, Distinct, erase_absent, lookup-erase, erase-Distinct,
  length-erase,
}
use Prim.Native.Nat.{ℕ, ◌+◌}
use mathlib.Core.Path.{◌≡◌, refl, ap, ◌∙◌}
use mathlib.Core.Logic.{inl, inr}
use mathlib.Core.Bool.{false}
use mathlib.Core.Option.{none, some}
use mathlib.Core.List.{List, [], ◌∷◌, ◌++◌}
use native.Mathlib.Omega.{arith}

module _ {ℓ κ} {K : Type ℓ} {V : Type κ} ⦃e : Eq K⦄ where
  -- `move_to_end(key)`, for a key that is present
  unfoldable pub move_to_end : K → Dict K V → Dict K V
  move_to_end key d = elim (lookup key d) [ none ↦ d | some v ↦ erase key d ++ (key, v) ∷ [] ]

  pub lookup-append :
      (k : K) (d d' : Dict K V)
      → lookup k (d ++ d') ≡ (if contains k d then lookup k d else lookup k d')
  unfolding lookup
  lookup-append k [] d' = refl
  lookup-append k ((j, v) ∷ d) d' = ground (arith, lookup-append k d d')

  pub append-Distinct :
      (k : K) (v : V) (d : Dict K V) → Distinct d → lookup k d ≡ none → Distinct (d ++ (k, v) ∷ [])
  unfolding lookup
  append-Distinct k v [] h p = (refl, tt)
  append-Distinct k v ((j, w) ∷ d) h p =
      ground (arith, append-Distinct k v d h.1, lookup-append j d ((k, v) ∷ []), beq_comm j k)

  pub insert_new :
      (k : K) (v : V) (d : Dict K V) → lookup k d ≡ none → insert k v d ≡ d ++ (k, v) ∷ []
  unfolding lookup insert
  insert_new k v [] h = refl
  insert_new k v ((j, w) ∷ d) h = ground (arith, insert_new k v d)

  pub erase-append_new :
      (k : K) (v : V) (d : Dict K V) → lookup k d ≡ none → erase k (d ++ (k, v) ∷ []) ≡ d
  unfolding lookup erase
  erase-append_new k v [] h = ground (arith, beq_refl k)
  erase-append_new k v ((j, w) ∷ d) h = ground (arith, erase-append_new k v d)

  pub lookup-append_new :
      (k : K) (v : V) (d : Dict K V) → lookup k d ≡ none → lookup k (d ++ (k, v) ∷ []) ≡ some v
  unfolding lookup
  lookup-append_new k v [] h = ground (arith, beq_refl k)
  lookup-append_new k v ((j, w) ∷ d) h = ground (arith, lookup-append_new k v d)

  -- what is absent after an append was absent before, and is not the new key
  pub append-absent :
      (j k : K) (v : V) (d : Dict K V)
      → lookup j (d ++ (k, v) ∷ []) ≡ none
      → (lookup j d ≡ none) × ((k == j) ≡ false)
  unfolding lookup
  append-absent j k v [] h = ground arith
  append-absent j k v ((i, w) ∷ d) h = ground (arith, append-absent j k v d)

  pub absent_before_append :
      (k : K) (v : V) (d : Dict K V) → Distinct (d ++ (k, v) ∷ []) → lookup k d ≡ none
  unfolding lookup
  absent_before_append k v [] h = refl
  absent_before_append k v ((j, w) ∷ d) h =
      ground (arith, append-absent j k v d h.0, beq_comm k j, absent_before_append k v d h.1)

  pub lookup-append_ne :
      (j k : K) (v : V) (d : Dict K V) → (k == j) ≡ false → lookup j (d ++ (k, v) ∷ []) ≡ lookup j d
  unfolding lookup
  lookup-append_ne j k v [] h = rw h
  lookup-append_ne j k v ((i, w) ∷ d) h = ground (arith, lookup-append_ne j k v d h)

  pub lookup-append_right :
      (k : K) (v : V) (front back : Dict K V)
      → Distinct (front ++ back)
      → lookup k back ≡ some v
      → lookup k (front ++ back) ≡ some v
  unfolding lookup
  lookup-append_right k v [] back h p = p
  lookup-append_right k v ((j, w) ∷ front) back h p =
      ground (arith, lookup-append_right k v front back h.1 p, e.beq_iff j k, h.0)

  pub lookup-erase_self : (k : K) (d : Dict K V) → lookup k (erase k d) ≡ none
  lookup-erase_self k d = lookup-erase k k d ∙ rw (beq_refl k)

  pub move_to_end_absent : (k : K) (d : Dict K V) → lookup k d ≡ none → move_to_end k d ≡ d
  unfolding move_to_end
  move_to_end_absent k d h = ground arith

  pub move_to_end_present :
      (k : K) (v : V) (d : Dict K V)
      → lookup k d ≡ some v
      → move_to_end k d ≡ erase k d ++ (k, v) ∷ []
  unfolding move_to_end
  move_to_end_present k v d h = ground arith

  -- a key just inserted is already last
  pub move_to_end-insert_new :
      (k : K) (v : V) (d : Dict K V)
      → lookup k d ≡ none
      → move_to_end k (insert k v d) ≡ d ++ (k, v) ∷ []
  move_to_end-insert_new k v d h = rw (insert_new k v d h) (
      move_to_end_present k v (d ++ (k, v) ∷ []) (lookup-append_new k v d h)
      ∙ ap (λ r. r ++ (k, v) ∷ []) (erase-append_new k v d h))

  pub lookup-move_to_end : (j k : K) (d : Dict K V) → lookup j (move_to_end k d) ≡ lookup j d
  unfolding lookup
  lookup-move_to_end j k d = elim (Option-cases (lookup k d)) [
    | inl absent ↦ rw (move_to_end_absent k d absent)
    | inr (v, present) ↦ rw (move_to_end_present k v d present) (
        ground
          (arith, lookup-append j (erase k d) ((k, v) ∷ []), lookup-erase j k d, e.beq_iff k j))
  ]

  pub move_to_end-Distinct : (k : K) (d : Dict K V) → Distinct d → Distinct (move_to_end k d)
  move_to_end-Distinct k d h = elim (Option-cases (lookup k d)) [
    | inl absent ↦ rw (move_to_end_absent k d absent) h
    | inr (v, present) ↦
        rw (move_to_end_present k v d present)
          (append-Distinct k v (erase k d) (erase-Distinct k d h) (lookup-erase_self k d))
  ]

  pub length-move_to_end : (k : K) (d : Dict K V) → Distinct d → length (move_to_end k d) ≡ length d
  length-move_to_end k d h = elim (Option-cases (lookup k d)) [
    | inl absent ↦ rw (move_to_end_absent k d absent)
    | inr (v, present) ↦
        rw (move_to_end_present k v d present)
          (omega (arith, length-append (erase k d) ((k, v) ∷ []), length-erase k v d h present))
  ]

module _ {ℓ κ} {K : Type ℓ} {A : Type κ} where
  -- the items in all the values
  abbrev pub total_length : Dict K (List A) → ℕ
  total_length [] = 0
  total_length ((k, v) ∷ d) = length v + total_length d

  pub total_length-append :
      (d d' : Dict K (List A)) → total_length (d ++ d') ≡ total_length d + total_length d'
  total_length-append [] d' = omega arith
  total_length-append (x ∷ d) d' = omega (arith, total_length-append d d')

module _ {ℓ κ} {K : Type ℓ} {A : Type κ} ⦃e : Eq K⦄ where
  -- `len(d[key])`
  unfoldable pub size_of : K → Dict K (List A) → ℕ
  size_of key d = elim (lookup key d) [ none ↦ 0 | some v ↦ length v ]

  pub total_length-erase :
      (k : K) (d : Dict K (List A))
      → Distinct d
      → total_length (erase k d) + size_of k d ≡ total_length d
  unfolding erase lookup size_of
  total_length-erase k [] h = refl
  total_length-erase k ((j, v) ∷ d) h =
      ground (arith, total_length-erase k d h.1, erase_absent k d, e.beq_iff j k)

  pub size_of_present :
      (k : K) (v : List A) (d : Dict K (List A)) → lookup k d ≡ some v → size_of k d ≡ length v
  unfolding size_of
  size_of_present k v d h = ground arith

  pub total_length-move_to_end :
      (k : K) (d : Dict K (List A)) → Distinct d → total_length (move_to_end k d) ≡ total_length d
  total_length-move_to_end k d h = elim (Option-cases (lookup k d)) [
    | inl absent ↦ rw (move_to_end_absent k d absent)
    | inr (v, present) ↦ rw (move_to_end_present k v d present) (
        omega (
          arith,
          total_length-append (erase k d) ((k, v) ∷ []),
          total_length-erase k d h,
          size_of_present k v d present,
        ))
  ]
