-- ===== src/Locks/Manager/Threads/Graph.antt =====
-- Which thread waits for which: a thread for every holder of the lock that it waits for.
use fusedrive_filesystem.Base.{
  nat_beq_iff, if_false, if_true, some-inj, true-ne-false, if◌then◌else◌, Dict, Bool-cases, text_eq,
  ◌⊎◌, ◌∙◌, nat_eq, beq_ne, [], lookup, Text, ℕ, refl, inl, inr, Bool, ◌==◌, ◌≡◌, true, false, some,
  none, ap, sym, subst,
}
use fusedrive_filesystem.Locks.Manager.{LockManager, owners_of}
use fusedrive_filesystem.Locks.Manager.Chains.{holds, Leads, IsDeadlock, target_itself, through}
use fusedrive_filesystem.Locks.Manager.Threads.{IsProper}

pub record Edge (m : LockManager) (t u : ℕ) : Type 0 where
  pub key : Text
  pub waits : lookup t m.waiting ≡ some key
  pub held : holds u (owners_of key m) ≡ true

pub same_owners :
    (m m' : LockManager) (k : Text)
    → m'.allocations ≡ m.allocations
    → owners_of k m' ≡ owners_of k m
unfolding owners_of
same_owners m m' k e =
    ap
      (λ (d : Dict Text (Dict ℕ ℕ)). elim (lookup k d) as (λ x. Dict ℕ ℕ) [
        | none ↦ []
        | some owners ↦ owners
      ])
      e

pub data Chain (m : LockManager) : ℕ → ℕ → Type 0 where
  one : {t u : ℕ} → Edge m t u → Chain m t u
  more : {t u v : ℕ} → Edge m t u → Chain m u v → Chain m t v

-- No thread waits for itself, be it through others.
pub record IsAcyclic (m : LockManager) : Type 0 where
  pub no_cycle : (t : ℕ) → ¬ Chain m t t
  pub named : (t : ℕ) (key : Text) → lookup t m.waiting ≡ some key → (key == []) ≡ false

pub chain_waits : (m : LockManager) (t u : ℕ) → Chain m t u → ¬ (lookup t m.waiting ≡ none)
chain_waits m t u (one e) free = absurd (let q : some e.key ≡ none = sym e.waits ∙ free in cc)
chain_waits m t u (more e rest) free = absurd (let q : some e.key ≡ none = sym e.waits ∙ free in cc)

pub chain_append : {m : LockManager} {t u v : ℕ} → Chain m t u → Chain m u v → Chain m t v
chain_append (one e) after = more e after
chain_append (more e rest) after = more e (chain_append rest after)

-- The same waiting threads and holders, whatever else is different.
pub SameGraph-IsAcyclic :
    (m m' : LockManager)
    → m'.waiting ≡ m.waiting
    → m'.allocations ≡ m.allocations
    → IsAcyclic m
    → IsAcyclic m'
SameGraph-IsAcyclic m m' waiting_same owners_same h = record {
  no_cycle = λ t cycle. h.no_cycle t (back cycle);
  named = λ t key waits. h.named t key (ap (lookup t) (sym waiting_same) ∙ waits);
}
  where
    back_edge : {t u : ℕ} → Edge m' t u → Edge m t u
    back_edge {t} {u} e = record {
      key = e.key;
      waits = ap (lookup t) (sym waiting_same) ∙ e.waits;
      held = ap (holds u) (sym (same_owners m m' e.key owners_same)) ∙ e.held;
    }

    back : {t u : ℕ} → Chain m' t u → Chain m t u
    back (one e) = one (back_edge e)
    back (more e rest) = more (back_edge e) (back rest)

-- A change after which one thread is free, that thread may hold more, and nothing else is new.
pub record Settles (tid : ℕ) (m m' : LockManager) : Type 0 where
  pub waits : (t : ℕ) (k : Text) → lookup t m'.waiting ≡ some k → lookup t m.waiting ≡ some k
  pub held :
      (u : ℕ) (k : Text)
      → holds u (owners_of k m') ≡ true
      → (holds u (owners_of k m) ≡ true) ⊎ (u ≡ tid)
  pub free : lookup tid m'.waiting ≡ none

settled-Edge :
    {m m' : LockManager} {t u : ℕ} (tid : ℕ)
    → Settles tid m m'
    → ¬ (u ≡ tid)
    → Edge m' t u
    → Edge m t u
settled-Edge {m} {m'} {t} {u} tid s other e = elim (s.held u e.key e.held) [
  | inl before ↦ record { key = e.key; waits = s.waits t e.key e.waits; held = before }
  | inr own ↦ absurd (other own)
]

settled_chain :
    {m m' : LockManager} {t u : ℕ} (tid : ℕ)
    → Settles tid m m'
    → ¬ (u ≡ tid)
    → Chain m' t u
    → Chain m t u
settled_chain tid s other (one e) = one (settled-Edge tid s other e)
settled_chain {m} {m'} tid s other (more {t} {u} {v} e rest) =
    more
      (settled-Edge tid s
        (λ same. chain_waits m' u v rest (ap (λ i. lookup i m'.waiting) same ∙ s.free)) e)
      (settled_chain tid s other rest)

pub Settles-IsAcyclic :
    (tid : ℕ) (m m' : LockManager) → Settles tid m m' → IsAcyclic m → IsAcyclic m'
Settles-IsAcyclic tid m m' s h = record {
  no_cycle = λ t cycle. h.no_cycle t (
      settled_chain tid s
        (λ same. chain_waits m' t t cycle (ap (λ i. lookup i m'.waiting) same ∙ s.free)) cycle);
  named = λ t key waits. h.named t key (s.waits t key waits);
}

-- A chain from a holder of a lock that the search reaches, to the thread that asks.
lead :
    (m : LockManager) (tid : ℕ) {t u : ℕ} (target l : Text)
    → lookup tid m.waiting ≡ none
    → IsAcyclic m
    → Leads m tid target l
    → holds t (owners_of l m) ≡ true
    → Chain m t u
    → u ≡ tid
    → (l' : Text) × Leads m tid target l' × (holds tid (owners_of l' m) ≡ true)
lead m tid {t} {u} target l free h leads held (one e) last = (
  e.key,
  through t e.key leads held
      (beq_ne t tid (λ same. chain_waits m t u (one e) (ap (λ i. lookup i m.waiting) same ∙ free)))
      e.waits (h.named t e.key e.waits),
  subst (λ i. holds i (owners_of e.key m) ≡ true) last e.held,
)
lead m tid target l free h leads held (more {t} {u} {v} e rest) last =
    lead m tid target e.key free h
      (through t e.key leads held
        (beq_ne t tid
          (λ same. chain_waits m t v (more e rest) (ap (λ i. lookup i m.waiting) same ∙ free)))
        e.waits (h.named t e.key e.waits))
      e.held rest last

-- A change after which one thread waits, and nothing else is new.
pub record Waits (tid : ℕ) (key : Text) (m m' : LockManager) : Type 0 where
  pub waits : (t : ℕ) → lookup t m'.waiting ≡ (if tid == t then some key else lookup t m.waiting)
  pub same : m'.allocations ≡ m.allocations

-- A chain afterwards: one of before, or one that comes to the thread and goes on from a holder of
-- the lock that it waits for.
abbrev Splits : ℕ → Text → LockManager → ℕ → ℕ → Type 0
Splits tid key m x y =
    Chain m x y
    ⊎ (((x ≡ tid) ⊎ Chain m x tid)
        × (h : ℕ) × (holds h (owners_of key m) ≡ true)
        × ((h ≡ y) ⊎ Chain m h y))

split-Edge :
    (tid : ℕ) (key : Text) (m m' : LockManager) (x y : ℕ)
    → Waits tid key m m'
    → Edge m' x y
    → Edge m x y ⊎ ((x ≡ tid) × (holds y (owners_of key m) ≡ true))
split-Edge tid key m m' x y w e =
    let kept : holds y (owners_of e.key m) ≡ true =
      ap (holds y) (sym (same_owners m m' e.key w.same)) ∙ e.held in
    elim (Bool-cases (tid == x)) [
      | inl own ↦
          let k : key ≡ e.key =
            some-inj (sym (if_true (tid == x) (some key) _ own) ∙ sym (w.waits x) ∙ e.waits) in
          inr (
            sym ((nat_beq_iff tid x).0 own),
            subst (λ i. holds y (owners_of i m) ≡ true) (sym k) kept,
          )
      | inr other ↦ inl (record {
        key = e.key;
        waits = sym (if_false (tid == x) (some key) _ other) ∙ sym (w.waits x) ∙ e.waits;
        held = kept;
      })
    ]

split_chain :
    (tid : ℕ) (key : Text) (m m' : LockManager) {x y : ℕ}
    → Waits tid key m m'
    → Chain m' x y
    → Splits tid key m x y
split_chain tid key m m' {x} {y} w (one e) = elim (split-Edge tid key m m' x y w e) [
  | inl before ↦ inl (one before)
  | inr (own, held) ↦ inr (inl own, y, held, inl refl)
]
split_chain tid key m m' {x} {y} w (more {t} {u} {v} e rest) =
    elim (split-Edge tid key m m' t u w e) [
      | inl before ↦ elim (split_chain tid key m m' w rest) [
        | inl after ↦ inl (more before after)
        | inr (inl arrives, h, top, goes) ↦
            inr (inr (subst (λ i. Chain m t i) arrives (one before)), h, top, goes)
        | inr (inr comes, h, top, goes) ↦ inr (inr (more before comes), h, top, goes)
      ]
      | inr (own, held) ↦ elim (split_chain tid key m m' w rest) [
        | inl after ↦ inr (inl own, u, held, inr after)
        | inr (comes, h, top, goes) ↦ inr (inl own, h, top, goes)
      ]
    ]

-- A holder of the lock from which the thread is reached makes a deadlock, for a proper request.
reaches-IsDeadlock :
    (m : LockManager) (tid : ℕ) (key : Text) (is_write : Bool) (h : ℕ)
    → IsAcyclic m
    → lookup tid m.waiting ≡ none
    → IsProper is_write key tid m
    → holds h (owners_of key m) ≡ true
    → ((h ≡ tid) ⊎ Chain m h tid)
    → IsDeadlock m tid key is_write
reaches-IsDeadlock m tid key is_write h acyclic free (full, proper) held (inl same) =
    let own : holds tid (owners_of key m) ≡ true =
      subst (λ i. holds i (owners_of key m) ≡ true) same held in
    (
      key,
      target_itself,
      own,
      elim proper [
        | inl writes ↦ inl writes
        | inr not_held ↦ absurd (true-ne-false (sym own ∙ not_held))
      ],
    )
reaches-IsDeadlock m tid key is_write h acyclic free (full, proper) held (inr chain) =
    let (l, leads, own) = lead m tid key key free acyclic target_itself held chain refl in
    (
      l,
      leads,
      own,
      elim proper [
        | inl writes ↦ inl writes
        | inr not_held ↦
            inr (λ same.
              true-ne-false (sym own ∙ ap (λ i. holds tid (owners_of i m)) same ∙ not_held))
      ],
    )

pub Waits-IsAcyclic :
    (tid : ℕ) (key : Text) (is_write : Bool) (m m' : LockManager)
    → Waits tid key m m'
    → lookup tid m.waiting ≡ none
    → IsProper is_write key tid m
    → ¬ IsDeadlock m tid key is_write
    → IsAcyclic m
    → IsAcyclic m'
Waits-IsAcyclic tid key is_write m m' w free proper safe h = record {
  no_cycle = λ t cycle. elim (split_chain tid key m m' w cycle) [
    | inl before ↦ h.no_cycle t before
    | inr (comes, holder, held, goes) ↦ safe (
        reaches-IsDeadlock m tid key is_write holder h free proper held
          (join_ends m t tid holder comes goes))
  ];
  named = λ t k waits. elim (Bool-cases (tid == t)) [
    | inl own ↦
        let e : key ≡ k =
          some-inj (sym (if_true (tid == t) (some key) _ own) ∙ sym (w.waits t) ∙ waits) in
        subst (λ i. (i == []) ≡ false) e proper.0
    | inr other ↦
        h.named t k (sym (if_false (tid == t) (some key) _ other) ∙ sym (w.waits t) ∙ waits)
  ];
}
  where
    join_ends :
        (m : LockManager) (t tid holder : ℕ)
        → ((t ≡ tid) ⊎ Chain m t tid)
        → ((holder ≡ t) ⊎ Chain m holder t)
        → (holder ≡ tid) ⊎ Chain m holder tid
    join_ends m t tid holder (inl a) (inl b) = inl (b ∙ a)
    join_ends m t tid holder (inl a) (inr c) = inr (subst (λ i. Chain m holder i) a c)
    join_ends m t tid holder (inr c) (inl b) = inr (subst (λ i. Chain m i tid) (sym b) c)
    join_ends m t tid holder (inr c) (inr d) = inr (chain_append d c)
