-- ===== src/Uploads/Pool/Cover.antt =====
-- Which part of the program has a pending job in its hands.
use fusedrive_filesystem.Base.{
  zero, suc, text_beq_iff, some-inj, true-ne-false, get_elem?, arith, Bool-cases, ◌∷◌, ℕ, ◌||◌,
  text_eq, map, [], ◌++◌, mem, lookup, Text, List, Dict, refl, inl, inr, Bool, ◌==◌, ◌≡◌, true,
  false, some, ap, sym,
}
use fusedrive_filesystem.Uploads.Jobs.{State, Job, is_failed, submit_pending, submit_upload}
use fusedrive_filesystem.Uploads.Pool.{Pool, Running, take_out, drop_timer, drop_running}

abbrev pub timer_ids : List (ℕ × Text) → List Text
timer_ids timers = map (λ t. t.1) timers

abbrev pub running_ids : List Running → List Text
running_ids running = map (λ r. r.file_id) running

-- The pool has the id, a worker has, or a timer.
unfoldable pub is_covered : Text → Pool → Bool
is_covered id p =
    mem id p.manager.submitted
    || mem id (running_ids p.running)
    || mem id (timer_ids p.manager.timers)

abbrev pub IsCovered : Pool → Type 0
IsCovered p =
    (id : Text) (job : Job)
    → lookup id p.manager.queue ≡ some job
    → is_failed job ≡ false
    → is_covered id p ≡ true

pub mem-append_left : (x : Text) (xs ys : List Text) → mem x xs ≡ true → mem x (xs ++ ys) ≡ true
unfolding mem
mem-append_left x [] ys h = absurd (true-ne-false (sym h))
mem-append_left x (y ∷ xs) ys h = ground (arith, mem-append_left x xs ys)

pub mem-append_right : (x : Text) (xs ys : List Text) → mem x ys ≡ true → mem x (xs ++ ys) ≡ true
unfolding mem
mem-append_right x [] ys h = h
mem-append_right x (y ∷ xs) ys h = ground (arith, mem-append_right x xs ys h)

pub mem-take_out :
    (x y : Text) (xs : List Text)
    → mem x xs ≡ true
    → (y == x) ≡ false
    → mem x (take_out y xs) ≡ true
unfolding mem take_out
mem-take_out x y [] h other = h
mem-take_out x y (z ∷ xs) h other =
    ground (arith, mem-take_out x y xs, text_beq_iff z y, text_beq_iff z x, text_beq_iff y x)

pub mem-drop_timer :
    (x y : Text) (i delay : ℕ) (timers : List (ℕ × Text))
    → get_elem? timers i ≡ some (delay, y)
    → mem x (timer_ids timers) ≡ true
    → (y == x) ≡ false
    → mem x (timer_ids (drop_timer i timers)) ≡ true
unfolding mem drop_timer
mem-drop_timer x y i delay [] at_i h other = h
mem-drop_timer x y zero delay (t ∷ timers) at_i h other =
    let e : t.1 ≡ y = ap (λ (q : ℕ × Text). q.1) (some-inj at_i) in
    ground (arith, text_beq_iff t.1 x, text_beq_iff y x, e)
mem-drop_timer x y (suc i) delay (t ∷ timers) at_i h other =
    ground (arith, mem-drop_timer x y i delay timers at_i)

pub mem-drop_running :
    (x : Text) (i : ℕ) (r : Running) (running : List Running)
    → get_elem? running i ≡ some r
    → mem x (running_ids running) ≡ true
    → (r.file_id == x) ≡ false
    → mem x (running_ids (drop_running i running)) ≡ true
unfolding mem drop_running
mem-drop_running x i r [] at_i h other = h
mem-drop_running x zero r (t ∷ running) at_i h other =
    let e : t.file_id ≡ r.file_id = ap (λ (q : Running). q.file_id) (some-inj at_i) in
    ground (arith, text_beq_iff t.file_id x, text_beq_iff r.file_id x, e)
mem-drop_running x (suc i) r (t ∷ running) at_i h other =
    ground (arith, mem-drop_running x i r running at_i)

-- The loop of `_process_queue` submits what is pending, and changes no more than the pool.
pub submit_pending_keeps :
    (d : Dict Text Job) (s : State) (x : Text)
    → ((submit_pending d s).queue ≡ s.queue)
      × (mem x s.submitted ≡ true → mem x (submit_pending d s).submitted ≡ true)
unfolding submit_pending submit_upload
submit_pending_keeps [] s x = (refl, λ h. h)
submit_pending_keeps ((id, job) ∷ d) s x = elim (Bool-cases (is_failed job)) [
  | inl dead ↦ rw (submit_pending, dead) (submit_pending_keeps d s x)
  | inr alive ↦
      let (kept, more) = submit_pending_keeps d (submit_upload id s) x in
      rw (submit_pending, alive) (kept, λ h. more (mem-append_left x s.submitted (id ∷ []) h))
]

pub submit_pending_all :
    (d : Dict Text Job) (s : State) (x : Text) (job : Job)
    → lookup x d ≡ some job
    → is_failed job ≡ false
    → mem x (submit_pending d s).submitted ≡ true
unfolding submit_pending submit_upload lookup mem
submit_pending_all [] s x job found alive = cc
submit_pending_all ((id, first) ∷ d) s x job found alive = elim (Bool-cases (id == x)) [
  | inl same ↦
      let e : first ≡ job = some-inj (rw same at found) in
      let alive' : is_failed first ≡ false = rw e alive in
      rw (submit_pending, alive')
        ((submit_pending_keeps d (submit_upload id s) x).1
          (mem-append_right x s.submitted (id ∷ []) (ground arith)))
  | inr other ↦ submit_pending_all d _ x job (rw other at found) alive
]
