-- ===== src/Drive/Retrying.antt =====
-- `_execute_with_retry`, over what the documentation of tenacity promises.
use fusedrive_filesystem.Base.{
  [], ◌∷◌, text_eq, some, codes, mem, List, nat_eq, true-ne-false, Text, ◌==◌, sym, ◌∙◌, ap, arith,
  Bool-cases, zero, suc, refl, inl, inr, inr, false, suc, inl, ◌<◌, ◌⊎◌, ℕ, true, ◌≡◌, Bool,
}
use fusedrive_filesystem.Contracts.{deleted, permission_error, file_not_found_error, other_error}
use fusedrive_filesystem.Drive.{
  scan_reasons, scan_content, Failure, Reply, answers, fails, Result, answered, failed, gives_up,
  raises_other, RetryCall, is_retryable, Service, execute_with_retry, delete_file, deletion_error,
}

-- `retry`: the first attempt that answers ends the call; so does one whose exception is not to be
-- tried again, and it is raised; the last attempt that fails ends with a `RetryError`.
pub record Retries (retry_call : RetryCall) : Type 1 where
  pub on_answer :
      (A : Type 0) (p : Failure → Bool → Bool × Bool) (n : ℕ) (f : ℕ → Reply A) (tripped : Bool)
      (a : A)
      → f 0 ≡ answers a
      → retry_call A p (suc n) f tripped ≡ (answered a, tripped)
  pub on_final :
      (A : Type 0) (p : Failure → Bool → Bool × Bool) (n : ℕ) (f : ℕ → Reply A)
      (tripped after : Bool) (e : Failure)
      → f 0 ≡ fails e
      → p e tripped ≡ (false, after)
      → retry_call A p (suc n) f tripped ≡ (failed e, after)
  pub on_last :
      (A : Type 0) (p : Failure → Bool → Bool × Bool) (f : ℕ → Reply A) (tripped after : Bool)
      (e : Failure)
      → f 0 ≡ fails e
      → p e tripped ≡ (true, after)
      → retry_call A p 1 f tripped ≡ (gives_up e, after)
  pub on_again :
      (A : Type 0) (p : Failure → Bool → Bool × Bool) (n : ℕ) (f : ℕ → Reply A)
      (tripped after : Bool) (e : Failure)
      → f 0 ≡ fails e
      → p e tripped ≡ (true, after)
      → retry_call A p (suc (suc n)) f tripped ≡ retry_call A p (suc n) (λ i. f (suc i)) after

-- An exception that is tried again and does not trip the breaker.
abbrev pub IsTransient : (Failure → Bool → Bool × Bool) → Failure → Type 0
IsTransient p e = (tripped : Bool) → p e tripped ≡ (true, tripped)

-- The request ends so at the attempt `k`, and fails before it in ways that are tried again.
pub data EndsAt {A : Type 0} (p : Failure → Bool → Bool × Bool) (r : Reply A)
    : ℕ → (ℕ → Reply A) → Type 0 where
  at_once : {f : ℕ → Reply A} → f 0 ≡ r → EndsAt p r 0 f
  later :
      {k : ℕ} {f : ℕ → Reply A} (e : Failure)
      → f 0 ≡ fails e
      → IsTransient p e
      → EndsAt p r k (λ i. f (suc i))
      → EndsAt p r (suc k) f

Reply-cases :
    {A : Type 0} (r : Reply A) → ((a : A) × (r ≡ answers a)) ⊎ ((e : Failure) × (r ≡ fails e))
Reply-cases (answers a) = inl (a, refl)
Reply-cases (fails e) = inr (e, refl)

answered-ne-failed :
    {A : Type 0} {a : A} {e : Failure} {r : Result A} → r ≡ answered a → r ≡ failed e → ⊥
answered-ne-failed g h = cc

gives_up-ne-failed : {A : Type 0} {d e : Failure} {r : Result A} → r ≡ gives_up d → r ≡ failed e → ⊥
gives_up-ne-failed g h = cc

failed-inj : {A : Type 0} {d e : Failure} {r : Result A} → r ≡ failed d → r ≡ failed e → d ≡ e
failed-inj g h = cc

Result-cases :
    {A : Type 0} (r : Result A)
    → ((a : A) × (r ≡ answered a))
      ⊎ (((e : Failure) × (r ≡ failed e))
          ⊎ (((e : Failure) × (r ≡ gives_up e)) ⊎ (r ≡ raises_other)))
Result-cases (answered a) = inl (a, refl)
Result-cases (failed e) = inr (inl (e, refl))
Result-cases (gives_up e) = inr (inr (inl (e, refl)))
Result-cases raises_other = inr (inr (inr refl))

module _ (retry_call : RetryCall) (laws : Retries retry_call) where
  -- Fewer transient failures than attempts do not show.
  pub retry_answers :
      {A : Type 0} (p : Failure → Bool → Bool × Bool) (k n : ℕ) (f : ℕ → Reply A) (a : A)
      (tripped : Bool)
      → EndsAt p (answers a) k f
      → k < n
      → retry_call A p n f tripped ≡ (answered a, tripped)
  retry_answers p k zero f a tripped h less = absurd (omega (arith, less))
  retry_answers {A} p k (suc n) f a tripped (at_once now) less =
      laws.on_answer A p n f tripped a now
  retry_answers p (suc k) (suc zero) f a tripped (later e now transient rest) less =
      absurd (omega (arith, less))
  retry_answers {A} p (suc k) (suc (suc n)) f a tripped (later e now transient rest) less =
      laws.on_again A p n f tripped tripped e now (transient tripped)
      ∙ retry_answers p k (suc n) (λ i. f (suc i)) a tripped rest (omega (arith, less))

  pub retry_raises :
      {A : Type 0} (p : Failure → Bool → Bool × Bool) (k n : ℕ) (f : ℕ → Reply A) (e : Failure)
      (tripped after : Bool)
      → EndsAt p (fails e) k f
      → p e tripped ≡ (false, after)
      → k < n
      → retry_call A p n f tripped ≡ (failed e, after)
  retry_raises p k zero f e tripped after h last less = absurd (omega (arith, less))
  retry_raises {A} p k (suc n) f e tripped after (at_once now) last less =
      laws.on_final A p n f tripped after e now last
  retry_raises p (suc k) (suc zero) f e tripped after (later first now transient rest) last less =
      absurd (omega (arith, less))
  retry_raises {A} p (suc k) (suc (suc n)) f e tripped after (later first now transient rest) last
        less =
      laws.on_again A p n f tripped tripped first now (transient tripped)
      ∙ retry_raises p k (suc n) (λ i. f (suc i)) e tripped after rest last (omega (arith, less))

  raised_final :
      {A : Type 0} (p : Failure → Bool → Bool × Bool) (n : ℕ) (f : ℕ → Reply A) (d e : Failure)
      (tripped : Bool)
      → f 0 ≡ fails d
      → (p d tripped).0 ≡ false
      → (retry_call A p (suc n) f tripped).0 ≡ failed e
      → (before : Bool) × ((p e before).0 ≡ false)
  raised_final {A} p n f d e tripped now final h =
      let call =
        laws.on_final A p n f tripped (p d tripped).1 d now
          (ap (λ b. (b, (p d tripped).1)) final) in
      (tripped, ap (λ i. (p i tripped).0) (sym (failed-inj (ap (λ r. r.0) call) h)) ∙ final)

  -- An exception that the call raises was not to be tried again.
  pub retry_fails :
      {A : Type 0} (p : Failure → Bool → Bool × Bool) (n : ℕ) (f : ℕ → Reply A) (e : Failure)
      (tripped : Bool)
      → (retry_call A p (suc n) f tripped).0 ≡ failed e
      → (before : Bool) × ((p e before).0 ≡ false)
  retry_fails {A} p zero f e tripped h = elim (Reply-cases (f 0)) [
    | inl (a, now) ↦
        absurd (answered-ne-failed (ap (λ r. r.0) (laws.on_answer A p 0 f tripped a now)) h)
    | inr (d, now) ↦ elim (Bool-cases (p d tripped).0) [
      | inr final ↦ raised_final p 0 f d e tripped now final h
      | inl again ↦ absurd (
          gives_up-ne-failed
            (ap (λ r. r.0)
              (laws.on_last A p f tripped (p d tripped).1 d now
                (ap (λ b. (b, (p d tripped).1)) again)))
            h)
    ]
  ]
  retry_fails {A} p (suc n) f e tripped h = elim (Reply-cases (f 0)) [
    | inl (a, now) ↦
        absurd (answered-ne-failed (ap (λ r. r.0) (laws.on_answer A p (suc n) f tripped a now)) h)
    | inr (d, now) ↦ elim (Bool-cases (p d tripped).0) [
      | inr final ↦ raised_final p (suc n) f d e tripped now final h
      | inl again ↦
          let call =
            laws.on_again A p n f tripped (p d tripped).1 d now
              (ap (λ b. (b, (p d tripped).1)) again) in
          retry_fails p n (λ i. f (suc i)) e (p d tripped).1 (sym (ap (λ r. r.0) call) ∙ h)
    ]
  ]

-- What is not tried again: a 404, a 403, or what is no error of the API.
final_kinds :
    (e : Failure) (tripped : Bool)
    → (is_retryable e tripped).0 ≡ false
    → ((deletion_error e ≡ other_error) × (e.is_http_error ≡ false))
      ⊎ (((deletion_error e ≡ permission_error) × (e.is_http_error ≡ true) × (e.status ≡ 403))
          ⊎ ((deletion_error e ≡ file_not_found_error)
              × (e.is_http_error ≡ true)
              × (e.status ≡ 404)))
unfolding is_retryable deletion_error
final_kinds e tripped h = elim (Bool-cases e.is_http_error) [
  | inr foreign ↦ inl (ground arith, foreign)
  | inl http ↦ elim (Bool-cases (e.status == 403)) [
    | inl forbidden ↦ inr (inl (ground arith, http, ground arith))
    | inr other ↦ elim (Bool-cases (e.status == 404)) [
      | inl missing ↦ inr (inr (ground arith, http, ground arith))
      | inr neither ↦ absurd (true-ne-false (ground arith))
    ]
  ]
]

-- The exception of the call is none of the API: it is the `RetryError`, another one, or one that
-- the request raised and that is no `HttpError`.
abbrev pub IsForeign : Result Unit → Type 0
IsForeign r =
    ((e : Failure) × (r ≡ gives_up e))
    ⊎ ((r ≡ raises_other) ⊎ ((e : Failure) × (r ≡ failed e) × (e.is_http_error ≡ false)))

-- With `retry` as documented, `delete_file` returns only if the request was answered; it raises
-- PermissionError where the call raised an HttpError with status 403, FileNotFoundError where it
-- raised one with status 404, and any other exception only where the call gave up retrying or
-- raised what is no HttpError: its last branch, the plain OSError, is never taken.
pub delete-outcomes :
    (retry_call : RetryCall) (service : Service) (file_id : Text) (tripped : Bool)
    → Retries retry_call
    → let call = execute_with_retry retry_call Unit (service.delete_request file_id) tripped in
      let outcome = (delete_file retry_call service file_id tripped).0 in
      ((outcome ≡ deleted) × (call.0 ≡ answered tt))
      ⊎ (((outcome ≡ other_error) × IsForeign call.0)
          ⊎ (e : Failure) × (call.0 ≡ failed e)
            × (((outcome ≡ permission_error) × (e.is_http_error ≡ true) × (e.status ≡ 403))
                ⊎ ((outcome ≡ file_not_found_error) × (e.is_http_error ≡ true) × (e.status ≡ 404))))
unfolding delete_file
delete-outcomes retry_call service file_id tripped laws =
    let call : Result Unit × Bool =
      execute_with_retry retry_call Unit (service.delete_request file_id) tripped in
    elim (Result-cases call.0) [
      | inl (a, done) ↦ inl (rw (delete_file, done) refl, done)
      | inr (inl (e, raised)) ↦
          let (before, final) =
            retry_fails retry_call laws is_retryable 4 (service.delete_request file_id) e tripped
              raised in
          let same : (delete_file retry_call service file_id tripped).0 ≡ deletion_error e =
            rw (delete_file, raised) refl in
          elim (final_kinds e before final) [
            | inl (foreign, kind) ↦ inr (inl (same ∙ foreign, inr (inr (e, raised, kind))))
            | inr (inl (denied, kind, status)) ↦
                inr (inr (e, raised, inl (same ∙ denied, kind, status)))
            | inr (inr (missing, kind, status)) ↦
                inr (inr (e, raised, inr (same ∙ missing, kind, status)))
          ]
      | inr (inr (inl (e, gave_up))) ↦ inr (inl (rw (delete_file, gave_up) refl, inl (e, gave_up)))
      | inr (inr (inr other)) ↦ inr (inl (rw (delete_file, other) refl, inr (inl other)))
    ]

scan_quota :
    (reasons : List Text) (tripped : Bool)
    → mem (codes "storageQuotaExceeded") reasons ≡ true
    → mem (codes "insufficientFilePermissions") reasons ≡ false
    → scan_reasons reasons tripped ≡ (some false, true)
unfolding scan_reasons mem
scan_quota [] tripped named other = cc
scan_quota (reason ∷ reasons) tripped named other =
    elim (Bool-cases (reason == codes "storageQuotaExceeded")) [
      | inl here ↦ rw (scan_reasons, here) refl
      | inr further ↦
          let different : (reason == codes "insufficientFilePermissions") ≡ false =
            ground (arith, other) in
          rw (scan_reasons, further, different)
            (scan_quota reasons tripped (ground (arith, named)) (ground (arith, other)))
    ]

retry_quota :
    (e : Failure) (reasons : List Text) (tripped : Bool)
    → e.is_http_error ≡ true
    → e.status ≡ 403
    → e.reasons ≡ some reasons
    → scan_reasons reasons tripped ≡ (some false, true)
    → is_retryable e tripped ≡ (false, true)
unfolding is_retryable scan_content
retry_quota e reasons tripped http forbidden said scanned =
    simp (http, forbidden, said, scanned) refl

-- With `retry` as documented, a request that fails at one of its five attempts, after transient
-- failures, with status 403 and reasons that name `storageQuotaExceeded` and not
-- `insufficientFilePermissions`, is not tried again: the exception is raised and the circuit
-- breaker is tripped.
pub quota-trips :
    (retry_call : RetryCall) (A : Type 0) (request : ℕ → Reply A) (k : ℕ) (e : Failure)
    (reasons : List Text) (tripped : Bool)
    → Retries retry_call
    → EndsAt is_retryable (fails e) k request
    → k < 5
    → e.is_http_error ≡ true
    → e.status ≡ 403
    → e.reasons ≡ some reasons
    → mem (codes "storageQuotaExceeded") reasons ≡ true
    → mem (codes "insufficientFilePermissions") reasons ≡ false
    → execute_with_retry retry_call A request tripped ≡ (failed e, true)
quota-trips retry_call A request k e reasons tripped laws ends few http forbidden said named other =
    let scanned = scan_quota reasons tripped named other in
    retry_raises retry_call laws is_retryable k 5 request e tripped true ends
      (retry_quota e reasons tripped http forbidden said scanned) few
