-- ===== src/Dispatcher/Stopping.antt =====
-- A dispatcher that has been shut down.
use fusedrive_filesystem.Base.{
  ◌==◌, text_eq, Bool-cases, ◌∷◌, ◌∙◌, [], Option-cases, Option, ◌⊎◌, Dict, Bool, refl, inl, inr,
  some, none, Text, ◌≡◌, lookup,
}
use fusedrive_filesystem.Dispatcher.{
  Executors, RequestDispatcher, unknown_pool, refused, submit, shutdown, shut_down_all,
}

-- An executor that was shut down raises `RuntimeError` for every task.
pub record Refuses {E T : Type 0} (executors : Executors E T) : Type 0 where
  pub after :
      (wait : Bool) (task : T) (e : E)
      → executors.submit_to task (executors.shut_down wait e) ≡ none

lookup-shut_down_all :
    {E T : Type 0} (executors : Executors E T) (wait : Bool) (name : Text) (pools : Dict Text E)
    → lookup name (shut_down_all executors wait pools)
      ≡ elim (lookup name pools) as (λ x. Option E) [
        | none ↦ none
        | some e ↦ some (executors.shut_down wait e)
      ]
unfolding lookup shut_down_all
lookup-shut_down_all executors wait name [] = refl
lookup-shut_down_all executors wait name ((n, e) ∷ pools) = elim (Bool-cases (n == name)) [
  | inl here ↦ rw here refl
  | inr further ↦ rw further (lookup-shut_down_all executors wait name pools)
]

pub shutdown-Refuses :
    {E T : Type 0} (executors : Executors E T) (wait : Bool) (name : Text) (task : T)
    (d : RequestDispatcher E)
    → Refuses executors
    → let (outcome, after) = submit executors name task (shutdown executors wait d) in
      ((lookup name d.pools ≡ none)
        × (outcome ≡ unknown_pool)
        × (after ≡ shutdown executors wait d))
      ⊎ ((outcome ≡ refused) × (after.pools ≡ (shutdown executors wait d).pools))
unfolding submit shutdown
shutdown-Refuses executors wait name task d refuses = elim (Option-cases (lookup name d.pools)) [
  | inl unknown ↦
      let gone : lookup name (shut_down_all executors wait d.pools) ≡ none =
        lookup-shut_down_all executors wait name d.pools ∙ rw unknown refl in
      inl (rw (submit, gone) (unknown, refl, refl))
  | inr (e, there) ↦
      let stopped : lookup name (shut_down_all executors wait d.pools)
          ≡ some (executors.shut_down wait e) =
        lookup-shut_down_all executors wait name d.pools ∙ rw there refl in
      inr (rw (submit, stopped, refuses.after wait task e) (refl, refl))
]
