-- ===== src/Backoff.antt =====
-- Repeating an action with waits that double: pkg/backoff/backoff.go. The action is the environment's:
-- `action i` is the result of its i-th call. A run records the waits, the latest first.
pub mod Calls
mod Tests
use superform_go_utils.Prelude.{
  ℕ, zero, suc, ◌-◌, Bool, true, false, not, List, [], ◌∷◌, Option, none, some, nat_beq,
  if◌then◌else◌,
}
use superform_go_utils.Prelude.Int.{ℤ}
use superform_go_utils.Prelude.Int64.{doubled}

-- `cancelled e` joins the context's error to that of the action.
pub data BackoffError (E : Type 0) : Type 0 where
  action_failed cancelled : E → BackoffError E

pub record Run (E : Type 0) : Type 0 where
  pub calls : ℕ
  pub waits : List ℤ
  pub result : Option (BackoffError E)

module _ {E : Type 0} (action : ℕ → Option E × Bool) where
  -- The iterations that are left, from the i-th on; a call without an error ends the loop.
  unfoldable pub attempt_loop : ℕ → ℕ → ℤ → List ℤ → Option (BackoffError E) → Run E
  attempt_loop zero i wait waits last = record { calls = i; waits = waits; result = last }
  attempt_loop (suc left) i wait waits last =
      let wait_last = attempt_loop left (suc i) wait waits in
      let wait_more = attempt_loop left (suc i) (doubled wait) (wait ∷ waits) in
      elim (action i).0 [
        | none ↦ record { calls = suc i; waits = waits; result = none }
        | some e ↦
            if not (action i).1
            then record { calls = suc i; waits = waits; result = some (action_failed e) }
            else if nat_beq left 0
            then wait_last (some (action_failed e))
            else wait_more (some (action_failed e))
      ]

  unfoldable pub exponential : ℕ → ℤ → Run E
  unfolding attempt_loop
  exponential max wait = attempt_loop max 0 wait [] none

  -- `gives_up i` says that the context is done while the loop waits after the i-th call.
  module _ (gives_up : ℕ → Bool) where
    unfoldable pub context_loop : ℕ → ℕ → ℤ → List ℤ → Option (BackoffError E) → Run E
    context_loop zero i wait waits last = record { calls = i; waits = waits; result = last }
    context_loop (suc left) i wait waits last =
        let wait_last = context_loop left (suc i) wait waits in
        let wait_more = context_loop left (suc i) (doubled wait) (wait ∷ waits) in
        elim (action i).0 [
          | none ↦ record { calls = suc i; waits = waits; result = none }
          | some e ↦
              if not (action i).1
              then record { calls = suc i; waits = waits; result = some (action_failed e) }
              else if nat_beq left 0
              then wait_last (some (action_failed e))
              else if gives_up i
              then record { calls = suc i; waits = waits; result = some (cancelled e) }
              else wait_more (some (action_failed e))
        ]

    unfoldable pub exponential_with_context : ℕ → ℤ → Run E
    unfolding context_loop
    exponential_with_context max wait = context_loop max 0 wait [] none
