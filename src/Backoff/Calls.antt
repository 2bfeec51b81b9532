-- ===== src/Backoff/Calls.antt =====
-- How often the action is called, and what is returned (pkg/backoff/backoff.go).
use superform_go_utils.Prelude.{
  ℕ, zero, suc, ◌+◌, ◌≤◌, ◌<◌, Bool, true, false, List, [], ◌∷◌, Option, none, some, nat_beq,
  length, ◌≡◌, refl, subst, sym, ap, arith, inl, inr, ◌⊎◌, Bool-cases, Option-cases,
}
use superform_go_utils.Prelude.Int.{ℤ}
use superform_go_utils.Prelude.Int64.{doubled}
use superform_go_utils.Backoff.{
  BackoffError, action_failed, Run, attempt_loop, exponential, context_loop,
  exponential_with_context,
}

abbrev pub failure : {E : Type 0} → Option E → Option (BackoffError E)
failure none = none
failure (some e) = some (action_failed e)

module _ {E : Type 0} (action : ℕ → Option E × Bool) where
  -- The i-th call failed with an error that may be retried.
  abbrev pub Retried : ℕ → Type 0
  Retried i = (e : E) × (action i ≡ (some e, true))

  -- A call after which the loop ends: it succeeds or its error is final.
  abbrev pub Ends : ℕ → Type 0
  Ends i = ((action i).0 ≡ none) ⊎ ((action i).1 ≡ false)

  -- What a loop of `left + 1` iterations from the i-th on does.
  abbrev Outcome : ℕ → ℕ → ℕ → Run E → Type 0
  Outcome i left done run =
      (m : ℕ) × (run.calls ≡ suc m)
      × (i ≤ m)
      × (m ≤ i + left)
      × ((j : ℕ) → i ≤ j → j < m → Retried j)
      × ((m ≡ i + left) ⊎ Ends m)
      × (run.result ≡ failure (action m).0)
      × (length run.waits + i ≡ done + m)

  -- The i-th call was retried, and the rest of the loop follows.
  further :
      (i left done : ℕ) (e : E) (run : Run E)
      → (action i).0 ≡ some e
      → (action i).1 ≡ true
      → Outcome (suc i) left (suc done) run
      → Outcome i (suc left) done run
  further i left done e run failed again (m, calls, low, high, before, ends, result, waits) = (
    m,
    calls,
    omega (arith, low),
    omega (arith, high),
    (λ j from below. elim (Bool-cases (nat_beq i j)) [
      | inl first ↦
          let same : i ≡ j = ground arith in subst Retried same (e, (λ k. (failed k, again k)))
      | inr later ↦ before j (ground arith) below
    ]),
    elim ends [ inl at_last ↦ inl (omega (arith, at_last)) | inr early ↦ inr early ],
    result,
    omega (arith, waits),
  )

  ended :
      (i left : ℕ) (waits : List ℤ) (result : Option (BackoffError E))
      → ((i ≡ i + left) ⊎ Ends i)
      → result ≡ failure (action i).0
      → Outcome i left (length waits) (record { calls = suc i; waits = waits; result = result })
  ended i left waits result ends same =
      (i, refl, omega arith, omega arith, (λ j from below. absurd (omega arith)), ends, same, refl)

  loop_done :
      (left i : ℕ) (wait : ℤ) (waits : List ℤ) (last : Option (BackoffError E))
      → (action i).0 ≡ none
      → attempt_loop action (suc left) i wait waits last
        ≡ record { calls = suc i; waits = waits; result = none }
  unfolding attempt_loop
  loop_done left i wait waits last done = rw (attempt_loop, done) refl

  loop_final :
      (left i : ℕ) (wait : ℤ) (waits : List ℤ) (last : Option (BackoffError E)) (e : E)
      → (action i).0 ≡ some e
      → (action i).1 ≡ false
      → attempt_loop action (suc left) i wait waits last
        ≡ record { calls = suc i; waits = waits; result = some (action_failed e) }
  unfolding attempt_loop
  loop_final left i wait waits last e failed final = rw (attempt_loop, failed, final) refl

  one_more :
      (left i : ℕ) (wait : ℤ) (waits : List ℤ) (last : Option (BackoffError E)) (e : E)
      → (action i).0 ≡ some e
      → (action i).1 ≡ true
      → nat_beq left 0 ≡ false
      → attempt_loop action (suc left) i wait waits last
        ≡ attempt_loop action left (suc i) (doubled wait) (wait ∷ waits) (some (action_failed e))
  unfolding attempt_loop
  one_more left i wait waits last e failed again more = rw (attempt_loop, failed, again, more) refl

  -- What is known of the iterations behind the i-th.
  abbrev Rest : ℕ → ℕ → Type 0
  Rest left i =
      (k : ℕ)
      → left ≡ suc k
      → (wait : ℤ) (waits : List ℤ) (last : Option (BackoffError E))
      → Outcome (suc i) k (length waits) (attempt_loop action (suc k) (suc i) wait waits last)

  loop_again :
      (left i : ℕ) (wait : ℤ) (waits : List ℤ) (last : Option (BackoffError E)) (e : E)
      → (action i).0 ≡ some e
      → (action i).1 ≡ true
      → Rest left i
      → Outcome i left (length waits) (attempt_loop action (suc left) i wait waits last)
  unfolding attempt_loop
  loop_again zero i wait waits last e failed again rest =
      subst (Outcome i 0 (length waits)) (sym (rw (attempt_loop, failed, again) refl))
        (ended i 0 waits (some (action_failed e)) (inl (omega arith)) (ap failure (sym failed)))
  loop_again (suc left) i wait waits last e failed again rest =
      let more : nat_beq (suc left) 0 ≡ false = ground arith in
      let goes_on : attempt_loop action (suc (suc left)) i wait waits last
          ≡ attempt_loop action (suc left) (suc i) (doubled wait) (wait ∷ waits)
              (some (action_failed e)) =
        one_more (suc left) i wait waits last e failed again more in
      subst (Outcome i (suc left) (length waits)) (sym goes_on) (
        further i left (length waits) e _ failed again
          (rest left refl (doubled wait) (wait ∷ waits) (some (action_failed e))))

  loop_once :
      (left i : ℕ) (wait : ℤ) (waits : List ℤ) (last : Option (BackoffError E))
      → Rest left i
      → Outcome i left (length waits) (attempt_loop action (suc left) i wait waits last)
  loop_once left i wait waits last rest = elim (Option-cases (action i).0) [
    | inl done ↦
        subst (Outcome i left (length waits)) (sym (loop_done left i wait waits last done))
          (ended i left waits none (inr (inl done)) (ap failure (sym done)))
    | inr (e, failed) ↦ elim (Bool-cases (action i).1) [
      | inr final ↦
          subst (Outcome i left (length waits))
            (sym (loop_final left i wait waits last e failed final))
            (ended i left waits (some (action_failed e)) (inr (inr final))
              (ap failure (sym failed)))
      | inl again ↦ loop_again left i wait waits last e failed again rest
    ]
  ]

  attempt_loop-Outcome :
      (left i : ℕ) (wait : ℤ) (waits : List ℤ) (last : Option (BackoffError E))
      → Outcome i left (length waits) (attempt_loop action (suc left) i wait waits last)
  attempt_loop-Outcome zero i wait waits last =
      loop_once zero i wait waits last (λ k e. absurd (omega (arith, e)))
  attempt_loop-Outcome (suc left) i wait waits last =
      loop_once (suc left) i wait waits last (λ k e wait' waits' last'.
        let same : left ≡ k = omega (arith, e) in
        subst
          (λ n.
            Outcome (suc i) n (length waits')
              (attempt_loop action (suc n) (suc i) wait' waits' last'))
          same (attempt_loop-Outcome left (suc i) wait' waits' last'))

  -- With at least one call allowed, `Exponential` always ends: it calls the action at most `max`
  -- times, every call but the last failed with an error that may be retried, the last is the max-th
  -- or succeeds or fails for good, its error is what is returned, and there is one wait between two
  -- calls.
  pub exponential-calls :
      (left : ℕ) (wait : ℤ)
      → (m : ℕ) × ((exponential action (suc left) wait).calls ≡ suc m)
        × (m ≤ left)
        × ((j : ℕ) → j < m → Retried j)
        × ((m ≡ left) ⊎ Ends m)
        × ((exponential action (suc left) wait).result ≡ failure (action m).0)
        × (length (exponential action (suc left) wait).waits ≡ m)
  unfolding exponential
  exponential-calls left wait =
      let (m, calls, low, high, before, ends, result, waits) =
        attempt_loop-Outcome left 0 wait [] none in
      (
        m,
        calls,
        omega (arith, high),
        (λ j below. before j (omega arith) below),
        elim ends [ inl at_last ↦ inl (omega (arith, at_last)) | inr early ↦ inr early ],
        result,
        omega (arith, waits),
      )

  context_loop-never_done :
      (left i : ℕ) (wait : ℤ) (waits : List ℤ) (last : Option (BackoffError E))
      → context_loop action (λ j. false) left i wait waits last
        ≡ attempt_loop action left i wait waits last
  unfolding context_loop attempt_loop
  context_loop-never_done zero i wait waits last = refl
  context_loop-never_done (suc left) i wait waits last = elim (Option-cases (action i).0) [
    | inl done ↦ rw (context_loop, attempt_loop, done) refl
    | inr (e, failed) ↦ elim (Bool-cases (action i).1) [
      | inr final ↦ rw (context_loop, attempt_loop, failed, final) refl
      | inl again ↦
          let last_one = context_loop-never_done left (suc i) wait waits (some (action_failed e)) in
          let one_more =
            context_loop-never_done left (suc i) (doubled wait) (wait ∷ waits)
              (some (action_failed e)) in
          elim (Bool-cases (nat_beq left 0)) [
            | inl at_last ↦ rw (context_loop, attempt_loop, failed, again, at_last) last_one
            | inr more ↦ rw (context_loop, attempt_loop, failed, again, more) one_more
          ]
    ]
  ]

  -- While its context is not done, `ExponentialWithContext` does what `Exponential` does.
  pub exponential_with_context-never_done :
      (max : ℕ) (wait : ℤ)
      → exponential_with_context action (λ j. false) max wait ≡ exponential action max wait
  unfolding exponential_with_context exponential
  exponential_with_context-never_done max wait = context_loop-never_done max 0 wait [] none
