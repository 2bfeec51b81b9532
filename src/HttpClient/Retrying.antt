-- ===== src/HttpClient/Retrying.antt =====
-- How `RoundTrip` retries (pkg/http_client/http.go).
use superform_go_utils.Prelude.{
  if-preserves, ℕ, zero, suc, ◌+◌, ◌-◌, ◌≤◌, ◌<◌, false, ◌||◌, not, List, [], ◌∷◌, Option, none,
  some, nat_beq, if◌then◌else◌, max, ◌≡◌, refl, ap, sym, subst, arith, ◌⊎◌, inl, inr, Bool-cases,
  Option-cases,
}
use superform_go_utils.Prelude.Int.{ℤ}
use superform_go_utils.Prelude.Int64.{doubled}
use superform_go_utils.HttpClient.{
  HttpError, interrupted, Transport, Turn, Trip, attempt, next_delay, gave_up, waits_or_stops,
  trip_loop, round_trip,
}
use superform_go_utils.HttpClient.Attempt.{final_answer, HandedBack, attempt-Sound}

module _ (t : Transport) (turns : ℕ → Turn) where
  -- Nothing final came back before the last attempt.
  abbrev Passed : ℕ → Type 0
  Passed j = final_answer (turns j).answer ≡ false

  -- How the m-th attempt ends the trip: with its response, or with its error, which the end of a wait
  -- may wrap.
  abbrev Ending : ℕ → Trip → Type 0
  Ending m trip =
      ((trip.trip_error ≡ none) × HandedBack (turns m).answer trip.result)
      ⊎ ((e : HttpError) × ((attempt t (turns m)).error ≡ some e)
          × (trip.result ≡ none)
          × ((trip.trip_error ≡ some e) ⊎ (trip.trip_error ≡ some (interrupted e))))

  abbrev Outcome : ℕ → ℕ → Trip → Type 0
  Outcome i left trip =
      (m : ℕ) × (trip.attempts ≡ suc m)
      × (i ≤ m)
      × (m ≤ i + left)
      × ((j : ℕ) → i ≤ j → j < m → Passed j)
      × Ending m trip

  gave_up-Outcome :
      (i left : ℕ) (delays : List ℤ) (e e' : HttpError)
      → (attempt t (turns i)).error ≡ some e
      → (e' ≡ e) ⊎ (e' ≡ interrupted e)
      → Outcome i left (gave_up i delays e')
  gave_up-Outcome i left delays e e' failed same = (
    i,
    refl,
    omega arith,
    omega arith,
    (λ j from below. absurd (omega arith)),
    inr (e, failed, refl, elim same [ inl p ↦ inl (ap some p) | inr p ↦ inr (ap some p) ]),
  )

  -- What is known of the iterations behind the i-th.
  abbrev Rest : ℕ → ℕ → Type 0
  Rest left i =
      (wait : ℤ) (delays : List ℤ) (last : Option HttpError)
      → nat_beq left 0 ≡ false
      → (m : ℕ) × ((trip_loop t turns left (suc i) wait delays last).attempts ≡ suc m)
        × (suc i ≤ m)
        × (m ≤ i + left)
        × ((j : ℕ) → suc i ≤ j → j < m → Passed j)
        × Ending m (trip_loop t turns left (suc i) wait delays last)

  waits-Outcome :
      (i left : ℕ) (wait : ℤ) (delays : List ℤ) (e : HttpError) (delay : Option ℤ)
      → (attempt t (turns i)).error ≡ some e
      → Passed i
      → nat_beq left 0 ≡ false
      → Rest left i
      → Outcome i left (
          waits_or_stops i delays e
            (turns i).wait_ends
            delay
            (λ d. trip_loop t turns left (suc i) (doubled wait) (d ∷ delays) (some e)))
  waits-Outcome i left wait delays e none failed passed more rest =
      gave_up-Outcome i left delays e e failed (inl refl)
  waits-Outcome i left wait delays e (some d) failed passed more rest =
      if-preserves (Outcome i left) (turns i).wait_ends _ _
        (λ ends. gave_up-Outcome i left delays e (interrupted e) failed (inr refl))
        (λ goes_on.
          let (m, attempts, low, high, before, ending) =
            rest (doubled wait) (d ∷ delays) (some e) more in
          (
            m,
            attempts,
            omega (arith, low),
            high,
            (λ j from below. elim (Bool-cases (nat_beq i j)) [
              | inl first ↦ let same : i ≡ j = ground arith in subst Passed same passed
              | inr later ↦ before j (ground arith) below
            ]),
            ending,
          ))

  loop_done :
      (i left : ℕ) (wait : ℤ) (delays : List ℤ) (last : Option HttpError)
      → (attempt t (turns i)).error ≡ none
      → trip_loop t turns (suc left) i wait delays last ≡ record {
        attempts = suc i;
        delays = delays;
        result = (attempt t (turns i)).response;
        trip_error = none;
      }
  unfolding trip_loop
  loop_done i left wait delays last done = rw (trip_loop, done) refl

  loop_failed :
      (i left : ℕ) (wait : ℤ) (delays : List ℤ) (last : Option HttpError) (e : HttpError)
      → (attempt t (turns i)).error ≡ some e
      → trip_loop t turns (suc left) i wait delays last ≡ (
          if not (attempt t (turns i)).retry || nat_beq left 0
          then gave_up i delays e
          else waits_or_stops i delays e
              (turns i).wait_ends
              (next_delay t wait (attempt t (turns i)).retry_after)
              (λ d. trip_loop t turns left (suc i) (doubled wait) (d ∷ delays) (some e)))
  unfolding trip_loop
  loop_failed i left wait delays last e failed = rw (trip_loop, failed) refl

  loop_once :
      (i left : ℕ) (wait : ℤ) (delays : List ℤ) (last : Option HttpError)
      → Rest left i
      → Outcome i left (trip_loop t turns (suc left) i wait delays last)
  loop_once i left wait delays last rest =
      let a = attempt t (turns i) in
      let (handed_back, retried) = attempt-Sound t (turns i) in
      elim (Option-cases a.error) [
        | inl done ↦ subst (Outcome i left) (sym (loop_done i left wait delays last done)) (
          i,
          refl,
          omega arith,
          omega arith,
          (λ j from below. absurd (omega arith)),
          inl (refl, handed_back done),
        )
        | inr (e, failed) ↦
            subst (Outcome i left) (sym (loop_failed i left wait delays last e failed)) (
              if-preserves (Outcome i left) (not a.retry || nat_beq left 0) _ _
                (λ stop. gave_up-Outcome i left delays e e failed (inl refl))
                (λ again.
                  waits-Outcome i left wait delays e (next_delay t wait a.retry_after) failed
                    (retried (ground arith)) (ground arith) rest))
      ]

  trip_loop-Outcome :
      (left i : ℕ) (wait : ℤ) (delays : List ℤ) (last : Option HttpError)
      → Outcome i left (trip_loop t turns (suc left) i wait delays last)
  trip_loop-Outcome zero i wait delays last =
      loop_once i zero wait delays last (λ wait' delays' last' more. absurd (ground arith))
  trip_loop-Outcome (suc left) i wait delays last =
      loop_once i (suc left) wait delays last (λ wait' delays' last' more.
        let (m, attempts, low, high, before, ending) =
          trip_loop-Outcome left (suc i) wait' delays' last' in
        (m, attempts, low, omega (arith, high), before, ending))

  -- `RoundTrip` always ends, after at least one attempt and at most `MaxRetries` of them, or one when
  -- that is 0. No answer before the last attempt was a success, a 400, a 401 or a 403. It returns the
  -- last attempt's response, which then is a success, or that attempt's error, which the end of the
  -- context in a wait may wrap.
  pub round_trip-attempts :
      (m : ℕ) × ((round_trip t turns).attempts ≡ suc m)
      × (suc m ≤ max t.max_retries 1)
      × ((j : ℕ) → j < m → Passed j)
      × Ending m (round_trip t turns)
  unfolding round_trip
  round_trip-attempts =
      let left = max t.max_retries 1 - 1 in
      let rounds : max t.max_retries 1 ≡ suc left = omega arith in
      subst
        (λ n.
          (m : ℕ) × ((trip_loop t turns n 0 t.retry_delay [] none).attempts ≡ suc m)
          × (suc m ≤ max t.max_retries 1)
          × ((j : ℕ) → j < m → Passed j)
          × Ending m (trip_loop t turns n 0 t.retry_delay [] none))
        (sym rounds)
        (let (m, attempts, low, high, before, ending) =
            trip_loop-Outcome left 0 t.retry_delay [] none in
          (m, attempts, omega (arith, high), (λ j below. before j (omega arith) below), ending))
