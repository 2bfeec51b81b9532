-- ===== src/Backoff/Tests.antt =====
-- Backoff at concrete inputs (pkg/backoff/backoff.go).
use superform_go_utils.Prelude.{
  ℕ, suc, ◌≤◌, ◌<◌, Bool, true, false, Option, none, some, nat_beq, if◌then◌else◌, length, ◌≡◌, ◌⊎◌,
}
use superform_go_utils.Prelude.Int.{pos}
use superform_go_utils.Backoff.{exponential, exponential_with_context}
use superform_go_utils.Backoff.Calls.{
  failure, Retried, Ends, exponential-calls, exponential_with_context-never_done,
}

-- An action that succeeds at its third call.
abbrev third_time : ℕ → Option ℕ × Bool
third_time i = if nat_beq i 2 then (none, false) else (some 7, true)

exponential-calls_example :
    (m : ℕ) × ((exponential third_time 5 (pos 100)).calls ≡ suc m)
    × (m ≤ 4)
    × ((j : ℕ) → j < m → Retried third_time j)
    × ((m ≡ 4) ⊎ Ends third_time m)
    × ((exponential third_time 5 (pos 100)).result ≡ failure (third_time m).0)
    × (length (exponential third_time 5 (pos 100)).waits ≡ m)
exponential-calls_example = exponential-calls third_time 4 (pos 100)

exponential_with_context-never_done_example :
    exponential_with_context third_time (λ j. false) 5 (pos 100)
    ≡ exponential third_time 5 (pos 100)
exponential_with_context-never_done_example =
    exponential_with_context-never_done third_time 5 (pos 100)
