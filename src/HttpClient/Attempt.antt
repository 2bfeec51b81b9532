-- ===== src/HttpClient/Attempt.antt =====
-- What one attempt decides (pkg/http_client/http.go).
use superform_go_utils.Prelude.{
  if-preserves, ℕ, Bool, true, false, ◌&&◌, ◌||◌, Option, none, some, Text, ltb, nat_beq, ◌≡◌, refl,
  arith, ◌⊎◌, inl, inr,
}
use superform_go_utils.Prelude.Int.{ℤ, pos}
use superform_go_utils.HttpClient.{
  Response, HttpError, Transport, Turn, Attempted, StatusError, attempt, answered, failed_status,
  limited, is_success, refused, retry_after_of, new_status_error,
}

-- An answer that is not tried again.
abbrev pub is_final : ℕ → Bool
is_final code = is_success code || nat_beq code 400 || nat_beq code 401 || nat_beq code 403

abbrev pub final_answer : Text ⊎ Response → Bool
final_answer (inl e) = false
final_answer (inr r) = is_final r.status_code

-- An attempt without an error hands back a success of the base transport.
abbrev pub HandedBack : Text ⊎ Response → Option Response → Type 0
HandedBack answer response =
    (r : Response) × (response ≡ some r) × (answer ≡ inr r) × (is_success r.status_code ≡ true)

-- What an attempt may be.
abbrev pub Sound : Text ⊎ Response → Attempted → Type 0
Sound answer a =
    (a.error ≡ none → HandedBack answer a.response) × (a.retry ≡ true → final_answer answer ≡ false)

refused-Sound :
    (answer : Text ⊎ Response) (e : HttpError) (retry : Bool) (d : ℤ)
    → (retry ≡ true → final_answer answer ≡ false)
    → Sound answer (refused e retry d)
refused-Sound answer e retry d h = ((λ none_there. absurd (ground (arith, none_there))), h)

failed_status-Sound :
    (t : Transport) (r : Response) (e : StatusError)
    → is_success r.status_code ≡ false
    → Sound (inr r) (failed_status t r.status_code e)
unfolding failed_status
failed_status-Sound t r e failure =
    let code = r.status_code in
    let P = Sound (inr r) in
    if-preserves P (nat_beq code 429) _ _
      (λ many. refused-Sound (inr r) _ true (retry_after_of e) (λ h. ground arith))
      (λ other.
        if-preserves P (nat_beq code 401 || nat_beq code 403) _ _
          (λ unauthorised. refused-Sound (inr r) _ false (pos 0) (λ h. absurd (ground arith)))
          (λ other'.
            if-preserves P (nat_beq code 400) _ _
              (λ bad. refused-Sound (inr r) _ false (pos 0) (λ h. absurd (ground arith)))
              (λ other''.
                if-preserves P (t.no_redirect && ltb code 400) _ _
                  (λ redirect. refused-Sound (inr r) _ false (pos 0) (λ h. absurd (ground arith)))
                  (λ rest. refused-Sound (inr r) _ true (retry_after_of e) (λ h. ground arith)))))

answered-Sound :
    (t : Transport) (turn : Turn) (answer : Text ⊎ Response) → Sound answer (answered t turn answer)
unfolding answered
answered-Sound t turn (inl e) = refused-Sound (inl e) _ _ (pos 0) (λ h. refl)
answered-Sound t turn (inr r) =
    if-preserves (Sound (inr r)) (is_success r.status_code) _ _
      (λ success. ((λ h. (r, refl, refl, success)), (λ h. absurd (ground arith))))
      (λ failure. failed_status-Sound t r (new_status_error turn.until r) failure)

limited-Sound :
    (t : Transport) (turn : Turn) (limiter : Option Text)
    → Sound turn.answer (limited t turn limiter)
limited-Sound t turn none = answered-Sound t turn turn.answer
limited-Sound t turn (some e) =
    if-preserves (Sound turn.answer) t.rate_limiter _ _
      (λ used. refused-Sound turn.answer _ false (pos 0) (λ h. absurd (ground arith)))
      (λ unused. answered-Sound t turn turn.answer)

pub attempt-Sound : (t : Transport) (turn : Turn) → Sound turn.answer (attempt t turn)
unfolding attempt
attempt-Sound t turn = limited-Sound t turn turn.limiter
