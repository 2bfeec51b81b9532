-- ===== src/HttpClient.antt =====
-- The retrying HTTP client: pkg/http_client/http.go. The base transport, the rate limiter, contexts
-- and clocks are the environment's: a `Turn` is what they do in one attempt. A duration is an int64.
pub mod Attempt
pub mod Body
pub mod Building
pub mod Retrying
mod Tests
use superform_go_utils.Prelude.{
  ℕ, zero, suc, ◌+◌, ◌*◌, ◌-◌, ◌%◌, ◌^◌, Bool, true, false, ◌&&◌, ◌||◌, not, List, [], ◌∷◌, ◌++◌,
  Option, none, some, Text, text_eq, nat_eq, ◌==◌, Eq, ltb, leb, nat_beq, if◌then◌else◌, length,
  take, Assoc, insert, max, is_some, ◌⊎◌, inl, inr,
}
use superform_go_utils.Prelude.Int.{ℤ, pos, negsuc, is_negative}
use superform_go_utils.Prelude.BigInt.{set_string}
use superform_go_utils.Prelude.Int64.{wrap_int64, times, is_positive, int_ltb, doubled}
use superform_go_utils.Prelude.Spaces.{trim_space}

abbrev pub Headers : Type 0
Headers = Assoc Text (List Text)

-- `maxErrorBodyBytes`
abbrev pub max_error_body_bytes : ℕ
max_error_body_bytes = 65536

abbrev pub nanoseconds : ℕ → ℤ
nanoseconds seconds = pos (seconds * 1000000000)

-- A body: its bytes, whether reading fails behind them, and whether closing fails.
pub record Response : Type 0 where
  pub status_code : ℕ
  pub body : Text
  pub read_fails : Bool
  pub close_fails : Bool
  pub retry_after_header : Text

-- `unreadable` is the error of a response whose body could not be read or closed.
pub data StatusError : Type 0 where
  status_error : ℕ → Text → ℤ → StatusError
  unreadable : ℕ → StatusError

pub data HttpError : Type 0 where
  limiter_failed request_failed : Text → HttpError
  rate_limited unauthorized plain : StatusError → HttpError
  interrupted : HttpError → HttpError

-- The transport's settings that decide about retries and headers.
pub record Transport : Type 0 where
  pub max_retries : ℕ
  pub retry_delay : ℤ
  pub max_retry_after : ℤ
  pub attempt_timeout : ℤ
  pub auth_header_key : Text
  pub auth_header_val : Text
  pub headers : Headers
  pub no_redirect : Bool
  pub max_response_bytes : ℤ
  pub rate_limiter : Bool

-- What happens in one attempt and in the wait behind it. `limiter` is the error of a rate limiter,
-- `answer` what the base transport returns, `parent_done` says that the request's own context has
-- ended when it fails, `until` reads an HTTP date as the time from now, `wait_ends` says that the
-- context ends the wait.
pub record Turn : Type 0 where
  pub limiter : Option Text
  pub answer : Text ⊎ Response
  pub parent_done : Bool
  pub until : Text → Option ℤ
  pub wait_ends : Bool

-- The results of `attempt`.
pub record Attempted : Type 0 where
  pub response : Option Response
  pub error : Option HttpError
  pub retry : Bool
  pub retry_after : ℤ

abbrev min_int64 : ℕ
min_int64 = 9223372036854775807

-- `strconv.Atoi`
abbrev pub in_int64 : Option ℤ → Option ℤ
in_int64 none = none
in_int64 (some (pos n)) = if leb n 9223372036854775807 then some (pos n) else none
in_int64 (some (negsuc n)) = if leb n min_int64 then some (negsuc n) else none

abbrev pub delay_seconds : Option ℤ → Option ℤ → ℤ
delay_seconds (some seconds) date =
    if not (is_positive seconds) then pos 0 else wrap_int64 (times seconds 1000000000)
delay_seconds none (some d) = if is_positive d then d else pos 0
delay_seconds none none = pos 0

unfoldable pub parse_retry_after : (Text → Option ℤ) → Text → ℤ
parse_retry_after until value =
    let trimmed = trim_space value in
    if nat_beq (length trimmed) 0
    then pos 0
    else delay_seconds (in_int64 (set_string trimmed)) (until trimmed)

-- The body is read up to the limit; its end, or an error, is met only below it.
unfoldable pub new_status_error : (Text → Option ℤ) → Response → StatusError
new_status_error until r =
    let cut_off = leb max_error_body_bytes (length r.body) in
    if (r.read_fails && not cut_off) || r.close_fails
    then unreadable r.status_code
    else status_error r.status_code (take max_error_body_bytes r.body)
        (parse_retry_after until r.retry_after_header)

-- `RetryAfter`, without its second result.
unfoldable pub retry_after_of : StatusError → ℤ
retry_after_of (status_error code body retry_after) =
    if is_positive retry_after then retry_after else pos 0
retry_after_of (unreadable code) = pos 0

-- `ResponseStatus`
unfoldable pub response_status : HttpError → Option (ℕ × Text)
response_status (limiter_failed e) = none
response_status (request_failed e) = none
response_status (rate_limited (status_error code body d)) = some (code, body)
response_status (rate_limited (unreadable code)) = none
response_status (unauthorized (status_error code body d)) = some (code, body)
response_status (unauthorized (unreadable code)) = none
response_status (plain (status_error code body d)) = some (code, body)
response_status (plain (unreadable code)) = none
response_status (interrupted e) = response_status e

-- `StatusOK <= code && code < StatusMultipleChoices`
abbrev pub is_success : ℕ → Bool
is_success code = leb 200 code && ltb code 300

abbrev pub refused : HttpError → Bool → ℤ → Attempted
refused e retry retry_after = record {
  response = none;
  error = some e;
  retry = retry;
  retry_after = retry_after;
}

-- The `switch` on the status of a failed response.
unfoldable pub failed_status : Transport → ℕ → StatusError → Attempted
failed_status t code e =
    if nat_beq code 429
    then refused (rate_limited e) true (retry_after_of e)
    else if nat_beq code 401 || nat_beq code 403
    then refused (unauthorized e) false (pos 0)
    else if nat_beq code 400
    then refused (plain e) false (pos 0)
    else if t.no_redirect && ltb code 400
    then refused (plain e) false (pos 0)
    else refused (plain e) true (retry_after_of e)

unfoldable pub answered : Transport → Turn → Text ⊎ Response → Attempted
answered t turn (inl e) = refused (request_failed e) (not turn.parent_done) (pos 0)
answered t turn (inr r) =
    if is_success r.status_code
    then record { response = some r; error = none; retry = false; retry_after = pos 0 }
    else failed_status t r.status_code (new_status_error turn.until r)

abbrev pub limited : Transport → Turn → Option Text → Attempted
limited t turn none = answered t turn turn.answer
limited t turn (some e) =
    if t.rate_limiter then refused (limiter_failed e) false (pos 0) else answered t turn turn.answer

unfoldable pub attempt : Transport → Turn → Attempted
attempt t turn = limited t turn turn.limiter

-- What an attempt sends: the settings' headers replace the request's, and the auth header both.
-- `canonical` is the form that `Header.Set` gives a key.
abbrev pub replace_all : Headers → Headers → Headers
replace_all [] sent = sent
replace_all ((key, values) ∷ rest) sent = replace_all rest (insert key values sent)

unfoldable pub attempt_headers : (Text → Text) → Transport → Headers → Headers
attempt_headers canonical t sent =
    let replaced = replace_all t.headers sent in
    if nat_beq (length t.auth_header_key) 0 || nat_beq (length t.auth_header_val) 0
    then replaced
    else insert (canonical t.auth_header_key) (t.auth_header_val ∷ []) replaced

-- A round trip: the attempts it made and its waits, the latest first.
pub record Trip : Type 0 where
  pub attempts : ℕ
  pub delays : List ℤ
  pub result : Option Response
  pub trip_error : Option HttpError

abbrev pub longer : ℤ → ℤ → ℤ
longer a b = if int_ltb a b then b else a

-- The wait behind a failure, `none` when the server asks for a longer one than is honoured.
unfoldable pub next_delay : Transport → ℤ → ℤ → Option ℤ
next_delay t wait retry_after =
    if is_positive retry_after && is_positive t.max_retry_after
    then (if int_ltb t.max_retry_after retry_after then none else some (longer wait retry_after))
    else some wait

abbrev pub gave_up : ℕ → List ℤ → HttpError → Trip
gave_up i delays e = record {
  attempts = suc i;
  delays = delays;
  result = none;
  trip_error = some e;
}

abbrev pub waits_or_stops : ℕ → List ℤ → HttpError → Bool → Option ℤ → (ℤ → Trip) → Trip
waits_or_stops i delays e ends none further = gave_up i delays e
waits_or_stops i delays e ends (some d) further =
    if ends then gave_up i delays (interrupted e) else further d

unfoldable pub trip_loop : Transport → (ℕ → Turn) → ℕ → ℕ → ℤ → List ℤ → Option HttpError → Trip
trip_loop t turns zero i wait delays last = record {
  attempts = i;
  delays = delays;
  result = none;
  trip_error = last;
}
trip_loop t turns (suc left) i wait delays last =
    let a = attempt t (turns i) in
    let further = λ (e : HttpError) (d : ℤ).
      trip_loop t turns left (suc i) (doubled wait) (d ∷ delays) (some e) in
    elim a.error [
      | none ↦ record { attempts = suc i; delays = delays; result = a.response; trip_error = none }
      | some e ↦
          if not a.retry || nat_beq left 0
          then gave_up i delays e
          else waits_or_stops i delays e (turns i).wait_ends (next_delay t wait a.retry_after)
              (further e)
    ]

unfoldable pub round_trip : Transport → (ℕ → Turn) → Trip
unfolding trip_loop
round_trip t turns = trip_loop t turns (max t.max_retries 1) 0 t.retry_delay [] none
