-- ===== src/HttpClient/Tests.antt =====
-- The HTTP client at concrete inputs (pkg/http_client/http.go).
use superform_go_utils.Prelude.{
  ℕ, suc, ◌≤◌, ◌<◌, false, [], ◌∷◌, none, some, nat_beq, if◌then◌else◌, max, ◌≡◌, refl, ◌⊎◌, inr,
  codes, arith,
}
use superform_go_utils.Prelude.Int.{pos, negsuc}
use superform_go_utils.Prelude.Spaces.{trim_space}
use superform_go_utils.Prelude.Decimals.{all_of, value_from}
use superform_go_utils.Prelude.{reverse_onto}
use superform_go_utils.Prelude.BigInt.{set_string}
use superform_go_utils.Prelude.Int64.{wrap_int64}
use superform_go_utils.HttpClient.{
  HttpError, interrupted, Response, Transport, Turn, attempt, round_trip, parse_retry_after,
  nanoseconds,
}
use superform_go_utils.HttpClient.Attempt.{final_answer, HandedBack}
use superform_go_utils.HttpClient.Retrying.{round_trip-attempts}
use superform_go_utils.HttpClient.Body.{
  ReadCall, read_all, limit_body, Bounded, read_all-limit_body,
}

abbrev sample_transport : Transport
sample_transport = record {
  max_retries = 3;
  retry_delay = nanoseconds 2;
  max_retry_after = nanoseconds 30;
  attempt_timeout = pos 0;
  auth_header_key = [];
  auth_header_val = [];
  headers = [];
  no_redirect = false;
  max_response_bytes = pos 0;
  rate_limiter = false;
}

abbrev sample_response : ℕ → Response
sample_response code = record {
  status_code = code;
  body = codes "busy";
  read_fails = false;
  close_fails = false;
  retry_after_header = codes "1";
}

-- The first answer is a 503, the later ones are a 200.
abbrev sample_turns : ℕ → Turn
sample_turns i = record {
  limiter = none;
  answer = inr (sample_response (if nat_beq i 0 then 503 else 200));
  parent_done = false;
  until = λ t. none;
  wait_ends = false;
}

round_trip-attempts_example :
    (m : ℕ) × ((round_trip sample_transport sample_turns).attempts ≡ suc m)
    × (suc m ≤ max 3 1)
    × ((j : ℕ) → j < m → final_answer (sample_turns j).answer ≡ false)
    × ((((round_trip sample_transport sample_turns).trip_error ≡ none)
          × HandedBack (sample_turns m).answer (round_trip sample_transport sample_turns).result)
        ⊎ ((e : HttpError) × ((attempt sample_transport (sample_turns m)).error ≡ some e)
            × ((round_trip sample_transport sample_turns).result ≡ none)
            × (((round_trip sample_transport sample_turns).trip_error ≡ some e)
                ⊎ ((round_trip sample_transport sample_turns).trip_error ≡ some (interrupted e)))))
round_trip-attempts_example = round_trip-attempts sample_transport sample_turns

abbrev sample_call : ReadCall
sample_call = record { buffer = 4; ready = 3; eager = false }

read_all-limit_body_example :
    Bounded 5 (codes "abcdef") (
      read_all (sample_call ∷ sample_call ∷ sample_call ∷ []) (limit_body (pos 5) (codes "abcdef")))
read_all-limit_body_example =
    read_all-limit_body 5 (codes "abcdef") (sample_call ∷ sample_call ∷ sample_call ∷ [])
      (omega arith)

-- A delay of more than 2^63 nanoseconds wraps around to a negative one.
parse_retry_after_overflow_test :
    parse_retry_after (λ t. none) (codes "9223372037") ≡ negsuc 9223372036709551615
unfolding parse_retry_after trim_space set_string wrap_int64 reverse_onto all_of value_from
parse_retry_after_overflow_test = refl
