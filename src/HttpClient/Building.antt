-- ===== src/HttpClient/Building.antt =====
-- The client builder: `BuildClient` of pkg/http_client/http.go, without the base transport.
use superform_go_utils.Prelude.{
  ℕ, suc, ◌%◌, ◌^◌, Bool, true, false, [], ◌∷◌, Option, none, some, Text, codes, text_eq, insert,
}
use superform_go_utils.Prelude.Int.{ℤ, pos}
use superform_go_utils.HttpClient.{Headers, Transport, nanoseconds}

-- `headers` is nil until the first header is set.
pub record ClientBuilder : Type 0 where
  pub auth_key : Text
  pub auth_value : Text
  pub builder_headers : Option Headers
  pub timeout : Option ℤ
  pub builder_attempt_timeout : ℤ
  pub builder_max_retries : Option ℕ
  pub builder_retry_delay : Option ℤ
  pub builder_max_retry_after : Option ℤ
  pub builder_no_redirect : Bool
  pub builder_max_response_bytes : ℤ
  pub limiter : Bool

unfoldable pub new_client_builder : ClientBuilder
new_client_builder = record {
  auth_key = [];
  auth_value = [];
  builder_headers = none;
  timeout = none;
  builder_attempt_timeout = pos 0;
  builder_max_retries = none;
  builder_retry_delay = none;
  builder_max_retry_after = none;
  builder_no_redirect = false;
  builder_max_response_bytes = pos 0;
  limiter = false;
}

abbrev pub or_default {ℓ} : {A : Type ℓ} → A → Option A → A
or_default d none = d
or_default d (some a) = a

unfoldable pub set_auth : Text → Text → ClientBuilder → ClientBuilder
set_auth key value b = record b { auth_key = key; auth_value = value }

-- `canonical` is the form that `Header.Set` gives a key.
unfoldable pub set_header : (Text → Text) → Text → Text → ClientBuilder → ClientBuilder
set_header canonical key value b = record b {
  builder_headers = some (insert (canonical key) (value ∷ []) (or_default [] b.builder_headers));
}

unfoldable pub set_user_agent : (Text → Text) → Text → ClientBuilder → ClientBuilder
unfolding set_header
set_user_agent canonical user_agent b = set_header canonical (codes "User-Agent") user_agent b

unfoldable pub set_timeout : ℤ → ClientBuilder → ClientBuilder
set_timeout timeout b = record b { timeout = some timeout }

unfoldable pub set_attempt_timeout : ℤ → ClientBuilder → ClientBuilder
set_attempt_timeout timeout b = record b { builder_attempt_timeout = timeout }

unfoldable pub set_retry : ℕ → ℤ → ClientBuilder → ClientBuilder
set_retry max_retries retry_delay b = record b {
  builder_max_retries = some max_retries;
  builder_retry_delay = some retry_delay;
}

-- `MaxRetries` counts the first attempt too, in 64 bits.
abbrev pub client_max_retries : Option ℕ → ℕ
client_max_retries none = 3
client_max_retries (some n) = suc n % 2 ^ 64

unfoldable pub set_max_retry_after : ℤ → ClientBuilder → ClientBuilder
set_max_retry_after limit b = record b { builder_max_retry_after = some limit }

unfoldable pub set_no_redirect : ClientBuilder → ClientBuilder
set_no_redirect b = record b { builder_no_redirect = true }

unfoldable pub set_max_response_bytes : ℤ → ClientBuilder → ClientBuilder
set_max_response_bytes limit b = record b { builder_max_response_bytes = limit }

unfoldable pub set_rate_limiter : ClientBuilder → ClientBuilder
set_rate_limiter b = record b { limiter = true }

unfoldable pub build_transport : ClientBuilder → ℕ → ℤ → ℤ → Transport
build_transport b max_retries retry_delay max_retry_after = record {
  max_retries = max_retries;
  retry_delay = retry_delay;
  max_retry_after = max_retry_after;
  attempt_timeout = b.builder_attempt_timeout;
  auth_header_key = b.auth_key;
  auth_header_val = b.auth_value;
  headers = or_default [] b.builder_headers;
  no_redirect = b.builder_no_redirect;
  max_response_bytes = b.builder_max_response_bytes;
  rate_limiter = b.limiter;
}

-- The client's timeout and its transport.
unfoldable pub build_client : ClientBuilder → ℤ × Transport
unfolding build_transport
build_client b = (
  or_default (nanoseconds 60) b.timeout,
  build_transport b (client_max_retries b.builder_max_retries)
      (or_default (nanoseconds 2) b.builder_retry_delay)
      (or_default (nanoseconds 30) b.builder_max_retry_after),
)
