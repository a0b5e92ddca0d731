-- ===== src/Adapter.antt =====
-- app/providers/openai_compatible.py: what the adapter sends, and what it makes of the answers. The
-- HTTP exchange is a parameter, as are the texts that Python's library parses and prints.
pub mod Models
pub mod Status
pub mod Credentials
pub mod Tests
use Prim.Native.String.{◌++◌ as append}
use noxis_api_provider.Prelude.{
  ℕ, zero, suc, String, Bool, true, false, ◌&&◌, not, Option, none, some, List, [], ◌∷◌, any, ℤ,
  str_eq, ltb, ◌==◌, if◌then◌else◌,
}
use noxis_api_provider.Dict
use noxis_api_provider.Dict.{Dict}
use noxis_api_provider.Json.{Json}
use noxis_api_provider.Schemas.{ChatCompletionRequest}
use noxis_api_provider.Provider.{
  Provider, ProviderResult, ProviderApiError, auth_headers, transient_status_codes,
  terminal_provider_status_codes,
}

-- float(text) in microseconds, str(n), text.strip(), json.loads(text); `none` is the exception.
pub record Python : Type 0 where
  pub parse_float : String → Option ℤ
  pub show_int : ℕ → String
  pub strip : String → String
  pub loads : String → Option Json

pub record HttpRequest : Type 0 where
  pub url : String
  pub headers : Dict String
  pub payload : ChatCompletionRequest

pub record HttpResponse : Type 0 where
  pub status_code : ℕ
  pub retry_after : Option String
  pub body : String

-- What `client.send` does: httpx's timeouts, its connection errors, any other exception, an answer.
pub data HttpOutcome : Type 0 where
  timed_out connect_failed : String → HttpOutcome
  broke : HttpOutcome
  responded : HttpResponse → HttpOutcome

-- What a call of a provider does: it returns, raises ProviderAPIError, or raises something else.
pub data Outcome (A : Type 0) : Type 0 where
  returned : A → Outcome A
  failed : ProviderApiError → Outcome A
  crashed : Outcome A

-- base_url.rstrip("/")
unfoldable pub rstrip_slash : String → String
rstrip_slash String.[] = ""
rstrip_slash (String.◌∷◌ c s) =
    let rest = rstrip_slash s in if str_eq (String.◌∷◌ c rest) "/" then "" else String.◌∷◌ c rest

-- text[:n] and text[n:]
unfoldable pub take_chars : ℕ → String → String
take_chars zero s = ""
take_chars (suc n) String.[] = ""
take_chars (suc n) (String.◌∷◌ c s) = String.◌∷◌ c (take_chars n s)

unfoldable pub drop_chars : ℕ → String → String
drop_chars zero s = s
drop_chars (suc n) String.[] = ""
drop_chars (suc n) (String.◌∷◌ c s) = drop_chars n s

-- The request body: the client's request with `stream` as the call wants it.
unfoldable pub request_payload : ChatCompletionRequest → Bool → ChatCompletionRequest
request_payload r stream = record r { stream = stream }

-- {**first, **second}
unfoldable pub merge : Dict String → Dict String → Dict String
merge d [] = d
merge d ((k, v) ∷ rest) = merge (Dict.set k v d) rest

unfoldable pub post_request : Provider → ChatCompletionRequest → HttpRequest
unfolding request_payload
post_request p r = record {
  url = append (rstrip_slash p.config.base_url) p.config.chat_path;
  headers = merge (("Content-Type", "application/json") ∷ []) (auth_headers p);
  payload = request_payload r false;
}

unfoldable pub stream_request : Provider → ChatCompletionRequest → HttpRequest
unfolding request_payload
stream_request p r = record {
  url = append (rstrip_slash p.config.base_url) p.config.chat_path;
  headers =
      merge (("Content-Type", "application/json") ∷ ("Accept", "text/event-stream") ∷ [])
        (auth_headers p);
  payload = request_payload r true;
}

-- n in codes
abbrev pub is_among : List ℕ → ℕ → Bool
is_among codes n = any (λ c. c == n) codes

unfoldable pub is_retryable : ℕ → Bool
is_retryable status =
    is_among transient_status_codes status && not (is_among terminal_provider_status_codes status)

unfoldable pub retry_after_of : Python → Option String → Option ℤ
retry_after_of py none = none
retry_after_of py (some header) = if str_eq header "" then none else py.parse_float header

-- body_text or f"Upstream returned HTTP {status}"
unfoldable pub error_text : Python → HttpResponse → String
error_text py resp =
    if str_eq resp.body ""
    then append "Upstream returned HTTP " (py.show_int resp.status_code)
    else resp.body

-- The error of `_raise_for_status`, which returns below 400.
unfoldable pub status_error : Python → HttpResponse → Option ProviderApiError
unfolding is_retryable retry_after_of error_text
status_error py resp =
    if ltb resp.status_code 400
    then none
    else some (record {
      status_code = resp.status_code;
      message = take_chars 500 (error_text py resp);
      retryable = is_retryable resp.status_code;
      retry_after = retry_after_of py resp.retry_after;
    })

-- The two exceptions of httpx that become transient errors.
unfoldable pub transport_error : ℕ → String → String → String → ProviderApiError
transport_error status what name text = record {
  status_code = status;
  message = append what (append name (append ": " text));
  retryable = true;
  retry_after = none;
}

-- resp.json() of a good answer; a body that is no JSON raises an error of another kind.
unfoldable pub result_of : Python → String → ℕ → HttpResponse → Outcome ProviderResult
result_of py name latency_ms resp = elim (py.loads resp.body) [
  | none ↦ crashed
  | some data_ ↦ returned (record { raw = data_; latency_ms = latency_ms; provider_name = name })
]

unfoldable pub chat_completion : Python → String → ℕ → HttpOutcome → Outcome ProviderResult
unfolding transport_error
chat_completion py name latency_ms (timed_out text) =
    failed (transport_error 504 "Timeout contacting " name text)
chat_completion py name latency_ms (connect_failed text) =
    failed (transport_error 502 "Connection error to " name text)
chat_completion py name latency_ms broke = crashed
chat_completion py name latency_ms (responded resp) = elim (status_error py resp) [
  | none ↦ result_of py name latency_ms resp
  | some e ↦ failed e
]
