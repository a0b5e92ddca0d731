-- ===== src/Adapter/Tests.antt =====
-- The theorems on app/providers/openai_compatible.py at concrete inputs.
use noxis_api_provider.Prelude.{◌≤◌, ◌≡◌, ◌↔◌, refl, true, none}
use noxis_api_provider.Provider.{ProviderApiError, new_provider}
use noxis_api_provider.Dict
use noxis_api_provider.Samples.{python, provider, request}
use noxis_api_provider.Adapter.{
  HttpResponse, responded, chat_completion, is_retryable, status_error, retry_after_of, error_text,
  take_chars, post_request, stream_request,
}
use noxis_api_provider.Adapter.Status.{IsTransient, chat_completion-failed}
use noxis_api_provider.Adapter.Credentials.{Lacks, request-no_authorization}

abbrev bad_gateway : HttpResponse
bad_gateway = record { status_code = 502; retry_after = none; body = "bad gateway" }

abbrev error : ProviderApiError
error = record { status_code = 502; message = "bad gateway"; retryable = true; retry_after = none }

chat_completion-failed_example :
    ((error.retryable ≡ true) ↔ IsTransient error.status_code) × (400 ≤ error.status_code)
unfolding chat_completion status_error is_retryable retry_after_of error_text take_chars
chat_completion-failed_example =
    chat_completion-failed python "groq" 20 (responded bad_gateway) error refl

request-no_authorization_example :
    Lacks "Authorization" (post_request provider request).headers
    × Lacks "Authorization" (stream_request provider request).headers
unfolding new_provider Dict.get
request-no_authorization_example = request-no_authorization provider request refl refl
