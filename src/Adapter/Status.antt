-- ===== src/Adapter/Status.antt =====
-- Which answers of an upstream become which errors, in app/providers/openai_compatible.py.
use noxis_api_provider.Prelude.{ℕ, ◌≤◌, String, ◌≡◌, sym, ◌∙◌, ◌≢◌, ◌↔◌, ◌⊎◌, true, some, arith}
use noxis_api_provider.Provider.{ProviderApiError}
use noxis_api_provider.Adapter.{
  Python, HttpOutcome, timed_out, connect_failed, broke, responded, HttpResponse, failed,
  is_retryable, status_error, result_of, chat_completion,
}

-- The module's list of transient failures.
abbrev pub IsTransient : ℕ → Type 0
IsTransient n = (n ≡ 429) ⊎ ((n ≡ 500) ⊎ ((n ≡ 502) ⊎ ((n ≡ 503) ⊎ (n ≡ 504))))

is_retryable_iff : (n : ℕ) → (is_retryable n ≡ true) ↔ IsTransient n
unfolding is_retryable
is_retryable_iff n = (λ h. ground arith, λ h. ground arith)

status_error-retryable :
    (py : Python) (resp : HttpResponse) (e : ProviderApiError)
    → status_error py resp ≡ some e
    → (e.status_code ≡ resp.status_code)
      × (400 ≤ e.status_code)
      × (e.retryable ≡ is_retryable e.status_code)
unfolding status_error
status_error-retryable py resp e h = ground arith

result_of-ne-failed :
    (py : Python) (name : String) (latency_ms : ℕ) (resp : HttpResponse) (e : ProviderApiError)
    → result_of py name latency_ms resp ≢ failed e
unfolding result_of
result_of-ne-failed py name latency_ms resp e q = ground arith

-- An error of a call carries the status that decides it: it is retryable exactly when its status is
-- 429, 500, 502, 503 or 504, be it the upstream's own or that of a timeout or a failed connection, and
-- it is never below 400.
pub chat_completion-failed :
    (py : Python) (name : String) (latency_ms : ℕ) (h : HttpOutcome) (e : ProviderApiError)
    → chat_completion py name latency_ms h ≡ failed e
    → ((e.retryable ≡ true) ↔ IsTransient e.status_code) × (400 ≤ e.status_code)
unfolding chat_completion
chat_completion-failed py name latency_ms (timed_out text) e q =
    let r : e.retryable ≡ true = ground arith in
    let c : e.status_code ≡ 504 = ground arith in ((λ _. ground arith, λ _. r), omega arith)
chat_completion-failed py name latency_ms (connect_failed text) e q =
    let r : e.retryable ≡ true = ground arith in
    let c : e.status_code ≡ 502 = ground arith in ((λ _. ground arith, λ _. r), omega arith)
chat_completion-failed py name latency_ms broke e q = cc
chat_completion-failed py name latency_ms (responded resp) e q =
    let (code, big, flag) =
      status_error-retryable py resp e
        (ground (arith, result_of-ne-failed py name latency_ms resp e)) in
    let i = is_retryable_iff e.status_code in ((λ h. i.0 (sym flag ∙ h), λ h. flag ∙ i.1 h), big)
