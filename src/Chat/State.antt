-- ===== src/Chat/State.antt =====
-- The state of the gateway that the chat endpoint of app/api/chat.py writes, apart from what the
-- scheduler shares: the counters of app/core/metrics.py, the semaphore, the cache and the usage rows.
use noxis_api_provider.Prelude.{ℕ, ◌+◌, ◌-◌, String, List, [], ◌∷◌, ◌++◌, ℤ}
use noxis_api_provider.Usage.{UsageRecord}

-- What is counted or observed: the metric with its labels, and the amount where it is not one.
pub data Metric : Type 0 where
  requests_total : (endpoint status : String) → Metric
  request_errors_total : (endpoint error_code : String) → Metric
  provider_requests_total : (provider model : String) → Metric
  provider_failures_total : (provider : String) (status_code : ℕ) → Metric
  provider_latency : (provider : String) (latency_ms : ℕ) → Metric
  tokens_total : (provider kind : String) (amount : ℤ) → Metric
  request_latency : (endpoint : String) → Metric

-- `active` is the gauge noxis_active_requests, `held` the permits of the semaphore that are taken; rows
-- and metrics are in the order in which they were written.
pub record Desk {ℓ} (F : Type ℓ) (C : Type 0) : Type ℓ where
  pub active : ℕ
  pub held : ℕ
  pub cache : C
  pub rows : List (UsageRecord F)
  pub metrics : List Metric

module _ {ℓ} {F : Type ℓ} {C : Type 0} where
  unfoldable pub enter : Desk F C → Desk F C
  enter d = record d { active = d.active + 1 }

  -- The `finally` of the endpoint.
  unfoldable pub leave : Desk F C → Desk F C
  leave d = record d {
    active = d.active - 1;
    metrics = d.metrics ++ request_latency "chat_completions" ∷ [];
  }

  unfoldable pub acquire : Desk F C → Desk F C
  acquire d = record d { held = d.held + 1 }

  unfoldable pub release : Desk F C → Desk F C
  release d = record d { held = d.held - 1 }

  unfoldable pub measure : List Metric → Desk F C → Desk F C
  measure ms d = record d { metrics = d.metrics ++ ms }

  -- UsageTracker.record
  unfoldable pub write_row : UsageRecord F → Desk F C → Desk F C
  write_row r d = record d { rows = d.rows ++ r ∷ [] }
