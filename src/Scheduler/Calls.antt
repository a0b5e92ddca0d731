-- ===== src/Scheduler/Calls.antt =====
-- How many requests one client request can cause: the retry bound of app/core/scheduler.py.
use noxis_api_provider.Prelude.{ℕ, ◌-◌, ◌≤◌, ◌≡◌, ◌++◌, List, [], ◌∷◌, length}
use noxis_api_provider.Float.{Float}
use noxis_api_provider.Schemas.{ChatCompletionRequest}
use noxis_api_provider.Provider.{Provider}
use noxis_api_provider.CircuitBreaker.{Random}
use noxis_api_provider.Router.{RoutingDecision}
use noxis_api_provider.Adapter.{Python, HttpRequest, post_request}
use noxis_api_provider.Scheduler.{Scheduler, Trace}

module _ {ℓ} {F : Type ℓ} where
  -- The request that is sent for a decision: to a provider of its name, for its model.
  pub record IsSentFor (r : ChatCompletionRequest) (d : RoutingDecision F) (q : HttpRequest)
      : Type 0 where
    pub provider : Provider
    pub same_name : provider.name ≡ d.provider
    pub same_request : q ≡ post_request provider (record r { model = d.model })

  -- The requests go along the decisions, in their order: for each decision one request, or none.
  pub data Along (r : ChatCompletionRequest)
      : List (RoutingDecision F) → List HttpRequest → Type ℓ where
    over : {ds : List (RoutingDecision F)} → Along r ds []
    asks :
        {d : RoutingDecision F} {ds : List (RoutingDecision F)} {q : HttpRequest}
        {qs : List HttpRequest}
        → IsSentFor r d q
        → Along r ds qs
        → Along r (d ∷ ds) (q ∷ qs)
    skips :
        {d : RoutingDecision F} {ds : List (RoutingDecision F)} {qs : List HttpRequest}
        → Along r ds qs
        → Along r (d ∷ ds) qs

module _ {ℓ} {F : Type ℓ} ⦃f : Float F⦄ (py : Python) (rnd : Random) (c : Scheduler) where
  -- What a round may send for its decision.
  abbrev OneRound : ChatCompletionRequest → RoutingDecision F → List HttpRequest → Type ℓ
  OneRound r d sent =
      (length sent ≤ 1)
      × ((ds : List (RoutingDecision F)) (qs : List HttpRequest)
          → Along r ds qs
          → Along r (d ∷ ds) (sent ++ qs))

  -- Of the rounds that are left, and along the decisions.
  abbrev Within : ChatCompletionRequest → ℕ → List (RoutingDecision F) → Trace F → Type ℓ
  Within r attempts ds t = (length t.sent ≤ c.max_retries - attempts) × Along r ds t.sent
