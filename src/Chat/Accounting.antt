-- ===== src/Chat/Accounting.antt =====
-- What the endpoint of app/api/chat.py takes it gives back: permits, slots of providers, and its count
-- among the active requests.
use noxis_api_provider.Prelude.{ℕ, String, ◌≡◌, Option, none, some}
use noxis_api_provider.Float.{Float}
use noxis_api_provider.Json.{Json}
use noxis_api_provider.Errors.{NoxisError}
use noxis_api_provider.CircuitBreaker.{Random}
use noxis_api_provider.Adapter.{Python}
use noxis_api_provider.Router.Slots.{in_use}
use noxis_api_provider.Scheduler.{Shared, Scheduler}
use noxis_api_provider.Scheduler.Slots
use noxis_api_provider.Streaming
use noxis_api_provider.Streaming.Slots as StreamSlots
use noxis_api_provider.Cache.{ResponseCache}
use noxis_api_provider.Chat.State.{Desk}
use noxis_api_provider.Chat.Exchange.{Limits, Library, World, Answer}

module _ {ℓ} {F : Type ℓ} {C : Type 0} where
  -- As many active requests and as many permits taken.
  abbrev pub Same : Desk F C → Desk F C → Type 0
  Same d e = (e.active ≡ d.active) × (e.held ≡ d.held)

  -- Other tasks may change anything else.
  pub record IsBalanced (w : World F C) : Type ℓ where
    pub waiting : (d : Desk F C) → Same d (w.waiting d)
    pub meanwhile : (d : Desk F C) → Same d (w.meanwhile d)
    pub writing : (d : Desk F C) → Same d (w.writing d)

-- What a refused request leaves on the gauge.
abbrev pub leaked : Option NoxisError → ℕ
leaked none = 0
leaked (some e) = 1

module _ {ℓ} {F : Type ℓ} {C : Type 0} ⦃f : Float F⦄ ⦃k : ResponseCache C⦄ (lib : Library)
    (py : Python) (rnd : Random) (c : Scheduler) (limits : Limits) where
  -- That an answer leaves the desk with as many permits taken, the gauge as given, and every slot free again.
  abbrev Settled : Shared F → Desk F C → ℕ → Answer F C → Type 0
  Settled s d active a =
      (a.desk.active ≡ active)
      × (a.desk.held ≡ d.held)
      × ((j : String) → in_use a.state.limiter j ≡ in_use s.limiter j)
