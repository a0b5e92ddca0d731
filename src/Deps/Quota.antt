-- ===== src/Deps/Quota.antt =====
-- What the dependency of app/api/deps.py lets through in a minute.
use noxis_api_provider.Prelude.{
  ℕ, ◌≤◌, String, ◌≡◌, refl, Bool, false, Option, List, [], ◌∷◌, count, str_eq, inl, inr,
  Bool-cases, if◌then◌else◌, arith,
}
use noxis_api_provider.Security.{Text, KeyAuthenticator, Result, accepted, refused, require_auth}
use noxis_api_provider.GatewayRateLimiter.{GatewayRateLimiter, allow}
use noxis_api_provider.GatewayRateLimiter.Bound.{
  Request, allowed, Chronological, in_minute, fresh, allowed-le-rpm,
}
use noxis_api_provider.Deps.{limited, authenticate}

-- A call: its time and its Authorization header.
abbrev pub Call : Type 0
Call = ℕ × Option String

abbrev pub InOrder : ℕ → List Call → Type 0
InOrder now [] = Unit
InOrder now ((t, header) ∷ calls) = (now ≤ t) × InOrder t calls

-- Whether the call was let through as `key`.
abbrev pub is_as : String → Result String → Bool
is_as key (accepted id) = str_eq id key
is_as key (refused e) = false

module _ (py : Text) (a : KeyAuthenticator) (allow_unauthenticated : Bool) where
  -- The times at which calls were let through as `key`, latest first, over those before.
  unfoldable pub admitted : String → GatewayRateLimiter → List ℕ → List Call → List ℕ
  admitted key g log [] = log
  admitted key g log ((now, header) ∷ calls) =
      let (answer, g') = authenticate py now header a allow_unauthenticated g in
      admitted key g' (if is_as key answer then now ∷ log else log) calls

  -- The calls that the limiter sees.
  abbrev seen_of : ℕ → Result String → List Request → List Request
  seen_of now (refused e) rs = rs
  seen_of now (accepted id) rs = (now, id) ∷ rs

  abbrev seen : List Call → List Request
  seen [] = []
  seen ((now, header) ∷ calls) =
      seen_of now (require_auth py header a allow_unauthenticated) (seen calls)

  seen_mono : (m n : ℕ) (rs : List Request) → m ≤ n → Chronological n rs → Chronological m rs
  seen_mono m n [] h c = tt
  seen_mono m n ((t, k) ∷ rs) h c = (omega (arith, c.0), c.1)

  seen-Chronological :
      (now : ℕ) (calls : List Call) → InOrder now calls → Chronological now (seen calls)
  seen-Chronological now [] c = tt
  seen-Chronological now ((t, header) ∷ calls) c =
      through (require_auth py header a allow_unauthenticated) (seen-Chronological t calls c.1)
    where
      through :
          (r : Result String)
          → Chronological t (seen calls)
          → Chronological now (seen_of t r (seen calls))
      through (refused e) later = seen_mono now t (seen calls) c.0 later
      through (accepted id) later = (c.0, later)

  admitted-allowed :
      (key : String) (g : GatewayRateLimiter) (log : List ℕ) (calls : List Call)
      → admitted key g log calls ≡ allowed key g log (seen calls)
  unfolding admitted allowed authenticate limited
  admitted-allowed key g log [] = refl
  admitted-allowed key g log ((now, header) ∷ calls) =
      through (require_auth py header a allow_unauthenticated)
        (λ g' log'. admitted-allowed key g' log' calls)
    where
      through :
          (r : Result String)
          → ((g' : GatewayRateLimiter) (log' : List ℕ)
              → admitted key g' log' calls ≡ allowed key g' log' (seen calls))
          → (let (answer, g') = limited now r g in
              admitted key g' (if is_as key answer then now ∷ log else log) calls)
            ≡ allowed key g log (seen_of now r (seen calls))
      through (refused e) rest = rest g log
      through (accepted id) rest = elim (Bool-cases ((allow now id g).0)) [
        | inl e ↦ rw (e, limited, allowed) (rest (allow now id g).1 _)
        | inr e ↦ rw (e, limited, allowed) (rest (allow now id g).1 log)
      ]

  -- Whatever headers come in, with tokens or without, on a clock that does not go back: no more than the
  -- configured number of calls are let through under one key id in any minute.
  pub admitted-le-rpm :
      (rpm : ℕ) (key : String) (calls : List Call) (t : ℕ)
      → InOrder 0 calls
      → count (in_minute t) (admitted key (fresh rpm) [] calls) ≤ rpm
  admitted-le-rpm rpm key calls t c =
      let bound = allowed-le-rpm rpm key (seen calls) t (seen-Chronological 0 calls c) in
      rw (admitted-allowed key (fresh rpm) [] calls) bound
