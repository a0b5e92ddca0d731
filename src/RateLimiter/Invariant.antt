-- ===== src/RateLimiter/Invariant.antt =====
-- The windows stay well formed under every call.
use mathlib.Core.Path.{subst}
use noxis_api_provider.Prelude.{
  ℕ, ◌+◌, ◌≤◌, String, sym, List, [], ◌∷◌, ◌++◌, length, length-append, inl, inr, str_eq, if_intro,
  arith,
}
use noxis_api_provider.RateLimiter.{
  ProviderUsageWindow, RateLimiter, minute, day, trim_hits, trim, record_request, window_record_429,
  window_record_failure, window,
}
use noxis_api_provider.RateLimiter.Window.{
  Sorted, Past, trim_hits-Sorted, trim_hits-Past, Past-mono, Past-snoc, Sorted-snoc,
  length-trim_hits-le,
}
use noxis_api_provider.RateLimiter.Queries.{window_can_serve-trim, window_snapshot-trim}
use noxis_api_provider.RateLimiter.History.{
  Call, asks, acquires, releases, fails, looks, limits, Entry, Chronological, act, step, run,
  window-step,
}

-- A deque is oldest first, holds no future hit, and no more hits than requests were made.
pub record HitsValid (now total : ℕ) (hits : List ℕ) : Type 0 where
  pub sorted : Sorted hits
  pub past : Past now hits
  pub length-le : length hits ≤ total

abbrev pub IsValid : ℕ → ProviderUsageWindow → Type 0
IsValid now w =
    HitsValid now w.total_requests w.minute_hits × HitsValid now w.total_requests w.day_hits

HitsValid-mono :
    (m n total : ℕ) (hits : List ℕ) → m ≤ n → HitsValid m total hits → HitsValid n total hits
HitsValid-mono m n total hits h v = record {
  sorted = v.sorted;
  past = Past-mono m n hits h v.past;
  length-le = v.length-le;
}

HitsValid-trim :
    (now n span total : ℕ) (hits : List ℕ)
    → HitsValid n total hits
    → HitsValid n total (trim_hits now span hits)
HitsValid-trim now n span total hits v = record {
  sorted = trim_hits-Sorted now span hits v.sorted;
  past = trim_hits-Past now n span hits v.past;
  length-le = omega (arith, length-trim_hits-le now span hits, v.length-le);
}

HitsValid-snoc :
    (now total : ℕ) (hits : List ℕ)
    → HitsValid now total hits
    → HitsValid now (total + 1) (hits ++ now ∷ [])
HitsValid-snoc now total hits v = record {
  sorted = Sorted-snoc now hits v.sorted v.past;
  past = Past-snoc now hits v.past;
  length-le = omega (arith, length-append hits (now ∷ []), v.length-le);
}

trim-IsValid : (now n : ℕ) (w : ProviderUsageWindow) → IsValid n w → IsValid n (trim now w)
unfolding trim
trim-IsValid now n w v = (HitsValid-trim now n minute _ _ v.0, HitsValid-trim now n day _ _ v.1)

record_request-IsValid :
    (now : ℕ) (w : ProviderUsageWindow) → IsValid now w → IsValid now (record_request now w)
unfolding record_request
record_request-IsValid now w v = (
  HitsValid-trim now now minute _ _ (HitsValid-snoc now _ _ v.0),
  HitsValid-trim now now day _ _ (HitsValid-snoc now _ _ v.1),
)

act-IsValid :
    (now : ℕ) (c : Call) (w : ProviderUsageWindow) → IsValid now w → IsValid now (act now c w)
unfolding act window_record_failure window_record_429
act-IsValid now (asks rpm rpd most) w v = elim (window_can_serve-trim now rpm rpd most w) [
  | inl e ↦ rw e v
  | inr e ↦ rw e (trim-IsValid now now w v)
]
act-IsValid now acquires w v =
    record_request-IsValid now (record w { concurrent = w.concurrent + 1 }) v
act-IsValid now releases w v = v
act-IsValid now fails w v = v
act-IsValid now looks w v = rw (window_snapshot-trim now w) (trim-IsValid now now w v)
act-IsValid now (limits retry_after) w v = v

-- All windows of a limiter are valid.
pub record AllValid (now : ℕ) (rl : RateLimiter) : Type 0 where
  pub at : (j : String) → IsValid now (window j rl)

step-AllValid :
    (now : ℕ) (name : String) (c : Call) (rl : RateLimiter)
    → AllValid now rl
    → AllValid now (step now name c rl)
step-AllValid now name c rl v = record {
  at = λ j. subst (IsValid now) (sym (window-step now name j c rl)) (
      if_intro (IsValid now) (str_eq name j) _ _ (λ _. act-IsValid now c _ (v.at name))
        (λ _. v.at j));
}

pub AllValid-mono : (m n : ℕ) (rl : RateLimiter) → m ≤ n → AllValid m rl → AllValid n rl
AllValid-mono m n rl h v = record {
  at = λ j. (HitsValid-mono m n _ _ h (v.at j).0, HitsValid-mono m n _ _ h (v.at j).1);
}

-- The time of the last call.
unfoldable pub last_time : ℕ → List Entry → ℕ
last_time now [] = now
last_time now (e ∷ es) = last_time e.time es

-- From valid windows, after any calls on a clock that does not go back, every provider's deques
-- are oldest first, hold no hit of the future, and hold no more hits than it has had requests.
pub run-AllValid :
    (now : ℕ) (rl : RateLimiter) (es : List Entry)
    → AllValid now rl
    → Chronological now es
    → AllValid (last_time now es) (run rl es)
unfolding run last_time
run-AllValid now rl [] v c = v
run-AllValid now rl (e ∷ es) v c =
    run-AllValid e.time _ es
      (step-AllValid e.time e.name e.call rl (AllValid-mono now e.time rl c.0 v)) c.1

pub AllValid-empty : (now : ℕ) → AllValid now []
unfolding window
AllValid-empty now = record {
  at = λ j. (
    record { sorted = tt; past = tt; length-le = omega arith },
    record { sorted = tt; past = tt; length-le = omega arith },
  );
}
