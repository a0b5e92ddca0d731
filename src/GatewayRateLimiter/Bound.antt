-- ===== src/GatewayRateLimiter/Bound.antt =====
-- No client key gets more than its requests per minute, in any minute.
use mathlib.Core.Path.{subst, subst₂}
use noxis_api_provider.Prelude.{
  ℕ, Bool-cases, inl, inr, ◌∙◌, ◌≤◌, ◌<◌, String, ◌≡◌, refl, sym, Bool, ◌&&◌, List, [], ◌∷◌, ◌++◌,
  count, count-append, length, leb, str_eq, str_eq_iff, if◌then◌else◌, arith,
}
use noxis_api_provider.Dict
use noxis_api_provider.Dict.{get_or-set}
use noxis_api_provider.RateLimiter.{minute, trim_hits}
use noxis_api_provider.RateLimiter.Window.{
  Sorted, Past, recent, length-trim_hits, trim_hits-Sorted, trim_hits-Past, Past-mono, Past-snoc,
  Sorted-snoc, count-trim_hits,
}
use noxis_api_provider.GatewayRateLimiter.{GatewayRateLimiter, admit, allow}

-- A request: its time and its key.
abbrev pub Request : Type 0
Request = ℕ × String

-- The times at which `key` was let through, latest first, over those already let through.
unfoldable pub allowed : String → GatewayRateLimiter → List ℕ → List Request → List ℕ
allowed key g log [] = log
allowed key g log ((now, k) ∷ rs) =
    let (answer, g') = allow now k g in
    allowed key g' (if answer && str_eq k key then now ∷ log else log) rs

abbrev pub Chronological : ℕ → List Request → Type 0
Chronological now [] = Unit
Chronological now ((t, k) ∷ rs) = (now ≤ t) × Chronological t rs

-- The minute that ends at `t`.
abbrev pub in_minute : ℕ → ℕ → Bool
in_minute t u = leb u t && recent t minute u

-- A key's deque stands for its log.
record Tracks (rpm now : ℕ) (dq log : List ℕ) : Type 0 where
  sorted : Sorted dq
  past : Past now dq
  same : (t : ℕ) → now ≤ t → count (recent t minute) dq ≡ count (recent t minute) log
  bounded : (t : ℕ) → count (in_minute t) log ≤ rpm

count_mono :
    (t now : ℕ) (log : List ℕ) → now ≤ t → count (in_minute t) log ≤ count (recent now minute) log
count_mono t now [] h = omega arith
count_mono t now (u ∷ log) h = ground (arith, count_mono t now log h)

Tracks-later : (rpm m n : ℕ) (dq log : List ℕ) → m ≤ n → Tracks rpm m dq log → Tracks rpm n dq log
Tracks-later rpm m n dq log h k = record {
  sorted = k.sorted;
  past = Past-mono m n dq h k.past;
  same = λ t g. k.same t (omega arith);
  bounded = k.bounded;
}

Tracks-trim :
    (rpm now : ℕ) (dq log : List ℕ)
    → Tracks rpm now dq log
    → Tracks rpm now (trim_hits now minute dq) log
Tracks-trim rpm now dq log k = record {
  sorted = trim_hits-Sorted now minute dq k.sorted;
  past = trim_hits-Past now now minute dq k.past;
  same = λ t h. count-trim_hits t now minute dq h ∙ k.same t h;
  bounded = k.bounded;
}

Tracks-append :
    (rpm now : ℕ) (dq log : List ℕ)
    → Tracks rpm now dq log
    → count (recent now minute) log < rpm
    → Tracks rpm now (dq ++ now ∷ []) (now ∷ log)
Tracks-append rpm now dq log k room = record {
  sorted = Sorted-snoc now dq k.sorted k.past;
  past = Past-snoc now dq k.past;
  same = λ t h. ground (arith, count-append (recent t minute) dq (now ∷ []), k.same t h);
  bounded = λ t. ground (arith, k.bounded t, count_mono t now log);
}

-- One key's part of `allow`, on a deque of any past time.
Tracks-admit :
    (rpm now : ℕ) (dq log : List ℕ)
    → Tracks rpm now dq log
    → let (answer, dq') = admit rpm now (trim_hits now minute dq) in
      Tracks rpm now dq' (if answer then now ∷ log else log)
unfolding admit
Tracks-admit rpm now dq log k =
    let dq' : List ℕ = trim_hits now minute dq in
    let trimmed : Tracks rpm now dq' log = Tracks-trim rpm now dq log k in
    elim (Bool-cases (leb rpm (length dq'))) [
      | inl full ↦ rw full trimmed
      | inr free ↦ rw free (
          Tracks-append rpm now dq' log trimmed
            (ground (arith, length-trim_hits now minute dq k.sorted, k.same now (omega arith))))
    ]

-- The deque of a key.
abbrev deque_of : String → GatewayRateLimiter → List ℕ
deque_of key g = Dict.get_or key [] g.hits

abbrev log_after : ℕ → String → String → GatewayRateLimiter → List ℕ → List ℕ
log_after now k key g log = if (allow now k g).0 && str_eq k key then now ∷ log else log

deque_of-allow :
    (now : ℕ) (k key : String) (g : GatewayRateLimiter)
    → deque_of key (allow now k g).1 ≡ (
        if str_eq k key
        then (admit g.rpm now (trim_hits now minute (deque_of k g))).1
        else deque_of key g)
unfolding allow
deque_of-allow now k key g = get_or-set k key [] _ g.hits

Tracks-allow_self :
    (now : ℕ) (key : String) (g : GatewayRateLimiter) (log : List ℕ)
    → Tracks g.rpm now (deque_of key g) log
    → Tracks g.rpm now (deque_of key (allow now key g).1) (log_after now key key g log)
unfolding allow
Tracks-allow_self now key g log t =
    let step = Tracks-admit g.rpm now (deque_of key g) log t in
    let self = (str_eq_iff key key).1 refl in
    subst₂ (λ dq l. Tracks g.rpm now dq l) (ground (arith, deque_of-allow now key key g, self))
      (ground (arith, self)) step

Tracks-allow :
    (now : ℕ) (k key : String) (g : GatewayRateLimiter) (log : List ℕ)
    → Tracks g.rpm now (deque_of key g) log
    → Tracks g.rpm now (deque_of key (allow now k g).1) (log_after now k key g log)
Tracks-allow now k key g log t = elim (Bool-cases (str_eq k key)) [
  | inl same ↦
      subst (λ j. Tracks g.rpm now (deque_of key (allow now j g).1) (log_after now j key g log))
        (sym ((str_eq_iff k key).0 same)) (Tracks-allow_self now key g log t)
  | inr other ↦
      subst₂ (λ dq l. Tracks g.rpm now dq l) (ground (arith, deque_of-allow now k key g))
        (ground arith) t
]

bounded_from :
    (key : String) (now : ℕ) (g : GatewayRateLimiter) (log : List ℕ) (rs : List Request)
    → Tracks g.rpm now (deque_of key g) log
    → Chronological now rs
    → (t : ℕ) → count (in_minute t) (allowed key g log rs) ≤ g.rpm
unfolding allowed allow
bounded_from key now g log [] k c t = k.bounded t
bounded_from key now g log ((n, j) ∷ rs) k c t =
    bounded_from key n (allow n j g).1 (log_after n j key g log) rs
      (Tracks-allow n j key g log (Tracks-later g.rpm now n _ log c.0 k)) c.1 t

abbrev pub fresh : ℕ → GatewayRateLimiter
fresh rpm = record { rpm = rpm; hits = [] }

-- Whatever requests arrive, of whatever keys, on a clock that does not go back: of those of one key
-- no more than `rpm` are let through in any minute.
pub allowed-le-rpm :
    (rpm : ℕ) (key : String) (rs : List Request) (t : ℕ)
    → Chronological 0 rs
    → count (in_minute t) (allowed key (fresh rpm) [] rs) ≤ rpm
allowed-le-rpm rpm key rs t c =
    bounded_from key 0 (fresh rpm) [] rs
      (unfold Dict.get_or in
        record { sorted = tt; past = tt; same = λ u h. refl; bounded = λ u. omega arith })
      c t
