-- ===== src/RateLimiter/Window.antt =====
-- What a sliding window counts, for `_trim` and the counts of app/core/rate_limiter.py.
use noxis_api_provider.Prelude.{
  ℕ, ◌-◌, ◌≤◌, ◌≡◌, refl, Bool, not, List, [], ◌∷◌, ◌++◌, length, count, All, ltb, arith,
}
use noxis_api_provider.RateLimiter.{trim_hits}

-- Oldest first.
abbrev pub Sorted : List ℕ → Type 0
Sorted [] = Unit
Sorted (t ∷ ts) = All (λ u. t ≤ u) ts × Sorted ts

-- A hit that is no older than `span`.
abbrev pub recent : ℕ → ℕ → ℕ → Bool
recent now span t = not (ltb span (now - t))

count_every :
    (now span t : ℕ) (ts : List ℕ)
    → now - t ≤ span
    → All (λ u. t ≤ u) ts
    → count (recent now span) ts ≡ length ts
count_every now span t [] h a = refl
count_every now span t (u ∷ ts) h a = ground (arith, count_every now span t ts h a.1)

-- In a deque whose hits are oldest first, trimming leaves exactly as many hits as are recent.
pub length-trim_hits :
    (now span : ℕ) (ts : List ℕ)
    → Sorted ts
    → length (trim_hits now span ts) ≡ count (recent now span) ts
unfolding trim_hits
length-trim_hits now span [] s = refl
length-trim_hits now span (t ∷ ts) s =
    ground (arith, length-trim_hits now span ts s.1, count_every now span t ts)

pub trim_hits_idem :
    (now span : ℕ) (ts : List ℕ)
    → trim_hits now span (trim_hits now span ts) ≡ trim_hits now span ts
unfolding trim_hits
trim_hits_idem now span [] = refl
trim_hits_idem now span (t ∷ ts) = ground (arith, trim_hits_idem now span ts)

pub trim_hits-Sorted : (now span : ℕ) (ts : List ℕ) → Sorted ts → Sorted (trim_hits now span ts)
unfolding trim_hits
trim_hits-Sorted now span [] s = tt
trim_hits-Sorted now span (t ∷ ts) s = ground (arith, trim_hits-Sorted now span ts s.1)

-- No hit lies after `now`.
abbrev pub Past : ℕ → List ℕ → Type 0
Past now = All (λ t. t ≤ now)

pub trim_hits-Past : (now n span : ℕ) (ts : List ℕ) → Past n ts → Past n (trim_hits now span ts)
unfolding trim_hits
trim_hits-Past now n span [] p = tt
trim_hits-Past now n span (t ∷ ts) p = ground (arith, trim_hits-Past now n span ts p.1)

pub Past-mono : (m n : ℕ) (ts : List ℕ) → m ≤ n → Past m ts → Past n ts
Past-mono m n [] h p = tt
Past-mono m n (t ∷ ts) h p = (omega arith, Past-mono m n ts h p.1)

pub Past-snoc : (now : ℕ) (ts : List ℕ) → Past now ts → Past now (ts ++ now ∷ [])
Past-snoc now [] p = (omega arith, tt)
Past-snoc now (t ∷ ts) p = (p.0, Past-snoc now ts p.1)

at_least_snoc :
    (t now : ℕ) (ts : List ℕ) → All (λ u. t ≤ u) ts → t ≤ now → All (λ u. t ≤ u) (ts ++ now ∷ [])
at_least_snoc t now [] a h = (h, tt)
at_least_snoc t now (u ∷ ts) a h = (a.0, at_least_snoc t now ts a.1 h)

pub Sorted-snoc : (now : ℕ) (ts : List ℕ) → Sorted ts → Past now ts → Sorted (ts ++ now ∷ [])
Sorted-snoc now [] s p = (tt, tt)
Sorted-snoc now (t ∷ ts) s p = (at_least_snoc t now ts s.0 p.0, Sorted-snoc now ts s.1 p.1)

pub length-trim_hits-le : (now span : ℕ) (ts : List ℕ) → length (trim_hits now span ts) ≤ length ts
unfolding trim_hits
length-trim_hits-le now span [] = omega arith
length-trim_hits-le now span (t ∷ ts) = ground (arith, length-trim_hits-le now span ts)

-- At a later time a trimmed deque has the recent hits that it had.
pub count-trim_hits :
    (t now span : ℕ) (ts : List ℕ)
    → now ≤ t
    → count (recent t span) (trim_hits now span ts) ≡ count (recent t span) ts
unfolding trim_hits
count-trim_hits t now span [] h = refl
count-trim_hits t now span (u ∷ ts) h = ground (arith, count-trim_hits t now span ts h)
