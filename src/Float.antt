-- ===== src/Float.antt =====
-- Python's floats, which this development does not implement: the operations that the scores use. No
-- theorem assumes a law of them.
pub mod Milli
use noxis_api_provider.Prelude.{ℕ, Bool, if◌then◌else◌}

-- `ratio m n` is the quotient m / n of two integers; so `ratio 3 10` is the literal 0.3.
pub record Float {ℓ} (F : Type ℓ) : Type ℓ where
  pub ratio : ℕ → ℕ → F
  pub add : F → F → F
  pub sub : F → F → F
  pub mul : F → F → F
  pub div : F → F → F
  pub lt : F → F → Bool

module _ {ℓ} {F : Type ℓ} ⦃f : Float F⦄ where
  abbrev pub nought : F
  nought = f.ratio 0 1

  abbrev pub one : F
  one = f.ratio 1 1

  -- max(a, b) and min(a, b): the first argument unless the second is beyond it.
  abbrev pub fmax : F → F → F
  fmax a b = if f.lt a b then b else a

  abbrev pub fmin : F → F → F
  fmin a b = if f.lt b a then b else a
