-- ===== src/Prelude/Int.antt =====
-- Python's integers where a sign can occur, over the native numbers: `negsuc n` is -(n + 1).
use noxis_api_provider.Prelude.Tests.{ltb, leb, ◌==◌, if◌then◌else◌}
use Prim.Native.Nat.{ℕ, suc, ◌+◌, ◌-◌}
use mathlib.Core.Bool.{Bool, true, false}

pub data ℤ : Type 0 where
  pos : ℕ → ℤ
  negsuc : ℕ → ℤ

-- 0 < a
abbrev pub is_positive : ℤ → Bool
is_positive (pos n) = ltb 0 n
is_positive (negsuc n) = false

-- max(0, a)
abbrev pub pos_part : ℤ → ℕ
pos_part (pos n) = n
pos_part (negsuc n) = 0

abbrev pub leb_ℤ : ℤ → ℤ → Bool
leb_ℤ (pos m) (pos n) = leb m n
leb_ℤ (pos m) (negsuc n) = false
leb_ℤ (negsuc m) (pos n) = true
leb_ℤ (negsuc m) (negsuc n) = leb n m

-- a - b, where b is not above a.
abbrev pub distance : ℤ → ℤ → ℕ
distance (pos m) (pos n) = m - n
distance (pos m) (negsuc n) = m + suc n
distance (negsuc m) (pos n) = 0
distance (negsuc m) (negsuc n) = n - m

abbrev pub eq_ℤ : ℤ → ℤ → Bool
eq_ℤ (pos m) (pos n) = m == n
eq_ℤ (negsuc m) (negsuc n) = m == n
eq_ℤ _ _ = false

-- m - n, as an integer.
abbrev pub sub_ℕ : ℕ → ℕ → ℤ
sub_ℕ m n = if leb n m then pos (m - n) else negsuc (n - m - 1)

abbrev pub add_ℤ : ℤ → ℤ → ℤ
add_ℤ (pos m) (pos n) = pos (m + n)
add_ℤ (pos m) (negsuc n) = sub_ℕ m (suc n)
add_ℤ (negsuc m) (pos n) = sub_ℕ n (suc m)
add_ℤ (negsuc m) (negsuc n) = negsuc (m + n + 1)

abbrev pub is_negative : ℤ → Bool
is_negative (pos n) = false
is_negative (negsuc n) = true
