-- ===== src/Usage/Sample.antt =====
-- A database in small: the query that app/core/usage.py makes, on a list of rows.
use mathlib.Core.List.{Perm}
use noxis_api_provider.Prelude.{
  ℕ, zero, suc, ◌≤◌, ◌≡◌, ◌⊎◌, inl, inr, subst, refl, sym, ap, Bool, false, List, [], ◌∷◌, ◌++◌,
  All, length, ltb, Bool-cases, arith,
}
use noxis_api_provider.Sort.{sort, sort-perm, sort-Sorted, Sorted, IsOrder}
use noxis_api_provider.Usage.{UsageRecord, first_of}
use noxis_api_provider.Usage.Counts.{length-first_of}
use noxis_api_provider.Usage.Newest.{IsNewest}

module _ {ℓ} {F : Type ℓ} where
  abbrev older : UsageRecord F → UsageRecord F → Bool
  older x y = ltb x.timestamp y.timestamp

  older-IsOrder : IsOrder older
  older-IsOrder = record {
    total =
        λ x y. elim (Bool-cases (older x y)) [ inl e ↦ inr (ground (arith, e)) | inr e ↦ inl e ];
    trans = λ x y z h k. ground (arith, h, k);
  }

  unfoldable pub select : ℕ → List (UsageRecord F) → List (UsageRecord F)
  select limit rows = first_of limit (sort older rows)

  unfoldable after_first : ℕ → List (UsageRecord F) → List (UsageRecord F)
  after_first zero xs = xs
  after_first (suc n) [] = []
  after_first (suc n) (x ∷ xs) = after_first n xs

  split_first : (n : ℕ) (xs : List (UsageRecord F)) → first_of n xs ++ after_first n xs ≡ xs
  unfolding first_of after_first
  split_first zero xs = refl
  split_first (suc n) [] = refl
  split_first (suc n) (x ∷ xs) = ap (λ l. x ∷ l) (split_first n xs)

  first_of-full :
      (n : ℕ) (xs : List (UsageRecord F)) → (length (first_of n xs) ≡ n) ⊎ (after_first n xs ≡ [])
  unfolding first_of after_first
  first_of-full zero xs = inl refl
  first_of-full (suc n) [] = inr refl
  first_of-full (suc n) (x ∷ xs) = elim (first_of-full n xs) [
    | inl e ↦ inl (ap suc e)
    | inr e ↦ inr e
  ]

  All-after :
      (n : ℕ) (xs : List (UsageRecord F)) (x : UsageRecord F)
      → All (λ y. older x y ≡ false) xs
      → All (λ (y : UsageRecord F). y.timestamp ≤ x.timestamp) (after_first n xs)
  unfolding after_first
  All-after zero [] x a = tt
  All-after zero (y ∷ ys) x (h, a) = (ground (arith, h), All-after zero ys x a)
  All-after (suc n) [] x a = tt
  All-after (suc n) (y ∷ ys) x (h, a) = All-after n ys x a

  first_of-newer :
      (n : ℕ) (xs : List (UsageRecord F))
      → Sorted older xs
      → All
          (λ (c : UsageRecord F).
            All (λ (r : UsageRecord F). r.timestamp ≤ c.timestamp) (after_first n xs))
          (first_of n xs)
  unfolding first_of after_first
  first_of-newer zero xs s = tt
  first_of-newer (suc n) [] s = tt
  first_of-newer (suc n) (x ∷ xs) (a, s) = (All-after n xs x a, first_of-newer n xs s)

  pub select-IsNewest :
      (limit : ℕ) (rows : List (UsageRecord F)) → IsNewest limit rows (select limit rows)
  unfolding select
  select-IsNewest limit rows =
      let sorted = sort older rows in
      record {
        left_out = after_first limit sorted;
        parts = subst (λ l. Perm l rows) (sym (split_first limit sorted)) (sort-perm older rows);
        within = length-first_of limit sorted;
        full = first_of-full limit sorted;
        newer = first_of-newer limit sorted (sort-Sorted older older-IsOrder rows);
      }
