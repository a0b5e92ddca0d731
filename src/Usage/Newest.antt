-- ===== src/Usage/Newest.antt =====
-- The summary of app/core/usage.py on the table that the query reads, which the database selects: the newest
-- rows, as many as the limit.
use mathlib.Core.List.{Perm, Permᴰ}
use mathlib.Core.Logic.{∥∥₁_elim}
use native.Mathlib.Nat.{ℕ_set}
use noxis_api_provider.Prelude.{
  ℕ, ◌+◌, ◌-◌, ◌≤◌, ◌<◌, ◌≡◌, refl, sym, ◌∙◌, ◌⊎◌, inl, inr, Bool, true, ◌&&◌, List, [], ◌∷◌, ◌++◌,
  All, count, count-le-length, length, count-append, min, leb, str_eq, str_eq_iff, arith,
}
use noxis_api_provider.Usage.{UsageRecord}

module _ {ℓ} {A : Type ℓ} where
  count-permᴰ : (p : A → Bool) {xs ys : List A} → Permᴰ xs ys → count p xs ≡ count p ys
  count-permᴰ p Permᴰ.nil = refl
  count-permᴰ p (Permᴰ.cons e d) = ground (arith, count-permᴰ p d, e)
  count-permᴰ p (Permᴰ.swap e e') = ground (arith, e, e')
  count-permᴰ p (Permᴰ.trans d d') = count-permᴰ p d ∙ count-permᴰ p d'

  count-perm : (p : A → Bool) {xs ys : List A} → Perm xs ys → count p xs ≡ count p ys
  count-perm p h = ∥∥₁_elim h (ℕ_set _ _) (count-permᴰ p)

  count-all : (xs : List A) → count (λ x. true) xs ≡ length xs
  count-all [] = refl
  count-all (x ∷ xs) = omega (arith, count-all xs)

  -- A test that passes on less counts less.
  count_mono :
      (p q : A → Bool) (xs : List A) → ((x : A) → p x ≡ true → q x ≡ true) → count p xs ≤ count q xs
  count_mono p q [] h = omega arith
  count_mono p q (x ∷ xs) h = ground (arith, count_mono p q xs h, h x)

-- All that is counted in the table, but for the rows that are missing.
abbrev pub CountsBut : (missing counted all : ℕ) → Type 0
CountsBut missing counted all = (counted ≤ all) × (all ≤ counted + missing)

module _ {ℓ} {F : Type ℓ} where
  -- select(UsageRecord).order_by(timestamp.desc()).limit(limit): of the rows of the table as many as there
  -- are, up to the limit, and none that is left out is newer than one that is chosen.
  pub record IsNewest (limit : ℕ) (rows chosen : List (UsageRecord F)) : Type ℓ where
    pub left_out : List (UsageRecord F)
    pub parts : Perm (chosen ++ left_out) rows
    pub within : length chosen ≤ limit
    pub full : (length chosen ≡ limit) ⊎ (left_out ≡ [])
    pub newer :
        All
          (λ (c : UsageRecord F). All (λ (r : UsageRecord F). r.timestamp ≤ c.timestamp) left_out)
          chosen

  count-parts :
      (p : UsageRecord F → Bool) {limit : ℕ} {rows chosen : List (UsageRecord F)}
      (n : IsNewest limit rows chosen)
      → count p rows ≡ count p chosen + count p n.left_out
  count-parts p {chosen = chosen} n = sym (count-perm p n.parts) ∙ count-append p chosen n.left_out

  -- From what time on, by a row.
  abbrev since : ℕ → UsageRecord F → Bool
  since t x = leb t x.timestamp

  since-bound :
      (t m : ℕ) (xs : List (UsageRecord F))
      → All (λ (x : UsageRecord F). x.timestamp ≤ m) xs
      → 0 < count (since t) xs
      → t ≤ m
  since-bound t m [] a h = absurd (omega arith)
  since-bound t m (x ∷ xs) (le, a) h = ground (arith, since-bound t m xs a, le, h)

  since-none :
      (t : ℕ) (xs : List (UsageRecord F))
      → All (λ (x : UsageRecord F). x.timestamp < t) xs
      → count (since t) xs ≡ 0
  since-none t [] a = refl
  since-none t (x ∷ xs) (lt, a) = ground (arith, since-none t xs a, lt)

  -- A row that is left out has one that is chosen, and no older.
  since-chosen :
      (t : ℕ) (chosen left : List (UsageRecord F))
      → All
          (λ (c : UsageRecord F). All (λ (r : UsageRecord F). r.timestamp ≤ c.timestamp) left)
          chosen
      → 0 < length chosen
      → 0 < count (since t) left
      → 0 < count (since t) chosen
  since-chosen t [] left a h k = absurd (omega arith)
  since-chosen t (c ∷ cs) left (m, a) h k = ground (arith, since-bound t c.timestamp left m k)

  length-parts :
      {limit : ℕ} {rows chosen : List (UsageRecord F)} (n : IsNewest limit rows chosen)
      → length rows ≡ length chosen + length n.left_out
  length-parts {rows = rows} {chosen = chosen} n =
      omega
        (arith, count-parts (λ x. true) n, count-all rows, count-all chosen, count-all n.left_out)

  pub length-chosen :
      {limit : ℕ} {rows chosen : List (UsageRecord F)} (n : IsNewest limit rows chosen)
      → length chosen ≡ min limit (length rows)
  length-chosen {chosen = chosen} n = elim n.full [
    | inl e ↦ omega (arith, length-parts n, e)
    | inr e ↦ ground (arith, length-parts n, e, n.within)
  ]

  pub chosen-CountsBut :
      (p : UsageRecord F → Bool) {limit : ℕ} {rows chosen : List (UsageRecord F)}
      (n : IsNewest limit rows chosen)
      → CountsBut (length rows - length chosen) (count p chosen) (count p rows)
  chosen-CountsBut p n =
      let parts = count-parts p n in
      let left = count-le-length p n.left_out in
      (omega (arith, parts), omega (arith, parts, left, length-parts n))

  since-append :
      (old : List (UsageRecord F)) (r : UsageRecord F)
      → All (λ (o : UsageRecord F). o.timestamp < r.timestamp) old
      → count (since r.timestamp) (old ++ r ∷ []) ≡ 1
  since-append old r older =
      ground
        (arith, count-append (since r.timestamp) old (r ∷ []), since-none r.timestamp old older)

  -- No row that is left out is as new as the newest.
  newest-not_left :
      {limit : ℕ} (old : List (UsageRecord F)) {chosen : List (UsageRecord F)} (r : UsageRecord F)
      (n : IsNewest limit (old ++ r ∷ []) chosen)
      → 0 < limit
      → All (λ (o : UsageRecord F). o.timestamp < r.timestamp) old
      → count (since r.timestamp) n.left_out ≡ 0
  newest-not_left old {chosen} r n positive older =
      let parts = count-parts (since r.timestamp) n in
      let one = since-append old r older in
      elim n.full [
        | inl e ↦ ground (arith, e, parts, one, since-chosen r.timestamp chosen n.left_out n.newer)
        | inr e ↦ rw e refl
      ]

  pub newest-chosen :
      {limit : ℕ} (old : List (UsageRecord F)) {chosen : List (UsageRecord F)} (r : UsageRecord F)
      (n : IsNewest limit (old ++ r ∷ []) chosen)
      → 0 < limit
      → All (λ (o : UsageRecord F). o.timestamp < r.timestamp) old
      → 0 < count (λ (x : UsageRecord F). str_eq x.provider r.provider) chosen
  newest-chosen old {chosen} r n positive older =
      let q = λ (x : UsageRecord F). since r.timestamp x && str_eq x.provider r.provider in
      let named = λ (x : UsageRecord F). str_eq x.provider r.provider in
      let here : count q (r ∷ []) ≡ 1 = ground (arith, str_eq_iff r.provider r.provider) in
      omega (
        arith,
        newest-not_left old r n positive older,
        count_mono q (since r.timestamp) n.left_out (λ x h. ground arith),
        count_mono q named chosen (λ x h. ground arith),
        count-parts q n,
        count-append q old (r ∷ []),
        here,
      )
