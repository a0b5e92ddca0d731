-- ===== src/Sort.antt =====
-- Python's stable sort. `after x y` says that x must come after y.
use mathlib.Core.List.{Perm}
use mathlib.Core.List.Perm
use noxis_api_provider.Prelude.{
  ◌≡◌, ◌⊎◌, Bool, false, List, [], ◌∷◌, All, if◌then◌else◌, if_intro, arith,
}

module _ {ℓ} {A : Type ℓ} (after : A → A → Bool) where
  unfoldable pub insert : A → List A → List A
  insert x [] = x ∷ []
  insert x (y ∷ ys) = if after x y then y ∷ insert x ys else x ∷ y ∷ ys

  unfoldable pub sort : List A → List A
  unfolding insert
  sort [] = []
  sort (x ∷ xs) = insert x (sort xs)

  abbrev pub Sorted : List A → Type 0
  Sorted [] = Unit
  Sorted (x ∷ xs) = All (λ y. after x y ≡ false) xs × Sorted xs

  insert-perm : (x : A) (ys : List A) → Perm (insert x ys) (x ∷ ys)
  unfolding insert
  insert-perm x [] = Perm.refl (x ∷ [])
  insert-perm x (y ∷ ys) =
      if_intro (λ l. Perm l (x ∷ y ∷ ys)) (after x y) _ _
        (λ _. Perm.trans (Perm.cons y (insert-perm x ys)) (Perm.swap x y ys))
        (λ _. Perm.refl (x ∷ y ∷ ys))

  -- Sorting loses nothing and adds nothing.
  pub sort-perm : (xs : List A) → Perm (sort xs) xs
  unfolding sort
  sort-perm [] = Perm.refl []
  sort-perm (x ∷ xs) = Perm.trans (insert-perm x (sort xs)) (Perm.cons x (sort-perm xs))

  pub All-insert {κ} : (P : A → Type κ) (x : A) (ys : List A) → P x → All P ys → All P (insert x ys)
  unfolding insert
  All-insert P x [] p ps = (p, tt)
  All-insert P x (y ∷ ys) p ps =
      if_intro (All P) (after x y) _ _ (λ _. (ps.0, All-insert P x ys p ps.1)) (λ _. (p, ps))

  pub All-sort {κ} : (P : A → Type κ) (xs : List A) → All P xs → All P (sort xs)
  unfolding sort
  All-sort P [] ps = tt
  All-sort P (x ∷ xs) ps = All-insert P x (sort xs) ps.0 (All-sort P xs ps.1)

-- The order is total, and not coming after is transitive.
pub record IsOrder {ℓ} {A : Type ℓ} (after : A → A → Bool) : Type ℓ where
  pub total : (x y : A) → (after x y ≡ false) ⊎ (after y x ≡ false)
  pub trans : (x y z : A) → after x y ≡ false → after y z ≡ false → after x z ≡ false

module _ {ℓ} {A : Type ℓ} (after : A → A → Bool) (order : IsOrder after) where
  All-trans :
      (x y : A) (ys : List A)
      → after x y ≡ false
      → All (λ z. after y z ≡ false) ys
      → All (λ z. after x z ≡ false) ys
  All-trans x y [] h a = tt
  All-trans x y (z ∷ ys) h a = (order.trans x y z h a.0, All-trans x y ys h a.1)

  insert-Sorted : (x : A) (ys : List A) → Sorted after ys → Sorted after (insert after x ys)
  unfolding insert
  insert-Sorted x [] s = (tt, tt)
  insert-Sorted x (y ∷ ys) s =
      if_intro (Sorted after) (after x y) _ _
        (λ e. (
          All-insert after (λ z. after y z ≡ false) x ys (ground (arith, order.total x y)) s.0,
          insert-Sorted x ys s.1,
        ))
        (λ e. ((e, All-trans x y ys e s.0), s))

  -- The result is in order.
  pub sort-Sorted : (xs : List A) → Sorted after (sort after xs)
  unfolding sort
  sort-Sorted [] = tt
  sort-Sorted (x ∷ xs) = insert-Sorted x (sort after xs) (sort-Sorted xs)
