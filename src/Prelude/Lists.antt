-- ===== src/Prelude/Lists.antt =====
-- Lists measured by native numbers and filtered by Boolean tests.
use Prim.Native.Nat.{ℕ, zero, suc, ◌+◌, ◌≤◌, ◌<◌}
use mathlib.Core.Option.{Option, none, some}
use mathlib.Core.Path.{◌≡◌, refl, subst, sym, ap, ◌∙◌}
use mathlib.Core.Bool.{Bool, true, false, ◌||◌}
use mathlib.Core.Logic.{◌≢◌, ◌⊎◌, inl, inr}
use mathlib.Core.List.{List, [], ◌∷◌, ◌++◌, map}
use native.Mathlib.Omega.{arith}
use noxis_api_provider.Prelude.Tests.{if◌then◌else◌, if_intro, Bool-cases}

module _ {ℓ} {A : Type ℓ} where
  abbrev pub length : List A → ℕ
  length [] = 0
  length (x ∷ xs) = suc (length xs)

  abbrev pub All {κ} : (A → Type κ) → List A → Type κ
  All P [] = Unit
  All P (x ∷ xs) = P x × All P xs

  -- The comprehension `[x for x in xs if p(x)]`.
  abbrev pub keep : (A → Bool) → List A → List A
  keep p [] = []
  keep p (x ∷ xs) = let rest = keep p xs in if p x then x ∷ rest else rest

  -- How many entries pass the test.
  abbrev pub count : (A → Bool) → List A → ℕ
  count p [] = 0
  count p (x ∷ xs) = let rest = count p xs in if p x then suc rest else rest

  -- Python's `any`.
  abbrev pub any : (A → Bool) → List A → Bool
  any p [] = false
  any p (x ∷ xs) = p x || any p xs

  abbrev pub get_elem? : List A → ℕ → Option A
  get_elem? [] i = none
  get_elem? (x ∷ xs) zero = some x
  get_elem? (x ∷ xs) (suc i) = get_elem? xs i

  abbrev pub set : List A → ℕ → A → List A
  set [] i a = []
  set (x ∷ xs) zero a = a ∷ xs
  set (x ∷ xs) (suc i) a = x ∷ set xs i a

  -- A count after one entry is replaced.
  pub count-set :
      (p : A → Bool) (xs : List A) (i : ℕ) (old new : A)
      → get_elem? xs i ≡ some old
      → count p (set xs i new) + (if p old then 1 else 0) ≡ count p xs + (if p new then 1 else 0)
  count-set p [] i old new e = absurd cc
  count-set p (x ∷ xs) zero old new e = ground arith
  count-set p (x ∷ xs) (suc i) old new e = ground (arith, count-set p xs i old new)

  pub get_elem?-set :
      (xs : List A) (i : ℕ) (old new : A)
      → get_elem? xs i ≡ some old
      → get_elem? (set xs i new) i ≡ some new
  get_elem?-set [] i old new e = absurd cc
  get_elem?-set (x ∷ xs) zero old new e = refl
  get_elem?-set (x ∷ xs) (suc i) old new e = get_elem?-set xs i old new e

  pub get_elem?-set_ne :
      (xs : List A) (i j : ℕ) (new : A) → i ≢ j → get_elem? (set xs i new) j ≡ get_elem? xs j
  get_elem?-set_ne [] i j new h = refl
  get_elem?-set_ne (x ∷ xs) zero zero new h = absurd (h refl)
  get_elem?-set_ne (x ∷ xs) zero (suc j) new h = refl
  get_elem?-set_ne (x ∷ xs) (suc i) zero new h = refl
  get_elem?-set_ne (x ∷ xs) (suc i) (suc j) new h =
      get_elem?-set_ne xs i j new (λ e. h (ap (λ n. suc n) e))

  -- Where a count is not 0 there is an entry that is counted.
  pub count-pos :
      (p : A → Bool) (xs : List A)
      → 0 < count p xs
      → (i : ℕ) × (a : A) × (get_elem? xs i ≡ some a) × (p a ≡ true)
  count-pos p [] h = absurd (omega arith)
  count-pos p (x ∷ xs) h = elim (Bool-cases (p x)) [
    | inl e ↦ (0, x, refl, e)
    | inr e ↦ let (i, a, at, q) = count-pos p xs (ground (arith, e, h)) in (suc i, a, at, q)
  ]

  pub length-append : (xs ys : List A) → length (xs ++ ys) ≡ length xs + length ys
  length-append [] ys = omega arith
  length-append (x ∷ xs) ys = omega (arith, length-append xs ys)

  pub count-append : (p : A → Bool) (xs ys : List A) → count p (xs ++ ys) ≡ count p xs + count p ys
  count-append p [] ys = omega arith
  count-append p (x ∷ xs) ys = ground (arith, count-append p xs ys)

  pub count-le-length : (p : A → Bool) (xs : List A) → count p xs ≤ length xs
  count-le-length p [] = omega arith
  count-le-length p (x ∷ xs) = ground (arith, count-le-length p xs)

  pub All-append {κ} : (P : A → Type κ) (xs ys : List A) → All P xs → All P ys → All P (xs ++ ys)
  All-append P [] ys _ q = q
  All-append P (x ∷ xs) ys (p, ps) q = (p, All-append P xs ys ps q)

-- An entry of the list, with its place.
abbrev pub In : {A : Type 0} → A → List A → Type 0
In a [] = ⊥
In a (x ∷ xs) = (a ≡ x) ⊎ In a xs

-- What holds of every entry holds of one.
pub All-In {κ} : {A : Type 0} (P : A → Type κ) (a : A) (xs : List A) → All P xs → In a xs → P a
All-In P a [] ps m = absurd m
All-In P a (x ∷ xs) ps (inl e) = subst P (sym e) ps.0
All-In P a (x ∷ xs) ps (inr m) = All-In P a xs ps.1 m

In-keep_head :
    {A : Type 0} (p : A → Bool) (a x : A) (xs : List A)
    → p x ≡ true
    → In a (x ∷ keep p xs)
    → (In a (keep p xs) → In a xs × (p a ≡ true))
    → In a (x ∷ xs) × (p a ≡ true)
In-keep_head p a x xs e (inl same) rec = (inl same, ap p same ∙ e)
In-keep_head p a x xs e (inr m) rec = let (n, h) = rec m in (inr n, h)

pub In-keep :
    {A : Type 0} (p : A → Bool) (a : A) (xs : List A) → In a (keep p xs) → In a xs × (p a ≡ true)
In-keep p a [] m = absurd m
In-keep p a (x ∷ xs) m = elim (Bool-cases (p x)) [
  | inl e ↦
      In-keep_head p a x xs e
        (subst (λ (b : Bool). In a (if b then x ∷ keep p xs else keep p xs)) e m) (In-keep p a xs)
  | inr e ↦
      let (n, h) =
        In-keep p a xs (subst (λ (b : Bool). In a (if b then x ∷ keep p xs else keep p xs)) e m) in
      (inr n, h)
]

pub In-map : {A B : Type 0} (f : A → B) (a : A) (xs : List A) → In a xs → In (f a) (map f xs)
In-map f a [] m = m
In-map f a (x ∷ xs) (inl e) = inl (ap f e)
In-map f a (x ∷ xs) (inr m) = inr (In-map f a xs m)

pub All-map {κ} :
    {A : Type 0} (P Q : A → Type κ) (xs : List A) → ((a : A) → P a → Q a) → All P xs → All Q xs
All-map P Q [] f ps = tt
All-map P Q (x ∷ xs) f ps = (f x ps.0, All-map P Q xs f ps.1)

pub All-filter {κ} :
    {A : Type 0} (P : A → Type κ) (p : A → Bool) (xs : List A) → All P xs → All P (keep p xs)
All-filter P p [] ps = tt
All-filter P p (x ∷ xs) ps =
    if_intro (All P) (p x) _ _ (λ _. (ps.0, All-filter P p xs ps.1)) (λ _. All-filter P p xs ps.1)

-- Every entry of a list is in it.
pub All-self : {A : Type 0} (xs : List A) → All (λ x. In x xs) xs
All-self [] = tt
All-self (x ∷ xs) =
    (inl refl, All-map (λ y. In y xs) (λ y. In y (x ∷ xs)) xs (λ y m. inr m) (All-self xs))
