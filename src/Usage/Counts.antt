-- ===== src/Usage/Counts.antt =====
-- The counts in the summary of app/core/usage.py.
use noxis_api_provider.Prelude.{
  ℕ, zero, suc, ◌+◌, ◌≤◌, String, ◌≡◌, refl, List, [], ◌∷◌, map, count, count-le-length, length,
  str_eq, str_eq_iff, arith,
}
use noxis_api_provider.Float.{Float}
use noxis_api_provider.Dict
use noxis_api_provider.Dict.{Dict, get_or-set}
use noxis_api_provider.Usage.{UsageRecord, tally, first_of, summary}

pub get_or-tally :
    (k : String) (ks : List String) (d : Dict ℕ)
    → Dict.get_or k 0 (tally ks d) ≡ Dict.get_or k 0 d + count (λ j. str_eq j k) ks
unfolding tally
get_or-tally k [] d = omega arith
get_or-tally k (j ∷ ks) d = ground (
  arith,
  get_or-tally k ks (Dict.set j (Dict.get_or j 0 d + 1) d),
  get_or-set j k 0 (Dict.get_or j 0 d + 1) d,
  str_eq_iff j k,
)

pub count-map {ℓ} :
    {A : Type ℓ} (g : A → String) (k : String) (xs : List A)
    → count (λ j. str_eq j k) (map g xs) ≡ count (λ x. str_eq (g x) k) xs
count-map g k [] = refl
count-map g k (x ∷ xs) = ground (arith, count-map g k xs)

pub length-first_of {ℓ} : {A : Type ℓ} (n : ℕ) (xs : List A) → length (first_of n xs) ≤ n
unfolding first_of
length-first_of zero xs = omega arith
length-first_of (suc n) [] = omega arith
length-first_of (suc n) (x ∷ xs) = omega (arith, length-first_of n xs)

module _ {ℓ} {F : Type ℓ} ⦃f : Float F⦄ where
  -- The summary's counts are right: successes and errors make up the sample, each provider and each
  -- model is counted as often as it has rows, and no more than twenty errors are listed.
  pub summary-counts :
      (rows : List (UsageRecord F)) (name : String)
      → let s = summary rows in
        (s.success + s.errors ≡ s.sample_size)
        × (Dict.get_or name 0 s.by_provider
            ≡ count (λ (r : UsageRecord F). str_eq r.provider name) rows)
        × (Dict.get_or name 0 s.by_model ≡ count (λ (r : UsageRecord F). str_eq r.model name) rows)
        × (length s.recent_errors ≤ 20)
  unfolding summary Dict.get_or
  summary-counts rows name =
      let most = count-le-length (λ (r : UsageRecord F). str_eq r.status "success") rows in
      let providers = get_or-tally name (map (λ (r : UsageRecord F). r.provider) rows) [] in
      let models = get_or-tally name (map (λ (r : UsageRecord F). r.model) rows) [] in
      (
        omega (arith, most),
        omega (arith, providers, count-map (λ (r : UsageRecord F). r.provider) name rows),
        omega (arith, models, count-map (λ (r : UsageRecord F). r.model) name rows),
        length-first_of 20 _,
      )
