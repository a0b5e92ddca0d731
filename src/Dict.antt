-- ===== src/Dict.antt =====
-- Python's `dict` with string keys, as the program uses it: insertion order, in-place update.
use noxis_api_provider.Prelude.{
  String, ◌≡◌, refl, Bool, true, false, Option, none, some, List, [], ◌∷◌, map, arith, str_eq,
  str_eq_iff, if◌then◌else◌,
}

abbrev pub Dict {ℓ} : Type ℓ → Type ℓ
Dict V = List (String × V)

module _ {ℓ} {V : Type ℓ} where
  -- d.get(k)
  unfoldable pub get : String → Dict V → Option V
  get k [] = none
  get k ((j, v) ∷ d) = if str_eq j k then some v else get k d

  -- d.get(k, default)
  unfoldable pub get_or : String → V → Dict V → V
  get_or k v [] = v
  get_or k v ((j, w) ∷ d) = if str_eq j k then w else get_or k v d

  -- d[k] = v: a new key goes to the end
  unfoldable pub set : String → V → Dict V → Dict V
  set k v [] = (k, v) ∷ []
  set k v ((j, w) ∷ d) = if str_eq j k then (j, v) ∷ d else (j, w) ∷ set k v d

  -- d.pop(k, None)
  unfoldable pub pop : String → Dict V → Dict V
  pop k [] = []
  pop k ((j, w) ∷ d) = let rest = pop k d in if str_eq j k then rest else (j, w) ∷ rest

  -- list(d.values())
  abbrev pub values : Dict V → List V
  values = map (λ e. e.1)

  -- k in d
  unfoldable pub contains : String → Dict V → Bool
  contains k [] = false
  contains k ((j, w) ∷ d) = if str_eq j k then true else contains k d

  pub get-set :
      (k j : String) (v : V) (d : Dict V)
      → get j (set k v d) ≡ (if str_eq k j then some v else get j d)
  unfolding get set
  get-set k j v [] = refl
  get-set k j v ((i, w) ∷ d) =
      ground (arith, str_eq_iff k j, str_eq_iff i k, str_eq_iff i j, get-set k j v d)

  pub get_or-set :
      (k j : String) (u v : V) (d : Dict V)
      → get_or j u (set k v d) ≡ (if str_eq k j then v else get_or j u d)
  unfolding get_or set
  get_or-set k j u v [] = refl
  get_or-set k j u v ((i, w) ∷ d) =
      ground (arith, str_eq_iff k j, str_eq_iff i k, str_eq_iff i j, get_or-set k j u v d)

  pub get-pop :
      (k j : String) (d : Dict V) → get j (pop k d) ≡ (if str_eq k j then none else get j d)
  unfolding get pop
  get-pop k j [] = ground arith
  get-pop k j ((i, w) ∷ d) =
      ground (arith, str_eq_iff k j, str_eq_iff i k, str_eq_iff i j, get-pop k j d)

pub ruleset dict_laws = (get-set, get_or-set, get-pop)
