-- ===== src/Provider/Names.antt =====
-- The references of app/core/scheduler.py to provider objects: names that resolve in the registry.
use noxis_api_provider.Prelude.{
  String, ◌≡◌, refl, ap, false, some, List, [], ◌∷◌, map, In, inl, inr, ◌⊎◌, str_eq, str_eq_iff,
  if_intro, Bool-cases, arith,
}
use noxis_api_provider.Provider.{Provider, find, update}

abbrev pub names : List Provider → List String
names = map λ p. p.name

-- A write that does not rename leaves the names.
pub names-update :
    (name : String) (g : Provider → Provider) (ps : List Provider)
    → ((p : Provider) → (g p).name ≡ p.name)
    → names (update name g ps) ≡ names ps
unfolding update
names-update name g [] h = refl
names-update name g (p ∷ ps) h =
    if_intro (λ l. names l ≡ names (p ∷ ps)) (str_eq p.name name) _ _
      (λ _. ap (λ n. n ∷ names ps) (h p)) (λ _. ap (λ l. p.name ∷ l) (names-update name g ps h))

-- A name of the registry resolves, to a provider of that name.
pub find-names :
    (name : String) (ps : List Provider)
    → In name (names ps)
    → (p : Provider) × (find name ps ≡ some p)
unfolding find
find-names name [] m = absurd m
find-names name (p ∷ ps) m = elim (Bool-cases (str_eq p.name name)) [
  | inl e ↦ (p, rw e refl)
  | inr e ↦ let rest = find-names name ps (elsewhere m e) in (rest.0, rw e (rest.1))
]
  where
    elsewhere :
        (name ≡ p.name) ⊎ In name (names ps) → str_eq p.name name ≡ false → In name (names ps)
    elsewhere (inl q) e = absurd (ground (arith, str_eq_iff p.name name))
    elsewhere (inr n) e = n

-- What a name resolves to has that name.
pub find-name :
    (name : String) (ps : List Provider) (p : Provider) → find name ps ≡ some p → p.name ≡ name
unfolding find
find-name name [] p e = absurd cc
find-name name (q ∷ ps) p e = ground (arith, str_eq_iff q.name name, find-name name ps p)

-- A read after a write through the same reference.
pub find-update :
    (name : String) (g : Provider → Provider) (ps : List Provider) (p : Provider)
    → ((q : Provider) → (g q).name ≡ q.name)
    → find name ps ≡ some p
    → find name (update name g ps) ≡ some (g p)
unfolding find update
find-update name g [] p h e = cc
find-update name g (q ∷ ps) p h e = ground (arith, h q, find-update name g ps p h)
