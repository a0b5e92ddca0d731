-- ===== src/Config/Keys.antt =====
-- The lists that app/config.py makes of texts with commas.
use Prim.Native.String.{◌∷◌ as cons, ◌++◌ as concat}
use Prim.Native.String.append
use noxis_api_provider.Prelude.{
  String, ◌≡◌, refl, ap, ap₂, ◌∙◌, Bool, true, false, not, List, [], ◌∷◌, ◌++◌, map, keep, All,
  str_eq, if◌then◌else◌, arith, Bool-cases, inl, inr,
}
use noxis_api_provider.Config.{Settings, push, split_commas, pieces, key_if_set, gateway_keys}

-- ",".join(keys)
unfoldable pub join_commas : List String → String
join_commas [] = ""
join_commas (k ∷ []) = k
join_commas (k ∷ l ∷ ks) = concat k (concat "," (join_commas (l ∷ ks)))

abbrev pub has_comma : String → Bool
has_comma String.[] = false
has_comma (String.◌∷◌ c s) = if str_eq (String.◌∷◌ c "") "," then true else has_comma s

split_one : (k : String) → has_comma k ≡ false → split_commas k ≡ k ∷ []
unfolding split_commas push
split_one String.[] h = refl
split_one (String.◌∷◌ c s) h = elim (Bool-cases (str_eq (String.◌∷◌ c "") ",")) [
  | inl e ↦ absurd (ground arith)
  | inr e ↦ rw (split_one s (ground arith), e, split_commas, push) refl
]

comma_first : (rest : String) → concat "" (concat "," rest) ≡ cons "," rest
comma_first rest =
    append.nil (concat "," rest)
    ∙ (append.cons "," "" rest ∙ ap (λ s. cons "," s) (append.nil rest))

split_next :
    (k rest : String)
    → has_comma k ≡ false
    → split_commas (concat k (concat "," rest)) ≡ k ∷ split_commas rest
unfolding split_commas push
split_next String.[] rest h = rw (comma_first rest, split_commas) refl
split_next (String.◌∷◌ c s) rest h = elim (Bool-cases (str_eq (String.◌∷◌ c "") ",")) [
  | inl e ↦ absurd (ground arith)
  | inr e ↦
      rw
        (append.cons c s (concat "," rest), split_next s rest (ground arith), e, split_commas, push)
        refl
]

-- A key that stripping leaves alone, with a character and without a comma.
pub record IsKey (strip : String → String) (k : String) : Type 0 where
  pub plain : has_comma k ≡ false
  pub stripped : strip k ≡ k
  pub nonempty : str_eq k "" ≡ false

split_commas-join_commas :
    (strip : String → String) (k : String) (ks : List String)
    → All (IsKey strip) (k ∷ ks)
    → split_commas (join_commas (k ∷ ks)) ≡ k ∷ ks
unfolding join_commas
split_commas-join_commas strip k [] h = split_one k h.0.plain
split_commas-join_commas strip k (l ∷ ks) h =
    split_next k (join_commas (l ∷ ks)) h.0.plain
    ∙ ap (λ x. k ∷ x) (split_commas-join_commas strip l ks h.1)

map-strip : (strip : String → String) (ks : List String) → All (IsKey strip) ks → map strip ks ≡ ks
map-strip strip [] h = refl
map-strip strip (k ∷ ks) h = ap₂ (λ x xs. x ∷ xs) h.0.stripped (map-strip strip ks h.1)

keep-keys :
    (strip : String → String) (ks : List String)
    → All (IsKey strip) ks
    → keep (λ k. not (str_eq k "")) ks ≡ ks
keep-keys strip [] h = refl
keep-keys strip (k ∷ ks) h = rw (h.0.nonempty) (ap (λ xs. k ∷ xs) (keep-keys strip ks h.1))

-- Keys that are joined by commas are read back, in their order, and the master key follows where it is
-- set: for any list of keys, also the empty one, whose keys are not empty and have no comma and no space at
-- either end, where str.strip leaves the empty text as it is.
pub gateway_keys-join_commas :
    (strip : String → String) (ks : List String) (s : Settings)
    → strip "" ≡ ""
    → All (IsKey strip) ks
    → s.noxis_gateway_keys ≡ join_commas ks
    → gateway_keys strip s ≡ ks ++ key_if_set s.noxis_master_key
unfolding gateway_keys pieces split_commas join_commas
gateway_keys-join_commas strip [] s empty h e = rw (e, empty, gateway_keys, pieces) refl
gateway_keys-join_commas strip (k ∷ ks) s empty h e =
    ap (λ x. x ++ key_if_set s.noxis_master_key)
      (ap (pieces strip) e
        ∙ (ap (λ x. keep (λ j. not (str_eq j "")) (map strip x))
              (split_commas-join_commas strip k ks h)
            ∙ (ap (λ x. keep (λ j. not (str_eq j "")) x) (map-strip strip (k ∷ ks) h)
                ∙ keep-keys strip (k ∷ ks) h)))
