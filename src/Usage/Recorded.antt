-- ===== src/Usage/Recorded.antt =====
-- What the summary of app/core/usage.py shows of the table after a row is added.
use noxis_api_provider.Prelude.{
  ℕ, ◌-◌, ◌<◌, min, String, ◌≡◌, List, [], ◌∷◌, ◌++◌, All, count, length, str_eq, arith,
}
use noxis_api_provider.Float.{Float}
use noxis_api_provider.Dict
use noxis_api_provider.Dict.{Dict}
use noxis_api_provider.Usage.{UsageRecord, summary}
use noxis_api_provider.Usage.Counts.{summary-counts}
use noxis_api_provider.Usage.Newest.{
  IsNewest, CountsBut, length-chosen, chosen-CountsBut, newest-chosen,
}

module _ {ℓ} {F : Type ℓ} ⦃f : Float F⦄ where
  -- Where the query selects the newest rows up to its limit, and a row is added to the table that is newer
  -- than all others: the summary is of as many rows as there are, up to the limit; the provider of that row
  -- is among the providers counted; and the counts of successes, of each provider and of each model are
  -- those of the whole table, but for at most as many as there are rows left out. With no row left out they
  -- are exact.
  pub summary-newest :
      (query : ℕ → List (UsageRecord F) → List (UsageRecord F))
      (newest : (limit : ℕ) (rows : List (UsageRecord F)) → IsNewest limit rows (query limit rows))
      (limit : ℕ) (old : List (UsageRecord F)) (r : UsageRecord F) (name : String)
      → 0 < limit
      → All (λ (o : UsageRecord F). o.timestamp < r.timestamp) old
      → let rows = old ++ r ∷ [] in
        let s = summary (query limit rows) in
        let left_out = length rows - s.sample_size in
        (s.sample_size ≡ min limit (length rows))
        × (0 < Dict.get_or r.provider 0 s.by_provider)
        × CountsBut left_out s.success
            (count (λ (x : UsageRecord F). str_eq x.status "success") rows)
        × CountsBut left_out
            (Dict.get_or name 0 s.by_provider)
            (count (λ (x : UsageRecord F). str_eq x.provider name) rows)
        × CountsBut left_out
            (Dict.get_or name 0 s.by_model)
            (count (λ (x : UsageRecord F). str_eq x.model name) rows)
  unfolding summary
  summary-newest query newest limit old r name positive older =
      let n = newest limit (old ++ r ∷ []) in
      let chosen = query limit (old ++ r ∷ []) in
      let (_, provider, _, _) = summary-counts chosen r.provider in
      let (_, by_provider, by_model, _) = summary-counts chosen name in
      (
        length-chosen n,
        omega (arith, provider, newest-chosen old r n positive older),
        chosen-CountsBut (λ (x : UsageRecord F). str_eq x.status "success") n,
        rw by_provider (chosen-CountsBut (λ (x : UsageRecord F). str_eq x.provider name) n),
        rw by_model (chosen-CountsBut (λ (x : UsageRecord F). str_eq x.model name) n),
      )
