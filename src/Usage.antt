-- ===== src/Usage.antt =====
-- app/core/usage.py, on the rows of app/database/models.py: the summary of the usage records. The database is left out: the rows that the
-- query gives are an argument.
pub mod Counts
pub mod Newest
pub mod Recorded
pub mod Sample
pub mod Tests
use noxis_api_provider.Prelude.{
  ℕ, zero, suc, ◌+◌, ◌-◌, String, Bool, ℤ, pos, add_ℤ, Option, none, some, List, [], ◌∷◌, map, keep,
  count, length, ◌==◌, str_eq, if◌then◌else◌,
}
use noxis_api_provider.Float.{Float, nought}
use noxis_api_provider.Dict
use noxis_api_provider.Dict.{Dict}

-- The columns; the id and retry_count, which no code gives or reads, are left out.
pub record UsageRecord {ℓ} (F : Type ℓ) : Type ℓ where
  pub request_id : String
  pub timestamp : ℕ
  pub gateway_key_id : String
  pub provider : String
  pub model : String
  pub requested_model : String
  pub latency_ms : F
  pub status : String
  pub error_code : Option String
  pub prompt_tokens : ℤ
  pub completion_tokens : ℤ
  pub total_tokens : ℤ
  pub streamed : Bool

pub record RecentError : Type 0 where
  pub request_id : String
  pub provider : String
  pub error_code : Option String
  pub timestamp : ℕ

pub record Summary {ℓ} (F : Type ℓ) : Type ℓ where
  pub sample_size : ℕ
  pub success : ℕ
  pub errors : ℕ
  pub success_rate : Option F
  pub by_provider : Dict ℕ
  pub by_model : Dict ℕ
  pub total_tokens : ℤ
  pub avg_latency_ms : F
  pub recent_errors : List RecentError

-- xs[:n]
unfoldable pub first_of {ℓ} : {A : Type ℓ} → ℕ → List A → List A
first_of zero xs = []
first_of (suc n) [] = []
first_of (suc n) (x ∷ xs) = x ∷ first_of n xs

-- d[k] = d.get(k, 0) + 1, for the key of each row in turn
unfoldable pub tally : List String → Dict ℕ → Dict ℕ
tally [] d = d
tally (k ∷ ks) d = tally ks (Dict.set k (Dict.get_or k 0 d + 1) d)

module _ {ℓ} {F : Type ℓ} ⦃f : Float F⦄ where
  unfoldable pub sum_tokens : ℤ → List (UsageRecord F) → ℤ
  sum_tokens acc [] = acc
  sum_tokens acc (r ∷ rs) = sum_tokens (add_ℤ acc r.total_tokens) rs

  unfoldable pub sum_latency : F → List (UsageRecord F) → F
  sum_latency acc [] = acc
  sum_latency acc (r ∷ rs) = sum_latency (f.add acc r.latency_ms) rs

  unfoldable pub recent_error : UsageRecord F → RecentError
  recent_error r = record {
    request_id = r.request_id;
    provider = r.provider;
    error_code = r.error_code;
    timestamp = r.timestamp;
  }

  unfoldable pub summary : List (UsageRecord F) → Summary F
  unfolding sum_tokens sum_latency recent_error
  summary rows =
      let total = length rows in
      let success = count (λ (r : UsageRecord F). str_eq r.status "success") rows in
      record {
        sample_size = total;
        success = success;
        errors = total - success;
        success_rate = if total == 0 then none else some (f.ratio success total);
        by_provider = tally (map (λ (r : UsageRecord F). r.provider) rows) [];
        by_model = tally (map (λ (r : UsageRecord F). r.model) rows) [];
        total_tokens = sum_tokens (pos 0) rows;
        avg_latency_ms =
            if total == 0 then nought else f.div (sum_latency nought rows) (f.ratio total 1);
        recent_errors =
            first_of 20
              (map recent_error (keep (λ (r : UsageRecord F). str_eq r.status "error") rows));
      }
