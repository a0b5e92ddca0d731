-- ===== src/Logging/Tests.antt =====
-- The theorems on app/utils/logging.py at concrete inputs.
use noxis_api_provider.Prelude.{◌≡◌, refl, ◌⊎◌, inl, inr, String, some, none, arith}
use noxis_api_provider.Logging.Objects.{Value, Values, Entries}
use noxis_api_provider.Logging.{LogRecord, scrub, is_sensitive, redact, redact_fields, format}
use noxis_api_provider.Logging.Patterns.{
  mask, size, first, after, run, optional, starts, match_bearer, match_sk, match_api_key, sub_from,
  sub,
}
use noxis_api_provider.Logging.Clean.{FieldsClean, format-FieldsClean, replace, redact-unseen}
use noxis_api_provider.Logging.Hidden.{scrub-bearer_unseen}

abbrev lower : String → String
lower s = s

abbrev line : LogRecord
line = record {
  level = "INFO";
  logger = "noxis.main";
  message = "Bearer k";
  extra = some (Entries.entry "token" (Value.str "k") Entries.end);
  error = none;
}

-- The mask, or a text that the patterns have gone over.
abbrev Written : String → Type 0
Written s = (s ≡ mask) ⊎ ((t : String) × (s ≡ scrub t))

format-FieldsClean_example : FieldsClean lower Written (format lower line)
unfolding is_sensitive scrub sub sub_from match_bearer match_sk match_api_key first after run
    optional starts
format-FieldsClean_example =
    format-FieldsClean lower Written (λ s. inr (s, refl)) (inl refl) line refl refl refl refl
      (inr ("INFO", refl)) (inr ("noxis.main", refl))

abbrev body : Value
body = Value.dict (Entries.entry "password" (Value.str "p") Entries.end)

redact-unseen_example : redact lower (replace lower (λ j. Value.null) body) ≡ redact lower body
redact-unseen_example = redact-unseen lower (λ j. Value.null) body

redact-password :
    redact lower body ≡ Value.dict (Entries.entry "password" (Value.str mask) Entries.end)
unfolding redact redact_fields is_sensitive
redact-password = refl

scrub-bearer_unseen_example : scrub "bearer  abc, sir" ≡ scrub "bearer  xyz, sir"
unfolding size run starts
scrub-bearer_unseen_example =
    scrub-bearer_unseen "bearer" "  " "abc" "xyz" ", sir"
      (record {
        word_is = refl;
        six = refl;
        blank = (refl, (refl, tt));
        space_some = omega arith;
        plain = (refl, (refl, (refl, tt)));
        token_some = omega arith;
        ends = refl;
      })
      (record {
        word_is = refl;
        six = refl;
        blank = (refl, (refl, tt));
        space_some = omega arith;
        plain = (refl, (refl, (refl, tt)));
        token_some = omega arith;
        ends = refl;
      })

abbrev written : String
written = "api_key: \"0123456789\", Bearer abc."

scrub-written : scrub written ≡ "api_key: \"***REDACTED***\", Bearer ***REDACTED***"
unfolding scrub sub sub_from match_bearer match_sk match_api_key first after run optional starts
scrub-written = refl

-- The key is still there.
scrub-sk : scrub "sk-0123456789" ≡ "sk-0123456789***REDACTED***"
unfolding scrub sub sub_from match_bearer match_sk match_api_key first after run optional starts
scrub-sk = refl

-- A token of a server that uses the whole alphabet of RFC 6750 is cut, and the rest of it is logged.
scrub-plus : scrub "Bearer abc+def" ≡ "Bearer ***REDACTED***+def"
unfolding scrub sub sub_from match_bearer match_sk match_api_key first after run optional starts
scrub-plus = refl

-- A secret in a tuple is logged.
redact-tuple :
    redact lower (Value.tuple (Values.cons (Value.str "Bearer k") Values.nil))
    ≡ Value.tuple (Values.cons (Value.str "Bearer k") Values.nil)
unfolding redact
redact-tuple = refl
