-- ===== src/Logging.antt =====
-- app/utils/logging.py: `redact` and what JsonFormatter makes of a record. str.lower is an argument.
pub mod Clean
pub mod Hidden
pub mod Patterns
pub mod Tests
pub mod Objects
use noxis_api_provider.Prelude.{
  String, Bool, Option, none, some, List, [], ◌∷◌, any, str_eq, if◌then◌else◌,
}
use noxis_api_provider.Logging.Patterns.{mask, sub, match_bearer, match_sk, match_api_key}
use noxis_api_provider.Logging.Objects.{
  Value, null, bool, int, float, str, list, dict, Values, nil, cons, Entries, end, entry, put,
  tuple, object,
}

abbrev pub sensitive_keys : List String
sensitive_keys =
    "authorization" ∷ "api_key" ∷ "apikey" ∷ "x-api-key" ∷ "noxis_master_key" ∷ "password"
    ∷ "secret" ∷ "token" ∷ "key" ∷ []

-- A record of the logging library; `extra` is the attribute extra_fields, `error` the text of exc_info.
pub record LogRecord : Type 0 where
  pub level : String
  pub logger : String
  pub message : String
  pub extra : Option Entries
  pub error : Option String

-- `sub` of each of _REDACT_PATTERNS in turn
unfoldable pub scrub : String → String
scrub s = sub match_api_key (sub match_sk (sub match_bearer s))

module _ (lower : String → String) where
  unfoldable pub is_sensitive : String → Bool
  is_sensitive k = any (str_eq (lower k)) sensitive_keys

  -- A tuple and any other object is returned as it is.
  unfoldable mutual
    unfolding scrub is_sensitive

    pub redact : Value → Value
    redact null = null
    redact (bool b) = bool b
    redact (int n) = int n
    redact (float s) = float s
    redact (str s) = str (scrub s)
    redact (list js) = list (redact_items js)
    redact (dict fs) = dict (redact_fields fs)
    redact (tuple vs) = tuple vs
    redact (object text) = object text

    pub redact_items : Values → Values
    redact_items nil = nil
    redact_items (cons j js) = cons (redact j) (redact_items js)

    pub redact_fields : Entries → Entries
    redact_fields end = end
    redact_fields (entry k v fs) =
        let rest = redact_fields fs in
        let clean = redact v in
        if is_sensitive k then entry k (str mask) rest else entry k clean rest

-- d.update(other)
unfoldable pub update : Entries → Entries → Entries
update d end = d
update d (entry k v fs) = update (put k v d) fs

module _ (lower : String → String) where
  unfoldable pub with_extra : Option Entries → Entries → Entries
  with_extra none d = d
  with_extra (some fs) d = update d (redact_fields lower fs)

  unfoldable pub with_error : Option String → Entries → Entries
  with_error none d = d
  with_error (some text) d = put "error" (str (scrub text)) d

  -- The dict that JsonFormatter prints.
  unfoldable pub format : LogRecord → Entries
  unfolding with_extra with_error scrub
  format r = with_error r.error (
      with_extra r.extra (
        entry "level" (str r.level)
          (entry "logger" (str r.logger) (entry "message" (str (scrub r.message)) end))))
