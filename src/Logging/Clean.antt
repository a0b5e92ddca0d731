-- ===== src/Logging/Clean.antt =====
-- What the redaction of app/utils/logging.py guarantees of a log line.
use noxis_api_provider.Prelude.{
  String, ◌≡◌, refl, sym, ap, ap₂, ◌∙◌, true, false, Option, none, some, str_eq, str_eq_iff,
  Bool-cases, inl, inr, if◌then◌else◌, arith,
}
use noxis_api_provider.Logging.Objects.{
  Value, null, bool, int, float, str, list, dict, Values, nil, cons, Entries, end, entry, put,
  tuple, object,
}
use noxis_api_provider.Logging.Patterns.{mask}
use noxis_api_provider.Logging.{
  LogRecord, scrub, is_sensitive, redact, redact_items, redact_fields, update, with_extra,
  with_error, format,
}

module _ (lower : String → String) (P : String → Type 0) where
  -- Each text in a value, at any depth of dicts and lists, has the property, and each value under a sensitive
  -- key is the mask. Nothing is said of keys, and of what stands in a tuple or another object.
  mutual
    pub IsClean : Value → Type 0
    IsClean null = Unit
    IsClean (bool b) = Unit
    IsClean (int n) = Unit
    IsClean (float s) = Unit
    IsClean (str s) = P s
    IsClean (list js) = AreClean js
    IsClean (dict fs) = FieldsClean fs
    IsClean (tuple vs) = Unit
    IsClean (object text) = Unit

    pub AreClean : Values → Type 0
    AreClean nil = Unit
    AreClean (cons j js) = IsClean j × AreClean js

    pub FieldsClean : Entries → Type 0
    FieldsClean end = Unit
    FieldsClean (entry k v fs) =
        (is_sensitive lower k ≡ true → v ≡ str mask) × IsClean v × FieldsClean fs

  module _ (scrubbed : (s : String) → P (scrub s)) (masked : P mask) where
    mutual
      unfolding redact redact_items redact_fields IsClean

      redact-IsClean : (j : Value) → IsClean (redact lower j)
      redact-IsClean null = tt
      redact-IsClean (bool b) = tt
      redact-IsClean (int n) = tt
      redact-IsClean (float s) = tt
      redact-IsClean (str s) = scrubbed s
      redact-IsClean (list js) = redact_items-AreClean js
      redact-IsClean (dict fs) = redact_fields-FieldsClean fs
      redact-IsClean (tuple vs) = tt
      redact-IsClean (object text) = tt

      redact_items-AreClean : (js : Values) → AreClean (redact_items lower js)
      redact_items-AreClean nil = tt
      redact_items-AreClean (cons j js) = (redact-IsClean j, redact_items-AreClean js)

      redact_fields-FieldsClean : (fs : Entries) → FieldsClean (redact_fields lower fs)
      redact_fields-FieldsClean end = tt
      redact_fields-FieldsClean (entry k v fs) = elim (Bool-cases (is_sensitive lower k)) [
        | inl e ↦ rw (e, redact_fields) (λ q. refl, masked, redact_fields-FieldsClean fs)
        | inr e ↦
            rw (e, redact_fields)
              (λ q. absurd (ground (arith, e, q)), redact-IsClean v, redact_fields-FieldsClean fs)
      ]

    put-FieldsClean :
        (k : String) (v : Value) (d : Entries)
        → (is_sensitive lower k ≡ true → v ≡ str mask)
        → IsClean v
        → FieldsClean d
        → FieldsClean (put k v d)
    unfolding put IsClean
    put-FieldsClean k v end s c h = (s, c, tt)
    put-FieldsClean k v (entry j w d) s c h = elim (Bool-cases (str_eq j k)) [
      | inl e ↦
          rw (e, put) (λ q. s (sym (ap (is_sensitive lower) ((str_eq_iff j k).0 e)) ∙ q), c, h.2)
      | inr e ↦ rw (e, put) (h.0, h.1, put-FieldsClean k v d s c h.2)
    ]

    update-FieldsClean :
        (d fs : Entries) → FieldsClean d → FieldsClean fs → FieldsClean (update d fs)
    unfolding update IsClean
    update-FieldsClean d end h g = h
    update-FieldsClean d (entry k v fs) h g =
        update-FieldsClean (put k v d) fs (put-FieldsClean k v d g.0 g.1 h) g.2

    with_error-FieldsClean :
        (error : Option String) (d : Entries)
        → is_sensitive lower "error" ≡ false
        → FieldsClean d
        → FieldsClean (with_error lower error d)
    unfolding with_error IsClean
    with_error-FieldsClean none d e h = h
    with_error-FieldsClean (some text) d e h =
        put-FieldsClean "error" (str (scrub text)) d (λ q. absurd (ground (arith, e, q)))
          (scrubbed text) h

    with_extra-FieldsClean :
        (extra : Option Entries) (d : Entries)
        → FieldsClean d
        → FieldsClean (with_extra lower extra d)
    unfolding with_extra
    with_extra-FieldsClean none d h = h
    with_extra-FieldsClean (some fs) d h =
        update-FieldsClean d (redact_fields lower fs) h (redact_fields-FieldsClean fs)

    -- Whatever holds of each text that the patterns have gone over, and of the mask, holds of every string
    -- that is a value of a log line's dict, or stands in dicts and lists under it at any depth, the names of
    -- its level and logger granted, where str.lower makes no sensitive key of the formatter's own four keys;
    -- and each value under a sensitive key is the mask. This says nothing of
    -- the keys, nor of what stands in a tuple or another object, which are logged as they are.
    pub format-FieldsClean :
        (r : LogRecord)
        → is_sensitive lower "level" ≡ false
        → is_sensitive lower "logger" ≡ false
        → is_sensitive lower "message" ≡ false
        → is_sensitive lower "error" ≡ false
        → P r.level
        → P r.logger
        → FieldsClean (format lower r)
    unfolding format IsClean
    format-FieldsClean r level logger message error p q =
        let plain : (k : String)
            → is_sensitive lower k ≡ false
            → (v : Value) → is_sensitive lower k ≡ true
            → v ≡ str mask =
          λ k e v h. absurd (ground (arith, e, h)) in
        with_error-FieldsClean r.error _ error (
          with_extra-FieldsClean r.extra _ (
            plain "level" level _,
            p,
            (plain "logger" logger _, q, (plain "message" message _, scrubbed r.message, tt)),
          ))

module _ (lower : String → String) (k : String) (v : Value) (fs : Entries) where
  redact_sensitive :
      is_sensitive lower k ≡ true
      → redact_fields lower (entry k v fs) ≡ entry k (str mask) (redact_fields lower fs)
  unfolding redact_fields
  redact_sensitive e = rw (e, redact_fields) refl

  redact_plain :
      is_sensitive lower k ≡ false
      → redact_fields lower (entry k v fs) ≡ entry k (redact lower v) (redact_fields lower fs)
  unfolding redact_fields redact
  redact_plain e = rw (e, redact_fields) refl

-- What stands under sensitive keys, replaced at every depth.
module _ (lower : String → String) (other : Value → Value) where
  mutual
    pub replace : Value → Value
    replace (list js) = list (replace_items js)
    replace (dict fs) = dict (replace_fields fs)
    replace j = j

    pub replace_items : Values → Values
    replace_items nil = nil
    replace_items (cons j js) = cons (replace j) (replace_items js)

    pub replace_fields : Entries → Entries
    replace_fields end = end
    replace_fields (entry k v fs) =
        let rest = replace_fields fs in
        let inner = replace v in
        if is_sensitive lower k then entry k (other v) rest else entry k inner rest

  replace_sensitive :
      (k : String) (v : Value) (fs : Entries)
      → is_sensitive lower k ≡ true
      → replace_fields (entry k v fs) ≡ entry k (other v) (replace_fields fs)
  unfolding replace_fields
  replace_sensitive k v fs e = rw (e, replace_fields) refl

  replace_plain :
      (k : String) (v : Value) (fs : Entries)
      → is_sensitive lower k ≡ false
      → replace_fields (entry k v fs) ≡ entry k (replace v) (replace_fields fs)
  unfolding replace_fields replace
  replace_plain k v fs e = rw (e, replace_fields) refl

  mutual
    unfolding redact redact_items redact_fields replace replace_items replace_fields

    redact-replace : (j : Value) → redact lower (replace j) ≡ redact lower j
    redact-replace null = refl
    redact-replace (bool b) = refl
    redact-replace (int n) = refl
    redact-replace (float s) = refl
    redact-replace (str s) = refl
    redact-replace (list js) = ap (λ x. list x) (redact_items-replace js)
    redact-replace (dict fs) = ap (λ x. dict x) (redact_fields-replace fs)
    redact-replace (tuple vs) = refl
    redact-replace (object text) = refl

    redact_items-replace :
        (js : Values) → redact_items lower (replace_items js) ≡ redact_items lower js
    redact_items-replace nil = refl
    redact_items-replace (cons j js) =
        ap₂ (λ x xs. cons x xs) (redact-replace j) (redact_items-replace js)

    redact_fields-replace :
        (fs : Entries) → redact_fields lower (replace_fields fs) ≡ redact_fields lower fs
    redact_fields-replace end = refl
    redact_fields-replace (entry k v fs) = elim (Bool-cases (is_sensitive lower k)) [
      | inl e ↦
          ap (λ x. redact_fields lower x) (replace_sensitive k v fs e)
          ∙ (redact_sensitive lower k (other v) (replace_fields fs) e
              ∙ (ap (λ x. entry k (str mask) x) (redact_fields-replace fs)
                  ∙ sym (redact_sensitive lower k v fs e)))
      | inr e ↦
          ap (λ x. redact_fields lower x) (replace_plain k v fs e)
          ∙ (redact_plain lower k (replace v) (replace_fields fs) e
              ∙ (ap₂ (λ x xs. entry k x xs) (redact-replace v) (redact_fields-replace fs)
                  ∙ sym (redact_plain lower k v fs e)))
    ]

  -- What is under a sensitive key, at any depth, has no influence on the log: with any other values there,
  -- the redacted value is the same.
  pub redact-unseen : (j : Value) → redact lower (replace j) ≡ redact lower j
  redact-unseen j = redact-replace j
