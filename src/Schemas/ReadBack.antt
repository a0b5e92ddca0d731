-- ===== src/Schemas/ReadBack.antt =====
-- The request that app/providers/openai_compatible.py sends, read by app/models/schemas.py.
use noxis_api_provider.Prelude.{
  ℕ, ◌≡◌, ◌≢◌, refl, ap, sym, ◌∙◌, Bool, Option, none, some, ℤ, pos, negsuc, arith,
}
use noxis_api_provider.Json.{Json, Fields}
use noxis_api_provider.Schemas.{
  ChatCompletionRequest, Stop, one, many, ToolChoice, mode, named, ResponseFormat,
}
use noxis_api_provider.Schemas.Dump.{
  maybe, natural_value, payload_entries, dump_payload, dump_stop, dump_tool_choice, dump_format,
  dump_tool, array,
}
use noxis_api_provider.Schemas.Parse.{
  Pydantic, optional, natural, as_stop, as_tools, as_tool_choice, as_format, as_natural, as_number,
  floats, as_bias, choices_of, request_of, parse_request,
}
use noxis_api_provider.Chat.Normalize.{as_str}
use noxis_api_provider.Schemas.Valid.{IsPydantic, Maybe, IsNumber, IsNatural, IsValid}
use noxis_api_provider.Schemas.RoundTrip.{
  pick, step, through, optional-some, optional-maybe, text_back, as_messages-dump, as_stop-dump,
  as_tools-dump, as_tool_choice-dump, as_format-dump,
}

-- What a reader takes for `n` where it is left out.
abbrev pub or_one : Option ℕ → ℕ
or_one none = 1
or_one (some k) = k

natural-back : (lo k : ℕ) (hi : Option ℕ) → IsNatural lo hi k → natural lo hi (pos k) ≡ some k
unfolding natural
natural-back lo k none h = ground arith
natural-back lo k (some hi) h = ground arith

stop_given : (s : Stop) → dump_stop s ≢ Json.null
unfolding dump_stop
stop_given (one s) = λ q. cc
stop_given (many ss) = λ q. cc

choice_given : (c : ToolChoice) → dump_tool_choice c ≢ Json.null
unfolding dump_tool_choice
choice_given (mode s) = λ q. cc
choice_given (named fs) = λ q. cc

format_given : (f : ResponseFormat) → dump_format f ≢ Json.null
unfolding dump_format
format_given f = λ q. cc

module _ (py : Pydantic) (laws : IsPydantic py) where
  as_natural-back :
      (lo k : ℕ) (hi : Option ℕ)
      → IsNatural lo hi k
      → as_natural py lo hi (natural_value k) ≡ some k
  unfolding as_natural
  as_natural-back lo k hi h = step _ _ (laws.int_back (pos k)) (natural-back lo k hi h)

  max_tokens-back :
      (o : Option ℕ)
      → Maybe (IsNatural 1 none) o
      → optional (as_natural py 1 none) (maybe natural_value o) ≡ some o
  unfolding optional
  max_tokens-back none h = refl
  max_tokens-back (some k) h =
      optional-some (as_natural py 1 none) (natural_value k) k (λ q. cc)
        (as_natural-back 1 k none h)

  choices_of-back :
      (o : Option ℕ)
      → Maybe (IsNatural 1 (some 8)) o
      → choices_of py (maybe natural_value o) ≡ some (some (or_one o))
  unfolding choices_of
  choices_of-back none h = refl
  choices_of-back (some k) h =
      optional-some (as_natural py 1 (some 8)) (natural_value k) k (λ q. cc)
        (as_natural-back 1 k (some 8) h)

  number-back :
      (lo hi : ℤ) (o : Option Json)
      → Maybe (IsNumber py lo hi) o
      → optional (as_number py lo hi) o ≡ some o
  unfolding optional as_number
  number-back lo hi none h = refl
  number-back lo hi (some v) (reads, within) =
      let not_null : v ≢ Json.null =
        λ q. let e : py.as_float Json.null ≡ some v = ap py.as_float (sym q) ∙ reads in absurd cc in
      optional-some (as_number py lo hi) v v not_null (step _ _ reads (rw within refl))

  bias-back :
      (o : Option Fields)
      → Maybe (λ fs. floats py fs ≡ some fs) o
      → optional (as_bias py) (maybe Json.obj o) ≡ some o
  unfolding optional as_bias
  bias-back none h = refl
  bias-back (some fs) h = optional-some (as_bias py) (Json.obj fs) fs (λ q. cc) h

  -- Each field of the entries is read back.
  entries-back :
      (r : ChatCompletionRequest) (stream : Bool)
      → IsValid py r
      → request_of py (λ k. pick k (payload_entries r stream))
        ≡ some (record r { stream = stream; n = some (or_one r.n) })
  unfolding request_of
  entries-back r stream h = step _ _ (as_messages-dump r.messages h.messages) (
      step _ _ (number-back (pos 0) (pos 2) r.temperature h.temperature) (
        step _ _ (number-back (pos 0) (pos 1) r.top_p h.top_p) (
          step _ _ (choices_of-back r.n h.n) (
            step _ _ (laws.bool_back stream) (
              step _ _ (optional-maybe as_stop dump_stop r.stop stop_given as_stop-dump) (
                step _ _ (max_tokens-back r.max_tokens h.max_tokens) (
                  step _ _ (number-back (negsuc 1) (pos 2) r.presence_penalty h.presence_penalty) (
                    step _ _
                      (number-back (negsuc 1) (pos 2) r.frequency_penalty h.frequency_penalty)
                      (step _ _ (bias-back r.logit_bias h.logit_bias) (
                        step _ _ (optional-maybe as_str Json.str r.user (λ s q. cc) text_back) (
                          step _ _
                            (optional-maybe as_tools (array dump_tool) r.tools (λ s q. cc)
                              as_tools-dump)
                            (step _ _
                              (optional-maybe as_tool_choice dump_tool_choice r.tool_choice
                                choice_given as_tool_choice-dump)
                              (step _ _
                                (optional-maybe as_format dump_format r.response_format format_given
                                  as_format-dump)
                                (step _ _
                                  (optional-maybe py.as_int Json.int r.seed (λ s q. cc)
                                    laws.int_back)
                                  refl))))))))))))))

  -- What is sent upstream is read back: for a request that keeps the schema, the JSON that is sent for it is
  -- accepted, and read as that request, with `stream` as the call wants it, and with `n` as 1 where the
  -- client has given null for it.
  pub parse-dump_payload :
      (r : ChatCompletionRequest) (stream : Bool)
      → IsValid py r
      → parse_request py (dump_payload r stream)
        ≡ some (record r { stream = stream; n = some (or_one r.n) })
  unfolding parse_request dump_payload
  parse-dump_payload r stream h =
      through (request_of py) (payload_entries r stream) refl (entries-back r stream h)
