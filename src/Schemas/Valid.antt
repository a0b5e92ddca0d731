-- ===== src/Schemas/Valid.antt =====
-- What holds of every request that app/models/schemas.py accepts.
use noxis_api_provider.Prelude.{
  ℕ, ◌≤◌, ◌≡◌, ◌≢◌, refl, subst, Bool, true, false, Option, none, some, List, [], ◌∷◌, ◌>>=◌, ℤ,
  pos, negsuc, leb, ◌&&◌, if_intro, arith,
}
use noxis_api_provider.Json
use noxis_api_provider.Json.{Json, Fields, as_dict}
use noxis_api_provider.Schemas.{ChatMessage, ChatCompletionRequest}
use noxis_api_provider.Schemas.Parse.{
  Pydantic, Lookup, required, optional, natural, as_stop, as_tools, as_tool_choice, as_format,
  non_empty_messages, messages_of, as_messages, as_natural, as_number, floats, as_bias,
  with_default, choices_of, request_of, parse_request,
}
use noxis_api_provider.Chat.Normalize.{as_str, dicts}

-- What pydantic documents: an integer is an int, True and False are bools, null is no float, and the
-- number that a value is read as is read as itself.
pub record IsPydantic (py : Pydantic) : Type 0 where
  pub int_back : (k : ℤ) → py.as_int (Json.int k) ≡ some k
  pub bool_back : (b : Bool) → py.as_bool (Json.bool b) ≡ some b
  pub null_no_float : py.as_float Json.null ≡ none
  pub float_back : (v x : Json) → py.as_float v ≡ some x → py.as_float x ≡ some x

-- What is said of a field if it is given.
abbrev pub Maybe : {A : Type 0} → (A → Type 0) → Option A → Type 0
Maybe P none = Unit
Maybe P (some a) = P a

abbrev pub IsBelow : Option ℕ → ℕ → Type 0
IsBelow none k = Unit
IsBelow (some hi) k = k ≤ hi

-- The constraints of the schema: a number that can be sent, in its range; a count in its range.
abbrev pub IsNumber : Pydantic → ℤ → ℤ → Json → Type 0
IsNumber py lo hi x = (py.as_float x ≡ some x) × (py.in_range lo hi x ≡ true)

abbrev pub IsNatural : ℕ → Option ℕ → ℕ → Type 0
IsNatural lo hi k = (lo ≤ k) × IsBelow hi k

pub record IsValid (py : Pydantic) (r : ChatCompletionRequest) : Type 0 where
  pub messages : r.messages ≢ []
  pub temperature : Maybe (IsNumber py (pos 0) (pos 2)) r.temperature
  pub top_p : Maybe (IsNumber py (pos 0) (pos 1)) r.top_p
  pub n : Maybe (IsNatural 1 (some 8)) r.n
  pub max_tokens : Maybe (IsNatural 1 none) r.max_tokens
  pub presence_penalty : Maybe (IsNumber py (negsuc 1) (pos 2)) r.presence_penalty
  pub frequency_penalty : Maybe (IsNumber py (negsuc 1) (pos 2)) r.frequency_penalty
  pub logit_bias : Maybe (λ fs. floats py fs ≡ some fs) r.logit_bias

-- What is said of the value of a step that does not raise.
abbrev Ensures : {A : Type 0} → (A → Type 0) → Option A → Type 0
Ensures P none = Unit
Ensures P (some a) = P a

Ensures-bind :
    {A B : Type 0} (P : B → Type 0) (m : Option A) (f : A → Option B)
    → ((a : A) → m ≡ some a → Ensures P (f a))
    → Ensures P (m >>= f)
Ensures-bind P none f h = tt
Ensures-bind P (some a) f h = h a refl

Ensures-eq : {A : Type 0} (P : A → Type 0) (m : Option A) (a : A) → Ensures P m → m ≡ some a → P a
Ensures-eq P m a h e = subst (Ensures P) e h

Maybe-optional :
    {A : Type 0} (P : A → Type 0) (read : Json → Option A) (o : Option Json)
    → ((v : Json) → Ensures P (read v))
    → Ensures (Maybe P) (optional read o)
unfolding optional
Maybe-optional P read none h = tt
Maybe-optional P read (some Json.null) h = tt
Maybe-optional P read (some v) h =
    Ensures-bind (Maybe P) (read v) _ (λ a e. Ensures-eq P (read v) a (h v) e)

non_empty-Ensures : (ms : List ChatMessage) → Ensures (λ xs. xs ≢ []) (non_empty_messages ms)
unfolding non_empty_messages
non_empty-Ensures [] = tt
non_empty-Ensures (m ∷ ms) = λ q. cc

as_messages-Ensures : (v : Json) → Ensures (λ xs. xs ≢ []) (as_messages v)
unfolding as_messages
as_messages-Ensures (Json.arr js) =
    Ensures-bind _ (dicts js) _
      (λ ds e. Ensures-bind _ (messages_of ds) _ (λ ms q. non_empty-Ensures ms))
as_messages-Ensures v = tt

required-Ensures :
    {A : Type 0} (P : A → Type 0) (read : Json → Option A) (o : Option Json)
    → ((v : Json) → Ensures P (read v))
    → Ensures P (required read o)
unfolding required
required-Ensures P read none h = tt
required-Ensures P read (some v) h = h v

natural-Ensures : (lo : ℕ) (hi : Option ℕ) (k : ℤ) → Ensures (IsNatural lo hi) (natural lo hi k)
unfolding natural
natural-Ensures lo none (pos k) =
    if_intro (Ensures (IsNatural lo none)) (leb lo k) _ _ (λ e. (ground (arith, e), tt)) (λ _. tt)
natural-Ensures lo (some hi) (pos k) =
    if_intro (Ensures (IsNatural lo (some hi))) (leb lo k && leb k hi) _ _
      (λ e. (ground (arith, e), ground (arith, e))) (λ _. tt)
natural-Ensures lo hi (negsuc k) = tt

module _ (py : Pydantic) (laws : IsPydantic py) where
  as_number-Ensures : (lo hi : ℤ) (v : Json) → Ensures (IsNumber py lo hi) (as_number py lo hi v)
  unfolding as_number
  as_number-Ensures lo hi v = Ensures-bind _ (py.as_float v) _ (λ x e.
      if_intro (Ensures (IsNumber py lo hi)) (py.in_range lo hi x) _ _
        (λ q. (laws.float_back v x e, q)) (λ _. tt))

  floats-Ensures : (fs : Fields) → Ensures (λ gs. floats py gs ≡ some gs) (floats py fs)
  unfolding floats
  floats-Ensures Fields.end = refl
  floats-Ensures (Fields.field k v fs) = Ensures-bind _ (py.as_float v) _ (λ x e.
      Ensures-bind _ (floats py fs) _ (λ gs q.
        rw
          (
            laws.float_back v x e,
            Ensures-eq (λ hs. floats py hs ≡ some hs) (floats py fs) gs (floats-Ensures fs) q,
          )
          refl))

  as_bias-Ensures : (v : Json) → Ensures (λ gs. floats py gs ≡ some gs) (as_bias py v)
  unfolding as_bias
  as_bias-Ensures (Json.obj fs) = floats-Ensures fs
  as_bias-Ensures v = tt

  choices_of-Ensures : (o : Option Json) → Ensures (Maybe (IsNatural 1 (some 8))) (choices_of py o)
  unfolding choices_of as_natural
  choices_of-Ensures none = omega arith
  choices_of-Ensures (some v) =
      Maybe-optional (IsNatural 1 (some 8)) (as_natural py 1 (some 8)) (some v)
        (λ u. Ensures-bind _ (py.as_int u) _ (λ k e. natural-Ensures 1 (some 8) k))

  number :
      (lo hi : ℤ) (o r : Option Json)
      → optional (as_number py lo hi) o ≡ some r
      → Maybe (IsNumber py lo hi) r
  number lo hi o r e =
      Ensures-eq (Maybe (IsNumber py lo hi)) (optional (as_number py lo hi) o) r
        (Maybe-optional (IsNumber py lo hi) (as_number py lo hi) o (as_number-Ensures lo hi)) e

  request_of-Ensures : (at : Lookup) → Ensures (IsValid py) (request_of py at)
  unfolding request_of as_natural
  request_of-Ensures at = Ensures-bind _ (required as_str (at "model")) _ (λ model _.
      Ensures-bind _ (required as_messages (at "messages")) _ (λ messages e₁.
        Ensures-bind _ (optional (as_number py (pos 0) (pos 2)) (at "temperature")) _
          (λ temperature e₂.
            Ensures-bind _ (optional (as_number py (pos 0) (pos 1)) (at "top_p")) _ (λ top_p e₃.
              Ensures-bind _ (choices_of py (at "n")) _ (λ n e₄.
                Ensures-bind _ (with_default py false py.as_bool (at "stream")) _ (λ stream _.
                  Ensures-bind _ (optional as_stop (at "stop")) _ (λ stop _.
                    Ensures-bind _ (optional (as_natural py 1 none) (at "max_tokens")) _
                      (λ max_tokens e₅.
                        Ensures-bind _
                          (optional (as_number py (negsuc 1) (pos 2)) (at "presence_penalty")) _
                          (λ presence e₆.
                            Ensures-bind _
                              (optional (as_number py (negsuc 1) (pos 2)) (at "frequency_penalty"))
                              _
                              (λ frequency e₇.
                                Ensures-bind _ (optional (as_bias py) (at "logit_bias")) _
                                  (λ bias e₈.
                                    Ensures-bind _ (optional as_str (at "user")) _ (λ user _.
                                      Ensures-bind _ (optional as_tools (at "tools")) _ (λ tools _.
                                        Ensures-bind _ (optional as_tool_choice (at "tool_choice"))
                                          _
                                          (λ choice _.
                                            Ensures-bind _
                                              (optional as_format (at "response_format")) _
                                              (λ format _.
                                                Ensures-bind _ (optional py.as_int (at "seed")) _
                                                  (λ seed _. record {
                                                    messages =
                                                        Ensures-eq _ _ _
                                                          (required-Ensures (λ ms. ms ≢ [])
                                                            as_messages (at "messages")
                                                            as_messages-Ensures)
                                                          e₁;
                                                    temperature =
                                                        number (pos 0) (pos 2) (at "temperature")
                                                          temperature e₂;
                                                    top_p =
                                                        number (pos 0) (pos 1) (at "top_p") top_p
                                                          e₃;
                                                    n =
                                                        Ensures-eq _ _ _
                                                          (choices_of-Ensures (at "n")) e₄;
                                                    max_tokens =
                                                        Ensures-eq _ _ _
                                                          (Maybe-optional (IsNatural 1 none)
                                                            (as_natural py 1 none) (at "max_tokens")
                                                            (λ u.
                                                            Ensures-bind _ (py.as_int u) _
                                                            (λ k e. natural-Ensures 1 none k)))
                                                          e₅;
                                                    presence_penalty =
                                                        number (negsuc 1) (pos 2)
                                                          (at "presence_penalty") presence e₆;
                                                    frequency_penalty =
                                                        number (negsuc 1) (pos 2)
                                                          (at "frequency_penalty") frequency e₇;
                                                    logit_bias =
                                                        Ensures-eq _ _ _
                                                          (Maybe-optional
                                                            (λ fs. floats py fs ≡ some fs)
                                                            (as_bias py) (at "logit_bias")
                                                            as_bias-Ensures)
                                                          e₈;
                                                  }))))))))))))))))

  -- A body that is accepted gives a request that keeps the schema: it has a message, its numbers lie in
  -- their ranges and are the floats that pydantic reads, `n` is between 1 and 8, `max_tokens` positive.
  pub parse-IsValid :
      (body : Json) (r : ChatCompletionRequest) → parse_request py body ≡ some r → IsValid py r
  unfolding parse_request
  parse-IsValid body r e =
      Ensures-eq (IsValid py) (parse_request py body) r
        (Ensures-bind (IsValid py) (as_dict body) _
          (λ fs q. request_of-Ensures (λ k. Json.get k fs)))
        e
