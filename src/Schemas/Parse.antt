-- ===== src/Schemas/Parse.antt =====
-- How the body of a request becomes the request of app/models/schemas.py. What pydantic makes of a value
-- for `int`, `float` and `bool`, and how it compares floats, are parameters; `none` is its refusal.
use noxis_api_provider.Prelude.{
  ℕ, String, Bool, true, false, ◌&&◌, Option, none, some, List, [], ◌∷◌, ◌>>=◌, ℤ, pos, negsuc, leb,
  str_eq, if◌then◌else◌,
}
use noxis_api_provider.Json
use noxis_api_provider.Json.{Json, Items, Fields, as_dict}
use noxis_api_provider.Schemas.{
  FunctionDef, ToolDef, ChatMessage, FormatType, text, json_object, json_schema, ResponseFormat,
  Stop, one, many, ToolChoice, mode, named, ChatCompletionRequest,
}
use noxis_api_provider.Chat.Normalize.{as_str, as_role, as_content, dicts, as_tool_calls}

-- `as_float` gives the number that is kept, and `in_range lo hi` whether it lies between two integers.
pub record Pydantic : Type 0 where
  pub as_int : Json → Option ℤ
  pub as_bool : Json → Option Bool
  pub as_float : Json → Option Json
  pub in_range : ℤ → ℤ → Json → Bool

-- The value under a name, if there is one.
abbrev pub Lookup : Type 0
Lookup = String → Option Json

unfoldable pub required {ℓ} : {A : Type ℓ} → (Json → Option A) → Option Json → Option A
required read none = none
required read (some v) = read v

-- A field that may be left out or be null.
unfoldable pub optional {ℓ} : {A : Type ℓ} → (Json → Option A) → Option Json → Option (Option A)
optional read none = some none
optional read (some Json.null) = some none
optional read (some v) = do a ← read v; some (some a)

-- Field(default=..., ge=lo, le=hi); `max_tokens` has no upper bound.
unfoldable pub natural : ℕ → Option ℕ → ℤ → Option ℕ
natural lo hi (negsuc k) = none
natural lo none (pos k) = if leb lo k then some k else none
natural lo (some hi) (pos k) = if leb lo k && leb k hi then some k else none

unfoldable pub strings : Items → Option (List String)
unfolding as_str
strings Items.nil = some []
strings (Items.cons j js) = do s ← as_str j; ss ← strings js; some (s ∷ ss)

unfoldable pub as_stop : Json → Option Stop
unfolding strings
as_stop (Json.str s) = some (one s)
as_stop (Json.arr js) = do ss ← strings js; some (many ss)
as_stop _ = none

unfoldable pub as_tool_choice : Json → Option ToolChoice
as_tool_choice (Json.str s) = some (mode s)
as_tool_choice (Json.obj fs) = some (named fs)
as_tool_choice _ = none

unfoldable pub function_of : Lookup → Option FunctionDef
unfolding required optional as_str as_dict
function_of at = do
  name ← required as_str (at "name")
  description ← optional as_str (at "description")
  parameters ← optional as_dict (at "parameters")
  some (record { name = name; description = description; parameters = parameters })

-- Literal["function"], which is also the default.
unfoldable pub is_function : Option Json → Bool
is_function none = true
is_function (some (Json.str s)) = str_eq s "function"
is_function (some v) = false

unfoldable pub tool_of : Lookup → Option ToolDef
unfolding required function_of as_dict is_function
tool_of at = do
  fs ← required as_dict (at "function")
  f ← function_of (λ k. Json.get k fs)
  if is_function (at "type") then some (record { function = f }) else none

unfoldable pub tools_of : List Fields → Option (List ToolDef)
unfolding tool_of
tools_of [] = some []
tools_of (fs ∷ rest) = do t ← tool_of (λ k. Json.get k fs); ts ← tools_of rest; some (t ∷ ts)

unfoldable pub as_tools : Json → Option (List ToolDef)
unfolding dicts tools_of
as_tools (Json.arr js) = do ds ← dicts js; tools_of ds
as_tools _ = none

unfoldable pub format_type : Option Json → Option FormatType
format_type none = some text
format_type (some (Json.str s)) =
    if str_eq s "text"
    then some text
    else if str_eq s "json_object"
    then some json_object
    else if str_eq s "json_schema"
    then some json_schema
    else none
format_type (some v) = none

unfoldable pub format_of : Lookup → Option ResponseFormat
unfolding format_type optional as_dict
format_of at = do
  kind ← format_type (at "type")
  schema ← optional as_dict (at "json_schema")
  some (record { type_ = kind; json_schema = schema })

unfoldable pub as_format : Json → Option ResponseFormat
unfolding format_of
as_format (Json.obj fs) = format_of (λ k. Json.get k fs)
as_format _ = none

-- `none` where the field is left out.
unfoldable pub given {ℓ} :
    {A : Type ℓ} → (Json → Option (Option A)) → Option Json → Option (Option A)
given read none = some none
given read (some v) = read v

unfoldable pub message_of : Lookup → Option ChatMessage
unfolding required given optional as_str as_role as_content as_tool_calls
message_of at = do
  role ← required as_role (at "role")
  content ← given as_content (at "content")
  name ← optional as_str (at "name")
  calls ← given as_tool_calls (at "tool_calls")
  call_id ← optional as_str (at "tool_call_id")
  some (record {
    role = role;
    content = content;
    name = name;
    tool_calls = calls;
    tool_call_id = call_id;
  })

unfoldable pub messages_of : List Fields → Option (List ChatMessage)
unfolding message_of
messages_of [] = some []
messages_of (fs ∷ rest) = do
  m ← message_of (λ k. Json.get k fs)
  ms ← messages_of rest
  some (m ∷ ms)

-- `non_empty_messages`
unfoldable pub non_empty_messages : List ChatMessage → Option (List ChatMessage)
non_empty_messages [] = none
non_empty_messages (m ∷ ms) = some (m ∷ ms)

unfoldable pub as_messages : Json → Option (List ChatMessage)
unfolding dicts messages_of non_empty_messages
as_messages (Json.arr js) = do ds ← dicts js; ms ← messages_of ds; non_empty_messages ms
as_messages _ = none

module _ (py : Pydantic) where
  -- An integer that has to lie in a range, and a float.
  unfoldable pub as_natural : ℕ → Option ℕ → Json → Option ℕ
  unfolding natural
  as_natural lo hi v = do k ← py.as_int v; natural lo hi k

  unfoldable pub as_number : ℤ → ℤ → Json → Option Json
  as_number lo hi v = do x ← py.as_float v; if py.in_range lo hi x then some x else none

  -- dict[str, float]
  unfoldable pub floats : Fields → Option Fields
  floats Fields.end = some Fields.end
  floats (Fields.field k v fs) = do
    x ← py.as_float v
    rest ← floats fs
    some (Fields.field k x rest)

  unfoldable pub as_bias : Json → Option Fields
  unfolding floats
  as_bias (Json.obj fs) = floats fs
  as_bias _ = none

  -- A field with a default that is not None.
  unfoldable pub with_default {ℓ} : {A : Type ℓ} → A → (Json → Option A) → Option Json → Option A
  with_default a read none = some a
  with_default a read (some v) = read v

  unfoldable pub choices_of : Option Json → Option (Option ℕ)
  unfolding optional as_natural
  choices_of none = some (some 1)
  choices_of (some v) = optional (as_natural 1 (some 8)) (some v)

  unfoldable pub request_of : Lookup → Option ChatCompletionRequest
  unfolding required optional with_default choices_of as_natural as_number as_bias as_str
      as_messages as_stop as_tools as_tool_choice as_format
  request_of at = do
    model ← required as_str (at "model")
    messages ← required as_messages (at "messages")
    temperature ← optional (as_number (pos 0) (pos 2)) (at "temperature")
    top_p ← optional (as_number (pos 0) (pos 1)) (at "top_p")
    n ← choices_of (at "n")
    stream ← with_default false py.as_bool (at "stream")
    stop ← optional as_stop (at "stop")
    max_tokens ← optional (as_natural 1 none) (at "max_tokens")
    presence ← optional (as_number (negsuc 1) (pos 2)) (at "presence_penalty")
    frequency ← optional (as_number (negsuc 1) (pos 2)) (at "frequency_penalty")
    bias ← optional as_bias (at "logit_bias")
    user ← optional as_str (at "user")
    tools ← optional as_tools (at "tools")
    tool_choice ← optional as_tool_choice (at "tool_choice")
    format ← optional as_format (at "response_format")
    seed ← optional py.as_int (at "seed")
    some (record {
      model = model;
      messages = messages;
      temperature = temperature;
      top_p = top_p;
      n = n;
      stream = stream;
      stop = stop;
      max_tokens = max_tokens;
      presence_penalty = presence;
      frequency_penalty = frequency;
      logit_bias = bias;
      user = user;
      tools = tools;
      tool_choice = tool_choice;
      response_format = format;
      seed = seed;
    })

  -- ChatCompletionRequest, as the endpoint is given it: none is an answer with status 422.
  unfoldable pub parse_request : Json → Option ChatCompletionRequest
  unfolding as_dict request_of
  parse_request body = do fs ← as_dict body; request_of (λ k. Json.get k fs)
