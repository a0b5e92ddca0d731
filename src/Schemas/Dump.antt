-- ===== src/Schemas/Dump.antt =====
-- The JSON of a request of app/models/schemas.py, as `model_dump` with exclude_none gives it, and as
-- app/providers/openai_compatible.py sends it.
use noxis_api_provider.Prelude.{ℕ, String, Bool, Option, none, some, List, [], ◌∷◌, map, pos}
use noxis_api_provider.Json.{Json, Items, Fields}
use noxis_api_provider.Schemas.{
  FunctionDef, ToolDef, ToolCall, Content, ChatMessage, FormatType, json_object, json_schema,
  ResponseFormat, Stop, one, many, ToolChoice, mode, named, ChatCompletionRequest, Role, system,
  user, assistant, tool, developer,
}

-- A field of a model with its value, where that is not None.
abbrev pub Entry : Type 0
Entry = String × Option Json

-- exclude_none
unfoldable pub compact : List Entry → Fields
compact [] = Fields.end
compact ((k, none) ∷ es) = compact es
compact ((k, some v) ∷ es) = Fields.field k v (compact es)

abbrev pub items : List Json → Items
items [] = Items.nil
items (j ∷ js) = Items.cons j (items js)

abbrev pub array {ℓ} : {A : Type ℓ} → (A → Json) → List A → Json
array dump xs = Json.arr (items (map dump xs))

abbrev pub maybe {ℓ} : {A : Type ℓ} → (A → Json) → Option A → Option Json
maybe dump none = none
maybe dump (some a) = some (dump a)

unfoldable pub role_value : Role → String
role_value system = "system"
role_value user = "user"
role_value assistant = "assistant"
role_value tool = "tool"
role_value developer = "developer"

-- The entries of each model, and its JSON.
abbrev pub function_entries : FunctionDef → List Entry
function_entries f =
    ("name", some (Json.str f.name))
    ∷ ("description", maybe Json.str f.description)
    ∷ ("parameters", maybe Json.obj f.parameters)
    ∷ []

unfoldable pub dump_function : FunctionDef → Json
unfolding compact
dump_function f = Json.obj (compact (function_entries f))

abbrev pub tool_entries : ToolDef → List Entry
tool_entries t =
    ("type", some (Json.str "function")) ∷ ("function", some (dump_function t.function)) ∷ []

unfoldable pub dump_tool : ToolDef → Json
unfolding compact dump_function
dump_tool t = Json.obj (compact (tool_entries t))

abbrev pub call_entries : ToolCall → List Entry
call_entries c =
    ("id", some (Json.str c.id))
    ∷ ("type", some (Json.str "function"))
    ∷ ("function", some (Json.obj c.function))
    ∷ []

unfoldable pub dump_call : ToolCall → Json
unfolding compact
dump_call c = Json.obj (compact (call_entries c))

unfoldable pub dump_content : Content → Json
dump_content (Content.text s) = Json.str s
dump_content (Content.parts ds) = array Json.obj ds

abbrev pub message_entries : ChatMessage → List Entry
message_entries m =
    ("role", some (Json.str (role_value m.role)))
    ∷ ("content", maybe dump_content m.content)
    ∷ ("name", maybe Json.str m.name)
    ∷ ("tool_calls", maybe (array dump_call) m.tool_calls)
    ∷ ("tool_call_id", maybe Json.str m.tool_call_id)
    ∷ []

unfoldable pub dump_message : ChatMessage → Json
unfolding compact
dump_message m = Json.obj (compact (message_entries m))

unfoldable pub format_value : FormatType → String
format_value FormatType.text = "text"
format_value json_object = "json_object"
format_value json_schema = "json_schema"

abbrev pub format_entries : ResponseFormat → List Entry
format_entries r =
    ("type", some (Json.str (format_value r.type_)))
    ∷ ("json_schema", maybe Json.obj r.json_schema)
    ∷ []

unfoldable pub dump_format : ResponseFormat → Json
unfolding compact format_value
dump_format r = Json.obj (compact (format_entries r))

unfoldable pub dump_stop : Stop → Json
dump_stop (one s) = Json.str s
dump_stop (many ss) = array Json.str ss

unfoldable pub dump_tool_choice : ToolChoice → Json
dump_tool_choice (mode s) = Json.str s
dump_tool_choice (named fs) = Json.obj fs

abbrev pub natural_value : ℕ → Json
natural_value k = Json.int (pos k)

-- payload.model_dump(exclude_none=True)
abbrev pub request_entries : ChatCompletionRequest → List Entry
request_entries r =
    ("model", some (Json.str r.model))
    ∷ ("messages", some (array dump_message r.messages))
    ∷ ("temperature", r.temperature)
    ∷ ("top_p", r.top_p)
    ∷ ("n", maybe natural_value r.n)
    ∷ ("stream", some (Json.bool r.stream))
    ∷ ("stop", maybe dump_stop r.stop)
    ∷ ("max_tokens", maybe natural_value r.max_tokens)
    ∷ ("presence_penalty", r.presence_penalty)
    ∷ ("frequency_penalty", r.frequency_penalty)
    ∷ ("logit_bias", maybe Json.obj r.logit_bias)
    ∷ ("user", maybe Json.str r.user)
    ∷ ("tools", maybe (array dump_tool) r.tools)
    ∷ ("tool_choice", maybe dump_tool_choice r.tool_choice)
    ∷ ("response_format", maybe dump_format r.response_format)
    ∷ ("seed", maybe Json.int r.seed)
    ∷ []

unfoldable pub dump_request : ChatCompletionRequest → Json
unfolding compact
dump_request r = Json.obj (compact (request_entries r))

-- The fields but `stream`, which `_request_payload` adds at the end.
abbrev pub payload_entries : ChatCompletionRequest → Bool → List Entry
payload_entries r stream =
    ("model", some (Json.str r.model))
    ∷ ("messages", some (array dump_message r.messages))
    ∷ ("temperature", r.temperature)
    ∷ ("top_p", r.top_p)
    ∷ ("n", maybe natural_value r.n)
    ∷ ("stop", maybe dump_stop r.stop)
    ∷ ("max_tokens", maybe natural_value r.max_tokens)
    ∷ ("presence_penalty", r.presence_penalty)
    ∷ ("frequency_penalty", r.frequency_penalty)
    ∷ ("logit_bias", maybe Json.obj r.logit_bias)
    ∷ ("user", maybe Json.str r.user)
    ∷ ("tools", maybe (array dump_tool) r.tools)
    ∷ ("tool_choice", maybe dump_tool_choice r.tool_choice)
    ∷ ("response_format", maybe dump_format r.response_format)
    ∷ ("seed", maybe Json.int r.seed)
    ∷ ("stream", some (Json.bool stream))
    ∷ []

-- `_request_payload` of app/providers/openai_compatible.py
unfoldable pub dump_payload : ChatCompletionRequest → Bool → Json
unfolding compact
dump_payload r stream = Json.obj (compact (payload_entries r stream))
