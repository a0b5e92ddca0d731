-- ===== src/Chat/Normalize.antt =====
-- app/api/chat.py, `_normalize_chat_response` and `_normalize_chunk`, with the response schemas of
-- app/models/schemas.py that check what is built. `none` is an exception, of Python or of a schema.
use noxis_api_provider.Prelude.{
  ℕ, suc, String, Bool, Option, none, some, List, [], ◌∷◌, ◌>>=◌, ℤ, pos, str_eq, if◌then◌else◌,
}
use noxis_api_provider.Json
use noxis_api_provider.Json.{Json, Items, Fields, as_dict, iterate, is_truthy}
use noxis_api_provider.Schemas.{
  Role, system, user, assistant, tool, developer, Content, text, parts, ToolCall, ChatMessage,
}
use noxis_api_provider.Provider.{is_empty}

pub record Usage : Type 0 where
  pub prompt_tokens : ℤ
  pub completion_tokens : ℤ
  pub total_tokens : ℤ

pub record ChatCompletionChoice : Type 0 where
  pub index : ℤ
  pub message : ChatMessage
  pub finish_reason : Option String

pub record ChatCompletionResponse : Type 0 where
  pub id : String
  pub created : ℤ
  pub model : String
  pub choices : List ChatCompletionChoice
  pub usage : Usage
  pub noxis_provider : Option String

pub record DeltaMessage : Type 0 where
  pub role : Option String
  pub content : Option String
  pub tool_calls : Option (List Fields)

pub record ChatCompletionChunkChoice : Type 0 where
  pub index : ℤ
  pub delta : DeltaMessage
  pub finish_reason : Option String

pub record ChatCompletionChunk : Type 0 where
  pub id : String
  pub model : String
  pub choices : List ChatCompletionChunkChoice
  pub noxis_provider : Option String

-- What pydantic makes of a value for `int`, and whether Python reads a literal as zero.
pub record Values : Type 0 where
  pub as_int : Json → Option ℤ
  pub is_zero : String → Bool

-- The other types of the schemas: `str`, `str | None`, and so on.
unfoldable pub as_str : Json → Option String
as_str (Json.str s) = some s
as_str _ = none

unfoldable pub as_opt_str : Json → Option (Option String)
as_opt_str Json.null = some none
as_opt_str (Json.str s) = some (some s)
as_opt_str _ = none

unfoldable pub role_of : String → Option Role
role_of s =
    if str_eq s "system"
    then some system
    else if str_eq s "user"
    then some user
    else if str_eq s "assistant"
    then some assistant
    else if str_eq s "tool"
    then some tool
    else if str_eq s "developer"
    then some developer
    else none

unfoldable pub as_role : Json → Option Role
unfolding role_of
as_role (Json.str s) = role_of s
as_role _ = none

unfoldable pub dicts : Items → Option (List Fields)
dicts Items.nil = some []
dicts (Items.cons j js) = do d ← as_dict j; ds ← dicts js; some (d ∷ ds)

unfoldable pub as_content : Json → Option (Option Content)
unfolding dicts
as_content Json.null = some none
as_content (Json.str s) = some (some (text s))
as_content (Json.arr js) = do ds ← dicts js; some (some (parts ds))
as_content _ = none

unfoldable pub as_tool_call : Fields → Option ToolCall
as_tool_call fs = do
  id ← as_str (Json.get_or "id" Json.null fs)
  kind ← as_str (Json.get_or "type" (Json.str "function") fs)
  function ← as_dict (Json.get_or "function" Json.null fs)
  if str_eq kind "function" then some (record { id = id; function = function }) else none

unfoldable pub tool_calls : List Fields → Option (List ToolCall)
unfolding as_tool_call
tool_calls [] = some []
tool_calls (fs ∷ rest) = do t ← as_tool_call fs; ts ← tool_calls rest; some (t ∷ ts)

unfoldable pub as_tool_calls : Json → Option (Option (List ToolCall))
unfolding dicts tool_calls
as_tool_calls Json.null = some none
as_tool_calls (Json.arr js) = do ds ← dicts js; ts ← tool_calls ds; some (some ts)
as_tool_calls _ = none

unfoldable pub as_dicts : Json → Option (Option (List Fields))
unfolding dicts
as_dicts Json.null = some none
as_dicts (Json.arr js) = do ds ← dicts js; some (some ds)
as_dicts _ = none

abbrev pub said : Option Content → Option (List ToolCall) → Role → ChatMessage
said content calls role = record {
  role = role;
  content = content;
  name = none;
  tool_calls = calls;
  tool_call_id = none;
}

module _ (py : Values) where
  -- One round of the loop over the choices.
  unfoldable pub choice : ℕ → Json → Option ChatCompletionChoice
  unfolding as_dict as_opt_str as_role as_content as_tool_calls
  choice i c = do
    fs ← as_dict c
    msg ← as_dict (Json.get_or "message" (Json.obj Fields.end) fs)
    index ← py.as_int (Json.get_or "index" (Json.int (pos i)) fs)
    role ← as_role (Json.get_or "role" (Json.str "assistant") msg)
    content ← as_content (Json.get_or "content" Json.null msg)
    calls ← as_tool_calls (Json.get_or "tool_calls" Json.null msg)
    reason ← as_opt_str (Json.get_or "finish_reason" Json.null fs)
    some (record { index = index; message = said content calls role; finish_reason = reason })

  unfoldable pub choices_from : ℕ → List Json → Option (List ChatCompletionChoice)
  unfolding choice
  choices_from i [] = some []
  choices_from i (c ∷ cs) = do x ← choice i c; xs ← choices_from (suc i) cs; some (x ∷ xs)

  -- raw.get("usage") or {}
  unfoldable pub usage_of : Fields → Option Usage
  unfolding as_dict is_truthy
  usage_of raw = do
    let given = Json.get_or "usage" Json.null raw
    fs ← as_dict (if is_truthy py.is_zero given then given else Json.obj Fields.end)
    prompt ← py.as_int (Json.get_or "prompt_tokens" (Json.int (pos 0)) fs)
    completion ← py.as_int (Json.get_or "completion_tokens" (Json.int (pos 0)) fs)
    total ← py.as_int (Json.get_or "total_tokens" (Json.int (pos 0)) fs)
    some (record { prompt_tokens = prompt; completion_tokens = completion; total_tokens = total })

  -- choices or [the default]
  unfoldable pub or_default : List ChatCompletionChoice → List ChatCompletionChoice
  or_default cs =
      if is_empty cs
      then record {
        index = pos 0;
        message = said (some (text "")) none assistant;
        finish_reason = some "stop";
      }
        ∷ []
      else cs

  -- `new_id` and `now` are what gen_chat_id and the clock give.
  unfoldable pub normalize_chat_response :
      String → ℤ → Json → String → String → Option ChatCompletionResponse
  unfolding as_dict iterate choices_from usage_of or_default as_str is_truthy
  normalize_chat_response new_id now raw model provider_name = do
    fs ← as_dict raw
    cs ← iterate (Json.get_or "choices" (Json.arr Items.nil) fs)
    choices ← choices_from 0 cs
    usage ← usage_of fs
    let given = Json.get_or "id" Json.null fs
    id ← as_str (if is_truthy py.is_zero given then given else Json.str new_id)
    created ← py.as_int (Json.get_or "created" (Json.int now) fs)
    name ← as_str (Json.get_or "model" (Json.str model) fs)
    some (record {
      id = id;
      created = created;
      model = name;
      choices = or_default choices;
      usage = usage;
      noxis_provider = some provider_name;
    })

  unfoldable pub chunk_choice : ℕ → Json → Option ChatCompletionChunkChoice
  unfolding as_dict as_opt_str as_dicts
  chunk_choice i c = do
    fs ← as_dict c
    delta ← as_dict (Json.get_or "delta" (Json.obj Fields.end) fs)
    index ← py.as_int (Json.get_or "index" (Json.int (pos i)) fs)
    role ← as_opt_str (Json.get_or "role" Json.null delta)
    content ← as_opt_str (Json.get_or "content" Json.null delta)
    calls ← as_dicts (Json.get_or "tool_calls" Json.null delta)
    reason ← as_opt_str (Json.get_or "finish_reason" Json.null fs)
    some (record {
      index = index;
      delta = record { role = role; content = content; tool_calls = calls };
      finish_reason = reason;
    })

  unfoldable pub chunk_choices_from : ℕ → List Json → Option (List ChatCompletionChunkChoice)
  unfolding chunk_choice
  chunk_choices_from i [] = some []
  chunk_choices_from i (c ∷ cs) = do
    x ← chunk_choice i c
    xs ← chunk_choices_from (suc i) cs
    some (x ∷ xs)

  unfoldable pub normalize_chunk : Json → String → String → String → Option ChatCompletionChunk
  unfolding as_dict iterate chunk_choices_from as_str
  normalize_chunk raw chat_id requested_model provider_name = do
    fs ← as_dict raw
    cs ← iterate (Json.get_or "choices" (Json.arr Items.nil) fs)
    choices ← chunk_choices_from 0 cs
    id ← as_str (Json.get_or "id" (Json.str chat_id) fs)
    name ← as_str (Json.get_or "model" (Json.str requested_model) fs)
    some (record { id = id; model = name; choices = choices; noxis_provider = some provider_name })
