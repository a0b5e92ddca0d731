-- ===== src/Schemas/RoundTrip.antt =====
-- What app/providers/openai_compatible.py sends is a request that app/models/schemas.py reads back.
use mathlib.Core.Path.{fun_ext}
use noxis_api_provider.Prelude.{
  String, ◌≡◌, ◌≢◌, refl, ap, ◌∙◌, Bool, true, false, not, ◌&&◌, Option, none, some, List, [], ◌∷◌,
  map, any, ◌>>=◌, Bool-cases, inl, inr, str_eq, str_eq_iff, if◌then◌else◌, arith,
}
use noxis_api_provider.Json
use noxis_api_provider.Json.{Json, Fields, as_dict}
use noxis_api_provider.Schemas.{
  FunctionDef, ToolDef, ToolCall, Content, ChatMessage, FormatType, json_object, json_schema,
  ResponseFormat, Stop, one, many, ToolChoice, mode, named, Role, system, user, assistant, tool,
  developer,
}
use noxis_api_provider.Chat.Normalize.{
  as_str, as_role, as_content, dicts, as_tool_call, tool_calls, as_tool_calls,
}
use noxis_api_provider.Schemas.Dump.{
  Entry, compact, items, array, maybe, role_value, dump_function, dump_tool, dump_call,
  dump_content, message_entries, function_entries, tool_entries, call_entries, format_entries,
  dump_message, format_value, dump_format, dump_stop, dump_tool_choice,
}
use noxis_api_provider.Schemas.Parse.{
  Lookup, required, optional, strings, as_stop, as_tool_choice, function_of, is_function, tool_of,
  tools_of, as_tools, format_type, format_of, as_format, given, message_of, messages_of,
  non_empty_messages, as_messages,
}

-- The value of an entry, found by its name.
abbrev pub pick : String → List Entry → Option Json
pick k [] = none
pick k ((j, v) ∷ es) = if str_eq j k then v else pick k es

abbrev pub distinct : List Entry → Bool
distinct [] = true
distinct ((j, v) ∷ es) = not (any (λ (e : Entry). str_eq e.0 j) es) && distinct es

get-compact-none :
    (k : String) (es : List Entry)
    → any (λ (e : Entry). str_eq e.0 k) es ≡ false
    → Json.get k (compact es) ≡ none
unfolding Json.get compact
get-compact-none k [] h = refl
get-compact-none k ((j, none) ∷ es) h = get-compact-none k es (ground (arith, h))
get-compact-none k ((j, some v) ∷ es) h = ground (arith, h, get-compact-none k es)

-- Of fields with different names each is found under its own.
get-compact :
    (k : String) (es : List Entry) → distinct es ≡ true → Json.get k (compact es) ≡ pick k es
unfolding Json.get compact
get-compact k [] h = refl
get-compact k ((j, none) ∷ es) h = elim (Bool-cases (str_eq j k)) [
  | inl e ↦ rw e (
      get-compact-none k es (
        ground (
          arith,
          h,
          str_eq_iff j k,
          e,
          ap (λ x. any (λ (e : Entry). str_eq e.0 x) es) ((str_eq_iff j k).0 e),
        )))
  | inr e ↦ rw e (get-compact k es (ground (arith, h)))
]
get-compact k ((j, some v) ∷ es) h = ground (arith, h, get-compact k es)

pub step {ℓ κ} :
    {A : Type ℓ} {B : Type κ} (m : Option A) (f : A → Option B) {a : A} {b : B}
    → m ≡ some a
    → f a ≡ some b
    → (m >>= f) ≡ some b
step none f e g = absurd cc
step (some x) f {a} {b} e g = let same : x ≡ a = cc in rw same g

pub optional-some {ℓ} :
    {A : Type ℓ} (read : Json → Option A) (v : Json) (a : A)
    → v ≢ Json.null
    → read v ≡ some a
    → optional read (some v) ≡ some (some a)
unfolding optional
optional-some read Json.null a n e = absurd (n refl)
optional-some read v a n e = rw e refl

-- A field that may be left out is read back, where each of its values is.
pub optional-maybe {ℓ} :
    {A : Type ℓ} (read : Json → Option A) (dump : A → Json) (o : Option A)
    → ((a : A) → dump a ≢ Json.null)
    → ((a : A) → read (dump a) ≡ some a)
    → optional read (maybe dump o) ≡ some o
unfolding optional
optional-maybe read dump none n h = refl
optional-maybe read dump (some a) n h = optional-some read (dump a) a (n a) (h a)

dicts-array : (ds : List Fields) → dicts (items (map Json.obj ds)) ≡ some ds
unfolding dicts as_dict
dicts-array [] = refl
dicts-array (d ∷ ds) = rw (dicts-array ds) refl

strings-array : (ss : List String) → strings (items (map Json.str ss)) ≡ some ss
unfolding strings as_str
strings-array [] = refl
strings-array (s ∷ ss) = rw (strings-array ss) refl

-- Each of the parts is read back.
as_role-value : (r : Role) → as_role (Json.str (role_value r)) ≡ some r
unfolding as_role role_value
as_role-value system = refl
as_role-value user = refl
as_role-value assistant = refl
as_role-value tool = refl
as_role-value developer = refl

as_content-dump : (c : Option Content) → given as_content (maybe dump_content c) ≡ some c
unfolding given as_content dump_content
as_content-dump none = refl
as_content-dump (some (Content.text s)) = refl
as_content-dump (some (Content.parts ds)) = rw (dicts-array ds) refl

-- The dicts of a list of models.
dicts-map {ℓ} :
    {A : Type ℓ} (fields : A → Fields) (xs : List A)
    → dicts (items (map (λ x. Json.obj (fields x)) xs)) ≡ some (map fields xs)
unfolding dicts as_dict
dicts-map fields [] = refl
dicts-map fields (x ∷ xs) = rw (dicts-map fields xs) refl

as_tool_call-compact : (c : ToolCall) → as_tool_call (compact (call_entries c)) ≡ some c
unfolding as_dict as_tool_call as_str Json.get_or Json.get compact
as_tool_call-compact c = refl

calls-back : (cs : List ToolCall) → tool_calls (map (λ c. compact (call_entries c)) cs) ≡ some cs
unfolding tool_calls
calls-back [] = refl
calls-back (c ∷ cs) = step _ _ (as_tool_call-compact c) (step _ _ (calls-back cs) refl)

as_tool_calls-dump :
    (cs : Option (List ToolCall)) → given as_tool_calls (maybe (array dump_call) cs) ≡ some cs
unfolding given as_tool_calls dump_call
as_tool_calls-dump none = refl
as_tool_calls-dump (some cs) =
    step _ _ (dicts-map (λ c. compact (call_entries c)) cs) (step _ _ (calls-back cs) refl)

pub as_stop-dump : (s : Stop) → as_stop (dump_stop s) ≡ some s
unfolding as_stop dump_stop
as_stop-dump (one s) = refl
as_stop-dump (many ss) = rw (strings-array ss) refl

pub as_tool_choice-dump : (c : ToolChoice) → as_tool_choice (dump_tool_choice c) ≡ some c
unfolding as_tool_choice dump_tool_choice
as_tool_choice-dump (mode s) = refl
as_tool_choice-dump (named fs) = refl

format_type-value : (f : FormatType) → format_type (some (Json.str (format_value f))) ≡ some f
unfolding format_type format_value
format_type-value FormatType.text = refl
format_type-value json_object = refl
format_type-value json_schema = refl

-- What is looked up in the JSON of a model is what its entries hold.
lookup-compact :
    (es : List Entry)
    → distinct es ≡ true
    → ◌≡◌ {A = Lookup} (λ k. Json.get k (compact es)) (λ k. pick k es)
lookup-compact es h = fun_ext (λ k. get-compact k es h)

-- So a model that is read from its entries is read from its JSON.
pub through {ℓ} :
    {A : Type ℓ} (read : Lookup → Option A) (es : List Entry) {a : A}
    → distinct es ≡ true
    → read (λ k. pick k es) ≡ some a
    → read (λ k. Json.get k (compact es)) ≡ some a
through read es h e = ap read (lookup-compact es h) ∙ e

dict_back : (fs : Fields) → as_dict (Json.obj fs) ≡ some fs
unfolding as_dict
dict_back fs = refl

pub text_back : (s : String) → as_str (Json.str s) ≡ some s
unfolding as_str
text_back s = refl

pub as_format-dump : (r : ResponseFormat) → as_format (dump_format r) ≡ some r
unfolding as_format dump_format format_of
as_format-dump r = through format_of (format_entries r) refl (
    step _ _ (format_type-value r.type_)
      (step _ _ (optional-maybe as_dict Json.obj r.json_schema (λ fs q. cc) dict_back) refl))

function-back :
    (f : FunctionDef) → function_of (λ k. Json.get k (compact (function_entries f))) ≡ some f
unfolding function_of required
function-back f = through function_of (function_entries f) refl (
    step _ _ (optional-maybe as_str Json.str f.description (λ s q. cc) text_back)
      (step _ _ (optional-maybe as_dict Json.obj f.parameters (λ fs q. cc) dict_back) refl))

tool-back : (t : ToolDef) → tool_of (λ k. Json.get k (compact (tool_entries t))) ≡ some t
unfolding tool_of required is_function dump_function
tool-back t = through tool_of (tool_entries t) refl (
    step (function_of (λ k. Json.get k (compact (function_entries t.function))))
      (λ f. some (record { function = f })) (function-back t.function) refl)

tools-back : (ts : List ToolDef) → tools_of (map (λ t. compact (tool_entries t)) ts) ≡ some ts
unfolding tools_of
tools-back [] = refl
tools-back (t ∷ ts) = step _ _ (tool-back t) (step _ _ (tools-back ts) refl)

pub as_tools-dump : (ts : List ToolDef) → as_tools (array dump_tool ts) ≡ some ts
unfolding as_tools dump_tool
as_tools-dump ts = step _ _ (dicts-map (λ t. compact (tool_entries t)) ts) (tools-back ts)

message-back :
    (m : ChatMessage) → message_of (λ k. Json.get k (compact (message_entries m))) ≡ some m
unfolding message_of required
message-back m = through message_of (message_entries m) refl (
    step _ _ (as_role-value m.role) (
      step _ _ (as_content-dump m.content) (
        step _ _ (optional-maybe as_str Json.str m.name (λ s q. cc) text_back) (
          step _ _ (as_tool_calls-dump m.tool_calls) (
            step _ _ (optional-maybe as_str Json.str m.tool_call_id (λ s q. cc) text_back) refl)))))

messages-back :
    (ms : List ChatMessage) → messages_of (map (λ m. compact (message_entries m)) ms) ≡ some ms
unfolding messages_of
messages-back [] = refl
messages-back (m ∷ ms) = step _ _ (message-back m) (step _ _ (messages-back ms) refl)

non_empty : (ms : List ChatMessage) → ms ≢ [] → non_empty_messages ms ≡ some ms
unfolding non_empty_messages
non_empty [] h = absurd (h refl)
non_empty (m ∷ ms) h = refl

pub as_messages-dump :
    (ms : List ChatMessage) → ms ≢ [] → as_messages (array dump_message ms) ≡ some ms
unfolding as_messages dump_message
as_messages-dump ms h =
    step _ _ (dicts-map (λ m. compact (message_entries m)) ms)
      (step _ _ (messages-back ms) (non_empty ms h))
