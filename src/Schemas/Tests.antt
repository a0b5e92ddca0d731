-- ===== src/Schemas/Tests.antt =====
-- The theorems on app/models/schemas.py at a concrete body, with numbers that are read as themselves.
use noxis_api_provider.Prelude.{
  ◌≡◌, refl, Bool, true, false, ◌&&◌, Option, none, some, [], ◌∷◌, ℤ, pos, leb_ℤ,
}
use noxis_api_provider.Json
use noxis_api_provider.Json.{Json, Items, Fields}
use noxis_api_provider.Schemas.{ChatCompletionRequest, Content, user, Stop}
use noxis_api_provider.Schemas.Parse
use noxis_api_provider.Schemas.Parse.{Pydantic, parse_request}
use noxis_api_provider.Schemas.Dump.{dump_payload}
use noxis_api_provider.Schemas.Valid.{IsPydantic, IsValid, parse-IsValid}
use noxis_api_provider.Schemas.ReadBack.{parse-dump_payload}
use noxis_api_provider.Chat.Normalize

abbrev int_of : Json → Option ℤ
int_of (Json.int k) = some k
int_of _ = none

abbrev bool_of : Json → Option Bool
bool_of (Json.bool b) = some b
bool_of _ = none

abbrev float_of : Json → Option Json
float_of (Json.int k) = some (Json.int k)
float_of (Json.float s) = some (Json.float s)
float_of _ = none

abbrev between : ℤ → ℤ → Json → Bool
between lo hi (Json.int k) = leb_ℤ lo k && leb_ℤ k hi
between lo hi _ = true

abbrev pub pydantic : Pydantic
pydantic = record { as_int = int_of; as_bool = bool_of; as_float = float_of; in_range = between }

float_of-twice : (v x : Json) → float_of v ≡ some x → float_of x ≡ some x
float_of-twice (Json.int k) x e = let same : x ≡ Json.int k = cc in rw same refl
float_of-twice (Json.float s) x e = let same : x ≡ Json.float s = cc in rw same refl
float_of-twice v x e = absurd cc

pub pydantic-IsPydantic : IsPydantic pydantic
pydantic-IsPydantic = record {
  int_back = λ k. refl;
  bool_back = λ b. refl;
  null_no_float = refl;
  float_back = float_of-twice;
}

abbrev pub body : Json
body = Json.obj (
    Fields.field "model" (Json.str "gpt-4") (
      Fields.field "messages"
        (Json.arr (
          Items.cons
            (Json.obj (
              Fields.field "role" (Json.str "user")
                (Fields.field "content" (Json.str "hi") Fields.end)))
            Items.nil))
        (Fields.field "temperature" (Json.float "0.7") (
          Fields.field "n" Json.null (
            Fields.field "stop" (Json.arr (Items.cons (Json.str "x") Items.nil))
              (Fields.field "max_tokens" (Json.int (pos 5)) Fields.end))))))

abbrev read : ChatCompletionRequest
read = record {
  model = "gpt-4";
  messages =
      record {
        role = user;
        content = some (Content.text "hi");
        name = none;
        tool_calls = none;
        tool_call_id = none;
      }
      ∷ [];
  temperature = some (Json.float "0.7");
  top_p = none;
  n = none;
  stream = false;
  stop = some (Stop.many ("x" ∷ []));
  max_tokens = some 5;
  presence_penalty = none;
  frequency_penalty = none;
  logit_bias = none;
  user = none;
  tools = none;
  tool_choice = none;
  response_format = none;
  seed = none;
}

body-read : parse_request pydantic body ≡ some read
unfolding Parse.parse_request Parse.message_of Parse.messages_of Parse.as_messages Parse.request_of
    Json.get Json.as_dict Normalize.dicts
body-read = refl

pub read-IsValid : IsValid pydantic read
read-IsValid = parse-IsValid pydantic pydantic-IsPydantic body read body-read

parse-IsValid_example : IsValid pydantic read
parse-IsValid_example = parse-IsValid pydantic pydantic-IsPydantic body read body-read

parse-dump_payload_example :
    parse_request pydantic (dump_payload read true)
    ≡ some (record read { stream = true; n = some 1 })
parse-dump_payload_example = parse-dump_payload pydantic pydantic-IsPydantic read true read-IsValid
