-- ===== src/Schemas.antt =====
-- app/models/schemas.py: the OpenAI-compatible request.
pub mod Parse
pub mod Dump
pub mod RoundTrip
pub mod Valid
pub mod ReadBack
pub mod Tests
use noxis_api_provider.Prelude.{ℕ, String, Bool, Option, List, ℤ}
use noxis_api_provider.Json.{Json, Fields}

pub record FunctionDef : Type 0 where
  pub name : String
  pub description : Option String
  pub parameters : Option Fields

-- The field `type` has one value only, as in `ToolCall`.
pub record ToolDef : Type 0 where
  pub function : FunctionDef

pub record ToolCall : Type 0 where
  pub id : String
  pub function : Fields

pub data Role : Type 0 where
  system user assistant tool developer : Role

-- `str | list[dict[str, Any]]`
pub data Content : Type 0 where
  text : String → Content
  parts : List Fields → Content

pub record ChatMessage : Type 0 where
  pub role : Role
  pub content : Option Content
  pub name : Option String
  pub tool_calls : Option (List ToolCall)
  pub tool_call_id : Option String

pub data FormatType : Type 0 where
  text json_object json_schema : FormatType

pub record ResponseFormat : Type 0 where
  pub type_ : FormatType
  pub json_schema : Option Fields

pub data Stop : Type 0 where
  one : String → Stop
  many : List String → Stop

pub data ToolChoice : Type 0 where
  mode : String → ToolChoice
  named : Fields → ToolChoice

-- A request that has passed validation; sampling numbers are kept as the JSON numbers sent.
pub record ChatCompletionRequest : Type 0 where
  pub model : String
  pub messages : List ChatMessage
  pub temperature : Option Json
  pub top_p : Option Json
  pub n : Option ℕ
  pub stream : Bool
  pub stop : Option Stop
  pub max_tokens : Option ℕ
  pub presence_penalty : Option Json
  pub frequency_penalty : Option Json
  pub logit_bias : Option Fields
  pub user : Option String
  pub tools : Option (List ToolDef)
  pub tool_choice : Option ToolChoice
  pub response_format : Option ResponseFormat
  pub seed : Option ℤ
