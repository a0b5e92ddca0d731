-- ===== src/CacheKey.antt =====
-- app/core/cache.py, `build_cache_key`. The text that json.dumps makes and its SHA-256 are one
-- parameter, a function of what is put into them.
pub mod Collisions
pub mod Tests
use noxis_api_provider.Prelude.{ℕ, String, Option, List, ℤ}
use noxis_api_provider.Json.{Json}
use noxis_api_provider.Schemas.{
  ChatMessage, Stop, ToolDef, ToolChoice, ResponseFormat, ChatCompletionRequest,
}

-- The twelve fields of the request.
pub record Relevant : Type 0 where
  pub model : String
  pub messages : List ChatMessage
  pub temperature : Option Json
  pub top_p : Option Json
  pub max_tokens : Option ℕ
  pub stop : Option Stop
  pub presence_penalty : Option Json
  pub frequency_penalty : Option Json
  pub tools : Option (List ToolDef)
  pub tool_choice : Option ToolChoice
  pub response_format : Option ResponseFormat
  pub seed : Option ℤ

unfoldable pub relevant : ChatCompletionRequest → Relevant
relevant r = record {
  model = r.model;
  messages = r.messages;
  temperature = r.temperature;
  top_p = r.top_p;
  max_tokens = r.max_tokens;
  stop = r.stop;
  presence_penalty = r.presence_penalty;
  frequency_penalty = r.frequency_penalty;
  tools = r.tools;
  tool_choice = r.tool_choice;
  response_format = r.response_format;
  seed = r.seed;
}

unfoldable pub build_cache_key : (Relevant → String) → ChatCompletionRequest → String
unfolding relevant
build_cache_key digest r = digest (relevant r)
