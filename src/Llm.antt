-- ===== src/Llm.antt =====
-- pkg/llm: messages, tool calls and the provider interface.
use docsclaw.Base.{ℕ, Str, Map, List, [], Bool, true, false, Result}
use docsclaw.Json.{Json}

pub record ToolDefinition : Type 0 where
  pub name : Str
  pub description : Str
  pub parameters : Map Json

pub record ToolCall : Type 0 where
  pub id : Str
  pub name : Str
  pub args : Map Json

pub record ToolResultContent : Type 0 where
  pub tool_use_id : Str
  pub output : Str
  pub is_error : Bool

-- A nil slice and an empty one are both `[]`.
pub record Message : Type 0 where
  pub role : Str
  pub content : Str
  pub tool_calls : List ToolCall
  pub tool_results : List ToolResultContent

pub record Usage : Type 0 where
  pub input_tokens : ℕ
  pub output_tokens : ℕ
  pub cache_read_tokens : ℕ
  pub cache_write_tokens : ℕ
  pub total_tokens : ℕ

pub record Response : Type 0 where
  pub stop_reason : Str
  pub content : Str
  pub tool_calls : List ToolCall
  pub usage : Usage

abbrev pub no_usage : Usage
no_usage = record {
  input_tokens = 0;
  output_tokens = 0;
  cache_read_tokens = 0;
  cache_write_tokens = 0;
  total_tokens = 0;
}

unfoldable pub has_tool_calls : Response → Bool
has_tool_calls r = elim (r.tool_calls) [ [] ↦ false | _ ↦ true ]

-- A message with text only, as `llm.Message{Role: …, Content: …}` makes it.
abbrev pub text_message : Str → Str → Message
text_message role content = record {
  role = role;
  content = content;
  tool_calls = [];
  tool_results = [];
}

-- The kinds of event of a stream; the usage that comes with the last is read by nobody here.
pub data StreamEvent : Type 0 where
  text_delta : Str → StreamEvent
  stream_done : StreamEvent
  stream_error : Str → StreamEvent

-- What lies outside the process is a state `W`, which each call reads and changes. An error is the
-- text of its `Error()`.
pub record Provider (W : Type 0) : Type 0 where
  pub complete : Str → Str → W → Result Str Str × W
  pub complete_with_tools : List Message → List ToolDefinition → W → Result Str Response × W
  -- the events that were passed to the callback, with the result
  pub stream_with_tools :
      List Message → List ToolDefinition → W → (List StreamEvent × Result Str Response) × W
  pub model : Str
  pub provider_name : Str
