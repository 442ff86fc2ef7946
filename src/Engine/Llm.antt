-- ===== src/Engine/Llm.antt =====
-- services/agent-runtime/app/engine/llm: the types that the loop and an LLM adapter share
-- (types.py), and the adapter interface (base.py); the providers are in the child modules.
-- `raw_response` is left out.
pub mod Pricing
pub mod Anthropic
pub mod OpenAi
pub mod Alternation
use agentcompany.Prelude.{ℕ, String, Option, List}
use agentcompany.Prelude.Int.{ℤ}
use agentcompany.Json.{Fields}
use agentcompany.Exec.{Exec}

-- A message of the internal representation; the loop builds messages with text contents only.
pub record Message : Type 0 where
  pub role : String
  pub content : String
  pub tool_call_id : Option String

pub record ToolCall : Type 0 where
  pub id : String
  pub name : String
  pub arguments : Fields

pub record ToolDefinition : Type 0 where
  pub name : String
  pub description : String
  pub input_schema : Fields

pub data StopReason : Type 0 where
  end_turn tool_use max_tokens stop_sequence : StopReason

module _ (F : Type 0) where
  pub record LlmResponse : Type 0 where
    pub content : String
    pub tool_calls : List ToolCall
    pub stop_reason : StopReason
    pub input_tokens : ℤ
    pub output_tokens : ℤ
    pub tokens_used : ℤ
    pub model : String
    pub cost_usd : F

  -- `complete` takes the messages, the system prompt, the tools, and the limit on tokens and the
  -- temperature where the caller gives them (the temperature in tenths).
  pub record Adapter (W : Type 0) : Type 0 where
    pub complete :
        List Message → String → Option (List ToolDefinition) → Option (ℕ × ℕ) → Exec W LlmResponse
    pub count_tokens : List Message → String → ℕ
    pub max_context_tokens : ℕ
    pub name : String
