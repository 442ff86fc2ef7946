-- ===== src/Engine/Llm/Anthropic.antt =====
-- engine/llm/anthropic.py: the adapter of Anthropic's models. The client is given.
use Prim.Native.String.{◌++◌}
use mathlib.Core.List.{◌++◌ as ◌⧺◌}
use agentcompany.Prelude.{
  ℕ, String, Option, List, Bool, none, some, [], ◌∷◌, ◌+◌, ◌*◌, ◌/◌, lookup, or_else, if◌then◌else◌,
  ltb, length, is_empty, ◌==◌, true, false,
}
use agentcompany.Engine.Llm.{
  Message, ToolCall, ToolDefinition, LlmResponse, StopReason, end_turn, tool_use, max_tokens,
  stop_sequence, Adapter,
}
use agentcompany.Exec.{Exec, Result, raise_if, value_error, raise, ok, ◌>>◌, ◌>>=◌, pure}
use agentcompany.Prelude.Int.{ℤ, ◌+ℤ◌}
use agentcompany.Engine.Llm.Pricing.{
  PricingConfig, anthropic_context_windows, Prices, anthropic_pricing, sonnet_pricing,
  calculate_cost,
}
use agentcompany.Json.{text_length}

-- A block of a message; contents of messages are texts.
pub data Block : Type 0 where
  tool_result : String → String → Block
  text_block : String → Block

pub data Content : Type 0 where
  plain : String → Content
  blocks : List Block → Content

pub record WireMessage : Type 0 where
  pub role : String
  pub content : Content

-- A request: `temperature` in tenths, and the arguments that are left out where they are none.
pub record Request : Type 0 where
  pub model : String
  pub max_tokens : ℕ
  pub system : String
  pub messages : List WireMessage
  pub temperature : Option ℕ
  pub tools : Option (List ToolDefinition)
  pub stop_sequences : Option (List String)

pub data ResponseBlock : Type 0 where
  text : String → ResponseBlock
  tool_call : ToolCall → ResponseBlock
  other_block : ResponseBlock

pub record Response : Type 0 where
  pub content : List ResponseBlock
  pub input_tokens : ℤ
  pub output_tokens : ℤ
  pub stop_reason : String

-- An event of the stream, by the attributes that the code tests.
pub data StreamEvent : Type 0 where
  text_delta json_delta : String → StreamEvent
  message_stop other_event : StreamEvent

pub record LlmChunk : Type 0 where
  pub delta : String
  pub partial_json : Option String
  pub is_final : Bool
  pub stop_reason : Option StopReason

pub record Client (W : Type 0) : Type 0 where
  pub create : Request → Exec W Response
  pub stream : Request → Exec W (List StreamEvent)
  pub int_text : ℕ → String

-- The constructor's tests: the API key and the model.
unfoldable pub anthropic_adapter : String → String → Result String
anthropic_adapter api_key model =
    if is_empty api_key
    then raise (value_error "Anthropic API key must not be empty")
    else if is_empty model
    then raise (value_error "Model name must not be empty")
    else ok model

abbrev pub pricing_of : String → PricingConfig
pricing_of model = or_else (lookup model anthropic_pricing) sonnet_pricing

unfoldable pub max_context_tokens : String → ℕ
max_context_tokens model = or_else (lookup model anthropic_context_windows) 200000

-- The tokens of the contents and, with `n` messages, their overhead.
abbrev content_tokens : List Message → ℕ
content_tokens [] = 0
content_tokens (m ∷ ms) = text_length m.content / 4 + content_tokens ms

unfoldable pub count_tokens : List Message → String → ℕ
count_tokens messages system =
    text_length system / 4 + content_tokens messages + length messages * 4

-- The content of a user message to which a tool result is added.
abbrev pub with_result : Block → Content → Content
with_result b (blocks bs) = blocks (bs ⧺ b ∷ [])
with_result b (plain s) = blocks (text_block s ∷ b ∷ [])

-- A tool result: it goes into the last message where that is the user's.
abbrev pub add_result : Block → List WireMessage → List WireMessage
add_result b [] = record { role = "user"; content = blocks (b ∷ []) } ∷ []
add_result b (m ∷ []) =
    if m.role == "user"
    then record m { content = with_result b m.content } ∷ []
    else m ∷ record { role = "user"; content = blocks (b ∷ []) } ∷ []
add_result b (m ∷ n ∷ ms) = m ∷ add_result b (n ∷ ms)

-- The body of the loop of `_normalize_messages`.
abbrev pub add_message : List WireMessage → Message → List WireMessage
add_message normalized m =
    if m.role == "tool"
    then add_result (tool_result (or_else m.tool_call_id "") m.content) normalized
    else normalized ⧺ record { role = m.role; content = plain m.content } ∷ []

abbrev pub normalize_from : List WireMessage → List Message → List WireMessage
normalize_from normalized [] = normalized
normalize_from normalized (m ∷ ms) = normalize_from (add_message normalized m) ms

-- `_normalize_messages`
unfoldable pub normalize_messages : List Message → List WireMessage
normalize_messages messages = normalize_from [] messages

-- `_map_stop_reason`
unfoldable pub map_stop_reason : String → StopReason
map_stop_reason why =
    if why == "tool_use"
    then tool_use
    else if why == "max_tokens"
    then max_tokens
    else if why == "stop_sequence"
    then stop_sequence
    else end_turn

-- The last text of a response, and its tool calls in order.
abbrev text_of : String → List ResponseBlock → String
text_of s [] = s
text_of s (text t ∷ bs) = text_of t bs
text_of s (_ ∷ bs) = text_of s bs

abbrev calls_of : List ResponseBlock → List ToolCall
calls_of [] = []
calls_of (tool_call c ∷ bs) = c ∷ calls_of bs
calls_of (_ ∷ bs) = calls_of bs

-- `if xs:`
abbrev pub given : {A : Type 0} → Option (List A) → Option (List A)
given (some (x ∷ xs)) = some (x ∷ xs)
given _ = none

abbrev is_nil : List Message → Bool
is_nil [] = true
is_nil _ = false

-- What the events yield.
abbrev chunks_of : List StreamEvent → List LlmChunk
chunks_of [] = []
chunks_of (text_delta s ∷ es) =
    record { delta = s; partial_json = none; is_final = false; stop_reason = none } ∷ chunks_of es
chunks_of (json_delta s ∷ es) =
    record { delta = ""; partial_json = some s; is_final = false; stop_reason = none }
    ∷ chunks_of es
chunks_of (message_stop ∷ es) =
    record { delta = ""; partial_json = none; is_final = true; stop_reason = some end_turn }
    ∷ chunks_of es
chunks_of (other_event ∷ es) = chunks_of es

module _ {F W : Type 0} (prices : Prices F) (client : Client W) (model : String) where
  abbrev response_of : Response → LlmResponse F
  response_of r = record {
    content = text_of "" r.content;
    tool_calls = calls_of r.content;
    stop_reason = map_stop_reason r.stop_reason;
    input_tokens = r.input_tokens;
    output_tokens = r.output_tokens;
    tokens_used = r.input_tokens +ℤ r.output_tokens;
    model = model;
    cost_usd = calculate_cost prices (pricing_of model) r.input_tokens r.output_tokens;
  }

  unfoldable pub complete :
      List Message
      → String
      → Option (List ToolDefinition)
      → ℕ
      → ℕ
      → Option (List String)
      → Exec W (LlmResponse F)
  complete messages system tools limit temperature stop = do
    raise_if (is_nil messages) (value_error "messages list must not be empty")
    raise_if (ltb limit 1) (value_error ("max_tokens must be >= 1, got " ++ client.int_text limit))
    response ← client.create (record {
      model = model;
      max_tokens = limit;
      system = system;
      messages = normalize_messages messages;
      temperature = some temperature;
      tools = given tools;
      stop_sequences = given stop;
    })
    pure (response_of response)

  unfoldable pub stream :
      List Message → String → Option (List ToolDefinition) → ℕ → Exec W (List LlmChunk)
  stream messages system tools limit = do
    raise_if (is_nil messages) (value_error "messages list must not be empty")
    events ← client.stream (record {
      model = model;
      max_tokens = limit;
      system = system;
      messages = normalize_messages messages;
      temperature = none;
      tools = given tools;
      stop_sequences = none;
    })
    pure (chunks_of events)

  -- The adapter that the loop is given: a limit of 4096 and a temperature of 0.3 unless it says so.
  unfoldable pub adapter : Adapter F W
  adapter = record {
    complete = λ messages system tools limits.
        let (limit, temperature) = or_else limits (4096, 3) in
        complete messages system tools limit temperature none;
    count_tokens = count_tokens;
    max_context_tokens = max_context_tokens model;
    name = "anthropic_claude";
  }
