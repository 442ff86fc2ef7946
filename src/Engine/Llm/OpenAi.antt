-- ===== src/Engine/Llm/OpenAi.antt =====
-- engine/llm/openai.py and engine/llm/ollama.py: the adapters of OpenAI's models and of a local
-- Ollama, which is served by the same client. The client and `tiktoken` are given.
use Prim.Native.String.{◌++◌}
use agentcompany.Prelude.{
  ℕ, String, Option, List, Bool, none, some, [], ◌∷◌, ◌+◌, ◌/◌, map, lookup, or_else, if◌then◌else◌,
  ltb, is_empty, ◌==◌, true, false,
}
use agentcompany.Engine.Llm.{
  Message, ToolCall, ToolDefinition, LlmResponse, StopReason, end_turn, tool_use, max_tokens,
  stop_sequence, Adapter,
}
use agentcompany.Engine.Llm.Anthropic.{LlmChunk, given}
use agentcompany.Exec.{
  Exec, Result, raise_if, value_error, foreign, raise, ok, ◌>>◌, ◌>>=◌, lift, pure,
}
use agentcompany.Prelude.Int.{ℤ, ◌+ℤ◌}
use agentcompany.Json.{Fields, text_length, end}
use agentcompany.Engine.Llm.Pricing.{
  PricingConfig, openai_context_windows, Prices, openai_pricing, calculate_cost, gpt_4o_pricing,
}

pub record WireMessage : Type 0 where
  pub role : String
  pub tool_call_id : Option String
  pub content : String

pub record Request : Type 0 where
  pub model : String
  pub messages : List WireMessage
  pub max_tokens : ℕ
  pub temperature : Option ℕ
  pub tools : Option (List ToolDefinition)
  pub tool_choice : Option String
  pub stop : Option (List String)

-- A tool call of a response: its arguments are a text.
pub record FunctionCall : Type 0 where
  pub id : String
  pub name : String
  pub arguments : String

pub record Choice : Type 0 where
  pub content : Option String
  pub tool_calls : List FunctionCall
  pub finish_reason : Option String

pub record Response : Type 0 where
  pub choices : List Choice
  pub prompt_tokens : ℤ
  pub completion_tokens : ℤ

-- A chunk with choices: the content of the delta and the finish reason of the first of them.
pub record Delta : Type 0 where
  pub content : Option String
  pub finish_reason : Option String

-- `load_arguments` is `json.loads` of a tool call's arguments, an object; none for invalid JSON.
-- `encode_length` is the length of a text that tiktoken encodes, where the package is there.
pub record Client (W : Type 0) : Type 0 where
  pub create : Request → Exec W Response
  pub stream : Request → Exec W (List (Option Delta))
  pub int_text : ℕ → String
  pub load_arguments : String → Option Fields
  pub encode_length : Option (String → ℕ)

-- The constructor's tests.
unfoldable pub openai_adapter : String → String → Result String
openai_adapter api_key model =
    if is_empty api_key
    then raise (value_error "OpenAI API key must not be empty")
    else if is_empty model
    then raise (value_error "Model name must not be empty")
    else ok model

-- The model of an Ollama adapter, and its URL; the settings give the defaults.
unfoldable pub ollama_adapter :
    String → String → Option String → Option String → Result (String × String)
ollama_adapter settings_url settings_model base_url model =
    let resolved_model = or_else model settings_model in
    if is_empty resolved_model
    then raise (value_error "Model name must not be empty")
    else elim (openai_adapter "ollama" resolved_model) [
      | ok m ↦ ok (m, or_else base_url (settings_url ++ "/v1"))
      | raise e ↦ raise e
    ]

abbrev pub pricing_of : String → PricingConfig
pricing_of model = or_else (lookup model openai_pricing) gpt_4o_pricing

unfoldable pub max_context_tokens : String → ℕ
max_context_tokens model = or_else (lookup model openai_context_windows) 128000

-- The tokens of the messages, of which each has an overhead of 4.
abbrev message_tokens : (String → ℕ) → List Message → ℕ
message_tokens size [] = 0
message_tokens size (m ∷ ms) = size m.content + 4 + message_tokens size ms

abbrev quarter : String → ℕ
quarter s = text_length s / 4

-- `OllamaAdapter.count_tokens`, which is also OpenAI's where tiktoken is missing.
unfoldable pub approximate_tokens : List Message → String → ℕ
approximate_tokens messages system = quarter system + message_tokens quarter messages

unfoldable pub count_tokens : Option (String → ℕ) → List Message → String → ℕ
count_tokens none messages system = approximate_tokens messages system
count_tokens (some size) messages system = size system + message_tokens size messages

abbrev pub normalize_message : Message → WireMessage
normalize_message m =
    if m.role == "tool"
    then record {
      role = "tool";
      tool_call_id = some (or_else m.tool_call_id "");
      content = m.content;
    }
    else record { role = m.role; tool_call_id = none; content = m.content }

-- `_normalize_messages`
unfoldable pub normalize_messages : List Message → List WireMessage
normalize_messages messages = map normalize_message messages

-- `_map_stop_reason`
unfoldable pub map_stop_reason : Option String → StopReason
map_stop_reason why =
    let r = or_else why "" in
    if r == "tool_calls"
    then tool_use
    else if r == "length"
    then max_tokens
    else if r == "content_filter"
    then stop_sequence
    else end_turn

abbrev is_nil : List Message → Bool
is_nil [] = true
is_nil _ = false

-- The system prompt is the first message.
abbrev with_system : String → List Message → List WireMessage
with_system system messages =
    record { role = "system"; tool_call_id = none; content = system } ∷ normalize_messages messages

-- `if tools:` adds the choice "auto".
abbrev choice_of : Option (List ToolDefinition) → Option String
choice_of none = none
choice_of (some _) = some "auto"

-- Invalid arguments are replaced by none.
abbrev call_of : (String → Option Fields) → FunctionCall → ToolCall
call_of load c = record { id = c.id; name = c.name; arguments = or_else (load c.arguments) end }

-- `choices[0]`
abbrev first : List Choice → Result Choice
first [] = raise (foreign "IndexError")
first (c ∷ cs) = ok c

abbrev text_chunks : Option String → List LlmChunk → List LlmChunk
text_chunks none rest = rest
text_chunks (some s) rest =
    if is_empty s
    then rest
    else record { delta = s; partial_json = none; is_final = false; stop_reason = none } ∷ rest

abbrev last_chunks : Option String → List LlmChunk → List LlmChunk
last_chunks none rest = rest
last_chunks (some s) rest =
    if is_empty s
    then rest
    else record {
      delta = "";
      partial_json = none;
      is_final = true;
      stop_reason = some (map_stop_reason (some s));
    }
      ∷ rest

-- What the chunks of the stream yield.
abbrev chunks_of : List (Option Delta) → List LlmChunk
chunks_of [] = []
chunks_of (none ∷ ds) = chunks_of ds
chunks_of (some d ∷ ds) = text_chunks d.content (last_chunks d.finish_reason (chunks_of ds))

-- `cost_of` is `_calculate_cost` of the class.
module _ {F W : Type 0} (cost_of : ℤ → ℤ → F) (client : Client W) (model : String) where
  abbrev response_of : Response → Choice → LlmResponse F
  response_of r c = record {
    content = or_else c.content "";
    tool_calls = map (call_of client.load_arguments) c.tool_calls;
    stop_reason = map_stop_reason c.finish_reason;
    input_tokens = r.prompt_tokens;
    output_tokens = r.completion_tokens;
    tokens_used = r.prompt_tokens +ℤ r.completion_tokens;
    model = model;
    cost_usd = cost_of r.prompt_tokens r.completion_tokens;
  }

  unfoldable pub complete :
      List Message
      → String
      → Option (List ToolDefinition)
      → ℕ
      → ℕ
      → Option (List String)
      → Exec W (LlmResponse F)
  complete messages system tools limit temperature stop = do
    raise_if (is_nil messages) (value_error "messages list must not be empty")
    raise_if (ltb limit 1) (value_error ("max_tokens must be >= 1, got " ++ client.int_text limit))
    response ← client.create (record {
      model = model;
      messages = with_system system messages;
      max_tokens = limit;
      temperature = some temperature;
      tools = given tools;
      tool_choice = choice_of (given tools);
      stop = given stop;
    })
    choice ← lift (first response.choices)
    pure (response_of response choice)

  unfoldable pub stream :
      List Message → String → Option (List ToolDefinition) → ℕ → Exec W (List LlmChunk)
  stream messages system tools limit = do
    raise_if (is_nil messages) (value_error "messages list must not be empty")
    deltas ← client.stream (record {
      model = model;
      messages = with_system system messages;
      max_tokens = limit;
      temperature = none;
      tools = given tools;
      tool_choice = none;
      stop = none;
    })
    pure (chunks_of deltas)

  -- An adapter of this client, whose counting, window and name its class gives.
  abbrev adapter_of : (List Message → String → ℕ) → ℕ → String → Adapter F W
  adapter_of count window name = record {
    complete = λ messages system tools limits.
        let (limit, temperature) = or_else limits (4096, 3) in
        complete messages system tools limit temperature none;
    count_tokens = count;
    max_context_tokens = window;
    name = name;
  }

-- OpenAI's adapter, and Ollama's, whose calls cost nothing.
unfoldable pub openai : {F W : Type 0} → Prices F → Client W → String → Adapter F W
openai prices client model =
    adapter_of (calculate_cost prices (pricing_of model)) client model
      (count_tokens client.encode_length) (max_context_tokens model) "openai_gpt"

unfoldable pub ollama : {F W : Type 0} → Prices F → Client W → String → ℕ → Adapter F W
ollama prices client model context_window =
    adapter_of (λ a b. prices.cents 0) client model approximate_tokens context_window "ollama"
