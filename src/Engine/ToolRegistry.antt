-- ===== src/Engine/ToolRegistry.antt =====
-- services/agent-runtime/app/engine/tool_registry.py: the tools of an agent and their execution.
pub mod Access
use Prim.Native.String.{◌++◌}
use agentcompany.Prelude.{
  String, Dict, Bool, Option, List, if◌then◌else◌, lookup, map, false, is_empty, ◌∷◌, ◌==◌, [],
  insert, ◌||◌, true, none, some,
}
use agentcompany.Json.{Fields, Builtins, Json, str}
use agentcompany.Exec.{Result, Exec, Error, ok, raise, value_error, pure, type_error, ◌>>=◌, lift}
use agentcompany.Engine.Llm.{ToolDefinition}

-- A handler gets the arguments of the call; what it returns is any JSON value.
pub record AgentTool (W : Type 0) : Type 0 where
  pub name : String
  pub description : String
  pub parameters : Fields
  pub handler : Fields → Exec W Json
  pub required_roles : List String

-- `ToolRegistry`: its dict, in insertion order.
abbrev pub ToolRegistry : Type 0 → Type 0
ToolRegistry W = Dict (AgentTool W)

pub record ToolExecutionResult : Type 0 where
  pub tool_name : String
  pub call_id : String
  pub output : String
  pub success : Bool

module _ {W : Type 0} where
  -- `register` returns the registry that it leaves.
  unfoldable pub register : AgentTool W → ToolRegistry W → Result (ToolRegistry W)
  register tool registry =
      if is_empty tool.name
      then raise (value_error "AgentTool.name must not be empty")
      else ok (insert tool.name tool registry)

  unfoldable pub get_tool : String → ToolRegistry W → Option (AgentTool W)
  get_tool name registry = lookup name registry

  unfoldable pub list_tools : ToolRegistry W → List String
  list_tools registry = map (λ (e : String × AgentTool W). e.0) registry

-- `s in [f(x) for x in xs]`
abbrev pub among_images : (String → String) → List String → String → Bool
among_images f [] s = false
among_images f (x ∷ xs) s = f x == s || among_images f xs s

-- The output as a text: `json.dumps`, and `str` where that raises a TypeError or a ValueError.
unfoldable pub output_text : Builtins → Json → Result String
output_text py (str s) = ok s
output_text py v = elim (py.dumps v) [
  | ok s ↦ ok s
  | raise type_error ↦ ok (py.text_of v)
  | raise (value_error _) ↦ ok (py.text_of v)
  | raise e ↦ raise e
]

abbrev pub failed_call : String → String → String → ToolExecutionResult
failed_call name id why = record { tool_name = name; call_id = id; output = why; success = false }

module _ {W : Type 0} (py : Builtins) where
  -- The condition of the comprehension.
  unfoldable pub accessible : String → AgentTool W → Bool
  accessible role tool = elim tool.required_roles [
    | [] ↦ true
    | r ∷ rs ↦ among_images py.lower (r ∷ rs) (py.lower role)
  ]

  -- The comprehension over the tools.
  unfoldable pub accessible_tools : String → ToolRegistry W → List (AgentTool W)
  accessible_tools role [] = []
  accessible_tools role ((name, tool) ∷ rest) =
      let others = accessible_tools role rest in
      if accessible role tool then tool ∷ others else others

  unfoldable pub get_tools_for_role : String → ToolRegistry W → Result (List (AgentTool W))
  get_tools_for_role role registry =
      if is_empty role
      then raise (value_error "role must not be empty")
      else ok (accessible_tools role registry)

  unfoldable pub tool_definition : AgentTool W → ToolDefinition
  tool_definition tool = record {
    name = tool.name;
    description = tool.description;
    input_schema = tool.parameters;
  }

  unfoldable pub to_llm_definitions : String → ToolRegistry W → Result (List ToolDefinition)
  to_llm_definitions role registry = elim (get_tools_for_role role registry) [
    | ok tools ↦ ok (map tool_definition tools)
    | raise e ↦ raise e
  ]

  -- The rest of `execute`, once the handler has returned or raised. `describe` is `str(exc)`.
  unfoldable pub finish_call :
      (Error → String) → String → String → Result Json → Exec W ToolExecutionResult
  unfolding output_text
  finish_call describe name id (raise e) =
      pure (failed_call name id ("Error executing " ++ (name ++ (": " ++ describe e))))
  finish_call describe name id (ok v) = do
    output ← lift (output_text py v)
    pure (record { tool_name = name; call_id = id; output = output; success = true })

  -- `RegistryToolExecutor.execute`; its `agent_id` serves the log alone.
  unfoldable pub execute :
      (Error → String) → ToolRegistry W → String → Fields → String → Exec W ToolExecutionResult
  unfolding get_tool finish_call
  execute describe registry name arguments id w = elim (get_tool name registry) [
    | none ↦ pure (failed_call name id ("Error: tool '" ++ (name ++ "' is not available."))) w
    | some tool ↦ let (r, w') = tool.handler arguments w in finish_call describe name id r w'
  ]
