-- ===== src/Tests/Tools.antt =====
-- The tools of a registry.
use agentcompany.Prelude.{◌∷◌, ◌≡◌, refl, Member, [], ◌↔◌, String, true, some}
use agentcompany.Engine.ToolRegistry.{
  AgentTool, get_tool, ToolExecutionResult, accessible, execute, accessible_tools,
  get_tools_for_role,
}
use agentcompany.Tests.Fixtures.{World, echo, python, registry, new_world, answers}
use agentcompany.Engine.ToolRegistry.Access.{get_tools_for_role_iff, IsOffered, execute_answers}
use agentcompany.Json.{end, Json, str}
use agentcompany.Exec.{ok}

abbrev free : AgentTool World
free = record {
  name = "free";
  description = "Echoes.";
  parameters = end;
  required_roles = [];
  handler = λ arguments. answers (str "free");
}

get_tools_for_role_iff_example :
    Member echo (echo ∷ [])
    ↔ ((name : String) × Member (name, echo) registry × IsOffered python "ceo" echo)
unfolding get_tools_for_role accessible_tools accessible
get_tools_for_role_iff_example = get_tools_for_role_iff python "ceo" echo registry (echo ∷ []) refl

execute_answers_example :
    (r : ToolExecutionResult) × ((execute python
        (λ e. "error")
        registry
        "echo"
        end
        "call_1"
        new_world).0
      ≡ ok r)
    × (r.tool_name ≡ "echo")
    × (r.call_id ≡ "call_1")
    × ((r.success ≡ true) ↔ (
        (tool : AgentTool World) × (v : Json) × (get_tool "echo" registry ≡ some tool)
        × ((tool.handler end new_world).0 ≡ ok v)))
execute_answers_example =
    execute_answers python (λ e. "error") registry (λ v e h. cc) "echo" "call_1" end new_world
