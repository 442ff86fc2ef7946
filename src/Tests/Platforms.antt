-- ===== src/Tests/Platforms.antt =====
-- Adapters of platforms, the tools of a company, and Anthropic's form of a conversation.
use agentcompany.Prelude.{
  ◌≡◌, ◌≢◌, refl, String, List, some, none, [], ◌∷◌, true, inl, inr, eq_iff, Member, contains,
}
use mathlib.Core.List.{◌++◌}
use agentcompany.Exec.{◌>>=◌, ok, raise_if}
use agentcompany.Json.{end, null, get, truthy}
use agentcompany.Engine.ToolDefinitions.{Platform, send_message}
use agentcompany.Adapters.Registry.{
  Adapters, AdapterClasses, AdapterRegistry, register, register_class, deregister, put_adapter,
  get_optional,
}
use agentcompany.Engine.ToolRegistry.{
  register as register_tool, ToolRegistry, AgentTool, list_tools,
}
use agentcompany.Adapters.Registry.Refinement.{
  view, apply_all, assigned, Steps, removed, and_then, registry_refines, registers, deregisters,
  done,
}
use agentcompany.Engine.Llm.{Message}
use agentcompany.Engine.Llm.Alternation.{IsConversation, Alternates, normalize_messages-Alternates}
use agentcompany.Tests.Fixtures.{World, message, answers, new_world, python, worker}
use agentcompany.Engine.Llm.Anthropic.{normalize_messages}
use agentcompany.Engine.ToolDefinitions.Catalog.{
  build_registry_for_company, register_all, mattermost_tools,
}
use agentcompany.Engine.ToolDefinitions.Offers.{
  where_found, plane_names, outline_names, mattermost_names, meili_names, build_registry_lists,
}
use agentcompany.Engine.ToolDefinitions.Required.{Refuses, registry_enforces_schemas, required_keys}
use agentcompany.Engine.AgentLoop.Loop.{run, definitions}
use agentcompany.Tests.Runs.{loop, trigger}
use agentcompany.Engine.AgentLoop.Conversation.{run-Alternates}

abbrev platform : Platform World
platform method arguments = answers null

abbrev adapters : Adapters (Platform World)
adapters = (("acme", "mattermost"), platform) ∷ []

build_registry_lists_example :
    (r : ToolRegistry World) × (build_registry_for_company python adapters "acme" ≡ ok r)
    × (list_tools r
        ≡ where_found (get_optional "acme" "plane" adapters) plane_names
          ++ (where_found (get_optional "acme" "outline" adapters) outline_names
              ++ (where_found (get_optional "acme" "mattermost" adapters) mattermost_names
                  ++ where_found (get_optional "acme" "meilisearch" adapters) meili_names)))
build_registry_lists_example = build_registry_lists python adapters "acme" refl

registered :
    (r : ToolRegistry World) × (build_registry_for_company python adapters "acme" ≡ ok r)
    × ((tool : AgentTool World) × Member ("send_message", tool) r
        × (tool.handler ≡ send_message python platform)
        × (contains (required_keys tool) "channel_id" ≡ true))
unfolding build_registry_for_company register_all register_tool mattermost_tools get_optional get
registered = (_, refl, (_, inl refl, refl, refl))

abbrev sent : String
sent = "send_message"

not_create_document : sent ≢ "create_document"
not_create_document e = cc ((eq_iff "send_message" "create_document").1 e)

-- A call without arguments.
registry_enforces_schemas_example : Refuses registered.2.0.handler end new_world
unfolding get truthy
registry_enforces_schemas_example =
    registry_enforces_schemas python adapters "acme" registered.0 registered.1 "send_message"
      registered.2.0 registered.2.1 not_create_document "channel_id" registered.2.3 end new_world
      refl

abbrev classes : AdapterClasses String World
classes = record {
  construct = λ tool. some (λ config. answers tool);
  shutdown = λ a. answers tt;
  health_check = λ a. answers true;
  known = "plane";
}

abbrev empty_registry : AdapterRegistry String World
empty_registry = record { adapters = []; world = new_world }

abbrev plane_registry : AdapterRegistry String World
plane_registry = (register classes "acme" "plane" end empty_registry).1

-- One adapter is registered and taken away again.
registered_and_removed :
    Steps classes empty_registry
      (assigned "acme" "plane" "plane" ∷ removed "acme" "plane" ∷ [])
      (deregister classes "acme" "plane" plane_registry).1
unfolding register register_class put_adapter raise_if deregister ◌>>=◌
registered_and_removed =
    and_then (registers {r = empty_registry} {c = "acme"} {t = "plane"} end refl)
      (and_then (deregisters {r = plane_registry} {c = "acme"} {t = "plane"} refl) done)

registry_refines_example :
    view classes (deregister classes "acme" "plane" plane_registry).1 "acme" "plane"
    ≡ apply_all classes
        (assigned "acme" "plane" "plane" ∷ removed "acme" "plane" ∷ [])
        (view classes empty_registry)
        "acme"
        "plane"
registry_refines_example = registry_refines classes registered_and_removed "acme" "plane"

abbrev turns : List Message
turns =
    message "Hello"
    ∷ record { role = "assistant"; content = "Let me see"; tool_call_id = none }
    ∷ record { role = "tool"; content = "one"; tool_call_id = some "call_1" }
    ∷ record { role = "tool"; content = "two"; tool_call_id = some "call_2" }
    ∷ []

turns-IsConversation : IsConversation turns
turns-IsConversation = (refl, inl (refl, refl, inr (refl, inr (refl, tt))))

normalize_messages-Alternates_example : Alternates true (normalize_messages turns)
normalize_messages-Alternates_example = normalize_messages-Alternates turns turns-IsConversation

-- A run without tools.
run-Alternates_example : Alternates true (
    normalize_messages
      (run loop "agt_1" "system" (definitions []) trigger none worker new_world).1.context.messages)
run-Alternates_example =
    run-Alternates loop "agt_1" "system" (definitions []) trigger none worker new_world
