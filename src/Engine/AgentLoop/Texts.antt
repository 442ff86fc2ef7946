-- ===== src/Engine/AgentLoop/Texts.antt =====
-- agent_loop.py: the texts that a run starts from.
use Prim.Native.String.{◌++◌}
use agentcompany.Prelude.{String, List, or_else, ◌∷◌, if◌then◌else◌, [], map, is_empty, none}
use agentcompany.Json.{Fields, Builtins, Json, take_chars, obj, get, end, str, join, truthy}
use agentcompany.Engine.AgentLoop.{Trigger}
use agentcompany.Exec.{Result, ok, raise, type_error}
use agentcompany.Engine.Memory.{MemoryEntry}
use agentcompany.Engine.Llm.{Message}

-- `payload.get(key, "")`
abbrev field_of : String → Fields → Json
field_of key payload = or_else (get key payload) (str "")

-- The truthy parts of the comprehension; `" ".join` refuses what is not a text.
abbrev texts : List Json → Result (List String)
texts [] = ok []
texts (v ∷ vs) =
    let rest = texts vs in
    if truthy v
    then elim v [
      | str s ↦ elim rest [ ok ss ↦ ok (s ∷ ss) | raise e ↦ raise e ]
      | _ ↦ raise type_error
    ]
    else rest

-- `_trigger_summary`
unfoldable pub trigger_summary : Trigger → Result String
trigger_summary t = elim (or_else t.payload (obj end)) [
  | obj payload ↦
      elim (texts (
        str (or_else t.type "") ∷ field_of "title" payload ∷ field_of "description" payload ∷ [])) [
          | ok parts ↦ ok (join " " parts)
          | raise e ↦ raise e
        ]
  | _ ↦ ok (or_else t.type "unknown trigger")
]

-- The texts of `_reflect`, of the budget branch and of a new run id.
abbrev pub run_summary : String → String → String → String
run_summary run_id trigger_type content =
    "Run " ++ (run_id ++ (" (trigger=" ++ (trigger_type ++ ("): " ++ take_chars 500 content))))

abbrev pub with_run : String → String
with_run id = "run_" ++ id

abbrev pub over_budget : String → String
over_budget reason = "budget_exceeded:" ++ reason

abbrev pub paused_message : String → String → String
paused_message reason remaining =
    "Paused: " ++ (reason ++ (". Remaining daily tokens: " ++ remaining))

module _ (py : Builtins) where
  -- `task_description`
  abbrev task_description : Json → String
  task_description (obj payload) = py.strip (
      py.text_of (field_of "title" payload)
      ++ ("\n" ++ py.text_of (field_of "description" payload)))
  task_description (str s) = s
  task_description _ = ""

  abbrev memory_block : {F E : Type 0} → List (MemoryEntry F E) → String
  memory_block [] = ""
  memory_block (m ∷ ms) =
      "\n## Relevant Memory\n"
      ++ (join "\n" (map (λ (e : MemoryEntry _ _). "- " ++ e.content) (m ∷ ms)) ++ "\n")

  -- `_build_initial_messages`
  unfoldable pub build_initial_messages :
      {F E : Type 0} → Trigger → List (MemoryEntry F E) → List Message
  build_initial_messages t memories =
      let task = task_description (or_else t.payload (obj end)) in
      record {
        role = "user";
        content =
            memory_block memories
            ++ ("\n## Current Task\n"
                ++ (if is_empty task then "No task description provided." else task));
        tool_call_id = none;
      }
      ∷ []
