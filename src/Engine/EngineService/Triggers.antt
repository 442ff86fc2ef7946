-- ===== src/Engine/EngineService/Triggers.antt =====
-- engine_service.py: triggers of an agent, and of the agents that listen to an event.
use Prim.Native.String.{◌++◌}
use agentcompany.Prelude.{
  String, Option, Bool, List, some, none, if◌then◌else◌, is_empty, ◌∷◌, [], ℕ, ◌+◌, or_else, false,
  true,
}
use agentcompany.Exec.{
  Exec, Result, otherwise, pure, ok, ◌>>=◌, ◌>>◌, lift, raise_if, raise, foreign, value_error,
}
use agentcompany.Json.{occurs_in, Fields, Json, end, get, truthy, obj, field, str, equals, put}
use agentcompany.Engine.Heartbeat.Service.{HeartbeatService, enqueue_manual_trigger}
use agentcompany.Engine.Heartbeat.{TriggerMessage}
use agentcompany.Core.{publish}
use agentcompany.Engine.EngineService.{Database, EngineService, AgentRow, or_engine_error}

-- `v or {}`, of which `get` is called: a value that is true and no dict has no `get`.
abbrev pub dict_of : Option Json → Result Fields
dict_of none = ok end
dict_of (some (obj d)) = ok d
dict_of (some v) = if truthy v then raise (foreign "AttributeError") else ok end

-- Whether the event types of a filter admit an event: none of them admits every event.
abbrev pub admits : (String → String → Bool) → String → Option Json → Result Bool
admits is_within event_type none = ok true
admits is_within event_type (some v) =
    if truthy v then occurs_in is_within event_type v else ok true

-- The tests of the loop of `trigger_by_event`, before the trigger.
unfoldable pub listens : (String → String → Bool) → String → AgentRow → Result Bool
listens is_within event_type row =
    elim (dict_of (get "heartbeat_config" (or_else row.llm_config end))) [
      | raise e ↦ raise e
      | ok config ↦
          if equals (get "mode" config) "event_triggered"
          then (elim (dict_of (get "event_filter" config)) [
            | raise e ↦ raise e
            | ok filter ↦ admits is_within event_type (get "event_types" filter)
          ])
          else ok false
    ]

-- `f"event:{event_type}"`
abbrev pub source_of_event : String → String
source_of_event event_type = "event:" ++ event_type

module _ {W : Type 0} (db : Database W) where
  open db use {
    select_status, set_active, insert_transition, select_agents, text_of, error_text, is_within,
  }

  -- `triggered_by or "api"`
  abbrev pub or_api : Option String → String
  or_api by = let given = or_else by "" in if is_empty given then "api" else given

  -- `trigger.payload.get("company_id", "")`
  abbrev pub company_of : Json → Result Json
  company_of (obj payload) = ok (or_else (get "company_id" payload) (str ""))
  company_of _ = raise (foreign "AttributeError")

  -- The `try` of the loop of `trigger_by_event`: 1 where the trigger was enqueued.
  unfoldable pub trigger_row : HeartbeatService W → String → String → Fields → AgentRow → Exec W ℕ
  trigger_row h company_id event_type event_data row =
      otherwise
        (do
          enqueue_manual_trigger h row.id (put "company_id" (str company_id) event_data)
              (source_of_event event_type)
          pure 1)
        0

  unfoldable pub trigger_rows :
      HeartbeatService W → String → String → Fields → List AgentRow → Exec W ℕ
  trigger_rows h company_id event_type event_data [] = pure 0
  trigger_rows h company_id event_type event_data (row ∷ rows) = do
    wanted ← lift (listens is_within event_type row)
    n ← if wanted then trigger_row h company_id event_type event_data row else pure 0
    m ← trigger_rows h company_id event_type event_data rows
    pure (n + m)

  -- The rows, or none where the query failed.
  abbrev pub found_agents : String → Exec W (Option (List AgentRow))
  found_agents company_id = otherwise (do rows ← select_agents company_id; pure (some rows)) none

  module _ (service : EngineService W) where
    open service use {heartbeat, bus}

    unfoldable pub trigger_agent : String → Fields → Option String → Exec W String
    trigger_agent agent_id event_data by = do
      raise_if (is_empty agent_id) (value_error "agent_id must not be empty")
      elim heartbeat [
        | none ↦ pure ("local_" ++ agent_id)
        | some h ↦
            or_engine_error db ("Failed to enqueue trigger for agent '" ++ (agent_id ++ "': "))
              (enqueue_manual_trigger h agent_id event_data (or_api by))
      ]

    -- The event of `dispatch_trigger`, where there is a bus and the company is true.
    abbrev pub announce : TriggerMessage → Json → Exec W Unit
    announce trigger company_id = elim bus [
      | none ↦ pure tt
      | some b ↦
          if truthy company_id
          then otherwise
              (publish b (text_of company_id) (
                field "type" (str "agent.triggered") (
                  field "agent_id" (str trigger.agent_id) (
                    field "trigger_id" (str trigger.trigger_id) (
                      field "trigger_type" (str trigger.trigger_type)
                        (field "source" (str trigger.source) end))))))
              tt
          else pure tt
    ]

    -- `dispatch_trigger` of a trigger that is not None.
    unfoldable pub dispatch_trigger : TriggerMessage → Exec W Unit
    dispatch_trigger trigger = do
      raise_if (is_empty trigger.agent_id) (value_error "trigger.agent_id must not be empty")
      company_id ← lift (company_of trigger.payload)
      announce trigger company_id

    unfoldable pub trigger_by_event : String → String → Fields → Exec W ℕ
    trigger_by_event company_id event_type event_data = do
      raise_if (is_empty company_id) (value_error "company_id must not be empty")
      raise_if (is_empty event_type) (value_error "event_type must not be empty")
      elim heartbeat [
        | none ↦ pure 0
        | some h ↦ (do
          found ← found_agents company_id
          elim found [
            | none ↦ pure 0
            | some rows ↦ trigger_rows h company_id event_type event_data rows
          ])
      ]
