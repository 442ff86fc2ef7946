-- ===== src/Engine/EngineService.antt =====
-- services/agent-runtime/app/engine/engine_service.py: the facade of the engine for the API and for
-- the trigger consumer. The statements, the clock and Python's texts of values are given.
pub mod Agents
pub mod Triggers
pub mod Starting
pub mod Fanout
pub mod Delivery
use Prim.Native.String.{◌++◌}
use agentcompany.Prelude.{
  String, Option, Bool, List, some, none, if◌then◌else◌, is_empty, ◌∷◌, [], ℕ, ◌+◌, or_else, ◌==◌,
  false, true, ◌||◌, ◌≡◌, ap,
}
use agentcompany.Exec.{
  Exec, Result, otherwise, pure, throw, ok, ◌>>=◌, ◌>>◌, Error, lift, engine_error, raise_if, raise,
  foreign, value_error, type_error, invalid_transition,
}
use agentcompany.Json.{
  Fields, Json, Items, end, arr, get, null, truthy, obj, cons, field, str, equals, put, nil,
}
use agentcompany.Engine.Heartbeat.Service.{
  HeartbeatService, deregister_agent, enqueue_manual_trigger,
}
use agentcompany.Exec.States.{AgentState, active, configured, paused, error}
use agentcompany.Engine.Heartbeat.{TriggerMessage}
use agentcompany.Core.{EventBus, publish}
use agentcompany.Engine.StateMachine.{state_machine, transition}

-- A row that `_write_transition` inserts; its `transitioned_at` is the database's `NOW()`.
pub record TransitionRow : Type 0 where
  pub agent_id : String
  pub from_state : String
  pub to_state : String
  pub reason : String
  pub triggered_by : Option String

pub record AgentRow : Type 0 where
  pub id : String
  pub llm_config : Option Fields

-- The statements of the service, in a session: the status of an agent that is not deleted, the
-- update to "active", the insertion of a transition, and the agents of a company that are active or
-- idle. `text_of` and `error_text` are `str` of a value and of an exception; `is_within s t` is
-- `s in t` for texts.
pub record Database (W : Type 0) : Type 0 where
  pub select_status : String → Exec W (Option String)
  pub set_active : String → Exec W Unit
  pub insert_transition : TransitionRow → Exec W Unit
  pub select_agents : String → Exec W (List AgentRow)
  pub text_of : Json → String
  pub error_text : Error → String
  pub is_within : String → String → Bool

pub record EngineService (W : Type 0) : Type 0 where
  pub heartbeat : Option (HeartbeatService W)
  pub bus : Option (EventBus W)

unfoldable pub set_heartbeat_service :
    {W : Type 0} → HeartbeatService W → EngineService W → EngineService W
set_heartbeat_service heartbeat service = record service { heartbeat = some heartbeat }

unfoldable pub shutdown : {W : Type 0} → EngineService W → EngineService W
shutdown service = record { heartbeat = none; bus = none }

-- `_ORM_STATUS_TO_STATE.get(status)`
unfoldable pub state_of_status : String → Option AgentState
state_of_status status =
    if status == "idle" || status == "active" || status == "stopping"
    then some active
    else if status == "starting"
    then some configured
    else if status == "paused"
    then some paused
    else if status == "error"
    then some error
    else none

abbrev pub some_text : Option String → Json
some_text none = null
some_text (some s) = str s

module _ {W : Type 0} (db : Database W) where
  open db use {
    select_status, set_active, insert_transition, select_agents, text_of, error_text, is_within,
  }

  -- `_write_transition`
  unfoldable pub write_transition : String → String → String → String → Option String → Exec W Unit
  write_transition agent_id from_status to_status why by =
      otherwise
        (insert_transition (record {
          agent_id = agent_id;
          from_state = from_status;
          to_state = to_status;
          reason = why;
          triggered_by = by;
        }))
        tt

  -- `try: m` with `except Exception as exc: raise EngineError(prefix + str(exc))`.
  unfoldable pub or_engine_error : {A : Type 0} → String → Exec W A → Exec W A
  or_engine_error prefix m w =
      let (r, w') = m w in
      elim r [ ok a ↦ (ok a, w') | raise e ↦ (raise (engine_error (prefix ++ error_text e)), w') ]

  -- A call that returns is left alone.
  pub or_engine_error_ok :
      {A : Type 0} (prefix : String) (m : Exec W A) {w w' : W} {a : A}
      → m w ≡ (ok a, w')
      → or_engine_error prefix m w ≡ (ok a, w')
  unfolding or_engine_error
  or_engine_error_ok {A} prefix m e =
      ap
        (λ (x : Result A × W). elim x.0 as (λ _. Result A × W) [
          | ok b ↦ (ok b, x.1)
          | raise y ↦ (raise (engine_error (prefix ++ error_text y)), x.1)
        ])
        e

  module _ (service : EngineService W) where
    open service use {heartbeat, bus}

    -- `_publish_state_changed`
    unfoldable pub publish_state_changed :
        String → String → String → String → Option String → Exec W Unit
    publish_state_changed agent_id from_state to_state why by = elim bus [
      | none ↦ pure tt
      | some b ↦
          otherwise
            (publish b "agent_events" (
              field "type" (str "agent.state_changed") (
                field "agent_id" (str agent_id) (
                  field "from_state" (str from_state) (
                    field "to_state" (str to_state)
                      (field "reason" (str why) (field "triggered_by" (some_text by) end)))))))
            tt
    ]
