-- ===== src/Engine/EngineService/Agents.antt =====
-- engine_service.py: an agent that is started or stopped.
use Prim.Native.String.{◌++◌}
use agentcompany.Prelude.{String, Option, Bool, some, none, if◌then◌else◌, is_empty, or_else}
use agentcompany.Exec.{
  Exec, otherwise, pure, throw, ok, ◌>>=◌, ◌>>◌, lift, engine_error, raise_if, raise, value_error,
  invalid_transition,
}
use agentcompany.Engine.Heartbeat.Service.{deregister_agent}
use agentcompany.Exec.States.{active, configured}
use agentcompany.Engine.StateMachine.{state_machine, transition}
use agentcompany.Engine.EngineService.{
  Database, EngineService, state_of_status, write_transition, publish_state_changed,
}

module _ {W : Type 0} (db : Database W) where
  open db use {
    select_status, set_active, insert_transition, select_agents, text_of, error_text, is_within,
  }

  -- `sm.transition` to ACTIVE, from the state CONFIGURED that the call is given.
  unfoldable pub validate_start : String → Option String → Exec W Unit
  validate_start agent_id by = do
    sm ← lift (state_machine agent_id configured)
    elim (transition active "api_start" by sm).0 [
      | ok _ ↦ pure tt
      | raise (invalid_transition i a b) ↦
          throw (engine_error (error_text (invalid_transition i a b)))
      | raise e ↦ throw e
    ]

  -- `reason or (...)`
  abbrev pub stop_reason : Bool → Option String → String
  stop_reason drain why =
      let given = or_else why "" in
      if is_empty given then if drain then "drain_stop" else "immediate_stop" else given

  module _ (service : EngineService W) where
    open service use {heartbeat, bus}

    -- What `start_agent` does of a row.
    unfoldable pub start_row : String → Option String → Option String → Exec W Unit
    start_row agent_id by none =
        throw (engine_error ("Agent '" ++ (agent_id ++ "' not found in engine start path")))
    start_row agent_id by (some status) = elim (state_of_status status) [
      | none ↦ throw (
          engine_error
            ("Agent '" ++ (agent_id ++ ("' has unrecognised status '" ++ (status ++ "'")))))
      | some _ ↦ (do
        validate_start agent_id by
        set_active agent_id
        write_transition db agent_id "configured" "active" "api_start" by
        publish_state_changed db service agent_id "configured" "active" "api_start" by)
    ]

    unfoldable pub start_agent : String → Option String → Exec W Unit
    start_agent agent_id by = do
      raise_if (is_empty agent_id) (value_error "agent_id must not be empty")
      row ← select_status agent_id
      start_row agent_id by row

    -- The deregistration, whose exceptions are passed over.
    abbrev pub stop_heartbeat : String → Exec W Unit
    stop_heartbeat agent_id = elim heartbeat [
      | none ↦ pure tt
      | some h ↦ otherwise (deregister_agent h agent_id) tt
    ]

    unfoldable pub stop_agent : String → Bool → Option String → Option String → Exec W Unit
    stop_agent agent_id drain why by = do
      raise_if (is_empty agent_id) (value_error "agent_id must not be empty")
      write_transition db agent_id "active" "idle" (stop_reason drain why) by
      stop_heartbeat agent_id
      publish_state_changed db service agent_id "active" "idle" (stop_reason drain why) by
