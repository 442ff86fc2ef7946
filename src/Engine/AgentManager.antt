-- ===== src/Engine/AgentManager.antt =====
-- services/agent-runtime/app/engine/agent_manager.py: the lifecycle of the stored agents. The
-- repository, the pool, the event bus and the heartbeat service are given; `created_at` is left out.
pub mod Transitions
pub mod Jobs
use Prim.Native.String.{◌++◌}
use agentcompany.Prelude.{
  ◌≡◌, String, Option, Bool, List, some, if◌then◌else◌, none, is_empty, ◌∷◌, [],
}
use agentcompany.Exec.States.{
  AgentState, configured, active, running, terminated, error, paused, created,
}
use agentcompany.Exec.{
  Exec, ◌>>◌, ◌>>=◌, raise_if, lift, pure, throw, foreign, value_error, total, otherwise, Error,
}
use agentcompany.Engine.Heartbeat.{HeartbeatConfig}
use agentcompany.Engine.StateMachine.{StateTransition, state_machine, transition}
use agentcompany.Engine.Heartbeat.Service.{HeartbeatService, register_agent, deregister_agent}
use agentcompany.Prelude.Int.{ℤ, ltb_ℤ, pos}
use agentcompany.Json.{Fields, take_chars}

pub record AgentRecord : Type 0 where
  pub agent_id : String
  pub company_id : String
  pub role : String
  pub display_name : String
  pub platform_user_id : String
  pub state : AgentState
  pub heartbeat_config : HeartbeatConfig
  pub llm_adapter_id : String
  pub system_prompt : String
  pub token_budget_daily : ℤ
  pub token_budget_monthly : ℤ
  pub metadata : Fields

-- The statements of the transaction of `_transition`.
pub data Statement : Type 0 where
  update_status : AgentState → String → Statement
  insert_transition : StateTransition → Statement

-- `new_suffix` is `uuid.uuid4().hex[:12]`; `transact` runs its statements in one transaction;
-- `publish` sends `agent.state_changed` with the company and the transition.
pub record AgentManager (W : Type 0) : Type 0 where
  pub get_agent : String → Exec W (Option AgentRecord)
  pub create_agent : AgentRecord → Exec W Unit
  pub heartbeat : HeartbeatService W
  pub publish : String → StateTransition → Exec W Unit
  pub transact : List Statement → Exec W Unit
  pub new_suffix : W → String × W

-- `agent.heartbeat_config`, where `agent` may be None.
abbrev config_of : {W : Type 0} → Option AgentRecord → Exec W HeartbeatConfig
config_of (some agent) = pure agent.heartbeat_config
config_of none = throw (foreign "AttributeError")

abbrev pub not_found : String → Error
not_found agent_id = value_error ("Agent " ++ (agent_id ++ " not found"))

module _ {W : Type 0} (manager : AgentManager W) where
  open manager use {get_agent, create_agent, heartbeat, publish, transact, new_suffix}

  -- `create`: its arguments are the fields of the record, but for the id and the state.
  unfoldable pub create : AgentRecord → Exec W AgentRecord
  create given = do
    raise_if (is_empty given.company_id) (value_error "company_id must not be empty")
    raise_if (is_empty given.role) (value_error "role must not be empty")
    raise_if (is_empty given.display_name) (value_error "display_name must not be empty")
    raise_if (ltb_ℤ given.token_budget_daily (pos 0))
        (value_error "token_budget_daily must be >= 0")
    raise_if (ltb_ℤ given.token_budget_monthly (pos 0))
        (value_error "token_budget_monthly must be >= 0")
    suffix ← total new_suffix
    let agent = record given { agent_id = "agt_" ++ suffix; state = created }
    create_agent agent
    pure agent

  -- `_transition` of an agent that was found.
  unfoldable pub apply_transition :
      String → AgentState → String → Option String → AgentRecord → Exec W StateTransition
  apply_transition agent_id to why by agent = do
    sm ← lift (state_machine agent_id agent.state)
    t ← lift (transition to why by sm).0
    transact (update_status to agent_id ∷ insert_transition t ∷ [])
    otherwise (publish agent.company_id t) tt
    pure t

  -- `_transition`
  unfoldable pub change_state :
      String → AgentState → String → Option String → Exec W StateTransition
  change_state agent_id to why by = do
    found ← get_agent agent_id
    elim found [
      | none ↦ throw (not_found agent_id)
      | some agent ↦ apply_transition agent_id to why by agent
    ]

  unfoldable pub configure : String → Option String → Exec W Unit
  configure agent_id by = do change_state agent_id configured "configuration_complete" by; pure tt

  unfoldable pub activate : String → Option String → Exec W Unit
  activate agent_id by = do
    agent ← get_agent agent_id
    change_state agent_id active "activation" by
    config ← config_of agent
    register_agent heartbeat agent_id config

  unfoldable pub pause : String → String → Option String → Exec W Unit
  pause agent_id why by = do
    raise_if (is_empty why) (value_error "A reason must be provided when pausing an agent")
    change_state agent_id paused why by
    deregister_agent heartbeat agent_id

  unfoldable pub resume : String → Option String → Exec W Unit
  resume agent_id by = do
    agent ← get_agent agent_id
    change_state agent_id active "resumed" by
    config ← config_of agent
    register_agent heartbeat agent_id config

  unfoldable pub mark_running : String → String → Exec W Unit
  mark_running agent_id run_id = do change_state agent_id running "run_start" (some run_id); pure tt

  unfoldable pub mark_complete : String → String → Exec W Unit
  mark_complete agent_id run_id = do
    change_state agent_id active "task_complete" (some run_id)
    pure tt

  unfoldable pub mark_error : String → String → String → Bool → Exec W Unit
  mark_error agent_id run_id message fatal = do
    change_state agent_id (if fatal then terminated else error) ("error:" ++ take_chars 200 message)
        (some run_id)
    if fatal then pure tt else deregister_agent heartbeat agent_id

  unfoldable pub terminate : String → String → Option String → Exec W Unit
  terminate agent_id why by = do
    raise_if (is_empty why) (value_error "A reason must be provided when terminating an agent")
    deregister_agent heartbeat agent_id
    change_state agent_id terminated why by
    pure tt
