-- ===== src/Engine/StateMachine.antt =====
-- services/agent-runtime/app/engine/state_machine.py: which transitions an agent may make.
pub mod Lifecycle
pub mod Cycles
use agentcompany.Prelude.{
  Bool, true, false, ◌&&◌, ◌||◌, String, Option, List, [], ◌∷◌, is_empty, if◌then◌else◌,
}
use agentcompany.Exec.{
  Result, ok, raise, value_error, invalid_transition, Exec, ◌>>=◌, ◌>>◌, pure, raise_if,
}
use agentcompany.Exec.States.{
  AgentState, created, configured, active, running, paused, error, terminated,
}

-- `==` on the enum.
abbrev pub state_eq : AgentState → AgentState → Bool
state_eq created created = true
state_eq configured configured = true
state_eq active active = true
state_eq running running = true
state_eq paused paused = true
state_eq error error = true
state_eq terminated terminated = true
state_eq _ _ = false

unfoldable pub valid_transitions : List (AgentState × AgentState)
valid_transitions =
    (created, configured)
    ∷ (configured, active)
    ∷ (active, running)
    ∷ (active, paused)
    ∷ (active, terminated)
    ∷ (running, active)
    ∷ (running, paused)
    ∷ (running, terminated)
    ∷ (running, error)
    ∷ (paused, active)
    ∷ (paused, terminated)
    ∷ (error, active)
    ∷ (error, terminated)
    ∷ (active, configured)
    ∷ []

-- `pair in VALID_TRANSITIONS`
abbrev pub among : List (AgentState × AgentState) → AgentState → AgentState → Bool
among [] a b = false
among ((x, y) ∷ ts) a b = state_eq x a && state_eq y b || among ts a b

-- `StateTransition`; its timestamp is left out.
pub record StateTransition : Type 0 where
  pub agent_id : String
  pub from_state : AgentState
  pub to_state : AgentState
  pub reason : String
  pub triggered_by : Option String

-- `AgentStateMachine`: its two fields.
pub record AgentStateMachine : Type 0 where
  pub agent_id : String
  pub state : AgentState

-- The constructor.
unfoldable pub state_machine : String → AgentState → Result AgentStateMachine
state_machine id current =
    if is_empty id
    then raise (value_error "agent_id must not be empty")
    else ok (record { agent_id = id; state = current })

unfoldable pub can_transition_to : AgentStateMachine → AgentState → Bool
can_transition_to sm to = among valid_transitions sm.state to

unfoldable pub transition :
    AgentState → String → Option String → Exec AgentStateMachine StateTransition
transition to why by sm =
    if is_empty why
    then (raise (value_error "A reason must be provided for all state transitions"), sm)
    else if among valid_transitions sm.state to
    then (
      ok (record {
        agent_id = sm.agent_id;
        from_state = sm.state;
        to_state = to;
        reason = why;
        triggered_by = by;
      }),
      record sm { state = to },
    )
    else (raise (invalid_transition sm.agent_id sm.state to), sm)

unfoldable pub is_runnable : AgentStateMachine → Bool
is_runnable sm = state_eq sm.state active

unfoldable pub is_terminal : AgentStateMachine → Bool
is_terminal sm = state_eq sm.state terminated
