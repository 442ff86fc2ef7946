-- ===== src/Engine/AgentLoop.antt =====
-- services/agent-runtime/app/engine/agent_loop.py: one run of an agent, Observe-Think-Act-Reflect.
-- The run's context, the state machine and the world of the services are one state; a clock is used
-- for budget keys alone, and `started_at` and `completed_at` are left out.
mod Texts
pub mod Loop
mod Steps
pub mod Outcomes
pub mod Refusals
mod Turns
pub mod Conversation
use Prim.Native.String.{◌++◌}
use agentcompany.Prelude.{String, Option, Bool, List, ℕ, if◌then◌else◌}
use agentcompany.Json.{Builtins, Json}
use agentcompany.Engine.StateMachine.{AgentStateMachine, transition}
use agentcompany.Exec.{Exec, Result, ok, Error, raise, invalid_transition, value_error}
use agentcompany.Exec.States.{AgentState}
use agentcompany.Engine.Llm.{Message, Adapter}
use agentcompany.Prelude.Int.{ℤ, ltb_ℤ, pos, pos_part}
use agentcompany.Engine.CostTracker.Floats.{FloatOps}
use agentcompany.Engine.CostTracker.{Clock, UsageRecord, CostTracker}
use agentcompany.Engine.CostTracker.Counters.{Redis}
use agentcompany.Engine.ToolRegistry.{ToolRegistry}
use agentcompany.Engine.Memory.{MemoryServices}

-- The keys that the code reads of the trigger dict.
pub record Trigger : Type 0 where
  pub trigger_id : Option String
  pub type : Option String
  pub payload : Option Json

pub record ToolResult : Type 0 where
  pub tool_name : String
  pub tool_call_id : String
  pub output : String
  pub success : Bool

pub record AgentContext (F : Type 0) : Type 0 where
  pub run_id : String
  pub agent_id : String
  pub trigger : Trigger
  pub messages : List Message
  pub tool_results : List ToolResult
  pub step_count : ℕ
  pub tokens_used : ℤ
  pub cost_usd : F

-- "completed" | "max_steps" | "budget_exceeded" | "error"
pub data Outcome : Type 0 where
  completed max_steps budget_exceeded failed : Outcome

-- `error` is the exception whose text the source stores.
pub record LoopResult (F : Type 0) : Type 0 where
  pub run_id : String
  pub agent_id : String
  pub outcome : Outcome
  pub steps_taken : ℕ
  pub tokens_used : ℤ
  pub cost_usd : F
  pub final_message : Option String
  pub error : Option Error

-- `LoopResult(...)` with the run's totals.
unfoldable pub result :
    {F : Type 0} → Outcome → Option String → Option Error → AgentContext F → LoopResult F
result outcome final_message error c = record {
  run_id = c.run_id;
  agent_id = c.agent_id;
  outcome = outcome;
  steps_taken = c.step_count;
  tokens_used = c.tokens_used;
  cost_usd = c.cost_usd;
  final_message = final_message;
  error = error;
}

-- `self` of a loop: what it was constructed with. `describe` is `str(exc)` and `float_text` is `str`
-- of a float.
pub record AgentDecisionLoop (F E W : Type 0) : Type 0 where
  pub py : Builtins
  pub ops : FloatOps F
  pub describe : Error → String
  pub float_text : F → String
  pub clock : Clock W
  pub redis : Redis F W
  pub insert_usage : UsageRecord F → Exec W Unit
  pub llm : Adapter F W
  pub tools : ToolRegistry W
  pub memory : MemoryServices F E W
  pub memory_owner : String
  pub cost_tracker : CostTracker F
  pub max_steps : ℕ

-- The state of a run.
pub record Run (F W : Type 0) : Type 0 where
  pub context : AgentContext F
  pub machine : AgentStateMachine
  pub world : W

module _ {F W : Type 0} where
  -- A call of a service.
  unfoldable pub on_world : {A : Type 0} → Exec W A → Exec (Run F W) A
  on_world m s = let (r, w') = m s.world in (r, record s { world = w' })

  unfoldable pub update : (AgentContext F → AgentContext F) → Exec (Run F W) Unit
  update f s = (ok tt, record s { context = f s.context })

  unfoldable pub get_context : Exec (Run F W) (AgentContext F)
  get_context s = (ok s.context, s)

  -- `try: transition(...)` with `except InvalidTransitionError: pass`.
  unfoldable pub try_transition : AgentState → String → Option String → Exec (Run F W) Unit
  try_transition to why by s =
      let (r, machine') = transition to why by s.machine in
      (
        elim r [ ok _ ↦ ok tt | raise (invalid_transition _ _ _) ↦ ok tt | raise e ↦ raise e ],
        record s { machine = machine' },
      )

-- The constructor's test of `max_steps`.
unfoldable pub agent_decision_loop :
    {F E W : Type 0} → AgentDecisionLoop F E W → ℤ → Result (AgentDecisionLoop F E W)
agent_decision_loop loop steps =
    if ltb_ℤ steps (pos 1)
    then raise (value_error "max_steps must be >= 1")
    else ok (record loop { max_steps = pos_part steps })
