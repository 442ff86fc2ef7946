-- ===== src/Tests/Lifecycle.antt =====
-- Attempts of a new agent.
use agentcompany.Prelude.{◌≡◌, refl, List, none, [], ◌∷◌, some}
use agentcompany.Engine.StateMachine.Lifecycle.{
  Ends, Chain, attempts, Attempt, transition-Ends, Visits, attempts-Chain, running_needs_setup,
  terminated_absorbs,
}
use agentcompany.Engine.StateMachine.Cycles.{Reaches, live_connected}
use agentcompany.Engine.StateMachine.{AgentStateMachine, transition, valid_transitions}
use agentcompany.Exec.States.{running, created, terminated, configured, active, paused, error}
use agentcompany.Tests.Fixtures.{worker, idle}

abbrev todo : List Attempt
todo =
    (configured, "configured", none)
    ∷ (running, "too early", none)
    ∷ (active, "activated", none)
    ∷ (running, "started", some "run_1")
    ∷ []

transition-Ends_example :
    Ends running "started" none worker (transition running "started" none worker)
transition-Ends_example = transition-Ends running "started" none worker

attempts-Chain_example : Chain created (attempts idle todo).0 (attempts idle todo).1.state
attempts-Chain_example = attempts-Chain todo idle

running_needs_setup_example :
    Visits configured (attempts idle todo).0 × Visits active (attempts idle todo).0
unfolding attempts transition valid_transitions
running_needs_setup_example = running_needs_setup todo idle refl refl

terminated_absorbs_example :
    attempts (record { agent_id = "agt_1"; state = terminated }) todo
    ≡ ([], record { agent_id = "agt_1"; state = terminated })
terminated_absorbs_example =
    terminated_absorbs todo (record { agent_id = "agt_1"; state = terminated }) refl

abbrev paused_worker : AgentStateMachine
paused_worker = record { agent_id = "agt_1"; state = paused }

live_connected_example : Reaches paused_worker error × Reaches paused_worker terminated
live_connected_example =
    live_connected paused_worker error ((λ e. cc), (λ e. cc)) ((λ e. cc), (λ e. cc))
