-- ===== src/Tests/Agents.antt =====
-- The lifecycle of a stored agent.
use agentcompany.Engine.StateMachine.Lifecycle.{start}
use agentcompany.Prelude.{◌≡◌, refl, none, some}
use agentcompany.Exec.States.{AgentState, running, active}
use agentcompany.Engine.AgentManager.{change_state, AgentRecord, AgentManager, apply_transition}
use agentcompany.Engine.StateMachine.{valid_transitions, state_machine, transition}
use agentcompany.Engine.Heartbeat.{manual}
use agentcompany.Tests.Fixtures.{World, answers, new_world}
use agentcompany.Engine.StateMachine.Lifecycle.{◌⟶◌}
use agentcompany.Prelude.Int.{pos}
use agentcompany.Json.{end}
use agentcompany.Exec.{◌>>=◌, ok}
use agentcompany.Tests.Triggers.{service}
use agentcompany.Engine.AgentManager.Transitions.{change_state_valid, moved, change_state_commits}

abbrev stored_agent : AgentState → AgentRecord
stored_agent a = record {
  agent_id = "agt_1";
  company_id = "acme";
  role = "ceo";
  display_name = "Ada";
  platform_user_id = "u1";
  state = a;
  heartbeat_config = record {
    mode = manual;
    interval_seconds = none;
    cron = none;
    filter = none;
    max_run_seconds = pos 300;
  };
  llm_adapter_id = "small";
  system_prompt = "You are the CEO.";
  token_budget_daily = pos 1000;
  token_budget_monthly = pos 5000;
  metadata = end;
}

-- Every id is that of one agent.
abbrev manager : AgentState → AgentManager World
manager a = record {
  get_agent = λ id. answers (some (stored_agent a));
  create_agent = λ r. answers tt;
  heartbeat = service;
  publish = λ company t. answers tt;
  transact = λ statements. answers tt;
  new_suffix = λ w. ("1", w);
}

change_state_valid_example :
    (agent : AgentRecord) × (((manager active).get_agent "agt_1" new_world).0 ≡ ok (some agent))
    × (active ≡ agent.state)
    × (running ≡ running)
    × (agent.state ⟶ running)
unfolding change_state apply_transition state_machine transition valid_transitions ◌>>=◌
change_state_valid_example =
    change_state_valid (manager active) "agt_1" running "run_start" none new_world
      {t = record {
        agent_id = "agt_1";
        from_state = active;
        to_state = running;
        reason = "run_start";
        triggered_by = none;
      }}
      refl

change_state_commits_example :
    change_state (manager active) "agt_1" running "run_start" none new_world
    ≡ (ok (moved "agt_1" (stored_agent active) running "run_start" none), new_world)
unfolding valid_transitions
change_state_commits_example =
    change_state_commits (manager active) "agt_1" running "run_start" none (stored_agent active)
      new_world new_world (λ e. cc) (λ e. cc) refl start refl
