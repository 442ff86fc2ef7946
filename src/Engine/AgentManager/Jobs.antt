-- ===== src/Engine/AgentManager/Jobs.antt =====
-- agent_manager.py: what `terminate` does to the jobs of an agent.
use agentcompany.Prelude.{
  ◌≡◌, refl, ◌≢◌, String, Option, some, lookup, none, ne→==_false, ◌∙◌, ap, eq_refl, arith,
}
use agentcompany.Engine.AgentManager.{AgentManager, terminate, AgentRecord, change_state}
use agentcompany.Engine.Heartbeat.Schedule.{KeepsJobs, deregister_agent_lem}
use agentcompany.Exec.{
  bind_of_raise, bind_of_ok, invalid_transition, raise_if, ok, raise, invalid_transition,
  bind_of_ok, bind_of_raise, raise_if_passes,
}
use agentcompany.Exec.States.{created, terminated}
use agentcompany.Engine.Heartbeat.Service.{heartbeat_job, schedule_job, deregister_agent}
use agentcompany.Engine.AgentManager.Transitions.{change_state_refused}
use agentcompany.Engine.StateMachine.Lifecycle.{⟶→among, ◌⟶◌}
use agentcompany.Engine.StateMachine.{valid_transitions}

-- There is no edge from CREATED to TERMINATED.
stuck : ¬ (created ⟶ terminated)
unfolding valid_transitions
stuck edge = let e = ⟶→among edge in cc

module _ {W : Type 0} (manager : AgentManager W) (lawful : KeepsJobs manager.heartbeat) where
  open lawful use {jobs}

  refused_termination :
      (agent_id why : String) (by : Option String) (agent : AgentRecord) (w : W)
      → agent_id ≢ ""
      → why ≢ ""
      → ((v : W) → manager.get_agent agent_id v ≡ (ok (some agent), v))
      → agent.state ≡ created
      → (deregister_agent manager.heartbeat agent_id w).0 ≡ ok tt
      → terminate manager agent_id why by w ≡ (
        raise (invalid_transition agent_id agent.state terminated),
        (deregister_agent manager.heartbeat agent_id w).1,
      )
  unfolding terminate
  refused_termination agent_id why by agent w named reason found state returned =
      let w₁ = (deregister_agent manager.heartbeat agent_id w).1 in
      bind_of_ok (raise_if _ _) _ (raise_if_passes _ _ w (ne→==_false reason))
      ∙ bind_of_ok (deregister_agent manager.heartbeat agent_id) _ (ap (λ r. (r, w₁)) returned)
      ∙ bind_of_raise (change_state manager agent_id terminated why by) _ (
          change_state_refused manager agent_id terminated why by agent w₁ named reason (found w₁)
            (λ edge. stuck (rw state at edge)))

  -- A termination of an agent that is CREATED is refused, but the agent's jobs are gone by then: the
  -- heartbeat is deregistered before the transition is tried.
  terminate_refused :
      (agent_id why : String) (by : Option String) (agent : AgentRecord) (w : W)
      → agent_id ≢ ""
      → why ≢ ""
      → ((v : W) → manager.get_agent agent_id v ≡ (ok (some agent), v))
      → agent.state ≡ created
      → ((terminate manager agent_id why by w).0
          ≡ raise (invalid_transition agent_id created terminated))
        × (lookup (heartbeat_job agent_id) (jobs (terminate manager agent_id why by w).1) ≡ none)
        × (lookup (schedule_job agent_id) (jobs (terminate manager agent_id why by w).1) ≡ none)
  terminate_refused agent_id why by agent w named reason found state =
      let gone =
        λ (id : String). deregister_agent_lem manager.heartbeat lawful agent_id w id named in
      rw (refused_termination agent_id why by agent w named reason found state (gone "").0) (
        ap (λ a. raise (invalid_transition agent_id a terminated)) state,
        rw ((gone (heartbeat_job agent_id)).1, eq_refl (heartbeat_job agent_id)) refl,
        rw ((gone (schedule_job agent_id)).1, eq_refl (schedule_job agent_id)) (ground arith),
      )
