-- ===== src/Engine/Heartbeat/Schedule.antt =====
-- heartbeat.py: the scheduler's jobs of an agent.
use agentcompany.Prelude.{
  ◌≡◌, refl, ◌≢◌, Dict, String, insert, erase, lookup, if◌then◌else◌, ne→==_false, ◌==◌, ◌||◌, none,
  lookup-erase, arith, ◌∙◌, ap, some, lookup-insert,
}
use agentcompany.Engine.Heartbeat.Service.{
  HeartbeatService, deregister_agent, Job, schedule_job, heartbeat_job, register_agent,
  interval_job,
}
use agentcompany.Exec.{◌>>=◌, ok, otherwise, raise_if}
use agentcompany.Exec.Hoare.{
  Triple, returns, triple_bind, triple_otherwise, triple_guard, triple_state,
}
use agentcompany.Engine.Heartbeat.{HeartbeatConfig, always_on}

-- What the documentation of APScheduler says of the calls that the service makes: `add_job` with
-- `replace_existing`, and `remove_job`, which raises where there is no such job.
pub record KeepsJobs {W : Type 0} (service : HeartbeatService W) : Type 0 where
  pub jobs : W → Dict Job
  pub add_ok : (job : Job) (w : W) → (service.add_job job w).0 ≡ ok tt
  pub add_jobs : (job : Job) (w : W) → jobs (service.add_job job w).1 ≡ insert job.id job (jobs w)
  pub remove_jobs : (id : String) (w : W) → jobs (service.remove_job id w).1 ≡ erase id (jobs w)

module _ {W : Type 0} (service : HeartbeatService W) (lawful : KeepsJobs service) where
  open lawful use {jobs, add_ok, add_jobs, remove_jobs}

  removed :
      {js : Dict Job} {X : W → Type 0} (id : String)
      → Triple
          (λ w. jobs w ≡ js)
          (otherwise (service.remove_job id) tt)
          (λ _ w. jobs w ≡ erase id js)
          X
  removed id = triple_otherwise _ _ (triple_state _ (λ w h. remove_jobs id w ∙ ap (erase id) h))

  deregister_agent_jobs :
      {js : Dict Job} (agent_id : String)
      → agent_id ≢ ""
      → Triple
          (λ w. jobs w ≡ js)
          (deregister_agent service agent_id)
          (λ _ w. jobs w ≡ erase (schedule_job agent_id) (erase (heartbeat_job agent_id) js))
          (λ _. ⊥)
  unfolding deregister_agent
  deregister_agent_jobs agent_id ne =
      triple_bind _ _ (triple_guard _ _ (ne→==_false ne))
        (λ _. triple_bind _ _ (removed _) (λ _. removed _))

  -- A deregistration returns whatever the scheduler raises; the agent has no job then, and each
  -- other job is as it was.
  pub deregister_agent_lem :
      (agent_id : String) (w : W) (id : String)
      → agent_id ≢ ""
      → ((deregister_agent service agent_id w).0 ≡ ok tt)
        × (lookup id (jobs (deregister_agent service agent_id w).1) ≡ (
            if heartbeat_job agent_id == id || schedule_job agent_id == id
            then none
            else lookup id (jobs w)))
  deregister_agent_lem agent_id w id ne =
      let x = returns _ _ ((deregister_agent_jobs agent_id ne).at w refl) in
      (
        x.1,
        rw
            (
              x.2,
              lookup-erase (schedule_job agent_id) id (erase (heartbeat_job agent_id) (jobs w)),
              lookup-erase (heartbeat_job agent_id) id (jobs w),
            )
            (ground arith),
      )

  -- The registration of an agent that wakes by an interval returns, adds the one job of the agent
  -- in place of an earlier one, and leaves each other job as it was.
  register_always_on :
      (agent_id : String) (config : HeartbeatConfig) (w : W) (id : String)
      → agent_id ≢ ""
      → config.mode ≡ always_on
      → ((register_agent service agent_id config w).0 ≡ ok tt)
        × (lookup id (jobs (register_agent service agent_id config w).1) ≡ (
            if heartbeat_job agent_id == id
            then some (interval_job agent_id config.interval_seconds)
            else lookup id (jobs w)))
  unfolding register_agent raise_if ◌>>=◌
  register_always_on agent_id config w id ne mode =
      rw (ne→==_false ne, mode) (add_ok _ w, rw (add_jobs _ w) (lookup-insert _ id _ (jobs w)))
