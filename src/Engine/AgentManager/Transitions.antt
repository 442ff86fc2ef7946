-- ===== src/Engine/AgentManager/Transitions.antt =====
-- agent_manager.py: which changes of state go through.
use agentcompany.Prelude.{
  ◌≡◌, refl, String, Option, ◌≢◌, some, none, ne→==_false, Bool-cases, is_empty, ◌∙◌, inl, ap, inr,
  sym, ◌∷◌, [],
}
use agentcompany.Engine.AgentManager.{
  AgentManager, apply_transition, change_state, AgentRecord, not_found, update_status,
  insert_transition,
}
use agentcompany.Engine.StateMachine.{
  state_machine, transition, StateTransition, AgentStateMachine, among, valid_transitions,
}
use agentcompany.Exec.States.{AgentState}
use agentcompany.Exec.{
  ok, bind_inversion, Exec, raise, invalid_transition, throw, pure_inversion, lift, Result,
  lift_inversion, bind_of_ok, ok_inj, bind_of_raise, otherwise, pure, otherwise_tt, otherwise_state,
}
use agentcompany.Engine.StateMachine.Lifecycle.{◌⟶◌, Ends, among→⟶, transition-Ends, ⟶→among}

named_machine :
    (id : String) (a : AgentState)
    → id ≢ ""
    → state_machine id a ≡ ok (record { agent_id = id; state = a })
unfolding state_machine
named_machine id a ne = rw (ne→==_false ne) refl

state_machine_inversion :
    (id : String) (a : AgentState) {sm : AgentStateMachine}
    → state_machine id a ≡ ok sm
    → sm.state ≡ a
unfolding state_machine
state_machine_inversion id a h = elim (Bool-cases (is_empty id)) [
  | inl e ↦ cc (rw e at h)
  | inr e ↦ sym (ap (λ (m : AgentStateMachine). m.state) (ok_inj (rw e at h)))
]

transition_inversion :
    (to : AgentState) (why : String) (by : Option String) (sm : AgentStateMachine)
    {t : StateTransition}
    → (transition to why by sm).0 ≡ ok t
    → (t.from_state ≡ sm.state) × (t.to_state ≡ to) × (sm.state ⟶ to)
transition_inversion to why by sm {t} h =
    go (transition to why by sm) (transition-Ends to why by sm) h
  where
    go :
        (x : Result StateTransition × AgentStateMachine)
        → Ends to why by sm x
        → x.0 ≡ ok t
        → (t.from_state ≡ sm.state) × (t.to_state ≡ to) × (sm.state ⟶ to)
    go (ok u, sm') e k = rw⁻¹ (ok_inj k) (e.3, e.4, e.1)
    go (raise e, sm') f k = cc

refused_change :
    (to : AgentState) (why : String) (by : Option String) (sm : AgentStateMachine)
    → why ≢ ""
    → ¬ (sm.state ⟶ to)
    → (transition to why by sm).0 ≡ raise (invalid_transition sm.agent_id sm.state to)
unfolding transition
refused_change to why by sm ne no_edge = elim (Bool-cases (among valid_transitions sm.state to)) [
  | inl e ↦ absurd (no_edge (among→⟶ sm.state to e))
  | inr e ↦ rw (ne→==_false ne, e) refl
]

-- The record of a change.
abbrev pub moved : String → AgentRecord → AgentState → String → Option String → StateTransition
moved agent_id agent to why by = record {
  agent_id = agent_id;
  from_state = agent.state;
  to_state = to;
  reason = why;
  triggered_by = by;
}

accepted_change :
    (agent_id : String) (agent : AgentRecord) (to : AgentState) (why : String) (by : Option String)
    → why ≢ ""
    → agent.state ⟶ to
    → (transition to why by (record { agent_id = agent_id; state = agent.state })).0
      ≡ ok (moved agent_id agent to why by)
unfolding transition
accepted_change agent_id agent to why by ne edge = rw (ne→==_false ne, ⟶→among edge) refl

-- A call whose exceptions are caught returns.
published : {W : Type 0} (m : Exec W (Unit {0})) (w : W) → otherwise m tt w ≡ (ok tt, (m w).1)
published m w = let r = otherwise_tt m w in let s = otherwise_state m tt w in cc

module _ {W : Type 0} (manager : AgentManager W) where
  open manager use {get_agent}

  apply_transition_valid :
      (agent_id : String) (to : AgentState) (why : String) (by : Option String)
      (agent : AgentRecord) (w : W) {t : StateTransition}
      → (apply_transition manager agent_id to why by agent w).0 ≡ ok t
      → (t.from_state ≡ agent.state) × (t.to_state ≡ to) × (agent.state ⟶ to)
  unfolding apply_transition
  apply_transition_valid agent_id to why by agent w h =
      let a = bind_inversion _ _ _ h in
      let b = bind_inversion _ _ _ a.2 in
      let c = bind_inversion _ _ _ b.2 in
      let d = bind_inversion _ _ _ c.2 in
      let t_same = pure_inversion _ _ d.2 in
      let moved = transition_inversion to why by a.0 (lift_inversion _ _ b.1) in
      let from = state_machine_inversion agent_id agent.state (lift_inversion _ _ a.1) in
      (
        ap (λ (u : StateTransition). u.from_state) (sym t_same) ∙ moved.0 ∙ from,
        ap (λ (u : StateTransition). u.to_state) (sym t_same) ∙ moved.1,
        rw⁻¹ from moved.2,
      )

  -- A change of state that returns was one of a stored agent, along an edge of the lifecycle from
  -- the agent's stored state to the one asked for.
  pub change_state_valid :
      (agent_id : String) (to : AgentState) (why : String) (by : Option String) (w : W)
      {t : StateTransition}
      → (change_state manager agent_id to why by w).0 ≡ ok t
      → (agent : AgentRecord) × ((get_agent agent_id w).0 ≡ ok (some agent))
        × (t.from_state ≡ agent.state)
        × (t.to_state ≡ to)
        × (agent.state ⟶ to)
  unfolding change_state throw
  change_state_valid agent_id to why by w {t} h = let a = bind_inversion _ _ _ h in go a.0 a.1 a.2
    where
      go :
          (found : Option AgentRecord)
          → (get_agent agent_id w).0 ≡ ok found
          → (elim found as (λ _. Exec W StateTransition) [
            | none ↦ throw (not_found agent_id)
            | some agent ↦ apply_transition manager agent_id to why by agent
          ]
              (get_agent agent_id w).1).0
            ≡ ok t
          → (agent : AgentRecord) × ((get_agent agent_id w).0 ≡ ok (some agent))
            × (t.from_state ≡ agent.state)
            × (t.to_state ≡ to)
            × (agent.state ⟶ to)
      go none e k = cc
      go (some agent) e k =
          let x = apply_transition_valid agent_id to why by agent _ k in (agent, e, x.0, x.1, x.2)

  -- A change of state that the lifecycle forbids raises, and writes and publishes nothing.
  pub change_state_refused :
      (agent_id : String) (to : AgentState) (why : String) (by : Option String)
      (agent : AgentRecord) (w : W)
      → agent_id ≢ ""
      → why ≢ ""
      → get_agent agent_id w ≡ (ok (some agent), w)
      → ¬ (agent.state ⟶ to)
      → change_state manager agent_id to why by w
        ≡ (raise (invalid_transition agent_id agent.state to), w)
  unfolding change_state apply_transition lift
  change_state_refused agent_id to why by agent w named reason found no_edge =
      bind_of_ok (get_agent agent_id) _ found
      ∙ bind_of_ok (lift _) _ (ap (λ r. (r, w)) (named_machine agent_id agent.state named))
      ∙ bind_of_raise (lift _) _ (ap (λ r. (r, w)) (refused_change to why by _ reason no_edge))

  -- A change of state along an edge returns its record once the transaction with the new status and
  -- the record is committed, whether the publication returns or raises.
  pub change_state_commits :
      (agent_id : String) (to : AgentState) (why : String) (by : Option String)
      (agent : AgentRecord) (w w' : W)
      → agent_id ≢ ""
      → why ≢ ""
      → get_agent agent_id w ≡ (ok (some agent), w)
      → agent.state ⟶ to
      → manager.transact
          (update_status to agent_id ∷ insert_transition (moved agent_id agent to why by) ∷ [])
          w
        ≡ (ok tt, w')
      → change_state manager agent_id to why by w ≡ (
        ok (moved agent_id agent to why by),
        (manager.publish agent.company_id (moved agent_id agent to why by) w').1,
      )
  unfolding change_state apply_transition lift pure
  change_state_commits agent_id to why by agent w w' named reason found edge committed =
      let t = moved agent_id agent to why by in
      bind_of_ok (get_agent agent_id) _ found
      ∙ bind_of_ok (lift _) _ (ap (λ r. (r, w)) (named_machine agent_id agent.state named))
      ∙ bind_of_ok (lift _) _
          (ap (λ r. (r, w)) (accepted_change agent_id agent to why by reason edge))
      ∙ bind_of_ok (manager.transact _) _ committed
      ∙ bind_of_ok (otherwise (manager.publish agent.company_id t) tt) _
          (published (manager.publish agent.company_id t) w')
