-- ===== src/Engine/AgentLoop/Refusals.antt =====
-- agent_loop.py: runs that are refused, and rounds that the budget ends.
use agentcompany.Prelude.{
  ◌≡◌, refl, ℕ, String, Option, ◌≢◌, List, none, some, ap, is_empty, false, ◌+◌, if◌then◌else◌,
  Bool-cases, inl, inr, ◌∙◌, Bool,
}
use agentcompany.Engine.AgentLoop.{
  on_world, update, get_context, try_transition, LoopResult, Run, budget_exceeded,
  AgentDecisionLoop, result, failed, Trigger,
}
use agentcompany.Exec.States.{
  AgentState, paused, active, running, created, configured, error, terminated,
}
use agentcompany.Exec.{Result, ok, raise, ◌>>=◌, pure, invalid_transition, bind_of_ok}
use agentcompany.Engine.StateMachine.{
  transition, among, valid_transitions, AgentStateMachine, StateTransition,
}
use agentcompany.Exec.Hoare.{Triple, triple_bind, keeps_bind, triple_pure, returns}
use agentcompany.Engine.AgentLoop.Loop.{
  think, act, stop_over_budget, round, start_run, run, AvailableTools, as_definitions,
}
use agentcompany.Engine.Llm.{ToolDefinition}
use agentcompany.Engine.CostTracker.{BudgetStatus, check}
use agentcompany.Prelude.Int.{pos}
use agentcompany.Engine.AgentLoop.Steps.{prefixed}

-- Only an active agent may start to run.
only_active : (a : AgentState) → a ≢ active → among valid_transitions a running ≡ false
unfolding valid_transitions
only_active active ne = elim (ne refl) [ ]
only_active created ne = refl
only_active configured ne = refl
only_active running ne = refl
only_active paused ne = refl
only_active error ne = refl
only_active terminated ne = refl

refused_transition :
    (by : Option String) (sm : AgentStateMachine)
    → sm.state ≢ active
    → transition running "loop_start" by sm
      ≡ (raise (invalid_transition sm.agent_id sm.state running), sm)
unfolding transition
refused_transition by sm ne = rw (only_active sm.state ne) refl

module _ {F E W : Type 0} (loop : AgentDecisionLoop F E W) where
  open loop use {py, llm, memory, memory_owner, tools, ops, clock, redis, cost_tracker}

  start_run_refuses :
      (system : String) (available : List ToolDefinition) (s : Run F W)
      → s.machine.state ≢ active
      → start_run loop system available s ≡ (
        ok (
            result failed none
              (some (invalid_transition s.machine.agent_id s.machine.state running))
              s.context),
        s,
      )
  unfolding start_run
  start_run_refuses system available s ne =
      let t = refused_transition s.context.trigger.trigger_id s.machine ne in
      rw (t, start_run)
        (ap
          (λ (x : Result StateTransition × AgentStateMachine). (
            ok (
                result failed none
                  (some (invalid_transition s.machine.agent_id s.machine.state running)) s.context),
            record s { machine = x.1 },
          ))
          t)

  -- A run of an agent that is not ACTIVE returns the refusal as a failed run of no round, and leaves
  -- the state machine as it was.
  pub run_refuses :
      (agent_id system : String) (available : AvailableTools W) (trigger : Trigger)
      (run_id : Option String) (machine : AgentStateMachine) (w : W)
      → machine.state ≢ active
      → (r : LoopResult F) × ((run loop agent_id system available trigger run_id machine w).0
          ≡ ok r)
        × (r.outcome ≡ failed)
        × (r.error ≡ some (invalid_transition machine.agent_id machine.state running))
        × (r.steps_taken ≡ 0)
        × ((run loop agent_id system available trigger run_id machine w).1.machine ≡ machine)
  unfolding run result
  run_refuses agent_id system available trigger run_id machine w ne =
      let e = start_run_refuses system (as_definitions py available) _ ne in
      (
        _,
        ap (λ (x : Result (LoopResult F) × Run F W). x.0) e,
        refl,
        refl,
        refl,
        ap (λ (x : Result (LoopResult F) × Run F W). x.1.machine) e,
      )

  -- The world, and the rounds so far.
  abbrev At : W → ℕ → Run F W → Type 0
  At w n s = (s.world ≡ w) × (s.context.step_count ≡ n)

  try_transition-At :
      {w : W} {n : ℕ} (to : AgentState) (why : String) (by : Option String)
      → is_empty why ≡ false
      → Triple (At w n) (try_transition to why by) (λ _. At w n) (λ _. ⊥)
  unfolding try_transition transition
  try_transition-At {w} {n} to why by ne = record {
    at = λ s h. elim (Bool-cases (among valid_transitions s.machine.state to)) [
      | inl e ↦ rw (ne, e) h
      | inr e ↦ rw (ne, e) h
    ];
  }

  get_context-At :
      {w : W} {n : ℕ} {X : Run F W → Type 0}
      → Triple (At w n) get_context (λ c s. (c ≡ s.context) × At w n s) X
  unfolding get_context
  get_context-At = record { at = λ s h. (refl, h) }

  stop_over_budget-At :
      {w : W} {n : ℕ} (budget : BudgetStatus F)
      → Triple
          (At w n)
          (stop_over_budget loop budget)
          (λ r s. (r.outcome ≡ budget_exceeded) × (r.steps_taken ≡ n) × (s.world ≡ w))
          (λ _. ⊥)
  unfolding stop_over_budget result get_context
  stop_over_budget-At budget =
      keeps_bind _ _ (try_transition-At _ _ _ (prefixed budget.reason)) (λ _.
        triple_bind _ _ get_context-At (λ c. triple_pure _ (λ s h. (refl, rw h.0 h.1.1, h.1.0))))

  stopped_round :
      {w : W} {n : ℕ} (budget : BudgetStatus F)
      → Triple
          (At w n)
          (do r ← stop_over_budget loop budget; pure (some r))
          (λ o s.
            (r : LoopResult F) × (o ≡ some r)
            × (r.outcome ≡ budget_exceeded)
            × (r.steps_taken ≡ n)
            × (s.world ≡ w))
          (λ _. ⊥)
  stopped_round budget =
      triple_bind _ _ (stop_over_budget-At budget)
        (λ r. triple_pure (some r) (λ s h. (r, refl, h.0, h.1, h.2)))

  -- A round that counts itself, checks, and stops.
  denied_round :
      (system : String) (available : List ToolDefinition) (s : Run F W) (budget : BudgetStatus F)
      (w : W)
      → check ops redis clock (pos 500) cost_tracker s.world ≡ (ok budget, w)
      → budget.allowed ≡ false
      → let next = record s {
        context = record s.context { step_count = s.context.step_count + 1 };
        world = w;
      } in
        round loop system available s ≡ (do r ← stop_over_budget loop budget; pure (some r)) next
  unfolding round on_world update
  denied_round system available s budget w e denied =
      let counted = record s {
        context = record s.context { step_count = s.context.step_count + 1 };
      } in
      bind_of_ok (update _) _ refl
      ∙ bind_of_ok (on_world _) _
          (ap (λ (x : Result (BudgetStatus F) × W). (x.0, record counted { world = x.1 })) e)
      ∙ ap
          (λ (b : Bool).
            (if b
                then (do response ← think loop system available; act loop response)
                else (do r ← stop_over_budget loop budget; pure (some r)))
              (record counted { world = w }))
          denied

  -- A round whose check denies the call ends the run there: nothing is called after the check.
  pub round_over_budget :
      (system : String) (available : List ToolDefinition) (s : Run F W) (budget : BudgetStatus F)
      (w : W)
      → check ops redis clock (pos 500) cost_tracker s.world ≡ (ok budget, w)
      → budget.allowed ≡ false
      → (r : LoopResult F) × ((round loop system available s).0 ≡ ok (some r))
        × (r.outcome ≡ budget_exceeded)
        × (r.steps_taken ≡ s.context.step_count + 1)
        × ((round loop system available s).1.world ≡ w)
  round_over_budget system available s budget w e denied =
      rw (denied_round system available s budget w e denied) (
        let x = returns _ _ ((stopped_round budget).at _ (refl, refl)) in
        (x.2.0, x.1 ∙ ap ok x.2.1, x.2.2, x.2.3, x.2.4))
