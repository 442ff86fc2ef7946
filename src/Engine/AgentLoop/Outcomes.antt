-- ===== src/Engine/AgentLoop/Outcomes.antt =====
-- agent_loop.py: how a run ends, and in which state it leaves the agent.
use agentcompany.Prelude.{
  ◌≡◌, refl, ℕ, ◌≤◌, String, Option, true, List, none, some, ◌∷◌, [], ap, is_empty, false, arith,
  ◌<◌, ◌+◌, suc, zero,
}
use agentcompany.Engine.AgentLoop.{
  Outcome, get_context, try_transition, LoopResult, Run, AgentContext, max_steps, budget_exceeded,
  AgentDecisionLoop, completed, result, failed, Trigger,
}
use agentcompany.Exec.States.{AgentState, paused, active, running}
use agentcompany.Exec.{Exec, Result, ok, raise, Error, ◌>>◌, ◌>>=◌, pure}
use agentcompany.Engine.StateMachine.{transition, among, valid_transitions, AgentStateMachine}
use agentcompany.Exec.Hoare.{
  Keeps, Triple, Holds, triple_bind, keeps_bind, triple_weaken, triple_pure, triple_if, returns,
}
use agentcompany.Engine.AgentLoop.Loop.{
  run_tools, complete_run, act, stop_over_budget, give_up, round, rounds, stop_or, recover_run,
  finish, start_run, run, AvailableTools,
}
use agentcompany.Engine.Llm.{LlmResponse, ToolCall, ToolDefinition}
use agentcompany.Engine.CostTracker.{BudgetStatus}
use agentcompany.Engine.AgentLoop.Steps.{
  Inv, Midway, try_transition-Inv, reflect-Inv, run_tools-Inv, prefixed, update-Inv,
  get_context-Inv, on_world-Inv, think-Inv,
}

-- The state that each outcome leaves the agent in.
abbrev pub end_state : Outcome → AgentState
end_state budget_exceeded = paused
end_state _ = active

-- A running agent may go to each of these states.
leaves : (o : Outcome) → among valid_transitions running (end_state o) ≡ true
unfolding valid_transitions
leaves budget_exceeded = refl
leaves completed = refl
leaves max_steps = refl
leaves failed = refl

-- What a run of at most `limit` rounds promises.
pub record Settled {F W : Type 0} (limit : ℕ) (r : LoopResult F) (s : Run F W) : Type 0 where
  pub counted : r.steps_taken ≡ s.context.step_count
  pub bounded : r.steps_taken ≤ limit
  pub exhausted : r.outcome ≡ max_steps → r.steps_taken ≡ limit
  pub settled : s.machine.state ≡ end_state r.outcome

module _ {F W : Type 0} where
  -- After a round: still running, or the result.
  abbrev Progress : ℕ → ℕ → Option (LoopResult F) → Run F W → Type 0
  Progress limit n none s = Inv running n s
  Progress limit n (some r) s = Settled limit r s

module _ {F E W : Type 0} (loop : AgentDecisionLoop F E W) where
  open loop use {py, llm, memory, memory_owner, tools, ops, clock, redis, cost_tracker}

  -- What ends a run: a transition out of RUNNING, and the result with the run's totals.
  ending :
      {n limit : ℕ} {X : Run F W → Type 0} (outcome : Outcome) (why : String)
      (message : Option String) (e : Option Error)
      → is_empty why ≡ false
      → n ≤ limit
      → (outcome ≡ max_steps → n ≡ limit)
      → Triple
          (Inv running n)
          (do
            try_transition (end_state outcome) why none
            c ← get_context
            pure (result outcome message e c))
          (λ r s. Settled limit r s)
          X
  unfolding result
  ending {limit = limit} outcome why message e ne le full =
      triple_bind _ _ (try_transition-Inv _ _ ne (leaves outcome)) (λ _.
        triple_bind _ _ get_context-Inv (λ c. triple_pure _ (λ s h. record {
          counted = ap (λ (d : AgentContext F). d.step_count) h.0;
          bounded = rw (h.0, h.1.1) le;
          exhausted = λ o. rw (h.0, h.1.1) (full o);
          settled = h.1.0;
        })))

  -- A call that raises leaves the run midway.
  midway :
      {A : Type 0} {n limit : ℕ} {m : Exec (Run F W) A}
      → n ≤ limit
      → Keeps (Inv running n) m
      → Triple (Inv running n) m (λ _. Inv running n) (Midway limit)
  midway le k = triple_weaken (λ s h. h) (λ a s h. h) (λ s h. (h.0, rw h.1 le)) k

  complete_run-Settled :
      {n limit : ℕ} (content : String)
      → n ≤ limit
      → Triple (Inv running n) (complete_run loop content) (λ r s. Settled limit r s) (Midway limit)
  unfolding complete_run
  complete_run-Settled content le =
      keeps_bind _ _ (midway le (reflect-Inv loop content))
        (λ _. ending completed _ _ _ refl le (λ e. cc))

  act-Settled :
      {n limit : ℕ} (response : LlmResponse F)
      → n ≤ limit
      → Triple (Inv running n) (act loop response) (Progress limit n) (Midway limit)
  unfolding act
  act-Settled {n} {limit} response le = go response.tool_calls
    where
      go :
          (calls : List ToolCall)
          → Triple
              (Inv running n)
              (elim calls as (λ _. Exec (Run F W) (Option (LoopResult F))) [
                | [] ↦ (do r ← complete_run loop response.content; pure (some r))
                | call ∷ rest ↦ (do run_tools loop (call ∷ rest); pure none)
              ])
              (Progress limit n)
              (Midway limit)
      go [] =
          triple_bind _ _ (complete_run-Settled response.content le)
            (λ r. triple_pure (some r) (λ s h. h))
      go (call ∷ rest) =
          triple_bind _ _ (midway le (run_tools-Inv loop (call ∷ rest)))
            (λ _. triple_pure none (λ s h. h))

  stop_over_budget-Settled :
      {n limit : ℕ} (budget : BudgetStatus F)
      → n ≤ limit
      → Triple
          (Inv running n)
          (stop_over_budget loop budget)
          (λ r s. Settled limit r s)
          (Midway limit)
  unfolding stop_over_budget
  stop_over_budget-Settled budget le =
      ending budget_exceeded _ _ _ (prefixed budget.reason) le (λ e. cc)

  give_up-Settled :
      {n limit : ℕ}
      → n ≡ limit
      → Triple (Inv running n) (give_up loop) (λ r s. Settled limit r s) (Midway limit)
  unfolding give_up
  give_up-Settled e =
      keeps_bind _ _ (midway (omega arith) (reflect-Inv loop _))
        (λ _. ending max_steps _ _ _ refl (omega arith) (λ _. e))

  round-Settled :
      {n limit : ℕ} (system : String) (available : List ToolDefinition)
      → n < limit
      → Triple (Inv running n) (round loop system available) (Progress limit (n + 1)) (Midway limit)
  unfolding round
  round-Settled {n} {limit} system available lt =
      triple_bind _ _ (update-Inv {m = n + 1} _ (λ c e. rw e refl)) (λ _.
        keeps_bind _ _ (midway (omega arith) (on_world-Inv _)) (λ budget.
          triple_if budget.allowed
            (keeps_bind _ _ (midway (omega arith) (think-Inv loop system available))
              (λ response. act-Settled response (omega arith)))
            (triple_bind _ _ (stop_over_budget-Settled budget (omega arith))
              (λ r. triple_pure (some r) (λ s h. h)))))

  rounds-Settled :
      {limit : ℕ} (left : ℕ) {n : ℕ} (system : String) (available : List ToolDefinition)
      → n + left ≡ limit
      → Triple
          (Inv running n)
          (rounds loop left system available)
          (λ r s. Settled limit r s)
          (Midway limit)
  unfolding rounds
  rounds-Settled zero system available e = give_up-Settled (omega arith)
  rounds-Settled {limit} (suc left) {n} system available e =
      triple_bind _ _ (round-Settled system available (omega arith))
        (after (rounds-Settled left system available (omega arith)))
    where
      after :
          Triple
            (Inv running (n + 1))
            (rounds loop left system available)
            (λ r s. Settled limit r s)
            (Midway limit)
          → (o : Option (LoopResult F))
          → Triple
              (Progress limit (n + 1) o)
              (stop_or loop (rounds loop left system available) o)
              (λ r s. Settled limit r s)
              (Midway limit)
      after t none = t
      after t (some r) = triple_pure r (λ s h. h)

  recover_run-Settled :
      {limit : ℕ} (e : Error)
      → Triple (Midway limit) (recover_run loop e) (λ r s. Settled limit r s) (λ _. ⊥)
  unfolding recover_run
  recover_run-Settled {limit} e = record {
    at = λ s h.
        (triple_weaken (λ t k. k) (λ a t k. k) (λ t k. k)
            (ending {n = s.context.step_count} failed "error_recovery" none (some e) refl h.1
              (λ c. cc))).at
          s (h.0, refl);
  }

  -- A run that starts in RUNNING returns, whatever the rounds do.
  finish-Settled :
      (limit : ℕ) (x : Result (LoopResult F) × Run F W)
      → Holds (λ r s. Settled limit r s) (Midway limit) x
      → Holds (λ r s. Settled limit r s) (λ _. ⊥) (finish loop x)
  finish-Settled limit (ok r, s) h = h
  finish-Settled limit (raise e, s) h = (recover_run-Settled e).at s h

  start_run-Settled :
      (system : String) (available : List ToolDefinition) (s : Run F W)
      → s.machine.state ≡ active
      → s.context.step_count ≡ 0
      → Holds (λ r t. Settled loop.max_steps r t) (λ _. ⊥) (start_run loop system available s)
  unfolding start_run transition valid_transitions
  start_run-Settled system available s a z = rw a (
      finish-Settled loop.max_steps _
        ((rounds-Settled loop.max_steps system available (omega arith)).at _ (refl, z)))

  -- A run of an agent that is ACTIVE returns, whatever the model, the tools, the memory and Redis
  -- do or raise: it takes `max_steps` rounds at most, and all of them where its outcome says so, and
  -- it leaves the agent PAUSED where the budget ended it and ACTIVE otherwise, never RUNNING.
  pub run_settles :
      (agent_id system : String) (available : AvailableTools W) (trigger : Trigger)
      (run_id : Option String) (machine : AgentStateMachine) (w : W)
      → machine.state ≡ active
      → (r : LoopResult F) × ((run loop agent_id system available trigger run_id machine w).0
          ≡ ok r)
        × Settled loop.max_steps r (run loop agent_id system available trigger run_id machine w).1
  unfolding run
  run_settles agent_id system available trigger run_id machine w a =
      returns _ _ (start_run-Settled system _ _ a refl)
