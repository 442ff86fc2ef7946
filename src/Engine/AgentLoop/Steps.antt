-- ===== src/Engine/AgentLoop/Steps.antt =====
-- agent_loop.py: the calls of a round keep the state and the count of the rounds.
use text.Mathlib.TextLemmas.{append-eq-nil_iff}
use agentcompany.Prelude.{
  ◌≡◌, refl, ℕ, ◌≤◌, String, Option, true, ne→==_false, List, ◌∷◌, [], is_empty, false,
}
use agentcompany.Engine.AgentLoop.{
  on_world, update, get_context, try_transition, Run, AgentContext, AgentDecisionLoop,
}
use agentcompany.Exec.States.{AgentState, running}
use agentcompany.Exec.{Exec, Result, ok, raise}
use agentcompany.Engine.StateMachine.{transition, among, valid_transitions}
use agentcompany.Exec.Hoare.{
  Keeps, Triple, Holds, triple_bind, keeps_bind, triple_weaken, triple_otherwise, keeps_pure,
}
use agentcompany.Engine.AgentLoop.Loop.{reflect, run_tools, think}
use agentcompany.Engine.Llm.{ToolCall, ToolDefinition}
use agentcompany.Engine.AgentLoop.Texts.{over_budget}

pub prefixed : (reason : String) → is_empty (over_budget reason) ≡ false
prefixed reason =
    ne→==_false
      (λ e. let l = ((append-eq-nil_iff {p = "budget_exceeded:"} {q = reason}).0 e).0 in cc)

module _ {F W : Type 0} where
  -- The agent is in state `st` after `n` rounds.
  abbrev pub Inv : AgentState → ℕ → Run F W → Type 0
  Inv st n s = (s.machine.state ≡ st) × (s.context.step_count ≡ n)

  -- The agent is running, within the limit.
  abbrev pub Midway : ℕ → Run F W → Type 0
  Midway limit s = (s.machine.state ≡ running) × (s.context.step_count ≤ limit)

  pub on_world-Inv :
      {A : Type 0} {st : AgentState} {n : ℕ} (m : Exec W A) → Keeps (Inv st n) (on_world m)
  unfolding on_world
  on_world-Inv {A} {st} {n} m = record { at = λ s h. go s h (m s.world) }
    where
      go :
          (s : Run F W)
          → Inv st n s
          → (x : Result A × W) → Holds (λ _. Inv st n) (Inv st n) (x.0, record s { world = x.1 })
      go s h (ok a, w) = h
      go s h (raise e, w) = h

  pub update-Inv :
      {st : AgentState} {n m : ℕ} {X : Run F W → Type 0} (f : AgentContext F → AgentContext F)
      → ((c : AgentContext F) → c.step_count ≡ n → (f c).step_count ≡ m)
      → Triple (Inv st n) (update f) (λ _. Inv st m) X
  unfolding update
  update-Inv f k = record { at = λ s h. (h.0, k s.context h.1) }

  pub get_context-Inv :
      {st : AgentState} {n : ℕ} {X : Run F W → Type 0}
      → Triple (Inv st n) get_context (λ c s. (c ≡ s.context) × Inv st n s) X
  unfolding get_context
  get_context-Inv = record { at = λ s h. (refl, h) }

  pub try_transition-Inv :
      {st to : AgentState} {n : ℕ} {X : Run F W → Type 0} (why : String) (by : Option String)
      → is_empty why ≡ false
      → among valid_transitions st to ≡ true
      → Triple (Inv st n) (try_transition to why by) (λ _. Inv to n) X
  unfolding try_transition transition
  try_transition-Inv {st} {to} {n} why by ne valid = record {
    at = λ s h. rw (ne, h.0, valid) (refl, h.1);
  }

module _ {F E W : Type 0} (loop : AgentDecisionLoop F E W) where
  open loop use {py, llm, memory, memory_owner, tools, ops, clock, redis, cost_tracker}

  pub reflect-Inv :
      {st : AgentState} {n : ℕ} (content : String) → Keeps (Inv st n) (reflect loop content)
  unfolding reflect
  reflect-Inv content = triple_bind _ _ get_context-Inv (λ c.
      triple_weaken (λ s h. h.1) (λ a s h. h) (λ s h. h)
        (triple_otherwise _ _ (keeps_bind _ _ (on_world-Inv _) (λ _. keeps_pure tt))))

  pub run_tools-Inv :
      {st : AgentState} {n : ℕ} (calls : List ToolCall) → Keeps (Inv st n) (run_tools loop calls)
  unfolding run_tools
  run_tools-Inv [] = keeps_pure tt
  run_tools-Inv (call ∷ calls) =
      keeps_bind _ _ (on_world-Inv _)
        (λ r. keeps_bind _ _ (update-Inv _ (λ c h. h)) (λ _. run_tools-Inv calls))

  pub think-Inv :
      {st : AgentState} {n : ℕ} (system : String) (available : List ToolDefinition)
      → Keeps (Inv st n) (think loop system available)
  unfolding think
  think-Inv system available = triple_bind _ _ get_context-Inv (λ c.
      triple_weaken (λ s h. h.1) (λ a s h. h) (λ s h. h)
        (keeps_bind _ _ (on_world-Inv _) (λ ms. keeps_bind _ _ (update-Inv _ (λ d h. h)) (λ _.
          keeps_bind _ _ (on_world-Inv _) (λ response.
            keeps_bind _ _ (update-Inv _ (λ d h. h)) (λ _.
              keeps_bind _ _ (on_world-Inv _)
                (λ _. keeps_bind _ _ (update-Inv _ (λ d h. h)) (λ _. keeps_pure response))))))))
