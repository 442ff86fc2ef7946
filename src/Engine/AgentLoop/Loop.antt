-- ===== src/Engine/AgentLoop/Loop.antt =====
-- agent_loop.py: `run` and `_loop`.
use mathlib.Core.List.{◌++◌}
use agentcompany.Prelude.{
  String, List, Option, ℕ, map, none, ◌∷◌, some, [], suc, if◌then◌else◌, is_empty, zero, or_else,
  ◌+◌,
}
use agentcompany.Json.{Builtins}
use agentcompany.Engine.AgentLoop.{
  AgentDecisionLoop, AgentContext, Trigger, Run, LoopResult, get_context, on_world, try_transition,
  update, result, budget_exceeded, completed, max_steps, failed,
}
use agentcompany.Exec.{
  Exec, Error, Result, pure, otherwise, ok, ◌>>=◌, ◌>>◌, lift, raise, invalid_transition,
}
use agentcompany.Engine.Llm.{ToolDefinition, ToolCall, LlmResponse}
use agentcompany.Engine.CostTracker.{BudgetStatus, check, record_usage}
use agentcompany.Engine.StateMachine.{AgentStateMachine, transition}
use agentcompany.Engine.ToolRegistry.{AgentTool, tool_definition, execute}
use agentcompany.Engine.Memory.{search, MemoryEntry, store, text, int, float}
use agentcompany.Exec.States.{running, paused, active}
use agentcompany.Engine.ContextManager.{maybe_compact}
use agentcompany.Engine.AgentLoop.Texts.{
  trigger_summary, over_budget, with_run, run_summary, build_initial_messages, paused_message,
}
use agentcompany.Prelude.Int.{pos, ◌+ℤ◌}

-- `available_tools`: definitions, or tools of the registry.
pub data AvailableTools (W : Type 0) : Type 0 where
  definitions : List ToolDefinition → AvailableTools W
  agent_tools : List (AgentTool W) → AvailableTools W

abbrev pub as_definitions : {W : Type 0} → Builtins → AvailableTools W → List ToolDefinition
as_definitions py (definitions ds) = ds
as_definitions py (agent_tools ts) = map (tool_definition py) ts

-- `available_tools or None`
abbrev non_empty : List ToolDefinition → Option (List ToolDefinition)
non_empty [] = none
non_empty ds = some ds

abbrev pub add_message :
    {F : Type 0} → String → String → Option String → AgentContext F → AgentContext F
add_message role content id c = record c {
  messages = c.messages ++ record { role = role; content = content; tool_call_id = id } ∷ [];
}

module _ {F E W : Type 0} (loop : AgentDecisionLoop F E W) where
  open loop use {
    py, ops, describe, float_text, clock, redis, insert_usage, llm, tools, memory, memory_owner,
    cost_tracker, max_steps as step_limit,
  }

  -- `_reflect`: the memory of the run; every exception is caught.
  unfoldable pub reflect : String → Exec (Run F W) Unit
  reflect final_content = do
    c ← get_context
    let trigger_type = or_else c.trigger.type "unknown"
    otherwise
        (do
          on_world (
              store memory memory_owner (run_summary c.run_id trigger_type final_content)
                (("run_id", text c.run_id)
                  ∷ ("trigger_type", text trigger_type)
                  ∷ ("steps", int (pos c.step_count))
                  ∷ ("tokens", int c.tokens_used)
                  ∷ ("cost_usd", float c.cost_usd)
                  ∷ [])
                "task_summary" (some (with_run c.run_id)))
          pure tt)
        tt

  -- The `for tool_call in ...` loop.
  unfoldable pub run_tools : List ToolCall → Exec (Run F W) Unit
  run_tools [] = pure tt
  run_tools (call ∷ calls) = do
    r ← on_world (execute py describe tools call.name call.arguments call.id)
    update (λ c. add_message "tool" r.output (some call.id) (record c {
      tool_results =
          c.tool_results
          ++ record {
            tool_name = call.name;
            tool_call_id = call.id;
            output = r.output;
            success = r.success;
          }
            ∷ [];
    }))
    run_tools calls

  -- The branch of a budget that is exceeded.
  unfoldable pub stop_over_budget : BudgetStatus F → Exec (Run F W) (LoopResult F)
  stop_over_budget budget = do
    try_transition paused (over_budget budget.reason) none
    c ← get_context
    pure (
        result budget_exceeded
          (some (paused_message budget.reason (float_text budget.remaining_daily_tokens))) none c)

  -- THINK: compaction, the call of the model, and the record of its usage.
  unfoldable pub think : String → List ToolDefinition → Exec (Run F W) (LlmResponse F)
  think system available = do
    c ← get_context
    messages ← on_world (maybe_compact py llm memory memory_owner c.messages system c.run_id)
    update (λ d. record d { messages = messages })
    response ← on_world (llm.complete messages system (non_empty available) none)
    update (λ d. record d {
      tokens_used = d.tokens_used +ℤ response.tokens_used;
      cost_usd = ops.add d.cost_usd response.cost_usd;
    })
    on_world (
        record_usage ops redis clock insert_usage response.input_tokens response.output_tokens
          response.cost_usd response.model llm.name (some c.run_id) cost_tracker)
    update (add_message "assistant" response.content none)
    pure response

  -- The end of a run with a final answer.
  unfoldable pub complete_run : String → Exec (Run F W) (LoopResult F)
  complete_run content = do
    reflect content
    try_transition active "task_complete" none
    c ← get_context
    pure (result completed (some content) none c)

  -- What follows a response: the tools, or the end.
  unfoldable pub act : LlmResponse F → Exec (Run F W) (Option (LoopResult F))
  act response = elim response.tool_calls [
    | [] ↦ (do r ← complete_run response.content; pure (some r))
    | call ∷ calls ↦ (do run_tools (call ∷ calls); pure none)
  ]

  -- One round of the `while`: a result ends it, `none` is `continue`.
  unfoldable pub round : String → List ToolDefinition → Exec (Run F W) (Option (LoopResult F))
  round system available = do
    update (λ c. record c { step_count = c.step_count + 1 })
    budget ← on_world (check ops redis clock (pos 500) cost_tracker)
    if budget.allowed
        then (do response ← think system available; act response)
        else (do r ← stop_over_budget budget; pure (some r))

  -- After the `while`.
  unfoldable pub give_up : Exec (Run F W) (LoopResult F)
  give_up = do
    reflect "Max steps reached without resolution."
    try_transition active "max_steps_reached" none
    c ← get_context
    pure (result max_steps (some "Max steps reached. Review run history for progress.") none c)

  abbrev pub stop_or :
      Exec (Run F W) (LoopResult F) → Option (LoopResult F) → Exec (Run F W) (LoopResult F)
  stop_or rest (some r) = pure r
  stop_or rest none = rest

  -- `_loop`, by recursion on the rounds that are left: `step_count` grows by one in each, so the
  -- test of the `while` fails when none is left.
  unfoldable pub rounds : ℕ → String → List ToolDefinition → Exec (Run F W) (LoopResult F)
  rounds zero system available = give_up
  rounds (suc left) system available = do
    r ← round system available
    stop_or (rounds left system available) r

  -- OBSERVE: every exception is caught.
  unfoldable pub observe : Trigger → Exec W (List (MemoryEntry F E))
  observe trigger =
      otherwise
        (do query ← lift (trigger_summary trigger); search memory memory_owner query (pos 5) none)
        []

  -- The `except Exception` of `run`: back to ACTIVE where the lifecycle allows it.
  unfoldable pub recover_run : Error → Exec (Run F W) (LoopResult F)
  recover_run e = do
    try_transition active "error_recovery" none
    c ← get_context
    pure (result failed none (some e) c)

  abbrev pub finish : Result (LoopResult F) × Run F W → Result (LoopResult F) × Run F W
  finish (ok r, s) = (ok r, s)
  finish (raise e, s) = recover_run e s

  -- From the transition to RUNNING on.
  unfoldable pub start_run : String → List ToolDefinition → Exec (Run F W) (LoopResult F)
  start_run system available s =
      let (r, machine') = transition running "loop_start" s.context.trigger.trigger_id s.machine in
      let s' = record s { machine = machine' } in
      elim r [
        | ok _ ↦ finish (rounds step_limit system available s')
        | raise (invalid_transition id a b) ↦
            (ok (result failed none (some (invalid_transition id a b)) s'.context), s')
        | raise e ↦ (raise e, s')
      ]

  -- `run_id or f"run_{uuid.uuid4().hex}"`
  unfoldable pub id_for : Option String → W → String × W
  id_for given w =
      let (u, w') = memory.new_uuid w in
      if is_empty (or_else given "") then (with_run u, w') else (or_else given "", w)

  -- `run`: it returns the result and leaves the context, the state machine and the world.
  unfoldable pub run :
      String
      → String
      → AvailableTools W
      → Trigger
      → Option String
      → AgentStateMachine
      → W
      → Result (LoopResult F) × Run F W
  run agent_id system available trigger run_id machine w =
      let (rid, w₁) = id_for run_id w in
      let (seen, w₂) = observe trigger w₁ in
      start_run system (as_definitions py available) (record {
        context = record {
          run_id = rid;
          agent_id = agent_id;
          trigger = trigger;
          messages = build_initial_messages py trigger (elim seen [ ok ms ↦ ms | raise _ ↦ [] ]);
          tool_results = [];
          step_count = 0;
          tokens_used = pos 0;
          cost_usd = ops.of_int (pos 0);
        };
        machine = machine;
        world = w₂;
      })
