-- ===== src/Engine/AgentLoop/Conversation.antt =====
-- agent_loop.py, context_manager.py and llm/anthropic.py: the conversation of a run.
use agentcompany.Prelude.{◌≡◌, refl, ℕ, String, Option, List, none, some, ◌∷◌, [], suc, zero, true}
use agentcompany.Exec.{
  Exec, Result, ok, raise, pure, ◌>>=◌, Error, invalid_transition, value_error, key_error,
  engine_error, foreign, type_error, unicode_error, http_exception, auth_error,
}
use agentcompany.Exec.Hoare.{
  Triple, Keeps, Holds, triple_bind, keeps_bind, triple_weaken, triple_pure, triple_if, triple_fact,
  triple_otherwise, keeps_pure,
}
use agentcompany.Engine.AgentLoop.{
  Run, AgentContext, get_context, AgentDecisionLoop, LoopResult, Trigger, result, failed,
}
use agentcompany.Engine.Llm.{ToolCall, ToolDefinition, LlmResponse}
use agentcompany.Exec.States.{running}
use agentcompany.Engine.Llm.Alternation.{
  IsConversation, IsWaiting, result-IsWaiting, IsWaiting-IsConversation, answer-IsConversation,
  Alternates, normalize_messages-Alternates,
}
use agentcompany.Engine.AgentLoop.Loop.{
  reflect, run_tools, think, complete_run, act, round, rounds, stop_over_budget, give_up, stop_or,
  recover_run, finish, start_run, run, AvailableTools,
}
use agentcompany.Engine.StateMachine.{StateTransition, AgentStateMachine, transition}
use agentcompany.Engine.AgentLoop.Texts.{build_initial_messages}
use agentcompany.Engine.Llm.Anthropic.{normalize_messages}
use agentcompany.Engine.AgentLoop.Turns.{
  Spoken, Waiting, get_context-Holds, on_world-Keeps, try_transition-Keeps, update-Holds,
  on_world-Holds, maybe_compact-IsWaiting,
}

module _ {F E W : Type 0} (loop : AgentDecisionLoop F E W) where
  open loop use {py, llm, memory, memory_owner}

  reflect-Spoken : (content : String) → Keeps Spoken (reflect loop content)
  unfolding reflect
  reflect-Spoken content = triple_bind _ _ get_context-Holds (λ c.
      triple_weaken (λ s h. h.1) (λ a s h. h) (λ s h. h)
        (triple_otherwise _ _ (
          keeps_bind _ _ (on_world-Keeps (λ c. IsConversation c.messages) _) (λ _. keeps_pure tt))))

  -- A result of the run's end.
  result-Spoken :
      {A : Type 0} (f : AgentContext F → A)
      → Triple {S = Run F W} Spoken (get_context >>= λ c. pure (f c)) (λ _. Spoken) Spoken
  result-Spoken f = triple_bind _ _ get_context-Holds (λ c. triple_pure _ (λ s h. h.1))

  -- After a round: a result, or a conversation that waits for an answer.
  abbrev After : Option (LoopResult F) → Run F W → Type 0
  After none s = Waiting s
  After (some r) s = Spoken s

  stop_or-Spoken :
      {rest : Exec (Run F W) (LoopResult F)}
      → Triple Waiting rest (λ _. Spoken) Spoken
      → (r : Option (LoopResult F)) → Triple (After r) (stop_or loop rest r) (λ _. Spoken) Spoken
  stop_or-Spoken t none = t
  stop_or-Spoken t (some r) = triple_pure r (λ s h. h)

  after_call :
      {A : Type 0} {m : Exec (Run F W) A}
      → Keeps Spoken m
      → (s : Run F W) → Spoken s
      → Spoken (m s).1
  after_call {A} {m} t s h = go (m s) (t.at s h)
    where
      go : (x : Result A × Run F W) → Holds (λ _. Spoken) Spoken x → Spoken x.1
      go (ok a, s') k = k
      go (raise e, s') k = k

  -- One call of a tool, and the others.
  tool-Waiting :
      (call : ToolCall) (calls : List ToolCall)
      → Triple Waiting (run_tools loop calls) (λ _. Waiting) Spoken
      → Triple Spoken (run_tools loop (call ∷ calls)) (λ _. Waiting) Spoken
  unfolding run_tools
  tool-Waiting call calls rest =
      keeps_bind _ _ (on_world-Keeps (λ c. IsConversation c.messages) _)
        (λ r. triple_bind _ _ (update-Holds _ (λ s h. result-IsWaiting _ _ h refl)) (λ _. rest))

  run_tools-Waiting :
      (calls : List ToolCall) → Triple Waiting (run_tools loop calls) (λ _. Waiting) Spoken
  unfolding run_tools
  run_tools-Waiting [] = triple_pure tt (λ s h. h)
  run_tools-Waiting (call ∷ calls) =
      triple_weaken (λ s h. IsWaiting-IsConversation _ h) (λ a s h. h) (λ s h. h)
        (tool-Waiting call calls (run_tools-Waiting calls))

  think-Spoken :
      (system : String) (available : List ToolDefinition)
      → Triple Waiting (think loop system available) (λ _. Spoken) Spoken
  unfolding think
  think-Spoken system available = triple_bind _ _ get_context-Holds (λ c.
      triple_weaken (λ s h. (rw h.0 h.1, h.1)) (λ a s h. h) (λ s h. h)
        (triple_fact (λ waits.
          triple_bind _ _
            (triple_weaken (λ s h. h) (λ a s h. h) (λ s h. IsWaiting-IsConversation _ h)
              (on_world-Holds (λ c. IsWaiting c.messages) _
                (maybe_compact-IsWaiting py llm memory memory_owner c.messages system c.run_id
                  waits)))
            (λ messages. triple_bind _ _ (update-Holds {Q = Waiting} _ (λ s h. h.0)) (λ _.
              triple_weaken (λ s h. h) (λ a s h. h) (λ s h. IsWaiting-IsConversation _ h)
                (keeps_bind _ _ (on_world-Keeps (λ c. IsWaiting c.messages) _) (λ response.
                  keeps_bind _ _ (update-Holds {Q = Waiting} _ (λ s h. h)) (λ _.
                    keeps_bind _ _ (on_world-Keeps (λ c. IsWaiting c.messages) _) (λ _.
                      triple_bind _ _
                        (update-Holds {Q = Spoken} _ (λ s h. answer-IsConversation _ _ h refl))
                        (λ _. triple_pure response (λ s h. h)))))))))))

  complete_run-Spoken : (content : String) → Keeps Spoken (complete_run loop content)
  unfolding complete_run
  complete_run-Spoken content = keeps_bind _ _ (reflect-Spoken content) (λ _.
      keeps_bind _ _ (try_transition-Keeps (λ c. IsConversation c.messages) _ _ _)
        (λ _. result-Spoken _))

  act-After : (response : LlmResponse F) → Triple Spoken (act loop response) After Spoken
  unfolding act
  act-After response = go response.tool_calls refl
    where
      go :
          (calls : List ToolCall)
          → response.tool_calls ≡ calls
          → Triple Spoken (act loop response) After Spoken
      go [] e =
          rw (e, act)
            (keeps_bind _ _ (complete_run-Spoken response.content)
              (λ r. triple_pure (some r) (λ s h. h)))
      go (call ∷ calls) e =
          rw (e, act)
            (triple_bind _ _ (tool-Waiting call calls (run_tools-Waiting calls))
              (λ _. triple_pure none (λ s h. h)))

  round-After :
      (system : String) (available : List ToolDefinition)
      → Triple Waiting (round loop system available) After Spoken
  unfolding round stop_over_budget
  round-After system available = triple_bind _ _ (update-Holds {Q = Waiting} _ (λ s h. h)) (λ _.
      triple_bind _ _
        (triple_weaken (λ s h. h) (λ a s h. h) (λ s h. IsWaiting-IsConversation _ h)
          (on_world-Keeps (λ c. IsWaiting c.messages) _))
        (λ budget.
          triple_if budget.allowed (triple_bind _ _ (think-Spoken system available) act-After) (
            triple_weaken (λ s h. IsWaiting-IsConversation _ h) (λ a s h. h) (λ s h. h)
              (keeps_bind _ _
                (keeps_bind _ _ (try_transition-Keeps (λ c. IsConversation c.messages) _ _ _)
                  (λ _. result-Spoken _))
                (λ r. triple_pure (some r) (λ s h. h))))))

  rounds-Spoken :
      (left : ℕ) (system : String) (available : List ToolDefinition)
      → Triple Waiting (rounds loop left system available) (λ _. Spoken) Spoken
  unfolding rounds give_up
  rounds-Spoken zero system available =
      triple_weaken (λ s h. IsWaiting-IsConversation _ h) (λ a s h. h) (λ s h. h)
        (keeps_bind _ _ (reflect-Spoken _) (λ _.
          keeps_bind _ _ (try_transition-Keeps (λ c. IsConversation c.messages) _ _ _)
            (λ _. result-Spoken _)))
  rounds-Spoken (suc left) system available =
      triple_bind _ _ (round-After system available)
        (λ r. stop_or-Spoken (rounds-Spoken left system available) r)

  -- How a run is recovered from an exception.
  recover_run-Spoken : (e : Error) → Keeps Spoken (recover_run loop e)
  unfolding recover_run
  recover_run-Spoken e =
      keeps_bind _ _ (try_transition-Keeps (λ c. IsConversation c.messages) _ _ _)
        (λ _. result-Spoken _)

  finish-Spoken :
      (x : Result (LoopResult F) × Run F W)
      → Holds (λ _. Spoken) Spoken x
      → Spoken (finish loop x).1
  finish-Spoken (ok r, s) h = h
  finish-Spoken (raise e, s) h = after_call (recover_run-Spoken e) s h

  start_run-Spoken :
      (system : String) (available : List ToolDefinition) (s : Run F W)
      → Waiting s
      → Spoken (start_run loop system available s).1
  unfolding start_run
  start_run-Spoken system available s h =
      go (transition running "loop_start" s.context.trigger.trigger_id s.machine)
    where
      go :
          (x : Result StateTransition × AgentStateMachine)
          → Spoken
              (elim x.0 as (λ _. Result (LoopResult F) × Run F W) [
                | ok _ ↦
                    finish loop
                      (rounds loop loop.max_steps system available (record s { machine = x.1 }))
                | raise (invalid_transition id a b) ↦ (
                  ok (result failed none (some (invalid_transition id a b)) s.context),
                  record s { machine = x.1 },
                )
                | raise e ↦ (raise e, record s { machine = x.1 })
              ]).1
      go (ok t, machine) =
          let s' = record s { machine = machine } in
          finish-Spoken (rounds loop loop.max_steps system available s')
            ((rounds-Spoken loop.max_steps system available).at s' h)
      go (raise (value_error x), machine) = IsWaiting-IsConversation _ h
      go (raise (key_error x), machine) = IsWaiting-IsConversation _ h
      go (raise type_error, machine) = IsWaiting-IsConversation _ h
      go (raise unicode_error, machine) = IsWaiting-IsConversation _ h
      go (raise (invalid_transition id a b), machine) = IsWaiting-IsConversation _ h
      go (raise (engine_error x), machine) = IsWaiting-IsConversation _ h
      go (raise (foreign x), machine) = IsWaiting-IsConversation _ h
      go (raise (http_exception n x), machine) = IsWaiting-IsConversation _ h
      go (raise (auth_error x), machine) = IsWaiting-IsConversation _ h

  -- However a run ends, and whatever the model, the tools and the services answer: the conversation
  -- that it leaves is opened by the user and holds no two answers side by side, so that Anthropic's
  -- form of it alternates between the user and the assistant, also after compactions.
  pub run-Alternates :
      (agent_id system : String) (available : AvailableTools W) (trigger : Trigger)
      (run_id : Option String) (machine : AgentStateMachine) (w : W)
      → Alternates true (
          normalize_messages
            (run loop agent_id system available trigger run_id machine w).1.context.messages)
  unfolding run build_initial_messages
  run-Alternates agent_id system available trigger run_id machine w =
      normalize_messages-Alternates _ (start_run-Spoken system _ _ (refl, tt, refl))
