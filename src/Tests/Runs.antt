-- ===== src/Tests/Runs.antt =====
-- Runs of the decision loop, and what they use of memories and of compaction.
use agentcompany.Prelude.{
  ◌≡◌, refl, ◌≢◌, List, ℕ, some, length, String, ◌≤◌, ◌∷◌, [], none, ◌+◌, take, sym, arith,
  length-take, min, ◌-◌,
}
use agentcompany.Engine.AgentLoop.{
  AgentDecisionLoop, Trigger, Run, LoopResult, budget_exceeded, failed,
}
use agentcompany.Engine.CostTracker.{
  check, get_daily_tokens, get_monthly_tokens, get_daily_usd, get_monthly_usd, budget_status,
}
use agentcompany.Engine.Memory.Search.{Owned, search_bounded, KeepsLimit}
use agentcompany.Engine.Llm.{Adapter, Message}
use agentcompany.Engine.ContextManager.{
  maybe_compact, compacted, compact, summarize, archive_to_memory,
}
use agentcompany.Tests.Fixtures.{
  python, World, message, model, units, memory, clock, echo, new_world, redis, worker, idle,
  insert_usage, registry, tracker, rows,
}
use agentcompany.Json.{obj, end, take_chars, join}
use agentcompany.Engine.AgentLoop.Loop.{run, round, agent_tools, definitions}
use agentcompany.Prelude.Int.{pos, ◌≤ℤ◌}
use agentcompany.Exec.States.{running, created, active}
use agentcompany.Exec.{ok, invalid_transition, ◌>>=◌, ok_inj}
use agentcompany.Engine.AgentLoop.Outcomes.{run_settles, Settled}
use agentcompany.Engine.AgentLoop.Refusals.{run_refuses, round_over_budget}
use agentcompany.Engine.ContextManager.Compaction.{maybe_compact_past}
use agentcompany.Engine.Memory.{Row, MemoryEntry, search, entries, memory_entry, store}
use mathlib.Core.List.{◌++◌}

abbrev pub loop : AgentDecisionLoop ℕ String World
loop = record {
  py = python;
  ops = units;
  describe = λ e. "error";
  float_text = λ f. "0";
  clock = clock;
  redis = redis;
  insert_usage = insert_usage;
  llm = model;
  tools = registry;
  memory = memory;
  memory_owner = "agt_1";
  cost_tracker = tracker;
  max_steps = 3;
}

abbrev pub trigger : Trigger
trigger = record { trigger_id = some "trig_1"; type = some "manual"; payload = some (obj end) }

-- No tokens are left in this state.
abbrev spent : Run ℕ World
spent = record {
  context = record {
    run_id = "run_1";
    agent_id = "agt_1";
    trigger = trigger;
    messages = message "go" ∷ [];
    tool_results = [];
    step_count = 0;
    tokens_used = pos 0;
    cost_usd = 0;
  };
  machine = record { agent_id = "agt_1"; state = running };
  world = record new_world { cells = λ k. some 1000 };
}

run_settles_example :
    (r : LoopResult ℕ) × ((run loop "agt_1" "system"
        (agent_tools (echo ∷ []))
        trigger
        none
        worker
        new_world).0
      ≡ ok r)
    × Settled 3 r
        (run loop "agt_1" "system" (agent_tools (echo ∷ [])) trigger none worker new_world).1
run_settles_example =
    run_settles loop "agt_1" "system" (agent_tools (echo ∷ [])) trigger none worker new_world refl

created_is_idle : created ≢ active
created_is_idle e = cc

run_refuses_example :
    (r : LoopResult ℕ) × ((run loop "agt_1" "system" (definitions []) trigger none idle new_world).0
      ≡ ok r)
    × (r.outcome ≡ failed)
    × (r.error ≡ some (invalid_transition "agt_1" created running))
    × (r.steps_taken ≡ 0)
    × ((run loop "agt_1" "system" (definitions []) trigger none idle new_world).1.machine ≡ idle)
run_refuses_example =
    run_refuses loop "agt_1" "system" (definitions []) trigger none idle new_world created_is_idle

round_over_budget_example :
    (r : LoopResult ℕ) × ((round loop "system" [] spent).0 ≡ ok (some r))
    × (r.outcome ≡ budget_exceeded)
    × (r.steps_taken ≡ 0 + 1)
    × ((round loop "system" [] spent).1.world ≡ spent.world)
unfolding check ◌>>=◌ get_daily_tokens get_monthly_tokens get_daily_usd get_monthly_usd
    budget_status
round_over_budget_example = round_over_budget loop "system" [] spent _ spent.world refl refl

few : (n : ℕ) (xs : List (Row ℕ String)) → length (take n xs) ≤ n
few n xs = omega (arith, length-take n xs)

memory-KeepsLimit : KeepsLimit memory
memory-KeepsLimit agent e k cs w rs h = rw (sym (ok_inj h)) (few k rows)

abbrev found : MemoryEntry ℕ String
found = record {
  memory_id = "mem_1";
  agent_id = "agt_1";
  category = "decision";
  content = "used Redis";
  metadata = [];
  embedding = none;
}

search_bounded_example :
    Owned "agt_1" (found ∷ []) × (length (found ∷ []) ≤ 20) × (pos (length (found ∷ [])) ≤ℤ pos 1)
unfolding search ◌>>=◌ entries memory_entry
search_bounded_example =
    search_bounded memory memory-KeepsLimit "agt_1" "Redis" (pos 1) none new_world (found ∷ []) refl

abbrev history : List Message
history = message "a" ∷ message "b" ∷ message "c" ∷ message "d" ∷ message "e" ∷ message "f" ∷ []

abbrev small_model : Adapter ℕ World
small_model = record model { max_context_tokens = 100 }

abbrev kept : List Message
kept =
    compacted python small_model memory "agt_1" "done"
      (message "c" ∷ message "d" ∷ message "e" ∷ message "f" ∷ [])

maybe_compact_past_example :
    (summary : String) × (dropped : List Message) × (tail : List Message) × (kept
      ≡ compacted python small_model memory "agt_1" summary tail)
    × (history ≡ dropped ++ tail)
    × (length tail ≡ min 4 (length history - 1))
unfolding maybe_compact compact summarize archive_to_memory store ◌>>=◌ take_chars join
maybe_compact_past_example =
    maybe_compact_past python small_model memory "agt_1" history kept "system" "run_1" new_world
      (λ e. cc) (omega arith) refl
