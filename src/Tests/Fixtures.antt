-- ===== src/Tests/Fixtures.antt =====
-- Services for the tests: one world that holds the counters, the trigger stream and the jobs.
use agentcompany.Prelude.{
  refl, ◌+◌, ◌-◌, ltb, leb, String, [], List, Option, ℕ, ◌∷◌, Dict, none, take, if◌then◌else◌, true,
  length,
}
use agentcompany.Engine.CostTracker.Floats.{FloatOps, IsExact}
use agentcompany.Exec.{Exec, ok}
use agentcompany.Engine.CostTracker.Counters.{Redis, IsLawful, after_commands}
use agentcompany.Engine.CostTracker.{Clock, UsageRecord, CostTracker}
use agentcompany.Json.{Builtins, end, str, obj}
use agentcompany.Engine.Memory.{MemoryServices, Row}
use agentcompany.Engine.Llm.{end_turn, ToolCall, Adapter, LlmResponse, Message}
use agentcompany.Engine.ToolRegistry.{AgentTool, ToolRegistry}
use agentcompany.Engine.StateMachine.{AgentStateMachine}
use agentcompany.Exec.States.{active, created}
use agentcompany.Prelude.Int.{pos_part, pos}
use agentcompany.Engine.Heartbeat.Service.{Job}

pub record World : Type 0 where
  pub cells : String → Option ℕ
  pub stream : List (Dict String)
  pub jobs : Dict Job

abbrev pub no_cells : String → Option ℕ
no_cells k = none

abbrev pub new_world : World
new_world = record { cells = no_cells; stream = []; jobs = [] }

-- Costs in whole units.
abbrev pub units : FloatOps ℕ
units = record { of_int = pos_part; add = λ a b. a + b; sub = λ a b. a - b; lt = λ a b. ltb a b }

pub units-IsExact : IsExact units
units-IsExact = record { add_exact = λ a b h. refl; lt_exact = λ a b h k. refl }

abbrev pub answers : {W A : Type 0} → A → Exec W A
answers a w = (ok a, w)

abbrev pub redis : Redis ℕ World
redis = record {
  get = λ k w. (ok (w.cells k), w);
  pipeline = λ cs w. (ok tt, record w { cells = after_commands units cs w.cells });
}

abbrev pub lawful_redis : IsLawful units redis
lawful_redis = record {
  cell = λ w. w.cells;
  get_lem = λ k w. refl;
  pipeline_ok = λ cs w. refl;
  pipeline_cell = λ cs w k. refl;
}

abbrev pub clock : Clock World
clock = record { today_key = λ w. "2026-01-02"; month_key = λ w. "2026-01" }

abbrev pub insert_usage : UsageRecord ℕ → Exec World Unit
insert_usage u = answers tt

abbrev pub tracker : CostTracker ℕ
tracker = record {
  agent_id = "agt_1";
  company_id = "acme";
  daily_token_budget = pos 1000;
  monthly_token_budget = pos 5000;
  daily_usd_budget = 10;
  monthly_usd_budget = 100;
}

abbrev pub python : Builtins
python = record {
  upper = λ s. s;
  lower = λ s. s;
  strip = λ s. s;
  split = λ s. s ∷ [];
  int_text = λ n. "1";
  parse_int = λ s. ok (pos 1);
  text_of = λ v. "text";
  dumps = λ v. ok "{}";
  loads = λ s. ok (obj end);
}

-- The embeddings are texts.
abbrev pub rows : List (Row ℕ String)
rows =
    record { id = "mem_1"; category = "decision"; content = "used Redis"; metadata = none }
    ∷ record { id = "mem_2"; category = "entity"; content = "acme"; metadata = none }
    ∷ []

abbrev pub memory : MemoryServices ℕ String World
memory = record {
  upsert = λ m. answers tt;
  vector_search = λ agent e k cs. answers (take k rows);
  delete = λ agent id. answers true;
  upsert_entity = λ a b c d. answers tt;
  fetch_entity = λ a b c. answers none;
  embed = λ s. answers s;
  new_uuid = λ w. ("1", w);
  int_text = λ n. "n";
  set_text = λ cs. "set";
}

abbrev pub response : List ToolCall → LlmResponse ℕ
response calls = record {
  content = "done";
  tool_calls = calls;
  stop_reason = end_turn;
  input_tokens = pos 10;
  output_tokens = pos 20;
  tokens_used = pos 30;
  model = "small";
  cost_usd = 1;
}

abbrev pub call : ToolCall
call = record { id = "call_1"; name = "echo"; arguments = end }

-- A model that calls a tool first and then ends.
abbrev pub model : Adapter ℕ World
model = record {
  complete =
      λ ms system tools limits. answers (response (if leb (length ms) 1 then call ∷ [] else []));
  count_tokens = λ ms system. 100;
  max_context_tokens = 1000;
  name = "local";
}

abbrev pub echo : AgentTool World
echo = record {
  name = "echo";
  description = "Echoes.";
  parameters = end;
  required_roles = "ceo" ∷ [];
  handler = λ arguments. answers (str "echo");
}

abbrev pub registry : ToolRegistry World
registry = ("echo", echo) ∷ []

abbrev pub message : String → Message
message s = record { role = "user"; content = s; tool_call_id = none }

abbrev pub worker : AgentStateMachine
worker = record { agent_id = "agt_1"; state = active }

abbrev pub idle : AgentStateMachine
idle = record { agent_id = "agt_1"; state = created }
