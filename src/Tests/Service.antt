-- ===== src/Tests/Service.antt =====
-- The engine service: starts, events of a company and manual triggers.
use agentcompany.Prelude.{
  ◌≡◌, refl, List, some, none, ◌∷◌, [], ◌↔◌, true, is_some, length, map, false,
}
use agentcompany.Exec.{ok, raise, engine_error}
use agentcompany.Json.{
  Builtins, Json, Fields, Items, obj, field, str, arr, cons, nil, end, get, merge, null,
}
use agentcompany.Engine.EngineService.{AgentRow, Database, EngineService, state_of_status}
use agentcompany.Engine.EngineService.Agents.{start_agent}
use agentcompany.Engine.EngineService.Triggers.{listens, trigger_by_event, trigger_agent}
use agentcompany.Tests.Fixtures.{python, World, new_world, answers}
use agentcompany.Engine.Heartbeat.Service.{HeartbeatService}
use agentcompany.Engine.EngineService.Fanout.{Shaped, listeners, trigger_by_event_lem}
use agentcompany.Engine.Heartbeat.Stream.{KeepsStream, receivers}
use agentcompany.Engine.TriggerConsumer.{ConsumerServices}
use agentcompany.Engine.Heartbeat.Messages.{ReadsBack}
use agentcompany.Prelude.Int.{pos}
use agentcompany.Engine.EngineService.Delivery.{Delivered, trigger_agent-Delivered}
use agentcompany.Tests.Consumer.{consumer}
use agentcompany.Tests.Triggers.{service}
use agentcompany.Engine.EngineService.Starting.{start_agent_iff}
use mathlib.Core.List.{◌++◌}

-- Every payload is written as "p", and "p" is read as `payload`.
abbrev python_of : Json → Builtins
python_of payload = record python { dumps = λ v. ok "p"; loads = λ s. ok payload }

abbrev heartbeat_of : Json → HeartbeatService World
heartbeat_of payload = record service { py = python_of payload }

abbrev listening : Fields
listening =
    field "heartbeat_config"
      (obj (
        field "mode" (str "event_triggered") (
          field "event_filter" (obj (field "event_types" (arr (cons (str "issue") nil)) end)) end)))
      end

abbrev agent_rows : List AgentRow
agent_rows =
    record { id = "agt_1"; llm_config = some listening }
    ∷ record { id = "agt_2"; llm_config = none }
    ∷ []

-- The agent is paused, the table of transitions is not there.
abbrev test_database : Database World
test_database = record {
  select_status = λ id. answers (some "paused");
  set_active = λ id. answers tt;
  insert_transition = λ row w. (raise (engine_error "no table"), w);
  select_agents = λ id. answers agent_rows;
  text_of = λ v. "text";
  error_text = λ e. "error";
  is_within = λ s t. false;
}

abbrev engine : EngineService World
engine = record { heartbeat = some (heartbeat_of null); bus = none }

start_agent_iff_example :
    ((start_agent test_database engine "agt_1" none new_world).0 ≡ ok tt)
    ↔ (is_some (state_of_status "paused") ≡ true)
start_agent_iff_example =
    start_agent_iff test_database engine "agt_1" "paused" none new_world new_world refl refl refl

shaped : Shaped test_database "issue" agent_rows
unfolding listens get agentcompany.Json.equals agentcompany.Json.truthy
shaped = ((true, refl), ((false, refl), tt))

abbrev stream_of : (payload : Json) → KeepsStream (heartbeat_of payload)
stream_of payload = record {
  entries = λ w. w.stream;
  xadd_ok = λ entry w. refl;
  xadd_entries = λ entry w. refl;
  uuid_entries = λ w. refl;
  now_entries = λ w. refl;
}

trigger_by_event_lem_example :
    ((trigger_by_event test_database engine "acme" "issue" end new_world).0
      ≡ ok (length (listeners test_database "issue" agent_rows)))
    × (receivers (heartbeat_of null) (
          (stream_of null).entries
            (trigger_by_event test_database engine "acme" "issue" end new_world).1)
        ≡ receivers (heartbeat_of null) ((stream_of null).entries new_world)
          ++ map some (listeners test_database "issue" agent_rows))
trigger_by_event_lem_example =
    trigger_by_event_lem test_database engine (heartbeat_of null) "acme" "issue" end
      (stream_of null) refl agent_rows new_world new_world refl refl refl refl shaped
      (refl, (refl, tt))

-- A trigger by "u1".
abbrev asked : Json
asked = obj (field "triggered_by" (str "u1") end)

abbrev asked_engine : EngineService World
asked_engine = record { heartbeat = some (heartbeat_of asked); bus = none }

abbrev redis_consumer : ConsumerServices World
redis_consumer = record consumer { py = python_of asked }

asked_back : ReadsBack (python_of asked) asked (pos 1)
asked_back = record { loads_dumps = λ s e. refl; parse_int_text = refl }

trigger_agent-Delivered_example :
    Delivered test_database asked_engine redis_consumer
      (heartbeat_of asked)
      (stream_of asked)
      refl
      "agt_1"
      "1-1"
      new_world
      new_world
      (trigger_agent test_database asked_engine "agt_1" end (some "u1") new_world)
unfolding merge
trigger_agent-Delivered_example =
    trigger_agent-Delivered test_database asked_engine redis_consumer (heartbeat_of asked)
      (stream_of asked) refl "agt_1" "1-1" end (some "u1") new_world new_world refl refl refl
      asked_back
