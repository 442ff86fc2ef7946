-- ===== src/Tests/Triggers.antt =====
-- Events, the trigger stream and the scheduler.
use agentcompany.Prelude.{
  inl, ◌≡◌, refl, List, Dict, if◌then◌else◌, some, none, ◌∷◌, String, ◌==◌, [], length, true,
  lookup, insert, erase, map, false,
}
use agentcompany.Engine.Heartbeat.{
  Regex, TriggerMessage, to_redis_dict, HeartbeatConfig, event_filter, from_redis_dict, always_on,
}
use agentcompany.Engine.Heartbeat.Events.{
  given, missing, StoredFilter, StoredAgent, build_event_filter,
}
use agentcompany.Engine.Heartbeat.Service.{
  selects, matches_from, HeartbeatService, matches, deregister_agent, handle_platform_event,
}
use agentcompany.Json.{Fields, get, truthy, field, obj, str, end}
use agentcompany.Engine.Heartbeat.Routing.{
  Writable, woken, invalid_filter_stops, handle_platform_event_lem, AllAnswer,
}
use agentcompany.Engine.Heartbeat.Schedule.{KeepsJobs, deregister_agent_lem}
use agentcompany.Engine.Heartbeat.Stream.{KeepsStream, receivers}
use agentcompany.Tests.Fixtures.{World, new_world, python, answers}
use agentcompany.Exec.{Error, ok, raise, type_error}
use agentcompany.Prelude.Int.{pos}
use agentcompany.Engine.Heartbeat.Messages.{from_redis_dict-to_redis_dict}
use mathlib.Core.List.{◌++◌}

-- A pattern that starts with "(" does not compile.
abbrev regex : Regex
regex = record {
  compile_error = λ p. if p == "(" then some "missing )" else none;
  search = λ p s. p == s;
}

abbrev stored : StoredFilter
stored = record {
  event_types = given ("task.assigned" ∷ []);
  match_assigned_to_agent = missing;
  content_patterns = missing;
  sources = missing;
  min_priority = given "high";
}

abbrev stored_agents : List StoredAgent
stored_agents =
    record { agent_id = "agt_1"; platform_user_id = some "u1"; filter = some stored }
    ∷ record { agent_id = "agt_2"; platform_user_id = some "u2"; filter = some stored }
    ∷ []

abbrev pub service : HeartbeatService World
service = record {
  py = python;
  re = regex;
  list_active_event_triggered = answers stored_agents;
  xadd = λ key entry w. (ok tt, record w { stream = w.stream ++ entry ∷ [] });
  add_job = λ job w. (ok tt, record w { jobs = insert job.id job w.jobs });
  remove_job = λ id w. (ok tt, record w { jobs = erase id w.jobs });
  encode = λ v. elim v [ str s ↦ ok s | _ ↦ raise type_error ];
  new_uuid = λ w. ("1", w);
  now = λ w. ("2026-01-02T00:00:00", w);
}

abbrev event : Fields
event = field "type" (str "task.assigned") (
    field "source" (str "plane")
      (field "assigned_to" (str "u1") (field "priority" (str "critical") end)))

abbrev stream : KeepsStream service
stream = record {
  entries = λ w. w.stream;
  xadd_ok = λ entry w. refl;
  xadd_entries = λ entry w. refl;
  uuid_entries = λ w. refl;
  now_entries = λ w. refl;
}

abbrev pub scheduler : KeepsJobs service
scheduler = record {
  jobs = λ w. w.jobs;
  add_ok = λ job w. refl;
  add_jobs = λ job w. refl;
  remove_jobs = λ id w. refl;
}

writable : Writable service event
unfolding get
writable = record {
  trigger_type = "task.assigned";
  source = "plane";
  payload = "{}";
  type_ok = refl;
  source_ok = refl;
  payload_ok = refl;
}

answering : AllAnswer service event stored_agents
unfolding selects build_event_filter event_filter matches matches_from get truthy
answering = ((true, refl), ((false, refl), tt))

handle_platform_event_lem_example :
    ((handle_platform_event service event new_world).0
      ≡ ok (length (woken service event stored_agents)))
    × (receivers service (stream.entries (handle_platform_event service event new_world).1)
        ≡ receivers service (stream.entries new_world)
          ++ map some (woken service event stored_agents))
unfolding truthy
handle_platform_event_lem_example =
    handle_platform_event_lem service stream event writable stored_agents new_world refl refl
      answering

abbrev broken : StoredAgent
broken = record {
  agent_id = "agt_3";
  platform_user_id = none;
  filter = some (record stored { content_patterns = given ("(" ∷ []) });
}

abbrev first_agent : StoredAgent
first_agent = record { agent_id = "agt_1"; platform_user_id = some "u1"; filter = some stored }

-- The agent whose filter is broken stands between two.
abbrev broken_service : HeartbeatService World
broken_service = record service {
  list_active_event_triggered = answers (first_agent ∷ broken ∷ first_agent ∷ []);
}

abbrev broken_stream : KeepsStream broken_service
broken_stream = record {
  entries = λ w. w.stream;
  xadd_ok = λ entry w. refl;
  xadd_entries = λ entry w. refl;
  uuid_entries = λ w. refl;
  now_entries = λ w. refl;
}

broken-Writable : Writable broken_service event
unfolding get
broken-Writable = record {
  trigger_type = "task.assigned";
  source = "plane";
  payload = "{}";
  type_ok = refl;
  source_ok = refl;
  payload_ok = refl;
}

first_answers : AllAnswer broken_service event (first_agent ∷ [])
unfolding selects build_event_filter event_filter matches matches_from get truthy
first_answers = ((true, refl), tt)

invalid_filter_stops_example :
    (e : Error) × ((handle_platform_event broken_service event new_world).0 ≡ raise e)
    × (receivers broken_service
          (broken_stream.entries (handle_platform_event broken_service event new_world).1)
        ≡ receivers broken_service (broken_stream.entries new_world)
          ++ map some (woken broken_service event (first_agent ∷ [])))
unfolding truthy
invalid_filter_stops_example =
    invalid_filter_stops broken_service broken_stream event broken-Writable (first_agent ∷ [])
      (first_agent ∷ []) broken (record stored { content_patterns = given ("(" ∷ []) }) ("(" ∷ [])
      "(" "missing )" new_world refl refl first_answers refl refl (inl refl) refl

abbrev sent : TriggerMessage
sent = record {
  trigger_id = "trig_1";
  agent_id = "agt_1";
  trigger_type = "manual";
  source = "api";
  payload = obj end;
  enqueued_at = "2026-01-02T00:00:00";
  attempt = pos 1;
}

abbrev entry : Dict String
entry =
    ("trigger_id", "trig_1")
    ∷ ("agent_id", "agt_1")
    ∷ ("trigger_type", "manual")
    ∷ ("source", "api")
    ∷ ("payload", "{}")
    ∷ ("enqueued_at", "2026-01-02T00:00:00")
    ∷ ("attempt", "1")
    ∷ []

from_redis_dict-to_redis_dict_example :
    from_redis_dict python entry new_world ≡ (ok sent, new_world)
unfolding to_redis_dict
from_redis_dict-to_redis_dict_example =
    from_redis_dict-to_redis_dict python sent entry new_world
      (record { loads_dumps = λ s e. refl; parse_int_text = refl }) refl

abbrev config : HeartbeatConfig
config = record {
  mode = always_on;
  interval_seconds = some (pos 30);
  cron = none;
  filter = none;
  max_run_seconds = pos 300;
}

deregister_agent_lem_example :
    ((deregister_agent service "agt_1" new_world).0 ≡ ok tt)
    × (lookup "heartbeat_agt_1" (scheduler.jobs (deregister_agent service "agt_1" new_world).1)
        ≡ none)
deregister_agent_lem_example =
    deregister_agent_lem service scheduler "agt_1" new_world "heartbeat_agt_1" (λ e. cc)
