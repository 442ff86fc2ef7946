-- ===== src/Api/Agents/Store.antt =====
-- api/agents.py and engine_service.py: the statements of the engine service on the table of agents
-- that the handlers change, and the engine that they call.
use agentcompany.Prelude.{String, Option, Bool, none, some, ◌==◌, ◌&&◌, ◌||◌, map}
use agentcompany.Exec.{Exec, Error, ok}
use agentcompany.Json.{Json}
use agentcompany.Core.{EventBus}
use agentcompany.Api.{find_row, update_row, select_rows}
use agentcompany.Api.Agents.{
  Agent, Session, AgentServices, is_live, with_status, statement, failing_aborts,
}
use agentcompany.Engine.EngineService.{Database, EngineService, TransitionRow, AgentRow}
use agentcompany.Engine.EngineService.Agents.{start_agent, stop_agent}
use agentcompany.Engine.EngineService.Triggers.{trigger_agent}
use agentcompany.Engine.Heartbeat.Service.{HeartbeatService}

-- What else the engine is given: the table of transitions, and Python's texts.
pub record EngineParts (W : Type 0) : Type 0 where
  pub insert_transition : TransitionRow → Exec W Unit
  pub text_of : Json → String
  pub error_text : Error → String
  pub is_within : String → String → Bool

abbrev pub has_id : String → Agent → Bool
has_id agent_id a = a.id == agent_id

abbrev status_of : Option Agent → Option String
status_of none = none
status_of (some a) = some a.status

abbrev row_of : Agent → AgentRow
row_of a = record { id = a.id; llm_config = some a.llm_config }

abbrev map_option : {A B : Type 0} → (A → B) → Option A → Option B
map_option f none = none
map_option f (some a) = some (f a)

module _ {W : Type 0} where
  -- A call of a service, in a session.
  unfoldable pub in_session : {A : Type 0} → Exec W A → Exec (Session W) A
  in_session m s = let (r, w) = m s.world in (r, record s { world = w })

  -- The statements, as their texts say, in the transaction of the session. The agents are neither
  -- read nor changed by the insertion of a transition, which may fail.
  abbrev pub database : EngineParts W → Database (Session W)
  database parts = record {
    select_status = λ agent_id.
        statement
          (λ s. (ok (status_of (find_row (λ a. has_id agent_id a && is_live a) s.agents)), s));
    set_active = λ agent_id. statement (λ s. (
      ok tt,
      record s { agents = update_row (has_id agent_id) (with_status "active") s.agents },
    ));
    insert_transition =
        λ row. statement (failing_aborts (in_session (parts.insert_transition row)));
    select_agents = λ company_id. statement (λ s. (
      ok (
          map row_of (
            select_rows
              (λ a.
                (a.company_id == company_id)
                && ((a.status == "active" || a.status == "idle") && is_live a))
              s.agents)),
      s,
    ));
    text_of = parts.text_of;
    error_text = parts.error_text;
    is_within = parts.is_within;
  }

  abbrev pub bus_in_session : EventBus W → EventBus (Session W)
  bus_in_session bus = record {
    redis_publish = λ channel message. in_session (bus.redis_publish channel message);
    dumps = bus.dumps;
  }

  abbrev total_in_session : {A : Type 0} → (W → A × W) → Session W → A × Session W
  total_in_session m s = let (a, w) = m s.world in (a, record s { world = w })

  abbrev heartbeat_in_session : HeartbeatService W → HeartbeatService (Session W)
  heartbeat_in_session h = record {
    py = h.py;
    re = h.re;
    list_active_event_triggered = in_session h.list_active_event_triggered;
    xadd = λ key entry. in_session (h.xadd key entry);
    add_job = λ job. in_session (h.add_job job);
    remove_job = λ id. in_session (h.remove_job id);
    encode = h.encode;
    new_uuid = total_in_session h.new_uuid;
    now = total_in_session h.now;
  }

  abbrev pub engine_in_session : EngineService W → EngineService (Session W)
  engine_in_session service = record {
    heartbeat = map_option heartbeat_in_session service.heartbeat;
    bus = map_option bus_in_session service.bus;
  }

  -- The engine of the application.
  abbrev pub agent_services : EngineParts W → EngineService W → String → String → AgentServices W
  agent_services parts service new_id now = record {
    start_agent = start_agent (database parts) (engine_in_session service);
    stop_agent = stop_agent (database parts) (engine_in_session service);
    trigger_agent = trigger_agent (database parts) (engine_in_session service);
    error_text = parts.error_text;
    new_id = new_id;
    now = now;
  }
