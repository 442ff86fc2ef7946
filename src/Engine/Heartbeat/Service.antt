-- ===== src/Engine/Heartbeat/Service.antt =====
-- heartbeat.py: `HeartbeatService`, the jobs of the agents that wake by the clock and the routing of
-- platform events to the others.
use Prim.Native.String.{◌++◌}
use agentcompany.Prelude.{
  Option, String, List, Bool, ℕ, or_else, Dict, some, true, false, if◌then◌else◌, none, contains,
  ◌∷◌, [], not, is_empty, ◌&&◌, ◌+◌,
}
use agentcompany.Json.{Builtins, Fields, Json, get, str, truthy, obj, field, end, merge}
use agentcompany.Engine.Heartbeat.{
  Regex, HeartbeatConfig, EventFilter, Cron, to_redis_dict, always_on, parse_cron, scheduled,
}
use agentcompany.Prelude.Int.{ℤ, pos}
use agentcompany.Exec.{
  ok, raise, type_error, Exec, Result, pure, ◌>>◌, ◌>>=◌, raise_if, total, lift, value_error,
  otherwise,
}
use agentcompany.Engine.Heartbeat.Events.{
  StoredAgent, ranks_below, is_among, assigned_to, content_of, same, is_nil, any_match, is_unset,
  build_event_filter,
}

pub data JobTrigger : Type 0 where
  interval : Option ℤ → JobTrigger
  cron : Cron → JobTrigger

-- `add_job(self._tick, ...)`: the id, the trigger, and the agent that ticks.
pub record Job : Type 0 where
  pub id : String
  pub trigger : JobTrigger
  pub agent_id : String

-- The repository, Redis, the scheduler, the clock and uuid4 that the service is given. `encode` is
-- what the Redis client sends for a value of an entry: a text as it is.
pub record HeartbeatService (W : Type 0) : Type 0 where
  pub py : Builtins
  pub re : Regex
  pub list_active_event_triggered : Exec W (List StoredAgent)
  pub xadd : String → Dict String → Exec W Unit
  pub add_job : Job → Exec W Unit
  pub remove_job : String → Exec W Unit
  pub encode : Json → Result String
  pub new_uuid : W → String × W
  pub now : W → String × W

abbrev pub global_stream : String
global_stream = "triggers:all"

abbrev pub heartbeat_job : String → String
heartbeat_job agent_id = "heartbeat_" ++ agent_id

abbrev pub schedule_job : String → String
schedule_job agent_id = "schedule_" ++ agent_id

-- The job of an agent that wakes by an interval.
abbrev pub interval_job : String → Option ℤ → Job
interval_job agent_id seconds = record {
  id = heartbeat_job agent_id;
  trigger = interval seconds;
  agent_id = agent_id;
}

abbrev pub trigger_id_of : String → String
trigger_id_of uuid = "trig_" ++ uuid

module _ {W : Type 0} (service : HeartbeatService W) where
  open service use {
    py, re, list_active_event_triggered, xadd, add_job, remove_job, encode, new_uuid, now,
  }

  unfoldable pub register_agent : String → HeartbeatConfig → Exec W Unit
  register_agent agent_id config = do
    raise_if (is_empty agent_id) (value_error "agent_id must not be empty")
    elim config.mode [
      | always_on ↦ add_job (interval_job agent_id config.interval_seconds)
      | scheduled ↦ (do
        parsed ← lift (parse_cron py config.cron)
        add_job (record { id = schedule_job agent_id; trigger = cron parsed; agent_id = agent_id }))
      | _ ↦ pure tt
    ]

  -- Every exception of the scheduler is passed over.
  unfoldable pub deregister_agent : String → Exec W Unit
  deregister_agent agent_id = do
    raise_if (is_empty agent_id) (value_error "agent_id must not be empty")
    otherwise (remove_job (heartbeat_job agent_id)) tt
    otherwise (remove_job (schedule_job agent_id)) tt

  -- `_enqueue_trigger`
  unfoldable pub enqueue_trigger : String → String → String → Json → Exec W String
  enqueue_trigger agent_id trigger_type source payload = do
    uuid ← total new_uuid
    enqueued_at ← total now
    let trigger_id = trigger_id_of uuid
    entry ← lift (
        to_redis_dict py (record {
          trigger_id = trigger_id;
          agent_id = agent_id;
          trigger_type = trigger_type;
          source = source;
          payload = payload;
          enqueued_at = enqueued_at;
          attempt = pos 1;
        }))
    xadd global_stream entry
    pure trigger_id

  -- `_tick`
  unfoldable pub tick : String → Exec W Unit
  tick agent_id = do
    enqueue_trigger agent_id "heartbeat.tick" "heartbeat"
        (obj (field "type" (str "heartbeat.tick") (field "agent_id" (str agent_id) end)))
    pure tt

  -- The tests of `_matches`, for sources that are no None.
  unfoldable pub matches_from : List String → Fields → EventFilter → Option String → Result Bool
  matches_from sources event f agent_user_id =
      if not (contains sources "all") && not (is_among sources (get "source" event))
      then ok false
      else if not (is_nil f.event_types) && not (is_among f.event_types (get "type" event))
      then ok false
      else if f.match_assigned_to_agent && not (same (assigned_to event) agent_user_id)
      then ok false
      else elim (ranks_below event (or_else f.min_priority "")) [
        | raise e ↦ raise e
        | ok below ↦
            if below
            then ok false
            else if not (is_nil f.content_patterns)
                && not (any_match re (content_of py event) f.content_patterns)
            then ok false
            else ok true
      ]

  -- `_matches`: `in` of None raises.
  unfoldable pub matches : Fields → EventFilter → Option String → Result Bool
  matches event f agent_user_id = elim f.sources [
    | none ↦ raise type_error
    | some sources ↦ matches_from sources event f agent_user_id
  ]

  -- Whether an agent is triggered, in the loop of `handle_platform_event`.
  unfoldable pub selects : Fields → StoredAgent → Result Bool
  selects event agent = elim agent.filter [
    | none ↦ ok false
    | some stored ↦ if is_unset stored then ok false else elim (build_event_filter re stored) [
      | raise e ↦ raise e
      | ok f ↦ matches event f agent.platform_user_id
    ]
  ]

  -- The body of the loop: how many agents it triggered, 0 or 1.
  unfoldable pub route : Fields → StoredAgent → Exec W ℕ
  route event agent = do
    selected ← lift (selects event agent)
    if selected
        then (do
          trigger_type ← lift (encode (or_else (get "type" event) (str "platform_event")))
          source ← lift (encode (or_else (get "source" event) (str "unknown")))
          enqueue_trigger agent.agent_id trigger_type source (obj event)
          pure 1)
        else pure 0

  unfoldable pub route_all : Fields → List StoredAgent → Exec W ℕ
  route_all event [] = pure 0
  route_all event (agent ∷ agents) = do
    n ← route event agent
    m ← route_all event agents
    pure (n + m)

  unfoldable pub handle_platform_event : Fields → Exec W ℕ
  handle_platform_event event = do
    raise_if (not (truthy (obj event))) (value_error "event must not be empty")
    agents ← list_active_event_triggered
    route_all event agents

  unfoldable pub enqueue_manual_trigger : String → Fields → String → Exec W String
  enqueue_manual_trigger agent_id payload triggered_by = do
    raise_if (is_empty agent_id) (value_error "agent_id must not be empty")
    enqueue_trigger agent_id "manual" "api"
        (obj (merge (field "triggered_by" (str triggered_by) end) payload))
