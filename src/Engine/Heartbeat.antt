-- ===== src/Engine/Heartbeat.antt =====
-- services/agent-runtime/app/engine/heartbeat.py: when agents wake up. The configurations, the
-- filters of events, and the messages of the trigger stream; the service is in the child modules.
pub mod Events
pub mod Service
pub mod Messages
pub mod Matching
pub mod Schedule
pub mod Stream
pub mod Filters
pub mod Routing
use Prim.Native.String.{◌++◌}
use agentcompany.Prelude.{
  ◌≡◌, String, List, Option, Bool, if◌then◌else◌, Dict, or_else, ◌∷◌, some, is_empty, [], none,
  lookup,
}
use agentcompany.Exec.{Result, ok, raise, Exec, value_error, lift, ◌>>=◌, key_error, pure}
use agentcompany.Json.{Builtins, Json}
use agentcompany.Prelude.Int.{ℤ, ltb_ℤ, pos}

pub data HeartbeatMode : Type 0 where
  always_on event_triggered scheduled manual : HeartbeatMode

-- What the code uses of `re`: the text of the error of `re.compile`, and `re.search` without case.
pub record Regex : Type 0 where
  pub compile_error : String → Option String
  pub search : String → String → Bool

-- `event_types` has no texts where it is None, which is as false as an empty list; `sources` is none
-- where it is None.
pub record EventFilter : Type 0 where
  pub event_types : List String
  pub match_assigned_to_agent : Bool
  pub content_patterns : List String
  pub sources : Option (List String)
  pub min_priority : Option String

-- The loop of `EventFilter.__post_init__`.
abbrev pub check_patterns : Regex → List String → Result (Unit {0})
check_patterns re [] = ok tt
check_patterns re (p ∷ ps) = elim (re.compile_error p) [
  | some e ↦ raise (value_error ("Invalid content_pattern regex '" ++ (p ++ ("': " ++ e))))
  | none ↦ check_patterns re ps
]

-- The constructor.
unfoldable pub event_filter : Regex → EventFilter → Result EventFilter
event_filter re f = elim (check_patterns re f.content_patterns) [ ok _ ↦ ok f | raise e ↦ raise e ]

pub record HeartbeatConfig : Type 0 where
  pub mode : HeartbeatMode
  pub interval_seconds : Option ℤ
  pub cron : Option String
  pub filter : Option EventFilter
  pub max_run_seconds : ℤ

-- `HeartbeatConfig.__post_init__`
unfoldable pub heartbeat_config : HeartbeatConfig → Result HeartbeatConfig
heartbeat_config c = elim c.mode [
  | always_on ↦
      if ltb_ℤ (or_else c.interval_seconds (pos 0)) (pos 1)
      then raise (value_error "interval_seconds must be >= 1 for always_on mode")
      else ok c
  | scheduled ↦
      if is_empty (or_else c.cron "")
      then raise (value_error "cron expression is required for scheduled mode")
      else ok c
  | event_triggered ↦ elim c.filter [
    | none ↦ raise (value_error "event_filter is required for event_triggered mode")
    | some _ ↦ ok c
  ]
  | manual ↦ ok c
]

pub record TriggerMessage : Type 0 where
  pub trigger_id : String
  pub agent_id : String
  pub trigger_type : String
  pub source : String
  pub payload : Json
  pub enqueued_at : String
  pub attempt : ℤ

-- `data[key]`
abbrev pub item : {S : Type 0} → String → Dict String → Exec S String
item key data_ = lift (elim (lookup key data_) [ some v ↦ ok v | none ↦ raise (key_error key) ])

-- The arguments of a cron job.
pub record Cron : Type 0 where
  pub minute : String
  pub hour : String
  pub day : String
  pub month : String
  pub day_of_week : String

module _ (py : Builtins) where
  -- The dict, of a payload that was written.
  abbrev pub entry_of : TriggerMessage → String → Dict String
  entry_of m payload =
      ("trigger_id", m.trigger_id)
      ∷ ("agent_id", m.agent_id)
      ∷ ("trigger_type", m.trigger_type)
      ∷ ("source", m.source)
      ∷ ("payload", payload)
      ∷ ("enqueued_at", m.enqueued_at)
      ∷ ("attempt", py.int_text m.attempt)
      ∷ []

  unfoldable pub to_redis_dict : TriggerMessage → Result (Dict String)
  to_redis_dict m = elim (py.dumps m.payload) [
    | raise e ↦ raise e
    | ok payload ↦ ok (entry_of m payload)
  ]

  -- `int(data.get("attempt", 1))`
  abbrev attempt_of : Option String → Result ℤ
  attempt_of none = ok (pos 1)
  attempt_of (some s) = py.parse_int s

  unfoldable pub from_redis_dict : {S : Type 0} → Dict String → Exec S TriggerMessage
  from_redis_dict entry = do
    trigger_id ← item "trigger_id" entry
    agent_id ← item "agent_id" entry
    trigger_type ← item "trigger_type" entry
    source ← item "source" entry
    payload ← lift (py.loads (or_else (lookup "payload" entry) "{}"))
    enqueued_at ← item "enqueued_at" entry
    attempt ← lift (attempt_of (lookup "attempt" entry))
    pure (record {
      trigger_id = trigger_id;
      agent_id = agent_id;
      trigger_type = trigger_type;
      source = source;
      payload = payload;
      enqueued_at = enqueued_at;
      attempt = attempt;
    })

  abbrev fields_of : String → List String → Result Cron
  fields_of expression (a ∷ b ∷ c ∷ d ∷ e ∷ []) =
      ok (record { minute = a; hour = b; day = c; month = d; day_of_week = e })
  fields_of expression _ = raise (
      value_error (
        "cron expression must have 5 fields (minute hour day month day_of_week), got: '"
        ++ (expression ++ "'")))

  -- `_parse_cron`
  unfoldable pub parse_cron : Option String → Result Cron
  parse_cron cron =
      let expression = or_else cron "" in
      if is_empty expression
      then raise (value_error "cron expression must not be empty")
      else fields_of expression (py.split (py.strip expression))
