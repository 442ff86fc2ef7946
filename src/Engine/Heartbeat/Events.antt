-- ===== src/Engine/Heartbeat/Events.antt =====
-- heartbeat.py: the filters that are stored with the agents, and what `_matches` reads of an event.
use agentcompany.Prelude.{
  Option, String, List, Bool, ℕ, or_else, some, true, false, if◌then◌else◌, none, ◌==◌, contains,
  ◌∷◌, [], ◌||◌, is_empty, ◌&&◌, ltb,
}
use agentcompany.Json.{arr, Builtins, Fields, Json, get, str, null, truthy, obj}
use agentcompany.Engine.Heartbeat.{Regex, EventFilter, event_filter}
use agentcompany.Exec.{ok, raise, type_error, Result}

-- A value of a stored dict: the key is not there, or its value is null.
pub data Stored (A : Type 0) : Type 0 where
  missing null_value : Stored A
  given : A → Stored A

-- What the service reads of a stored agent: its `heartbeat_config["event_filter"]`, a dict of
-- these keys at most, whose lists are lists of texts, and its `platform_user_id` (none for None; a missing one is "").
pub record StoredFilter : Type 0 where
  pub event_types : Stored (List String)
  pub match_assigned_to_agent : Stored Bool
  pub content_patterns : Stored (List String)
  pub sources : Stored (List String)
  pub min_priority : Stored String

pub record StoredAgent : Type 0 where
  pub agent_id : String
  pub platform_user_id : Option String
  pub filter : Option StoredFilter

-- `_PRIORITY_RANK.get(name, 0)`
abbrev pub priority_rank : String → ℕ
priority_rank name =
    if name == "critical"
    then 3
    else if name == "high"
    then 2
    else if name == "medium"
    then 1
    else 0

-- The rank of `event.get("priority", "low")`: a list and a dict have no hash.
abbrev pub event_rank : Fields → Result ℕ
event_rank event = elim (or_else (get "priority" event) (str "low")) [
  | str p ↦ ok (priority_rank p)
  | arr _ ↦ raise type_error
  | obj _ ↦ raise type_error
  | _ ↦ ok 0
]

-- Whether the event ranks below the least priority, where one is set.
abbrev pub ranks_below : Fields → String → Result Bool
ranks_below event least = if is_empty least then ok false else elim (event_rank event) [
  | ok rank ↦ ok (ltb rank (priority_rank least))
  | raise e ↦ raise e
]

-- `v in texts`
abbrev pub is_among : List String → Option Json → Bool
is_among ts (some (str s)) = contains ts s
is_among ts _ = false

-- `event.get("assigned_to") or event.get("mentioned_user_id")`
abbrev pub assigned_to : Fields → Json
assigned_to event =
    let v = or_else (get "assigned_to" event) null in
    if truthy v then v else or_else (get "mentioned_user_id" event) null

-- `str(event.get("content", "") or event.get("description", ""))`
abbrev pub content_of : Builtins → Fields → String
content_of py event =
    let v = or_else (get "content" event) (str "") in
    py.text_of (if truthy v then v else or_else (get "description" event) (str ""))

-- `==` of an event's value and a user id, which may be None.
abbrev pub same : Json → Option String → Bool
same (str s) (some t) = s == t
same null none = true
same _ _ = false

abbrev pub is_nil : List String → Bool
is_nil [] = true
is_nil _ = false

abbrev pub any_match : Regex → String → List String → Bool
any_match re content [] = false
any_match re content (p ∷ ps) = re.search p content || any_match re content ps

abbrev pub is_missing : {A : Type 0} → Stored A → Bool
is_missing missing = true
is_missing _ = false

-- An empty dict.
abbrev pub is_unset : StoredFilter → Bool
is_unset d =
    is_missing d.event_types
    && (is_missing d.match_assigned_to_agent
        && (is_missing d.content_patterns && (is_missing d.sources && is_missing d.min_priority)))

-- `data.get(key, default)`, of a field that may hold None.
abbrev pub given_or : {A : Type 0} → A → Stored A → Option A
given_or default missing = some default
given_or default null_value = none
given_or default (given a) = some a

-- `data.get("min_priority")`
abbrev pub given_only : {A : Type 0} → Stored A → Option A
given_only (given a) = some a
given_only _ = none

-- `_build_event_filter`: the loop over patterns that are None raises.
unfoldable pub build_event_filter : Regex → StoredFilter → Result EventFilter
build_event_filter re d = elim (given_or [] d.content_patterns) [
  | none ↦ raise type_error
  | some patterns ↦ event_filter re (record {
    event_types = or_else (given_or [] d.event_types) [];
    match_assigned_to_agent = or_else (given_or true d.match_assigned_to_agent) false;
    content_patterns = patterns;
    sources = given_or ("all" ∷ []) d.sources;
    min_priority = given_only d.min_priority;
  })
]
