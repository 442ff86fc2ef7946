-- ===== src/Engine/Heartbeat/Filters.antt =====
-- heartbeat.py: stored filters that do not compile.
use Prim.Native.String.{◌++◌}
use agentcompany.Prelude.{
  ◌≡◌, refl, String, List, [], ◌∷◌, some, Member, inl, inr, ap, Option-cases, false, arith,
}
use agentcompany.Exec.{Error, raise, value_error}
use agentcompany.Json.{Fields}
use agentcompany.Engine.Heartbeat.{Regex, check_patterns, event_filter}
use agentcompany.Engine.Heartbeat.Events.{
  given, is_unset, StoredAgent, StoredFilter, build_event_filter,
}
use agentcompany.Engine.Heartbeat.Service.{HeartbeatService, selects}

check_patterns_invalid :
    (re : Regex) (patterns : List String) {pattern why : String}
    → Member pattern patterns
    → re.compile_error pattern ≡ some why
    → (e : Error) × (check_patterns re patterns ≡ raise e)
check_patterns_invalid re [] m broken = absurd m
check_patterns_invalid re (p ∷ ps) m broken = elim (Option-cases (re.compile_error p)) [
  | inr (x, e) ↦ (
    value_error ("Invalid content_pattern regex '" ++ (p ++ ("': " ++ x))),
    rw (e, check_patterns) refl,
  )
  | inl e ↦ elim m [
    | inl same ↦ cc (ap re.compile_error same, broken, e)
    | inr later ↦
        let (x, bad) = check_patterns_invalid re ps later broken in (x, rw (e, check_patterns) bad)
  ]
]

pub selects_invalid :
    {W : Type 0} (service : HeartbeatService W) (event : Fields) (agent : StoredAgent)
    {stored : StoredFilter} {patterns : List String} {pattern why : String}
    → agent.filter ≡ some stored
    → stored.content_patterns ≡ given patterns
    → Member pattern patterns
    → service.re.compile_error pattern ≡ some why
    → (e : Error) × (selects service event agent ≡ raise e)
unfolding selects build_event_filter event_filter
selects_invalid service event agent {stored} {patterns} filtered has_patterns found broken =
    let (e, bad) = check_patterns_invalid service.re patterns found broken in
    (e, rw filtered (rw (set_filter, has_patterns) (rw bad refl)))
  where
    set_filter : is_unset stored ≡ false
    set_filter = ground (arith, has_patterns)
