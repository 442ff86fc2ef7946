-- ===== src/Engine/Heartbeat/Matching.antt =====
-- heartbeat.py: which events wake which agents.
use agentcompany.Prelude.{
  ◌≡◌, refl, List, String, true, Option, [], contains, ◌⊎◌, false, inl, ◌∷◌, inr, some, ◌≢◌, ◌≤◌,
  Bool, ℕ, if◌then◌else◌,
}
use agentcompany.Engine.Heartbeat.{Regex, EventFilter}
use agentcompany.Exec.{Result, ok, raise}
use agentcompany.Engine.Heartbeat.Events.{
  is_nil, is_among, same, assigned_to, priority_rank, event_rank, any_match, content_of,
}
use agentcompany.Json.{Builtins, Fields, get}

-- The event satisfies the filter of an agent: every condition that is set.
pub record Accepts (re : Regex) (py : Builtins) (event : Fields) (f : EventFilter)
    (user : Option String) : Type 0 where
  pub from_source :
      (sources : List String) × (f.sources ≡ some sources)
      × ((contains sources "all" ≡ true) ⊎ (is_among sources (get "source" event) ≡ true))
  pub of_type : (f.event_types ≡ []) ⊎ (is_among f.event_types (get "type" event) ≡ true)
  pub assigned : f.match_assigned_to_agent ≡ true → same (assigned_to event) user ≡ true
  pub ranked :
      (p : String)
      → f.min_priority ≡ some p
      → p ≢ ""
      → (rank : ℕ) × (event_rank event ≡ ok rank) × (priority_rank p ≤ rank)
  pub content :
      (f.content_patterns ≡ []) ⊎ (any_match re (content_of py event) f.content_patterns ≡ true)

nil_cases : (ts : List String) → ((is_nil ts ≡ true) × (ts ≡ [])) ⊎ (is_nil ts ≡ false)
nil_cases [] = inl (refl, refl)
nil_cases (t ∷ ts) = inr refl

-- Five tests in a row, each of which refuses; the fourth may raise.
refusals : Bool → Bool → Bool → Result Bool → Bool → Result Bool
refusals a b c r d =
    if a then ok false else if b then ok false else if c then ok false else elim r [
      | raise e ↦ raise e
      | ok below ↦ if below then ok false else if d then ok false else ok true
    ]

-- The event ranks high enough.
RanksAbove : Fields → Option String → Type 0
RanksAbove event o =
    (p : String)
    → o ≡ some p
    → p ≢ ""
    → (rank : ℕ) × (event_rank event ≡ ok rank) × (priority_rank p ≤ rank)
