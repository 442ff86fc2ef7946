-- ===== src/Engine/StateMachine/Lifecycle.antt =====
-- What sequences of transitions an agent can make: `transition` against the lifecycle as a relation.
use agentcompany.Prelude.{
  ◌≡◌, refl, sym, subst, ◌∙◌, ◌≢◌, ◌⊎◌, inl, inr, true, String, Option, List, [], ◌∷◌, arith,
  is_empty, eq_iff, Bool-cases,
}
use agentcompany.Exec.{Result, ok, raise, invalid_transition}
use agentcompany.Exec.States.{
  AgentState, created, configured, active, running, paused, error, terminated,
}
use agentcompany.Engine.StateMachine.{
  AgentStateMachine, StateTransition, among, valid_transitions, transition,
}

infix 40 ◌⟶◌
pub data ◌⟶◌ : AgentState → AgentState → Type 0 where
  configure : created ⟶ configured
  activate : configured ⟶ active
  start : active ⟶ running
  hold : active ⟶ paused
  retire : active ⟶ terminated
  reconfigure : active ⟶ configured
  finish : running ⟶ active
  overspend : running ⟶ paused
  crash : running ⟶ terminated
  fail : running ⟶ error
  resume : paused ⟶ active
  retire_paused : paused ⟶ terminated
  recover : error ⟶ active
  retire_failed : error ⟶ terminated

pub ruleset edges = (
  configure, activate, start, hold, retire, reconfigure, finish, overspend, crash, fail, resume,
  retire_paused, recover, retire_failed,
)

pub among→⟶ : (a b : AgentState) → among valid_transitions a b ≡ true → a ⟶ b
unfolding valid_transitions
among→⟶ a b h = grind (arith, edges)

pub ⟶→among : {a b : AgentState} → a ⟶ b → among valid_transitions a b ≡ true
unfolding valid_transitions
⟶→among configure = refl
⟶→among _ = refl

-- How a call of `transition` ends, on each of its three branches.
abbrev pub Ends :
    AgentState
    → String
    → Option String
    → AgentStateMachine
    → Result StateTransition × AgentStateMachine
    → Type 0
Ends to why by sm (ok t, sm') =
    (why ≢ "")
    × (sm.state ⟶ to)
    × (t.agent_id ≡ sm.agent_id)
    × (t.from_state ≡ sm.state)
    × (t.to_state ≡ to)
    × (t.reason ≡ why)
    × (t.triggered_by ≡ by)
    × (sm'.state ≡ to)
    × (sm'.agent_id ≡ sm.agent_id)
Ends to why by sm (raise e, sm') =
    (sm' ≡ sm)
    × ((why ≡ "") ⊎ ((¬ (sm.state ⟶ to)) × (e ≡ invalid_transition sm.agent_id sm.state to)))

-- A transition is accepted only along an edge of the lifecycle and with a reason, and its record
-- names both ends; a refused one raises and changes nothing.
pub transition-Ends :
    (to : AgentState) (why : String) (by : Option String) (sm : AgentStateMachine)
    → Ends to why by sm (transition to why by sm)
unfolding transition
transition-Ends to why by sm = elim (Bool-cases (is_empty why)) [
  | inl e ↦ rw e (refl, inl ((eq_iff why "").0 e))
  | inr e ↦ elim (Bool-cases (among valid_transitions sm.state to)) [
    | inl v ↦
        rw (e, v)
          (
            ground (arith, eq_iff why ""),
            among→⟶ sm.state to v,
            refl,
            refl,
            refl,
            refl,
            refl,
            refl,
            refl,
          )
    | inr v ↦ rw (e, v) (refl, inr ((λ edge. cc (⟶→among edge)), refl))
  ]
]

-- An attempt to move, as its three arguments.
abbrev pub Attempt : Type 0
Attempt = AgentState × String × Option String

-- The machine after a list of attempts, and the records of those that were accepted, in order.
unfoldable pub attempts :
    AgentStateMachine → List Attempt → List StateTransition × AgentStateMachine
attempts sm [] = ([], sm)
attempts sm ((to, why, by) ∷ rest) =
    let (r, sm') = transition to why by sm in
    let (log, end) = attempts sm' rest in (elim r [ ok t ↦ t ∷ log | raise _ ↦ log ], end)

-- The records lead from one state to the other, each along an edge of the lifecycle.
abbrev pub Chain : AgentState → List StateTransition → AgentState → Type 0
Chain a [] b = a ≡ b
Chain a (t ∷ log) b = (t.from_state ≡ a) × (a ⟶ t.to_state) × Chain t.to_state log b

Chain-step :
    (to : AgentState) (why : String) (by : Option String) (sm : AgentStateMachine)
    → let (r, sm') = transition to why by sm in
      (log : List StateTransition) (b : AgentState)
      → Chain sm'.state log b
      → Chain sm.state (elim r [ ok t ↦ t ∷ log | raise _ ↦ log ]) b
Chain-step to why by sm = go (transition to why by sm) (transition-Ends to why by sm)
  where
    go :
        (x : Result StateTransition × AgentStateMachine)
        → Ends to why by sm x
        → (log : List StateTransition) (b : AgentState) → Chain x.1.state log b
        → Chain sm.state (elim x.0 [ ok t ↦ t ∷ log | raise _ ↦ log ]) b
    go (ok t, sm') (_, edge, _, from, into, _, _, moved, _) log b c =
        (from, rw into edge, rw (into, ← moved) c)
    go (raise e, sm') (same, _) log b c = rw same at c

-- The audit trail: whatever is attempted, the accepted records lead, edge by edge, from the state at
-- the start to the state at the end.
pub attempts-Chain :
    (todo : List Attempt) (sm : AgentStateMachine)
    → Chain sm.state (attempts sm todo).0 (attempts sm todo).1.state
unfolding attempts
attempts-Chain [] sm = refl
attempts-Chain ((to, why, by) ∷ rest) sm =
    let (r, sm') = transition to why by sm in
    let (log, end) = attempts sm' rest in
    Chain-step to why by sm log end.state (attempts-Chain rest sm')

abbrev pub Visits : AgentState → List StateTransition → Type 0
Visits s [] = ⊥
Visits s (t ∷ log) = (t.to_state ≡ s) ⊎ Visits s log

AgentState-discrete : Discrete AgentState
AgentState-discrete = hlevel

into_running : {a b : AgentState} → a ⟶ b → b ≡ running → a ≡ active
into_running start _ = refl
into_running configure h = cc
into_running _ h = cc

into_active : {a b : AgentState} → a ⟶ b → b ≡ active → a ≢ created
into_active activate _ e = cc
into_active configure h e = cc
into_active _ h e = cc

Chain-running :
    (a b : AgentState) (log : List StateTransition)
    → Chain a log b
    → b ≡ running
    → a ≢ running
    → a ≢ active
    → Visits active log
Chain-running a b [] c e h k = absurd (h (c ∙ e))
Chain-running a b (t ∷ log) (from, edge, c) e h k = elim (AgentState-discrete t.to_state active) [
  | yes p ↦ inl p
  | no p ↦ inr (Chain-running t.to_state b log c e (λ r. k (into_running edge r)) p)
]

Chain-created :
    (b : AgentState) (log : List StateTransition)
    → Chain created log b
    → b ≢ created
    → Visits configured log
Chain-created b [] c h = absurd (h (sym c))
Chain-created b (t ∷ log) (from, edge, c) h = inl (from_created edge refl)
  where
    from_created : {a d : AgentState} → a ⟶ d → a ≡ created → d ≡ configured
    from_created configure _ = refl
    from_created activate e = cc
    from_created _ e = cc

-- A newly created agent that has come to run was configured and was activated on the way.
pub running_needs_setup :
    (todo : List Attempt) (sm : AgentStateMachine)
    → sm.state ≡ created
    → (attempts sm todo).1.state ≡ running
    → Visits configured (attempts sm todo).0 × Visits active (attempts sm todo).0
running_needs_setup todo sm new ran =
    let (log, end) = attempts sm todo in
    let c : Chain created log end.state =
      subst (λ s. Chain s log end.state) new (attempts-Chain todo sm) in
    (
      Chain-created end.state log c (λ e. cc),
      Chain-running created end.state log c ran (λ e. cc) (λ e. cc),
    )

no_way_out : {b : AgentState} → ¬ (terminated ⟶ b)
no_way_out edge = go edge refl
  where
    go : {a d : AgentState} → a ⟶ d → a ≡ terminated → ⊥
    go configure e = cc
    go _ e = cc

-- A terminated agent stays as it is: whatever is attempted, nothing is recorded.
pub terminated_absorbs :
    (todo : List Attempt) (sm : AgentStateMachine)
    → sm.state ≡ terminated
    → attempts sm todo ≡ ([], sm)
unfolding attempts transition valid_transitions
terminated_absorbs [] sm h = refl
terminated_absorbs ((to, why, by) ∷ rest) sm h = ground (arith, terminated_absorbs rest sm h)
