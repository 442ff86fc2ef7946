-- ===== src/Engine/StateMachine/Cycles.antt =====
-- state_machine.py: which states an agent can come back to.
use agentcompany.Prelude.{◌≡◌, ◌≢◌, refl, List, [], ◌∷◌, String, none, inl, inr, ap, ◌∙◌, sym}
use agentcompany.Exec.{Result, ok, raise}
use agentcompany.Exec.States.{AgentState, created, active, error, terminated}
use agentcompany.Engine.StateMachine.{AgentStateMachine, StateTransition, transition}
use agentcompany.Engine.StateMachine.Lifecycle.{
  ◌⟶◌, edges, start, finish, fail, retire, Attempt, attempts, Ends, transition-Ends,
}

infix 40 ◌⟶+◌
-- One transition or more.
data ◌⟶+◌ : AgentState → AgentState → Type 0 where
  one : {a b : AgentState} → a ⟶ b → a ⟶+ b
  more : {a b c : AgentState} → a ⟶ b → b ⟶+ c → a ⟶+ c

-- The states that an agent can come back to.
abbrev pub IsLive : AgentState → Type 0
IsLive s = (s ≢ created) × (s ≢ terminated)

⟶+_trans : {a b c : AgentState} → a ⟶+ b → b ⟶+ c → a ⟶+ c
⟶+_trans (one e) q = more e q
⟶+_trans (more e p) q = more e (⟶+_trans p q)

to_active : (a : AgentState) → IsLive a → a ⟶+ active
to_active created h = absurd (h.0 refl)
to_active terminated h = absurd (h.1 refl)
to_active active h = more start (one finish)
to_active _ h = one (search edges)

from_active : (b : AgentState) → IsLive b → active ⟶+ b
from_active created h = absurd (h.0 refl)
from_active terminated h = absurd (h.1 refl)
from_active active h = more start (one finish)
from_active error h = more start (one fail)
from_active _ h = one (search edges)

-- Any reason does.
abbrev why : String
why = "moved"

-- A machine takes an edge of the lifecycle.
takes :
    {a b : AgentState} (sm : AgentStateMachine)
    → a ⟶ b
    → sm.state ≡ a
    → (t : StateTransition) × (sm' : AgentStateMachine) × (transition b why none sm ≡ (ok t, sm'))
      × (sm'.state ≡ b)
takes {a} {b} sm edge at_a = go (transition b why none sm) refl (transition-Ends b why none sm)
  where
    here : sm.state ⟶ b
    here = rw at_a edge

    no_empty : why ≢ ""
    no_empty h = cc (h)

    go :
        (x : Result StateTransition × AgentStateMachine)
        → transition b why none sm ≡ x
        → Ends b why none sm x
        → (t : StateTransition) × (sm' : AgentStateMachine) × (transition b why none sm
            ≡ (ok t, sm'))
          × (sm'.state ≡ b)
    go (ok t, sm') e (_, _, _, _, _, _, _, moved, _) = (t, sm', e, moved)
    go (raise y, sm') e (_, inl no_reason) = absurd (no_empty no_reason)
    go (raise y, sm') e (_, inr (no_edge, _)) = absurd (no_edge here)

-- Some attempts move the machine to a state, one of them at least accepted.
abbrev pub Reaches : AgentStateMachine → AgentState → Type 0
Reaches sm b =
    (todo : List Attempt) × ((attempts sm todo).1.state ≡ b) × ((attempts sm todo).0 ≢ [])

-- An accepted attempt, before others.
attempts_accepted :
    (b : AgentState) (sm : AgentStateMachine) {sm' : AgentStateMachine} {t : StateTransition}
    (rest : List Attempt)
    → transition b why none sm ≡ (ok t, sm')
    → attempts sm ((b, why, none) ∷ rest) ≡ (t ∷ (attempts sm' rest).0, (attempts sm' rest).1)
unfolding attempts
attempts_accepted b sm rest moved =
    ap
      (λ (x : Result StateTransition × AgentStateMachine). (
        elim x.0 as (λ _. List StateTransition) [
          | ok u ↦ u ∷ (attempts x.1 rest).0
          | raise _ ↦ (attempts x.1 rest).0
        ],
        (attempts x.1 rest).1,
      ))
      moved

accepted-Reaches :
    (b : AgentState) (sm : AgentStateMachine) {c : AgentState} {sm' : AgentStateMachine}
    {t : StateTransition} (rest : List Attempt)
    → transition b why none sm ≡ (ok t, sm')
    → (attempts sm' rest).1.state ≡ c
    → Reaches sm c
accepted-Reaches b sm rest moved ends =
    let e = attempts_accepted b sm rest moved in
    ((b, why, none) ∷ rest, ap (λ x. x.1.state) e ∙ ends, (λ q. cc (sym (ap (λ x. x.0) e) ∙ q)))

⟶+-Reaches : {a b : AgentState} → a ⟶+ b → (sm : AgentStateMachine) → sm.state ≡ a → Reaches sm b
unfolding attempts
⟶+-Reaches {b = b} (one e) sm h =
    let (t, sm', moved, at_b) = takes sm e h in accepted-Reaches b sm [] moved at_b
⟶+-Reaches (more {b = c} e p) sm h =
    let (t, sm', moved, at_c) = takes sm e h in
    let (todo, ends, _) = ⟶+-Reaches p sm' at_c in accepted-Reaches c sm todo moved ends

-- Attempts of `transition` move a machine from any of the live states to any of them, also back to
-- the one it is in, and to TERMINATED: all five live states lie on cycles, not RUNNING and ACTIVE
-- alone.
pub live_connected :
    (sm : AgentStateMachine) (b : AgentState)
    → IsLive sm.state
    → IsLive b
    → Reaches sm b × Reaches sm terminated
live_connected sm b h k =
    let home = to_active sm.state h in
    (
      ⟶+-Reaches (⟶+_trans home (from_active b k)) sm refl,
      ⟶+-Reaches (⟶+_trans home (one retire)) sm refl,
    )
