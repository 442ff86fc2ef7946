-- ===== src/Engine/AgentLoop/Turns.antt =====
-- agent_loop.py and context_manager.py: what the calls of a round make of the conversation.
use agentcompany.Prelude.{◌≡◌, refl, String, Option, List, ◌∷◌, [], suc, drop, ◌-◌, arith, subst}
use agentcompany.Exec.{Exec, Result, ok, raise}
use agentcompany.Exec.Hoare.{
  Triple, Keeps, Holds, keeps_bind, triple_weaken, triple_pure, triple_if, triple_state,
}
use agentcompany.Engine.ContextManager.{
  maybe_compact, compact, split_point, compacted, summary_message,
}
use agentcompany.Json.{Builtins}
use agentcompany.Engine.AgentLoop.{Run, on_world, AgentContext, try_transition, update, get_context}
use agentcompany.Engine.Llm.{Adapter, Message}
use agentcompany.Exec.States.{AgentState}
use agentcompany.Engine.Llm.Alternation.{IsConversation, IsWaiting, drop-IsWaiting}
use agentcompany.Engine.Memory.{MemoryServices}
use agentcompany.Engine.AgentLoop.Loop.{run}

module _ {F E W : Type 0} (py : Builtins) (adapter : Adapter F W) (memory : MemoryServices F E W)
    (owner : String) where
  any_call : {A : Type 0} (m : Exec W A) → Triple (λ _. Unit) m (λ _ _. Unit) (λ _. Unit)
  any_call m = triple_state m (λ s h. tt)

  at_least_one : (messages : List Message) → suc (split_point messages - 1) ≡ split_point messages
  at_least_one messages = omega arith

  compacted-IsWaiting :
      (messages : List Message) (summary : String)
      → IsWaiting messages
      → IsWaiting (compacted py adapter memory owner summary (drop (split_point messages) messages))
  compacted-IsWaiting messages summary h =
      subst (λ n. IsWaiting (compacted py adapter memory owner summary (drop n messages)))
        (at_least_one messages)
        (drop-IsWaiting _ messages (summary_message py adapter memory owner summary) h refl)

  -- Compaction leaves a conversation that waits for an answer.
  pub maybe_compact-IsWaiting :
      (messages : List Message) (system run : String)
      → IsWaiting messages
      → Triple
          (λ _. Unit)
          (maybe_compact py adapter memory owner messages system run)
          (λ kept _. IsWaiting kept)
          (λ _. Unit)
  unfolding maybe_compact compact
  maybe_compact-IsWaiting [] system run h = elim h [ ]
  maybe_compact-IsWaiting (m ∷ ms) system run h = triple_if _ (triple_pure (m ∷ ms) (λ s p. h)) (
      keeps_bind _ _ (any_call _) (λ _.
        keeps_bind _ _ (any_call _)
          (λ summary. triple_pure _ (λ s p. compacted-IsWaiting (m ∷ ms) summary h))))

module _ {F W : Type 0} where
  abbrev pub Spoken : Run F W → Type 0
  Spoken s = IsConversation s.context.messages

  abbrev pub Waiting : Run F W → Type 0
  Waiting s = IsWaiting s.context.messages

  -- A call of a service leaves the run's context alone.
  pub on_world-Holds :
      {A : Type 0} {B : A → Type 0} (C : AgentContext F → Type 0) (m : Exec W A)
      → Triple (λ _. Unit) m (λ a _. B a) (λ _. Unit)
      → Triple (λ s. C s.context) (on_world m) (λ a s. B a × C s.context) (λ s. C s.context)
  unfolding on_world
  on_world-Holds {A} {B} C m t = record { at = λ s h. go s h (m s.world) (t.at s.world tt) }
    where
      go :
          (s : Run F W)
          → C s.context
          → (x : Result A × W) → Holds (λ a _. B a) (λ _. Unit) x
          → Holds (λ a s. B a × C s.context) (λ s. C s.context) (x.0, record s { world = x.1 })
      go s h (ok a, w) b = (b, h)
      go s h (raise e, w) b = h

  pub on_world-Keeps :
      {A : Type 0} (C : AgentContext F → Type 0) (m : Exec W A)
      → Keeps (λ s. C s.context) (on_world m)
  on_world-Keeps C m =
      triple_weaken (λ s h. h) (λ a s h. h.1) (λ s h. h)
        (on_world-Holds {B = λ _. Unit} C m (triple_state m (λ s h. tt)))

  pub try_transition-Keeps :
      (C : AgentContext F → Type 0) (to : AgentState) (why : String) (by : Option String)
      → Keeps {S = Run F W} (λ s. C s.context) (try_transition to why by)
  unfolding try_transition
  try_transition-Keeps C to why by = triple_state _ (λ s h. h)

  pub update-Holds :
      {P Q X : Run F W → Type 0} (f : AgentContext F → AgentContext F)
      → ((s : Run F W) → P s → Q (record s { context = f s.context }))
      → Triple P (update f) (λ _. Q) X
  unfolding update
  update-Holds f k = record { at = k }

  pub get_context-Holds :
      {P X : Run F W → Type 0} → Triple P get_context (λ c s. (c ≡ s.context) × P s) X
  unfolding get_context
  get_context-Holds = record { at = λ s h. (refl, h) }
