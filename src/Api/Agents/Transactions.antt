-- ===== src/Api/Agents/Transactions.antt =====
-- api/agents.py, dependencies.py and engine_service.py: the statements of one transaction.
use agentcompany.Prelude.{◌≡◌, String, List, true, false, ap, ◌∙◌, Bool, if◌then◌else◌}
use agentcompany.Exec.{Exec, ok, Result, raise, engine_error, lift, foreign, ◌>>=◌}
use agentcompany.Exec.Hoare.{
  Triple, Holds, Keeps, triple_answer, keeps_bind, triple_otherwise, triple_state,
}
use agentcompany.Api.Agents.{statement, failing_aborts, Agent, Session, except_engine_error}
use agentcompany.Api.Agents.Store.{in_session, bus_in_session}
use agentcompany.Core.{publish, EventBus}
use agentcompany.Json.{Fields}

-- Whether a call raised.
abbrev pub has_failed : {A : Type 0} → Result A → Bool
has_failed (ok a) = false
has_failed (raise e) = true

module _ {W : Type 0} where
  -- The table of agents and whether the transaction is aborted, whatever the world.
  abbrev pub Holding : Bool → List Agent → Session W → Type 0
  Holding aborted agents s = (s.is_aborted ≡ aborted) × (s.agents ≡ agents)

  statement_runs :
      {A : Type 0} (m : Exec (Session W) A) (s : Session W)
      → s.is_aborted ≡ false
      → statement m s ≡ m s
  unfolding statement
  statement_runs m s h = ap (λ b. if b then (raise (foreign "DBAPIError"), s) else m s) h

  -- A statement whose answer is known.
  pub statement_answer :
      {A B : Type 0} {P R : Session W → Type 0} {Q : B → Session W → Type 0}
      {X : Session W → Type 0} (m : Exec (Session W) A) (f : A → Exec (Session W) B) (a : A)
      → ((s : Session W) → P s → (s.is_aborted ≡ false) × ((m s).0 ≡ ok a) × R (m s).1)
      → Triple R (f a) Q X
      → Triple P (statement m >>= f) Q X
  statement_answer m f a h t =
      triple_answer _ _ a (λ s p. let (o, e, r) = h s p in rw (statement_runs m s o) (e, r)) t

  pub insertion-Holds :
      {A : Type 0} (aborted : Bool) (agents : List Agent) (m : Exec W A)
      → ((w : W) → has_failed (m w).0 ≡ aborted)
      → Triple
          (Holding false agents)
          (statement (failing_aborts (in_session m)))
          (λ _. Holding aborted agents)
          (Holding aborted agents)
  unfolding failing_aborts in_session
  insertion-Holds {A} aborted agents m fails = triple_state _ (λ s h.
      rw (statement_runs (failing_aborts (in_session m)) s h.0)
        (go s (m s.world) (fails s.world) h))
    where
      go :
          (s : Session W) (x : Result A × W)
          → has_failed x.0 ≡ aborted
          → Holding false agents s
          → Holding aborted agents
              (elim x.0 as (λ _. Result A × Session W) [
                | ok a ↦ (ok a, record s { world = x.1 })
                | raise e ↦ (raise e, record s { world = x.1; is_aborted = true })
              ]).1
      go s (ok a, w) e h = (h.0 ∙ e, h.1)
      go s (raise y, w) e h = (e, h.1)

  in_session-Keeps :
      {A : Type 0} (aborted : Bool) (agents : List Agent) (m : Exec W A)
      → Keeps (Holding aborted agents) (in_session m)
  unfolding in_session
  in_session-Keeps aborted agents m = triple_state _ (λ s h. h)

  pub publish-Keeps :
      (aborted : Bool) (agents : List Agent) (bus : EventBus W) (channel : String) (event : Fields)
      → Keeps (Holding aborted agents) (publish (bus_in_session bus) channel event)
  unfolding publish lift
  publish-Keeps aborted agents bus channel event = triple_otherwise _ _ (
      keeps_bind _ _ (triple_state (lift (bus.dumps event)) (λ s h. h))
        (λ written. in_session-Keeps aborted agents _))

  -- Nothing of the engine's is left to catch.
  pub except_engine_error-Holds :
      {A : Type 0} {P X : Session W → Type 0} {Q : A → Session W → Type 0} (m : Exec (Session W) A)
      (handle : String → Exec (Session W) A)
      → Triple P m Q (λ _. ⊥)
      → Triple P (except_engine_error m handle) Q X
  unfolding except_engine_error
  except_engine_error-Holds {A} {P} {X} {Q} m handle t = record { at = λ s p. go (m s) (t.at s p) }
    where
      go :
          (x : Result A × Session W)
          → Holds Q (λ _. ⊥) x
          → Holds Q X (elim x.0 as (λ _. Result A × Session W) [
            | ok a ↦ (ok a, x.1)
            | raise (engine_error why) ↦ handle why x.1
            | raise e ↦ (raise e, x.1)
          ])
      go (ok a, s) q = q
      go (raise e, s) q = elim q [ ]
