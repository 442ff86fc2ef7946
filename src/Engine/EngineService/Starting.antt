-- ===== src/Engine/EngineService/Starting.antt =====
-- engine_service.py: which agents `start_agent` starts.
use agentcompany.Prelude.{
  ◌≡◌, refl, String, Option, none, some, is_empty, false, true, ◌↔◌, is_some, ap, ◌∙◌,
}
use agentcompany.Engine.EngineService.{
  Database, EngineService, publish_state_changed, write_transition, state_of_status,
}
use agentcompany.Engine.EngineService.Agents.{validate_start, start_row, start_agent}
use agentcompany.Exec.{
  Exec, pure, ◌>>◌, ok, ◌>>=◌, otherwise_tt, throw, bind_of_ok, raise_if_passes, Error, raise,
}
use agentcompany.Engine.StateMachine.{state_machine, transition, valid_transitions}
use agentcompany.Exec.Hoare.{
  Triple, triple_bind, triple_otherwise, triple_state, triple_ok, returns,
}
use agentcompany.Core.{EventBus}
use agentcompany.Exec.States.{AgentState}

module _ {W : Type 0} (db : Database W) (service : EngineService W) where
  open db use {select_status, set_active}

  -- The transition that is validated is always CONFIGURED to ACTIVE.
  pub validate_start_ok :
      (agent_id : String) (by : Option String) (w : W)
      → is_empty agent_id ≡ false
      → validate_start db agent_id by w ≡ (ok tt, w)
  unfolding validate_start state_machine transition valid_transitions ◌>>=◌
  validate_start_ok agent_id by w e = rw e refl

  publish_state_changed_ok :
      (agent_id a b why : String) (by : Option String) (w : W)
      → (publish_state_changed db service agent_id a b why by w).0 ≡ ok tt
  unfolding publish_state_changed pure
  publish_state_changed_ok agent_id a b why by w = go service.bus refl
    where
      go :
          (o : Option (EventBus W))
          → service.bus ≡ o
          → (publish_state_changed db service agent_id a b why by w).0 ≡ ok tt
      go none e = rw (e, publish_state_changed) refl
      go (some bus) e = rw (e, publish_state_changed) (otherwise_tt _ w)

  -- What follows the validation.
  abbrev finish : String → Option String → Exec W Unit
  finish agent_id by = do
    write_transition db agent_id "configured" "active" "api_start" by
    publish_state_changed db service agent_id "configured" "active" "api_start" by

  finish-Holds :
      {X : W → Type 0} (agent_id : String) (by : Option String)
      → Triple (λ _. Unit) (finish agent_id by) (λ _ _. Unit) X
  unfolding write_transition
  finish-Holds agent_id by =
      triple_bind {R = λ _ _. Unit} _ _ (triple_otherwise _ _ (triple_state _ (λ s h. tt)))
        (λ _. triple_ok _ (λ s h. (tt, publish_state_changed_ok _ _ _ _ _ s, tt)))

  start_row-Holds :
      (agent_id status : String) (by : Option String) (w : W) {state : AgentState}
      → is_empty agent_id ≡ false
      → state_of_status status ≡ some state
      → (set_active agent_id w).0 ≡ ok tt
      → Triple (λ s. s ≡ w) (start_row db service agent_id by (some status)) (λ _ _. Unit) (λ _. ⊥)
  unfolding start_row
  start_row-Holds agent_id status by w named known updated =
      rw (known, start_row)
        (triple_bind {R = λ _ s. s ≡ w} _ _
          (triple_ok _ (λ s h.
            let e = validate_start_ok agent_id by s named in
            (tt, ap (λ x. x.0) e, ap (λ x. x.1) e ∙ h)))
          (λ _.
            triple_bind {R = λ _ _. Unit} _ _ (triple_ok _ (λ s h. (tt, rw h updated, tt)))
              (λ _. finish-Holds agent_id by)))

  start_row_unknown :
      (agent_id status : String) (by : Option String) (w : W)
      → state_of_status status ≡ none
      → (e : Error) × (start_row db service agent_id by (some status) w ≡ (raise e, w))
  unfolding start_row throw
  start_row_unknown agent_id status by w unknown = rw (unknown, start_row) (_, refl)

  -- `start_agent` of a row that was read.
  start_agent_row :
      (agent_id : String) (by : Option String) {row : Option String} (w w' : W)
      → is_empty agent_id ≡ false
      → select_status agent_id w ≡ (ok row, w')
      → start_agent db service agent_id by w ≡ start_row db service agent_id by row w'
  unfolding start_agent
  start_agent_row agent_id by w w' named found =
      bind_of_ok _ _ (raise_if_passes _ _ w named) ∙ bind_of_ok _ _ found

  -- Where the agent is there and its update returns, start_agent returns exactly if the status is
  -- one of the six that the service knows, whatever the table of transitions and the bus do. The
  -- agent need not be "starting".
  pub start_agent_iff :
      (agent_id status : String) (by : Option String) (w w' : W)
      → is_empty agent_id ≡ false
      → select_status agent_id w ≡ (ok (some status), w')
      → (set_active agent_id w').0 ≡ ok tt
      → ((start_agent db service agent_id by w).0 ≡ ok tt)
        ↔ (is_some (state_of_status status) ≡ true)
  start_agent_iff agent_id status by w w' named found updated =
      rw (start_agent_row agent_id by w w' named found) (go (state_of_status status) refl)
    where
      go :
          (o : Option AgentState)
          → state_of_status status ≡ o
          → ((start_row db service agent_id by (some status) w').0 ≡ ok tt)
            ↔ (is_some (state_of_status status) ≡ true)
      go (some state) known = (
        λ h. rw known refl,
        λ h.
            (returns _ _
              ((start_row-Holds agent_id status by w' named known updated).at w' refl)).1,
      )
      go none unknown =
          let (e, raised) = start_row_unknown agent_id status by w' unknown in (λ h. cc, λ h. cc)
