-- ===== src/Api/Agents/Starts.antt =====
-- api/agents.py with engine_service.py: a start, statement by statement.
use agentcompany.Prelude.{
  ◌≡◌, refl, String, Option, List, none, some, ◌==◌, ◌&&◌, true, false, ap, ◌∙◌, is_empty, eq_iff,
  arith, Bool, if◌then◌else◌, Bool-cases, inl, inr,
}
use agentcompany.Exec.{ok, Result, raise}
use agentcompany.Exec.Hoare.{
  Triple, Holds, triple_answer, triple_bind, triple_otherwise, triple_guard, keeps_pure,
}
use agentcompany.Api.{Claims, find_row, update_row}
use agentcompany.Api.Agents.{
  not_found, Committed, opened, committed, get_db, Agent, Session, is_live, is_visible, with_status,
  start_agent, start_staged, change_agent, get_or_404,
}
use agentcompany.Api.Agents.Store.{EngineParts, has_id, database, engine_in_session, agent_services}
use agentcompany.Engine.EngineService.{
  TransitionRow, EngineService, write_transition, publish_state_changed, state_of_status,
}
use agentcompany.Engine.EngineService.Agents.{start_agent as engine_start_agent, start_row}
use agentcompany.Api.Agents.Transactions.{
  Holding, publish-Keeps, except_engine_error-Holds, statement_answer, insertion-Holds, has_failed,
}
use agentcompany.Core.{EventBus}
use agentcompany.Engine.EngineService.Starting.{validate_start_ok}
use agentcompany.Api.Tables.{
  find_row-holds, find_row-narrow, update_row-narrow, find_row-update_row,
}

module _ {W : Type 0} (parts : EngineParts W) (service : EngineService W) where
  published-Keeps :
      {X : Session W → Type 0} (aborted : Bool) (agents : List Agent)
      (agent_id from_state to_state why : String) (by : Option String)
      → Triple
          (Holding aborted agents)
          (publish_state_changed
            (database parts)
            (engine_in_session service)
            agent_id
            from_state
            to_state
            why
            by)
          (λ _. Holding aborted agents)
          X
  unfolding publish_state_changed
  published-Keeps {X} aborted agents agent_id from_state to_state why by = go service.bus refl
    where
      go :
          (o : Option (EventBus W))
          → service.bus ≡ o
          → Triple
              (Holding aborted agents)
              (publish_state_changed
                (database parts)
                (engine_in_session service)
                agent_id
                from_state
                to_state
                why
                by)
              (λ _. Holding aborted agents)
              X
      go none e = rw (e, publish_state_changed) (keeps_pure tt)
      go (some bus) e =
          rw (e, publish_state_changed)
            (triple_otherwise _ _ (publish-Keeps aborted agents bus _ _))

  module _ (aborted : Bool)
      (fails : (row : TransitionRow) (w : W)
        → has_failed (parts.insert_transition row w).0 ≡ aborted) where
    start_row-Holds :
        (agents : List Agent) (agent_id : String) (by : Option String)
        → is_empty agent_id ≡ false
        → Triple
            (Holding false agents)
            (start_row (database parts) (engine_in_session service) agent_id by (some "starting"))
            (λ _. Holding aborted (update_row (has_id agent_id) (with_status "active") agents))
            (λ _. ⊥)
    unfolding start_row state_of_status write_transition
    start_row-Holds agents agent_id by named =
        triple_answer {R = Holding false agents} _ _ tt
          (λ s h.
            let e =
              validate_start_ok (database parts) (engine_in_session service) agent_id by s named in
            (ap (λ x. x.0) e, (ap (λ x. x.1.is_aborted) e ∙ h.0, ap (λ x. x.1.agents) e ∙ h.1)))
          (statement_answer
            {R = Holding false (update_row (has_id agent_id) (with_status "active") agents)} _ _ tt
            (λ s h.
              (h.0, refl, (h.0, ap (update_row (has_id agent_id) (with_status "active")) h.1)))
            (triple_bind _ _ (triple_otherwise _ _ (insertion-Holds aborted _ _ (fails _)))
              (λ _. published-Keeps aborted _ _ _ _ _ _)))

    -- The engine's part of a start, of an agent that is "starting".
    engine_start-Holds :
        (agents : List Agent) (agent_id : String) (by : Option String) {a : Agent}
        → is_empty agent_id ≡ false
        → find_row (λ b. has_id agent_id b && is_live b) agents ≡ some a
        → a.status ≡ "starting"
        → Triple
            (Holding false agents)
            (engine_start_agent (database parts) (engine_in_session service) agent_id by)
            (λ _. Holding aborted (update_row (has_id agent_id) (with_status "active") agents))
            (λ _. ⊥)
    unfolding engine_start_agent
    engine_start-Holds agents agent_id by named found starting =
        triple_bind _ _ (triple_guard _ _ named) (λ _.
          statement_answer {R = Holding false agents} _ _ (some "starting")
            (λ s h. (h.0, rw (h.1, found) (ap (λ x. ok (some x)) starting), h))
            (start_row-Holds agents agent_id by named))

    -- The handler, from the row that it finds on.
    started-Holds :
        (new_id now agent_id : String) (claims : Claims) (agents : List Agent) {a : Agent}
        → is_empty agent_id ≡ false
        → find_row (has_id agent_id) agents ≡ some a
        → is_visible agent_id claims.org_id a ≡ true
        → (a.status == "active") ≡ false
        → (a.status == "error") ≡ false
        → Triple
            (Holding false agents)
            (start_agent (agent_services parts service new_id now) agent_id claims)
            (λ _. Holding aborted (
              update_row
                (has_id agent_id)
                (with_status "active")
                (update_row (has_id agent_id) (with_status "starting") agents)))
            (λ _. ⊥)
    unfolding start_agent start_staged change_agent get_or_404
    started-Holds new_id now agent_id claims agents {a} named found visible idle sound =
        statement_answer {R = Holding false agents} _ _ a
          (λ t h. (h.0, ap (λ x. x.0) (found_row t h), rw (found_row t h) h))
          (triple_bind _ _ (triple_guard _ _ idle) (λ _.
            triple_bind _ _ (triple_guard _ _ sound) (λ _.
              statement_answer {R = Holding false staged} _ _ tt
                (λ t h. (
                  h.0,
                  refl,
                  (
                    h.0,
                    ap (update_row (is_visible agent_id claims.org_id) (with_status "starting")) h.1
                        ∙ same_change,
                  ),
                ))
                (except_engine_error-Holds _ _
                  (engine_start-Holds staged agent_id (some claims.sub) named found_live refl)))))
      where
        found_visible : find_row (is_visible agent_id claims.org_id) agents ≡ some a
        found_visible =
            find_row-narrow (has_id agent_id) (is_visible agent_id claims.org_id) agents
              (λ b h. ground arith) found visible

        look_up : (t : Session W) → Option Agent → Result Agent × Session W
        look_up t o = elim o [ some b ↦ (ok b, t) | none ↦ (raise (not_found agent_id), t) ]

        found_row :
            (t : Session W)
            → Holding false agents t
            → look_up t (find_row (is_visible agent_id claims.org_id) t.agents) ≡ (ok a, t)
        found_row t h =
            ap (look_up t) (ap (find_row (is_visible agent_id claims.org_id)) h.1 ∙ found_visible)

        same_change :
            update_row (is_visible agent_id claims.org_id) (with_status "starting") agents
            ≡ update_row (has_id agent_id) (with_status "starting") agents
        same_change =
            update_row-narrow (has_id agent_id) (is_visible agent_id claims.org_id) _ agents
              (λ b h. ground arith) found visible

        staged : List Agent
        staged = update_row (has_id agent_id) (with_status "starting") agents

        found_live :
            find_row (λ b. has_id agent_id b && is_live b) staged ≡ some (with_status "starting" a)
        found_live =
            find_row-narrow (has_id agent_id) (λ b. has_id agent_id b && is_live b) staged
              (λ b h. ground arith)
              (find_row-update_row (has_id agent_id) (with_status "starting") agents (λ b. refl)
                found)
              (ground (arith, visible))

    -- A start under `get_db`: it returns, and what it did is committed or rolled back.
    pub get_db-start_agent :
        (new_id now agent_id : String) (claims : Claims) (c : Committed W) {a : Agent}
        → is_empty agent_id ≡ false
        → find_row (has_id agent_id) c.agents ≡ some a
        → a.org_id ≡ claims.org_id
        → a.deleted_at ≡ none
        → (a.status == "active") ≡ false
        → (a.status == "error") ≡ false
        → ((get_db (start_agent (agent_services parts service new_id now) agent_id claims) c).0
            ≡ ok tt)
          × ((get_db
                (start_agent (agent_services parts service new_id now) agent_id claims)
                c).1.agents
              ≡ (if aborted
                  then c.agents
                  else update_row
                      (has_id agent_id)
                      (with_status "active")
                      (update_row (has_id agent_id) (with_status "starting") c.agents)))
    unfolding get_db
    get_db-start_agent new_id now agent_id claims c {a} named found own live idle sound =
        go (start_agent (agent_services parts service new_id now) agent_id claims (opened c)) (
          (started-Holds new_id now agent_id claims c.agents named found visible idle sound).at
            (opened c) (refl, refl))
      where
        visible : is_visible agent_id claims.org_id a ≡ true
        visible =
            ground (
              arith,
              find_row-holds (has_id agent_id) c.agents found,
              eq_iff a.org_id claims.org_id,
            )

        changed : List Agent
        changed =
            update_row (has_id agent_id) (with_status "active")
              (update_row (has_id agent_id) (with_status "starting") c.agents)

        go :
            (x : Result (Unit {0}) × Session W)
            → Holds (λ _. Holding aborted changed) (λ _. ⊥) x
            → ((elim x.0 as (λ _. Result (Unit {0}) × Committed W) [
              | ok u ↦ (ok u, committed c x.1)
              | raise e ↦ (raise e, record { agents = c.agents; world = x.1.world })
            ]).0
                ≡ ok tt)
              × ((elim x.0 as (λ _. Result (Unit {0}) × Committed W) [
                | ok u ↦ (ok u, committed c x.1)
                | raise e ↦ (raise e, record { agents = c.agents; world = x.1.world })
              ]).1.agents
                  ≡ (if aborted then c.agents else changed))
        go (ok u, s) h = (
          refl,
          rw h.0 (rw h.1 (elim (Bool-cases aborted) [ inl t ↦ rw t refl | inr t ↦ rw t refl ])),
        )
        go (raise e, s) h = elim h [ ]
