-- ===== src/Api/Agents/Activation.antt =====
-- api/agents.py with engine_service.py: what a start over the API makes of an agent.
use agentcompany.Prelude.{◌≡◌, refl, String, none, some, ◌==◌, true, false, is_empty, ◌+◌}
use agentcompany.Exec.{ok}
use agentcompany.Api.{Claims, find_row, update_row}
use agentcompany.Api.Agents.{Committed, get_db, Agent, with_status, start_agent}
use agentcompany.Api.Agents.Store.{EngineParts, has_id, agent_services}
use agentcompany.Engine.EngineService.{TransitionRow, EngineService}
use agentcompany.Api.Agents.Transactions.{has_failed}
use agentcompany.Api.Tables.{find_row-update_row}
use agentcompany.Api.Agents.Starts.{get_db-start_agent}

module _ {W : Type 0} (parts : EngineParts W) (service : EngineService W) where
  module _ (new_id now agent_id : String) (claims : Claims) (c : Committed W) {a : Agent}
      (named : is_empty agent_id ≡ false) (found : find_row (has_id agent_id) c.agents ≡ some a)
      (own : a.org_id ≡ claims.org_id) (live : a.deleted_at ≡ none)
      (idle : (a.status == "active") ≡ false) (sound : (a.status == "error") ≡ false) where
    -- Where the insertion of a transition succeeds, a start over the API of an agent of the caller's
    -- organisation that is neither active nor in error and not deleted returns, and the committed
    -- table has the agent as active, its version two higher, whatever the bus does. Ids are unique.
    pub start_agent_activates :
        ((row : TransitionRow) (w : W) → has_failed (parts.insert_transition row w).0 ≡ false)
        → ((get_db (start_agent (agent_services parts service new_id now) agent_id claims) c).0
            ≡ ok tt)
          × (find_row
                (has_id agent_id)
                (get_db
                  (start_agent (agent_services parts service new_id now) agent_id claims)
                  c).1.agents
              ≡ some (record a { status = "active"; version = a.version + 1 + 1 }))
    start_agent_activates inserted =
        let (done, changed) =
          get_db-start_agent parts service false inserted new_id now agent_id claims c named found
            own live idle sound in
        (done, rw changed activated)
      where
        activated :
            find_row (has_id agent_id) (
              update_row
                (has_id agent_id)
                (with_status "active")
                (update_row (has_id agent_id) (with_status "starting") c.agents))
            ≡ some (record a { status = "active"; version = a.version + 1 + 1 })
        activated =
            find_row-update_row (has_id agent_id) (with_status "active") _ (λ b. refl)
              (find_row-update_row (has_id agent_id) (with_status "starting") c.agents (λ b. refl)
                found)

    -- Where the insertion of a transition fails, the same start returns as well, but the transaction
    -- is rolled back: the committed table is the one before the request.
    pub start_agent_lost :
        ((row : TransitionRow) (w : W) → has_failed (parts.insert_transition row w).0 ≡ true)
        → ((get_db (start_agent (agent_services parts service new_id now) agent_id claims) c).0
            ≡ ok tt)
          × ((get_db
                (start_agent (agent_services parts service new_id now) agent_id claims)
                c).1.agents
              ≡ c.agents)
    start_agent_lost failing =
        get_db-start_agent parts service true failing new_id now agent_id claims c named found own
          live idle sound
