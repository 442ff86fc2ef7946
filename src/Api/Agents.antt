-- ===== src/Api/Agents.antt =====
-- api/agents.py: the agents of an organisation and their lifecycle over the API. A session holds the
-- table of agents beside the world of the engine's services.
pub mod Store
pub mod Transactions
pub mod Starts
pub mod Activation
use Prim.Native.String.{◌++◌}
use agentcompany.Prelude.{
  String, Option, Bool, List, none, some, ◌==◌, ◌&&◌, ◌||◌, not, ℕ, ◌+◌, if◌then◌else◌, or_else,
  true, ◌∷◌, [], is_some, is_empty, false,
}
use agentcompany.Exec.{
  Exec, raise_if, http_exception, engine_error, Result, ◌>>=◌, ◌>>◌, Error, pure, ok, raise,
  foreign,
}
use agentcompany.Json.{Fields, Json, null, str, obj, field, end}
use agentcompany.Api.Approvals.{admits}
use agentcompany.Api.{
  Claims, find_row, update_row, list_page, ListResponse, select_rows, insert_row,
}

pub record Agent : Type 0 where
  pub id : String
  pub org_id : String
  pub company_id : String
  pub role_id : Option String
  pub name : String
  pub slug : String
  pub status : String
  pub llm_config : Fields
  pub capabilities : List String
  pub tool_permissions : Fields
  pub token_budget_daily : Option ℕ
  pub token_budget_monthly : Option ℕ
  pub version : ℕ
  pub last_active_at : Option String
  pub deleted_at : Option String

-- A session of a request, in its transaction: a statement that failed has aborted it.
pub record Session (W : Type 0) : Type 0 where
  pub agents : List Agent
  pub is_aborted : Bool
  pub world : W

-- What outlives the session: the committed table, and the world.
pub record Committed (W : Type 0) : Type 0 where
  pub agents : List Agent
  pub world : W

-- The engine that the handlers call, in a session; `new_id` and `now` are the server's.
pub record AgentServices (W : Type 0) : Type 0 where
  pub start_agent : String → Option String → Exec (Session W) Unit
  pub stop_agent : String → Bool → Option String → Option String → Exec (Session W) Unit
  pub trigger_agent : String → Fields → Option String → Exec (Session W) String
  pub error_text : Error → String
  pub new_id : String
  pub now : String

-- The body of an update: what is None stays.
pub record AgentUpdate : Type 0 where
  pub name : Option String
  pub role_id : Option String
  pub llm_config : Option Fields
  pub capabilities : Option (List String)
  pub tool_permissions : Option Fields
  pub token_budget_daily : Option ℕ
  pub token_budget_monthly : Option ℕ

pub record AgentTriggerRequest : Type 0 where
  pub task_id : Json
  pub priority : String
  pub context : Fields

abbrev pub is_live : Agent → Bool
is_live a = not (is_some a.deleted_at)

-- The condition of `_get_or_404`.
abbrev pub is_visible : String → String → Agent → Bool
is_visible agent_id org_id a = (a.id == agent_id) && ((a.org_id == org_id) && is_live a)

-- `if x is not None: field = x`, where the field may hold None.
abbrev keep_or : {A : Type 0} → Option A → Option A → Option A
keep_or none old = old
keep_or (some a) old = some a

abbrev pub with_status : String → Agent → Agent
with_status status a = record a { status = status; version = a.version + 1 }

-- A filter of a column that may hold None.
abbrev admits_role : Option String → Option String → Bool
admits_role filter value =
    let f = or_else filter "" in
    if is_empty f then true else elim value [ some v ↦ v == f | none ↦ false ]

abbrev pub not_found : String → Error
not_found agent_id = http_exception 404 ("Agent '" ++ (agent_id ++ "' not found"))

module _ {W : Type 0} where
  -- A statement of the session: PostgreSQL refuses it once the transaction is aborted.
  unfoldable pub statement : {A : Type 0} → Exec (Session W) A → Exec (Session W) A
  statement m s = if s.is_aborted then (raise (foreign "DBAPIError"), s) else m s

  -- A statement that fails aborts the transaction.
  unfoldable pub failing_aborts : {A : Type 0} → Exec (Session W) A → Exec (Session W) A
  failing_aborts m s =
      let (r, s') = m s in
      elim r [ ok a ↦ (ok a, s') | raise e ↦ (raise e, record s' { is_aborted = true }) ]

  -- The session that `get_db` opens.
  abbrev pub opened : Committed W → Session W
  opened c = record { agents = c.agents; is_aborted = false; world = c.world }

  -- `session.commit()` of what a handler left: PostgreSQL rolls an aborted transaction back, and
  -- does not raise.
  abbrev pub committed : Committed W → Session W → Committed W
  committed c s =
      if s.is_aborted
      then record { agents = c.agents; world = s.world }
      else record { agents = s.agents; world = s.world }

  -- A request's handler under `get_db`: a handler that raises is rolled back.
  unfoldable pub get_db : {A : Type 0} → Exec (Session W) A → Exec (Committed W) A
  get_db handler c =
      let (r, s) = handler (opened c) in
      elim r [
        | ok a ↦ (ok a, committed c s)
        | raise e ↦ (raise e, record { agents = c.agents; world = s.world })
      ]

  -- A change of the agent that `_get_or_404` gave, flushed.
  unfoldable pub change_agent : String → String → (Agent → Agent) → Exec (Session W) Unit
  change_agent agent_id org_id f =
      statement
        (λ s. (ok tt, record s { agents = update_row (is_visible agent_id org_id) f s.agents }))

  -- `_get_or_404`
  unfoldable pub get_or_404 : String → String → Exec (Session W) Agent
  get_or_404 agent_id org_id = statement (λ s.
      elim (find_row (is_visible agent_id org_id) s.agents) [
        | some a ↦ (ok a, s)
        | none ↦ (raise (not_found agent_id), s)
      ])

  unfoldable pub list_agents :
      Claims
      → ℕ
      → ℕ
      → Option String
      → Option String
      → Option String
      → Session W
      → ListResponse Agent
  list_agents claims limit offset company_id role_id status s = list_page limit offset (
      select_rows
        (λ a.
          (a.org_id == claims.org_id)
          && (is_live a
              && (admits company_id a.company_id
                  && (admits_role role_id a.role_id && admits status a.status))))
        s.agents)

  unfoldable pub update_agent : String → AgentUpdate → Claims → Exec (Session W) Unit
  update_agent agent_id body claims = do
    get_or_404 agent_id claims.org_id
    change_agent agent_id claims.org_id (λ a. record a {
      name = or_else body.name a.name;
      role_id = keep_or body.role_id a.role_id;
      llm_config = or_else body.llm_config a.llm_config;
      capabilities = or_else body.capabilities a.capabilities;
      tool_permissions = or_else body.tool_permissions a.tool_permissions;
      token_budget_daily = keep_or body.token_budget_daily a.token_budget_daily;
      token_budget_monthly = keep_or body.token_budget_monthly a.token_budget_monthly;
      version = a.version + 1;
    })

  -- `try: m` with `except EngineError as exc`.
  unfoldable pub except_engine_error :
      {A : Type 0} → Exec (Session W) A → (String → Exec (Session W) A) → Exec (Session W) A
  except_engine_error m handle s =
      let (r, s') = m s in
      elim r [
        | ok a ↦ (ok a, s')
        | raise (engine_error why) ↦ handle why s'
        | raise e ↦ (raise e, s')
      ]

  abbrev engine_failed : {A : Type 0} → String → Exec (Session W) A
  engine_failed why s = (raise (http_exception 502 ("Agent engine error: " ++ why)), s)

module _ {W : Type 0} (services : AgentServices W) where
  open services use {new_id, now}

  -- The constraint is `uq_agents_company_slug`.
  unfoldable pub insert_agent : Agent → Exec (Session W) Agent
  insert_agent agent = statement (
      failing_aborts (λ s.
        let x =
          insert_row (λ a. (a.company_id == agent.company_id) && (a.slug == agent.slug)) agent
            s.agents in
        (x.0, record s { agents = x.1 })))

  -- The test of the slug.
  unfoldable pub require_free_slug : Agent → Exec (Session W) Unit
  require_free_slug body = statement (λ s.
      raise_if
        (is_some (
          find_row (λ a. (a.company_id == body.company_id) && ((a.slug == body.slug) && is_live a))
            s.agents))
        (http_exception 409 (
          "An agent with slug '"
          ++ (body.slug ++ ("' already exists in company '" ++ (body.company_id ++ "'")))))
        s)

  -- `create_agent`: its body is the row, but for the fields that the server sets.
  unfoldable pub create_agent : Agent → Claims → Exec (Session W) Agent
  create_agent body claims = do
    require_free_slug body
    insert_agent (record body {
      id = new_id;
      org_id = claims.org_id;
      status = "idle";
      version = 1;
      last_active_at = none;
      deleted_at = none;
    })

  unfoldable pub delete_agent : String → Claims → Exec (Session W) Unit
  delete_agent agent_id claims = do
    a ← get_or_404 agent_id claims.org_id
    raise_if (not (a.status == "idle" || a.status == "paused")) (
        http_exception 409
          ("Agent must be idle or paused before deletion. Current status: " ++ a.status))
    change_agent agent_id claims.org_id (λ a. record a { deleted_at = some now })

  -- From the staged status on.
  unfoldable pub start_staged : String → Claims → Exec (Session W) Unit
  start_staged agent_id claims = do
    change_agent agent_id claims.org_id (with_status "starting")
    except_engine_error (services.start_agent agent_id (some claims.sub))
        (λ why. do change_agent agent_id claims.org_id (with_status "idle"); engine_failed why)

  unfoldable pub start_agent : String → Claims → Exec (Session W) Unit
  start_agent agent_id claims = do
    a ← get_or_404 agent_id claims.org_id
    raise_if (a.status == "active") (http_exception 409 "Agent is already active")
    raise_if (a.status == "error")
        (http_exception 409 "Agent is in an error state. Resolve the error before starting.")
    start_staged agent_id claims

  unfoldable pub stop_agent : String → Bool → Option String → Claims → Exec (Session W) Unit
  stop_agent agent_id drain why claims = do
    a ← get_or_404 agent_id claims.org_id
    raise_if (not (a.status == "active" || a.status == "starting"))
        (http_exception 409 ("Cannot stop an agent with status '" ++ (a.status ++ "'")))
    change_agent agent_id claims.org_id (with_status (if drain then "stopping" else "idle"))
    except_engine_error (services.stop_agent agent_id drain why (some claims.sub)) (λ failure. do
      change_agent agent_id claims.org_id (with_status a.status)
      engine_failed failure)

  unfoldable pub trigger_agent : String → AgentTriggerRequest → Claims → Exec (Session W) String
  trigger_agent agent_id body claims = do
    a ← get_or_404 agent_id claims.org_id
    raise_if (not (a.status == "idle" || a.status == "active"))
        (http_exception 409 ("Cannot trigger an agent with status '" ++ (a.status ++ "'")))
    change_agent agent_id claims.org_id (λ a. record a { last_active_at = some now })
    except_engine_error
        (services.trigger_agent agent_id
          (field "type" (str "agent.trigger") (
            field "agent_id" (str agent_id) (
              field "task_id" body.task_id
                (field "priority" (str body.priority) (field "context" (obj body.context) end)))))
          (some claims.sub))
        engine_failed
