-- ===== src/Tests/Rest.antt =====
-- Decisions and starts over the API.
use agentcompany.Prelude.{
  ◌≡◌, refl, String, some, none, ◌∷◌, [], not, ◌==◌, false, ◌+◌, true, ◌≢◌, eq_iff,
}
use agentcompany.Exec.{foreign, ok, raise, ◌>>=◌, raise_if, type_error, ok_inj}
use agentcompany.Json.{end}
use agentcompany.Api.{Claims, select_rows, find_row}
use agentcompany.Api.Approvals.{
  Approval, decide, decided, already_decided, get_or_404, require_pending, save,
}
use agentcompany.Api.Approvals.Decisions.{decided_once, decide_keeps_others}
use agentcompany.Api.Agents.{Committed, get_db, Agent, start_agent}
use agentcompany.Api.Agents.Store.{EngineParts, agent_services, has_id}
use agentcompany.Api.Agents.Activation.{start_agent_lost, start_agent_activates}
use agentcompany.Engine.EngineService.{EngineService}
use agentcompany.Tests.Fixtures.{World, new_world}
use agentcompany.Api.Webhooks.{WebhookServices, signed_webhook}
use agentcompany.Api.Webhooks.Signatures.{Refused, unsigned-Refused}

abbrev alice : Claims
alice = record { sub = "alice"; org_id = "org_1" }

abbrev bob : Claims
bob = record { sub = "bob"; org_id = "org_1" }

abbrev asked : Approval
asked = record {
  id = "apr_1";
  org_id = "org_1";
  company_id = "acme";
  agent_id = "agt_1";
  status = "pending";
  decided_by = none;
  decided_at = none;
  decision_note = none;
  deleted_at = none;
}

abbrev approved : Approval
approved = decided "approved" alice none "today" asked

approving : decide "approved" "apr_1" alice none "today" (asked ∷ []) ≡ (ok approved, approved ∷ [])
unfolding decide get_or_404 require_pending raise_if save ◌>>=◌
approving = refl

-- Bob denies what Alice approved.
decided_once_example :
    (a : Approval) × (a.status ≡ "approved")
    × (decide "denied" "apr_1" bob none "tomorrow" (approved ∷ [])
        ≡ (raise (already_decided a), approved ∷ []))
decided_once_example =
    decided_once "approved" "denied" "apr_1" alice bob none none "today" "tomorrow" (asked ∷ [])
      (approved ∷ []) refl refl approving

decide_keeps_others_example :
    select_rows
      (λ a. not (a.org_id == "org_1"))
      (decide "approved" "apr_1" alice none "today" (asked ∷ [])).1
    ≡ select_rows (λ a. not (a.org_id == "org_1")) (asked ∷ [])
decide_keeps_others_example = decide_keeps_others "approved" "apr_1" alice none "today" (asked ∷ [])

abbrev paused_agent : Agent
paused_agent = record {
  id = "agt_1";
  org_id = "org_1";
  company_id = "acme";
  role_id = none;
  name = "Ada";
  slug = "ada";
  status = "paused";
  llm_config = end;
  capabilities = [];
  tool_permissions = end;
  token_budget_daily = none;
  token_budget_monthly = none;
  version = 3;
  last_active_at = none;
  deleted_at = none;
}

abbrev table : Committed World
table = record { agents = paused_agent ∷ []; world = new_world }

abbrev parts : EngineParts World
parts = record {
  insert_transition = λ row w. (ok tt, w);
  text_of = λ v. "text";
  error_text = λ e. "error";
  is_within = λ s t. false;
}

abbrev alone : EngineService World
alone = record { heartbeat = none; bus = none }

-- The table of transitions is not there.
abbrev parts_without : EngineParts World
parts_without = record parts {
  insert_transition = λ row w. (raise (foreign "ProgrammingError"), w);
}

start_agent_activates_example :
    ((get_db (start_agent (agent_services parts alone "agt_2" "today") "agt_1" alice) table).0
      ≡ ok tt)
    × (find_row
          (has_id "agt_1")
          (get_db
            (start_agent (agent_services parts alone "agt_2" "today") "agt_1" alice)
            table).1.agents
        ≡ some (record paused_agent { status = "active"; version = 3 + 1 + 1 }))
start_agent_activates_example =
    start_agent_activates parts alone "agt_2" "today" "agt_1" alice table refl refl refl refl refl
      refl (λ row w. refl)

start_agent_lost_example :
    ((get_db
        (start_agent (agent_services parts_without alone "agt_2" "today") "agt_1" alice)
        table).0
      ≡ ok tt)
    × ((get_db
          (start_agent (agent_services parts_without alone "agt_2" "today") "agt_1" alice)
          table).1.agents
        ≡ table.agents)
start_agent_lost_example =
    start_agent_lost parts_without alone "agt_2" "today" "agt_1" alice table refl refl refl refl
      refl refl (λ row w. refl)

-- Digests are the texts of the secrets, and no body is JSON.
abbrev webhooks : WebhookServices World
webhooks = record {
  event_bus = none;
  hexdigest = λ secret body. secret;
  compare_digest = λ a b. ok (a == b);
  remove_prefix = λ p s. s;
  parse = λ body. raise type_error;
  text_of = λ v. "text";
  error_text = λ e. "error";
}

compared : (a b : String) → ok (a == b) ≡ ok true → a ≡ b
compared a b e = (eq_iff a b).0 (ok_inj e)

abbrev secret : String
secret = "s3cret"

abbrev guess : String
guess = "guess"

wrong_guess : secret ≢ guess
wrong_guess e = cc ((eq_iff secret guess).1 e)

unsigned-Refused_example :
    Refused webhooks compared
      (signed_webhook webhooks "plane" "Plane" "X-Plane-Signature" secret [] (some guess) new_world)
      new_world
unsigned-Refused_example =
    unsigned-Refused webhooks compared "plane" "Plane" "X-Plane-Signature" secret [] (some guess)
      new_world wrong_guess
