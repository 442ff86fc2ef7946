-- ===== src/Api/Approvals.antt =====
-- api/approvals.py: approvals of actions, and their decision.
pub mod Decisions
use Prim.Native.String.{◌++◌}
use agentcompany.Prelude.{
  String, Option, Bool, List, none, some, ◌==◌, ◌&&◌, not, ℕ, if◌then◌else◌, is_empty, or_else,
  true, is_some,
}
use agentcompany.Exec.{Exec, raise_if, http_exception, lift, Result, ◌>>=◌, ok, ◌>>◌, raise, Error}
use agentcompany.Api.{Claims, find_row, update_row, select_rows, list_page, ListResponse}

pub record Approval : Type 0 where
  pub id : String
  pub org_id : String
  pub company_id : String
  pub agent_id : String
  pub status : String
  pub decided_by : Option String
  pub decided_at : Option String
  pub decision_note : Option String
  pub deleted_at : Option String

-- The condition of `_get_or_404`.
abbrev pub is_visible : String → String → Approval → Bool
is_visible approval_id org_id a =
    (a.id == approval_id) && ((a.org_id == org_id) && not (is_some a.deleted_at))

-- A filter that is given.
abbrev pub admits : Option String → String → Bool
admits filter value = let f = or_else filter "" in if is_empty f then true else value == f

unfoldable pub list_approvals :
    Claims
    → ℕ
    → ℕ
    → Option String
    → Option String
    → Option String
    → List Approval
    → ListResponse Approval
list_approvals claims limit offset company_id status agent_id approvals = list_page limit offset (
    select_rows
      (λ a.
        (a.org_id == claims.org_id)
        && (not (is_some a.deleted_at)
            && (admits company_id a.company_id
                && (admits status a.status && admits agent_id a.agent_id))))
      approvals)

abbrev pub not_found : String → Error
not_found approval_id = http_exception 404 ("Approval '" ++ (approval_id ++ "' not found"))

abbrev pub already_decided : Approval → Error
already_decided a =
    http_exception 409
      ("Approval '" ++ (a.id ++ ("' has already been decided (status: " ++ (a.status ++ ")"))))

-- `_get_or_404`
unfoldable pub get_or_404 : String → String → Exec (List Approval) Approval
get_or_404 approval_id org_id approvals =
    elim (find_row (is_visible approval_id org_id) approvals) [
      | some a ↦ (ok a, approvals)
      | none ↦ (raise (not_found approval_id), approvals)
    ]

-- `_require_pending`
unfoldable pub require_pending : Approval → Exec (List Approval) Unit
require_pending a = raise_if (not (a.status == "pending")) (already_decided a)

-- The fields that a decision sets.
abbrev pub decided : String → Claims → Option String → String → Approval → Approval
decided verdict claims note now a = record a {
  status = verdict;
  decided_by = some claims.sub;
  decided_at = some now;
  decision_note = note;
}

-- The assignments, which the session flushes.
unfoldable pub save :
    String → String → Claims → Option String → String → Approval → Exec (List Approval) Approval
save verdict approval_id claims note now a approvals = (
  ok (decided verdict claims note now a),
  update_row (is_visible approval_id claims.org_id) (decided verdict claims note now) approvals,
)

-- The body of `approve` and of `deny`; `now` is the time.
unfoldable pub decide :
    String → String → Claims → Option String → String → Exec (List Approval) Approval
decide verdict approval_id claims note now = do
  a ← get_or_404 approval_id claims.org_id
  require_pending a
  save verdict approval_id claims note now a

unfoldable pub approve : String → Claims → Option String → String → Exec (List Approval) Approval
approve = decide "approved"

unfoldable pub deny : String → Claims → Option String → String → Exec (List Approval) Approval
deny = decide "denied"
