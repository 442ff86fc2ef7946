-- ===== src/Api/Tasks.antt =====
-- api/tasks.py: tasks, their assignment and their status.
use Prim.Native.String.{◌++◌}
use agentcompany.Prelude.{
  String, Option, Bool, List, none, some, ◌==◌, ◌&&◌, ◌||◌, not, ℕ, ◌+◌, if◌then◌else◌, or_else,
  true, ◌∷◌, is_some, is_empty, false,
}
use agentcompany.Exec.{Exec, http_exception, ◌>>=◌, ok, raise}
use agentcompany.Json.{Fields, merge}
use agentcompany.Api.{Claims, find_row, update_row, list_page, ListResponse, select_rows}
use agentcompany.Api.Approvals.{admits}

pub record Task : Type 0 where
  pub id : String
  pub org_id : String
  pub company_id : String
  pub parent_task_id : Option String
  pub title : String
  pub description : Option String
  pub assigned_to : Option String
  pub assigned_type : Option String
  pub status : String
  pub priority : String
  pub due_at : Option String
  pub started_at : Option String
  pub completed_at : Option String
  pub tags : List String
  pub metadata : Fields
  pub created_by : String
  pub version : ℕ
  pub deleted_at : Option String

-- The body of an update: what is None stays.
pub record TaskUpdate : Type 0 where
  pub title : Option String
  pub description : Option String
  pub status : Option String
  pub priority : Option String
  pub assigned_to : Option String
  pub assigned_type : Option String
  pub due_at : Option String
  pub tags : Option (List String)
  pub metadata : Option Fields

-- The condition of `_get_or_404`.
abbrev pub is_visible : String → String → Task → Bool
is_visible task_id org_id t =
    (t.id == task_id) && ((t.org_id == org_id) && not (is_some t.deleted_at))

-- `_apply_status_transition`; `now` is the time.
unfoldable pub apply_status_transition : String → String → Task → Task
apply_status_transition now new_status t =
    if (new_status == "in_progress") && not (is_some t.started_at)
    then record t { status = new_status; started_at = some now }
    else if new_status == "done" || new_status == "cancelled"
    then record t { status = new_status; completed_at = some now }
    else record t { status = new_status }

-- `if x is not None: field = x`, where the field may hold None.
abbrev keep_or : {A : Type 0} → Option A → Option A → Option A
keep_or none old = old
keep_or (some a) old = some a

abbrev with_new_status : String → Option String → Task → Task
with_new_status now none t = t
with_new_status now (some s) t = apply_status_transition now s t

-- The type goes with the assignee.
abbrev with_assignee : Option String → Option String → Task → Task
with_assignee none kind t = t
with_assignee (some a) kind t = record t { assigned_to = some a; assigned_type = kind }

abbrev merged : Fields → Option Fields → Fields
merged old none = old
merged old (some d) = merge old d

-- The assignments of `update_task`.
unfoldable pub updated : String → TaskUpdate → Task → Task
updated now body t =
    let u = with_assignee body.assigned_to body.assigned_type (with_new_status now body.status t) in
    record u {
      title = or_else body.title t.title;
      description = keep_or body.description t.description;
      priority = or_else body.priority t.priority;
      due_at = keep_or body.due_at t.due_at;
      tags = or_else body.tags t.tags;
      metadata = merged t.metadata body.metadata;
      version = t.version + 1;
    }

-- `_get_or_404`
unfoldable pub get_or_404 : String → String → Exec (List Task) Task
get_or_404 task_id org_id tasks = elim (find_row (is_visible task_id org_id) tasks) [
  | some t ↦ (ok t, tasks)
  | none ↦ (raise (http_exception 404 ("Task '" ++ (task_id ++ "' not found"))), tasks)
]

-- A change of the task that was found, flushed.
unfoldable pub change_task : String → String → (Task → Task) → Task → Exec (List Task) Task
change_task task_id org_id f t tasks = (ok (f t), update_row (is_visible task_id org_id) f tasks)

unfoldable pub update_task : String → TaskUpdate → Claims → String → Exec (List Task) Task
update_task task_id body claims now = do
  t ← get_or_404 task_id claims.org_id
  change_task task_id claims.org_id (updated now body) t

unfoldable pub assign_task : String → String → String → Claims → Exec (List Task) Task
assign_task task_id assignee_id assignee_type claims = do
  t ← get_or_404 task_id claims.org_id
  change_task task_id claims.org_id
      (λ t. record t {
        assigned_to = some assignee_id;
        assigned_type = some assignee_type;
        version = t.version + 1;
      })
      t

-- `create_task`: its body is the row, but for the fields that the server sets.
unfoldable pub create_task : String → Task → Claims → Exec (List Task) Task
create_task new_id body claims tasks =
    let t = record body {
      id = new_id;
      org_id = claims.org_id;
      created_by = claims.sub;
      status = "backlog";
      started_at = none;
      completed_at = none;
      version = 1;
      deleted_at = none;
    } in
    (ok t, t ∷ tasks)

-- A filter of a column that may hold None.
abbrev pub admits_some : Option String → Option String → Bool
admits_some filter value =
    let f = or_else filter "" in
    if is_empty f then true else elim value [ some v ↦ v == f | none ↦ false ]

unfoldable pub list_tasks :
    Claims
    → ℕ
    → ℕ
    → Option String
    → Option String
    → Option String
    → Option String
    → List Task
    → ListResponse Task
list_tasks claims limit offset company_id status assigned_to priority tasks =
    list_page limit offset (
      select_rows
        (λ t.
          (t.org_id == claims.org_id)
          && (not (is_some t.deleted_at)
              && (admits company_id t.company_id
                  && (admits status t.status
                      && (admits_some assigned_to t.assigned_to && admits priority t.priority)))))
        tasks)
