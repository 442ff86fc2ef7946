-- ===== src/Api/Roles.antt =====
-- api/roles.py: the roles of a company.

use Prim.Native.String.{◌++◌}
use agentcompany.Prelude.{
  String, Option, Bool, List, none, some, ◌==◌, ◌&&◌, ◌||◌, not, ℕ, or_else, is_some, is_empty,
}
use agentcompany.Exec.{Exec, http_exception, ◌>>=◌, ◌>>◌, ok, raise, raise_if}
use agentcompany.Json.{Fields}
use agentcompany.Api.{
  Claims, find_row, update_row, list_page, ListResponse, select_rows, insert_row,
}
use agentcompany.Api.Approvals.{admits}

pub record Role : Type 0 where
  pub id : String
  pub org_id : String
  pub company_id : String
  pub name : String
  pub slug : String
  pub description : Option String
  pub level : ℕ
  pub reports_to_role_id : Option String
  pub permissions : List String
  pub tool_access : Fields
  pub max_headcount : ℕ
  pub headcount_type : String
  pub deleted_at : Option String

-- The body of an update: what is None stays.
pub record RoleUpdate : Type 0 where
  pub name : Option String
  pub description : Option String
  pub level : Option ℕ
  pub reports_to_role_id : Option String
  pub permissions : Option (List String)
  pub tool_access : Option Fields
  pub max_headcount : Option ℕ
  pub headcount_type : Option String

-- The condition of `_get_or_404`.
abbrev pub is_visible : String → String → Role → Bool
is_visible role_id org_id r =
    (r.id == role_id) && ((r.org_id == org_id) && not (is_some r.deleted_at))

-- The condition of the guard of `create_role`.
abbrev pub has_slug : String → String → Role → Bool
has_slug company_id slug r =
    (r.company_id == company_id) && ((r.slug == slug) && not (is_some r.deleted_at))

-- What the constraint `uq_roles_company_slug` compares.
abbrev pub is_taken : String → String → Role → Bool
is_taken company_id slug r = (r.company_id == company_id) && (r.slug == slug)

-- The condition on the parent.
abbrev pub is_parent : String → Role → Bool
is_parent role_id r = (r.id == role_id) && not (is_some r.deleted_at)

-- `_get_or_404`
unfoldable pub get_or_404 : String → String → Exec (List Role) Role
get_or_404 role_id org_id roles = elim (find_row (is_visible role_id org_id) roles) [
  | some r ↦ (ok r, roles)
  | none ↦ (raise (http_exception 404 ("Role '" ++ (role_id ++ "' not found"))), roles)
]

-- The test of the slug: `body` is the row, but for the fields that the server sets.
unfoldable pub require_free_slug : Role → Exec (List Role) Unit
require_free_slug body roles =
    raise_if (is_some (find_row (has_slug body.company_id body.slug) roles))
      (http_exception 409
        ("Role '" ++ (body.slug ++ ("' already exists in company '" ++ (body.company_id ++ "'")))))
      roles

-- The test of the parent, where one is given.
unfoldable pub require_parent : String → Exec (List Role) Unit
require_parent parent roles =
    raise_if (not (is_empty parent || is_some (find_row (is_parent parent) roles)))
      (http_exception 422 ("reports_to_role_id '" ++ (parent ++ "' does not exist"))) roles

-- The row that `create_role` adds.
abbrev pub new_role : String → Role → Claims → Role
new_role new_id body claims = record body { id = new_id; org_id = claims.org_id; deleted_at = none }

unfoldable pub create_role : String → Role → Claims → Exec (List Role) Role
create_role new_id body claims = do
  require_free_slug body
  require_parent (or_else body.reports_to_role_id "")
  insert_row (is_taken body.company_id body.slug) (new_role new_id body claims)

-- In the order of the level and the name.
unfoldable pub list_roles : Claims → ℕ → ℕ → Option String → List Role → ListResponse Role
list_roles claims limit offset company_id roles = list_page limit offset (
    select_rows
      (λ r.
        (r.org_id == claims.org_id)
        && (not (is_some r.deleted_at) && admits company_id r.company_id))
      roles)

-- `if x is not None: field = x`, where the field may hold None.
abbrev keep_or : {A : Type 0} → Option A → Option A → Option A
keep_or none old = old
keep_or (some a) old = some a

-- The assignments of `update_role`.
abbrev pub updated : RoleUpdate → Role → Role
updated body r = record r {
  name = or_else body.name r.name;
  description = keep_or body.description r.description;
  level = or_else body.level r.level;
  reports_to_role_id = keep_or body.reports_to_role_id r.reports_to_role_id;
  permissions = or_else body.permissions r.permissions;
  tool_access = or_else body.tool_access r.tool_access;
  max_headcount = or_else body.max_headcount r.max_headcount;
  headcount_type = or_else body.headcount_type r.headcount_type;
}

-- A change of the role that was found, flushed.
unfoldable pub change_role : String → String → (Role → Role) → Role → Exec (List Role) Role
change_role role_id org_id f r roles = (ok (f r), update_row (is_visible role_id org_id) f roles)

unfoldable pub update_role : String → RoleUpdate → Claims → Exec (List Role) Role
update_role role_id body claims = do
  r ← get_or_404 role_id claims.org_id
  change_role role_id claims.org_id (updated body) r

unfoldable pub delete_role : String → Claims → String → Exec (List Role) Role
delete_role role_id claims now = do
  r ← get_or_404 role_id claims.org_id
  change_role role_id claims.org_id (λ r. record r { deleted_at = some now }) r
