-- ===== src/Api/Companies.antt =====
-- api/companies.py: the companies of an organisation.
pub mod Slugs
use Prim.Native.String.{◌++◌}
use agentcompany.Prelude.{
  String, Option, Bool, List, none, some, ◌==◌, ◌&&◌, not, ℕ, ◌+◌, or_else, ◌∷◌, is_some,
  if◌then◌else◌,
}
use agentcompany.Exec.{Exec, http_exception, ◌>>=◌, ok, raise, pure}
use agentcompany.Json.{Fields, merge}
use agentcompany.Api.{
  Claims, find_row, update_row, list_page, ListResponse, select_rows, insert_row,
}

pub record Company : Type 0 where
  pub id : String
  pub org_id : String
  pub name : String
  pub slug : String
  pub description : Option String
  pub status : String
  pub settings : Fields
  pub version : ℕ
  pub deleted_at : Option String

pub record CompanyCreate : Type 0 where
  pub name : String
  pub slug : String
  pub description : Option String
  pub settings : Fields

-- The body of an update: what is None stays.
pub record CompanyUpdate : Type 0 where
  pub name : Option String
  pub description : Option String
  pub status : Option String
  pub settings : Option Fields

-- The condition of `_get_or_404`.
abbrev pub is_visible : String → String → Company → Bool
is_visible company_id org_id c =
    (c.id == company_id) && ((c.org_id == org_id) && not (is_some c.deleted_at))

-- The condition of the guard of `create_company`.
abbrev pub has_slug : String → String → Company → Bool
has_slug org_id slug c = (c.org_id == org_id) && ((c.slug == slug) && not (is_some c.deleted_at))

-- What the constraint `uq_companies_org_slug` compares.
abbrev pub is_taken : String → String → Company → Bool
is_taken org_id slug c = (c.org_id == org_id) && (c.slug == slug)

-- `_get_or_404`
unfoldable pub get_or_404 : String → String → Exec (List Company) Company
get_or_404 company_id org_id companies = elim (find_row (is_visible company_id org_id) companies) [
  | some c ↦ (ok c, companies)
  | none ↦ (raise (http_exception 404 ("Company '" ++ (company_id ++ "' not found"))), companies)
]

-- The row that `create_company` adds.
abbrev pub new_company : String → CompanyCreate → Claims → Company
new_company new_id body claims = record {
  id = new_id;
  org_id = claims.org_id;
  name = body.name;
  slug = body.slug;
  description = body.description;
  status = "provisioning";
  settings = body.settings;
  version = 1;
  deleted_at = none;
}

unfoldable pub create_company : String → CompanyCreate → Claims → Exec (List Company) Company
create_company new_id body claims companies =
    elim (find_row (has_slug claims.org_id body.slug) companies) [
      | some _ ↦ (
        raise (
            http_exception 409
              ("A company with slug '" ++ (body.slug ++ "' already exists in this org"))),
        companies,
      )
      | none ↦
          insert_row (is_taken claims.org_id body.slug) (new_company new_id body claims) companies
    ]

unfoldable pub list_companies : Claims → ℕ → ℕ → List Company → ListResponse Company
list_companies claims limit offset companies =
    list_page limit offset
      (select_rows (λ c. (c.org_id == claims.org_id) && not (is_some c.deleted_at)) companies)

-- `if x is not None: field = x`, where the field may hold None.
abbrev keep_or : {A : Type 0} → Option A → Option A → Option A
keep_or none old = old
keep_or (some a) old = some a

abbrev merged : Fields → Option Fields → Fields
merged old none = old
merged old (some d) = merge old d

-- The assignments of `update_company`.
abbrev pub updated : CompanyUpdate → Company → Company
updated body c = record c {
  name = or_else body.name c.name;
  description = keep_or body.description c.description;
  status = or_else body.status c.status;
  settings = merged c.settings body.settings;
  version = c.version + 1;
}

-- A change of the company that was found, flushed.
unfoldable pub change_company :
    String → String → (Company → Company) → Company → Exec (List Company) Company
change_company company_id org_id f c companies =
    (ok (f c), update_row (is_visible company_id org_id) f companies)

unfoldable pub update_company : String → CompanyUpdate → Claims → Exec (List Company) Company
update_company company_id body claims = do
  c ← get_or_404 company_id claims.org_id
  change_company company_id claims.org_id (updated body) c

-- The assignments of `delete_company`; `now` is the time.
abbrev pub archived : String → Company → Company
archived now c = record c { deleted_at = some now; status = "archived"; version = c.version + 1 }

unfoldable pub delete_company : String → Claims → String → Exec (List Company) Company
delete_company company_id claims now = do
  c ← get_or_404 company_id claims.org_id
  change_company company_id claims.org_id (archived now) c
