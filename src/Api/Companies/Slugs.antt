-- ===== src/Api/Companies/Slugs.antt =====
-- api/companies.py: the slugs of companies over any sequence of requests.
use agentcompany.Prelude.{
  ◌≡◌, refl, String, Bool, true, List, [], ◌∷◌, none, some, is_some, Bool-cases, inl, inr, ap, ◌∙◌,
  Option-cases,
}
use Prim.Native.String.{◌++◌}
use agentcompany.Exec.{
  foreign, http_exception, Exec, ok, raise, Error, Result, ◌>>=◌, bind_of_ok, bind_of_raise,
}
use agentcompany.Api.{Claims, find_row, insert_row}
use agentcompany.Api.Tables.{is_some-find_row-update_row}
use agentcompany.Api.Companies.{
  Company, CompanyCreate, CompanyUpdate, create_company, update_company, delete_company, get_or_404,
  change_company, is_taken, is_visible, has_slug, updated, archived,
}

-- The requests that change the table: an id or a time is the server's.
pub data Request : Type 0 where
  create : String → CompanyCreate → Claims → Request
  update : String → CompanyUpdate → Claims → Request
  delete : String → Claims → String → Request

abbrev pub serve : Request → Exec (List Company) Company
serve (create new_id body claims) = create_company new_id body claims
serve (update company_id body claims) = update_company company_id body claims
serve (delete company_id claims now) = delete_company company_id claims now

-- The table after requests, whether they raise or not.
abbrev pub serve_all : List Request → List Company → List Company
serve_all [] companies = companies
serve_all (r ∷ rs) companies = serve_all rs (serve r companies).1

get_or_404_found :
    (company_id org_id : String) (companies : List Company) {c : Company}
    → find_row (is_visible company_id org_id) companies ≡ some c
    → get_or_404 company_id org_id companies ≡ (ok c, companies)
unfolding get_or_404
get_or_404_found company_id org_id companies found = rw (found, get_or_404) refl

get_or_404_missing :
    (company_id org_id : String) (companies : List Company)
    → find_row (is_visible company_id org_id) companies ≡ none
    → get_or_404 company_id org_id companies
      ≡ (raise (http_exception 404 ("Company '" ++ (company_id ++ "' not found"))), companies)
unfolding get_or_404
get_or_404_missing company_id org_id companies missing = rw (missing, get_or_404) refl

module _ (org_id slug : String) where
  abbrev Taken : List Company → Type 0
  Taken companies = is_some (find_row (is_taken org_id slug) companies) ≡ true

  insert_row-Taken :
      (taken : Company → Bool) (c : Company) (companies : List Company)
      → Taken companies
      → Taken (insert_row taken c companies).1
  unfolding insert_row
  insert_row-Taken taken c companies h = elim (Option-cases (find_row taken companies)) [
    | inl e ↦
        rw (e, insert_row)
          (elim (Bool-cases (is_taken org_id slug c)) [ inl x ↦ rw x refl | inr x ↦ rw x h ])
    | inr (d, e) ↦ rw (e, insert_row) h
  ]

  create-Taken :
      (new_id : String) (body : CompanyCreate) (claims : Claims) (companies : List Company)
      → Taken companies
      → Taken (create_company new_id body claims companies).1
  unfolding create_company
  create-Taken new_id body claims companies h =
      elim (Option-cases (find_row (has_slug claims.org_id body.slug) companies)) [
        | inl e ↦ rw (e, create_company) (insert_row-Taken _ _ companies h)
        | inr (d, e) ↦ rw (e, create_company) h
      ]

  -- A change of a row that was found.
  change-Taken :
      (company_id by : String) (f : Company → Company) (companies : List Company)
      → ((c : Company) → is_taken org_id slug (f c) ≡ is_taken org_id slug c)
      → Taken companies
      → Taken ((do c ← get_or_404 company_id by; change_company company_id by f c) companies).1
  unfolding change_company
  change-Taken company_id by f companies keeps h =
      elim (Option-cases (find_row (is_visible company_id by) companies)) [
        | inl e ↦ ap after (bind_of_raise _ _ (get_or_404_missing company_id by companies e)) ∙ h
        | inr (d, e) ↦
            ap after (bind_of_ok _ _ (get_or_404_found company_id by companies e))
            ∙ (is_some-find_row-update_row _ _ f companies keeps ∙ h)
      ]
    where
      after : Result Company × List Company → Bool
      after x = is_some (find_row (is_taken org_id slug) x.1)

  serve-Taken :
      (r : Request) (companies : List Company) → Taken companies → Taken (serve r companies).1
  unfolding update_company delete_company
  serve-Taken (create new_id body claims) companies h = create-Taken new_id body claims companies h
  serve-Taken (update company_id body claims) companies h =
      change-Taken company_id claims.org_id (updated body) companies (λ c. refl) h
  serve-Taken (delete company_id claims now) companies h =
      change-Taken company_id claims.org_id (archived now) companies (λ c. refl) h

  serve_all-Taken :
      (rs : List Request) (companies : List Company)
      → Taken companies
      → Taken (serve_all rs companies)
  serve_all-Taken [] companies h = h
  serve_all-Taken (r ∷ rs) companies h =
      serve_all-Taken rs (serve r companies).1 (serve-Taken r companies h)

create_taken :
    (new_id : String) (body : CompanyCreate) (claims : Claims) (companies : List Company)
    → is_some (find_row (is_taken claims.org_id body.slug) companies) ≡ true
    → (e : Error) × (create_company new_id body claims companies ≡ (raise e, companies))
unfolding create_company insert_row
create_taken new_id body claims companies h =
    elim (Option-cases (find_row (has_slug claims.org_id body.slug) companies)) [
      | inl e ↦ elim (Option-cases (find_row (is_taken claims.org_id body.slug) companies)) [
        | inl x ↦ cc
        | inr (d, x) ↦ (foreign "IntegrityError", rw (e, x, create_company, insert_row) refl)
      ]
      | inr (d, e) ↦ (
        http_exception 409
            ("A company with slug '" ++ (body.slug ++ "' already exists in this org")),
        rw (e, create_company) refl,
      )
    ]

-- A slug that a company of the organisation has, deleted or not, stays taken: after any sequence of
-- creations, updates and deletions by any callers, a creation with this slug in this organisation
-- raises and leaves the table as it is.
pub slug_stays_taken :
    (rs : List Request) (companies : List Company) (new_id : String) (body : CompanyCreate)
    (claims : Claims)
    → is_some (find_row (is_taken claims.org_id body.slug) companies) ≡ true
    → (e : Error) × (create_company new_id body claims (serve_all rs companies)
        ≡ (raise e, serve_all rs companies))
slug_stays_taken rs companies new_id body claims h =
    create_taken new_id body claims (serve_all rs companies)
      (serve_all-Taken claims.org_id body.slug rs companies h)
