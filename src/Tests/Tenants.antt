-- ===== src/Tests/Tenants.antt =====
-- Companies of two organisations, and callers with tokens.
use agentcompany.Prelude.{◌≡◌, refl, ℕ, ◌+◌, some, none, ◌∷◌, [], ◌==◌, if◌then◌else◌, List}
use agentcompany.Exec.{Error, raise, ok, foreign, raise_if, lift, pure, ◌>>=◌}
use agentcompany.Json.{Json, Fields, end, field, str, obj, arr, nil, truthy, get}
use agentcompany.Api.{Claims}
use agentcompany.Api.Companies.{Company, CompanyCreate, create_company}
use agentcompany.Api.Companies.Slugs.{Request, create, delete, serve_all, slug_stays_taken}
use agentcompany.Core.Security.{
  SecurityServices, Security, claims_of, jwt_error, get_token_claims, token_claims, validate_token,
  or_unauthorized, fetch_jwks, decode_token, read_claims,
}
use agentcompany.Core.Security.Tokens.{KnownKeys, Verified, get_token_claims-Verified}
use agentcompany.Core.Security.Offline.{after_requests, fresh_cache_serves}

abbrev admin : Claims
admin = record { sub = "alice"; org_id = "org_1" }

abbrev company_row : Company
company_row = record {
  id = "cmp_1";
  org_id = "org_1";
  name = "Acme";
  slug = "acme";
  description = none;
  status = "active";
  settings = end;
  version = 1;
  deleted_at = none;
}

abbrev acme_again : CompanyCreate
acme_again = record { name = "Acme again"; slug = "acme"; description = none; settings = end }

abbrev elsewhere : CompanyCreate
elsewhere = record { name = "Other"; slug = "other"; description = none; settings = end }

abbrev requests : List Request
requests = delete "cmp_1" admin "today" ∷ create "cmp_2" elsewhere admin ∷ []

-- The company is deleted, another one is created, and the slug is not free.
slug_stays_taken_example :
    (e : Error) × (create_company "cmp_3" acme_again admin (serve_all requests (company_row ∷ []))
      ≡ (raise e, serve_all requests (company_row ∷ [])))
slug_stays_taken_example =
    slug_stays_taken requests (company_row ∷ []) "cmp_3" acme_again admin refl

-- Keycloak counts its requests; one token is good.
abbrev good_claims : Fields
good_claims = field "sub" (str "alice") (field "org_id" (str "org_1") end)

abbrev security : SecurityServices ℕ
security = record {
  download = λ n. (ok (str "keys"), n + 1);
  decode = λ token keys.
      if token == "good" then claims_of good_claims else jwt_error (foreign "JWTError");
  error_text = λ e. "";
  partition_space = λ s. if s == "Bearer good" then ("bearer", "good") else ("bearer", "bad");
  lower = λ s. s;
  is_within = λ s t. s == t;
}

abbrev at_start : Security ℕ
at_start = record { jwks_cache = obj end; jwks_fetched_at = 0; world = 0 }

let_in :
    (get_token_claims security 5 (some "Bearer good") at_start).0
    ≡ ok (token_claims good_claims (arr nil))
unfolding get_token_claims validate_token or_unauthorized fetch_jwks decode_token read_claims
    raise_if lift pure ◌>>=◌ truthy get
let_in = refl

get_token_claims-Verified_example :
    (security.lower (security.partition_space "Bearer good").0 ≡ "bearer")
    × ((keys : Json) × KnownKeys security at_start keys
        × Verified security keys "good" (token_claims good_claims (arr nil)))
get_token_claims-Verified_example =
    get_token_claims-Verified security 5 (some "Bearer good") at_start let_in

abbrev fetched : Security ℕ
fetched = record { jwks_cache = str "keys"; jwks_fetched_at = 5; world = 1 }

fresh_cache_serves_example :
    after_requests security
      ((6, some "Bearer good") ∷ (7, some "Bearer stolen") ∷ (8, none) ∷ [])
      fetched
    ≡ fetched
unfolding truthy
fresh_cache_serves_example =
    fresh_cache_serves security
      ((6, some "Bearer good") ∷ (7, some "Bearer stolen") ∷ (8, none) ∷ []) fetched refl
      (refl, (refl, (refl, tt)))
