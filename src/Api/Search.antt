-- ===== src/Api/Search.antt =====
-- api/search.py: the search of a company's indexes. The pattern of forbidden values, Python's functions
-- on values and the client of Meilisearch are given.
pub mod Scope
use Prim.Native.String.{◌++◌}
use agentcompany.Prelude.{
  String, Bool, List, [], ◌∷◌, ℕ, ◌+◌, ◌==◌, ◌||◌, not, or_else, is_empty, if◌then◌else◌, eqb,
}
use agentcompany.Prelude.Int.{pos}
use agentcompany.Exec.{
  Exec, Result, ok, raise, foreign, ◌>>=◌, ◌>>◌, pure, raise_if, http_exception, lift,
}
use agentcompany.Json.{Json, Fields, Items, num, str, arr, obj, cons, nil, field, end, get}

pub record SearchRequest : Type 0 where
  pub q : String
  pub company_id : String
  pub scope : String
  pub filters : Fields
  pub limit : ℕ
  pub offset : ℕ

pub record Answer : Type 0 where
  pub status_code : ℕ
  pub json : Result Json

-- `is_forbidden` is the search of the pattern, `text_of` is `str`, `extend` and `add` are what `extend`
-- and `+` make of a value, and `post` is the request of an index.
pub record SearchServices (W : Type 0) : Type 0 where
  pub is_configured : Bool
  pub is_forbidden : String → Bool
  pub text_of : Json → String
  pub extend : Items → Json → Result Items
  pub add : Json → Json → Result Json
  pub less_than : ℕ → Json → Result Bool
  pub post : String → Fields → Exec W Answer

-- The hits and the total so far.
pub record Found : Type 0 where
  pub all_hits : Items
  pub total : Json

pub record SearchResponse : Type 0 where
  pub found : Found
  pub has_more : Bool

abbrev pub is_allowed_key : String → Bool
is_allowed_key key =
    key == "status" || (key == "priority" || (key == "source" || key == "assignee"))

-- `_scope_to_indices`
unfoldable pub scope_to_indices : String → List String
scope_to_indices scope =
    if scope == "all"
    then "tasks" ∷ "documents" ∷ "messages" ∷ "agents" ∷ "roles" ∷ []
    else if scope == "documents"
    then "documents" ∷ []
    else if scope == "messages"
    then "messages" ∷ []
    else if scope == "agents"
    then "agents" ∷ []
    else if scope == "roles"
    then "roles" ∷ []
    else "tasks" ∷ []

abbrev pub company_clause : String → String
company_clause company_id = "company_id = \"" ++ (company_id ++ "\"")

abbrev pub key_clause : String → String → String
key_clause key value = " AND " ++ (key ++ (" = \"" ++ (value ++ "\"")))

module _ {W : Type 0} (services : SearchServices W) where
  open services use {is_configured, is_forbidden, text_of, extend, add, less_than, post}

  -- `_validate_filter_key`
  unfoldable pub validate_filter_key : String → Exec W Unit
  validate_filter_key key = raise_if (not (is_allowed_key key)) (
      http_exception 400 (
        "Filter key '"
        ++ (key
            ++ "' is not allowed. Permitted keys: ['assignee', 'priority', 'source', 'status']")))

  -- `_validate_filter_value`
  unfoldable pub validate_filter_value : String → Json → Exec W String
  validate_filter_value key value = do
    raise_if (is_forbidden (text_of value)) (
        http_exception 400 (
          "Filter value for '"
          ++ (key
              ++ "' contains disallowed characters or keywords. Values must not contain: OR, AND, NOT, TO, =, !=, >, <, (, ), \"")))
    pure (text_of value)

  -- The loop over the filters.
  unfoldable pub add_clauses : Fields → String → Exec W String
  add_clauses end meili_filter = pure meili_filter
  add_clauses (field key value rest) meili_filter = do
    validate_filter_key key
    safe_value ← validate_filter_value key value
    add_clauses rest (meili_filter ++ key_clause key safe_value)

  abbrev pub search_body : SearchRequest → String → Fields
  search_body body meili_filter = field "q" (str body.q) (
      field "filter" (str meili_filter) (
        field "limit" (num (pos body.limit)) (
          field "offset" (num (pos body.offset))
            (field "facets" (arr (cons (str "type") nil)) end))))

  -- The additions of a dict: hits that were added stay when the total cannot be.
  abbrev pub add_data : Json → Found → Found
  add_data (obj d) found = elim (extend found.all_hits (or_else (get "hits" d) (arr nil))) [
    | raise _ ↦ found
    | ok hits ↦ elim (add found.total (or_else (get "estimatedTotalHits" d) (num (pos 0)))) [
      | ok total ↦ record { all_hits = hits; total = total }
      | raise _ ↦ record found { all_hits = hits }
    ]
  ]
  add_data _ found = found

  -- What is added of an answer, or of an exception.
  abbrev pub add_answer : Result Answer → Found → Found
  add_answer (raise _) found = found
  add_answer (ok answer) found =
      if eqb answer.status_code 200
      then (elim answer.json [ ok v ↦ add_data v found | raise _ ↦ found ])
      else found

  -- The `try` of an index.
  unfoldable pub search_index : Fields → String → Found → Exec W Found
  search_index body index_name found w =
      let (r, w') = post ("/indexes/" ++ (index_name ++ "/search")) body w in
      (ok (add_answer r found), w')

  unfoldable pub search_indices : Fields → List String → Found → Exec W Found
  search_indices body [] found = pure found
  search_indices body (name ∷ names) found = do
    found' ← search_index body name found
    search_indices body names found'

  unfoldable pub search : SearchRequest → Exec W SearchResponse
  search body = do
    raise_if (not is_configured) (http_exception 503 "Search is not configured")
    company_id ← validate_filter_value "company_id" (str body.company_id)
    meili_filter ← add_clauses body.filters (company_clause company_id)
    found ←
        search_indices (search_body body meili_filter) (scope_to_indices body.scope)
          (record { all_hits = nil; total = num (pos 0) })
    more ← lift (less_than (body.offset + body.limit) found.total)
    pure (record { found = found; has_more = more })
