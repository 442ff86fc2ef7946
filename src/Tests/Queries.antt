-- ===== src/Tests/Queries.antt =====
-- A search whose requests are written down.
use agentcompany.Prelude.{String, List, [], ◌∷◌, Option, some, ◌==◌, false, true}
use agentcompany.Exec.{ok, Exec}
use agentcompany.Exec.Hoare.{Keeps, triple_state}
use agentcompany.Json.{Json, Fields, str, obj, get, field, end}
use agentcompany.Api.Search.{SearchRequest, SearchServices, Answer, search}
use agentcompany.Api.Search.Scope.{Scoped, search-Keeps}

abbrev filter_text : Option Json → String
filter_text (some (str s)) = s
filter_text _ = ""

abbrev text_of_str : Json → String
text_of_str (str s) = s
text_of_str _ = ""

abbrev record_filter : String → Fields → Exec (List String) Answer
record_filter path body filters = (
  ok (record { status_code = 200; json = ok (obj end) }),
  filter_text (get "filter" body) ∷ filters,
)

abbrev engine_services : SearchServices (List String)
engine_services = record {
  is_configured = true;
  is_forbidden = λ s. s == "a\" OR b";
  text_of = text_of_str;
  extend = λ hits v. ok hits;
  add = λ v w. ok v;
  less_than = λ n v. ok false;
  post = record_filter;
}

abbrev open_tasks : SearchRequest
open_tasks = record {
  q = "billing";
  company_id = "acme";
  scope = "tasks";
  filters = field "status" (str "open") end;
  limit = 20;
  offset = 0;
}

abbrev AllScoped : List String → Type 0
AllScoped [] = Unit
AllScoped (f ∷ fs) = Scoped engine_services "acme" f × AllScoped fs

search-Keeps_example : Keeps AllScoped (search engine_services open_tasks)
unfolding get
search-Keeps_example =
    search-Keeps engine_services AllScoped open_tasks
      (λ path f scoped. triple_state _ (λ filters h. (scoped, h)))
