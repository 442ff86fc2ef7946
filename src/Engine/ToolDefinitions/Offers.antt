-- ===== src/Engine/ToolDefinitions/Offers.antt =====
-- tool_definitions.py: which tools the registry of a company holds.
use agentcompany.Prelude.{
  ◌≡◌, refl, String, List, [], ◌∷◌, Option, some, none, is_empty, false, if◌then◌else◌, is_some,
}
use mathlib.Core.List.{◌++◌}
use agentcompany.Json.{Builtins}
use agentcompany.Exec.{Result, ok}
use agentcompany.Engine.ToolDefinitions.Catalog.{
  plane_tools, outline_tools, mattermost_tools, meili_tools, register_all, with_platform,
  build_registry_for_company,
}
use agentcompany.Engine.ToolRegistry.{register, ToolRegistry, list_tools}
use agentcompany.Adapters.Registry.{Adapters, get_optional}
use agentcompany.Engine.ToolDefinitions.{Platform}

abbrev pub plane_names : List String
plane_names = "create_issue" ∷ "update_issue" ∷ "get_issue" ∷ "add_comment" ∷ "list_issues" ∷ []

abbrev pub outline_names : List String
outline_names = "search_documents" ∷ "create_document" ∷ "get_document" ∷ "update_document" ∷ []

abbrev pub mattermost_names : List String
mattermost_names = "send_message" ∷ "reply_to_message" ∷ "search_posts" ∷ []

abbrev pub meili_names : List String
meili_names = "search_all" ∷ "search" ∷ []

-- The names of a platform whose adapter is there.
abbrev pub where_found : {A : Type 0} → Option A → List String → List String
where_found found names = if is_some found then names else []

module _ {W : Type 0} (py : Builtins) where
  abbrev Lists : Result (ToolRegistry W) → List String → Type 0
  Lists result names = (r : ToolRegistry W) × (result ≡ ok r) × (list_tools r ≡ names)

  Lists-with_platform :
      (a b c d : Option (Platform W))
      → Lists
          (with_platform d (meili_tools py) (
            with_platform c
              (mattermost_tools py)
              (with_platform b (outline_tools py) (with_platform a (plane_tools py) (ok [])))))
          (where_found a plane_names
            ++ (where_found b outline_names
                ++ (where_found c mattermost_names ++ where_found d meili_names)))
  unfolding plane_tools outline_tools mattermost_tools meili_tools register_all register list_tools
  Lists-with_platform none none none none = (_, refl, refl)
  Lists-with_platform none none none (some d) = (_, refl, refl)
  Lists-with_platform none none (some c) none = (_, refl, refl)
  Lists-with_platform none none (some c) (some d) = (_, refl, refl)
  Lists-with_platform none (some b) none none = (_, refl, refl)
  Lists-with_platform none (some b) none (some d) = (_, refl, refl)
  Lists-with_platform none (some b) (some c) none = (_, refl, refl)
  Lists-with_platform none (some b) (some c) (some d) = (_, refl, refl)
  Lists-with_platform (some a) none none none = (_, refl, refl)
  Lists-with_platform (some a) none none (some d) = (_, refl, refl)
  Lists-with_platform (some a) none (some c) none = (_, refl, refl)
  Lists-with_platform (some a) none (some c) (some d) = (_, refl, refl)
  Lists-with_platform (some a) (some b) none none = (_, refl, refl)
  Lists-with_platform (some a) (some b) none (some d) = (_, refl, refl)
  Lists-with_platform (some a) (some b) (some c) none = (_, refl, refl)
  Lists-with_platform (some a) (some b) (some c) (some d) = (_, refl, refl)

  -- The registry of a company is built whatever adapters it has, and holds the tools of exactly the
  -- platforms whose adapters are there, in the order of the platforms: no name hides another.
  pub build_registry_lists :
      (adapters : Adapters (Platform W)) (company_id : String)
      → is_empty company_id ≡ false
      → (r : ToolRegistry W) × (build_registry_for_company py adapters company_id ≡ ok r)
        × (list_tools r
            ≡ where_found (get_optional company_id "plane" adapters) plane_names
              ++ (where_found (get_optional company_id "outline" adapters) outline_names
                  ++ (where_found (get_optional company_id "mattermost" adapters) mattermost_names
                      ++ where_found (get_optional company_id "meilisearch" adapters) meili_names)))
  unfolding build_registry_for_company
  build_registry_lists adapters company_id named = rw named (
      Lists-with_platform (get_optional company_id "plane" adapters)
        (get_optional company_id "outline" adapters) (get_optional company_id "mattermost" adapters)
        (get_optional company_id "meilisearch" adapters))
