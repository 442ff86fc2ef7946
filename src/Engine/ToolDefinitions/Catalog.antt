-- ===== src/Engine/ToolDefinitions/Catalog.antt =====
-- tool_definitions.py: `build_registry_for_company`, the tools of the platforms.
use agentcompany.Prelude.{String, Option, List, none, some, [], ◌∷◌, ℕ, is_empty, if◌then◌else◌}
use agentcompany.Json.{Builtins, Json, Fields, Items, str, num, arr, obj, field, end, nil, cons}
use agentcompany.Exec.{Result, raise, value_error, ok}
use agentcompany.Engine.ToolRegistry.{AgentTool, ToolRegistry, register}
use agentcompany.Prelude.Int.{pos}
use agentcompany.Engine.ToolDefinitions.{
  Platform, create_issue, search_documents, send_message, search_all, update_issue, create_document,
  reply_to_message, search_index, get_issue, get_document, search_posts, add_comment,
  update_document, list_issues,
}
use agentcompany.Adapters.Registry.{Adapters, get_optional}

abbrev pub texts : List String → Items
texts [] = nil
texts (s ∷ ss) = cons (str s) (texts ss)

-- The properties of the schemas.
abbrev text_property : String → Json
text_property description =
    obj (field "type" (str "string") (field "description" (str description) end))

abbrev flag_property : String → Json
flag_property description =
    obj (field "type" (str "boolean") (field "description" (str description) end))

abbrev list_property : String → Json
list_property description = obj (
    field "type" (str "array") (
      field "items" (obj (field "type" (str "string") end))
        (field "description" (str description) end)))

abbrev integer_property : ℕ → ℕ → String → Json
integer_property least most description = obj (
    field "type" (str "integer") (
      field "minimum" (num (pos least))
        (field "maximum" (num (pos most)) (field "description" (str description) end))))

abbrev plain_choice : List String → Json
plain_choice values = obj (field "type" (str "string") (field "enum" (arr (texts values)) end))

abbrev choice_property : List String → String → Json
choice_property values description = obj (
    field "type" (str "string")
      (field "enum" (arr (texts values)) (field "description" (str description) end)))

-- The parameters of a tool.
abbrev schema : List String → Fields → Fields
schema required properties =
    field "type" (str "object")
      (field "required" (arr (texts required)) (field "properties" (obj properties) end))

module _ {W : Type 0} where
  -- One registration after the other.
  unfoldable pub register_all : List (AgentTool W) → ToolRegistry W → Result (ToolRegistry W)
  register_all [] registry = ok registry
  register_all (tool ∷ tools) registry = elim (register tool registry) [
    | ok r ↦ register_all tools r
    | raise e ↦ raise e
  ]

  -- The tools of a platform, where its adapter is there.
  abbrev pub with_platform :
      Option (Platform W)
      → (Platform W → List (AgentTool W))
      → Result (ToolRegistry W)
      → Result (ToolRegistry W)
  with_platform none tools r = r
  with_platform (some adapter) tools (ok registry) = register_all (tools adapter) registry
  with_platform (some adapter) tools (raise e) = raise e

module _ {W : Type 0} (py : Builtins) where
  unfoldable pub plane_tools : Platform W → List (AgentTool W)
  plane_tools adapter =
      record {
        name = "create_issue";
        description =
            "Create a new issue (ticket) in a Plane project. Use this to track work items, bugs, or feature requests.";
        parameters = schema ("project_id" ∷ "title" ∷ []) (
            field "project_id" (text_property "The Plane project ID to create the issue in.") (
              field "title" (text_property "Short, descriptive title for the issue.") (
                field "description"
                  (text_property "Detailed description of the issue (HTML supported).")
                  (field "priority"
                    (choice_property ("urgent" ∷ "high" ∷ "medium" ∷ "low" ∷ "none" ∷ [])
                      "Issue priority. Defaults to 'medium'.")
                    (field "assignee" (text_property "User ID to assign the issue to.")
                      (field "labels" (list_property "List of label IDs to apply.") end))))));
        handler = create_issue py adapter;
        required_roles = "engineer" ∷ "manager" ∷ "qa" ∷ [];
      }
      ∷ record {
        name = "update_issue";
        description =
            "Update fields on an existing Plane issue. Pass only the fields you want to change.";
        parameters = schema ("issue_id" ∷ []) (
            field "issue_id" (text_property "The ID of the issue to update.") (
              field "name" (text_property "New title for the issue.") (
                field "description_html" (text_property "New description (HTML).") (
                  field "priority"
                    (plain_choice ("urgent" ∷ "high" ∷ "medium" ∷ "low" ∷ "none" ∷ []))
                    (field "state" (text_property "New state ID for the issue.") end)))));
        handler = update_issue py adapter;
        required_roles = "engineer" ∷ "manager" ∷ "qa" ∷ [];
      }
      ∷ record {
        name = "get_issue";
        description = "Retrieve full details for a single Plane issue by its ID.";
        parameters =
            schema ("issue_id" ∷ []) (field "issue_id" (text_property "The Plane issue ID.") end);
        handler = get_issue py adapter;
        required_roles = "engineer" ∷ "manager" ∷ "qa" ∷ [];
      }
      ∷ record {
        name = "add_comment";
        description = "Add a comment to a Plane issue.";
        parameters = schema ("issue_id" ∷ "text" ∷ []) (
            field "issue_id" (text_property "The Plane issue ID to comment on.")
              (field "text" (text_property "Comment text (HTML supported).") end));
        handler = add_comment py adapter;
        required_roles = "engineer" ∷ "manager" ∷ "qa" ∷ [];
      }
      ∷ record {
        name = "list_issues";
        description =
            "List issues in a Plane project. Optionally pass filter params (status, assignee, priority, etc.).";
        parameters = schema ("project_id" ∷ []) (
            field "project_id" (text_property "The Plane project ID.") (
              field "state" (text_property "Filter by state ID.") (
                field "priority" (plain_choice ("urgent" ∷ "high" ∷ "medium" ∷ "low" ∷ "none" ∷ []))
                  (field "assignee" (text_property "Filter by assignee user ID.") end))));
        handler = list_issues py adapter;
        required_roles = "engineer" ∷ "manager" ∷ "qa" ∷ [];
      }
      ∷ []

  unfoldable pub outline_tools : Platform W → List (AgentTool W)
  outline_tools adapter =
      record {
        name = "search_documents";
        description =
            "Full-text search across all Outline wiki documents. Returns documents with relevance ranking and a context snippet.";
        parameters = schema ("query" ∷ []) (
            field "query" (text_property "The text to search for.") (
              field "limit"
                (integer_property 1 50 "Maximum number of results to return. Defaults to 10.")
                end));
        handler = search_documents py adapter;
        required_roles = "writer" ∷ "researcher" ∷ "manager" ∷ "analyst" ∷ [];
      }
      ∷ record {
        name = "create_document";
        description =
            "Create a new document in the Outline wiki. The document is published immediately by default.";
        parameters = schema ("title" ∷ "text" ∷ []) (
            field "title" (text_property "Document title.") (
              field "text" (text_property "Document body in Markdown.") (
                field "collection_id"
                  (text_property
                    "Collection (folder) to place the document in. Uses the adapter default if omitted.")
                  (field "publish" (flag_property "Publish immediately. Defaults to true.") end))));
        handler = create_document py adapter;
        required_roles = "writer" ∷ "researcher" ∷ "manager" ∷ "analyst" ∷ [];
      }
      ∷ record {
        name = "get_document";
        description = "Retrieve the full content of an Outline document by its ID.";
        parameters =
            schema ("doc_id" ∷ [])
              (field "doc_id" (text_property "The Outline document UUID.") end);
        handler = get_document py adapter;
        required_roles = "writer" ∷ "researcher" ∷ "manager" ∷ "analyst" ∷ [];
      }
      ∷ record {
        name = "update_document";
        description =
            "Update an Outline document's title or body. Set append=true to add content rather than replace.";
        parameters = schema ("doc_id" ∷ []) (
            field "doc_id" (text_property "The Outline document UUID.") (
              field "title" (text_property "New title (leave unset to keep existing).") (
                field "text" (text_property "New body text in Markdown.") (
                  field "append"
                    (flag_property "If true, append text instead of replacing. Defaults to false.")
                    end))));
        handler = update_document py adapter;
        required_roles = "writer" ∷ "researcher" ∷ "manager" ∷ "analyst" ∷ [];
      }
      ∷ []

  unfoldable pub mattermost_tools : Platform W → List (AgentTool W)
  mattermost_tools adapter =
      record {
        name = "send_message";
        description =
            "Post a message to a Mattermost channel. Use this to notify humans, share updates, or ask for input.";
        parameters = schema ("channel_id" ∷ "message" ∷ []) (
            field "channel_id" (text_property "The Mattermost channel ID to post to.")
              (field "message" (text_property "The message text (Markdown supported).") end));
        handler = send_message py adapter;
        required_roles = [];
      }
      ∷ record {
        name = "reply_to_message";
        description =
            "Reply in a Mattermost thread. The reply is posted in the same thread as the referenced message.";
        parameters = schema ("post_id" ∷ "message" ∷ []) (
            field "post_id" (text_property "The ID of the post to reply to.")
              (field "message" (text_property "The reply text (Markdown supported).") end));
        handler = reply_to_message py adapter;
        required_roles = [];
      }
      ∷ record {
        name = "search_posts";
        description =
            "Search Mattermost messages for specific terms. Returns matching posts with metadata.";
        parameters = schema ("terms" ∷ []) (
            field "terms" (text_property "Search terms (supports Mattermost search syntax).") (
              field "team_id"
                (text_property "Limit search to a specific team. Uses the default team if omitted.")
                end));
        handler = search_posts py adapter;
        required_roles = [];
      }
      ∷ []

  unfoldable pub meili_tools : Platform W → List (AgentTool W)
  meili_tools adapter =
      record {
        name = "search_all";
        description =
            "Search across all indexed content simultaneously — tickets (Plane), documents (Outline), and messages (Mattermost). Always scoped to your company's data. Use this when you need a broad answer and don't know which tool has it.";
        parameters = schema ("query" ∷ "company_id" ∷ []) (
            field "query" (text_property "The search query.") (
              field "company_id" (text_property "Your company ID (required for tenant isolation).")
                (field "filters"
                  (text_property
                    "Optional Meilisearch filter expression e.g. \"status = 'open'\". company_id is always applied automatically.")
                  (field "limit" (integer_property 1 100 "Results per index. Defaults to 20.")
                    end))));
        handler = search_all py adapter;
        required_roles = [];
      }
      ∷ record {
        name = "search";
        description =
            "Search within a specific index: 'tickets', 'documents', or 'messages'. More targeted than search_all when you know which content type to query.";
        parameters = schema ("index" ∷ "query" ∷ []) (
            field "index"
              (choice_property ("tickets" ∷ "documents" ∷ "messages" ∷ []) "The index to search.")
              (field "query" (text_property "The search query.") (
                field "company_id"
                  (text_property "Your company ID (recommended for tenant isolation).")
                  (field "filters" (text_property "Optional Meilisearch filter expression.") (
                    field "limit" (integer_property 1 100 "Maximum results. Defaults to 20.")
                      end)))));
        handler = search_index py adapter;
        required_roles = [];
      }
      ∷ []

  unfoldable pub build_registry_for_company :
      Adapters (Platform W) → String → Result (ToolRegistry W)
  build_registry_for_company adapters company_id =
      if is_empty company_id
      then raise (value_error "company_id must not be empty")
      else with_platform (get_optional company_id "meilisearch" adapters) meili_tools (
          with_platform (get_optional company_id "mattermost" adapters) mattermost_tools (
            with_platform (get_optional company_id "outline" adapters) outline_tools
              (with_platform (get_optional company_id "plane" adapters) plane_tools (ok []))))
