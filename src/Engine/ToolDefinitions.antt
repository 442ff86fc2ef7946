-- ===== src/Engine/ToolDefinitions.antt =====
-- services/agent-runtime/app/engine/tool_definitions.py: the handlers of the platform tools; the
-- registry of a company is in the child modules.
pub mod Catalog
pub mod Required
pub mod Offers
use agentcompany.Prelude.{
  String, Option, Bool, none, some, or_else, not, true, false, if◌then◌else◌, ◌==◌,
}
use agentcompany.Prelude.Int.{ℤ, pos}
use agentcompany.Json.{Builtins, Json, Fields, get, field, end, str, num, bool, null, obj, truthy}
use agentcompany.Exec.{
  Exec, Result, ok, raise, lift, pure, raise_if, value_error, type_error, ◌>>=◌, ◌>>◌,
}

-- An adapter of a platform: a method's name and its keyword arguments.
abbrev pub Platform : Type 0 → Type 0
Platform W = String → Fields → Exec W Json

-- `int(v)`
abbrev pub int_of : Builtins → Json → Result ℤ
int_of py (num n) = ok n
int_of py (str s) = py.parse_int s
int_of py (bool b) = ok (if b then pos 1 else pos 0)
int_of py _ = raise type_error

-- `{k: v for k, v in arguments.items() if k != key}`
abbrev pub without : String → Fields → Fields
without key end = end
without key (field k v rest) =
    let others = without key rest in if k == key then others else field k v others

-- `fields or None`
abbrev pub or_null : Fields → Json
or_null end = null
or_null d = obj d

-- `arguments.get(key) or ""`
abbrev pub given : String → Fields → Json
given key arguments = let v = or_else (get key arguments) null in if truthy v then v else str ""

-- An argument that is given, and the ValueError where it is not.
unfoldable pub required : {W : Type 0} → String → String → Fields → Exec W Json
required key message arguments = do
  raise_if (not (truthy (given key arguments))) (value_error message)
  pure (given key arguments)

module _ {W : Type 0} (py : Builtins) (adapter : Platform W) where
  -- `_make_create_issue_handler`
  unfoldable pub create_issue : Fields → Exec W Json
  create_issue arguments = do
    project_id ← required "project_id" "create_issue requires 'project_id'" arguments
    title ← required "title" "create_issue requires 'title'" arguments
    adapter "create_issue" (
        field "project_id" project_id (
          field "title" title (
            field "description" (or_else (get "description" arguments) (str "")) (
              field "priority" (or_else (get "priority" arguments) (str "medium")) (
                field "assignee" (or_else (get "assignee" arguments) null)
                  (field "labels" (or_else (get "labels" arguments) null) end))))))

  -- `_make_update_issue_handler`
  unfoldable pub update_issue : Fields → Exec W Json
  update_issue arguments = do
    issue_id ← required "issue_id" "update_issue requires 'issue_id'" arguments
    adapter "update_issue" (field "issue_id" issue_id (without "issue_id" arguments))

  -- `_make_get_issue_handler`
  unfoldable pub get_issue : Fields → Exec W Json
  get_issue arguments = do
    issue_id ← required "issue_id" "get_issue requires 'issue_id'" arguments
    adapter "get_issue" (field "issue_id" issue_id end)

  -- `_make_add_comment_handler`
  unfoldable pub add_comment : Fields → Exec W Json
  add_comment arguments = do
    issue_id ← required "issue_id" "add_comment requires 'issue_id'" arguments
    text ← required "text" "add_comment requires 'text'" arguments
    adapter "add_comment" (field "issue_id" issue_id (field "text" text end))

  -- `_make_list_issues_handler`
  unfoldable pub list_issues : Fields → Exec W Json
  list_issues arguments = do
    project_id ← required "project_id" "list_issues requires 'project_id'" arguments
    adapter "list_issues" (
        field "project_id" project_id
          (field "filters" (or_null (without "project_id" arguments)) end))

  -- `_make_search_documents_handler`
  unfoldable pub search_documents : Fields → Exec W Json
  search_documents arguments = do
    query ← required "query" "search_documents requires 'query'" arguments
    limit ← lift (int_of py (or_else (get "limit" arguments) (num (pos 10))))
    adapter "search_documents" (field "query" query (field "limit" (num limit) end))

  -- `_make_create_document_handler`
  unfoldable pub create_document : Fields → Exec W Json
  create_document arguments = do
    title ← required "title" "create_document requires 'title'" arguments
    adapter "create_document" (
        field "title" title (
          field "text" (given "text" arguments) (
            field "collection_id" (or_else (get "collection_id" arguments) null) (
              field "publish" (bool (truthy (or_else (get "publish" arguments) (bool true))))
                end))))

  -- `_make_get_document_handler`
  unfoldable pub get_document : Fields → Exec W Json
  get_document arguments = do
    doc_id ← required "doc_id" "get_document requires 'doc_id'" arguments
    adapter "get_document" (field "doc_id" doc_id end)

  -- `_make_update_document_handler`
  unfoldable pub update_document : Fields → Exec W Json
  update_document arguments = do
    doc_id ← required "doc_id" "update_document requires 'doc_id'" arguments
    adapter "update_document" (
        field "doc_id" doc_id (
          field "title" (or_else (get "title" arguments) null) (
            field "text" (or_else (get "text" arguments) null) (
              field "append" (bool (truthy (or_else (get "append" arguments) (bool false)))) end))))

  -- `_make_send_message_handler`
  unfoldable pub send_message : Fields → Exec W Json
  send_message arguments = do
    channel_id ← required "channel_id" "send_message requires 'channel_id'" arguments
    message ← required "message" "send_message requires 'message'" arguments
    adapter "send_message" (
        field "channel_id" channel_id
          (field "message" message (field "props" (or_else (get "props" arguments) null) end)))

  -- `_make_reply_to_message_handler`
  unfoldable pub reply_to_message : Fields → Exec W Json
  reply_to_message arguments = do
    post_id ← required "post_id" "reply_to_message requires 'post_id'" arguments
    message ← required "message" "reply_to_message requires 'message'" arguments
    adapter "reply_to_message" (field "post_id" post_id (field "message" message end))

  -- `_make_search_posts_handler`
  unfoldable pub search_posts : Fields → Exec W Json
  search_posts arguments = do
    terms ← required "terms" "search_posts requires 'terms'" arguments
    adapter "search_posts"
        (field "terms" terms (field "team_id" (or_else (get "team_id" arguments) null) end))

  -- `_make_search_all_handler`
  unfoldable pub search_all : Fields → Exec W Json
  search_all arguments = do
    query ← required "query" "search_all requires 'query'" arguments
    company_id ←
        required "company_id" "search_all requires 'company_id' for tenant isolation" arguments
    limit ← lift (int_of py (or_else (get "limit" arguments) (num (pos 20))))
    adapter "search_all" (
        field "query" query (
          field "company_id" company_id (
            field "filters" (or_else (get "filters" arguments) null)
              (field "limit" (num limit) end))))

  -- `_make_search_index_handler`
  unfoldable pub search_index : Fields → Exec W Json
  search_index arguments = do
    index ← required "index" "search requires 'index' (tickets|documents|messages)" arguments
    query ← required "query" "search requires 'query'" arguments
    let company_id = given "company_id" arguments
    limit ← lift (int_of py (or_else (get "limit" arguments) (num (pos 20))))
    adapter "search" (
        field "index" index (
          field "query" query (
            field "filters" (or_else (get "filters" arguments) null) (
              field "limit" (num limit)
                (field "company_id" (if truthy company_id then company_id else null) end)))))
