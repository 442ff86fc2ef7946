-- ===== src/Engine/Memory.antt =====
-- services/agent-runtime/app/engine/memory.py: an agent's long-term memory. The vector store, the
-- embedder, the database and `uuid4` are parameters; `created_at` is left out.
pub mod Search
use Prim.Native.String.{◌++◌, []}
use agentcompany.Prelude.{
  String, Dict, Option, List, if◌then◌else◌, Bool, ℕ, is_empty, ◌∷◌, true, or_else, [], contains,
  none, ◌&&◌, not, ◌||◌, some, min, false,
}
use agentcompany.Json.{Fields}
use agentcompany.Exec.{
  Result, Exec, ok, raise, value_error, ◌>>=◌, ◌>>◌, pure, raise_if, lift, total,
}
use agentcompany.Prelude.Int.{ℤ, ltb_ℤ, pos, pos_part}

-- A value in a metadata dict.
pub data MetaValue (F : Type 0) : Type 0 where
  text : String → MetaValue F
  int : ℤ → MetaValue F
  float : F → MetaValue F
  flag : Bool → MetaValue F

abbrev pub Metadata : Type 0 → Type 0
Metadata F = Dict (MetaValue F)

module _ (F E : Type 0) where
  pub record MemoryEntry : Type 0 where
    pub memory_id : String
    pub agent_id : String
    pub category : String
    pub content : String
    pub metadata : Metadata F
    pub embedding : Option E

  -- A row that the vector store returns; `row.get("metadata", {})` reads the last field.
  pub record Row : Type 0 where
    pub id : String
    pub category : String
    pub content : String
    pub metadata : Option (Metadata F)

  -- The services: `upsert` with `table="agent_memories"`, the search and the deletion in one agent's
  -- namespace, the two statements on `agent_entities`, the embedder, and `uuid4().hex`.
  -- `int_text` is `str` of a number, and `set_text` that of the set of some texts.
  pub record MemoryServices (W : Type 0) : Type 0 where
    pub upsert : MemoryEntry → Exec W Unit
    pub vector_search : String → E → ℕ → Option (List String) → Exec W (List Row)
    pub delete : String → String → Exec W Bool
    pub upsert_entity : String → String → String → Fields → Exec W Unit
    pub fetch_entity : String → String → String → Exec W (Option Fields)
    pub embed : String → Exec W E
    pub new_uuid : W → String × W
    pub int_text : ℤ → String
    pub set_text : List String → String

abbrev pub valid_categories : List String
valid_categories = "task_summary" ∷ "decision" ∷ "entity" ∷ "conversation" ∷ []

-- `set(categories) - VALID_CATEGORIES`, as a list.
abbrev pub invalid_in : List String → List String
invalid_in [] = []
invalid_in (c ∷ cs) =
    let rest = invalid_in cs in if contains valid_categories c then rest else c ∷ rest

abbrev pub is_empty_set : List String → Bool
is_empty_set [] = true
is_empty_set _ = false

module _ {F E : Type 0} where
  -- `MemoryEntry(...)` with `__post_init__`.
  unfoldable pub memory_entry : MemoryEntry F E → Result (MemoryEntry F E)
  memory_entry m =
      if is_empty m.memory_id
      then raise (value_error "memory_id must not be empty")
      else if is_empty m.agent_id
      then raise (value_error "agent_id must not be empty")
      else if is_empty m.category
      then raise (value_error "category must not be empty")
      else if is_empty m.content
      then raise (value_error "content must not be empty")
      else ok m

  module _ {W : Type 0} (services : MemoryServices F E W) where
    -- `memory_id or f"mem_{uuid.uuid4().hex}"`
    abbrev id_or_new : Option String → Exec W String
    id_or_new given =
        if is_empty (or_else given "")
        then (do u ← total services.new_uuid; pure ("mem_" ++ u))
        else pure (or_else given "")

    unfoldable pub store :
        String → String → Metadata F → String → Option String → Exec W (MemoryEntry F E)
    unfolding memory_entry
    store agent content metadata category memory_id = do
      raise_if (is_empty content) (value_error "content must not be empty to store a memory")
      raise_if (not (contains valid_categories category)) (
          value_error (
            "Invalid category '"
            ++ (category
                ++ "'. Must be one of: ['conversation', 'decision', 'entity', 'task_summary']")))
      mid ← id_or_new memory_id
      embedding ← services.embed content
      entry ← lift (
          memory_entry (record {
            memory_id = mid;
            agent_id = agent;
            category = category;
            content = content;
            metadata = metadata;
            embedding = some embedding;
          }))
      services.upsert entry
      pure entry

    -- The comprehension over the rows.
    unfoldable pub entries : String → List (Row F E) → Result (List (MemoryEntry F E))
    entries agent [] = ok []
    entries agent (row ∷ rows) =
        let rest = entries agent rows in
        elim (memory_entry (record {
          memory_id = row.id;
          agent_id = agent;
          category = row.category;
          content = row.content;
          metadata = or_else row.metadata [];
          embedding = none;
        })) [ ok m ↦ elim rest [ ok ms ↦ ok (m ∷ ms) | raise e ↦ raise e ] | raise e ↦ raise e ]

    -- An absent or empty list of categories is not checked.
    unfoldable pub search :
        String → String → ℤ → Option (List String) → Exec W (List (MemoryEntry F E))
    search agent query top_k categories = do
      raise_if (is_empty query) (value_error "query must not be empty")
      raise_if (ltb_ℤ top_k (pos 1))
          (value_error ("top_k must be >= 1, got " ++ services.int_text top_k))
      raise_if (not (is_empty_set (invalid_in (or_else categories [])))) (
          value_error
            ("Invalid categories: " ++ services.set_text (invalid_in (or_else categories []))))
      query_embedding ← services.embed query
      rows ← services.vector_search agent query_embedding (min (pos_part top_k) 20) categories
      lift (entries agent rows)

    unfoldable pub forget : String → String → Exec W Bool
    forget agent memory_id = do
      raise_if (is_empty memory_id) (value_error "memory_id must not be empty")
      services.delete memory_id agent

    unfoldable pub store_entity : String → String → String → Fields → Exec W Unit
    store_entity agent entity_type entity_id facts = do
      raise_if (is_empty entity_type) (value_error "entity_type must not be empty")
      raise_if (is_empty entity_id) (value_error "entity_id must not be empty")
      services.upsert_entity agent entity_type entity_id facts

    unfoldable pub get_entity : String → String → String → Exec W (Option Fields)
    get_entity agent entity_type entity_id = do
      raise_if (is_empty entity_type || is_empty entity_id)
          (value_error "entity_type and entity_id must not be empty")
      services.fetch_entity agent entity_type entity_id
