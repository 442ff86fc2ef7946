-- ===== src/Engine/ToolDefinitions/Required.antt =====
-- tool_definitions.py: what the handlers of a company's registry require of a call.
use agentcompany.Prelude.{
  ◌≡◌, ◌≢◌, refl, String, true, false, List, [], ◌∷◌, contains, ◌⊎◌, inl, inr, Member, eq_iff,
  arith, Option, some, none, insert, ap, Bool-cases, ◌==◌, ◌∙◌, is_empty,
}
use agentcompany.Json.{Json, Fields, Items, get, arr, str, nil, cons, truthy, Builtins}
use agentcompany.Exec.{
  Exec, raise, value_error, ◌>>=◌, bind_of_ok, bind_of_raise, ok, Result, raise_if, pure, Error,
  ok_inj,
}
use agentcompany.Engine.ToolRegistry.{AgentTool, ToolRegistry, register}
use agentcompany.Engine.ToolDefinitions.{
  given, required, Platform, create_issue, update_issue, search_documents, send_message, search_all,
  get_issue, create_document, reply_to_message, search_index, add_comment, get_document,
  search_posts, list_issues, update_document,
}
use agentcompany.Engine.ToolDefinitions.Catalog.{
  plane_tools, register_all, with_platform, build_registry_for_company, outline_tools,
  mattermost_tools, meili_tools,
}
use agentcompany.Adapters.Registry.{Adapters}

abbrev texts_in : Items → List String
texts_in nil = []
texts_in (cons (str s) rest) = s ∷ texts_in rest
texts_in (cons _ rest) = texts_in rest

-- The arguments that a tool's schema calls required.
abbrev pub required_keys : {W : Type 0} → AgentTool W → List String
required_keys tool = elim (get "required" tool.parameters) [
  | some (arr keys) ↦ texts_in keys
  | _ ↦ []
]

-- A call is refused before the adapter is called.
abbrev pub Refuses : {W : Type 0} → (Fields → Exec W Json) → Fields → W → Type 0
Refuses handler arguments w = (why : String) × (handler arguments w ≡ (raise (value_error why), w))

raise_is_not_ok : {A : Type 0} {e : Error} {a : A} → raise e ≡ ok a → ⊥
raise_is_not_ok h = cc

is_only : (k key : String) → contains (k ∷ []) key ≡ true → k ≡ key
is_only k key h = ground (arith, eq_iff k key)

is_either : (k j key : String) → contains (k ∷ j ∷ []) key ≡ true → (k ≡ key) ⊎ (j ≡ key)
is_either k j key h = elim (Bool-cases (k == key)) [
  | inl e ↦ inl ((eq_iff k key).0 e)
  | inr e ↦ inr (ground (arith, eq_iff j key))
]

module _ {W : Type 0} where
  required_missing :
      (key message : String) (arguments : Fields) (w : W)
      → truthy (given key arguments) ≡ false
      → required key message arguments w ≡ (raise (value_error message), w)
  unfolding required raise_if ◌>>=◌
  required_missing key message arguments w e = rw e refl

  required-given :
      (key message : String) (arguments : Fields) (w : W)
      → truthy (given key arguments) ≡ true
      → required key message arguments w ≡ (ok (given key arguments), w)
  unfolding required raise_if ◌>>=◌ pure
  required-given key message arguments w e = rw e refl

  -- What the schema requires, the handler requires.
  record Enforces (tool : AgentTool W) : Type 0 where
    refuse :
        (key : String)
        → contains (required_keys tool) key ≡ true
        → (arguments : Fields) (w : W) → truthy (given key arguments) ≡ false
        → Refuses tool.handler arguments w

  Enforces-one :
      {k : String} (message : String) (rest : Fields → Json → Exec W Json) (tool : AgentTool W)
      → required_keys tool ≡ k ∷ []
      → ((a : Fields) → tool.handler a ≡ (required k message a >>= rest a))
      → Enforces tool
  Enforces-one {k} message rest tool e h = record { refuse = go }
    where
      go :
          (key : String)
          → contains (required_keys tool) key ≡ true
          → (arguments : Fields) (w : W) → truthy (given key arguments) ≡ false
          → Refuses tool.handler arguments w
      go key asked arguments w missing =
          let same = is_only k key (rw e at asked) in
          (
            message,
            rw (h arguments) (
                bind_of_raise (required k message arguments) (rest arguments)
                  (required_missing k message arguments w (rw same missing))),
          )

  Enforces-two :
      {k j : String} (m n : String) (rest : Fields → Json → Json → Exec W Json) (tool : AgentTool W)
      → required_keys tool ≡ k ∷ j ∷ []
      → ((a : Fields) → tool.handler a ≡ (required k m a >>= λ v. required j n a >>= rest a v))
      → Enforces tool
  Enforces-two {k} {j} m n rest tool e h = record { refuse = go }
    where
      go :
          (key : String)
          → contains (required_keys tool) key ≡ true
          → (arguments : Fields) (w : W) → truthy (given key arguments) ≡ false
          → Refuses tool.handler arguments w
      go key asked arguments w missing =
          rw (h arguments) (elim (Bool-cases (truthy (given k arguments))) [
            | inl there ↦ elim (is_either k j key (rw e at asked)) [
              | inl same ↦ cc
              | inr same ↦ (
                n,
                bind_of_ok _ _ (required-given k m arguments w there)
                    ∙ bind_of_raise _ (rest arguments _)
                        (required_missing j n arguments w (rw same missing)),
              )
            ]
            | inr absent ↦ (m, bind_of_raise _ _ (required_missing k m arguments w absent))
          ])

  -- Every tool of a list does, but for one.
  abbrev AllEnforce : List (AgentTool W) → Type 0
  AllEnforce [] = Unit
  AllEnforce (tool ∷ tools) = (tool.name ≢ "create_document" → Enforces tool) × AllEnforce tools

  module _ (py : Builtins) (adapter : Platform W) where
    plane_enforces : AllEnforce (plane_tools py adapter)
    unfolding plane_tools create_issue update_issue get_issue add_comment list_issues get
    plane_enforces = (
      (λ _. Enforces-two _ _ _ _ refl (λ a. refl)),
      (
        (λ _. Enforces-one _ _ _ refl (λ a. refl)),
        (
          (λ _. Enforces-one _ _ _ refl (λ a. refl)),
          (
            (λ _. Enforces-two _ _ _ _ refl (λ a. refl)),
            ((λ _. Enforces-one _ _ _ refl (λ a. refl)), tt),
          ),
        ),
      ),
    )

    outline_enforces : AllEnforce (outline_tools py adapter)
    unfolding outline_tools search_documents create_document get_document update_document get
    outline_enforces = (
      (λ _. Enforces-one _ _ _ refl (λ a. refl)),
      (
        (λ other. absurd (other refl)),
        (
          (λ _. Enforces-one _ _ _ refl (λ a. refl)),
          ((λ _. Enforces-one _ _ _ refl (λ a. refl)), tt),
        ),
      ),
    )

    mattermost_enforces : AllEnforce (mattermost_tools py adapter)
    unfolding mattermost_tools send_message reply_to_message search_posts get
    mattermost_enforces = (
      (λ _. Enforces-two _ _ _ _ refl (λ a. refl)),
      (
        (λ _. Enforces-two _ _ _ _ refl (λ a. refl)),
        ((λ _. Enforces-one _ _ _ refl (λ a. refl)), tt),
      ),
    )

    meili_enforces : AllEnforce (meili_tools py adapter)
    unfolding meili_tools search_all search_index get
    meili_enforces = (
      (λ _. Enforces-two _ _ _ _ refl (λ a. refl)),
      ((λ _. Enforces-two _ _ _ _ refl (λ a. refl)), tt),
    )

  -- What holds of every entry.
  abbrev Enforced : ToolRegistry W → Type 0
  Enforced [] = Unit
  Enforced ((name, tool) ∷ rest) =
      ((name ≡ tool.name) × (tool.name ≢ "create_document" → Enforces tool)) × Enforced rest

  insert-Enforced :
      (tool : AgentTool W) (registry : ToolRegistry W)
      → (tool.name ≢ "create_document" → Enforces tool)
      → Enforced registry
      → Enforced (insert tool.name tool registry)
  insert-Enforced tool [] t r = ((refl, t), tt)
  insert-Enforced tool ((name, other) ∷ rest) t (o, r) = elim (Bool-cases (name == tool.name)) [
    | inl e ↦ rw e ((refl, t), r)
    | inr e ↦ rw e (o, insert-Enforced tool rest t r)
  ]

  register_all-Enforced :
      (tools : List (AgentTool W)) (registry r : ToolRegistry W)
      → AllEnforce tools
      → Enforced registry
      → register_all tools registry ≡ ok r
      → Enforced r
  unfolding register_all register
  register_all-Enforced [] registry r t e h = rw⁻¹ (ok_inj h) e
  register_all-Enforced (tool ∷ tools) registry r (t, ts) e h =
      elim (Bool-cases (is_empty tool.name)) [
        | inl unnamed ↦ absurd (raise_is_not_ok (rw (unnamed, register_all) at h))
        | inr named ↦
            register_all-Enforced tools _ r ts (insert-Enforced tool registry t e)
              (rw (named, register_all) at h)
      ]

  with_platform-Enforced :
      (tools : Platform W → List (AgentTool W))
      → ((adapter : Platform W) → AllEnforce (tools adapter))
      → (found : Option (Platform W)) (before : Result (ToolRegistry W))
      → ((r : ToolRegistry W) → before ≡ ok r → Enforced r)
      → (r : ToolRegistry W) → with_platform found tools before ≡ ok r
      → Enforced r
  with_platform-Enforced tools t none before e r h = e r h
  with_platform-Enforced tools t (some adapter) (ok registry) e r h =
      register_all-Enforced (tools adapter) registry r (t adapter) (e registry refl) h
  with_platform-Enforced tools t (some adapter) (raise x) e r h = cc

  member-Enforced :
      (name : String) (tool : AgentTool W) (registry : ToolRegistry W)
      → Enforced registry
      → Member (name, tool) registry
      → name ≢ "create_document"
      → Enforces tool
  member-Enforced name tool [] e m other = absurd m
  member-Enforced name tool ((n, t) ∷ rest) ((same, f), e) (inl p) other =
      let q : tool ≡ t = ap (λ (x : String × AgentTool W). x.1) p in
      let named : name ≡ n = ap (λ (x : String × AgentTool W). x.0) p in
      rw q (f (λ k. other (named ∙ same ∙ k)))
  member-Enforced name tool ((n, t) ∷ rest) (o, e) (inr m) other =
      member-Enforced name tool rest e m other

  -- In the registry of a company, whatever its adapters: a call without an argument that the tool's
  -- schema calls required is refused with a ValueError before the adapter is called. An argument
  -- that is empty counts as missing. The tool create_document is left out, for its text.
  pub registry_enforces_schemas :
      (py : Builtins) (adapters : Adapters (Platform W)) (company_id : String) (r : ToolRegistry W)
      → build_registry_for_company py adapters company_id ≡ ok r
      → (name : String) (tool : AgentTool W) → Member (name, tool) r
      → name ≢ "create_document"
      → (key : String) → contains (required_keys tool) key ≡ true
      → (arguments : Fields) (w : W) → truthy (given key arguments) ≡ false
      → Refuses tool.handler arguments w
  unfolding build_registry_for_company
  registry_enforces_schemas py adapters company_id r built name tool m other =
      (member-Enforced name tool r all m other).refuse
    where
      all : Enforced r
      all = elim (Bool-cases (is_empty company_id)) [
        | inl unnamed ↦ absurd (raise_is_not_ok (rw unnamed at built))
        | inr named ↦
            with_platform-Enforced (meili_tools py) (meili_enforces py) _ _
              (with_platform-Enforced (mattermost_tools py) (mattermost_enforces py) _ _ (
                with_platform-Enforced (outline_tools py) (outline_enforces py) _ _ (
                  with_platform-Enforced (plane_tools py) (plane_enforces py) _ (ok [])
                    (λ r e. rw⁻¹ (ok_inj e) tt))))
              r (rw named at built)
      ]
